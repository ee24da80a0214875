-- ===== src/Choice/Rings/Total.antt =====
-- What `get_port_ringnum` gives to the ports when the last port's weight is above the number of
-- rings, so that the rings are dealt out one by one.
use platform.Common.{ℕ, zero, suc, ◌-◌, ◌^◌, ◌≤◌, ◌<◌, ◌≡◌, refl, ◌∙◌, ap, none}
use platform.Common.{List, [], ◌∷◌, arith, Outcome, ok, ltb, if◌then◌else◌, sum_to, true, false}
use platform.Common.{Bool-cases, inl, inr, ge→ltb, ◌==◌, ne→==}
use platform.Common.Int.{ℤ, pos, unsigned, ltb_ℤ}
use mathlib.Core.Path.{subst}
use platform.Double.{Double}
use platform.PortTable.{Uthash}
use platform.PortSort.Chain.{Cell, Chain}
use platform.PortSort.Insert.{insert, visible}
use platform.Device.{Context}
use platform.Choice.Rings.{Scan, scan, get_port_ringnum}
use platform.Choice.Rings.Deal.{PortsFit, dealt, deal-dealt, sum_to-dealt, dealt-single}
use platform.Choice.Rings.Visit.{Listed, speed_at, weight_at, Scanned, scan_all-Scanned}

PortsFit-insert : (m : Cell) (cs : List Cell) → m.port < 16 → PortsFit cs → PortsFit (insert m cs)
PortsFit-insert m [] h f = (h, tt)
PortsFit-insert m (c ∷ cs) h f = elim (Bool-cases (ltb_ℤ m.speed c.speed)) [
  | inl e ↦ rw e (f.0, PortsFit-insert m cs h f.1)
  | inr e ↦ rw e (h, f)
]

-- A list of ports that is not empty, all within the arrays.
abbrev Dealable : List Cell → Type 0
Dealable [] = ⊥
Dealable (c ∷ cs) = PortsFit (c ∷ cs)

Dealable-visible : (m : Cell) (cs : List Cell) → m.port < 16 → Dealable cs → Dealable (visible m cs)
Dealable-visible m [] h f = f
Dealable-visible m (c ∷ cs) h f = elim (Bool-cases (ltb_ℤ m.speed c.speed)) [
  | inl e ↦ rw e (f.0, PortsFit-insert m cs h f.1)
  | inr e ↦ rw e f
]

-- One port alone.
abbrev Alone : ℕ → ℤ → List Cell → Type 0
Alone t s [] = ⊥
Alone t s (c ∷ []) = (c.port ≡ t) × (c.speed ≡ s)
Alone t s (c ∷ e ∷ cs) = ⊥

ltb_ℤ-irrefl : (s : ℤ) → ltb_ℤ s s ≡ false
ltb_ℤ-irrefl s = ground arith

Alone-visible :
    (t : ℕ) (s : ℤ) (m : Cell) (cs : List Cell)
    → m.speed ≡ s
    → Alone t s cs
    → Alone t s (visible m cs)
Alone-visible t s m [] h f = f
Alone-visible t s m (c ∷ []) h f =
    let e : ltb_ℤ m.speed c.speed ≡ false = rw (h, f.1, ltb_ℤ-irrefl s) refl in rw e f
Alone-visible t s m (c ∷ e ∷ cs) h f = absurd f

module _ (d : Double) (u : Uthash d) (table : u.Table) (link_speed : ℕ → ℕ) where
  -- What `choice_init` finds when it calls `get_port_ringnum`: the ports are listed and have a
  -- weight, no ring is given yet, and there is a ring for each port.
  pub record IsReady (ctx : Context) : Type 0 where
    pub some_port : 0 < ctx.port_num
    pub enough : ctx.port_num ≤ ctx.ring_num
    pub small : ctx.ring_num < 2 ^ 16
    pub listed : Listed d u table link_speed ctx 0 ctx.port_num
    pub none_given : (p : ℕ) → p < 16 → ctx.port_ringnum p ≡ 0

  -- The weight that the loop leaves in the variable, that of the last port, is above the rings.
  abbrev pub IsHeavy : Context → Type 0
  IsHeavy ctx =
      ltb ctx.ring_num (unsigned 32 (weight_at d u table link_speed ctx (ctx.port_num - 1))) ≡ true

  -- The array after the rings are dealt out along a list.
  abbrev spread : Context → List Cell → ℕ → ℕ
  spread ctx [] = ctx.port_ringnum
  spread ctx (c ∷ cs) = dealt ctx.ring_num (c ∷ cs) (c ∷ cs) ctx.port_ringnum

  module _ (ctx : Context) (r : IsReady ctx) (heavy : IsHeavy ctx) where
    scan_sum : ℕ → Outcome (Scan d)
    scan_sum n =
        scan d u table link_speed n ctx 0
          (record { heap = []; sort = none; weight = pos 0; weight_sum = d.from_int (pos 0) })

    ringnum-deal :
        (P : List Cell → Type 0)
        → Scanned d u table link_speed ctx P 0 ctx.port_num (pos 0) (scan_sum ctx.port_num)
        → ((cs : List Cell) → P cs → Dealable cs)
        → (cs : List Cell) × P cs
          × (get_port_ringnum d u table link_speed ctx
              ≡ ok (record ctx { port_ringnum = spread ctx cs }))
    unfolding get_port_ringnum scan_sum
    ringnum-deal P sc able = go sc.cells sc.holds sc.list.chain (able sc.cells sc.holds)
      where
        weight_is : sc.state.weight ≡ weight_at d u table link_speed ctx (ctx.port_num - 1)
        weight_is =
            sc.weight
            ∙ rw (ne→== ctx.port_num 0 (λ e. absurd (omega (arith, r.some_port, e))))
                (ap (λ j. weight_at d u table link_speed ctx j) (omega arith))

        big : ltb ctx.ring_num (unsigned 32 sc.state.weight) ≡ true
        big = rw weight_is heavy

        go :
            (cs : List Cell)
            → P cs
            → Chain sc.state.heap sc.state.sort cs
            → Dealable cs
            → (cs : List Cell) × P cs
              × (get_port_ringnum d u table link_speed ctx
                  ≡ ok (record ctx { port_ringnum = spread ctx cs }))
        go [] p k f = absurd f
        go (c ∷ cs) p k f = (
          c ∷ cs,
          p,
          rw
              (
                ge→ltb ctx.ring_num ctx.port_num r.enough,
                sc.returns,
                big,
                deal-dealt sc.state.heap sc.state.sort c cs k f ctx.ring_num c cs sc.state.sort
                    ctx.port_ringnum k f (λ q h. omega (arith, r.none_given q h, r.small)),
              )
              refl,
        )

    positive : suc (ctx.port_num - 1) ≡ ctx.port_num
    positive = omega (arith, r.some_port)

    scanned :
        (P : List Cell → Type 0)
        → ((j : ℕ) (place : ℕ) (cs : List Cell)
            → j < ctx.port_num
            → P cs
            → P (
                visible
                  (record {
                    place = place;
                    speed = speed_at d u table link_speed ctx j;
                    port = ctx.port_list j;
                  })
                  cs))
        → ((place : ℕ)
            → P (
                record {
                  place = place;
                  speed = speed_at d u table link_speed ctx 0;
                  port = ctx.port_list 0;
                }
                ∷ []))
        → Scanned d u table link_speed ctx P 0 ctx.port_num (pos 0) (scan_sum ctx.port_num)
    unfolding scan_sum
    scanned P keep start =
        subst (λ n. Scanned d u table link_speed ctx P 0 n (pos 0) (scan_sum n)) positive
          (scan_all-Scanned d u table link_speed ctx ctx.port_num P keep (ctx.port_num - 1)
            (d.from_int (pos 0)) (omega (arith, r.some_port))
            (record {
              fits = omega (arith, r.some_port, r.listed.fits);
              in_range = λ j h. r.listed.in_range j (omega (arith, r.some_port));
              known = λ j h. r.listed.known j (omega (arith, r.some_port));
            })
            start)

    sum_to-zeros : (n : ℕ) (a : ℕ → ℕ) → ((p : ℕ) → p < n → a p ≡ 0) → sum_to n a ≡ 0
    unfolding sum_to
    sum_to-zeros zero a z = refl
    sum_to-zeros (suc n) a z =
        omega (arith, sum_to-zeros n a (λ p h. z p (omega arith)), z n (omega arith))

    sum_to-spread : (cs : List Cell) → Dealable cs → sum_to 16 (spread ctx cs) ≡ ctx.ring_num
    sum_to-spread [] f = absurd f
    sum_to-spread (c ∷ cs) f = omega (
      arith,
      sum_to-dealt ctx.ring_num c cs c cs ctx.port_ringnum f f,
      sum_to-zeros 16 ctx.port_ringnum r.none_given,
    )

    -- If the ports are listed, each with a weight in the table and no ring yet, there is a port,
    -- there are not more of them than rings and fewer than 65536 rings, and the weight of the
    -- last port is above the number of rings, get_port_ringnum returns and gives exactly ring_num
    -- rings to the ports together.
    pub heavy_total :
        (rings : ℕ → ℕ) × (get_port_ringnum d u table link_speed ctx
          ≡ ok (record ctx { port_ringnum = rings }))
        × (sum_to 16 rings ≡ ctx.ring_num)
    heavy_total =
        let (cs, f, e) =
          ringnum-deal Dealable
            (scanned Dealable
              (λ j place cs h f.
                Dealable-visible
                  (record {
                    place = place;
                    speed = speed_at d u table link_speed ctx j;
                    port = ctx.port_list j;
                  })
                  cs (r.listed.in_range j (omega arith)) f)
              (λ place. (r.listed.in_range 0 (omega (arith, r.some_port)), tt)))
            (λ cs f. f) in
        (spread ctx cs, e, sum_to-spread cs f)

    spread-Alone :
        (cs : List Cell) (t : ℕ) (s : ℤ)
        → Alone t s cs
        → (p : ℕ) → p < 16
        → spread ctx cs p ≡ (if p == t then ctx.ring_num else 0)
    spread-Alone [] t s f p h = absurd f
    spread-Alone (c ∷ []) t s f p h =
        ground (arith, dealt-single ctx.ring_num c ctx.port_ringnum p, r.none_given p h)
    spread-Alone (c ∷ e ∷ cs) t s f p h = absurd f

    Alone-Dealable : (t : ℕ) (s : ℤ) (cs : List Cell) → t < 16 → Alone t s cs → Dealable cs
    Alone-Dealable t s [] h f = f
    Alone-Dealable t s (c ∷ []) h f = (rw f.0 h, tt)
    Alone-Dealable t s (c ∷ e ∷ cs) h f = absurd f

    -- If the ports are listed, each with a weight in the table and no ring yet, there is a port,
    -- there are not more of them than rings and fewer than 65536 rings, the weight of the last
    -- port is above the number of rings, and all ports have one speed, get_port_ringnum gives
    -- every ring to the first port and none to the others.
    pub equal_speeds_first :
        ((j : ℕ)
          → j < ctx.port_num
          → speed_at d u table link_speed ctx j ≡ speed_at d u table link_speed ctx 0)
        → (rings : ℕ → ℕ) × (get_port_ringnum d u table link_speed ctx
            ≡ ok (record ctx { port_ringnum = rings }))
          × ((p : ℕ) → p < 16 → rings p ≡ (if p == ctx.port_list 0 then ctx.ring_num else 0))
    equal_speeds_first same =
        let t = ctx.port_list 0 in
        let s = speed_at d u table link_speed ctx 0 in
        let (cs, f, e) =
          ringnum-deal (Alone t s)
            (scanned (Alone t s) (λ j place cs h f. Alone-visible t s _ cs (same j h) f)
              (λ place. (refl, refl)))
            (λ cs f. Alone-Dealable t s cs (r.listed.in_range 0 (omega (arith, r.some_port))) f) in
        (spread ctx cs, e, spread-Alone cs t s f)
