-- ===== src/Choice/Rings/Visit.antt =====
-- The first loop of `get_port_ringnum`: it visits every port and leaves a list of some of them.
use platform.Common.{ℕ, zero, suc, ◌+◌, ◌-◌, ◌%◌, ◌^◌, ◌≤◌, ◌<◌, ◌≡◌, refl, ◌∙◌, none, some}
use platform.Common.{List, [], ◌∷◌, arith, Outcome, ok, load-ok, ◌==◌, if◌then◌else◌}
use platform.Common.{ne→==, length, false, ap}
use platform.Common.Int.{ℤ, pos, negsuc, eqb_ℤ}
use native.Mathlib.Nat.{mod-eq_of_lt}
use native.Mathlib.Numerals.{add-one}
use platform.Double.{Double}
use platform.PortTable.{Uthash}
use platform.PortSort.{creat_node}
use platform.PortSort.Chain.{Cell, node_of}
use platform.PortSort.Insert.{visible}
use platform.PortSort.Visible.{IsPortList, add_node-IsPortList}
use platform.Device.{Context}
use platform.Choice.Rings.{Scan, int_speed, int_weight, scan_port, scan}

module _ (d : Double) (u : Uthash d) (table : u.Table) (link_speed : ℕ → ℕ) (ctx : Context) where
  -- What the ports from `i` on must satisfy: they are within the arrays, and have a weight.
  pub record Listed (i n : ℕ) : Type 0 where
    pub fits : i + n ≤ 16
    pub in_range : (j : ℕ) → j < i + n → ctx.port_list j < 16
    pub known :
        (j : ℕ)
        → j < i + n
        → eqb_ℤ (int_weight d u table link_speed (ctx.port_list j)) (negsuc 0) ≡ false

  abbrev pub speed_at : ℕ → ℤ
  speed_at j = int_speed d u table link_speed (ctx.port_list j)

  abbrev pub weight_at : ℕ → ℤ
  weight_at j = int_weight d u table link_speed (ctx.port_list j)

  -- A list of ports with the property `P`, after `n` ports from `i` on.
  pub record Scanned (P : List Cell → Type 0) (i n : ℕ) (before : ℤ) (result : Outcome (Scan d))
      : Type 0 where
    pub state : Scan d
    pub cells : List Cell
    pub returns : result ≡ ok state
    pub list : IsPortList state.heap state.sort cells
    pub holds : P cells
    pub weight : state.weight ≡ (if n == 0 then before else weight_at (i + n - 1))

  last_weight :
      (i n : ℕ) (x b c : ℤ)
      → x ≡ (if n == 0 then b else weight_at (suc i + n - 1))
      → b ≡ weight_at i
      → x ≡ (if suc n == 0 then c else weight_at (i + suc n - 1))
  last_weight i zero x b c e h = e ∙ h ∙ ap (λ j. weight_at j) (omega arith)
  last_weight i (suc n) x b c e h =
      rw (ne→== (suc (suc n)) 0 (omega arith))
        (rw (ne→== (suc n) 0 (omega arith)) at e ∙ ap (λ j. weight_at j) (omega arith))

  -- One later port: its node is made and offered to the list.
  scan_port-later :
      (i : ℕ) (s : Scan d) (cs : List Cell)
      → suc i < 16
      → ctx.port_list (suc i) < 16
      → eqb_ℤ (weight_at (suc i)) (negsuc 0) ≡ false
      → IsPortList s.heap s.sort cs
      → (s' : Scan d) × (place : ℕ) × (scan_port d u table link_speed ctx (suc i) s ≡ ok s')
        × IsPortList s'.heap s'.sort (
            visible
              (record { place = place; speed = speed_at (suc i); port = ctx.port_list (suc i) })
              cs)
        × (s'.weight ≡ weight_at (suc i))
  unfolding scan_port
  scan_port-later i s cs fits small known w =
      let t = ctx.port_list (suc i) in
      let e : t % 2 ^ 8 ≡ t = mod-eq_of_lt {n = t} {m = 256} (omega arith) in
      let (h, returns, w') = add_node-IsPortList s.heap s.sort cs (speed_at (suc i)) (pos t) w in
      (
        record {
          heap = h;
          sort = s.sort;
          weight = weight_at (suc i);
          weight_sum = d.add s.weight_sum (d.from_int (weight_at (suc i)));
        },
        length s.heap,
        rw (load-ok 16 ctx.port_list (suc i) fits, e, known, ne→== (suc i) 0 (omega arith), returns)
            refl,
        rw e at w',
        refl,
      )

  module _ (bound : ℕ) (P : List Cell → Type 0)
      (keep : (j : ℕ) (place : ℕ) (cs : List Cell)
        → j < bound
        → P cs
        → P (
            visible
              (record { place = place; speed = speed_at j; port = ctx.port_list j })
              cs)) where
    scan-Scanned :
        (n i : ℕ) (s : Scan d) (cs : List Cell)
        → suc i + n ≤ bound
        → Listed (suc i) n
        → IsPortList s.heap s.sort cs
        → P cs
        → Scanned P (suc i) n s.weight (scan d u table link_speed n ctx (suc i) s)
    unfolding scan
    scan-Scanned zero i s cs b l w p = record {
      state = s;
      cells = cs;
      returns = refl;
      list = w;
      holds = p;
      weight = refl;
    }
    scan-Scanned (suc n) i s cs b l w p =
        let (s', place, returns, w', weight) =
          scan_port-later i s cs (omega (arith, l.fits)) (l.in_range (suc i) (omega arith))
            (l.known (suc i) (omega arith)) w in
        let later : Listed (suc (suc i)) n = record {
          fits = omega (arith, l.fits);
          in_range = λ j h. l.in_range j (omega arith);
          known = λ j h. l.known j (omega arith);
        } in
        let rest =
          scan-Scanned n (suc i) s' _ (omega arith) later w'
            (keep (suc i) place cs (omega arith) p) in
        record {
          state = rest.state;
          cells = rest.cells;
          returns = rw (returns, add-one) rest.returns;
          list = rest.list;
          holds = rest.holds;
          weight = last_weight (suc i) n _ s'.weight s.weight rest.weight weight;
        }

    -- The whole loop, from the first port on.
    pub scan_all-Scanned :
        (n : ℕ) (sum : d.Num)
        → suc n ≤ bound
        → Listed 0 (suc n)
        → ((place : ℕ)
            → P (record { place = place; speed = speed_at 0; port = ctx.port_list 0 } ∷ []))
        → Scanned P 0 (suc n) (pos 0) (
            scan d u table link_speed
              (suc n)
              ctx
              0
              (record { heap = []; sort = none; weight = pos 0; weight_sum = sum }))
    unfolding scan
    scan_all-Scanned n sum b l p =
        let rest =
          scan-Scanned n 0 first_state (first_cell ∷ []) (omega arith) later first_list (p 0) in
        record {
          state = rest.state;
          cells = rest.cells;
          returns = rw first_returns rest.returns;
          list = rest.list;
          holds = rest.holds;
          weight = last_weight 0 n _ (weight_at 0) (pos 0) rest.weight refl;
        }
      where
        first_cell : Cell
        first_cell = record { place = 0; speed = speed_at 0; port = ctx.port_list 0 }

        first_state : Scan d
        first_state = record {
          heap = node_of first_cell none ∷ [];
          sort = some 0;
          weight = weight_at 0;
          weight_sum = d.add sum (d.from_int (weight_at 0));
        }

        first_list : IsPortList first_state.heap first_state.sort (first_cell ∷ [])
        first_list = record {
          chain = (refl, none, refl, refl);
          apart = (tt, tt);
          fits = omega arith;
        }

        later : Listed 1 n
        later = record {
          fits = omega (arith, l.fits);
          in_range = λ j h. l.in_range j (omega arith);
          known = λ j h. l.known j (omega arith);
        }

        first_returns :
            scan_port d u table link_speed ctx 0
              (record { heap = []; sort = none; weight = pos 0; weight_sum = sum })
            ≡ ok first_state
        first_returns =
            unfold scan_port creat_node in
            rw
              (
                mod-eq_of_lt {n = ctx.port_list 0} {m = 256}
                    (omega (arith, l.in_range 0 (omega arith))),
                l.known 0 (omega arith),
              )
              (rw
                (mod-eq_of_lt {n = ctx.port_list 0} {m = 256}
                  (omega (arith, l.in_range 0 (omega arith))))
                refl)
