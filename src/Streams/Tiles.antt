-- ===== src/Streams/Tiles.antt =====
-- How the streams are given to the cores.
use platform.Common.{
  ℕ, zero, suc, ◌+◌, ◌-◌, ◌*◌, ◌/◌, ◌%◌, ◌^◌, ◌≤◌, ◌<◌, ◌≡◌, refl, ◌∙◌, sym, ap, ◌⊎◌, inl, inr,
  arith,
}
use platform.Common.{ok, store-ok, update, ltb, leb, ◌==◌, false}
use platform.Common.{Bool-cases, eq-cases, eq→==, ne→==}
use native.Mathlib.Nat.{
  div-add-mod', div-le_self, div_self, mod_self, mod-lt, mod-eq_of_lt, mul_comm,
}
use platform.Streams.{Lcore, Fwd, give_streams, setup_fwd_config_of_each_lcore}

-- The cores, `n` from `lc` on, have between them the streams from `first` to below `last`, each the
-- ones behind those of the core before it.
abbrev pub Tiles : ℕ → ℕ → ℕ → ℕ → (ℕ → Lcore) → Type 0
Tiles zero lc first last lcores = first ≡ last
Tiles (suc n) lc first last lcores =
    ((lcores lc).stream_idx ≡ first) × Tiles n (lc + 1) (first + (lcores lc).stream_nb) last lcores

-- What a loop over cores leaves: `n` of them from `lc` on with `per` streams each.
record Given (n per lc first last : ℕ) (old new : ℕ → Lcore) : Type 0 where
  tiles : Tiles n lc first last new
  each : (j : ℕ) → lc ≤ j → j < lc + n → (new j).stream_nb ≡ per
  before : (j : ℕ) → j < lc → new j ≡ old j

times_suc : (n per first last : ℕ) → first + suc n * per ≡ last → (first + per) + n * per ≡ last
times_suc n per first last e = grind arith

times_zero : (per first last : ℕ) → first + 0 * per ≡ last → first ≡ last
times_zero per first last e = grind arith

give_streams-Given :
    (n nb_lcores per lc first last : ℕ) (old : ℕ → Lcore)
    → lc + n ≤ nb_lcores
    → first + n * per ≡ last
    → last < 2 ^ 16
    → (new : ℕ → Lcore) × (give_streams n nb_lcores per lc first old ≡ ok (new, last))
      × Given n per lc first last old new
unfolding give_streams
give_streams-Given zero nb_lcores per lc first last old fits e small =
    let e' = times_zero per first last e in
    (
      old,
      rw e' refl,
      record { tiles = e'; each = λ j lo hi. absurd (omega arith); before = λ j h. refl },
    )
give_streams-Given (suc n) nb_lcores per lc first last old fits e small =
    let lcores = update old lc (record { stream_idx = first; stream_nb = per }) in
    let e' = times_suc n per first last e in
    let exact : (first + per) % 2 ^ 16 ≡ first + per = mod-eq_of_lt (omega (arith, e')) in
    let (new, r, g) =
      give_streams-Given n nb_lcores per (lc + 1) (first + per) last lcores (omega arith) e'
        small in
    let here : new lc ≡ record { stream_idx = first; stream_nb = per } =
      g.before lc (omega arith) ∙ rw (eq→== lc lc refl) refl in
    let nb : (new lc).stream_nb ≡ per = ap (λ c. c.stream_nb) here in
    (
      new,
      (rw
          (
            store-ok nb_lcores old lc (record { stream_idx = first; stream_nb = per })
                (omega arith),
            exact,
          )
          r),
      record {
        tiles = (ap (λ c. c.stream_idx) here, rw nb g.tiles);
        each = λ j lo hi. elim (eq-cases lc j) [
          | inl x ↦ rw (sym x) nb
          | inr ne ↦ g.each j (omega (arith, ne)) (omega arith)
        ];
        before =
            λ j h. g.before j (omega arith) ∙ rw (ne→== j lc (λ x. absurd (omega (arith, x)))) refl;
      },
    )

Tiles-append :
    (n m lc first middle last : ℕ) (lcores : ℕ → Lcore)
    → Tiles n lc first middle lcores
    → Tiles m (lc + n) middle last lcores
    → Tiles (n + m) lc first last lcores
Tiles-append zero m lc first middle last lcores x y =
    let e : 0 + m ≡ m = omega arith in let e' : lc + 0 ≡ lc = omega arith in rw (e, x) (rw e' at y)
Tiles-append (suc n) m lc first middle last lcores x y =
    let e : suc n + m ≡ suc (n + m) = omega arith in
    let e' : lc + suc n ≡ (lc + 1) + n = omega arith in
    rw e (
      x.0,
      Tiles-append n m (lc + 1) (first + (lcores lc).stream_nb) middle last lcores x.1 (rw e' at y),
    )

-- Cores that another array holds alike.
Tiles-ext :
    (n lc first last : ℕ) (old new : ℕ → Lcore)
    → ((j : ℕ) → j < lc + n → new j ≡ old j)
    → Tiles n lc first last old
    → Tiles n lc first last new
Tiles-ext zero lc first last old new same x = x
Tiles-ext (suc n) lc first last old new same x =
    let e = same lc (omega arith) in
    (
      ap (λ c. c.stream_idx) e ∙ x.0,
      rw e (
          Tiles-ext n (lc + 1) (first + (old lc).stream_nb) last old new
            (λ j h. same j (omega arith)) x.1),
    )

parts : (c r q k n : ℕ) → c + r ≡ k → q * k + r ≡ n → 0 + c * q + r * (q + 1) ≡ n
parts c r q k n e e' = let f : (c + r) * q ≡ q * k = rw e (mul_comm k q) in grind arith

-- The split of `n` streams over `k` cores, with no special case for as many of one as of the other.
split : (n k : ℕ) → 0 < k → 0 + (k - n % k) * (n / k) + n % k * (n / k + 1) ≡ n
split n k h =
    let lt = mod-lt n h in
    parts (k - n % k) (n % k) (n / k) k n (omega (arith, lt)) (div-add-mod' n k)

setup-eq :
    (s : Fwd) (a b : ℕ → Lcore)
    → 0 < s.cfg_nb_fwd_lcores
    → s.cfg_nb_fwd_lcores ≤ s.cfg_nb_fwd_streams
    → s.cfg_nb_fwd_streams + 1 < 2 ^ 16
    → s.cfg_nb_fwd_lcores < 2 ^ 8
    → (middle last : ℕ)
    → let per = s.cfg_nb_fwd_streams / s.cfg_nb_fwd_lcores in
      let extra = s.cfg_nb_fwd_streams % s.cfg_nb_fwd_lcores in
      let rest = s.cfg_nb_fwd_lcores - extra in
      give_streams rest s.nb_lcores per 0 0 s.fwd_lcores ≡ ok (a, middle)
      → give_streams extra s.nb_lcores (per + 1) rest middle a ≡ ok (b, last)
      → setup_fwd_config_of_each_lcore s ≡ ok (record s { fwd_lcores = b })
unfolding setup_fwd_config_of_each_lcore
setup-eq s a b some few small byte middle last ea eb =
    let n = s.cfg_nb_fwd_streams in
    let k = s.cfg_nb_fwd_lcores in
    let lt = mod-lt n some in
    let le = div-le_self n k in
    elim (Bool-cases (leb n k)) [
      | inl e ↦
          let same : n ≡ k = ground (arith, e) in
          let q : n / k ≡ 1 = ap (λ x. x / k) same ∙ div_self some in
          let r : n % k ≡ 0 = ap (λ x. x % k) same ∙ mod_self k in
          let l : (k - 0) % 2 ^ 8 ≡ k - 0 = omega arith in
          rw (e, l, rw (r, q) at ea, rw (r, q) at eb) refl
      | inr e ↦
          let some' : (k == 0) ≡ false = ne→== k 0 (λ x. absurd (omega (arith, x))) in
          let l1 : n % k % 2 ^ 8 ≡ n % k = omega (arith, lt) in
          let l2 : (k - n % k) % 2 ^ 8 ≡ k - n % k = omega arith in
          let l3 : (n / k + 1) % 2 ^ 16 ≡ n / k + 1 = omega (arith, le) in
          rw (e, some', l1, l2, l3, ea, eb) refl
    ]

-- If there are from 1 to 255 forwarding cores, each allocated, at most as many as streams and
-- fewer than 65535 streams, setup_fwd_config_of_each_lcore returns; the cores have all streams
-- between them, each the ones behind those of the core before it, and each as many as streams
-- divided by cores or one more.
pub lcores_tiled :
    (s : Fwd)
    → 0 < s.cfg_nb_fwd_lcores
    → s.cfg_nb_fwd_lcores ≤ s.cfg_nb_fwd_streams
    → s.cfg_nb_fwd_streams + 1 < 2 ^ 16
    → s.cfg_nb_fwd_lcores < 2 ^ 8
    → s.cfg_nb_fwd_lcores ≤ s.nb_lcores
    → (lcores : ℕ → Lcore) × (setup_fwd_config_of_each_lcore s
        ≡ ok (record s { fwd_lcores = lcores }))
      × Tiles s.cfg_nb_fwd_lcores 0 0 s.cfg_nb_fwd_streams lcores
      × ((j : ℕ)
          → j < s.cfg_nb_fwd_lcores
          → let per = s.cfg_nb_fwd_streams / s.cfg_nb_fwd_lcores in
            ((lcores j).stream_nb ≡ per) ⊎ ((lcores j).stream_nb ≡ per + 1))
unfolding setup_fwd_config_of_each_lcore
lcores_tiled s some few small byte room =
    let n = s.cfg_nb_fwd_streams in
    let k = s.cfg_nb_fwd_lcores in
    let lt = mod-lt n some in
    let rest = k - n % k in
    let middle = 0 + rest * (n / k) in
    let sum = split n k some in
    let (a, ea, ga) =
      give_streams-Given rest s.nb_lcores (n / k) 0 0 middle s.fwd_lcores (omega (arith, lt)) refl
        (omega (arith, sum)) in
    let (b, eb, gb) =
      give_streams-Given (n % k) s.nb_lcores (n / k + 1) rest middle n a (omega (arith, lt)) sum
        (omega arith) in
    let both : rest + n % k ≡ k = omega (arith, lt) in
    let tiles =
      Tiles-append rest (n % k) 0 0 middle n b
        (Tiles-ext rest 0 0 middle a b (λ j h. gb.before j (omega (arith, h))) ga.tiles)
        (let z : 0 + rest ≡ rest = omega arith in rw z gb.tiles) in
    (
      b,
      setup-eq s a b some few small byte middle n ea eb,
      rw both at tiles,
      (λ j h. elim (Bool-cases (ltb j rest)) [
        | inl x ↦
            let lt' : j < rest = ground (arith, x) in
            inl (
              ap (λ c. c.stream_nb) (gb.before j lt')
              ∙ ga.each j (omega arith) (omega (arith, lt')))
        | inr x ↦ let ge : rest ≤ j = ground (arith, x) in inr (gb.each j ge (omega (arith, both)))
      ]),
    )
