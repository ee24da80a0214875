-- ===== src/Selection/Masks.antt =====
-- The masks of cores.
use platform.Common.{
  ℕ, zero, suc, ◌+◌, ◌/◌, ◌%◌, ◌^◌, ◌≤◌, ◌<◌, ◌≡◌, ◌≢◌, ◌↔◌, refl, sym, ◌∙◌, ap, Bool, true, false,
  Bool-cases, arith, inl, inr,
}
use platform.Common.{
  ◌∷◌, length, get_elem?, get_elem?-lt, lt-get_elem?, some, ok, eq-cases, ◌==◌, eq→==, ne→==,
}
use mathlib.Core.Path.{subst}
use native.Mathlib.Nat.{mod-eq_of_lt}
use platform.Selection.{
  Machine, Config, bits, usable_lcore, set_fwd_lcores_list, set_fwd_lcores_mask,
}
use platform.Selection.Pass.{all_usable, all_or_nothing, all_usable-each}

-- Bit `c` of the mask is set.
abbrev pub Bit : ℕ → ℕ → Type 0
Bit mask c = mask / 2 ^ c % 2 ≡ 1

pub length-bits : (n i mask : ℕ) → length (bits n i mask) ≤ n
unfolding bits
length-bits zero i mask = omega arith
length-bits (suc n) i mask =
    let rest = length-bits n (i + 1) mask in
    elim (Bool-cases (mask / 2 ^ i % 2 == 1)) [
      | inl e ↦ rw e (omega (arith, rest))
      | inr e ↦ rw e (omega (arith, rest))
    ]

-- An entry is the place of a bit that is set.
pub bits-Bit :
    (n i mask j x : ℕ) → get_elem? (bits n i mask) j ≡ some x → (i ≤ x) × (x < i + n) × Bit mask x
unfolding bits
bits-Bit zero i mask j x e = absurd (cc)
bits-Bit (suc n) i mask j x e = elim (Bool-cases (mask / 2 ^ i % 2 == 1)) [
  | inr off ↦
      let (lo, hi, bit) = bits-Bit n (i + 1) mask j x (rw off at e) in
      (omega arith, omega arith, bit)
  | inl on ↦ later n i mask x (ground (arith, on)) (λ k. bits-Bit n (i + 1) mask k x) j (rw on at e)
]
  where
    later :
        (n i mask x : ℕ)
        → Bit mask i
        → ((k : ℕ)
            → get_elem? (bits n (i + 1) mask) k ≡ some x
            → (i + 1 ≤ x) × (x < i + 1 + n) × Bit mask x)
        → (j : ℕ) → get_elem? (i ∷ bits n (i + 1) mask) j ≡ some x
        → (i ≤ x) × (x < i + suc n) × Bit mask x
    later n i mask x bit rest zero e =
        let same : i ≡ x = cc in
        (omega (arith, same), omega (arith, same), subst (Bit mask) same bit)
    later n i mask x bit rest (suc k) e =
        let (lo, hi, b) = rest k e in (omega arith, omega arith, b)

-- Each bit that is set has an entry.
pub Bit-bits :
    (n i mask x : ℕ)
    → i ≤ x
    → x < i + n
    → Bit mask x
    → (j : ℕ) × (get_elem? (bits n i mask) j ≡ some x)
unfolding bits
Bit-bits zero i mask x lo hi bit = absurd (omega arith)
Bit-bits (suc n) i mask x lo hi bit = elim (eq-cases i x) [
  | inl e ↦ (0, rw (eq→== (mask / 2 ^ i % 2) 1 (rw e bit)) (ap some e))
  | inr ne ↦
      let (j, e) = Bit-bits n (i + 1) mask x (omega (arith, ne)) (omega arith) bit in
      elim (Bool-cases (mask / 2 ^ i % 2 == 1)) [
        | inl on ↦ (suc j, rw on e)
        | inr off ↦ (j, rw off e)
      ]
]

-- For a mask that is not 0 and room for 64 cores, set_fwd_lcores_mask returns. It accepts the
-- mask just where each core whose bit is set is enabled and not the master; otherwise it changes
-- nothing; and if it accepts, the forwarding cores are just those whose bit is set.
pub set_fwd_lcores_mask-selects :
    (m : Machine) (mask : ℕ) (s : Config)
    → 64 ≤ m.max_lcores
    → mask ≢ 0
    → (accepted : Bool) × (t : Config) × (set_fwd_lcores_mask m mask s ≡ ok (accepted, t))
      × (accepted ≡ true ↔ ((c : ℕ) → c < 64 → Bit mask c → usable_lcore m c ≡ true))
      × (accepted ≡ false → t ≡ s)
      × (accepted ≡ true
          → (c : ℕ)
          → (c < 64) × Bit mask c ↔ (j : ℕ) × (j < t.nb_fwd_lcores) × (t.fwd_lcores_cpuids j ≡ c))
unfolding set_fwd_lcores_mask set_fwd_lcores_list
set_fwd_lcores_mask-selects m mask s room nonzero =
    let xs = bits 64 0 mask in
    let short = length-bits 64 0 mask in
    let usable = usable_lcore m in
    let exact : length xs % 2 ^ 8 ≡ length xs = mod-eq_of_lt (omega (arith, short)) in
    let (new, run, keep, entries) =
      all_or_nothing m.max_lcores usable (λ c. c) xs s.fwd_lcores_cpuids
        (omega (arith, short, room)) in
    let (each, back) = all_usable-each usable xs in
    let equal : all_usable usable (λ c. c) xs ≡ true
        ↔ ((c : ℕ) → c < 64 → Bit mask c → usable c ≡ true) =
      (
        (λ e c lt bit.
            let (j, at_j) = Bit-bits 64 0 mask c (omega arith) (omega arith) bit in
            each e j c at_j),
        (λ h.
            back (λ j x g. let (lo, hi, bit) = bits-Bit 64 0 mask j x g in h x (omega arith) bit)),
      ) in
    let masked = ne→== mask 0 nonzero in
    elim (Bool-cases (all_usable usable (λ c. c) xs)) [
      | inr off ↦ (
        false,
        record s { fwd_lcores_cpuids = new },
        rw (masked, run, off) refl,
        rw off at equal,
        (λ x. ap (λ ids. record s { fwd_lcores_cpuids = ids }) (keep off)),
        (λ x. absurd (cc)),
      )
      | inl on ↦
          let t = record s {
            fwd_lcores_cpuids = new;
            nb_cfg_lcores = length xs;
            nb_fwd_lcores = length xs;
          } in
          (
            true,
            t,
            rw (masked, run, on, exact) refl,
            rw on at equal,
            (λ x. absurd (cc)),
            (λ x c. (
              (λ b.
                  let (j, e) =
                    Bit-bits 64 0 mask c (omega arith) (let h = b.0 in omega (arith, h)) b.1 in
                  (j, get_elem?-lt xs j e, entries on j c e)),
              (λ g.
                  let (x', e) = lt-get_elem? xs g.0 g.1 in
                  let (lo, hi, bit) = bits-Bit 64 0 mask g.0 x' e in
                  let same : x' ≡ c = sym (entries on g.0 x' e) ∙ g.2 in
                  (omega (arith, hi, same), subst (Bit mask) same bit)),
            )),
          )
    ]
