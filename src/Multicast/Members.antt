-- ===== src/Multicast/Members.antt =====
-- The addresses in a pool, and what a new entry and the loss of one make of them.
use platform.Common.{
  ℕ, ◌+◌, ◌-◌, ◌%◌, ◌^◌, ◌≤◌, ◌<◌, ◌≡◌, ◌≢◌, ◌⊎◌, ◌↔◌, refl, sym, ◌∙◌, ap, inl, inr, arith,
}
use platform.Common.{update, ltb, Bool-cases, eq-cases, eq→==, ne→==}
use platform.Multicast.{Pool, entries}

-- The used entries are allocated, in whole steps, and no address stands twice.
pub record IsPool (s : Pool) : Type 0 where
  pub fits : s.mc_addr_nb ≤ s.size
  pub steps : s.size % 32 ≡ 0
  pub small : s.size + 32 < 2 ^ 32
  pub distinct : (i j : ℕ) → i < j → j < s.mc_addr_nb → s.mc_addr_pool i ≢ s.mc_addr_pool j

-- The address is in the pool.
unfoldable pub Member : ℕ → Pool → Type 0
Member x s = (i : ℕ) × (i < s.mc_addr_nb) × (s.mc_addr_pool i ≡ x)

-- The driver was given the pool as it is.
abbrev pub Programmed : Pool → Type 0
Programmed s = s.programmed ≡ entries s.mc_addr_nb 0 s.mc_addr_pool

-- What the new entry gives.
module _ (s t : Pool) (a : ℕ) (p : IsPool s) (more : t.mc_addr_nb ≡ s.mc_addr_nb + 1)
    (written : t.mc_addr_pool ≡ update s.mc_addr_pool s.mc_addr_nb a) where
  new_entry : t.mc_addr_pool s.mc_addr_nb ≡ a
  new_entry = ap (λ f. f s.mc_addr_nb) written ∙ rw (eq→== s.mc_addr_nb s.mc_addr_nb refl) refl

  old_entry : (i : ℕ) → i < s.mc_addr_nb → t.mc_addr_pool i ≡ s.mc_addr_pool i
  old_entry i lt =
      ap (λ f. f i) written ∙ rw (ne→== i s.mc_addr_nb (λ e. absurd (omega (arith, e)))) refl

  pub append-distinct :
      ((j : ℕ) → j < s.mc_addr_nb → s.mc_addr_pool j ≢ a)
      → (i j : ℕ) → i < j
      → j < t.mc_addr_nb
      → t.mc_addr_pool i ≢ t.mc_addr_pool j
  append-distinct new i j lt hi e = elim (eq-cases j s.mc_addr_nb) [
    | inl at_end ↦
        let e' : t.mc_addr_pool i ≡ t.mc_addr_pool s.mc_addr_nb = rw at_end at e in
        new i (omega (arith, at_end)) (sym (old_entry i (omega (arith, at_end))) ∙ e' ∙ new_entry)
    | inr ne ↦
        let below : j < s.mc_addr_nb = omega (arith, ne, more, hi) in
        p.distinct i j lt below (sym (old_entry i (omega (arith, below))) ∙ e ∙ old_entry j below)
  ]

  pub append-Member : (x : ℕ) → Member x t ↔ (x ≡ a) ⊎ Member x s
  unfolding Member
  append-Member x = (
    (λ m. elim (eq-cases m.0 s.mc_addr_nb) [
      | inl e ↦ inl (sym m.2 ∙ ap t.mc_addr_pool e ∙ new_entry)
      | inr ne ↦
          let lt : m.0 < s.mc_addr_nb = let h = m.1 in omega (arith, ne, more, h) in
          inr (m.0, lt, sym (old_entry m.0 lt) ∙ m.2)
    ]),
    (λ c. elim c [
      | inl e ↦ (s.mc_addr_nb, omega (arith, more), new_entry ∙ sym e)
      | inr m ↦ (m.0, (let h = m.1 in omega (arith, more, h)), old_entry m.0 m.1 ∙ m.2)
    ]),
  )

-- What the pool is without the entry at `r`: the entries behind it are one place further to the front.
module _ (s t : Pool) (a r : ℕ) (p : IsPool s) (fewer : t.mc_addr_nb + 1 ≡ s.mc_addr_nb)
    (used : r < s.mc_addr_nb) (here : s.mc_addr_pool r ≡ a)
    (low : (j : ℕ) → j < r → t.mc_addr_pool j ≡ s.mc_addr_pool j)
    (high : (j : ℕ) → r ≤ j → j < t.mc_addr_nb → t.mc_addr_pool j ≡ s.mc_addr_pool (j + 1)) where
  -- The place that an entry had.
  origin :
      (j : ℕ)
      → j < t.mc_addr_nb
      → (j < r) × (t.mc_addr_pool j ≡ s.mc_addr_pool j)
        ⊎ (r ≤ j) × (t.mc_addr_pool j ≡ s.mc_addr_pool (j + 1))
  origin j lt = elim (Bool-cases (ltb j r)) [
    | inl e ↦ let h : j < r = ground (arith, e) in inl (h, low j h)
    | inr e ↦ let h : r ≤ j = ground (arith, e) in inr (h, high j h lt)
  ]

  pub erase-distinct : (i j : ℕ) → i < j → j < t.mc_addr_nb → t.mc_addr_pool i ≢ t.mc_addr_pool j
  erase-distinct i j lt hi e = elim (origin i (omega arith)) [
    | inl (x, y) ↦ elim (origin j hi) [
      | inl (u, v) ↦ p.distinct i j lt (omega (arith, fewer)) (sym y ∙ e ∙ v)
      | inr (u, v) ↦ p.distinct i (j + 1) (omega arith) (omega (arith, fewer)) (sym y ∙ e ∙ v)
    ]
    | inr (x, y) ↦ elim (origin j hi) [
      | inl (u, v) ↦ absurd (omega arith)
      | inr (u, v) ↦ p.distinct (i + 1) (j + 1) (omega arith) (omega (arith, fewer)) (sym y ∙ e ∙ v)
    ]
  ]

  -- No other entry has the address.
  only : (k : ℕ) → k < s.mc_addr_nb → k ≢ r → s.mc_addr_pool k ≢ a
  only k lt ne e = elim (Bool-cases (ltb k r)) [
    | inl x ↦ p.distinct k r (ground (arith, x)) used (e ∙ sym here)
    | inr x ↦
        let ge : r ≤ k = ground (arith, x) in
        p.distinct r k (omega (arith, ge, ne)) lt (here ∙ sym e)
  ]

  pub erase-Member : (x : ℕ) → Member x t ↔ (x ≢ a) × Member x s
  unfolding Member
  erase-Member x = (
    (λ m.
        let h = m.1 in
        elim (origin m.0 m.1) [
          | inl (u, v) ↦ (
            (λ e.
                only m.0 (omega (arith, fewer, h)) (λ y. absurd (omega (arith, u, y)))
                  (sym v ∙ m.2 ∙ e)),
            (m.0, omega (arith, fewer, h), sym v ∙ m.2),
          )
          | inr (u, v) ↦ (
            (λ e.
                only (m.0 + 1) (omega (arith, fewer, h)) (λ y. absurd (omega (arith, u, y)))
                  (sym v ∙ m.2 ∙ e)),
            (m.0 + 1, omega (arith, fewer, h), sym v ∙ m.2),
          )
        ]),
    (λ c.
        let k = c.1.0 in
        let h = c.1.1 in
        let other : k ≢ r = λ e. c.0 (sym c.1.2 ∙ ap s.mc_addr_pool e ∙ here) in
        elim (Bool-cases (ltb k r)) [
          | inl y ↦
              let lt : k < r = ground (arith, y) in
              (k, omega (arith, fewer, lt, used), low k lt ∙ c.1.2)
          | inr y ↦
              let ge : r ≤ k = ground (arith, y) in
              let back : k - 1 + 1 ≡ k = omega (arith, ge, other) in
              (
                k - 1,
                omega (arith, fewer, ge, other, h),
                high (k - 1) (omega (arith, ge, other)) (omega (arith, fewer, ge, other, h))
                    ∙ ap s.mc_addr_pool back
                    ∙ c.1.2,
              )
        ]),
  )
