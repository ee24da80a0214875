-- ===== src/Selection/Pass.antt =====
-- The two passes over a list of cores or ports.
use platform.Common.{
  ℕ, zero, suc, ◌+◌, ◌≤◌, ◌<◌, ◌≡◌, ◌↔◌, refl, sym, ◌∙◌, ap, Bool, true, false, Bool-cases, arith,
  inl, inr,
}
use platform.Common.{
  List, [], ◌∷◌, length, get_elem?, some, ok, store-ok, update, eq→==, ne→==, if◌then◌else◌,
}
use platform.Selection.{pass, two_passes}

-- Whether all entries can be used.
pub all_usable : (ℕ → Bool) → (ℕ → ℕ) → List ℕ → Bool
all_usable usable cast [] = true
all_usable usable cast (x ∷ xs) =
    let rest = all_usable usable cast xs in if usable (cast x) then rest else false

-- The entries of a longer list.
entries_cons :
    (cast new : ℕ → ℕ) (i x : ℕ) (xs : List ℕ)
    → new i ≡ cast x
    → ((j y : ℕ) → get_elem? xs j ≡ some y → new (i + 1 + j) ≡ cast y)
    → (j y : ℕ) → get_elem? (x ∷ xs) j ≡ some y
    → new (i + j) ≡ cast y
entries_cons cast new i x xs first rest zero y h =
    let same : x ≡ y = cc in let z : i + 0 ≡ i = omega arith in rw z (first ∙ ap cast same)
entries_cons cast new i x xs first rest (suc j) y h =
    let z : i + suc j ≡ i + 1 + j = omega arith in rw z (rest j y h)

-- All entries can be used just where each can.
pub all_usable-each :
    (usable : ℕ → Bool) (xs : List ℕ)
    → all_usable usable (λ x. x) xs ≡ true ↔ ((j x : ℕ) → get_elem? xs j ≡ some x → usable x ≡ true)
unfolding all_usable
all_usable-each usable [] = ((λ e j x h. absurd (cc)), (λ h. refl))
all_usable-each usable (y ∷ xs) =
    let (there, back) = all_usable-each usable xs in
    elim (Bool-cases (usable y)) [
      | inr off ↦ (
        (λ e. let bad = rw off at e in absurd (cc)),
        (λ h. let bad = sym (h 0 y refl) ∙ off in absurd (cc)),
      )
      | inl on ↦ (
        (λ e. cons usable y xs on (there (rw on at e))),
        (λ h. rw on (back (λ j x g. h (suc j) x g))),
      )
    ]
  where
    cons :
        (usable : ℕ → Bool) (y : ℕ) (xs : List ℕ)
        → usable y ≡ true
        → ((j x : ℕ) → get_elem? xs j ≡ some x → usable x ≡ true)
        → (j x : ℕ) → get_elem? (y ∷ xs) j ≡ some x
        → usable x ≡ true
    cons usable y xs on h zero x e = let same : y ≡ x = cc in rw (sym same) on
    cons usable y xs on h (suc j) x e = h j x e

module _ (size : ℕ) (usable : ℕ → Bool) (cast : ℕ → ℕ) where
  first_pass :
      (i : ℕ) (xs : List ℕ) (ids : ℕ → ℕ)
      → pass size usable cast false i xs ids ≡ ok (all_usable usable cast xs, ids)
  unfolding pass all_usable
  first_pass i [] ids = refl
  first_pass i (x ∷ xs) ids = elim (Bool-cases (usable (cast x))) [
    | inl e ↦ rw e (first_pass (i + 1) xs ids)
    | inr e ↦ rw e refl
  ]

  -- The array after the second pass.
  record Written (i : ℕ) (xs : List ℕ) (old new : ℕ → ℕ) : Type 0 where
    entries : (j x : ℕ) → get_elem? xs j ≡ some x → new (i + j) ≡ cast x
    before : (j : ℕ) → j < i → new j ≡ old j

  second_pass :
      (i : ℕ) (xs : List ℕ) (ids : ℕ → ℕ)
      → all_usable usable cast xs ≡ true
      → i + length xs ≤ size
      → (new : ℕ → ℕ) × (pass size usable cast true i xs ids ≡ ok (true, new))
        × Written i xs ids new
  unfolding pass all_usable
  second_pass i [] ids all fits =
      (ids, refl, record { entries = λ j x e. absurd (cc); before = λ j lt. refl })
  second_pass i (x ∷ xs) ids all fits = elim (Bool-cases (usable (cast x))) [
    | inr e ↦ let bad = rw e at all in absurd (cc)
    | inl e ↦
        let (new, run, w) =
          second_pass (i + 1) xs (update ids i (cast x)) (rw e at all) (omega arith) in
        (
          new,
          rw (store-ok size ids i (cast x) (omega arith), e) run,
          record {
            entries =
                entries_cons cast new i x xs (w.before i (omega arith) ∙ rw (eq→== i i refl) refl)
                  w.entries;
            before = λ j lt.
                w.before j (omega arith) ∙ rw (ne→== j i (λ y. absurd (omega (arith, y)))) refl;
          },
        )
  ]

  pub all_or_nothing :
      (xs : List ℕ) (ids : ℕ → ℕ)
      → length xs ≤ size
      → (new : ℕ → ℕ) × (two_passes size usable cast xs ids ≡ ok (all_usable usable cast xs, new))
        × (all_usable usable cast xs ≡ false → new ≡ ids)
        × (all_usable usable cast xs ≡ true → (j x : ℕ) → get_elem? xs j ≡ some x → new j ≡ cast x)
  unfolding two_passes
  all_or_nothing xs ids fits = elim (Bool-cases (all_usable usable cast xs)) [
    | inr e ↦ (
      ids,
      rw (first_pass 0 xs ids, e) refl,
      (λ x. refl),
      (λ x. let bad = sym e ∙ x in absurd (cc)),
    )
    | inl e ↦
        let (new, run, w) = second_pass 0 xs ids e (omega arith) in
        (
          new,
          rw (first_pass 0 xs ids, e, run) refl,
          (λ x. let bad = sym e ∙ x in absurd (cc)),
          (λ y j x h. let z : 0 + j ≡ j = omega arith in rw z at (w.entries j x h)),
        )
  ]
