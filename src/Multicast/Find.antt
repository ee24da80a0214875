-- ===== src/Multicast/Find.antt =====
-- The search for an address in the pool.
use platform.Common.{ℕ, zero, suc, ◌+◌, ◌≤◌, ◌<◌, ◌≡◌, ◌≢◌, refl, sym, inl, inr, arith}
use platform.Common.{ok, load-ok, eq-cases, eq→==, ne→==}
use platform.Multicast.{find}

-- The place where the search ends: the first entry with the address, or the end.
pub record Found (i n : ℕ) (a : ℕ → ℕ) (x r : ℕ) : Type 0 where
  pub first : i ≤ r
  pub last : r ≤ i + n
  pub before : (j : ℕ) → i ≤ j → j < r → a j ≢ x
  pub here : r < i + n → a r ≡ x

pub find-Found :
    (size n i : ℕ) (a : ℕ → ℕ) (x : ℕ)
    → i + n ≤ size
    → (r : ℕ) × (find size n i a x ≡ ok r) × Found i n a x r
unfolding find
find-Found size zero i a x le = (
  i,
  refl,
  record {
    first = omega arith;
    last = omega arith;
    before = λ j lo hi. absurd (omega arith);
    here = λ h. absurd (omega arith);
  },
)
find-Found size (suc n) i a x le = elim (eq-cases x (a i)) [
  | inl e ↦ (
    i,
    rw (load-ok size a i (omega arith), eq→== x (a i) e) refl,
    record {
      first = omega arith;
      last = omega arith;
      before = λ j lo hi. absurd (omega arith);
      here = λ h. sym e;
    },
  )
  | inr ne ↦
      let (r, run, f) = find-Found size n (i + 1) a x (omega arith) in
      let lo' = f.first in
      let hi' = f.last in
      (
        r,
        rw (load-ok size a i (omega arith), ne→== x (a i) ne) run,
        record {
          first = omega (arith, lo');
          last = omega (arith, hi');
          before = λ j lo hi. elim (eq-cases j i) [
            | inl e ↦ λ y. ne (sym (rw e at y))
            | inr other ↦ f.before j (omega (arith, other)) hi
          ];
          here = λ h. f.here (omega arith);
        },
      )
]
