-- ===== src/Common/Arrays.antt =====
-- C arrays as functions of the index, with their size. An access at or beyond the size is `fault`.
use Prim.Native.Nat.{ℕ, zero, suc, ◌+◌, ◌≤◌, ◌<◌}
use mathlib.Core.Path.{◌≡◌, refl}
use native.Mathlib.Decide.{dec_le}
use native.Mathlib.Omega.{arith}
use mathlib.Core.Logic.{inl, inr}
use platform.Common.Tests.{ltb, ◌==◌, if◌then◌else◌, Bool-cases}
use platform.Common.Control.{Outcome, ok, fault}

abbrev pub update {ℓ} : {A : Type ℓ} → (ℕ → A) → ℕ → A → ℕ → A
update a i v j = if j == i then v else a j

abbrev pub load {ℓ} : {A : Type ℓ} → ℕ → (ℕ → A) → ℕ → Outcome A
load size a i = if ltb i size then ok (a i) else fault

abbrev pub store {ℓ} : {A : Type ℓ} → ℕ → (ℕ → A) → ℕ → A → Outcome (ℕ → A)
store size a i v = if ltb i size then ok (update a i v) else fault

pub load-ok {ℓ} : {A : Type ℓ} (size : ℕ) (a : ℕ → A) (i : ℕ) → i < size → load size a i ≡ ok (a i)
load-ok size a i h = ground arith

pub store-ok {ℓ} :
    {A : Type ℓ} (size : ℕ) (a : ℕ → A) (i : ℕ) (v : A)
    → i < size
    → store size a i v ≡ ok (update a i v)
store-ok size a i v h = ground arith

-- The sum of the first `n` cells.
unfoldable pub sum_to : ℕ → (ℕ → ℕ) → ℕ
sum_to zero a = 0
sum_to (suc n) a = sum_to n a + a n

pub sum_to-update_ge : (n : ℕ) (a : ℕ → ℕ) (i v : ℕ) → n ≤ i → sum_to n (update a i v) ≡ sum_to n a
unfolding sum_to
sum_to-update_ge zero a i v h = refl
sum_to-update_ge (suc n) a i v h = ground (arith, sum_to-update_ge n a i v)

-- Writing one cell changes the sum by what that cell changes.
pub sum_to-update :
    (n : ℕ) (a : ℕ → ℕ) (i v : ℕ) → i < n → sum_to n (update a i v) + a i ≡ sum_to n a + v
unfolding sum_to
sum_to-update zero a i v h = absurd (omega arith)
sum_to-update (suc n) a i v h = ground (arith, sum_to-update n a i v, sum_to-update_ge n a i v)

pub sum_to-le : (n m : ℕ) (a : ℕ → ℕ) → n ≤ m → sum_to n a ≤ sum_to m a
unfolding sum_to
sum_to-le n zero a h = let e : n ≡ 0 = omega arith in rw e (omega arith)
sum_to-le n (suc m) a h = elim (dec_le n m) [
  | yes p ↦ omega (arith, sum_to-le n m a p)
  | no p ↦ let e : n ≡ suc m = omega arith in rw e (omega arith)
]

-- Arrays that agree on the first `n` cells have the same sum there.
pub sum_to_ext : (n : ℕ) (a b : ℕ → ℕ) → ((p : ℕ) → p < n → a p ≡ b p) → sum_to n a ≡ sum_to n b
unfolding sum_to
sum_to_ext zero a b h = refl
sum_to_ext (suc n) a b h =
    omega (arith, sum_to_ext n a b (λ p q. h p (omega arith)), h n (omega arith))

-- The same where the cells are measured by `g`.
pub sum_to-update_of {ℓ} :
    {A : Type ℓ} (g : A → ℕ) (n : ℕ) (a : ℕ → A) (i : ℕ) (v : A)
    → i < n
    → sum_to n (λ j. g (update a i v j)) + g (a i) ≡ sum_to n (λ j. g (a j)) + g v
sum_to-update_of g n a i v h =
    let same : (p : ℕ) → p < n → g (update a i v p) ≡ update (λ j. g (a j)) i (g v) p =
      λ p q. elim (Bool-cases (p == i)) [ inl e ↦ rw e refl | inr e ↦ rw e refl ] in
    omega (
      arith,
      sum_to_ext n (λ j. g (update a i v j)) (update (λ j. g (a j)) i (g v)) same,
      sum_to-update n (λ j. g (a j)) i (g v) h,
    )
