-- ===== src/Common/Control.antt =====
-- How a C function ends: it returns, it leaves the process through `rte_exit`, or it does what the
-- language leaves undefined (an access outside an array, a division by zero, a wild pointer).
use mathlib.Core.Option.{Option, none, some}

-- `exited` is a call of `rte_exit` or `exit`.
pub data Outcome {ℓ} (A : Type ℓ) : Type ℓ where
  ok : A → Outcome A
  exited : Outcome A
  fault : Outcome A

infixl 5 ◌>>=◌ ◌>>◌
abbrev pub ◌>>=◌ {ℓ κ} : {A : Type ℓ} {B : Type κ} → Outcome A → (A → Outcome B) → Outcome B
ok a >>= f = f a
exited >>= f = exited
fault >>= f = fault

abbrev pub ◌>>◌ {ℓ} : {B : Type ℓ} → Outcome (Unit {0}) → Outcome B → Outcome B
m >> k = m >>= λ _. k

-- A pointer or a table entry that is read: `none` is undefined behaviour.
abbrev pub expect {ℓ} : {A : Type ℓ} → Option A → Outcome A
expect none = fault
expect (some a) = ok a
