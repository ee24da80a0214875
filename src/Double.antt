-- ===== src/Double.antt =====
-- The `double` arithmetic that src/CaptureDpdk/hash.c, json.c and choice.c use, as a parameter.
use platform.Common.{ℕ, Option}
use platform.Common.Int.{ℤ}

-- `to_u16` is `none` where the truncated value does not fit a `uint16_t`, which C leaves undefined.
pub record Double : Type 1 where
  pub Num : Type 0
  pub from_int : ℤ → Num
  pub add : Num → Num → Num
  pub mul : Num → Num → Num
  pub div : Num → Num → Num
  pub to_int : Num → ℤ
  pub to_u16 : Num → Option ℕ
