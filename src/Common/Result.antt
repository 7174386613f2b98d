-- ===== src/Common/Result.antt =====
-- The outcome of a C function that may throw, or whose assertions may fail.
use mathlib.Core.Bool.{Bool, true, false}

-- `bad_code` and `bad_format` are the errors LJ_ERR_BCBAD and LJ_ERR_BCFMT that the source throws; the
-- constructors of the second line are its LJ_ERR_STKOV, LJ_ERR_TABOV, LJ_ERR_NANIDX,
-- LJ_ERR_NILIDX and LJ_ERR_NEXTIDX.
-- `overrun` is an access outside a buffer, `undefined` any other behaviour that C leaves open, and
-- `stuck` a loop of the model that ran out of fuel; these three are no results of the source.
pub data Error : Type 0 where
  bad_code bad_format overrun undefined stuck : Error
  stack_overflow table_overflow nan_index nil_index next_index : Error

pub data Result {ℓ} (A : Type ℓ) : Type ℓ where
  err : Error → Result A
  ok : A → Result A

-- An assertion of the source, or the test before it throws `e`.
abbrev pub guard : Bool → Error → Result (Unit {0})
guard false e = err e
guard true e = ok tt

infixl 5 ◌>>◌ ◌>>=◌
abbrev pub ◌>>◌ {ℓ} : {A : Type ℓ} → Result (Unit {0}) → Result A → Result A
err e >> next = err e
ok u >> next = next

abbrev pub ◌>>=◌ {ℓ κ} : {A : Type ℓ} {B : Type κ} → Result A → (A → Result B) → Result B
err e >>= next = err e
ok x >>= next = next x
