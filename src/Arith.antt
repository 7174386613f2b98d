-- ===== src/Arith.antt =====
-- Integer arithmetic: the 64-bit helpers of LuaJIT-2.0.1/src/lj_carith.c, and lj_vm_modi of lj_vmmath.c.
-- A word is a number below 2 ^ 64 (2 ^ 32 in lj_vm_modi); a signed one is its two's complement.
pub mod Cong
pub mod Power
pub mod Modulo
pub mod Tests
use probabilistic_lua.Common.{
  ℕ, zero, suc, ◌+◌, ◌-◌, ◌*◌, ◌/◌, ◌%◌, ◌^◌, Bool, true, false, not, ◌&&◌, ltb, leb, ◌==◌,
  if◌then◌else◌,
}
use probabilistic_lua.Common.Result.{Result, ok, err, stuck, ◌>>=◌}

-- The sign bit of a w-bit word, its negation, and its magnitude.
abbrev pub is_negative : ℕ → ℕ → Bool
is_negative w a = leb (2 ^ (w - 1)) a

abbrev pub negate : ℕ → ℕ → ℕ
negate w a = (2 ^ w - a) % 2 ^ w

abbrev pub magnitude : ℕ → ℕ → ℕ
magnitude w a = if is_negative w a then negate w a else a

unfoldable pub lj_carith_mul64 : ℕ → ℕ → ℕ
lj_carith_mul64 a b = (a * b) % 2 ^ 64

unfoldable pub lj_carith_divu64 : ℕ → ℕ → ℕ
lj_carith_divu64 a b = if b == 0 then 2 ^ 63 else a / b

unfoldable pub lj_carith_modu64 : ℕ → ℕ → ℕ
lj_carith_modu64 a b = if b == 0 then 2 ^ 63 else a % b

-- `a / b` and `a % b` of C on signed words: they truncate towards zero.
abbrev pub quot64 : ℕ → ℕ → ℕ
quot64 a b =
    let q = magnitude 64 a / magnitude 64 b in
    if is_negative 64 a
    then (if is_negative 64 b then q else negate 64 q)
    else (if is_negative 64 b then negate 64 q else q)

abbrev pub rem64 : ℕ → ℕ → ℕ
rem64 a b = let r = magnitude 64 a % magnitude 64 b in if is_negative 64 a then negate 64 r else r

unfoldable pub lj_carith_divi64 : ℕ → ℕ → ℕ
lj_carith_divi64 a b =
    if b == 0 then 2 ^ 63 else (if a == 2 ^ 63 && b == 2 ^ 64 - 1 then 2 ^ 63 else quot64 a b)

unfoldable pub lj_carith_modi64 : ℕ → ℕ → ℕ
lj_carith_modi64 a b =
    if b == 0 then 2 ^ 63 else (if a == 2 ^ 63 && b == 2 ^ 64 - 1 then 0 else rem64 a b)

-- `for (; (k & 1) == 0; k >>= 1) x *= x;` on fuel: the last `x` and `k`.
unfoldable pub strip_zeros : ℕ → ℕ → ℕ → Result (ℕ × ℕ)
strip_zeros zero x k = err stuck
strip_zeros (suc fuel) x k =
    let rest = strip_zeros fuel ((x * x) % 2 ^ 64) (k / 2) in if k % 2 == 0 then rest else ok (x, k)

-- The endless loop with its break, on fuel, and the product after it.
unfoldable pub power_loop : ℕ → ℕ → ℕ → ℕ → Result ℕ
power_loop zero x y k = err stuck
power_loop (suc fuel) x y k =
    let x₁ = (x * x) % 2 ^ 64 in
    let y₁ = if k % 2 == 1 then (y * x₁) % 2 ^ 64 else y in
    let rest = power_loop fuel x₁ y₁ (k / 2) in if k == 1 then ok ((y * x₁) % 2 ^ 64) else rest

unfoldable pub lj_carith_powu64 : ℕ → ℕ → Result ℕ
lj_carith_powu64 x k =
    let powers = strip_zeros 64 x k >>= λ r.
    let loop = power_loop 64 r.0 r.0 (r.1 / 2) in if r.1 / 2 == 0 then ok r.0 else loop in
    if k == 0 then ok 1 else powers

unfoldable pub lj_carith_powi64 : ℕ → ℕ → Result ℕ
lj_carith_powi64 x k =
    let negative : Result ℕ =
      if x == 0
      then ok (2 ^ 63 - 1)
      else (if x == 1
          then ok 1
          else (if x == 2 ^ 64 - 1
              then (if k % 2 == 1 then ok (2 ^ 64 - 1) else ok 1)
              else ok 0)) in
    if k == 0 then ok 1 else (if is_negative 64 k then negative else lj_carith_powu64 x k)

-- lj_vm_modi; `lua_assert(b != 0)`.
unfoldable pub lj_vm_modi : ℕ → ℕ → ℕ
lj_vm_modi a b =
    let ub = magnitude 32 b in
    let y = magnitude 32 a % ub in
    let differ = if is_negative 32 a then not (is_negative 32 b) else is_negative 32 b in
    let y₁ = if not (y == 0) && differ then (y + 2 ^ 32 - ub) % 2 ^ 32 else y in
    let differ₁ = if is_negative 32 y₁ then not (is_negative 32 b) else is_negative 32 b in
    if differ₁ then negate 32 y₁ else y₁
