-- ===== src/Arith/Modulo.antt =====
-- lj_vm_modi.
use probabilistic_lua.Common.{
  ℕ, ◌+◌, ◌-◌, ◌%◌, ◌^◌, ◌≤◌, ◌<◌, Bool, true, false, not, ◌&&◌, ◌==◌, if◌then◌else◌, ◌≡◌, ◌≢◌,
  arith,
}
use native.Mathlib.Nat.{mod-lt}
use probabilistic_lua.Arith.{is_negative, negate, magnitude, lj_vm_modi}

-- The remainder of Lua, by the magnitudes and signs of the operands: of the sign of the divisor.
abbrev pub floored : ℕ → ℕ → Bool → Bool → ℕ
floored y ub true true = negate 32 y
floored y ub false false = y
floored y ub true false = if y == 0 then 0 else ub - y
floored y ub false true = if y == 0 then 0 else negate 32 (ub - y)

abbrev sign_fixed : ℕ → Bool → ℕ
sign_fixed y sb =
    let differ = if is_negative 32 y then not sb else sb in if differ then negate 32 y else y

abbrev shifted : ℕ → ℕ → Bool → Bool → ℕ
shifted y ub sa sb =
    let differ = if sa then not sb else sb in
    if not (y == 0) && differ then (y + 2 ^ 32 - ub) % 2 ^ 32 else y

modi_signs :
    (y ub : ℕ) (sa sb : Bool)
    → y < ub
    → ub ≤ 2 ^ 31
    → sign_fixed (shifted y ub sa sb) sb ≡ floored y ub sa sb
modi_signs y ub true true h le = ground arith
modi_signs y ub false false h le = ground arith
modi_signs y ub true false h le = ground arith
modi_signs y ub false true h le = ground arith

magnitude_le : (b : ℕ) → b < 2 ^ 32 → b ≢ 0 → (0 < magnitude 32 b) × (magnitude 32 b ≤ 2 ^ 31)
magnitude_le b h ne = (ground arith, ground arith)

-- For a 32-bit divisor other than 0, lj_vm_modi returns the remainder of Lua: of the magnitudes,
-- when the operands have one sign; the divisor less that, unless it is 0, when they have not; with
-- the sign of the divisor.
pub modi-floored :
    (a b : ℕ)
    → b < 2 ^ 32
    → b ≢ 0
    → lj_vm_modi a b
      ≡ floored
          (magnitude 32 a % magnitude 32 b)
          (magnitude 32 b)
          (is_negative 32 a)
          (is_negative 32 b)
unfolding lj_vm_modi
modi-floored a b h ne =
    let (pos, le) = magnitude_le b h ne in
    modi_signs (magnitude 32 a % magnitude 32 b) (magnitude 32 b) (is_negative 32 a)
      (is_negative 32 b) (mod-lt (magnitude 32 a) pos) le
