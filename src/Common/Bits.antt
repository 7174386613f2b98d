-- ===== src/Common/Bits.antt =====
-- `&` and `|` of the C source at variables, as arithmetic.
pub mod Comm
use Prim.Native.Nat.{
  ℕ, zero, suc, ◌+◌, ◌-◌, ◌*◌, ◌/◌, ◌%◌, ◌^◌, ◌≤◌, ◌<◌, min, max, bit_and, bit_or, digits,
  bit_and-bitwise, bit_or-bitwise,
}
use mathlib.Core.Path.{◌≡◌, refl, ap}
use native.Mathlib.Nat.{pow-suc, one-le-pow}
use mathlib.Core.Bool.{Bool, true, ◌&&◌}
use probabilistic_lua.Common.Tests.{◌==◌}
use native.Mathlib.Omega.{arith}

-- The operations are recursions on binary digits with fuel `a`; any fuel from `a` on is the same.
module _ (z : ℕ → ℕ) (f : ℕ → ℕ → ℕ) where
  pub digits_enough : (a n m b : ℕ) → a ≤ n → a ≤ m → digits z f n a b ≡ digits z f m a b
  digits_enough a zero zero b p q = refl
  digits_enough zero zero (suc m) b p q = refl
  digits_enough (suc a) zero (suc m) b p q = absurd (omega arith)
  digits_enough zero (suc n) zero b p q = refl
  digits_enough (suc a) (suc n) zero b p q = absurd (omega arith)
  digits_enough zero (suc n) (suc m) b p q = refl
  digits_enough (suc a) (suc n) (suc m) b p q =
      rw (digits_enough (suc a / 2) n m (b / 2) (omega arith) (omega arith))

-- The lowest digit of the result, and the operation on the other digits.
pub bit_and_step : (x y : ℕ) → bit_and x y ≡ min (x % 2) (y % 2) + 2 * bit_and (x / 2) (y / 2)
bit_and_step zero y = simp bit_and-bitwise (omega arith)
bit_and_step (suc x) y =
    let same =
      digits_enough (λ d. 0) min (suc x / 2) x (suc x / 2) (y / 2) (omega arith) (omega arith) in
    simp bit_and-bitwise (omega arith)

pub bit_or_step : (x y : ℕ) → bit_or x y ≡ max (x % 2) (y % 2) + 2 * bit_or (x / 2) (y / 2)
bit_or_step zero y = simp bit_or-bitwise (omega arith)
bit_or_step (suc x) y =
    let same =
      digits_enough (λ d. d) max (suc x / 2) x (suc x / 2) (y / 2) (omega arith) (omega arith) in
    simp bit_or-bitwise (omega arith)

zero-bit_or : (b : ℕ) → bit_or 0 b ≡ b
zero-bit_or b = bit_or-bitwise 0 b

zero-bit_and : (b : ℕ) → bit_and 0 b ≡ 0
zero-bit_and b = bit_and-bitwise 0 b

-- `&` with zero, by the size of the number.
bit_and-zero_below : (n a : ℕ) → a ≤ n → bit_and a 0 ≡ 0
bit_and-zero_below n zero h = zero-bit_and 0
bit_and-zero_below zero (suc a) h = absurd (omega arith)
bit_and-zero_below (suc n) (suc a) h =
    omega (arith, bit_and_step (suc a) 0, bit_and-zero_below n (suc a / 2) (omega arith))

double_shift : (q k : ℕ) → q * 2 ^ suc k ≡ 2 * (q * 2 ^ k)
double_shift q k = omega (arith, ap (λ (t : ℕ). q * t) (pow-suc 2 k))

-- `r | (q << k)` is a sum where `r` fits `k` bits.
pub bit_or-shift : (k r q : ℕ) → r < 2 ^ k → bit_or r (q * 2 ^ k) ≡ r + q * 2 ^ k
bit_or-shift zero zero q h = omega (arith, zero-bit_or (q * 1))
bit_or-shift zero (suc r) q h = absurd (omega arith)
bit_or-shift (suc k) r q h =
    let ih = bit_or-shift k (r / 2) q (omega (arith, pow-suc 2 k)) in
    ground (arith, bit_or_step r (q * 2 ^ suc k), double_shift q k, ih)

-- Bit `k` set in a number of at most `k + 1` bits.
pub bit_or_top : (k q r : ℕ) → q ≤ 1 → r < 2 ^ k → bit_or (q * 2 ^ k + r) (2 ^ k) ≡ 2 ^ k + r
bit_or_top zero q r hq h =
    omega (arith, bit_or_step (q * 1 + r) 1, zero-bit_or 0, ap (λ (t : ℕ). bit_or t 0) zeros)
  where
    zeros : (q * 1 + r) / 2 ≡ 0
    zeros = omega arith
bit_or_top (suc k) q r hq h =
    let ih = bit_or_top k q (r / 2) hq (omega (arith, pow-suc 2 k)) in
    ground (arith, bit_or_step (q * 2 ^ suc k + r) (2 ^ suc k), double_shift q k, pow-suc 2 k, ih)

-- Bit `k` of a number.
pub bit_and_bit : (k q r : ℕ) → r < 2 ^ k → bit_and (q * 2 ^ k + r) (2 ^ k) ≡ q % 2 * 2 ^ k
bit_and_bit zero q r h =
    let e : q * 1 + r ≡ q = omega arith in
    rw e (omega (arith, bit_and_step q 1, bit_and-zero_below (q / 2) (q / 2) (omega arith)))
bit_and_bit (suc k) q r h =
    let ih = bit_and_bit k q (r / 2) (omega (arith, pow-suc 2 k)) in
    ground (
      arith,
      bit_and_step (q * 2 ^ suc k + r) (2 ^ suc k),
      double_shift q k,
      double_shift (q % 2) k,
      pow-suc 2 k,
      ih,
    )

bit_and-shift_mask : (k r q : ℕ) → r < 2 ^ k → bit_and (q * 2 ^ k + r) (2 ^ k - 1) ≡ r
bit_and-shift_mask zero r q h =
    omega (arith, bit_and-zero_below (q * 1 + r) (q * 1 + r) (omega arith))
bit_and-shift_mask (suc k) r q h =
    let ih = bit_and-shift_mask k (r / 2) q (omega (arith, pow-suc 2 k)) in
    ground
      (arith, bit_and_step (q * 2 ^ suc k + r) (2 ^ suc k - 1), double_shift q k, pow-suc 2 k, ih)

-- A mask of `k` ones is a remainder.
pub bit_and_mask : (k a : ℕ) → bit_and a (2 ^ k - 1) ≡ a % 2 ^ k
bit_and_mask k a =
    let q = a / 2 ^ k in
    ground (arith, one-le-pow k 2, bit_and-shift_mask k (a % 2 ^ k) (a / 2 ^ k))

-- Over a small range, check every value by evaluation.
unfoldable pub all_below : ℕ → (ℕ → Bool) → Bool
all_below zero p = true
all_below (suc n) p = p n && all_below n p

pub all_below_eq :
    (n : ℕ) (f g : ℕ → ℕ) (x : ℕ) → all_below n (λ i. f i == g i) ≡ true → x < n → f x ≡ g x
unfolding all_below
all_below_eq zero f g x h lt = absurd (omega arith)
all_below_eq (suc n) f g x h lt = ground (arith, all_below_eq n f g x)
