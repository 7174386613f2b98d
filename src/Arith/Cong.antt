-- ===== src/Arith/Cong.antt =====
-- Products and powers modulo 2 ^ 64.
use probabilistic_lua.Common.{ℕ, zero, suc, ◌+◌, ◌*◌, ◌/◌, ◌%◌, ◌^◌, ◌≡◌, sym, ap, ◌∙◌, arith}
use native.Mathlib.Nat.{
  mod-mod, mod-add-div, add-mul-mod_self_left, mul_comm, mul_assoc, pow-zero, pow-suc,
}

-- Equal as 64-bit words.
abbrev pub IsCong : ℕ → ℕ → Type 0
IsCong a b = a % 2 ^ 64 ≡ b % 2 ^ 64

mul_right : (a b : ℕ) → IsCong (a * (b % 2 ^ 64)) (a * b)
mul_right a b =
    let split : a * (b % 2 ^ 64) + 2 ^ 64 * (a * (b / 2 ^ 64)) ≡ a * b =
      omega (arith, ap (λ (t : ℕ). a * t) (mod-add-div b (2 ^ 64))) in
    sym (add-mul-mod_self_left (a * (b % 2 ^ 64)) (2 ^ 64) (a * (b / 2 ^ 64)))
    ∙ ap (λ (t : ℕ). t % 2 ^ 64) split

pub word-IsCong : (a : ℕ) → IsCong (a % 2 ^ 64) a
word-IsCong a = mod-mod a (2 ^ 64)

mul-IsCong_right : (a b c : ℕ) → IsCong b c → IsCong (a * b) (a * c)
mul-IsCong_right a b c h = sym (mul_right a b) ∙ ap (λ (t : ℕ). (a * t) % 2 ^ 64) h ∙ mul_right a c

pub mul-IsCong : (a b c d : ℕ) → IsCong a c → IsCong b d → IsCong (a * b) (c * d)
mul-IsCong a b c d h k =
    mul-IsCong_right a b d k
    ∙ ap (λ (t : ℕ). t % 2 ^ 64) (mul_comm a d)
    ∙ mul-IsCong_right d a c h
    ∙ ap (λ (t : ℕ). t % 2 ^ 64) (mul_comm d c)

pub pow-IsCong : (a b n : ℕ) → IsCong a b → IsCong (a ^ n) (b ^ n)
pow-IsCong a b zero h = ap (λ (t : ℕ). t % 2 ^ 64) (pow-zero a ∙ sym (pow-zero b))
pow-IsCong a b (suc n) h =
    ap (λ (t : ℕ). t % 2 ^ 64) (pow-suc a n)
    ∙ mul-IsCong (a ^ n) a (b ^ n) b (pow-IsCong a b n h) h
    ∙ ap (λ (t : ℕ). t % 2 ^ 64) (sym (pow-suc b n))

-- The square to the power `n`.
pub pow_square : (x n : ℕ) → (x * x) ^ n ≡ x ^ (n + n)
pow_square x zero = pow-zero (x * x) ∙ sym (pow-zero x)
pow_square x (suc n) =
    let shift : suc n + suc n ≡ suc (suc (n + n)) = omega arith in
    pow-suc (x * x) n
    ∙ ap (λ (t : ℕ). t * (x * x)) (pow_square x n)
    ∙ sym (mul_assoc (x ^ (n + n)) x x)
    ∙ ap (λ (t : ℕ). t * x) (sym (pow-suc x (n + n)))
    ∙ sym (pow-suc x (suc (n + n)))
    ∙ ap (λ (t : ℕ). x ^ t) (sym shift)
