-- ===== src/Arith/Power.antt =====
-- The result of lj_carith_powu64.
use probabilistic_lua.Common.{
  ℕ, zero, suc, ◌+◌, ◌*◌, ◌/◌, ◌%◌, ◌^◌, ◌≤◌, ◌<◌, eq-cases, ◌==◌, ne→eqb_false, if◌then◌else◌, ◌≡◌,
  ◌≢◌, refl, sym, ap, ◌∙◌, inl, inr, arith,
}
use native.Mathlib.Nat.{mul_assoc, pow-zero, pow-suc, pow-succ'}
use probabilistic_lua.Common.Result.{ok}
use probabilistic_lua.Arith.{strip_zeros, power_loop, lj_carith_powu64}
use probabilistic_lua.Arith.Cong.{IsCong, word-IsCong, mul-IsCong, pow-IsCong, pow_square}

abbrev wide_square : ℕ → ℕ
wide_square x = (x * x) % 2 ^ 64

pow_one : (a : ℕ) → a ^ 1 ≡ a
pow_one a =
    let last : 1 * a ≡ a = omega arith in pow-suc a 0 ∙ ap (λ (t : ℕ). t * a) (pow-zero a) ∙ last

square_pow : (x n : ℕ) → IsCong (wide_square x ^ n) (x ^ (n + n))
square_pow x n =
    pow-IsCong (wide_square x) (x * x) n (word-IsCong (x * x))
    ∙ ap (λ (t : ℕ). t % 2 ^ 64) (pow_square x n)

module _ (fuel x k : ℕ) where
  strip_even : k % 2 ≡ 0 → strip_zeros (suc fuel) x k ≡ strip_zeros fuel (wide_square x) (k / 2)
  unfolding strip_zeros
  strip_even e = rw e refl

  strip_odd : k % 2 ≡ 1 → strip_zeros (suc fuel) x k ≡ ok (x, k)
  unfolding strip_zeros
  strip_odd e = rw e refl

strip_zeros_lem :
    (fuel x k : ℕ)
    → 0 < k
    → k < 2 ^ fuel
    → x < 2 ^ 64
    → (x' k' : ℕ) × (strip_zeros fuel x k ≡ ok (x', k'))
      × (k' % 2 ≡ 1)
      × (k' ≤ k)
      × (x' < 2 ^ 64)
      × IsCong (x' ^ k') (x ^ k)
strip_zeros_lem zero x k pos small word = absurd (omega (arith, pow-zero 2))
strip_zeros_lem (suc fuel) x k pos small word = elim (eq-cases (k % 2) 0) [
  | inr odd ↦
      let e : k % 2 ≡ 1 = omega arith in (x, k, strip_odd fuel x k e, e, omega arith, word, refl)
  | inl e ↦
      let half : k / 2 < 2 ^ fuel = omega (arith, pow-suc 2 fuel) in
      let whole : k / 2 + k / 2 ≡ k = omega arith in
      let (x', k', run, odd, le, word', cong) =
        strip_zeros_lem fuel (wide_square x) (k / 2) (omega arith) half (omega arith) in
      (
        x',
        k',
        strip_even fuel x k e ∙ run,
        odd,
        omega arith,
        word',
        cong ∙ square_pow x (k / 2) ∙ ap (λ (t : ℕ). (x ^ t) % 2 ^ 64) whole,
      )
]

module _ (fuel x y k : ℕ) where
  loop_end : k ≡ 1 → power_loop (suc fuel) x y k ≡ ok ((y * wide_square x) % 2 ^ 64)
  unfolding power_loop
  loop_end e = rw e refl

  loop_odd :
      k ≢ 1
      → k % 2 ≡ 1
      → power_loop (suc fuel) x y k
        ≡ power_loop fuel (wide_square x) ((y * wide_square x) % 2 ^ 64) (k / 2)
  unfolding power_loop
  loop_odd ne e = rw (ne→eqb_false k 1 ne, e) refl

  loop_even :
      k ≢ 1 → k % 2 ≡ 0 → power_loop (suc fuel) x y k ≡ power_loop fuel (wide_square x) y (k / 2)
  unfolding power_loop
  loop_even ne e = rw (ne→eqb_false k 1 ne, e) refl

power_loop_lem :
    (fuel x y k : ℕ)
    → 0 < k
    → k < 2 ^ fuel
    → power_loop fuel x y k ≡ ok ((y * x ^ (k + k)) % 2 ^ 64)
power_loop_lem zero x y k pos small = absurd (omega (arith, pow-zero 2))
power_loop_lem (suc fuel) x y k pos small = elim (eq-cases k 1) [
  | inl one ↦
      let square : IsCong (wide_square x) (x ^ (k + k)) =
        sym (ap (λ (t : ℕ). t % 2 ^ 64) (pow_one (wide_square x)))
        ∙ square_pow x 1
        ∙ ap (λ (t : ℕ). (x ^ (t + t)) % 2 ^ 64) (sym one) in
      loop_end fuel x y k one ∙ ap ok (mul-IsCong y (wide_square x) y (x ^ (k + k)) refl square)
  | inr more ↦
      let h = k / 2 in
      let half : h < 2 ^ fuel = omega (arith, pow-suc 2 fuel) in
      elim (eq-cases (k % 2) 0) [
        | inl e ↦
            let whole : (h + h) ≡ k = omega arith in
            let ih = power_loop_lem fuel (wide_square x) y h (omega arith) half in
            loop_even fuel x y k more e
            ∙ ih
            ∙ ap ok (
                mul-IsCong y (wide_square x ^ (h + h)) y (x ^ (h + h + (h + h))) refl
                  (square_pow x (h + h)))
            ∙ ap (λ (t : ℕ). ok ((y * x ^ (t + t)) % 2 ^ 64)) whole
        | inr odd ↦
            let e : k % 2 ≡ 1 = omega arith in
            let whole : suc (h + h) ≡ k = omega arith in
            let y₁ = (y * wide_square x) % 2 ^ 64 in
            let ih = power_loop_lem fuel (wide_square x) y₁ h (omega arith) half in
            let last : IsCong (y₁ * wide_square x ^ (h + h))
                (y * wide_square x * wide_square x ^ (h + h)) =
              mul-IsCong y₁ (wide_square x ^ (h + h)) (y * wide_square x) (wide_square x ^ (h + h))
                (word-IsCong (y * wide_square x)) refl in
            let joined : y * wide_square x * wide_square x ^ (h + h)
                ≡ y * wide_square x ^ suc (h + h) =
              mul_assoc y (wide_square x) (wide_square x ^ (h + h))
              ∙ ap (λ (t : ℕ). y * t) (sym (pow-succ' (wide_square x) (h + h))) in
            loop_odd fuel x y k more e
            ∙ ih
            ∙ ap ok (last ∙ ap (λ (t : ℕ). t % 2 ^ 64) joined)
            ∙ ap ok (
                mul-IsCong y (wide_square x ^ suc (h + h)) y (x ^ (suc (h + h) + suc (h + h))) refl
                  (square_pow x (suc (h + h))))
            ∙ ap (λ (t : ℕ). ok ((y * x ^ (t + t)) % 2 ^ 64)) whole
      ]
]

after_strip :
    (x k : ℕ)
    → k % 2 ≡ 1
    → k < 2 ^ 64
    → x < 2 ^ 64
    → (if k / 2 == 0 then ok x else power_loop 64 x x (k / 2)) ≡ ok (x ^ k % 2 ^ 64)
after_strip x k odd small word = elim (eq-cases (k / 2) 0) [
  | inl z ↦
      let one : k ≡ 1 = omega arith in
      let value : x ^ k ≡ x = ap (λ (t : ℕ). x ^ t) one ∙ pow_one x in
      let fits : x % 2 ^ 64 ≡ x = omega arith in
      rw z (ap ok (sym (ap (λ (t : ℕ). t % 2 ^ 64) value ∙ fits)))
  | inr pos ↦
      let whole : suc (k / 2 + k / 2) ≡ k = omega arith in
      let value : x * x ^ (k / 2 + k / 2) ≡ x ^ k =
        sym (pow-succ' x (k / 2 + k / 2)) ∙ ap (λ (t : ℕ). x ^ t) whole in
      rw (ne→eqb_false (k / 2) 0 pos) (
        power_loop_lem 64 x x (k / 2) (omega arith) (omega arith)
        ∙ ap (λ (t : ℕ). ok (t % 2 ^ 64)) value)
]

-- For 64-bit words, lj_carith_powu64 ends within its fuel and returns the power of the first to the
-- second modulo 2 ^ 64.
pub powu64-pow : (x k : ℕ) → x < 2 ^ 64 → k < 2 ^ 64 → lj_carith_powu64 x k ≡ ok (x ^ k % 2 ^ 64)
unfolding lj_carith_powu64
powu64-pow x k word small = elim (eq-cases k 0) [
  | inl z ↦ rw (z, pow-zero x) refl
  | inr pos ↦
      let (x', k', run, odd, le, word', cong) = strip_zeros_lem 64 x k (omega arith) small word in
      rw (ne→eqb_false k 0 pos, run) (after_strip x' k' odd (omega arith) word' ∙ ap ok cong)
]
