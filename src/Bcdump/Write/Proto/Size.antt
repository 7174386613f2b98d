-- ===== src/Bcdump/Write/Proto/Size.antt =====
-- The number of bytes of the size in front of a prototype: lj_fls in bcwrite_proto of
-- LuaJIT-2.0.1/src/lj_bcwrite.c.
use probabilistic_lua.Common.{
  ℕ, zero, suc, ◌+◌, ◌*◌, ◌/◌, ◌^◌, ◌≤◌, ◌<◌, length, ◌≡◌, ap, arith, dec_lt, lt→ltb, le→ltb,
}
use native.Mathlib.Nat.{pow-suc, one-le-pow}
use probabilistic_lua.Bcdump.Uleb.Format.{uleb, uleb128, uleb_last, uleb_more}
use probabilistic_lua.Bcdump.Write.Proto.{fls_loop, lj_fls}

fls_below : (k fuel x : ℕ) → x < 2 ^ suc k → fls_loop fuel x ≤ k
unfolding fls_loop
fls_below k zero x h = omega arith
fls_below zero (suc fuel) x h = rw (lt→ltb x 2 (omega arith)) (omega arith)
fls_below (suc k) (suc fuel) x h =
    let ih = fls_below k fuel (x / 2) (omega (arith, pow-suc 2 (suc k))) in
    elim (dec_lt x 2) [
      | yes p ↦ rw (lt→ltb x 2 p) (omega arith)
      | no p ↦ rw (le→ltb x 2 (omega arith)) (omega arith)
    ]

fls_above : (k fuel x : ℕ) → k ≤ fuel → 2 ^ k ≤ x → k ≤ fls_loop fuel x
unfolding fls_loop
fls_above zero fuel x hf h = omega arith
fls_above (suc k) zero x hf h = absurd (omega arith)
fls_above (suc k) (suc fuel) x hf h =
    let ih = fls_above k fuel (x / 2) (omega arith) (omega (arith, pow-suc 2 k)) in
    rw (le→ltb x 2 (omega (arith, pow-suc 2 k, one-le-pow k 2))) (omega arith)

-- The position of the highest bit.
pub lj_fls_lem : (k x : ℕ) → k ≤ 31 → 2 ^ k ≤ x → x < 2 ^ suc k → lj_fls x ≡ k
unfolding lj_fls
lj_fls_lem k x small low high =
    omega (arith, fls_below k 32 x high, fls_above k 32 x (omega arith) low)

-- Stepping down to the last group.
length_more : (k v : ℕ) → 128 ≤ v → length (uleb (suc k) v) ≡ suc (length (uleb k (v / 128)))
length_more k v h = ap length (uleb_more k v h)

length_last : (k v : ℕ) → v < 128 → length (uleb k v) ≡ 1
length_last k v h = ap length (uleb_last k v h)

-- For a size from 1 to 2 ^ 32 - 1, the formula (lj_fls(n)+8)*9 >> 6 of bcwrite_proto is the number
-- of bytes of the size in ULEB128.
pub size-bytes : (n : ℕ) → 0 < n → n < 2 ^ 32 → (lj_fls n + 8) * 9 / 2 ^ 6 ≡ length (uleb128 n)
unfolding lj_fls
size-bytes n pos h = elim (dec_lt n 128) [
  | yes p ↦ omega (arith, length_last 4 n p, fls_below 6 32 n (omega arith))
  | no p₁ ↦ elim (dec_lt n (2 ^ 14)) [
    | yes p ↦ omega (
      arith,
      length_more 3 n (omega arith),
      length_last 3 (n / 128) (omega arith),
      fls_above 7 32 n (omega arith) (omega arith),
      fls_below 13 32 n (omega arith),
    )
    | no p₂ ↦ elim (dec_lt n (2 ^ 21)) [
      | yes p ↦ omega (
        arith,
        length_more 3 n (omega arith),
        length_more 2 (n / 128) (omega arith),
        length_last 2 (n / 128 / 128) (omega arith),
        fls_above 14 32 n (omega arith) (omega arith),
        fls_below 20 32 n (omega arith),
      )
      | no p₃ ↦ elim (dec_lt n (2 ^ 28)) [
        | yes p ↦ omega (
          arith,
          length_more 3 n (omega arith),
          length_more 2 (n / 128) (omega arith),
          length_more 1 (n / 128 / 128) (omega arith),
          length_last 1 (n / 128 / 128 / 128) (omega arith),
          fls_above 21 32 n (omega arith) (omega arith),
          fls_below 27 32 n (omega arith),
        )
        | no p₄ ↦ omega (
          arith,
          length_more 3 n (omega arith),
          length_more 2 (n / 128) (omega arith),
          length_more 1 (n / 128 / 128) (omega arith),
          length_more 0 (n / 128 / 128 / 128) (omega arith),
          length_last 0 (n / 128 / 128 / 128 / 128) (omega arith),
          fls_above 28 32 n (omega arith) (omega arith),
          fls_below 31 32 n (omega arith),
        )
      ]
    ]
  ]
]
