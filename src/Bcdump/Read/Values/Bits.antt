-- ===== src/Bcdump/Read/Values/Bits.antt =====
-- hsize2hbits of LuaJIT-2.0.1/src/lj_tab.h, against the least number of bits.
use probabilistic_lua.Common.{
  ℕ, zero, suc, ◌+◌, ◌-◌, ◌/◌, ◌^◌, ◌≤◌, ◌<◌, leb, dec_lt, le→leb, lt→leb_false, false, ap,
  ne→eqb_false, lt→ltb, le→ltb, ◌≡◌, refl, ◌∙◌, arith,
}
use native.Mathlib.Nat.{pow-suc}
use probabilistic_lua.Bcdump.Format.Load.{least_bits, hash_bits}
use probabilistic_lua.Bcdump.Read.Values.{hsize2hbits}
use probabilistic_lua.Bcdump.Write.Proto.{fls_loop, lj_fls}

-- Twice the entries take one bit more.
least_bits-double :
    (n h s : ℕ) → 2 ≤ s → least_bits n (suc h) (suc s) ≡ suc (least_bits n h (suc (s / 2)))
unfolding least_bits
least_bits-double zero h s pos = refl
least_bits-double (suc n) h s pos =
    let ih = least_bits-double n (suc h) s pos in
    elim (dec_lt (2 ^ h) (suc (s / 2))) [
      | yes p ↦ rw (
        lt→leb_false (suc (s / 2)) (2 ^ h) p,
        lt→leb_false (suc s) (2 ^ suc h) (omega (arith, pow-suc 2 h)),
        ih,
      )
      | no p ↦ rw (
        le→leb (suc (s / 2)) (2 ^ h) (omega arith),
        le→leb (suc s) (2 ^ suc h) (omega (arith, pow-suc 2 h)),
      )
    ]

-- Two formulas for the same number of bits: by the highest bit, and by the least size.
fls-least : (n x : ℕ) → 1 ≤ x → x < 2 ^ n → 1 + fls_loop n x ≡ least_bits n 1 (suc x)
unfolding fls_loop
fls-least zero x pos h = absurd (omega arith)
fls-least (suc n) x pos h = elim (dec_lt x 2) [
  | yes p ↦ let one : x ≡ 1 = omega arith in rw (lt→ltb x 2 p, one) (unfold least_bits in refl)
  | no p ↦
      let ih = fls-least n (x / 2) (omega arith) (omega (arith, pow-suc 2 n)) in
      let above : leb (suc x) (2 ^ 1) ≡ false = lt→leb_false (suc x) (2 ^ 1) (omega arith) in
      let one_more = least_bits-double n 1 x (omega arith) in
      let step : least_bits (suc n) 1 (suc x) ≡ least_bits n 2 (suc x) =
        unfold least_bits in rw above in
      rw (le→ltb x 2 (omega arith)) (omega (arith, ih, one_more, step))
]

-- The number of hash bits is the least one with room for the entries.
pub hsize2hbits-hash_bits : (s : ℕ) → s < 2 ^ 32 → hsize2hbits s ≡ hash_bits s
unfolding hsize2hbits hash_bits
hsize2hbits-hash_bits s h = elim (dec_lt s 2) [
  | yes p ↦ elim (dec_lt s 1) [
    | yes p₀ ↦ let none_left : s ≡ 0 = omega arith in rw none_left
    | no p₀ ↦ let one : s ≡ 1 = omega arith in rw one (unfold least_bits in refl)
  ]
  | no p ↦
      let less : suc (s - 1) ≡ s = omega arith in
      let e : 1 + lj_fls (s - 1) ≡ least_bits 32 1 (suc (s - 1)) =
        unfold lj_fls in fls-least 32 (s - 1) (omega arith) (omega arith) in
      rw (ne→eqb_false s 0 (omega arith), ne→eqb_false s 1 (omega arith))
        (e ∙ ap (least_bits 32 1) less)
]
