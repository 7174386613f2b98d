-- ===== src/Bcdump/Uleb/RoundTrip.antt =====
-- bcread_uleb128 and bcread_uleb128_33 of LuaJIT-2.0.1/src/lj_bcread.c on the bytes of the format.
use probabilistic_lua.Common.{
  ℕ, zero, suc, ◌+◌, ◌*◌, ◌/◌, ◌%◌, ◌^◌, ◌≤◌, ◌<◌, bit_and, bit_or, List, ◌∷◌, ◌++◌, ◌≡◌, ap, ◌∙◌,
  arith, dec_lt, le→ltb, le→leb, lt→leb_false,
}
use native.Mathlib.Nat.{pow-suc, div-add-mod}
use native.Mathlib.Numerals.{towards_suc}
use probabilistic_lua.Common.Bits.{bit_or-shift, bit_and_mask}
use probabilistic_lua.Common.Result.{ok}
use probabilistic_lua.Bcdump.Uleb.{uleb_groups, bcread_uleb128, bcread_uleb128_33}
use probabilistic_lua.Bcdump.Uleb.Format.{uleb, uleb128, uleb_last, uleb_more}

-- One round of the loop on the group `g`, as the last one and as an inner one.
module _ (v sh g : ℕ) (p : List ℕ) (hs : sh ≤ 31) (hv : v < 2 ^ sh) (hg : g < 128)
    (fits : v + g * 2 ^ sh < 2 ^ 32) where
  add_group : (b : ℕ) → b % 128 ≡ g → bit_or v ((bit_and b 0x7f * 2 ^ sh) % 2 ^ 32) ≡ v + g * 2 ^ sh
  add_group b e =
      let whole : (g * 2 ^ sh) % 2 ^ 32 ≡ g * 2 ^ sh = omega arith in
      rw (bit_and_mask 7 b, e, whole) (bit_or-shift sh v g hv)

  last_group : uleb_groups v sh (g ∷ p) ≡ ok (v + g * 2 ^ sh, p)
  unfolding uleb_groups
  last_group =
      rw (add_group g (omega arith), le→ltb 31 sh (omega arith), lt→leb_false 128 g (omega arith))

  inner_group : uleb_groups v sh ((g + 128) ∷ p) ≡ uleb_groups (v + g * 2 ^ sh) (sh + 7) p
  unfolding uleb_groups
  inner_group = rw (
    add_group (g + 128) (omega arith),
    le→ltb 31 sh (omega arith),
    le→leb 128 (g + 128) (omega arith),
  )

seven_more : (s : ℕ) → 2 ^ (s + 7) ≡ 128 * 2 ^ s
seven_more s = simp towards_suc (omega arith)

split_number : (w s : ℕ) → w * 2 ^ s ≡ w % 128 * 2 ^ s + w / 128 * 2 ^ (s + 7)
split_number w s = omega (
  arith,
  ap (λ (t : ℕ). t * 2 ^ s) (div-add-mod w 128),
  ap (λ (t : ℕ). w / 128 * t) (seven_more s),
)

stays_below : (v g t : ℕ) → v < t → g < 128 → v + g * t < 128 * t
stays_below v g t h k = grind arith

uleb_groups-uleb_small :
    (k w v sh : ℕ) (rest : List ℕ)
    → sh ≤ 31
    → w < 128
    → v < 2 ^ sh
    → v + w * 2 ^ sh < 2 ^ 32
    → uleb_groups v sh (uleb k w ++ rest) ≡ ok (v + w * 2 ^ sh, rest)
uleb_groups-uleb_small k w v sh rest hs hw hv fits =
    rw (uleb_last k w hw) (last_group v sh w rest hs hv hw fits)

-- `v` holds the groups read so far, and `w` is what is still to be read.
uleb_groups-uleb :
    (k w v sh : ℕ) (rest : List ℕ)
    → w < 128 ^ suc k
    → sh + 7 * k ≤ 31
    → v < 2 ^ sh
    → v + w * 2 ^ sh < 2 ^ 32
    → uleb_groups v sh (uleb k w ++ rest) ≡ ok (v + w * 2 ^ sh, rest)
uleb_groups-uleb zero w v sh rest hw hk hv fits =
    uleb_groups-uleb_small 0 w v sh rest (omega arith) (omega arith) hv fits
uleb_groups-uleb (suc k) w v sh rest hw hk hv fits = elim (dec_lt w 128) [
  | yes small ↦ uleb_groups-uleb_small (suc k) w v sh rest (omega arith) small hv fits
  | no large ↦
      let g = w % 128 in
      let split = split_number w sh in
      let total : v + g * 2 ^ sh + w / 128 * 2 ^ (sh + 7) ≡ v + w * 2 ^ sh = omega arith in
      let inner =
        inner_group v sh g (uleb k (w / 128) ++ rest) (omega arith) hv (omega arith)
          (omega arith) in
      let later =
        uleb_groups-uleb k (w / 128) (v + g * 2 ^ sh) (sh + 7) rest
          (omega (arith, pow-suc 128 (suc k))) (omega arith)
          (rw (seven_more sh) (stays_below v g (2 ^ sh) hv (omega arith))) (omega arith) in
      rw (uleb_more k w (omega arith)) (inner ∙ later ∙ ap (λ (t : ℕ). ok (t, rest)) total)
]

-- On the ULEB128 bytes of a 32-bit number, whatever follows them, bcread_uleb128 returns the number
-- and leaves what follows.
pub bcread_uleb128-uleb :
    (v : ℕ) (rest : List ℕ) → v < 2 ^ 32 → bcread_uleb128 (uleb128 v ++ rest) ≡ ok (v, rest)
bcread_uleb128-uleb v rest h = elim (dec_lt v 128) [
  | yes small ↦ rw (uleb_last 4 v small) (unfold bcread_uleb128 in rw (lt→leb_false 0x80 v small))
  | no large ↦
      let masked : bit_and (v % 128 + 128) 0x7f ≡ v % 128 =
        bit_and_mask 7 (v % 128 + 128) ∙ omega arith in
      let later =
        uleb_groups-uleb 3 (v / 128) (v % 128) 7 rest (omega arith) (omega arith) (omega arith)
          (omega arith) in
      let total : v % 128 + v / 128 * 2 ^ 7 ≡ v = omega arith in
      rw (uleb_more 3 v (omega arith)) (
        unfold bcread_uleb128 in
        rw (le→leb 0x80 (v % 128 + 128) (omega arith), masked)
          (later ∙ ap (λ (t : ℕ). ok (t, rest)) total))
]

-- On the ULEB128 bytes of a 33-bit number, whatever follows them, bcread_uleb128_33 returns the
-- upper 32 bits of the number and leaves what follows.
pub bcread_uleb128_33-uleb :
    (v : ℕ) (rest : List ℕ) → v < 2 ^ 33 → bcread_uleb128_33 (uleb128 v ++ rest) ≡ ok (v / 2, rest)
bcread_uleb128_33-uleb v rest h = elim (dec_lt v 128) [
  | yes small ↦
      rw (uleb_last 4 v small)
        (unfold bcread_uleb128_33 in rw (lt→leb_false 0x40 (v / 2) (omega arith)))
  | no large ↦
      let masked : bit_and ((v % 128 + 128) / 2) 0x3f ≡ v % 128 / 2 =
        bit_and_mask 6 ((v % 128 + 128) / 2) ∙ omega arith in
      let later =
        uleb_groups-uleb 3 (v / 128) (v % 128 / 2) 6 rest (omega arith) (omega arith) (omega arith)
          (omega arith) in
      let total : v % 128 / 2 + v / 128 * 2 ^ 6 ≡ v / 2 = omega arith in
      rw (uleb_more 3 v (omega arith)) (
        unfold bcread_uleb128_33 in
        rw (le→leb 0x40 ((v % 128 + 128) / 2) (omega arith), masked)
          (later ∙ ap (λ (t : ℕ). ok (t, rest)) total))
]
