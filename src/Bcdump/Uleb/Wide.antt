-- ===== src/Bcdump/Uleb/Wide.antt =====
-- The writer's 33-bit numbers: a 32-bit write whose last byte is patched (bcwrite_knum).
use probabilistic_lua.Common.{
  ℕ, ◌+◌, ◌*◌, ◌/◌, ◌%◌, ◌^◌, ◌≤◌, ◌<◌, bit_and, bit_or, List, [], ◌∷◌, ◌++◌, leb, if◌then◌else◌,
  length, length-append, ◌≡◌, refl, sym, ap, ◌∙◌, arith, dec_lt, le→ltb, le→leb, lt→leb_false, true,
  ◌==◌,
}
use probabilistic_lua.Common.Bits.{
  all_below, all_below_eq, bit_or-shift, bit_or_top, bit_and_mask, bit_and_bit,
}
use probabilistic_lua.Common.Result.{Result, ok, ◌>>=◌}
use probabilistic_lua.Bcdump.Buffer.{SBuf}
use probabilistic_lua.Bcdump.Buffer.Adds.{Adds}
use probabilistic_lua.Bcdump.Uleb.{bcwrite_uleb128}
use probabilistic_lua.Bcdump.Uleb.Format.{uleb, uleb128, uleb_last, uleb_more, uleb128-Adds}

-- `*p = f(*p)` for `p = &buf[n-1]`.
unfoldable pub set_last : List ℕ → (ℕ → ℕ) → List ℕ
set_last [] f = []
set_last (x ∷ []) f = f x ∷ []
set_last (x ∷ y ∷ r) f = x ∷ set_last (y ∷ r) f

-- `2*v | (v & 0x80000000)` in 32 bits.
abbrev pub low_word : ℕ → ℕ
low_word v = bit_or ((2 * v) % 2 ^ 32) (bit_and v 0x80000000)

-- `(*p & 7) | ((v>>27) & 0x18)`.
abbrev pub patched : ℕ → ℕ → ℕ
patched v p = bit_or (bit_and p 7) (bit_and (v / 2 ^ 27) 0x18)

-- A 33-bit number with the upper 32 bits `v` and the lowest bit `low`.
unfoldable pub bcwrite_wide : SBuf → ℕ → ℕ → Result SBuf
bcwrite_wide sb v low = do
  sb' ← bcwrite_uleb128 sb ((low + low_word v) % 2 ^ 32)
  ok (if leb 0x80000000 v then record sb' { bytes = set_last sb'.bytes (patched v) } else sb')

set_last-append :
    (xs : List ℕ) (y : ℕ) (ys : List ℕ) (f : ℕ → ℕ)
    → set_last (xs ++ (y ∷ ys)) f ≡ xs ++ set_last (y ∷ ys) f
unfolding set_last
set_last-append [] y ys f = refl
set_last-append (x ∷ []) y ys f = refl
set_last-append (x ∷ x' ∷ xs) y ys f = ap (λ t. x ∷ t) (set_last-append (x' ∷ xs) y ys f)

bit_31 : (v : ℕ) → v < 2 ^ 32 → bit_and v 0x80000000 ≡ v / 2 ^ 31 * 2 ^ 31
bit_31 v h =
    let parts : v / 2 ^ 31 * 2 ^ 31 + v % 2 ^ 31 ≡ v = omega arith in
    ap (λ (t : ℕ). bit_and t 0x80000000) (sym parts)
    ∙ bit_and_bit 31 (v / 2 ^ 31) (v % 2 ^ 31) (omega arith)
    ∙ omega arith

set_bit_31 : (a : ℕ) → a < 2 ^ 32 → bit_or a 0x80000000 ≡ 2 ^ 31 + a % 2 ^ 31
set_bit_31 a h =
    let parts : a / 2 ^ 31 * 2 ^ 31 + a % 2 ^ 31 ≡ a = omega arith in
    ap (λ (t : ℕ). bit_or t 0x80000000) (sym parts)
    ∙ bit_or_top 31 (a / 2 ^ 31) (a % 2 ^ 31) (omega arith) (omega arith)

set_last-uleb :
    (xs : List ℕ) (v : ℕ) (f : ℕ → ℕ) → set_last (xs ++ uleb128 v) f ≡ xs ++ set_last (uleb128 v) f
set_last-uleb xs v f = elim (dec_lt v 128) [
  | yes small ↦ rw (uleb_last 4 v small) (set_last-append xs v [] f)
  | no large ↦ rw (uleb_more 3 v (omega arith)) (set_last-append xs _ _ f)
]

low_word_small : (v : ℕ) → v < 2 ^ 31 → low_word v ≡ 2 * v
low_word_small v h =
    let off : bit_and v 0x80000000 ≡ 0 = bit_31 v (omega arith) ∙ omega arith in
    rw off (bit_or-shift 32 ((2 * v) % 2 ^ 32) 0 (omega arith) ∙ omega arith)

low_word_large : (v : ℕ) → 2 ^ 31 ≤ v → v < 2 ^ 32 → low_word v ≡ 2 ^ 31 + 2 * v % 2 ^ 31
low_word_large v h w =
    let on : bit_and v 0x80000000 ≡ 0x80000000 = bit_31 v w ∙ omega arith in
    rw on (set_bit_31 ((2 * v) % 2 ^ 32) (omega arith) ∙ omega arith)

mask_table : all_below 32 (λ x. bit_and x 0x18 == x / 8 * 8) ≡ true
unfolding all_below
mask_table = refl

patched-eq : (p v : ℕ) → v < 2 ^ 32 → patched v p ≡ p % 8 + v / 2 ^ 30 * 8
patched-eq p v hv =
    let top : bit_and (v / 2 ^ 27) 0x18 ≡ v / 2 ^ 27 / 8 * 8 =
      all_below_eq 32 (λ x. bit_and x 0x18) (λ x. x / 8 * 8) (v / 2 ^ 27) mask_table
        (omega arith) in
    rw (bit_and_mask 3 p, top) (bit_or-shift 3 (p % 8) (v / 2 ^ 27 / 8) (omega arith) ∙ omega arith)

-- A number of 29 bits or more takes five groups.
uleb_five :
    (v : ℕ)
    → 2 ^ 28 ≤ v
    → uleb128 v
      ≡ (v % 128 + 128)
        ∷ (v / 128 % 128 + 128)
        ∷ (v / 128 / 128 % 128 + 128)
        ∷ (v / 128 / 128 / 128 % 128 + 128)
        ∷ (v / 128 / 128 / 128 / 128)
        ∷ []
unfolding uleb
uleb_five v h = rw (
  le→ltb v 128 (omega arith),
  le→ltb (v / 128) 128 (omega arith),
  le→ltb (v / 128 / 128) 128 (omega arith),
  le→ltb (v / 128 / 128 / 128) 128 (omega arith),
)

five_congr :
    {a b c d e a' b' c' d' e' : ℕ}
    → a ≡ a'
    → b ≡ b'
    → c ≡ c'
    → d ≡ d'
    → e ≡ e'
    → a ∷ b ∷ c ∷ d ∷ e ∷ [] ≡ a' ∷ b' ∷ c' ∷ d' ∷ e' ∷ []
five_congr p q r s t = cc

-- The patch turns the 32-bit write into the format of the 33-bit number.
patch-uleb :
    (v low : ℕ)
    → 2 ^ 31 ≤ v
    → v < 2 ^ 32
    → low ≤ 1
    → set_last (uleb128 (low + (2 ^ 31 + 2 * v % 2 ^ 31))) (patched v) ≡ uleb128 (2 * v + low)
unfolding set_last
patch-uleb v low h w hl =
    let z = low + (2 ^ 31 + 2 * v % 2 ^ 31) in
    let last = patched-eq (z / 128 / 128 / 128 / 128) v w in
    rw (uleb_five z (omega arith), uleb_five (2 * v + low) (omega arith))
      (five_congr (omega arith) (omega arith) (omega arith) (omega arith) (last ∙ omega arith))

-- For a 32-bit number and a low bit, if the bytes fit, the 32-bit write of bcwrite_knum and the
-- patch of its last byte add the 33-bit number 2 v + low in ULEB128, and leave the room asked for.
pub wide-Adds :
    (room : ℕ) (b : SBuf) (v low : ℕ)
    → v < 2 ^ 32
    → low ≤ 1
    → length b.bytes + length (uleb128 (2 * v + low)) + room ≤ b.sz
    → Adds room b (uleb128 (2 * v + low)) (bcwrite_wide b v low)
unfolding bcwrite_wide
wide-Adds room b v low hv hl h = elim (dec_lt v (2 ^ 31)) [
  | yes small ↦
      let word : (low + low_word v) % 2 ^ 32 ≡ 2 * v + low =
        rw (low_word_small v small) (omega arith) in
      let a = uleb128-Adds room b (2 * v + low) (omega arith) h in
      rw (word, lt→leb_false 0x80000000 v small)
        (record {
          after = a.after;
          run = rw a.run;
          added = a.added;
          fits = a.fits;
          grows = a.grows;
        })
  | no large ↦
      let z = low + (2 ^ 31 + 2 * v % 2 ^ 31) in
      let word : (low + low_word v) % 2 ^ 32 ≡ z =
        rw (low_word_large v (omega arith) hv) (omega arith) in
      let same =
        ap length (uleb_five z (omega arith))
        ∙ sym (ap length (uleb_five (2 * v + low) (omega arith))) in
      let a = uleb128-Adds room b z (omega arith) (omega arith) in
      let patch = patch-uleb v low (omega arith) hv hl in
      let bytes : set_last a.after.bytes (patched v) ≡ b.bytes ++ uleb128 (2 * v + low) =
        rw a.added (set_last-uleb b.bytes z (patched v) ∙ ap (λ t. b.bytes ++ t) patch) in
      rw (word, le→leb 0x80000000 v (omega arith))
        (record {
          after = record a.after { bytes = set_last a.after.bytes (patched v) };
          run = rw a.run;
          added = bytes;
          fits = omega (
            arith,
            ap length bytes,
            ap length a.added,
            length-append b.bytes (uleb128 z),
            length-append b.bytes (uleb128 (2 * v + low)),
            a.fits,
          );
          grows = a.grows;
        })
]
