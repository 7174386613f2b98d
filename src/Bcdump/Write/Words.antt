-- ===== src/Bcdump/Write/Words.antt =====
-- Pieces that tables and constants share: two words of a 64-bit value, and a string with its type.
use probabilistic_lua.Common.{
  ℕ, ◌+◌, ◌*◌, ◌%◌, ◌^◌, ◌≤◌, ◌<◌, List, [], ◌++◌, length, length-append, arith, ◌≡◌,
}
use probabilistic_lua.Common.Result.{Result, ◌>>=◌}
use probabilistic_lua.Bcdump.Buffer.{SBuf, bcwrite_block, bcwrite_need}
use probabilistic_lua.Bcdump.Buffer.Adds.{Adds, Adds-bind, block-Adds, need-Adds}
use probabilistic_lua.Bcdump.Uleb.{bcwrite_uleb128}
use probabilistic_lua.Bcdump.Uleb.Format.{uleb128, uleb128-Adds, length-uleb}

-- `bcwrite_uleb128(ctx, p[0].u32.lo); bcwrite_uleb128(ctx, p[0].u32.hi)`.
unfoldable pub write_words : SBuf → ℕ → ℕ → Result SBuf
write_words sb lo hi = do sb₁ ← bcwrite_uleb128 sb lo; bcwrite_uleb128 sb₁ hi

-- A string constant behind its type code, which is 5 plus the length.
unfoldable pub write_string : SBuf → List ℕ → Result SBuf
write_string sb s = do
  sb₁ ← bcwrite_need sb ((5 + length s) % 2 ^ 32)
  sb₂ ← bcwrite_uleb128 sb₁ ((5 + length s) % 2 ^ 32)
  bcwrite_block sb₂ s

-- A dump of `k` bytes on top of what the buffer holds stays in the range where sizes do not wrap.
abbrev pub Small : SBuf → ℕ → Type 0
Small sb k = length sb.bytes + 11 * k + 64 ≤ 2 ^ 31

-- The buffer is allocated and its bytes lie within it.
abbrev pub Ready : SBuf → Type 0
Ready sb = (1 ≤ sb.sz) × (length sb.bytes ≤ sb.sz)

pub words-Adds :
    (room : ℕ) (sb : SBuf) (lo hi : ℕ)
    → lo < 2 ^ 32
    → hi < 2 ^ 32
    → length sb.bytes + 10 + room ≤ sb.sz
    → Adds room sb (uleb128 lo ++ uleb128 hi) (write_words sb lo hi)
unfolding write_words
words-Adds room sb lo hi hl hh h =
    Adds-bind sb (uleb128 lo) (uleb128 hi) _
      (uleb128-Adds (5 + room) sb lo hl (omega (arith, length-uleb 4 lo)))
      (λ s n f g. uleb128-Adds room s hi hh (omega (arith, length-uleb 4 hi)))

pub string-Adds :
    (sb : SBuf) (s : List ℕ)
    → Ready sb
    → Small sb (length (uleb128 (5 + length s) ++ s))
    → Adds 0 sb (uleb128 (5 + length s) ++ s) (write_string sb s)
unfolding write_string
string-Adds sb s pos small =
    let n = 5 + length s in
    let len = length-append (uleb128 n) s in
    let bounds = length-uleb 4 n in
    let exact : n % 2 ^ 32 ≡ n = omega arith in
    rw exact (
      Adds-bind sb [] _ _ (need-Adds sb n pos.0 (omega arith)) (λ s₁ n₁ f₁ g₁.
        Adds-bind s₁ (uleb128 n) s _ (uleb128-Adds (length s) s₁ n (omega arith) (omega arith))
          (λ s₂ n₂ f₂ g₂. block-Adds 0 s₂ s (omega arith))))
