-- ===== src/Bcdump/Uleb.antt =====
-- ULEB128 numbers in bytecode dumps: LuaJIT-2.0.1/src/lj_bcwrite.c and lj_bcread.c.
-- The reader's `ls->p[0 .. ls->n-1]` is a list of bytes; to read past it is the error `overrun`.
pub mod Format
pub mod RoundTrip
pub mod Wide
use probabilistic_lua.Common.{
  ℕ, zero, suc, ◌+◌, ◌*◌, ◌/◌, ◌%◌, ◌^◌, bit_and, bit_or, List, [], ◌∷◌, ltb, leb, if◌then◌else◌,
}
use probabilistic_lua.Common.Result.{Result, ok, err, overrun, undefined, stuck, ◌>>=◌}
use probabilistic_lua.Bcdump.Buffer.{SBuf, bcwrite_byte}

-- `for (; v >= 0x80; v >>= 7) p[n++] = (v & 0x7f) | 0x80; p[n++] = v`, on fuel.
unfoldable pub uleb_loop : ℕ → SBuf → ℕ → Result SBuf
uleb_loop zero sb v = err stuck
uleb_loop (suc fuel) sb v =
    let more =
      bcwrite_byte sb (bit_or (bit_and v 0x7f) 0x80) >>= λ sb'. uleb_loop fuel sb' (v / 2 ^ 7) in
    if leb 0x80 v then more else bcwrite_byte sb (v % 2 ^ 8)

-- Five rounds are enough for 32 bits.
unfoldable pub bcwrite_uleb128 : SBuf → ℕ → Result SBuf
bcwrite_uleb128 sb v = uleb_loop 5 sb v

unfoldable pub bcread_byte : List ℕ → Result (ℕ × List ℕ)
bcread_byte [] = err overrun
bcread_byte (b ∷ p) = ok (b, p)

-- The loop `do { v |= ((*p & 0x7f) << sh); ... } while (*p++ >= 0x80)`, where `sh` is the shift of
-- the next group. C leaves a shift by 32 or more open.
unfoldable pub uleb_groups : ℕ → ℕ → List ℕ → Result (ℕ × List ℕ)
uleb_groups v sh [] = err overrun
uleb_groups v sh (b ∷ p) =
    let v' = bit_or v ((bit_and b 0x7f * 2 ^ sh) % 2 ^ 32) in
    let more = uleb_groups v' (sh + 7) p in
    if ltb 31 sh then err undefined else if leb 0x80 b then more else ok (v', p)

unfoldable pub bcread_uleb128 : List ℕ → Result (ℕ × List ℕ)
bcread_uleb128 [] = err overrun
bcread_uleb128 (b ∷ p) = if leb 0x80 b then uleb_groups (bit_and b 0x7f) 7 p else ok (b, p)

-- The top 32 bits of a number of 33 bits.
unfoldable pub bcread_uleb128_33 : List ℕ → Result (ℕ × List ℕ)
bcread_uleb128_33 [] = err overrun
bcread_uleb128_33 (b ∷ p) =
    let v = b / 2 in if leb 0x40 v then uleb_groups (bit_and v 0x3f) 6 p else ok (v, p)
