-- ===== src/Bcdump/Buffer.antt =====
-- The output buffer of the bytecode writer: LuaJIT-2.0.1/src/lj_bcwrite.c, SBuf of lj_obj.h.
-- An `SBuf` is its bytes `buf[0] .. buf[n-1]` with the allocated size; `n` is their number. A store
-- at or past `sz` is the error `overrun`.
pub mod Adds
use probabilistic_lua.Common.{
  ℕ, zero, suc, ◌+◌, ◌*◌, ◌%◌, ◌^◌, List, [], ◌∷◌, ◌++◌, ltb, if◌then◌else◌, length,
}
use probabilistic_lua.Common.Result.{Result, ok, err, overrun, stuck, ◌>>=◌}

pub record SBuf : Type 0 where
  pub bytes : List ℕ
  pub sz : ℕ

-- `buf[n++] = b`
unfoldable pub bcwrite_byte : SBuf → ℕ → Result SBuf
bcwrite_byte sb b =
    if ltb (length sb.bytes) sb.sz
    then ok (record sb { bytes = sb.bytes ++ (b ∷ []) })
    else err overrun

-- The copy loop; `n += len` stands before the stores in the source.
unfoldable pub bcwrite_block : SBuf → List ℕ → Result SBuf
bcwrite_block sb [] = ok sb
bcwrite_block sb (b ∷ p) = do sb' ← bcwrite_byte sb b; bcwrite_block sb' p

-- `while (n + len > sz) sz = sz * 2`; MSize wraps at 32 bits.
unfoldable pub double_size : ℕ → ℕ → ℕ → Result ℕ
double_size zero want sz = err stuck
double_size (suc fuel) want sz =
    let more = double_size fuel want ((sz * 2) % 2 ^ 32) in if ltb sz want then more else ok sz

-- A size of at least 1 passes any 32-bit number of bytes after 32 doublings.
unfoldable pub bcwrite_resize : SBuf → ℕ → Result SBuf
bcwrite_resize sb len = do
  sz ← double_size 33 ((length sb.bytes + len) % 2 ^ 32) ((sb.sz * 2) % 2 ^ 32)
  ok (record sb { sz = sz })

unfoldable pub bcwrite_need : SBuf → ℕ → Result SBuf
bcwrite_need sb len =
    if ltb sb.sz ((length sb.bytes + len) % 2 ^ 32) then bcwrite_resize sb len else ok sb
