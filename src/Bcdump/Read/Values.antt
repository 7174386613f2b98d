-- ===== src/Bcdump/Read/Values.antt =====
-- Tables, constants, instructions and debug information: bcread_ktabk to bcread_uv of
-- LuaJIT-2.0.1/src/lj_bcread.c. The functions here never refill the buffer; they get `p[0 .. n-1]` and
-- return what is left of it.
pub mod Bits
pub mod RoundTrip
pub mod Words
use probabilistic_lua.Common.{
  ℕ, zero, suc, ◌+◌, ◌-◌, ◌*◌, ◌/◌, ◌%◌, ◌^◌, bit_and, bit_or, List, [], ◌∷◌, Bool, true, false,
  not, ◌&&◌, ◌||◌, ◌==◌, ltb, leb, if◌then◌else◌, length, take, drop, map,
}
use probabilistic_lua.Common.Result.{Result, ok, err, bad_code, overrun, ◌>>=◌}
use probabilistic_lua.Bcdump.Uleb.{bcread_byte, bcread_uleb128, bcread_uleb128_33}
use probabilistic_lua.Bcdump.Types.{
  Knum, int, num, TValue, pri, number, str, TabCalls, Build, GCproto, Kgc, k_str, k_child, k_tab,
  k_int64, k_uint64, k_complex, Kgcs, k_end, k_cons, DebugInfo,
}
use probabilistic_lua.Bcdump.Write.Proto.{lj_fls}

-- bcread_mem: a block of `len` bytes.
unfoldable pub bcread_mem : ℕ → List ℕ → Result (List ℕ × List ℕ)
bcread_mem len p = if leb len (length p) then ok (take len p, drop len p) else err overrun

-- A counted loop that reads one item in each round.
unfoldable pub read_times :
    {A : Type 0} → ℕ → (List ℕ → Result (A × List ℕ)) → List ℕ → Result (List A × List ℕ)
read_times zero read p = ok ([], p)
read_times (suc n) read p = do (x, p₁) ← read p; (xs, p₂) ← read_times n read p₁; ok (x ∷ xs, p₂)

-- hsize2hbits of lj_tab.h.
unfoldable pub hsize2hbits : ℕ → ℕ
hsize2hbits s = if s == 0 then 0 else if s == 1 then 1 else 1 + lj_fls (s - 1)

-- The two words of a 64-bit value.
unfoldable pub read_words : List ℕ → Result ((ℕ × ℕ) × List ℕ)
read_words p = do (lo, p₁) ← bcread_uleb128 p; (hi, p₂) ← bcread_uleb128 p₁; ok ((lo, hi), p₂)

module _ (b : Build) where
  -- setintV of lj_obj.h.
  unfoldable pub set_int : ℕ → Knum
  set_int k = if b.dualnum then int k else num (b.ops.int2num k).0 (b.ops.int2num k).1

  unfoldable pub bcread_ktabk : List ℕ → Result (TValue × List ℕ)
  unfolding bcread_mem set_int read_words
  bcread_ktabk p = do
    (tp, p₁) ← bcread_uleb128 p
    if leb 5 tp
        then (do (s, p₂) ← bcread_mem (tp - 5) p₁; ok (str s, p₂))
        else if tp == 3
        then (do (k, p₂) ← bcread_uleb128 p₁; ok (number (set_int k), p₂))
        else if tp == 4
        then (do (w, p₂) ← read_words p₁; ok (number (num w.0 w.1), p₂))
        else ok (pri tp, p₁)

  -- A key and the value stored by `lj_tab_set`.
  unfoldable pub read_pair : List ℕ → Result ((TValue × TValue) × List ℕ)
  unfolding bcread_ktabk
  read_pair p = do (k, p₁) ← bcread_ktabk p; (v, p₂) ← bcread_ktabk p₁; ok ((k, v), p₂)

  unfoldable pub bcread_ktab : List ℕ → Result (TabCalls × List ℕ)
  unfolding read_pair read_times
  bcread_ktab p = do
    (narray, p₁) ← bcread_uleb128 p
    (nhash, p₂) ← bcread_uleb128 p₁
    (vals, p₃) ← read_times narray bcread_ktabk p₂
    (pairs, p₄) ← read_times nhash read_pair p₃
    ok (record { asize = narray; hbits = hsize2hbits nhash; array = vals; sets = pairs }, p₄)

  -- One GC constant. The prototypes above the old stack top come first in `stack`.
  unfoldable pub read_kgc :
      List (GCproto TabCalls) → List ℕ → Result ((Kgc TabCalls × List (GCproto TabCalls)) × List ℕ)
  unfolding bcread_ktab bcread_mem
  read_kgc stack p = do
    (tp, p₁) ← bcread_uleb128 p
    if leb 5 tp
        then (do (s, p₂) ← bcread_mem (tp - 5) p₁; ok ((k_str s, stack), p₂))
        else if tp == 1
        then (do (t, p₂) ← bcread_ktab p₁; ok ((k_tab t, stack), p₂))
        else if not (tp == 0)
        then (do
          (w, p₂) ← read_words p₁
          if tp == 4
              then (do (v, p₃) ← read_words p₂; ok ((k_complex w.0 w.1 v.0 v.1, stack), p₃))
              else ok (((if tp == 2 then k_int64 w.0 w.1 else k_uint64 w.0 w.1), stack), p₂))
        else elim stack [ [] ↦ err bad_code | pt ∷ below ↦ ok ((k_child pt, below), p₁) ]

  unfoldable pub bcread_kgc :
      ℕ
      → List (GCproto TabCalls)
      → List ℕ
      → Result ((Kgcs TabCalls × List (GCproto TabCalls)) × List ℕ)
  bcread_kgc zero stack p = ok ((k_end, stack), p)
  bcread_kgc (suc n) stack p = do
    ((k, stack₁), p₁) ← read_kgc stack p
    ((ks, stack₂), p₂) ← bcread_kgc n stack₁ p₁
    ok ((k_cons k ks, stack₂), p₂)

  -- `isnum = (ls->p[0] & 1)`, and then the 33-bit number.
  unfoldable pub read_knum : List ℕ → Result (Knum × List ℕ)
  unfolding set_int
  read_knum [] = err overrun
  read_knum (c ∷ p) = do
    (lo, p₁) ← bcread_uleb128_33 (c ∷ p)
    if bit_and c 1 == 0
        then ok (set_int lo, p₁)
        else (do (hi, p₂) ← bcread_uleb128 p₁; ok (num lo hi, p₂))

-- The words and half-words that the host sees in a block of memory, and the swaps of their bytes.
unfoldable pub host_words : Bool → List ℕ → List ℕ
host_words false (a ∷ b ∷ c ∷ d ∷ p) = (a + b * 256 + c * 65536 + d * 16777216) ∷ host_words false p
host_words true (a ∷ b ∷ c ∷ d ∷ p) = (d + c * 256 + b * 65536 + a * 16777216) ∷ host_words true p
host_words be p = []

unfoldable pub host_halves : Bool → List ℕ → List ℕ
host_halves false (a ∷ b ∷ p) = (a + b * 256) ∷ host_halves false p
host_halves true (a ∷ b ∷ p) = (b + a * 256) ∷ host_halves true p
host_halves be p = []

unfoldable pub lj_bswap : ℕ → ℕ
lj_bswap x = x / 16777216 % 256 + x / 65536 % 256 * 256 + x / 256 % 256 * 65536 + x % 256 * 16777216

-- `(uint16_t)((x >> 8)|(x << 8))`.
unfoldable pub swap_half : ℕ → ℕ
swap_half x = bit_or (x / 2 ^ 8) (x * 2 ^ 8) % 2 ^ 16

-- bcread_swap: the dump was written on a host of the other byte order.
abbrev pub bcread_swap : Bool → ℕ → Bool
bcread_swap be flags = if bit_and flags 1 == 0 then be else not be

-- The instructions behind the header instruction.
unfoldable pub bcread_bytecode : Bool → Bool → ℕ → List ℕ → Result (List ℕ × List ℕ)
unfolding bcread_mem host_words lj_bswap
bcread_bytecode be swap nbc p = do
  (block, p₁) ← bcread_mem ((nbc * 4) % 2 ^ 32) p
  let bc = host_words be block
  ok ((if swap then map lj_bswap bc else bc), p₁)

unfoldable pub bcread_uv : Bool → Bool → ℕ → List ℕ → Result (List ℕ × List ℕ)
unfolding bcread_mem host_halves swap_half
bcread_uv be swap sizeuv p = do
  (block, p₁) ← bcread_mem (sizeuv * 2) p
  let uv = host_halves be block
  ok ((if swap then map swap_half uv else uv), p₁)

-- `numline < k` for the signed line number.
abbrev pub line_below : ℕ → ℕ → Bool
line_below numline k = ltb numline k || leb 0x80000000 numline

-- The bytes of a line number, `1 << (numline < 256 ? 0 : numline < 65536 ? 1 : 2)`.
unfoldable pub line_width : ℕ → ℕ
line_width numline = if line_below numline 256 then 1 else if line_below numline 65536 then 2 else 4

abbrev pub debug_of : List ℕ → List ℕ → DebugInfo
debug_of lines names = record { lineinfo = lines; names = names }

-- bcread_dbg, with the split at `sizeli` that bcread_proto makes. Swapping line numbers past the end of
-- the block is the error `overrun`.
unfoldable pub bcread_dbg : Bool → Bool → ℕ → ℕ → ℕ → List ℕ → Result (DebugInfo × List ℕ)
unfolding bcread_mem host_words host_halves lj_bswap swap_half line_width
bcread_dbg be swap numline nbc sizedbg p = do
  (block, p₁) ← bcread_mem sizedbg p
  let sizeli = (nbc * line_width numline) % 2 ^ 32
  let lines = take sizeli block
  let names = drop sizeli block
  if line_below numline 256
      then ok (debug_of lines names, p₁)
      else if swap && ltb sizedbg sizeli
      then err overrun
      else if line_below numline 65536
      then (let hs = host_halves be lines in
          ok (debug_of (if swap then map swap_half hs else hs) names, p₁))
      else (let ws = host_words be lines in
          ok (debug_of (if swap then map lj_bswap ws else ws) names, p₁))
