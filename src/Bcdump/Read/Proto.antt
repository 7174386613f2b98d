-- ===== src/Bcdump/Read/Proto.antt =====
-- Buffer refill, prototypes and the whole dump: bcread_fill, bcread_need, bcread_want, bcread_proto,
-- bcread_header and lj_bcread of LuaJIT-2.0.1/src/lj_bcread.c.
-- The reader callback is the list of the blocks that it still returns. Where the bytes stand in memory
-- (the copies and the growth of `ls->sb`) is left out: `p` is `ls->p[0 .. ls->n-1]`.
pub mod Data
pub mod Refill
pub mod Piece
pub mod Dump
pub mod Header
pub mod Whole
use probabilistic_lua.Common.{
  ℕ, zero, suc, ◌+◌, ◌-◌, ◌*◌, ◌/◌, ◌%◌, ◌^◌, bit_and, List, [], ◌∷◌, ◌++◌, Bool, true, false, not,
  ◌&&◌, ◌||◌, ◌==◌, ltb, leb, if◌then◌else◌, length, take, Option, none, some,
}
use probabilistic_lua.Common.Result.{
  Result, ok, err, bad_code, bad_format, overrun, stack_overflow, stuck, ◌>>=◌, ◌>>◌, guard,
}
use probabilistic_lua.Bcdump.Uleb.{bcread_byte, bcread_uleb128}
use probabilistic_lua.Bcdump.Types.{TabCalls, Build, GCproto, proto, PtInfo, DebugInfo, Knum}
use probabilistic_lua.Bcdump.Read.Values.{
  bcread_mem, read_times, read_knum, bcread_kgc, bcread_swap, bcread_bytecode, bcread_uv,
  bcread_dbg,
}

-- The fields of LexState that the reader uses; `eof` is `current < 0`, `flags` the dump's flags, and
-- `stack` the prototypes above the old top of the Lua stack, the last one first.
pub record LexState : Type 0 where
  pub p : List ℕ
  pub chunks : List (List ℕ)
  pub eof : Bool
  pub flags : ℕ
  pub chunkname : List ℕ
  pub stack : List (GCproto TabCalls)

abbrev pub max_mem : ℕ
max_mem = 0x7fffff00

-- A block behind the bytes at hand: `(MSize)size` is its size in 32 bits, and so is `sb.n + size`. The
-- buffer for the sum is too small when the sum wraps.
unfoldable pub append_block : List ℕ → List ℕ → Result (List ℕ)
append_block [] block = ok (take (length block % 2 ^ 32) block)
append_block (x ∷ p) block =
    if ltb (length (x ∷ p) + length block) (2 ^ 32) then ok ((x ∷ p) ++ block) else err overrun

-- The loop of bcread_fill, with the bytes at hand and the blocks to come.
unfoldable pub fill_loop : LexState → ℕ → Bool → List ℕ → List (List ℕ) → Result LexState
unfolding append_block
fill_loop ls len need p [] =
    if need then err bad_code else ok (record ls { p = p; chunks = []; eof = true })
fill_loop ls len need p ([] ∷ cs) =
    if need then err bad_code else ok (record ls { p = p; chunks = cs; eof = true })
fill_loop ls len need p ((c ∷ block) ∷ cs) = append_block p (c ∷ block) >>= λ p'.
    let more = fill_loop ls len need p' cs in
    if ltb (length p') len then more else ok (record ls { p = p'; chunks = cs })

unfoldable pub bcread_fill : LexState → ℕ → Bool → Result LexState
unfolding fill_loop
bcread_fill ls len need =
    if ltb max_mem len || ls.eof then err bad_code else fill_loop ls len need ls.p ls.chunks

unfoldable pub bcread_need : LexState → ℕ → Result LexState
unfolding bcread_fill
bcread_need ls len = if ltb (length ls.p) len then bcread_fill ls len true else ok ls

unfoldable pub bcread_want : LexState → ℕ → Result LexState
unfolding bcread_fill
bcread_want ls len = if ltb (length ls.p) len then bcread_fill ls len false else ok ls

-- The debug part of the prototype header: size, first line, number of lines.
unfoldable pub read_debughead : Bool → List ℕ → Result ((ℕ × ℕ × ℕ) × List ℕ)
read_debughead strip p = if strip then ok ((0, 0, 0), p) else (do
  (sizedbg, p₁) ← bcread_uleb128 p
  if sizedbg == 0 then ok ((0, 0, 0), p₁) else (do
    (firstline, p₂) ← bcread_uleb128 p₁
    (numline, p₃) ← bcread_uleb128 p₂
    ok ((sizedbg, firstline, numline), p₃)))

unfoldable pub read_debug : Bool → Bool → ℕ → ℕ → ℕ → List ℕ → Result (Option DebugInfo × List ℕ)
read_debug be swap numline nbc sizedbg p =
    if sizedbg == 0
    then ok (none, p)
    else (do (d, p₁) ← bcread_dbg be swap numline nbc sizedbg p; ok (some d, p₁))

-- `BCINS_AD((pt->flags & PROTO_VARARG) ? BC_FUNCV : BC_FUNCF, pt->framesize, 0)`.
abbrev pub header_ins : ℕ → ℕ → ℕ
header_ins flags framesize = (if bit_and flags 2 == 0 then 85 else 88) + framesize * 256

unfoldable pub at_end : List ℕ → Bool
at_end [] = false
at_end (c ∷ p) = c == 0

abbrev pub skip_byte : List ℕ → List ℕ
skip_byte [] = []
skip_byte (c ∷ p) = p

module _ (b : Build) where
  -- bcread_proto from the flags byte to the debug information; `flags` are the dump's.
  unfoldable pub read_pdata :
      ℕ
      → List (GCproto TabCalls)
      → List ℕ
      → Result ((GCproto TabCalls × List (GCproto TabCalls)) × List ℕ)
  unfolding read_debughead read_debug
  read_pdata flags stack p = do
    (ptflags, p₁) ← bcread_byte p
    (numparams, p₂) ← bcread_byte p₁
    (framesize, p₃) ← bcread_byte p₂
    (sizeuv, p₄) ← bcread_byte p₃
    (sizekgc, p₅) ← bcread_uleb128 p₄
    (sizekn, p₆) ← bcread_uleb128 p₅
    (nbc, p₇) ← bcread_uleb128 p₆
    ((sizedbg, firstline, numline), p₈) ← read_debughead (not (bit_and flags 2 == 0)) p₇
    let swap = bcread_swap b.be flags
    (bc, p₉) ← bcread_bytecode b.be swap nbc p₈
    (uv, p₁₀) ← bcread_uv b.be swap sizeuv p₉
    ((ks, stack₁), p₁₁) ← bcread_kgc b sizekgc stack p₁₀
    (kn, p₁₂) ← read_times sizekn (read_knum b) p₁₁
    (debug, p₁₃) ← read_debug b.be swap numline nbc sizedbg p₁₂
    let info : PtInfo = record {
      flags = ptflags;
      numparams = numparams;
      framesize = framesize;
      trace = 0;
      header = header_ins ptflags framesize;
      bc = bc;
      uv = uv;
      kn = kn;
      firstline = firstline;
      numline = numline;
      debug = debug;
    }
    ok ((proto info ks, stack₁), p₁₃)

  -- `none` is the end of the dump.
  unfoldable pub read_sized : LexState → Result (Option (GCproto TabCalls) × LexState)
  unfolding bcread_want bcread_need
  read_sized ls = do
    ls₁ ← bcread_want ls 5
    (len, p) ← bcread_uleb128 ls₁.p
    if len == 0 then ok (none, record ls₁ { p = p }) else (do
      ls₂ ← bcread_need (record ls₁ { p = p }) len
      ((pt, stack), rest) ← read_pdata ls₂.flags ls₂.stack ls₂.p
      guard (len == length ls₂.p - length rest) bad_code
      ok (some pt, record ls₂ { p = rest; stack = stack }))

  unfoldable pub bcread_proto : LexState → Result (Option (GCproto TabCalls) × LexState)
  unfolding at_end read_sized
  bcread_proto ls =
      if at_end ls.p then ok (none, record ls { p = skip_byte ls.p }) else read_sized ls

  -- The name of the chunk, from the dump or, if it is stripped, from the caller.
  unfoldable pub read_chunkname : List ℕ → LexState → Result LexState
  read_chunkname chunkarg ls =
      if not (bit_and ls.flags 2 == 0) then ok (record ls { chunkname = chunkarg }) else (do
        (len, p) ← bcread_uleb128 ls.p
        ls₁ ← bcread_need (record ls { p = p }) len
        (name, rest) ← bcread_mem len ls₁.p
        ok (record ls₁ { p = rest; chunkname = name }))

  -- `0` of bcread_header is the error that lj_bcread throws for it. The FFI library is loaded on demand
  -- in the source, with no effect on what is read.
  unfoldable pub bcread_header : List ℕ → LexState → Result LexState
  unfolding bcread_want bcread_need bcread_mem read_chunkname
  bcread_header chunkarg ls = do
    ls₁ ← bcread_want ls (3 + 5 + 5)
    (h₂, p₂) ← bcread_byte ls₁.p
    guard (h₂ == 0x4c) bad_format
    (h₃, p₃) ← bcread_byte p₂
    guard (h₃ == 0x4a) bad_format
    (version, p₄) ← bcread_byte p₃
    guard (version == 1) bad_format
    (flags, p₅) ← bcread_uleb128 p₄
    guard (ltb flags 8) bad_format
    read_chunkname chunkarg (record ls₁ { p = p₅; flags = flags })

  -- `setprotoV(L, L->top, pt); incr_top(L)`: from the old top, `L->top` can rise by less than `slots`
  -- before the stack, grown to its maximal size, overflows.
  unfoldable pub push_proto : ℕ → GCproto TabCalls → LexState → Result LexState
  push_proto slots pt ls =
      if ltb (length (pt ∷ ls.stack)) slots
      then ok (record ls { stack = pt ∷ ls.stack })
      else err stack_overflow

  -- All prototypes, on fuel: each takes at least one byte.
  unfoldable pub proto_loop : ℕ → ℕ → LexState → Result LexState
  unfolding bcread_proto push_proto
  proto_loop slots zero ls = err stuck
  proto_loop slots (suc fuel) ls = bcread_proto ls >>= λ r. elim r.0 [
    | none ↦ ok r.1
    | some pt ↦ push_proto slots pt r.1 >>= λ ls₁. proto_loop slots fuel ls₁
  ]

  -- The prototype that is left on the stack, if it is the only one and no bytes are left.
  unfoldable pub last_proto : LexState → Result (GCproto TabCalls × List ℕ)
  last_proto ls =
      if leb 1 (length ls.p) && ltb (length ls.p) 0x80000000 then err bad_code else elim ls.stack [
        | [] ↦ err bad_code
        | pt ∷ below ↦ elim below [ [] ↦ ok (pt, ls.chunkname) | q ∷ r ↦ err bad_code ]
      ]

  -- The lexer has taken the first byte of the dump; the result is the prototype and its chunk name.
  unfoldable pub lj_bcread : ℕ → ℕ → List ℕ → LexState → Result (GCproto TabCalls × List ℕ)
  unfolding bcread_header proto_loop last_proto
  lj_bcread slots fuel chunkarg ls = do
    ls₁ ← bcread_header chunkarg (record ls { stack = [] })
    ls₂ ← proto_loop slots fuel ls₁
    last_proto ls₂
