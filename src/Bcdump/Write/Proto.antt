-- ===== src/Bcdump/Write/Proto.antt =====
-- Prototypes and the whole dump: bcwrite_proto, bcwrite_header, bcwrite_footer, cpwriter and
-- lj_bcwrite of LuaJIT-2.0.1/src/lj_bcwrite.c.
pub mod Size
pub mod Adds
pub mod Fill
pub mod Feed
use probabilistic_lua.Common.{
  ℕ, zero, suc, ◌+◌, ◌-◌, ◌*◌, ◌/◌, ◌%◌, ◌^◌, bit_and, List, [], ◌∷◌, ◌++◌, Bool, true, false, not,
  ◌==◌, ltb, if◌then◌else◌, length, take, drop, replicate, Option, none, some,
}
use probabilistic_lua.Common.Result.{Result, ok, ◌>>=◌}
use probabilistic_lua.Bcdump.Buffer.{SBuf, bcwrite_byte, bcwrite_block, bcwrite_need}
use probabilistic_lua.Bcdump.Uleb.{bcwrite_uleb128}
use probabilistic_lua.Bcdump.Types.{
  GCtab, Build, GCproto, proto, Kgc, k_str, k_child, k_tab, k_int64, k_uint64, k_complex, Kgcs,
  k_end, k_cons, PtInfo,
}
use probabilistic_lua.Bcdump.Format.Values.{fmts, fmt_half, fmt_debug, count_kgcs}
use probabilistic_lua.Bcdump.Write.Bytecode.{bcwrite_bytecode}
use probabilistic_lua.Bcdump.Write.Consts.{bcwrite_kgc, bcwrite_knum}

-- The index of the highest set bit, for `x` from 1 to 2 ^ 32 - 1; 0 for 0, which C leaves open.
unfoldable pub fls_loop : ℕ → ℕ → ℕ
fls_loop zero x = 0
fls_loop (suc fuel) x = let more = suc (fls_loop fuel (x / 2)) in if ltb x 2 then 0 else more

unfoldable pub lj_fls : ℕ → ℕ
unfolding fls_loop
lj_fls x = fls_loop 32 x

-- The context, with the state of the caller's writer function.
pub record BcWriteCtx (S : Type 0) : Type 0 where
  pub sb : SBuf
  pub status : ℕ
  pub wdata : S

module _ (b : Build) (startins : ℕ → ℕ) (strip : Bool) where
  -- `proto_lineinfo(pt)` up to the end of the prototype, empty if there is none or it is stripped.
  abbrev pub debug_block : PtInfo → List ℕ
  debug_block i = if strip then [] else fmt_debug b.be i.numline i.debug

  unfoldable pub write_debughead : SBuf → PtInfo → Result SBuf
  write_debughead sb i = if strip then ok sb else do
    let sizedbg = length (debug_block i)
    sb₁ ← bcwrite_uleb128 sb sizedbg
    if sizedbg == 0
        then ok sb₁
        else do sb₂ ← bcwrite_uleb128 sb₁ i.firstline; bcwrite_uleb128 sb₂ i.numline

  unfoldable pub write_phead : SBuf → PtInfo → ℕ → Result SBuf
  unfolding write_debughead
  write_phead sb i sizekgc = do
    sb₁ ← bcwrite_byte sb (bit_and i.flags 7)
    sb₂ ← bcwrite_byte sb₁ i.numparams
    sb₃ ← bcwrite_byte sb₂ i.framesize
    sb₄ ← bcwrite_byte sb₃ (length i.uv)
    sb₅ ← bcwrite_uleb128 sb₄ sizekgc
    sb₆ ← bcwrite_uleb128 sb₅ (length i.kn)
    sb₇ ← bcwrite_uleb128 sb₆ (length i.bc)
    write_debughead sb₇ i

  unfoldable pub write_debug : SBuf → PtInfo → Result SBuf
  write_debug sb i =
      let sizedbg = length (debug_block i) in
      if sizedbg == 0
      then ok sb
      else do sb₁ ← bcwrite_need sb sizedbg; bcwrite_block sb₁ (debug_block i)

  -- The buffer from `lj_str_resetbuf` up to the debug information. `n = 5` leaves five bytes, whose
  -- contents do not matter, for the size.
  unfoldable pub write_pdata : SBuf → PtInfo → Kgcs GCtab → Result SBuf
  unfolding write_phead write_debug
  write_pdata sb i ks = do
    let sb₀ : SBuf = record sb { bytes = replicate 5 0 }
    sb₁ ← bcwrite_need sb₀ ((4 + 6 * 5 + length i.bc * 4 + length i.uv * 2) % 2 ^ 32)
    sb₂ ← write_phead sb₁ i (count_kgcs ks)
    sb₃ ← bcwrite_bytecode b.be startins sb₂ i
    sb₄ ← bcwrite_block sb₃ (fmts (fmt_half b.be) i.uv)
    sb₅ ← bcwrite_kgc b sb₄ ks
    sb₆ ← bcwrite_knum b sb₅ i.kn
    write_debug sb₆ i

  -- The size is written over the end of the five bytes, and the writer gets the memory from there on.
  unfoldable pub fill_size : SBuf → Result (List ℕ)
  fill_size sb = do
    let n = length sb.bytes - 5
    let nn = (lj_fls n + 8) * 9 / 2 ^ 6
    sb₁ ← bcwrite_uleb128 (record sb { bytes = take (5 - nn) sb.bytes }) n
    let memory = sb₁.bytes ++ drop (length sb₁.bytes) sb.bytes
    ok (take (nn + n) (drop (5 - nn) memory))

  -- The dump flags: BCDUMP_F_STRIP, BCDUMP_F_BE, BCDUMP_F_FFI.
  abbrev pub header_flags : PtInfo → ℕ
  header_flags i =
      (if strip then 2 else 0) + (if b.be then 1 else 0) + (if bit_and i.flags 4 == 0 then 0 else 4)

  -- The chunk name, unless the dump is stripped.
  unfoldable pub write_chunkname : SBuf → List ℕ → Result SBuf
  write_chunkname sb name =
      if strip then ok sb else do sb' ← bcwrite_uleb128 sb (length name); bcwrite_block sb' name

  -- The header in the buffer, before it is passed on.
  unfoldable pub header_block : SBuf → PtInfo → List ℕ → Result SBuf
  unfolding write_chunkname
  header_block sb i name = do
    sb₁ ← bcwrite_need (record sb { bytes = [] }) ((5 + 5 + length name) % 2 ^ 32)
    sb₂ ← bcwrite_byte sb₁ 0x1b
    sb₃ ← bcwrite_byte sb₂ 0x4c
    sb₄ ← bcwrite_byte sb₃ 0x4a
    sb₅ ← bcwrite_byte sb₄ 1
    sb₆ ← bcwrite_byte sb₅ (header_flags i)
    write_chunkname sb₆ name

  module _ {S : Type 0} (wfunc : S → List ℕ → S × ℕ) where
    -- `ctx->status = ctx->wfunc(...)`.
    abbrev pub call_writer : BcWriteCtx S → List ℕ → BcWriteCtx S
    call_writer ctx chunk = record ctx {
      wdata = (wfunc ctx.wdata chunk).0;
      status = (wfunc ctx.wdata chunk).1;
    }

    unfoldable pub pass_buffer : BcWriteCtx S → Result (BcWriteCtx S)
    unfolding fill_size
    pass_buffer ctx =
        if ctx.status == 0
        then (do chunk ← fill_size ctx.sb; ok (call_writer ctx chunk))
        else ok ctx

    unfoldable pub write_one : BcWriteCtx S → PtInfo → Kgcs GCtab → Result (BcWriteCtx S)
    unfolding write_pdata pass_buffer
    write_one ctx i ks = do sb ← write_pdata ctx.sb i ks; pass_buffer (record ctx { sb = sb })

    -- The loop over the GC constants goes down from the last one.
    unfoldable mutual
      pub bcwrite_proto : BcWriteCtx S → GCproto GCtab → Result (BcWriteCtx S)
      bcwrite_proto ctx (proto i ks) =
          let children = write_children ctx ks in
          do ctx₁ ← (if bit_and i.flags 1 == 0 then ok ctx else children); write_one ctx₁ i ks

      pub write_child : BcWriteCtx S → Kgc GCtab → Result (BcWriteCtx S)
      write_child ctx (k_child p) = bcwrite_proto ctx p
      write_child ctx (k_str s) = ok ctx
      write_child ctx (k_tab t) = ok ctx
      write_child ctx (k_int64 lo hi) = ok ctx
      write_child ctx (k_uint64 lo hi) = ok ctx
      write_child ctx (k_complex rlo rhi ilo ihi) = ok ctx

      pub write_children : BcWriteCtx S → Kgcs GCtab → Result (BcWriteCtx S)
      write_children ctx k_end = ok ctx
      write_children ctx (k_cons k ks) = do ctx₁ ← write_children ctx ks; write_child ctx₁ k

    unfoldable pub bcwrite_header : BcWriteCtx S → PtInfo → List ℕ → Result (BcWriteCtx S)
    unfolding header_block
    bcwrite_header ctx i name = do
      sb ← header_block ctx.sb i name
      ok (call_writer (record ctx { sb = sb }) sb.bytes)

    unfoldable pub bcwrite_footer : BcWriteCtx S → BcWriteCtx S
    bcwrite_footer ctx = if ctx.status == 0 then call_writer ctx (0 ∷ []) else ctx

    -- `lj_bcwrite` with `cpwriter`: the root prototype, its chunk name, and the state of the writer.
    -- The result is that of the writer function; errors of the allocator are not modelled.
    unfoldable pub lj_bcwrite : GCproto GCtab → List ℕ → S → Result (S × ℕ)
    unfolding bcwrite_header bcwrite_footer
    lj_bcwrite (proto i ks) name data_ = do
      let ctx : BcWriteCtx S = record {
        sb = record { bytes = []; sz = 1024 };
        status = 0;
        wdata = data_;
      }
      ctx₁ ← bcwrite_header ctx i name
      ctx₂ ← bcwrite_proto ctx₁ (proto i ks)
      let ctx₃ = bcwrite_footer ctx₂
      ok (ctx₃.wdata, ctx₃.status)
