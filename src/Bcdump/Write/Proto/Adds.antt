-- ===== src/Bcdump/Write/Proto/Adds.antt =====
-- The data of one prototype against the format.
use probabilistic_lua.Common.{
  ℕ, ◌+◌, ◌*◌, ◌%◌, ◌^◌, ◌≤◌, ◌<◌, bit_and, List, [], ◌∷◌, ◌++◌, Bool, true, false, ◌==◌,
  if◌then◌else◌, length, length-append, length-map, map, replicate, dec_lt, ne→eqb_false,
  length-zero, ◌≡◌, refl, ap, ◌∙◌, arith,
}
use probabilistic_lua.Common.Result.{ok, ◌>>=◌}
use probabilistic_lua.Bcdump.Buffer.{SBuf}
use probabilistic_lua.Bcdump.Buffer.Adds.{
  Adds, Adds-bind, Adds-refl, byte-Adds, block-Adds, need-Adds,
}
use probabilistic_lua.Bcdump.Uleb.{bcwrite_uleb128}
use probabilistic_lua.Bcdump.Uleb.Format.{uleb128, uleb128-Adds, length-uleb}
use probabilistic_lua.Bcdump.Types.{
  GCtab, Build, NumLaws, proto, Kgcs, k_end, k_cons, PtInfo, word_mod,
}
use probabilistic_lua.Bcdump.Format.Values.{
  fmts, fmt_word, fmt_half, fmt_debug, fmt_debughead, fmt_phead, fmt_pdata, fmt_kgcs, fmt_knum,
  count_kgcs, fmts_long, knum_long, kgcs_long, length-fmts, length-word, length-half,
}
use probabilistic_lua.Bcdump.Format.Save.{save_info, saved_bc, save_kgcs, save_proto, save_num}
use probabilistic_lua.Bcdump.Format.Valid.{IsInfo, IsKgcs}
use probabilistic_lua.Bcdump.Write.Words.{Small, Ready}
use probabilistic_lua.Bcdump.Write.Bytecode.Original.{length-saved_bc, bytecode-Adds}
use probabilistic_lua.Bcdump.Write.Consts.Adds.{kgcs-Adds, bcwrite_knum-Adds}
use probabilistic_lua.Bcdump.Write.Proto.{
  debug_block, write_debughead, write_phead, write_debug, write_pdata,
}

module _ (b : Build) (startins : ℕ → ℕ) where
  -- Debug information, stripped or not.
  debug_same :
      (strip : Bool) (i : PtInfo)
      → fmt_debug b.be i.numline (save_info b startins strip i).debug
        ≡ debug_block b startins strip i
  unfolding save_info fmt_debug
  debug_same true i = refl
  debug_same false i = refl

  -- The two numbers behind a debug size that is not zero.
  lines-Adds :
      (room : ℕ) (sb : SBuf) (i : PtInfo) (empty : Bool)
      → IsInfo i
      → length sb.bytes + 10 + room ≤ sb.sz
      → Adds room sb (if empty then [] else uleb128 i.firstline ++ uleb128 i.numline) (
          if empty
          then ok sb
          else bcwrite_uleb128 sb i.firstline >>= λ s. bcwrite_uleb128 s i.numline)
  lines-Adds room sb i true v h = Adds-refl room sb (omega arith)
  lines-Adds room sb i false v h =
      Adds-bind sb (uleb128 i.firstline) (uleb128 i.numline) _
        (uleb128-Adds (5 + room) sb i.firstline v.first (omega (arith, length-uleb 4 i.firstline)))
        (λ s n f g.
          uleb128-Adds room s i.numline (omega (arith, v.lines))
            (omega (arith, length-uleb 4 i.numline)))

  debughead-Adds :
      (strip : Bool) (room : ℕ) (sb : SBuf) (i : PtInfo)
      → IsInfo i
      → length sb.bytes + 15 + room ≤ sb.sz
      → length (debug_block b startins strip i) < word_mod
      → Adds room sb
          (if strip
            then []
            else fmt_debughead (length (debug_block b startins strip i)) i.firstline i.numline)
          (write_debughead b startins strip sb i)
  unfolding write_debughead fmt_debughead
  debughead-Adds true room sb i v h short = Adds-refl room sb (omega arith)
  debughead-Adds false room sb i v h short =
      let sizedbg = length (debug_block b startins false i) in
      Adds-bind sb (uleb128 sizedbg) _ _
        (uleb128-Adds (10 + room) sb sizedbg short (omega (arith, length-uleb 4 sizedbg)))
        (λ s n f g. lines-Adds room s i (sizedbg == 0) v (omega arith))

  phead_parts :
      (strip : Bool) (i : PtInfo) (sizekgc : ℕ)
      → fmt_phead strip b.be (save_info b startins strip i) sizekgc
        ≡ bit_and i.flags 7
          ∷ i.numparams
          ∷ i.framesize
          ∷ length i.uv
          ∷ (uleb128 sizekgc
              ++ (uleb128 (length i.kn)
                  ++ (uleb128 (length i.bc)
                      ++ (if strip
                          then []
                          else fmt_debughead
                              (length (debug_block b startins strip i))
                              i.firstline
                              i.numline))))
  phead_parts strip i sizekgc =
      rw (← debug_same strip i, ← length-map i.kn (save_num b true), ← length-saved_bc startins i)
        (unfold fmt_phead save_info in refl)

  phead-Adds :
      (strip : Bool) (room : ℕ) (sb : SBuf) (i : PtInfo) (sizekgc : ℕ)
      → IsInfo i
      → length sb.bytes + 34 + room ≤ sb.sz
      → length (debug_block b startins strip i) < word_mod
      → sizekgc < word_mod
      → length i.kn < word_mod
      → length i.bc < word_mod
      → Adds room sb
          (fmt_phead strip b.be (save_info b startins strip i) sizekgc)
          (write_phead b startins strip sb i sizekgc)
  unfolding write_phead
  phead-Adds strip room sb i sizekgc v h short kgc kn bc = rw (phead_parts strip i sizekgc) (
      Adds-bind sb (bit_and i.flags 7 ∷ []) _ _ (byte-Adds (33 + room) sb _ (omega arith))
        λ s₁ n₁ f₁ g₁.
          Adds-bind s₁ (i.numparams ∷ []) _ _ (byte-Adds (32 + room) s₁ _ (omega arith))
            λ s₂ n₂ f₂ g₂.
              Adds-bind s₂ (i.framesize ∷ []) _ _ (byte-Adds (31 + room) s₂ _ (omega arith))
                λ s₃ n₃ f₃ g₃.
                  Adds-bind s₃ (length i.uv ∷ []) _ _ (byte-Adds (30 + room) s₃ _ (omega arith))
                    λ s₄ n₄ f₄ g₄.
                      Adds-bind s₄ (uleb128 sizekgc) _ _
                        (uleb128-Adds (25 + room) s₄ sizekgc kgc
                          (omega (arith, length-uleb 4 sizekgc)))
                        λ s₅ n₅ f₅ g₅.
                          Adds-bind s₅ (uleb128 (length i.kn)) _ _
                            (uleb128-Adds (20 + room) s₅ _ kn
                              (omega (arith, length-uleb 4 (length i.kn))))
                            λ s₆ n₆ f₆ g₆.
                              Adds-bind s₆ (uleb128 (length i.bc)) _ _
                                (uleb128-Adds (15 + room) s₆ _ bc
                                  (omega (arith, length-uleb 4 (length i.bc))))
                                λ s₇ n₇ f₇ g₇. debughead-Adds strip room s₇ i v (omega arith) short)

  debug-Adds :
      (strip : Bool) (sb : SBuf) (i : PtInfo)
      → Ready sb
      → Small sb (length (debug_block b startins strip i))
      → Adds 0 sb (debug_block b startins strip i) (write_debug b startins strip sb i)
  unfolding write_debug
  debug-Adds strip sb i ready small =
      let block = debug_block b startins strip i in
      elim (dec_lt 0 (length block)) [
        | yes p ↦ rw (ne→eqb_false (length block) 0 (omega arith)) (
            Adds-bind sb [] block _ (need-Adds sb (length block) ready.0 (omega arith))
              (λ s n f g. block-Adds 0 s block (omega arith)))
        | no p ↦ rw (length-zero block (omega arith)) (Adds-refl 0 sb (omega arith))
      ]

  count-save :
      (strip : Bool) (ks : Kgcs GCtab) → count_kgcs (save_kgcs b startins strip ks) ≡ count_kgcs ks
  unfolding count_kgcs save_kgcs
  count-save strip k_end = refl
  count-save strip (k_cons k ks) = omega (arith, count-save strip ks)

  -- The data of a prototype is added behind the five bytes left for the size.
  module _ (laws : NumLaws b.ops) (strip : Bool) (i : PtInfo) (ks : Kgcs GCtab) where
    abbrev head : List ℕ
    head = fmt_phead strip b.be (save_info b startins strip i) (count_kgcs ks)

    abbrev code : List ℕ
    code = fmts (fmt_word b.be) (saved_bc startins i)

    abbrev upvalues : List ℕ
    upvalues = fmts (fmt_half b.be) i.uv

    abbrev kgc_bytes : List ℕ
    kgc_bytes = fmt_kgcs (save_kgcs b startins strip ks)

    abbrev knum_bytes : List ℕ
    knum_bytes = fmts fmt_knum (map (save_num b true) i.kn)

    abbrev debug_bytes : List ℕ
    debug_bytes = debug_block b startins strip i

    pdata_parts :
        fmt_pdata strip b.be (save_proto b startins strip (proto i ks))
        ≡ head ++ (code ++ (upvalues ++ (kgc_bytes ++ (knum_bytes ++ debug_bytes))))
    pdata_parts =
        rw (← debug_same strip i, ← count-save strip ks)
          (unfold fmt_pdata save_proto save_info in refl)

    pdata_length :
        length (fmt_pdata strip b.be (save_proto b startins strip (proto i ks)))
        ≡ length head
          + (length code
              + (length upvalues + (length kgc_bytes + (length knum_bytes + length debug_bytes))))
    pdata_length =
        ap length pdata_parts
        ∙ omega (
          arith,
          length-append head (code ++ (upvalues ++ (kgc_bytes ++ (knum_bytes ++ debug_bytes)))),
          length-append code (upvalues ++ (kgc_bytes ++ (knum_bytes ++ debug_bytes))),
          length-append upvalues (kgc_bytes ++ (knum_bytes ++ debug_bytes)),
          length-append kgc_bytes (knum_bytes ++ debug_bytes),
          length-append knum_bytes debug_bytes,
        )

    -- With a buffer of at least 5 bytes and a prototype in range whose dump is small enough, the
    -- part of bcwrite_proto before the call of the writer function ends normally without a store
    -- past the buffer, and adds the bytes of the format for what is saved of the prototype, with
    -- the instructions as they were before the trace compiler patched them, behind the five bytes
    -- for the size.
    pub pdata-Adds :
        (sb : SBuf)
        → IsInfo i
        → IsKgcs ks
        → 5 ≤ sb.sz
        → 11 * length (fmt_pdata strip b.be (save_proto b startins strip (proto i ks))) + 128
          ≤ 2 ^ 31
        → Adds 0
            (record sb { bytes = replicate 5 0 })
            (fmt_pdata strip b.be (save_proto b startins strip (proto i ks)))
            (write_pdata b startins strip sb i ks)
    unfolding write_pdata
    pdata-Adds sb v vk pos small =
        let total = pdata_length in
        let nk = kgcs_long (save_kgcs b startins strip ks) in
        let same_nk = count-save strip ks in
        let nn = fmts_long fmt_knum (map (save_num b true) i.kn) knum_long in
        let same_nn = length-map i.kn (save_num b true) in
        let same_bc = length-saved_bc startins i in
        let bc = length-fmts (fmt_word b.be) 4 (saved_bc startins i) (length-word b.be) in
        let uv = length-fmts (fmt_half b.be) 2 i.uv (length-half b.be) in
        let n = 4 + 6 * 5 + length i.bc * 4 + length i.uv * 2 in
        let exact : n % 2 ^ 32 ≡ n = omega arith in
        let start : SBuf = record sb { bytes = replicate 5 0 } in
        rw (pdata_parts, exact)
          (Adds-bind start [] _ _ (need-Adds start n (omega arith) (omega arith)) λ s₁ n₁ f₁ g₁.
            Adds-bind s₁ head _ _
              (phead-Adds strip (length i.bc * 4 + length i.uv * 2) s₁ i (count_kgcs ks) v
                (omega arith) (omega arith) (omega arith) (omega arith) (omega arith))
              λ s₂ n₂ f₂ g₂.
                Adds-bind s₂ code _ _
                  (bytecode-Adds b.be startins (length i.uv * 2) s₂ i v.words (omega arith))
                  λ s₃ n₃ f₃ g₃.
                    Adds-bind s₃ upvalues _ _ (block-Adds 0 s₃ upvalues (omega arith))
                      λ s₄ n₄ f₄ g₄.
                        Adds-bind s₄ kgc_bytes _ _
                          (kgcs-Adds b laws startins strip s₄ ks vk (omega arith) (omega arith))
                          λ s₅ n₅ f₅ g₅.
                            Adds-bind s₅ knum_bytes debug_bytes _
                              (bcwrite_knum-Adds b laws s₅ i.kn v.numbers (omega arith)
                                (omega arith))
                              λ s₆ n₆ f₆ g₆. debug-Adds strip s₆ i (omega arith) (omega arith))
