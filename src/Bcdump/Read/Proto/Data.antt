-- ===== src/Bcdump/Read/Proto/Data.antt =====
-- The reader on the bytes of one prototype.
use probabilistic_lua.Common.{
  ℕ, ◌+◌, ◌*◌, ◌^◌, ◌≤◌, ◌<◌, bit_and, List, [], ◌∷◌, ◌++◌, Bool, true, false, not, ◌==◌,
  if◌then◌else◌, length, length-append, length-zero, Option, none, some, Bool-cases, eqb→eq, ◌≡◌,
  refl, ◌∙◌, arith, inl, inr, append_assoc,
}
use probabilistic_lua.Bcdump.Uleb.{bcread_byte, bcread_uleb128}
use probabilistic_lua.Bcdump.Uleb.Format.{uleb128}
use probabilistic_lua.Bcdump.Types.{
  Build, GCproto, proto, Kgcs, TabCalls, PtInfo, DebugInfo, IsKnum, word_mod,
}
use probabilistic_lua.Bcdump.Format.Values.{
  Ktab, fmts, fmt_word, fmt_half, fmt_line, fmt_debug, fmt_debughead, sizedbg_of, fmt_phead,
  fmt_pdata, fmt_kgcs, fmt_knum, count_kgcs, fmts_long, knum_long, kgcs_long, length-fmts,
  length-word, length-half,
}
use probabilistic_lua.Bcdump.Format.Load.{
  function_header, load_num, no_debug, load_info, load_proto,
}
use probabilistic_lua.Bcdump.Format.Valid.{IsInfo, IsDebug, IsSaved}
use probabilistic_lua.Bcdump.Read.Values.RoundTrip.{
  Reads, then_read, uleb-Reads, times-Reads, knum-Reads, kids, kgcs-Reads,
}
use probabilistic_lua.Bcdump.Read.Values.Words.{differs, bytecode-Reads, uv-Reads, dbg-Reads}
use probabilistic_lua.Bcdump.Read.Values.{read_knum, bcread_swap}
use probabilistic_lua.Bcdump.Read.Proto.{read_debughead, read_debug, header_ins, read_pdata}

length-line :
    (be : Bool) (numline l : ℕ) → length (fmt_line be numline l) ≡ length (fmt_line false numline l)
unfolding fmt_line
length-line be numline l =
    ground (arith, length-word be l, length-half be l, length-word false l, length-half false l)

length-lines :
    (be : Bool) (numline : ℕ) (ls : List ℕ)
    → length (fmts (fmt_line be numline) ls) ≡ length (fmts (fmt_line false numline) ls)
unfolding fmts
length-lines be numline [] = refl
length-lines be numline (l ∷ ls) = omega (
  arith,
  length-lines be numline ls,
  length-line be numline l,
  length-append (fmt_line be numline l) (fmts (fmt_line be numline) ls),
  length-append (fmt_line false numline l) (fmts (fmt_line false numline) ls),
)

-- The size of the debug information does not depend on the byte order.
length-debug :
    (be : Bool) (numline : ℕ) (d : Option DebugInfo)
    → length (fmt_debug be numline d) ≡ length (fmt_debug false numline d)
unfolding fmt_debug
length-debug be numline none = refl
length-debug be numline (some d) = omega (
  arith,
  length-lines be numline d.lineinfo,
  length-append (fmts (fmt_line be numline) d.lineinfo) d.names,
  length-append (fmts (fmt_line false numline) d.lineinfo) d.names,
)

numbers-Reads :
    (s f l : ℕ) (empty : Bool)
    → s < word_mod
    → f < word_mod
    → l < word_mod
    → (s == 0) ≡ empty
    → Reads
        (read_debughead false)
        (uleb128 s ++ (if empty then [] else uleb128 f ++ uleb128 l))
        (s, (if empty then 0 else f), (if empty then 0 else l))
unfolding read_debughead
numbers-Reads s f l true hs hf hl e rest =
    then_read bcread_uleb128 _ (uleb128 s) [] rest s _ (uleb-Reads s hs) (rw (eqb→eq s 0 e))
numbers-Reads s f l false hs hf hl e rest =
    then_read bcread_uleb128 _ (uleb128 s) (uleb128 f ++ uleb128 l) rest s _ (uleb-Reads s hs) (
      rw e (
        then_read bcread_uleb128 _ (uleb128 f) (uleb128 l) rest f _ (uleb-Reads f hf)
          (rw (uleb-Reads l hl rest))))

debughead-Reads :
    (strip : Bool) (s f l : ℕ)
    → s < word_mod
    → f < word_mod
    → l < word_mod
    → (strip ≡ true → s ≡ 0)
    → Reads
        (read_debughead strip)
        (if strip then [] else fmt_debughead s f l)
        (s, (if s == 0 then 0 else f), (if s == 0 then 0 else l))
debughead-Reads true s f l hs hf hl stripped rest =
    rw (stripped refl) (unfold read_debughead in refl)
debughead-Reads false s f l hs hf hl stripped rest =
    unfold fmt_debughead in numbers-Reads s f l (s == 0) hs hf hl refl rest

header-function :
    (flags framesize : ℕ) → header_ins flags framesize ≡ function_header flags framesize
unfolding function_header
header-function flags framesize = elim (Bool-cases (bit_and flags 2 == 0)) [
  | inl e ↦ rw e
  | inr e ↦ rw e
]

module _ (dump be : Bool) where
  debug_block-Reads :
      (i : PtInfo) (d : Option DebugInfo)
      → IsInfo i
      → IsDebug i d
      → length (fmt_debug dump i.numline d) < 2 ^ 31
      → (length (fmt_debug dump i.numline d) == 0) ≡ false
      → Reads
          (read_debug be
            (differs dump be)
            i.numline
            (length i.bc)
            (length (fmt_debug dump i.numline d)))
          (fmt_debug dump i.numline d)
          d
  unfolding read_debug fmt_debug
  debug_block-Reads i none v vd short e rest = cc
  debug_block-Reads i (some d) v vd short e rest =
      rw (e, ← vd.0, dbg-Reads dump be i.numline v.lines d vd.1 short rest)

  debug-Reads :
      (i : PtInfo)
      → IsInfo i
      → length (fmt_debug dump i.numline i.debug) < 2 ^ 31
      → Reads
          (read_debug be
            (differs dump be)
            (if no_debug i then 0 else i.numline)
            (length i.bc)
            (length (fmt_debug dump i.numline i.debug)))
          (fmt_debug dump i.numline i.debug)
          (if no_debug i then none else i.debug)
  debug-Reads i v short rest =
      let same = length-debug dump i.numline i.debug in
      elim (Bool-cases (length (fmt_debug dump i.numline i.debug) == 0)) [
        | inl e ↦
            let empty = length-zero _ (eqb→eq _ 0 e) in
            rw (← same, empty) (unfold read_debug in refl)
        | inr e ↦ rw (← same, e) (debug_block-Reads i i.debug v v.debug short e rest)
      ]

-- The fields of a prototype, one after the other.
flat :
    (strip dump : Bool) (i : PtInfo) (ks : Kgcs Ktab) (rest : List ℕ)
    → fmt_pdata strip dump (proto i ks) ++ rest
      ≡ i.flags
        ∷ i.numparams
        ∷ i.framesize
        ∷ length i.uv
        ∷ (uleb128 (count_kgcs ks)
            ++ (uleb128 (length i.kn)
                ++ (uleb128 (length i.bc)
                    ++ ((if strip
                          then []
                          else fmt_debughead (sizedbg_of dump i) i.firstline i.numline)
                        ++ (fmts (fmt_word dump) i.bc
                            ++ (fmts (fmt_half dump) i.uv
                                ++ (fmt_kgcs ks
                                    ++ (fmts fmt_knum i.kn
                                        ++ (fmt_debug dump i.numline i.debug ++ rest)))))))))
unfolding fmt_pdata fmt_phead
flat strip dump i ks rest = simp append_assoc

pdata_lengths :
    (strip dump : Bool) (i : PtInfo) (ks : Kgcs Ktab)
    → length (fmt_kgcs ks)
        + length (fmts fmt_knum i.kn)
        + length (fmts (fmt_word dump) i.bc)
        + length (fmt_debug dump i.numline i.debug)
      ≤ length (fmt_pdata strip dump (proto i ks))
unfolding fmt_pdata
pdata_lengths strip dump i ks =
    let head = fmt_phead strip dump i (count_kgcs ks) in
    let code = fmts (fmt_word dump) i.bc in
    let uvs = fmts (fmt_half dump) i.uv in
    let nums = fmts fmt_knum i.kn in
    let dbg = fmt_debug dump i.numline i.debug in
    omega (
      arith,
      length-append head (code ++ (uvs ++ (fmt_kgcs ks ++ (nums ++ dbg)))),
      length-append code (uvs ++ (fmt_kgcs ks ++ (nums ++ dbg))),
      length-append uvs (fmt_kgcs ks ++ (nums ++ dbg)),
      length-append (fmt_kgcs ks) (nums ++ dbg),
      length-append nums dbg,
    )

-- A dump that is stripped has no debug information.
no_size :
    (strip : Bool) (i : PtInfo)
    → (strip ≡ true → i.debug ≡ none)
    → strip ≡ true
    → sizedbg_of false i ≡ 0
unfolding fmt_debug
no_size strip i h e = rw (h e)

module _ (b : Build) (strip dump : Bool) (flags : ℕ) (strips : not (bit_and flags 2 == 0) ≡ strip)
    (order : bcread_swap b.be flags ≡ differs dump b.be) where
  pub pdata-Reads :
      (i : PtInfo) (ks : Kgcs Ktab) (stack : List (GCproto TabCalls))
      → IsSaved strip (proto i ks)
      → 11 * length (fmt_pdata strip dump (proto i ks)) + 128 ≤ 2 ^ 31
      → Reads
          (read_pdata b flags (kids b ks stack))
          (fmt_pdata strip dump (proto i ks))
          (load_proto b (proto i ks), stack)
  unfolding read_pdata bcread_byte load_proto load_info read_debug
  pdata-Reads i ks stack v small rest =
      let info = v.0 in
      let s = sizedbg_of dump i in
      let lens = pdata_lengths strip dump i ks in
      let code_len = length-fmts (fmt_word dump) 4 i.bc (length-word dump) in
      let kgc_len = kgcs_long ks in
      let kn_len = fmts_long fmt_knum i.kn knum_long in
      let same = length-debug dump i.numline i.debug in
      let head =
        debughead-Reads strip s i.firstline i.numline (omega arith) info.first
          (omega (arith, info.lines)) (λ e. same ∙ no_size strip i v.2 e) in
      let nums =
        times-Reads fmt_knum (load_num b) (read_knum b) IsKnum i.kn (knum-Reads b) info.numbers in
      let dbg = debug-Reads dump b.be i info (omega arith) rest in
      rw (
        flat strip dump i ks rest,
        uleb-Reads (count_kgcs ks) (omega arith),
        uleb-Reads (length i.kn) (omega arith),
        uleb-Reads (length i.bc) (omega arith),
        strips,
        head,
        order,
        bytecode-Reads dump b.be i.bc info.words (omega arith),
        uv-Reads dump b.be i.uv info.half_words,
        kgcs-Reads b strip ks stack v.3 (omega arith),
        nums,
        same,
        header-function i.flags i.framesize,
        rw same at dbg,
      )
