-- ===== src/Bcdump/Write/Proto/Feed.antt =====
-- The calls of the writer function by bcwrite_header, bcwrite_proto, bcwrite_footer and lj_bcwrite of
-- LuaJIT-2.0.1/src/lj_bcwrite.c.
use probabilistic_lua.Common.{
  ℕ, ◌+◌, ◌*◌, ◌%◌, ◌^◌, ◌≤◌, ◌<◌, bit_and, List, [], ◌∷◌, ◌++◌, Bool, true, false, ◌==◌,
  if◌then◌else◌, length, replicate, ne→eqb_false, Bool-cases, ◌≡◌, refl, sym, ap, ◌∙◌, arith, inl,
  inr,
}
use probabilistic_lua.Common.Result.{Result, ok, ◌>>=◌}
use probabilistic_lua.Bcdump.Buffer.{SBuf}
use probabilistic_lua.Bcdump.Buffer.Adds.{
  Adds, Adds-bind, Adds-refl, byte-Adds, block-Adds, need-Adds,
}
use probabilistic_lua.Bcdump.Uleb.Format.{uleb128, uleb128-Adds, length-uleb}
use probabilistic_lua.Bcdump.Types.{
  GCtab, Build, NumLaws, GCproto, proto, Kgc, k_str, k_child, k_tab, k_int64, k_uint64, k_complex,
  Kgcs, k_end, k_cons, PtInfo, word_mod,
}
use probabilistic_lua.Bcdump.Format.Values.{Ktab, fmt_pdata, fmt_proto, fmt_phead}
use probabilistic_lua.Bcdump.Format.Save.{save_info, save_kgc, save_kgcs, save_proto}
use probabilistic_lua.Bcdump.Format.Valid.{
  IsProto, IsKgc, IsKgcs, IsSmall, IsSmallKgc, IsSmallKgcs, has_child,
}
use probabilistic_lua.Bcdump.Write.Proto.Adds.{pdata-Adds}
use probabilistic_lua.Bcdump.Write.Proto.{
  BcWriteCtx, pass_buffer, write_one, bcwrite_proto, write_child, write_children, header_flags,
  write_chunkname, header_block, bcwrite_header, bcwrite_footer, lj_bcwrite,
}
use probabilistic_lua.Bcdump.Format.Pieces.{pieces, pieces_kgc, pieces_kgcs, feed, feed-append}
use probabilistic_lua.Bcdump.Write.Proto.Fill.{fill-fmt}

-- The flags of the dump: 1 for big-endian, 2 for stripped, 4 for a prototype that uses the FFI.
abbrev pub dump_flags : Build → Bool → PtInfo → ℕ
dump_flags b strip i =
    (if b.be then 1 else 0) + (if strip then 2 else 0) + (if bit_and i.flags 4 == 0 then 0 else 4)

module _ (b : Build) (laws : NumLaws b.ops) (startins : ℕ → ℕ) (strip : Bool) {S : Type 0}
    (wfunc : S → List ℕ → S × ℕ) where
  -- The run ends normally, the buffer does not shrink, and the writer function has got `cs`.
  pub record Passes (ctx : BcWriteCtx S) (cs : List (List ℕ)) (r : Result (BcWriteCtx S))
      : Type 0 where
    pub after : BcWriteCtx S
    pub run : r ≡ ok after
    pub fed : (after.wdata, after.status) ≡ feed wfunc (ctx.wdata, ctx.status) cs
    pub grows : ctx.sb.sz ≤ after.sb.sz

  Passes-bind :
      (ctx : BcWriteCtx S) (cs ds : List (List ℕ)) {r : Result (BcWriteCtx S)}
      (f : BcWriteCtx S → Result (BcWriteCtx S))
      → Passes ctx cs r
      → ((c : BcWriteCtx S) → ctx.sb.sz ≤ c.sb.sz → Passes c ds (f c))
      → Passes ctx (cs ++ ds) (r >>= f)
  Passes-bind ctx cs ds f a k =
      let n = k a.after a.grows in
      record {
        after = n.after;
        run = rw a.run n.run;
        fed = n.fed ∙ rw (a.fed, feed-append wfunc (ctx.wdata, ctx.status) cs ds);
        grows = omega arith;
      }

  Passes-refl : (ctx : BcWriteCtx S) → Passes ctx [] (ok ctx)
  unfolding feed
  Passes-refl ctx = record { after = ctx; run = refl; fed = refl; grows = omega arith }

  pass-Passes :
      (ctx : BcWriteCtx S) (pd : List ℕ)
      → ctx.sb.bytes ≡ replicate 5 0 ++ pd
      → 5 ≤ ctx.sb.sz
      → 0 < length pd
      → length pd < 2 ^ 31
      → Passes ctx ((uleb128 (length pd) ++ pd) ∷ []) (pass_buffer b startins strip wfunc ctx)
  unfolding pass_buffer feed
  pass-Passes ctx pd e h pos small =
      let filled = fill-fmt b startins strip ctx.sb pd e h pos small in
      elim (Bool-cases (ctx.status == 0)) [
        | inl z ↦ rw (z, filled) (record { after = _; run = refl; fed = rw z; grows = omega arith })
        | inr z ↦ rw z (record { after = _; run = refl; fed = rw z; grows = omega arith })
      ]

  pdata_pos : (i : PtInfo) (ks : Kgcs Ktab) → 0 < length (fmt_pdata strip b.be (proto i ks))
  unfolding fmt_pdata fmt_phead
  pdata_pos i ks = omega arith

  one-Passes :
      (ctx : BcWriteCtx S) (i : PtInfo) (ks : Kgcs GCtab)
      → IsProto (proto i ks)
      → 5 ≤ ctx.sb.sz
      → IsSmall strip b.be (save_proto b startins strip (proto i ks))
      → Passes ctx
          (fmt_proto strip b.be (save_proto b startins strip (proto i ks)) ∷ [])
          (write_one b startins strip wfunc ctx i ks)
  unfolding write_one save_proto fmt_proto
  one-Passes ctx i ks v h small =
      let pd = fmt_pdata strip b.be (save_proto b startins strip (proto i ks)) in
      let a = pdata-Adds b startins laws strip i ks ctx.sb v.0 v.2 h small.0 in
      let pos = pdata_pos (save_info b startins strip i) (save_kgcs b startins strip ks) in
      let p =
        pass-Passes (record ctx { sb = a.after }) pd a.added (omega arith) pos (omega arith) in
      record { after = p.after; run = rw a.run p.run; fed = p.fed; grows = omega arith }

  no_children :
      (ks : Kgcs GCtab)
      → has_child ks ≡ false
      → pieces_kgcs strip b.be (save_kgcs b startins strip ks) ≡ []
  unfolding pieces_kgcs save_kgcs
  no_children k_end h = refl
  no_children (k_cons (k_child p) ks) h = cc
  no_children (k_cons (k_str x) ks) h = rw (no_children ks h)
  no_children (k_cons (k_tab t) ks) h = rw (no_children ks h)
  no_children (k_cons (k_int64 lo hi) ks) h = rw (no_children ks h)
  no_children (k_cons (k_uint64 lo hi) ks) h = rw (no_children ks h)
  no_children (k_cons (k_complex rlo rhi ilo ihi) ks) h = rw (no_children ks h)

  -- Children are written if they are announced, and they are announced if there are any.
  children :
      (ctx : BcWriteCtx S) (i : PtInfo) (ks : Kgcs GCtab)
      → (has_child ks ≡ true → bit_and i.flags 1 ≡ 1)
      → Passes ctx
          (pieces_kgcs strip b.be (save_kgcs b startins strip ks))
          (write_children b startins strip wfunc ctx ks)
      → Passes ctx
          (pieces_kgcs strip b.be (save_kgcs b startins strip ks))
          (if bit_and i.flags 1 == 0 then ok ctx else write_children b startins strip wfunc ctx ks)
  children ctx i ks announced p = elim (Bool-cases (has_child ks)) [
    | inl e ↦
        let flag : bit_and i.flags 1 ≡ 1 = announced e in
        rw (ne→eqb_false (bit_and i.flags 1) 0 (omega arith)) p
    | inr e ↦ elim (Bool-cases (bit_and i.flags 1 == 0)) [
      | inl z ↦ rw (z, no_children ks e) (Passes-refl ctx)
      | inr z ↦ rw z p
    ]
  ]

  mutual
    unfolding bcwrite_proto pieces save_proto

    proto-Passes :
        (ctx : BcWriteCtx S) (p : GCproto GCtab)
        → IsProto p
        → 5 ≤ ctx.sb.sz
        → IsSmall strip b.be (save_proto b startins strip p)
        → Passes ctx
            (pieces strip b.be (save_proto b startins strip p))
            (bcwrite_proto b startins strip wfunc ctx p)
    proto-Passes ctx (proto i ks) v h small =
        Passes-bind ctx (pieces_kgcs strip b.be (save_kgcs b startins strip ks)) _ _
          (children ctx i ks v.1 (children-Passes ctx ks v.2 h small.1))
          (λ c g. one-Passes c i ks v (omega arith) small)

    child-Passes :
        (ctx : BcWriteCtx S) (k : Kgc GCtab)
        → IsKgc k
        → 5 ≤ ctx.sb.sz
        → IsSmallKgc strip b.be (save_kgc b startins strip k)
        → Passes ctx
            (pieces_kgc strip b.be (save_kgc b startins strip k))
            (write_child b startins strip wfunc ctx k)
    child-Passes ctx (k_child p) v h small = proto-Passes ctx p v h small
    child-Passes ctx (k_str s) v h small = Passes-refl ctx
    child-Passes ctx (k_tab t) v h small = Passes-refl ctx
    child-Passes ctx (k_int64 lo hi) v h small = Passes-refl ctx
    child-Passes ctx (k_uint64 lo hi) v h small = Passes-refl ctx
    child-Passes ctx (k_complex rlo rhi ilo ihi) v h small = Passes-refl ctx

    children-Passes :
        (ctx : BcWriteCtx S) (ks : Kgcs GCtab)
        → IsKgcs ks
        → 5 ≤ ctx.sb.sz
        → IsSmallKgcs strip b.be (save_kgcs b startins strip ks)
        → Passes ctx
            (pieces_kgcs strip b.be (save_kgcs b startins strip ks))
            (write_children b startins strip wfunc ctx ks)
    children-Passes ctx k_end v h small = Passes-refl ctx
    children-Passes ctx (k_cons k ks) v h small =
        Passes-bind ctx (pieces_kgcs strip b.be (save_kgcs b startins strip ks)) _ _
          (children-Passes ctx ks v.1 h small.1) (λ c g. child-Passes c k v.0 (omega arith) small.0)

  flags_swapped : (i : PtInfo) → header_flags b startins strip i ≡ dump_flags b strip i
  flags_swapped i = omega arith

  -- The bytes of the header.
  abbrev pub fmt_header : PtInfo → List ℕ → List ℕ
  fmt_header i name =
      0x1b
      ∷ 0x4c
      ∷ 0x4a
      ∷ 1
      ∷ dump_flags b strip i
      ∷ (if strip then [] else uleb128 (length name) ++ name)

  chunkname-Adds :
      (strip : Bool) (sb : SBuf) (name : List ℕ)
      → length name < word_mod
      → length sb.bytes + 5 + length name ≤ sb.sz
      → Adds 0 sb
          (if strip then [] else uleb128 (length name) ++ name)
          (write_chunkname b startins strip sb name)
  unfolding write_chunkname
  chunkname-Adds true sb name hn h = Adds-refl 0 sb (omega arith)
  chunkname-Adds false sb name hn h =
      Adds-bind sb (uleb128 (length name)) name _
        (uleb128-Adds (length name) sb (length name) hn
          (omega (arith, length-uleb 4 (length name))))
        (λ s n f g. block-Adds 0 s name (omega arith))

  header-Adds :
      (sb : SBuf) (i : PtInfo) (name : List ℕ)
      → 5 ≤ sb.sz
      → 11 * length name + 128 ≤ 2 ^ 31
      → Adds 0
          (record sb { bytes = [] })
          (fmt_header i name)
          (header_block b startins strip sb i name)
  unfolding header_block
  header-Adds sb i name h small =
      let n = length name in
      let exact : (5 + 5 + n) % 2 ^ 32 ≡ 5 + 5 + n = omega arith in
      rw (exact, flags_swapped i)
        (Adds-bind (record sb { bytes = [] }) [] _ _
          (need-Adds _ (5 + 5 + n) (omega arith) (omega arith))
          λ s₁ n₁ f₁ g₁.
            Adds-bind s₁ (0x1b ∷ []) _ _ (byte-Adds (9 + n) s₁ _ (omega arith)) λ s₂ n₂ f₂ g₂.
              Adds-bind s₂ (0x4c ∷ []) _ _ (byte-Adds (8 + n) s₂ _ (omega arith)) λ s₃ n₃ f₃ g₃.
                Adds-bind s₃ (0x4a ∷ []) _ _ (byte-Adds (7 + n) s₃ _ (omega arith)) λ s₄ n₄ f₄ g₄.
                  Adds-bind s₄ (1 ∷ []) _ _ (byte-Adds (6 + n) s₄ _ (omega arith)) λ s₅ n₅ f₅ g₅.
                    Adds-bind s₅ (dump_flags b strip i ∷ []) _ _
                      (byte-Adds (5 + n) s₅ _ (omega arith))
                      λ s₆ n₆ f₆ g₆. chunkname-Adds strip s₆ name (omega arith) (omega arith))

  header-Passes :
      (ctx : BcWriteCtx S) (i : PtInfo) (name : List ℕ)
      → 5 ≤ ctx.sb.sz
      → ctx.status ≡ 0
      → 11 * length name + 128 ≤ 2 ^ 31
      → Passes ctx (fmt_header i name ∷ []) (bcwrite_header b startins strip wfunc ctx i name)
  unfolding bcwrite_header feed
  header-Passes ctx i name h z small =
      let a = header-Adds ctx.sb i name h small in
      rw (a.run, ← a.added) (record { after = _; run = refl; fed = rw z; grows = a.grows })

  footer-feed :
      (ctx : BcWriteCtx S)
      → (
        (bcwrite_footer b startins strip wfunc ctx).wdata,
        (bcwrite_footer b startins strip wfunc ctx).status,
      )
        ≡ feed wfunc (ctx.wdata, ctx.status) ((0 ∷ []) ∷ [])
  unfolding bcwrite_footer feed
  footer-feed ctx = elim (Bool-cases (ctx.status == 0)) [ inl z ↦ rw z | inr z ↦ rw z ]

  -- The whole dump, block by block.
  unfoldable pub dump : PtInfo → Kgcs GCtab → List ℕ → List (List ℕ)
  dump i ks name =
      fmt_header i name
      ∷ (pieces strip b.be (save_proto b startins strip (proto i ks)) ++ ((0 ∷ []) ∷ []))

  -- For a prototype whose fields are in the range of their C types, whose children are announced by
  -- PROTO_CHILD, and whose dump and chunk name are small enough for 32-bit sizes not to wrap,
  -- lj_bcwrite ends normally (so no store past the buffer and no endless loop), and the writer
  -- function is called with the header, the prototypes in the format of lj_bcdump.h, children
  -- before their parent, and the final zero byte, in this order, up to its first error.
  pub lj_bcwrite-dump :
      (i : PtInfo) (ks : Kgcs GCtab) (name : List ℕ) (wdata : S)
      → IsProto (proto i ks)
      → IsSmall strip b.be (save_proto b startins strip (proto i ks))
      → 11 * length name + 128 ≤ 2 ^ 31
      → lj_bcwrite b startins strip wfunc (proto i ks) name wdata
        ≡ ok (feed wfunc (wdata, 0) (dump i ks name))
  unfolding lj_bcwrite dump
  lj_bcwrite-dump i ks name wdata v small short =
      let ctx : BcWriteCtx S = record {
        sb = record { bytes = []; sz = 1024 };
        status = 0;
        wdata = wdata;
      } in
      let blocks = pieces strip b.be (save_proto b startins strip (proto i ks)) in
      let head = header-Passes ctx i name (omega arith) refl short in
      let body = proto-Passes head.after (proto i ks) v (omega (arith, head.grows)) small in
      let written : (body.after.wdata, body.after.status)
          ≡ feed wfunc (wdata, 0) (fmt_header i name ∷ blocks) =
        body.fed
        ∙ ap (λ (st : S × ℕ). feed wfunc st blocks) head.fed
        ∙ sym (feed-append wfunc (wdata, 0) (fmt_header i name ∷ []) blocks) in
      let whole =
        footer-feed body.after
        ∙ ap (λ (st : S × ℕ). feed wfunc st ((0 ∷ []) ∷ [])) written
        ∙ sym (feed-append wfunc (wdata, 0) (fmt_header i name ∷ blocks) ((0 ∷ []) ∷ [])) in
      rw (head.run, body.run) (ap ok whole)
