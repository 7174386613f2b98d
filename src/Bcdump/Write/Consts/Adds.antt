-- ===== src/Bcdump/Write/Consts/Adds.antt =====
-- The writer's constants against the format.
use probabilistic_lua.Common.{
  ℕ, ◌+◌, ◌-◌, ◌*◌, ◌%◌, ◌^◌, ◌≤◌, ◌<◌, List, [], ◌∷◌, ◌++◌, Bool, true, length, length-append,
  length-map, map, All, Option-cases, ◌≡◌, ap, arith, inl, inr,
}
use probabilistic_lua.Common.Result.{Result, ◌>>=◌}
use probabilistic_lua.Bcdump.Buffer.{SBuf, bcwrite_need}
use probabilistic_lua.Bcdump.Buffer.Adds.{Adds, Adds-bind, Adds-refl, need-Adds}
use probabilistic_lua.Bcdump.Uleb.{bcwrite_uleb128}
use probabilistic_lua.Bcdump.Uleb.Format.{uleb128, uleb_last, uleb128-Adds, length-uleb}
use probabilistic_lua.Bcdump.Uleb.Wide.{wide-Adds}
use probabilistic_lua.Bcdump.Types.{
  Knum, int, num, GCtab, Build, NumLaws, IsKnum, Kgc, k_str, k_child, k_tab, k_int64, k_uint64,
  k_complex, Kgcs, k_end, k_cons,
}
use probabilistic_lua.Bcdump.Format.Values.{fmts, fmt_kgc, fmt_kgcs, fmt_knum, fmts_long, knum_long}
use probabilistic_lua.Bcdump.Format.Save.{save_num, save_kgc, save_kgcs}
use probabilistic_lua.Bcdump.Format.Valid.{IsKgc, IsKgcs}
use probabilistic_lua.Bcdump.Write.Words.{Small, Ready, words-Adds, string-Adds}
use probabilistic_lua.Bcdump.Write.Table.{narrowed}
use probabilistic_lua.Bcdump.Write.Table.Adds.{ktab-Adds}
use probabilistic_lua.Bcdump.Write.Table.Narrow.{narrowed-lt, save_num-narrowed}
use probabilistic_lua.Bcdump.Write.Consts.{
  write_kgc, bcwrite_kgc, write_knum, write_knums, bcwrite_knum,
}

-- A type code below 128 and what follows it, behind a reservation.
typed-Adds :
    (sb : SBuf) (need tp : ℕ) (enc : List ℕ) (rest : SBuf → Result SBuf)
    → Ready sb
    → tp < 128
    → 1 ≤ need
    → need ≤ 21
    → Small sb (length (uleb128 tp ++ enc))
    → ((s : SBuf)
        → length s.bytes + (need - 1) ≤ s.sz
        → Small s (length enc)
        → Adds 0 s enc (rest s))
    → Adds 0 sb (uleb128 tp ++ enc) (bcwrite_need sb need >>= λ s₁. bcwrite_uleb128 s₁ tp >>= rest)
typed-Adds sb need tp enc rest ready ht hn hm small then_rest =
    let one = ap length (uleb_last 4 tp ht) in
    let len = length-append (uleb128 tp) enc in
    Adds-bind sb [] _ _ (need-Adds sb need ready.0 (omega arith)) λ s₁ n₁ f₁ g₁.
      Adds-bind s₁ (uleb128 tp) enc rest (uleb128-Adds (need - 1) s₁ tp (omega arith) (omega arith))
        λ s₂ n₂ f₂ g₂. then_rest s₂ f₂ (omega arith)

module _ (b : Build) (laws : NumLaws b.ops) where
  module _ (startins : ℕ → ℕ) (strip : Bool) where
    kgc-Adds :
        (sb : SBuf) (k : Kgc GCtab)
        → IsKgc k
        → Ready sb
        → Small sb (length (fmt_kgc (save_kgc b startins strip k)))
        → Adds 0 sb (fmt_kgc (save_kgc b startins strip k)) (write_kgc b sb k)
    unfolding write_kgc fmt_kgc save_kgc
    kgc-Adds sb (k_str s) v ready small = string-Adds sb s ready small
    kgc-Adds sb (k_child p) v ready small =
        Adds-bind sb [] (uleb128 0) _ (need-Adds sb 1 ready.0 (omega arith)) (λ s n f g.
          uleb128-Adds 0 s 0 (omega arith) (omega (arith, ap length (uleb_last 4 0 (omega arith)))))
    kgc-Adds sb (k_tab t) v ready small =
        typed-Adds sb 11 1 _ _ ready (omega arith) (omega arith) (omega arith) small
          (λ s f m. ktab-Adds b laws s t v f m)
    kgc-Adds sb (k_int64 lo hi) v ready small =
        typed-Adds sb 21 2 _ _ ready (omega arith) (omega arith) (omega arith) small
          (λ s f m. words-Adds 0 s lo hi v.0 v.1 (omega arith))
    kgc-Adds sb (k_uint64 lo hi) v ready small =
        typed-Adds sb 21 3 _ _ ready (omega arith) (omega arith) (omega arith) small
          (λ s f m. words-Adds 0 s lo hi v.0 v.1 (omega arith))
    kgc-Adds sb (k_complex rlo rhi ilo ihi) v ready small =
        typed-Adds sb 21 4 _ _ ready (omega arith) (omega arith) (omega arith) small (λ s f m.
          Adds-bind s (uleb128 rlo ++ uleb128 rhi) (uleb128 ilo ++ uleb128 ihi) _
            (words-Adds 10 s rlo rhi v.0 v.1 (omega arith))
            (λ s₁ n₁ f₁ g₁. words-Adds 0 s₁ ilo ihi v.2 v.3 (omega arith)))

    -- For GC constants in range, a buffer that holds its bytes, and a dump small enough for sizes
    -- not to wrap, bcwrite_kgc ends normally without a store past the buffer and adds the format of
    -- each constant in order.
    pub kgcs-Adds :
        (sb : SBuf) (ks : Kgcs GCtab)
        → IsKgcs ks
        → Ready sb
        → Small sb (length (fmt_kgcs (save_kgcs b startins strip ks)))
        → Adds 0 sb (fmt_kgcs (save_kgcs b startins strip ks)) (bcwrite_kgc b sb ks)
    unfolding bcwrite_kgc fmt_kgcs save_kgcs
    kgcs-Adds sb k_end v ready small = Adds-refl 0 sb (omega arith)
    kgcs-Adds sb (k_cons k ks) v ready small =
        let head = fmt_kgc (save_kgc b startins strip k) in
        let rest = fmt_kgcs (save_kgcs b startins strip ks) in
        let len = length-append head rest in
        Adds-bind sb head rest _ (kgc-Adds sb k v.0 ready (omega arith))
          (λ s n f g. kgcs-Adds s ks v.1 (omega arith) (omega arith))

  knum-Adds :
      (room : ℕ) (sb : SBuf) (o : Knum)
      → IsKnum o
      → length sb.bytes + 10 + room ≤ sb.sz
      → Adds room sb (fmt_knum (save_num b true o)) (write_knum b sb o)
  unfolding write_knum fmt_knum
  knum-Adds room sb (int k) v h =
      unfold save_num in
      wide-Adds room sb k 0 v (omega arith) (omega (arith, length-uleb 4 (2 * k + 0)))
  knum-Adds room sb (num lo hi) v h = elim (Option-cases (narrowed b true lo hi)) [
    | inl e ↦
        rw (save_num-narrowed b laws true lo hi, e, write_knum)
          (Adds-bind sb _ (uleb128 hi) _
            (wide-Adds (5 + room) sb lo 1 v.0 (omega arith)
              (omega (arith, length-uleb 4 (2 * lo + 1))))
            (λ s n f g. uleb128-Adds room s hi v.1 (omega (arith, length-uleb 4 hi))))
    | inr (k, e) ↦
        rw (save_num-narrowed b laws true lo hi, e, write_knum)
          (wide-Adds room sb k 0 (narrowed-lt b laws true lo hi k e) (omega arith)
            (omega (arith, length-uleb 4 (2 * k + 0))))
  ]

  knums-Adds :
      (sb : SBuf) (os : List Knum)
      → All IsKnum os
      → length sb.bytes + 10 * length os ≤ sb.sz
      → Adds 0 sb (fmts fmt_knum (map (save_num b true) os)) (write_knums b sb os)
  unfolding write_knums fmts
  knums-Adds sb [] v h = Adds-refl 0 sb (omega arith)
  knums-Adds sb (o ∷ os) v h =
      Adds-bind sb (fmt_knum (save_num b true o)) _ _
        (knum-Adds (10 * length os) sb o v.0 (omega arith)) (λ s n f g. knums-Adds s os v.1 f)

  -- For number constants in range, a buffer that holds its bytes, and a dump small enough for sizes
  -- not to wrap, bcwrite_knum ends normally without a store past the buffer and adds the format of
  -- each number; on a build without tagged integers, a double that is equal to an int32 is saved as
  -- that int32.
  pub bcwrite_knum-Adds :
      (sb : SBuf) (os : List Knum)
      → All IsKnum os
      → Ready sb
      → Small sb (length (fmts fmt_knum (map (save_num b true) os)))
      → Adds 0 sb (fmts fmt_knum (map (save_num b true) os)) (bcwrite_knum b sb os)
  unfolding bcwrite_knum
  bcwrite_knum-Adds sb os v ready small =
      let long = fmts_long fmt_knum (map (save_num b true) os) knum_long in
      let same = length-map os (save_num b true) in
      let exact : (10 * length os) % 2 ^ 32 ≡ 10 * length os = omega arith in
      rw exact (
        Adds-bind sb [] _ _ (need-Adds sb (10 * length os) ready.0 (omega arith))
          (λ s n f g. knums-Adds s os v (omega arith)))
