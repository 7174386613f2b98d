-- ===== src/Bcdump/Write/Table/Adds.antt =====
-- bcwrite_ktabk and bcwrite_ktab of LuaJIT-2.0.1/src/lj_bcwrite.c against the format.
use mathlib.Core.List.{reverse, reverse-append}
use probabilistic_lua.Common.{
  ℕ, suc, ◌+◌, ◌-◌, ◌*◌, ◌%◌, ◌^◌, ◌≤◌, ◌<◌, List, [], ◌∷◌, ◌++◌, Bool, true, false, ◌==◌,
  if◌then◌else◌, length, length-append, length-map, All-reverse, map, All, Option-cases, Bool-cases,
  dec_lt, ne→eqb_false, ◌≡◌, refl, ap, ◌∙◌, arith, inl, inr, append_assoc,
}
use probabilistic_lua.Common.Result.{Result, ok, ◌>>=◌}
use probabilistic_lua.Bcdump.Buffer.{SBuf}
use probabilistic_lua.Bcdump.Buffer.Adds.{Adds, Adds-bind, Adds-refl, byte-Adds, need-Adds}
use probabilistic_lua.Bcdump.Uleb.Format.{uleb128, uleb_last, uleb128-Adds, length-uleb}
use probabilistic_lua.Bcdump.Types.{
  int, num, TValue, pri, number, str, tvisnil, GCtab, Build, NumLaws, IsValue, IsTab, IsPair,
  word_mod,
}
use probabilistic_lua.Bcdump.Format.Values.{
  fmts, fmt_ktabk, fmt_ktab, fmt_pair, fmts_long, ktabk_long, pair_long,
}
use probabilistic_lua.Bcdump.Format.Save.{save_num, trim, save_value, used_pairs, save_tab}
use probabilistic_lua.Bcdump.Write.Words.{Small, Ready, words-Adds, string-Adds}
use probabilistic_lua.Bcdump.Write.Table.Narrow.{
  narrowed-lt, save_num-narrowed, take-narray, length-trim, All-trim,
}
use probabilistic_lua.Bcdump.Write.Table.{
  ktabk_int, ktabk_num, narrowed, ktabk_value, bcwrite_ktabk, write_array, write_nodes, narray_of,
  nhash_of, bcwrite_ktab,
}

module _ (b : Build) (laws : NumLaws b.ops) where
  int-Adds :
      (sb : SBuf) (k : ℕ)
      → k < word_mod
      → length sb.bytes + 11 ≤ sb.sz
      → Adds 0 sb (uleb128 3 ++ uleb128 k) (ktabk_int b sb k)
  unfolding ktabk_int
  int-Adds sb k hk h = rw (uleb_last 4 3 (omega arith)) (
      Adds-bind sb (3 ∷ []) (uleb128 k) _ (byte-Adds 5 sb 3 (omega arith))
        (λ s n f g. uleb128-Adds 0 s k hk (omega (arith, length-uleb 4 k))))

  num-Adds :
      (sb : SBuf) (lo hi : ℕ)
      → lo < word_mod
      → hi < word_mod
      → length sb.bytes + 11 ≤ sb.sz
      → Adds 0 sb (uleb128 4 ++ (uleb128 lo ++ uleb128 hi)) (ktabk_num b sb lo hi)
  unfolding ktabk_num
  num-Adds sb lo hi hl hh h = rw (uleb_last 4 4 (omega arith)) (
      Adds-bind sb (4 ∷ []) _ _ (byte-Adds 10 sb 4 (omega arith))
        (λ s n f g. words-Adds 0 s lo hi hl hh (omega arith)))

  value-Adds :
      (s : SBuf) (o : TValue) (narrow : Bool)
      → IsValue o
      → length s.bytes + 11 ≤ s.sz
      → Small s (length (fmt_ktabk (save_value b narrow o)))
      → Adds 0 s (fmt_ktabk (save_value b narrow o)) (ktabk_value b s o narrow)
  unfolding ktabk_value save_value fmt_ktabk
  value-Adds s (pri p) narrow v f small =
      let e : (0 + p) % 2 ^ 8 ≡ p = omega arith in
      rw (uleb_last 4 p (omega arith), e) (byte-Adds 0 s p (omega arith))
  value-Adds s (number (int k)) narrow v f small = unfold save_num in int-Adds s k v f
  value-Adds s (number (num lo hi)) narrow v f small =
      let saved = save_num-narrowed b laws narrow lo hi in
      elim (Option-cases (narrowed b narrow lo hi)) [
        | inl e ↦ rw (saved, e, ktabk_value) (num-Adds s lo hi v.0 v.1 f)
        | inr (k, e) ↦
            rw (saved, e, ktabk_value) (int-Adds s k (narrowed-lt b laws narrow lo hi k e) f)
      ]
  value-Adds s (str x) narrow v f small = string-Adds s x (omega arith) small

  pub ktabk-Adds :
      (sb : SBuf) (o : TValue) (narrow : Bool)
      → IsValue o
      → Ready sb
      → Small sb (length (fmt_ktabk (save_value b narrow o)))
      → Adds 0 sb (fmt_ktabk (save_value b narrow o)) (bcwrite_ktabk b sb o narrow)
  unfolding bcwrite_ktabk
  ktabk-Adds sb o narrow v pos small =
      Adds-bind sb [] _ _ (need-Adds sb 11 pos.0 (omega arith))
        (λ s n f g. value-Adds s o narrow v f (omega arith))

  pub array-Adds :
      (sb : SBuf) (os : List TValue)
      → All IsValue os
      → Ready sb
      → Small sb (length (fmts fmt_ktabk (map (save_value b true) os)))
      → Adds 0 sb (fmts fmt_ktabk (map (save_value b true) os)) (write_array b sb os)
  unfolding write_array fmts
  array-Adds sb [] v pos small = Adds-refl 0 sb (omega arith)
  array-Adds sb (o ∷ os) v pos small =
      let head = fmt_ktabk (save_value b true o) in
      let rest = fmts fmt_ktabk (map (save_value b true) os) in
      let len = length-append head rest in
      Adds-bind sb head rest _ (ktabk-Adds sb o true v.0 pos (omega arith))
        (λ s n f g. array-Adds s os v.1 (omega arith) (omega arith))

  no_used_pairs : (ns : List (TValue × TValue)) → nhash_of b ns ≡ 0 → used_pairs b ns ≡ []
  unfolding nhash_of used_pairs
  no_used_pairs [] h = refl
  no_used_pairs ((k, o) ∷ ns) h = ground (arith, no_used_pairs ns)

  -- The node loop behind a used node, with `m` used nodes left.
  after_node : SBuf → List (TValue × TValue) → ℕ → Result SBuf
  after_node s ns m = if m == 0 then ok s else write_nodes b s ns m

  nodes_used :
      (sb : SBuf) (k o : TValue) (ns : List (TValue × TValue)) (m : ℕ)
      → tvisnil o ≡ false
      → write_nodes b sb ((k, o) ∷ ns) (suc m)
        ≡ bcwrite_ktabk b sb k false >>= λ s₁.
            bcwrite_ktabk b s₁ o true >>= λ s₂. after_node s₂ ns m
  unfolding write_nodes after_node
  nodes_used sb k o ns m e = let less : suc m - 1 ≡ m = omega arith in rw (e, less)

  -- A used node is a key and a value, and then comes what `rest` adds.
  node-Adds :
      (sb : SBuf) (k o : TValue) (enc : List ℕ) (rest : SBuf → Result SBuf)
      → IsPair (k, o)
      → Ready sb
      → Small sb (length (fmt_pair (save_value b false k, save_value b true o) ++ enc))
      → ((s : SBuf) → Ready s → Small s (length enc) → Adds 0 s enc (rest s))
      → Adds 0 sb
          (fmt_pair (save_value b false k, save_value b true o) ++ enc)
          (bcwrite_ktabk b sb k false >>= λ s₁. bcwrite_ktabk b s₁ o true >>= rest)
  node-Adds sb k o enc rest v pos small then_rest =
      let fk = fmt_ktabk (save_value b false k) in
      let fo = fmt_ktabk (save_value b true o) in
      let len₁ = length-append (fk ++ fo) enc in
      let len₂ = length-append fk fo in
      rw (append_assoc fk fo enc) (
        Adds-bind sb fk (fo ++ enc) _ (ktabk-Adds sb k false v.0 pos (omega arith)) λ s₁ n₁ f₁ g₁.
          Adds-bind s₁ fo enc _ (ktabk-Adds s₁ o true v.1 (omega arith) (omega arith))
            λ s₂ n₂ f₂ g₂. then_rest s₂ (omega arith) (omega arith))

  module _ (k o : TValue) (ns : List (TValue × TValue)) where
    skip_used : tvisnil o ≡ true → used_pairs b ((k, o) ∷ ns) ≡ used_pairs b ns
    unfolding used_pairs
    skip_used e = rw e

    skip_nhash : tvisnil o ≡ true → nhash_of b ((k, o) ∷ ns) ≡ nhash_of b ns
    unfolding nhash_of
    skip_nhash e = rw e

    used_used :
        tvisnil o ≡ false
        → used_pairs b ((k, o) ∷ ns) ≡ (save_value b false k, save_value b true o) ∷ used_pairs b ns
    unfolding used_pairs
    used_used e = rw e

    used_nhash : tvisnil o ≡ false → nhash_of b ((k, o) ∷ ns) ≡ suc (nhash_of b ns)
    unfolding nhash_of
    used_nhash e = rw e

  skip_node :
      (sb : SBuf) (k o : TValue) (ns : List (TValue × TValue)) (m : ℕ)
      → tvisnil o ≡ true
      → write_nodes b sb ((k, o) ∷ ns) m ≡ write_nodes b sb ns m
  unfolding write_nodes
  skip_node sb k o ns m e = rw e

  after_node-Adds :
      (s : SBuf) (ns : List (TValue × TValue))
      → All IsPair ns
      → Ready s
      → Small s (length (fmts fmt_pair (used_pairs b ns)))
      → (1 ≤ nhash_of b ns
          → Adds 0 s (fmts fmt_pair (used_pairs b ns)) (write_nodes b s ns (nhash_of b ns)))
      → Adds 0 s (fmts fmt_pair (used_pairs b ns)) (after_node s ns (nhash_of b ns))
  unfolding after_node
  after_node-Adds s ns v pos small ih = elim (dec_lt 0 (nhash_of b ns)) [
    | yes p ↦ rw (ne→eqb_false (nhash_of b ns) 0 (omega arith)) (ih p)
    | no p ↦
        let none_left : nhash_of b ns ≡ 0 = omega arith in
        rw (none_left, no_used_pairs ns none_left) (unfold fmts in Adds-refl 0 s (omega arith))
  ]

  nodes-Adds :
      (sb : SBuf) (ns : List (TValue × TValue))
      → All IsPair ns
      → 1 ≤ nhash_of b ns
      → Ready sb
      → Small sb (length (fmts fmt_pair (used_pairs b ns)))
      → Adds 0 sb (fmts fmt_pair (used_pairs b ns)) (write_nodes b sb ns (nhash_of b ns))
  nodes-Adds sb [] v left pos small = absurd (unfold nhash_of in omega arith)
  nodes-Adds sb ((k, o) ∷ ns) v left pos small = elim (Bool-cases (tvisnil o)) [
    | inl e ↦
        let skip = skip_node sb k o ns (nhash_of b ns) e in
        rw (skip_used k o ns e, skip_nhash k o ns e, skip)
          (nodes-Adds sb ns v.1 (omega (arith, skip_nhash k o ns e)) pos
            (omega (arith, ap (λ ps. length (fmts fmt_pair ps)) (skip_used k o ns e))))
    | inr e ↦
        let saved : TValue × TValue = (save_value b false k, save_value b true o) in
        let enc = fmts fmt_pair (used_pairs b ns) in
        let same : fmts fmt_pair (used_pairs b ((k, o) ∷ ns)) ≡ fmt_pair saved ++ enc =
          rw (used_used k o ns e) (unfold fmts in refl) in
        rw (same, used_nhash k o ns e, nodes_used sb k o ns (nhash_of b ns) e)
          (node-Adds sb k o enc (λ s. after_node s ns (nhash_of b ns)) v.0 pos
            (omega (arith, ap length same))
            (λ s r small'.
              after_node-Adds s ns v.1 r small' (λ left'. nodes-Adds s ns v.1 left' r small')))
  ]

  length-vals : (os : List TValue) → length (map (save_value b true) (trim os)) ≡ narray_of b os
  length-vals os = length-map _ _ ∙ length-trim b os

  nhash-append :
      (ms ns : List (TValue × TValue)) → nhash_of b (ms ++ ns) ≡ nhash_of b ms + nhash_of b ns
  unfolding nhash_of
  nhash-append [] ns = omega arith
  nhash-append ((k, o) ∷ ms) ns = ground (arith, nhash-append ms ns)

  nhash-reverse : (ns : List (TValue × TValue)) → nhash_of b (reverse ns) ≡ nhash_of b ns
  nhash-reverse [] = refl
  nhash-reverse (n ∷ ns) =
      ap (nhash_of b) (reverse-append (n ∷ []) ns)
      ∙ nhash-append (reverse ns) (n ∷ [])
      ∙ omega (arith, nhash-reverse ns, nhash-append (n ∷ []) ns)

  length-used_pairs : (ns : List (TValue × TValue)) → length (used_pairs b ns) ≡ nhash_of b ns
  unfolding used_pairs nhash_of
  length-used_pairs [] = refl
  length-used_pairs ((k, o) ∷ ns) = ground (arith, length-used_pairs ns)

  node_part :
      (s : SBuf) (ns : List (TValue × TValue))
      → All IsPair ns
      → Ready s
      → Small s (length (fmts fmt_pair (used_pairs b ns)))
      → Adds 0 s
          (fmts fmt_pair (used_pairs b ns))
          (if nhash_of b ns == 0 then ok s else write_nodes b s ns (nhash_of b ns))
  unfolding after_node
  node_part s ns v r small = after_node-Adds s ns v r small (λ left. nodes-Adds s ns v left r small)

  -- For a table with values in range, ten free bytes in the buffer and a dump small enough for
  -- sizes not to wrap, bcwrite_ktab ends normally without a store past the buffer and without
  -- leaving the node vector, and adds the format of the array part up to its last non-nil value and
  -- of the used nodes, last one first, with each number value saved, on a build without tagged
  -- integers, as the int32 that it is equal to, if there is one.
  pub ktab-Adds :
      (sb : SBuf) (t : GCtab)
      → IsTab t
      → length sb.bytes + 10 ≤ sb.sz
      → Small sb (length (fmt_ktab (save_tab b t)))
      → Adds 0 sb (fmt_ktab (save_tab b t)) (bcwrite_ktab b sb t)
  unfolding bcwrite_ktab fmt_ktab save_tab
  ktab-Adds sb t v pos small =
      let os = trim t.array in
      let ns = reverse t.nodes in
      let vals = fmts fmt_ktabk (map (save_value b true) os) in
      let pairs = fmts fmt_pair (used_pairs b ns) in
      let narray = length-vals t.array in
      let nhash = length-used_pairs ns in
      let long₁ = fmts_long fmt_ktabk (map (save_value b true) os) ktabk_long in
      let long₂ = fmts_long fmt_pair (used_pairs b ns) pair_long in
      let u₁ = uleb128 (narray_of b t.array) in
      let u₂ = uleb128 (nhash_of b ns) in
      let bound₁ = length-uleb 4 (narray_of b t.array) in
      let bound₂ = length-uleb 4 (nhash_of b ns) in
      let size : 11 * (length u₁ + (length u₂ + (length vals + length pairs)))
            + length sb.bytes
            + 64
          ≤ 2 ^ 31 =
        omega (
          arith,
          ap (λ n. length (uleb128 n ++ (uleb128 (length (used_pairs b ns)) ++ (vals ++ pairs))))
              narray,
          ap (λ n. length (u₁ ++ (uleb128 n ++ (vals ++ pairs)))) nhash,
          length-append u₁ (u₂ ++ (vals ++ pairs)),
          length-append u₂ (vals ++ pairs),
          length-append vals pairs,
        ) in
      rw (narray, nhash, ← nhash-reverse t.nodes, take-narray b t.array)
        (Adds-bind sb u₁ _ _ (uleb128-Adds 5 sb _ (omega arith) (omega arith)) λ s₁ n₁ f₁ g₁.
          Adds-bind s₁ u₂ _ _ (uleb128-Adds 0 s₁ _ (omega arith) (omega arith)) λ s₂ n₂ f₂ g₂.
            Adds-bind s₂ vals pairs _
              (array-Adds s₂ os (All-trim t.array v.0) (omega arith) (omega arith))
              λ s₃ n₃ f₃ g₃.
                node_part s₃ ns (All-reverse IsPair t.nodes v.1) (omega arith) (omega arith))
