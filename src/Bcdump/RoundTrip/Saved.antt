-- ===== src/Bcdump/RoundTrip/Saved.antt =====
-- The ranges of what lj_bcwrite.c (LuaJIT-2.0.1/src) saves of a prototype.
use mathlib.Core.List.{reverse}
use probabilistic_lua.Common.{
  bit_and, ◌&&◌, ◌==◌, ◌<◌, some, if◌then◌else◌, ℕ, ◌<◌, List, [], ◌∷◌, Bool, true, false,
  if◌then◌else◌, length, map, Option, none, some, All, All-reverse, Bool-cases, ◌≡◌, refl, sym, ◌∙◌,
  arith, inl, inr,
}
use probabilistic_lua.Common.Bits.{bit_and_mask}
use probabilistic_lua.Bcdump.Types.{
  word_mod, int, num, Knum, int, num, TValue, pri, number, str, tvisnil, GCtab, Build, NumLaws,
  GCproto, proto, Kgc, k_str, k_child, k_tab, k_int64, k_uint64, k_complex, Kgcs, k_end, k_cons,
  PtInfo, DebugInfo, IsKnum, IsValue, IsPair,
}
use probabilistic_lua.Bcdump.Format.Save.{
  same_d, trace_d, original, saved_bc, trim, as_int, save_num, save_value, used_pairs, save_tab,
  save_info, save_proto, save_kgc, save_kgcs,
}
use probabilistic_lua.Bcdump.Format.Valid.{
  IsWord, IsInfo, IsDebug, IsProto, IsKgc, IsKgcs, IsSaved, IsSavedKgc, IsSavedKgcs,
}
use probabilistic_lua.Bcdump.Write.Bytecode.Original.{length-saved_bc}
use probabilistic_lua.Bcdump.Write.Table.Narrow.{All-trim}

All-map :
    {A B : Type 0} (P : A → Type 0) (Q : B → Type 0) (f : A → B) (xs : List A)
    → ((x : A) → P x → Q (f x))
    → All P xs
    → All Q (map f xs)
All-map P Q f [] h v = tt
All-map P Q f (x ∷ xs) h v = (h x v.0, All-map P Q f xs h v.1)

original-IsWord : (startins : ℕ → ℕ) (ins : ℕ) → IsWord ins → IsWord (original startins ins)
unfolding original same_d trace_d
original-IsWord startins ins h = ground arith

saved_bc-IsWord :
    (startins : ℕ → ℕ) (i : PtInfo) → All IsWord i.bc → All IsWord (saved_bc startins i)
unfolding saved_bc
saved_bc-IsWord startins i h = elim (Bool-cases (bit_and i.flags 0x10 == 0 && i.trace == 0)) [
  | inl e ↦ rw e h
  | inr e ↦ rw e (All-map IsWord IsWord (original startins) i.bc (original-IsWord startins) h)
]

IsDebug_congr :
    (i j : PtInfo) (d : Option DebugInfo)
    → length j.bc ≡ length i.bc
    → j.numline ≡ i.numline
    → IsDebug i d
    → IsDebug j d
IsDebug_congr i j none e₁ e₂ v = tt
IsDebug_congr i j (some d) e₁ e₂ v = (v.0 ∙ sym e₁, rw e₂ v.1)

module _ (b : Build) (laws : NumLaws b.ops) where
  option-IsKnum :
      (o : Option ℕ) (lo hi : ℕ)
      → ((k : ℕ) → o ≡ some k → k < word_mod)
      → IsKnum (num lo hi)
      → IsKnum (elim o [ some k ↦ int k | none ↦ num lo hi ])
  option-IsKnum none lo hi h v = v
  option-IsKnum (some k) lo hi h v = h k refl

  narrowed-IsKnum :
      (dual : Bool) (lo hi : ℕ)
      → IsKnum (num lo hi)
      → IsKnum (if dual then num lo hi else as_int b lo hi)
  unfolding as_int
  narrowed-IsKnum true lo hi v = v
  narrowed-IsKnum false lo hi v =
      option-IsKnum (b.ops.exact lo hi) lo hi (λ k e. (laws.equal lo hi k e).0) v

  save_num-IsKnum : (narrow : Bool) (k : Knum) → IsKnum k → IsKnum (save_num b narrow k)
  unfolding save_num
  save_num-IsKnum narrow (int k) v = v
  save_num-IsKnum false (num lo hi) v = v
  save_num-IsKnum true (num lo hi) v = narrowed-IsKnum b.dualnum lo hi v

  save_value-IsValue : (narrow : Bool) (o : TValue) → IsValue o → IsValue (save_value b narrow o)
  unfolding save_value
  save_value-IsValue narrow (pri p) v = v
  save_value-IsValue narrow (number k) v = save_num-IsKnum narrow k v
  save_value-IsValue narrow (str s) v = v

  used_pairs-IsPair : (ns : List (TValue × TValue)) → All IsPair ns → All IsPair (used_pairs b ns)
  unfolding used_pairs
  used_pairs-IsPair [] v = tt
  used_pairs-IsPair ((k, o) ∷ ns) v =
      let rest = used_pairs-IsPair ns v.1 in
      elim (Bool-cases (tvisnil o)) [
        | inl e ↦ rw e rest
        | inr e ↦ rw e ((save_value-IsValue false k v.0.0, save_value-IsValue true o v.0.1), rest)
      ]

  module _ (startins : ℕ → ℕ) (strip : Bool) where
    debug-saved :
        (strip : Bool) (i : PtInfo)
        → IsInfo i
        → IsDebug (save_info b startins strip i) (if strip then none else i.debug)
    unfolding save_info
    debug-saved true i v = tt
    debug-saved false i v =
        IsDebug_congr i (save_info b startins false i) i.debug (length-saved_bc startins i) refl
          v.debug

    save_info-IsInfo : (i : PtInfo) → IsInfo i → IsInfo (save_info b startins strip i)
    unfolding save_info
    save_info-IsInfo i v = record {
      params = v.params;
      frame = v.frame;
      upvalues = v.upvalues;
      half_words = v.half_words;
      words = saved_bc-IsWord startins i v.words;
      numbers = All-map IsKnum IsKnum (save_num b true) i.kn (save_num-IsKnum true) v.numbers;
      first = v.first;
      lines = v.lines;
      debug = debug-saved strip i v;
    }

    flags-saved : (i : PtInfo) → (save_info b startins strip i).flags < 256
    unfolding save_info
    flags-saved i = omega (arith, bit_and_mask 3 i.flags)

    no_debug : (i : PtInfo) → strip ≡ true → (save_info b startins strip i).debug ≡ none
    unfolding save_info
    no_debug i e = rw e

    mutual
      unfolding save_proto save_tab

      pub save_proto-IsSaved :
          (p : GCproto GCtab) → IsProto p → IsSaved strip (save_proto b startins strip p)
      save_proto-IsSaved (proto i ks) v =
          (save_info-IsInfo i v.0, flags-saved i, no_debug i, save_kgcs-IsSaved ks v.2)

      save_kgc-IsSaved : (k : Kgc GCtab) → IsKgc k → IsSavedKgc strip (save_kgc b startins strip k)
      save_kgc-IsSaved (k_str s) v = tt
      save_kgc-IsSaved (k_child p) v = save_proto-IsSaved p v
      save_kgc-IsSaved (k_tab t) v = (
        All-map IsValue IsValue (save_value b true) (trim t.array) (save_value-IsValue true)
            (All-trim t.array v.0),
        used_pairs-IsPair (reverse t.nodes) (All-reverse IsPair t.nodes v.1),
      )
      save_kgc-IsSaved (k_int64 lo hi) v = v
      save_kgc-IsSaved (k_uint64 lo hi) v = v
      save_kgc-IsSaved (k_complex rlo rhi ilo ihi) v = v

      save_kgcs-IsSaved :
          (ks : Kgcs GCtab) → IsKgcs ks → IsSavedKgcs strip (save_kgcs b startins strip ks)
      save_kgcs-IsSaved k_end v = tt
      save_kgcs-IsSaved (k_cons k ks) v = (save_kgc-IsSaved k v.0, save_kgcs-IsSaved ks v.1)
