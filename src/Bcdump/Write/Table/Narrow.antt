-- ===== src/Bcdump/Write/Table/Narrow.antt =====
-- Narrowing of numbers and the length of the array part in LuaJIT-2.0.1/src/lj_bcwrite.c, against what
-- is to be saved.
use probabilistic_lua.Common.{
  ℕ, ◌<◌, List, [], ◌∷◌, All, Bool, true, false, not, ◌&&◌, if◌then◌else◌, length, take, some, none,
  Option, ne→eqb_false, Bool-cases, Option-cases, ◌≡◌, refl, sym, ap, ◌∙◌, arith, inl, inr,
}
use probabilistic_lua.Bcdump.Types.{
  Knum, int, num, TValue, tvisnil, Build, NumLaws, IsValue, word_mod,
}
use probabilistic_lua.Bcdump.Format.Save.{keep, trim, as_int, save_num}
use probabilistic_lua.Bcdump.Write.Table.{narrowed, narray_of}

-- The number that is written when `o` is the result of the narrowing.
abbrev pub written_num : Option ℕ → ℕ → ℕ → Knum
written_num o lo hi = elim o [ some k ↦ int k | none ↦ num lo hi ]

module _ (b : Build) (laws : NumLaws b.ops) where
  pub narrowed-lt : (narrow : Bool) (lo hi k : ℕ) → narrowed b narrow lo hi ≡ some k → k < word_mod
  unfolding narrowed
  narrowed-lt narrow lo hi k e = ground (arith, laws.int_range lo hi)

  -- The test `num == (lua_Number)k` finds the int32 that the double is equal to.
  exact_test :
      (lo hi : ℕ)
      → b.ops.exact lo hi ≡ (
          let k = b.ops.num2int lo hi in
          if b.ops.num_eq (lo, hi) (b.ops.int2num k) then some k else none)
  exact_test lo hi = elim (Option-cases (b.ops.exact lo hi)) [
    | inl e ↦ e ∙ rw (laws.unequal lo hi (b.ops.num2int lo hi) e (laws.int_range lo hi))
    | inr (k, e) ↦
        let (range, equal) = laws.equal lo hi k e in
        let same = laws.truncates lo hi k range equal in e ∙ rw (same, equal)
  ]

  narrow_test :
      (dual : Bool) (lo hi : ℕ)
      → (if dual then num lo hi else as_int b lo hi)
        ≡ written_num
            (let k = b.ops.num2int lo hi in
              if not dual && true
              then (if b.ops.num_eq (lo, hi) (b.ops.int2num k) then some k else none)
              else none)
            lo
            hi
  unfolding as_int
  narrow_test true lo hi = refl
  narrow_test false lo hi = ap (λ o. written_num o lo hi) (exact_test lo hi)

  never : (dual : Bool) → (not dual && false) ≡ false
  never true = refl
  never false = refl

  pub save_num-narrowed :
      (narrow : Bool) (lo hi : ℕ)
      → save_num b narrow (num lo hi) ≡ written_num (narrowed b narrow lo hi) lo hi
  unfolding save_num narrowed
  save_num-narrowed false lo hi = rw (never b.dualnum)
  save_num-narrowed true lo hi = narrow_test b.dualnum lo hi

module _ (b : Build) where
  keep-narray :
      (o : TValue) (os rest : List TValue)
      → trim os ≡ rest
      → length rest ≡ narray_of b os
      → length (keep o rest) ≡ narray_of b (o ∷ os)
  unfolding narray_of keep
  keep-narray o os [] e h = elim (Bool-cases (tvisnil o)) [
    | inl z ↦ rw (← h, z)
    | inr z ↦ rw (← h, z)
  ]
  keep-narray o os (v ∷ vs) e h = rw (← h, ne→eqb_false (length (v ∷ vs)) 0 (omega arith))

  pub length-trim : (os : List TValue) → length (trim os) ≡ narray_of b os
  unfolding trim
  length-trim [] = unfold narray_of in refl
  length-trim (o ∷ os) = keep-narray o os (trim os) refl (length-trim os)

  take-keep :
      (o : TValue) (os rest : List TValue)
      → take (length rest) os ≡ rest
      → take (length (keep o rest)) (o ∷ os) ≡ keep o rest
  unfolding keep
  take-keep o os [] h = elim (Bool-cases (tvisnil o)) [ inl z ↦ rw z | inr z ↦ rw z ]
  take-keep o os (v ∷ vs) h = ap (λ t. o ∷ t) h

  take-length-trim : (os : List TValue) → take (length (trim os)) os ≡ trim os
  unfolding trim
  take-length-trim [] = refl
  take-length-trim (o ∷ os) = take-keep o os (trim os) (take-length-trim os)

  pub take-narray : (os : List TValue) → take (narray_of b os) os ≡ trim os
  take-narray os = ap (λ n. take n os) (sym (length-trim os)) ∙ take-length-trim os

All-keep :
    (o : TValue) (rest : List TValue) → IsValue o → All IsValue rest → All IsValue (keep o rest)
unfolding keep
All-keep o [] v vs = elim (Bool-cases (tvisnil o)) [ inl z ↦ rw z tt | inr z ↦ rw z (v, tt) ]
All-keep o (x ∷ rest) v vs = (v, vs)

pub All-trim : (os : List TValue) → All IsValue os → All IsValue (trim os)
unfolding trim
All-trim [] v = tt
All-trim (o ∷ os) v = All-keep o (trim os) v.0 (All-trim os v.1)
