-- ===== src/Tab/Len/Correct.antt =====
-- The result of lj_tab_len.
use probabilistic_lua.Common.{
  ℕ, suc, ◌+◌, ◌-◌, ◌≤◌, ◌<◌, ◌^◌, Bool, true, false, not, ◌&&◌, ltb, ltb→lt, lt→ltb, le→ltb,
  Bool-cases, eq-cases, ne→eqb_false, ◌==◌, length, Option, none, some, Option-cases, ◌≡◌, refl,
  sym, ap, ◌∙◌, inl, inr, ◌⊎◌, arith, if◌then◌else◌,
}
use probabilistic_lua.Common.Result.{Result, ok, err, ◌>>=◌}
use probabilistic_lua.Tab.Types.{KeyOps, Tab, is_none}
use probabilistic_lua.Tab.Find.{get_or}
use probabilistic_lua.Tab.Find.Invariant.{IsHash, key_at}
use probabilistic_lua.Tab.Find.Keys.{KeyLaws}
use probabilistic_lua.Tab.Find.Correct.{HoldsIn, index_place}
use probabilistic_lua.Tab.Len.{binary_search, is_present, unbound_search, lj_tab_len}
use probabilistic_lua.Tab.Len.Search.{binary_search_lem, double_search_lem}
use probabilistic_lua.Tab.Len.Absent.{present-cases, present_below, absent-index}

tell : Result Bool → Bool
tell (ok b) = b
tell (err e) = false

module _ {V : Type 0} (ops : KeyOps) where
  -- The table has a value for the integer.
  abbrev pub HasIndex : Tab V → ℕ → Type 0
  HasIndex t i = (v : V) × HoldsIn ops t (index_place ops t i) v

  -- A boundary: the table has `n`, unless it is 0, and has not the integer after it.
  abbrev pub IsBorder : Tab V → ℕ → Type 0
  IsBorder t n = ((n ≡ 0) ⊎ HasIndex t n) × (HasIndex t (suc n) → ⊥)

  -- The sizes that the allocation of the parts allows (LJ_MAX_ASIZE, LJ_MAX_HBITS).
  abbrev pub IsSized : Tab V → Type 0
  IsSized t = (length t.array ≤ 2 ^ 27 + 1) × (t.hmask < 2 ^ 26)

and_false : (b : Bool) → (b && false) ≡ false
and_false true = refl
and_false false = refl

module _ {V : Type 0} (ops : KeyOps) (t : Tab V) (laws : KeyLaws ops) (wf : IsHash ops t)
    (sized : IsSized ops t) where
  p : ℕ → Bool
  p i = tell (is_present ops t i)

  total : (i : ℕ) → i < 2 ^ 31 → is_present ops t i ≡ ok (p i)
  unfolding p tell
  total i h =
      let (b, r) = present_below ops t laws wf i (omega arith) in r ∙ ap ok (sym (ap tell r))

  p_true : (i : ℕ) → i < 2 ^ 31 → p i ≡ true → HasIndex ops t i
  unfolding p tell
  p_true i h e = elim (present-cases ops t laws wf i (omega arith)) [
    | inl (v, r, held) ↦ (v, held)
    | inr (r, _) ↦ let no : p i ≡ false = ap tell r in cc (no, e)
  ]

  p_false : (i : ℕ) → i < 2 ^ 31 → p i ≡ false → HasIndex ops t i → ⊥
  unfolding p tell
  p_false i h e (v, held) = elim (present-cases ops t laws wf i (omega arith)) [
    | inl (w, r, _) ↦ let yes_p : p i ≡ true = ap tell r in cc (yes_p, e)
    | inr (_, missing) ↦ missing v held
  ]

  index→p : (i : ℕ) → i < 2 ^ 31 → HasIndex ops t i → p i ≡ true
  index→p i h has = elim (Bool-cases (p i)) [ inl e ↦ e | inr e ↦ absurd (p_false i h e has) ]

  in_array : (i : ℕ) (v : V) → i < length t.array → get_or t.array i ≡ some v → HasIndex ops t i
  in_array i v h e = rw (lt→ltb i (length t.array) h) (v, e)

  not_in_array : (i : ℕ) → i < length t.array → get_or t.array i ≡ none → HasIndex ops t i → ⊥
  not_in_array i h e (v, held) =
      let held₁ = rw (lt→ltb i (length t.array) h) at held in cc (held₁, e)

  -- An empty hash part has no integer.
  not_in_hash : (i : ℕ) → t.hmask ≡ 0 → length t.array ≤ i → HasIndex ops t i → ⊥
  not_in_hash i z h (v, held) =
      let (n, hn, en, ev) = rw (le→ltb i (length t.array) h) at held in
      let first : n ≡ 0 = omega arith in cc (ap (key_at t) first, en, (wf.nil_node z).1)

  value_cases :
      (i : ℕ)
      → (not (is_none (get_or t.array i)) ≡ true → (v : V) × (get_or t.array i ≡ some v))
        × (not (is_none (get_or t.array i)) ≡ false → get_or t.array i ≡ none)
  value_cases i = go (get_or t.array i)
    where
      go :
          (o : Option V)
          → (not (is_none o) ≡ true → (v : V) × (o ≡ some v)) × (not (is_none o) ≡ false → o ≡ none)
      go none = (λ e. cc (e), λ e. refl)
      go (some v) = (λ e. (v, refl), λ e. cc (e))

  len_search :
      1 < length t.array
      → get_or t.array (length t.array - 1) ≡ none
      → lj_tab_len ops t ≡ (
          binary_search
            (length t.array)
            (λ m. ok (not (is_none (get_or t.array (m - 1)))))
            1
            (length t.array)
          >>= λ i. ok (i - 1))
  unfolding lj_tab_len
  len_search wide last = rw (lt→ltb 1 (length t.array) wide, last) refl

  len_rest :
      (length t.array ≤ 1) ⊎ ((v : V) × (get_or t.array (length t.array - 1) ≡ some v))
      → lj_tab_len ops t ≡ (
          if t.hmask == 0
          then ok (length t.array - 1)
          else unbound_search ops t (length t.array - 1))
  unfolding lj_tab_len
  len_rest (inl short) = rw (le→ltb 1 (length t.array) short) refl
  len_rest (inr (v, e)) = rw (e, and_false (ltb 1 (length t.array))) refl

  -- The last cell is empty: the search runs in the array part.
  array-IsBorder :
      1 < length t.array
      → get_or t.array (length t.array - 1) ≡ none
      → (n : ℕ) × (lj_tab_len ops t ≡ ok n) × IsBorder ops t n
  array-IsBorder wide last =
      let l = length t.array in
      let (r, run, (le, at, next), less) =
        binary_search_lem (λ m. ok (not (is_none (get_or t.array (m - 1)))))
          (λ m. not (is_none (get_or t.array (m - 1)))) (2 ^ 31) (λ i h. refl) l 1 l (omega arith)
          wide (omega arith) (omega arith) (rw last refl) in
      let (some_value, no_value) = value_cases (r - 1) in
      let back : suc (r - 1) ≡ r = omega arith in
      let here : suc r - 1 ≡ r = omega arith in
      let next₁ = ap (λ i. not (is_none (get_or t.array i))) (sym here) ∙ next in
      (
        r - 1,
        len_search wide last ∙ ap (λ q. q >>= λ i. ok (i - 1)) run,
        (
          elim at [
            | inl s ↦ inl (omega arith)
            | inr e ↦ let (v, ev) = some_value e in inr (in_array (r - 1) v (omega arith) ev)
          ],
          λ h. not_in_array r less ((value_cases r).1 next₁) (rw back at h),
        ),
      )

  unbound-IsBorder :
      (j : ℕ)
      → j < 2 ^ 28
      → ((j ≡ 0) ⊎ HasIndex ops t j)
      → (n : ℕ) × (unbound_search ops t j ≡ ok n) × IsBorder ops t n
  unfolding unbound_search p tell
  unbound-IsBorder j small side =
      let (k, le, lt, absent) =
        absent-index ops t laws wf (suc (length t.array)) (omega arith) (omega arith) in
      let (r, run, at, next, bound) =
        double_search_lem (is_present ops t) p (2 ^ 31) total 32 (length t.array + t.hmask + 3) j
          (suc j) k refl (omega arith) (omega arith)
          (elim side [ inl z ↦ inl z | inr h ↦ inr (index→p j (omega arith) h) ]) (omega arith)
          (omega arith) (omega arith) (omega arith) (ap tell absent) in
      (
        r,
        run,
        (
          elim at [ inl z ↦ inl z | inr pr ↦ inr (p_true r (omega arith) pr) ],
          p_false (suc r) bound next,
        ),
      )

  last_index :
      (length t.array ≤ 1) ⊎ ((v : V) × (get_or t.array (length t.array - 1) ≡ some v))
      → ((length t.array - 1 ≡ 0) ⊎ HasIndex ops t (length t.array - 1))
  last_index (inl short) = inl (omega arith)
  last_index (inr (v, e)) = elim (eq-cases (length t.array) 0) [
    | inl zero_length ↦ inl (omega arith)
    | inr ne ↦ inr (in_array (length t.array - 1) v (omega arith) e)
  ]

  rest-IsBorder :
      (length t.array ≤ 1) ⊎ ((v : V) × (get_or t.array (length t.array - 1) ≡ some v))
      → (n : ℕ) × (lj_tab_len ops t ≡ ok n) × IsBorder ops t n
  rest-IsBorder side = elim (eq-cases t.hmask 0) [
    | inl z ↦
        let test : (t.hmask == 0) ≡ true = ground (arith, z) in
        (
          length t.array - 1,
          len_rest side ∙ rw test refl,
          (last_index side, not_in_hash (suc (length t.array - 1)) z (omega arith)),
        )
    | inr pos ↦
        let (n, run, border) =
          unbound-IsBorder (length t.array - 1) (omega arith) (last_index side) in
        (
          n,
          len_rest side
              ∙ ap
                  (λ b.
                    if b
                    then ok (length t.array - 1)
                    else unbound_search ops t (length t.array - 1))
                  (ne→eqb_false t.hmask 0 pos)
              ∙ run,
          border,
        )
  ]

  -- For doubles that obey the stated laws and a well-formed table whose parts are within the limits
  -- of the allocation, lj_tab_len ends within its fuel, the linear search after an overflow
  -- included, and returns a boundary: 0 or an index with a value, with no value at the next index.
  pub lj_tab_len-IsBorder : (n : ℕ) × (lj_tab_len ops t ≡ ok n) × IsBorder ops t n
  lj_tab_len-IsBorder = elim (Bool-cases (ltb 1 (length t.array))) [
    | inr short ↦ rest-IsBorder (inl (ground arith))
    | inl wide ↦ elim (Option-cases (get_or t.array (length t.array - 1))) [
      | inl last ↦ array-IsBorder (ltb→lt 1 (length t.array) wide) last
      | inr (v, e) ↦ rest-IsBorder (inr (v, e))
    ]
  ]
