-- ===== src/Tab/Next/Traverse.antt =====
-- A whole traversal: calls of lj_tab_next from nil to the end, as the loop of `pairs` makes them.
use probabilistic_lua.Common.{
  ℕ, zero, suc, ◌+◌, ◌-◌, ◌≤◌, ◌<◌, List, [], ◌∷◌, ltb, Bool-cases, eq-cases, length, Option, none,
  some, Option-cases, ◌≡◌, refl, sym, ap, ◌∙◌, inl, inr, arith,
}
use probabilistic_lua.Common.Result.{Result, ok, err, stuck, ◌>>=◌}
use probabilistic_lua.Tab.Types.{TKey, KeyOps, Tab}
use probabilistic_lua.Tab.Find.{get_or}
use probabilistic_lua.Tab.Find.Invariant.{IsHash, key_at, val_at}
use probabilistic_lua.Tab.Find.Keys.{KeyLaws}
use probabilistic_lua.Tab.Len.Correct.{IsSized}
use probabilistic_lua.Tab.Next.{lj_tab_next}
use probabilistic_lua.Tab.Next.Correct.{
  cell_key, entry_at, size, IsNext, IsOutside, start_IsNext, lj_tab_next-IsNext,
}

-- The entries from the call with `key` on, on fuel.
unfoldable pub traverse :
    {V : Type 0} → KeyOps → Tab V → ℕ → Option TKey → Result (List (Option TKey × V))
traverse ops t zero key = err stuck
traverse ops t (suc fuel) key = lj_tab_next ops t key >>= λ o. elim o [
  | none ↦ ok []
  | some e ↦ traverse ops t fuel e.0 >>= λ es. ok (e ∷ es)
]

module _ {V : Type 0} (ops : KeyOps) (t : Tab V) where
  abbrev pub and_entry : Option (Option TKey × V) → List (Option TKey × V) → List (Option TKey × V)
  and_entry none es = es
  and_entry (some e) es = e ∷ es

  -- The entries at the `left` traversal indices from `i` on, in order.
  abbrev pub entries_from : ℕ → ℕ → List (Option TKey × V)
  entries_from zero i = []
  entries_from (suc left) i = and_entry (entry_at ops t i) (entries_from left (suc i))

  entries_none :
      (left i : ℕ)
      → ((j : ℕ) → i ≤ j → j < i + left → entry_at ops t j ≡ none)
      → entries_from left i ≡ []
  entries_none zero i h = refl
  entries_none (suc left) i h =
      ap (λ o. and_entry o (entries_from left (suc i))) (h i (omega arith) (omega arith))
      ∙ entries_none left (suc i) (λ j le lt. h j (omega arith) (omega arith))

  entries_some :
      (left i j : ℕ) (e : Option TKey × V)
      → i ≤ j
      → j < i + left
      → entry_at ops t j ≡ some e
      → ((k : ℕ) → i ≤ k → k < j → entry_at ops t k ≡ none)
      → entries_from left i ≡ e ∷ entries_from (i + left - suc j) (suc j)
  entries_some zero i j e le lt ej before = absurd (omega arith)
  entries_some (suc left) i j e le lt ej before = elim (eq-cases i j) [
    | inl s ↦
        let rest : left ≡ i + suc left - suc j = omega arith in
        ap (λ o. and_entry o (entries_from left (suc i))) (ap (entry_at ops t) s ∙ ej)
        ∙ ap (λ es. e ∷ es)
            (ap (λ n. entries_from n (suc i)) rest
              ∙ ap (λ n. entries_from (i + suc left - suc j) (suc n)) s)
    | inr ne ↦
        let rest : suc i + left - suc j ≡ i + suc left - suc j = omega arith in
        ap (λ o. and_entry o (entries_from left (suc i))) (before i (omega arith) (omega arith))
        ∙ entries_some left (suc i) j e (omega arith) (omega arith) ej
            (λ k le_k lt_k. before k (omega arith) lt_k)
        ∙ ap (λ n. e ∷ entries_from n (suc j)) rest
  ]

module _ {V : Type 0} (ops : KeyOps) (t : Tab V) (laws : KeyLaws ops) (wf : IsHash ops t)
    (outside : IsOutside ops t) (sized : IsSized ops t) where
  entry_key :
      (j : ℕ) (e : Option TKey × V)
      → j < size ops t
      → entry_at ops t j ≡ some e
      → (k : TKey) × (e.0 ≡ some k)
  entry_key j e h eq = elim (Bool-cases (ltb j (length t.array))) [
    | inl inside ↦ elim (Option-cases (get_or t.array j)) [
      | inl no_value ↦ let eq₁ = rw (inside, no_value) at eq in cc (eq₁)
      | inr (w, ev) ↦
          let eq₁ = rw (inside, ev) at eq in
          (cell_key ops j, ap (λ o. elim o [ none ↦ none | some x ↦ x.0 ]) (sym eq₁))
    ]
    | inr past ↦ elim (Option-cases (val_at t (j - length t.array))) [
      | inl no_value ↦ let eq₁ = rw (past, no_value) at eq in cc (eq₁)
      | inr (w, ev) ↦
          let eq₁ = rw (past, ev) at eq in
          let le : length t.array ≤ j = ground arith in
          elim (Option-cases (key_at t (j - length t.array))) [
            | inl no_key ↦
                let unused = (wf.free (j - length t.array) (omega arith) no_key).1 in
                cc (unused, ev)
            | inr (k, ek) ↦ (k, ap (λ o. elim o [ none ↦ none | some x ↦ x.0 ]) (sym eq₁) ∙ ek)
          ]
    ]
  ]

  IsNext-step :
      (j : ℕ) (e : Option TKey × V)
      → j < size ops t
      → entry_at ops t j ≡ some e
      → (o : Option (Option TKey × V)) × (lj_tab_next ops t e.0 ≡ ok o) × IsNext ops t (suc j) o
  IsNext-step j e h eq =
      let (k, ek) = entry_key j e h eq in
      let whole : e ≡ (some k, e.1) = ap (λ (x : Option TKey). (x, e.1)) ek in
      let (o, run, next) =
        lj_tab_next-IsNext ops t laws wf outside sized j k e.1 h (eq ∙ ap some whole) in
      (o, ap (lj_tab_next ops t) ek ∙ run, next)

  traverse_rest :
      (fuel i : ℕ) (key : Option TKey) (o : Option (Option TKey × V))
      → i ≤ size ops t
      → size ops t - i < fuel
      → lj_tab_next ops t key ≡ ok o
      → IsNext ops t i o
      → traverse ops t fuel key ≡ ok (entries_from ops t (size ops t - i) i)
  unfolding traverse
  traverse_rest zero i key o le enough run next = absurd (omega arith)
  traverse_rest (suc fuel) i key none le enough run next =
      let over = entries_none ops t (size ops t - i) i (λ j le_j lt_j. next j le_j (omega arith)) in
      rw run (ap ok (sym over))
  traverse_rest (suc fuel) i key (some e) le enough run (j, le_j, lt_j, ej, before) =
      let (o, run₁, next₁) = IsNext-step j e lt_j ej in
      let ih = traverse_rest fuel (suc j) e.0 o (omega arith) (omega arith) run₁ next₁ in
      let first = entries_some ops t (size ops t - i) i j e le_j (omega arith) ej before in
      let left : i + (size ops t - i) - suc j ≡ size ops t - suc j = omega arith in
      rw (run, ih) (ap ok (ap (λ n. e ∷ entries_from ops t n (suc j)) (sym left) ∙ sym first))

  -- In a well-formed table within the limits of the allocation, none of whose nodes has a key for a
  -- cell of the array part, and for doubles that obey the stated laws, calling lj_tab_next from nil
  -- with the key of the call before comes to an end, after every entry of the cells and nodes once,
  -- in their order, the key of a cell being a tagged integer or, on a build without them, a double.
  pub traverse-entries :
      traverse ops t (suc (size ops t)) none ≡ ok (entries_from ops t (size ops t) 0)
  traverse-entries =
      let (o, run, next) = start_IsNext ops t laws wf outside sized in
      let all : size ops t - 0 ≡ size ops t = omega arith in
      traverse_rest (suc (size ops t)) 0 none o (omega arith) (omega arith) run next
      ∙ ap (λ n. ok (entries_from ops t n 0)) all
