-- ===== src/Tab/Next/Correct.antt =====
-- From one entry of a traversal to the next, in the order of the cells and nodes.
use probabilistic_lua.Common.{
  ℕ, zero, suc, ◌+◌, ◌-◌, ◌%◌, ◌^◌, ◌≤◌, ◌<◌, Bool, true, false, ltb, lt→ltb, le→ltb, Bool-cases,
  eq-cases, if◌then◌else◌, length, Option, none, some, Option-cases, ◌≡◌, refl, sym, ap, ◌∙◌, inl,
  inr, ◌⊎◌, arith,
}
use probabilistic_lua.Common.Result.{ok, ◌>>=◌}
use probabilistic_lua.Tab.Types.{TKey, boolean, int, num, str, obj, KeyOps, Tab}
use probabilistic_lua.Tab.Find.{get_or, find_key, is_key}
use probabilistic_lua.Tab.Find.Invariant.{IsHash, key_at, val_at, search_present}
use probabilistic_lua.Tab.Find.Keys.{KeyLaws, is_key-Picks}
use probabilistic_lua.Tab.Find.Correct.{index_of}
use probabilistic_lua.Tab.Len.Correct.{IsSized}
use probabilistic_lua.Tab.Next.{keyindex, next_cell, next_node, set_int_key, next_from, lj_tab_next}

-- The key of a cell: a tagged integer where the build has them, and otherwise a double.
abbrev pub cell_key : KeyOps → ℕ → TKey
cell_key ops i = if ops.dualnum then int i else num (ops.int2num i).0 (ops.int2num i).1

module _ {V : Type 0} (ops : KeyOps) (t : Tab V) where
  abbrev cell_entry : ℕ → Option V → Option (Option TKey × V)
  cell_entry i none = none
  cell_entry i (some v) = some (some (cell_key ops i), v)

  abbrev node_entry : ℕ → Option V → Option (Option TKey × V)
  node_entry i none = none
  node_entry i (some v) = some (key_at t i, v)

  -- The entry at a traversal index: first the cells, then the nodes.
  abbrev pub entry_at : ℕ → Option (Option TKey × V)
  entry_at i =
      if ltb i (length t.array)
      then cell_entry i (get_or t.array i)
      else node_entry (i - length t.array) (val_at t (i - length t.array))

  abbrev pub size : ℕ
  size = length t.array + suc t.hmask

  -- The first entry from `i` on.
  abbrev pub IsNext : ℕ → Option (Option TKey × V) → Type 0
  IsNext i none = (j : ℕ) → i ≤ j → j < size → entry_at j ≡ none
  IsNext i (some e) =
      (j : ℕ) × (i ≤ j)
      × (j < size)
      × (entry_at j ≡ some e)
      × ((k : ℕ) → i ≤ k → k < j → entry_at k ≡ none)

  at_cell : (i : ℕ) → i < length t.array → entry_at i ≡ cell_entry i (get_or t.array i)
  at_cell i h = rw (lt→ltb i (length t.array) h) refl

  at_node : (i : ℕ) → entry_at (length t.array + i) ≡ node_entry i (val_at t i)
  at_node i =
      let back : length t.array + i - length t.array ≡ i = omega arith in
      rw (le→ltb (length t.array + i) (length t.array) (omega arith))
        (ap (λ j. node_entry j (val_at t j)) back)

  step_none :
      (i : ℕ) (o : Option (Option TKey × V)) → entry_at i ≡ none → IsNext (suc i) o → IsNext i o
  step_none i none e h = λ j le lt. elim (eq-cases i j) [
    | inl s ↦ ap entry_at (sym s) ∙ e
    | inr ne ↦ h j (omega arith) lt
  ]
  step_none i (some x) e (j, le, lt, ej, before) = (
    j,
    omega arith,
    lt,
    ej,
    λ k le_k lt_k. elim (eq-cases i k) [
      | inl s ↦ ap entry_at (sym s) ∙ e
      | inr ne ↦ before k (omega arith) lt_k
    ],
  )

  step_some : (i : ℕ) (e : Option TKey × V) → i < size → entry_at i ≡ some e → IsNext i (some e)
  step_some i e lt ei = (i, omega arith, lt, ei, λ k le lt_k. absurd (omega arith))

  node_IsNext :
      (left i : ℕ) → i + left ≡ suc t.hmask → IsNext (length t.array + i) (next_node t left i)
  unfolding next_node
  node_IsNext zero i e = λ j le lt. absurd (omega arith)
  node_IsNext (suc left) i e = elim (Option-cases (val_at t i)) [
    | inl ev ↦
        let ih = node_IsNext left (suc i) (omega arith) in
        let shift : length t.array + suc i ≡ suc (length t.array + i) = omega arith in
        let after : IsNext (suc (length t.array + i)) (next_node t left (suc i)) = rw shift at ih in
        rw (ev, next_node)
          (step_none (length t.array + i) (next_node t left (suc i))
            (at_node i ∙ ap (node_entry i) ev) after)
    | inr (v, ev) ↦
        rw (ev, next_node)
          (step_some (length t.array + i) (key_at t i, v) (omega arith)
            (at_node i ∙ ap (node_entry i) ev))
  ]

  -- The cells from `i` on are empty, or the first that is not is found.
  CellsEmpty : ℕ → Type 0
  CellsEmpty i = (j : ℕ) → i ≤ j → j < length t.array → entry_at j ≡ none

  cell_IsNext :
      (left i : ℕ)
      → i + left ≡ length t.array
      → ((j : ℕ) × ((v : V) × (next_cell t left i ≡ some (j, v))
            × IsNext i (some (some (cell_key ops j), v))))
        ⊎ ((next_cell t left i ≡ none) × CellsEmpty i)
  unfolding next_cell CellsEmpty
  cell_IsNext zero i e = inr (refl, λ j le lt. absurd (omega arith))
  cell_IsNext (suc left) i e = elim (Option-cases (get_or t.array i)) [
    | inr (v, ev) ↦ inl (
      i,
      (
        v,
        rw (ev, next_cell) refl,
        step_some i (some (cell_key ops i), v) (omega arith)
            (at_cell i (omega arith) ∙ ap (cell_entry i) ev),
      ),
    )
    | inl ev ↦
        let now = at_cell i (omega arith) ∙ ap (cell_entry i) ev in
        elim (cell_IsNext left (suc i) (omega arith)) [
          | inl (j, (v, r, h)) ↦
              inl
                (j, (v, rw (ev, next_cell) r, step_none i (some (some (cell_key ops j), v)) now h))
          | inr (r, h) ↦ inr (
            rw (ev, next_cell) r,
            λ j le lt. elim (eq-cases i j) [
              | inl s ↦ ap entry_at (sym s) ∙ now
              | inr ne ↦ h j (omega arith) lt
            ],
          )
        ]
  ]

  skip :
      (i : ℕ) (o : Option (Option TKey × V))
      → i ≤ length t.array
      → CellsEmpty i
      → IsNext (length t.array + 0) o
      → IsNext i o
  unfolding CellsEmpty
  skip i none le empty h = λ j le_j lt. elim (Bool-cases (ltb j (length t.array))) [
    | inl e ↦ empty j le_j (ground arith)
    | inr e ↦ h j (ground arith) lt
  ]
  skip i (some e) le empty (j, le_j, lt, ej, before) = (
    j,
    omega arith,
    lt,
    ej,
    λ k le_k lt_k. elim (Bool-cases (ltb k (length t.array))) [
      | inl e ↦ empty k le_k (ground arith)
      | inr e ↦ before k (ground arith) lt_k
    ],
  )

  pub next_from-IsNext : (i : ℕ) → i ≤ size → IsNext i (next_from ops t i)
  unfolding next_from set_int_key
  next_from-IsNext i h = elim (Bool-cases (ltb i (length t.array))) [
    | inl e ↦
        let lt : i < length t.array = ground arith in
        elim (cell_IsNext (length t.array - i) i (omega arith)) [
          | inl (j, (v, r, found)) ↦ rw (r, next_from) found
          | inr (r, empty) ↦
              let none_left : i - length t.array ≡ 0 = omega arith in
              let all_left : suc t.hmask - 0 ≡ suc t.hmask = omega arith in
              rw (r, next_from, none_left, all_left)
                (skip i (next_node t (suc t.hmask) 0) (omega arith) empty
                  (node_IsNext (suc t.hmask) 0 (omega arith)))
        ]
    | inr e ↦
        let le : length t.array ≤ i = ground arith in
        let none_left : length t.array - i ≡ 0 = omega arith in
        let here : length t.array + (i - length t.array) ≡ i = omega arith in
        let found =
          node_IsNext (suc t.hmask - (i - length t.array)) (i - length t.array) (omega arith) in
        rw (none_left, next_from) (rw here at found)
  ]

-- A value in the hash part has no key that belongs to the array part.
abbrev pub IsOutside : {V : Type 0} → KeyOps → Tab V → Type 0
IsOutside ops t =
    (n i : ℕ) (k : TKey)
    → n ≤ t.hmask
    → key_at t n ≡ some k
    → index_of ops k ≡ some i
    → length t.array ≤ i

module _ {V : Type 0} (ops : KeyOps) (t : Tab V) (laws : KeyLaws ops) (wf : IsHash ops t)
    (outside : IsOutside ops t) where
  node_keyindex :
      (n : ℕ) (k : TKey)
      → n ≤ t.hmask
      → key_at t n ≡ some k
      → keyindex ops t (some k) ≡ ok (length t.array + n)
  unfolding keyindex find_key
  node_keyindex n k h e = go k e (
      search_present ops t wf k (is_key ops k) n (is_key-Picks ops laws t wf k (wf.stored n k h e))
        h e)
    where
      go :
          (k : TKey)
          → key_at t n ≡ some k
          → find_key ops t k ≡ ok (some n)
          → keyindex ops t (some k) ≡ ok (length t.array + n)
      go (int i) e r = absurd (wf.stored n (int i) h e)
      go (boolean b) e r = rw (r, keyindex) refl
      go (str s) e r = rw (r, keyindex) refl
      go (obj g a) e r = rw (r, keyindex) refl
      go (num lo hi) e r = elim (Option-cases (ops.num2int lo hi)) [
        | inl no_int ↦ rw (no_int, r, keyindex) refl
        | inr (i, is_int) ↦
            rw (is_int, le→ltb i (length t.array) (outside n i (num lo hi) h e is_int), r, keyindex)
              refl
      ]

  -- The key of a cell is found in the array part, tagged or not.
  cell_keyindex :
      (dual : Bool) (j : ℕ)
      → j < length t.array
      → j < 2 ^ 32
      → keyindex ops t (some (if dual then int j else num (ops.int2num j).0 (ops.int2num j).1))
        ≡ ok j
  unfolding keyindex
  cell_keyindex true j h small = rw (lt→ltb j (length t.array) h)
  cell_keyindex false j h small = rw (laws.int_num j small, keyindex, lt→ltb j (length t.array) h)

  entry_keyindex :
      (j : ℕ) (k : TKey) (v : V)
      → length t.array ≤ 2 ^ 27 + 1
      → j < size ops t
      → entry_at ops t j ≡ some (some k, v)
      → keyindex ops t (some k) ≡ ok j
  entry_keyindex j k v small h e = elim (Bool-cases (ltb j (length t.array))) [
    | inl inside ↦ elim (Option-cases (get_or t.array j)) [
      | inl no_value ↦ let e₁ = rw (inside, no_value) at e in cc (e₁)
      | inr (w, ev) ↦
          let e₁ = rw (inside, ev) at e in
          let same : k ≡ cell_key ops j = cc (e₁) in
          let lt : j < length t.array = ground arith in
          ap (λ x. keyindex ops t (some x)) same ∙ cell_keyindex ops.dualnum j lt (omega arith)
    ]
    | inr past ↦ elim (Option-cases (val_at t (j - length t.array))) [
      | inl no_value ↦ let e₁ = rw (past, no_value) at e in cc (e₁)
      | inr (w, ev) ↦
          let e₁ = rw (past, ev) at e in
          let ek : key_at t (j - length t.array) ≡ some k = cc (e₁) in
          let le : length t.array ≤ j = ground arith in
          let here : length t.array + (j - length t.array) ≡ j = omega arith in
          node_keyindex (j - length t.array) k (omega arith) ek ∙ ap ok here
    ]
  ]

  module _ (sized : IsSized ops t) where
    pub start_IsNext :
        (o : Option (Option TKey × V)) × (lj_tab_next ops t none ≡ ok o) × IsNext ops t 0 o
    unfolding lj_tab_next
    start_IsNext = (next_from ops t 0, refl, next_from-IsNext ops t 0 (omega arith))

    -- In a well-formed table within the limits of the allocation, none of whose nodes has a key for
    -- a cell of the array part, and for doubles that obey the stated laws, lj_tab_next from the key
    -- of an entry returns the first entry after it in the order of the cells and then the nodes, or
    -- the end if there is none. The key of a cell is a tagged integer or, on a build without them,
    -- a double.
    pub lj_tab_next-IsNext :
        (j : ℕ) (k : TKey) (v : V)
        → j < size ops t
        → entry_at ops t j ≡ some (some k, v)
        → (o : Option (Option TKey × V)) × (lj_tab_next ops t (some k) ≡ ok o)
          × IsNext ops t (suc j) o
    unfolding lj_tab_next
    lj_tab_next-IsNext j k v h e =
        let index = entry_keyindex j k v sized.0 h e in
        let step : (j + 1) % 2 ^ 32 ≡ suc j = omega arith in
        (
          next_from ops t (suc j),
          ap (λ r. r >>= λ i. ok (next_from ops t ((i + 1) % 2 ^ 32))) index
              ∙ ap (λ i. ok (next_from ops t i)) step,
          next_from-IsNext ops t (suc j) (omega arith),
        )
