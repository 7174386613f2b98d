-- ===== src/Tab/Find/Invariant.antt =====
-- The invariant of the hash part, and the search through a chain under it.
use probabilistic_lua.Common.{
  ℕ, zero, suc, ◌+◌, ◌-◌, ◌^◌, ◌≤◌, ◌<◌, bit_and, List, [], ◌∷◌, Bool, true, false, ◌==◌,
  if◌then◌else◌, length, Option, none, some, All, Bool-cases, eqb→eq, ◌≡◌, ◌≢◌, ◌↔◌, refl, sym, ap,
  ◌∙◌, arith, inl, inr, ◌⊎◌, eq-cases,
}
use native.Mathlib.Nat.{one-le-pow}
use probabilistic_lua.Common.Bits.{bit_and_mask}
use probabilistic_lua.Common.Result.{ok}
use probabilistic_lua.Tab.Types.{TKey, boolean, int, num, str, obj, KeyOps, Node, Tab}
use probabilistic_lua.Tab.Hash.{hash_of, hashkey}
use probabilistic_lua.Tab.Chain.{Chain, contains, Chain-IsDistinct, Chain-unique, length-IsDistinct}
use probabilistic_lua.Tab.Find.{find_node, search_chain}

-- A double that may be a key of a node: not NaN, and not -0.
abbrev pub IsPlain : KeyOps → ℕ × ℕ → Type 0
IsPlain ops n = (ops.num_eq n n ≡ true) × (n ≢ (0, 0x80000000))

abbrev pub IsStored : KeyOps → TKey → Type 0
IsStored ops (num lo hi) = IsPlain ops (lo, hi)
IsStored ops (int k) = ⊥
IsStored ops (boolean b) = Unit
IsStored ops (str s) = Unit
IsStored ops (obj g a) = Unit

ok-if : {A : Type 0} (b : Bool) (x y : A) → (if b then ok x else ok y) ≡ ok (if b then x else y)
ok-if true x y = refl
ok-if false x y = refl

module _ {V : Type 0} where
  abbrev pub next_of : Tab V → ℕ → Option ℕ
  next_of t i = (t.node i).next

  abbrev pub key_at : Tab V → ℕ → Option TKey
  key_at t i = (t.node i).key

  abbrev pub val_at : Tab V → ℕ → Option V
  val_at t i = (t.node i).val

  -- The hash part maps `k` to `v`.
  abbrev pub Entry : Tab V → TKey → V → Type 0
  Entry t k v = (i : ℕ) × (i ≤ t.hmask) × (key_at t i ≡ some k) × (val_at t i ≡ some v)

  abbrev pub SameEntries : Tab V → Tab V → Type 0
  SameEntries t u = (k : TKey) (v : V) → Entry t k v ↔ Entry u k v

  -- The hash part is a set of disjoint chains. A key stands on the chain of its anchor, which holds a key
  -- with the same anchor.
  pub record IsHash (ops : KeyOps) (t : Tab V) : Type 0 where
    pub bits : (b : ℕ) × (t.hmask + 1 ≡ 2 ^ b)
    pub chain : (i : ℕ) → i ≤ t.hmask → (xs : List ℕ) × Chain (next_of t) (some i) xs
    pub reach :
        (i : ℕ) (k : TKey) (xs : List ℕ)
        → i ≤ t.hmask
        → key_at t i ≡ some k
        → Chain (next_of t) (some (hashkey ops t k)) xs
        → contains xs i ≡ true
    pub unique :
        (i j : ℕ) (k : TKey)
        → i ≤ t.hmask
        → j ≤ t.hmask
        → key_at t i ≡ some k
        → key_at t j ≡ some k
        → i ≡ j
    pub home :
        (i : ℕ) (k : TKey)
        → i ≤ t.hmask
        → key_at t i ≡ some k
        → (h : TKey) × (key_at t (hashkey ops t k) ≡ some h) × (hashkey ops t h ≡ hashkey ops t k)
    pub inj :
        (i j n : ℕ)
        → i ≤ t.hmask
        → j ≤ t.hmask
        → next_of t i ≡ some n
        → next_of t j ≡ some n
        → i ≡ j
    pub next_used :
        (i n : ℕ)
        → i ≤ t.hmask
        → next_of t i ≡ some n
        → (n ≤ t.hmask) × ((k : TKey) × (key_at t n ≡ some k))
    pub free :
        (i : ℕ) → i ≤ t.hmask → key_at t i ≡ none → (next_of t i ≡ none) × ((t.node i).val ≡ none)
    pub top : t.freetop ≤ t.hmask + 1
    pub stored : (i : ℕ) (k : TKey) → i ≤ t.hmask → key_at t i ≡ some k → IsStored ops k
    pub nil_node : t.hmask ≡ 0 → (t.freetop ≡ 0) × (key_at t 0 ≡ none)

  pub hashkey-le :
      (ops : KeyOps) (t : Tab V) (k : TKey)
      → (b : ℕ) × (t.hmask + 1 ≡ 2 ^ b)
      → hashkey ops t k ≤ t.hmask
  unfolding hashkey
  hashkey-le ops t k (b, e) =
      let mask : t.hmask ≡ 2 ^ b - 1 = omega arith in
      let low = ap (bit_and (hash_of ops k)) mask ∙ bit_and_mask b (hash_of ops k) in
      grind (arith, one-le-pow b 2)

  -- The first index of a list that passes a test.
  first : (ℕ → Node V) → (Option TKey → Bool) → List ℕ → Option ℕ
  first node test [] = none
  first node test (x ∷ xs) = if test (node x).key then some x else first node test xs

  find_node-first :
      (fuel : ℕ) (node : ℕ → Node V) (test : Option TKey → Bool) (i : ℕ) (xs : List ℕ)
      → Chain (λ j. (node j).next) (some i) xs
      → length xs ≤ fuel
      → find_node fuel node test i ≡ ok (first node test xs)
  unfolding find_node first
  find_node-first fuel node test i [] c h = cc
  find_node-first zero node test i (x ∷ xs) c h = absurd (omega arith)
  find_node-first (suc fuel) node test i (x ∷ []) c h =
      let same : i ≡ x = cc (c.0) in rw (same, c.1) (ok-if (test (node x).key) (some x) none)
  find_node-first (suc fuel) node test i (x ∷ y ∷ ys) c h =
      let same : i ≡ x = cc (c.0) in
      let ih = find_node-first fuel node test y (y ∷ ys) (refl, c.1.1) (omega arith) in
      rw (same, c.1.0, ih) (ok-if (test (node x).key) (some x) (first node test (y ∷ ys)))

  first_absent :
      (node : ℕ → Node V) (test : Option TKey → Bool) (n : ℕ) (xs : List ℕ)
      → All (λ j. j < n) xs
      → ((i : ℕ) → i < n → test (node i).key ≡ false)
      → first node test xs ≡ none
  unfolding first
  first_absent node test n [] v h = refl
  first_absent node test n (x ∷ xs) v h = rw (h x v.0) (first_absent node test n xs v.1 h)

  first_present :
      (node : ℕ → Node V) (test : Option TKey → Bool) (n i : ℕ) (xs : List ℕ)
      → All (λ j. j < n) xs
      → contains xs i ≡ true
      → test (node i).key ≡ true
      → ((j : ℕ) → j < n → test (node j).key ≡ true → j ≡ i)
      → first node test xs ≡ some i
  unfolding first
  first_present node test n i [] v c e h = cc
  first_present node test n i (x ∷ xs) v c e h = elim (Bool-cases (test (node x).key)) [
    | inl yes_x ↦ rw (yes_x) (ap some (h x v.0 yes_x))
    | inr no_x ↦ elim (Bool-cases (x == i)) [
      | inl same ↦ let s : x ≡ i = eqb→eq x i same in cc (no_x, e, s)
      | inr differ ↦ rw no_x (first_present node test n i xs v.1 (rw differ at c) e h)
    ]
  ]

module _ {V : Type 0} (ops : KeyOps) (t : Tab V) (wf : IsHash ops t) where
  -- A test that picks exactly the key `k`.
  abbrev pub Picks : (Option TKey → Bool) → TKey → Type 0
  Picks test k = (i : ℕ) → i ≤ t.hmask → (test (key_at t i) ≡ true) ↔ (key_at t i ≡ some k)

  pub Chain-below :
      (i : ℕ) (xs : List ℕ)
      → i ≤ t.hmask
      → Chain (next_of t) (some i) xs
      → All (λ j. j < suc t.hmask) xs
  Chain-below i [] h c = tt
  Chain-below i (x ∷ []) h c = let e : i ≡ x = cc (c.0) in (omega arith, tt)
  Chain-below i (x ∷ y ∷ ys) h c =
      let e : i ≡ x = cc (c.0) in
      let e₁ : next_of t i ≡ some y = cc (e, c.1.0) in
      (omega arith, Chain-below y (y ∷ ys) (wf.next_used i y h e₁).0 (refl, c.1.1))

  search_first :
      (k : TKey) (test : Option TKey → Bool)
      → (xs : List ℕ) × Chain (next_of t) (some (hashkey ops t k)) xs
        × All (λ j. j < suc t.hmask) xs
        × (search_chain ops t k test ≡ ok (first t.node test xs))
  unfolding search_chain
  search_first k test =
      let a = hashkey ops t k in
      let (xs, c) = wf.chain a (hashkey-le ops t k wf.bits) in
      let v = Chain-below a xs (hashkey-le ops t k wf.bits) c in
      let short = length-IsDistinct (suc t.hmask) xs (Chain-IsDistinct (next_of t) _ xs c) v in
      (xs, c, v, find_node-first (suc t.hmask) t.node test (hashkey ops t k) xs c short)

  -- The search finds a key wherever it stands in the node vector,
  pub search_present :
      (k : TKey) (test : Option TKey → Bool) (i : ℕ)
      → Picks test k
      → i ≤ t.hmask
      → key_at t i ≡ some k
      → search_chain ops t k test ≡ ok (some i)
  search_present k test i picks h e =
      let (xs, c, v, r) = search_first k test in
      let on_chain = wf.reach i k xs h e c in
      r
      ∙ ap ok (
          first_present t.node test (suc t.hmask) i xs v on_chain ((picks i h).1 e)
            (λ j hj ej. wf.unique j i k (omega arith) h ((picks j (omega arith)).0 ej) e))

  -- and only if it stands there.
  pub search_absent :
      (k : TKey) (test : Option TKey → Bool)
      → Picks test k
      → ((i : ℕ) → i ≤ t.hmask → key_at t i ≢ some k)
      → search_chain ops t k test ≡ ok none
  search_absent k test picks absent =
      let (xs, c, v, r) = search_first k test in
      r
      ∙ ap ok (
          first_absent t.node test (suc t.hmask) xs v (λ i hi.
            elim (Bool-cases (test (key_at t i))) [
              | inl e ↦ absurd (absent i (omega arith) ((picks i (omega arith)).0 e))
              | inr e ↦ e
            ]))

  -- No node is its own successor.
  pub no_loop : (i : ℕ) → i ≤ t.hmask → next_of t i ≢ some i
  no_loop i h e = let (xs, c) = wf.chain i h in ends xs c
    where
      ends : (xs : List ℕ) → Chain (next_of t) (some i) xs → ⊥
      ends [] c = cc
      ends (x ∷ xs) c =
          let same : i ≡ x = cc (c.0) in
          let c' : Chain (next_of t) (next_of t i) xs = rw same c.1 in
          let again = Chain-unique (next_of t) (some i) (next_of t i) (x ∷ xs) xs (sym e) c c' in
          omega (arith, ap length again)

  key_below :
      (test : Option TKey → Bool) (m : ℕ)
      → ((i : ℕ) × (i < m) × (test (key_at t i) ≡ true))
        ⊎ ((i : ℕ) → i < m → test (key_at t i) ≡ false)
  key_below test zero = inr (λ i h. absurd (omega arith))
  key_below test (suc m) = elim (Bool-cases (test (key_at t m))) [
    | inl e ↦ inl (m, omega arith, e)
    | inr e ↦ elim (key_below test m) [
      | inl (i, h, e₁) ↦ inl (i, omega arith, e₁)
      | inr none_below ↦ inr (λ i h. elim (eq-cases i m) [
        | inl s ↦ ap (λ j. test (key_at t j)) s ∙ e
        | inr ne ↦ none_below i (omega arith)
      ])
    ]
  ]

  -- A key stands in a node or in none.
  pub key-cases :
      (k : TKey) (test : Option TKey → Bool)
      → Picks test k
      → ((i : ℕ) × (i ≤ t.hmask) × (key_at t i ≡ some k))
        ⊎ ((i : ℕ) → i ≤ t.hmask → key_at t i ≢ some k)
  key-cases k test picks = elim (key_below test (suc t.hmask)) [
    | inl (i, h, e) ↦ inl (i, omega arith, (picks i (omega arith)).0 e)
    | inr all ↦ inr (λ i h e. cc (all i (omega arith), (picks i h).1 e))
  ]
