-- ===== src/Tab/Len/Absent.antt =====
-- Integers that are not in a table.
use probabilistic_lua.Common.{
  ℕ, zero, suc, ◌+◌, ◌≤◌, ◌<◌, ◌^◌, List, [], ◌∷◌, Bool, true, false, not, Bool-cases, eq-cases,
  ne→eqb_false, le→ltb, length, Option, none, some, All, ◌≡◌, ◌↔◌, refl, sym, ap, ◌∙◌, inl, inr,
  ◌⊎◌, arith,
}
use probabilistic_lua.Common.Result.{Result, ok, err, ◌>>=◌}
use probabilistic_lua.Tab.Types.{TKey, num, KeyOps, Tab, is_none}
use probabilistic_lua.Tab.Chain.{contains, IsDistinct, length-IsDistinct}
use probabilistic_lua.Tab.Find.{num_key, value_at, lj_tab_getint}
use probabilistic_lua.Tab.Find.Invariant.{IsHash, key_at, Entry}
use probabilistic_lua.Tab.Find.Keys.{KeyLaws}
use probabilistic_lua.Tab.Find.Correct.{HoldsIn, index_place, gets_int}
use probabilistic_lua.Tab.Len.{is_present}

value_test :
    {A V : Type 0} (q : Result A) (f : A → Option V) (o : Option V)
    → (q >>= λ x. ok (f x)) ≡ ok o
    → (q >>= λ x. ok (not (is_none (f x)))) ≡ ok (not (is_none o))
value_test (err e) f o r = cc
value_test (ok x) f o r = let e : f x ≡ o = cc in ap (λ y. ok (not (is_none y))) e

module _ {V : Type 0} (ops : KeyOps) (t : Tab V) (laws : KeyLaws ops) (wf : IsHash ops t) where
  -- An integer key has a value, or has none, and the test of the code tells.
  pub present-cases :
      (i : ℕ)
      → i < 2 ^ 32
      → ((v : V) × (is_present ops t i ≡ ok true) × HoldsIn ops t (index_place ops t i) v)
        ⊎ ((is_present ops t i ≡ ok false) × ((v : V) → HoldsIn ops t (index_place ops t i) v → ⊥))
  unfolding is_present
  present-cases i h = go (gets_int ops t laws wf i h)
    where
      go :
          ((o : Option V) × ((lj_tab_getint ops t i >>= λ tv. ok (value_at t tv)) ≡ ok o)
            × ((v : V) → (o ≡ some v) ↔ HoldsIn ops t (index_place ops t i) v))
          → ((v : V) × (is_present ops t i ≡ ok true) × HoldsIn ops t (index_place ops t i) v)
            ⊎ ((is_present ops t i ≡ ok false)
                × ((v : V) → HoldsIn ops t (index_place ops t i) v → ⊥))
      go (none, r, p) =
          inr (value_test (lj_tab_getint ops t i) (value_at t) none r, λ v e. cc ((p v).1 e))
      go (some v, r, p) =
          inl (v, value_test (lj_tab_getint ops t i) (value_at t) (some v) r, (p v).0 refl)

  -- The test, as a function.
  pub present_below : (i : ℕ) → i < 2 ^ 32 → (b : Bool) × (is_present ops t i ≡ ok b)
  present_below i h = elim (present-cases i h) [
    | inl (v, r, p) ↦ (true, r)
    | inr (r, p) ↦ (false, r)
  ]

  num_key_inj : (i j : ℕ) → i < 2 ^ 32 → j < 2 ^ 32 → num_key ops i ≡ num_key ops j → i ≡ j
  num_key_inj i j hi hj e =
      let words : TKey → Option ℕ = λ k. elim k [ num lo hi ↦ ops.num2int lo hi | _ ↦ none ] in
      let same = ap words e in
      let found : some i ≡ some j = sym (laws.int_num i hi) ∙ same ∙ laws.int_num j hj in cc

  -- Either one of the `m` integers from `a` on is absent, or each has a node of its own.
  Nodes : ℕ → ℕ → Type 0
  Nodes a m =
      (xs : List ℕ) × (length xs ≡ m)
      × IsDistinct xs
      × All (λ n. n < suc t.hmask) xs
      × ((n : ℕ)
          → contains xs n ≡ true
          → (k : ℕ) × (a ≤ k) × (k < a + m) × (key_at t n ≡ some (num_key ops k)))

  absent_or_Nodes :
      (a m : ℕ)
      → length t.array ≤ a
      → a + m ≤ 2 ^ 32
      → ((k : ℕ) × (a ≤ k) × (k < a + m) × (is_present ops t k ≡ ok false)) ⊎ Nodes a m
  unfolding Nodes
  absent_or_Nodes a zero above fits = inr ([], refl, tt, tt, λ n h. cc)
  absent_or_Nodes a (suc m) above fits = elim (present-cases (a + m) (omega arith)) [
    | inr (r, _) ↦ inl (a + m, omega arith, omega arith, r)
    | inl (v, r, held) ↦ elim (absent_or_Nodes a m above (omega arith)) [
      | inl (k, le, lt, r') ↦ inl (k, le, omega arith, r')
      | inr (xs, len, distinct, below, keys) ↦
          let outside = le→ltb (a + m) (length t.array) (omega arith) in
          let (n, hn, en, ev) : Entry t (num_key ops (a + m)) v = rw outside at held in
          let fresh : contains xs n ≡ false = elim (Bool-cases (contains xs n)) [
            | inl c ↦
                let (k, le, lt, ek) = keys n c in
                let same : num_key ops k ≡ num_key ops (a + m) = cc (ek, en) in
                absurd (omega (arith, num_key_inj k (a + m) (omega arith) (omega arith) same))
            | inr c ↦ c
          ] in
          inr (
            n ∷ xs,
            ap suc len,
            (fresh, distinct),
            (omega arith, below),
            λ n' c. elim (eq-cases n n') [
              | inl s ↦ (a + m, omega arith, omega arith, ap (key_at t) (sym s) ∙ en)
              | inr ne ↦
                  let c' : contains xs n' ≡ true = rw (ne→eqb_false n n' ne) at c in
                  let (k, le, lt, ek) = keys n' c' in (k, le, omega arith, ek)
            ],
          )
    ]
  ]

  -- Among more integers than there are nodes, one is absent.
  pub absent-index :
      (a : ℕ)
      → length t.array ≤ a
      → a + (t.hmask + 2) ≤ 2 ^ 32
      → (k : ℕ) × (a ≤ k) × (k < a + (t.hmask + 2)) × (is_present ops t k ≡ ok false)
  unfolding Nodes
  absent-index a above fits = elim (absent_or_Nodes a (t.hmask + 2) above fits) [
    | inl found ↦ found
    | inr (xs, len, distinct, below, keys) ↦
        absurd (omega (arith, len, length-IsDistinct (suc t.hmask) xs distinct below))
  ]
