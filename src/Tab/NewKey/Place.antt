-- ===== src/Tab/NewKey/Place.antt =====
-- A key written to a node that holds no value, at its own anchor.
use probabilistic_lua.Common.{
  ℕ, ◌≤◌, ◌+◌, List, [], ◌∷◌, true, none, some, eq-cases, ◌≡◌, ◌≢◌, sym, ◌∙◌, inl, inr, ◌⊎◌, arith,
}
use probabilistic_lua.Tab.Types.{TKey, KeyOps, Node, Tab}
use probabilistic_lua.Tab.Hash.{hashkey}
use probabilistic_lua.Tab.Chain.{Chain, contains}
use probabilistic_lua.Tab.Chain.Edit.{Chain-ext}
use probabilistic_lua.Tab.Find.Invariant.{IsHash, IsStored, next_of, key_at, val_at}

module _ {V : Type 0} where
  -- `b` is `a` with the key `k` at `n`.
  pub record Placed (a b : ℕ → Node V) (n : ℕ) (k : TKey) : Type 0 where
    pub key_n : (b n).key ≡ some k
    pub key : (j : ℕ) → j ≢ n → (b j).key ≡ (a j).key
    pub val : (j : ℕ) → (b j).val ≡ (a j).val
    pub next : (j : ℕ) → (b j).next ≡ (a j).next

module _ {V : Type 0} (ops : KeyOps) (t : Tab V) (b : ℕ → Node V) (n f : ℕ) (k : TKey)
    (wf : IsHash ops t) (pl : Placed t.node b n k) (hk : hashkey ops t k ≡ n) (pos : t.hmask ≢ 0)
    (below : n ≤ t.hmask) (unused : val_at t n ≡ none) (good : IsStored ops k)
    (absent : (i : ℕ) → i ≤ t.hmask → key_at t i ≢ some k) (top : f ≤ t.hmask + 1) where
  abbrev placed : Tab V
  placed = record t { node = b; freetop = f }

  key_cases :
      (i : ℕ) (k' : TKey)
      → (b i).key ≡ some k'
      → ((i ≡ n) × (k' ≡ k)) ⊎ ((i ≢ n) × (key_at t i ≡ some k'))
  key_cases i k' e = elim (eq-cases i n) [
    | inl same ↦ let en : (b n).key ≡ some k' = cc (e, same) in inl (same, cc (en, pl.key_n))
    | inr differ ↦ inr (differ, cc (e, pl.key i differ))
  ]

  reach :
      (i : ℕ) (k' : TKey) (xs : List ℕ)
      → i ≤ t.hmask
      → (b i).key ≡ some k'
      → Chain (next_of placed) (some (hashkey ops placed k')) xs
      → contains xs i ≡ true
  unfolding hashkey
  reach i k' [] h e c = cc
  reach i k' (x ∷ xs) h e c = elim (key_cases i k' e) [
    | inl (same, same_k) ↦ let head : x ≡ i = cc (c.0, hk, same, same_k) in ground (arith, head)
    | inr (differ, e₁) ↦
        wf.reach i k' (x ∷ xs) h e₁
          (Chain-ext (next_of placed) (next_of t) _ (x ∷ xs) (λ j. sym (pl.next j)) c)
  ]

  -- No key has the anchor `n` unless the key at `n` has.
  home :
      (i : ℕ) (k' : TKey)
      → i ≤ t.hmask
      → (b i).key ≡ some k'
      → (h : TKey) × ((b (hashkey ops placed k')).key ≡ some h)
        × (hashkey ops placed h ≡ hashkey ops placed k')
  unfolding hashkey
  home i k' h e = elim (eq-cases (hashkey ops t k') n) [
    | inl same ↦ (k, cc (same, pl.key_n), cc (hk, same))
    | inr differ ↦ elim (key_cases i k' e) [
      | inl (same, same_k) ↦ absurd (differ (cc (same_k, hk)))
      | inr (other, e₁) ↦
          let (g, eg, hg) = wf.home i k' h e₁ in (g, cc (eg, pl.key (hashkey ops t k') differ), hg)
    ]
  ]

  pub Placed-IsHash : IsHash ops placed
  unfolding hashkey
  Placed-IsHash = record {
    bits = wf.bits;
    chain = λ i h.
        let (xs, c) = wf.chain i h in
        (xs, Chain-ext (next_of t) (next_of placed) (some i) xs pl.next c);
    reach = reach;
    unique = λ i j k' hi hj ei ej. elim (key_cases i k' ei) [
      | inl (same, same_k) ↦ elim (key_cases j k' ej) [
        | inl (same', _) ↦ cc (same, same')
        | inr (_, e₁) ↦ absurd (absent j hj (cc (e₁, same_k)))
      ]
      | inr (_, e₁) ↦ elim (key_cases j k' ej) [
        | inl (_, same_k) ↦ absurd (absent i hi (cc (e₁, same_k)))
        | inr (_, e₂) ↦ wf.unique i j k' hi hj e₁ e₂
      ]
    ];
    home = home;
    inj = λ i j m hi hj ei ej. wf.inj i j m hi hj (sym (pl.next i) ∙ ei) (sym (pl.next j) ∙ ej);
    next_used = λ i m hi ei.
        let (hm, (k', e)) = wf.next_used i m hi (sym (pl.next i) ∙ ei) in
        (
          hm,
          elim (eq-cases m n) [
            | inl same ↦ (k, cc (same, pl.key_n))
            | inr differ ↦ (k', pl.key m differ ∙ e)
          ],
        );
    free = λ i hi e. elim (eq-cases i n) [
      | inl same ↦ let en : (b n).key ≡ none = cc (same, e) in cc (en, pl.key_n)
      | inr differ ↦
          let (no_next, no_val) = wf.free i hi (sym (pl.key i differ) ∙ e) in
          (pl.next i ∙ no_next, pl.val i ∙ no_val)
    ];
    top = top;
    stored = λ i k' hi e. elim (key_cases i k' e) [
      | inl (same, same_k) ↦ rw same_k good
      | inr (_, e₁) ↦ wf.stored i k' hi e₁
    ];
    nil_node = λ z. absurd (pos z);
  }
