-- ===== src/Tab/NewKey/Insert.antt =====
-- A free node with the new key, linked after the anchor of that key.
use probabilistic_lua.Common.{
  ℕ, ◌≤◌, List, [], ◌∷◌, true, Option, none, some, eq-cases, ◌≡◌, ◌≢◌, refl, sym, ap, ◌∙◌, inl, inr,
  ◌⊎◌, arith,
}
use probabilistic_lua.Tab.Types.{TKey, KeyOps, Node, Tab}
use probabilistic_lua.Tab.Hash.{hashkey}
use probabilistic_lua.Tab.Chain.{Chain, contains, Chain-unique}
use probabilistic_lua.Tab.Chain.Edit.{
  Chain-insert_after, insert_after, contains-insert_after, contains-inserted,
}
use probabilistic_lua.Tab.Find.Invariant.{IsHash, IsStored, next_of, key_at, hashkey-le}

module _ {V : Type 0} where
  -- `b` is `a` with the key `k` at `f`, which follows `n`.
  pub record Inserted (a b : ℕ → Node V) (n f : ℕ) (k : TKey) : Type 0 where
    pub key_f : (b f).key ≡ some k
    pub next_f : (b f).next ≡ (a n).next
    pub next_n : (b n).next ≡ some f
    pub key : (j : ℕ) → j ≢ f → (b j).key ≡ (a j).key
    pub val : (j : ℕ) → (b j).val ≡ (a j).val
    pub next : (j : ℕ) → j ≢ n → j ≢ f → (b j).next ≡ (a j).next

module _ {V : Type 0} (ops : KeyOps) (t : Tab V) (b : ℕ → Node V) (n f : ℕ) (h k : TKey)
    (wf : IsHash ops t) (ins : Inserted t.node b n f k) (below_n : n ≤ t.hmask)
    (below_f : f ≤ t.hmask) (key_n : key_at t n ≡ some h) (here : hashkey ops t h ≡ n)
    (free_f : key_at t f ≡ none) (hk : hashkey ops t k ≡ n) (good : IsStored ops k)
    (absent : (i : ℕ) → i ≤ t.hmask → key_at t i ≢ some k) where
  abbrev pub inserted : Tab V
  inserted = record t { node = b; freetop = f }

  n-ne-f : n ≢ f
  n-ne-f e = cc (key_n, free_f, ap (key_at t) e)

  abbrev IsOld : ℕ → Type 0
  IsOld x = (x ≤ t.hmask) × (x ≢ f)

  not_f : (x : ℕ) → x ≤ t.hmask → next_of t x ≢ some f
  not_f x hx e = let (_, (g, eg)) = wf.next_used x f hx e in cc (eg, free_f)

  closed : (x y : ℕ) → IsOld x → next_of t x ≡ some y → IsOld y
  closed x y (hx, _) e = ((wf.next_used x y hx e).0, λ s. not_f x hx (cc (e, s)))

  key_cases :
      (i : ℕ) (g : TKey)
      → (b i).key ≡ some g
      → ((i ≡ f) × (g ≡ k)) ⊎ ((i ≢ f) × (key_at t i ≡ some g))
  key_cases i g e = elim (eq-cases i f) [
    | inl same ↦ let ef : (b f).key ≡ some g = cc (e, same) in inl (same, cc (ef, ins.key_f))
    | inr differ ↦ inr (differ, cc (e, ins.key i differ))
  ]

  Chain-inserted :
      (p : Option ℕ) (xs : List ℕ)
      → ((x : ℕ) → p ≡ some x → IsOld x)
      → Chain (next_of t) p xs
      → Chain (next_of inserted) p (insert_after n f xs)
  Chain-inserted p xs start c =
      Chain-insert_after (next_of t) (next_of inserted) n f IsOld closed p xs ins.next_n ins.next_f
        (λ x ox not_n. ins.next x not_n ox.1) start c

  chain : (i : ℕ) → i ≤ t.hmask → (xs : List ℕ) × Chain (next_of inserted) (some i) xs
  chain i hi = elim (eq-cases i f) [
    | inl same ↦ let (xs, c) = wf.chain n below_n in after xs c same
    | inr differ ↦
        let (xs, c) = wf.chain i hi in
        (
          insert_after n f xs,
          Chain-inserted (some i) xs (λ x e. let s : i ≡ x = cc in (rw s at hi, rw s at differ)) c,
        )
  ]
    where
      after :
          (xs : List ℕ)
          → Chain (next_of t) (some n) xs
          → i ≡ f
          → (ys : List ℕ) × Chain (next_of inserted) (some i) ys
      after [] c same = cc
      after (x ∷ xs) c same =
          let s : n ≡ x = cc (c.0) in
          let c' : Chain (next_of t) (next_of t n) xs = rw s c.1 in
          let d = Chain-inserted (next_of t n) xs (λ y e. closed n y (below_n, n-ne-f) e) c' in
          let e : (b i).next ≡ next_of t n = rw same ins.next_f in
          (i ∷ insert_after n f xs, (refl, rw e d))

  anchor-IsOld : (i : ℕ) (g : TKey) → i ≤ t.hmask → key_at t i ≡ some g → IsOld (hashkey ops t g)
  anchor-IsOld i g hi e =
      let (a, ea, ha) = wf.home i g hi e in
      (
        hashkey-le ops t g wf.bits,
        λ s. let ef : key_at t f ≡ some a = rw s at ea in cc (ef, free_f),
      )

  from_anchor :
      (g : TKey) (xs ys : List ℕ)
      → IsOld (hashkey ops t g)
      → Chain (next_of inserted) (some (hashkey ops t g)) xs
      → Chain (next_of t) (some (hashkey ops t g)) ys
      → xs ≡ insert_after n f ys
  from_anchor g xs ys oa c d = Chain-unique (next_of inserted) _ _ xs (insert_after n f ys) refl c (
      Chain-inserted (some (hashkey ops t g)) ys
        (λ x e. let s : hashkey ops t g ≡ x = cc in rw s at oa) d)

  reach :
      (i : ℕ) (g : TKey) (xs : List ℕ)
      → i ≤ t.hmask
      → (b i).key ≡ some g
      → Chain (next_of inserted) (some (hashkey ops inserted g)) xs
      → contains xs i ≡ true
  unfolding hashkey
  reach i g xs hi e c = elim (key_cases i g e) [
    | inl (same, same_k) ↦
        let at_n : hashkey ops t g ≡ n = cc (same_k, hk) in
        let (ys, d) = wf.chain (hashkey ops t g) (hashkey-le ops t g wf.bits) in
        let has_n = wf.reach n h ys below_n key_n (rw (at_n, sym here) at d) in
        rw (from_anchor g xs ys (rw at_n (below_n, n-ne-f)) c d, same)
          (contains-inserted n f ys has_n)
    | inr (differ, e₁) ↦
        let (ys, d) = wf.chain (hashkey ops t g) (hashkey-le ops t g wf.bits) in
        rw (from_anchor g xs ys (anchor-IsOld i g hi e₁) c d)
          (contains-insert_after n f i ys (wf.reach i g ys hi e₁ d))
  ]

  next_cases :
      (i m : ℕ)
      → (b i).next ≡ some m
      → ((i ≡ n) × (m ≡ f))
        ⊎ (((i ≡ f) × (next_of t n ≡ some m)) ⊎ ((i ≢ n) × (i ≢ f) × (next_of t i ≡ some m)))
  next_cases i m e = elim (eq-cases i n) [
    | inl same ↦ let en : (b n).next ≡ some m = cc (e, same) in inl (same, cc (en, ins.next_n))
    | inr not_n ↦ elim (eq-cases i f) [
      | inl same ↦
          let ef : (b f).next ≡ some m = cc (e, same) in inr (inl (same, cc (ef, ins.next_f)))
      | inr differ ↦ inr (inr (not_n, differ, cc (e, ins.next i not_n differ)))
    ]
  ]

  -- The old node that has the successor which `i` has now, unless that is `f`.
  prev_old :
      (i m : ℕ)
      → i ≤ t.hmask
      → m ≢ f
      → (b i).next ≡ some m
      → (j : ℕ) × (j ≤ t.hmask)
        × (next_of t j ≡ some m)
        × (((i ≡ f) × (j ≡ n)) ⊎ ((i ≢ n) × (i ≡ j)))
  prev_old i m hi nf e = elim (next_cases i m e) [
    | inl (_, s) ↦ absurd (nf s)
    | inr (inl (s, e₁)) ↦ (n, below_n, e₁, inl (s, refl))
    | inr (inr (not_n, _, e₁)) ↦ (i, hi, e₁, inr (not_n, refl))
  ]

  inj : (i j m : ℕ) → i ≤ t.hmask → j ≤ t.hmask → (b i).next ≡ some m → (b j).next ≡ some m → i ≡ j
  inj i j m hi hj ei ej = elim (eq-cases m f) [
    | inl same ↦ at_f i hi (ei ∙ ap some same) ∙ sym (at_f j hj (ej ∙ ap some same))
    | inr nf ↦
        let (i₀, bi, ei₀, ci) = prev_old i m hi nf ei in
        let (j₀, bj, ej₀, cj) = prev_old j m hj nf ej in
        let same = wf.inj i₀ j₀ m bi bj ei₀ ej₀ in
        elim ci [
          | inl (i_f, i_n) ↦ elim cj [ inl (j_f, j_n) ↦ cc | inr (j_n, j_j) ↦ absurd (j_n cc) ]
          | inr (i_n, i_i) ↦ elim cj [ inl (j_f, j_n) ↦ absurd (i_n cc) | inr (j_n, j_j) ↦ cc ]
        ]
  ]
    where
      at_f : (i : ℕ) → i ≤ t.hmask → (b i).next ≡ some f → i ≡ n
      at_f i hi e = elim (next_cases i f e) [
        | inl (s, _) ↦ s
        | inr (inl (_, e₁)) ↦ absurd (not_f n below_n e₁)
        | inr (inr (_, _, e₁)) ↦ absurd (not_f i hi e₁)
      ]

  used : (m : ℕ) (g : TKey) → key_at t m ≡ some g → (b m).key ≡ some g
  used m g e = ins.key m (λ s. let ef : key_at t f ≡ some g = rw s at e in cc (ef, free_f)) ∙ e

  pub Inserted-IsHash : IsHash ops inserted
  unfolding hashkey
  Inserted-IsHash = record {
    bits = wf.bits;
    chain = chain;
    reach = reach;
    unique = λ i j g hi hj ei ej. elim (key_cases i g ei) [
      | inl (same, same_k) ↦ elim (key_cases j g ej) [
        | inl (same', _) ↦ cc (same, same')
        | inr (_, e₁) ↦ absurd (absent j hj (cc (e₁, same_k)))
      ]
      | inr (_, e₁) ↦ elim (key_cases j g ej) [
        | inl (_, same_k) ↦ absurd (absent i hi (cc (e₁, same_k)))
        | inr (_, e₂) ↦ wf.unique i j g hi hj e₁ e₂
      ]
    ];
    home = λ i g hi e. elim (key_cases i g e) [
      | inl (same, same_k) ↦
          let at_n : hashkey ops t g ≡ n = cc (same_k, hk) in
          (h, rw at_n (used n h key_n), here ∙ sym at_n)
      | inr (_, e₁) ↦ let (a, ea, ha) = wf.home i g hi e₁ in (a, used (hashkey ops t g) a ea, ha)
    ];
    inj = inj;
    next_used = λ i m hi e. elim (next_cases i m e) [
      | inl (_, s) ↦ (rw s below_f, (k, rw s ins.key_f))
      | inr (inl (_, e₁)) ↦
          let (hm, (g, eg)) = wf.next_used n m below_n e₁ in (hm, (g, used m g eg))
      | inr (inr (_, _, e₁)) ↦ let (hm, (g, eg)) = wf.next_used i m hi e₁ in (hm, (g, used m g eg))
    ];
    free = λ i hi e. elim (eq-cases i f) [
      | inl same ↦ let ef : (b f).key ≡ none = cc (same, e) in cc (ef, ins.key_f)
      | inr differ ↦
          let old : key_at t i ≡ none = sym (ins.key i differ) ∙ e in
          let (no_next, no_val) = wf.free i hi old in
          let not_n : i ≢ n = λ s. cc (ap (key_at t) s, old, key_n) in
          (ins.next i not_n differ ∙ no_next, ins.val i ∙ no_val)
    ];
    top = omega arith;
    stored = λ i g hi e. elim (key_cases i g e) [
      | inl (_, same_k) ↦ rw same_k good
      | inr (_, e₁) ↦ wf.stored i g hi e₁
    ];
    nil_node = λ z. absurd (n-ne-f (omega arith));
  }
