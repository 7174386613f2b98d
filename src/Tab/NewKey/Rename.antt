-- ===== src/Tab/NewKey/Rename.antt =====
-- The colliding node moved to a free node.
use probabilistic_lua.Common.{
  ℕ, ◌≤◌, List, [], ◌∷◌, map, true, none, some, Option-cases, eq-cases, ◌≡◌, ◌≢◌, sym, ap, ◌∙◌, inl,
  inr, ◌⊎◌, arith,
}
use probabilistic_lua.Tab.Types.{TKey, KeyOps, Node, Tab}
use probabilistic_lua.Tab.Hash.{hashkey}
use probabilistic_lua.Tab.Chain.{Chain, contains, Chain-unique}
use probabilistic_lua.Tab.Chain.Edit.{
  Chain-rename, rename, rename_option, contains-rename, rename_same, rename_other,
  rename_option_other,
}
use probabilistic_lua.Tab.Find.Invariant.{IsHash, next_of, key_at, val_at, hashkey-le, no_loop}

module _ {V : Type 0} where
  -- `b` is `a` with the node `n` moved to `f`, and `n` cleared; `p` is the node before `n`.
  pub record Moved (a b : ℕ → Node V) (n f p : ℕ) : Type 0 where
    pub key_n : (b n).key ≡ none
    pub val_n : (b n).val ≡ none
    pub next_n : (b n).next ≡ none
    pub key_f : (b f).key ≡ (a n).key
    pub val_f : (b f).val ≡ (a n).val
    pub next_f : (b f).next ≡ (a n).next
    pub next_p : (b p).next ≡ some f
    pub key : (j : ℕ) → j ≢ n → j ≢ f → (b j).key ≡ (a j).key
    pub val : (j : ℕ) → j ≢ n → j ≢ f → (b j).val ≡ (a j).val
    pub next : (j : ℕ) → j ≢ n → j ≢ f → j ≢ p → (b j).next ≡ (a j).next

module _ {V : Type 0} (ops : KeyOps) (t : Tab V) (b : ℕ → Node V) (n f p : ℕ) (h : TKey)
    (wf : IsHash ops t) (mv : Moved t.node b n f p) (below_n : n ≤ t.hmask) (below_f : f ≤ t.hmask)
    (below_p : p ≤ t.hmask) (key_n : key_at t n ≡ some h) (away : hashkey ops t h ≢ n)
    (free_f : key_at t f ≡ none) (pred : next_of t p ≡ some n) where
  abbrev pub moved : Tab V
  moved = record t { node = b; freetop = f }

  pub n-ne-f : n ≢ f
  n-ne-f e = cc (key_n, free_f, ap (key_at t) e)

  -- A node of interest: in the table, and not the free one.
  abbrev pub IsOld : ℕ → Type 0
  IsOld x = (x ≤ t.hmask) × (x ≢ f)

  not_f : (x : ℕ) → x ≤ t.hmask → next_of t x ≢ some f
  not_f x hx e = let (_, (k, ek)) = wf.next_used x f hx e in cc (ek, free_f)

  closed : (x y : ℕ) → IsOld x → next_of t x ≡ some y → IsOld y
  closed x y (hx, _) e = ((wf.next_used x y hx e).0, λ s. not_f x hx (cc (e, s)))

  next_renamed : (x : ℕ) → IsOld x → (b (rename n f x)).next ≡ rename_option n f (next_of t x)
  next_renamed x (hx, nf) = elim (eq-cases x n) [
    | inl same ↦
        let e : (b (rename n f x)).next ≡ next_of t n = rw (same, rename_same n f) mv.next_f in
        let e₁ : next_of t x ≡ next_of t n = ap (next_of t) same in
        rw (e, e₁) (sym (rename_option_other n f (next_of t n) (no_loop ops t wf n below_n)))
    | inr not_n ↦ elim (eq-cases x p) [
      | inl same ↦
          let e : (b (rename n f x)).next ≡ some f =
            rw (rename_other n f x not_n, same) mv.next_p in
          let e₁ : next_of t x ≡ some n = ap (next_of t) same ∙ pred in
          rw (e, e₁) (ap some (sym (rename_same n f)))
      | inr not_p ↦
          rw (rename_other n f x not_n, mv.next x not_n nf not_p)
            (sym
              (rename_option_other n f (next_of t x) (λ e. not_p (wf.inj x p n hx below_p e pred))))
    ]
  ]

  -- Every node but `n` is the renamed one of an old node.
  pub renamed :
      (i : ℕ)
      → i ≤ t.hmask
      → (i ≡ n)
        ⊎ ((j : ℕ) × IsOld j
            × (rename n f j ≡ i)
            × ((b i).key ≡ key_at t j)
            × ((b i).val ≡ val_at t j))
  renamed i hi = elim (eq-cases i n) [
    | inl same ↦ inl same
    | inr not_n ↦ elim (eq-cases i f) [
      | inl same ↦ inr (
        n,
        (below_n, n-ne-f),
        rename_same n f ∙ sym same,
        ap (λ j. (b j).key) same ∙ mv.key_f,
        ap (λ j. (b j).val) same ∙ mv.val_f,
      )
      | inr not_f ↦
          inr (i, (hi, not_f), rename_other n f i not_n, mv.key i not_n not_f, mv.val i not_n not_f)
    ]
  ]

  pub key_renamed :
      (i : ℕ) (k : TKey)
      → i ≤ t.hmask
      → (b i).key ≡ some k
      → (j : ℕ) × IsOld j × (rename n f j ≡ i) × (key_at t j ≡ some k)
  key_renamed i k hi e = elim (renamed i hi) [
    | inl same ↦ let en : (b n).key ≡ some k = cc (e, same) in cc (en, mv.key_n)
    | inr (j, oj, r, ek, ev) ↦ (j, oj, r, cc (e, ek))
  ]

  next_cases :
      (i m : ℕ)
      → i ≤ t.hmask
      → (b i).next ≡ some m
      → (j l : ℕ) × IsOld j
        × IsOld l
        × (rename n f j ≡ i)
        × (rename n f l ≡ m)
        × (next_of t j ≡ some l)
  next_cases i m hi e = elim (renamed i hi) [
    | inl same ↦ let en : (b n).next ≡ some m = cc (e, same) in cc (en, mv.next_n)
    | inr (j, oj, r, ek, ev) ↦
        let e₁ : rename_option n f (next_of t j) ≡ some m = cc (e, r, next_renamed j oj) in
        elim (Option-cases (next_of t j)) [
          | inl el ↦ let e₂ : none ≡ some m = sym (ap (rename_option n f) el) ∙ e₁ in cc
          | inr (l, el) ↦
              let e₂ : some (rename n f l) ≡ some m = sym (ap (rename_option n f) el) ∙ e₁ in
              (j, l, oj, closed j l oj el, r, cc, el)
        ]
  ]

  -- Renaming is injective on the old nodes.
  rename_inj : (i j : ℕ) → IsOld i → IsOld j → rename n f i ≡ rename n f j → i ≡ j
  rename_inj i j oi oj e = elim (eq-cases i n) [
    | inl ei ↦ elim (eq-cases j n) [
      | inl ej ↦ cc (ei, ej)
      | inr nj ↦ absurd (oj.1 (cc (e, ap (rename n f) ei, rename_same n f, rename_other n f j nj)))
    ]
    | inr ni ↦ elim (eq-cases j n) [
      | inl ej ↦ absurd (oi.1 (cc (e, ap (rename n f) ej, rename_same n f, rename_other n f i ni)))
      | inr nj ↦ cc (e, rename_other n f i ni, rename_other n f j nj)
    ]
  ]

  -- The anchor of a key is another node, which does not move.
  anchor :
      (i : ℕ) (k : TKey)
      → i ≤ t.hmask
      → key_at t i ≡ some k
      → IsOld (hashkey ops t k) × (hashkey ops t k ≢ n)
  anchor i k hi e =
      let (g, eg, hg) = wf.home i k hi e in
      (
        (
          hashkey-le ops t k wf.bits,
          λ s. let ef : key_at t f ≡ some g = rw s at eg in cc (ef, free_f),
        ),
        λ s.
            let en : key_at t n ≡ some g = rw s at eg in
            let same : g ≡ h = cc (en, key_n) in away (ap (hashkey ops t) (sym same) ∙ hg ∙ s),
      )

  Chain-renamed :
      (i : ℕ) (xs : List ℕ)
      → IsOld i
      → Chain (next_of t) (some i) xs
      → Chain (next_of moved) (some (rename n f i)) (map (rename n f) xs)
  Chain-renamed i xs oi c =
      Chain-rename (next_of t) (next_of moved) n f IsOld closed (some i) xs next_renamed
        (λ x e. let same : i ≡ x = cc in rw same at oi) c

  chain : (i : ℕ) → i ≤ t.hmask → (xs : List ℕ) × Chain (next_of moved) (some i) xs
  chain i hi = elim (renamed i hi) [
    | inl same ↦ (n ∷ [], (ap some same, mv.next_n))
    | inr (j, oj, r, _, _) ↦
        let (xs, c) = wf.chain j oj.0 in
        let d = Chain-renamed j xs oj c in (map (rename n f) xs, rw r at d)
  ]

  reach :
      (i : ℕ) (k : TKey) (xs : List ℕ)
      → i ≤ t.hmask
      → (b i).key ≡ some k
      → Chain (next_of moved) (some (hashkey ops moved k)) xs
      → contains xs i ≡ true
  unfolding hashkey
  reach i k xs hi e c =
      let (j, oj, r, ej) = key_renamed i k hi e in
      let (oa, na) = anchor j k oj.0 ej in
      let (ys, d) = wf.chain (hashkey ops t k) oa.0 in
      let d' = Chain-renamed (hashkey ops t k) ys oa d in
      let start : some (hashkey ops t k) ≡ some (rename n f (hashkey ops t k)) =
        ap some (sym (rename_other n f (hashkey ops t k) na)) in
      let same = Chain-unique (next_of moved) _ _ xs (map (rename n f) ys) start c d' in
      rw (same, sym r) (contains-rename n f j ys (wf.reach j k ys oj.0 ej d))

  home :
      (i : ℕ) (k : TKey)
      → i ≤ t.hmask
      → (b i).key ≡ some k
      → (g : TKey) × ((b (hashkey ops moved k)).key ≡ some g)
        × (hashkey ops moved g ≡ hashkey ops moved k)
  unfolding hashkey
  home i k hi e =
      let (j, oj, r, ej) = key_renamed i k hi e in
      let (oa, na) = anchor j k oj.0 ej in
      let (g, eg, hg) = wf.home j k oj.0 ej in (g, mv.key (hashkey ops t k) na oa.1 ∙ eg, hg)

  next_used :
      (i m : ℕ)
      → i ≤ t.hmask
      → (b i).next ≡ some m
      → (m ≤ t.hmask) × ((k : TKey) × ((b m).key ≡ some k))
  next_used i m hi e =
      let (j, l, oj, ol, r, s, el) = next_cases i m hi e in
      let (_, (k, ek)) = wf.next_used j l oj.0 el in
      elim (eq-cases l n) [
        | inl same ↦
            let at_f : f ≡ m = cc (s, ap (rename n f) same, rename_same n f) in
            (
              rw at_f at below_f,
              (k, cc (mv.key_f, ap (key_at t) same, ek, ap (λ x. (b x).key) at_f)),
            )
        | inr other ↦
            let at_l : l ≡ m = cc (s, rename_other n f l other) in
            (rw at_l at ol.0, (k, cc (mv.key l other ol.1, ek, ap (λ x. (b x).key) at_l)))
      ]

  pub Moved-IsHash : IsHash ops moved
  unfolding hashkey
  Moved-IsHash = record {
    bits = wf.bits;
    chain = chain;
    reach = reach;
    unique = λ i j k hi hj ei ej.
        let (i₀, oi, ri, ei₀) = key_renamed i k hi ei in
        let (j₀, oj, rj, ej₀) = key_renamed j k hj ej in
        cc (ri, rj, ap (rename n f) (wf.unique i₀ j₀ k oi.0 oj.0 ei₀ ej₀));
    home = home;
    inj = λ i j m hi hj ei ej.
        let (i₀, l, oi, ol, ri, rl, ei₀) = next_cases i m hi ei in
        let (j₀, l', oj, ol', rj, rl', ej₀) = next_cases j m hj ej in
        let same : l ≡ l' = rename_inj l l' ol ol' (rl ∙ sym rl') in
        cc (ri, rj, ap (rename n f) (wf.inj i₀ j₀ l oi.0 oj.0 ei₀ (ej₀ ∙ ap some (sym same))));
    next_used = next_used;
    free = λ i hi e. elim (eq-cases i n) [
      | inl same ↦ (ap (λ x. (b x).next) same ∙ mv.next_n, ap (λ x. (b x).val) same ∙ mv.val_n)
      | inr not_n ↦ elim (eq-cases i f) [
        | inl same ↦ let ef : (b f).key ≡ none = cc (same, e) in cc (ef, mv.key_f, key_n)
        | inr not_f ↦
            let (no_next, no_val) = wf.free i hi (sym (mv.key i not_n not_f) ∙ e) in
            let not_p : i ≢ p = λ s. cc (ap (next_of t) s, no_next, pred) in
            (mv.next i not_n not_f not_p ∙ no_next, mv.val i not_n not_f ∙ no_val)
      ]
    ];
    top = omega arith;
    stored = λ i k hi e. let (j, oj, r, ej) = key_renamed i k hi e in wf.stored j k oj.0 ej;
    nil_node = λ z. absurd (n-ne-f (omega arith));
  }
