-- ===== src/Tab/NewKey/Loops.antt =====
-- The loops of lj_tab_newkey: the free node, the predecessor, the chain that is looked through again.
use probabilistic_lua.Common.{
  ℕ, zero, suc, ◌≤◌, ◌<◌, List, [], ◌∷◌, Bool, true, false, not, ◌&&◌, Option, none, some,
  Bool-cases, eqb→eq, eq-cases, ne→eqb_false, ◌≡◌, ◌≢◌, refl, sym, ap, ◌∙◌, inl, inr, ◌==◌, arith,
  length, All,
}
use probabilistic_lua.Common.Result.{ok}
use probabilistic_lua.Tab.Hash.{hashkey}
use probabilistic_lua.Tab.Types.{TKey, boolean, int, num, str, obj, KeyOps, Node, Tab, is_none}
use probabilistic_lua.Tab.Chain.{Chain, contains}
use probabilistic_lua.Tab.NewKey.{find_free, find_pred, rechain, is_resurrected}

is_none→none : {A : Type 0} (o : Option A) → is_none o ≡ true → o ≡ none
is_none→none none h = refl
is_none→none (some a) h = cc

pub All-contains : (m i : ℕ) (xs : List ℕ) → All (λ j. j < m) xs → contains xs i ≡ true → i < m
All-contains m i [] a h = cc
All-contains m i (x ∷ xs) a h = elim (Bool-cases (x == i)) [
  | inl e ↦ let same = eqb→eq x i e in omega arith
  | inr e ↦ All-contains m i xs a.1 (rw e at h)
]

module _ {V : Type 0} where
  pub find_free_lem :
      (node : ℕ → Node V) (top f : ℕ)
      → find_free node top ≡ some f
      → (f < top) × ((node f).key ≡ none)
  unfolding find_free
  find_free_lem node zero f h = cc
  find_free_lem node (suc i) f h = elim (Bool-cases (is_none (node i).key)) [
    | inl e ↦
        let same : i ≡ f = cc (rw e at h) in
        (omega arith, ap (λ j. (node j).key) (sym same) ∙ is_none→none (node i).key e)
    | inr e ↦ let (lt, free) = find_free_lem node i f (rw e at h) in (omega arith, free)
  ]

  -- From the anchor of the key at `n`, the loop ends at the node before `n`.
  pub find_pred_lem :
      (fuel : ℕ) (node : ℕ → Node V) (n c : ℕ) (xs : List ℕ)
      → Chain (λ j. (node j).next) (some c) xs
      → contains xs n ≡ true
      → c ≢ n
      → length xs ≤ fuel
      → (p : ℕ) × (find_pred fuel node n c ≡ ok p)
        × (contains xs p ≡ true)
        × ((node p).next ≡ some n)
  unfolding find_pred
  find_pred_lem fuel node n c [] ch h ne le = cc
  find_pred_lem zero node n c (x ∷ xs) ch h ne le = absurd (omega arith)
  find_pred_lem (suc fuel) node n c (x ∷ []) ch h ne le =
      let same : c ≡ x = cc (ch.0) in absurd (ne (ground (arith, same)))
  find_pred_lem (suc fuel) node n c (x ∷ y ∷ ys) ch h ne le =
      let same : c ≡ x = cc (ch.0) in
      let to_y : (node c).next ≡ some y = cc (same, ch.1.0) in
      let differ : (x == n) ≡ false = ne→eqb_false x n (λ e. ne (same ∙ e)) in
      elim (eq-cases y n) [
        | inl e ↦
            let test : (y == n) ≡ true = ground arith in
            (c, rw (to_y, find_pred, test) refl, ground (arith, same), to_y ∙ ap some e)
        | inr other ↦
            let (p, r, has, q) =
              find_pred_lem fuel node n y (y ∷ ys) (refl, ch.1.1) (rw differ at h) other
                (omega arith) in
            (p, rw (to_y, find_pred, ne→eqb_false y n other) r, ground arith, q)
      ]

  pub rechain_keeps :
      (ops : KeyOps) (fuel : ℕ) (t : Tab V) (node : ℕ → Node V) (n f : ℕ) (xs : List ℕ)
      → Chain (λ j. (node j).next) (some f) xs
      → All (λ j. is_resurrected ops t (node j) n ≡ false) xs
      → length xs ≤ fuel
      → rechain ops fuel t node n f ≡ ok node
  unfolding rechain
  rechain_keeps ops fuel t node n f [] c a h = cc
  rechain_keeps ops zero t node n f (x ∷ xs) c a h = absurd (omega arith)
  rechain_keeps ops (suc fuel) t node n f (x ∷ []) c a h =
      let same : f ≡ x = cc (c.0) in rw (same, c.1, rechain) refl
  rechain_keeps ops (suc fuel) t node n f (x ∷ y ∷ ys) c a h =
      let same : f ≡ x = cc (c.0) in
      rw (same, c.1.0, rechain, a.1.0)
        (rechain_keeps ops fuel t node n y (y ∷ ys) (refl, c.1.1) a.1 (omega arith))

and_false : (b : Bool) → (b && false) ≡ false
and_false true = refl
and_false false = refl

module _ {V : Type 0} (ops : KeyOps) (t : Tab V) (nn : Node V) (n : ℕ) where
  -- No node without a value, and none with another anchor, is taken for resurrected.
  pub is_resurrected-value : nn.val ≡ none → is_resurrected ops t nn n ≡ false
  unfolding is_resurrected
  is_resurrected-value e = go nn.key refl
    where
      go : (o : Option TKey) → nn.key ≡ o → is_resurrected ops t nn n ≡ false
      go none h = rw h refl
      go (some (str s)) h = rw (h, e) refl
      go (some (num lo hi)) h = rw h refl
      go (some (int k)) h = rw h refl
      go (some (boolean b)) h = rw h refl
      go (some (obj g a)) h = rw h refl

  pub is_resurrected-key :
      ((k : TKey) → nn.key ≡ some k → hashkey ops t k ≢ n) → is_resurrected ops t nn n ≡ false
  unfolding is_resurrected
  is_resurrected-key other = go nn.key refl
    where
      go : (o : Option TKey) → nn.key ≡ o → is_resurrected ops t nn n ≡ false
      go none e = rw e refl
      go (some (str s)) e =
          rw (e, ne→eqb_false (hashkey ops t (str s)) n (other (str s) e))
            (and_false (not (is_none nn.val)))
      go (some (num lo hi)) e = rw e refl
      go (some (int k)) e = rw e refl
      go (some (boolean b)) e = rw e refl
      go (some (obj g a)) e = rw e refl

pub All-imp :
    (m : ℕ) (P : ℕ → Type 0) (xs : List ℕ)
    → ((j : ℕ) → j < m → P j)
    → All (λ j. j < m) xs
    → All P xs
All-imp m P [] h a = tt
All-imp m P (x ∷ xs) h a = (h x a.0, All-imp m P xs h a.1)
