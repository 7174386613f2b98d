-- ===== src/Tab/NewKey/Cases.antt =====
-- The three ways in which lj_tab_newkey gives a key a node.
use probabilistic_lua.Common.{
  ℕ, bit_and, suc, ◌≤◌, ◌<◌, false, none, some, eq-cases, ne→eqb_false, ◌≡◌, ◌≢◌, refl, sym, ap,
  ◌∙◌, inl, inr, arith,
}
use probabilistic_lua.Common.Result.{ok}
use probabilistic_lua.Tab.Types.{TKey, boolean, int, num, str, obj, KeyOps, Node, Tab}
use probabilistic_lua.Tab.Hash.{hash_of, hashkey}
use probabilistic_lua.Tab.Chain.{Chain-IsDistinct, length-IsDistinct}
use probabilistic_lua.Tab.Chain.Edit.{Chain-ext}
use probabilistic_lua.Tab.Find.Invariant.{
  IsHash, IsStored, next_of, key_at, val_at, hashkey-le, Chain-below, no_loop,
}
use probabilistic_lua.Tab.NewKey.{plain_key, put_key, move_node, link_node, rechain, is_resurrected}
use probabilistic_lua.Tab.NewKey.Place.{Placed-IsHash}
use probabilistic_lua.Tab.NewKey.Rename.{Moved, key_renamed, Moved-IsHash}
use probabilistic_lua.Tab.NewKey.Insert.{Inserted-IsHash}
use probabilistic_lua.Tab.NewKey.Entries.{
  IsEntered, SameEntries-trans, Placed-SameEntries, Moved-SameEntries, Inserted-SameEntries,
}
use probabilistic_lua.Tab.NewKey.Loops.{
  rechain_keeps, is_resurrected-value, is_resurrected-key, All-imp,
}
use probabilistic_lua.Tab.NewKey.Stores.{
  put_key-Placed, link_node-Inserted, move_node-Moved, move_node-rest, move_node-left,
  put_key-cleared, cleared,
}

pub hash_of-plain_key : (ops : KeyOps) (k : TKey) → hash_of ops (plain_key k) ≡ hash_of ops k
unfolding plain_key hash_of
hash_of-plain_key ops (boolean x) = refl
hash_of-plain_key ops (int x) = refl
hash_of-plain_key ops (str x) = refl
hash_of-plain_key ops (obj g x) = refl
hash_of-plain_key ops (num lo hi) = elim (eq-cases lo 0) [
  | inl e ↦ elim (eq-cases hi 0x80000000) [
    | inl e₁ ↦ rw (e, e₁) refl
    | inr ne ↦ rw (e, ne→eqb_false hi 0x80000000 ne) refl
  ]
  | inr ne ↦ rw (ne→eqb_false lo 0 ne) refl
]

module _ {V : Type 0} (ops : KeyOps) (t : Tab V) (key : TKey) (wf : IsHash ops t)
    (good : IsStored ops (plain_key key))
    (absent : (i : ℕ) → i ≤ t.hmask → key_at t i ≢ some (plain_key key)) where
  pub anchor-plain_key : hashkey ops t (plain_key key) ≡ hashkey ops t key
  unfolding hashkey
  anchor-plain_key = ap (λ x. bit_and x t.hmask) (hash_of-plain_key ops key)

  pub place-IsEntered :
      t.hmask ≢ 0
      → val_at t (hashkey ops t key) ≡ none
      → IsEntered ops t
          (record t { node = put_key t.node (hashkey ops t key) key })
          (hashkey ops t key)
          (plain_key key)
  place-IsEntered pos unused =
      let n = hashkey ops t key in
      let pl = put_key-Placed t.node n key in
      let below = hashkey-le ops t key wf.bits in
      record {
        hash =
            Placed-IsHash ops t (put_key t.node n key) n t.freetop (plain_key key) wf pl
              anchor-plain_key pos below unused good absent wf.top;
        array = refl;
        mask = refl;
        below = below;
        key = pl.key_n;
        val = pl.val n ∙ unused;
        same = Placed-SameEntries t (put_key t.node n key) n t.freetop (plain_key key) pl unused;
      }

  -- The branch for a taken main position.
  module _ (f : ℕ) (h : TKey) (below_f : f ≤ t.hmask) (free_f : key_at t f ≡ none)
      (key_n : key_at t (hashkey ops t key) ≡ some h) where
    abbrev n : ℕ
    n = hashkey ops t key

    below_n : n ≤ t.hmask
    below_n = hashkey-le ops t key wf.bits

    nf : n ≢ f
    nf e = cc (key_n, free_f, ap (key_at t) e)

    pub linked-IsEntered :
        hashkey ops t h ≡ n
        → IsEntered ops t
            (record t { node = put_key (link_node t.node n f) f key; freetop = f })
            f
            (plain_key key)
    linked-IsEntered here =
        let ins = link_node-Inserted t.node n f nf key in
        let b = put_key (link_node t.node n f) f key in
        let below = hashkey-le ops t key wf.bits in
        let unused = (wf.free f below_f free_f).1 in
        record {
          hash =
              Inserted-IsHash ops t b n f h (plain_key key) wf ins below below_f key_n here free_f
                anchor-plain_key good absent;
          array = refl;
          mask = refl;
          below = below_f;
          key = ins.key_f;
          val = ins.val f ∙ unused;
          same = Inserted-SameEntries t b n f (plain_key key) ins unused;
        }

    module _ (p : ℕ) (below_p : p ≤ t.hmask) (pred : next_of t p ≡ some n)
        (away : hashkey ops t h ≢ n) where
      pf : p ≢ f
      pf e = cc ((wf.free f below_f free_f).0, pred, ap (next_of t) e)

      pn : p ≢ n
      pn e = no_loop ops t wf n below_n (ap (next_of t) (sym e) ∙ pred)

      abbrev node₁ : ℕ → Node V
      node₁ = move_node t.node n f p

      abbrev tidy : Tab V
      tidy = record t { node = cleared t.node n f nf p; freetop = f }

      mv : Moved t.node (cleared t.node n f nf p) n f p
      mv = move_node-Moved t.node n f nf p pn pf

      tidy-IsHash : IsHash ops tidy
      tidy-IsHash =
          Moved-IsHash ops t (cleared t.node n f nf p) n f p h wf mv below_n below_f below_p key_n
            away free_f pred

      -- The loop that looks for strings to rechain takes none.
      not_resurrected : (j : ℕ) → j < suc t.hmask → is_resurrected ops t (node₁ j) n ≡ false
      unfolding hashkey
      not_resurrected j hj = elim (eq-cases j n) [
        | inl e ↦
            let no_val = (move_node-left t.node n f nf p pn pf).0 in
            is_resurrected-value ops t (node₁ j) n (ap (λ i. (node₁ i).val) e ∙ no_val)
        | inr ne ↦ is_resurrected-key ops t (node₁ j) n (λ k ek at_n.
            let ek₁ : key_at tidy j ≡ some k =
              ap (λ x. x.key) (move_node-rest t.node n f nf p pn pf j ne) ∙ ek in
            let (g, eg, _) = tidy-IsHash.home j k (omega arith) ek₁ in
            let en : key_at tidy n ≡ some g = ap (key_at tidy) (sym at_n) ∙ eg in cc (en, mv.key_n))
      ]

      same_next : (j : ℕ) → (node₁ j).next ≡ next_of tidy j
      same_next j = elim (eq-cases j n) [
        | inl e ↦
            ap (λ i. (node₁ i).next) e
            ∙ (move_node-left t.node n f nf p pn pf).1
            ∙ sym (ap (next_of tidy) e ∙ mv.next_n)
        | inr ne ↦ sym (ap (λ x. x.next) (move_node-rest t.node n f nf p pn pf j ne))
      ]

      pub rechained : rechain ops (suc t.hmask) t node₁ n f ≡ ok node₁
      rechained =
          let (xs, c) = tidy-IsHash.chain f below_f in
          let v = Chain-below ops tidy tidy-IsHash f xs below_f c in
          let short =
            length-IsDistinct (suc t.hmask) xs (Chain-IsDistinct (next_of tidy) (some f) xs c) v in
          rechain_keeps ops (suc t.hmask) t node₁ n f xs
            (Chain-ext (next_of tidy) (λ j. (node₁ j).next) (some f) xs same_next c)
            (All-imp (suc t.hmask) _ xs not_resurrected v) short

      pub moved-IsEntered :
          IsEntered ops t (record t { node = put_key node₁ n key; freetop = f }) n (plain_key key)
      unfolding hashkey
      moved-IsEntered =
          let b = put_key node₁ n key in
          let pl = put_key-cleared t.node n f nf p pn pf key in
          let still_absent : (i : ℕ) → i ≤ t.hmask → key_at tidy i ≢ some (plain_key key) =
            λ i hi e.
              let (j, oj, _, ej) =
                key_renamed ops t (cleared t.node n f nf p) n f p h wf mv below_n below_f below_p
                  key_n away free_f pred i (plain_key key) hi e in
              absent j oj.0 ej in
          record {
            hash =
                Placed-IsHash ops tidy b n f (plain_key key) tidy-IsHash pl anchor-plain_key
                  (λ z. nf (omega (arith, below_n, z))) below_n mv.val_n good still_absent
                  (omega arith);
            array = refl;
            mask = refl;
            below = below_n;
            key = pl.key_n;
            val = pl.val n ∙ mv.val_n;
            same =
                SameEntries-trans t tidy (record t { node = b; freetop = f })
                  (Moved-SameEntries t (cleared t.node n f nf p) n f p mv below_n below_f nf free_f)
                  (Placed-SameEntries tidy b n f (plain_key key) pl mv.val_n);
          }
