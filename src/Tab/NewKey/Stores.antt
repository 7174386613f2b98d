-- ===== src/Tab/NewKey/Stores.antt =====
-- What the stores of lj_tab_newkey do to the node vector.
use probabilistic_lua.Common.{
  ℕ, true, Option, none, some, eq-cases, ne→eqb_false, ◌≡◌, ◌≢◌, refl, sym, ap, ◌∙◌, inl, inr, ◌==◌,
  arith,
}
use probabilistic_lua.Tab.Types.{TKey, Node, empty, update}
use probabilistic_lua.Tab.NewKey.{plain_key, put_key, set_next, move_node, link_node}
use probabilistic_lua.Tab.NewKey.Place.{Placed}
use probabilistic_lua.Tab.NewKey.Rename.{Moved}
use probabilistic_lua.Tab.NewKey.Insert.{Inserted}

update_same : {A : Type 0} (a : ℕ → A) (i j : ℕ) (x : A) → j ≡ i → update a i x j ≡ x
update_same a i j x e = let test : (i == j) ≡ true = ground (arith, e) in rw test refl

update_other : {A : Type 0} (a : ℕ → A) (i j : ℕ) (x : A) → j ≢ i → update a i x j ≡ a j
update_other a i j x ne = rw (ne→eqb_false i j (λ e. ne (sym e))) refl

module _ {V : Type 0} (a : ℕ → Node V) where
  pub put_key-Placed : (n : ℕ) (k : TKey) → Placed a (put_key a n k) n (plain_key k)
  put_key-Placed n k =
      let new = record (a n) { key = some (plain_key k) } in
      let same : (j : ℕ) → j ≡ n → put_key a n k j ≡ new = λ j e. update_same a n j new e in
      let other : (j : ℕ) → j ≢ n → put_key a n k j ≡ a j = λ j ne. update_other a n j new ne in
      record {
        key_n = ap (λ x. x.key) (same n refl);
        key = λ j ne. ap (λ x. x.key) (other j ne);
        val = λ j. elim (eq-cases j n) [
          | inl e ↦ ap (λ x. x.val) (same j e) ∙ ap (λ i. (a i).val) (sym e)
          | inr ne ↦ ap (λ x. x.val) (other j ne)
        ];
        next = λ j. elim (eq-cases j n) [
          | inl e ↦ ap (λ x. x.next) (same j e) ∙ ap (λ i. (a i).next) (sym e)
          | inr ne ↦ ap (λ x. x.next) (other j ne)
        ];
      }

  set_next_same :
      (b : ℕ → Node V) (i : ℕ) (p : Option ℕ) → set_next b i p i ≡ record (b i) { next = p }
  set_next_same b i p = update_same b i i _ refl

  set_next_other : (b : ℕ → Node V) (i j : ℕ) (p : Option ℕ) → j ≢ i → set_next b i p j ≡ b j
  set_next_other b i j p ne = update_other b i j _ ne

  module _ (n f : ℕ) (nf : n ≢ f) where
    pub link_node-Inserted :
        (k : TKey) → Inserted a (put_key (link_node a n f) f k) n f (plain_key k)
    unfolding link_node
    link_node-Inserted k =
        let b₁ = set_next a f (a n).next in
        let b₂ = set_next b₁ n (some f) in
        let new = record (b₂ f) { key = some (plain_key k) } in
        let b_f = update_same b₂ f f new refl in
        let b_other : (j : ℕ) → j ≢ f → put_key b₂ f k j ≡ b₂ j =
          λ j ne. update_other b₂ f j new ne in
        let f_next : b₂ f ≡ record (a f) { next = (a n).next } =
          set_next_other b₁ n f (some f) (λ e. nf (sym e)) ∙ set_next_same a f (a n).next in
        let n_next : b₂ n ≡ record (b₁ n) { next = some f } = set_next_same b₁ n (some f) in
        let kept : b₁ n ≡ a n = set_next_other a f n (a n).next nf in
        let rest : (j : ℕ) → j ≢ n → j ≢ f → b₂ j ≡ a j =
          λ j n₁ f₁. set_next_other b₁ n j (some f) n₁ ∙ set_next_other a f j (a n).next f₁ in
        record {
          key_f = ap (λ x. x.key) b_f;
          next_f = ap (λ x. x.next) b_f ∙ ap (λ x. x.next) f_next;
          next_n = ap (λ x. x.next) (b_other n nf ∙ n_next);
          key = λ j f₁. elim (eq-cases j n) [
            | inl e ↦
                ap (λ x. x.key) (b_other j f₁)
                ∙ ap (λ i. (b₂ i).key) e
                ∙ ap (λ x. x.key) n_next
                ∙ ap (λ x. x.key) kept
                ∙ ap (λ i. (a i).key) (sym e)
            | inr n₁ ↦ ap (λ x. x.key) (b_other j f₁ ∙ rest j n₁ f₁)
          ];
          val = λ j. elim (eq-cases j f) [
            | inl e ↦
                ap (λ i. (put_key b₂ f k i).val) e
                ∙ ap (λ x. x.val) b_f
                ∙ ap (λ x. x.val) f_next
                ∙ ap (λ i. (a i).val) (sym e)
            | inr f₁ ↦ elim (eq-cases j n) [
              | inl e ↦
                  ap (λ x. x.val) (b_other j f₁)
                  ∙ ap (λ i. (b₂ i).val) e
                  ∙ ap (λ x. x.val) n_next
                  ∙ ap (λ x. x.val) kept
                  ∙ ap (λ i. (a i).val) (sym e)
              | inr n₁ ↦ ap (λ x. x.val) (b_other j f₁ ∙ rest j n₁ f₁)
            ]
          ];
          next = λ j n₁ f₁. ap (λ x. x.next) (b_other j f₁ ∙ rest j n₁ f₁);
        }

    -- The node vector after the move, with `n` cleared.
    abbrev pub cleared : ℕ → ℕ → Node V
    cleared p = update (move_node a n f p) n empty

    module _ (p : ℕ) (pn : p ≢ n) (pf : p ≢ f) where
      pub move_node-rest : (j : ℕ) → j ≢ n → cleared p j ≡ move_node a n f p j
      move_node-rest j ne = update_other (move_node a n f p) n j empty ne

      pub move_node-left : ((move_node a n f p n).val ≡ none) × ((move_node a n f p n).next ≡ none)
      unfolding move_node
      move_node-left =
          let b₂ = update (set_next a p (some f)) f (set_next a p (some f) n) in
          let e = update_same b₂ n n (record (b₂ n) { next = none; val = none }) refl in
          (ap (λ x. x.val) e, ap (λ x. x.next) e)

      pub move_node-Moved : Moved a (cleared p) n f p
      unfolding move_node
      move_node-Moved =
          let b₁ = set_next a p (some f) in
          let b₂ = update b₁ f (b₁ n) in
          let new = record (b₂ n) { next = none; val = none } in
          let b₃ = update b₂ n new in
          let at_n : cleared p n ≡ empty = update_same b₃ n n empty refl in
          let other : (j : ℕ) → j ≢ n → cleared p j ≡ b₂ j =
            λ j ne. update_other b₃ n j empty ne ∙ update_other b₂ n j new ne in
          let at_f : cleared p f ≡ a n =
            other f (λ e. nf (sym e))
            ∙ update_same b₁ f f (b₁ n) refl
            ∙ set_next_other a p n (some f) (λ e. pn (sym e)) in
          let at_p : cleared p p ≡ record (a p) { next = some f } =
            other p pn ∙ update_other b₁ f p (b₁ n) pf ∙ set_next_same a p (some f) in
          let rest : (j : ℕ) → j ≢ n → j ≢ f → j ≢ p → cleared p j ≡ a j = λ j n₁ f₁ p₁.
            other j n₁ ∙ update_other b₁ f j (b₁ n) f₁ ∙ set_next_other a p j (some f) p₁ in
          record {
            key_n = ap (λ x. x.key) at_n;
            val_n = ap (λ x. x.val) at_n;
            next_n = ap (λ x. x.next) at_n;
            key_f = ap (λ x. x.key) at_f;
            val_f = ap (λ x. x.val) at_f;
            next_f = ap (λ x. x.next) at_f;
            next_p = ap (λ x. x.next) at_p;
            key = λ j n₁ f₁. elim (eq-cases j p) [
              | inl e ↦
                  ap (λ i. (cleared p i).key) e ∙ ap (λ x. x.key) at_p ∙ ap (λ i. (a i).key) (sym e)
              | inr p₁ ↦ ap (λ x. x.key) (rest j n₁ f₁ p₁)
            ];
            val = λ j n₁ f₁. elim (eq-cases j p) [
              | inl e ↦
                  ap (λ i. (cleared p i).val) e ∙ ap (λ x. x.val) at_p ∙ ap (λ i. (a i).val) (sym e)
              | inr p₁ ↦ ap (λ x. x.val) (rest j n₁ f₁ p₁)
            ];
            next = λ j n₁ f₁ p₁. ap (λ x. x.next) (rest j n₁ f₁ p₁);
          }

      -- The key that is then written to `n`.
      pub put_key-cleared :
          (k : TKey) → Placed (cleared p) (put_key (move_node a n f p) n k) n (plain_key k)
      put_key-cleared k =
          let b = move_node a n f p in
          let new = record (b n) { key = some (plain_key k) } in
          let at_n = update_same b n n new refl in
          let at_n' : cleared p n ≡ empty = update_same b n n empty refl in
          let other : (j : ℕ) → j ≢ n → put_key b n k j ≡ cleared p j =
            λ j ne. update_other b n j new ne ∙ sym (move_node-rest j ne) in
          record {
            key_n = ap (λ x. x.key) at_n;
            key = λ j ne. ap (λ x. x.key) (other j ne);
            val = λ j. elim (eq-cases j n) [
              | inl e ↦
                  ap (λ i. (put_key b n k i).val) e
                  ∙ ap (λ x. x.val) at_n
                  ∙ move_node-left.0
                  ∙ sym (ap (λ i. (cleared p i).val) e ∙ ap (λ x. x.val) at_n')
              | inr ne ↦ ap (λ x. x.val) (other j ne)
            ];
            next = λ j. elim (eq-cases j n) [
              | inl e ↦
                  ap (λ i. (put_key b n k i).next) e
                  ∙ ap (λ x. x.next) at_n
                  ∙ move_node-left.1
                  ∙ sym (ap (λ i. (cleared p i).next) e ∙ ap (λ x. x.next) at_n')
              | inr ne ↦ ap (λ x. x.next) (other j ne)
            ];
          }
