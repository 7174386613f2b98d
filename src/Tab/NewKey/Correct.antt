-- ===== src/Tab/NewKey/Correct.antt =====
-- lj_tab_newkey as a whole.
use probabilistic_lua.Common.{
  ℕ, suc, ◌≤◌, Bool, true, false, not, ◌||◌, ◌==◌, none, some, Option-cases, eq-cases, ne→eqb_false,
  ◌≡◌, ◌≢◌, refl, ◌∙◌, inl, inr, ◌⊎◌, arith,
}
use probabilistic_lua.Common.Result.{Result, ok}
use probabilistic_lua.Tab.Types.{TKey, KeyOps, Tab, is_none}
use probabilistic_lua.Tab.Hash.{hashkey}
use probabilistic_lua.Tab.Chain.{Chain-IsDistinct, length-IsDistinct}
use probabilistic_lua.Tab.Find.{Slot, node_slot}
use probabilistic_lua.Tab.Find.Invariant.{
  IsHash, IsStored, next_of, key_at, val_at, hashkey-le, Chain-below,
}
use probabilistic_lua.Tab.NewKey.{
  find_free, find_pred, plain_key, put_key, move_node, link_node, rechain, collision, lj_tab_newkey,
}
use probabilistic_lua.Tab.NewKey.Entries.{IsEntered}
use probabilistic_lua.Tab.NewKey.Loops.{All-contains, find_free_lem, find_pred_lem}
use probabilistic_lua.Tab.NewKey.Cases.{
  place-IsEntered, linked-IsEntered, moved-IsEntered, rechained,
}

-- There is a node for a new key.
abbrev pub HasRoom : {V : Type 0} → KeyOps → Tab V → TKey → Type 0
HasRoom ops t key =
    ((t.hmask ≢ 0) × (val_at t (hashkey ops t key) ≡ none))
    ⊎ ((f : ℕ) × (find_free t.node t.freetop ≡ some f))

or_true : (b : Bool) → (b || true) ≡ true
or_true true = refl
or_true false = refl

module _ {V : Type 0} (ops : KeyOps) (retry : Tab V → TKey → Result (Tab V × Slot)) (t : Tab V)
    (key : TKey) where
  -- An unused main position is taken.
  newkey_place :
      t.hmask ≢ 0
      → val_at t (hashkey ops t key) ≡ none
      → lj_tab_newkey ops retry t key
        ≡ ok (
          record t { node = put_key t.node (hashkey ops t key) key },
          node_slot (hashkey ops t key),
        )
  unfolding lj_tab_newkey
  newkey_place pos unused = rw (unused, ne→eqb_false t.hmask 0 pos) refl

  newkey_collision :
      (v : V) (f : ℕ) (h : TKey)
      → val_at t (hashkey ops t key) ≡ some v
      → find_free t.node t.freetop ≡ some f
      → key_at t (hashkey ops t key) ≡ some h
      → lj_tab_newkey ops retry t key ≡ collision ops t key (hashkey ops t key) f (hashkey ops t h)
  unfolding lj_tab_newkey
  newkey_collision v f h used free key_n = rw (used, free, key_n) refl

  module _ (n f c : ℕ) where
    collision_linked :
        c ≡ n
        → collision ops t key n f c
          ≡ ok (record t { node = put_key (link_node t.node n f) f key; freetop = f }, node_slot f)
    unfolding collision
    collision_linked here = let test : (c == n) ≡ true = ground (arith, here) in rw test refl

    collision_moved :
        (p : ℕ)
        → c ≢ n
        → find_pred (suc t.hmask) t.node n c ≡ ok p
        → rechain ops (suc t.hmask) t (move_node t.node n f p) n f ≡ ok (move_node t.node n f p)
        → collision ops t key n f c
          ≡ ok
              (record t { node = put_key (move_node t.node n f p) n key; freetop = f }, node_slot n)
    unfolding collision
    collision_moved p away r loop = rw (ne→eqb_false c n away, r, loop) refl

  -- Without room the table is rehashed.
  pub newkey_full :
      find_free t.node t.freetop ≡ none
      → (t.hmask ≡ 0) ⊎ ((v : V) × (val_at t (hashkey ops t key) ≡ some v))
      → lj_tab_newkey ops retry t key ≡ retry t key
  unfolding lj_tab_newkey
  newkey_full full (inl e) =
      let test : (t.hmask == 0) ≡ true = ground (arith, e) in
      rw (full, test, or_true (not (is_none (val_at t (hashkey ops t key))))) refl
  newkey_full full (inr (v, e)) = rw (full, e) refl

  module _ (wf : IsHash ops t) (good : IsStored ops (plain_key key))
      (absent : (i : ℕ) → i ≤ t.hmask → key_at t i ≢ some (plain_key key)) where
    abbrev pub Entered : Type 0
    Entered =
        (u : Tab V) × ((i : ℕ) × (lj_tab_newkey ops retry t key ≡ ok (u, node_slot i))
          × IsEntered ops t u i (plain_key key))

    enter_collision :
        (v : V) (f : ℕ) (h : TKey)
        → val_at t (hashkey ops t key) ≡ some v
        → find_free t.node t.freetop ≡ some f
        → key_at t (hashkey ops t key) ≡ some h
        → Entered
    enter_collision v f h used free key_n =
        let n = hashkey ops t key in
        let (lt, free_f) = find_free_lem t.node t.freetop f free in
        let below_f : f ≤ t.hmask = omega (arith, lt, wf.top) in
        let run = newkey_collision v f h used free key_n in
        elim (eq-cases (hashkey ops t h) n) [
          | inl here ↦ (
            record t { node = put_key (link_node t.node n f) f key; freetop = f },
            (
              f,
              run ∙ collision_linked n f (hashkey ops t h) here,
              linked-IsEntered ops t key wf good absent f h below_f free_f key_n here,
            ),
          )
          | inr away ↦
              let (xs, c) = wf.chain (hashkey ops t h) (hashkey-le ops t h wf.bits) in
              let below_n = hashkey-le ops t key wf.bits in
              let v = Chain-below ops t wf (hashkey ops t h) xs (hashkey-le ops t h wf.bits) c in
              let short =
                length-IsDistinct (suc t.hmask) xs (Chain-IsDistinct (next_of t) _ xs c) v in
              let (p, r, on, pred) =
                find_pred_lem (suc t.hmask) t.node n (hashkey ops t h) xs c
                  (wf.reach n h xs below_n key_n c) away short in
              let lt_p = All-contains (suc t.hmask) p xs v on in
              let below_p : p ≤ t.hmask = omega (arith, lt_p) in
              let loop =
                rechained ops t key wf good absent f h below_f free_f key_n p below_p pred away in
              (
                record t { node = put_key (move_node t.node n f p) n key; freetop = f },
                (
                  n,
                  run ∙ collision_moved n f (hashkey ops t h) p away r loop,
                  moved-IsEntered ops t key wf good absent f h below_f free_f key_n p below_p pred
                      away,
                ),
              )
        ]

    enter_place : t.hmask ≢ 0 → val_at t (hashkey ops t key) ≡ none → Entered
    enter_place pos unused = (
      record t { node = put_key t.node (hashkey ops t key) key },
      (
        hashkey ops t key,
        newkey_place pos unused,
        place-IsEntered ops t key wf good absent pos unused,
      ),
    )

    -- In a well-formed table without the key, with a main position that holds no value or with a
    -- free node, and for a key that is neither NaN nor an integer tag, lj_tab_newkey ends normally
    -- with a node that has the key (-0 stored as 0) and no value; the table is well formed again,
    -- with the same array part, the same number of nodes and the same entries.
    pub newkey-IsEntered : HasRoom ops t key → Entered
    newkey-IsEntered (inl (pos, unused)) = enter_place pos unused
    newkey-IsEntered (inr (f, free)) = elim (eq-cases t.hmask 0) [
      | inl z ↦
          let top = find_free_lem t.node t.freetop f free in
          absurd (omega (arith, top.0, (wf.nil_node z).0))
      | inr pos ↦ elim (Option-cases (val_at t (hashkey ops t key))) [
        | inl unused ↦ enter_place pos unused
        | inr (v, used) ↦ elim (Option-cases (key_at t (hashkey ops t key))) [
          | inl no_key ↦
              let unused = (wf.free (hashkey ops t key) (hashkey-le ops t key wf.bits) no_key).1 in
              cc (used, unused)
          | inr (h, key_n) ↦ enter_collision v f h used free key_n
        ]
      ]
    ]
