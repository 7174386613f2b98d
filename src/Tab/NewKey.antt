-- ===== src/Tab/NewKey.antt =====
-- Insertion of a new key: lj_tab_newkey of LuaJIT-2.0.1/src/lj_tab.c. What it does when there is no free
-- node, rehash the table and set the key again, is a parameter: Tab.Set closes the loop.
pub mod Place
pub mod Rename
pub mod Insert
pub mod Loops
pub mod Stores
pub mod Entries
pub mod Cases
pub mod Correct
use probabilistic_lua.Common.{
  ℕ, zero, suc, List, Bool, true, false, not, ◌&&◌, ◌||◌, ◌==◌, if◌then◌else◌, Option, none, some,
}
use probabilistic_lua.Common.Result.{Result, ok, err, undefined, stuck, ◌>>=◌}
use probabilistic_lua.Tab.Types.{
  TKey, boolean, int, num, str, obj, KeyOps, Node, Tab, update, is_none,
}
use probabilistic_lua.Tab.Hash.{hashkey}
use probabilistic_lua.Tab.Find.{Slot, node_slot}

-- `n->key.u64 = key->u64; if (tvismzero(&n->key)) n->key.u64 = 0`.
unfoldable pub plain_key : TKey → TKey
plain_key (num lo hi) = if lo == 0 && hi == 0x80000000 then num 0 0 else num lo hi
plain_key (int k) = int k
plain_key (boolean b) = boolean b
plain_key (str s) = str s
plain_key (obj g a) = obj g a

module _ {V : Type 0} where
  -- `do { if (freenode == nodebase) ...; } while (!tvisnil(&(--freenode)->key))`.
  unfoldable pub find_free : (ℕ → Node V) → ℕ → Option ℕ
  find_free node zero = none
  find_free node (suc i) = if is_none (node i).key then some i else find_free node i

  -- `while (noderef(collide->next) != n) collide = nextnode(collide)`, on fuel.
  unfoldable pub find_pred : ℕ → (ℕ → Node V) → ℕ → ℕ → Result ℕ
  find_pred zero node n collide = err stuck
  find_pred (suc fuel) node n collide = elim (node collide).next [
    | none ↦ err undefined
    | some m ↦ let rest = find_pred fuel node n m in if m == n then ok collide else rest
  ]

  abbrev pub set_next : (ℕ → Node V) → ℕ → Option ℕ → ℕ → Node V
  set_next node i p = update node i (record (node i) { next = p })

  abbrev pub put_key : (ℕ → Node V) → ℕ → TKey → ℕ → Node V
  put_key node i key = update node i (record (node i) { key = some (plain_key key) })

  -- The colliding node `n` moves to the free node `f`; `pred` is its predecessor.
  unfoldable pub move_node : (ℕ → Node V) → ℕ → ℕ → ℕ → ℕ → Node V
  move_node node n f pred =
      let node₁ = set_next node pred (some f) in
      let node₂ = update node₁ f (node₁ n) in
      update node₂ n (record (node₂ n) { next = none; val = none })

  -- `n` gets the free node `f` as its successor.
  unfoldable pub link_node : (ℕ → Node V) → ℕ → ℕ → ℕ → Node V
  link_node node n f = set_next (set_next node f (node n).next) n (some f)

module _ {V : Type 0} (ops : KeyOps) where
  -- `tvisstr(&nn->key) && !tvisnil(&nn->val) && hashstr(t, strV(&nn->key)) == n`.
  unfoldable pub is_resurrected : Tab V → Node V → ℕ → Bool
  is_resurrected t nn n = elim nn.key [
    | some (str s) ↦ not (is_none nn.val) && hashkey ops t (str s) == n
    | _ ↦ false
  ]

  -- The loop that rechains string keys, on fuel.
  unfoldable pub rechain : ℕ → Tab V → (ℕ → Node V) → ℕ → ℕ → Result (ℕ → Node V)
  unfolding is_resurrected
  rechain zero t node n freenode = err stuck
  rechain (suc fuel) t node n freenode = elim (node freenode).next [
    | none ↦ ok node
    | some nn ↦
        let node₁ = set_next node freenode (node nn).next in
        let node₂ = set_next node₁ nn (node₁ n).next in
        let taken = rechain fuel t (set_next node₂ n (some nn)) n freenode in
        let kept = rechain fuel t node n nn in if is_resurrected t (node nn) n then taken else kept
  ]

  -- The branch for a main position that is taken, with the free node `f`.
  unfoldable pub collision : Tab V → TKey → ℕ → ℕ → ℕ → Result (Tab V × Slot)
  unfolding find_pred plain_key move_node link_node rechain
  collision t key n f collide =
      let moved = find_pred (suc t.hmask) t.node n collide >>= λ pred.
      rechain (suc t.hmask) t (move_node t.node n f pred) n f >>= λ node.
      ok (record t { node = put_key node n key; freetop = f }, node_slot n) in
      let linked =
        ok (record t { node = put_key (link_node t.node n f) f key; freetop = f }, node_slot f) in
      if not (collide == n) then moved else linked

  unfoldable pub lj_tab_newkey :
      (Tab V → TKey → Result (Tab V × Slot)) → Tab V → TKey → Result (Tab V × Slot)
  lj_tab_newkey retry t key =
      let n = hashkey ops t key in
      let place = ok (record t { node = put_key t.node n key }, node_slot n) in
      let collide : Result (Tab V × Slot) = elim (find_free t.node t.freetop) [
        | none ↦ retry t key
        | some f ↦ elim (t.node n).key [
          | none ↦ err undefined
          | some k ↦ collision t key n f (hashkey ops t k)
        ]
      ] in
      if not (is_none (t.node n).val) || t.hmask == 0 then collide else place
