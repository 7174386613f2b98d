-- ===== src/Tab/Next.antt =====
-- Table traversal: keyindex and lj_tab_next of LuaJIT-2.0.1/src/lj_tab.c.
pub mod Correct
pub mod Traverse
use probabilistic_lua.Common.{
  ℕ, zero, suc, ◌+◌, ◌-◌, ◌%◌, ◌^◌, List, [], ◌∷◌, Bool, true, false, ltb, ◌==◌, if◌then◌else◌,
  length, Option, none, some,
}
use probabilistic_lua.Common.Result.{Result, ok, err, next_index, undefined, ◌>>=◌}
use probabilistic_lua.Tab.Types.{TKey, boolean, int, num, str, obj, KeyOps, Node, Tab}
use probabilistic_lua.Tab.Find.{get_or, num_key, find_key}

module _ {V : Type 0} (ops : KeyOps) (t : Tab V) where
  -- The index after the array part, or `missing` when no node has the key.
  abbrev pub node_index : TKey → Result ℕ → Result ℕ
  node_index key missing =
      find_key ops t key >>= λ o. elim o [ some n ↦ ok (length t.array + n) | none ↦ missing ]

  -- `key->u32.hi == 0xfffe7fff`: the control variable of an ITERN loop, which reads as a NaN.
  abbrev pub control_index : ℕ → ℕ → Result ℕ
  control_index lo hi = if hi == 0xfffe7fff then ok ((lo + 2 ^ 32 - 1) % 2 ^ 32) else err next_index

  unfoldable pub keyindex : Option TKey → Result ℕ
  keyindex none = ok (2 ^ 32 - 1)
  keyindex (some (int k)) =
      let search = node_index (num_key ops k) (control_index (ops.int2num k).0 (ops.int2num k).1) in
      if ltb k (length t.array) then ok k else search
  keyindex (some (num lo hi)) =
      let search = node_index (num lo hi) (control_index lo hi) in
      elim (ops.num2int lo hi) [
        | some k ↦ if ltb k (length t.array) then ok k else search
        | none ↦ search
      ]
  keyindex (some (boolean b)) = node_index (boolean b) (err next_index)
  keyindex (some (str s)) = node_index (str s) (err next_index)
  keyindex (some (obj g a)) = node_index (obj g a) (err next_index)

module _ {V : Type 0} (t : Tab V) where
  -- `for (; i < t->asize; i++) if (!tvisnil(arrayslot(t, i))) ...`, with `left` cells to go.
  unfoldable pub next_cell : ℕ → ℕ → Option (ℕ × V)
  next_cell zero i = none
  next_cell (suc left) i =
      let rest = next_cell left (suc i) in
      elim (get_or t.array i) [ some v ↦ some (i, v) | none ↦ rest ]

  -- `for (; i <= t->hmask; i++) if (!tvisnil(&n->val)) ...`, with `left` nodes to go.
  unfoldable pub next_node : ℕ → ℕ → Option (Option TKey × V)
  next_node zero i = none
  next_node (suc left) i =
      let rest = next_node left (suc i) in
      elim (t.node i).val [ some v ↦ some ((t.node i).key, v) | none ↦ rest ]

-- setintV of lj_obj.h: a tagged integer, or a double on a build without them.
unfoldable pub set_int_key : KeyOps → ℕ → TKey
set_int_key ops i = if ops.dualnum then int i else num_key ops i

module _ {V : Type 0} (ops : KeyOps) where
  -- The part of lj_tab_next after the index of the predecessor is known: the next key and value, or none at
  -- the end.
  unfoldable pub next_from : Tab V → ℕ → Option (Option TKey × V)
  unfolding next_cell next_node set_int_key
  next_from t i =
      let hash = next_node t (suc t.hmask - (i - length t.array)) (i - length t.array) in
      elim (next_cell t (length t.array - i) i) [
        | some (j, v) ↦ some (some (set_int_key ops j), v)
        | none ↦ hash
      ]

  unfoldable pub lj_tab_next : Tab V → Option TKey → Result (Option (Option TKey × V))
  unfolding keyindex next_from
  lj_tab_next t key = keyindex ops t key >>= λ i. ok (next_from t ((i + 1) % 2 ^ 32))
