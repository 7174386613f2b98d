-- ===== src/Tab/Find.antt =====
-- Table getters: lj_tab_getinth, lj_tab_getstr, lj_tab_getint and lj_tab_get of
-- LuaJIT-2.0.1/src/lj_tab.c and lj_tab.h.
pub mod Invariant
pub mod Keys
pub mod Correct
use probabilistic_lua.Common.{
  ℕ, zero, suc, ◌+◌, ◌<◌, List, [], ◌∷◌, Bool, true, false, ltb, if◌then◌else◌, length, Option,
  none, some,
}
use probabilistic_lua.Common.Result.{Result, ok, err, stuck, ◌>>=◌}
use probabilistic_lua.Tab.Types.{
  TKey, boolean, int, num, str, obj, KeyOps, Node, Tab, str_eq, lj_obj_equal,
}
use probabilistic_lua.Tab.Hash.{hashkey}

-- A pointer to a value of a table.
pub data Slot : Type 0 where
  array_slot : ℕ → Slot
  node_slot : ℕ → Slot

abbrev pub get_or : {V : Type 0} → List (Option V) → ℕ → Option V
get_or [] i = none
get_or (v ∷ vs) zero = v
get_or (v ∷ vs) (suc i) = get_or vs i

abbrev pub read_slot : {V : Type 0} → Tab V → Slot → Option V
read_slot t (array_slot i) = get_or t.array i
read_slot t (node_slot i) = (t.node i).val

-- The value at the pointer, or niltv for NULL.
abbrev pub value_at : {V : Type 0} → Tab V → Option Slot → Option V
value_at t none = none
value_at t (some s) = read_slot t s

-- `do { if (test) return n; } while ((n = nextnode(n)))`, on fuel.
unfoldable pub find_node :
    {V : Type 0} → ℕ → (ℕ → Node V) → (Option TKey → Bool) → ℕ → Result (Option ℕ)
find_node zero node test n = err stuck
find_node (suc fuel) node test n =
    let rest : Result (Option ℕ) = elim (node n).next [
      | none ↦ ok none
      | some m ↦ find_node fuel node test m
    ] in
    if test (node n).key then ok (some n) else rest

abbrev pub to_slot : Result (Option ℕ) → Result (Option Slot)
to_slot r = r >>= λ o. elim o [ none ↦ ok none | some n ↦ ok (some (node_slot n)) ]

-- `tvisnum(&n->key) && n->key.n == k.n`, and the same for strings.
module _ (ops : KeyOps) where
  unfoldable pub is_num : ℕ × ℕ → Option TKey → Bool
  is_num k (some (num lo hi)) = ops.num_eq (lo, hi) k
  is_num k (some (int j)) = false
  is_num k (some (boolean b)) = false
  is_num k (some (str s)) = false
  is_num k (some (obj g a)) = false
  is_num k none = false

  unfoldable pub is_str : List ℕ → Option TKey → Bool
  is_str key (some (str s)) = str_eq s key
  is_str key (some (num lo hi)) = false
  is_str key (some (int j)) = false
  is_str key (some (boolean b)) = false
  is_str key (some (obj g a)) = false
  is_str key none = false

  unfoldable pub is_key : TKey → Option TKey → Bool
  is_key key none = false
  is_key key (some k) = lj_obj_equal ops k key

  -- The double of an integer key.
  abbrev pub num_key : ℕ → TKey
  num_key k = num (ops.int2num k).0 (ops.int2num k).1

  module _ {V : Type 0} where
    -- A search through the chain of `key`; the chain has at most `hmask + 1` nodes.
    unfoldable pub search_chain : Tab V → TKey → (Option TKey → Bool) → Result (Option ℕ)
    search_chain t key test = find_node (suc t.hmask) t.node test (hashkey ops t key)

    unfoldable pub find_inth : Tab V → ℕ → Result (Option ℕ)
    find_inth t key = search_chain t (num_key key) (is_num (ops.int2num key))

    unfoldable pub find_str : Tab V → List ℕ → Result (Option ℕ)
    find_str t key = search_chain t (str key) (is_str key)

    unfoldable pub find_key : Tab V → TKey → Result (Option ℕ)
    find_key t key = search_chain t key (is_key key)

    unfoldable pub lj_tab_getinth : Tab V → ℕ → Result (Option Slot)
    lj_tab_getinth t key = to_slot (find_inth t key)

    unfoldable pub lj_tab_getstr : Tab V → List ℕ → Result (Option Slot)
    lj_tab_getstr t key = to_slot (find_str t key)

    -- The macro of lj_tab.h.
    unfoldable pub lj_tab_getint : Tab V → ℕ → Result (Option Slot)
    unfolding lj_tab_getinth
    lj_tab_getint t key =
        if ltb key (length t.array) then ok (some (array_slot key)) else lj_tab_getinth t key

    unfoldable pub lj_tab_get : Tab V → Option TKey → Result (Option V)
    unfolding lj_tab_getint lj_tab_getstr find_key
    lj_tab_get t none = ok none
    lj_tab_get t (some (str s)) = lj_tab_getstr t s >>= λ tv. ok (value_at t tv)
    lj_tab_get t (some (int k)) = lj_tab_getint t k >>= λ tv. ok (value_at t tv)
    lj_tab_get t (some (num lo hi)) = elim (ops.num2int lo hi) [
      | some k ↦ lj_tab_getint t k >>= λ tv. ok (value_at t tv)
      | none ↦ to_slot (find_key t (num lo hi)) >>= λ tv. ok (value_at t tv)
    ]
    lj_tab_get t (some (boolean b)) = to_slot (find_key t (boolean b)) >>= λ tv. ok (value_at t tv)
    lj_tab_get t (some (obj g a)) = to_slot (find_key t (obj g a)) >>= λ tv. ok (value_at t tv)
