-- ===== src/Tab/Set.antt =====
-- Table setters: lj_tab_setinth, lj_tab_setstr, lj_tab_set of LuaJIT-2.0.1/src/lj_tab.c and lj_tab_setint
-- of lj_tab.h. A pointer that a setter returns is a slot, which the caller writes.
pub mod Write
pub mod Correct
use probabilistic_lua.Common.{
  ℕ, zero, suc, List, [], ◌∷◌, Bool, true, false, ltb, not, if◌then◌else◌, length, Option, none,
  some,
}
use probabilistic_lua.Common.Result.{Result, ok, err, nan_index, nil_index, ◌>>=◌}
use probabilistic_lua.Tab.Types.{TKey, boolean, int, num, str, obj, KeyOps, Node, Tab, update}
use probabilistic_lua.Tab.Find.{Slot, array_slot, node_slot, num_key, find_inth, find_str, find_key}
use probabilistic_lua.Tab.NewKey.{lj_tab_newkey}

abbrev pub set_or : {V : Type 0} → List (Option V) → ℕ → Option V → List (Option V)
set_or [] i v = []
set_or (x ∷ xs) zero v = v ∷ xs
set_or (x ∷ xs) (suc i) v = x ∷ set_or xs i v

-- A store through the pointer.
abbrev pub write_slot : {V : Type 0} → Tab V → Slot → Option V → Tab V
write_slot t (array_slot i) v = record t { array = set_or t.array i v }
write_slot t (node_slot i) v = record t { node = update t.node i (record (t.node i) { val = v }) }

module _ {V : Type 0} (ops : KeyOps) (retry : Tab V → TKey → Result (Tab V × Slot)) where
  -- The node that the search found, or one for the new key.
  abbrev pub or_newkey : Tab V → TKey → Result (Option ℕ) → Result (Tab V × Slot)
  or_newkey t key r =
      r >>= λ o. elim o [ none ↦ lj_tab_newkey ops retry t key | some n ↦ ok (t, node_slot n) ]

  unfoldable pub lj_tab_setinth : Tab V → ℕ → Result (Tab V × Slot)
  lj_tab_setinth t key = or_newkey t (num_key ops key) (find_inth ops t key)

  unfoldable pub lj_tab_setstr : Tab V → List ℕ → Result (Tab V × Slot)
  lj_tab_setstr t key = or_newkey t (str key) (find_str ops t key)

  unfoldable pub lj_tab_setint : Tab V → ℕ → Result (Tab V × Slot)
  lj_tab_setint t key =
      if ltb key (length t.array) then ok (t, array_slot key) else lj_tab_setinth t key

  -- `nomm`, the cache of absent metamethods, is not modelled.
  unfoldable pub lj_tab_set : Tab V → Option TKey → Result (Tab V × Slot)
  lj_tab_set t none = err nil_index
  lj_tab_set t (some (str s)) = lj_tab_setstr t s
  lj_tab_set t (some (int k)) = lj_tab_setint t k
  lj_tab_set t (some (num lo hi)) = elim (ops.num2int lo hi) [
    | some k ↦ lj_tab_setint t k
    | none ↦
        let generic = or_newkey t (num lo hi) (find_key ops t (num lo hi)) in
        if not (ops.num_eq (lo, hi) (lo, hi)) then err nan_index else generic
  ]
  lj_tab_set t (some (boolean b)) = or_newkey t (boolean b) (find_key ops t (boolean b))
  lj_tab_set t (some (obj g a)) = or_newkey t (obj g a) (find_key ops t (obj g a))
