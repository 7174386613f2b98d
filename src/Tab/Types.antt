-- ===== src/Tab/Types.antt =====
-- The state of a table: TValue keys, Node and GCtab of LuaJIT-2.0.1/src/lj_obj.h.
-- A nil is `none`, for keys and for values. Node pointers are indices into the node vector. `hmask` 0 is
-- the state in which `t->node` points to the global nilnode, which is then `node 0`, with nothing in it.
use probabilistic_lua.Common.{
  ℕ, List, [], ◌∷◌, Bool, true, false, not, ◌&&◌, ◌==◌, if◌then◌else◌, Option, none, some,
}

-- A key that is not nil. A string is interned: its object is known by its contents. `obj` are the other
-- GC objects and light userdata, by type tag and address.
pub data TKey : Type 0 where
  boolean : Bool → TKey
  int : ℕ → TKey
  num : ℕ → ℕ → TKey
  str : List ℕ → TKey
  obj : ℕ → ℕ → TKey

-- What the tables need of the C type double, given by two words: the conversions of NumOps and `==`;
-- the hash of a string object; and `dualnum`, LJ_DUALNUM of the build.
pub record KeyOps : Type 0 where
  pub dualnum : Bool
  pub num2int : ℕ → ℕ → Option ℕ
  pub int2num : ℕ → ℕ × ℕ
  pub num_eq : ℕ × ℕ → ℕ × ℕ → Bool
  pub str_hash : List ℕ → ℕ

pub record Node (V : Type 0) : Type 0 where
  pub key : Option TKey
  pub val : Option V
  pub next : Option ℕ

pub record Tab (V : Type 0) : Type 0 where
  pub array : List (Option V)
  pub hmask : ℕ
  pub node : ℕ → Node V
  pub freetop : ℕ

-- `setmref(n->next, NULL); setnilV(&n->key); setnilV(&n->val)`.
abbrev pub empty : {V : Type 0} → Node V
empty = record { key = none; val = none; next = none }

-- A store to the node at index `i`.
abbrev pub update : {A : Type 0} → (ℕ → A) → ℕ → A → ℕ → A
update f i x j = if i == j then x else f j

abbrev pub is_none : {A : Type 0} → Option A → Bool
is_none none = true
is_none (some x) = false

unfoldable pub str_eq : List ℕ → List ℕ → Bool
str_eq [] [] = true
str_eq (a ∷ s) (b ∷ t) = a == b && str_eq s t
str_eq [] (b ∷ t) = false
str_eq (a ∷ s) [] = false

module _ (ops : KeyOps) where
  -- lj_obj_equal of lj_obj.c, for keys that are not nil.
  unfoldable pub lj_obj_equal : TKey → TKey → Bool
  unfolding str_eq
  lj_obj_equal (boolean a) (boolean b) = if a then b else not b
  lj_obj_equal (str s) (str t) = str_eq s t
  lj_obj_equal (obj g a) (obj h b) = g == h && a == b
  lj_obj_equal (int a) (int b) = a == b
  lj_obj_equal (int a) (num lo hi) = ops.num_eq (ops.int2num a) (lo, hi)
  lj_obj_equal (num lo hi) (int b) = ops.num_eq (lo, hi) (ops.int2num b)
  lj_obj_equal (num lo hi) (num lo' hi') = ops.num_eq (lo, hi) (lo', hi')
  lj_obj_equal (boolean a) (str t) = false
  lj_obj_equal (boolean a) (obj h b) = false
  lj_obj_equal (boolean a) (int b) = false
  lj_obj_equal (boolean a) (num lo hi) = false
  lj_obj_equal (str s) (boolean b) = false
  lj_obj_equal (str s) (obj h b) = false
  lj_obj_equal (str s) (int b) = false
  lj_obj_equal (str s) (num lo hi) = false
  lj_obj_equal (obj g a) (boolean b) = false
  lj_obj_equal (obj g a) (str t) = false
  lj_obj_equal (obj g a) (int b) = false
  lj_obj_equal (obj g a) (num lo hi) = false
  lj_obj_equal (int a) (boolean b) = false
  lj_obj_equal (int a) (str t) = false
  lj_obj_equal (int a) (obj h b) = false
  lj_obj_equal (num lo hi) (boolean b) = false
  lj_obj_equal (num lo hi) (str t) = false
  lj_obj_equal (num lo hi) (obj h b) = false
