-- ===== src/Tab/Find/Keys.antt =====
-- The tests that the searches make on the keys of nodes, and what they need of double numbers.
use probabilistic_lua.Common.{
  ℕ, ◌<◌, ◌^◌, List, [], ◌∷◌, Bool, true, false, ◌&&◌, ◌==◌, Option, none, some, eqb→eq, ◌≡◌, refl,
  ap, arith,
}
use probabilistic_lua.Tab.Types.{
  TKey, boolean, int, num, str, obj, KeyOps, Tab, str_eq, lj_obj_equal,
}
use probabilistic_lua.Tab.Find.{is_num, is_str, is_key, num_key}
use probabilistic_lua.Tab.Find.Invariant.{IsHash, IsPlain, IsStored, key_at, Picks}

-- C doubles: `==` on numbers that are neither NaN nor -0 is equality of the bits; the conversions between
-- int32_t and double are exact where num2int gives a result, and -0 is the integer 0.
pub record KeyLaws (ops : KeyOps) : Type 0 where
  pub eq_bits : (a b : ℕ × ℕ) → IsPlain ops a → IsPlain ops b → ops.num_eq a b ≡ true → a ≡ b
  pub int_plain : (k : ℕ) → k < 2 ^ 32 → IsPlain ops (ops.int2num k)
  pub int_num : (k : ℕ) → k < 2 ^ 32 → ops.num2int (ops.int2num k).0 (ops.int2num k).1 ≡ some k
  pub num_int : (lo hi k : ℕ) → ops.num2int lo hi ≡ some k → k < 2 ^ 32
  pub minus_zero : ops.num2int 0 0x80000000 ≡ some 0

eqb_refl : (n : ℕ) → (n == n) ≡ true
eqb_refl n = ground arith

and-true : (a b : Bool) → (a && b) ≡ true → (a ≡ true) × (b ≡ true)
and-true true b h = (refl, h)
and-true false b h = cc

str_eq_refl : (s : List ℕ) → str_eq s s ≡ true
unfolding str_eq
str_eq_refl [] = refl
str_eq_refl (a ∷ s) = rw (eqb_refl a) (str_eq_refl s)

str_eq→eq : (s t : List ℕ) → str_eq s t ≡ true → s ≡ t
unfolding str_eq
str_eq→eq [] [] h = refl
str_eq→eq [] (b ∷ t) h = cc
str_eq→eq (a ∷ s) [] h = cc
str_eq→eq (a ∷ s) (b ∷ t) h =
    let (x, y) = and-true (a == b) (str_eq s t) h in cc (eqb→eq a b x, str_eq→eq s t y)

module _ (ops : KeyOps) where
  obj_equal_refl : (k : TKey) → IsStored ops k → lj_obj_equal ops k k ≡ true
  unfolding lj_obj_equal
  obj_equal_refl (boolean true) h = refl
  obj_equal_refl (boolean false) h = refl
  obj_equal_refl (str s) h = str_eq_refl s
  obj_equal_refl (obj g a) h = rw (eqb_refl g, eqb_refl a) refl
  obj_equal_refl (num lo hi) h = h.0
  obj_equal_refl (int k) h = absurd h

  module _ (laws : KeyLaws ops) where
    num_equal :
        (lo hi lo' hi' : ℕ)
        → IsPlain ops (lo, hi)
        → IsPlain ops (lo', hi')
        → ops.num_eq (lo, hi) (lo', hi') ≡ true
        → num lo hi ≡ num lo' hi'
    num_equal lo hi lo' hi' p q e =
        let same = laws.eq_bits (lo, hi) (lo', hi') p q e in ap (λ (n : ℕ × ℕ). num n.0 n.1) same

    obj_equal→eq :
        (k k' : TKey) → IsStored ops k → IsStored ops k' → lj_obj_equal ops k k' ≡ true → k ≡ k'
    unfolding lj_obj_equal
    obj_equal→eq (boolean true) (boolean true) h h' e = refl
    obj_equal→eq (boolean true) (boolean false) h h' e = cc
    obj_equal→eq (boolean false) (boolean true) h h' e = cc
    obj_equal→eq (boolean false) (boolean false) h h' e = refl
    obj_equal→eq (str s) (str t) h h' e = ap str (str_eq→eq s t e)
    obj_equal→eq (obj g a) (obj g' a') h h' e =
        let (x, y) = and-true (g == g') (a == a') e in cc (eqb→eq g g' x, eqb→eq a a' y)
    obj_equal→eq (num lo hi) (num lo' hi') h h' e = num_equal lo hi lo' hi' h h' e
    obj_equal→eq (int k) k' h h' e = absurd h
    obj_equal→eq k (int k') h h' e = absurd h'
    obj_equal→eq (boolean b) (str t) h h' e = cc
    obj_equal→eq (boolean b) (obj g a) h h' e = cc
    obj_equal→eq (boolean b) (num lo hi) h h' e = cc
    obj_equal→eq (str s) (boolean b) h h' e = cc
    obj_equal→eq (str s) (obj g a) h h' e = cc
    obj_equal→eq (str s) (num lo hi) h h' e = cc
    obj_equal→eq (obj g a) (boolean b) h h' e = cc
    obj_equal→eq (obj g a) (str t) h h' e = cc
    obj_equal→eq (obj g a) (num lo hi) h h' e = cc
    obj_equal→eq (num lo hi) (boolean b) h h' e = cc
    obj_equal→eq (num lo hi) (str t) h h' e = cc
    obj_equal→eq (num lo hi) (obj g a) h h' e = cc

    module _ {V : Type 0} (t : Tab V) (wf : IsHash ops t) where
      pub is_key-Picks : (k : TKey) → IsStored ops k → Picks ops t wf (is_key ops k) k
      unfolding is_key
      is_key-Picks k h i hi = (λ e. forth (key_at t i) refl e, λ e. rw e (obj_equal_refl k h))
        where
          forth : (o : Option TKey) → key_at t i ≡ o → is_key ops k o ≡ true → o ≡ some k
          forth none eq e = cc
          forth (some k') eq e = ap some (obj_equal→eq k' k (wf.stored i k' hi eq) h e)

      pub is_str-Picks : (s : List ℕ) → Picks ops t wf (is_str ops s) (str s)
      unfolding is_str
      is_str-Picks s i hi = (λ e. forth (key_at t i) e, λ e. rw e (str_eq_refl s))
        where
          forth : (o : Option TKey) → is_str ops s o ≡ true → o ≡ some (str s)
          forth none e = cc
          forth (some (str s')) e = ap (λ x. some (str x)) (str_eq→eq s' s e)
          forth (some (num lo hi)) e = cc
          forth (some (int j)) e = cc
          forth (some (boolean b)) e = cc
          forth (some (obj g a)) e = cc

      pub is_num-Picks :
          (k : ℕ) → k < 2 ^ 32 → Picks ops t wf (is_num ops (ops.int2num k)) (num_key ops k)
      unfolding is_num
      is_num-Picks k h i hi = (λ e. forth (key_at t i) refl e, λ e. rw e (laws.int_plain k h).0)
        where
          forth :
              (o : Option TKey)
              → key_at t i ≡ o
              → is_num ops (ops.int2num k) o ≡ true
              → o ≡ some (num_key ops k)
          forth none eq e = cc
          forth (some (num lo hi')) eq e = ap some (
              num_equal lo hi' (ops.int2num k).0 (ops.int2num k).1 (wf.stored i (num lo hi') hi eq)
                (laws.int_plain k h) e)
          forth (some (str s')) eq e = cc
          forth (some (int j)) eq e = cc
          forth (some (boolean b)) eq e = cc
          forth (some (obj g a)) eq e = cc
