-- ===== src/Tab/Set/Correct.antt =====
-- What lj_tab_set does, when there is room for a new key.
use probabilistic_lua.Common.{
  ℕ, ◌≤◌, ◌<◌, ◌^◌, ◌&&◌, Bool, true, ltb, ltb→lt, length, Option, none, some, Bool-cases, ◌≡◌, ◌≢◌,
  ◌↔◌, refl, sym, ap, ◌∙◌, inl, inr, ◌⊎◌, arith, ◌==◌, if◌then◌else◌,
}
use probabilistic_lua.Common.Result.{Result, ok}
use probabilistic_lua.Tab.Types.{TKey, boolean, int, num, str, obj, KeyOps, Tab}
use probabilistic_lua.Tab.Find.{
  Slot, array_slot, node_slot, get_or, num_key, search_chain, is_num, is_str, is_key, find_inth,
  find_str, find_key,
}
use probabilistic_lua.Tab.Find.Invariant.{
  IsHash, IsStored, key_at, SameEntries, Picks, search_present, search_absent, key-cases,
}
use probabilistic_lua.Tab.Find.Keys.{KeyLaws, is_num-Picks, is_str-Picks, is_key-Picks}
use probabilistic_lua.Tab.Find.Correct.{
  Place, cell, entry, HoldsIn, Holds, place_of, place_for, index_place, index_of, IsLegal, plain,
}
use probabilistic_lua.Tab.NewKey.{plain_key}
use probabilistic_lua.Tab.NewKey.Correct.{HasRoom, newkey-IsEntered}
use probabilistic_lua.Tab.Set.{
  write_slot, or_newkey, lj_tab_setinth, lj_tab_setstr, lj_tab_setint, lj_tab_set,
}
use probabilistic_lua.Tab.Set.Write.{IsSlot, length-set_or, write_slot-IsHash, write_slot_lem}

stored-plain_key : (ops : KeyOps) (k : TKey) → IsStored ops k → plain_key k ≡ k
unfolding plain_key
stored-plain_key ops (boolean b) h = refl
stored-plain_key ops (int k) h = refl
stored-plain_key ops (str s) h = refl
stored-plain_key ops (obj g a) h = refl
stored-plain_key ops (num lo hi) h = elim (Bool-cases (lo == 0 && hi == 0x80000000)) [
  | inl e ↦ let (x, y) = minus_zero lo hi e in absurd (h.1 (cc (x, y)))
  | inr e ↦ rw e refl
]
  where
    minus_zero : (lo hi : ℕ) → (lo == 0 && hi == 0x80000000) ≡ true → (lo ≡ 0) × (hi ≡ 0x80000000)
    minus_zero lo hi e = (ground (arith, e), ground (arith, e))

-- There is room for the key, should its place be in the hash part and no node have it.
abbrev pub RoomFor : {V : Type 0} → KeyOps → Tab V → Place → Type 0
RoomFor ops t (cell i) = Unit
RoomFor ops t (entry k) = ((i : ℕ) → i ≤ t.hmask → key_at t i ≢ some k) → HasRoom ops t k

module _ {V : Type 0} (ops : KeyOps) (retry : Tab V → TKey → Result (Tab V × Slot))
    (t : Tab V) where
  -- The code returns the slot of the place `p`, in a table with the same entries.
  abbrev pub Gives : Result (Tab V × Slot) → Place → Type 0
  Gives r p =
      (u : Tab V) × ((s : Slot) × (r ≡ ok (u, s))
        × IsHash ops u
        × (u.array ≡ t.array)
        × IsSlot u s p
        × SameEntries t u)

  module _ (laws : KeyLaws ops) (wf : IsHash ops t) where
    Gives-node :
        (k : TKey) (test : Option TKey → Bool)
        → Picks ops t wf test k
        → IsStored ops k
        → RoomFor ops t (entry k)
        → Gives (or_newkey ops retry t k (search_chain ops t k test)) (entry k)
    Gives-node k test picks good room = elim (key-cases ops t wf k test picks) [
      | inl (n, hn, en) ↦
          let found = search_present ops t wf k test n picks hn en in
          (t, (node_slot n, rw found refl, wf, refl, (hn, en), λ g v. (λ x. x, λ x. x)))
      | inr absent ↦
          let e = stored-plain_key ops k good in
          let missing = search_absent ops t wf k test picks absent in
          let (u, (i, run, en)) =
            newkey-IsEntered ops retry t k wf (rw e good) (rw e absent) (room absent) in
          (
            u,
            (
              node_slot i,
              rw missing run,
              en.hash,
              en.array,
              (en.below, en.key ∙ ap some e),
              en.same,
            ),
          )
    ]

    Gives-int :
        (k : ℕ)
        → k < 2 ^ 32
        → RoomFor ops t (index_place ops t k)
        → Gives (lj_tab_setint ops retry t k) (index_place ops t k)
    unfolding lj_tab_setint lj_tab_setinth find_inth
    Gives-int k h room = elim (Bool-cases (ltb k (length t.array))) [
      | inl e ↦ rw e (
        t,
        (
          array_slot k,
          refl,
          wf,
          refl,
          (refl, ltb→lt k (length t.array) e),
          λ g v. (λ x. x, λ x. x),
        ),
      )
      | inr e ↦
          let given =
            Gives-node (num_key ops k) (is_num ops (ops.int2num k)) (is_num-Picks ops laws t wf k h)
              (laws.int_plain k h) (rw e at room) in
          rw e given
    ]

    pub set-Gives :
        (key : TKey)
        → IsLegal ops key
        → RoomFor ops t (place_of ops t key)
        → Gives (lj_tab_set ops retry t (some key)) (place_of ops t key)
    unfolding lj_tab_set lj_tab_setstr find_str find_key
    set-Gives (str s) h room =
        Gives-node (str s) (is_str ops s) (is_str-Picks ops laws t wf s) tt room
    set-Gives (boolean b) h room =
        Gives-node (boolean b) (is_key ops (boolean b)) (is_key-Picks ops laws t wf (boolean b) tt)
          tt room
    set-Gives (obj g a) h room =
        Gives-node (obj g a) (is_key ops (obj g a)) (is_key-Picks ops laws t wf (obj g a) tt) tt
          room
    set-Gives (int k) h room = Gives-int k h room
    set-Gives (num lo hi) h room = number (ops.num2int lo hi) refl room
      where
        number :
            (o : Option ℕ)
            → ops.num2int lo hi ≡ o
            → RoomFor ops t (place_for ops t o (num lo hi))
            → Gives (lj_tab_set ops retry t (some (num lo hi))) (place_for ops t o (num lo hi))
        number none e room =
            let good = plain ops t laws wf lo hi h e in
            let given =
              Gives-node (num lo hi) (is_key ops (num lo hi))
                (is_key-Picks ops laws t wf (num lo hi) good) good room in
            rw (e, lj_tab_set, h) given
        number (some k) e room =
            let given = Gives-int k (laws.num_int lo hi k e) room in rw (e, lj_tab_set) given

module _ {V : Type 0} (ops : KeyOps) (t u : Tab V) where
  pub place-length :
      length u.array ≡ length t.array → (key : TKey) → place_of ops u key ≡ place_of ops t key
  place-length e key = go (index_of ops key)
    where
      go : (o : Option ℕ) → place_for ops u o key ≡ place_for ops t o key
      go none = refl
      go (some i) = ap (λ l. if ltb i l then cell i else entry (num_key ops i)) e

  pub HoldsIn-same :
      u.array ≡ t.array
      → SameEntries t u
      → (p : Place) (w : V) → HoldsIn ops u p w ↔ HoldsIn ops t p w
  HoldsIn-same e same (cell i) w =
      (λ h. ap (λ xs. get_or xs i) (sym e) ∙ h, λ h. ap (λ xs. get_or xs i) e ∙ h)
  HoldsIn-same e same (entry k) w = ((same k w).1, (same k w).0)

  length-write_slot : (s : Slot) (v : Option V) → length (write_slot t s v).array ≡ length t.array
  length-write_slot (array_slot i) v = length-set_or t.array i v
  length-write_slot (node_slot n) v = refl

module _ {V : Type 0} (ops : KeyOps) where
  -- `u` is `t` with `v` for `key`.
  abbrev pub IsUpdate : Tab V → Tab V → TKey → V → Type 0
  IsUpdate t u key v =
      (key' : TKey) (w : V)
      → Holds ops u key' w ↔ (
          ((place_of ops t key' ≡ place_of ops t key) × (w ≡ v))
          ⊎ ((place_of ops t key' ≢ place_of ops t key) × Holds ops t key' w))

module _ {V : Type 0} (ops : KeyOps) (retry : Tab V → TKey → Result (Tab V × Slot)) (t : Tab V)
    (laws : KeyLaws ops) (wf : IsHash ops t) where
  -- For doubles that obey the stated laws, a well-formed table, a key that is an int32_t, a number
  -- other than NaN or no number, and a key that has a node or for which a node is free, lj_tab_set
  -- returns normally, and storing a value through the slot that it returns gives a well-formed
  -- table that holds at each key what it held before, but at the places of the key the new value.
  pub lj_tab_set-IsUpdate :
      (key : TKey) (v : V)
      → IsLegal ops key
      → RoomFor ops t (place_of ops t key)
      → (u : Tab V) × ((s : Slot) × (lj_tab_set ops retry t (some key) ≡ ok (u, s))
          × IsHash ops (write_slot u s (some v))
          × IsUpdate ops t (write_slot u s (some v)) key v)
  lj_tab_set-IsUpdate key v legal room =
      let (u, (s, run, wf_u, arrays, slot, same)) = set-Gives ops retry t laws wf key legal room in
      (
        u,
        (s, run, write_slot-IsHash ops u wf_u s _ (some v) slot, updated u s wf_u arrays slot same),
      )
    where
      updated :
          (u : Tab V) (s : Slot)
          → IsHash ops u
          → u.array ≡ t.array
          → IsSlot u s (place_of ops t key)
          → SameEntries t u
          → IsUpdate ops t (write_slot u s (some v)) key v
      updated u s wf_u arrays slot same key' w =
          let moved =
            place-length ops t (write_slot u s (some v))
              (length-write_slot ops u t s (some v) ∙ ap length arrays) key' in
          let there =
            write_slot_lem ops u wf_u s (place_of ops t key) (place_of ops t key') v w slot in
          let kept = HoldsIn-same ops t u arrays same (place_of ops t key') w in
          rw moved (
            λ h. elim (there.0 h) [ inl e ↦ inl e | inr (ne, x) ↦ inr (ne, kept.0 x) ],
            λ h. there.1 (elim h [ inl e ↦ inl e | inr (ne, x) ↦ inr (ne, kept.1 x) ]),
          )
