-- ===== src/Tab/Find/Correct.antt =====
-- What the getters return.
use probabilistic_lua.Common.{
  ℕ, ◌<◌, ◌^◌, Bool, true, ltb, if◌then◌else◌, length, Option, none, some, Bool-cases, ◌≡◌, ◌↔◌,
  refl, ap, ◌∙◌, inl, inr,
}
use probabilistic_lua.Common.Result.{Result, ok, ◌>>=◌}
use probabilistic_lua.Tab.Types.{TKey, boolean, int, num, str, obj, KeyOps, Tab}
use probabilistic_lua.Tab.Find.{
  get_or, to_slot, value_at, num_key, is_num, is_str, is_key, search_chain, find_inth, find_str,
  find_key, lj_tab_getinth, lj_tab_getstr, lj_tab_getint, lj_tab_get,
}
use probabilistic_lua.Tab.Find.Invariant.{
  IsHash, IsPlain, val_at, Entry, Picks, search_present, search_absent, key-cases,
}
use probabilistic_lua.Tab.Find.Keys.{KeyLaws, is_num-Picks, is_str-Picks, is_key-Picks}

-- A cell of the array part, or a key of the hash part.
pub data Place : Type 0 where
  cell : ℕ → Place
  entry : TKey → Place

module _ (ops : KeyOps) where
  -- A key that a table may have: an int32_t, or a number that is not NaN, or no number.
  abbrev pub IsLegal : TKey → Type 0
  IsLegal (int k) = k < 2 ^ 32
  IsLegal (num lo hi) = ops.num_eq (lo, hi) (lo, hi) ≡ true
  IsLegal (boolean b) = Unit
  IsLegal (str s) = Unit
  IsLegal (obj g a) = Unit

  -- The integer that a key stands for.
  abbrev pub index_of : TKey → Option ℕ
  index_of (int k) = some k
  index_of (num lo hi) = ops.num2int lo hi
  index_of (boolean b) = none
  index_of (str s) = none
  index_of (obj g a) = none

  module _ {V : Type 0} (t : Tab V) where
    -- Where the code keeps an integer key, and any key.
    abbrev pub index_place : ℕ → Place
    index_place i = if ltb i (length t.array) then cell i else entry (num_key ops i)

    abbrev pub place_for : Option ℕ → TKey → Place
    place_for none key = entry key
    place_for (some i) key = index_place i

    abbrev pub place_of : TKey → Place
    place_of key = place_for (index_of key) key

    abbrev pub HoldsIn : Place → V → Type 0
    HoldsIn (cell i) v = get_or t.array i ≡ some v
    HoldsIn (entry k) v = Entry t k v

    -- The table, as a map from keys to values.
    abbrev pub Holds : TKey → V → Type 0
    Holds key v = HoldsIn (place_of key) v

    -- The search for `k` ends, and gives the node that has it.
    module _ (wf : IsHash ops t) where
      pub search-Entry :
          (k : TKey) (test : Option TKey → Bool)
          → Picks ops t wf test k
          → (o : Option ℕ) × (search_chain ops t k test ≡ ok o)
            × ((v : V) → (elim o [ none ↦ none | some n ↦ val_at t n ] ≡ some v) ↔ Entry t k v)
      search-Entry k test picks = elim (key-cases ops t wf k test picks) [
        | inl (n, hn, en) ↦ (
          some n,
          search_present ops t wf k test n picks hn en,
          λ v. (
            λ ev. (n, hn, en, ev),
            λ (i, hi, ei, ev). ap (val_at t) (wf.unique n i k hn hi en ei) ∙ ev,
          ),
        )
        | inr absent ↦ (
          none,
          search_absent ops t wf k test picks absent,
          λ v. (λ ev. cc (ev), λ (i, hi, ei, ev). absurd (absent i hi ei)),
        )
      ]

    -- The code returns a value exactly where `P` says, and no value elsewhere.
    abbrev pub Gets : Result (Option V) → (V → Type 0) → Type 0
    Gets r P = (o : Option V) × (r ≡ ok o) × ((v : V) → (o ≡ some v) ↔ P v)

    module _ (laws : KeyLaws ops) (wf : IsHash ops t) where
      gets_node :
          (k : TKey) (test : Option TKey → Bool)
          → Picks ops t wf test k
          → Gets (to_slot (search_chain ops t k test) >>= λ tv. ok (value_at t tv)) (Entry t k)
      gets_node k test picks = node_value (search-Entry wf k test picks)
        where
          node_value :
              ((o : Option ℕ) × (search_chain ops t k test ≡ ok o)
                × ((v : V) → (elim o [ none ↦ none | some n ↦ val_at t n ] ≡ some v) ↔ Entry t k v))
              → Gets (to_slot (search_chain ops t k test) >>= λ tv. ok (value_at t tv)) (Entry t k)
          node_value (none, r, p) = (none, rw r refl, p)
          node_value (some n, r, p) = (val_at t n, rw r refl, p)

      pub gets_int :
          (k : ℕ)
          → k < 2 ^ 32
          → Gets (lj_tab_getint ops t k >>= λ tv. ok (value_at t tv)) (HoldsIn (index_place k))
      unfolding lj_tab_getint lj_tab_getinth find_inth
      gets_int k h = elim (Bool-cases (ltb k (length t.array))) [
        | inl e ↦ rw e (get_or t.array k, refl, λ v. (λ ev. ev, λ ev. ev))
        | inr e ↦
            let found =
              gets_node (num_key ops k) (is_num ops (ops.int2num k))
                (is_num-Picks ops laws t wf k h) in
            rw e found
      ]

      pub plain :
          (lo hi : ℕ) → IsLegal (num lo hi) → ops.num2int lo hi ≡ none → IsPlain ops (lo, hi)
      plain lo hi h e = (h, λ z. cc (ap (λ (n : ℕ × ℕ). ops.num2int n.0 n.1) z, e, laws.minus_zero))

      -- For doubles that obey the stated laws, a well-formed table, and a key that is an int32_t, a
      -- number other than NaN or no number, lj_tab_get ends within its fuel and returns a value
      -- exactly if the table holds it at that key: in the cell of the array part, or in a node with
      -- the key.
      pub lj_tab_get-Holds :
          (key : TKey) → IsLegal key → Gets (lj_tab_get ops t (some key)) (Holds key)
      unfolding lj_tab_get lj_tab_getstr find_str find_key
      lj_tab_get-Holds (str s) h = gets_node (str s) (is_str ops s) (is_str-Picks ops laws t wf s)
      lj_tab_get-Holds (boolean b) h =
          gets_node (boolean b) (is_key ops (boolean b)) (is_key-Picks ops laws t wf (boolean b) tt)
      lj_tab_get-Holds (obj g a) h =
          gets_node (obj g a) (is_key ops (obj g a)) (is_key-Picks ops laws t wf (obj g a) tt)
      lj_tab_get-Holds (int k) h = gets_int k h
      lj_tab_get-Holds (num lo hi) h = number (ops.num2int lo hi) refl
        where
          number :
              (o : Option ℕ)
              → ops.num2int lo hi ≡ o
              → Gets (lj_tab_get ops t (some (num lo hi))) (HoldsIn (place_for o (num lo hi)))
          number none e =
              let found =
                gets_node (num lo hi) (is_key ops (num lo hi))
                  (is_key-Picks ops laws t wf (num lo hi) (plain lo hi h e)) in
              rw (e, lj_tab_get) found
          number (some k) e =
              let found = gets_int k (laws.num_int lo hi k e) in rw (e, lj_tab_get) found
