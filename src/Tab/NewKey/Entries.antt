-- ===== src/Tab/NewKey/Entries.antt =====
-- The entries of the hash part, before and after the stores of lj_tab_newkey.
use probabilistic_lua.Common.{ℕ, ◌≤◌, none, some, eq-cases, ◌≡◌, ◌≢◌, sym, ap, ◌∙◌, inl, inr}
use probabilistic_lua.Tab.Types.{TKey, KeyOps, Node, Tab}
use probabilistic_lua.Tab.Find.Invariant.{IsHash, key_at, val_at, Entry, SameEntries}
use probabilistic_lua.Tab.NewKey.Place.{Placed}
use probabilistic_lua.Tab.NewKey.Rename.{Moved}
use probabilistic_lua.Tab.NewKey.Insert.{Inserted}

module _ {V : Type 0} where
  -- `u` is `t` with a node `i` for the key `k`, which has no value yet.
  pub record IsEntered (ops : KeyOps) (t u : Tab V) (i : ℕ) (k : TKey) : Type 0 where
    pub hash : IsHash ops u
    pub array : u.array ≡ t.array
    pub mask : u.hmask ≡ t.hmask
    pub below : i ≤ u.hmask
    pub key : key_at u i ≡ some k
    pub val : val_at u i ≡ none
    pub same : SameEntries t u

  pub SameEntries-trans : (t u w : Tab V) → SameEntries t u → SameEntries u w → SameEntries t w
  SameEntries-trans t u w p q k v = (λ e. (q k v).0 ((p k v).0 e), λ e. (p k v).1 ((q k v).1 e))

  module _ (t : Tab V) (b : ℕ → Node V) (n f : ℕ) (k : TKey) where
    pub Placed-SameEntries :
        Placed t.node b n k → val_at t n ≡ none → SameEntries t (record t { node = b; freetop = f })
    Placed-SameEntries pl unused g v = (there, back)
      where
        there : Entry t g v → Entry (record t { node = b; freetop = f }) g v
        there (i, hi, ek, ev) =
            let ne : i ≢ n = λ s. cc (ap (val_at t) s, unused, ev) in
            (i, hi, pl.key i ne ∙ ek, pl.val i ∙ ev)

        back : Entry (record t { node = b; freetop = f }) g v → Entry t g v
        back (i, hi, ek, ev) =
            let ev₀ : val_at t i ≡ some v = sym (pl.val i) ∙ ev in
            let ne : i ≢ n = λ s. cc (ap (val_at t) s, unused, ev₀) in
            (i, hi, sym (pl.key i ne) ∙ ek, ev₀)

    pub Inserted-SameEntries :
        Inserted t.node b n f k
        → val_at t f ≡ none
        → SameEntries t (record t { node = b; freetop = f })
    Inserted-SameEntries ins unused g v = (there, back)
      where
        there : Entry t g v → Entry (record t { node = b; freetop = f }) g v
        there (i, hi, ek, ev) =
            let ne : i ≢ f = λ s. cc (ap (val_at t) s, unused, ev) in
            (i, hi, ins.key i ne ∙ ek, ins.val i ∙ ev)

        back : Entry (record t { node = b; freetop = f }) g v → Entry t g v
        back (i, hi, ek, ev) =
            let ev₀ : val_at t i ≡ some v = sym (ins.val i) ∙ ev in
            let ne : i ≢ f = λ s. cc (ap (val_at t) s, unused, ev₀) in
            (i, hi, sym (ins.key i ne) ∙ ek, ev₀)

  pub Moved-SameEntries :
      (t : Tab V) (b : ℕ → Node V) (n f p : ℕ)
      → Moved t.node b n f p
      → n ≤ t.hmask
      → f ≤ t.hmask
      → n ≢ f
      → key_at t f ≡ none
      → SameEntries t (record t { node = b; freetop = f })
  Moved-SameEntries t b n f p mv below_n below_f nf free_f g v = (there, back)
    where
      there : Entry t g v → Entry (record t { node = b; freetop = f }) g v
      there (i, hi, ek, ev) = elim (eq-cases i n) [
        | inl s ↦ (
          f,
          below_f,
          mv.key_f ∙ ap (key_at t) (sym s) ∙ ek,
          mv.val_f ∙ ap (val_at t) (sym s) ∙ ev,
        )
        | inr not_n ↦
            let not_f : i ≢ f = λ s. cc (ap (key_at t) s, free_f, ek) in
            (i, hi, mv.key i not_n not_f ∙ ek, mv.val i not_n not_f ∙ ev)
      ]

      back : Entry (record t { node = b; freetop = f }) g v → Entry t g v
      back (i, hi, ek, ev) = elim (eq-cases i n) [
        | inl s ↦ cc (ap (λ j. (b j).val) s, mv.val_n, ev)
        | inr not_n ↦ elim (eq-cases i f) [
          | inl s ↦ (
            n,
            below_n,
            sym mv.key_f ∙ ap (λ j. (b j).key) (sym s) ∙ ek,
            sym mv.val_f ∙ ap (λ j. (b j).val) (sym s) ∙ ev,
          )
          | inr not_f ↦ (i, hi, sym (mv.key i not_n not_f) ∙ ek, sym (mv.val i not_n not_f) ∙ ev)
        ]
      ]
