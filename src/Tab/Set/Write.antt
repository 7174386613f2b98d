-- ===== src/Tab/Set/Write.antt =====
-- A store through the slot of a key.
use probabilistic_lua.Common.{
  ℕ, zero, suc, ◌≤◌, ◌<◌, List, [], ◌∷◌, true, length, Option, none, some, eq-cases, ◌≡◌, ◌≢◌, ◌↔◌,
  refl, sym, ap, ◌∙◌, inl, inr, ◌⊎◌, arith, ne→eqb_false, ◌==◌,
}
use probabilistic_lua.Tab.Types.{TKey, KeyOps, Node, Tab, update}
use probabilistic_lua.Tab.Hash.{hashkey}
use probabilistic_lua.Tab.Chain.Edit.{Chain-ext}
use probabilistic_lua.Tab.Find.{Slot, array_slot, node_slot, get_or}
use probabilistic_lua.Tab.Find.Invariant.{IsHash, next_of, key_at, Entry}
use probabilistic_lua.Tab.Find.Correct.{Place, cell, entry, HoldsIn}
use probabilistic_lua.Tab.Set.{set_or, write_slot}

module _ {V : Type 0} where
  pub length-set_or :
      (xs : List (Option V)) (i : ℕ) (v : Option V) → length (set_or xs i v) ≡ length xs
  length-set_or [] i v = refl
  length-set_or (x ∷ xs) zero v = refl
  length-set_or (x ∷ xs) (suc i) v = ap suc (length-set_or xs i v)

  get_set_same :
      (xs : List (Option V)) (i : ℕ) (v : Option V) → i < length xs → get_or (set_or xs i v) i ≡ v
  get_set_same [] i v h = absurd (omega arith)
  get_set_same (x ∷ xs) zero v h = refl
  get_set_same (x ∷ xs) (suc i) v h = get_set_same xs i v (omega arith)

  get_set_other :
      (xs : List (Option V)) (i j : ℕ) (v : Option V)
      → i ≢ j
      → get_or (set_or xs i v) j ≡ get_or xs j
  get_set_other [] i j v h = refl
  get_set_other (x ∷ xs) zero zero v h = absurd (h refl)
  get_set_other (x ∷ xs) zero (suc j) v h = refl
  get_set_other (x ∷ xs) (suc i) zero v h = refl
  get_set_other (x ∷ xs) (suc i) (suc j) v h = get_set_other xs i j v (λ e. h (ap suc e))

  -- The slot of a place.
  abbrev pub IsSlot : Tab V → Slot → Place → Type 0
  IsSlot t (array_slot i) (cell j) = (i ≡ j) × (i < length t.array)
  IsSlot t (node_slot n) (entry k) = (n ≤ t.hmask) × (key_at t n ≡ some k)
  IsSlot t (array_slot i) (entry k) = ⊥
  IsSlot t (node_slot n) (cell j) = ⊥

module _ {V : Type 0} (ops : KeyOps) (t : Tab V) (wf : IsHash ops t) where
  -- Values do not matter to the hash part, but that a free node has none.
  values-IsHash :
      (b : ℕ → Node V) (array : List (Option V))
      → ((i : ℕ) → (b i).key ≡ key_at t i)
      → ((i : ℕ) → (b i).next ≡ next_of t i)
      → ((i : ℕ) → i ≤ t.hmask → (b i).key ≡ none → (b i).val ≡ none)
      → IsHash ops (record t { node = b; array = array })
  unfolding hashkey
  values-IsHash b array key next val =
      let u : Tab V = record t { node = b; array = array } in
      record {
        bits = wf.bits;
        chain = λ i h.
            let (xs, c) = wf.chain i h in
            (xs, Chain-ext (next_of t) (next_of u) (some i) xs next c);
        reach = λ i k xs h e c.
            wf.reach i k xs h (sym (key i) ∙ e)
              (Chain-ext (next_of u) (next_of t) _ xs (λ j. sym (next j)) c);
        unique = λ i j k hi hj ei ej. wf.unique i j k hi hj (sym (key i) ∙ ei) (sym (key j) ∙ ej);
        home = λ i k h e.
            let (g, eg, hg) = wf.home i k h (sym (key i) ∙ e) in
            (g, key (hashkey ops t k) ∙ eg, hg);
        inj = λ i j n hi hj ei ej. wf.inj i j n hi hj (sym (next i) ∙ ei) (sym (next j) ∙ ej);
        next_used = λ i n h e.
            let (hn, (k, ek)) = wf.next_used i n h (sym (next i) ∙ e) in (hn, (k, key n ∙ ek));
        free = λ i h e. (next i ∙ (wf.free i h (sym (key i) ∙ e)).0, val i h e);
        top = wf.top;
        stored = λ i k h e. wf.stored i k h (sym (key i) ∙ e);
        nil_node = λ z. let (top, free) = wf.nil_node z in (top, key 0 ∙ free);
      }

  module _ (n : ℕ) (v : Option V) where
    abbrev node₁ : ℕ → Node V
    node₁ = update t.node n (record (t.node n) { val = v })

    at_n : (i : ℕ) → i ≡ n → node₁ i ≡ record (t.node n) { val = v }
    at_n i e = let test : (n == i) ≡ true = ground (arith, e) in rw test refl

    pub elsewhere : (i : ℕ) → i ≢ n → node₁ i ≡ t.node i
    elsewhere i ne = rw (ne→eqb_false n i (λ e. ne (sym e))) refl

    pub key_kept : (i : ℕ) → (node₁ i).key ≡ key_at t i
    key_kept i = elim (eq-cases i n) [
      | inl e ↦ ap (λ x. x.key) (at_n i e) ∙ ap (key_at t) (sym e)
      | inr ne ↦ ap (λ x. x.key) (elsewhere i ne)
    ]

    next_kept : (i : ℕ) → (node₁ i).next ≡ next_of t i
    next_kept i = elim (eq-cases i n) [
      | inl e ↦ ap (λ x. x.next) (at_n i e) ∙ ap (next_of t) (sym e)
      | inr ne ↦ ap (λ x. x.next) (elsewhere i ne)
    ]

    pub write_node-IsHash :
        (k : TKey) → key_at t n ≡ some k → IsHash ops (write_slot t (node_slot n) v)
    write_node-IsHash k e = values-IsHash node₁ t.array key_kept next_kept (λ i h free.
        elim (eq-cases i n) [
          | inl s ↦
              let en : key_at t n ≡ none = ap (key_at t) (sym s) ∙ sym (key_kept i) ∙ free in
              cc (e, en)
          | inr ne ↦ ap (λ x. x.val) (elsewhere i ne) ∙ (wf.free i h (sym (key_kept i) ∙ free)).1
        ])

  pub write_slot-IsHash :
      (s : Slot) (p : Place) (v : Option V) → IsSlot t s p → IsHash ops (write_slot t s v)
  write_slot-IsHash (array_slot i) p v h =
      values-IsHash t.node (set_or t.array i v) (λ j. refl) (λ j. refl)
        (λ j hj e. (wf.free j hj e).1)
  write_slot-IsHash (node_slot n) (entry k) v h = write_node-IsHash n v k h.1
  write_slot-IsHash (node_slot n) (cell j) v h = absurd h

  -- The place of the slot holds the new value, and no other,
  pub write_slot-same :
      (s : Slot) (p : Place) (v w : V)
      → IsSlot t s p
      → HoldsIn ops (write_slot t s (some v)) p w ↔ (w ≡ v)
  write_slot-same (array_slot i) (cell j) v w (e, h) =
      let now : get_or (set_or t.array i (some v)) j ≡ some v =
        ap (get_or (set_or t.array i (some v))) (sym e) ∙ get_set_same t.array i (some v) h in
      (λ x. cc (x, now), λ x. now ∙ ap some (sym x))
  write_slot-same (node_slot n) (entry k) v w (hn, en) = (forth, back)
    where
      now : (node₁ n (some v) n).val ≡ some v
      now = ap (λ x. x.val) (at_n n (some v) n refl)

      forth : Entry (write_slot t (node_slot n) (some v)) k w → w ≡ v
      forth (i, hi, ei, ev) =
          let same : i ≡ n = wf.unique i n k hi hn (sym (key_kept n (some v) i) ∙ ei) en in
          let ev' : (node₁ n (some v) n).val ≡ some w =
            ap (λ j. (node₁ n (some v) j).val) (sym same) ∙ ev in
          cc (ev', now)

      back : w ≡ v → Entry (write_slot t (node_slot n) (some v)) k w
      back e = (n, hn, key_kept n (some v) n ∙ en, now ∙ ap some (sym e))
  write_slot-same (array_slot i) (entry k) v w h = absurd h
  write_slot-same (node_slot n) (cell j) v w h = absurd h

  -- and every other place holds what it held.
  pub write_slot-other :
      (s : Slot) (p q : Place) (v : Option V) (w : V)
      → IsSlot t s p
      → q ≢ p
      → HoldsIn ops (write_slot t s v) q w ↔ HoldsIn ops t q w
  write_slot-other (array_slot i) (cell j) (cell j') v w (e, h) ne =
      let kept = get_set_other t.array i j' v (λ s. ne (ap cell (sym s ∙ e))) in
      (λ x. sym kept ∙ x, λ x. kept ∙ x)
  write_slot-other (array_slot i) (cell j) (entry k) v w h ne = (λ x. x, λ x. x)
  write_slot-other (node_slot n) (entry k) (cell j) v w h ne = (λ x. x, λ x. x)
  write_slot-other (node_slot n) (entry k) (entry g) v w (hn, en) ne = (forth, back)
    where
      forth : Entry (write_slot t (node_slot n) v) g w → Entry t g w
      forth (i, hi, ei, ev) =
          let ei₀ : key_at t i ≡ some g = sym (key_kept n v i) ∙ ei in
          let differ : i ≢ n = λ s. ne (ap entry (cc (ap (key_at t) s, ei₀, en))) in
          (i, hi, ei₀, ap (λ x. x.val) (sym (elsewhere n v i differ)) ∙ ev)

      back : Entry t g w → Entry (write_slot t (node_slot n) v) g w
      back (i, hi, ei, ev) =
          let differ : i ≢ n = λ s. ne (ap entry (cc (ap (key_at t) s, ei, en))) in
          (i, hi, key_kept n v i ∙ ei, ap (λ x. x.val) (elsewhere n v i differ) ∙ ev)
  write_slot-other (array_slot i) (entry k) q v w h ne = absurd h
  write_slot-other (node_slot n) (cell j) q v w h ne = absurd h

  -- Both together: the new value at the place of the slot, and the rest as it was.
  pub write_slot_lem :
      (s : Slot) (p q : Place) (v w : V)
      → IsSlot t s p
      → HoldsIn ops (write_slot t s (some v)) q w
        ↔ (((q ≡ p) × (w ≡ v)) ⊎ ((q ≢ p) × HoldsIn ops t q w))
  write_slot_lem s p q v w slot = (forth s p q slot, back)
    where
      back :
          ((q ≡ p) × (w ≡ v)) ⊎ ((q ≢ p) × HoldsIn ops t q w)
          → HoldsIn ops (write_slot t s (some v)) q w
      back (inl (e, ew)) = rw e ((write_slot-same s p v w slot).1 ew)
      back (inr (ne, h)) = (write_slot-other s p q (some v) w slot ne).1 h

      forth :
          (s : Slot) (p q : Place)
          → IsSlot t s p
          → HoldsIn ops (write_slot t s (some v)) q w
          → ((q ≡ p) × (w ≡ v)) ⊎ ((q ≢ p) × HoldsIn ops t q w)
      forth (array_slot i) (cell j) (cell j') slot h = elim (eq-cases j' j) [
        | inl e ↦
            let h₁ : get_or (set_or t.array i (some v)) j ≡ some w =
              ap (get_or (set_or t.array i (some v))) (sym e) ∙ h in
            inl (ap cell e, (write_slot-same (array_slot i) (cell j) v w slot).0 h₁)
        | inr ne ↦
            let differ : cell j' ≢ cell j = λ e. ne (cc (e)) in
            inr (
              differ,
              (write_slot-other (array_slot i) (cell j) (cell j') (some v) w slot differ).0 h,
            )
      ]
      forth (array_slot i) (cell j) (entry k) slot h = inr (λ e. cc (e), h)
      forth (node_slot n) (entry k) (cell j) slot h = inr (λ e. cc (e), h)
      forth (node_slot n) (entry k) (entry g) slot (i, hi, ei, ev) =
          let ei₀ : key_at t i ≡ some g = sym (key_kept n (some v) i) ∙ ei in
          elim (eq-cases i n) [
            | inl e ↦
                let same : g ≡ k = cc (ap (key_at t) e, ei₀, slot.1) in
                inl (
                  ap entry same,
                  (write_slot-same (node_slot n) (entry k) v w slot).0
                      (i, hi, ei ∙ ap some same, ev),
                )
            | inr ne ↦
                let differ : entry g ≢ entry k = λ e.
                  let same : g ≡ k = cc (e) in
                  ne (wf.unique i n g hi slot.0 ei₀ (slot.1 ∙ ap some (sym same))) in
                inr (
                  differ,
                  (write_slot-other (node_slot n) (entry k) (entry g) (some v) w slot differ).0
                      (i, hi, ei, ev),
                )
          ]
      forth (array_slot i) (entry k) q slot h = absurd slot
      forth (node_slot n) (cell j) q slot h = absurd slot
