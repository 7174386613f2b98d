-- ===== src/Tab/New/Correct.antt =====
-- The table that lj_tab_new returns.
use probabilistic_lua.Common.{
  ℕ, zero, suc, ◌+◌, ◌-◌, ◌^◌, ◌≤◌, ◌<◌, List, [], ◌∷◌, true, leb, ◌==◌, if◌then◌else◌, length,
  replicate, Option, none, some, eq-cases, Bool-cases, ne→eqb_false, le→ltb, ◌≡◌, ◌≢◌, refl, ap,
  ◌∙◌, inl, inr, arith,
}
use native.Mathlib.Nat.{one-le-pow, pow-suc}
use probabilistic_lua.Common.Result.{ok}
use probabilistic_lua.Tab.Types.{TKey, KeyOps, Node, Tab, empty}
use probabilistic_lua.Tab.Find.Invariant.{IsHash, next_of, key_at}
use probabilistic_lua.Tab.New.{
  Memory, lj_max_asize, lj_max_hbits, clear_nodes, clear_cells, clearapart, clearhpart, newhpart,
  newtab, lj_tab_new, vector, with_array,
}

two_le_pow : (b : ℕ) → b ≢ 0 → 2 ≤ 2 ^ b
two_le_pow zero h = absurd (h refl)
two_le_pow (suc b) h = grind (arith, pow-suc 2 b, one-le-pow b 2)

module _ {V : Type 0} where
  clear_nodes_lem : (n i : ℕ) (node : ℕ → Node V) → i < n → clear_nodes n node i ≡ empty
  unfolding clear_nodes
  clear_nodes_lem zero i node h = absurd (omega arith)
  clear_nodes_lem (suc n) i node h = elim (eq-cases n i) [
    | inl e ↦ let test : (n == i) ≡ true = ground (arith, e) in rw test refl
    | inr ne ↦ rw (ne→eqb_false n i ne) (clear_nodes_lem n i node (omega arith))
  ]

  clear_cells_lem : (xs : List (Option V)) → clear_cells xs ≡ replicate (length xs) none
  unfolding clear_cells
  clear_cells_lem [] = refl
  clear_cells_lem (x ∷ xs) = ap (λ t. none ∷ t) (clear_cells_lem xs)

  length-vector : (n : ℕ) (f : ℕ → Option V) → length (vector n f) ≡ n
  length-vector zero f = refl
  length-vector (suc n) f = ap suc (length-vector n (λ i. f (suc i)))

  -- A hash part of empty nodes is well formed.
  pub empty-IsHash :
      (ops : KeyOps) (t : Tab V) (b : ℕ)
      → t.hmask + 1 ≡ 2 ^ b
      → t.freetop ≤ t.hmask + 1
      → (t.hmask ≡ 0 → t.freetop ≡ 0)
      → ((i : ℕ) → i ≤ t.hmask → t.node i ≡ empty)
      → IsHash ops t
  empty-IsHash ops t b size top nil clear =
      let no_key : (i : ℕ) (k : TKey) → i ≤ t.hmask → key_at t i ≢ some k =
        λ i k h e. cc (ap (λ x. x.key) (clear i h), e) in
      let no_next : (i n : ℕ) → i ≤ t.hmask → next_of t i ≢ some n =
        λ i n h e. cc (ap (λ x. x.next) (clear i h), e) in
      record {
        bits = (b, size);
        chain = λ i h. (i ∷ [], (refl, ap (λ x. x.next) (clear i h)));
        reach = λ i k xs h e c. absurd (no_key i k h e);
        unique = λ i j k hi hj ei ej. absurd (no_key i k hi ei);
        home = λ i k h e. absurd (no_key i k h e);
        inj = λ i j n hi hj ei ej. absurd (no_next i n hi ei);
        next_used = λ i n h e. absurd (no_next i n h e);
        free = λ i h e. (ap (λ x. x.next) (clear i h), ap (λ x. x.val) (clear i h));
        top = top;
        stored = λ i k h e. absurd (no_key i k h e);
        nil_node = λ z. (nil z, ap (λ x. x.key) (clear 0 (omega arith)));
      }

  module _ (mem : Memory V) (asize hbits : ℕ) where
    pub newtab_array :
        asize ≤ lj_max_asize
        → newtab mem asize hbits ≡ (
            if hbits == 0
            then ok (with_array (vector asize mem.cells))
            else newhpart mem (with_array (vector asize mem.cells)) hbits)
    unfolding newtab
    newtab_array h = elim (eq-cases asize 0) [
      | inl z ↦ rw z refl
      | inr ne ↦ elim (Bool-cases (leb asize 16)) [
        | inl small ↦ rw (ne→eqb_false asize 0 ne, small) refl
        | inr large ↦ rw (ne→eqb_false asize 0 ne, large, le→ltb lj_max_asize asize h) refl
      ]
    ]

    cleared : clear_cells (vector asize mem.cells) ≡ replicate asize none
    cleared =
        clear_cells_lem (vector asize mem.cells)
        ∙ ap (λ n. replicate n none) (length-vector asize mem.cells)

    -- An empty table of the sizes asked for.
    abbrev pub IsNew : KeyOps → Tab V → Type 0
    IsNew ops t =
        IsHash ops t
        × (t.array ≡ replicate asize none)
        × (t.hmask + 1 ≡ 2 ^ hbits)
        × ((i : ℕ) → i ≤ t.hmask → t.node i ≡ empty)

    IsNew-hash :
        (ops : KeyOps)
        → hbits ≢ 0
        → hbits ≤ lj_max_hbits
        → asize ≤ lj_max_asize
        → (t : Tab V) × (lj_tab_new mem asize hbits ≡ ok t) × IsNew ops t
    unfolding lj_tab_new newhpart clearapart clearhpart
    IsNew-hash ops pos small h =
        let big = two_le_pow hbits pos in
        let sized : (2 ^ hbits - 1) + 1 ≡ 2 ^ hbits = omega (arith, big) in
        let node = clear_nodes (suc (2 ^ hbits - 1)) mem.nodes in
        let t : Tab V = record {
          array = clear_cells (vector asize mem.cells);
          hmask = 2 ^ hbits - 1;
          node = node;
          freetop = 2 ^ hbits;
        } in
        let clear : (i : ℕ) → i ≤ 2 ^ hbits - 1 → node i ≡ empty =
          λ i hi. clear_nodes_lem (suc (2 ^ hbits - 1)) i mem.nodes (omega arith) in
        (
          t,
          rw
              (
                newtab_array h,
                ne→eqb_false hbits 0 pos,
                le→ltb lj_max_hbits hbits small,
                ne→eqb_false (2 ^ hbits - 1) 0 (omega (arith, big)),
              )
              refl,
          (
            empty-IsHash ops t hbits sized (omega (arith, big))
                (λ z. absurd (omega (arith, big, z))) clear,
            cleared,
            sized,
            clear,
          ),
        )

    IsNew-array :
        (ops : KeyOps)
        → hbits ≡ 0
        → asize ≤ lj_max_asize
        → (t : Tab V) × (lj_tab_new mem asize hbits ≡ ok t) × IsNew ops t
    unfolding lj_tab_new clearapart
    IsNew-array ops z h =
        let t : Tab V = with_array (clear_cells (vector asize mem.cells)) in
        let test : (hbits == 0) ≡ true = ground (arith, z) in
        let sized : 0 + 1 ≡ 2 ^ hbits = rw z refl in
        (
          t,
          rw (newtab_array h, test) refl,
          (
            empty-IsHash ops t hbits sized (omega arith) (λ e. refl) (λ i hi. refl),
            cleared,
            sized,
            λ i hi. refl,
          ),
        )

    -- For sizes within the limits, whatever the new memory holds, lj_tab_new returns a well-formed
    -- table with as many empty cells as asked for and 2 ^ hbits empty nodes.
    pub lj_tab_new-IsNew :
        (ops : KeyOps)
        → asize ≤ lj_max_asize
        → hbits ≤ lj_max_hbits
        → (t : Tab V) × (lj_tab_new mem asize hbits ≡ ok t) × IsNew ops t
    lj_tab_new-IsNew ops h small = elim (eq-cases hbits 0) [
      | inl z ↦ IsNew-array ops z h
      | inr pos ↦ IsNew-hash ops pos small h
    ]
