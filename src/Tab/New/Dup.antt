-- ===== src/Tab/New/Dup.antt =====
-- The table that lj_tab_dup returns.
use probabilistic_lua.Common.{
  ℕ, zero, suc, ◌+◌, ◌-◌, ◌^◌, ◌≤◌, ◌<◌, List, [], ◌∷◌, Option, true, ◌==◌, length, eq-cases,
  ne→eqb_false, le→ltb, ◌≡◌, ◌≢◌, refl, sym, ap, ◌∙◌, inl, inr, arith,
}
use native.Mathlib.Nat.{one-le-pow, pow-suc, pow-le-pow_right}
use probabilistic_lua.Common.Result.{ok}
use probabilistic_lua.Bcdump.Write.Proto.{lj_fls}
use probabilistic_lua.Bcdump.Write.Proto.Size.{lj_fls_lem}
use probabilistic_lua.Tab.Types.{KeyOps, Node, Tab}
use probabilistic_lua.Tab.Find.Invariant.{IsHash, next_of, key_at, val_at}
use probabilistic_lua.Tab.Len.Correct.{IsSized}
use probabilistic_lua.Tab.New.{
  Memory, copy_nodes, copy_cells, newhpart, lj_tab_dup, vector, with_array,
}
use probabilistic_lua.Tab.New.Correct.{newtab_array}

-- The same cells, and the same nodes in the range of the hash part.
pub record IsCopy {V : Type 0} (t u : Tab V) : Type 0 where
  pub array : u.array ≡ t.array
  pub mask : u.hmask ≡ t.hmask
  pub top : u.freetop ≡ t.freetop
  pub key : (i : ℕ) → i ≤ t.hmask → key_at u i ≡ key_at t i
  pub val : (i : ℕ) → i ≤ t.hmask → val_at u i ≡ val_at t i
  pub next : (i : ℕ) → i ≤ t.hmask → next_of u i ≡ next_of t i

copy_nodes_lem :
    {V : Type 0} (n i : ℕ) (node knode : ℕ → Node V) → i < n → copy_nodes n node knode i ≡ knode i
unfolding copy_nodes
copy_nodes_lem zero i node knode h = absurd (omega arith)
copy_nodes_lem (suc n) i node knode h = elim (eq-cases n i) [
  | inl e ↦ let test : (n == i) ≡ true = ground (arith, e) in rw test (ap knode e)
  | inr ne ↦ rw (ne→eqb_false n i ne) (copy_nodes_lem n i node knode (omega arith))
]

copy_cells_lem :
    {V : Type 0} (array karray : List (Option V))
    → length array ≡ length karray
    → copy_cells array karray ≡ ok karray
unfolding copy_cells
copy_cells_lem [] [] e = refl
copy_cells_lem (x ∷ array) [] e = absurd (omega (arith, e))
copy_cells_lem [] (k ∷ karray) e = absurd (omega (arith, e))
copy_cells_lem (x ∷ array) (k ∷ karray) e = rw (copy_cells_lem array karray (omega (arith, e)))

length-vector : {V : Type 0} (n : ℕ) (f : ℕ → Option V) → length (vector n f) ≡ n
length-vector zero f = refl
length-vector (suc n) f = ap suc (length-vector n (λ i. f (suc i)))

eqb_same : (a b : ℕ) → a ≡ b → (a == b) ≡ true
eqb_same a b e = ground (arith, e)

plus_one : (k : ℕ) → k + 1 ≡ suc k
plus_one k = omega arith

-- The number of hash bits of a table with a hash part.
hash_bits : (b m : ℕ) → m + 1 ≡ 2 ^ b → m ≢ 0 → m < 2 ^ 26 → (lj_fls m + 1 ≡ b) × (b ≤ 26)
hash_bits zero m e pos small = absurd (pos (omega arith))
hash_bits (suc k) m e pos small = elim (eq-cases (k - 25) 0) [
  | inl z ↦ (
    ap (λ (x : ℕ). x + 1)
          (lj_fls_lem k m (omega arith) (omega (arith, pow-suc 2 k, one-le-pow k 2)) (omega arith))
        ∙ plus_one k,
    omega arith,
  )
  | inr large ↦
      let wide : 27 ≤ suc k = omega arith in
      let two : 0 < 2 = omega arith in
      let big : 2 ^ 27 ≤ 2 ^ suc k = pow-le-pow_right two wide in absurd (omega (arith, big))
]

module _ {V : Type 0} (ops : KeyOps) (mem : Memory V) (t : Tab V) (wf : IsHash ops t)
    (sized : IsSized ops t) where
  new_cells : length t.array ≡ length (vector (length t.array) mem.cells)
  new_cells = sym (length-vector (length t.array) mem.cells)

  copied : copy_cells (vector (length t.array) mem.cells) t.array ≡ ok t.array
  copied = copy_cells_lem (vector (length t.array) mem.cells) t.array (sym new_cells)

  dup_array :
      t.hmask ≡ 0
      → lj_tab_dup mem t
        ≡ ok (record (with_array (vector (length t.array) mem.cells)) { array = t.array })
  unfolding lj_tab_dup
  dup_array z =
      let test : (t.hmask == 0) ≡ true = ground (arith, z) in
      let cells = eqb_same _ _ new_cells in
      rw (test, newtab_array mem (length t.array) 0 sized.0, cells, test, copied) refl

  dup_hash :
      t.hmask ≢ 0
      → (b : ℕ) → t.hmask + 1 ≡ 2 ^ b
      → lj_tab_dup mem t
        ≡ ok (record {
          array = t.array;
          hmask = 2 ^ b - 1;
          node = copy_nodes (suc t.hmask) mem.nodes t.node;
          freetop = t.freetop;
        })
  unfolding lj_tab_dup newhpart
  dup_hash pos b e =
      let (bits, small) = hash_bits b t.hmask e pos sized.1 in
      let some_bits : b ≢ 0 = λ z. pos (omega (arith, e, ap (λ (x : ℕ). 2 ^ x) z)) in
      rw
        (
          ne→eqb_false t.hmask 0 pos,
          bits,
          newtab_array mem (length t.array) b sized.0,
          ne→eqb_false b 0 some_bits,
          le→ltb 26 b small,
          eqb_same (length t.array) (length (vector (length t.array) mem.cells)) new_cells,
          eqb_same t.hmask (2 ^ b - 1) (omega (arith, e)),
          copied,
        )
        refl

  -- For a well-formed table whose parts are within the limits of the allocation, whatever the new
  -- memory holds, lj_tab_dup passes its assertion, stores nothing behind the new array part, and
  -- returns a table with the same cells, the same number of nodes, the same keys, values and
  -- pointers in them, and the same bound of the free nodes.
  pub lj_tab_dup-IsCopy : (u : Tab V) × (lj_tab_dup mem t ≡ ok u) × IsCopy t u
  lj_tab_dup-IsCopy = elim (eq-cases t.hmask 0) [
    | inl z ↦
        let (top, no_key) = wf.nil_node z in
        let first : (i : ℕ) → i ≤ t.hmask → 0 ≡ i = λ i h. omega arith in
        let (no_next, no_val) = wf.free 0 (omega arith) no_key in
        (
          record (with_array (vector (length t.array) mem.cells)) { array = t.array },
          dup_array z,
          record {
            array = refl;
            mask = sym z;
            top = sym top;
            key = λ i h. sym no_key ∙ ap (key_at t) (first i h);
            val = λ i h. sym no_val ∙ ap (val_at t) (first i h);
            next = λ i h. sym no_next ∙ ap (next_of t) (first i h);
          },
        )
    | inr pos ↦
        let (b, e) = wf.bits in
        let same : (i : ℕ) → i ≤ t.hmask → copy_nodes (suc t.hmask) mem.nodes t.node i ≡ t.node i =
          λ i h. copy_nodes_lem (suc t.hmask) i mem.nodes t.node (omega arith) in
        (
          _,
          dup_hash pos b e,
          record {
            array = refl;
            mask = omega (arith, e);
            top = refl;
            key = λ i h. ap (λ x. x.key) (same i h);
            val = λ i h. ap (λ x. x.val) (same i h);
            next = λ i h. ap (λ x. x.next) (same i h);
          },
        )
  ]
