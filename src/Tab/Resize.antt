-- ===== src/Tab/Resize.antt =====
-- Table resizing: countint, countarray, counthash, bestasize, rehashtab, resizetab and lj_tab_reasize of
-- LuaJIT-2.0.1/src/lj_tab.c. `insert` closes the loop of lj_tab_newkey, rehashtab and lj_tab_set.
pub mod Best
use probabilistic_lua.Common.{
  ℕ, zero, suc, ◌+◌, ◌-◌, ◌*◌, ◌/◌, ◌%◌, ◌^◌, List, [], ◌∷◌, ◌++◌, Bool, true, false, not, ◌&&◌,
  ltb, leb, ◌==◌, if◌then◌else◌, length, take, drop, replicate, Option, none, some,
}
use probabilistic_lua.Common.Result.{
  Result, ok, err, overrun, table_overflow, undefined, stuck, ◌>>=◌,
}
use probabilistic_lua.Tab.Types.{
  TKey, boolean, int, num, str, obj, KeyOps, Node, Tab, empty, update, is_none,
}
use probabilistic_lua.Tab.Find.{Slot, get_or}
use probabilistic_lua.Tab.Set.{write_slot, lj_tab_setinth, lj_tab_set}
use probabilistic_lua.Tab.New.{Memory, lj_max_asize, newhpart, clearhpart}
use probabilistic_lua.Bcdump.Write.Proto.{lj_fls}

-- The array of LJ_MAX_ABITS counts. They are uint32_t; none of them reaches 2^31, since a table has at most
-- 2^27 + 1 cells and 2^26 nodes.
abbrev pub Bins : Type 0
Bins = ℕ → ℕ

-- LJ_MAX_ABITS.
abbrev pub lj_max_abits : ℕ
lj_max_abits = 28

abbrev pub bin_of : ℕ → ℕ
bin_of k = if ltb 2 k then lj_fls (k - 1) else 0

-- The new bins and the count, for a key that is not an `int`.
unfoldable pub countint : KeyOps → Option TKey → Bins → Bins × ℕ
unfolding lj_fls
countint ops (some (num lo hi)) bins = elim (ops.num2int lo hi) [
  | some k ↦
      if ltb k lj_max_asize then (update bins (bin_of k) (bins (bin_of k) + 1), 1) else (bins, 0)
  | none ↦ (bins, 0)
]
countint ops (some (int k)) bins = (bins, 0)
countint ops (some (boolean b)) bins = (bins, 0)
countint ops (some (str s)) bins = (bins, 0)
countint ops (some (obj g a)) bins = (bins, 0)
countint ops none bins = (bins, 0)

-- The loop of bestasize: `nn` keys are counted; the result is the pair of `sz` and `na`. Counts are
-- uint32_t, and an access behind the bins is the error `overrun`.
unfoldable pub best_loop : ℕ → Bins → ℕ → ℕ → ℕ → ℕ → ℕ → Result (ℕ × ℕ)
best_loop zero bins nn b sum sz na = err stuck
best_loop (suc fuel) bins nn b sum sz na =
    let sum₁ = (sum + bins b) % 2 ^ 32 in
    let dense = best_loop fuel bins nn (suc b) sum₁ (2 ^ suc b + 1) sum₁ in
    let sparse = best_loop fuel bins nn (suc b) sum₁ sz na in
    let none_here = best_loop fuel bins nn (suc b) sum sz na in
    let body =
      if ltb 0 (bins b)
      then (if ltb (2 ^ b) (2 * sum₁ % 2 ^ 32) then dense else sparse)
      else none_here in
    if ltb (2 ^ b) (2 * nn % 2 ^ 32) && not (sum == nn)
    then (if ltb b lj_max_abits then body else err overrun)
    else ok (sz, na)

-- bestasize: the new size of the array part, and how many of the keys go there.
unfoldable pub bestasize : Bins → ℕ → Result (ℕ × ℕ)
unfolding best_loop
bestasize bins nn = best_loop 29 bins nn 0 0 0 0

-- hsize2hbits of lj_tab.h.
unfoldable pub hsize2hbits : ℕ → ℕ
unfolding lj_fls
hsize2hbits s = if s == 0 then 0 else (if s == 1 then 1 else 1 + lj_fls (s - 1))

module _ {V : Type 0} where
  -- `for (n = 0; i <= top; i++) if (!tvisnil(&array[i])) n++;`, with `left` cells to go.
  unfoldable pub count_cells : List (Option V) → ℕ → ℕ → ℕ
  count_cells xs zero i = 0
  count_cells xs (suc left) i =
      if is_none (get_or xs i)
      then count_cells xs left (suc i)
      else suc (count_cells xs left (suc i))

  -- The loop over `b`, with `left` bins to go.
  unfoldable pub count_bins : List (Option V) → ℕ → ℕ → ℕ → ℕ → Bins → Bins × ℕ
  unfolding count_cells
  count_bins xs zero b i na bins = (bins, na)
  count_bins xs (suc left) b i na bins =
      let top = if leb (length xs) (2 ^ suc b) then length xs - 1 else 2 ^ suc b in
      let n = count_cells xs (suc top - i) i in
      let rest =
        count_bins xs left (suc b) (i + (suc top - i)) (na + n) (update bins b (bins b + n)) in
      if leb (length xs) (2 ^ suc b) && ltb top i then (bins, na) else rest

  unfoldable pub countarray : Tab V → Bins → Bins × ℕ
  unfolding count_bins
  countarray t bins =
      if length t.array == 0 then (bins, 0) else count_bins t.array lj_max_abits 0 0 0 bins

  -- The loop of counthash, with `left` nodes to go: the bins, the total and the number of array candidates.
  unfoldable pub count_nodes : KeyOps → Tab V → ℕ → ℕ → Bins → ℕ → ℕ → Bins × ℕ × ℕ
  unfolding countint
  count_nodes ops t zero i bins total na = (bins, total, na)
  count_nodes ops t (suc left) i bins total na =
      let r = countint ops (t.node i).key bins in
      let counted = count_nodes ops t left (suc i) r.0 (total + 1) (na + r.1) in
      let skipped = count_nodes ops t left (suc i) bins total na in
      if is_none (t.node i).val then skipped else counted

  unfoldable pub counthash : KeyOps → Tab V → Bins → Bins × ℕ × ℕ
  unfolding count_nodes
  counthash ops t bins = count_nodes ops t (suc t.hmask) 0 bins 0 0

module _ {V : Type 0} (ops : KeyOps) (retry : Tab V → TKey → Result (Tab V × Slot))
    (mem : Memory V) where
  -- `for (i = asize; i < oldasize; i++)` over the cells that are cut off.
  unfoldable pub reinsert_cells : List (Option V) → ℕ → Tab V → Result (Tab V)
  reinsert_cells [] i t = ok t
  reinsert_cells (none ∷ xs) i t = reinsert_cells xs (suc i) t
  reinsert_cells (some v ∷ xs) i t =
      lj_tab_setinth ops retry t i >>= λ r. reinsert_cells xs (suc i) (write_slot r.0 r.1 (some v))

  -- `for (i = 0; i <= oldhmask; i++)` over the old nodes, with `left` to go.
  unfoldable pub reinsert_nodes : (ℕ → Node V) → ℕ → ℕ → Tab V → Result (Tab V)
  reinsert_nodes node zero i t = ok t
  reinsert_nodes node (suc left) i t = elim (node i).val [
    | none ↦ reinsert_nodes node left (suc i) t
    | some v ↦ lj_tab_set ops retry t (node i).key >>= λ r.
        reinsert_nodes node left (suc i) (write_slot r.0 r.1 (some v))
  ]

  unfoldable pub resizetab : Tab V → ℕ → ℕ → Result (Tab V)
  unfolding reinsert_cells reinsert_nodes clearhpart newhpart
  resizetab t asize hbits =
      let oldasize = length t.array in
      let grown : Result (Tab V) =
        if ltb oldasize asize
        then (if ltb lj_max_asize asize
            then err table_overflow
            else ok (record t { array = t.array ++ replicate (asize - oldasize) none }))
        else ok t in
      grown >>= λ t₁.
      (if hbits == 0
        then ok (record t₁ { hmask = 0; node = λ i. empty; freetop = 0 })
        else newhpart mem t₁ hbits >>= λ t₂. ok (clearhpart t₂))
      >>= λ t₂.
          (if ltb asize oldasize
            then reinsert_cells (drop asize t.array) asize
                (record t₂ { array = take asize t.array })
            else ok t₂)
          >>= λ t₃. if t.hmask == 0 then ok t₃ else reinsert_nodes t.node (suc t.hmask) 0 t₃

  unfoldable pub rehashtab : Tab V → TKey → Result (Tab V)
  unfolding countarray counthash countint bestasize resizetab hsize2hbits
  rehashtab t ek =
      let cells = countarray t (λ i. 0) in
      let nodes = counthash ops t cells.0 in
      let extra = countint ops (some ek) nodes.0 in
      let asize = cells.1 + nodes.2 + extra.1 in
      let total = 1 + cells.1 + nodes.1 in
      bestasize extra.0 asize >>= λ r. resizetab t r.0 (hsize2hbits (total - r.1))

  unfoldable pub lj_tab_reasize : Tab V → ℕ → Result (Tab V)
  unfolding resizetab lj_fls
  lj_tab_reasize t nasize =
      resizetab t (nasize + 1) (if t.hmask == 0 then 0 else lj_fls t.hmask + 1)

-- The end of lj_tab_newkey when no node is free, to a depth of `depth` such ends inside each other.
unfoldable pub insert : {V : Type 0} → ℕ → KeyOps → Memory V → Tab V → TKey → Result (Tab V × Slot)
unfolding rehashtab
insert zero ops mem t key = err stuck
insert (suc depth) ops mem t key = rehashtab ops (insert depth ops mem) mem t key >>= λ u.
    lj_tab_set ops (insert depth ops mem) u (some key)
