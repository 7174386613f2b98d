-- ===== src/Tab/New.antt =====
-- Table creation: newhpart, clearhpart, clearapart, newtab, lj_tab_new, lj_tab_new1 and lj_tab_dup of
-- LuaJIT-2.0.1/src/lj_tab.c. Whether the array part is colocated with the object does not show.
pub mod Correct
pub mod Dup
use probabilistic_lua.Common.{
  ℕ, zero, suc, ◌+◌, ◌-◌, ◌/◌, ◌%◌, ◌^◌, List, [], ◌∷◌, Bool, true, false, not, ◌&&◌, ltb, leb,
  ◌==◌, if◌then◌else◌, length, Option, none, some,
}
use probabilistic_lua.Common.Result.{
  Result, ok, err, overrun, undefined, table_overflow, guard, ◌>>◌, ◌>>=◌,
}
use probabilistic_lua.Bcdump.Write.Proto.{lj_fls}
use probabilistic_lua.Tab.Types.{Node, Tab, empty, update}

abbrev pub lj_max_hbits : ℕ
lj_max_hbits = 26

abbrev pub lj_max_asize : ℕ
lj_max_asize = 2 ^ 27 + 1

abbrev pub lj_max_colosize : ℕ
lj_max_colosize = 16

-- What the allocator's memory holds before it is written.
pub record Memory (V : Type 0) : Type 0 where
  pub cells : ℕ → Option V
  pub nodes : ℕ → Node V

module _ {V : Type 0} where
  abbrev pub vector : ℕ → (ℕ → Option V) → List (Option V)
  vector zero f = []
  vector (suc n) f = f 0 ∷ vector n (λ i. f (suc i))

  unfoldable pub newhpart : Memory V → Tab V → ℕ → Result (Tab V)
  newhpart mem t hbits =
      if ltb lj_max_hbits hbits
      then err table_overflow
      else ok (record t { hmask = 2 ^ hbits - 1; node = mem.nodes; freetop = 2 ^ hbits })

  -- `for (i = 0; i < n; i++)` with the stores of clearhpart.
  unfoldable pub clear_nodes : ℕ → (ℕ → Node V) → ℕ → Node V
  clear_nodes zero node = node
  clear_nodes (suc i) node = update (clear_nodes i node) i empty

  unfoldable pub clearhpart : Tab V → Tab V
  unfolding clear_nodes
  clearhpart t = record t { node = clear_nodes (suc t.hmask) t.node }

  unfoldable pub clear_cells : List (Option V) → List (Option V)
  clear_cells [] = []
  clear_cells (x ∷ xs) = none ∷ clear_cells xs

  unfoldable pub clearapart : Tab V → Tab V
  unfolding clear_cells
  clearapart t = record t { array = clear_cells t.array }

  -- A table whose hash part is `&g->nilnode`, and its array part `array`.
  abbrev pub with_array : List (Option V) → Tab V
  with_array array = record { array = array; hmask = 0; node = λ i. empty; freetop = 0 }

  unfoldable pub newtab : Memory V → ℕ → ℕ → Result (Tab V)
  unfolding newhpart
  newtab mem asize hbits =
      let colocated = not (asize == 0) && leb asize lj_max_colosize in
      let separate : Result (Tab V) =
        if asize == 0
        then ok (with_array [])
        else (if ltb lj_max_asize asize
            then err table_overflow
            else ok (with_array (vector asize mem.cells))) in
      let part : Result (Tab V) =
        if colocated then ok (with_array (vector asize mem.cells)) else separate in
      part >>= λ t. if hbits == 0 then ok t else newhpart mem t hbits

  unfoldable pub lj_tab_new : Memory V → ℕ → ℕ → Result (Tab V)
  unfolding newtab clearapart clearhpart
  lj_tab_new mem asize hbits = newtab mem asize hbits >>= λ t.
      let cleared = clearapart t in if t.hmask == 0 then ok cleared else ok (clearhpart cleared)

  unfoldable pub lj_tab_new1 : Memory V → ℕ → Result (Tab V)
  unfolding lj_tab_new
  lj_tab_new1 mem ahsize = lj_tab_new mem (ahsize % 2 ^ 24) (ahsize / 2 ^ 24)

  -- `for (i = 0; i < n; i++)` with the copies of lj_tab_dup.
  unfoldable pub copy_nodes : ℕ → (ℕ → Node V) → (ℕ → Node V) → ℕ → Node V
  copy_nodes zero node knode = node
  copy_nodes (suc i) node knode = update (copy_nodes i node knode) i (knode i)

  -- `for (i = 0; i < asize; i++) copyTV(L, &array[i], &karray[i])`, or the memcpy. A store behind the
  -- new array part is the error `overrun`.
  unfoldable pub copy_cells : List (Option V) → List (Option V) → Result (List (Option V))
  copy_cells array [] = ok array
  copy_cells [] (k ∷ karray) = err overrun
  copy_cells (x ∷ array) (k ∷ karray) = copy_cells array karray >>= λ copied. ok (k ∷ copied)

  -- `next` and `freetop` are indices, where the source's pointers are moved by `d`.
  unfoldable pub lj_tab_dup : Memory V → Tab V → Result (Tab V)
  unfolding newtab copy_nodes copy_cells lj_fls
  lj_tab_dup mem kt =
      newtab mem (length kt.array) (if kt.hmask == 0 then 0 else lj_fls kt.hmask + 1) >>= λ t.
      guard (length kt.array == length t.array && kt.hmask == t.hmask) undefined
      >> (copy_cells t.array kt.array >>= λ array.
          let copied = record t { array = array } in
          if kt.hmask == 0
          then ok copied
          else ok (record copied {
            node = copy_nodes (suc kt.hmask) t.node kt.node;
            freetop = kt.freetop;
          }))
