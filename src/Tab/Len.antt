-- ===== src/Tab/Len.antt =====
-- Table length: unbound_search and lj_tab_len of LuaJIT-2.0.1/src/lj_tab.c.
pub mod Search
pub mod Absent
pub mod Correct
use probabilistic_lua.Common.{
  ℕ, zero, suc, ◌+◌, ◌-◌, ◌*◌, ◌/◌, ◌%◌, ◌^◌, Bool, true, false, not, ◌&&◌, ltb, ◌==◌,
  if◌then◌else◌, length, Option, none, some,
}
use probabilistic_lua.Common.Result.{Result, ok, err, stuck, ◌>>=◌}
use probabilistic_lua.Tab.Types.{KeyOps, Tab, is_none}
use probabilistic_lua.Tab.Find.{get_or, value_at, lj_tab_getint}

-- `while (j - i > 1) { MSize m = (i+j)/2; if (test(m)) i = m; else j = m; } return i;` on fuel.
unfoldable pub binary_search : ℕ → (ℕ → Result Bool) → ℕ → ℕ → Result ℕ
binary_search zero test i j = err stuck
binary_search (suc fuel) test i j =
    let m = ((i + j) % 2 ^ 32) / 2 in
    let next : Result ℕ = test m >>= λ b.
    let upper = binary_search fuel test m j in
    let lower = binary_search fuel test i m in if b then upper else lower in
    if ltb 1 ((j + 2 ^ 32 - i) % 2 ^ 32) then next else ok i

-- `i = 1; while (test(i)) i++; return i - 1;` on fuel.
unfoldable pub linear_search : ℕ → (ℕ → Result Bool) → ℕ → Result ℕ
linear_search zero test i = err stuck
linear_search (suc fuel) test i =
    test i >>= λ b. let rest = linear_search fuel test (suc i) in if b then rest else ok (i - 1)

-- The doubling loop, on fuel.
unfoldable pub double_search : ℕ → ℕ → (ℕ → Result Bool) → ℕ → ℕ → Result ℕ
double_search zero slots test i j = err stuck
double_search (suc fuel) slots test i j =
    let found = binary_search (j - i) test i j in
    test j >>= λ b.
    let j₁ = (j * 2) % 2 ^ 32 in
    let linear = linear_search slots test 1 in
    let rest = double_search fuel slots test j j₁ in
    if b then (if ltb (2 ^ 31 - 3) j₁ then linear else rest) else found

module _ {V : Type 0} (ops : KeyOps) where
  -- `(tv = lj_tab_getint(t, (int32_t)j)) && !tvisnil(tv)`.
  unfoldable pub is_present : Tab V → ℕ → Result Bool
  is_present t j = lj_tab_getint ops t j >>= λ tv. ok (not (is_none (value_at t tv)))

  -- At most 32 doublings; a linear search passes each node and each cell at most once.
  unfoldable pub unbound_search : Tab V → ℕ → Result ℕ
  unbound_search t j = double_search 32 (length t.array + t.hmask + 3) (is_present t) j (suc j)

  unfoldable pub lj_tab_len : Tab V → Result ℕ
  lj_tab_len t =
      let j = length t.array in
      let in_array = binary_search j (λ m. ok (not (is_none (get_or t.array (m - 1))))) 1 j >>= λ i.
      ok (i - 1) in
      let rest = if t.hmask == 0 then ok (j - 1) else unbound_search t (j - 1) in
      if ltb 1 j && is_none (get_or t.array (j - 1)) then in_array else rest
