-- ===== src/Bcdump/Write/Table.antt =====
-- Template tables: bcwrite_ktabk and bcwrite_ktab of LuaJIT-2.0.1/src/lj_bcwrite.c.
pub mod Narrow
pub mod Adds
use mathlib.Core.List.{reverse}
use probabilistic_lua.Common.{
  ℕ, suc, ◌+◌, ◌-◌, ◌%◌, ◌^◌, List, [], ◌∷◌, Bool, true, false, not, ◌&&◌, ◌==◌, if◌then◌else◌,
  length, take, Option, none, some,
}
use probabilistic_lua.Common.Result.{Result, ok, err, overrun, ◌>>=◌}
use probabilistic_lua.Bcdump.Buffer.{SBuf, bcwrite_byte, bcwrite_block, bcwrite_need}
use probabilistic_lua.Bcdump.Uleb.{bcwrite_uleb128}
use probabilistic_lua.Bcdump.Write.Words.{write_words, write_string}
use probabilistic_lua.Bcdump.Types.{int, num, TValue, pri, number, str, tvisnil, GCtab, Build}

module _ (b : Build) where
  unfoldable pub ktabk_int : SBuf → ℕ → Result SBuf
  ktabk_int sb k = do sb₁ ← bcwrite_byte sb 3; bcwrite_uleb128 sb₁ k

  unfoldable pub ktabk_num : SBuf → ℕ → ℕ → Result SBuf
  ktabk_num sb lo hi = do sb₁ ← bcwrite_byte sb 4; write_words sb₁ lo hi

  -- `k = lj_num2int(num)`, if the build narrows at all and `num == (lua_Number)k`.
  unfoldable pub narrowed : Bool → ℕ → ℕ → Option ℕ
  narrowed narrow lo hi =
      let k = b.ops.num2int lo hi in
      if not b.dualnum && narrow
      then (if b.ops.num_eq (lo, hi) (b.ops.int2num k) then some k else none)
      else none

  unfoldable pub ktabk_value : SBuf → TValue → Bool → Result SBuf
  unfolding ktabk_int ktabk_num
  ktabk_value sb (str s) narrow = write_string sb s
  ktabk_value sb (number (int k)) narrow = ktabk_int sb k
  ktabk_value sb (number (num lo hi)) narrow = elim (narrowed narrow lo hi) [
    | some k ↦ ktabk_int sb k
    | none ↦ ktabk_num sb lo hi
  ]
  ktabk_value sb (pri p) narrow = bcwrite_byte sb ((0 + p) % 2 ^ 8)

  unfoldable pub bcwrite_ktabk : SBuf → TValue → Bool → Result SBuf
  unfolding ktabk_value
  bcwrite_ktabk sb o narrow = do sb₁ ← bcwrite_need sb (1 + 10); ktabk_value sb₁ o narrow

  -- `for (i = 0; i < narray; i++, o++) bcwrite_ktabk(ctx, o, 1)`.
  unfoldable pub write_array : SBuf → List TValue → Result SBuf
  write_array sb [] = ok sb
  write_array sb (o ∷ os) = do sb₁ ← bcwrite_ktabk sb o true; write_array sb₁ os

  -- `for (;; node--)` down from the last node, until `i` used nodes are written. To go below the
  -- node vector is the error `overrun`.
  unfoldable pub write_nodes : SBuf → List (TValue × TValue) → ℕ → Result SBuf
  write_nodes sb [] i = err overrun
  write_nodes sb ((k, v) ∷ ns) i =
      let used = (do
        sb₁ ← bcwrite_ktabk sb k false
        sb₂ ← bcwrite_ktabk sb₁ v true
        let rest = write_nodes sb₂ ns (i - 1)
        if i - 1 == 0 then ok sb₂ else rest) in
      let skip = write_nodes sb ns i in if tvisnil v then skip else used

  -- One more than the last index of a non-nil slot, or 0.
  unfoldable pub narray_of : List TValue → ℕ
  narray_of [] = 0
  narray_of (o ∷ os) = let n = narray_of os in if n == 0 && tvisnil o then 0 else suc n

  -- The number of used nodes.
  unfoldable pub nhash_of : List (TValue × TValue) → ℕ
  nhash_of [] = 0
  nhash_of ((k, v) ∷ ns) = if tvisnil v then nhash_of ns else suc (nhash_of ns)

  unfoldable pub bcwrite_ktab : SBuf → GCtab → Result SBuf
  bcwrite_ktab sb t = do
    let narray = narray_of t.array
    let nhash = nhash_of t.nodes
    sb₁ ← bcwrite_uleb128 sb narray
    sb₂ ← bcwrite_uleb128 sb₁ nhash
    sb₃ ← write_array sb₂ (take narray t.array)
    if nhash == 0 then ok sb₃ else write_nodes sb₃ (reverse t.nodes) nhash
