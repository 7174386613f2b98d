-- ===== src/Bcdump/Write/Consts.antt =====
-- GC constants and number constants: bcwrite_kgc and bcwrite_knum of LuaJIT-2.0.1/src/lj_bcwrite.c.
pub mod Adds
use probabilistic_lua.Common.{◌+◌, ◌*◌, ◌%◌, ◌^◌, List, [], ◌∷◌, true, length, none, some}
use probabilistic_lua.Common.Result.{Result, ok, ◌>>=◌}
use probabilistic_lua.Bcdump.Buffer.{SBuf, bcwrite_need}
use probabilistic_lua.Bcdump.Uleb.{bcwrite_uleb128}
use probabilistic_lua.Bcdump.Uleb.Wide.{bcwrite_wide}
use probabilistic_lua.Bcdump.Write.Table.{bcwrite_ktab, narrowed}
use probabilistic_lua.Bcdump.Write.Words.{write_words, write_string}
use probabilistic_lua.Bcdump.Types.{
  Knum, int, num, GCtab, Build, Kgc, k_str, k_child, k_tab, k_int64, k_uint64, k_complex, Kgcs,
  k_end, k_cons,
}

module _ (b : Build) where
  unfoldable pub write_kgc : SBuf → Kgc GCtab → Result SBuf
  write_kgc sb (k_str s) = write_string sb s
  write_kgc sb (k_child p) = do sb₁ ← bcwrite_need sb 1; bcwrite_uleb128 sb₁ 0
  write_kgc sb (k_tab t) = do
    sb₁ ← bcwrite_need sb (1 + 2 * 5)
    sb₂ ← bcwrite_uleb128 sb₁ 1
    bcwrite_ktab b sb₂ t
  write_kgc sb (k_int64 lo hi) = do
    sb₁ ← bcwrite_need sb (1 + 4 * 5)
    sb₂ ← bcwrite_uleb128 sb₁ 2
    write_words sb₂ lo hi
  write_kgc sb (k_uint64 lo hi) = do
    sb₁ ← bcwrite_need sb (1 + 4 * 5)
    sb₂ ← bcwrite_uleb128 sb₁ 3
    write_words sb₂ lo hi
  write_kgc sb (k_complex rlo rhi ilo ihi) = do
    sb₁ ← bcwrite_need sb (1 + 4 * 5)
    sb₂ ← bcwrite_uleb128 sb₁ 4
    sb₃ ← write_words sb₂ rlo rhi
    write_words sb₃ ilo ihi

  unfoldable pub bcwrite_kgc : SBuf → Kgcs GCtab → Result SBuf
  bcwrite_kgc sb k_end = ok sb
  bcwrite_kgc sb (k_cons k ks) = do sb₁ ← write_kgc sb k; bcwrite_kgc sb₁ ks

  unfoldable pub write_knum : SBuf → Knum → Result SBuf
  write_knum sb (int k) = bcwrite_wide sb k 0
  write_knum sb (num lo hi) = elim (narrowed b true lo hi) [
    | some k ↦ bcwrite_wide sb k 0
    | none ↦ do sb₁ ← bcwrite_wide sb lo 1; bcwrite_uleb128 sb₁ hi
  ]

  unfoldable pub write_knums : SBuf → List Knum → Result SBuf
  write_knums sb [] = ok sb
  write_knums sb (o ∷ os) = do sb₁ ← write_knum sb o; write_knums sb₁ os

  unfoldable pub bcwrite_knum : SBuf → List Knum → Result SBuf
  bcwrite_knum sb kn = do sb₁ ← bcwrite_need sb ((10 * length kn) % 2 ^ 32); write_knums sb₁ kn
