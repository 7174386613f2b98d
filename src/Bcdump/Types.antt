-- ===== src/Bcdump/Types.antt =====
-- The constants and objects that a bytecode dump holds: LuaJIT-2.0.1/src/lj_bcdump.h, and the parts of
-- TValue, GCtab and GCproto (lj_obj.h) that the dump writer and reader use.
use probabilistic_lua.Common.{
  some, none, ◌<◌, ◌≤◌, ◌≡◌, All, ℕ, List, Option, Bool, false, ◌==◌, true, false,
}

-- A number constant: a tagged int32 (its bit pattern), or a double by its low and high word.
pub data Knum : Type 0 where
  int : ℕ → Knum
  num : ℕ → ℕ → Knum

-- A key or value of a template table. `pri p` has the tag ~p: nil, false and true are 0, 1 and 2.
pub data TValue : Type 0 where
  pri : ℕ → TValue
  number : Knum → TValue
  str : List ℕ → TValue

abbrev pub tvisnil : TValue → Bool
tvisnil (pri p) = p == 0
tvisnil (number k) = false
tvisnil (str s) = false

-- A template table as the writer finds it: the array part and the node vector (empty for hmask 0).
pub record GCtab : Type 0 where
  pub array : List TValue
  pub nodes : List (TValue × TValue)

-- A template table as the reader makes it: the arguments of `lj_tab_new`, the values stored in the
-- array part, and the calls of `lj_tab_set`, key and stored value, in order.
pub record TabCalls : Type 0 where
  pub asize : ℕ
  pub hbits : ℕ
  pub array : List TValue
  pub sets : List (TValue × TValue)

-- The line numbers, and the bytes of upvalue names and variable names behind them.
pub record DebugInfo : Type 0 where
  pub lineinfo : List ℕ
  pub names : List ℕ

-- A prototype without its GC constants. `bc` are the instructions behind the [JI]FUNC* header, and
-- `header` is that first instruction. `debug` is the memory from `proto_lineinfo(pt)` on.
pub record PtInfo : Type 0 where
  pub flags : ℕ
  pub numparams : ℕ
  pub framesize : ℕ
  pub trace : ℕ
  pub header : ℕ
  pub bc : List ℕ
  pub uv : List ℕ
  pub kn : List Knum
  pub firstline : ℕ
  pub numline : ℕ
  pub debug : Option DebugInfo

-- Prototypes with tables of type `T` among their GC constants. cdata constants are given by words.
mutual
  pub data GCproto (T : Type 0) : Type 0 where
    proto : PtInfo → Kgcs T → GCproto T

  pub data Kgc (T : Type 0) : Type 0 where
    k_str : List ℕ → Kgc T
    k_child : GCproto T → Kgc T
    k_tab : T → Kgc T
    k_int64 : ℕ → ℕ → Kgc T
    k_uint64 : ℕ → ℕ → Kgc T
    k_complex : ℕ → ℕ → ℕ → ℕ → Kgc T

  pub data Kgcs (T : Type 0) : Type 0 where
    k_end : Kgcs T
    k_cons : Kgc T → Kgcs T → Kgcs T

-- What C does with doubles, given by two words: `num2int` is `lj_num2int`, an int32 (as its pattern)
-- for every double; `int2num` is the conversion back; `num_eq` is `==`. `exact` is not in the code: it
-- is the int32 that a double is equal to, if there is one.
pub record NumOps : Type 0 where
  pub num2int : ℕ → ℕ → ℕ
  pub int2num : ℕ → ℕ × ℕ
  pub num_eq : ℕ × ℕ → ℕ × ℕ → Bool
  pub exact : ℕ → ℕ → Option ℕ

-- The build: LJ_DUALNUM, LJ_BE, and the conversions of its double type.
pub record Build : Type 0 where
  pub dualnum : Bool
  pub be : Bool
  pub ops : NumOps

abbrev pub word_mod : ℕ
word_mod = 4294967296

-- What C promises of them: an int32 pattern is a 32-bit word, a double that is equal to an int32 is
-- converted to that int32, and what `exact` means.
pub record NumLaws (ops : NumOps) : Type 0 where
  pub int_range : (lo hi : ℕ) → ops.num2int lo hi < word_mod
  pub truncates :
      (lo hi k : ℕ)
      → k < word_mod
      → ops.num_eq (lo, hi) (ops.int2num k) ≡ true
      → ops.num2int lo hi ≡ k
  pub equal :
      (lo hi k : ℕ)
      → ops.exact lo hi ≡ some k
      → (k < word_mod) × (ops.num_eq (lo, hi) (ops.int2num k) ≡ true)
  pub unequal :
      (lo hi k : ℕ)
      → ops.exact lo hi ≡ none
      → k < word_mod
      → ops.num_eq (lo, hi) (ops.int2num k) ≡ false

-- Values in the range of their C types.
abbrev pub IsKnum : Knum → Type 0
IsKnum (int k) = k < word_mod
IsKnum (num lo hi) = (lo < word_mod) × (hi < word_mod)

abbrev pub IsValue : TValue → Type 0
IsValue (pri p) = p ≤ 2
IsValue (number k) = IsKnum k
IsValue (str s) = Unit

abbrev pub IsPair : TValue × TValue → Type 0
IsPair p = IsValue p.0 × IsValue p.1

abbrev pub IsTab : GCtab → Type 0
IsTab t = All IsValue t.array × All IsPair t.nodes
