-- ===== src/Bcdump/Tests/Reader.antt =====
-- The reader's theorems on the sample prototypes.
use probabilistic_lua.Common.{
  ℕ, ◌/◌, ◌^◌, ◌<◌, List, [], ◌∷◌, ◌++◌, true, false, length, ◌≡◌, arith,
}
use probabilistic_lua.Common.Result.{ok}
use probabilistic_lua.Bcdump.Uleb.{bcread_uleb128, bcread_uleb128_33}
use probabilistic_lua.Bcdump.Uleb.Format.{uleb128}
use probabilistic_lua.Bcdump.Uleb.RoundTrip.{bcread_uleb128-uleb, bcread_uleb128_33-uleb}
use probabilistic_lua.Bcdump.Types.{
  GCproto, int, num, pri, number, str, proto, Kgcs, k_child, k_str, k_tab, k_uint64, k_cons, k_end,
  DebugInfo,
}
use probabilistic_lua.Bcdump.Format.Values.{Ktab, fmts, fmt_knum, fmt_word, fmt_half, fmt_line}
use probabilistic_lua.Bcdump.Format.Load.{load_num}
use probabilistic_lua.Bcdump.Read.Values.{read_knum, bcread_bytecode, bcread_uv, bcread_dbg}
use probabilistic_lua.Bcdump.Read.Values.RoundTrip.{knum-Reads}
use probabilistic_lua.Bcdump.Read.Values.Words.{differs, bytecode-Reads, uv-Reads, dbg-Reads}
use probabilistic_lua.Bcdump.Format.Pieces.{pieces}
use probabilistic_lua.Bcdump.Read.Proto.{LexState}
use probabilistic_lua.Bcdump.Read.Proto.Refill.{joined}
use probabilistic_lua.Bcdump.Tests.Samples.{big, root_info, child_info, root-IsInfo}

abbrev tail : List ℕ
tail = 9 ∷ 8 ∷ []

bcread_uleb128-uleb_example : bcread_uleb128 (uleb128 70000 ++ tail) ≡ ok (70000, tail)
bcread_uleb128-uleb_example = bcread_uleb128-uleb 70000 tail (omega arith)

bcread_uleb128_33-uleb_example :
    bcread_uleb128_33 (uleb128 0x1ffffffff ++ tail) ≡ ok (0x1ffffffff / 2, tail)
bcread_uleb128_33-uleb_example = bcread_uleb128_33-uleb 0x1ffffffff tail (omega arith)

abbrev table : Ktab
table = record {
  vals = pri 0 ∷ number (int 5) ∷ [];
  pairs = (str (97 ∷ []), number (num 1 2)) ∷ [];
}

knum-Reads_example :
    read_knum big (fmt_knum (int 0xfffffff0) ++ tail) ≡ ok (load_num big (int 0xfffffff0), tail)
knum-Reads_example = knum-Reads big (int 0xfffffff0) (omega arith) tail

bytecode-Reads_example :
    bcread_bytecode true (differs false true) 2 (fmts (fmt_word false) root_info.bc ++ tail)
    ≡ ok (root_info.bc, tail)
bytecode-Reads_example = bytecode-Reads false true root_info.bc root-IsInfo.words (omega arith) tail

uv-Reads_example :
    bcread_uv true (differs false true) 1 (fmts (fmt_half false) root_info.uv ++ tail)
    ≡ ok (root_info.uv, tail)
uv-Reads_example = uv-Reads false true root_info.uv root-IsInfo.half_words tail

abbrev debug : DebugInfo
debug = record { lineinfo = 7 ∷ 299 ∷ []; names = 120 ∷ 0 ∷ [] }

debug_small : length (fmts (fmt_line false 300) debug.lineinfo ++ debug.names) < 2 ^ 31
unfolding fmts fmt_line fmt_half
debug_small = omega arith

dbg-Reads_example :
    bcread_dbg true
      (differs false true)
      300
      2
      (length (fmts (fmt_line false 300) debug.lineinfo ++ debug.names))
      ((fmts (fmt_line false 300) debug.lineinfo ++ debug.names) ++ tail)
    ≡ ok (debug, tail)
dbg-Reads_example =
    dbg-Reads false true 300 (omega arith) debug (omega arith, (omega arith, tt)) debug_small tail

abbrev saved_kgcs : Kgcs Ktab
saved_kgcs =
    k_cons (k_child (proto child_info k_end))
      (k_cons (k_str (104 ∷ 105 ∷ [])) (k_cons (k_tab table) (k_cons (k_uint64 1 2) k_end)))

-- The root with its child in a dump, in three blocks, behind the first byte.
abbrev root : GCproto Ktab
root = proto root_info saved_kgcs

abbrev chunk_name : List ℕ
chunk_name = 61 ∷ 116 ∷ []

abbrev input : LexState
input = record {
  p = 0x4c ∷ 0x4a ∷ [];
  chunks =
      (1 ∷ 0 ∷ [])
      ∷ (uleb128 2 ++ chunk_name)
      ∷ (joined (pieces false false root) ++ (0 ∷ []))
      ∷ [];
  eof = false;
  flags = 0;
  chunkname = [];
  stack = [];
}
