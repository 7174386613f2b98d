-- ===== src/Bcdump/Tests/RoundTrip.antt =====
-- The sample prototypes written on a little-endian build and read on a big-endian one.
use probabilistic_lua.Common.{ℕ, List, [], ◌∷◌, ◌++◌, false}
use probabilistic_lua.Bcdump.Types.{GCproto, proto, GCtab}
use probabilistic_lua.Bcdump.Uleb.Format.{uleb128}
use probabilistic_lua.Bcdump.Format.Values.{Ktab}
use probabilistic_lua.Bcdump.Format.Save.{save_proto}
use probabilistic_lua.Bcdump.Format.Pieces.{pieces}
use probabilistic_lua.Bcdump.Read.Proto.{LexState}
use probabilistic_lua.Bcdump.Read.Proto.Refill.{joined}
use probabilistic_lua.Bcdump.Tests.Samples.{little, root_info, root_kgcs}

abbrev root : GCproto GCtab
root = proto root_info root_kgcs

abbrev saved : GCproto Ktab
saved = save_proto little (λ t. t) false root

abbrev chunk_name : List ℕ
chunk_name = 61 ∷ 116 ∷ []

-- Behind the first byte, the input comes in two blocks.
abbrev input : LexState
input = record {
  p = 0x4c ∷ 0x4a ∷ [];
  chunks =
      (1 ∷ 0 ∷ ((uleb128 2 ++ chunk_name) ++ (joined (pieces false false saved) ++ (0 ∷ [])))) ∷ [];
  eof = false;
  flags = 0;
  chunkname = [];
  stack = [];
}
