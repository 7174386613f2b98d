-- ===== src/Bcdump/RoundTrip/Whole.antt =====
-- What the reader makes of the bytes that the writer passes on.
use probabilistic_lua.Common.{
  ℕ, ◌+◌, ◌*◌, ◌^◌, ◌≤◌, List, [], ◌∷◌, ◌++◌, Bool, if◌then◌else◌, length, ◌≡◌, sym, ap, append-nil,
  append_assoc, ◌∙◌,
}
use probabilistic_lua.Common.Result.{ok}
use probabilistic_lua.Bcdump.Types.{Build, NumLaws, GCtab, proto, Kgcs, PtInfo}
use probabilistic_lua.Bcdump.Uleb.Format.{uleb128}
use probabilistic_lua.Bcdump.Format.Save.{save_proto}
use probabilistic_lua.Bcdump.Format.Valid.{IsProto, IsSmall}
use probabilistic_lua.Bcdump.Write.Proto.{lj_bcwrite}
use probabilistic_lua.Bcdump.Write.Proto.Feed.{dump, dump_flags, lj_bcwrite-dump}
use probabilistic_lua.Bcdump.Format.Pieces.{feed, pieces}
use probabilistic_lua.Bcdump.Read.Proto.Refill.{joined}
use probabilistic_lua.Bcdump.Read.Proto.Dump.{joined-append}

-- A writer function that appends all blocks and reports no error.
abbrev pub append_writer : List ℕ → List ℕ → List ℕ × ℕ
append_writer bytes block = (bytes ++ block, 0)

feed-joined :
    (bytes : List ℕ) (cs : List (List ℕ))
    → feed append_writer (bytes, 0) cs ≡ (bytes ++ joined cs, 0)
unfolding feed joined
feed-joined bytes [] = rw (append-nil bytes)
feed-joined bytes (c ∷ cs) = feed-joined (bytes ++ c) cs ∙ rw (append_assoc bytes c (joined cs))

-- The header flags are known, and tell whether the dump is stripped and its byte order.
flag_bits : Bool → Bool → Bool → ℕ
flag_bits ffi strip be = (if be then 1 else 0) + (if strip then 2 else 0) + (if ffi then 0 else 4)

module _ (b : Build) (laws : NumLaws b.ops) (startins : ℕ → ℕ) (strip : Bool) (i : PtInfo)
    (ks : Kgcs GCtab) (name : List ℕ) (v : IsProto (proto i ks))
    (small : IsSmall strip b.be (save_proto b startins strip (proto i ks)))
    (short : 11 * length name + 128 ≤ 2 ^ 31) where
  abbrev body : List ℕ
  body = joined (pieces strip b.be (save_proto b startins strip (proto i ks))) ++ (0 ∷ [])

  abbrev named : List ℕ
  named = if strip then [] else uleb128 (length name) ++ name

  -- The bytes that are passed on, one block after the other.
  pub written :
      lj_bcwrite b startins strip append_writer (proto i ks) name []
      ≡ ok (0x1b ∷ 0x4c ∷ 0x4a ∷ 1 ∷ dump_flags b strip i ∷ (named ++ body), 0)
  unfolding dump joined
  written =
      let blocks = pieces strip b.be (save_proto b startins strip (proto i ks)) in
      let split : joined (blocks ++ ((0 ∷ []) ∷ [])) ≡ body =
        sym (append-nil (joined (blocks ++ ((0 ∷ []) ∷ []))))
        ∙ joined-append blocks ((0 ∷ []) ∷ []) [] in
      lj_bcwrite-dump b laws startins strip append_writer i ks name [] v small short
      ∙ ap ok (feed-joined [] (dump b laws startins strip append_writer i ks name))
      ∙ rw split
