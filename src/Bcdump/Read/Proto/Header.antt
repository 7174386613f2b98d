-- ===== src/Bcdump/Read/Proto/Header.antt =====
-- The reader on the header and on the end of a dump.
use probabilistic_lua.Common.{
  ℕ, ◌+◌, ◌*◌, ◌^◌, ◌≤◌, ◌<◌, bit_and, List, [], ◌∷◌, ◌++◌, Bool, true, false, not, ◌==◌,
  if◌then◌else◌, length, length-append, lt→ltb, lt→leb_false, ◌≡◌, refl, ap, ◌∙◌, arith,
  append_assoc,
}
use probabilistic_lua.Common.Result.{Result, ok}
use probabilistic_lua.Bcdump.Uleb.{bcread_byte, bcread_uleb128}
use probabilistic_lua.Bcdump.Uleb.Format.{uleb128, length-uleb}
use probabilistic_lua.Bcdump.Types.{Build}
use probabilistic_lua.Bcdump.Read.Values.{bcread_mem}
use probabilistic_lua.Bcdump.Read.Values.RoundTrip.{uleb-Reads, mem-Reads}
use probabilistic_lua.Bcdump.Read.Proto.{
  LexState, bcread_want, bcread_need, read_chunkname, bcread_header,
}
use probabilistic_lua.Bcdump.Read.Proto.Refill.{joined, Holds, need-Filled, want-Filled, at_front}

module _ (b : Build) where
  name_step :
      (chunkarg : List ℕ) (ls : LexState) (n : ℕ) (mid p₂ : List ℕ) (c₂ : List (List ℕ))
      (name mid₂ : List ℕ)
      → not (bit_and ls.flags 2 == 0) ≡ false
      → bcread_uleb128 ls.p ≡ ok (n, mid)
      → bcread_need (record ls { p = mid }) n ≡ ok (record ls { p = p₂; chunks = c₂ })
      → bcread_mem n p₂ ≡ ok (name, mid₂)
      → read_chunkname b chunkarg ls ≡ ok (record ls { p = mid₂; chunks = c₂; chunkname = name })
  unfolding read_chunkname
  name_step chunkarg ls n mid p₂ c₂ name mid₂ e₁ e₂ e₃ e₄ = rw (e₁, e₂, e₃, e₄)

  header_step :
      (chunkarg : List ℕ) (ls after : LexState) (flags : ℕ) (p₁ : List ℕ) (c₁ : List (List ℕ))
      (mid : List ℕ)
      → bcread_want ls 13 ≡ ok (record ls { p = p₁; chunks = c₁ })
      → p₁ ≡ 0x4c ∷ 0x4a ∷ 1 ∷ flags ∷ mid
      → flags < 8
      → read_chunkname b chunkarg (record ls { p = mid; chunks = c₁; flags = flags }) ≡ ok after
      → bcread_header b chunkarg ls ≡ ok after
  unfolding bcread_header bcread_byte bcread_uleb128
  header_step chunkarg ls after flags p₁ c₁ mid e₁ e₂ known e₃ =
      rw (e₁, e₂, lt→leb_false 128 flags (omega arith), lt→ltb flags 8 known, e₃)

  -- The header is read, and `rest` is still to come.
  pub record Headed (ls : LexState) (flags : ℕ) (name rest : List ℕ) (r : Result LexState)
      : Type 0 where
    pub after : LexState
    pub run : r ≡ ok after
    pub holds : Holds after rest
    pub new_flags : after.flags ≡ flags
    pub same_stack : after.stack ≡ ls.stack
    pub new_name : after.chunkname ≡ name

  name-Headed :
      (chunkarg name : List ℕ) (ls : LexState) (strip : Bool) (rest : List ℕ)
      → not (bit_and ls.flags 2 == 0) ≡ strip
      → 11 * length name + 128 ≤ 2 ^ 31
      → 5 ≤ length ls.p
      → Holds ls ((if strip then [] else uleb128 (length name) ++ name) ++ rest)
      → Headed ls ls.flags (if strip then chunkarg else name) rest (read_chunkname b chunkarg ls)
  name-Headed chunkarg name ls true rest strips small long h = record {
    after = record ls { chunkname = chunkarg };
    run = unfold read_chunkname in rw strips;
    holds = record { input = h.input; blocks = h.blocks; open_end = h.open_end; short = h.short };
    new_flags = refl;
    same_stack = refl;
    new_name = refl;
  }
  name-Headed chunkarg name ls false rest strips small long h =
      let n = length name in
      let (mid, same, left) =
        at_front ls.p (joined ls.chunks) (uleb128 n) (name ++ rest)
          (h.input ∙ append_assoc (uleb128 n) name rest) (omega (arith, length-uleb 4 n)) in
      let a =
        need-Filled (record ls { p = mid }) n (name ++ rest)
          (record {
            input = left;
            blocks = h.blocks;
            open_end = h.open_end;
            short = omega (
              arith,
              h.short,
              length-append (uleb128 n ++ name) rest,
              length-append (uleb128 n) name,
              length-append name rest,
            );
          })
          (omega (arith, length-append name rest)) (omega arith) in
      let (mid₂, same₂, left₂) = at_front a.p (joined a.chunks) name rest a.input a.enough in
      record {
        after = record ls { p = mid₂; chunks = a.chunks; chunkname = name };
        run =
            name_step chunkarg ls n mid a.p a.chunks name mid₂ strips
              (ap bcread_uleb128 same ∙ uleb-Reads n (omega arith) mid) a.run
              (ap (bcread_mem n) same₂ ∙ mem-Reads name mid₂);
        holds = record {
          input = left₂;
          blocks = a.blocks;
          open_end = h.open_end;
          short = omega (arith, h.short, length-append (uleb128 n ++ name) rest);
        };
        new_flags = refl;
        same_stack = refl;
        new_name = refl;
      }

  pub header-Headed :
      (chunkarg name : List ℕ) (ls : LexState) (flags : ℕ) (strip : Bool) (rest : List ℕ)
      → not (bit_and flags 2 == 0) ≡ strip
      → flags < 8
      → 11 * length name + 128 ≤ 2 ^ 31
      → 9 ≤ length rest
      → Holds ls (
          0x4c ∷ 0x4a ∷ 1 ∷ flags ∷ ((if strip then [] else uleb128 (length name) ++ name) ++ rest))
      → Headed ls flags (if strip then chunkarg else name) rest (bcread_header b chunkarg ls)
  header-Headed chunkarg name ls flags strip rest strips known small long h =
      let nm = if strip then [] else uleb128 (length name) ++ name in
      let a = want-Filled ls 13 _ h (omega (arith, length-append nm rest)) (omega arith) in
      let (mid, same, left) =
        at_front a.p (joined a.chunks) (0x4c ∷ 0x4a ∷ 1 ∷ flags ∷ []) (nm ++ rest) a.input
          (omega (arith, a.enough)) in
      let next =
        name-Headed chunkarg name (record ls { p = mid; chunks = a.chunks; flags = flags }) strip
          rest strips small (omega (arith, a.enough, ap length same))
          (record {
            input = left;
            blocks = a.blocks;
            open_end = h.open_end;
            short = omega (arith, h.short);
          }) in
      record {
        after = next.after;
        run = header_step chunkarg ls next.after flags a.p a.chunks mid a.run same known next.run;
        holds = next.holds;
        new_flags = next.new_flags;
        same_stack = next.same_stack;
        new_name = next.new_name;
      }
