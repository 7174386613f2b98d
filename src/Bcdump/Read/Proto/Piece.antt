-- ===== src/Bcdump/Read/Proto/Piece.antt =====
-- The reader on one prototype with its size, in any split of the input.
use probabilistic_lua.Common.{
  ℕ, ◌+◌, ◌-◌, ◌*◌, ◌/◌, ◌%◌, ◌^◌, ◌≤◌, ◌<◌, bit_and, List, [], ◌∷◌, ◌++◌, Bool, true, false, not,
  ◌==◌, if◌then◌else◌, length, length-append, Option, some, dec_lt, ne→eqb_false, ◌≡◌, refl, ap,
  ◌∙◌, arith, append_assoc,
}
use probabilistic_lua.Common.Result.{Result, ok}
use probabilistic_lua.Bcdump.Uleb.{bcread_uleb128}
use probabilistic_lua.Bcdump.Uleb.Format.{uleb, uleb128, uleb_last, uleb_more, length-uleb}
use probabilistic_lua.Bcdump.Types.{Build, GCproto, proto, TabCalls, Kgcs, PtInfo}
use probabilistic_lua.Bcdump.Format.Values.{
  Ktab, fmts, fmt_word, fmt_half, fmt_kgcs, fmt_knum, fmt_debug, fmt_debughead, sizedbg_of,
  count_kgcs, fmt_pdata, fmt_phead, fmt_proto,
}
use probabilistic_lua.Bcdump.Format.Load.{load_proto}
use probabilistic_lua.Bcdump.Format.Valid.{IsSaved}
use probabilistic_lua.Bcdump.Read.Values.{bcread_swap}
use probabilistic_lua.Bcdump.Read.Values.RoundTrip.{kids, uleb-Reads}
use probabilistic_lua.Bcdump.Read.Values.Words.{differs}
use probabilistic_lua.Bcdump.Read.Proto.{
  LexState, at_end, read_pdata, read_sized, bcread_proto, bcread_want, bcread_need,
}
use probabilistic_lua.Bcdump.Read.Proto.Data.{pdata-Reads}
use probabilistic_lua.Bcdump.Read.Proto.Refill.{joined, Holds, need-Filled, want-Filled, at_front}

-- The first byte of a size is not zero.
pub not_end :
    (n : ℕ) (rest p more : List ℕ) → 0 < n → p ++ more ≡ uleb128 n ++ rest → at_end p ≡ false
unfolding at_end
not_end n rest [] more pos e = refl
not_end n rest (c ∷ p) more pos e = elim (dec_lt n 128) [
  | yes small ↦
      let first : c ∷ (p ++ more) ≡ n ∷ rest = e ∙ rw (uleb_last 4 n small) in
      let same : c ≡ n = cc first in ne→eqb_false c 0 (omega arith)
  | no large ↦
      let first : c ∷ (p ++ more) ≡ (n % 128 + 128) ∷ (uleb 3 (n / 128) ++ rest) =
        e ∙ rw (uleb_more 3 n (omega arith)) in
      let same : c ≡ n % 128 + 128 = cc first in ne→eqb_false c 0 (omega arith)
]

pub pdata_length :
    (strip dump : Bool) (i : PtInfo) (ks : Kgcs Ktab)
    → 7 ≤ length (fmt_pdata strip dump (proto i ks))
unfolding fmt_pdata fmt_phead
pdata_length strip dump i ks =
    let u₁ = uleb128 (count_kgcs ks) in
    let u₂ = uleb128 (length i.kn) in
    let u₃ = uleb128 (length i.bc) in
    let debug = if strip then [] else fmt_debughead (sizedbg_of dump i) i.firstline i.numline in
    let rest =
      fmts (fmt_word dump) i.bc
      ++ (fmts (fmt_half dump) i.uv
          ++ (fmt_kgcs ks ++ (fmts fmt_knum i.kn ++ fmt_debug dump i.numline i.debug))) in
    omega (
      arith,
      length-append (u₁ ++ (u₂ ++ (u₃ ++ debug))) rest,
      length-append u₁ (u₂ ++ (u₃ ++ debug)),
      length-append u₂ (u₃ ++ debug),
      length-append u₃ debug,
      length-uleb 4 (count_kgcs ks),
      length-uleb 4 (length i.kn),
      length-uleb 4 (length i.bc),
    )

exactly : (n k m : ℕ) → k ≡ n + m → (n == k - m) ≡ true
exactly n k m e = ground arith

read_congr :
    (b : Build) {f g : ℕ} {s t : List (GCproto TabCalls)} {p q : List ℕ}
    → f ≡ g
    → s ≡ t
    → p ≡ q
    → read_pdata b f s p ≡ read_pdata b g t q
read_congr b e₁ e₂ e₃ = cc

proto_step : (b : Build) (ls : LexState) → at_end ls.p ≡ false → bcread_proto b ls ≡ read_sized b ls
unfolding bcread_proto
proto_step b ls e = rw e

-- The steps of bcread_proto on an input that is not at its end.
sized_step :
    (b : Build) (ls : LexState) (n : ℕ) (p₁ : List ℕ) (c₁ : List (List ℕ)) (mid p₂ : List ℕ)
    (c₂ : List (List ℕ)) (mid₂ : List ℕ) (pt : GCproto TabCalls) (stack : List (GCproto TabCalls))
    → bcread_want ls 5 ≡ ok (record ls { p = p₁; chunks = c₁ })
    → bcread_uleb128 p₁ ≡ ok (n, mid)
    → (n == 0) ≡ false
    → bcread_need (record ls { p = mid; chunks = c₁ }) n ≡ ok (record ls { p = p₂; chunks = c₂ })
    → read_pdata b ls.flags ls.stack p₂ ≡ ok ((pt, stack), mid₂)
    → (n == length p₂ - length mid₂) ≡ true
    → read_sized b ls ≡ ok (some pt, record ls { p = mid₂; chunks = c₂; stack = stack })
unfolding read_sized
sized_step b ls n p₁ c₁ mid p₂ c₂ mid₂ pt stack e₁ e₂ e₃ e₄ e₅ e₆ = rw (e₁, e₂, e₃, e₄, e₅, e₆)

module _ (b : Build) (strip dump : Bool) (flags : ℕ) (strips : not (bit_and flags 2 == 0) ≡ strip)
    (order : bcread_swap b.be flags ≡ differs dump b.be) where
  -- One prototype is taken from the input, and its children from the stack.
  pub record Takes (ls : LexState) (pt : GCproto TabCalls) (stack : List (GCproto TabCalls))
      (rest : List ℕ) (r : Result (Option (GCproto TabCalls) × LexState)) : Type 0 where
    pub p : List ℕ
    pub chunks : List (List ℕ)
    pub run : r ≡ ok (some pt, record ls { p = p; chunks = chunks; stack = stack })
    pub holds : Holds (record ls { p = p; chunks = chunks; stack = stack }) rest

  pub one-Takes :
      (ls : LexState) (i : PtInfo) (ks : Kgcs Ktab) (stack : List (GCproto TabCalls))
      (rest : List ℕ)
      → IsSaved strip (proto i ks)
      → 11 * length (fmt_pdata strip dump (proto i ks)) + 128 ≤ 2 ^ 31
      → ls.flags ≡ flags
      → ls.stack ≡ kids b ks stack
      → Holds ls (fmt_proto strip dump (proto i ks) ++ rest)
      → 1 ≤ length rest
      → Takes ls (load_proto b (proto i ks)) stack rest (bcread_proto b ls)
  unfolding fmt_proto
  one-Takes ls i ks stack rest v small fl st h more =
      let pd = fmt_pdata strip dump (proto i ks) in
      let n = length pd in
      let pos = pdata_length strip dump i ks in
      let size = length-uleb 4 n in
      let split = append_assoc (uleb128 n) pd rest in
      let len₁ = length-append (uleb128 n) (pd ++ rest) in
      let len₂ = length-append pd rest in
      let go = not_end n (pd ++ rest) ls.p (joined ls.chunks) (omega arith) (h.input ∙ split) in
      let a =
        want-Filled ls 5 (uleb128 n ++ (pd ++ rest))
          (record {
            input = h.input ∙ split;
            blocks = h.blocks;
            open_end = h.open_end;
            short = omega (arith, h.short, ap length split);
          })
          (omega arith) (omega arith) in
      let (mid, same, left) =
        at_front a.p (joined a.chunks) (uleb128 n) (pd ++ rest) a.input (omega (arith, a.enough)) in
      let ls₁ : LexState = record ls { p = mid; chunks = a.chunks } in
      let b₁ =
        need-Filled ls₁ n (pd ++ rest)
          (record {
            input = left;
            blocks = a.blocks;
            open_end = h.open_end;
            short = omega (arith, h.short, ap length split, len₁);
          })
          (omega arith) (omega arith) in
      let (mid₂, same₂, left₂) = at_front b₁.p (joined b₁.chunks) pd rest b₁.input b₁.enough in
      let size₂ = ap length same₂ ∙ length-append pd mid₂ in
      let taken = pdata-Reads b strip dump flags strips order i ks stack v small mid₂ in
      let parsed : read_pdata b ls.flags ls.stack b₁.p
          ≡ ok ((load_proto b (proto i ks), stack), mid₂) =
        read_congr b fl st same₂ ∙ taken in
      let sized =
        sized_step b ls n a.p a.chunks mid b₁.p b₁.chunks mid₂ (load_proto b (proto i ks)) stack
          a.run (ap bcread_uleb128 same ∙ uleb-Reads n (omega arith) mid)
          (ne→eqb_false n 0 (omega arith)) b₁.run parsed
          (exactly n (length b₁.p) (length mid₂) size₂) in
      record {
        p = mid₂;
        chunks = b₁.chunks;
        run = proto_step b ls go ∙ sized;
        holds = record {
          input = left₂;
          blocks = b₁.blocks;
          open_end = h.open_end;
          short = omega (arith, h.short, ap length split, len₁, len₂);
        };
      }
