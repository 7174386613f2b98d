-- ===== src/Bcdump/Write/Bytecode/Original.antt =====
-- The patched instructions of bcwrite_bytecode of LuaJIT-2.0.1/src/lj_bcwrite.c, against the original
-- ones.
use probabilistic_lua.Common.{
  ℕ, ◌+◌, ◌-◌, ◌*◌, ◌/◌, ◌%◌, ◌≤◌, ◌<◌, List, [], ◌∷◌, ◌++◌, Bool, not, ◌||◌, true, false, ◌==◌,
  ◌&&◌, length, take, drop, map, All, bit_and, Bool-cases, ℕ_discrete, ne→eqb_false,
  take-append_length, drop-append_length, length-map, length-append, ◌≡◌, refl, sym, ap, ◌∙◌, arith,
  inl, inr,
}
use probabilistic_lua.Bcdump.Buffer.{SBuf}
use probabilistic_lua.Bcdump.Buffer.Adds.{Adds, block-Adds}
use probabilistic_lua.Bcdump.Types.{PtInfo}
use probabilistic_lua.Bcdump.Format.Values.{fmts, fmt_word, length-fmts, length-word}
use probabilistic_lua.Bcdump.Format.Valid.{IsWord}
use probabilistic_lua.Bcdump.Format.Save.{same_d, trace_d, original, saved_bc}
use probabilistic_lua.Bcdump.Write.Bytecode.{
  is_blacklisted, is_compiled, unpatch, is_patched, host_block, bcwrite_bytecode,
}

fields : (ins : ℕ) → IsWord ins → ins / 65536 % 256 + ins / 16777216 % 256 * 256 ≡ ins / 65536
fields ins h = omega arith

-- The four bytes of an instruction.
unfoldable bytes : Bool → ℕ → ℕ → ℕ → ℕ → List ℕ
bytes false op a c b = op ∷ a ∷ c ∷ b ∷ []
bytes true op a c b = b ∷ c ∷ a ∷ op ∷ []

word-bytes :
    (be : Bool) (ins : ℕ)
    → fmt_word be ins
      ≡ bytes be (ins % 256) (ins / 256 % 256) (ins / 65536 % 256) (ins / 16777216 % 256)
unfolding fmt_word bytes
word-bytes false ins = refl
word-bytes true ins = refl

same_d-bytes :
    (be : Bool) (op ins : ℕ)
    → op < 256
    → fmt_word be (same_d op ins)
      ≡ bytes be op (ins / 256 % 256) (ins / 65536 % 256) (ins / 16777216 % 256)
same_d-bytes be op ins small =
    let w = same_d op ins in
    let e₀ : w % 256 ≡ op = unfold same_d in omega arith in
    let e₁ : w / 256 % 256 ≡ ins / 256 % 256 = unfold same_d in omega arith in
    let e₂ : w / 65536 % 256 ≡ ins / 65536 % 256 = unfold same_d in omega arith in
    let e₃ : w / 16777216 % 256 ≡ ins / 16777216 % 256 = unfold same_d in omega arith in
    word-bytes be w ∙ rw (e₀, e₁, e₂, e₃)

trace_d-bytes :
    (be : Bool) (startins : ℕ → ℕ) (op ins : ℕ)
    → op < 256
    → fmt_word be (trace_d startins op ins)
      ≡ bytes be op
          (ins / 256 % 256)
          (startins (ins / 65536) / 65536 % 256)
          (startins (ins / 65536) / 16777216 % 256)
trace_d-bytes be startins op ins small =
    let w = trace_d startins op ins in
    let s = startins (ins / 65536) in
    let e₀ : w % 256 ≡ op = unfold trace_d in omega arith in
    let e₁ : w / 256 % 256 ≡ ins / 256 % 256 = unfold trace_d in omega arith in
    let e₂ : w / 65536 % 256 ≡ s / 65536 % 256 = unfold trace_d in omega arith in
    let e₃ : w / 16777216 % 256 ≡ s / 16777216 % 256 = unfold trace_d in omega arith in
    word-bytes be w ∙ rw (e₀, e₁, e₂, e₃)

module _ (startins : ℕ → ℕ) (op a c b : ℕ) (p : List ℕ) where
  unpatch_blacklisted :
      (be : Bool)
      → is_blacklisted op ≡ true
      → unpatch be startins (bytes be op a c b ++ p)
        ≡ bytes be ((op + 75 - 76) % 256) a c b ++ unpatch be startins p
  unfolding unpatch bytes
  unpatch_blacklisted false e = rw e
  unpatch_blacklisted true e = rw e

  unpatch_compiled :
      (be : Bool)
      → is_blacklisted op ≡ false
      → is_compiled op ≡ true
      → unpatch be startins (bytes be op a c b ++ p)
        ≡ bytes be
            ((op + 75 - 77) % 256)
            a
            (startins (c + b * 256) / 65536 % 256)
            (startins (c + b * 256) / 16777216 % 256)
          ++ unpatch be startins p
  unfolding unpatch bytes
  unpatch_compiled false e₁ e₂ = rw (e₁, e₂)
  unpatch_compiled true e₁ e₂ = rw (e₁, e₂)

  unpatch_other :
      (be : Bool)
      → is_blacklisted op ≡ false
      → is_compiled op ≡ false
      → unpatch be startins (bytes be op a c b ++ p) ≡ bytes be op a c b ++ unpatch be startins p
  unfolding unpatch bytes
  unpatch_other false e₁ e₂ = rw (e₁, e₂)
  unpatch_other true e₁ e₂ = rw (e₁, e₂)

module _ (be : Bool) (startins : ℕ → ℕ) (ins : ℕ) (p : List ℕ) (h : IsWord ins) where
  abbrev Unpatches : ℕ → Type 0
  Unpatches w = unpatch be startins (fmt_word be ins ++ p) ≡ fmt_word be w ++ unpatch be startins p

  from_blacklisted :
      (k r : ℕ)
      → ins % 256 ≡ k
      → is_blacklisted k ≡ true
      → (k + 75 - 76) % 256 ≡ r
      → Unpatches (same_d r ins)
  from_blacklisted k r e bl er =
      let small : r < 256 = omega arith in
      rw (word-bytes be ins, same_d-bytes be r ins small, e)
        (unpatch_blacklisted startins k _ _ _ p be bl ∙ rw er)

  from_compiled :
      (k r : ℕ)
      → ins % 256 ≡ k
      → is_blacklisted k ≡ false
      → is_compiled k ≡ true
      → (k + 75 - 77) % 256 ≡ r
      → Unpatches (trace_d startins r ins)
  from_compiled k r e bl co er =
      let small : r < 256 = omega arith in
      rw (word-bytes be ins, trace_d-bytes be startins r ins small, e)
        (unpatch_compiled startins k _ _ _ p be bl co ∙ rw (er, fields ins h))

  from_other : is_blacklisted (ins % 256) ≡ false → is_compiled (ins % 256) ≡ false → Unpatches ins
  from_other bl co = rw (word-bytes be ins) (unpatch_other startins _ _ _ _ p be bl co)

  unpatch-word : Unpatches (original startins ins)
  unfolding original
  unpatch-word = elim (ℕ_discrete (ins % 256) 74) [
    | yes e ↦ rw (original, e) (from_blacklisted 74 73 e refl refl)
    | no n₁ ↦ elim (ℕ_discrete (ins % 256) 76) [
      | yes e ↦ rw (original, e) (from_blacklisted 76 75 e refl refl)
      | no n₂ ↦ elim (ℕ_discrete (ins % 256) 79) [
        | yes e ↦ rw (original, e) (from_blacklisted 79 78 e refl refl)
        | no n₃ ↦ elim (ℕ_discrete (ins % 256) 82) [
          | yes e ↦ rw (original, e) (from_blacklisted 82 81 e refl refl)
          | no n₄ ↦ elim (ℕ_discrete (ins % 256) 77) [
            | yes e ↦ rw (original, e) (from_compiled 77 75 e refl refl refl)
            | no n₅ ↦ elim (ℕ_discrete (ins % 256) 80) [
              | yes e ↦ rw (original, e) (from_compiled 80 78 e refl refl refl)
              | no n₆ ↦ elim (ℕ_discrete (ins % 256) 83) [
                | yes e ↦ rw (original, e) (from_compiled 83 81 e refl refl refl)
                | no n₇ ↦
                    let ne = ne→eqb_false (ins % 256) in
                    rw
                      (
                        original,
                        ne 74 n₁,
                        ne 76 n₂,
                        ne 79 n₃,
                        ne 82 n₄,
                        ne 77 n₅,
                        ne 80 n₆,
                        ne 83 n₇,
                      )
                      (from_other (rw (ne 76 n₂, ne 79 n₃, ne 82 n₄, ne 74 n₁))
                        (rw (ne 77 n₅, ne 80 n₆, ne 83 n₇)))
              ]
            ]
          ]
        ]
      ]
    ]
  ]

unpatch-words :
    (be : Bool) (startins : ℕ → ℕ) (bc : List ℕ)
    → All IsWord bc
    → unpatch be startins (fmts (fmt_word be) bc) ≡ fmts (fmt_word be) (map (original startins) bc)
unfolding fmts
unpatch-words false startins [] v = unfold unpatch in refl
unpatch-words true startins [] v = unfold unpatch in refl
unpatch-words be startins (ins ∷ bc) v =
    unpatch-word be startins ins (fmts (fmt_word be) bc) v.0
    ∙ ap (λ p. fmt_word be (original startins ins) ++ p) (unpatch-words be startins bc v.1)

either_bit : (p q : Bool) → (not p || not q) ≡ true → (p && q) ≡ false
either_bit true true e = sym e
either_bit true false e = refl
either_bit false q e = refl

neither_bit : (p q : Bool) → (not p || not q) ≡ false → (p && q) ≡ true
neither_bit true true e = refl
neither_bit true false e = sym e
neither_bit false q e = sym e

saved_patched :
    (startins : ℕ → ℕ) (i : PtInfo)
    → is_patched i ≡ true
    → saved_bc startins i ≡ map (original startins) i.bc
unfolding saved_bc is_patched
saved_patched startins i e = rw (either_bit (bit_and i.flags 0x10 == 0) (i.trace == 0) e)

saved_unpatched :
    (startins : ℕ → ℕ) (i : PtInfo) → is_patched i ≡ false → saved_bc startins i ≡ i.bc
unfolding saved_bc is_patched
saved_unpatched startins i e = rw (neither_bit (bit_and i.flags 0x10 == 0) (i.trace == 0) e)

pub length-saved_bc : (startins : ℕ → ℕ) (i : PtInfo) → length (saved_bc startins i) ≡ length i.bc
length-saved_bc startins i = elim (Bool-cases (is_patched i)) [
  | inl e ↦ rw (saved_patched startins i e) (length-map i.bc (original startins))
  | inr e ↦ rw (saved_unpatched startins i e)
]

pub bytecode-Adds :
    (be : Bool) (startins : ℕ → ℕ) (room : ℕ) (sb : SBuf) (i : PtInfo)
    → All IsWord i.bc
    → length sb.bytes + 4 * length i.bc + room ≤ sb.sz
    → Adds room sb (fmts (fmt_word be) (saved_bc startins i)) (bcwrite_bytecode be startins sb i)
unfolding bcwrite_bytecode
bytecode-Adds be startins room sb i v h =
    let len = length-fmts (fmt_word be) 4 i.bc (length-word be) in
    let a = block-Adds room sb (host_block be i) (omega arith) in
    elim (Bool-cases (is_patched i)) [
      | inl e ↦
          let kept : take (length sb.bytes) a.after.bytes ≡ sb.bytes =
            rw (a.added, take-append_length) in
          let tail : drop (length sb.bytes) a.after.bytes ≡ host_block be i =
            rw (a.added, drop-append_length) in
          let words = unpatch-words be startins i.bc v in
          let same = length-fmts (fmt_word be) 4 (map (original startins) i.bc) (length-word be) in
          rw (saved_patched startins i e, a.run, e)
            (record {
              after = record a.after {
                bytes = sb.bytes ++ fmts (fmt_word be) (map (original startins) i.bc);
              };
              run = rw (kept, tail, words);
              added = refl;
              fits = omega (
                arith,
                len,
                same,
                length-map i.bc (original startins),
                length-append sb.bytes (fmts (fmt_word be) (map (original startins) i.bc)),
              );
              grows = a.grows;
            })
      | inr e ↦
          rw (saved_unpatched startins i e, a.run, e)
            (record {
              after = a.after;
              run = refl;
              added = a.added;
              fits = a.fits;
              grows = a.grows;
            })
    ]
