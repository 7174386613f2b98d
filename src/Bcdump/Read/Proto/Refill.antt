-- ===== src/Bcdump/Read/Proto/Refill.antt =====
-- Refilling the reader's buffer, with the input split into blocks in any way.
use probabilistic_lua.Common.{
  ℕ, ◌≤◌, ◌<◌, List, [], ◌∷◌, ◌++◌, Bool, true, false, ltb, ◌||◌, length, length-append,
  take-length, ◌^◌, ◌+◌, ◌%◌, All, lt→ltb, le→ltb, dec_lt, ◌≡◌, refl, ap, ◌∙◌, arith, append_assoc,
}
use probabilistic_lua.Common.Result.{Result, ok}
use probabilistic_lua.Bcdump.Read.Proto.{
  LexState, max_mem, append_block, fill_loop, bcread_fill, bcread_need, bcread_want,
}

unfoldable pub joined : List (List ℕ) → List ℕ
joined [] = []
joined (c ∷ cs) = c ++ joined cs

abbrev pub IsBlock : List ℕ → Type 0
IsBlock c = 1 ≤ length c

-- `bytes` is what is still to be read, and the end of the input is not yet seen.
pub record Holds (ls : LexState) (bytes : List ℕ) : Type 0 where
  pub input : ls.p ++ joined ls.chunks ≡ bytes
  pub blocks : All IsBlock ls.chunks
  pub open_end : ls.eof ≡ false
  pub short : length bytes < 2 ^ 32

-- The state after a refill: `len` bytes are at hand.
pub record Filled (ls : LexState) (len : ℕ) (bytes : List ℕ) (r : Result LexState) : Type 0 where
  pub p : List ℕ
  pub chunks : List (List ℕ)
  pub run : r ≡ ok (record ls { p = p; chunks = chunks })
  pub input : p ++ joined chunks ≡ bytes
  pub blocks : All IsBlock chunks
  pub enough : len ≤ length p

append_block-small :
    (p block : List ℕ) → length (p ++ block) < 2 ^ 32 → append_block p block ≡ ok (p ++ block)
unfolding append_block
append_block-small [] block h =
    let exact : length block % 2 ^ 32 ≡ length block = omega arith in rw (exact, take-length block)
append_block-small (x ∷ p) block h =
    let fits : length (x ∷ p) + length block < 2 ^ 32 =
      omega (arith, length-append (x ∷ p) block) in
    rw (lt→ltb (length (x ∷ p) + length block) (2 ^ 32) fits)

fill_loop-Filled :
    (ls : LexState) (len : ℕ) (need : Bool) (p : List ℕ) (cs : List (List ℕ))
    → All IsBlock cs
    → length p < len
    → len ≤ length (p ++ joined cs)
    → length (p ++ joined cs) < 2 ^ 32
    → Filled ls len (p ++ joined cs) (fill_loop ls len need p cs)
unfolding fill_loop joined
fill_loop-Filled ls len need p [] v short h total = absurd (omega (arith, length-append p []))
fill_loop-Filled ls len need p ([] ∷ cs) v short h total = absurd (omega (arith, v.0))
fill_loop-Filled ls len need p ((c ∷ block) ∷ cs) v short h total =
    let p' = p ++ (c ∷ block) in
    let same = append_assoc p (c ∷ block) (joined cs) in
    let joins =
      append_block-small p (c ∷ block)
        (omega (arith, ap length same, length-append p' (joined cs))) in
    elim (dec_lt (length p') len) [
      | yes more ↦
          let a =
            fill_loop-Filled ls len need p' cs v.1 more (omega (arith, ap length same))
              (omega (arith, ap length same)) in
          rw (joins, lt→ltb (length p') len more)
            (record {
              p = a.p;
              chunks = a.chunks;
              run = a.run;
              input = a.input ∙ same;
              blocks = a.blocks;
              enough = a.enough;
            })
      | no done ↦
          rw (joins, le→ltb (length p') len (omega arith))
            (record {
              p = p';
              chunks = cs;
              run = refl;
              input = same;
              blocks = v.1;
              enough = omega arith;
            })
    ]

module _ (ls : LexState) (len : ℕ) (bytes : List ℕ) (h : Holds ls bytes)
    (enough : len ≤ length bytes) (small : len ≤ max_mem) where
  fill-Filled : (need : Bool) → length ls.p < len → Filled ls len bytes (bcread_fill ls len need)
  unfolding bcread_fill
  fill-Filled need short =
      let a =
        fill_loop-Filled ls len need ls.p ls.chunks h.blocks short
          (omega (arith, ap length h.input)) (omega (arith, ap length h.input, h.short)) in
      let off : (ltb max_mem len || ls.eof) ≡ false = rw (le→ltb max_mem len small) h.open_end in
      rw (off, ← h.input) a

  at_hand : len ≤ length ls.p → Filled ls len bytes (ok ls)
  at_hand e = record {
    p = ls.p;
    chunks = ls.chunks;
    run = refl;
    input = h.input;
    blocks = h.blocks;
    enough = e;
  }

  pub need-Filled : Filled ls len bytes (bcread_need ls len)
  unfolding bcread_need
  need-Filled = elim (dec_lt (length ls.p) len) [
    | yes short ↦ rw (lt→ltb (length ls.p) len short) (fill-Filled true short)
    | no long ↦ rw (le→ltb (length ls.p) len (omega arith)) (at_hand (omega arith))
  ]

  pub want-Filled : Filled ls len bytes (bcread_want ls len)
  unfolding bcread_want
  want-Filled = elim (dec_lt (length ls.p) len) [
    | yes short ↦ rw (lt→ltb (length ls.p) len short) (fill-Filled false short)
    | no long ↦ rw (le→ltb (length ls.p) len (omega arith)) (at_hand (omega arith))
  ]

-- Bytes at hand that start with `enc`, if enough of them are.
pub at_front :
    (p more enc rest : List ℕ)
    → p ++ more ≡ enc ++ rest
    → length enc ≤ length p
    → (mid : List ℕ) × (p ≡ enc ++ mid) × (mid ++ more ≡ rest)
at_front p more [] rest e h = (p, refl, e)
at_front [] more (x ∷ enc) rest e h = absurd (omega arith)
at_front (y ∷ p) more (x ∷ enc) rest e h =
    let (mid, same, left) = at_front p more enc rest (cc e) (omega arith) in
    (mid, (cc (e, same)), left)
