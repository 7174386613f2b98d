-- ===== src/Bcdump/Read/Proto/Dump.antt =====
-- The reader on a whole dump: children before their parents, and the final zero.
use probabilistic_lua.Common.{
  ℕ, suc, ◌+◌, ◌*◌, ◌^◌, ◌≤◌, bit_and, List, [], ◌∷◌, ◌++◌, Bool, not, ◌==◌, length, length-append,
  ◌≡◌, refl, ap, ◌<◌, lt→ltb, ◌∙◌, arith, append_assoc,
}
use probabilistic_lua.Bcdump.Types.{
  Build, GCproto, proto, TabCalls, Kgc, k_str, k_child, k_tab, k_int64, k_uint64, k_complex, Kgcs,
  k_end, k_cons, PtInfo,
}
use probabilistic_lua.Bcdump.Format.Values.{Ktab, fmt_pdata, fmt_proto}
use probabilistic_lua.Bcdump.Format.Load.{load_proto}
use probabilistic_lua.Bcdump.Format.Valid.{
  IsSaved, IsSavedKgc, IsSavedKgcs, IsSmall, IsSmallKgc, IsSmallKgcs,
}
use probabilistic_lua.Bcdump.Format.Pieces.{pieces, pieces_kgc, pieces_kgcs}
use probabilistic_lua.Bcdump.Read.Values.{bcread_swap}
use probabilistic_lua.Bcdump.Read.Values.RoundTrip.{kids}
use probabilistic_lua.Bcdump.Read.Values.Words.{differs}
use probabilistic_lua.Bcdump.Read.Proto.{LexState, push_proto, proto_loop}
use probabilistic_lua.Bcdump.Read.Proto.Refill.{joined, Holds}
use probabilistic_lua.Bcdump.Read.Proto.Piece.{one-Takes}

-- The number of prototypes in a dump.
unfoldable mutual
  pub count_protos : GCproto Ktab → ℕ
  count_protos (proto i ks) = count_children ks + 1

  pub count_child : Kgc Ktab → ℕ
  count_child (k_child p) = count_protos p
  count_child (k_str s) = 0
  count_child (k_tab t) = 0
  count_child (k_int64 lo hi) = 0
  count_child (k_uint64 lo hi) = 0
  count_child (k_complex rlo rhi ilo ihi) = 0

  pub count_children : Kgcs Ktab → ℕ
  count_children k_end = 0
  count_children (k_cons k ks) = count_children ks + count_child k

-- Each loaded child is a prototype.
length-kids :
    (b : Build) (ks : Kgcs Ktab) (stack : List (GCproto TabCalls))
    → length (kids b ks stack) ≤ count_children ks + length stack
unfolding kids count_protos
length-kids b k_end stack = omega arith
length-kids b (k_cons (k_child (proto i cs)) ks) stack = omega (arith, length-kids b ks stack)
length-kids b (k_cons (k_str s) ks) stack = omega (arith, length-kids b ks stack)
length-kids b (k_cons (k_tab t) ks) stack = omega (arith, length-kids b ks stack)
length-kids b (k_cons (k_int64 lo hi) ks) stack = omega (arith, length-kids b ks stack)
length-kids b (k_cons (k_uint64 lo hi) ks) stack = omega (arith, length-kids b ks stack)
length-kids b (k_cons (k_complex rlo rhi ilo ihi) ks) stack = omega (arith, length-kids b ks stack)

pub joined-append :
    (cs ds : List (List ℕ)) (rest : List ℕ)
    → joined (cs ++ ds) ++ rest ≡ joined cs ++ (joined ds ++ rest)
unfolding joined
joined-append [] ds rest = refl
joined-append (c ∷ cs) ds rest = rw (
  append_assoc c (joined (cs ++ ds)) rest,
  append_assoc c (joined cs) (joined ds ++ rest),
  joined-append cs ds rest,
)

module _ (b : Build) (strip dump : Bool) (flags : ℕ) (strips : not (bit_and flags 2 == 0) ≡ strip)
    (order : bcread_swap b.be flags ≡ differs dump b.be) (slots : ℕ) where
  -- `n` rounds of the loop leave `rest` of the input, and `stack`.
  pub record Runs (ls : LexState) (n : ℕ) (stack : List (GCproto TabCalls)) (rest : List ℕ)
      : Type 0 where
    pub after : LexState
    pub run : (fuel : ℕ) → proto_loop b slots (n + fuel) ls ≡ proto_loop b slots fuel after
    pub holds : Holds after rest
    pub pushed : after.stack ≡ stack
    pub same_flags : after.flags ≡ ls.flags
    pub same_name : after.chunkname ≡ ls.chunkname

  Runs-bind :
      (ls : LexState) (n m : ℕ) (s₁ s₂ : List (GCproto TabCalls)) (rest₁ rest₂ : List ℕ)
      → Runs ls n s₁ rest₁
      → ((c : LexState) → Holds c rest₁ → c.stack ≡ s₁ → c.flags ≡ ls.flags → Runs c m s₂ rest₂)
      → Runs ls (n + m) s₂ rest₂
  Runs-bind ls n m s₁ s₂ rest₁ rest₂ a k =
      let next = k a.after a.holds a.pushed a.same_flags in
      record {
        after = next.after;
        run = λ fuel.
            let e : n + m + fuel ≡ n + (m + fuel) = omega arith in
            rw (e, a.run (m + fuel)) (next.run fuel);
        holds = next.holds;
        pushed = next.pushed;
        same_flags = next.same_flags ∙ a.same_flags;
        same_name = next.same_name ∙ a.same_name;
      }

  Runs-refl :
      (ls : LexState) (stack : List (GCproto TabCalls)) (rest : List ℕ)
      → Holds ls rest
      → ls.stack ≡ stack
      → Runs ls 0 stack rest
  Runs-refl ls stack rest h st = record {
    after = ls;
    run = λ fuel. let e : 0 + fuel ≡ fuel = omega arith in rw e;
    holds = h;
    pushed = st;
    same_flags = refl;
    same_name = refl;
  }

  one-Runs :
      (ls : LexState) (i : PtInfo) (ks : Kgcs Ktab) (stack : List (GCproto TabCalls))
      (rest : List ℕ)
      → IsSaved strip (proto i ks)
      → 11 * length (fmt_pdata strip dump (proto i ks)) + 128 ≤ 2 ^ 31
      → ls.flags ≡ flags
      → ls.stack ≡ kids b ks stack
      → Holds ls (fmt_proto strip dump (proto i ks) ++ rest)
      → 1 ≤ length rest
      → suc (length stack) < slots
      → Runs ls 1 (load_proto b (proto i ks) ∷ stack) rest
  unfolding proto_loop push_proto
  one-Runs ls i ks stack rest v small fl st h more free =
      let t = one-Takes b strip dump flags strips order ls i ks stack rest v small fl st h more in
      record {
        after = record ls { p = t.p; chunks = t.chunks; stack = load_proto b (proto i ks) ∷ stack };
        run = λ fuel.
            let e : 1 + fuel ≡ suc fuel = omega arith in
            rw (e, t.run, lt→ltb (suc (length stack)) slots free);
        holds = record {
          input = t.holds.input;
          blocks = t.holds.blocks;
          open_end = t.holds.open_end;
          short = t.holds.short;
        };
        pushed = refl;
        same_flags = refl;
        same_name = refl;
      }

  mutual
    unfolding pieces kids joined count_protos

    pub proto-Runs :
        (ls : LexState) (p : GCproto Ktab) (stack : List (GCproto TabCalls)) (rest : List ℕ)
        → IsSaved strip p
        → IsSmall strip dump p
        → ls.flags ≡ flags
        → ls.stack ≡ stack
        → Holds ls (joined (pieces strip dump p) ++ rest)
        → 1 ≤ length rest
        → count_protos p + length stack < slots
        → Runs ls (count_protos p) (load_proto b p ∷ stack) rest
    proto-Runs ls (proto i ks) stack rest v small fl st h more free =
        let f = fmt_proto strip dump (proto i ks) in
        let split : joined (pieces_kgcs strip dump ks ++ (f ∷ [])) ++ rest
            ≡ joined (pieces_kgcs strip dump ks) ++ (f ++ rest) =
          joined-append (pieces_kgcs strip dump ks) (f ∷ []) rest ∙ rw (append_assoc f [] rest) in
        Runs-bind ls (count_children ks) 1 (kids b ks stack) (load_proto b (proto i ks) ∷ stack)
          (f ++ rest) rest
          (children-Runs ls ks stack (f ++ rest) v.3 small.1 fl st
            (record {
              input = h.input ∙ split;
              blocks = h.blocks;
              open_end = h.open_end;
              short = omega (arith, h.short, ap length split);
            })
            (omega (arith, length-append f rest)) (omega arith))
          (λ c hc sc fc. one-Runs c i ks stack rest v small.0 (fc ∙ fl) sc hc more (omega arith))

    child-Runs :
        (ls : LexState) (k : Kgc Ktab) (ks : Kgcs Ktab) (stack : List (GCproto TabCalls))
        (rest : List ℕ)
        → IsSavedKgc strip k
        → IsSmallKgc strip dump k
        → ls.flags ≡ flags
        → ls.stack ≡ kids b ks stack
        → Holds ls (joined (pieces_kgc strip dump k) ++ rest)
        → 1 ≤ length rest
        → count_child k + length (kids b ks stack) < slots
        → Runs ls (count_child k) (kids b (k_cons k ks) stack) rest
    child-Runs ls (k_child p) ks stack rest v small fl st h more free =
        proto-Runs ls p (kids b ks stack) rest v small fl st h more free
    child-Runs ls (k_str s) ks stack rest v small fl st h more free = Runs-refl ls _ rest h st
    child-Runs ls (k_tab t) ks stack rest v small fl st h more free = Runs-refl ls _ rest h st
    child-Runs ls (k_int64 lo hi) ks stack rest v small fl st h more free = Runs-refl ls _ rest h st
    child-Runs ls (k_uint64 lo hi) ks stack rest v small fl st h more free =
        Runs-refl ls _ rest h st
    child-Runs ls (k_complex rlo rhi ilo ihi) ks stack rest v small fl st h more free =
        Runs-refl ls _ rest h st

    children-Runs :
        (ls : LexState) (ks : Kgcs Ktab) (stack : List (GCproto TabCalls)) (rest : List ℕ)
        → IsSavedKgcs strip ks
        → IsSmallKgcs strip dump ks
        → ls.flags ≡ flags
        → ls.stack ≡ stack
        → Holds ls (joined (pieces_kgcs strip dump ks) ++ rest)
        → 1 ≤ length rest
        → count_children ks + length stack < slots
        → Runs ls (count_children ks) (kids b ks stack) rest
    children-Runs ls k_end stack rest v small fl st h more free = Runs-refl ls stack rest h st
    children-Runs ls (k_cons k ks) stack rest v small fl st h more free =
        let later = joined (pieces_kgc strip dump k) ++ rest in
        let split = joined-append (pieces_kgcs strip dump ks) (pieces_kgc strip dump k) rest in
        Runs-bind ls (count_children ks) (count_child k) (kids b ks stack)
          (kids b (k_cons k ks) stack) later rest
          (children-Runs ls ks stack later v.1 small.1 fl st
            (record {
              input = h.input ∙ split;
              blocks = h.blocks;
              open_end = h.open_end;
              short = omega (arith, h.short, ap length split);
            })
            (omega (arith, length-append (joined (pieces_kgc strip dump k)) rest)) (omega arith))
          (λ c hc sc fc.
            child-Runs c k ks stack rest v.0 small.0 (fc ∙ fl) sc hc more
              (omega (arith, length-kids b ks stack)))
