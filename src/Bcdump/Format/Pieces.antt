-- ===== src/Bcdump/Format/Pieces.antt =====
-- A dump as the blocks that the writer function gets, after the grammar in LuaJIT-2.0.1/src/lj_bcdump.h.
use probabilistic_lua.Common.{ℕ, List, [], ◌∷◌, ◌++◌, Bool, ◌==◌, if◌then◌else◌, ◌≡◌, refl}
use probabilistic_lua.Bcdump.Types.{
  GCproto, proto, Kgc, k_str, k_child, k_tab, k_int64, k_uint64, k_complex, Kgcs, k_end, k_cons,
}
use probabilistic_lua.Bcdump.Format.Values.{Ktab, fmt_proto}

-- The blocks of the prototypes, in the order in which they are passed on.
module _ (strip be : Bool) where
  unfoldable mutual
    pub pieces : GCproto Ktab → List (List ℕ)
    pieces (proto i ks) = pieces_kgcs ks ++ (fmt_proto strip be (proto i ks) ∷ [])

    pub pieces_kgc : Kgc Ktab → List (List ℕ)
    pieces_kgc (k_child p) = pieces p
    pieces_kgc (k_str s) = []
    pieces_kgc (k_tab t) = []
    pieces_kgc (k_int64 lo hi) = []
    pieces_kgc (k_uint64 lo hi) = []
    pieces_kgc (k_complex rlo rhi ilo ihi) = []

    pub pieces_kgcs : Kgcs Ktab → List (List ℕ)
    pieces_kgcs k_end = []
    pieces_kgcs (k_cons k ks) = pieces_kgcs ks ++ pieces_kgc k

-- Blocks passed to the writer function one after the other, none after an error.
unfoldable pub feed : {S : Type 0} → (S → List ℕ → S × ℕ) → S × ℕ → List (List ℕ) → S × ℕ
feed wfunc st [] = st
feed wfunc st (c ∷ cs) = feed wfunc (if st.1 == 0 then wfunc st.0 c else st) cs

pub feed-append :
    {S : Type 0} (wfunc : S → List ℕ → S × ℕ) (st : S × ℕ) (cs ds : List (List ℕ))
    → feed wfunc st (cs ++ ds) ≡ feed wfunc (feed wfunc st cs) ds
unfolding feed
feed-append wfunc st [] ds = refl
feed-append wfunc st (c ∷ cs) ds = feed-append wfunc (if st.1 == 0 then wfunc st.0 c else st) cs ds
