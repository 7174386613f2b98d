-- ===== src/Bcdump/Format/Save.antt =====
-- What the writer saves of an object, and what the reader makes of what it finds: the changes that
-- lj_bcwrite.c and lj_bcread.c make on purpose, without any bytes.
use mathlib.Core.List.{reverse}
use probabilistic_lua.Common.{
  ℕ, bit_and, List, [], ◌∷◌, Bool, true, false, if◌then◌else◌, map, none, some, ◌+◌, ◌*◌, ◌/◌, ◌%◌,
  ◌==◌, ◌&&◌,
}
use probabilistic_lua.Bcdump.Types.{
  GCproto, proto, Kgc, k_str, k_child, k_tab, k_int64, k_uint64, k_complex, Kgcs, k_end, k_cons,
  PtInfo, Knum, int, num, TValue, pri, number, str, tvisnil, GCtab, Build,
}
use probabilistic_lua.Bcdump.Format.Values.{Ktab}

-- A list without the nils at its end.
unfoldable pub keep : TValue → List TValue → List TValue
keep o [] = if tvisnil o then [] else o ∷ []
keep o (v ∷ vs) = o ∷ v ∷ vs

unfoldable pub trim : List TValue → List TValue
trim [] = []
trim (o ∷ os) = keep o (trim os)

module _ (b : Build) where
  -- The double as the int32 that it is equal to, if there is one.
  unfoldable pub as_int : ℕ → ℕ → Knum
  as_int lo hi = elim (b.ops.exact lo hi) [ some k ↦ int k | none ↦ num lo hi ]

  -- A number constant as it is saved. Only a build with no tagged integers narrows.
  unfoldable pub save_num : Bool → Knum → Knum
  save_num narrow (int k) = int k
  save_num false (num lo hi) = num lo hi
  save_num true (num lo hi) = if b.dualnum then num lo hi else as_int lo hi

  unfoldable pub save_value : Bool → TValue → TValue
  save_value narrow (pri p) = pri p
  save_value narrow (number k) = number (save_num narrow k)
  save_value narrow (str s) = str s

  -- The used nodes, the last one first.
  unfoldable pub used_pairs : List (TValue × TValue) → List (TValue × TValue)
  used_pairs [] = []
  used_pairs ((k, v) ∷ ns) =
      let rest = used_pairs ns in
      if tvisnil v then rest else (save_value false k, save_value true v) ∷ rest

  unfoldable pub save_tab : GCtab → Ktab
  save_tab t = record {
    vals = map (save_value true) (trim t.array);
    pairs = used_pairs (reverse t.nodes);
  }

-- The instruction that was patched for the trace compiler, by the opcodes of lj_bc.h: JFORI is FORI,
-- IFORL, IITERL and ILOOP are FORL, ITERL and LOOP, and so are JFORL, JITERL and JLOOP, whose D is the
-- number of a trace, the start instruction of which has the D that was there.
unfoldable pub same_d : ℕ → ℕ → ℕ
same_d op ins = op + ins / 256 % 256 * 256 + ins / 65536 * 65536

unfoldable pub trace_d : (ℕ → ℕ) → ℕ → ℕ → ℕ
trace_d startins op ins =
    op + ins / 256 % 256 * 256 + startins (ins / 65536) / 65536 % 65536 * 65536

unfoldable pub original : (ℕ → ℕ) → ℕ → ℕ
original startins ins =
    let op = ins % 256 in
    if op == 74
    then same_d 73 ins
    else if op == 76
    then same_d 75 ins
    else if op == 79
    then same_d 78 ins
    else if op == 82
    then same_d 81 ins
    else if op == 77
    then trace_d startins 75 ins
    else if op == 80
    then trace_d startins 78 ins
    else if op == 83
    then trace_d startins 81 ins
    else ins

-- Instructions are only patched in a prototype with PROTO_ILOOP or with a trace.
unfoldable pub saved_bc : (ℕ → ℕ) → PtInfo → List ℕ
saved_bc startins i =
    if bit_and i.flags 0x10 == 0 && i.trace == 0 then i.bc else map (original startins) i.bc

-- What is saved of a prototype: the flags that matter to the reader, the unpatched instructions, and
-- the debug information unless it is stripped.
module _ (b : Build) (startins : ℕ → ℕ) (strip : Bool) where
  unfoldable pub save_info : PtInfo → PtInfo
  save_info i = record i {
    flags = bit_and i.flags 7;
    trace = 0;
    bc = saved_bc startins i;
    kn = map (save_num b true) i.kn;
    debug = if strip then none else i.debug;
  }

  unfoldable mutual
    pub save_proto : GCproto GCtab → GCproto Ktab
    save_proto (proto i ks) = proto (save_info i) (save_kgcs ks)

    pub save_kgc : Kgc GCtab → Kgc Ktab
    save_kgc (k_str s) = k_str s
    save_kgc (k_child p) = k_child (save_proto p)
    save_kgc (k_tab t) = k_tab (save_tab b t)
    save_kgc (k_int64 lo hi) = k_int64 lo hi
    save_kgc (k_uint64 lo hi) = k_uint64 lo hi
    save_kgc (k_complex rlo rhi ilo ihi) = k_complex rlo rhi ilo ihi

    pub save_kgcs : Kgcs GCtab → Kgcs Ktab
    save_kgcs k_end = k_end
    save_kgcs (k_cons k ks) = k_cons (save_kgc k) (save_kgcs ks)
