-- ===== src/Bcdump/Format/Load.antt =====
-- What the reader makes of the contents of a dump, without any bytes: numbers saved as integers become
-- numbers of the build, tables are made by calls of lj_tab.c, and the header instruction is set.
use probabilistic_lua.Common.{
  ℕ, zero, suc, ◌+◌, ◌*◌, ◌^◌, bit_and, leb, not, Bool, false, ◌==◌, if◌then◌else◌, length, map,
  none,
}
use probabilistic_lua.Bcdump.Types.{
  Knum, int, num, TValue, pri, number, str, TabCalls, Build, GCproto, proto, Kgc, k_str, k_child,
  k_tab, k_int64, k_uint64, k_complex, Kgcs, k_end, k_cons, PtInfo,
}
use probabilistic_lua.Bcdump.Format.Values.{Ktab, fmt_debug}

-- The least number of bits from `h` on with room for `s` entries.
unfoldable pub least_bits : ℕ → ℕ → ℕ → ℕ
least_bits zero h s = h
least_bits (suc n) h s = let more = least_bits n (suc h) s in if leb s (2 ^ h) then h else more

-- No hash part for no entries, and otherwise one of at least two nodes.
unfoldable pub hash_bits : ℕ → ℕ
hash_bits s = if s == 0 then 0 else least_bits 32 1 s

-- The opcodes FUNCV of a function with varargs and FUNCF of any other.
unfoldable pub function_header : ℕ → ℕ → ℕ
function_header flags framesize = (if not (bit_and flags 2 == 0) then 88 else 85) + framesize * 256

-- No debug information is left of an empty block.
abbrev pub no_debug : PtInfo → Bool
no_debug i = length (fmt_debug false i.numline i.debug) == 0

module _ (b : Build) where
  unfoldable pub load_num : Knum → Knum
  load_num (int k) = if b.dualnum then int k else num (b.ops.int2num k).0 (b.ops.int2num k).1
  load_num (num lo hi) = num lo hi

  unfoldable pub load_value : TValue → TValue
  load_value (pri p) = pri p
  load_value (number k) = number (load_num k)
  load_value (str s) = str s

  abbrev pub load_pair : TValue × TValue → TValue × TValue
  load_pair p = (load_value p.0, load_value p.1)

  unfoldable pub load_tab : Ktab → TabCalls
  load_tab t = record {
    asize = length t.vals;
    hbits = hash_bits (length t.pairs);
    array = map load_value t.vals;
    sets = map load_pair t.pairs;
  }

  unfoldable pub load_info : PtInfo → PtInfo
  load_info i = record {
    flags = i.flags;
    numparams = i.numparams;
    framesize = i.framesize;
    trace = 0;
    header = function_header i.flags i.framesize;
    bc = i.bc;
    uv = i.uv;
    kn = map load_num i.kn;
    firstline = if no_debug i then 0 else i.firstline;
    numline = if no_debug i then 0 else i.numline;
    debug = if no_debug i then none else i.debug;
  }

  unfoldable mutual
    pub load_proto : GCproto Ktab → GCproto TabCalls
    load_proto (proto i ks) = proto (load_info i) (load_kgcs ks)

    pub load_kgc : Kgc Ktab → Kgc TabCalls
    load_kgc (k_str s) = k_str s
    load_kgc (k_child p) = k_child (load_proto p)
    load_kgc (k_tab t) = k_tab (load_tab t)
    load_kgc (k_int64 lo hi) = k_int64 lo hi
    load_kgc (k_uint64 lo hi) = k_uint64 lo hi
    load_kgc (k_complex rlo rhi ilo ihi) = k_complex rlo rhi ilo ihi

    pub load_kgcs : Kgcs Ktab → Kgcs TabCalls
    load_kgcs k_end = k_end
    load_kgcs (k_cons k ks) = k_cons (load_kgc k) (load_kgcs ks)
