-- ===== src/Bcdump/Tests/Samples.antt =====
-- Two prototypes, one the child of the other, and a build whose doubles are narrowed by their high word.
use probabilistic_lua.Common.{
  [], ◌∷◌, true, false, ◌%◌, ◌&&◌, ltb, ◌==◌, if◌then◌else◌, none, some, refl, arith,
}
use probabilistic_lua.Bcdump.Types.{
  int, num, pri, number, str, GCtab, Build, NumOps, NumLaws, IsTab, GCproto, proto, k_str, k_child,
  k_tab, k_uint64, Kgcs, k_end, k_cons, PtInfo, word_mod,
}
use probabilistic_lua.Bcdump.Format.Valid.{IsInfo, IsProto, IsKgcs}

abbrev pub low_ops : NumOps
low_ops = record {
  num2int = λ lo hi. lo % word_mod;
  int2num = λ k. (k, 0);
  num_eq = λ x y. x.0 == y.0 && x.1 == y.1;
  exact = λ lo hi. if ltb lo word_mod && hi == 0 then some lo else none;
}

pub low_laws : NumLaws low_ops
low_laws = record {
  int_range = λ lo hi. omega arith;
  truncates = λ lo hi k range e. ground arith;
  equal = λ lo hi k e. ground arith;
  unequal = λ lo hi k e range. ground arith;
}

-- A little-endian build with tagged integers, and one without.
abbrev pub little : Build
little = record { dualnum = true; be = false; ops = low_ops }

abbrev pub big : Build
big = record { dualnum = false; be = true; ops = low_ops }

abbrev pub table : GCtab
table = record {
  array = pri 0 ∷ number (num 5 0) ∷ [];
  nodes = (str (97 ∷ []), number (int 3)) ∷ (str (98 ∷ []), pri 0) ∷ [];
}

abbrev pub child_info : PtInfo
child_info = record {
  flags = 2;
  numparams = 0;
  framesize = 3;
  trace = 0;
  header = 0;
  bc = 0x0001004c ∷ [];
  uv = [];
  kn = int 300 ∷ [];
  firstline = 1;
  numline = 0;
  debug = none;
}

abbrev pub root_info : PtInfo
root_info = record {
  flags = 1;
  numparams = 1;
  framesize = 5;
  trace = 0;
  header = 0;
  bc = 0x00010012 ∷ 0x0002014b ∷ [];
  uv = 0x8003 ∷ [];
  kn = num 1 0x3ff00000 ∷ int 0xfffffff0 ∷ [];
  firstline = 1;
  numline = 300;
  debug = some (record { lineinfo = 7 ∷ 299 ∷ []; names = 120 ∷ 0 ∷ [] });
}

abbrev pub child : GCproto GCtab
child = proto child_info k_end

abbrev pub root_kgcs : Kgcs GCtab
root_kgcs =
    k_cons (k_child child)
      (k_cons (k_str (104 ∷ 105 ∷ [])) (k_cons (k_tab table) (k_cons (k_uint64 1 2) k_end)))

pub child-IsInfo : IsInfo child_info
child-IsInfo = record {
  params = omega arith;
  frame = omega arith;
  upvalues = omega arith;
  half_words = tt;
  words = (omega arith, tt);
  numbers = (omega arith, tt);
  first = omega arith;
  lines = omega arith;
  debug = tt;
}

pub root-IsInfo : IsInfo root_info
root-IsInfo = record {
  params = omega arith;
  frame = omega arith;
  upvalues = omega arith;
  half_words = (omega arith, tt);
  words = (omega arith, (omega arith, tt));
  numbers = ((omega arith, omega arith), (omega arith, tt));
  first = omega arith;
  lines = omega arith;
  debug = (refl, (omega arith, (omega arith, tt)));
}

-- The root with patched instructions, of which the second one is JFORL for the trace 2.
abbrev pub patched_info : PtInfo
patched_info = record root_info { flags = 0x11; bc = 0x00010052 ∷ 0x0002014d ∷ [] }

pub patched-IsInfo : IsInfo patched_info
patched-IsInfo = record {
  params = omega arith;
  frame = omega arith;
  upvalues = omega arith;
  half_words = (omega arith, tt);
  words = (omega arith, (omega arith, tt));
  numbers = ((omega arith, omega arith), (omega arith, tt));
  first = omega arith;
  lines = omega arith;
  debug = (refl, (omega arith, (omega arith, tt)));
}

pub table-IsTab : IsTab table
table-IsTab =
    ((omega arith, ((omega arith, omega arith), tt)), ((tt, omega arith), ((tt, omega arith), tt)))

pub root_kgcs-IsKgcs : IsKgcs root_kgcs
root_kgcs-IsKgcs =
    ((child-IsInfo, (λ e. cc), tt), (tt, (table-IsTab, ((omega arith, omega arith), tt))))

pub root-IsProto : IsProto (proto root_info root_kgcs)
root-IsProto = (root-IsInfo, (λ e. refl), root_kgcs-IsKgcs)
