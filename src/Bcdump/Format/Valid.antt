-- ===== src/Bcdump/Format/Valid.antt =====
-- Prototypes whose fields lie in the range of their C types.
use probabilistic_lua.Common.{
  ltb, if◌then◌else◌, bit_and, ℕ, ◌+◌, ◌*◌, ◌^◌, ◌≤◌, ◌<◌, ◌≡◌, Bool, true, false, length, All,
  Option, none, some,
}
use probabilistic_lua.Bcdump.Format.Values.{Ktab, fmt_pdata}
use probabilistic_lua.Bcdump.Types.{
  GCtab, GCproto, proto, Kgc, k_str, k_child, k_tab, k_int64, k_uint64, k_complex, Kgcs, k_end,
  k_cons, PtInfo, DebugInfo, IsKnum, IsTab, IsValue, IsPair, word_mod,
}

abbrev pub IsWord : ℕ → Type 0
IsWord w = w < word_mod

-- The bound on a line number by the width that the number of lines asks for.
abbrev pub line_bound : ℕ → ℕ
line_bound numline = if ltb numline 256 then 256 else if ltb numline 65536 then 65536 else word_mod

-- One line number for each instruction, and memory sizes that do not wrap.
abbrev pub IsDebug : PtInfo → Option DebugInfo → Type 0
IsDebug i none = Unit
IsDebug i (some d) =
    (length d.lineinfo ≡ length i.bc) × All (λ l. l < line_bound i.numline) d.lineinfo

pub record IsInfo (i : PtInfo) : Type 0 where
  pub params : i.numparams < 256
  pub frame : i.framesize < 256
  pub upvalues : length i.uv < 256
  pub half_words : All (λ h. h < 65536) i.uv
  pub words : All IsWord i.bc
  pub numbers : All IsKnum i.kn
  pub first : i.firstline < word_mod
  pub lines : i.numline < 2 ^ 31
  pub debug : IsDebug i i.debug

abbrev pub has_child : {T : Type 0} → Kgcs T → Bool
has_child k_end = false
has_child (k_cons (k_child p) ks) = true
has_child (k_cons k ks) = has_child ks

-- Children among the constants are announced by PROTO_CHILD.
abbrev mutual
  pub IsProto : GCproto GCtab → Type 0
  IsProto (proto i ks) = IsInfo i × (has_child ks ≡ true → bit_and i.flags 1 ≡ 1) × IsKgcs ks

  pub IsKgc : Kgc GCtab → Type 0
  IsKgc (k_str s) = Unit
  IsKgc (k_child p) = IsProto p
  IsKgc (k_tab t) = IsTab t
  IsKgc (k_int64 lo hi) = IsWord lo × IsWord hi
  IsKgc (k_uint64 lo hi) = IsWord lo × IsWord hi
  IsKgc (k_complex rlo rhi ilo ihi) = IsWord rlo × IsWord rhi × IsWord ilo × IsWord ihi

  pub IsKgcs : Kgcs GCtab → Type 0
  IsKgcs k_end = Unit
  IsKgcs (k_cons k ks) = IsKgc k × IsKgcs ks

-- The contents of a dump: the same, with tables as they are saved, and no debug information if it is
-- stripped.
module _ (strip : Bool) where
  abbrev mutual
    pub IsSaved : GCproto Ktab → Type 0
    IsSaved (proto i ks) =
        IsInfo i × (i.flags < 256) × (strip ≡ true → i.debug ≡ none) × IsSavedKgcs ks

    pub IsSavedKgc : Kgc Ktab → Type 0
    IsSavedKgc (k_str s) = Unit
    IsSavedKgc (k_child p) = IsSaved p
    IsSavedKgc (k_tab t) = All IsValue t.vals × All IsPair t.pairs
    IsSavedKgc (k_int64 lo hi) = IsWord lo × IsWord hi
    IsSavedKgc (k_uint64 lo hi) = IsWord lo × IsWord hi
    IsSavedKgc (k_complex rlo rhi ilo ihi) = IsWord rlo × IsWord rhi × IsWord ilo × IsWord ihi

    pub IsSavedKgcs : Kgcs Ktab → Type 0
    IsSavedKgcs k_end = Unit
    IsSavedKgcs (k_cons k ks) = IsSavedKgc k × IsSavedKgcs ks

-- The dump of each prototype is small enough for 32-bit buffer sizes not to wrap.
module _ (strip be : Bool) where
  abbrev mutual
    pub IsSmall : GCproto Ktab → Type 0
    IsSmall (proto i ks) =
        (11 * length (fmt_pdata strip be (proto i ks)) + 128 ≤ 2 ^ 31) × IsSmallKgcs ks

    pub IsSmallKgc : Kgc Ktab → Type 0
    IsSmallKgc (k_child p) = IsSmall p
    IsSmallKgc k = Unit

    pub IsSmallKgcs : Kgcs Ktab → Type 0
    IsSmallKgcs k_end = Unit
    IsSmallKgcs (k_cons k ks) = IsSmallKgc k × IsSmallKgcs ks
