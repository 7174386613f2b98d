-- ===== src/Bcdump/Format/Values.antt =====
-- The bytes of a dump as plain functions of what it holds, one for each rule of the grammar in
-- LuaJIT-2.0.1/src/lj_bcdump.h. Neither the writer nor the reader is used here.
use probabilistic_lua.Common.{
  ◌≡◌, refl, ℕ, ◌+◌, ◌*◌, ◌/◌, ◌%◌, List, [], ◌∷◌, ◌++◌, Bool, true, false, ltb, ◌==◌,
  if◌then◌else◌, length, length-append, ◌≤◌, arith, Option, none, some,
}
use probabilistic_lua.Bcdump.Uleb.Format.{uleb128, length-uleb}
use probabilistic_lua.Bcdump.Types.{
  Knum, int, num, TValue, pri, number, str, GCproto, proto, Kgc, k_str, k_child, k_tab, k_int64,
  k_uint64, k_complex, Kgcs, k_end, k_cons, PtInfo, DebugInfo,
}

-- The items of a list, one after the other.
unfoldable pub fmts : {A : Type 0} → (A → List ℕ) → List A → List ℕ
fmts f [] = []
fmts f (x ∷ xs) = f x ++ fmts f xs

-- `ktabk = ktabtypeU { intU | (loU hiU) | strB* }`
unfoldable pub fmt_ktabk : TValue → List ℕ
fmt_ktabk (pri p) = uleb128 p
fmt_ktabk (number (int k)) = uleb128 3 ++ uleb128 k
fmt_ktabk (number (num lo hi)) = uleb128 4 ++ (uleb128 lo ++ uleb128 hi)
fmt_ktabk (str s) = uleb128 (5 + length s) ++ s

-- The contents of a template table in a dump.
pub record Ktab : Type 0 where
  pub vals : List TValue
  pub pairs : List (TValue × TValue)

abbrev pub fmt_pair : TValue × TValue → List ℕ
fmt_pair p = fmt_ktabk p.0 ++ fmt_ktabk p.1

-- `ktab = narrayU nhashU karray* khash*`
unfoldable pub fmt_ktab : Ktab → List ℕ
fmt_ktab t =
    uleb128 (length t.vals)
    ++ (uleb128 (length t.pairs) ++ (fmts fmt_ktabk t.vals ++ fmts fmt_pair t.pairs))

-- `kgc = kgctypeU { ktab | (loU hiU) | (rloU rhiU iloU ihiU) | strB* }`
unfoldable pub fmt_kgc : Kgc Ktab → List ℕ
fmt_kgc (k_str s) = uleb128 (5 + length s) ++ s
fmt_kgc (k_child p) = uleb128 0
fmt_kgc (k_tab t) = uleb128 1 ++ fmt_ktab t
fmt_kgc (k_int64 lo hi) = uleb128 2 ++ (uleb128 lo ++ uleb128 hi)
fmt_kgc (k_uint64 lo hi) = uleb128 3 ++ (uleb128 lo ++ uleb128 hi)
fmt_kgc (k_complex rlo rhi ilo ihi) =
    uleb128 4 ++ ((uleb128 rlo ++ uleb128 rhi) ++ (uleb128 ilo ++ uleb128 ihi))

unfoldable pub fmt_kgcs : Kgcs Ktab → List ℕ
fmt_kgcs k_end = []
fmt_kgcs (k_cons k ks) = fmt_kgc k ++ fmt_kgcs ks

unfoldable pub count_kgcs : {T : Type 0} → Kgcs T → ℕ
count_kgcs k_end = 0
count_kgcs (k_cons k ks) = 1 + count_kgcs ks

-- `knum = intU0 | (loU1 hiU)`
unfoldable pub fmt_knum : Knum → List ℕ
fmt_knum (int k) = uleb128 (2 * k + 0)
fmt_knum (num lo hi) = uleb128 (2 * lo + 1) ++ uleb128 hi

-- `W`: a 32-bit word, and `H`: a 16-bit word, in the byte order of the dump.
unfoldable pub fmt_word : Bool → ℕ → List ℕ
fmt_word false w = w % 256 ∷ w / 256 % 256 ∷ w / 65536 % 256 ∷ w / 16777216 % 256 ∷ []
fmt_word true w = w / 16777216 % 256 ∷ w / 65536 % 256 ∷ w / 256 % 256 ∷ w % 256 ∷ []

unfoldable pub fmt_half : Bool → ℕ → List ℕ
fmt_half false h = h % 256 ∷ h / 256 % 256 ∷ []
fmt_half true h = h / 256 % 256 ∷ h % 256 ∷ []

-- A line number relative to the first line takes 1, 2 or 4 bytes by the number of lines.
unfoldable pub fmt_line : Bool → ℕ → ℕ → List ℕ
fmt_line be numline l =
    if ltb numline 256
    then l % 256 ∷ []
    else if ltb numline 65536
    then fmt_half be l
    else fmt_word be l

unfoldable pub fmt_debug : Bool → ℕ → Option DebugInfo → List ℕ
fmt_debug be numline none = []
fmt_debug be numline (some d) = fmts (fmt_line be numline) d.lineinfo ++ d.names

-- `[debuglenU [firstlineU numlineU]]`
unfoldable pub fmt_debughead : ℕ → ℕ → ℕ → List ℕ
fmt_debughead sizedbg firstline numline =
    uleb128 sizedbg ++ (if sizedbg == 0 then [] else uleb128 firstline ++ uleb128 numline)

abbrev pub sizedbg_of : Bool → PtInfo → ℕ
sizedbg_of be i = length (fmt_debug be i.numline i.debug)

-- `phead = flagsB numparamsB framesizeB numuvB numkgcU numknU numbcU [debuglenU [...]]`
unfoldable pub fmt_phead : Bool → Bool → PtInfo → ℕ → List ℕ
fmt_phead strip be i sizekgc =
    (i.flags ∷ i.numparams ∷ i.framesize ∷ length i.uv ∷ [])
    ++ (uleb128 sizekgc
        ++ (uleb128 (length i.kn)
            ++ (uleb128 (length i.bc)
                ++ (if strip then [] else fmt_debughead (sizedbg_of be i) i.firstline i.numline))))

-- `pdata = phead bcinsW* uvdataH* kgc* knum* [debugB*]`
unfoldable pub fmt_pdata : Bool → Bool → GCproto Ktab → List ℕ
fmt_pdata strip be (proto i ks) =
    fmt_phead strip be i (count_kgcs ks)
    ++ (fmts (fmt_word be) i.bc
        ++ (fmts (fmt_half be) i.uv
            ++ (fmt_kgcs ks ++ (fmts fmt_knum i.kn ++ fmt_debug be i.numline i.debug))))

-- `proto = lengthU pdata`
unfoldable pub fmt_proto : Bool → Bool → GCproto Ktab → List ℕ
fmt_proto strip be p = uleb128 (length (fmt_pdata strip be p)) ++ fmt_pdata strip be p

-- Each item takes at least one byte.
pub fmts_long :
    {A : Type 0} (f : A → List ℕ) (xs : List A)
    → ((x : A) → 1 ≤ length (f x))
    → length xs ≤ length (fmts f xs)
unfolding fmts
fmts_long f [] h = omega arith
fmts_long f (x ∷ xs) h = omega (arith, fmts_long f xs h, h x, length-append (f x) (fmts f xs))

pub ktabk_long : (v : TValue) → 1 ≤ length (fmt_ktabk v)
unfolding fmt_ktabk
ktabk_long (pri p) = omega (arith, length-uleb 4 p)
ktabk_long (number (int k)) = omega (arith, length-uleb 4 3, length-append (uleb128 3) (uleb128 k))
ktabk_long (number (num lo hi)) =
    omega (arith, length-uleb 4 4, length-append (uleb128 4) (uleb128 lo ++ uleb128 hi))
ktabk_long (str s) =
    omega (arith, length-uleb 4 (5 + length s), length-append (uleb128 (5 + length s)) s)

pub pair_long : (p : TValue × TValue) → 1 ≤ length (fmt_pair p)
pair_long p = omega (arith, ktabk_long p.0, length-append (fmt_ktabk p.0) (fmt_ktabk p.1))

pub knum_long : (o : Knum) → 1 ≤ length (fmt_knum o)
unfolding fmt_knum
knum_long (int k) = omega (arith, length-uleb 4 (2 * k + 0))
knum_long (num lo hi) =
    omega (arith, length-uleb 4 (2 * lo + 1), length-append (uleb128 (2 * lo + 1)) (uleb128 hi))

kgc_long : (k : Kgc Ktab) → 1 ≤ length (fmt_kgc k)
unfolding fmt_kgc
kgc_long (k_str s) =
    omega (arith, length-uleb 4 (5 + length s), length-append (uleb128 (5 + length s)) s)
kgc_long (k_child p) = omega (arith, length-uleb 4 0)
kgc_long (k_tab t) = omega (arith, length-uleb 4 1, length-append (uleb128 1) (fmt_ktab t))
kgc_long (k_int64 lo hi) =
    omega (arith, length-uleb 4 2, length-append (uleb128 2) (uleb128 lo ++ uleb128 hi))
kgc_long (k_uint64 lo hi) =
    omega (arith, length-uleb 4 3, length-append (uleb128 3) (uleb128 lo ++ uleb128 hi))
kgc_long (k_complex a b c d) = omega (
  arith,
  length-uleb 4 4,
  length-append (uleb128 4) ((uleb128 a ++ uleb128 b) ++ (uleb128 c ++ uleb128 d)),
)

pub kgcs_long : (ks : Kgcs Ktab) → count_kgcs ks ≤ length (fmt_kgcs ks)
unfolding fmt_kgcs count_kgcs
kgcs_long k_end = omega arith
kgcs_long (k_cons k ks) =
    omega (arith, kgc_long k, kgcs_long ks, length-append (fmt_kgc k) (fmt_kgcs ks))

-- Items of a fixed width.
pub length-fmts :
    {A : Type 0} (f : A → List ℕ) (w : ℕ) (xs : List A)
    → ((x : A) → length (f x) ≡ w)
    → length (fmts f xs) ≡ w * length xs
unfolding fmts
length-fmts f w [] h = omega arith
length-fmts f w (x ∷ xs) h =
    omega (arith, length-fmts f w xs h, h x, length-append (f x) (fmts f xs))

pub length-word : (be : Bool) (w : ℕ) → length (fmt_word be w) ≡ 4
unfolding fmt_word
length-word false w = refl
length-word true w = refl

pub length-half : (be : Bool) (h : ℕ) → length (fmt_half be h) ≡ 2
unfolding fmt_half
length-half false h = refl
length-half true h = refl

pub fmts_congr :
    {A : Type 0} (f g : A → List ℕ) (xs : List A) → ((x : A) → f x ≡ g x) → fmts f xs ≡ fmts g xs
unfolding fmts
fmts_congr f g [] h = refl
fmts_congr f g (x ∷ xs) h = rw (h x, fmts_congr f g xs h)
