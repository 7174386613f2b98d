-- ===== src/Bcdump/Read/Values/RoundTrip.antt =====
-- The reader's tables and constants on the bytes of the format.
use probabilistic_lua.Common.{
  ℕ, suc, ◌+◌, ◌-◌, ◌*◌, ◌/◌, ◌%◌, ◌^◌, ◌≤◌, ◌<◌, bit_and, List, [], ◌∷◌, ◌++◌, Bool, ◌==◌,
  if◌then◌else◌, length, length-append, map, take-append_length, drop-append_length, All, dec_lt,
  le→leb, lt→leb_false, ne→eqb_false, ◌≡◌, refl, ◌∙◌, arith, append_assoc,
}
use probabilistic_lua.Common.Bits.{bit_and_mask}
use probabilistic_lua.Common.Result.{Result, ok, ◌>>=◌}
use probabilistic_lua.Bcdump.Uleb.{bcread_uleb128}
use probabilistic_lua.Bcdump.Uleb.Format.{uleb, uleb128, uleb_last, uleb_more}
use probabilistic_lua.Bcdump.Uleb.RoundTrip.{bcread_uleb128-uleb, bcread_uleb128_33-uleb}
use probabilistic_lua.Bcdump.Types.{
  Knum, int, num, TValue, pri, number, str, TabCalls, Build, IsKnum, IsValue, IsPair, GCproto, Kgc,
  k_str, k_child, k_tab, k_int64, k_uint64, k_complex, Kgcs, k_end, k_cons, word_mod,
}
use probabilistic_lua.Bcdump.Format.Values.{
  Ktab, fmts, fmt_ktabk, fmt_pair, fmt_ktab, fmt_kgc, fmt_kgcs, fmt_knum, count_kgcs, fmts_long,
  ktabk_long, pair_long,
}
use probabilistic_lua.Bcdump.Format.Load.{
  load_num, load_value, load_pair, load_tab, load_proto, load_kgc, load_kgcs,
}
use probabilistic_lua.Bcdump.Format.Valid.{IsSavedKgc, IsSavedKgcs}
use probabilistic_lua.Bcdump.Read.Values.Bits.{hsize2hbits-hash_bits}
use probabilistic_lua.Bcdump.Read.Values.{
  bcread_mem, read_times, read_words, set_int, bcread_ktabk, read_pair, bcread_ktab, read_kgc,
  bcread_kgc, read_knum,
}

-- The reader takes exactly the bytes `enc`, and returns `x`.
abbrev pub Reads : {A : Type 0} → (List ℕ → Result (A × List ℕ)) → List ℕ → A → Type 0
Reads read enc x = (rest : List ℕ) → read (enc ++ rest) ≡ ok (x, rest)

-- One reader and then the rest of a do block.
pub then_read :
    {A B : Type 0} (read : List ℕ → Result (A × List ℕ)) (f : A × List ℕ → Result B)
    (e₁ e₂ rest : List ℕ) (x : A) (z : Result B)
    → Reads read e₁ x
    → f (x, e₂ ++ rest) ≡ z
    → (read ((e₁ ++ e₂) ++ rest) >>= f) ≡ z
then_read read f e₁ e₂ rest x z h k = rw (append_assoc e₁ e₂ rest, h (e₂ ++ rest)) k

pub uleb-Reads : (v : ℕ) → v < word_mod → Reads bcread_uleb128 (uleb128 v) v
uleb-Reads v h rest = bcread_uleb128-uleb v rest h

pub mem-Reads : (s : List ℕ) → Reads (bcread_mem (length s)) s s
unfolding bcread_mem
mem-Reads s rest = rw (
  le→leb (length s) (length (s ++ rest)) (omega (arith, length-append s rest)),
  take-append_length s rest,
  drop-append_length s rest,
)

pub times-Reads :
    {A B : Type 0} (f : A → List ℕ) (load : A → B) (read : List ℕ → Result (B × List ℕ))
    (P : A → Type 0) (xs : List A)
    → ((x : A) → P x → Reads read (f x) (load x))
    → All P xs
    → Reads (read_times (length xs) read) (fmts f xs) (map load xs)
unfolding read_times fmts
times-Reads f load read P [] h v rest = refl
times-Reads f load read P (x ∷ xs) h v rest =
    then_read read _ (f x) (fmts f xs) rest (load x) _ (h x v.0)
      (rw (times-Reads f load read P xs h v.1 rest))

words-Reads :
    (lo hi : ℕ)
    → lo < word_mod
    → hi < word_mod
    → Reads read_words (uleb128 lo ++ uleb128 hi) (lo, hi)
unfolding read_words
words-Reads lo hi hl hh rest =
    then_read bcread_uleb128 _ (uleb128 lo) (uleb128 hi) rest lo _ (uleb-Reads lo hl)
      (rw (uleb-Reads hi hh rest))

All-short :
    {A : Type 0} (P : A → Type 0) (f : A → List ℕ) (n : ℕ) (xs : List A)
    → All P xs
    → length (fmts f xs) < n
    → All (λ x. P x × (length (f x) < n)) xs
unfolding fmts
All-short P f n [] v h = tt
All-short P f n (x ∷ xs) v h =
    let len = length-append (f x) (fmts f xs) in
    ((v.0, omega arith), All-short P f n xs v.1 (omega arith))

module _ (b : Build) where
  ktabk-Reads :
      (o : TValue)
      → IsValue o
      → length (fmt_ktabk o) < 2 ^ 31
      → Reads (bcread_ktabk b) (fmt_ktabk o) (load_value b o)
  unfolding bcread_ktabk fmt_ktabk load_value load_num set_int
  ktabk-Reads (pri p) v short rest = rw (
    uleb-Reads p (omega arith) rest,
    lt→leb_false 5 p (omega arith),
    ne→eqb_false p 3 (omega arith),
    ne→eqb_false p 4 (omega arith),
  )
  ktabk-Reads (number (int k)) v short rest =
      then_read bcread_uleb128 _ (uleb128 3) (uleb128 k) rest 3 _ (uleb-Reads 3 (omega arith))
        (rw (uleb-Reads k v rest))
  ktabk-Reads (number (num lo hi)) v short rest =
      then_read bcread_uleb128 _ (uleb128 4) (uleb128 lo ++ uleb128 hi) rest 4 _
        (uleb-Reads 4 (omega arith)) (rw (words-Reads lo hi v.0 v.1 rest))
  ktabk-Reads (str s) v short rest =
      let n = 5 + length s in
      let less : n - 5 ≡ length s = omega arith in
      let fits = length-append (uleb128 n) s in
      then_read bcread_uleb128 _ (uleb128 n) s rest n _ (uleb-Reads n (omega arith))
        (rw (le→leb 5 n (omega arith), less, mem-Reads s rest))

  pair-Reads :
      (p : TValue × TValue)
      → IsPair p
      → length (fmt_pair p) < 2 ^ 31
      → Reads (read_pair b) (fmt_pair p) (load_pair b p)
  unfolding read_pair
  pair-Reads (k, v) ok_pair short rest =
      let fits = length-append (fmt_ktabk k) (fmt_ktabk v) in
      then_read (bcread_ktabk b) _ (fmt_ktabk k) (fmt_ktabk v) rest (load_value b k) _
        (ktabk-Reads k ok_pair.0 (omega arith)) (rw (ktabk-Reads v ok_pair.1 (omega arith) rest))

  pub ktab-Reads :
      (t : Ktab)
      → All IsValue t.vals
      → All IsPair t.pairs
      → length (fmt_ktab t) < 2 ^ 31
      → Reads (bcread_ktab b) (fmt_ktab t) (load_tab b t)
  unfolding bcread_ktab fmt_ktab load_tab
  ktab-Reads t hv hp short rest =
      let nv = length t.vals in
      let np = length t.pairs in
      let vals = fmts fmt_ktabk t.vals in
      let pairs = fmts fmt_pair t.pairs in
      let len₁ = length-append (uleb128 nv) (uleb128 np ++ (vals ++ pairs)) in
      let len₂ = length-append (uleb128 np) (vals ++ pairs) in
      let len₃ = length-append vals pairs in
      let long₁ = fmts_long fmt_ktabk t.vals ktabk_long in
      let long₂ = fmts_long fmt_pair t.pairs pair_long in
      let read_vals =
        times-Reads fmt_ktabk (load_value b) (bcread_ktabk b)
          (λ v. IsValue v × (length (fmt_ktabk v) < 2 ^ 31)) t.vals (λ v h. ktabk-Reads v h.0 h.1)
          (All-short IsValue fmt_ktabk (2 ^ 31) t.vals hv (omega arith)) in
      let read_pairs =
        times-Reads fmt_pair (load_pair b) (read_pair b)
          (λ p. IsPair p × (length (fmt_pair p) < 2 ^ 31)) t.pairs (λ p h. pair-Reads p h.0 h.1)
          (All-short IsPair fmt_pair (2 ^ 31) t.pairs hp (omega arith)) in
      then_read bcread_uleb128 _ (uleb128 nv) _ rest nv _ (uleb-Reads nv (omega arith)) (
        then_read bcread_uleb128 _ (uleb128 np) _ rest np _ (uleb-Reads np (omega arith)) (
          then_read (read_times nv (bcread_ktabk b)) _ vals pairs rest _ _ read_vals
            (rw (read_pairs rest, hsize2hbits-hash_bits np (omega arith)))))

  -- The loaded children, the first one on top, as the reader finds them on the stack.
  unfoldable pub kids : Kgcs Ktab → List (GCproto TabCalls) → List (GCproto TabCalls)
  kids k_end stack = stack
  kids (k_cons (k_child p) ks) stack = load_proto b p ∷ kids ks stack
  kids (k_cons (k_str s) ks) stack = kids ks stack
  kids (k_cons (k_tab t) ks) stack = kids ks stack
  kids (k_cons (k_int64 lo hi) ks) stack = kids ks stack
  kids (k_cons (k_uint64 lo hi) ks) stack = kids ks stack
  kids (k_cons (k_complex rlo rhi ilo ihi) ks) stack = kids ks stack

  module _ (strip : Bool) where
    kgc-Reads :
        (k : Kgc Ktab) (ks : Kgcs Ktab) (stack : List (GCproto TabCalls))
        → IsSavedKgc strip k
        → length (fmt_kgc k) < 2 ^ 31
        → Reads (read_kgc b (kids (k_cons k ks) stack)) (fmt_kgc k) (load_kgc b k, kids ks stack)
    unfolding read_kgc fmt_kgc load_kgc kids
    kgc-Reads (k_str s) ks stack v short rest =
        let n = 5 + length s in
        let less : n - 5 ≡ length s = omega arith in
        let fits = length-append (uleb128 n) s in
        then_read bcread_uleb128 _ (uleb128 n) s rest n _ (uleb-Reads n (omega arith))
          (rw (le→leb 5 n (omega arith), less, mem-Reads s rest))
    kgc-Reads (k_child p) ks stack v short rest = rw (uleb-Reads 0 (omega arith) rest)
    kgc-Reads (k_tab t) ks stack v short rest =
        let fits = length-append (uleb128 1) (fmt_ktab t) in
        then_read bcread_uleb128 _ (uleb128 1) (fmt_ktab t) rest 1 _ (uleb-Reads 1 (omega arith))
          (rw (ktab-Reads t v.0 v.1 (omega arith) rest))
    kgc-Reads (k_int64 lo hi) ks stack v short rest =
        then_read bcread_uleb128 _ (uleb128 2) _ rest 2 _ (uleb-Reads 2 (omega arith))
          (rw (words-Reads lo hi v.0 v.1 rest))
    kgc-Reads (k_uint64 lo hi) ks stack v short rest =
        then_read bcread_uleb128 _ (uleb128 3) _ rest 3 _ (uleb-Reads 3 (omega arith))
          (rw (words-Reads lo hi v.0 v.1 rest))
    kgc-Reads (k_complex rlo rhi ilo ihi) ks stack v short rest =
        then_read bcread_uleb128 _ (uleb128 4) _ rest 4 _ (uleb-Reads 4 (omega arith)) (
          then_read read_words _ (uleb128 rlo ++ uleb128 rhi) (uleb128 ilo ++ uleb128 ihi) rest
            (rlo, rhi) _ (words-Reads rlo rhi v.0 v.1) (rw (words-Reads ilo ihi v.2 v.3 rest)))

    pub kgcs-Reads :
        (ks : Kgcs Ktab) (stack : List (GCproto TabCalls))
        → IsSavedKgcs strip ks
        → length (fmt_kgcs ks) < 2 ^ 31
        → Reads (bcread_kgc b (count_kgcs ks) (kids ks stack)) (fmt_kgcs ks) (load_kgcs b ks, stack)
    unfolding fmt_kgcs load_kgcs count_kgcs kids bcread_kgc
    kgcs-Reads k_end stack v short rest = refl
    kgcs-Reads (k_cons k ks) stack v short rest =
        let fits = length-append (fmt_kgc k) (fmt_kgcs ks) in
        let next : 1 + count_kgcs ks ≡ suc (count_kgcs ks) = omega arith in
        rw next (
          then_read (read_kgc b (kids (k_cons k ks) stack)) _ (fmt_kgc k) (fmt_kgcs ks) rest _ _
            (kgc-Reads k ks stack v.0 (omega arith))
            (rw (kgcs-Reads ks stack v.1 (omega arith) rest)))

  -- The lowest bit of the first byte tells integers and doubles apart.
  first_bit :
      (v : ℕ) (rest : List ℕ) (low : ℕ)
      → low ≤ 1
      → (c : ℕ) × (p : List ℕ) × (uleb128 (2 * v + low) ++ rest ≡ c ∷ p) × (bit_and c 1 ≡ low)
  first_bit v rest low h = elim (dec_lt (2 * v + low) 128) [
    | yes p ↦ (
      2 * v + low,
      rest,
      rw (uleb_last 4 (2 * v + low) p),
      bit_and_mask 1 (2 * v + low) ∙ omega arith,
    )
    | no p ↦ (
      (2 * v + low) % 128 + 128,
      uleb 3 ((2 * v + low) / 128) ++ rest,
      rw (uleb_more 3 (2 * v + low) (omega arith)),
      bit_and_mask 1 ((2 * v + low) % 128 + 128) ∙ omega arith,
    )
  ]

  -- A number constant by its lowest bit and what follows the 33-bit number.
  knum_step :
      (v low : ℕ) (rest : List ℕ)
      → v < word_mod
      → low ≤ 1
      → read_knum b (uleb128 (2 * v + low) ++ rest) ≡ (
          if low == 0
          then ok (load_num b (int v), rest)
          else bcread_uleb128 rest >>= λ r. ok (num v r.0, r.1))
  unfolding read_knum set_int load_num
  knum_step v low rest hv hl =
      let (c, p, e, bit) = first_bit v rest low hl in
      let read = bcread_uleb128_33-uleb (2 * v + low) rest (omega arith) in
      let half : (2 * v + low) / 2 ≡ v = omega arith in rw (e, ← e, read, half, bit)

  -- On the bytes of a number constant in range, integer or double, the reader takes exactly these
  -- bytes and returns the number, an integer as a tagged integer or, on a build without them, as
  -- its double.
  pub knum-Reads : (o : Knum) → IsKnum o → Reads (read_knum b) (fmt_knum o) (load_num b o)
  unfolding fmt_knum
  knum-Reads (int k) v rest = knum_step k 0 rest v (omega arith)
  knum-Reads (num lo hi) v rest = rw (append_assoc (uleb128 (2 * lo + 1)) (uleb128 hi) rest) (
      knum_step lo 1 (uleb128 hi ++ rest) v.0 (omega arith)
      ∙ unfold load_num in rw (uleb-Reads hi v.1 rest))
