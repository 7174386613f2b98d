-- ===== src/Bcdump/Read/Values/Words.antt =====
-- Instructions, upvalue references and line numbers on the bytes of the format, on hosts of either
-- byte order.
use probabilistic_lua.Common.{
  ℕ, ◌+◌, ◌*◌, ◌/◌, ◌%◌, ◌^◌, ◌<◌, List, [], ◌∷◌, ◌++◌, Bool, true, false, not, if◌then◌else◌,
  length, length-append, take, drop, map, All, take-append_length, drop-append_length, dec_lt,
  le→ltb, lt→ltb, lt→leb_false, ◌≡◌, refl, ◌∙◌, arith,
}
use probabilistic_lua.Common.Bits.{bit_or-shift}
use probabilistic_lua.Common.Result.{ok}
use probabilistic_lua.Bcdump.Types.{DebugInfo, word_mod}
use probabilistic_lua.Bcdump.Format.Values.{
  fmts, fmt_word, fmt_half, fmt_line, length-fmts, length-word, length-half, fmts_congr,
}
use probabilistic_lua.Bcdump.Format.Valid.{line_bound}
use probabilistic_lua.Bcdump.Read.Values.RoundTrip.{Reads, mem-Reads}
use probabilistic_lua.Bcdump.Read.Values.{
  host_words, host_halves, lj_bswap, swap_half, bcread_bytecode, bcread_uv, line_below, line_width,
  bcread_dbg, debug_of,
}

-- The swap is needed exactly when the dump's byte order is not the host's.
abbrev pub differs : Bool → Bool → Bool
differs true be = not be
differs false be = be

abbrev seen_words : Bool → Bool → List ℕ → List ℕ
seen_words dump be bytes =
    if differs dump be then map lj_bswap (host_words be bytes) else host_words be bytes

abbrev seen_halves : Bool → Bool → List ℕ → List ℕ
seen_halves dump be bytes =
    if differs dump be then map swap_half (host_halves be bytes) else host_halves be bytes

cons_congr : {x y : ℕ} {xs ys : List ℕ} → x ≡ y → xs ≡ ys → x ∷ xs ≡ y ∷ ys
cons_congr p q = cc

swap_half-eq : (a c : ℕ) → a < 256 → c < 256 → swap_half (a + c * 256) ≡ c + a * 256
unfolding swap_half
swap_half-eq a c ha hc =
    let high : (a + c * 256) / 2 ^ 8 ≡ c = omega arith in
    rw (high, bit_or-shift 8 c (a + c * 256) hc) (omega arith)

words-seen :
    (dump be : Bool) (ws : List ℕ)
    → All (λ w. w < word_mod) ws
    → seen_words dump be (fmts (fmt_word dump) ws) ≡ ws
unfolding fmts fmt_word host_words lj_bswap
words-seen true true [] v = refl
words-seen true false [] v = refl
words-seen false true [] v = refl
words-seen false false [] v = refl
words-seen true true (w ∷ ws) v = cons_congr (omega arith) (words-seen true true ws v.1)
words-seen true false (w ∷ ws) v = cons_congr (omega arith) (words-seen true false ws v.1)
words-seen false true (w ∷ ws) v = cons_congr (omega arith) (words-seen false true ws v.1)
words-seen false false (w ∷ ws) v = cons_congr (omega arith) (words-seen false false ws v.1)

halves-seen :
    (dump be : Bool) (hs : List ℕ)
    → All (λ h. h < 65536) hs
    → seen_halves dump be (fmts (fmt_half dump) hs) ≡ hs
unfolding fmts fmt_half host_halves
halves-seen true true [] v = refl
halves-seen true false [] v = refl
halves-seen false true [] v = refl
halves-seen false false [] v = refl
halves-seen true true (h ∷ hs) v = cons_congr (omega arith) (halves-seen true true hs v.1)
halves-seen true false (h ∷ hs) v =
    cons_congr (swap_half-eq (h / 256 % 256) (h % 256) (omega arith) (omega arith) ∙ omega arith)
      (halves-seen true false hs v.1)
halves-seen false true (h ∷ hs) v =
    cons_congr (swap_half-eq (h / 256 % 256) (h % 256) (omega arith) (omega arith) ∙ omega arith)
      (halves-seen false true hs v.1)
halves-seen false false (h ∷ hs) v = cons_congr (omega arith) (halves-seen false false hs v.1)

module _ (dump be : Bool) where
  -- On 32-bit instructions of a dump of either byte order, fewer than 2 ^ 32 bytes of them, a host
  -- of either byte order, swapping when the orders differ, takes exactly these bytes and reads back
  -- the instructions.
  pub bytecode-Reads :
      (ws : List ℕ)
      → All (λ w. w < word_mod) ws
      → 4 * length ws < word_mod
      → Reads (bcread_bytecode be (differs dump be) (length ws)) (fmts (fmt_word dump) ws) ws
  unfolding bcread_bytecode
  bytecode-Reads ws v short rest =
      let size : (length ws * 4) % 2 ^ 32 ≡ length (fmts (fmt_word dump) ws) =
        omega (arith, length-fmts (fmt_word dump) 4 ws (length-word dump)) in
      rw (size, mem-Reads (fmts (fmt_word dump) ws) rest, words-seen dump be ws v)

  -- On 16-bit upvalue references of a dump of either byte order, a host of either byte order,
  -- swapping when the orders differ, takes exactly these bytes and reads back the references.
  pub uv-Reads :
      (hs : List ℕ)
      → All (λ h. h < 65536) hs
      → Reads (bcread_uv be (differs dump be) (length hs)) (fmts (fmt_half dump) hs) hs
  unfolding bcread_uv
  uv-Reads hs v rest =
      let size : length hs * 2 ≡ length (fmts (fmt_half dump) hs) =
        omega (arith, length-fmts (fmt_half dump) 2 hs (length-half dump)) in
      rw (size, mem-Reads (fmts (fmt_half dump) hs) rest, halves-seen dump be hs v)

bytes-same : (xs : List ℕ) → All (λ l. l < 256) xs → fmts (λ l. l % 256 ∷ []) xs ≡ xs
unfolding fmts
bytes-same [] v = refl
bytes-same (x ∷ xs) v = cons_congr (omega arith) (bytes-same xs v.1)

-- A block of lines and names is split where the lines end.
split_lines :
    (lines names : List ℕ) (k : ℕ)
    → k ≡ length lines
    → (take k (lines ++ names) ≡ lines) × (drop k (lines ++ names) ≡ names)
split_lines lines names k e =
    (rw e (take-append_length lines names), rw e (drop-append_length lines names))

-- What bcread_dbg makes of the bytes of the lines.
abbrev seen_lines : Bool → Bool → ℕ → List ℕ → List ℕ
seen_lines be swap numline l =
    if line_below numline 256
    then l
    else if line_below numline 65536
    then (if swap then map swap_half (host_halves be l) else host_halves be l)
    else (if swap then map lj_bswap (host_words be l) else host_words be l)

dbg_step :
    (be swap : Bool) (numline n : ℕ) (lines names rest : List ℕ)
    → n * line_width numline ≡ length lines
    → length (lines ++ names) < 2 ^ 31
    → bcread_dbg be swap numline n (length (lines ++ names)) ((lines ++ names) ++ rest)
      ≡ ok (debug_of (seen_lines be swap numline lines) names, rest)
unfolding bcread_dbg
dbg_step be true numline n lines names rest e short =
    let len = length-append lines names in
    let size : (n * line_width numline) % 2 ^ 32 ≡ length lines = omega arith in
    let (first, second) = split_lines lines names (length lines) refl in
    let inside = le→ltb (length (lines ++ names)) (length lines) (omega arith) in
    rw (mem-Reads (lines ++ names) rest, size, first, second, inside) (ground arith)
dbg_step be false numline n lines names rest e short =
    let len = length-append lines names in
    let size : (n * line_width numline) % 2 ^ 32 ≡ length lines = omega arith in
    let (first, second) = split_lines lines names (length lines) refl in
    rw (mem-Reads (lines ++ names) rest, size, first, second) (ground arith)

module _ (dump be : Bool) (numline : ℕ) (lines : List ℕ)
    (v : All (λ l. l < line_bound numline) lines) where
  abbrev line_bytes : List ℕ
  line_bytes = fmts (fmt_line dump numline) lines

  lines-seen :
      numline < 2 ^ 31
      → (length lines * line_width numline ≡ length line_bytes)
        × (seen_lines be (differs dump be) numline line_bytes ≡ lines)
  lines-seen small = elim (dec_lt numline 256) [
    | yes p ↦
        let t₁ = lt→ltb numline 256 p in
        let one : line_width numline ≡ 1 = unfold line_width in rw t₁ in
        let plain : line_bytes ≡ lines =
          fmts_congr (fmt_line dump numline) (λ l. l % 256 ∷ []) lines
            (λ l. unfold fmt_line in rw t₁)
          ∙ bytes-same lines (rw t₁ at v) in
        (rw (one, plain) (omega arith), rw (t₁, plain))
    | no p ↦ elim (dec_lt numline 65536) [
      | yes q ↦
          let t₁ = le→ltb numline 256 (omega arith) in
          let t₂ = lt→ltb numline 65536 q in
          let t₃ = lt→leb_false 0x80000000 numline small in
          let two : line_width numline ≡ 2 = unfold line_width in rw (t₁, t₂, t₃) in
          let plain : line_bytes ≡ fmts (fmt_half dump) lines =
            fmts_congr (fmt_line dump numline) (fmt_half dump) lines
              (λ l. unfold fmt_line in rw (t₁, t₂)) in
          let width = length-fmts (fmt_half dump) 2 lines (length-half dump) in
          (
            rw (two, plain) (omega arith),
            rw (t₁, t₂, t₃, plain) (halves-seen dump be lines (rw (t₁, t₂) at v)),
          )
      | no q ↦
          let t₁ = le→ltb numline 256 (omega arith) in
          let t₂ = le→ltb numline 65536 (omega arith) in
          let t₃ = lt→leb_false 0x80000000 numline small in
          let four : line_width numline ≡ 4 = unfold line_width in rw (t₁, t₂, t₃) in
          let plain : line_bytes ≡ fmts (fmt_word dump) lines =
            fmts_congr (fmt_line dump numline) (fmt_word dump) lines
              (λ l. unfold fmt_line in rw (t₁, t₂)) in
          let width = length-fmts (fmt_word dump) 4 lines (length-word dump) in
          (
            rw (four, plain) (omega arith),
            rw (t₁, t₂, t₃, plain) (words-seen dump be lines (rw (t₁, t₂) at v)),
          )
    ]
  ]

module _ (dump be : Bool) (numline : ℕ) (small : numline < 2 ^ 31) (d : DebugInfo)
    (v : All (λ l. l < line_bound numline) d.lineinfo)
    (size : length (fmts (fmt_line dump numline) d.lineinfo ++ d.names) < 2 ^ 31) where
  -- On the debug block of a dump of either byte order, with fewer than 2 ^ 31 lines, line numbers
  -- that fit the width for the number of lines, and a block shorter than 2 ^ 31 bytes, a host of
  -- either byte order, swapping when the orders differ, reads back the line numbers and the names
  -- behind them.
  pub dbg-Reads :
      Reads
        (bcread_dbg be
          (differs dump be)
          numline
          (length d.lineinfo)
          (length (fmts (fmt_line dump numline) d.lineinfo ++ d.names)))
        (fmts (fmt_line dump numline) d.lineinfo ++ d.names)
        d
  dbg-Reads rest =
      let (widths, seen) = lines-seen dump be numline d.lineinfo v small in
      dbg_step be (differs dump be) numline (length d.lineinfo) _ d.names rest widths size ∙ rw seen
