-- ===== src/Bcdump/Buffer/Adds.antt =====
-- Runs that add bytes to the output buffer, for the operations of LuaJIT-2.0.1/src/lj_bcwrite.c.
use probabilistic_lua.Common.{
  ℕ, zero, suc, ◌+◌, ◌*◌, ◌%◌, ◌^◌, ◌≤◌, ◌<◌, List, [], ◌∷◌, ◌++◌, ltb, length, length-append,
  append-nil, append_assoc, ◌≡◌, refl, sym, ap, ◌∙◌, arith, ltb→lt, lt→ltb, le→ltb, Bool-cases, inl,
  inr,
}
use native.Mathlib.Nat.{pow-suc}
use native.Mathlib.Decide.{dec_lt}
use probabilistic_lua.Common.Result.{Result, ok, ◌>>=◌}
use probabilistic_lua.Bcdump.Buffer.{
  SBuf, bcwrite_byte, bcwrite_block, double_size, bcwrite_resize, bcwrite_need,
}

-- The run ends normally, the bytes `enc` were added, and `room` more bytes fit with no resize.
pub record Adds (room : ℕ) (b : SBuf) (enc : List ℕ) (r : Result SBuf) : Type 0 where
  pub after : SBuf
  pub run : r ≡ ok after
  pub added : after.bytes ≡ b.bytes ++ enc
  pub fits : length after.bytes + room ≤ after.sz
  pub grows : b.sz ≤ after.sz

pub length-added :
    (b after : SBuf) (enc : List ℕ)
    → after.bytes ≡ b.bytes ++ enc
    → length after.bytes ≡ length b.bytes + length enc
length-added b after enc e = ap length e ∙ length-append b.bytes enc

-- Two runs in sequence.
pub Adds-bind :
    {room more : ℕ} (b : SBuf) (e₁ e₂ : List ℕ) {r : Result SBuf} (f : SBuf → Result SBuf)
    → Adds room b e₁ r
    → ((b' : SBuf)
        → length b'.bytes ≡ length b.bytes + length e₁
        → length b'.bytes + room ≤ b'.sz
        → b.sz ≤ b'.sz
        → Adds more b' e₂ (f b'))
    → Adds more b (e₁ ++ e₂) (r >>= f)
Adds-bind b e₁ e₂ f a k =
    let n = k a.after (length-added b a.after e₁ a.added) a.fits a.grows in
    record {
      after = n.after;
      run = rw a.run n.run;
      added = n.added ∙ rw (a.added, append_assoc);
      fits = n.fits;
      grows = omega arith;
    }

pub Adds-room :
    {room less : ℕ} {b : SBuf} {enc : List ℕ} {r : Result SBuf}
    → less ≤ room
    → Adds room b enc r
    → Adds less b enc r
Adds-room h a = record {
  after = a.after;
  run = a.run;
  added = a.added;
  fits = omega arith;
  grows = a.grows;
}

pub Adds-refl : (room : ℕ) (b : SBuf) → length b.bytes + room ≤ b.sz → Adds room b [] (ok b)
Adds-refl room b h = record {
  after = b;
  run = refl;
  added = sym (append-nil b.bytes);
  fits = h;
  grows = omega arith;
}

pub byte-Adds :
    (room : ℕ) (b : SBuf) (x : ℕ)
    → length b.bytes + 1 + room ≤ b.sz
    → Adds room b (x ∷ []) (bcwrite_byte b x)
unfolding bcwrite_byte
byte-Adds room b x h = record {
  after = record b { bytes = b.bytes ++ (x ∷ []) };
  run = rw (lt→ltb (length b.bytes) b.sz (omega arith));
  added = refl;
  fits = omega (arith, length-append b.bytes (x ∷ []));
  grows = omega arith;
}

pub block-Adds :
    (room : ℕ) (b : SBuf) (xs : List ℕ)
    → length b.bytes + length xs + room ≤ b.sz
    → Adds room b xs (bcwrite_block b xs)
unfolding bcwrite_block
block-Adds room b [] h = Adds-refl room b (omega arith)
block-Adds room b (x ∷ xs) h =
    Adds-bind b (x ∷ []) xs _ (byte-Adds (length xs + room) b x (omega arith))
      (λ b' n f g. block-Adds room b' xs (omega arith))

pow-shift : (s k : ℕ) → s * 2 ^ suc k ≡ s * 2 * 2 ^ k
pow-shift s k = omega (arith, ap (λ (t : ℕ). s * t) (pow-suc 2 k))

double_size_step :
    (fuel want sz : ℕ)
    → sz < want
    → want ≤ 2 ^ 31
    → double_size (suc fuel) want sz ≡ double_size fuel want (sz * 2)
unfolding double_size
double_size_step fuel want sz h hw =
    let fits : (sz * 2) % 2 ^ 32 ≡ sz * 2 = omega arith in rw (lt→ltb sz want h, fits)

double_size_stop : (fuel want sz : ℕ) → want ≤ sz → double_size (suc fuel) want sz ≡ ok sz
unfolding double_size
double_size_stop fuel want sz h = rw (le→ltb sz want h)

double_size-ok :
    (fuel want sz : ℕ)
    → want ≤ 2 ^ 31
    → want ≤ sz * 2 ^ fuel
    → (s : ℕ) × (double_size (suc fuel) want sz ≡ ok s) × (want ≤ s) × (sz ≤ s)
double_size-ok zero want sz hw h =
    (sz, double_size_stop 0 want sz (omega arith), omega arith, omega arith)
double_size-ok (suc fuel) want sz hw h = elim (dec_lt sz want) [
  | no done ↦ (sz, double_size_stop (suc fuel) want sz (omega arith), omega arith, omega arith)
  | yes small ↦
      let (s, run, above, grown) =
        double_size-ok fuel want (sz * 2) hw (omega (arith, pow-shift sz fuel)) in
      (s, double_size_step (suc fuel) want sz small hw ∙ run, above, omega arith)
]

-- For a buffer of size at least 1 and a request that, with the bytes already there, is at most 2 ^
-- 31, bcwrite_need ends within its fuel, keeps the bytes and the size does not shrink, and the
-- requested number of bytes then fits.
pub need-Adds :
    (b : SBuf) (len : ℕ)
    → 1 ≤ b.sz
    → length b.bytes + len ≤ 2 ^ 31
    → Adds len b [] (bcwrite_need b len)
unfolding bcwrite_need bcwrite_resize
need-Adds b len pos h =
    let want = length b.bytes + len in
    let exact : want % 2 ^ 32 ≡ want = omega arith in
    rw exact (elim (Bool-cases (ltb b.sz want)) [
      | inr enough ↦ rw enough (Adds-refl len b (ground arith))
      | inl small ↦
          let lt = ltb→lt b.sz want small in
          let fits : (b.sz * 2) % 2 ^ 32 ≡ b.sz * 2 = omega arith in
          let (s, run, above, grown) = double_size-ok 32 want (b.sz * 2) h (omega arith) in
          rw (small, fits, run)
            (record {
              after = record b { sz = s };
              run = refl;
              added = sym (append-nil b.bytes);
              fits = above;
              grows = omega arith;
            })
    ])
