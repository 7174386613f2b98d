-- ===== src/Tab/Resize/Best.antt =====
-- The size that bestasize chooses.
use native.Mathlib.Nat.{pow-le-pow_right}
use probabilistic_lua.Common.{
  ℕ, zero, suc, ◌+◌, ◌-◌, ◌*◌, ◌%◌, ◌^◌, ◌≤◌, ◌<◌, true, ltb, lt→ltb, le→ltb, ◌==◌, ne→eqb_false,
  Bool-cases, dec_lt, eq-cases, ◌≡◌, ◌≢◌, refl, ap, ◌∙◌, inl, inr, ◌⊎◌, arith,
}
use probabilistic_lua.Common.Result.{ok}
use probabilistic_lua.Tab.Resize.{Bins, best_loop, bestasize}

-- The keys counted in the first `n` bins.
abbrev pub sum_bins : Bins → ℕ → ℕ
sum_bins bins zero = 0
sum_bins bins (suc n) = sum_bins bins n + bins n

-- More than a quarter of the indices up to 2 ^ (b + 1) are used, some of them in bin `b`.
abbrev pub IsDense : Bins → ℕ → Type 0
IsDense bins b = (0 < bins b) × (2 ^ b < 2 * sum_bins bins (suc b))

-- No array part, or one for the indices up to a power of two, with the keys of the bins up to there.
abbrev pub IsChosen : Bins → ℕ → ℕ → Type 0
IsChosen bins sz na =
    ((sz ≡ 0) × (na ≡ 0))
    ⊎ ((b : ℕ) × (b < 28) × (sz ≡ 2 ^ suc b + 1) × (na ≡ sum_bins bins (suc b)) × IsDense bins b)

-- No power of two by the first `n` bins asks for more.
abbrev pub IsLargest : Bins → ℕ → ℕ → Type 0
IsLargest bins n sz = (c : ℕ) → c < n → IsDense bins c → 2 ^ suc c + 1 ≤ sz

sum_more : (bins : Bins) (b d : ℕ) → sum_bins bins b ≤ sum_bins bins (b + d)
sum_more bins b zero = let same : b + 0 ≡ b = omega arith in rw same (omega arith)
sum_more bins b (suc d) =
    let shift : b + suc d ≡ suc (b + d) = omega arith in rw shift (omega (arith, sum_more bins b d))

sum_mono : (bins : Bins) (b c : ℕ) → b ≤ c → sum_bins bins b ≤ sum_bins bins c
sum_mono bins b c h =
    let e : b + (c - b) ≡ c = omega arith in let more = sum_more bins b (c - b) in rw e at more

pow_mono : (b c : ℕ) → b ≤ c → 2 ^ b ≤ 2 ^ c
pow_mono b c h = let two : 0 < 2 = omega arith in pow-le-pow_right two h

module _ (fuel : ℕ) (bins : Bins) (nn b sum sz na : ℕ) (small : nn < 2 ^ 31) where
  best_stop : 2 * nn ≤ 2 ^ b → best_loop (suc fuel) bins nn b sum sz na ≡ ok (sz, na)
  unfolding best_loop
  best_stop h =
      let exact : 2 * nn % 2 ^ 32 ≡ 2 * nn = omega arith in rw (exact, le→ltb (2 ^ b) (2 * nn) h)

  best_all : sum ≡ nn → best_loop (suc fuel) bins nn b sum sz na ≡ ok (sz, na)
  unfolding best_loop
  best_all h =
      let same : (sum == nn) ≡ true = ground (arith, h) in
      elim (Bool-cases (ltb (2 ^ b) (2 * nn % 2 ^ 32))) [
        | inl e ↦ rw (best_loop, e, same)
        | inr e ↦ rw (best_loop, e)
      ]

  module _ (inside : b < 28) (more : 2 ^ b < 2 * nn) (left : sum ≢ nn) where
    best_none :
        bins b ≡ 0
        → best_loop (suc fuel) bins nn b sum sz na ≡ best_loop fuel bins nn (suc b) sum sz na
    unfolding best_loop
    best_none unused =
        let exact : 2 * nn % 2 ^ 32 ≡ 2 * nn = omega arith in
        rw (
          exact,
          lt→ltb (2 ^ b) (2 * nn) more,
          ne→eqb_false sum nn left,
          lt→ltb b 28 inside,
          unused,
        )

    module _ (used : 0 < bins b) (fits : sum + bins b ≤ nn) where
      best_dense :
          2 ^ b < 2 * (sum + bins b)
          → best_loop (suc fuel) bins nn b sum sz na
            ≡ best_loop fuel bins nn (suc b) (sum + bins b) (2 ^ suc b + 1) (sum + bins b)
      unfolding best_loop
      best_dense many =
          let exact : 2 * nn % 2 ^ 32 ≡ 2 * nn = omega arith in
          let exact₁ : (sum + bins b) % 2 ^ 32 ≡ sum + bins b = omega arith in
          let exact₂ : 2 * (sum + bins b) % 2 ^ 32 ≡ 2 * (sum + bins b) = omega arith in
          rw (
            exact,
            lt→ltb (2 ^ b) (2 * nn) more,
            ne→eqb_false sum nn left,
            lt→ltb b 28 inside,
            lt→ltb 0 (bins b) used,
            exact₁,
            exact₂,
            lt→ltb (2 ^ b) (2 * (sum + bins b)) many,
          )

      best_sparse :
          2 * (sum + bins b) ≤ 2 ^ b
          → best_loop (suc fuel) bins nn b sum sz na
            ≡ best_loop fuel bins nn (suc b) (sum + bins b) sz na
      unfolding best_loop
      best_sparse few =
          let exact : 2 * nn % 2 ^ 32 ≡ 2 * nn = omega arith in
          let exact₁ : (sum + bins b) % 2 ^ 32 ≡ sum + bins b = omega arith in
          let exact₂ : 2 * (sum + bins b) % 2 ^ 32 ≡ 2 * (sum + bins b) = omega arith in
          rw (
            exact,
            lt→ltb (2 ^ b) (2 * nn) more,
            ne→eqb_false sum nn left,
            lt→ltb b 28 inside,
            lt→ltb 0 (bins b) used,
            exact₁,
            exact₂,
            le→ltb (2 ^ b) (2 * (sum + bins b)) few,
          )

module _ (bins : Bins) (nn : ℕ) (small : nn < 2 ^ 31) (total : sum_bins bins 28 ≡ nn) where
  pub record Chooses (fuel b sum sz na : ℕ) : Type 0 where
    pub size : ℕ
    pub used : ℕ
    pub run : best_loop (suc fuel) bins nn b sum sz na ≡ ok (size, used)
    pub chosen : IsChosen bins size used
    pub largest : IsLargest bins 28 size

  -- No later bin is dense when the loop stops.
  past_half : (b sz : ℕ) → 2 * nn ≤ 2 ^ b → IsLargest bins b sz → IsLargest bins 28 sz
  past_half b sz h so_far c hc dense = elim (dec_lt c b) [
    | yes p ↦ so_far c p dense
    | no p ↦
        let le = pow_mono b c (omega arith) in
        absurd (omega (arith, total, sum_mono bins (suc c) 28 (omega arith), dense.1, le, h))
  ]

  past_all : (b sz : ℕ) → sum_bins bins b ≡ nn → IsLargest bins b sz → IsLargest bins 28 sz
  past_all b sz h so_far c hc dense = elim (dec_lt c b) [
    | yes p ↦ so_far c p dense
    | no p ↦
        let later = sum_mono bins b c (omega arith) in
        absurd (omega (arith, total, sum_mono bins (suc c) 28 (omega arith), dense.0, later, h))
  ]

  zero_bin : (b : ℕ) → ¬ (0 < bins b) → bins b ≡ 0
  zero_bin b h = omega arith

  -- One more bin without a dense power of two.
  not_dense : (b sz : ℕ) → (IsDense bins b → ⊥) → IsLargest bins b sz → IsLargest bins (suc b) sz
  not_dense b sz h so_far c hc dense = elim (eq-cases c b) [
    | inl same ↦ absurd (h (rw same at dense))
    | inr ne ↦ so_far c (omega arith) dense
  ]

  dense_now : (b : ℕ) → IsLargest bins (suc b) (2 ^ suc b + 1)
  dense_now b c hc dense = let le = pow_mono (suc c) (suc b) (omega arith) in omega arith

  module _ (fuel b sum sz na : ℕ) (inside : b < 28) (hs : sum ≡ sum_bins bins b)
      (good : IsChosen bins sz na) (so_far : IsLargest bins b sz) (more : 2 ^ b < 2 * nn)
      (left : sum ≢ nn)
      (ih : (sum sz na : ℕ)
        → sum ≡ sum_bins bins (suc b)
        → IsChosen bins sz na
        → IsLargest bins (suc b) sz
        → Chooses fuel (suc b) sum sz na) where
    fits : sum + bins b ≤ nn
    fits = omega (arith, hs, total, sum_mono bins (suc b) 28 (omega arith))

    next_bin : Chooses (suc fuel) b sum sz na
    next_bin = elim (dec_lt 0 (bins b)) [
      | no unused ↦
          let empty_bin = zero_bin b unused in
          let r =
            ih sum sz na (omega (arith, hs, empty_bin)) good
              (not_dense b sz (λ d. unused d.0) so_far) in
          record {
            size = r.size;
            used = r.used;
            run = best_none (suc fuel) bins nn b sum sz na small inside more left empty_bin ∙ r.run;
            chosen = r.chosen;
            largest = r.largest;
          }
      | yes used ↦ elim (dec_lt (2 ^ b) (2 * (sum + bins b))) [
        | yes many ↦
            let now : IsChosen bins (2 ^ suc b + 1) (sum + bins b) =
              inr (b, inside, refl, omega (arith, hs), (used, omega (arith, hs))) in
            let r =
              ih (sum + bins b) (2 ^ suc b + 1) (sum + bins b) (omega (arith, hs)) now
                (dense_now b) in
            record {
              size = r.size;
              used = r.used;
              run =
                  best_dense (suc fuel) bins nn b sum sz na small inside more left used fits many
                  ∙ r.run;
              chosen = r.chosen;
              largest = r.largest;
            }
        | no few ↦
            let r =
              ih (sum + bins b) sz na (omega (arith, hs)) good
                (not_dense b sz (λ d. few (omega (arith, hs, d.1))) so_far) in
            record {
              size = r.size;
              used = r.used;
              run =
                  best_sparse (suc fuel) bins nn b sum sz na small inside more left used fits
                    (omega arith)
                  ∙ r.run;
              chosen = r.chosen;
              largest = r.largest;
            }
      ]
    ]

  best_loop_lem :
      (fuel b sum sz na : ℕ)
      → b + fuel ≡ 28
      → sum ≡ sum_bins bins b
      → IsChosen bins sz na
      → IsLargest bins b sz
      → Chooses fuel b sum sz na
  best_loop_lem zero b sum sz na at hs good so_far =
      let last : b ≡ 28 = omega arith in
      let all : sum ≡ nn = hs ∙ ap (sum_bins bins) last ∙ total in
      record {
        size = sz;
        used = na;
        run = best_all 0 bins nn b sum sz na small all;
        chosen = good;
        largest = past_all b sz (omega (arith, hs, all)) so_far;
      }
  best_loop_lem (suc fuel) b sum sz na at hs good so_far = elim (dec_lt (2 ^ b) (2 * nn)) [
    | no p ↦ record {
      size = sz;
      used = na;
      run = best_stop (suc fuel) bins nn b sum sz na small (omega arith);
      chosen = good;
      largest = past_half b sz (omega arith) so_far;
    }
    | yes more ↦ elim (eq-cases sum nn) [
      | inl all ↦ record {
        size = sz;
        used = na;
        run = best_all (suc fuel) bins nn b sum sz na small all;
        chosen = good;
        largest = past_all b sz (omega (arith, hs, all)) so_far;
      }
      | inr left ↦
          next_bin fuel b sum sz na (omega arith) hs good so_far more left
            (λ sum₁ sz₁ na₁. best_loop_lem fuel (suc b) sum₁ sz₁ na₁ (omega arith))
    ]
  ]

  -- When the counts in the 28 bins add up to `nn`, fewer than 2 ^ 31, bestasize ends without an
  -- access behind the bins. It chooses the size for the indices up to the largest power of two that
  -- is dense, and returns the number of keys in the bins up to there, or 0 and 0 if none is dense.
  -- A power of two is dense when its own bin is not empty and the bins up to it hold more keys than
  -- a quarter of it.
  pub bestasize-IsLargest :
      (sz na : ℕ) × (bestasize bins nn ≡ ok (sz, na)) × IsChosen bins sz na × IsLargest bins 28 sz
  unfolding bestasize
  bestasize-IsLargest =
      let r =
        best_loop_lem 28 0 0 0 0 refl refl (inl (refl, refl)) (λ c hc d. absurd (omega arith)) in
      (r.size, r.used, r.run, r.chosen, r.largest)
