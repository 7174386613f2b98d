-- ===== src/Tab/Len/Search.antt =====
-- The searches for a boundary.
use probabilistic_lua.Common.{
  ℕ, zero, suc, ◌+◌, ◌-◌, ◌*◌, ◌/◌, ◌%◌, ◌^◌, ◌≤◌, ◌<◌, Bool, true, false, ltb, Bool-cases, ◌≡◌,
  ◌≢◌, refl, sym, ap, ◌∙◌, inl, inr, ◌⊎◌, arith,
}
use native.Mathlib.Nat.{mul_assoc, pow-succ'}
use probabilistic_lua.Common.Result.{Result, ok}
use probabilistic_lua.Tab.Len.{binary_search, linear_search, double_search}

module _ (test : ℕ → Result Bool) (p : ℕ → Bool) (m : ℕ)
    (total : (i : ℕ) → i < m → test i ≡ ok (p i)) where
  -- A boundary from `i` on: what is below it is `i` itself, or passes the test.
  abbrev pub IsBoundary : ℕ → ℕ → Type 0
  IsBoundary i r = (i ≤ r) × ((r ≡ i) ⊎ (p r ≡ true)) × (p (suc r) ≡ false)

  pub binary_search_lem :
      (fuel i j : ℕ)
      → m ≤ 2 ^ 31
      → i < j
      → j < m
      → j - i ≤ fuel
      → p j ≡ false
      → (r : ℕ) × (binary_search fuel test i j ≡ ok r) × IsBoundary i r × (r < j)
  unfolding binary_search
  binary_search_lem zero i j hm lt below h pj = absurd (omega arith)
  binary_search_lem (suc fuel) i j hm lt below h pj =
      elim (Bool-cases (ltb 1 ((j + 2 ^ 32 - i) % 2 ^ 32))) [
        | inr e ↦
            let adjacent : j ≡ suc i = ground arith in
            (i, rw e refl, (omega arith, inl refl, ap p (sym adjacent) ∙ pj), lt)
        | inl e ↦
            let wide : 1 < j - i = ground arith in
            let k = ((i + j) % 2 ^ 32) / 2 in
            let above : i < k = omega arith in
            let under : k < j = omega arith in
            elim (Bool-cases (p k)) [
              | inl pk ↦
                  let (r, run, (le, side, next), small) =
                    binary_search_lem fuel k j hm under below (omega arith) pj in
                  (
                    r,
                    rw (e, total k (omega arith), pk) run,
                    (omega arith, inr (elim side [ inl s ↦ ap p s ∙ pk | inr pr ↦ pr ]), next),
                    small,
                  )
              | inr pk ↦
                  let (r, run, b, small) =
                    binary_search_lem fuel i k hm above (omega arith) (omega arith) pk in
                  (r, rw (e, total k (omega arith), pk) run, b, omega arith)
            ]
      ]

  -- The linear search ends at the latest before an index that fails the test.
  pub linear_search_lem :
      (fuel i k : ℕ)
      → i ≤ k
      → k < m
      → k - i < fuel
      → p k ≡ false
      → 1 ≤ i
      → ((i ≡ 1) ⊎ (p (i - 1) ≡ true))
      → (r : ℕ) × (linear_search fuel test i ≡ ok r)
        × ((r ≡ 0) ⊎ (p r ≡ true))
        × (p (suc r) ≡ false)
        × (suc r < m)
  unfolding linear_search
  linear_search_lem zero i k le below h pk pos side = absurd (omega arith)
  linear_search_lem (suc fuel) i k le below h pk pos side = elim (Bool-cases (p i)) [
    | inr pi ↦
        let back : suc (i - 1) ≡ i = omega arith in
        (
          i - 1,
          rw (total i (omega arith), pi) refl,
          elim side [ inl s ↦ inl (omega arith) | inr q ↦ inr q ],
          ap p back ∙ pi,
          omega arith,
        )
    | inl pi ↦
        let differ : i ≢ k = λ s. cc (ap p s, pi, pk) in
        let back : suc i - 1 ≡ i = omega arith in
        let (r, run, b, c, d) =
          linear_search_lem fuel (suc i) k (omega arith) below (omega arith) pk (omega arith)
            (inr (ap p back ∙ pi)) in
        (r, rw (total i (omega arith), pi) run, b, c, d)
  ]

  double_end :
      (fuel slots i j : ℕ)
      → test j ≡ ok false
      → double_search (suc fuel) slots test i j ≡ binary_search (j - i) test i j
  unfolding double_search
  double_end fuel slots i j e = rw e refl

  double_over :
      (fuel slots i j : ℕ)
      → test j ≡ ok true
      → ltb (2 ^ 31 - 3) ((j * 2) % 2 ^ 32) ≡ true
      → double_search (suc fuel) slots test i j ≡ linear_search slots test 1
  unfolding double_search
  double_over fuel slots i j e over = rw (e, over) refl

  double_more :
      (fuel slots i j : ℕ)
      → test j ≡ ok true
      → (j * 2) % 2 ^ 32 ≡ j * 2
      → ltb (2 ^ 31 - 3) (j * 2) ≡ false
      → double_search (suc fuel) slots test i j ≡ double_search fuel slots test j (j * 2)
  unfolding double_search
  double_more fuel slots i j e no_wrap fits = rw (e, no_wrap, fits) refl

  pub double_search_lem :
      (fuel slots i j k : ℕ)
      → m ≡ 2 ^ 31
      → i < j
      → j ≤ 2 ^ 31 - 3
      → ((i ≡ 0) ⊎ (p i ≡ true))
      → 2 ^ 31 ≤ j * 2 ^ fuel
      → 1 ≤ k
      → k < m
      → k ≤ slots
      → p k ≡ false
      → (r : ℕ) × (double_search fuel slots test i j ≡ ok r)
        × ((r ≡ 0) ⊎ (p r ≡ true))
        × (p (suc r) ≡ false)
        × (suc r < m)
  double_search_lem zero slots i j k hm lt small side big pos below room pk = absurd (omega arith)
  double_search_lem (suc fuel) slots i j k hm lt small side big pos below room pk =
      elim (Bool-cases (p j)) [
        | inr pj ↦
            let (r, run, (le, at, next), less) =
              binary_search_lem (j - i) i j (omega arith) lt (omega arith) (omega arith) pj in
            (
              r,
              double_end fuel slots i j (total j (omega arith) ∙ ap ok pj) ∙ run,
              elim at [
                | inl s ↦ elim side [ inl z ↦ inl (s ∙ z) | inr q ↦ inr (ap p s ∙ q) ]
                | inr pr ↦ inr pr
              ],
              next,
              omega arith,
            )
        | inl pj ↦
            let now : test j ≡ ok true = total j (omega arith) ∙ ap ok pj in
            let no_wrap : (j * 2) % 2 ^ 32 ≡ j * 2 = omega arith in
            elim (Bool-cases (ltb (2 ^ 31 - 3) (j * 2))) [
              | inl over ↦
                  let (r, run, b, c, d) =
                    linear_search_lem slots 1 k pos below (omega arith) pk (omega arith)
                      (inl refl) in
                  (
                    r,
                    double_over fuel slots i j now (ap (ltb (2 ^ 31 - 3)) no_wrap ∙ over) ∙ run,
                    b,
                    c,
                    d,
                  )
              | inr fits ↦
                  let e : j * 2 * 2 ^ fuel ≡ j * 2 ^ suc fuel =
                    mul_assoc j 2 (2 ^ fuel) ∙ ap (λ (x : ℕ). j * x) (sym (pow-succ' 2 fuel)) in
                  let (r, run, b, c, d) =
                    double_search_lem fuel slots j (j * 2) k hm (omega arith) (ground arith)
                      (inr pj) (rw e big) pos below room pk in
                  (r, double_more fuel slots i j now no_wrap fits ∙ run, b, c, d)
            ]
      ]
