-- ===== src/Tab/Chain.antt =====
-- Chains of nodes: the lists of indices that the `next` pointers of LuaJIT-2.0.1/src/lj_tab.c spell.
pub mod Edit
use probabilistic_lua.Common.{
  ℕ, zero, suc, ◌+◌, ◌≤◌, ◌<◌, List, [], ◌∷◌, ◌++◌, Bool, true, false, not, ◌||◌, ◌==◌,
  if◌then◌else◌, length, Option, none, some, All, Bool-cases, eqb→eq, ◌≡◌, refl, sym, ap, ◌∙◌,
  arith, inl, inr,
}

-- The chain from `p` is `xs`, and ends with NULL.
abbrev pub Chain : (ℕ → Option ℕ) → Option ℕ → List ℕ → Type 0
Chain next p [] = p ≡ none
Chain next p (i ∷ xs) = (p ≡ some i) × Chain next (next i) xs

abbrev pub contains : List ℕ → ℕ → Bool
contains [] i = false
contains (x ∷ xs) i = x == i || contains xs i

abbrev pub IsDistinct : List ℕ → Type 0
IsDistinct [] = Unit
IsDistinct (x ∷ xs) = (contains xs x ≡ false) × IsDistinct xs

module _ (next : ℕ → Option ℕ) where
  pub Chain-unique :
      (p q : Option ℕ) (xs ys : List ℕ) → p ≡ q → Chain next p xs → Chain next q ys → xs ≡ ys
  Chain-unique p q [] [] e c d = refl
  Chain-unique p q [] (y ∷ ys) e c d = cc (e, c, d.0)
  Chain-unique p q (x ∷ xs) [] e c d = cc (e, c.0, d)
  Chain-unique p q (x ∷ xs) (y ∷ ys) e c d =
      let same : x ≡ y = cc (e, c.0, d.0) in
      let rest = Chain-unique (next x) (next y) xs ys (ap next same) c.1 d.1 in cc

  -- From a node on a chain there is a chain, which is no longer.
  pub Chain-from :
      (p : Option ℕ) (xs : List ℕ) (i : ℕ)
      → Chain next p xs
      → contains xs i ≡ true
      → (ys : List ℕ) × Chain next (some i) ys × (length ys ≤ length xs)
  Chain-from p [] i c h = cc
  Chain-from p (x ∷ xs) i c h = elim (Bool-cases (x == i)) [
    | inl e ↦ let same : x ≡ i = eqb→eq x i e in (i ∷ xs, (refl, rw same at c.1), omega arith)
    | inr e ↦ let (ys, d, n) = Chain-from (next x) xs i c.1 (rw e at h) in (ys, d, omega arith)
  ]

  -- A chain visits no node twice.
  pub Chain-IsDistinct : (p : Option ℕ) (xs : List ℕ) → Chain next p xs → IsDistinct xs
  Chain-IsDistinct p [] c = tt
  Chain-IsDistinct p (x ∷ xs) c = (
    elim (Bool-cases (contains xs x)) [
      | inl e ↦
          let (ys, d, n) = Chain-from (next x) xs x c.1 e in
          let same : ys ≡ x ∷ xs = Chain-unique (some x) (some x) ys (x ∷ xs) refl d (refl, c.1) in
          absurd (omega (arith, ap length same))
      | inr e ↦ e
    ],
    Chain-IsDistinct (next x) xs c.1,
  )

-- A list without `v`.
remove : ℕ → List ℕ → List ℕ
remove v [] = []
remove v (x ∷ xs) = if x == v then remove v xs else x ∷ remove v xs

contains-remove : (v i : ℕ) (xs : List ℕ) → contains xs i ≡ false → contains (remove v xs) i ≡ false
unfolding remove
contains-remove v i [] h = refl
contains-remove v i (x ∷ xs) h = ground (arith, contains-remove v i xs)

remove-IsDistinct : (v : ℕ) (xs : List ℕ) → IsDistinct xs → IsDistinct (remove v xs)
unfolding remove
remove-IsDistinct v [] d = tt
remove-IsDistinct v (x ∷ xs) d = elim (Bool-cases (x == v)) [
  | inl e ↦ rw e (remove-IsDistinct v xs d.1)
  | inr e ↦ rw e (contains-remove v x xs d.0, remove-IsDistinct v xs d.1)
]

remove_absent : (v : ℕ) (xs : List ℕ) → contains xs v ≡ false → remove v xs ≡ xs
unfolding remove
remove_absent v [] h = refl
remove_absent v (x ∷ xs) h = ground (arith, remove_absent v xs)

length-remove : (v : ℕ) (xs : List ℕ) → IsDistinct xs → length xs ≤ length (remove v xs) + 1
unfolding remove
length-remove v [] d = omega arith
length-remove v (x ∷ xs) d = ground (arith, length-remove v xs d.1, remove_absent x xs d.0)

All-remove : (v : ℕ) (xs : List ℕ) → All (λ i. i ≤ v) xs → All (λ i. i < v) (remove v xs)
unfolding remove
All-remove v [] h = tt
All-remove v (x ∷ xs) h = elim (Bool-cases (x == v)) [
  | inl e ↦ rw e (All-remove v xs h.1)
  | inr e ↦ rw e (ground arith, All-remove v xs h.1)
]

All-weaken : (v : ℕ) (xs : List ℕ) → All (λ i. i < suc v) xs → All (λ i. i ≤ v) xs
All-weaken v [] h = tt
All-weaken v (x ∷ xs) h = (omega arith, All-weaken v xs h.1)

-- Different indices below `n` are at most `n`.
pub length-IsDistinct : (n : ℕ) (xs : List ℕ) → IsDistinct xs → All (λ i. i < n) xs → length xs ≤ n
length-IsDistinct n [] d h = omega arith
length-IsDistinct zero (x ∷ xs) d h = absurd (omega arith)
length-IsDistinct (suc n) (x ∷ xs) d h =
    let ih =
      length-IsDistinct n (remove n (x ∷ xs)) (remove-IsDistinct n (x ∷ xs) d)
        (All-remove n (x ∷ xs) (All-weaken n (x ∷ xs) h)) in
    omega (arith, length-remove n (x ∷ xs) d)
