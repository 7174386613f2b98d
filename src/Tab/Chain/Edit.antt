-- ===== src/Tab/Chain/Edit.antt =====
-- Chains of nodes when `next` pointers change.
use probabilistic_lua.Common.{
  ℕ, List, [], ◌∷◌, map, true, ◌==◌, if◌then◌else◌, Option, none, some, eq-cases, ne→eqb_false, ◌≡◌,
  ◌≢◌, refl, ap, arith, inl, inr,
}
use probabilistic_lua.Tab.Chain.{Chain, contains}

pub Chain-ext :
    (next next' : ℕ → Option ℕ) (p : Option ℕ) (xs : List ℕ)
    → ((i : ℕ) → next' i ≡ next i)
    → Chain next p xs
    → Chain next' p xs
Chain-ext next next' p [] h c = c
Chain-ext next next' p (x ∷ xs) h c = (c.0, Chain-ext next next' (next' x) xs h (rw (h x) c.1))

-- Node `n` renamed to `f`.
abbrev pub rename : ℕ → ℕ → ℕ → ℕ
rename n f x = if x == n then f else x

abbrev pub rename_option : ℕ → ℕ → Option ℕ → Option ℕ
rename_option n f none = none
rename_option n f (some x) = some (rename n f x)

pub rename_same : (n f : ℕ) → rename n f n ≡ f
rename_same n f = ground arith

pub rename_other : (n f x : ℕ) → x ≢ n → rename n f x ≡ x
rename_other n f x h = rw (ne→eqb_false x n h) refl

pub rename_option_other : (n f : ℕ) (o : Option ℕ) → o ≢ some n → rename_option n f o ≡ o
rename_option_other n f none h = refl
rename_option_other n f (some x) h = ap some (rename_other n f x (λ e. h (ap some e)))

-- The list with `f` after each `n`.
abbrev pub insert_after : ℕ → ℕ → List ℕ → List ℕ
insert_after n f [] = []
insert_after n f (x ∷ xs) = if x == n then x ∷ f ∷ insert_after n f xs else x ∷ insert_after n f xs

-- `P` holds of the nodes of interest, which are closed under `next`.
module _ (next next' : ℕ → Option ℕ) (n f : ℕ) (P : ℕ → Type 0)
    (closed : (x y : ℕ) → P x → next x ≡ some y → P y) where
  pub Chain-rename :
      (p : Option ℕ) (xs : List ℕ)
      → ((x : ℕ) → P x → next' (rename n f x) ≡ rename_option n f (next x))
      → ((x : ℕ) → p ≡ some x → P x)
      → Chain next p xs
      → Chain next' (rename_option n f p) (map (rename n f) xs)
  Chain-rename p [] h start c = rw c refl
  Chain-rename p (x ∷ xs) h start c =
      let px = start x c.0 in
      (
        ap (rename_option n f) c.0,
        rw (h x px) (Chain-rename (next x) xs h (λ y e. closed x y px e) c.1),
      )

  pub Chain-insert_after :
      (p : Option ℕ) (xs : List ℕ)
      → next' n ≡ some f
      → next' f ≡ next n
      → ((x : ℕ) → P x → x ≢ n → next' x ≡ next x)
      → ((x : ℕ) → p ≡ some x → P x)
      → Chain next p xs
      → Chain next' p (insert_after n f xs)
  Chain-insert_after p [] hn hf h start c = c
  Chain-insert_after p (x ∷ xs) hn hf h start c =
      let px = start x c.0 in
      let ih = Chain-insert_after (next x) xs hn hf h (λ y e. closed x y px e) c.1 in
      elim (eq-cases x n) [
        | inl e ↦
            let e₁ : next' x ≡ some f = cc in
            let e₂ : next' f ≡ next x = cc in
            let test : (x == n) ≡ true = ground arith in rw test (c.0, (e₁, rw e₂ ih))
        | inr ne ↦ rw (ne→eqb_false x n ne) (c.0, rw (h x px ne) ih)
      ]

pub contains-rename :
    (n f i : ℕ) (xs : List ℕ)
    → contains xs i ≡ true
    → contains (map (rename n f) xs) (rename n f i) ≡ true
contains-rename n f i [] h = cc
contains-rename n f i (x ∷ xs) h = ground (arith, contains-rename n f i xs)

pub contains-insert_after :
    (n f i : ℕ) (xs : List ℕ) → contains xs i ≡ true → contains (insert_after n f xs) i ≡ true
contains-insert_after n f i [] h = cc
contains-insert_after n f i (x ∷ xs) h = ground (arith, contains-insert_after n f i xs)

pub contains-inserted :
    (n f : ℕ) (xs : List ℕ) → contains xs n ≡ true → contains (insert_after n f xs) f ≡ true
contains-inserted n f [] h = cc
contains-inserted n f (x ∷ xs) h = ground (arith, contains-inserted n f xs)
