-- ===== src/Prelude/Lists.antt =====
-- Lists measured by native numbers and searched by Boolean tests, under the libraries' names.
use Prim.Native.Nat.{ℕ, zero, suc, ◌+◌}
use mathlib.Core.Path.{◌≡◌, refl, ap, ap₂}
use mathlib.Core.Logic.{◌⊎◌, inl, inr}
use mathlib.Core.Bool.{Bool, true, false, ◌||◌, ◌&&◌, not}
use mathlib.Core.List.{List, [], ◌∷◌, ◌++◌, map}
use mathlib.Core.Option.{Option, none, some}
use native.Mathlib.Omega.{arith}
use c4raven_server.Prelude.Tests.{if◌then◌else◌, Bool-cases}
use c4raven_server.Prelude.Equality.{HasEq, ◌==◌}

module _ {ℓ} {A : Type ℓ} where
  abbrev pub length : List A → ℕ
  length [] = 0
  length (x ∷ xs) = suc (length xs)

  abbrev pub take : ℕ → List A → List A
  take zero xs = []
  take (suc n) [] = []
  take (suc n) (x ∷ xs) = x ∷ take n xs

  -- the rows that a WHERE clause or a comprehension's test selects, in order
  unfoldable pub filter : (A → Bool) → List A → List A
  filter p [] = []
  filter p (x ∷ xs) = let rest = filter p xs in if p x then x ∷ rest else rest

  unfoldable pub any : (A → Bool) → List A → Bool
  any p [] = false
  any p (x ∷ xs) = p x || any p xs

  unfoldable pub all : (A → Bool) → List A → Bool
  all p [] = true
  all p (x ∷ xs) = p x && all p xs

  -- `next((x for x in xs if p(x)), None)`, or the first row of a query
  unfoldable pub find? : (A → Bool) → List A → Option A
  find? p [] = none
  find? p (x ∷ xs) = let rest = find? p xs in if p x then some x else rest

  abbrev pub is_empty : List A → Bool
  is_empty [] = true
  is_empty (x ∷ xs) = false

module _ {ℓ} {A : Type ℓ} ⦃e : HasEq A⦄ where
  -- Python's `a in xs`
  unfoldable pub contains : List A → A → Bool
  contains [] a = false
  contains (x ∷ xs) a = a == x || contains xs a

  pub contains-append :
      (xs ys : List A) (a : A) → contains (xs ++ ys) a ≡ (contains xs a || contains ys a)
  unfolding contains
  contains-append [] ys a = refl
  contains-append (x ∷ xs) ys a = ground (arith, contains-append xs ys a)

module _ {ℓ} {A : Type ℓ} where
  pub length-append : (xs ys : List A) → length (xs ++ ys) ≡ length xs + length ys
  length-append [] ys = omega arith
  length-append (x ∷ xs) ys = omega (arith, length-append xs ys)

  pub any-append : (p : A → Bool) (xs ys : List A) → any p (xs ++ ys) ≡ (any p xs || any p ys)
  unfolding any
  any-append p [] ys = refl
  any-append p (x ∷ xs) ys = ground (arith, any-append p xs ys)

  pub all-append : (p : A → Bool) (xs ys : List A) → all p (xs ++ ys) ≡ (all p xs && all p ys)
  unfolding all
  all-append p [] ys = refl
  all-append p (x ∷ xs) ys = ground (arith, all-append p xs ys)

  pub filter-append :
      (p : A → Bool) (xs ys : List A) → filter p (xs ++ ys) ≡ filter p xs ++ filter p ys
  unfolding filter
  filter-append p [] ys = refl
  filter-append p (x ∷ xs) ys = ground (arith, filter-append p xs ys)

  -- Two tests that agree on every row select the same rows.
  pub filter_congr :
      (p q : A → Bool) → ((x : A) → p x ≡ q x) → (xs : List A) → filter p xs ≡ filter q xs
  unfolding filter
  filter_congr p q h [] = refl
  filter_congr p q h (x ∷ xs) = ground (arith, h x, filter_congr p q h xs)

  pub any_congr : (p q : A → Bool) → ((x : A) → p x ≡ q x) → (xs : List A) → any p xs ≡ any q xs
  unfolding any
  any_congr p q h [] = refl
  any_congr p q h (x ∷ xs) = ground (arith, h x, any_congr p q h xs)

  pub filter-filter :
      (p q : A → Bool) (xs : List A) → filter p (filter q xs) ≡ filter (λ x. q x && p x) xs
  unfolding filter
  filter-filter p q [] = refl
  filter-filter p q (x ∷ xs) = ground (arith, filter-filter p q xs)

  pub any-filter : (p q : A → Bool) (xs : List A) → any p (filter q xs) ≡ any (λ x. q x && p x) xs
  unfolding any filter
  any-filter p q [] = refl
  any-filter p q (x ∷ xs) = ground (arith, any-filter p q xs)

  pub all-filter : (p : A → Bool) (xs : List A) → all p (filter p xs) ≡ true
  unfolding all filter
  all-filter p [] = refl
  all-filter p (x ∷ xs) = ground (arith, all-filter p xs)

  pub length-filter_split :
      (p : A → Bool) (xs : List A)
      → length xs ≡ length (filter p xs) + length (filter (λ x. not (p x)) xs)
  unfolding filter
  length-filter_split p [] = refl
  length-filter_split p (x ∷ xs) = ground (arith, length-filter_split p xs)

  pub any_implies :
      (p q : A → Bool)
      → ((x : A) → p x ≡ true → q x ≡ true)
      → (xs : List A) → any p xs ≡ true
      → any q xs ≡ true
  unfolding any
  any_implies p q h [] k = k
  any_implies p q h (x ∷ xs) k = ground (arith, h x, any_implies p q h xs)

  -- A row that passes the test, out of a list that has one.
  pub any_witness : (p : A → Bool) (xs : List A) → any p xs ≡ true → (x : A) × (p x ≡ true)
  unfolding any
  any_witness p [] h = cc
  any_witness p (x ∷ xs) h = elim (Bool-cases (p x)) [
    | inl yes' ↦ (x, yes')
    | inr no' ↦ any_witness p xs (ground arith)
  ]

-- Every row satisfies `P`.
abbrev pub All {ℓ κ} : {A : Type ℓ} → (A → Type κ) → List A → Type κ
All P [] = Unit
All P (x ∷ xs) = P x × All P xs

module _ {ℓ κ} {A : Type ℓ} {P Q : A → Type κ} where
  pub All-map : ((x : A) → P x → Q x) → (xs : List A) → All P xs → All Q xs
  All-map f [] h = tt
  All-map f (x ∷ xs) h = (f x h.0, All-map f xs h.1)

  pub All-map₂ :
      {R : A → Type κ}
      → ((x : A) → P x → Q x → R x)
      → (xs : List A) → All P xs
      → All Q xs
      → All R xs
  All-map₂ f [] h k = tt
  All-map₂ f (x ∷ xs) h k = (f x h.0 k.0, All-map₂ f xs h.1 k.1)

module _ {ℓ κ} {A : Type ℓ} (P : A → Type κ) where
  pub All-append : (xs ys : List A) → All P xs → All P ys → All P (xs ++ ys)
  All-append [] ys h k = k
  All-append (x ∷ xs) ys h k = (h.0, All-append xs ys h.1 k)

  pub All-of : ((x : A) → P x) → (xs : List A) → All P xs
  All-of f [] = tt
  All-of f (x ∷ xs) = (f x, All-of f xs)

  pub All-filter : (p : A → Bool) (xs : List A) → All P xs → All P (filter p xs)
  unfolding filter
  All-filter p [] h = tt
  All-filter p (x ∷ xs) h = elim (Bool-cases (p x)) [
    | inl e ↦ rw (e) (h.0, All-filter p xs h.1)
    | inr e ↦ rw (e) (All-filter p xs h.1)
  ]

module _ {ℓ} {A : Type ℓ} where
  -- Two tests that agree on the rows of this list select the same rows of it.
  pub filter_congr_All :
      (p q : A → Bool) (xs : List A) → All (λ x. p x ≡ q x) xs → filter p xs ≡ filter q xs
  unfolding filter
  filter_congr_All p q [] h = refl
  filter_congr_All p q (x ∷ xs) h = ground (arith, h.0, filter_congr_All p q xs h.1)

  pub any-false-All : (p : A → Bool) (xs : List A) → any p xs ≡ false → All (λ x. p x ≡ false) xs
  unfolding any
  any-false-All p [] h = tt
  any-false-All p (x ∷ xs) h = (ground arith, any-false-All p xs (ground arith))

  pub All-any-false : (p : A → Bool) (xs : List A) → All (λ x. p x ≡ false) xs → any p xs ≡ false
  unfolding any
  All-any-false p [] h = refl
  All-any-false p (x ∷ xs) h = ground (arith, h.0, All-any-false p xs h.1)

  pub all-All : (p : A → Bool) (xs : List A) → all p xs ≡ true → All (λ x. p x ≡ true) xs
  unfolding all
  all-All p [] h = tt
  all-All p (x ∷ xs) h = (ground arith, all-All p xs (ground arith))

  pub filter-true : (xs : List A) → filter (λ x. true) xs ≡ xs
  unfolding filter
  filter-true [] = refl
  filter-true (x ∷ xs) = rw (filter-true xs)

  pub All-filter-true : (p : A → Bool) (xs : List A) → All (λ x. p x ≡ true) (filter p xs)
  unfolding filter
  All-filter-true p [] = tt
  All-filter-true p (x ∷ xs) = elim (Bool-cases (p x)) [
    | inl e ↦ rw (e) (e, All-filter-true p xs)
    | inr e ↦ rw (e) (All-filter-true p xs)
  ]

  pub any-filter-false :
      (p q : A → Bool) (xs : List A) → any q xs ≡ false → any q (filter p xs) ≡ false
  unfolding any filter
  any-filter-false p q [] h = refl
  any-filter-false p q (x ∷ xs) h = ground (arith, any-filter-false p q xs)

module _ {ℓ κ} {A : Type ℓ} (P : A → Type κ) where
  pub All-take : (n : ℕ) (xs : List A) → All P xs → All P (take n xs)
  All-take zero xs h = tt
  All-take (suc n) [] h = tt
  All-take (suc n) (x ∷ xs) h = (h.0, All-take n xs h.1)

module _ {ℓ} {A : Type ℓ} where
  -- Selecting among changed rows, where the change takes rows out of the selection only.
  pub filter-map_out :
      (p q : A → Bool) (f : A → A)
      → ((x : A) → (f x ≡ x) × (p x ≡ q x) ⊎ (p (f x) ≡ false) × (q x ≡ false))
      → (xs : List A) → filter p (map f xs) ≡ filter q xs
  unfolding filter
  filter-map_out p q f h [] = refl
  filter-map_out p q f h (x ∷ xs) = elim (h x) [
    | inl (same, e) ↦ rw (same, e) (ground (arith, filter-map_out p q f h xs))
    | inr (off, e) ↦ rw (off, e) (filter-map_out p q f h xs)
  ]

  pub map-map : (f g : A → A) (xs : List A) → map f (map g xs) ≡ map (λ x. f (g x)) xs
  map-map f g [] = refl
  map-map f g (x ∷ xs) = ap (λ r. f (g x) ∷ r) (map-map f g xs)

  pub map_congr : (f g : A → A) → ((x : A) → f x ≡ g x) → (xs : List A) → map f xs ≡ map g xs
  map_congr f g h [] = refl
  map_congr f g h (x ∷ xs) = ap₂ ◌∷◌ (h x) (map_congr f g h xs)

  pub map_same : (f : A → A) → ((x : A) → f x ≡ x) → (xs : List A) → map f xs ≡ xs
  map_same f h [] = refl
  map_same f h (x ∷ xs) = ap₂ ◌∷◌ (h x) (map_same f h xs)

module _ {ℓ κ} {A : Type ℓ} where
  -- What the selected rows satisfy, from what each row satisfies once it is selected.
  pub All-filter_of :
      (P : A → Type κ) (p : A → Bool)
      → ((x : A) → p x ≡ true → P x)
      → (xs : List A) → All P (filter p xs)
  unfolding filter
  All-filter_of P p h [] = tt
  All-filter_of P p h (x ∷ xs) = elim (Bool-cases (p x)) [
    | inl e ↦ rw (e) (h x e, All-filter_of P p h xs)
    | inr e ↦ rw (e) (All-filter_of P p h xs)
  ]

  pub All-filter-map :
      (P : A → Type κ) (p : A → Bool) (f : A → A)
      → ((x : A) → p (f x) ≡ true → P (f x))
      → (xs : List A) → All P (filter p (map f xs))
  unfolding filter
  All-filter-map P p f h [] = tt
  All-filter-map P p f h (x ∷ xs) = elim (Bool-cases (p (f x))) [
    | inl e ↦ rw (e) (h x e, All-filter-map P p f h xs)
    | inr e ↦ rw (e) (All-filter-map P p f h xs)
  ]
