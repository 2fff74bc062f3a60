-- ===== src/Prelude/Sorting.antt =====
-- Python's `sorted`, or ORDER BY: insertion sort by a Boolean order, stable, and what it keeps.
use mathlib.Core.Path.{◌≡◌, refl, ◌∙◌}
use mathlib.Core.Bool.{Bool, true, false, ◌||◌}
use mathlib.Core.Logic.{inl, inr}
use mathlib.Core.List.{List, [], ◌∷◌}
use native.Mathlib.Omega.{arith}
use c4raven_server.Prelude.Tests.{if◌then◌else◌, Bool-cases}
use c4raven_server.Prelude.Lists.{any, All, All-map, All-filter, filter}

module _ {ℓ} {A : Type ℓ} where
  unfoldable pub insert_by : (A → A → Bool) → A → List A → List A
  insert_by le a [] = a ∷ []
  insert_by le a (x ∷ xs) = let rest = insert_by le a xs in if le a x then a ∷ x ∷ xs else x ∷ rest

  unfoldable pub sort_by : (A → A → Bool) → List A → List A
  unfolding insert_by
  sort_by le [] = []
  sort_by le (x ∷ xs) = insert_by le x (sort_by le xs)

  any-insert_by :
      (le : A → A → Bool) (p : A → Bool) (a : A) (xs : List A)
      → any p (insert_by le a xs) ≡ (p a || any p xs)
  unfolding any insert_by
  any-insert_by le p a [] = refl
  any-insert_by le p a (x ∷ xs) = ground (arith, any-insert_by le p a xs)

  -- A test passes somewhere in the sorted list exactly when it did before.
  pub any-sort_by :
      (le : A → A → Bool) (p : A → Bool) (xs : List A) → any p (sort_by le xs) ≡ any p xs
  unfolding any sort_by
  any-sort_by le p [] = refl
  any-sort_by le p (x ∷ xs) =
      ground (arith, any-insert_by le p x (sort_by le xs), any-sort_by le p xs)

-- Each row is at most every later one.
abbrev pub IsSorted {ℓ} : {A : Type ℓ} → (A → A → Bool) → List A → Type 0
IsSorted le [] = Unit
IsSorted le (x ∷ xs) = All (λ y. le x y ≡ true) xs × IsSorted le xs

module _ {ℓ κ} {A : Type ℓ} (P : A → Type κ) where
  All-insert_by :
      (le : A → A → Bool) (a : A) (xs : List A) → P a → All P xs → All P (insert_by le a xs)
  unfolding insert_by
  All-insert_by le a [] pa h = (pa, tt)
  All-insert_by le a (x ∷ xs) pa h = elim (Bool-cases (le a x)) [
    | inl e ↦ rw (e) (pa, h)
    | inr e ↦ rw (e) (h.0, All-insert_by le a xs pa h.1)
  ]

  pub All-sort_by : (le : A → A → Bool) (xs : List A) → All P xs → All P (sort_by le xs)
  unfolding sort_by
  All-sort_by le [] h = tt
  All-sort_by le (x ∷ xs) h = All-insert_by le x (sort_by le xs) h.0 (All-sort_by le xs h.1)

module _ {ℓ} {A : Type ℓ} (le : A → A → Bool) (total : (a b : A) → le a b ≡ false → le b a ≡ true)
    (trans : (a b c : A) → le a b ≡ true → le b c ≡ true → le a c ≡ true) where
  insert_by-IsSorted : (a : A) (xs : List A) → IsSorted le xs → IsSorted le (insert_by le a xs)
  unfolding insert_by
  insert_by-IsSorted a [] s = (tt, tt)
  insert_by-IsSorted a (x ∷ xs) s = elim (Bool-cases (le a x)) [
    | inl e ↦ rw (e) ((e, All-map (λ y h. trans a x y e h) xs s.0), s)
    | inr e ↦
        rw (e) (
          All-insert_by (λ y. le x y ≡ true) le a xs (total a x e) s.0,
          insert_by-IsSorted a xs s.1,
        )
  ]

  pub sort_by-IsSorted : (xs : List A) → IsSorted le (sort_by le xs)
  unfolding sort_by
  sort_by-IsSorted [] = tt
  sort_by-IsSorted (x ∷ xs) = insert_by-IsSorted x (sort_by le xs) (sort_by-IsSorted xs)

  insert_by_first : (a : A) (xs : List A) → All (λ y. le a y ≡ true) xs → insert_by le a xs ≡ a ∷ xs
  unfolding insert_by
  insert_by_first a [] h = refl
  insert_by_first a (x ∷ xs) h = rw (h.0)

  filter-insert_by :
      (p : A → Bool) (a : A) (xs : List A)
      → IsSorted le xs
      → filter p (insert_by le a xs) ≡ (if p a then insert_by le a (filter p xs) else filter p xs)
  unfolding insert_by filter
  filter-insert_by p a [] s = refl
  filter-insert_by p a (x ∷ xs) s = elim (Bool-cases (le a x)) [
    | inl e ↦ rw (e) (
        ground (
          arith,
          e,
          insert_by_first a (filter p xs)
              (All-filter (λ y. le a y ≡ true) p xs (All-map (λ y h. trans a x y e h) xs s.0)),
        ))
    | inr e ↦ rw (e) (ground (arith, e, filter-insert_by p a xs s.1))
  ]

  -- Selecting and sorting may be done in either order.
  pub filter-sort_by :
      (p : A → Bool) (xs : List A) → filter p (sort_by le xs) ≡ sort_by le (filter p xs)
  unfolding filter sort_by
  filter-sort_by p [] = refl
  filter-sort_by p (x ∷ xs) =
      filter-insert_by p x (sort_by le xs) (sort_by-IsSorted xs)
      ∙ rw (filter-sort_by p xs) (ground arith)
