-- ===== src/Retention/Purge/Deleting.antt =====
-- The deletion of the rows with the ids of one batch, in `_delete_in_batches`.
use c4raven_server.Prelude.{
  ℕ, zero, suc, ◌+◌, ◌-◌, ◌≡◌, refl, ◌∙◌, ap, Bool, true, false, not, List, [], ◌∷◌, map, arith,
  ◌==◌, nat_eq, if◌then◌else◌, filter, any, contains, length, take, Bool-cases, inl, inr, ==_refl,
}
use c4raven_server.Retention.Purge.{delete_ids}

module _ {ℓ} {A : Type ℓ} (pk : A → ℕ) where
  -- No two rows have the same primary key.
  abbrev pub HasDistinctKeys : List A → Type 0
  HasDistinctKeys [] = Unit
  HasDistinctKeys (x ∷ xs) = (any (λ r. pk x == pk r) xs ≡ false) × HasDistinctKeys xs

module _ {ℓ} {A : Type ℓ} (pk : A → ℕ) (doomed : A → Bool) where
  -- The rows without the first `n` doomed ones.
  unfoldable pub drop_first : ℕ → List A → List A
  drop_first zero rows = rows
  drop_first (suc n) [] = []
  drop_first (suc n) (x ∷ xs) =
      let fewer = drop_first n xs in
      let rest = drop_first (suc n) xs in if doomed x then fewer else x ∷ rest

  abbrev first_ids : ℕ → List A → List ℕ
  first_ids n rows = map pk (take n (filter doomed rows))

  first_ids-fresh :
      (k n : ℕ) (rows : List A)
      → any (λ r. k == pk r) rows ≡ false
      → contains (first_ids n rows) k ≡ false
  unfolding contains any filter
  first_ids-fresh k zero rows h = refl
  first_ids-fresh k (suc n) [] h = refl
  first_ids-fresh k (suc n) (x ∷ xs) h = elim (Bool-cases (doomed x)) [
    | inl e ↦ rw (e) (ground (arith, first_ids-fresh k n xs))
    | inr e ↦ rw (e) (first_ids-fresh k (suc n) xs (ground arith))
  ]

  delete_ids-none : (rows : List A) → delete_ids pk [] rows ≡ rows
  unfolding delete_ids filter contains
  delete_ids-none [] = refl
  delete_ids-none (x ∷ xs) = ap (λ r. x ∷ r) (delete_ids-none xs)

  -- An id that no row has makes no difference.
  delete_ids-fresh :
      (k : ℕ) (ids : List ℕ) (rows : List A)
      → any (λ r. k == pk r) rows ≡ false
      → delete_ids pk (k ∷ ids) rows ≡ delete_ids pk ids rows
  unfolding delete_ids filter contains any
  delete_ids-fresh k ids [] h = refl
  delete_ids-fresh k ids (x ∷ xs) h = ground (arith, delete_ids-fresh k ids xs)

  delete_ids-here :
      (x : A) (ids : List ℕ) (xs : List A)
      → delete_ids pk (pk x ∷ ids) (x ∷ xs) ≡ delete_ids pk (pk x ∷ ids) xs
  unfolding delete_ids filter contains
  delete_ids-here x ids xs = rw (==_refl (pk x)) refl

  delete_ids-other :
      (x : A) (ids : List ℕ) (xs : List A)
      → contains ids (pk x) ≡ false
      → delete_ids pk ids (x ∷ xs) ≡ x ∷ delete_ids pk ids xs
  unfolding delete_ids filter
  delete_ids-other x ids xs h = rw (h) refl

  first_ids-doomed :
      (n : ℕ) (x : A) (xs : List A)
      → doomed x ≡ true
      → first_ids (suc n) (x ∷ xs) ≡ pk x ∷ first_ids n xs
  unfolding filter
  first_ids-doomed n x xs e = rw (e) refl

  first_ids-kept :
      (n : ℕ) (x : A) (xs : List A) → doomed x ≡ false → first_ids n (x ∷ xs) ≡ first_ids n xs
  unfolding filter
  first_ids-kept n x xs e = rw (e) refl

  pub delete_ids-first_ids :
      (n : ℕ) (rows : List A)
      → HasDistinctKeys pk rows
      → delete_ids pk (first_ids n rows) rows ≡ drop_first n rows
  unfolding drop_first
  delete_ids-first_ids zero rows h = delete_ids-none rows
  delete_ids-first_ids (suc n) [] h = unfold delete_ids in unfold filter in refl
  delete_ids-first_ids (suc n) (x ∷ xs) h = elim (Bool-cases (doomed x)) [
    | inl e ↦
        ap (λ ids. delete_ids pk ids (x ∷ xs)) (first_ids-doomed n x xs e)
        ∙ delete_ids-here x (first_ids n xs) xs
        ∙ delete_ids-fresh (pk x) (first_ids n xs) xs h.0
        ∙ delete_ids-first_ids n xs h.1
        ∙ rw (e) refl
    | inr e ↦
        ap (λ ids. delete_ids pk ids (x ∷ xs)) (first_ids-kept (suc n) x xs e)
        ∙ delete_ids-other x (first_ids (suc n) xs) xs (first_ids-fresh (pk x) (suc n) xs h.0)
        ∙ ap (λ r. x ∷ r) (delete_ids-first_ids (suc n) xs h.1)
        ∙ rw (e) refl
  ]

  pub any-drop_first :
      (k n : ℕ) (rows : List A)
      → any (λ r. k == pk r) rows ≡ false
      → any (λ r. k == pk r) (drop_first n rows) ≡ false
  unfolding any drop_first
  any-drop_first k zero rows h = h
  any-drop_first k (suc n) [] h = refl
  any-drop_first k (suc n) (x ∷ xs) h =
      ground (arith, any-drop_first k n xs, any-drop_first k (suc n) xs)

  pub drop_first-HasDistinctKeys :
      (n : ℕ) (rows : List A) → HasDistinctKeys pk rows → HasDistinctKeys pk (drop_first n rows)
  unfolding drop_first
  drop_first-HasDistinctKeys zero rows h = h
  drop_first-HasDistinctKeys (suc n) [] h = tt
  drop_first-HasDistinctKeys (suc n) (x ∷ xs) h = elim (Bool-cases (doomed x)) [
    | inl e ↦ rw (e) (drop_first-HasDistinctKeys n xs h.1)
    | inr e ↦
        rw (e) (any-drop_first (pk x) (suc n) xs h.0, drop_first-HasDistinctKeys (suc n) xs h.1)
  ]

  pub kept-drop_first :
      (n : ℕ) (rows : List A)
      → filter (λ r. not (doomed r)) (drop_first n rows) ≡ filter (λ r. not (doomed r)) rows
  unfolding drop_first filter
  kept-drop_first zero rows = refl
  kept-drop_first (suc n) [] = refl
  kept-drop_first (suc n) (x ∷ xs) =
      ground (arith, kept-drop_first n xs, kept-drop_first (suc n) xs)

  pub doomed-drop_first :
      (n : ℕ) (rows : List A)
      → length (filter doomed (drop_first n rows)) ≡ length (filter doomed rows) - n
  unfolding drop_first filter
  doomed-drop_first zero rows = omega arith
  doomed-drop_first (suc n) [] = omega arith
  doomed-drop_first (suc n) (x ∷ xs) =
      ground (arith, doomed-drop_first n xs, doomed-drop_first (suc n) xs)

  pub length-drop_first :
      (n : ℕ) (rows : List A)
      → length (drop_first n rows) + length (take n (filter doomed rows)) ≡ length rows
  unfolding drop_first filter
  length-drop_first zero rows = omega arith
  length-drop_first (suc n) [] = refl
  length-drop_first (suc n) (x ∷ xs) =
      ground (arith, length-drop_first n xs, length-drop_first (suc n) xs)
