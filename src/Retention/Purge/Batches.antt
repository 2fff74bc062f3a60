-- ===== src/Retention/Purge/Batches.antt =====
-- `_delete_in_batches`: the rows after all its rounds.
use c4raven_server.Prelude.{
  ℕ, zero, suc, ◌⊎◌, ◌+◌, ◌-◌, ◌<◌, ◌≤◌, String, ◌≡◌, refl, sym, ◌∙◌, ap, Bool, true, false, ◌||◌,
  not, List, [], ◌∷◌, map, arith, nat_eq, if◌then◌else◌, filter, is_empty, ltb, length, take,
  Bool-cases, inl, inr, some, none,
}
use c4raven_server.Retention.{batch_size}
use c4raven_server.Retention.Purge.{Step, Purged, returned, delete_ids, round, delete_in_batches}
use c4raven_server.Retention.Purge.Deleting.{
  HasDistinctKeys, drop_first, delete_ids-first_ids, drop_first-HasDistinctKeys, kept-drop_first,
  doomed-drop_first, length-drop_first,
}

length-take :
    {A : Type 0} (n : ℕ) (xs : List A)
    → length (take n xs) ≡ (if ltb (length xs) n then length xs else n)
length-take zero xs = ground arith
length-take (suc n) [] = ground arith
length-take (suc n) (x ∷ xs) = ground (arith, length-take n xs)

take_cases :
    {A : Type 0} (n : ℕ) (xs : List A)
    → (length (take n xs) ≡ length xs) × (length xs < n)
      ⊎ (length (take n xs) ≡ n) × (n ≤ length xs)
take_cases n xs = ground (arith, length-take n xs)

none_doomed :
    {A : Type 0} (doomed : A → Bool) (xs : List A)
    → length (filter doomed xs) ≡ 0
    → filter (λ r. not (doomed r)) xs ≡ xs
unfolding filter
none_doomed doomed [] h = refl
none_doomed doomed (x ∷ xs) h = elim (Bool-cases (doomed x)) [
  | inl e ↦ ground arith
  | inr e ↦ rw (e) (ap (λ r. x ∷ r) (none_doomed doomed xs (ground arith)))
]

gone : (a b c : ℕ) → a + b ≡ c → a ≡ c - b
gone a b c h = omega (arith, h)

module _ {A : Type 0} (pk : A → ℕ) (doomed : A → Bool) (before_delete : List A → List String)
    (commits late : ℕ → Bool) where
  abbrev batch_of : List A → List A
  batch_of rows = take batch_size (filter doomed rows)

  abbrev left_of : List A → List A
  left_of rows = delete_ids pk (map pk (batch_of rows)) rows

  -- What holds after a round: with nothing to delete, a refused commit, the last batch, or more.
  pub round_cases :
      (P : Purged A → Type 0) (n : ℕ) (batch rows : List A) (rest : Purged A)
      → (is_empty batch ≡ true → P (record { rows = rows; total = 0; steps = []; complete = true }))
      → (commits n ≡ false → P (record { rows = rows; total = 0; steps = []; complete = false }))
      → (is_empty batch ≡ false
          → (ltb (length batch) batch_size || late n) ≡ true
          → (steps : List Step)
          → P (record {
            rows = delete_ids pk (map pk batch) rows;
            total = length batch;
            steps = steps;
            complete = true;
          }))
      → (is_empty batch ≡ false
          → (ltb (length batch) batch_size || late n) ≡ false
          → (steps : List Step)
          → P (record {
            rows = rest.rows;
            total = length batch + rest.total;
            steps = steps;
            complete = rest.complete;
          }))
      → P (round pk doomed before_delete commits late n batch rows rest)
  unfolding round
  round_cases P n batch rows rest stop refused last more = elim (Bool-cases (is_empty batch)) [
    | inl a ↦ simp (a) (stop a)
    | inr a ↦ elim (Bool-cases (commits n)) [
      | inr b ↦ simp (a, b) (refused b)
      | inl b ↦ elim (Bool-cases (ltb (length batch) batch_size || late n)) [
        | inl c ↦ simp (a, b, c) (last a c _)
        | inr c ↦ simp (a, b, c) (more a c _)
      ]
    ]
  ]

  left_lem :
      (rows : List A)
      → HasDistinctKeys pk rows
      → left_of rows ≡ drop_first pk doomed batch_size rows
  left_lem rows h = delete_ids-first_ids pk doomed batch_size rows h

  pub left-HasDistinctKeys :
      (rows : List A) → HasDistinctKeys pk rows → HasDistinctKeys pk (left_of rows)
  left-HasDistinctKeys rows h =
      rw (left_lem rows h) (drop_first-HasDistinctKeys pk doomed batch_size rows h)

  pub left-kept :
      (rows : List A)
      → HasDistinctKeys pk rows
      → filter (λ r. not (doomed r)) (left_of rows) ≡ filter (λ r. not (doomed r)) rows
  left-kept rows h = rw (left_lem rows h) (kept-drop_first pk doomed batch_size rows)

  pub length-left :
      (rows : List A)
      → HasDistinctKeys pk rows
      → length (batch_of rows) + length (left_of rows) ≡ length rows
  length-left rows h =
      rw (left_lem rows h) (omega (arith, length-drop_first pk doomed batch_size rows))

  spares_lem :
      (fuel n : ℕ) (rows : List A)
      → HasDistinctKeys pk rows
      → let p = delete_in_batches pk doomed before_delete commits late fuel n rows in
        (filter (λ r. not (doomed r)) p.rows ≡ filter (λ r. not (doomed r)) rows)
        × (p.total + length p.rows ≡ length rows)
  unfolding delete_in_batches
  spares_lem zero n rows h = (refl, omega arith)
  spares_lem (suc fuel) n rows h =
      let ih = spares_lem fuel (suc n) (left_of rows) (left-HasDistinctKeys rows h) in
      round_cases
        (λ p.
          (filter (λ r. not (doomed r)) p.rows ≡ filter (λ r. not (doomed r)) rows)
          × (p.total + length p.rows ≡ length rows))
        n (batch_of rows) rows _ (λ a. (refl, omega arith)) (λ a. (refl, omega arith))
        (λ a b steps. (left-kept rows h, length-left rows h))
        (λ a b steps. (ih.0 ∙ left-kept rows h, omega (arith, ih.1, length-left rows h)))

  -- On rows with distinct keys, whatever commits fail and whenever the deadline passes, the rows
  -- outside the WHERE clause are all still there, in order; a call that comes to its end returns the
  -- number of rows that are gone, and one that a failed commit ends returns nothing, with as many
  -- rows gone as its committed batches have counted.
  pub delete_in_batches_spares :
      (fuel n : ℕ) (rows : List A)
      → HasDistinctKeys pk rows
      → let p = delete_in_batches pk doomed before_delete commits late fuel n rows in
        (filter (λ r. not (doomed r)) p.rows ≡ filter (λ r. not (doomed r)) rows)
        × (returned p ≡ (if p.complete then some (length rows - length p.rows) else none))
        × (p.total + length p.rows ≡ length rows)
  unfolding returned
  delete_in_batches_spares fuel n rows h =
      let p = delete_in_batches pk doomed before_delete commits late fuel n rows in
      let s = spares_lem fuel n rows h in
      (
        s.0,
        ap (λ k. if p.complete then some k else none)
            (gone p.total (length p.rows) (length rows) s.1),
        s.1,
      )

  batch_bound :
      (rows : List A)
      → HasDistinctKeys pk rows
      → length (filter doomed (left_of rows)) ≡ length (filter doomed rows) - batch_size
  batch_bound rows h = rw (left_lem rows h) (doomed-drop_first pk doomed batch_size rows)

  empty-batch : (rows : List A) → is_empty (batch_of rows) ≡ true → length (filter doomed rows) ≡ 0
  empty-batch rows h = empty (filter doomed rows) h
    where
      empty : (xs : List A) → is_empty (take batch_size xs) ≡ true → length xs ≡ 0
      empty [] h = refl
      empty (x ∷ xs) h = cc

  length-batch :
      (rows : List A)
      → (length (batch_of rows) ≡ length (filter doomed rows))
          × (length (filter doomed rows) < batch_size)
        ⊎ (length (batch_of rows) ≡ batch_size) × (batch_size ≤ length (filter doomed rows))
  length-batch rows = take_cases batch_size (filter doomed rows)

  last :
      (rows : List A)
      → HasDistinctKeys pk rows
      → is_empty (batch_of rows) ≡ false
      → (left_of rows ≡ filter (λ r. not (doomed r)) rows) ⊎ (batch_size ≤ length (batch_of rows))
  last rows h a = elim (length-batch rows) [
    | inl (e, small) ↦ inl (
        sym (none_doomed doomed (left_of rows) (omega (arith, batch_bound rows h, small)))
        ∙ left-kept rows h)
    | inr (e, large) ↦ inr (omega (arith, e))
  ]

  -- On rows with distinct keys, with every commit taken and more rounds allowed than there are rows
  -- to delete, the call comes to its end: it has then deleted all of these rows, or at least one
  -- full batch.
  pub delete_in_batches_ends :
      ((k : ℕ) → commits k ≡ true)
      → (fuel n : ℕ) (rows : List A) → HasDistinctKeys pk rows
      → length (filter doomed rows) < fuel
      → let p = delete_in_batches pk doomed before_delete commits late fuel n rows in
        (p.complete ≡ true)
        × ((p.rows ≡ filter (λ r. not (doomed r)) rows) ⊎ (batch_size ≤ p.total))
  unfolding delete_in_batches
  delete_in_batches_ends ok zero n rows h enough = ground arith
  delete_in_batches_ends ok (suc fuel) n rows h enough =
      round_cases
        (λ p.
          (p.complete ≡ true)
          × ((p.rows ≡ filter (λ r. not (doomed r)) rows) ⊎ (batch_size ≤ p.total)))
        n (batch_of rows) rows _
        (λ a. (refl, inl (sym (none_doomed doomed rows (empty-batch rows a))))) (λ a. cc (a, ok n))
        (λ a b steps. (refl, last rows h a))
        (λ a b steps.
          let full : batch_size ≤ length (batch_of rows) = ground arith in
          let ih =
            delete_in_batches_ends ok fuel (suc n) (left_of rows) (left-HasDistinctKeys rows h)
              (omega (arith, batch_bound rows h, length-batch rows, full, enough)) in
          (ih.0, inr (omega (arith, full))))
