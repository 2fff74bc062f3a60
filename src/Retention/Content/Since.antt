-- ===== src/Retention/Content/Since.antt =====
-- One batch of a purge of mission changes, and the newest of the changes that pass a test.
use c4raven_server.Prelude.{
  ℕ, ◌≤◌, ◌⊎◌, ◌≡◌, refl, sym, ◌∙◌, ap, Bool, true, false, ◌&&◌, not, List, [], ◌∷◌, arith, ◌==◌,
  nat_eq, text_eq, option_eq, if◌then◌else◌, filter, any, any-filter, any_implies, ltb, leb, inl,
  inr,
}
use c4raven_server.Retention.Content.{MissionChange}

module _ (p : MissionChange → Bool) where
  -- A row that passes the test has this id or a later one.
  abbrev pub has_since : ℕ → List MissionChange → Bool
  has_since n rows = any (λ (c : MissionChange). p c && leb n c.id) rows

  -- The largest id of the rows that pass the test, 0 when none does.
  top : List MissionChange → ℕ
  top [] = 0
  top (c ∷ cs) = let rest = top cs in if p c && leb rest c.id then c.id else rest

  top_bound :
      (b : ℕ) (rows : List MissionChange)
      → top rows ≤ b
      → any (λ (d : MissionChange). p d && ltb b d.id) rows ≡ false
  unfolding top any
  top_bound b [] h = refl
  top_bound b (c ∷ cs) h = ground (arith, top_bound b cs)

  top_cases :
      (rows : List MissionChange)
      → (any (λ (c : MissionChange). p c && c.id == top rows) rows ≡ true)
        ⊎ (any p rows ≡ false) × (top rows ≡ 0)
  unfolding top any
  top_cases [] = inr (refl, refl)
  top_cases (c ∷ cs) = ground (arith, top_cases cs)

  top_since : (n : ℕ) (rows : List MissionChange) → has_since n rows ≡ true → n ≤ top rows
  unfolding top any
  top_since n [] h = cc
  top_since n (c ∷ cs) h = ground (arith, top_since n cs)

  -- Rows of which the newest that passes the test is not to be deleted, and what a batch leaves.
  pub batch-has_since :
      (doomed : MissionChange → Bool) (rows left : List MissionChange) (n : ℕ)
      → ((c : MissionChange)
          → p c ≡ true
          → any (λ (d : MissionChange). p d && ltb c.id d.id) rows ≡ false
          → doomed c ≡ false)
      → filter (λ r. not (doomed r)) left ≡ filter (λ r. not (doomed r)) rows
      → has_since n rows ≡ true
      → has_since n left ≡ true
  batch-has_since doomed rows left n newest same h =
      any_implies _ _ (λ c k. ground arith) left
        (sym (any-filter _ (λ r. not (doomed r)) left)
          ∙ ap (any (λ (c : MissionChange). p c && leb n c.id)) same
          ∙ any-filter _ (λ r. not (doomed r)) rows
          ∙ any_implies _ _ kept rows attained)
    where
      attained : any (λ (c : MissionChange). p c && c.id == top rows) rows ≡ true
      attained = elim (top_cases rows) [
        | inl e ↦ e
        | inr e ↦ absurd (cc (any_implies _ p (λ c k. ground arith) rows h, e.0))
      ]

      kept :
          (c : MissionChange)
          → (p c && c.id == top rows) ≡ true
          → (not (doomed c) && (p c && leb n c.id)) ≡ true
      kept c k =
          let t : c.id ≡ top rows = ground arith in
          let free : doomed c ≡ false =
            newest c (ground arith) (top_bound c.id rows (omega (arith, t))) in
          ground (arith, free, t, top_since n rows h)
