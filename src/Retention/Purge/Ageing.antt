-- ===== src/Retention/Purge/Ageing.antt =====
-- The ageing of rows by device times: what `_aged` selects.
use c4raven_server.Prelude.{
  ℕ, ◌+◌, ◌≡◌, ◌≤◌, refl, Bool, false, ◌&&◌, ◌||◌, Option, none, some, List, [], ◌∷◌, arith, filter,
  any, ltb, any-filter, Option-cases, inl, inr,
}
use c4raven_server.Retention.{earliest_plausible, future_slack}
use c4raven_server.Retention.Purge.{
  Aged, plausible_old, larger, max_order, implausible, is_below, aged_by, aged,
}

-- The row was received after one with the order value `o`.
abbrev pub is_later : Option ℕ → Aged → Bool
is_later none x = false
is_later (some o) x = elim x.order [ none ↦ false | some p ↦ ltb o p ]

below : Option ℕ → Option ℕ → Bool
below none o = false
below (some b) o = is_below b o

larger_lem : (a b o : Option ℕ) → below (larger a b) o ≡ (below a o || below b o)
unfolding larger below is_below
larger_lem none b o = refl
larger_lem (some a) none o = ground arith
larger_lem (some a) (some b) none = ground arith
larger_lem (some a) (some b) (some n) = ground arith

below_order : (o : Option ℕ) (x : Aged) → below x.order o ≡ is_later o x
unfolding below is_below
below_order none x = elim (Option-cases x.order) [ inl e ↦ rw (e) refl | inr (n, e) ↦ rw (e) refl ]
below_order (some o) x = elim (Option-cases x.order) [
  | inl e ↦ rw (e) refl
  | inr (n, e) ↦ rw (e) refl
]

below-max_order : (o : Option ℕ) (xs : List Aged) → below (max_order xs) o ≡ any (is_later o) xs
unfolding max_order any
below-max_order o [] = unfold below in refl
below-max_order o (x ∷ xs) =
    rw (larger_lem x.order (max_order xs) o, below_order o x, below-max_order o xs) refl

aged_lem :
    (cutoff now : ℕ) (b : Option ℕ) (r : Aged)
    → aged_by cutoff now b r ≡ (plausible_old cutoff r || implausible now r && below b r.order)
unfolding aged_by below
aged_lem cutoff now none r = ground arith
aged_lem cutoff now (some b) r = ground arith

-- A row is past the cutoff exactly when its device time is plausible and before the cutoff, or its
-- time is missing or implausible and a row received after it has a plausible time before the
-- cutoff.
pub aged_iff :
    (cutoff now : ℕ) (rows : List Aged) (r : Aged)
    → aged cutoff now rows r ≡ (
        plausible_old cutoff r
        || implausible now r && any (λ x. plausible_old cutoff x && is_later r.order x) rows)
unfolding aged
aged_iff cutoff now rows r =
    rw
      (
        aged_lem cutoff now (max_order (filter (plausible_old cutoff) rows)) r,
        below-max_order r.order (filter (plausible_old cutoff) rows),
        any-filter (is_later r.order) (plausible_old cutoff) rows,
      )
      refl

-- A row with a device time that is not before the cutoff and at most a day ahead is kept, whatever
-- the other rows' clocks say, when the cutoff is no earlier than 2000.
pub aged_fresh :
    (cutoff now : ℕ) (rows : List Aged) (r : Aged) (t : ℕ)
    → r.time ≡ some t
    → earliest_plausible ≤ cutoff
    → cutoff ≤ t
    → t ≤ now + future_slack
    → aged cutoff now rows r ≡ false
unfolding plausible_old implausible
aged_fresh cutoff now rows r t h early k l = rw (aged_iff cutoff now rows r, h) (ground arith)
