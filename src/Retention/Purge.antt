-- ===== src/Retention/Purge.antt =====
-- raven/retention.py: which rows of a table are past the cutoff, and their deletion in batches.
pub mod Ageing
pub mod Deleting
pub mod Batches
use c4raven_server.Prelude.{
  ℕ, zero, suc, ◌+◌, String, Bool, true, false, ◌&&◌, ◌||◌, not, Option, none, some, List, [], ◌∷◌,
  ◌++◌, map, ◌==◌, nat_eq, if◌then◌else◌, filter, contains, is_empty, ltb, leb, length, take,
}
use c4raven_server.Retention.{batch_size, earliest_plausible, future_slack}

-- What the ageing of a row reads: its device time and the column that follows the receive order,
-- either of which may be NULL.
pub record Aged : Type 0 where
  pub time : Option ℕ
  pub order : Option ℕ

unfoldable pub plausible_old : ℕ → Aged → Bool
plausible_old cutoff r = elim r.time [
  | none ↦ false
  | some t ↦ leb earliest_plausible t && ltb t cutoff
]

larger : Option ℕ → Option ℕ → Option ℕ
larger none b = b
larger (some a) none = some a
larger (some a) (some b) = if ltb a b then some b else some a

-- `func.max(order)`, which ignores NULLs
unfoldable pub max_order : List Aged → Option ℕ
unfolding larger
max_order [] = none
max_order (r ∷ rs) = larger r.order (max_order rs)

unfoldable pub implausible : ℕ → Aged → Bool
implausible now r = elim r.time [
  | none ↦ true
  | some t ↦ ltb t earliest_plausible || ltb (now + future_slack) t
]

-- `order < boundary`, which a NULL does not satisfy
unfoldable pub is_below : ℕ → Option ℕ → Bool
is_below boundary none = false
is_below boundary (some n) = ltb n boundary

aged_by : (cutoff now : ℕ) → Option ℕ → Aged → Bool
aged_by cutoff now none r = plausible_old cutoff r
aged_by cutoff now (some boundary) r =
    plausible_old cutoff r || implausible now r && is_below boundary r.order

-- `_aged`: the boundary is worked out on the whole table `rows`, before anything is deleted.
unfoldable pub aged : (cutoff now : ℕ) → List Aged → Aged → Bool
unfolding aged_by
aged cutoff now rows = aged_by cutoff now (max_order (filter (plausible_old cutoff) rows))

-- One step of a purge that can be seen from outside: the ids of a committed batch, or a file that
-- is removed.
pub data Step : Type 0 where
  deleted : List ℕ → Step
  unlinked : String → Step

-- What a purge leaves: the rows, the local variable `total` (the rows deleted by the batches that were
-- committed), what it did in order, and whether it came to its end (or a commit failed, and the
-- exception left the function, which then returns nothing).
pub record Purged {ℓ} (A : Type ℓ) : Type ℓ where
  pub rows : List A
  pub total : ℕ
  pub steps : List Step
  pub complete : Bool

-- `return total`, which is not reached when a commit failed
unfoldable pub returned : {A : Type 0} → Purged A → Option ℕ
returned p = if p.complete then some p.total else none

module _ {ℓ} {A : Type ℓ} (pk : A → ℕ) where
  -- `delete(model).where(pk.in_(ids))`
  unfoldable pub delete_ids : List ℕ → List A → List A
  delete_ids ids rows = filter (λ r. not (contains ids (pk r))) rows

module _ {ℓ} {A : Type ℓ} (pk : A → ℕ) (doomed : A → Bool) (before_delete : List A → List String)
    (commits late : ℕ → Bool) where
  -- one round of the loop, with what the rounds after it leave
  unfoldable pub round : ℕ → List A → List A → Purged A → Purged A
  round n batch rows rest =
      let ids = map pk batch in
      let left = delete_ids pk ids rows in
      let here = deleted ids ∷ map unlinked (before_delete batch) in
      if is_empty batch
      then record { rows = rows; total = 0; steps = []; complete = true }
      else if not (commits n)
      then record { rows = rows; total = 0; steps = []; complete = false }
      else if ltb (length batch) batch_size || late n
      then record { rows = left; total = length batch; steps = here; complete = true }
      else record {
        rows = rest.rows;
        total = length batch + rest.total;
        steps = here ++ rest.steps;
        complete = rest.complete;
      }

  -- `_delete_in_batches`: `doomed` is its WHERE clause, `before_delete` what that argument returns
  -- for a batch; `commits n` is whether the commit of batch n succeeds, `late n` whether the clock
  -- is past the deadline after it. More rounds than there are rows are never made.
  unfoldable pub delete_in_batches : (fuel n : ℕ) → List A → Purged A
  unfolding round
  delete_in_batches zero n rows = record { rows = rows; total = 0; steps = []; complete = false }
  delete_in_batches (suc fuel) n rows =
      let batch = take batch_size (filter doomed rows) in
      round n batch rows (delete_in_batches fuel (suc n) (delete_ids pk (map pk batch) rows))
