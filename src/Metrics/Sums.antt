-- ===== src/Metrics/Sums.antt =====
-- The sums of the reported rows: what the dicts of `totals` and `by_label` hold, and what a sample
-- takes of them.
use c4raven_server.Prelude.{
  ℕ, ◌+◌, ◌-◌, String, Option, ◌≡◌, refl, ap, ◌∙◌, inl, inr, Bool, true, ◌&&◌, not, List, [], ◌∷◌,
  ◌++◌, ◌==◌, text_eq, nat_eq, if◌then◌else◌, filter, filter-append, ltb, arith, Bool-cases, ==→≡,
}
use c4raven_server.Metrics.{Row}
use c4raven_server.Metrics.Reading.{
  Sums, sum_of, add_to, add_totals, totals, or_empty, add_labels, by_label, Sample,
  sample_retention, sample_of, take_sample,
}

-- All that a dict of sums holds.
abbrev pub sum_all : Sums → ℕ
sum_all [] = 0
sum_all (x ∷ xs) = x.1 + sum_all xs

-- The sum of the values of the rows that a test selects.
unfoldable pub sum_where : (Row → Bool) → List Row → ℕ
sum_where p [] = 0
sum_where p (r ∷ rs) = (if p r then r.value else 0) + sum_where p rs

sum_of-add_to :
    (n m : String) (v : ℕ) (d : Sums)
    → sum_of m (add_to n v d) ≡ sum_of m d + (if n == m then v else 0)
unfolding add_to
sum_of-add_to n m v [] = ground arith
sum_of-add_to n m v (x ∷ xs) = elim (Bool-cases (x.0 == n)) [
  | inl e ↦ rw (e) (ground (arith, ap (λ y. y == m) (==→≡ x.0 n e)))
  | inr e ↦ rw (e) (elim (Bool-cases (n == m)) [
    | inl c ↦ ground (arith, sum_of-add_to n m v xs, ap (λ y. x.0 == y) (==→≡ n m c))
    | inr c ↦ ground (arith, sum_of-add_to n m v xs)
  ])
]

sum_all-add_to : (n : String) (v : ℕ) (d : Sums) → sum_all (add_to n v d) ≡ sum_all d + v
unfolding add_to
sum_all-add_to n v [] = omega arith
sum_all-add_to n v (x ∷ xs) = ground (arith, sum_all-add_to n v xs)

sum_of-add_totals :
    (n : String) (d : Sums) (rows : List Row)
    → sum_of n (add_totals d rows) ≡ sum_of n d + sum_where (λ r. r.series.name == n) rows
unfolding add_totals sum_where
sum_of-add_totals n d [] = omega arith
sum_of-add_totals n d (r ∷ rs) = omega (
  arith,
  sum_of-add_totals n (add_to r.series.name r.value d) rs,
  sum_of-add_to r.series.name n r.value d,
)

sum_of-add_labels :
    (label_in : String → Option String) (name key : String) (d : Sums) (rows : List Row)
    → sum_of key (add_labels label_in name d rows)
      ≡ sum_of key d
        + sum_where (λ r. r.series.name == name && or_empty (label_in r.series.labels) == key) rows
unfolding add_labels sum_where
sum_of-add_labels label_in name key d [] = omega arith
sum_of-add_labels label_in name key d (r ∷ rs) = elim (Bool-cases (r.series.name == name)) [
  | inl e ↦ rw (e) (
      omega (
        arith,
        sum_of-add_labels label_in name key (add_to (or_empty (label_in r.series.labels)) r.value d)
            rs,
        sum_of-add_to (or_empty (label_in r.series.labels)) key r.value d,
      ))
  | inr e ↦ rw (e) (omega (arith, sum_of-add_labels label_in name key d rs))
]

sum_all-add_labels :
    (label_in : String → Option String) (name : String) (d : Sums) (rows : List Row)
    → sum_all (add_labels label_in name d rows)
      ≡ sum_all d + sum_where (λ r. r.series.name == name) rows
unfolding add_labels sum_where
sum_all-add_labels label_in name d [] = omega arith
sum_all-add_labels label_in name d (r ∷ rs) = elim (Bool-cases (r.series.name == name)) [
  | inl e ↦ rw (e) (
      omega (
        arith,
        sum_all-add_labels label_in name (add_to (or_empty (label_in r.series.labels)) r.value d)
            rs,
        sum_all-add_to (or_empty (label_in r.series.labels)) r.value d,
      ))
  | inr e ↦ rw (e) (omega (arith, sum_all-add_labels label_in name d rs))
]

-- For every label: a value of it has the sum of the rows of the metric that carry it, and all the
-- values together have the total of the metric.
pub by_label-totals :
    (label_in : String → Option String) (rows : List Row) (name key : String)
    → (sum_of key (by_label label_in rows name)
        ≡ sum_where (λ r. r.series.name == name && or_empty (label_in r.series.labels) == key) rows)
      × (sum_all (by_label label_in rows name) ≡ sum_of name (totals rows))
unfolding by_label totals
by_label-totals label_in rows name key = (
  omega (arith, sum_of-add_labels label_in name key [] rows),
  omega (arith, sum_all-add_labels label_in name [] rows, sum_of-add_totals name [] rows),
)

recent : (n r : ℕ) → not (ltb n (n - r)) ≡ true
recent n r = ground arith

-- Samples older than the retention are gone after a sample is taken, the others stay in their
-- order, and the new one follows them, with the sum of the values of the rows of its metric.
pub take_sample_lem :
    (now : ℕ) (rows : List Row) (connected : ℕ) (samples : List Sample)
    → (take_sample now rows connected samples
        ≡ filter (λ (s : Sample). not (ltb s.timestamp (now - sample_retention))) samples
          ++ (sample_of now (totals rows) connected ∷ []))
      × ((n : String) → sum_of n (totals rows) ≡ sum_where (λ r. r.series.name == n) rows)
unfolding take_sample filter totals
take_sample_lem now rows connected samples = (
  filter-append (λ (s : Sample). not (ltb s.timestamp (now - sample_retention))) samples
        (sample_of now (totals rows) connected ∷ [])
      ∙ rw (recent now sample_retention) refl,
  λ n. omega (arith, sum_of-add_totals n [] rows),
)
