-- ===== src/Metrics/Outcomes.antt =====
-- Runs that end in a flush that is written, and the events that change nothing.
use c4raven_server.Prelude.{
  ℕ, zero, suc, ◌+◌, ◌<◌, String, none, some, ◌≡◌, refl, sym, ap, ◌∙◌, inl, inr, Bool, true, false,
  ◌&&◌, List, [], ◌∷◌, ◌++◌, ◌==◌, text_eq, if◌then◌else◌, any, filter, ltb, arith, All, All-append,
  Bool-cases,
}
use c4raven_server.Metrics.{
  Series, series_eq, joined, Amounts, inc, flush_stamp, Flusher, flush, Event, counted, flushes,
  step, run,
}
use c4raven_server.Metrics.Rows.{value_of}
use c4raven_server.Metrics.Slots.{index_of-none, IsAligned}
use c4raven_server.Metrics.Flushing.{
  held, amount_counted, all_counted, HasNoGauge, IsFlusher, step-IsAligned, step-room, step-fixed,
  growth_of_same, plus_zero, ltb-suc, held-run,
}

run-append :
    (size : ℕ) (es ds : List Event) (f : Flusher)
    → run size (es ++ ds) f ≡ run size ds (run size es f)
unfolding run
run-append size [] ds f = refl
run-append size (e ∷ es) ds f = run-append size es ds (step size e f)

run-IsAligned :
    (size : ℕ) (es : List Event) (f : Flusher)
    → IsAligned f.counters.series f.counters.values f.flushed
    → All (λ v. v + all_counted es < size) f.counters.values
    → IsAligned
        (run size es f).counters.series
        (run size es f).counters.values
        (run size es f).flushed
unfolding run
run-IsAligned size [] f a h = a
run-IsAligned size (e ∷ es) f a h =
    run-IsAligned size es (step size e f) (step-IsAligned size e es f a h) (step-room size e es f h)

held-flushed :
    (size now : ℕ) (g : Amounts) (k : Series) (f : Flusher)
    → IsAligned f.counters.series f.counters.values f.flushed
    → value_of k (step size (flushes now (some g) true) f).rows
      ≡ held k (step size (flushes now (some g) true) f)
unfolding held step flush
held-flushed size now g k f a =
    sym (plus_zero _)
    ∙ ap (λ m. value_of k (step size (flushes now (some g) true) f).rows + m)
        (sym (growth_of_same f.labels k a))

held-run_flushed :
    (size now : ℕ) (g : Amounts) (es : List Event) (f : Flusher) (k : Series)
    → IsFlusher f
    → All (λ v. v + all_counted es < size) f.counters.values
    → value_of k (run size (es ++ (flushes now (some g) true ∷ [])) f).rows
      ≡ held k (run size (es ++ (flushes now (some g) true ∷ [])) f)
unfolding run
held-run_flushed size now g es f k i h =
    rw (run-append size es (flushes now (some g) true ∷ []) f)
      (held-flushed size now g k (run size es f) (run-IsAligned size es f i.0 h))

all_counted-append :
    (es : List Event) (now : ℕ) (g : Amounts)
    → all_counted (es ++ (flushes now (some g) true ∷ [])) ≡ all_counted es
unfolding all_counted
all_counted-append [] now g = refl
all_counted-append (flushes n o c ∷ es) now g = all_counted-append es now g
all_counted-append (counted s n l ∷ es) now g = ap (λ m. n + m) (all_counted-append es now g)

amount_counted-append :
    (labels : String) (k : Series) (ss : List Series) (es : List Event) (now : ℕ) (g : Amounts)
    → amount_counted labels k ss (es ++ (flushes now (some g) true ∷ []))
      ≡ amount_counted labels k ss es
unfolding amount_counted
amount_counted-append labels k ss [] now g = refl
amount_counted-append labels k ss (flushes n o c ∷ es) now g =
    amount_counted-append labels k ss es now g
amount_counted-append labels k ss (counted s n l ∷ es) now g =
    ap (λ m. (if l && (any (λ x. x == s) ss && joined labels s == k) then n else 0) + m)
      (amount_counted-append labels k ss es now g)

-- Whatever was counted and flushed before, whichever flushes and locks failed: once a flush is
-- written, a series of the table has what it had, with what was still to be flushed to it, and all
-- that was counted of it since with the lock. The slots and the flushed numbers are aligned, the
-- series are written under different keys, no gauge and no source stamp has the key, and no slot
-- has room for less than all that is counted.
pub value_of-run :
    (size now : ℕ) (g : Amounts) (es : List Event) (f : Flusher) (k : Series)
    → IsFlusher f
    → (k.name == flush_stamp) ≡ false
    → any (λ (x : Series × ℕ). x.0 == k) g ≡ false
    → All (HasNoGauge k) es
    → All (λ v. v + all_counted es < size) f.counters.values
    → value_of k (run size (es ++ (flushes now (some g) true ∷ [])) f).rows
      ≡ held k f + amount_counted f.labels k f.counters.series es
value_of-run size now g es f k i n no_gauge no_gauges h =
    held-run_flushed size now g es f k i h
    ∙ held-run size (es ++ (flushes now (some g) true ∷ [])) f k i n
        (All-append (HasNoGauge k) es (flushes now (some g) true ∷ []) no_gauges (no_gauge, tt))
        (rw (all_counted-append es now g) h)
    ∙ ap (λ m. held k f + m) (amount_counted-append f.labels k f.counters.series es now g)

-- An event that can change the flusher: a count of a series that it has, above 0 and with the
-- lock, or a flush whose gauges are read and whose transaction commits.
unfoldable pub is_effective : List Series → Event → Bool
is_effective series (counted s n locked) = locked && (ltb 0 n && any (λ x. x == s) series)
is_effective series (flushes now none commits) = false
is_effective series (flushes now (some g) commits) = commits

step-no_effect :
    (size : ℕ) (e : Event) (f : Flusher)
    → is_effective f.counters.series e ≡ false
    → step size e f ≡ f
unfolding step inc flush is_effective
step-no_effect size (flushes now none c) f h = refl
step-no_effect size (flushes now (some g) false) f h = refl
step-no_effect size (flushes now (some g) true) f h = absurd (ground arith)
step-no_effect size (counted s zero l) f h = refl
step-no_effect size (counted s (suc n) false) f h = rw (ltb-suc n) refl
step-no_effect size (counted s (suc n) true) f h =
    rw (ltb-suc n, index_of-none s 0 f.counters.series (ground (arith, ltb-suc n))) refl

-- A flush that raises or is rolled back, and a count that is dropped for want of the lock, of a
-- series or of an amount, change nothing: without them a run ends in the same state.
pub run-filter_effective :
    (size : ℕ) (es : List Event) (f : Flusher)
    → run size (filter (is_effective f.counters.series) es) f ≡ run size es f
unfolding run filter
run-filter_effective size [] f = refl
run-filter_effective size (e ∷ es) f = elim (Bool-cases (is_effective f.counters.series e)) [
  | inl c ↦ rw (c) (
      ap (λ ss. run size (filter (is_effective ss) es) (step size e f))
        (sym (step-fixed size e f).0)
      ∙ run-filter_effective size es (step size e f))
  | inr c ↦
      rw (c)
        (run-filter_effective size es f ∙ ap (λ g. run size es g) (sym (step-no_effect size e f c)))
]
