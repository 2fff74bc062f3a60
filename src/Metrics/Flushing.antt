-- ===== src/Metrics/Flushing.antt =====
-- The composition of counting and flushing: runs of counts and flushes of one service, the flushes
-- that fail and the counts that are dropped included.
use c4raven_server.Prelude.{
  ℕ, zero, suc, ◌+◌, ◌<◌, String, Option, none, some, ◌≡◌, refl, sym, ap, ap₂, ◌∙◌, Bool, true,
  false, ◌&&◌, List, [], ◌∷◌, ◌==◌, text_eq, if◌then◌else◌, any, ltb, arith, All, All-map, All-of,
}
use c4raven_server.Metrics.{
  Series, series_eq, joined, Amounts, index_of, add_found, inc, deltas_of, flush_stamp, Flusher,
  flush, Event, counted, flushes, step, run,
}
use c4raven_server.Metrics.Rows.{amount_of, value_of, value_of-write}
use c4raven_server.Metrics.Slots.{
  IsDistinct, growth_of, IsAligned, amount_of-deltas_of, slots_of-add_found, add_found-IsAligned,
  add_found_room, growth_of_lem, IsAligned-flushed, has_key,
}

-- What a series of the table has, with what is still to be flushed to it.
unfoldable pub held : Series → Flusher → ℕ
held k f = value_of k f.rows + growth_of f.labels k f.counters.series f.counters.values f.flushed

-- What the counts that get the lock add to a series of the table.
unfoldable pub amount_counted : String → Series → List Series → List Event → ℕ
amount_counted labels k series [] = 0
amount_counted labels k series (flushes now g c ∷ es) = amount_counted labels k series es
amount_counted labels k series (counted s n locked ∷ es) =
    (if locked && (any (λ x. x == s) series && joined labels s == k) then n else 0)
    + amount_counted labels k series es

-- All that is counted at most, whatever series it is for.
unfoldable pub all_counted : List Event → ℕ
all_counted [] = 0
all_counted (flushes now g c ∷ es) = all_counted es
all_counted (counted s n locked ∷ es) = n + all_counted es

-- No callable returns a gauge of this series.
abbrev pub HasNoGauge : Series → Event → Type 0
HasNoGauge k (counted s n locked) = Unit
HasNoGauge k (flushes now none c) = Unit
HasNoGauge k (flushes now (some g) c) = any (λ (x : Series × ℕ). x.0 == k) g ≡ false

growth_of-add_found :
    (labels : String) (k s : Series) (size n : ℕ) (ss : List Series) (vs fs : List ℕ)
    → IsAligned ss vs fs
    → All (λ v. v + n < size) vs
    → growth_of labels k ss (add_found size n vs (index_of s 0 ss)) fs
      ≡ growth_of labels k ss vs fs
        + (if any (λ x. x == s) ss && joined labels s == k then n else 0)
growth_of-add_found labels k s size n ss vs fs a h = omega (
  arith,
  growth_of_lem labels k a,
  growth_of_lem labels k (add_found-IsAligned size n (index_of s 0 ss) a h),
  slots_of-add_found labels k s size n ss vs fs a h,
)

plus_assoc : (a b c : ℕ) → a + (b + c) ≡ a + b + c
plus_assoc a b c = omega arith

pub ltb-suc : (n : ℕ) → ltb 0 (suc n) ≡ true
ltb-suc n = ground arith

held-count :
    (size n : ℕ) (s k : Series) (locked : Bool) (f : Flusher)
    → IsAligned f.counters.series f.counters.values f.flushed
    → All (λ v. v + n < size) f.counters.values
    → held k (step size (counted s n locked) f)
      ≡ held k f
        + (if locked && (any (λ x. x == s) f.counters.series && joined f.labels s == k)
            then n
            else 0)
unfolding held step inc
held-count size zero s k locked f a h = ground arith
held-count size (suc n) s k false f a h = ground arith
held-count size (suc n) s k true f a h = rw (ltb-suc n) (
    ap (λ m. value_of k f.rows + m)
      (growth_of-add_found f.labels k s size (suc n) f.counters.series f.counters.values f.flushed a
        h)
    ∙ plus_assoc (value_of k f.rows)
        (growth_of f.labels k f.counters.series f.counters.values f.flushed) _)

pub growth_of_same :
    (labels : String) (k : Series) {ss : List Series} {vs fs : List ℕ}
    → IsAligned ss vs fs
    → growth_of labels k ss vs vs ≡ 0
growth_of_same labels k a = omega (arith, growth_of_lem labels k (IsAligned-flushed a))

pub plus_zero : (a : ℕ) → a + 0 ≡ a
plus_zero a = omega arith

no_key : (s : Series) → has_key s [] ≡ false
unfolding any
no_key s = refl

nothing : (k : Series) (n : ℕ) → amount_of k [] + n ≡ n
unfolding amount_of
nothing k n = omega arith

amount_of-deltas :
    (labels : String) (k : Series) (ss : List Series) (vs fs : List ℕ)
    → IsDistinct labels ss
    → amount_of k (deltas_of labels ss vs fs []) ≡ growth_of labels k ss vs fs
amount_of-deltas labels k ss vs fs d =
    amount_of-deltas_of labels ss vs fs [] k d
      (All-of (λ s. has_key (joined labels s) [] ≡ false) (λ s. no_key (joined labels s)) ss)
    ∙ nothing k (growth_of labels k ss vs fs)

held-flush :
    (size now : ℕ) (gauges : Option Amounts) (commits : Bool) (k : Series) (f : Flusher)
    → IsAligned f.counters.series f.counters.values f.flushed
    → IsDistinct f.labels f.counters.series
    → (k.name == flush_stamp) ≡ false
    → HasNoGauge k (flushes now gauges commits)
    → held k (step size (flushes now gauges commits) f) ≡ held k f
unfolding held step flush
held-flush size now none commits k f a d n g = refl
held-flush size now (some gauges) false k f a d n g = refl
held-flush size now (some gauges) true k f a d n g =
    ap₂ ◌+◌
      (value_of-write now (deltas_of f.labels f.counters.series f.counters.values f.flushed [])
          gauges (some f.source) f.rows k g n
        ∙ ap (λ m. value_of k f.rows + m)
            (amount_of-deltas f.labels k f.counters.series f.counters.values f.flushed d))
      (growth_of_same f.labels k a)
    ∙ plus_zero _

-- What the theorems ask of a flusher: aligned slots, and series that are written apart.
abbrev pub IsFlusher : Flusher → Type 0
IsFlusher f =
    IsAligned f.counters.series f.counters.values f.flushed × IsDistinct f.labels f.counters.series

pub step-IsAligned :
    (size : ℕ) (e : Event) (es : List Event) (f : Flusher)
    → IsAligned f.counters.series f.counters.values f.flushed
    → All (λ v. v + all_counted (e ∷ es) < size) f.counters.values
    → IsAligned
        (step size e f).counters.series
        (step size e f).counters.values
        (step size e f).flushed
unfolding step inc flush all_counted
step-IsAligned size (flushes now none c) es f a h = a
step-IsAligned size (flushes now (some g) false) es f a h = a
step-IsAligned size (flushes now (some g) true) es f a h = IsAligned-flushed a
step-IsAligned size (counted s zero l) es f a h = a
step-IsAligned size (counted s (suc n) false) es f a h = rw (ltb-suc n) a
step-IsAligned size (counted s (suc n) true) es f a h = rw (ltb-suc n) (
    add_found-IsAligned size (suc n) (index_of s 0 f.counters.series) a
      (All-map (λ v r. omega (arith, r)) f.counters.values h))

pub step-room :
    (size : ℕ) (e : Event) (es : List Event) (f : Flusher)
    → All (λ v. v + all_counted (e ∷ es) < size) f.counters.values
    → All (λ v. v + all_counted es < size) (step size e f).counters.values
unfolding step inc flush all_counted
step-room size (flushes now none c) es f h = h
step-room size (flushes now (some g) false) es f h = h
step-room size (flushes now (some g) true) es f h = h
step-room size (counted s zero l) es f h = All-map (λ v r. omega (arith, r)) f.counters.values h
step-room size (counted s (suc n) false) es f h =
    rw (ltb-suc n) (All-map (λ v r. omega (arith, r)) f.counters.values h)
step-room size (counted s (suc n) true) es f h = rw (ltb-suc n) (
    add_found_room size (suc n) (all_counted es) (index_of s 0 f.counters.series) f.counters.values
      h)

pub step-fixed :
    (size : ℕ) (e : Event) (f : Flusher)
    → ((step size e f).counters.series ≡ f.counters.series) × ((step size e f).labels ≡ f.labels)
unfolding step inc flush
step-fixed size (flushes now none c) f = (refl, refl)
step-fixed size (flushes now (some g) false) f = (refl, refl)
step-fixed size (flushes now (some g) true) f = (refl, refl)
step-fixed size (counted s n l) f = (refl, refl)

step-IsDistinct :
    (size : ℕ) (e : Event) (f : Flusher)
    → IsDistinct f.labels f.counters.series
    → IsDistinct (step size e f).labels (step size e f).counters.series
unfolding step inc flush
step-IsDistinct size (flushes now none c) f d = d
step-IsDistinct size (flushes now (some g) false) f d = d
step-IsDistinct size (flushes now (some g) true) f d = d
step-IsDistinct size (counted s n l) f d = d

held-step :
    (size : ℕ) (e : Event) (es : List Event) (f : Flusher) (k : Series)
    → IsFlusher f
    → (k.name == flush_stamp) ≡ false
    → HasNoGauge k e
    → All (λ v. v + all_counted (e ∷ es) < size) f.counters.values
    → held k (step size e f) + amount_counted f.labels k f.counters.series es
      ≡ held k f + amount_counted f.labels k f.counters.series (e ∷ es)
unfolding all_counted amount_counted
held-step size (flushes now g c) es f k i n no_gauge h =
    ap (λ m. m + amount_counted f.labels k f.counters.series es)
      (held-flush size now g c k f i.0 i.1 n no_gauge)
held-step size (counted s m locked) es f k i n no_gauge h = omega (
  arith,
  held-count size m s k locked f i.0 (All-map (λ v r. omega (arith, r)) f.counters.values h),
)

-- Whatever is counted and flushed, in whatever order and whichever flushes and locks fail: what a
-- series of the table has, with what is still to be flushed to it, grows by exactly the amounts of
-- the counts of its series that got the lock. The slots and the flushed numbers are aligned, the
-- series are written under different keys, no gauge and no source stamp has the key, and no slot
-- has room for less than all that is counted.
pub held-run :
    (size : ℕ) (es : List Event) (f : Flusher) (k : Series)
    → IsFlusher f
    → (k.name == flush_stamp) ≡ false
    → All (HasNoGauge k) es
    → All (λ v. v + all_counted es < size) f.counters.values
    → held k (run size es f) ≡ held k f + amount_counted f.labels k f.counters.series es
unfolding run amount_counted
held-run size [] f k i n g h = sym (plus_zero (held k f))
held-run size (e ∷ es) f k i n g h =
    held-run size es (step size e f) k
      (step-IsAligned size e es f i.0 h, step-IsDistinct size e f i.1) n g.1
      (step-room size e es f h)
    ∙ ap₂ (λ l ss. held k (step size e f) + amount_counted l k ss es) (step-fixed size e f).1
        (step-fixed size e f).0
    ∙ held-step size e es f k i n g.0 h
