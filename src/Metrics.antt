-- ===== src/Metrics.antt =====
-- raven/metrics.py, and the rows of models/MetricCounter.py and models/MetricSample.py: counters
-- in shared memory that a flusher adds to the database.
--
-- A series is a name and a rendered label set. `SharedCounters` keeps one 64-bit slot for each of
-- its series; `values[i] += amount` wraps around, which is written out. Whether the lock of
-- `inc` is had in time, whether the callable of the gauges returns and whether the transaction of
-- a flush commits are inputs. A dict is the list of its items in the order of insertion.
pub mod Rows
pub mod Slots
pub mod Flushing
pub mod Outcomes
pub mod Reading
pub mod Sums
mod Examples
use Prim.Native.String.{◌++◌ as text_append}
use c4raven_server.Prelude.{
  ℕ, zero, suc, ◌+◌, ◌-◌, ◌%◌, String, ◌≡◌, ◌↔◌, Bool, true, false, ◌&&◌, Option, none, some, List,
  [], ◌∷◌, ◌++◌, map, HasEq, ◌==◌, nat_eq, text_eq, if◌then◌else◌, any, is_empty, ltb, leb, arith,
}

-- (name, labels)
pub record Series : Type 0 where
  pub name : String
  pub labels : String

unfoldable pub series_beq : Series → Series → Bool
series_beq a b = a.name == b.name && a.labels == b.labels

pub series_beq_iff : (a b : Series) → (series_beq a b ≡ true) ↔ (a ≡ b)
unfolding series_beq
series_beq_iff a b =
    ground (arith, text_eq.test_iff a.name b.name, text_eq.test_iff a.labels b.labels)

instance abbrev pub series_eq : HasEq Series
series_eq = record { test = series_beq; test_iff = series_beq_iff }

pub data Kind : Type 0 where
  counter gauge : Kind

-- One row of metric_counters; `updated_at` in seconds.
pub record Row : Type 0 where
  pub series : Series
  pub kind : Kind
  pub value : ℕ
  pub updated_at : ℕ

-- the part of the statement that a conflict or an UPDATE carries out on one row
unfoldable pub updated : Kind → ℕ → ℕ → Bool → Row → Row
updated kind value now add r = record r {
  value = if add then r.value + value else value;
  updated_at = now;
  kind = kind;
}

abbrev pub new_row : Series → Kind → ℕ → ℕ → Row
new_row s kind value now = record { series = s; kind = kind; value = value; updated_at = now }

-- `_upsert` on PostgreSQL and SQLite: INSERT … ON CONFLICT (name, labels) DO UPDATE, which updates
-- the row that has the key.
unfoldable pub on_conflict : Series → Kind → ℕ → ℕ → Bool → List Row → List Row
unfolding updated
on_conflict s kind value now add [] = new_row s kind value now ∷ []
on_conflict s kind value now add (r ∷ rs) =
    let rest = on_conflict s kind value now add rs in
    if r.series == s then updated kind value now add r ∷ rs else r ∷ rest

abbrev pub has_series : Series → Row → Bool
has_series s r = r.series == s

unfoldable pub update_where : Series → Kind → ℕ → ℕ → Bool → List Row → List Row
unfolding updated
update_where s kind value now add =
    map (λ r. if has_series s r then updated kind value now add r else r)

-- `_upsert` on the other databases: UPDATE, then INSERT where no row was changed.
unfoldable pub update_or_insert : Series → Kind → ℕ → ℕ → Bool → List Row → List Row
unfolding update_where
update_or_insert s kind value now add rows =
    if any (has_series s) rows
    then update_where s kind value now add rows
    else update_where s kind value now add rows ++ (new_row s kind value now ∷ [])

-- The items of a dict from series to numbers.
abbrev pub Amounts : Type 0
Amounts = List (Series × ℕ)

-- `d[s] = n`
unfoldable pub put : Series → ℕ → Amounts → Amounts
put s n [] = (s, n) ∷ []
put s n (x ∷ xs) = let rest = put s n xs in if x.0 == s then (x.0, n) ∷ xs else x ∷ rest

unfoldable pub write_counters : ℕ → Amounts → List Row → List Row
unfolding on_conflict
write_counters now [] rows = rows
write_counters now (x ∷ xs) rows =
    write_counters now xs (if ltb 0 x.1 then on_conflict x.0 counter x.1 now true rows else rows)

unfoldable pub write_gauges : ℕ → Amounts → List Row → List Row
unfolding on_conflict
write_gauges now [] rows = rows
write_gauges now (x ∷ xs) rows = write_gauges now xs (on_conflict x.0 gauge x.1 now false rows)

abbrev pub flush_stamp : String
flush_stamp = "raven_metrics_last_flush_timestamp_seconds"

abbrev pub stamp_series : String → Series
stamp_series source = record {
  name = flush_stamp;
  labels = text_append "source=\"" (text_append source "\"");
}

-- `write`, inside its transaction, on PostgreSQL or SQLite. `now` stands for `_now()` and for
-- `time.time()`.
unfoldable pub write : ℕ → Amounts → Amounts → Option String → List Row → List Row
unfolding write_counters write_gauges on_conflict
write now counters gauges none rows = write_gauges now gauges (write_counters now counters rows)
write now counters gauges (some source) rows =
    on_conflict (stamp_series source) gauge now now false
      (write_gauges now gauges (write_counters now counters rows))

-- `record`, where the transaction commits or not: what it returns, and the table.
unfoldable pub record_metric : ℕ → Bool → Series → ℕ → List Row → Bool × List Row
unfolding write
record_metric now commits s amount rows =
    if commits then (true, write now ((s, amount) ∷ []) [] none rows) else (false, rows)

-- `",".join(label for label in labels if label)`, on the two labels that a flush gives it
unfoldable pub join_labels : String → String → String
join_labels String.[] String.[] = ""
join_labels String.[] (String.◌∷◌ d t) = String.◌∷◌ d t
join_labels (String.◌∷◌ c s) String.[] = String.◌∷◌ c s
join_labels (String.◌∷◌ c s) (String.◌∷◌ d t) =
    text_append (String.◌∷◌ c s) (text_append "," (String.◌∷◌ d t))

-- SharedCounters: the series, and the slots in the same order.
pub record SharedCounters : Type 0 where
  pub series : List Series
  pub values : List ℕ

-- 2 ^ 64, one more than the largest c_uint64
abbrev pub slot_size : ℕ
slot_size = 18446744073709551616

abbrev pub later : Option ℕ → Option ℕ → Option ℕ
later o none = o
later o (some j) = some j

-- `self.index.get((name, labels))`: the index is built in order, so the last one of equal series
unfoldable pub index_of : Series → ℕ → List Series → Option ℕ
index_of s i [] = none
index_of s i (x ∷ xs) = later (if x == s then some i else none) (index_of s (suc i) xs)

-- `values[i] += amount` on slots that hold the numbers below `size`
unfoldable pub add_at : ℕ → ℕ → ℕ → List ℕ → List ℕ
add_at size i amount [] = []
add_at size zero amount (v ∷ vs) = (v + amount) % size ∷ vs
add_at size (suc i) amount (v ∷ vs) = v ∷ add_at size i amount vs

abbrev pub add_found : ℕ → ℕ → List ℕ → Option ℕ → List ℕ
add_found size amount values none = values
add_found size amount values (some i) = add_at size i amount values

-- `SharedCounters.inc`; `locked` says whether the lock was had in time.
unfoldable pub inc : ℕ → Series → ℕ → Bool → SharedCounters → SharedCounters
unfolding index_of add_at
inc size s amount locked c = record c {
  values =
      if ltb 0 amount && locked
      then add_found size amount c.values (index_of s 0 c.series)
      else c.values;
}

-- a series as it is written, with the labels of its service
unfoldable pub joined : String → Series → Series
unfolding join_labels
joined labels s = record { name = s.name; labels = join_labels s.labels labels }

-- The dict of deltas that a flush collects: what each slot has grown by, where it has.
unfoldable pub deltas_of : String → List Series → List ℕ → List ℕ → Amounts → Amounts
unfolding put joined
deltas_of labels (s ∷ ss) (v ∷ vs) (f ∷ fs) deltas =
    deltas_of labels ss vs fs
      (if ltb 0 (v - f) then put (joined labels s) (v - f) deltas else deltas)
deltas_of labels _ _ _ deltas = deltas

-- A MetricsFlusher with its counters and the table metric_counters.
pub record Flusher : Type 0 where
  pub counters : SharedCounters
  pub labels : String
  pub source : String
  pub flushed : List ℕ
  pub rows : List Row

-- `MetricsFlusher.flush`: what it returns, and the flusher after it. `gauges` is none when the
-- callable raises; `commits` says whether the transaction does.
unfoldable pub flush : ℕ → Option Amounts → Bool → Flusher → Bool × Flusher
unfolding write deltas_of
flush now none commits f = (false, f)
flush now (some gauges) false f = (false, f)
flush now (some gauges) true f = (
  true,
  record f {
    rows =
        write now (deltas_of f.labels f.counters.series f.counters.values f.flushed []) gauges
          (some f.source) f.rows;
    flushed = f.counters.values;
  },
)

-- What happens to a service: a count, or a flush.
pub data Event : Type 0 where
  counted : Series → ℕ → Bool → Event
  flushes : ℕ → Option Amounts → Bool → Event

unfoldable pub step : ℕ → Event → Flusher → Flusher
unfolding inc flush
step size (counted s amount locked) f = record f { counters = inc size s amount locked f.counters }
step size (flushes now gauges commits) f = (flush now gauges commits f).1

unfoldable pub run : ℕ → List Event → Flusher → Flusher
unfolding step
run size [] f = f
run size (e ∷ es) f = run size es (step size e f)
