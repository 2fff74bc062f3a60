-- ===== src/Metrics/Reading.antt =====
-- The reading side of raven/metrics.py: the rows as they are reported, their sums, the samples for
-- the rate chart, and the category of a CoT type. `label_in` stands for the match of the regular
-- expression of a label in a label set, `per_minute` for `round(delta / minutes, 1)`.
use c4raven_server.Prelude.{
  append, starts_with, ℕ, ◌+◌, ◌-◌, ◌*◌, String, Option, none, some, Bool, true, false, ◌&&◌, not,
  List, [], ◌∷◌, ◌++◌, map, ◌==◌, text_eq, nat_eq, if◌then◌else◌, filter, ltb, leb,
}
use c4raven_server.Metrics.{Kind, counter, gauge, Row, flush_stamp}

abbrev pub Sums : Type 0
Sums = List (String × ℕ)

abbrev pub sum_of : String → Sums → ℕ
sum_of n [] = 0
sum_of n (x ∷ xs) = if x.0 == n then x.1 else sum_of n xs

-- `result[key] = result.get(key, 0) + value`
unfoldable pub add_to : String → ℕ → Sums → Sums
add_to n v [] = (n, v) ∷ []
add_to n v (x ∷ xs) = let rest = add_to n v xs in if x.0 == n then (x.0, x.1 + v) ∷ xs else x ∷ rest

abbrev pub is_gauge : Kind → Bool
is_gauge counter = false
is_gauge gauge = true

abbrev pub stale_intervals : ℕ
stale_intervals = 3

abbrev pub is_stale : ℕ → ℕ → Row → Bool
is_stale interval now r =
    is_gauge r.kind
    && (not (r.series.name == flush_stamp) && ltb (r.updated_at + interval * stale_intervals) now)

-- `read_rows` on the rows in the order of the query
unfoldable pub read_rows : ℕ → ℕ → List Row → List Row
read_rows interval now = map (λ r. if is_stale interval now r then record r { value = 0 } else r)

unfoldable pub add_totals : Sums → List Row → Sums
unfolding add_to
add_totals result [] = result
add_totals result (r ∷ rs) = add_totals (add_to r.series.name r.value result) rs

unfoldable pub totals : List Row → Sums
unfolding add_totals
totals rows = add_totals [] rows

abbrev pub or_empty : Option String → String
or_empty none = ""
or_empty (some s) = s

unfoldable pub add_labels : (String → Option String) → String → Sums → List Row → Sums
unfolding add_to
add_labels label_in name result [] = result
add_labels label_in name result (r ∷ rs) =
    add_labels label_in name
      (if r.series.name == name
        then add_to (or_empty (label_in r.series.labels)) r.value result
        else result)
      rs

-- `by_label` for the label that `label_in` looks for
unfoldable pub by_label : (String → Option String) → List Row → String → Sums
unfolding add_labels
by_label label_in rows name = add_labels label_in name [] rows

-- One row of metric_samples; `timestamp` in seconds.
pub record Sample : Type 0 where
  pub timestamp : ℕ
  pub cot_received : ℕ
  pub cot_sent : ℕ
  pub bytes_received : ℕ
  pub bytes_sent : ℕ
  pub euds_connected : ℕ

-- SAMPLE_RETENTION, in seconds
abbrev pub sample_retention : ℕ
sample_retention = 86400

abbrev pub sample_of : ℕ → Sums → ℕ → Sample
sample_of now sums connected = record {
  timestamp = now;
  cot_received = sum_of "raven_cot_received_total" sums;
  cot_sent = sum_of "raven_cot_sent_total" sums;
  bytes_received = sum_of "raven_bytes_received_total" sums;
  bytes_sent = sum_of "raven_bytes_sent_total" sums;
  euds_connected = connected;
}

-- `take_sample` on the rows that `read_rows` gives; `connected` is the count of connected EUDs.
unfoldable pub take_sample : ℕ → List Row → ℕ → List Sample → List Sample
unfolding totals
take_sample now rows connected samples =
    filter (λ (s : Sample). not (ltb s.timestamp (now - sample_retention)))
      (samples ++ (sample_of now (totals rows) connected ∷ []))

-- A point of the rate chart, with rates in the numbers of `per_minute`.
pub record Point (R : Type 0) : Type 0 where
  pub timestamp : ℕ
  pub received : R
  pub sent : R
  pub bytes_received : R
  pub bytes_sent : R
  pub euds_connected : ℕ

module _ {R : Type 0} (per_minute : ℕ → ℕ → R) where
  abbrev pub point : Sample → Sample → Point R
  point p s =
      let seconds = s.timestamp - p.timestamp in
      record {
        timestamp = s.timestamp;
        received = per_minute (s.cot_received - p.cot_received) seconds;
        sent = per_minute (s.cot_sent - p.cot_sent) seconds;
        bytes_received = per_minute (s.bytes_received - p.bytes_received) seconds;
        bytes_sent = per_minute (s.bytes_sent - p.bytes_sent) seconds;
        euds_connected = s.euds_connected;
      }

  -- `sample_rates`, from the sample before
  unfoldable pub rates_from : Sample → List Sample → List (Point R)
  rates_from p [] = []
  rates_from p (s ∷ ss) =
      if leb s.timestamp p.timestamp then rates_from s ss else point p s ∷ rates_from s ss

  unfoldable pub sample_rates : List Sample → List (Point R)
  unfolding rates_from
  sample_rates [] = []
  sample_rates (s ∷ ss) = rates_from s ss

abbrev chat_prefix : String
chat_prefix = "b-t-f"

unfoldable pub cot_category : Option String → String
unfolding starts_with
cot_category none = "other"
cot_category (some s) =
    if starts_with s chat_prefix then "chat" else if starts_with s "a-" then "position" else "other"

-- CATEGORY_LABELS
abbrev pub category_label : String → String
category_label c = append "category=\"" (append c "\"")

-- `cot_category_from_xml`, where `event_type` stands for the match of its regular expression
unfoldable pub cot_category_from_xml : (String → Option String) → String → String
unfolding cot_category
cot_category_from_xml event_type cot = cot_category (event_type cot)
