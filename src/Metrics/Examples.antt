-- ===== src/Metrics/Examples.antt =====
-- Tests of the metrics with a service of two series, and the theorems at it.
use c4raven_server.Prelude.{
  starts_with, ℕ, String, ◌≡◌, refl, true, false, some, List, [], ◌∷◌, ◌++◌, text_eq, any, filter,
  arith,
}
use c4raven_server.Metrics.{
  Series, series_beq, counter, on_conflict, updated, update_or_insert, put, write, write_counters,
  write_gauges, join_labels, joined, slot_size, index_of, add_at, inc, deltas_of, Flusher, flush,
  Event, counted, flushes, step, run,
}
use c4raven_server.Metrics.Rows.{value_of, on_conflict-update_or_insert}
use c4raven_server.Metrics.Slots.{none_left, slot, growth_of}
use c4raven_server.Metrics.Flushing.{held, amount_counted, all_counted, held-run, IsFlusher}
use c4raven_server.Metrics.Outcomes.{value_of-run, is_effective, run-filter_effective}
use c4raven_server.Metrics.Reading.{Sample, cot_category}

abbrev chats : Series
chats = record { name = "raven_cot_received_total"; labels = "category=\"chat\"" }

abbrev bytes : Series
bytes = record { name = "raven_bytes_received_total"; labels = "" }

abbrev ssl : String
ssl = "transport=\"ssl\""

abbrev chats_ssl : Series
chats_ssl = record {
  name = "raven_cot_received_total";
  labels = "category=\"chat\",transport=\"ssl\"";
}

-- A service that has counted five chats and written three of them.
abbrev service : Flusher
service = record {
  counters = record { series = chats ∷ bytes ∷ []; values = 5 ∷ 0 ∷ [] };
  labels = ssl;
  source = "eud_handler_ssl";
  flushed = 3 ∷ 0 ∷ [];
  rows = record { series = chats_ssl; kind = counter; value = 40; updated_at = 10 } ∷ [];
}

-- two chats, one of them without the lock, a flush that fails, and another chat
abbrev events : List Event
events =
    counted chats 1 true
    ∷ counted chats 1 false
    ∷ flushes 20 (some []) false
    ∷ counted bytes 200 true
    ∷ counted chats 1 true
    ∷ []

service-IsFlusher : IsFlusher service
unfolding joined join_labels series_beq
service-IsFlusher = (slot (omega arith) (slot (omega arith) none_left), ((refl, tt), (tt, tt)))

-- tests

label_test : joined ssl chats ≡ chats_ssl
unfolding joined join_labels
label_test = refl

run_test :
    value_of chats_ssl (run slot_size (events ++ (flushes 30 (some []) true ∷ [])) service).rows
    ≡ 44
unfolding run step inc flush write write_counters write_gauges on_conflict updated put deltas_of
    joined join_labels series_beq index_of add_at value_of
run_test = refl

wrap_test : add_at slot_size 0 2 (18446744073709551615 ∷ []) ≡ 1 ∷ []
unfolding add_at
wrap_test = refl

category_test : cot_category (some "b-t-f-d") ≡ "chat"
unfolding cot_category starts_with
category_test = refl

sample_at : ℕ → ℕ → Sample
sample_at time received = record {
  timestamp = time;
  cot_received = received;
  cot_sent = 0;
  bytes_received = 0;
  bytes_sent = 0;
  euds_connected = 1;
}

-- witnesses

on_conflict-update_or_insert_example :
    on_conflict chats_ssl counter 2 30 true service.rows
    ≡ update_or_insert chats_ssl counter 2 30 true service.rows
unfolding any
on_conflict-update_or_insert_example =
    on_conflict-update_or_insert chats_ssl counter 2 30 true service.rows (refl, tt)

held-run_example : held chats_ssl (run slot_size events service) ≡ 44
unfolding held value_of growth_of amount_counted joined join_labels series_beq any all_counted
held-run_example =
    held-run slot_size events service chats_ssl service-IsFlusher refl
      (tt, (tt, (refl, (tt, (tt, tt))))) (omega arith, (omega arith, tt))

value_of-run_example :
    value_of chats_ssl (run slot_size (events ++ (flushes 30 (some []) true ∷ [])) service).rows
    ≡ 44
unfolding held value_of growth_of amount_counted joined join_labels series_beq any all_counted
value_of-run_example =
    value_of-run slot_size 30 [] events service chats_ssl service-IsFlusher refl refl
      (tt, (tt, (refl, (tt, (tt, tt))))) (omega arith, (omega arith, tt))

run-filter_effective_example :
    run slot_size
      (counted chats 1 true ∷ counted bytes 200 true ∷ counted chats 1 true ∷ [])
      service
    ≡ run slot_size events service
unfolding filter is_effective any series_beq
run-filter_effective_example = run-filter_effective slot_size events service
