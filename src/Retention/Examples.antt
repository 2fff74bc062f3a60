-- ===== src/Retention/Examples.antt =====
-- Tests of the retention code on small tables, and its theorems at these tables.
use c4raven_server.Prelude.{
  if◌then◌else◌, Bool, ℕ, ◌+◌, ◌-◌, ◌*◌, ◌≤◌, ◌⊎◌, String, ◌≡◌, refl, true, false, ◌&&◌, ◌||◌, not,
  Option, none, some, List, [], ◌∷◌, map, arith, text_eq, nat_eq, filter, any, contains, length,
  find?, ltb,
}
use c4raven_server.Chat.{Message}
use c4raven_server.Chat.Delivery.{settle_live_deliveries}
use c4raven_server.Retention.{batch_size}
use c4raven_server.Retention.Purge.{
  returned, round, Aged, plausible_old, implausible, aged, max_order, is_below, delete_in_batches,
  delete_ids,
}
use c4raven_server.Retention.Purge.Ageing.{is_later, aged_iff}
use c4raven_server.Retention.Purge.Deleting.{HasDistinctKeys}
use c4raven_server.Retention.Purge.Batches.{delete_in_batches_spares, delete_in_batches_ends}
use c4raven_server.Retention.Types.{
  Run, Point, Cot, CotTables, purge_cot, purge_where, no_files, purge_by_server_time,
  purge_offline_chat, is_referenced_point, is_doomed_point, is_doomed_cot, aged_point, aged_cot,
  is_mission_content, is_referenced_cot, is_point_cot, is_mission_uid,
}
use c4raven_server.Retention.Types.Kept.{is_protected, purge_cot-cots}
use c4raven_server.Retention.Content.Since.{has_since}
use c4raven_server.Retention.Content.Newest.{adds_content, adds_uid, purge_mission_changes_newest}
use c4raven_server.Retention.Content.{
  DataPackage, MissionChange, Missions, is_installed, is_doomed_package, paths, purge_data_packages,
  is_kept_change, is_latest, in_mission_content, in_mission_uids, aged_change, is_doomed_change,
  purge_mission_changes, delete_changes,
}
use c4raven_server.Retention.Settings.{
  keep_seconds, setting_of, keep_of, put_setting, update_setting, update_settings, default_seconds,
  row_or_new,
}
use c4raven_server.Retention.Settings.Updates.{IsDict}
use c4raven_server.Retention.Job.{DataType, deleted, apply_retention, is_selected, purge_types}
use c4raven_server.Retention.Job.Outcomes.{is_due, purge_due, apply_retention_lem}

-- noon of some day, in seconds since the year 1, and thirty days before
abbrev now : ℕ
now = 63900000000

abbrev cutoff : ℕ
cutoff = now - 30 * 86400

abbrev steady : Run
steady = record { commits = λ n. true; late = λ n. false }

abbrev point : ℕ → Option ℕ → Option ℕ → Point
point id time cot = record { id = id; timestamp = time; cot_id = cot }

abbrev cot : ℕ → Option ℕ → Option String → Cot
cot id time mission = record { id = id; uid = some "U"; timestamp = time; mission_name = mission }

-- Point 2 is from 1970 by its device, point 3 is old, and a marker is on point 4.
abbrev cot_tables : CotTables
cot_tables = record {
  points =
      point 1 (some now) none
      ∷ point 2 (some 62135596800) none
      ∷ point 3 (some (cutoff - 1)) none
      ∷ point 4 (some (cutoff - 1)) (some 8)
      ∷ point 5 none none
      ∷ [];
  cots =
      cot 6 (some (cutoff - 5)) none
      ∷ cot 7 (some (cutoff - 5)) (some "search")
      ∷ cot 8 (some (cutoff - 5)) none
      ∷ [];
  built_on = record { point_id = some 4; cot_id = none } ∷ [];
  citraps = [];
  video_streams = [];
  mission_uids = [];
}

abbrev held : ℕ → ℕ → Message
held id created = record {
  id = id;
  recipient_uid = "B";
  recipient_user_id = none;
  read_groups = none;
  sender_uid = "A";
  chatroom_id = none;
  message_uid = "GeoChat.1";
  xml = "<event/>";
  created_at = created;
  delivered_at = none;
}

abbrev queue : List Message
queue = held 1 (now - 200000) ∷ held 2 (now - 100) ∷ []

abbrev geochat_month : List (String × Option ℕ)
geochat_month = ("geochat", some 2592000) ∷ ("offline_chat", some 172800) ∷ []

abbrev offline_chat_type : DataType (List Message)
offline_chat_type = record {
  key = "offline_chat";
  purge =
      λ limit at rows. let p = purge_offline_chat steady limit rows in (p.rows, deleted p.total);
}

abbrev forever_type : DataType (List Message)
forever_type = record { key = "cot"; purge = λ limit at rows. ([], deleted (length rows)) }

abbrev settle_all : List Message → List Message
settle_all rows = (settle_live_deliveries now [] (rows, 0)).0

-- tests

purge_cot_test :
    let p = purge_cot (steady, steady) cot_tables cutoff now in
    (map (λ (r : Point). r.id) p.points.rows ≡ 1 ∷ 4 ∷ 5 ∷ [])
    × (map (λ (c : Cot). c.id) p.cots.rows ≡ 7 ∷ 8 ∷ [])
unfolding purge_cot purge_where delete_in_batches delete_ids filter contains any aged aged_point
    aged_cot max_order plausible_old implausible is_below is_doomed_point is_doomed_cot
    is_referenced_point is_mission_content is_referenced_cot is_point_cot is_mission_uid
purge_cot_test = (refl, refl)

offline_test : (purge_offline_chat steady (now - 172800) queue).total ≡ 1
unfolding purge_offline_chat purge_by_server_time purge_where delete_in_batches delete_ids filter
    contains
offline_test = refl

settings_test :
    (update_settings now (some "admin") geochat_month ([], [])).1
    ≡ record { key = "geochat"; old = none; new = some 2592000 } ∷ []
unfolding update_settings update_setting keep_seconds keep_of setting_of put_setting default_seconds
    find? row_or_new
settings_test = refl

job_test :
    (apply_retention
      (λ key. true)
      now
      settle_all
      []
      (forever_type ∷ offline_chat_type ∷ [])
      []
      queue).results
    ≡ ("offline_chat", 1) ∷ []
unfolding apply_retention purge_types is_selected keep_seconds keep_of setting_of find?
    default_seconds purge_offline_chat purge_by_server_time purge_where delete_in_batches delete_ids
    filter contains settle_live_deliveries
job_test = refl

-- the theorems at these tables

aged_iff_example :
    let rows = map aged_point cot_tables.points in
    let r : Aged = record { time = none; order = some 2 } in
    aged cutoff now rows r ≡ (
      plausible_old cutoff r
      || implausible now r && any (λ x. plausible_old cutoff x && is_later r.order x) rows)
aged_iff_example =
    aged_iff cutoff now (map aged_point cot_tables.points) (record { time = none; order = some 2 })

abbrev ids : ℕ → ℕ
ids n = n

ids-HasDistinctKeys : HasDistinctKeys ids (5 ∷ 6 ∷ 7 ∷ [])
unfolding any
ids-HasDistinctKeys = (refl, (refl, (refl, tt)))

delete_in_batches_spares_example :
    let p = delete_in_batches ids (ltb 5) no_files (λ n. false) (λ n. true) 4 0 (5 ∷ 6 ∷ 7 ∷ []) in
    (filter (λ r. not (ltb 5 r)) p.rows ≡ filter (λ r. not (ltb 5 r)) (5 ∷ 6 ∷ 7 ∷ []))
    × (returned p ≡ (if p.complete then some (3 - length p.rows) else none))
    × (p.total + length p.rows ≡ 3)
delete_in_batches_spares_example =
    delete_in_batches_spares ids (ltb 5) no_files (λ n. false) (λ n. true) 4 0 (5 ∷ 6 ∷ 7 ∷ [])
      ids-HasDistinctKeys

delete_in_batches_ends_example :
    let p = delete_in_batches ids (ltb 5) no_files (λ n. true) (λ n. true) 4 0 (5 ∷ 6 ∷ 7 ∷ []) in
    (p.complete ≡ true)
    × ((p.rows ≡ filter (λ r. not (ltb 5 r)) (5 ∷ 6 ∷ 7 ∷ [])) ⊎ (batch_size ≤ p.total))
unfolding filter
delete_in_batches_ends_example =
    delete_in_batches_ends ids (ltb 5) no_files (λ n. true) (λ n. true) (λ k. refl) 4 0
      (5 ∷ 6 ∷ 7 ∷ []) ids-HasDistinctKeys (omega arith)

queue-HasDistinctKeys : HasDistinctKeys (λ (m : Message). m.id) queue
unfolding any
queue-HasDistinctKeys = (refl, (refl, tt))

points-HasDistinctKeys : HasDistinctKeys (λ (p : Point). p.id) cot_tables.points
unfolding any
points-HasDistinctKeys = (refl, (refl, (refl, (refl, (refl, tt)))))

cots-HasDistinctKeys : HasDistinctKeys (λ (c : Cot). c.id) cot_tables.cots
unfolding any
cots-HasDistinctKeys = (refl, (refl, (refl, tt)))

purge_cot-cots_example :
    filter (is_protected cot_tables) (purge_cot (steady, steady) cot_tables cutoff now).cots.rows
    ≡ filter (is_protected cot_tables) cot_tables.cots
purge_cot-cots_example =
    purge_cot-cots (steady, steady) cot_tables cutoff now points-HasDistinctKeys
      cots-HasDistinctKeys

geochat_month-IsDict : IsDict geochat_month
unfolding any
geochat_month-IsDict = (refl, (refl, tt))

apply_retention_lem_example :
    let types : List (DataType (List Message)) = forever_type ∷ offline_chat_type ∷ [] in
    let end = apply_retention (λ key. true) now settle_all [] types [] queue in
    (end.data_ ≡ purge_due now [] [] types (settle_all queue))
    × (map (λ (r : String × ℕ). r.0) end.results
        ≡ map (λ (t : DataType (List Message)). t.key) (filter (is_due now [] []) types))
    × ((k : String) → keep_seconds end.settings k ≡ keep_seconds [] k)
apply_retention_lem_example =
    apply_retention_lem now [] [] (λ key. true) settle_all (forever_type ∷ offline_chat_type ∷ [])
      queue

abbrev data_package : ℕ → Option Bool → DataPackage
data_package id install = record {
  id = id;
  hash = "0a1b";
  submission_time = some (cutoff - 1);
  install_on_enrollment = install;
  install_on_connection = none;
}

-- One is set to install, one has a certificate.
abbrev packages : List DataPackage
packages = data_package 1 (some true) ∷ data_package 2 none ∷ data_package 3 none ∷ []

packages-HasDistinctKeys : HasDistinctKeys (λ (p : DataPackage). p.id) packages
unfolding any
packages-HasDistinctKeys = (refl, (refl, (refl, tt)))

packages_test :
    map
      (λ (p : DataPackage). p.id)
      (purge_data_packages some steady (some 3 ∷ []) cutoff packages).rows
    ≡ 1 ∷ 3 ∷ []
unfolding purge_data_packages is_doomed_package is_installed paths purge_where delete_in_batches
    delete_ids filter contains
packages_test = refl

abbrev change : ℕ → String → MissionChange
change id type = record {
  id = id;
  change_type = type;
  mission_name = some "search";
  content_uid = some "C";
  mission_uid = none;
  server_time = some (cutoff - 1);
  timestamp = none;
}

-- The item was added, removed and added again.
abbrev changes : List MissionChange
changes = change 1 "ADD_CONTENT" ∷ change 2 "REMOVE_CONTENT" ∷ change 3 "ADD_CONTENT" ∷ []

abbrev missions : Missions
missions = record { contents = (7, "C") ∷ []; content_missions = (7, "search") ∷ []; uids = [] }

changes-HasDistinctKeys : HasDistinctKeys (λ (c : MissionChange). c.id) changes
unfolding any
changes-HasDistinctKeys = (refl, (refl, (refl, tt)))

changes_test :
    map
      (λ (c : MissionChange). c.id)
      (purge_mission_changes steady missions cutoff now changes).rows
    ≡ 3 ∷ []
unfolding purge_mission_changes is_doomed_change is_kept_change is_latest in_mission_content
    in_mission_uids aged_change aged max_order plausible_old implausible is_below any delete_changes
    round delete_ids filter contains
changes_test = refl

purge_mission_changes_newest_example :
    let left = (purge_mission_changes steady missions cutoff now changes).rows in
    (has_since (adds_content missions "search" "C") 3 left
      ≡ has_since (adds_content missions "search" "C") 3 changes)
    × (has_since (adds_uid missions "search" "C") 3 left
        ≡ has_since (adds_uid missions "search" "C") 3 changes)
purge_mission_changes_newest_example =
    purge_mission_changes_newest steady missions cutoff now changes changes-HasDistinctKeys "search"
      "C" 3
