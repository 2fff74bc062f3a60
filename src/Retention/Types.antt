-- ===== src/Retention/Types.antt =====
-- raven/retention.py: the purges of single kinds of data, as `_delete_in_batches` on their tables.
pub mod Kept
use c4raven_server.Prelude.{
  ℕ, suc, ◌+◌, String, Bool, true, false, ◌&&◌, ◌||◌, not, Option, none, some, List, [], ◌∷◌, ◌++◌,
  map, ◌==◌, nat_eq, text_eq, option_eq, if◌then◌else◌, filter, any, contains, ltb, length, is_none,
}
use c4raven_server.Chat.{Message}
use c4raven_server.Retention.Purge.{Aged, Purged, aged, delete_in_batches}

-- The clock and the database during a purge: whether the commit of a batch succeeds, and whether
-- the deadline is past after it.
pub record Run : Type 0 where
  pub commits : ℕ → Bool
  pub late : ℕ → Bool

-- A purge by `where` on a whole table, which stops by itself.
unfoldable pub purge_where :
    {A : Type 0} → Run → (A → ℕ) → (A → Bool) → (List A → List String) → List A → Purged A
purge_where run pk doomed before_delete rows =
    delete_in_batches pk doomed before_delete run.commits run.late (suc (length rows)) 0 rows

abbrev pub no_files : {A : Type 0} → List A → List String
no_files batch = []

-- `_simple(…, device_time=True)`
unfoldable pub purge_by_device_time :
    {A : Type 0} → Run → (A → ℕ) → (A → Aged) → (cutoff now : ℕ) → List A → Purged A
purge_by_device_time run pk aged_of cutoff now rows =
    purge_where run pk (λ r. aged cutoff now (map aged_of rows) (aged_of r)) no_files rows

-- `_simple` of a column that the server writes, as for the audit events
unfoldable pub purge_by_server_time :
    {A : Type 0} → Run → (A → ℕ) → (A → Option ℕ) → (cutoff : ℕ) → List A → Purged A
purge_by_server_time run pk time_of cutoff rows =
    purge_where run pk (λ r. elim (time_of r) [ none ↦ false | some t ↦ ltb t cutoff ]) no_files
      rows

-- the purge of the type "offline_chat"
unfoldable pub purge_offline_chat : Run → (cutoff : ℕ) → List Message → Purged Message
purge_offline_chat run cutoff rows =
    purge_by_server_time run (λ (m : Message). m.id) (λ (m : Message). some m.created_at) cutoff
      rows

-- One row of points, and one of cot.
pub record Point : Type 0 where
  pub id : ℕ
  pub timestamp : Option ℕ
  pub cot_id : Option ℕ

pub record Cot : Type 0 where
  pub id : ℕ
  pub uid : Option String
  pub timestamp : Option ℕ
  pub mission_name : Option String

-- A row of markers, alerts, casevac, geochat or rb_lines, as far as it points at the two.
pub record Reference : Type 0 where
  pub point_id : Option ℕ
  pub cot_id : Option ℕ

-- One row of mission_uids.
pub record MissionUid : Type 0 where
  pub uid : String
  pub mission_name : Option String

-- The tables that `_purge_cot` reads; `built_on` has the rows of the five tables above, `citraps`
-- the points of citrap, `video_streams` the CoTs of video_streams.
pub record CotTables : Type 0 where
  pub points : List Point
  pub cots : List Cot
  pub built_on : List Reference
  pub citraps : List (Option ℕ)
  pub video_streams : List (Option ℕ)
  pub mission_uids : List MissionUid

-- `_referenced_point_ids`
unfoldable pub is_referenced_point : CotTables → ℕ → Bool
is_referenced_point t id =
    any (λ (r : Reference). r.point_id == some id) t.built_on || contains t.citraps (some id)

-- `_mission_cot_uids`
unfoldable pub is_mission_uid : CotTables → String → Bool
is_mission_uid t uid =
    any (λ (u : MissionUid). u.uid == uid && not (is_none u.mission_name)) t.mission_uids

-- The CoT of a point that something is built on.
unfoldable pub is_point_cot : CotTables → List Point → ℕ → Bool
is_point_cot t points id =
    any (λ (p : Point). p.cot_id == some id && is_referenced_point t p.id) points

-- `referenced_cots`
unfoldable pub is_referenced_cot : CotTables → List Point → ℕ → Bool
is_referenced_cot t points id =
    any (λ (r : Reference). r.cot_id == some id) t.built_on
    || contains t.video_streams (some id)
    || is_point_cot t points id

unfoldable pub aged_point : Point → Aged
aged_point p = record { time = p.timestamp; order = some p.id }

unfoldable pub aged_cot : Cot → Aged
aged_cot c = record { time = c.timestamp; order = some c.id }

-- `CoT.mission_name`, or a uid that is in a mission
unfoldable pub is_mission_content : CotTables → Cot → Bool
is_mission_content t c =
    not (is_none c.mission_name) || (elim c.uid [ none ↦ false | some u ↦ is_mission_uid t u ])

pub record CotPurge : Type 0 where
  pub points : Purged Point
  pub cots : Purged Cot

-- The WHERE clauses of the two deletions of `_purge_cot`.
unfoldable pub is_doomed_point : CotTables → (cutoff now : ℕ) → Point → Bool
is_doomed_point t cutoff now p =
    aged cutoff now (map aged_point t.points) (aged_point p) && not (is_referenced_point t p.id)

unfoldable pub is_doomed_cot : CotTables → (cutoff now : ℕ) → List Point → Cot → Bool
is_doomed_cot t cutoff now points c =
    aged cutoff now (map aged_cot t.cots) (aged_cot c)
    && not (is_mission_content t c)
    && not (is_referenced_cot t points c.id)

-- `_purge_cot`: the CoTs are not reached when a commit of the points failed. `runs` is the run for
-- the points and the one for the CoTs.
unfoldable pub purge_cot : Run × Run → CotTables → (cutoff now : ℕ) → CotPurge
purge_cot runs t cutoff now =
    let ps =
      purge_where runs.0 (λ (p : Point). p.id) (is_doomed_point t cutoff now) no_files t.points in
    let cs =
      purge_where runs.1 (λ (c : Cot). c.id) (is_doomed_cot t cutoff now ps.rows) no_files t.cots in
    let not_reached : Purged Cot = record {
      rows = t.cots;
      total = 0;
      steps = [];
      complete = false;
    } in
    record { points = ps; cots = if ps.complete then cs else not_reached }
