-- ===== src/Retention/Content.antt =====
-- raven/retention.py: the purges of data packages, with their files, of markers and of the change logs
-- of missions.
pub mod Latest
pub mod Since
pub mod Newest
use c4raven_server.Prelude.{
  ℕ, zero, suc, length, take, ◌+◌, String, Bool, true, false, ◌&&◌, ◌||◌, not, Option, none, some,
  List, [], ◌∷◌, ◌++◌, map, ◌==◌, nat_eq, text_eq, option_eq, if◌then◌else◌, filter, any, contains,
  ltb, is_none, or_else,
}
use c4raven_server.Retention.Purge.{Aged, Purged, aged, round, delete_ids}
use c4raven_server.Retention.{batch_size}
use c4raven_server.Retention.Types.{Run, purge_where, no_files, Cot, aged_cot}

-- `column < cutoff`, which a NULL does not satisfy
abbrev pub is_before : ℕ → Option ℕ → Bool
is_before cutoff none = false
is_before cutoff (some t) = ltb t cutoff

-- One row of data_packages.
pub record DataPackage : Type 0 where
  pub id : ℕ
  pub hash : String
  pub submission_time : Option ℕ
  pub install_on_enrollment : Option Bool
  pub install_on_connection : Option Bool

-- Set to install, or named by a certificate (`certificates` has their data_package_id's).
unfoldable pub is_installed : List (Option ℕ) → DataPackage → Bool
is_installed certificates p =
    or_else p.install_on_enrollment false
    || or_else p.install_on_connection false
    || contains certificates (some p.id)

unfoldable pub is_doomed_package : List (Option ℕ) → (cutoff : ℕ) → DataPackage → Bool
is_doomed_package certificates cutoff p =
    is_before cutoff p.submission_time && not (is_installed certificates p)

-- The files of a batch; `_remove_file` does nothing for None.
unfoldable pub paths : (String → Option String) → List DataPackage → List String
paths path_of [] = []
paths path_of (p ∷ ps) = elim (path_of p.hash) [
  | none ↦ paths path_of ps
  | some path ↦ path ∷ paths path_of ps
]

-- `_purge_data_packages`; `path_of` is `_data_package_path`, which joins the upload folder and the hash
-- by os.path, or is None.
unfoldable pub purge_data_packages :
    (path_of : String → Option String)
    → Run
    → List (Option ℕ)
    → (cutoff : ℕ) → List DataPackage
    → Purged DataPackage
purge_data_packages path_of run certificates cutoff packages =
    purge_where run (λ (p : DataPackage). p.id) (is_doomed_package certificates cutoff)
      (paths path_of) packages

-- A row of markers or rb_lines: its id, its CoT, and for the second its own time.
pub record Mark : Type 0 where
  pub id : ℕ
  pub cot_id : Option ℕ
  pub timestamp : Option ℕ

unfoldable pub aged_mark : Mark → Aged
aged_mark m = record { time = m.timestamp; order = some m.id }

unfoldable pub is_doomed_marker : List Cot → (cutoff now : ℕ) → Mark → Bool
is_doomed_marker cots cutoff now m =
    any (λ (c : Cot). m.cot_id == some c.id && aged cutoff now (map aged_cot cots) (aged_cot c))
      cots

pub record MarkerPurge : Type 0 where
  pub markers : Purged Mark
  pub lines : Purged Mark

-- `_purge_markers`: the R&B lines are not reached when a commit of the markers failed.
unfoldable pub purge_markers :
    Run × Run → List Cot → (cutoff now : ℕ) → (markers lines : List Mark) → MarkerPurge
purge_markers runs cots cutoff now markers lines =
    let ms =
      purge_where runs.0 (λ (m : Mark). m.id) (is_doomed_marker cots cutoff now) no_files markers in
    let ls =
      purge_where runs.1 (λ (m : Mark). m.id)
        (λ m. aged cutoff now (map aged_mark lines) (aged_mark m)) no_files lines in
    let not_reached : Purged Mark = record {
      rows = lines;
      total = 0;
      steps = [];
      complete = false;
    } in
    record { markers = ms; lines = if ms.complete then ls else not_reached }

-- One row of mission_changes.
pub record MissionChange : Type 0 where
  pub id : ℕ
  pub change_type : String
  pub mission_name : Option String
  pub content_uid : Option String
  pub mission_uid : Option String
  pub server_time : Option ℕ
  pub timestamp : Option ℕ

-- What missions hold: the rows of mission_content (id and uid) and of its join with missions (content
-- id and mission), and those of mission_uids (uid and mission).
pub record Missions : Type 0 where
  pub contents : List (ℕ × String)
  pub content_missions : List (ℕ × String)
  pub uids : List (String × Option String)

abbrev pub is_added : MissionChange → Bool
is_added c = c.change_type == "ADD_CONTENT"

-- The joins of the two queries, for one change.
unfoldable pub in_mission_content : Missions → MissionChange → Bool
in_mission_content t c =
    any
      (λ (r : ℕ × String).
        some r.1 == c.content_uid
        && any (λ (l : ℕ × String). l.0 == r.0 && some l.1 == c.mission_name) t.content_missions)
      t.contents

unfoldable pub in_mission_uids : Missions → MissionChange → Bool
in_mission_uids t c =
    any
      (λ (u : String × Option String).
        some u.0 == c.mission_uid && not (is_none u.1) && u.1 == c.mission_name)
      t.uids

-- `func.max(MissionChange.id)` of each mission and item: no later row of the same group.
unfoldable pub is_latest :
    (MissionChange → Bool)
    → (MissionChange → Option String)
    → List MissionChange
    → MissionChange
    → Bool
is_latest joined item changes c =
    is_added c
    && joined c
    && not (
        any
          (λ (d : MissionChange).
            is_added d
            && joined d
            && d.mission_name == c.mission_name
            && item d == item c
            && ltb c.id d.id)
          changes)

-- `keep`
unfoldable pub is_kept_change : Missions → List MissionChange → MissionChange → Bool
is_kept_change t changes c =
    is_latest (in_mission_content t) (λ (d : MissionChange). d.content_uid) changes c
    || is_latest (in_mission_uids t) (λ (d : MissionChange). d.mission_uid) changes c

-- `func.coalesce(MissionChange.server_time, MissionChange.timestamp)`
unfoldable pub aged_change : MissionChange → Aged
aged_change c = record {
  time = elim c.server_time [ none ↦ c.timestamp | some t ↦ some t ];
  order = some c.id;
}

unfoldable pub is_doomed_change :
    Missions → (cutoff now : ℕ) → (aged_rows kept_rows : List MissionChange) → MissionChange → Bool
is_doomed_change t cutoff now aged_rows kept_rows c =
    aged cutoff now (map aged_change aged_rows) (aged_change c)
    && not (is_kept_change t kept_rows c)

-- The loop of `_delete_in_batches`, whose WHERE clause holds the keep queries: each batch evaluates
-- them on the rows that are left, the boundary of `_aged` is that of all rows.
unfoldable pub delete_changes :
    Run
    → Missions
    → (cutoff now : ℕ) → (all_rows : List MissionChange) → (fuel n : ℕ) → List MissionChange
    → Purged MissionChange
unfolding round
delete_changes run t cutoff now all_rows zero n rows = record {
  rows = rows;
  total = 0;
  steps = [];
  complete = false;
}
delete_changes run t cutoff now all_rows (suc fuel) n rows =
    let doomed = is_doomed_change t cutoff now all_rows rows in
    let batch = take batch_size (filter doomed rows) in
    round (λ (c : MissionChange). c.id) doomed no_files run.commits run.late n batch rows
      (delete_changes run t cutoff now all_rows fuel (suc n)
        (delete_ids (λ (c : MissionChange). c.id) (map (λ (c : MissionChange). c.id) batch) rows))

-- `_purge_mission_changes`; more batches than there are rows are never made.
unfoldable pub purge_mission_changes :
    Run → Missions → (cutoff now : ℕ) → List MissionChange → Purged MissionChange
purge_mission_changes run t cutoff now changes =
    delete_changes run t cutoff now changes (suc (length changes)) 0 changes
