-- ===== src/Retention/Content/Newest.antt =====
-- What `_purge_mission_changes` keeps of each item that is still in a mission, through all the batches
-- of `_delete_in_batches`.
use c4raven_server.Prelude.{
  [], ◌∷◌, is_empty, ◌<◌, length, ℕ, zero, suc, String, ◌≡◌, refl, sym, ◌∙◌, ap₂, Bool, true, false,
  ◌&&◌, not, Option, some, List, map, arith, ◌==◌, nat_eq, text_eq, option_eq, filter, any,
  any_congr, any-filter, any_implies, contains, ltb, ==→≡, take, length,
}
use c4raven_server.Retention.{batch_size}
use c4raven_server.Retention.Purge.{delete_ids, Purged}
use c4raven_server.Retention.Purge.Deleting.{HasDistinctKeys}
use c4raven_server.Retention.Purge.Batches.{
  round_cases, left-kept, left-HasDistinctKeys, length-left,
}
use c4raven_server.Retention.Types.{Run, no_files}
use c4raven_server.Retention.Content.{
  MissionChange, Missions, is_added, in_mission_content, in_mission_uids, is_latest, is_kept_change,
  is_doomed_change, delete_changes, purge_mission_changes,
}
use c4raven_server.Retention.Content.Since.{has_since, batch-has_since}

-- The change added this item to this mission, which still has it.
abbrev pub adds_content : Missions → (mission content : String) → MissionChange → Bool
adds_content t mission content c =
    is_added c
    && in_mission_content t c
    && c.mission_name == some mission
    && c.content_uid == some content

abbrev pub adds_uid : Missions → (mission uid : String) → MissionChange → Bool
adds_uid t mission uid c =
    is_added c && in_mission_uids t c && c.mission_name == some mission && c.mission_uid == some uid

regroup : (a b c d e : Bool) → (a && b && c && d && e) ≡ ((a && b && c && d) && e)
regroup a b c d e = ground arith

-- The newest of the changes of one mission and item is the latest that the keep query finds.
newest-is_latest :
    (joined : MissionChange → Bool) (item : MissionChange → Option String) (mission name : String)
    (rows : List MissionChange) (c : MissionChange)
    → (is_added c && joined c && c.mission_name == some mission && item c == some name) ≡ true
    → any
        (λ (d : MissionChange).
          (is_added d && joined d && d.mission_name == some mission && item d == some name)
          && ltb c.id d.id)
        rows
      ≡ false
    → is_latest joined item rows c ≡ true
unfolding is_latest
newest-is_latest joined item mission name rows c k h =
    let m : c.mission_name ≡ some mission = ==→≡ c.mission_name (some mission) (ground arith) in
    let i : item c ≡ some name = ==→≡ (item c) (some name) (ground arith) in
    let none_later =
      any_congr
        (λ (d : MissionChange).
          is_added d
          && joined d
          && d.mission_name == c.mission_name
          && item d == item c
          && ltb c.id d.id)
        (λ (d : MissionChange).
          (is_added d && joined d && d.mission_name == some mission && item d == some name)
          && ltb c.id d.id)
        (λ d.
          ap₂ (λ x y. is_added d && joined d && d.mission_name == x && item d == y && ltb c.id d.id)
            m i
          ∙ regroup (is_added d) (joined d) _ _ (ltb c.id d.id))
        rows in
    rw (none_later, h) (ground arith)

-- The test of a mission's changes for one item, by either of the two keep queries.
module _ (t : Missions) (cutoff now : ℕ) (all_rows rows : List MissionChange)
    (mission name : String) (c : MissionChange) where
  content_spared :
      adds_content t mission name c ≡ true
      → any (λ (d : MissionChange). adds_content t mission name d && ltb c.id d.id) rows ≡ false
      → is_doomed_change t cutoff now all_rows rows c ≡ false
  unfolding is_doomed_change is_kept_change
  content_spared k h = ground (
    arith,
    newest-is_latest (in_mission_content t) (λ (d : MissionChange). d.content_uid) mission name rows
        c k h,
  )

  uid_spared :
      adds_uid t mission name c ≡ true
      → any (λ (d : MissionChange). adds_uid t mission name d && ltb c.id d.id) rows ≡ false
      → is_doomed_change t cutoff now all_rows rows c ≡ false
  unfolding is_doomed_change is_kept_change
  uid_spared k h = ground (
    arith,
    newest-is_latest (in_mission_uids t) (λ (d : MissionChange). d.mission_uid) mission name rows c
        k h,
  )

abbrev key : MissionChange → ℕ
key c = c.id

module _ (p : MissionChange → Bool) (run : Run) (t : Missions) (cutoff now : ℕ)
    (all_rows : List MissionChange) where
  -- Whatever the rows of a batch are, it deletes none that is the newest to pass the test.
  abbrev IsSpared : Type 0
  IsSpared =
      (rows : List MissionChange) (c : MissionChange)
      → p c ≡ true
      → any (λ (d : MissionChange). p d && ltb c.id d.id) rows ≡ false
      → is_doomed_change t cutoff now all_rows rows c ≡ false

  delete_changes-has_since :
      IsSpared
      → (fuel n k : ℕ) (rows : List MissionChange) → HasDistinctKeys key rows
      → has_since p k rows ≡ true
      → has_since p k (delete_changes run t cutoff now all_rows fuel n rows).rows ≡ true
  unfolding delete_changes
  delete_changes-has_since spared zero n k rows d h = h
  delete_changes-has_since spared (suc fuel) n k rows d h =
      let doomed = is_doomed_change t cutoff now all_rows rows in
      let left = delete_ids key (map key (take batch_size (filter doomed rows))) rows in
      let there : has_since p k left ≡ true =
        batch-has_since p doomed rows left k (spared rows)
          (left-kept key doomed no_files run.commits run.late rows d) h in
      round_cases key doomed no_files run.commits run.late
        (λ (q : Purged MissionChange). has_since p k q.rows ≡ true) n
        (take batch_size (filter doomed rows)) rows _ (λ a. h) (λ a. h) (λ a b steps. there)
        (λ a b steps.
          delete_changes-has_since spared fuel (suc n) k left
            (left-HasDistinctKeys key doomed no_files run.commits run.late rows d) there)

  -- What is there after the batches was there before them.
  delete_changes_none_new :
      (fuel n k : ℕ) (rows : List MissionChange)
      → has_since p k (delete_changes run t cutoff now all_rows fuel n rows).rows ≡ true
      → has_since p k rows ≡ true
  unfolding delete_changes
  delete_changes_none_new zero n k rows h = h
  delete_changes_none_new (suc fuel) n k rows h =
      let doomed = is_doomed_change t cutoff now all_rows rows in
      let ids = map key (take batch_size (filter doomed rows)) in
      round_cases key doomed no_files run.commits run.late
        (λ (q : Purged MissionChange). has_since p k q.rows ≡ true → has_since p k rows ≡ true) n
        (take batch_size (filter doomed rows)) rows _ (λ a e. e) (λ a e. e)
        (λ a b steps e. subset ids rows k e)
        (λ a b steps e.
          subset ids rows k (delete_changes_none_new fuel (suc n) k (delete_ids key ids rows) e))
        h
    where
      subset :
          (ids : List ℕ) (rows : List MissionChange) (k : ℕ)
          → has_since p k (delete_ids key ids rows) ≡ true
          → has_since p k rows ≡ true
      subset ids rows k e =
          unfold delete_ids in
          (any_implies _ _ (λ c w. ground arith) rows
            (sym (any-filter _ (λ r. not (contains ids (key r))) rows) ∙ e))

same_test : (a b : Bool) → (a ≡ true → b ≡ true) → (b ≡ true → a ≡ true) → a ≡ b
same_test true b f g = sym (f refl)
same_test false true f g = g refl
same_test false false f g = refl

-- On rows with distinct ids, whatever commits fail and however far the purge comes: for each item that
-- a mission still has, as content or by its uid, and each id, the log has a change with this id or a
-- later one that added the item to the mission after the purge exactly when it had one before. So
-- the newest of these changes is still there.
pub purge_mission_changes_newest :
    (run : Run) (t : Missions) (cutoff now : ℕ) (changes : List MissionChange)
    → HasDistinctKeys key changes
    → (mission name : String) (k : ℕ)
    → let left = (purge_mission_changes run t cutoff now changes).rows in
      (has_since (adds_content t mission name) k left
        ≡ has_since (adds_content t mission name) k changes)
      × (has_since (adds_uid t mission name) k left ≡ has_since (adds_uid t mission name) k changes)
unfolding purge_mission_changes
purge_mission_changes_newest run t cutoff now changes d mission name k = (
  same (adds_content t mission name)
      (λ rows c. content_spared t cutoff now changes rows mission name c),
  same (adds_uid t mission name) (λ rows c. uid_spared t cutoff now changes rows mission name c),
)
  where
    same :
        (p : MissionChange → Bool)
        → IsSpared p run t cutoff now changes
        → has_since p k
            (delete_changes run t cutoff now changes (suc (length changes)) 0 changes).rows
          ≡ has_since p k changes
    same p spared =
        same_test _ _
          (delete_changes_none_new p run t cutoff now changes (suc (length changes)) 0 k changes)
          (delete_changes-has_since p run t cutoff now changes spared (suc (length changes)) 0 k
            changes d)

nonempty : {A : Type 0} (xs : List A) → is_empty xs ≡ false → 0 < length xs
nonempty [] h = cc
nonempty (x ∷ xs) h = omega arith

-- On rows with distinct ids and with every commit taken, the batches come to their end when more of
-- them are allowed than there are rows.
delete_changes_ends :
    (run : Run) (t : Missions) (cutoff now : ℕ) (all_rows : List MissionChange)
    → ((k : ℕ) → run.commits k ≡ true)
    → (fuel n : ℕ) (rows : List MissionChange) → HasDistinctKeys key rows
    → length rows < fuel
    → (delete_changes run t cutoff now all_rows fuel n rows).complete ≡ true
unfolding delete_changes
delete_changes_ends run t cutoff now all_rows ok zero n rows d enough = ground arith
delete_changes_ends run t cutoff now all_rows ok (suc fuel) n rows d enough =
    let doomed = is_doomed_change t cutoff now all_rows rows in
    let batch = take batch_size (filter doomed rows) in
    let shorter = length-left key doomed no_files run.commits run.late rows d in
    round_cases key doomed no_files run.commits run.late
      (λ (q : Purged MissionChange). q.complete ≡ true) n batch rows _ (λ a. refl)
      (λ a. cc (a, ok n)) (λ a b steps. refl)
      (λ a b steps.
        delete_changes_ends run t cutoff now all_rows ok fuel (suc n)
          (delete_ids key (map key batch) rows)
          (left-HasDistinctKeys key doomed no_files run.commits run.late rows d)
          (omega (arith, shorter, nonempty batch a, enough)))

-- On rows with distinct ids and with every commit taken, the purge comes to its end.
purge_mission_changes_ends :
    (run : Run) (t : Missions) (cutoff now : ℕ) (changes : List MissionChange)
    → ((k : ℕ) → run.commits k ≡ true)
    → HasDistinctKeys key changes
    → (purge_mission_changes run t cutoff now changes).complete ≡ true
unfolding purge_mission_changes
purge_mission_changes_ends run t cutoff now changes ok d =
    delete_changes_ends run t cutoff now changes ok (suc (length changes)) 0 changes d (omega arith)
