-- ===== src/Retention/Job.antt =====
-- raven/retention.py: `apply_retention`, the scheduled job that purges every kind of data that has a
-- retention. A kind of data is its key and its purge; Retention.Types has several of these.
pub mod Outcomes
use c4raven_server.Prelude.{
  ℕ, ◌-◌, String, Bool, true, false, ◌&&◌, ◌||◌, not, Option, none, some, List, [], ◌∷◌, ◌++◌, ◌==◌,
  nat_eq, text_eq, if◌then◌else◌, contains, is_empty,
}
use c4raven_server.Retention.Settings.{Setting, setting_of, keep_seconds, put_setting, row_or_new}

-- How a purge ends: with the number deleted, or by an exception with its text.
pub data Outcome : Type 0 where
  deleted : ℕ → Outcome
  raised : String → Outcome

-- One of DATA_TYPES over the state `S` of the tables: `purge cutoff now`.
pub record DataType (S : Type 0) : Type 0 where
  pub key : String
  pub purge : (cutoff now : ℕ) → S → S × Outcome

abbrev pub deleted_of : Outcome → ℕ
deleted_of (deleted n) = n
deleted_of (raised error) = 0

abbrev pub error_of : Outcome → Option String
error_of (deleted n) = none
error_of (raised error) = some error

-- The settings table, the other tables, the dict of results, and the numbers of deleted audit
-- events for which an audit event was recorded.
pub record Job (S : Type 0) : Type 0 where
  pub settings : List Setting
  pub data_ : S
  pub results : List (String × ℕ)
  pub audited : List ℕ

-- `RetentionSetting.last_purge_…`; `saved` is whether the commit succeeds.
unfoldable pub note_purge :
    (saved : Bool) → (now : ℕ) → String → Outcome → List Setting → List Setting
note_purge saved now key o rows =
    let row = row_or_new (setting_of rows key) key in
    let noted = record row {
      last_purge_at = some now;
      last_purge_count = some (deleted_of o);
      last_purge_error = error_of o;
    } in
    if saved then put_setting noted rows else rows

module _ {S : Type 0} where
  -- `only and data_type.key not in only`
  unfoldable pub is_selected : List String → DataType S → Bool
  is_selected only t = is_empty only || contains only t.key

module _ {S : Type 0} (saved : String → Bool) (now : ℕ) where
  finish : DataType S → S × Outcome → Job S → Job S
  finish t (s, o) j = record {
    settings = note_purge (saved t.key) now t.key o j.settings;
    data_ = s;
    results = j.results ++ (t.key, deleted_of o) ∷ [];
    audited =
        if not (deleted_of o == 0) && t.key == "audit_events"
        then j.audited ++ deleted_of o ∷ []
        else j.audited;
  }

  -- `keep` is the retention of the type
  purge_type : Option ℕ → DataType S → Job S → Job S
  purge_type none t j = j
  purge_type (some seconds) t j = finish t (t.purge (now - seconds) now j.data_) j

  -- the loop over DATA_TYPES
  unfoldable pub purge_types : List String → List (DataType S) → Job S → Job S
  unfolding purge_type finish
  purge_types only [] j = j
  purge_types only (t ∷ ts) j =
      let next = purge_type (keep_seconds j.settings t.key) t j in
      let purged = purge_types only ts next in
      let skipped = purge_types only ts j in if is_selected only t then purged else skipped

  -- `apply_retention`; `settle` is what settle_live_deliveries does to the tables (nothing, if it
  -- raises), `only` the types asked for, all of them if it is empty.
  unfoldable pub apply_retention :
      (settle : S → S) → List String → List (DataType S) → List Setting → S → Job S
  apply_retention settle only types settings s =
      let settled = if is_empty only || contains only "offline_chat" then settle s else s in
      purge_types only types
        (record { settings = settings; data_ = settled; results = []; audited = [] })
