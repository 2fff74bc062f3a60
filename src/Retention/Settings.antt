-- ===== src/Retention/Settings.antt =====
-- raven/retention.py: the retention_settings table. A type without a row, or whose row is only a
-- record of its last purge, has its default.
pub mod Updates
use c4raven_server.Prelude.{
  ℕ, ◌+◌, ◌*◌, ◌/◌, ◌%◌, String, Bool, true, false, ◌&&◌, ◌||◌, not, Option, none, some, List, [],
  ◌∷◌, ◌++◌, ◌==◌, nat_eq, text_eq, option_eq, if◌then◌else◌, ltb, find?, any,
}
use c4raven_server.Retention.{min_keep_seconds, max_keep_seconds}

-- One row of retention_settings.
pub record Setting : Type 0 where
  pub data_type : String
  pub keep_seconds : Option ℕ
  pub customized : Bool
  pub updated_at : Option ℕ
  pub updated_by : Option String
  pub last_purge_at : Option ℕ
  pub last_purge_count : Option ℕ
  pub last_purge_error : Option String

-- `DATA_TYPES_BY_KEY[key].default_seconds`
unfoldable pub default_seconds : String → Option ℕ
default_seconds key = if key == "offline_chat" then some (48 * 3600) else none

-- `session.get(RetentionSetting, key)`
unfoldable pub setting_of : List Setting → String → Option Setting
setting_of rows key = find? (λ (s : Setting). s.data_type == key) rows

unfoldable pub keep_of : Option Setting → String → Option ℕ
keep_of none key = default_seconds key
keep_of (some s) key = if s.customized then s.keep_seconds else default_seconds key

unfoldable pub keep_seconds : List Setting → String → Option ℕ
keep_seconds rows key = keep_of (setting_of rows key) key

-- A JSON value as far as `validate_keep_seconds` looks at it; `below n` is the integer -(n + 1).
pub data Json : Type 0 where
  null other : Json
  boolean : Bool → Json
  integer below : ℕ → Json

pub data Invalid : Type 0 where
  not_whole out_of_range : Invalid

-- (seconds or None, error message or None)
unfoldable pub validate_keep_seconds : Json → Option ℕ × Option Invalid
validate_keep_seconds null = (none, none)
validate_keep_seconds other = (none, some not_whole)
validate_keep_seconds (boolean b) = (none, some not_whole)
validate_keep_seconds (below n) = (none, some out_of_range)
validate_keep_seconds (integer n) =
    if ltb n min_keep_seconds || ltb max_keep_seconds n
    then (none, some out_of_range)
    else (some n, none)

abbrev pub new_setting : String → Setting
new_setting key = record {
  data_type = key;
  keep_seconds = none;
  customized = false;
  updated_at = none;
  updated_by = none;
  last_purge_at = none;
  last_purge_count = none;
  last_purge_error = none;
}

-- Writes the row of the type, or adds it.
unfoldable pub put_setting : Setting → List Setting → List Setting
put_setting s [] = s ∷ []
put_setting s (x ∷ xs) =
    let rest = put_setting s xs in if x.data_type == s.data_type then s ∷ xs else x ∷ rest

unfoldable pub row_or_new : Option Setting → String → Setting
row_or_new none key = new_setting key
row_or_new (some s) key = s

pub record Change : Type 0 where
  pub key : String
  pub old : Option ℕ
  pub new : Option ℕ

-- one turn of the loop of `update_settings`
unfoldable pub update_setting :
    (now : ℕ)
    → (actor : Option String) → String
    → Option ℕ
    → List Setting × List Change
    → List Setting × List Change
unfolding row_or_new
update_setting now actor key seconds (rows, changed) =
    let old = keep_seconds rows key in
    let row = row_or_new (setting_of rows key) key in
    let written = record row {
      keep_seconds = seconds;
      customized = true;
      updated_at = some now;
      updated_by = actor;
    } in
    if row.customized && row.keep_seconds == seconds then (rows, changed) else (
      put_setting written rows,
      if old == seconds
          then changed
          else changed ++ record { key = key; old = old; new = seconds } ∷ [],
    )

-- the loop over the changes, a dict from types to seconds
unfoldable pub update_settings :
    (now : ℕ)
    → (actor : Option String) → List (String × Option ℕ)
    → List Setting × List Change
    → List Setting × List Change
update_settings now actor [] s = s
update_settings now actor ((key, seconds) ∷ changes) s =
    update_settings now actor changes (update_setting now actor key seconds s)

-- What `describe_seconds` says: a number of the largest unit that divides the seconds.
pub data Description : Type 0 where
  forever : Description
  days hours seconds_ : ℕ → Description

unfoldable pub describe_seconds : Option ℕ → Description
describe_seconds none = forever
describe_seconds (some s) =
    if s % 86400 == 0
    then days (s / 86400)
    else if s % 3600 == 0
    then hours (s / 3600)
    else seconds_ s
