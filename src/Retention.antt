-- ===== src/Retention.antt =====
-- raven/retention.py: how long each kind of data is kept, and the job that deletes what is older.
-- Times are seconds since the year 1, the earliest datetime. Retention.Purge has the deletion of one
-- table's rows, Retention.Settings the retention_settings table.
pub mod Purge
pub mod Types
pub mod Content
pub mod Settings
pub mod Job
mod Examples
use c4raven_server.Prelude.{ℕ, ◌*◌}

abbrev pub batch_size : ℕ
batch_size = 1000

abbrev pub min_keep_seconds : ℕ
min_keep_seconds = 3600

abbrev pub max_keep_seconds : ℕ
max_keep_seconds = 3650 * 86400

-- 2000-01-01
abbrev pub earliest_plausible : ℕ
earliest_plausible = 730119 * 86400

-- one day
abbrev pub future_slack : ℕ
future_slack = 86400
