-- ===== src/Stats.antt =====
-- server/stats.rs: when the server was started. A `DateTime<Utc>` is a number of nanoseconds since
-- 1970, and the current time is an argument.
pub mod Uptime
pub mod Tests
use lurk.Error.{assert, expect, panic, and_then, ok, Result}
use lurk.Common.{ℕ, ◌-◌, ◌*◌, ◌/◌, ◌≡◌, Bool, true, false, not, Option, some, leb}

-- What the code uses of chrono: a time in whole milliseconds, and back.
pub record Chrono : Type 0 where
  pub timestamp_millis : ℕ → ℕ
  pub from_timestamp_millis : ℕ → Option ℕ
  pub epoch_millis : timestamp_millis 0 ≡ 0
  pub whole_millis :
      (time : ℕ) → from_timestamp_millis (timestamp_millis time) ≡ some (time / 1000000 * 1000000)

pub record LurkServerStats : Type 0 where
  pub is_started : Bool
  pub started_ts_millis : ℕ

unfoldable pub new_stats : LurkServerStats
new_stats = record { is_started = false; started_ts_millis = 0 }

unfoldable pub is_server_started : LurkServerStats → Bool
is_server_started stats = stats.is_started

-- The two stores of `on_server_started`, which are atomic each.
abbrev pub store_is_started : LurkServerStats → LurkServerStats
store_is_started stats = record stats { is_started = true }

abbrev pub store_started_ts_millis : ℕ → LurkServerStats → LurkServerStats
store_started_ts_millis millis stats = record stats { started_ts_millis = millis }

module _ (chrono : Chrono) where
  unfoldable pub on_server_started : ℕ → LurkServerStats → Result LurkServerStats
  on_server_started current_time stats = and_then (assert (not stats.is_started)) λ _.
      ok (store_started_ts_millis (chrono.timestamp_millis current_time) (store_is_started stats))

  unfoldable pub get_started_utc_timestamp : LurkServerStats → Result ℕ
  get_started_utc_timestamp stats =
      and_then (assert stats.is_started)
        λ _. expect (chrono.from_timestamp_millis stats.started_ts_millis)

  unfoldable pub get_uptime : ℕ → LurkServerStats → Result ℕ
  unfolding get_started_utc_timestamp
  get_uptime current_ts stats = and_then (assert stats.is_started) λ _.
      and_then (get_started_utc_timestamp stats) λ started_ts.
        and_then (assert (leb started_ts current_ts)) λ _. ok (current_ts - started_ts)
