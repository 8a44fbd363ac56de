-- ===== src/Stats/Tests.antt =====
-- The theorems on the stats at concrete times.
use lurk.Error.{ok}
use lurk.Common.{refl, ◌+◌, ◌*◌, some, ◌≡◌, arith, true, ◌/◌, ℕ, ◌<◌, ◌≤◌}
use lurk.Stats.{new_stats, get_uptime, on_server_started, LurkServerStats, Chrono}
use lurk.Stats.Uptime.{get_uptime-on_server_started}

abbrev pub chrono : Chrono
chrono = record {
  timestamp_millis = λ time. time / 1000000;
  from_timestamp_millis = λ millis. some (millis * 1000000);
  epoch_millis = refl;
  whole_millis = λ time. refl;
}

abbrev pub started_stats : LurkServerStats
started_stats = record { is_started = true; started_ts_millis = 7 }

pub started_at : on_server_started chrono 7000009 new_stats ≡ ok started_stats
unfolding on_server_started new_stats
started_at = refl

not_before : 7000009 ≤ 8000000
not_before = omega arith

before : 6999999 < 7000009 / 1000000 * 1000000
before = omega arith

get_uptime-on_server_started_example :
    (uptime : ℕ) × (get_uptime chrono 8000000 started_stats ≡ ok uptime)
    × (8000000 ≤ 7000009 + uptime)
    × (7000009 + uptime < 8000000 + 1000000)
get_uptime-on_server_started_example =
    get_uptime-on_server_started chrono 7000009 8000000 new_stats started_stats started_at
      not_before
