-- ===== src/Stats/Uptime.antt =====
-- The uptime after a start.
use lurk.Error.{panic, ok}
use lurk.Stats.{
  store_is_started, new_stats, is_server_started, get_started_utc_timestamp, get_uptime,
  LurkServerStats, on_server_started, Chrono,
}
use lurk.Common.{subst, some, ◌-◌, true, ℕ, ◌≡◌, ◌+◌, ◌*◌, ◌/◌, ◌<◌, ◌≤◌, arith}

module _ (chrono : Chrono) (started now : ℕ) (stats stats' : LurkServerStats)
    (start : on_server_started chrono started stats ≡ ok stats') where
  started_stats :
      record { is_started = true; started_ts_millis = chrono.timestamp_millis started } ≡ stats'
  unfolding on_server_started
  started_stats = ground arith

  -- After a start, while the clock has not gone back behind it, the uptime is given, and it is the
  -- time since the start, less than a millisecond too long.
  pub get_uptime-on_server_started :
      started ≤ now
      → (uptime : ℕ) × (get_uptime chrono now stats' ≡ ok uptime)
        × (now ≤ started + uptime)
        × (started + uptime < now + 1000000)
  unfolding get_uptime
  get_uptime-on_server_started h =
      rw (← started_stats, chrono.whole_millis started)
        (now - started / 1000000 * 1000000, ground arith, omega arith, omega arith)

  -- The uptime counts from the millisecond of the start.
  pub get_uptime_exact : get_uptime chrono (started / 1000000 * 1000000 + now) stats' ≡ ok now
  unfolding get_uptime
  get_uptime_exact = rw (← started_stats, chrono.whole_millis started) (ground arith)

  pub get_started_utc_timestamp-on_server_started :
      get_started_utc_timestamp chrono stats' ≡ ok (started / 1000000 * 1000000)
  unfolding get_started_utc_timestamp
  get_started_utc_timestamp-on_server_started = rw (← started_stats, chrono.whole_millis started)

  -- Another first store changes nothing.
  pub store_is_started-on_server_started : store_is_started stats' ≡ stats'
  store_is_started-on_server_started = rw (← started_stats)

  pub is_server_started-on_server_started : is_server_started stats' ≡ true
  unfolding is_server_started
  is_server_started-on_server_started = rw (← started_stats)

  -- After a start, the uptime panics if the clock has gone back behind the millisecond of the start.
  pub get_uptime_clock_back :
      now < started / 1000000 * 1000000 → get_uptime chrono now stats' ≡ panic
  unfolding get_uptime
  get_uptime_clock_back h = rw (← started_stats, chrono.whole_millis started) (ground arith)

-- Between the two stores of a start, the start is in 1970.
module _ (chrono : Chrono) where
  epoch : chrono.from_timestamp_millis 0 ≡ some 0
  epoch =
      subst (λ t. chrono.from_timestamp_millis t ≡ some 0) chrono.epoch_millis
        (chrono.whole_millis 0)

  pub get_started_utc_timestamp_epoch :
      get_started_utc_timestamp chrono (store_is_started new_stats) ≡ ok 0
  unfolding get_started_utc_timestamp new_stats
  get_started_utc_timestamp_epoch = rw epoch

  pub get_uptime_epoch : (now : ℕ) → get_uptime chrono now (store_is_started new_stats) ≡ ok now
  unfolding get_uptime new_stats
  get_uptime_epoch now = rw get_started_utc_timestamp_epoch (ground arith)

-- The server is started once: a start of stats that were started panics, whatever the time.
on_server_started_twice :
    (chrono : Chrono) (first second : ℕ) (stats stats' : LurkServerStats)
    → on_server_started chrono first stats ≡ ok stats'
    → on_server_started chrono second stats' ≡ panic
unfolding on_server_started
on_server_started_twice chrono first second stats stats' e = ground arith
