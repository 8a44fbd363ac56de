-- ===== src/Api/Healthcheck.antt =====
-- What the endpoint answers.
use text.Mathlib.TextEquality.{eq_iff}
use lurk.Stats.Uptime.{
  get_uptime_clock_back, get_uptime_exact, get_started_utc_timestamp_epoch, get_uptime_epoch,
  get_started_utc_timestamp-on_server_started, is_server_started-on_server_started,
}
use lurk.Error.{panic, io_error, failed, ok, done, IoResult, ErrorKind}
use lurk.Address.{SocketAddr}
use lurk.Api.{serialize_as_body_chunk, String, call, LurkNodeStatus, Response, run_endpoint}
use lurk.Stats.{
  store_is_started, on_server_started, is_server_started, LurkServerStats, new_stats, Chrono,
}
use lurk.Common.{
  ap, ◌∷◌, [], none, ◌++◌, ◌≢◌, map, Option, some, List, ℕ, ◌≡◌, refl, ◌+◌, ◌*◌, ◌/◌, ◌<◌, arith,
}

abbrev pub healthy : List ℕ → Response
healthy body = record { status = 200; content_type = some "application/json"; body = body }

abbrev pub not_implemented : Response
not_implemented = record { status = 501; content_type = none; body = [] }

module _ (chrono : Chrono) (to_string : LurkNodeStatus → Option (List ℕ)) where
  -- The answer with an uptime and a start.
  abbrev pub reports : Option ℕ → Option ℕ → Response
  reports uptime started = healthy (
      serialize_as_body_chunk chrono to_string
        (record { uptime_secs = uptime; started_utc_ts = started }))

  -- Before the start of the server the health check is answered with status 200 and neither uptime
  -- nor start time, whatever happens meanwhile.
  pub call_before_start :
      (now : ℕ) (later : LurkServerStats)
      → call chrono to_string now new_stats later "/healthcheck" ≡ ok (reports none none)
  unfolding call new_stats is_server_started
  call_before_start now later = refl

  -- After a start, while the clock has not gone back behind the millisecond of the start, the health
  -- check is answered with status 200, the start in whole milliseconds, and the time since then.
  pub call_after_start :
      (started uptime : ℕ) (stats : LurkServerStats)
      → on_server_started chrono started new_stats ≡ ok stats
      → call chrono to_string (started / 1000000 * 1000000 + uptime) stats stats "/healthcheck"
        ≡ ok (reports (some uptime) (some (started / 1000000 * 1000000)))
  unfolding call
  call_after_start started uptime stats start = rw (
    is_server_started-on_server_started chrono started 0 new_stats stats start,
    get_uptime_exact chrono started uptime new_stats stats start,
    get_started_utc_timestamp-on_server_started chrono started 0 new_stats stats start,
  )

  -- After a start, a health check whose clock is behind the millisecond of the start panics.
  pub call_clock_back :
      (started now : ℕ) (stats later : LurkServerStats)
      → on_server_started chrono started new_stats ≡ ok stats
      → now < started / 1000000 * 1000000
      → call chrono to_string now stats later "/healthcheck" ≡ panic
  unfolding call
  call_clock_back started now stats later start h = rw (
    is_server_started-on_server_started chrono started now new_stats stats start,
    get_uptime_clock_back chrono started now new_stats stats start h,
  )

  -- Every other path is answered with status 501 and an empty body, in every state of the server.
  pub call_other :
      (now : ℕ) (stats later : LurkServerStats) (path : String)
      → path ≢ "/healthcheck"
      → call chrono to_string now stats later path ≡ ok not_implemented
  unfolding call
  call_other now stats later path h = ground (arith, eq_iff path "/healthcheck")

  -- A health check that loads the start between the two stores of a start reports the time since 1970.
  pub call_during_start :
      (now : ℕ)
      → call chrono to_string now
          (store_is_started new_stats)
          (store_is_started new_stats)
          "/healthcheck"
        ≡ ok (reports (some now) (some 0))
  unfolding call new_stats is_server_started
  call_during_start now = rw (get_uptime_epoch chrono now, get_started_utc_timestamp_epoch chrono)

  -- Where the second store comes between its two loads, it reports the time since 1970 and the start.
  pub call_across_start :
      (now started : ℕ) (stats : LurkServerStats)
      → on_server_started chrono started new_stats ≡ ok stats
      → call chrono to_string now (store_is_started new_stats) stats "/healthcheck"
        ≡ ok (reports (some now) (some (started / 1000000 * 1000000)))
  unfolding call new_stats is_server_started
  call_across_start now started stats start = rw (
    get_uptime_epoch chrono now,
    get_started_utc_timestamp-on_server_started chrono started now new_stats stats start,
  )

-- One failed `accept` ends the endpoint with its error, whatever is accepted after it: just the
-- clients before it are served.
pub run_endpoint-append :
    (clients : List SocketAddr) (kind : ErrorKind) (later : List (IoResult SocketAddr))
    → run_endpoint (done tt) (map done clients ++ failed kind ∷ later)
      ≡ (some (io_error kind), clients)
unfolding run_endpoint
run_endpoint-append [] kind later = refl
run_endpoint-append (c ∷ clients) kind later =
    ap (λ p. (p.0, c ∷ p.1)) (run_endpoint-append clients kind later)
