-- ===== src/Main/Replies.antt =====
-- The answers of the endpoint, by what their requests have seen of the stats.
use lurk.Api.Healthcheck.{
  call_clock_back, call_after_start, call_across_start, call_other, call_during_start,
  call_before_start, not_implemented, reports,
}
use lurk.Api.{Response}
use lurk.Stats.{store_is_started, new_stats, on_server_started, LurkServerStats}
use lurk.Error.{ok-injective, panic, ok, Result}
use lurk.Common.{
  ◌∙◌, arith, sym, ◌-◌, inr, leb, inl, Bool-cases, ◌≢◌, ◌<◌, ◌+◌, ◌*◌, ◌/◌, ◌⊎◌, some, none, ◌≡◌, ℕ,
  List, Option,
}
use lurk.Api.{call, LurkNodeStatus}
use lurk.Server.Steps.{Machine}
use text.Mathlib.TextEquality.{eq_iff}
use text.Mathlib.Text.{◌==◌ as str_eq}
use lurk.Main.{String, Answer, Pending, Stage, serving, starting_up, unbound}

abbrev pub IsBefore : Stage → Type 0
IsBefore unbound = Unit
IsBefore starting_up = Unit
IsBefore _ = ⊥

clock_cases : (start now : ℕ) → ((uptime : ℕ) × (now ≡ start + uptime)) ⊎ (now < start)
clock_cases start now = elim (Bool-cases (leb start now)) [
  | inl e ↦ inl (now - start, ground arith)
  | inr e ↦ inr (ground arith)
]

-- The three ways in which a request that waits has seen the stats.
abbrev pub Unseen : Pending → Type 0
Unseen r = (r.seen ≡ new_stats) × IsBefore r.asked

abbrev pub HalfSeen : Pending → Type 0
HalfSeen r = (r.seen ≡ store_is_started new_stats) × (r.asked ≡ starting_up)

is_health_path : (path : String) → (path ≡ "/healthcheck") ⊎ (path ≢ "/healthcheck")
is_health_path path = elim (Bool-cases (str_eq path "/healthcheck")) [
  | inl e ↦ inl ((eq_iff path "/healthcheck").0 e)
  | inr e ↦ inr λ p. cc (e, (eq_iff path "/healthcheck").1 p)
]

module _ (machine : Machine) where
  abbrev pub IsStart : ℕ → LurkServerStats → Type 0
  IsStart started stats = on_server_started machine.chrono started new_stats ≡ ok stats

  abbrev pub Seen : ℕ → Pending → Type 0
  Seen started r = IsStart started r.seen × (r.asked ≡ serving)

module _ (machine : Machine) (to_string : LurkNodeStatus → Option (List ℕ)) where
  abbrev pub healthcheck : Option ℕ → Option ℕ → Result Response
  healthcheck uptime started = ok (reports machine.chrono to_string uptime started)

  abbrev pub answer_to : Pending → LurkServerStats → Answer
  answer_to request later = record {
    request = request;
    outcome = call machine.chrono to_string request.now request.seen later request.uri_path;
  }

  -- What an answer tells of a server that was started at a time. While the server starts, the answer
  -- may be that there is no start, or that there is one in 1970, also beside the true start.
  pub data Tells (started : ℕ) (a : Answer) : Type 0 where
    no_start :
        a.request.uri_path ≡ "/healthcheck"
        → IsBefore a.request.asked
        → a.outcome ≡ healthcheck none none
        → Tells started a
    start_in_1970 :
        a.request.uri_path ≡ "/healthcheck"
        → a.request.asked ≡ starting_up
        → a.outcome ≡ healthcheck (some a.request.now) (some 0)
        → Tells started a
    uptime_since_1970 :
        a.request.uri_path ≡ "/healthcheck"
        → a.request.asked ≡ starting_up
        → a.outcome ≡ healthcheck (some a.request.now) (some (started / 1000000 * 1000000))
        → Tells started a
    uptime_since_start :
        (uptime : ℕ)
        → a.request.uri_path ≡ "/healthcheck"
        → a.request.asked ≡ serving
        → a.request.now ≡ started / 1000000 * 1000000 + uptime
        → a.outcome ≡ healthcheck (some uptime) (some (started / 1000000 * 1000000))
        → Tells started a
    clock_is_back :
        a.request.uri_path ≡ "/healthcheck"
        → a.request.asked ≡ serving
        → a.request.now < started / 1000000 * 1000000
        → a.outcome ≡ panic
        → Tells started a
    elsewhere :
        a.request.uri_path ≢ "/healthcheck" → a.outcome ≡ ok not_implemented → Tells started a

  pub Unseen-Tells :
      (started : ℕ) (r : Pending) (later : LurkServerStats)
      → Unseen r
      → Tells started (answer_to r later)
  Unseen-Tells started r later (seen, before) = elim (is_health_path r.uri_path) [
    | inl e ↦
        no_start e before (rw (seen, e) (call_before_start machine.chrono to_string r.now later))
    | inr ne ↦ elsewhere ne (call_other machine.chrono to_string r.now r.seen later r.uri_path ne)
  ]

  pub HalfSeen-Tells :
      (started : ℕ) (r : Pending) (later : LurkServerStats)
      → HalfSeen r
      → (later ≡ store_is_started new_stats) ⊎ IsStart machine started later
      → Tells started (answer_to r later)
  HalfSeen-Tells started r later (seen, asked) view = elim (is_health_path r.uri_path) [
    | inl e ↦ elim view [
      | inl half ↦
          start_in_1970 e asked
            (rw (seen, e, half) (call_during_start machine.chrono to_string r.now))
      | inr start ↦
          uptime_since_1970 e asked
            (rw (seen, e) (call_across_start machine.chrono to_string r.now started later start))
    ]
    | inr ne ↦ elsewhere ne (call_other machine.chrono to_string r.now r.seen later r.uri_path ne)
  ]

  pub Seen-Tells :
      (started : ℕ) (r : Pending) (later : LurkServerStats)
      → Seen machine started r
      → IsStart machine started later
      → Tells started (answer_to r later)
  Seen-Tells started r later (seen, asked) view = elim (is_health_path r.uri_path) [
    | inl e ↦ elim (clock_cases (started / 1000000 * 1000000) r.now) [
      | inl (uptime, now) ↦ uptime_since_start uptime e asked now (
          rw (now, e, ok-injective (sym view ∙ seen))
            (call_after_start machine.chrono to_string started uptime r.seen seen))
      | inr behind ↦
          clock_is_back e asked behind
            (rw e (call_clock_back machine.chrono to_string started r.now r.seen later seen behind))
    ]
    | inr ne ↦ elsewhere ne (call_other machine.chrono to_string r.now r.seen later r.uri_path ne)
  ]
