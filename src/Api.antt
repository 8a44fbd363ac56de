-- ===== src/Api.antt =====
-- api/mod.rs: the HTTP endpoint that reports the state of the server.
pub mod Healthcheck
pub mod Tests
use lurk.Address.{SocketAddr}
use lurk.Error.{io_error, ok, failed, done, and_then, Error, Result, IoResult}
use lurk.Stats.{get_started_utc_timestamp, get_uptime, is_server_started, LurkServerStats, Chrono}
use text.Mathlib.Text.{◌==◌ as str_eq}
use Prim.Native.String.{String}
use lurk.Common.{ℕ, List, [], ◌∷◌, Option, none, some, if◌then◌else◌}

-- `Node` is `Arc<LurkServer>`: what the service sees of its node, when it is called, are the stats.
pub record LurkHttpService (Node : Type 0) : Type 0 where
  pub node : Node

pub record LurkHttpEndpoint (Node : Type 0) : Type 0 where
  pub addr : SocketAddr
  pub service : LurkHttpService Node

unfoldable pub new_endpoint : {Node : Type 0} → SocketAddr → Node → LurkHttpEndpoint Node
new_endpoint addr node = record { addr = addr; service = record { node = node } }

-- Times in nanoseconds; serialization makes seconds of the uptime.
pub record LurkNodeStatus : Type 0 where
  pub uptime_secs : Option ℕ
  pub started_utc_ts : Option ℕ

pub record Response : Type 0 where
  pub status : ℕ
  pub content_type : Option String
  pub body : List ℕ

abbrev status_ok : ℕ
status_ok = 200

abbrev status_not_implemented : ℕ
status_not_implemented = 501

module _ (chrono : Chrono) where
  -- `LurkNodeStatus::build`, at a current time. The start time is loaded twice: for the uptime, with
  -- the stats of the node as they are then, and again with the stats as they are `later`.
  unfoldable pub build_status : ℕ → LurkServerStats → LurkServerStats → Result LurkNodeStatus
  build_status now node_stats later =
      if is_server_started node_stats
      then (and_then (get_uptime chrono now node_stats) λ uptime.
          and_then (get_started_utc_timestamp chrono later)
            λ started. ok (record { uptime_secs = some uptime; started_utc_ts = some started }))
      else ok (record { uptime_secs = none; started_utc_ts = none })

  -- `to_string` is serde_json's; it may fail.
  module _ (to_string : LurkNodeStatus → Option (List ℕ)) where
    unfoldable pub serialize_as_body_chunk : LurkNodeStatus → List ℕ
    serialize_as_body_chunk node_status = elim (to_string node_status) [
      | none ↦ []
      | some bytes ↦ bytes
    ]

    unfoldable pub call : ℕ → LurkServerStats → LurkServerStats → String → Result Response
    unfolding build_status serialize_as_body_chunk
    call now node_stats later uri_path =
        if str_eq uri_path "/healthcheck"
        then (and_then (build_status now node_stats later) λ node_status. ok (record {
          status = status_ok;
          content_type = some "application/json";
          body = serialize_as_body_chunk node_status;
        }))
        else ok (record { status = status_not_implemented; content_type = none; body = [] })

-- `run`: what the endpoint's `accept` gave so far. The first error ends the endpoint with it; the
-- clients before are each served in a task. `none` is an endpoint that still runs.
unfoldable serve_clients : List (IoResult SocketAddr) → Option Error × List SocketAddr
serve_clients [] = (none, [])
serve_clients (done client_addr ∷ accepted) =
    let (end, served) = serve_clients accepted in (end, client_addr ∷ served)
serve_clients (failed kind ∷ accepted) = (some (io_error kind), [])

unfoldable pub run_endpoint :
    IoResult (Unit {0}) → List (IoResult SocketAddr) → Option Error × List SocketAddr
unfolding serve_clients
run_endpoint (failed kind) accepted = (some (io_error kind), [])
run_endpoint (done bound) accepted = serve_clients accepted
