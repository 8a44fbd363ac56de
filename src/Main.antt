-- ===== src/Main.antt =====
-- main.rs: the server and the HTTP endpoint in one program. Both run in tasks, and the endpoint reads
-- the stats of the server while the server writes them.

pub mod Replies
pub mod Changes
pub mod Waiting
pub mod Health
mod Tests
use Prim.Native.String.{String}
use lurk.Address.{SocketAddr}
use lurk.Api.{call, new_endpoint, run_endpoint, LurkHttpEndpoint, LurkNodeStatus, Response}
use lurk.Common.{
  ◌++◌, ◌∷◌, ◌≡◌, ◌≢◌, [], if◌then◌else◌, Bool, List, Option, false, none, option_map, some, true,
  ℕ,
}
use lurk.Config.{http_endpoint_bind_addr, server_tcp_bind_addr, LurkConfig}
use lurk.Error.{and_then, expect, ok, IoResult, Result}
use lurk.Server.{LurkServer, get_stats}
use lurk.Server.Steps.{
  binding, initial, listening, peeking, returned, sleeping, starting, waiting, Machine, Node, Phase,
  Step,
}
use lurk.Stats.{store_is_started, LurkServerStats}

-- How far the server has come: before and after `bind`, behind `on_server_started`, and returned.
pub data Stage : Type 0 where
  unbound starting_up serving over : Stage

abbrev pub stage_of : Phase → Stage
stage_of binding = unbound
stage_of starting = starting_up
stage_of listening = serving
stage_of (peeking client) = serving
stage_of (sleeping millis) = serving
stage_of waiting = serving
stage_of (returned result) = over

-- `Arc<LurkServer>`: the program has one server, and each `Arc` points to it.
pub data ServerArc : Type 0 where
  server_arc : ServerArc

abbrev pub deref : Node → ServerArc → LurkServer
deref node _ = node.server

-- The task that runs the endpoint: what its `bind` gave, and what it has accepted.
pub record EndpointTask : Type 0 where
  pub endpoint : LurkHttpEndpoint ServerArc
  pub bound : Option (IoResult (Unit {0}))
  pub accepted : List (IoResult SocketAddr)

-- A request that is being served: the time and the stats that it has loaded, and when this was.
pub record Pending : Type 0 where
  pub now : ℕ
  pub uri_path : String
  pub asked : Stage
  pub seen : LurkServerStats

pub record Answer : Type 0 where
  pub request : Pending
  pub outcome : Result Response

-- `stored` says that the first store of `on_server_started` is done.
pub record Program : Type 0 where
  pub node : Node
  pub stored : Bool
  pub endpoint_task : Option EndpointTask
  pub pending : List Pending
  pub answers : List Answer

-- `LurkHttpEndpoint::new` and `tokio::spawn`
abbrev spawn_endpoint : SocketAddr → EndpointTask
spawn_endpoint addr = record {
  endpoint = new_endpoint addr server_arc;
  bound = none;
  accepted = [];
}

-- `main` up to `server.run()`. The logging is set up by log4rs, whose failure is a panic.
unfoldable pub main : Option (Unit {0}) → LurkConfig → Result Program
unfolding new_endpoint
main log4rs lurk_config = and_then (expect log4rs) λ _.
    and_then (server_tcp_bind_addr lurk_config) λ bind_addr. ok (record {
      node = initial bind_addr;
      stored = false;
      endpoint_task = option_map spawn_endpoint (http_endpoint_bind_addr lurk_config);
      pending = [];
      answers = [];
    })

-- The stats as another task loads them.
abbrev pub visible : Bool → LurkServerStats → LurkServerStats
visible stored stats = if stored then store_is_started stats else stats

-- `on_server_started` ends with its second store.
abbrev pub Allows : Stage → Bool → Type 0
Allows starting_up stored = stored ≡ true
Allows _ stored = Unit

module _ (machine : Machine) (to_string : LurkNodeStatus → Option (List ℕ)) where
  -- One turn of a task. When `server.run()` has returned, the program ends, and with it the endpoint.
  -- What the endpoint's `bind` and `accept` give is free, and what the server's `bind` gives is the
  -- machine's: where both are given one port, the executions are among those of a machine whose `bind`
  -- fails, and those in which the endpoint's fails.
  pub data Turn (p : Program) : Program → Type 0 where
    serve :
        (node : Node)
        → Allows (stage_of p.node.phase) p.stored
        → Step machine p.node node
        → Turn p (record p { node = node })
    store : stage_of p.node.phase ≡ starting_up → Turn p (record p { stored = true })
    bind_endpoint :
        (task : EndpointTask) (bound : IoResult (Unit {0}))
        → stage_of p.node.phase ≢ over
        → p.endpoint_task ≡ some task
        → task.bound ≡ none
        → Turn p (record p { endpoint_task = some (record task { bound = some bound }) })
    accept_client :
        (task : EndpointTask) (bound : IoResult (Unit {0})) (client : IoResult SocketAddr)
        → stage_of p.node.phase ≢ over
        → p.endpoint_task ≡ some task
        → task.bound ≡ some bound
        → (run_endpoint bound task.accepted).0 ≡ none
        → Turn p (record p {
          endpoint_task = some (record task { accepted = task.accepted ++ client ∷ [] });
        })
    ask :
        (task : EndpointTask) (bound : IoResult (Unit {0})) (client : SocketAddr)
        (before after : List SocketAddr) (now : ℕ) (uri_path : String)
        → stage_of p.node.phase ≢ over
        → p.endpoint_task ≡ some task
        → task.bound ≡ some bound
        → (run_endpoint bound task.accepted).1 ≡ before ++ client ∷ after
        → Turn p (record p {
          pending =
              p.pending
              ++ record {
                now = now;
                uri_path = uri_path;
                asked = stage_of p.node.phase;
                seen = visible p.stored (get_stats (deref p.node task.endpoint.service.node));
              }
                ∷ [];
        })
    answer :
        (before after : List Pending) (request : Pending)
        → stage_of p.node.phase ≢ over
        → p.pending ≡ before ++ (request ∷ after)
        → Turn p (record p {
          pending = before ++ after;
          answers =
              p.answers
              ++ record {
                request = request;
                outcome =
                    call machine.chrono to_string request.now request.seen
                      (visible p.stored (get_stats p.node.server))
                      request.uri_path;
              }
                ∷ [];
        })

  pub data Execution (from : Program) : Program → Type 0 where
    here : Execution from from
    next : {p q : Program} → Execution from p → Turn p q → Execution from q
