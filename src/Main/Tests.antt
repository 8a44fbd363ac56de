-- ===== src/Main/Tests.antt =====
-- The theorems on the program in one execution: the server is bound, the endpoint takes a client, and
-- a health check is asked between the two stores of the start and answered behind them.
use lurk.Api.Healthcheck.{reports}
use lurk.Address.{v4, SocketAddr}
use lurk.Api.{serialize_as_body_chunk, call, run_endpoint}
use lurk.Api.Tests.{client, to_string}
use lurk.Common.{All, List, refl, [], ◌∷◌, ◌≡◌, some, true, false, ℕ}
use lurk.Config.{LurkConfig, server_tcp_bind_addr, http_endpoint_bind_addr}
use lurk.Error.{done, ok, IoResult}
use lurk.Handler.Tests.{localhost}
use lurk.Main.{
  accept_client, answer, ask, bind_endpoint, here, main, next, serve, store, Execution, Program,
  Pending, EndpointTask, starting_up, stage_of, spawn_endpoint,
}
use lurk.Main.Health.{answers-Tells}
use lurk.Main.Waiting.{IsStartIn}
use lurk.Main.Replies.{Tells}
use lurk.Server.{new_server}
use lurk.Server.Steps.{start, bind_done, initial, Node, starting, listening}
use lurk.Server.Tests.{machine, bound, started_at, serving}
use lurk.Stats.{
  get_started_utc_timestamp, get_uptime, is_server_started, store_is_started, new_stats,
}
use lurk.Stats.Tests.{chrono, started_stats}

abbrev lurk_config : LurkConfig
lurk_config = record {
  proxy_server_config = record { proxy_port = 1080; proxy_ipv4 = some 0x7f00_0001 };
  http_endpoint_config = record { http_endpoint_enabled = true; http_endpoint_port = 8080 };
}

abbrev any_8080 : SocketAddr
any_8080 = v4 (record { ip = 0; port = 8080 })

abbrev program : Program
program = record {
  node = initial (localhost 1080);
  stored = false;
  endpoint_task = some (spawn_endpoint any_8080);
  pending = [];
  answers = [];
}

starts : main (some tt) lurk_config ≡ ok program
unfolding main server_tcp_bind_addr http_endpoint_bind_addr
starts = refl

abbrev bound_node : Node
bound_node = record { phase = starting; server = new_server (localhost 1080); ended = [] }

abbrev listening_node : Node
listening_node = record { phase = listening; server = serving []; ended = [] }

abbrev endpoint_with : List (IoResult SocketAddr) → EndpointTask
endpoint_with accepted = record (spawn_endpoint any_8080) {
  bound = some (done tt);
  accepted = accepted;
}

abbrev request : Pending
request = record {
  now = 8000000;
  uri_path = "/healthcheck";
  asked = starting_up;
  seen = store_is_started new_stats;
}

abbrev asked : Program
asked = record {
  node = bound_node;
  stored = true;
  endpoint_task = some (endpoint_with (done client ∷ []));
  pending = request ∷ [];
  answers = [];
}

asks : Execution machine to_string program asked
unfolding new_server run_endpoint
asks =
    next
      (next
        (next
          (next
            (next here (serve bound_node tt (bind_done (new_server (localhost 1080)) [] _ bound)))
            (bind_endpoint (spawn_endpoint any_8080) (done tt) (λ e. cc e) refl refl))
          (accept_client (endpoint_with []) (done tt) (done client) (λ e. cc e) refl refl refl))
        (store refl))
      (ask (endpoint_with (done client ∷ [])) (done tt) client [] [] 8000000 "/healthcheck"
        (λ e. cc e) refl refl refl)

abbrev answered : Program
answered = record asked {
  node = listening_node;
  pending = [];
  answers =
      record {
        request = request;
        outcome = ok (reports chrono to_string (some 8000000) (some 7000000));
      }
      ∷ [];
}

answers : Execution machine to_string program answered
unfolding call new_server is_server_started get_uptime get_started_utc_timestamp
    serialize_as_body_chunk
answers =
    next
      (next asks (
        serve listening_node refl
          (start (new_server (localhost 1080)) [] 7000009 started_stats started_at)))
      (answer [] [] request (λ e. cc e) refl)

answers-Tells_example :
    (started : ℕ) × IsStartIn machine to_string (stage_of listening) started started_stats
    × All (Tells machine to_string started) answered.answers
answers-Tells_example =
    answers-Tells machine to_string (some tt) lurk_config program answered starts answers
