-- ===== src/Server/Tests.antt =====
-- The theorems on the server on concrete runs: it starts, a SOCKS5 client connects and has its
-- request dialed, and then Ctrl+C is pressed, or a client comes that sends nothing.
use lurk.Server.Conformity.{Run-Follows}
use lurk.Common.Bytes.{from_be_bytes}
use lurk.Stream.Laws.{feed}
use lurk.Server.Service.{
  client_is_served, client_of, conn_of, generous, socks5_client_is_served, task_of,
}
use lurk.Socks5.Grammar.{greeting, offers_none, request as grammar_request}
use lurk.Stream.{Stream}
use lurk.Net.{to_socket_addr, socket, resolve_sockaddr}
use lurk.Error.{Result, ok, tcp_connect, done}
use lurk.Tcp.{
  establish_tcp_connection, LurkTcpConnectionLabel, is_socks5_label, is_http_label, label_of, bind,
}
use lurk.Common.{
  Bool, ◌≢◌, false, ◌⊎◌, ◌++◌, refl, none, true, ◌≤◌, ◌≡◌, ℕ, All, ◌+◌, [], arith, List,
}
use lurk.Handler.{tunnelled, Event, dialed}
use lurk.Handler.Tests.{run, order, net_of, localhost, offered, to_localhost, bytes_of, bytewise}
use lurk.Stats.Tests.{chrono, started_stats}
use lurk.Server.Steps.{
  events_by, Step, Node, initial, Phase, Run, task_events, Machine, bind_done, start, connect,
  establish, ctrl_c, advance, cancel, here, next, peeking, waiting, returned, listening,
}
use lurk.Server.Shutdown.{at, Run-IsSound, IsSound}
use lurk.Server.Termination.{shutdown_terminates, run_length, work_left, tasks_left}
use lurk.Server.Supervisor.{
  Run-Behaves, Behaves, actions_of, draining, internal, opens, takes, shuts,
}
use lurk.Server.Audit.{crashed, log_of}
use lurk.Handler.Rfc.{answer_client}
use lurk.Handler.Rfc.Agreement.{IsRegular}
use lurk.HttpHost.{Request}
use lurk.Http.{Served}
use lurk.Server.Audit.Complete.{Run-IsLogged, opened, settled, handled, IsHttpTask}
use lurk.Http.Tests.{types, get_loopback}
use lurk.Server.Stall.{silent_client_stalls, IsStalled, taken}
use lurk.Server.Authorization.{Run-IsTaskCaused, IsTaskCaused}
use lurk.Server.{
  http_handler, create_tcp_connection_handler, on_shutdown_requested, on_tcp_connection_established,
  Task, on_server_finished, new_server, LurkServer, socks5_handler, with_tasks,
}
use lurk.Stats.{on_server_started, new_stats}
use lurk.Tcp.{accept, TcpStream, LurkTcpConnection, socks5}
use lurk.Address.{SocketAddr}
use lurk.Common.{◌∷◌}

-- A listener is its address, and a client answers if it sends something.
abbrev pub machine : Machine
machine = record {
  chrono = chrono;
  net = record (net_of (done 7)) { lookup_host = λ query. done (localhost 1080 ∷ []) };
  listening = record {
    RawSocket = SocketAddr;
    TcpListener = SocketAddr;
    new_socket = λ addr. done addr;
    bind_socket = λ addr socket. done addr;
    listen = λ backlog socket. done socket;
    set_nonblocking = λ on socket. done socket;
    from_std = λ socket. done socket;
  };
  debug = true;
  order = order;
  is_transient_error = λ kind. false;
  Answers = λ client. client.stream.incoming ≢ [];
  types = types;
  requests = λ conn. get_loopback ∷ [];
  send = λ socket req. ok (record { status = 200; body = [] });
}

abbrev stream : List ℕ → Stream
stream bytes = record { incoming = bytes; ending = none; written = []; sink = none }

abbrev client : List ℕ → TcpStream
client bytes = record {
  stream = stream bytes;
  peer = done (localhost 5000);
  local = done (localhost 1080);
}

abbrev request : List ℕ
request = bytes_of offered (to_localhost tcp_connect)

abbrev conn : LurkTcpConnection
conn = record {
  stream = stream request;
  label = socks5;
  peer_addr = localhost 5000;
  local_addr = localhost 1080;
}

abbrev task : List Event → Task
task progress = record { handler = socks5_handler; conn = conn; progress = progress }

-- The server after its start, with these tasks.
abbrev pub serving : List Task → LurkServer
serving tasks = with_tasks tasks (record (new_server (localhost 1080)) { stats = started_stats })

abbrev stopped : List Task → LurkServer
stopped tasks = on_server_finished (on_shutdown_requested (serving tasks))

pub bound :
    bind machine.net machine.listening (socket (localhost 1080))
    ≡ ok (record { inner = localhost 1080 })
unfolding bind resolve_sockaddr
bound = refl

pub started_at :
    on_server_started chrono 7000009 (new_server (localhost 1080)).stats ≡ ok started_stats
unfolding on_server_started new_server new_stats
started_at = refl

answers : machine.Answers (client request)
unfolding run
answers e = ground arith

accepted : accept (done (client request)) ≡ ok conn
unfolding accept label_of is_http_label is_socks5_label run
accepted = refl

works : task_events machine (task []) ≡ dialed (localhost 80) ∷ tunnelled (localhost 80) ∷ []
unfolding run
works = refl

abbrev pub FromStart : LurkServer → Phase → Type 0
FromStart server phase = Run machine (initial (localhost 1080)) (at machine phase server [])

pub listens : FromStart (serving []) listening
unfolding new_server
listens =
    next (next here (bind_done (new_server (localhost 1080)) [] _ bound))
      (start (new_server (localhost 1080)) [] 7000009 started_stats started_at)

has_taken : FromStart (serving (task [] ∷ [])) listening
unfolding new_server on_tcp_connection_established create_tcp_connection_handler
has_taken =
    next (next listens (connect (serving []) [] (client request) bytewise))
      (establish (serving []) [] (client request) conn answers accepted)

dials : FromStart (serving (task (dialed (localhost 80) ∷ []) ∷ [])) listening
dials = next has_taken (
    advance listening (serving (task [] ∷ [])) [] [] [] (task []) (dialed (localhost 80))
      (tunnelled (localhost 80) ∷ []) refl works)

abbrev dialing : List Task
dialing = task (dialed (localhost 80) ∷ []) ∷ []

stops : FromStart (stopped dialing) waiting
stops = next dials (ctrl_c listening (serving dialing) [] tt)

cancelled :
    Run machine
      (at machine waiting (stopped dialing) [])
      (at machine waiting (with_tasks [] (stopped dialing)) dialing)
unfolding on_server_finished on_shutdown_requested
cancelled =
    next here
      (cancel waiting (stopped dialing) [] [] [] (task (dialed (localhost 80) ∷ [])) refl refl)

Run-IsSound_example : IsSound (at machine waiting (stopped dialing) [])
Run-IsSound_example =
    Run-IsSound machine (localhost 1080) (at machine waiting (stopped dialing) []) stops

shutdown_terminates_example :
    (run_length cancelled
        + work_left machine (at machine waiting (with_tasks [] (stopped dialing)) dialing)
      ≤ tasks_left machine (stopped dialing).task_tracker.tasks + 1)
    × ((◌≡◌ {A = Phase} waiting (returned (ok tt)))
        ⊎ ((m : Node) × Step machine
              (at machine waiting (with_tasks [] (stopped dialing)) dialing)
              m))
shutdown_terminates_example =
    shutdown_terminates machine (localhost 1080) (stopped dialing) []
      (at machine waiting (with_tasks [] (stopped dialing)) dialing) stops cancelled

silent : ¬ machine.Answers (client [])
silent answers = answers refl

abbrev awaiting : List Task → Node
awaiting tasks = at machine (peeking (client [])) (serving tasks) []

still_works : Run machine (awaiting (task [] ∷ [])) (awaiting dialing)
still_works = next here (
    advance (peeking (client [])) (serving (task [] ∷ [])) [] [] [] (task [])
      (dialed (localhost 80)) (tunnelled (localhost 80) ∷ []) refl works)

silent_client_stalls_example :
    IsStalled (client []) (peeking (client [])) × (taken (awaiting dialing) ≡ 1 + 0)
silent_client_stalls_example =
    silent_client_stalls machine (client []) silent (serving (task [] ∷ [])) [] (awaiting dialing)
      still_works

Run-IsTaskCaused_example : All (IsTaskCaused machine) dialing × All (IsTaskCaused machine) []
Run-IsTaskCaused_example =
    Run-IsTaskCaused machine (localhost 1080) (at machine listening (serving dialing) []) dials

Run-Behaves_example : Behaves (actions_of machine stops) (draining 1)
unfolding on_server_finished on_shutdown_requested
Run-Behaves_example =
    Run-Behaves machine (localhost 1080) (at machine waiting (stopped dialing) []) stops

actions_of-stops :
    actions_of machine stops ≡ shuts ∷ internal ∷ takes ∷ internal ∷ opens ∷ internal ∷ []
unfolding stops dials has_taken listens create_tcp_connection_handler
actions_of-stops = refl

-- Hyper ends every connection well, and every connection is picked out.
abbrev serve_well :
    (Request machine.types → Served machine.net) → LurkTcpConnection → Result (Unit {0})
serve_well _ _ = ok tt

abbrev all_of_them : SocketAddr → LurkTcpConnectionLabel → Bool
all_of_them addr label = true

Run-IsLogged_example :
    (opened all_of_them (log_of machine serve_well stops)
      ≡ settled all_of_them (log_of machine serve_well stops)
        + handled all_of_them dialing
        + handled all_of_them (crashed machine serve_well stops))
    × All IsHttpTask (crashed machine serve_well stops)
unfolding on_server_finished on_shutdown_requested
Run-IsLogged_example = Run-IsLogged machine serve_well all_of_them (localhost 1080) _ stops

abbrev get_bytes : List ℕ
get_bytes = b'E' ∷ b'T' ∷ b' ' ∷ []

got :
    machine.Answers
      (client_of (feed (b'G' ∷ get_bytes) (stream [])) (localhost 5000) (localhost 1080))
got e = cc

known_http : create_tcp_connection_handler (label_of b'G') ≡ ok http_handler
unfolding create_tcp_connection_handler label_of is_socks5_label is_http_label
known_http = refl

client_is_served_example : Run machine (initial (localhost 1080)) (
    at machine listening (serving []) (
      []
      ++ task_of http_handler
          (conn_of
            (feed (b'G' ∷ get_bytes) (stream []))
            (localhost 5000)
            (localhost 1080)
            (label_of b'G'))
          (events_by machine http_handler (
            conn_of
              (feed (b'G' ∷ get_bytes) (stream []))
              (localhost 5000)
              (localhost 1080)
              (label_of b'G')))
        ∷ []))
client_is_served_example =
    client_is_served machine (initial (localhost 1080)) (serving []) [] b'G' get_bytes (stream [])
      (localhost 5000) (localhost 1080) http_handler (omega arith) got known_http listens

-- Behind the first byte: one method, `None`; then CONNECT to 127.0.0.1:80.
abbrev connecting : List ℕ
connecting = 1 ∷ 0 ∷ 5 ∷ 1 ∷ 0 ∷ 1 ∷ 127 ∷ 0 ∷ 0 ∷ 1 ∷ 0 ∷ 80 ∷ []

greeted :
    machine.Answers (client_of (generous (5 ∷ connecting) none) (localhost 5000) (localhost 1080))
greeted e = cc

regular : IsRegular machine.net true (5 ∷ connecting)
unfolding greeting offers_none grammar_request from_be_bytes to_socket_addr establish_tcp_connection
regular = tt

socks5_client_is_served_example : Run machine (initial (localhost 1080)) (
    at machine listening (serving []) (
      []
      ++ task_of socks5_handler
          (conn_of (generous (5 ∷ connecting) none) (localhost 5000) (localhost 1080) socks5)
          (answer_client machine.net true (localhost 1080) (5 ∷ connecting)).events
        ∷ []))
socks5_client_is_served_example =
    socks5_client_is_served machine (initial (localhost 1080)) (serving []) [] connecting none
      (localhost 5000) (localhost 1080) (omega arith) regular greeted listens

dials_and_relays :
    (answer_client machine.net true (localhost 1080) (5 ∷ connecting)).events
    ≡ dialed (localhost 80) ∷ tunnelled (localhost 80) ∷ []
unfolding answer_client from_be_bytes to_socket_addr establish_tcp_connection
dials_and_relays = refl

Run-Follows_example :
    (rest : List Event) × ((answer_client machine.net true (localhost 1080) request).events
      ≡ (dialed (localhost 80) ∷ []) ++ rest)
Run-Follows_example =
    Run-Follows machine (localhost 1080) (at machine listening (serving dialing) []) [] []
      (task (dialed (localhost 80) ∷ [])) request none (localhost 5000) (localhost 1080) dials refl
      refl
