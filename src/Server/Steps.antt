-- ===== src/Server/Steps.antt =====
-- `LurkServer::run` and the tasks that it spawns, as a step relation: the program, its tasks and the
-- operating system take their turns in any order.
use lurk.Common.Bytes.{IsByte}
use lurk.Http.{serve_request, Response}
use lurk.HttpHost.{HttpTypes, Request}
use lurk.Handler.{tunnelled, dialed}
use lurk.Common.{Option, none, some}
use lurk.Auth.{HashOrder}
use lurk.Error.{panic, done, failed, err, Error, ok, ErrorKind, Result}
use lurk.Net.{socket, Net}
use lurk.Address.{SocketAddr}
use lurk.Common.{◌++◌, true, All, ◌≡◌, Bool, [], ◌∷◌, ℕ, List}
use lurk.Tcp.{accept, bind, Listening, LurkTcpListener, LurkTcpConnection, TcpStream}
use lurk.Stats.{on_server_started, LurkServerStats, Chrono}
use lurk.Handler.{Session, handle, Event}
use lurk.Server.{
  with_tasks, with_tasks, on_shutdown_requested, on_server_finished, on_tcp_connection_established,
  on_tcp_acception_error, http_handler, socks5_handler, new_server, LurkTcpConnectionHandler,
  LurkServer, Task,
}

-- What the program runs on. `Answers` says of an accepted connection that its `peek` returns some
-- day: the peer sends a byte, closes, or fails. `requests` are those that hyper reads on an HTTP
-- connection, one after the other, and `send` is hyper's client. A run has one network: it resolves
-- and connects at all times alike.
pub record Machine : Type 1 where
  pub chrono : Chrono
  pub net : Net
  pub listening : Listening
  pub debug : Bool
  pub order : HashOrder
  pub is_transient_error : ErrorKind → Bool
  pub Answers : TcpStream → Type 0
  pub types : HttpTypes
  pub requests : LurkTcpConnection → List (Request types)
  pub send : net.Socket → Request types → Result Response

-- Where `run` stands: in `bind`, before `on_server_started`, in `accept` before a client is there and
-- after, in the sleep of `on_tcp_acception_error`, in `wait`, or at its end.
pub data Phase : Type 0 where
  binding starting listening : Phase
  peeking : TcpStream → Phase
  sleeping : ℕ → Phase
  waiting : Phase
  returned : Result (Unit {0}) → Phase

-- `ended` holds the tasks that have left the tracker, with what they had done.
pub record Node : Type 0 where
  pub phase : Phase
  pub server : LurkServer
  pub ended : List Task

-- The connection of a task, before its handler has done anything.
abbrev pub session_of : LurkTcpConnection → Session
session_of conn = record { conn = conn; events = [] }

-- Ctrl+C is heard where `run` waits for `accept`, and not in the sleep.
abbrev pub IsAccepting : Phase → Type 0
IsAccepting listening = Unit
IsAccepting (peeking client) = Unit
IsAccepting _ = ⊥

abbrev pub did : Event → Task → Task
did event task = record task { progress = task.progress ++ event ∷ [] }

module _ (machine : Machine) where
  -- What serving one request does: the connection that it asks for, and the tunnel for which it spawns
  -- a task, which the tracker does not hold.
  abbrev pub served_events : Option SocketAddr → Option machine.net.Socket → List Event
  served_events none tunnel = []
  served_events (some addr) none = dialed addr ∷ []
  served_events (some addr) (some outbound) = dialed addr ∷ tunnelled addr ∷ []

  -- After an error or a panic of the service hyper closes the connection, and serves no more of it.
  abbrev pub while_answered : Result Response → List Event → List Event
  while_answered (ok answer) more = more
  while_answered (err e) more = []
  while_answered panic more = []

  abbrev pub http_events : List (Request machine.types) → List Event
  http_events [] = []
  http_events (req ∷ more) =
      let served = serve_request machine.types machine.net machine.debug machine.send req in
      served_events served.dialed served.tunnel ++ while_answered served.answer (http_events more)

  -- All that a handler does if it is left to run to its end.
  abbrev pub events_by : LurkTcpConnectionHandler → LurkTcpConnection → List Event
  events_by socks5_handler conn =
      (handle machine.net machine.debug machine.order (session_of conn)).1.events
  events_by http_handler conn = http_events (machine.requests conn)

  abbrev pub task_events : Task → List Event
  task_events task = events_by task.handler task.conn

  -- One step. Everything that the environment chooses is an argument: the current time, what is
  -- accepted, Ctrl+C, and which task goes on, ends or sees the cancellation, and when.
  pub data Step : Node → Node → Type 0 where
    bind_done :
        (server : LurkServer) (ended : List Task) (listener : LurkTcpListener machine.listening)
        → bind machine.net machine.listening (socket server.bind_addr) ≡ ok listener
        → Step
            (record { phase = binding; server = server; ended = ended })
            (record { phase = starting; server = server; ended = ended })
    bind_failed :
        (server : LurkServer) (ended : List Task) (e : Error)
        → bind machine.net machine.listening (socket server.bind_addr) ≡ err e
        → Step
            (record { phase = binding; server = server; ended = ended })
            (record { phase = returned (err e); server = server; ended = ended })
    start :
        (server : LurkServer) (ended : List Task) (now : ℕ) (stats : LurkServerStats)
        → on_server_started machine.chrono now server.stats ≡ ok stats
        → Step
            (record { phase = starting; server = server; ended = ended })
            (record { phase = listening; server = record server { stats = stats }; ended = ended })
    connect :
        (server : LurkServer) (ended : List Task) (client : TcpStream)
        → All IsByte client.stream.incoming
        → Step
            (record { phase = listening; server = server; ended = ended })
            (record { phase = peeking client; server = server; ended = ended })
    refuse :
        (server : LurkServer) (ended : List Task) (kind : ErrorKind) (e : Error)
        → accept (failed kind) ≡ err e
        → Step
            (record { phase = listening; server = server; ended = ended })
            (record {
              phase = sleeping (on_tcp_acception_error machine.is_transient_error e);
              server = server;
              ended = ended;
            })
    establish :
        (server : LurkServer) (ended : List Task) (client : TcpStream) (conn : LurkTcpConnection)
        → machine.Answers client
        → accept (done client) ≡ ok conn
        → Step
            (record { phase = peeking client; server = server; ended = ended })
            (record {
              phase = listening;
              server = on_tcp_connection_established conn server;
              ended = ended;
            })
    reject :
        (server : LurkServer) (ended : List Task) (client : TcpStream) (e : Error)
        → machine.Answers client
        → accept (done client) ≡ err e
        → Step
            (record { phase = peeking client; server = server; ended = ended })
            (record {
              phase = sleeping (on_tcp_acception_error machine.is_transient_error e);
              server = server;
              ended = ended;
            })
    wake :
        (server : LurkServer) (ended : List Task) (millis : ℕ)
        → Step
            (record { phase = sleeping millis; server = server; ended = ended })
            (record { phase = listening; server = server; ended = ended })
    ctrl_c :
        (phase : Phase) (server : LurkServer) (ended : List Task)
        → IsAccepting phase
        → Step
            (record { phase = phase; server = server; ended = ended })
            (record {
              phase = waiting;
              server = on_server_finished (on_shutdown_requested server);
              ended = ended;
            })
    advance :
        (phase : Phase) (server : LurkServer) (ended before after : List Task) (task : Task)
        (event : Event) (rest : List Event)
        → server.task_tracker.tasks ≡ before ++ (task ∷ after)
        → task_events task ≡ task.progress ++ (event ∷ rest)
        → Step
            (record { phase = phase; server = server; ended = ended })
            (record {
              phase = phase;
              server = with_tasks (before ++ (did event task ∷ after)) server;
              ended = ended;
            })
    finish :
        (phase : Phase) (server : LurkServer) (ended before after : List Task) (task : Task)
        → server.task_tracker.tasks ≡ before ++ (task ∷ after)
        → task_events task ≡ task.progress
        → Step
            (record { phase = phase; server = server; ended = ended })
            (record {
              phase = phase;
              server = with_tasks (before ++ after) server;
              ended = ended ++ task ∷ [];
            })
    cancel :
        (phase : Phase) (server : LurkServer) (ended before after : List Task) (task : Task)
        → server.task_tracker.tasks ≡ before ++ (task ∷ after)
        → server.cancelled ≡ true
        → Step
            (record { phase = phase; server = server; ended = ended })
            (record {
              phase = phase;
              server = with_tasks (before ++ after) server;
              ended = ended ++ task ∷ [];
            })
    wait :
        (server : LurkServer) (ended : List Task)
        → server.task_tracker.closed ≡ true
        → server.task_tracker.tasks ≡ []
        → Step
            (record { phase = waiting; server = server; ended = ended })
            (record { phase = returned (ok tt); server = server; ended = ended })

  pub data Run (from : Node) : Node → Type 0 where
    here : Run from from
    next : {n m : Node} → Run from n → Step n m → Run from m

abbrev pub initial : SocketAddr → Node
initial bind_addr = record { phase = binding; server = new_server bind_addr; ended = [] }
