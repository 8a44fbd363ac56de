-- ===== src/Server.antt =====
-- server/mod.rs and server/handlers/mod.rs: the state of the server, and its operations. `run` is in
-- Server/Steps.
pub mod Steps
pub mod Tasks
pub mod Termination
pub mod Stall
pub mod Service
pub mod Conformity
pub mod Authorization
pub mod Audit
pub mod Supervisor
pub mod Shutdown
pub mod Tests
use lurk.Error.{
  IoResult, panic, unknown_tcp_connection, err, io_error, ok, Error, Result, ErrorKind,
}
use lurk.Handler.{Event}
use lurk.Stats.{on_server_started, LurkServerStats, Chrono, new_stats}
use lurk.Address.{SocketAddr}
use lurk.Tcp.{accept, socks5, TcpStream, http, unknown, LurkTcpConnection, LurkTcpConnectionLabel}
use lurk.Common.{◌≡◌, ℕ, List, [], ◌∷◌, ◌++◌, Bool, true, false, not, if◌then◌else◌}

-- The handlers, by the protocol that they serve.
pub data LurkTcpConnectionHandler : Type 0 where
  socks5_handler http_handler : LurkTcpConnectionHandler

unfoldable pub create_tcp_connection_handler :
    LurkTcpConnectionLabel → Result LurkTcpConnectionHandler
create_tcp_connection_handler http = ok http_handler
create_tcp_connection_handler socks5 = ok socks5_handler
create_tcp_connection_handler (unknown v) = err unknown_tcp_connection

-- A task that handles a connection, and what it has done so far.
pub record Task : Type 0 where
  pub handler : LurkTcpConnectionHandler
  pub conn : LurkTcpConnection
  pub progress : List Event

-- tokio-util's `TaskTracker`: the tasks that still run, and whether it was closed.
pub record TaskTracker : Type 0 where
  pub closed : Bool
  pub tasks : List Task

pub record LurkServer : Type 0 where
  pub bind_addr : SocketAddr
  pub stats : LurkServerStats
  pub task_tracker : TaskTracker
  pub cancelled : Bool

unfoldable pub new_server : SocketAddr → LurkServer
unfolding new_stats
new_server bind_addr = record {
  bind_addr = bind_addr;
  stats = new_stats;
  task_tracker = record { closed = false; tasks = [] };
  cancelled = false;
}

abbrev pub get_stats : LurkServer → LurkServerStats
get_stats server = server.stats

abbrev pub with_tasks : List Task → LurkServer → LurkServer
with_tasks tasks server = record server {
  task_tracker = record (server.task_tracker) { tasks = tasks };
}

abbrev pub spawn : LurkTcpConnection → LurkServer → Result LurkTcpConnectionHandler → LurkServer
spawn conn server (ok handler) =
    with_tasks
      (server.task_tracker.tasks ++ record { handler = handler; conn = conn; progress = [] } ∷ [])
      server
spawn conn server (err e) = server
spawn conn server panic = server

unfoldable pub on_tcp_connection_established : LurkTcpConnection → LurkServer → LurkServer
unfolding create_tcp_connection_handler
on_tcp_connection_established conn server =
    spawn conn server (create_tcp_connection_handler conn.label)

abbrev delay_after_error_millis : ℕ
delay_after_error_millis = 500

-- The milliseconds that the server sleeps; `is_transient_error` is of the crate async-listen.
unfoldable pub on_tcp_acception_error : (ErrorKind → Bool) → Error → ℕ
on_tcp_acception_error is_transient_error (io_error kind) =
    if not (is_transient_error kind) then delay_after_error_millis else 0
on_tcp_acception_error is_transient_error _ = 0

unfoldable pub on_shutdown_requested : LurkServer → LurkServer
on_shutdown_requested server = record server {
  task_tracker = record (server.task_tracker) { closed = true };
  cancelled = true;
}

-- `on_server_finished` does nothing.
unfoldable pub on_server_finished : LurkServer → LurkServer
on_server_finished server = server
