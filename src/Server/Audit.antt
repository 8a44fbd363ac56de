-- ===== src/Server/Audit.antt =====
-- The log of the server: what is logged of each connection.
pub mod Complete
use lurk.Address.{SocketAddr}
use lurk.Common.{
  ◌+◌, ◌++◌, ◌∷◌, ◌≡◌, [], if◌then◌else◌, arith, All, Bool, List, Option, none, some, ℕ, ap, sym,
  ◌∙◌, refl, false, true,
}
use lurk.Error.{and_then, debug_assert, err, ok, panic, Error, Result}
use lurk.Handler.{handle}
use lurk.Handler.Calmness.{handle-IsCalm}
use lurk.Http
use lurk.Http.{Served}
use lurk.HttpHost.{Request}
use lurk.Log.{
  log_tcp_acception_error, log_tcp_canceled_conn, log_tcp_closed_conn,
  log_tcp_closed_conn_with_error, log_tcp_established_conn, Displays, LogRecord,
}
use lurk.Server.{
  create_tcp_connection_handler, http_handler, on_server_finished, on_shutdown_requested,
  on_tcp_connection_established, socks5_handler, spawn, LurkServer, LurkTcpConnectionHandler, Task,
}
use lurk.Server.Shutdown.{IsServed, IsSound, Run-IsSound}
use lurk.Server.Steps.{
  advance, bind_done, bind_failed, cancel, connect, ctrl_c, did, establish, finish, here, initial,
  next, refuse, reject, session_of, start, wait, wake, Machine, Node, Run, Step,
}
use lurk.Stream.Calm.{IsCalm}
use lurk.Tcp.{http, socks5, unknown, LurkTcpConnection, LurkTcpConnectionLabel}

-- What the server logs: of a connection with this peer and label, or of an error of `accept`.
pub data Entry : Type 0 where
  established closed canceled : SocketAddr → LurkTcpConnectionLabel → Entry
  closed_with_error : SocketAddr → LurkTcpConnectionLabel → Error → Entry
  not_accepted : Error → Entry

unfoldable pub record_of : Displays → Entry → LogRecord
record_of displays (established addr label) = log_tcp_established_conn displays addr label
record_of displays (closed addr label) = log_tcp_closed_conn displays addr label
record_of displays (canceled addr label) = log_tcp_canceled_conn displays addr label
record_of displays (closed_with_error addr label e) =
    log_tcp_closed_conn_with_error displays addr label e
record_of displays (not_accepted e) = log_tcp_acception_error displays e

-- `on_tcp_connection_established` logs the connection, and that it has no handler.
abbrev pub unhandled : LurkTcpConnection → Result LurkTcpConnectionHandler → List Entry
unhandled conn (ok handler) = []
unhandled conn (err e) = closed_with_error conn.peer_addr conn.label e ∷ []
unhandled conn panic = []

abbrev pub established_entries : LurkTcpConnection → List Entry
established_entries conn =
    established conn.peer_addr conn.label
    ∷ unhandled conn (create_tcp_connection_handler conn.label)

-- The task logs the result of its handler; a handler that panics takes the task with it.
abbrev pub result_entries : LurkTcpConnection → Result (Unit {0}) → List Entry
result_entries conn (ok u) = closed conn.peer_addr conn.label ∷ []
result_entries conn (err e) = closed_with_error conn.peer_addr conn.label e ∷ []
result_entries conn panic = []

-- A task whose handler panics is gone, and nothing is logged of it.
abbrev pub crashes : Task → Result (Unit {0}) → List Task
crashes task (ok u) = []
crashes task (err e) = []
crashes task panic = task ∷ []

-- `serve` is hyper's server: the result with which it ends a connection, by the service.
module _ (machine : Machine)
    (serve : (Request machine.types → Served machine.net)
      → LurkTcpConnection
      → Result (Unit {0})) where
  abbrev pub result_by : LurkTcpConnectionHandler → LurkTcpConnection → Result (Unit {0})
  result_by socks5_handler conn =
      (handle machine.net machine.debug machine.order (session_of conn)).0
  result_by http_handler conn =
      Http.handle machine.types machine.net machine.debug machine.send serve conn

  abbrev pub entries_of : {n m : Node} → Step machine n m → List Entry
  entries_of (bind_done server ended listener e) = []
  entries_of (bind_failed server ended x e) = []
  entries_of (start server ended now stats e) = []
  entries_of (connect server ended client bytewise) = []
  entries_of (refuse server ended kind x e) = not_accepted x ∷ []
  entries_of (establish server ended client conn answers e) = established_entries conn
  entries_of (reject server ended client x answers e) = not_accepted x ∷ []
  entries_of (wake server ended millis) = []
  entries_of (ctrl_c phase server ended hears) = []
  entries_of (advance phase server ended before after task event rest e f) = []
  entries_of (finish phase server ended before after task e f) =
      result_entries task.conn (result_by task.handler task.conn)
  entries_of (cancel phase server ended before after task e c) =
      canceled task.conn.peer_addr task.conn.label ∷ []
  entries_of (wait server ended shut empty) = []

  -- The log of a run.
  abbrev pub log_of : {n m : Node} → Run machine n m → List Entry
  log_of here = []
  log_of (next r s) = log_of r ++ entries_of s

  abbrev pub crashed_in : {n m : Node} → Step machine n m → List Task
  crashed_in (finish phase server ended before after task e f) =
      crashes task (result_by task.handler task.conn)
  crashed_in _ = []

  -- The tasks whose handlers have panicked in a run.
  abbrev pub crashed : {n m : Node} → Run machine n m → List Task
  crashed here = []
  crashed (next r s) = crashed r ++ crashed_in s
