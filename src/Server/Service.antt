-- ===== src/Server/Service.antt =====
-- That the server can serve each client to the end, whatever its other tasks do.
use lurk.Server.{
  create_tcp_connection_handler, on_tcp_connection_established, spawn, with_tasks, LurkServer,
  socks5_handler, LurkTcpConnectionHandler, Task,
}
use lurk.Server.Shutdown.{at}
use lurk.Server.Steps.{
  advance, connect, establish, events_by, finish, listening, next, Machine, Node, Phase, Run,
}
use lurk.Tcp.{
  is_http_label, is_socks5_label, socks5, label_of, LurkTcpConnection, LurkTcpConnectionLabel,
  TcpStream,
}
use lurk.Tcp.Labels.{accept_lem}
use lurk.Handler.{Event}
use lurk.Handler.Rfc.{answer_client}
use lurk.Handler.Rfc.Agreement.{handle-events, IsRegular}
use lurk.Stream.{Stream}
use lurk.Stream.Laws.{feed}
use lurk.Address.{SocketAddr}
use lurk.Error.{ErrorKind, done, ok}
use lurk.Common.{
  arith, Option, none, append-nil, append_assoc, refl, subst, sym, ◌++◌, ◌≡◌, ◌∙◌, All, List, [],
  ◌∷◌, ℕ,
}
use lurk.Common.Bytes.{IsByte}

-- A task that has done just these things.
abbrev pub task_of : LurkTcpConnectionHandler → LurkTcpConnection → List Event → Task
task_of handler conn progress = record { handler = handler; conn = conn; progress = progress }

module _ (machine : Machine) (from : Node) (phase : Phase) (server : LurkServer) (ended : List Task)
    (before after : List Task) (handler : LurkTcpConnectionHandler) (conn : LurkTcpConnection) where
  abbrev working : List Event → Node
  working progress =
      at machine phase (with_tasks (before ++ (task_of handler conn progress ∷ after)) server) ended

  -- A task can go through the events that it has before it.
  goes_on :
      (progress rest : List Event)
      → events_by machine handler conn ≡ progress ++ rest
      → Run machine from (working progress)
      → Run machine from (working (progress ++ rest))
  goes_on progress [] e r = rw (append-nil progress) r
  goes_on progress (event ∷ rest) e r =
      subst (λ events. Run machine from (working events)) (append_assoc progress (event ∷ []) rest)
        (goes_on (progress ++ event ∷ []) rest (e ∙ sym (append_assoc progress (event ∷ []) rest)) (
          next r (
            advance phase (with_tasks (before ++ (task_of handler conn progress ∷ after)) server)
              ended before after (task_of handler conn progress) event rest refl e)))

  -- And it can end.
  pub ends :
      Run machine from (working [])
      → Run machine from (
          at machine phase
            (with_tasks (before ++ after) server)
            (ended ++ task_of handler conn (events_by machine handler conn) ∷ []))
  ends r =
      let events = events_by machine handler conn in
      next (goes_on [] events refl r) (
        finish phase (with_tasks (before ++ (task_of handler conn events ∷ after)) server) ended
          before after (task_of handler conn events) refl refl)

-- A client that sends these bytes, and its connection when it is accepted with a label.
abbrev pub client_of : Stream → (peer local : SocketAddr) → TcpStream
client_of s peer local = record { stream = s; peer = done peer; local = done local }

abbrev pub conn_of : Stream → (peer local : SocketAddr) → LurkTcpConnectionLabel → LurkTcpConnection
conn_of s peer local label = record {
  stream = s;
  label = label;
  peer_addr = peer;
  local_addr = local;
}

-- The stream of a peer that takes every write.
abbrev pub generous : List ℕ → Option ErrorKind → Stream
generous bytes ending = record { incoming = bytes; ending = ending; written = []; sink = none }

module _ (machine : Machine) (from : Node) (server : LurkServer) (ended : List Task) (b : ℕ)
    (bytes : List ℕ) (s : Stream) (peer local : SocketAddr)
    (handler : LurkTcpConnectionHandler) where
  abbrev sent : Stream
  sent = feed (b ∷ bytes) s

  abbrev conn : LurkTcpConnection
  conn = conn_of sent peer local (label_of b)

  -- Whatever tasks the server has, running and ended: while it listens, it can take a client whose
  -- first byte is that of a protocol, run the handler of this protocol on the client's connection to
  -- its end, and listen again with its other tasks as they were. What the task has then done is all
  -- that the handler does with this client.
  pub client_is_served :
      All IsByte (b ∷ bytes)
      → machine.Answers (client_of sent peer local)
      → create_tcp_connection_handler (label_of b) ≡ ok handler
      → Run machine from (at machine listening server ended)
      → Run machine from (
          at machine listening server
            (ended ++ task_of handler conn (events_by machine handler conn) ∷ []))
  unfolding on_tcp_connection_established
  client_is_served bytewise answers known r =
      let established = next (next r (connect server ended (client_of sent peer local) bytewise)) (
        establish server ended (client_of sent peer local) conn answers
          (accept_lem b bytes s peer local)) in
      let taken =
        subst (λ r. Run machine from (at machine listening (spawn conn server r) ended)) known
          established in
      subst
        (λ tasks. Run machine from (
          at machine listening (with_tasks tasks server)
            (ended ++ task_of handler conn (events_by machine handler conn) ∷ [])))
        (append-nil server.task_tracker.tasks)
        (ends machine from listening server ended server.task_tracker.tasks [] handler conn taken)

-- While the server listens, it can take any client that begins with the byte 5, takes every write and
-- is one on which the program and RFC 1928 agree (`IsRegular`), be done with it, and listen again with
-- its other tasks as they were; and what the task has then dialed and tunnelled is what the server of
-- RFC 1928 (`answer_client`) dials and tunnels on all that the client sends.
pub socks5_client_is_served :
    (machine : Machine) (from : Node) (server : LurkServer) (ended : List Task) (bytes : List ℕ)
    (ending : Option ErrorKind) (peer local : SocketAddr)
    → All IsByte bytes
    → IsRegular machine.net machine.debug (5 ∷ bytes)
    → machine.Answers (client_of (generous (5 ∷ bytes) ending) peer local)
    → Run machine from (at machine listening server ended)
    → Run machine from (
        at machine listening server (
          ended
          ++ task_of socks5_handler
              (conn_of (generous (5 ∷ bytes) ending) peer local socks5)
              ((answer_client machine.net machine.debug local (5 ∷ bytes)).events)
            ∷ []))
unfolding label_of is_socks5_label is_http_label create_tcp_connection_handler
socks5_client_is_served machine from server ended bytes ending peer local bytewise regular answers
      r =
    subst
      (λ events. Run machine from (
        at machine listening server (
          ended
          ++ task_of socks5_handler (conn_of (generous (5 ∷ bytes) ending) peer local socks5) events
            ∷ [])))
      (handle-events machine.net machine.debug ending local machine.order peer (5 ∷ bytes) regular)
      (client_is_served machine from server ended 5 bytes (generous [] ending) peer local
        socks5_handler (omega arith, bytewise) answers refl r)
