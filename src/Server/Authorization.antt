-- ===== src/Server/Authorization.antt =====
-- What the tasks of the server do on behalf of their clients.
use lurk.Http.{Response, Served}
use lurk.Http.Outcomes.{get_host_addr-host, serve_request-Outcome, Outcome}
use lurk.Http.Host.{Names}
use lurk.HttpHost.{connect, get_host_addr, Request}
use lurk.Address.{Address, SocketAddr}
use lurk.Common.{some, refl, append_assoc, ◌∙◌}
use lurk.Server.Steps.{while_answered, http_events, served_events}
use lurk.Net.{to_socket_addr}
use lurk.Auth.{contains}
use lurk.Socks5.Wire.{encode_relay, encode_handshake}
use lurk.Socks5.Request.{RelayRequest}
use lurk.Common.Bytes.{IsByte}
use lurk.Tcp.{LurkTcpConnection, establish_tcp_connection}
use lurk.Error.{panic, err, Result, tcp_connect, ok, LurkAuthMethod}
use lurk.Common.{
  All-map, All-append_right, [], true, All-append, inr, ◌∷◌, sym, ◌++◌, subst, ℕ, inl, ◌≡◌, All,
  List,
}
use lurk.Server.Steps.{did, initial, events_by, Run, task_events, session_of, Node, Machine}
use lurk.Handler.{Session, Event, dialed, tunnelled}
use lurk.Handler.Safety.{handle-Authorized, Authorized}
use lurk.Server.Tasks.{Run-Everywhere}
use lurk.Server.{LurkTcpConnectionHandler, Task, socks5_handler, http_handler}

module _ (machine : Machine) where
  -- The client of a connection had sent a greeting that offers `None` and then this CONNECT request,
  -- whose address is resolved to `addr`.
  pub record Asked (conn : LurkTcpConnection) (addr : SocketAddr) : Type 0 where
    pub methods : List LurkAuthMethod
    pub request : RelayRequest
    pub unread : List ℕ
    pub received :
        conn.stream.incoming ≡ encode_handshake methods ++ (encode_relay request ++ unread)
    pub offered : contains methods LurkAuthMethod.none ≡ true
    pub connects : request.command ≡ tcp_connect
    pub resolved : to_socket_addr machine.net request.endpoint_address ≡ ok addr

  -- The client of an HTTP connection had sent a request that names a host which is resolved to `addr`.
  pub record Requested (requests : List (Request machine.types)) (addr : SocketAddr) : Type 0 where
    pub before : List (Request machine.types)
    pub req : Request machine.types
    pub after : List (Request machine.types)
    pub among : requests ≡ before ++ (req ∷ after)
    pub host : Address
    pub named : Names machine.types req host
    pub resolved : to_socket_addr machine.net host ≡ ok addr

  -- An event of a connection is what its client asked for.
  abbrev pub IsCaused : LurkTcpConnectionHandler → LurkTcpConnection → Event → Type 0
  IsCaused socks5_handler conn (dialed addr) = Asked conn addr
  IsCaused socks5_handler conn (tunnelled addr) =
      Asked conn addr
      × ((outbound : machine.net.Socket) × (establish_tcp_connection machine.net machine.debug addr
            ≡ ok outbound))
  IsCaused http_handler conn (dialed addr) = Requested (machine.requests conn) addr
  IsCaused http_handler conn (tunnelled addr) =
      (asked : Requested (machine.requests conn) addr) × (asked.req.method ≡ connect)
      × ((outbound : machine.net.Socket) × (establish_tcp_connection machine.net machine.debug addr
            ≡ ok outbound))

  -- All that a task has done was asked for by the client of its connection.
  abbrev pub IsTaskCaused : Task → Type 0
  IsTaskCaused task = All (IsCaused task.handler task.conn) task.progress

  Authorized-All :
      (conn : LurkTcpConnection) (s : Session)
      → Authorized machine.net machine.debug (session_of conn) s
      → All (IsCaused socks5_handler conn) s.events
  Authorized-All conn s h =
      let asked : Asked conn h.opened.addr = record {
        methods = h.methods;
        request = h.request;
        unread = h.unread;
        received = h.received;
        offered = h.offered;
        connects = h.opened.connects;
        resolved = h.opened.resolved;
      } in
      elim h.opened.events [
        | inl e ↦ subst (All (IsCaused socks5_handler conn)) (sym e) (asked, tt)
        | inr (e, connected) ↦
            subst (All (IsCaused socks5_handler conn)) (sym e) (asked, ((asked, connected), tt))
      ]

  module _ (conn : LurkTcpConnection) (before after : List (Request machine.types))
      (req : Request machine.types) (e : machine.requests conn ≡ before ++ (req ∷ after)) where
    requested :
        (host : Address) (addr : SocketAddr)
        → (get_host_addr machine.types req).0 ≡ some host
        → to_socket_addr machine.net host ≡ ok addr
        → Requested (machine.requests conn) addr
    requested host addr h r = record {
      before = before;
      req = req;
      after = after;
      among = e;
      host = host;
      named = get_host_addr-host machine.types req host h;
      resolved = r;
    }

    Outcome-IsCaused :
        (served : Served machine.net)
        → Outcome machine.types machine.net machine.debug machine.send req served
        → All (IsCaused http_handler conn) (served_events machine served.dialed served.tunnel)
    unfolding requested
    Outcome-IsCaused _ (Outcome.no_host h) = tt
    Outcome-IsCaused _ (Outcome.unresolved host x h r) = tt
    Outcome-IsCaused _ (Outcome.tunnelled host addr outbound m h r c) =
        (requested host addr h r, ((requested host addr h r, m, (outbound, c)), tt))
    Outcome-IsCaused _ (Outcome.unreachable host addr x m h r c) = (requested host addr h r, tt)
    Outcome-IsCaused _ (Outcome.forwarded name host addr outbound m h r c) =
        (requested host addr h r, tt)
    Outcome-IsCaused _ (Outcome.not_forwarded name host addr kind m h r c) =
        (requested host addr h r, tt)

  while_answered-All :
      (P : Event → Type 0) (answer : Result Response) (events : List Event)
      → All P events
      → All P (while_answered machine answer events)
  while_answered-All P (ok answer) events h = h
  while_answered-All P (err e) events h = tt
  while_answered-All P panic events h = tt

  http_events-Requested :
      (conn : LurkTcpConnection) (before rest : List (Request machine.types))
      → machine.requests conn ≡ before ++ rest
      → All (IsCaused http_handler conn) (http_events machine rest)
  http_events-Requested conn before [] e = tt
  http_events-Requested conn before (req ∷ rest) e =
      All-append (IsCaused http_handler conn) _ _
        (Outcome-IsCaused conn before rest req e _
          (serve_request-Outcome machine.types machine.net machine.debug machine.send req))
        (while_answered-All (IsCaused http_handler conn) _ _ (
          http_events-Requested conn (before ++ req ∷ []) rest
            (e ∙ sym (append_assoc before (req ∷ []) rest))))

  events_by-IsCaused :
      (handler : LurkTcpConnectionHandler) (conn : LurkTcpConnection)
      → All IsByte conn.stream.incoming
      → All (IsCaused handler conn) (events_by machine handler conn)
  events_by-IsCaused http_handler conn bytewise = http_events-Requested conn [] _ refl
  events_by-IsCaused socks5_handler conn bytewise =
      elim (handle-Authorized machine.net machine.debug machine.order (session_of conn) bytewise) [
        | inl e ↦ subst (All (IsCaused socks5_handler conn)) (sym e) tt
        | inr h ↦ Authorized-All conn _ h
      ]

  -- A task on a stream of bytes whose progress was asked for.
  abbrev IsTraced : Task → Type 0
  IsTraced task = All IsByte task.conn.stream.incoming × IsTaskCaused task

  advanced :
      (task : Task) (event : Event) (rest : List Event)
      → task_events machine task ≡ task.progress ++ (event ∷ rest)
      → IsTraced task
      → IsTraced (did event task)
  advanced task event rest e (bytewise, h) =
      let all =
        subst (All (IsCaused task.handler task.conn)) e
          (events_by-IsCaused task.handler task.conn bytewise) in
      (
        bytewise,
        All-append (IsCaused task.handler task.conn) task.progress (event ∷ []) h (
          (All-append_right (IsCaused task.handler task.conn) task.progress (event ∷ rest) all).0,
          tt,
        ),
      )

  -- In every run of the server, whatever its clients send and however its tasks interleave and are
  -- cancelled: whatever a task has dialed and tunnelled, running tasks and ended ones included, was
  -- asked for on the task's own connection. Of a SOCKS5 connection, the client had sent a greeting
  -- that offers `None` and a CONNECT request that is resolved to the address; and a tunnel was run
  -- only where a connection to the address is established. Of an HTTP connection, the address is what
  -- the host of a request on the connection resolves to; and a tunnel was started only for a request
  -- with CONNECT, and where a connection to the address is established.
  pub Run-IsTaskCaused :
      (bind_addr : SocketAddr) (n : Node)
      → Run machine (initial bind_addr) n
      → All IsTaskCaused n.server.task_tracker.tasks × All IsTaskCaused n.ended
  Run-IsTaskCaused bind_addr n r =
      let all =
        Run-Everywhere machine IsTraced
          (record { spawned = λ conn handler same bytewise. (bytewise, tt); advanced = advanced })
          bind_addr n r in
      (
        All-map IsTraced IsTaskCaused (λ task h. h.1) n.server.task_tracker.tasks all.running,
        All-map IsTraced IsTaskCaused (λ task h. h.1) n.ended all.ended,
      )
