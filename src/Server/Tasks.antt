-- ===== src/Server/Tasks.antt =====
-- What holds of every task, running or ended, in every run of the server.
use lurk.Handler.{Event}
use lurk.Address.{SocketAddr}
use lurk.Error.{ok-injective, panic, err, from_io, and_then-eq-ok, ok, Result, done}
use lurk.Common.Bytes.{IsByte}
use lurk.Common.{
  ap, refl, All-append_left, sym, All-append_right, All-append, subst, ◌∷◌, [], ◌++◌, ◌≡◌, List,
  All,
}
use lurk.Tcp.{from_tcp_stream, LurkTcpConnection, TcpStream, accept}
use lurk.Server.Steps.{
  initial, did, task_events, Step, Run, Node, Machine, Phase, bind_done, bind_failed, start,
  connect, refuse, establish, reject, wake, ctrl_c, advance, finish, cancel, wait, here, next,
  peeking,
}
use lurk.Server.{
  on_server_finished, create_tcp_connection_handler, on_shutdown_requested,
  LurkTcpConnectionHandler, new_server, on_tcp_connection_established, LurkServer, Task, spawn,
  with_tasks,
}

-- An accepted client whose first byte is awaited sends bytes.
abbrev pub IsBytewise : Phase → Type 0
IsBytewise (peeking client) = All IsByte client.stream.incoming
IsBytewise _ = Unit

accept-stream :
    (client : TcpStream) (conn : LurkTcpConnection)
    → accept (done client) ≡ ok conn
    → conn.stream ≡ client.stream
unfolding accept
accept-stream client conn e =
    let (label, labelled, e') = and_then-eq-ok (from_tcp_stream client.stream) _ e in
    let (peer, e₁, e'') = and_then-eq-ok (from_io client.peer) _ e' in
    let (local, e₂, e''') = and_then-eq-ok (from_io client.local) _ e'' in
    ap (λ c. c.stream) (sym (ok-injective e'''))

module _ (machine : Machine) (P : Task → Type 0) where
  pub record Everywhere (n : Node) : Type 0 where
    pub running : All P n.server.task_tracker.tasks
    pub ended : All P n.ended
    pub bytewise : IsBytewise n.phase

  -- A predicate that a new task has, and that a task keeps while its handler goes on.
  pub record IsKept : Type 0 where
    pub spawned :
        (conn : LurkTcpConnection) (handler : LurkTcpConnectionHandler)
        → create_tcp_connection_handler conn.label ≡ ok handler
        → All IsByte conn.stream.incoming
        → P (record { handler = handler; conn = conn; progress = [] })
    pub advanced :
        (task : Task) (event : Event) (rest : List Event)
        → task_events machine task ≡ task.progress ++ (event ∷ rest)
        → P task
        → P (did event task)

  -- The task between others.
  between :
      (tasks before after : List Task) (task : Task)
      → tasks ≡ before ++ (task ∷ after)
      → All P tasks
      → All P before × P task × All P after
  between tasks before after task e h =
      let h' = subst (All P) e h in
      let (p, after') = All-append_right P before (task ∷ after) h' in
      (All-append_left P before (task ∷ after) h', p, after')

  leave :
      (phase : Phase) (server : LurkServer) (ended before after : List Task) (task : Task)
      → server.task_tracker.tasks ≡ before ++ (task ∷ after)
      → Everywhere (record { phase = phase; server = server; ended = ended })
      → Everywhere (record {
        phase = phase;
        server = with_tasks (before ++ after) server;
        ended = ended ++ task ∷ [];
      })
  leave phase server ended before after task e h =
      let (front, p, back) = between server.task_tracker.tasks before after task e h.running in
      record {
        running = All-append P before after front back;
        ended = All-append P ended (task ∷ []) h.ended (p, tt);
        bytewise = h.bytewise;
      }

  spawn-All :
      (server : LurkServer) (conn : LurkTcpConnection) (r : Result LurkTcpConnectionHandler)
      → ((handler : LurkTcpConnectionHandler)
          → r ≡ ok handler
          → P (record { handler = handler; conn = conn; progress = [] }))
      → All P server.task_tracker.tasks
      → All P (spawn conn server r).task_tracker.tasks
  spawn-All server conn (ok handler) new h =
      All-append P server.task_tracker.tasks _ h (new handler refl, tt)
  spawn-All server conn (err e) new h = h
  spawn-All server conn panic new h = h

  module _ (kept : IsKept) where
    Step-Everywhere : {n m : Node} → Step machine n m → Everywhere n → Everywhere m
    unfolding on_tcp_connection_established on_shutdown_requested on_server_finished
    Step-Everywhere (bind_done server ended listener e) h = record {
      running = h.running;
      ended = h.ended;
      bytewise = tt;
    }
    Step-Everywhere (bind_failed server ended x e) h = record {
      running = h.running;
      ended = h.ended;
      bytewise = tt;
    }
    Step-Everywhere (start server ended now stats e) h = record {
      running = h.running;
      ended = h.ended;
      bytewise = tt;
    }
    Step-Everywhere (connect server ended client bytewise) h = record {
      running = h.running;
      ended = h.ended;
      bytewise = bytewise;
    }
    Step-Everywhere (refuse server ended kind x e) h = record {
      running = h.running;
      ended = h.ended;
      bytewise = tt;
    }
    Step-Everywhere (establish server ended client conn answers e) h = record {
      running =
          spawn-All server conn (create_tcp_connection_handler conn.label)
            (λ handler same.
              kept.spawned conn handler same
                (subst (λ s. All IsByte s.incoming) (sym (accept-stream client conn e)) h.bytewise))
            h.running;
      ended = h.ended;
      bytewise = tt;
    }
    Step-Everywhere (reject server ended client x answers e) h = record {
      running = h.running;
      ended = h.ended;
      bytewise = tt;
    }
    Step-Everywhere (wake server ended millis) h = record {
      running = h.running;
      ended = h.ended;
      bytewise = tt;
    }
    Step-Everywhere (ctrl_c phase server ended accepting) h = record {
      running = h.running;
      ended = h.ended;
      bytewise = tt;
    }
    Step-Everywhere (advance phase server ended before after task event rest e f) h =
        let (front, p, back) = between server.task_tracker.tasks before after task e h.running in
        record {
          running =
              All-append P before (did event task ∷ after) front
                (kept.advanced task event rest f p, back);
          ended = h.ended;
          bytewise = h.bytewise;
        }
    Step-Everywhere (finish phase server ended before after task e f) h =
        leave phase server ended before after task e h
    Step-Everywhere (cancel phase server ended before after task e c) h =
        leave phase server ended before after task e h
    Step-Everywhere (wait server ended closed empty) h = record {
      running = h.running;
      ended = h.ended;
      bytewise = tt;
    }

    -- In every run of the server, all tasks have the predicate.
    pub Run-Everywhere :
        (bind_addr : SocketAddr) (n : Node) → Run machine (initial bind_addr) n → Everywhere n
    unfolding new_server
    Run-Everywhere bind_addr n here = record { running = tt; ended = tt; bytewise = tt }
    Run-Everywhere bind_addr n (next r s) = Step-Everywhere s (Run-Everywhere bind_addr _ r)
