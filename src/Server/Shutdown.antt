-- ===== src/Server/Shutdown.antt =====
-- What holds in every run of the server, and that a shutdown ends.
use lurk.Server.Tasks.{Run-Everywhere}
use lurk.Error.{panic, Result, err, ok}
use lurk.Address.{SocketAddr}
use lurk.Stats.{on_server_started}
use lurk.Tcp.{LurkTcpConnection, TcpStream}
use lurk.Common.{
  arith, ◌∙◌, sym, inr, [], inl, refl, ◌≢◌, ◌⊎◌, ◌∷◌, false, true, ◌++◌, All, ◌≡◌, Bool, List,
}
use lurk.Server.Steps.{
  Step, initial, Run, IsAccepting, Machine, Node, Phase, bind_done, bind_failed, start, connect,
  refuse, establish, reject, wake, ctrl_c, advance, finish, cancel, wait, here, next, peeking,
  binding, starting, listening, sleeping, waiting, returned,
}
use lurk.Server.{
  on_server_finished, LurkTcpConnectionHandler, on_shutdown_requested,
  on_tcp_connection_established, new_server, create_tcp_connection_handler, LurkServer, Task, spawn,
  with_tasks,
}

-- The tasks of a server handle connections whose label is that of the handler.
abbrev pub IsServed : Task → Type 0
IsServed task = create_tcp_connection_handler task.conn.label ≡ ok task.handler

-- After Ctrl+C.
abbrev pub is_down : Phase → Bool
is_down waiting = true
is_down (returned (ok u)) = true
is_down (returned (err e)) = false
is_down (returned panic) = false
is_down binding = false
is_down starting = false
is_down listening = false
is_down (peeking client) = false
is_down (sleeping millis) = false

-- After the start.
abbrev pub is_up : Phase → Bool
is_up binding = false
is_up starting = false
is_up (returned (err e)) = false
is_up (returned panic) = false
is_up _ = true

-- A task may run.
abbrev pub is_busy : Phase → Bool
is_busy listening = true
is_busy (peeking client) = true
is_busy (sleeping millis) = true
is_busy waiting = true
is_busy _ = false

-- The tracker is closed and the token cancelled just when a shutdown was requested; the stats say
-- that the server was started just when it was; without a start, and after the return, there is no
-- task.
pub record IsStaged (n : Node) : Type 0 where
  pub closed : n.server.task_tracker.closed ≡ is_down n.phase
  pub cancelled : n.server.cancelled ≡ is_down n.phase
  pub started : n.server.stats.is_started ≡ is_up n.phase
  pub drained : (is_busy n.phase ≡ true) ⊎ (n.server.task_tracker.tasks ≡ [])

-- Moreover each task, also an ended one, has the handler of its connection's label, and so no
-- connection with an unknown label.
pub record IsSound (n : Node) : Type 0 where
  pub staged : IsStaged n
  pub served : All IsServed n.server.task_tracker.tasks
  pub ended_served : All IsServed n.ended

pub nonempty : (before after : List Task) (task : Task) → before ++ (task ∷ after) ≢ []
nonempty [] after task = λ e. cc
nonempty (t ∷ before) after task = λ e. cc

pub accepting : (phase : Phase) → IsAccepting phase → (is_down phase ≡ false) × (is_up phase ≡ true)
accepting listening h = (refl, refl)
accepting (peeking client) h = (refl, refl)
accepting binding h = absurd h
accepting starting h = absurd h
accepting (sleeping millis) h = absurd h
accepting waiting h = absurd h
accepting (returned r) h = absurd h

spawn-IsStaged :
    (server : LurkServer) (ended : List Task) (client : TcpStream) (conn : LurkTcpConnection)
    (r : Result LurkTcpConnectionHandler)
    → IsStaged (record { phase = peeking client; server = server; ended = ended })
    → IsStaged (record { phase = listening; server = spawn conn server r; ended = ended })
spawn-IsStaged server ended client conn (ok handler) h = record {
  closed = h.closed;
  cancelled = h.cancelled;
  started = h.started;
  drained = inl refl;
}
spawn-IsStaged server ended client conn (err x) h = record {
  closed = h.closed;
  cancelled = h.cancelled;
  started = h.started;
  drained = inl refl;
}
spawn-IsStaged server ended client conn panic h = record {
  closed = h.closed;
  cancelled = h.cancelled;
  started = h.started;
  drained = inl refl;
}

-- Where there is a task, tasks may be changed and removed.
work-IsStaged :
    (phase : Phase) (server : LurkServer) (ended ended' before after tasks : List Task)
    (task : Task)
    → server.task_tracker.tasks ≡ before ++ (task ∷ after)
    → IsStaged (record { phase = phase; server = server; ended = ended })
    → IsStaged (record { phase = phase; server = with_tasks tasks server; ended = ended' })
work-IsStaged phase server ended ended' before after tasks task e h = record {
  closed = h.closed;
  cancelled = h.cancelled;
  started = h.started;
  drained = elim h.drained [
    | inl busy ↦ inl busy
    | inr empty ↦ absurd (nonempty before after task (sym e ∙ empty))
  ];
}

module _ (machine : Machine) where
  Step-IsStaged : {n m : Node} → Step machine n m → IsStaged n → IsStaged m
  unfolding on_server_started on_tcp_connection_established on_shutdown_requested on_server_finished
  Step-IsStaged (bind_done server ended listener e) h = record {
    closed = h.closed;
    cancelled = h.cancelled;
    started = h.started;
    drained = h.drained;
  }
  Step-IsStaged (bind_failed server ended x e) h = record {
    closed = h.closed;
    cancelled = h.cancelled;
    started = h.started;
    drained = h.drained;
  }
  Step-IsStaged (start server ended now stats e) h = record {
    closed = h.closed;
    cancelled = h.cancelled;
    started = ground arith;
    drained = inl refl;
  }
  Step-IsStaged (connect server ended client bytewise) h = record {
    closed = h.closed;
    cancelled = h.cancelled;
    started = h.started;
    drained = inl refl;
  }
  Step-IsStaged (refuse server ended kind x e) h = record {
    closed = h.closed;
    cancelled = h.cancelled;
    started = h.started;
    drained = inl refl;
  }
  Step-IsStaged (establish server ended client conn answers e) h =
      spawn-IsStaged server ended client conn (create_tcp_connection_handler conn.label) h
  Step-IsStaged (reject server ended client x answers e) h = record {
    closed = h.closed;
    cancelled = h.cancelled;
    started = h.started;
    drained = inl refl;
  }
  Step-IsStaged (wake server ended millis) h = record {
    closed = h.closed;
    cancelled = h.cancelled;
    started = h.started;
    drained = inl refl;
  }
  Step-IsStaged (ctrl_c phase server ended hears) h = record {
    closed = refl;
    cancelled = refl;
    started = h.started ∙ (accepting phase hears).1;
    drained = inl refl;
  }
  Step-IsStaged (advance phase server ended before after task event rest e f) h =
      work-IsStaged phase server ended ended before after _ task e h
  Step-IsStaged (finish phase server ended before after task e f) h =
      work-IsStaged phase server ended _ before after _ task e h
  Step-IsStaged (cancel phase server ended before after task e c) h =
      work-IsStaged phase server ended _ before after _ task e h
  Step-IsStaged (wait server ended closed empty) h = record {
    closed = h.closed;
    cancelled = h.cancelled;
    started = h.started;
    drained = inr empty;
  }

  pub Run-IsStaged :
      (bind_addr : SocketAddr) (n : Node) → Run machine (initial bind_addr) n → IsStaged n
  unfolding new_server
  Run-IsStaged bind_addr n here = record {
    closed = refl;
    cancelled = refl;
    started = refl;
    drained = inr refl;
  }
  Run-IsStaged bind_addr n (next r s) = Step-IsStaged s (Run-IsStaged bind_addr _ r)

  -- In every run of the server, whatever is accepted and in whatever order tasks go on and end: the
  -- tracker is closed and the token cancelled exactly after Ctrl+C; the stats say that the server
  -- was started exactly once it listens; each task that runs or ran has the handler of its
  -- connection's label, so that no task handles a connection of unknown traffic; and when `run`
  -- returns, no task is left.
  pub Run-IsSound :
      (bind_addr : SocketAddr) (n : Node) → Run machine (initial bind_addr) n → IsSound n
  Run-IsSound bind_addr n r =
      let tasks =
        Run-Everywhere machine IsServed
          (record {
            spawned = λ conn handler same bytewise. same;
            advanced = λ task event rest e h. h;
          })
          bind_addr n r in
      record {
        staged = Run-IsStaged bind_addr n r;
        served = tasks.running;
        ended_served = tasks.ended;
      }

  abbrev pub at : Phase → LurkServer → List Task → Node
  at phase server ended = record { phase = phase; server = server; ended = ended }
