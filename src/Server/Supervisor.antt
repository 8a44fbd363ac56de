-- ===== src/Server/Supervisor.antt =====
-- The server as an abstract service that counts its connections, and that the server implements it.
use lurk.Tcp.{LurkTcpConnection}
use lurk.Address.{SocketAddr}
use lurk.Server.{
  on_server_finished, spawn, on_shutdown_requested, create_tcp_connection_handler,
  on_tcp_connection_established, Task, LurkServer, LurkTcpConnectionHandler,
}
use lurk.Error.{panic, err, ok, Result}
use lurk.Common.{
  ap, ◌∙◌, subst, sym, inr, length-append, inl, true, arith, ◌++◌, ◌∷◌, suc, length, [], ◌≡◌, List,
  ℕ,
}
use lurk.Server.Steps.{
  did, initial, IsAccepting, Run, Step, Machine, Node, Phase, bind_done, bind_failed, start,
  connect, refuse, establish, reject, wake, ctrl_c, advance, finish, cancel, wait, here, next,
  peeking, binding, starting, listening, sleeping, waiting, returned,
}
use lurk.Server.Shutdown.{is_busy, is_down, IsStaged, Run-IsStaged, nonempty}

-- A service is off, serves so many connections, drains so many, or has stopped.
pub data Service : Type 0 where
  off stopped : Service
  serving draining : ℕ → Service

pub data Action : Type 0 where
  internal opens gives_up takes completes aborts shuts stops : Action

-- The specification. A connection that was taken is left to complete while the service serves;
-- connections are aborted only while it drains; it stops only when none is left; and it gives up only
-- before it has opened.
pub data Moves : Action → Service → Service → Type 0 where
  stay : (s : Service) → Moves internal s s
  open_up : Moves opens off (serving 0)
  give_up : Moves gives_up off stopped
  take_on : (n m : ℕ) → m ≡ suc n → Moves takes (serving n) (serving m)
  complete : (n m : ℕ) → n ≡ suc m → Moves completes (serving n) (serving m)
  shut : (n : ℕ) → Moves shuts (serving n) (draining n)
  complete_late : (n m : ℕ) → n ≡ suc m → Moves completes (draining n) (draining m)
  abort : (n m : ℕ) → n ≡ suc m → Moves aborts (draining n) (draining m)
  stop : Moves stops (draining 0) stopped

-- A behaviour of the service, from off.
pub data Behaves : List Action → Service → Type 0 where
  begin : Behaves [] off
  act :
      (actions : List Action) (action : Action) (s t : Service)
      → Behaves actions s
      → Moves action s t
      → Behaves (action ∷ actions) t

-- What of a server the service shows.
abbrev pub service_in : Phase → ℕ → Service
service_in binding n = off
service_in starting n = off
service_in listening n = serving n
service_in (peeking client) n = serving n
service_in (sleeping millis) n = serving n
service_in waiting n = draining n
service_in (returned r) n = stopped

abbrev pub service : Node → Service
service n = service_in n.phase (length n.server.task_tracker.tasks)

-- Connections with an unknown label are dropped inside.
abbrev handing : Result LurkTcpConnectionHandler → Action
handing (ok handler) = takes
handing (err e) = internal
handing panic = internal

module _ (machine : Machine) where
  abbrev pub action_of : {n m : Node} → Step machine n m → Action
  action_of (bind_done server ended listener e) = internal
  action_of (bind_failed server ended x e) = gives_up
  action_of (start server ended now stats e) = opens
  action_of (connect server ended client bytewise) = internal
  action_of (refuse server ended kind x e) = internal
  action_of (establish server ended client conn answers e) =
      handing (create_tcp_connection_handler conn.label)
  action_of (reject server ended client x answers e) = internal
  action_of (wake server ended millis) = internal
  action_of (ctrl_c phase server ended hears) = shuts
  action_of (advance phase server ended before after task event rest e f) = internal
  action_of (finish phase server ended before after task e f) = completes
  action_of (cancel phase server ended before after task e c) = aborts
  action_of (wait server ended closed empty) = stops

  -- The actions of a run, the last first.
  abbrev pub actions_of : {n m : Node} → Run machine n m → List Action
  actions_of here = []
  actions_of (next r s) = action_of s ∷ actions_of r

  spawn-Moves :
      (server : LurkServer) (conn : LurkTcpConnection) (r : Result LurkTcpConnectionHandler)
      → Moves
          (handing r)
          (serving (length server.task_tracker.tasks))
          (serving (length (spawn conn server r).task_tracker.tasks))
  spawn-Moves server conn (ok handler) = take_on _ _ (
      omega (
        arith,
        length-append server.task_tracker.tasks
            (record { handler = handler; conn = conn; progress = [] } ∷ []),
      ))
  spawn-Moves server conn (err e) = stay _
  spawn-Moves server conn panic = stay _

  ctrl_c-Moves :
      (phase : Phase) (n : ℕ) → IsAccepting phase → Moves shuts (service_in phase n) (draining n)
  ctrl_c-Moves listening n hears = shut n
  ctrl_c-Moves (peeking client) n hears = shut n
  ctrl_c-Moves binding n hears = absurd hears
  ctrl_c-Moves starting n hears = absurd hears
  ctrl_c-Moves (sleeping millis) n hears = absurd hears
  ctrl_c-Moves waiting n hears = absurd hears
  ctrl_c-Moves (returned r) n hears = absurd hears

  finish-Moves :
      (phase : Phase) (n m : ℕ)
      → n ≡ suc m
      → is_busy phase ≡ true
      → Moves completes (service_in phase n) (service_in phase m)
  finish-Moves listening n m e busy = complete n m e
  finish-Moves (peeking client) n m e busy = complete n m e
  finish-Moves (sleeping millis) n m e busy = complete n m e
  finish-Moves waiting n m e busy = complete_late n m e
  finish-Moves binding n m e busy = cc
  finish-Moves starting n m e busy = cc
  finish-Moves (returned r) n m e busy = cc

  cancel-Moves :
      (phase : Phase) (n m : ℕ)
      → n ≡ suc m
      → is_busy phase ≡ true
      → is_down phase ≡ true
      → Moves aborts (service_in phase n) (service_in phase m)
  cancel-Moves waiting n m e busy down = abort n m e
  cancel-Moves listening n m e busy down = cc
  cancel-Moves (peeking client) n m e busy down = cc
  cancel-Moves (sleeping millis) n m e busy down = cc
  cancel-Moves binding n m e busy down = cc
  cancel-Moves starting n m e busy down = cc
  cancel-Moves (returned r) n m e busy down = cc

  -- Where there is a task, the phase is one in which tasks run.
  working :
      (n : Node) (before after : List Task) (task : Task)
      → n.server.task_tracker.tasks ≡ before ++ (task ∷ after)
      → IsStaged n
      → (is_busy n.phase ≡ true)
        × (length n.server.task_tracker.tasks ≡ suc (length (before ++ after)))
  working n before after task e h = (
    elim h.drained [
      | inl busy ↦ busy
      | inr empty ↦ absurd (nonempty before after task (sym e ∙ empty))
    ],
    omega (arith, ap length e, length-append before (task ∷ after), length-append before after),
  )

  Step-Moves :
      {n m : Node} (s : Step machine n m) → IsStaged n → Moves (action_of s) (service n) (service m)
  unfolding on_tcp_connection_established on_shutdown_requested on_server_finished
  Step-Moves (bind_done server ended listener e) h = stay _
  Step-Moves (bind_failed server ended x e) h = give_up
  Step-Moves (start server ended now stats e) h = elim h.drained [
    | inl busy ↦ cc
    | inr empty ↦ subst (λ ts. Moves opens off (serving (length ts))) (sym empty) open_up
  ]
  Step-Moves (connect server ended client bytewise) h = stay _
  Step-Moves (refuse server ended kind x e) h = stay _
  Step-Moves (establish server ended client conn answers e) h =
      spawn-Moves server conn (create_tcp_connection_handler conn.label)
  Step-Moves (reject server ended client x answers e) h = stay _
  Step-Moves (wake server ended millis) h = stay _
  Step-Moves (ctrl_c phase server ended hears) h = ctrl_c-Moves phase _ hears
  Step-Moves (advance phase server ended before after task event rest e f) h =
      subst
        (λ k.
          Moves internal (service_in phase (length server.task_tracker.tasks)) (service_in phase k))
        (omega (
          arith,
          ap length e,
          length-append before (task ∷ after),
          length-append before (did event task ∷ after),
        ))
        (stay (service_in phase (length server.task_tracker.tasks)))
  Step-Moves (finish phase server ended before after task e f) h =
      let (busy, fewer) =
        working (record { phase = phase; server = server; ended = ended }) before after task e h in
      finish-Moves phase _ _ fewer busy
  Step-Moves (cancel phase server ended before after task e c) h =
      let (busy, fewer) =
        working (record { phase = phase; server = server; ended = ended }) before after task e h in
      cancel-Moves phase _ _ fewer busy (sym h.cancelled ∙ c)
  Step-Moves (wait server ended closed empty) h =
      subst (λ ts. Moves stops (draining (length ts)) stopped) (sym empty) stop

  -- The server implements the service: what a run of it does, seen as actions of the service, is a
  -- behaviour of the service that ends where the server stands. So a task is aborted only after
  -- Ctrl+C, no connection is taken after it, and the server stops with every task ended.
  pub Run-Behaves :
      (bind_addr : SocketAddr) (n : Node) (r : Run machine (initial bind_addr) n)
      → Behaves (actions_of r) (service n)
  Run-Behaves bind_addr n here = begin
  Run-Behaves bind_addr n (next r s) =
      act (actions_of r) (action_of s) _ _ (Run-Behaves bind_addr _ r)
        (Step-Moves s (Run-IsStaged machine bind_addr _ r))
