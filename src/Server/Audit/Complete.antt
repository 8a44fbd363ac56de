-- ===== src/Server/Audit/Complete.antt =====
-- That the log of the server is complete.
use lurk.HttpHost.{Request}
use lurk.Handler.{Event}
use lurk.Server.Shutdown.{IsServed, Run-IsSound}
use lurk.Http.{Served}
use lurk.Handler.Calmness.{handle-IsCalm}
use lurk.Stream.Calm.{IsCalm}
use lurk.Error.{panic, err, ok, Result, Error}
use lurk.Tcp.{http, socks5, LurkTcpConnection, LurkTcpConnectionLabel}
use lurk.Address.{SocketAddr}
use lurk.Common.{
  All-append, subst, All-pick, All, ap, refl, arith, [], ◌++◌, ◌∷◌, ◌+◌, List, ℕ, ◌≡◌, Bool,
  if◌then◌else◌,
}
use lurk.Server.Audit.{
  crashed, crashed_in, crashes, wait, cancel, finish, advance, ctrl_c, wake, establish, refuse,
  connect, bind_failed, bind_done, canceled, closed, closed_with_error, entries_of, established,
  log_of, not_accepted, result_by, result_entries, unhandled, Entry,
}
use lurk.Server.{
  http_handler, on_server_finished, socks5_handler, on_shutdown_requested, new_server,
  on_tcp_connection_established, unknown, LurkTcpConnectionHandler, create_tcp_connection_handler,
  spawn, Task, LurkServer,
}
use lurk.Server.Steps.{
  did, initial, Step, Run, Node, session_of, Machine, reject, next, start, here,
}

-- The connections that were opened, that were closed, and that are still handled, of those which a
-- test of peer and label picks out.
module _ (picks : SocketAddr → LurkTcpConnectionLabel → Bool) where
  abbrev one_if : Bool → ℕ
  one_if b = if b then 1 else 0

  abbrev pub opened : List Entry → ℕ
  opened [] = 0
  opened (established addr label ∷ log) = one_if (picks addr label) + opened log
  opened (closed addr label ∷ log) = opened log
  opened (canceled addr label ∷ log) = opened log
  opened (closed_with_error addr label e ∷ log) = opened log
  opened (not_accepted e ∷ log) = opened log

  abbrev pub settled : List Entry → ℕ
  settled [] = 0
  settled (established addr label ∷ log) = settled log
  settled (closed addr label ∷ log) = one_if (picks addr label) + settled log
  settled (canceled addr label ∷ log) = one_if (picks addr label) + settled log
  settled (closed_with_error addr label e ∷ log) = one_if (picks addr label) + settled log
  settled (not_accepted e ∷ log) = settled log

  abbrev pub handled : List Task → ℕ
  handled [] = 0
  handled (task ∷ tasks) = one_if (picks task.conn.peer_addr task.conn.label) + handled tasks

  opened-append : (xs ys : List Entry) → opened (xs ++ ys) ≡ opened xs + opened ys
  opened-append [] ys = omega arith
  opened-append (established addr label ∷ xs) ys = omega (arith, opened-append xs ys)
  opened-append (closed addr label ∷ xs) ys = opened-append xs ys
  opened-append (canceled addr label ∷ xs) ys = opened-append xs ys
  opened-append (closed_with_error addr label e ∷ xs) ys = opened-append xs ys
  opened-append (not_accepted e ∷ xs) ys = opened-append xs ys

  settled-append : (xs ys : List Entry) → settled (xs ++ ys) ≡ settled xs + settled ys
  settled-append [] ys = omega arith
  settled-append (established addr label ∷ xs) ys = settled-append xs ys
  settled-append (closed addr label ∷ xs) ys = omega (arith, settled-append xs ys)
  settled-append (canceled addr label ∷ xs) ys = omega (arith, settled-append xs ys)
  settled-append (closed_with_error addr label e ∷ xs) ys = omega (arith, settled-append xs ys)
  settled-append (not_accepted e ∷ xs) ys = settled-append xs ys

  handled-append : (xs ys : List Task) → handled (xs ++ ys) ≡ handled xs + handled ys
  handled-append [] ys = omega arith
  handled-append (t ∷ xs) ys = omega (arith, handled-append xs ys)

  -- What an event adds to the log, which tasks crash in it, and what it changes of the others.
  Balanced : List Entry → List Task → List Task → List Task → Type 0
  Balanced log lost before after =
      opened log + handled before ≡ settled log + handled after + handled lost

  spawn-Balanced :
      (conn : LurkTcpConnection) (server : LurkServer) (r : Result LurkTcpConnectionHandler)
      → IsCalm r
      → Balanced
          (established conn.peer_addr conn.label ∷ unhandled conn r)
          []
          server.task_tracker.tasks
          (spawn conn server r).task_tracker.tasks
  unfolding Balanced
  spawn-Balanced conn server (ok handler) h = omega (
    arith,
    handled-append server.task_tracker.tasks
        (record { handler = handler; conn = conn; progress = [] } ∷ []),
  )
  spawn-Balanced conn server (err e) h = omega arith
  spawn-Balanced conn server panic h = absurd h

  leave-Balanced :
      (tasks before after lost : List Task) (task : Task) (log : List Entry)
      → tasks ≡ before ++ (task ∷ after)
      → opened log ≡ 0
      → settled log + handled lost ≡ one_if (picks task.conn.peer_addr task.conn.label)
      → Balanced log lost tasks (before ++ after)
  unfolding Balanced
  leave-Balanced tasks before after lost task log e o s =
      omega (arith, ap handled e, handled-append before (task ∷ after), handled-append before after)

  work-Balanced :
      (tasks before after : List Task) (task : Task) (event : Event)
      → tasks ≡ before ++ (task ∷ after)
      → Balanced [] [] tasks (before ++ (did event task ∷ after))
  unfolding Balanced
  work-Balanced tasks before after task event e = omega (
    arith,
    ap handled e,
    handled-append before (task ∷ after),
    handled-append before (did event task ∷ after),
  )

  result-Balanced :
      (tasks before after : List Task) (task : Task) (r : Result (Unit {0}))
      → tasks ≡ before ++ (task ∷ after)
      → Balanced (result_entries task.conn r) (crashes task r) tasks (before ++ after)
  result-Balanced tasks before after task (ok u) e =
      leave-Balanced tasks before after [] task _ e refl (omega arith)
  result-Balanced tasks before after task (err x) e =
      leave-Balanced tasks before after [] task _ e refl (omega arith)
  result-Balanced tasks before after task panic e =
      leave-Balanced tasks before after (task ∷ []) task [] e refl (omega arith)

  same-Balanced : (tasks : List Task) → Balanced [] [] tasks tasks
  unfolding Balanced
  same-Balanced tasks = omega arith

  noted-Balanced : (x : Error) (tasks : List Task) → Balanced (not_accepted x ∷ []) [] tasks tasks
  unfolding Balanced
  noted-Balanced x tasks = omega arith

create-IsCalm : (label : LurkTcpConnectionLabel) → IsCalm (create_tcp_connection_handler label)
unfolding create_tcp_connection_handler
create-IsCalm socks5 = tt
create-IsCalm http = tt
create-IsCalm (unknown v) = tt

-- The label of a connection, by its handler.
IsLabelOf : LurkTcpConnectionHandler → LurkTcpConnectionLabel → Type 0
IsLabelOf socks5_handler label = label ≡ socks5
IsLabelOf http_handler label = label ≡ http

create-IsLabelOf :
    (label : LurkTcpConnectionLabel) (handler : LurkTcpConnectionHandler)
    → create_tcp_connection_handler label ≡ ok handler
    → IsLabelOf handler label
unfolding create_tcp_connection_handler IsLabelOf
create-IsLabelOf socks5 socks5_handler e = refl
create-IsLabelOf socks5 http_handler e = cc
create-IsLabelOf http socks5_handler e = cc
create-IsLabelOf http http_handler e = refl
create-IsLabelOf (unknown v) socks5_handler e = cc
create-IsLabelOf (unknown v) http_handler e = cc

-- A task that handles an HTTP connection.
abbrev pub IsHttpTask : Task → Type 0
IsHttpTask task = task.conn.label ≡ http

no_crashes : (task : Task) (r : Result (Unit {0})) → IsCalm r → All IsHttpTask (crashes task r)
no_crashes task (ok u) h = tt
no_crashes task (err e) h = tt
no_crashes task panic h = absurd h

all_crashes :
    (task : Task) (r : Result (Unit {0})) → IsHttpTask task → All IsHttpTask (crashes task r)
all_crashes task (ok u) h = tt
all_crashes task (err e) h = tt
all_crashes task panic h = (h, tt)

module _ (machine : Machine)
    (serve : (Request machine.types → Served machine.net)
      → LurkTcpConnection
      → Result (Unit {0})) where
  -- Only the handler of an HTTP connection can panic.
  crashes-IsHttpTask :
      (task : Task)
      → IsLabelOf task.handler task.conn.label
      → (handler : LurkTcpConnectionHandler) → task.handler ≡ handler
      → All IsHttpTask (crashes task (result_by machine serve handler task.conn))
  unfolding IsLabelOf
  crashes-IsHttpTask task l http_handler e =
      all_crashes task _ (subst (λ h. IsLabelOf h task.conn.label) e l)
  crashes-IsHttpTask task l socks5_handler e = no_crashes task _ (
      handle-IsCalm machine.net machine.debug machine.order (session_of task.conn)
        (subst (λ h. IsLabelOf h task.conn.label) e l))

  module _ (picks : SocketAddr → LurkTcpConnectionLabel → Bool) where
    Step-Balanced :
        {n m : Node} (s : Step machine n m)
        → Balanced picks
            (entries_of machine serve s)
            (crashed_in machine serve s)
            n.server.task_tracker.tasks
            m.server.task_tracker.tasks
    unfolding on_tcp_connection_established on_shutdown_requested on_server_finished
    Step-Balanced (bind_done server ended listener e) = same-Balanced picks _
    Step-Balanced (bind_failed server ended x e) = same-Balanced picks _
    Step-Balanced (start server ended now stats e) = same-Balanced picks _
    Step-Balanced (connect server ended client bytewise) = same-Balanced picks _
    Step-Balanced (refuse server ended kind x e) = noted-Balanced picks x _
    Step-Balanced (establish server ended client conn answers e) =
        spawn-Balanced picks conn server _ (create-IsCalm conn.label)
    Step-Balanced (reject server ended client x answers e) = noted-Balanced picks x _
    Step-Balanced (wake server ended millis) = same-Balanced picks _
    Step-Balanced (ctrl_c phase server ended hears) = same-Balanced picks _
    Step-Balanced (advance phase server ended before after task event rest e f) =
        work-Balanced picks server.task_tracker.tasks before after task event e
    Step-Balanced (finish phase server ended before after task e f) =
        result-Balanced picks server.task_tracker.tasks before after task _ e
    Step-Balanced (cancel phase server ended before after task e c) =
        leave-Balanced picks server.task_tracker.tasks before after [] task _ e refl (omega arith)
    Step-Balanced (wait server ended shut empty) = same-Balanced picks _

    Run-Balanced :
        (bind_addr : SocketAddr) (n : Node) (r : Run machine (initial bind_addr) n)
        → opened picks (log_of machine serve r)
          ≡ settled picks (log_of machine serve r)
            + handled picks n.server.task_tracker.tasks
            + handled picks (crashed machine serve r)
    unfolding new_server Balanced
    Run-Balanced bind_addr n here = refl
    Run-Balanced bind_addr n (next {n = k} r s) = omega (
      arith,
      opened-append picks (log_of machine serve r) (entries_of machine serve s),
      settled-append picks (log_of machine serve r) (entries_of machine serve s),
      handled-append picks (crashed machine serve r) (crashed_in machine serve s),
      Run-Balanced bind_addr k r,
      Step-Balanced s,
    )

  crashed_in-IsHttpTask :
      {n m : Node} (s : Step machine n m)
      → All IsServed n.server.task_tracker.tasks
      → All IsHttpTask (crashed_in machine serve s)
  crashed_in-IsHttpTask (finish phase server ended before after task e f) h =
      let (is_served, others) = All-pick IsServed before after task (subst (All IsServed) e h) in
      crashes-IsHttpTask task (create-IsLabelOf task.conn.label task.handler is_served) task.handler
        refl
  crashed_in-IsHttpTask (bind_done server ended listener e) h = tt
  crashed_in-IsHttpTask (bind_failed server ended x e) h = tt
  crashed_in-IsHttpTask (start server ended now stats e) h = tt
  crashed_in-IsHttpTask (connect server ended client bytewise) h = tt
  crashed_in-IsHttpTask (refuse server ended kind x e) h = tt
  crashed_in-IsHttpTask (establish server ended client conn answers e) h = tt
  crashed_in-IsHttpTask (reject server ended client x answers e) h = tt
  crashed_in-IsHttpTask (wake server ended millis) h = tt
  crashed_in-IsHttpTask (ctrl_c phase server ended hears) h = tt
  crashed_in-IsHttpTask (advance phase server ended before after task event rest e f) h = tt
  crashed_in-IsHttpTask (cancel phase server ended before after task e c) h = tt
  crashed_in-IsHttpTask (wait server ended shut empty) h = tt

  crashed-IsHttpTask :
      (bind_addr : SocketAddr) (n : Node) (r : Run machine (initial bind_addr) n)
      → All IsHttpTask (crashed machine serve r)
  crashed-IsHttpTask bind_addr n here = tt
  crashed-IsHttpTask bind_addr n (next {n = k} r s) =
      All-append IsHttpTask _ _ (crashed-IsHttpTask bind_addr k r)
        (crashed_in-IsHttpTask s (Run-IsSound machine bind_addr k r).served)

  -- In every run of the server, and for every choice of peers and labels, the log has as many
  -- connections opened as it has closed, closed with an error or canceled, and as tasks still handle
  -- or have left by a panic of their handler, of which nothing is logged: a connection is closed in
  -- the log when its task has ended in another way, and once, also where it has no handler. Only HTTP
  -- connections end by a panic.
  pub Run-IsLogged :
      (picks : SocketAddr → LurkTcpConnectionLabel → Bool) (bind_addr : SocketAddr) (n : Node)
      (r : Run machine (initial bind_addr) n)
      → (opened picks (log_of machine serve r)
          ≡ settled picks (log_of machine serve r)
            + handled picks n.server.task_tracker.tasks
            + handled picks (crashed machine serve r))
        × All IsHttpTask (crashed machine serve r)
  Run-IsLogged picks bind_addr n r =
      (Run-Balanced picks bind_addr n r, crashed-IsHttpTask bind_addr n r)
