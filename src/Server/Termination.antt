-- ===== src/Server/Termination.antt =====
-- After Ctrl+C, every run of the server is bounded and can go on until `run` returns.
use lurk.Address.{SocketAddr}
use lurk.Handler.{Event}
use lurk.Error.{ok, err, panic}
use lurk.Common.{
  refl, inl, inr, ◌⊎◌, sym, length-append, ◌≤◌, ◌<◌, ◌∙◌, ◌-◌, true, ap, arith, [], suc, ◌≡◌, ◌++◌,
  ◌+◌, ◌∷◌, length, List, ℕ,
}
use lurk.Server.Steps.{
  did, initial, task_events, Step, Run, Node, Phase, Machine, bind_done, bind_failed, start,
  connect, refuse, establish, reject, wake, ctrl_c, advance, finish, cancel, wait, here, next,
  peeking, binding, starting, listening, sleeping, waiting, returned,
}
use lurk.Server.Shutdown.{Run-IsStaged, IsStaged, at, is_down, accepting}
use lurk.Server.{LurkServer, Task}

-- The number of steps.
abbrev pub run_length : {machine : Machine} {from to : Node} → Run machine from to → ℕ
run_length here = 0
run_length (next r s) = suc (run_length r)

Run-trans : {machine : Machine} {a b c : Node} → Run machine a b → Run machine b c → Run machine a c
Run-trans r here = r
Run-trans r (next q s) = next (Run-trans r q) s

abbrev wait_left : Phase → ℕ
wait_left waiting = 1
wait_left _ = 0

module _ (machine : Machine) where
  -- What a task may still do, and its end.
  abbrev task_left : Task → ℕ
  task_left task = length (task_events machine task) - length task.progress + 1

  abbrev pub tasks_left : List Task → ℕ
  tasks_left [] = 0
  tasks_left (task ∷ tasks) = task_left task + tasks_left tasks

  abbrev pub work_left : Node → ℕ
  work_left n = tasks_left n.server.task_tracker.tasks + wait_left n.phase

  tasks_left-append :
      (before after : List Task)
      → tasks_left (before ++ after) ≡ tasks_left before + tasks_left after
  tasks_left-append [] after = omega arith
  tasks_left-append (task ∷ before) after = omega (arith, tasks_left-append before after)

  tasks_left-split :
      (tasks before after : List Task) (task : Task)
      → tasks ≡ before ++ (task ∷ after)
      → tasks_left tasks ≡ tasks_left (before ++ after) + task_left task
  tasks_left-split tasks before after task e =
      ap tasks_left e
      ∙ omega (arith, tasks_left-append before (task ∷ after), tasks_left-append before after)

  task_left-did :
      (task : Task) (event : Event) (rest : List Event)
      → task_events machine task ≡ task.progress ++ (event ∷ rest)
      → task_left (did event task) + 1 ≡ task_left task
  task_left-did task event rest e = omega (
    arith,
    ap length e,
    length-append task.progress (event ∷ rest),
    length-append task.progress (event ∷ []),
  )

  -- A step after Ctrl+C leaves less to do.
  Step-work_left :
      {n m : Node}
      → Step machine n m
      → is_down n.phase ≡ true
      → (is_down m.phase ≡ true) × (work_left m < work_left n)
  Step-work_left (bind_done server ended listener e) down = cc
  Step-work_left (bind_failed server ended x e) down = cc
  Step-work_left (start server ended now stats e) down = cc
  Step-work_left (connect server ended client bytewise) down = cc
  Step-work_left (refuse server ended kind x e) down = cc
  Step-work_left (establish server ended client conn answers e) down = cc
  Step-work_left (reject server ended client x answers e) down = cc
  Step-work_left (wake server ended millis) down = cc
  Step-work_left (ctrl_c phase server ended hears) down = cc (sym down ∙ (accepting phase hears).0)
  Step-work_left (advance phase server ended before after task event rest e f) down = (
    down,
    omega (
      arith,
      tasks_left-split server.task_tracker.tasks before after task e,
      tasks_left-split (before ++ (did event task ∷ after)) before after (did event task) refl,
      task_left-did task event rest f,
    ),
  )
  Step-work_left (finish phase server ended before after task e f) down =
      (down, omega (arith, tasks_left-split server.task_tracker.tasks before after task e))
  Step-work_left (cancel phase server ended before after task e c) down =
      (down, omega (arith, tasks_left-split server.task_tracker.tasks before after task e))
  Step-work_left (wait server ended closed empty) down = (refl, omega arith)

  Run-work_left :
      {from n : Node} (r : Run machine from n)
      → is_down from.phase ≡ true
      → (is_down n.phase ≡ true) × (run_length r + work_left n ≤ work_left from)
  Run-work_left here down = (down, omega arith)
  Run-work_left (next r s) down =
      let (down', bound) = Run-work_left r down in
      let (down'', less) = Step-work_left s down' in (down'', omega arith)

  waiting-Step :
      (server : LurkServer) (ended tasks : List Task)
      → server.task_tracker.closed ≡ true
      → server.cancelled ≡ true
      → server.task_tracker.tasks ≡ tasks
      → (m : Node) × Step machine (at machine waiting server ended) m
  waiting-Step server ended [] closed cancelled e = (_, wait server ended closed e)
  waiting-Step server ended (task ∷ tasks) closed cancelled e =
      (_, cancel waiting server ended [] tasks task e cancelled)

  down-Step :
      (phase : Phase) (server : LurkServer) (ended : List Task)
      → is_down phase ≡ true
      → IsStaged (at machine phase server ended)
      → (phase ≡ returned (ok tt)) ⊎ ((m : Node) × Step machine (at machine phase server ended) m)
  down-Step waiting server ended down h =
      inr (waiting-Step server ended server.task_tracker.tasks h.closed h.cancelled refl)
  down-Step (returned (ok u)) server ended down h = inl refl
  down-Step (returned (err e)) server ended down h = cc
  down-Step (returned panic) server ended down h = cc
  down-Step binding server ended down h = cc
  down-Step starting server ended down h = cc
  down-Step listening server ended down h = cc
  down-Step (peeking client) server ended down h = cc
  down-Step (sleeping millis) server ended down h = cc

  -- After Ctrl+C, `run` returns however its tasks and the system take their turns: from then on there
  -- are at most as many steps as the running tasks have events before them, one more for the end of
  -- each task, and one for the return; and a run that has not come to the return has a next step.
  pub shutdown_terminates :
      (bind_addr : SocketAddr) (server : LurkServer) (ended : List Task) (n : Node)
      → Run machine (initial bind_addr) (at machine waiting server ended)
      → (later : Run machine (at machine waiting server ended) n)
      → (run_length later + work_left n ≤ tasks_left server.task_tracker.tasks + 1)
        × ((n.phase ≡ returned (ok tt)) ⊎ ((m : Node) × Step machine n m))
  shutdown_terminates bind_addr server ended n earlier later =
      let (down, bound) = Run-work_left later refl in
      (
        bound,
        down-Step n.phase n.server n.ended down
            (Run-IsStaged machine bind_addr n (Run-trans earlier later)),
      )
