-- ===== src/Server/Stall.antt =====
-- The accept loop awaits the first byte of each client before it takes the next.
use lurk.Server.{on_server_finished, on_shutdown_requested, Task, LurkServer}
use lurk.Common.{
  length-append, arith, [], ◌∷◌, inr, sym, Bool, subst, ◌++◌, ap, false, refl, ◌∙◌, inl, true, ◌+◌,
  List, ◌⊎◌, length, ◌≡◌, ℕ,
}
use lurk.Tcp.{TcpStream}
use lurk.Server.Steps.{
  did, Phase, Run, Step, Machine, Node, bind_done, bind_failed, start, connect, refuse, establish,
  reject, wake, ctrl_c, advance, finish, cancel, wait, here, next, peeking,
}
use lurk.Server.Shutdown.{is_down}

-- The connections that were handed to a task so far.
abbrev pub taken : Node → ℕ
taken n = length n.server.task_tracker.tasks + length n.ended

-- The server awaits this client, or Ctrl+C was pressed.
abbrev pub IsStalled : TcpStream → Phase → Type 0
IsStalled client phase = (phase ≡ peeking client) ⊎ (is_down phase ≡ true)

abbrev is_peeking : Phase → Bool
is_peeking (peeking client) = true
is_peeking _ = false

abbrev client_or : TcpStream → Phase → TcpStream
client_or default (peeking client) = client
client_or default _ = default

module _ (machine : Machine) (client : TcpStream) (silent : ¬ machine.Answers client) where
  -- Neither this client is awaited nor the server down.
  neither :
      (phase : Phase) → is_down phase ≡ false → is_peeking phase ≡ false → ¬ IsStalled client phase
  neither phase up other (inl e) = cc (sym other ∙ ap is_peeking e)
  neither phase up other (inr down) = cc (sym up ∙ down)

  awaited : (other : TcpStream) → IsStalled client (peeking other) → other ≡ client
  awaited other (inl e) = ap (client_or client) e
  awaited other (inr down) = cc

  left :
      (server : LurkServer) (ended before after : List Task) (task : Task)
      → server.task_tracker.tasks ≡ before ++ (task ∷ after)
      → length (before ++ after) + length (ended ++ task ∷ [])
        ≡ length server.task_tracker.tasks + length ended
  left server ended before after task e = omega (
    arith,
    ap length e,
    length-append before (task ∷ after),
    length-append before after,
    length-append ended (task ∷ []),
  )

  Step-IsStalled :
      {n m : Node}
      → Step machine n m
      → IsStalled client n.phase
      → IsStalled client m.phase × (taken m ≡ taken n)
  unfolding on_shutdown_requested on_server_finished
  Step-IsStalled (bind_done server ended listener e) h = absurd (neither _ refl refl h)
  Step-IsStalled (bind_failed server ended x e) h = absurd (neither _ refl refl h)
  Step-IsStalled (start server ended now stats e) h = absurd (neither _ refl refl h)
  Step-IsStalled (connect server ended other bytewise) h = absurd (neither _ refl refl h)
  Step-IsStalled (refuse server ended kind x e) h = absurd (neither _ refl refl h)
  Step-IsStalled (wake server ended millis) h = absurd (neither _ refl refl h)
  Step-IsStalled (establish server ended other conn answers e) h =
      absurd (silent (subst machine.Answers (awaited other h) answers))
  Step-IsStalled (reject server ended other x answers e) h =
      absurd (silent (subst machine.Answers (awaited other h) answers))
  Step-IsStalled (ctrl_c phase server ended hears) h = (inr refl, refl)
  Step-IsStalled (advance phase server ended before after task event rest e f) h = (
    h,
    omega (
      arith,
      ap length e,
      length-append before (task ∷ after),
      length-append before (did event task ∷ after),
    ),
  )
  Step-IsStalled (finish phase server ended before after task e f) h =
      (h, left server ended before after task e)
  Step-IsStalled (cancel phase server ended before after task e c) h =
      (h, left server ended before after task e)
  Step-IsStalled (wait server ended closed empty) h = (inr refl, refl)

  -- While a client that was accepted sends nothing, keeps its connection open and lets no error
  -- happen, no other connection is taken: whatever the run, the server stays with this client until
  -- Ctrl+C, and has as many tasks, running and ended, as before.
  pub silent_client_stalls :
      (server : LurkServer) (ended : List Task) (n : Node)
      → Run machine (record { phase = peeking client; server = server; ended = ended }) n
      → IsStalled client n.phase × (taken n ≡ length server.task_tracker.tasks + length ended)
  silent_client_stalls server ended n here = (inl refl, refl)
  silent_client_stalls server ended n (next r s) =
      let (stalled, same) = silent_client_stalls server ended _ r in
      let (stalled', same') = Step-IsStalled s stalled in (stalled', same' ∙ same)
