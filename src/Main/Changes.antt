-- ===== src/Main/Changes.antt =====
-- How each step of the server changes its stage and its stats.
use lurk.Error.{panic, err, Result, ok}
use lurk.Server.{
  create_tcp_connection_handler, LurkTcpConnectionHandler, on_server_finished,
  on_shutdown_requested, LurkServer, on_tcp_connection_established,
}
use lurk.Tcp.{LurkTcpConnection}
use lurk.Stats.{on_server_started, LurkServerStats}
use lurk.Common.{sym, subst, refl, ◌≡◌, ℕ}
use lurk.Server.Steps.{
  wait, cancel, finish, advance, ctrl_c, wake, reject, establish, refuse, connect, waiting, start,
  starting, bind_failed, binding, bind_done, listening, Step, Node, IsAccepting, Phase, Machine,
}
use lurk.Main.{returned, sleeping, peeking, Stage, over, serving, stage_of, starting_up, unbound}
use lurk.Server.{spawn}
use lurk.Server.Steps.{reject}

module _ (machine : Machine) where
  -- What a step of the server does to its stage and its stats.
  pub data Change : Stage → LurkServerStats → Stage → LurkServerStats → Type 0 where
    stays : (s : Stage) (stats : LurkServerStats) → Change s stats s stats
    binds : (stats : LurkServerStats) → Change unbound stats starting_up stats
    starts :
        (stats stats' : LurkServerStats) (now : ℕ)
        → on_server_started machine.chrono now stats ≡ ok stats'
        → Change starting_up stats serving stats'
    ends : (s : Stage) (stats stats' : LurkServerStats) → Change s stats over stats'

  accepting_stage : (phase : Phase) → IsAccepting phase → stage_of phase ≡ serving
  accepting_stage listening h = refl
  accepting_stage (peeking client) h = refl
  accepting_stage binding h = absurd h
  accepting_stage starting h = absurd h
  accepting_stage (sleeping millis) h = absurd h
  accepting_stage waiting h = absurd h
  accepting_stage (returned r) h = absurd h

  spawn-stats :
      (conn : LurkTcpConnection) (server : LurkServer) (r : Result LurkTcpConnectionHandler)
      → (spawn conn server r).stats ≡ server.stats
  spawn-stats conn server (ok handler) = refl
  spawn-stats conn server (err e) = refl
  spawn-stats conn server panic = refl

  pub Step-Change :
      {n m : Node}
      → Step machine n m
      → Change (stage_of n.phase) n.server.stats (stage_of m.phase) m.server.stats
  unfolding on_tcp_connection_established on_shutdown_requested on_server_finished
  Step-Change (bind_done server ended listener e) = binds server.stats
  Step-Change (bind_failed server ended x e) = ends unbound server.stats server.stats
  Step-Change (start server ended now stats e) = starts server.stats stats now e
  Step-Change (connect server ended client b) = stays serving server.stats
  Step-Change (refuse server ended kind x e) = stays serving server.stats
  Step-Change (establish server ended client conn a e) =
      subst (Change serving server.stats serving)
        (sym (spawn-stats conn server (create_tcp_connection_handler conn.label)))
        (stays serving server.stats)
  Step-Change (reject server ended client x a e) = stays serving server.stats
  Step-Change (wake server ended millis) = stays serving server.stats
  Step-Change (ctrl_c phase server ended h) =
      subst (λ s. Change s server.stats serving server.stats) (sym (accepting_stage phase h))
        (stays serving server.stats)
  Step-Change (advance phase server ended before after task event rest t e) =
      stays (stage_of phase) server.stats
  Step-Change (finish phase server ended before after task t e) =
      stays (stage_of phase) server.stats
  Step-Change (cancel phase server ended before after task t e) =
      stays (stage_of phase) server.stats
  Step-Change (wait server ended c t) = ends serving server.stats server.stats
