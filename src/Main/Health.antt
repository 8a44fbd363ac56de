-- ===== src/Main/Health.antt =====
-- What the health check of the endpoint tells of the server that runs beside it.
use lurk.Config.{server_tcp_bind_addr, LurkConfig}
use lurk.Error.{ok-injective, and_then-eq-ok, ok}
use lurk.Server.{
  create_tcp_connection_handler, LurkTcpConnectionHandler, on_server_finished,
  on_shutdown_requested, LurkServer, on_tcp_connection_established,
}
use lurk.Stats.{new_stats}
use lurk.Common.{none, some, inr, inl, All-map, sym, subst, refl, true, ◌≡◌, All, ℕ, List, Option}
use lurk.Api.{LurkNodeStatus}
use lurk.Server.Steps.{Machine}
use lurk.Main.{
  Execution, Program, Turn, here, main, next, serve, stage_of, accept_client, answer, ask,
  bind_endpoint, store,
}
use lurk.Server.{spawn}
use lurk.Main.Changes.{Step-Change}
use lurk.Main.Replies.{Tells}
use lurk.Main.Waiting.{
  Holds, WaitsAtStart, IsStartIn, start_in, Change-Holds, ask-Holds, answer-Holds,
}

module _ (machine : Machine) (to_string : LurkNodeStatus → Option (List ℕ)) where
  abbrev Sound : Program → Type 0
  Sound p =
      Holds machine to_string (stage_of p.node.phase) p.stored p.node.server.stats p.pending
        p.answers

  Turn-Sound : {p q : Program} → Turn machine to_string p q → Sound p → Sound q
  Turn-Sound {p} (serve node a step) h =
      Change-Holds machine to_string (stage_of p.node.phase) (stage_of node.phase)
        p.node.server.stats node.server.stats p.stored p.pending p.answers
        (Step-Change machine step) a h
  Turn-Sound {p} (store e) h =
      let (same, w, t) =
        subst (λ s. Holds machine to_string s p.stored p.node.server.stats p.pending p.answers) e
          h in
      subst (λ s. Holds machine to_string s true p.node.server.stats p.pending p.answers) (sym e)
        (
          same,
          All-map (WaitsAtStart machine to_string p.stored) (WaitsAtStart machine to_string true)
              (λ r u. elim u [ inl x ↦ inl x | inr (x, b) ↦ inr (x, refl) ]) p.pending w,
          t,
        )
  Turn-Sound (bind_endpoint task bound up e b) h = h
  Turn-Sound (accept_client task bound client up e b a) h = h
  Turn-Sound {p} (ask task bound client before after now path up e b s) h =
      ask-Holds machine to_string (stage_of p.node.phase) p.stored p.node.server.stats p.pending
        p.answers now path up h
  Turn-Sound {p} (answer before after request up e) h =
      answer-Holds machine to_string (stage_of p.node.phase) p.stored p.node.server.stats before
        after p.answers request up
        (subst
          (λ w.
            Holds machine to_string (stage_of p.node.phase) p.stored p.node.server.stats w
              p.answers)
          e h)

  Execution-Sound : {p q : Program} → Execution machine to_string p q → Sound p → Sound q
  Execution-Sound here h = h
  Execution-Sound (next run turn) h = Turn-Sound turn (Execution-Sound run h)

  main-Sound :
      (log4rs : Option (Unit {0})) (config : LurkConfig) (p : Program)
      → main log4rs config ≡ ok p
      → Sound p
  unfolding main new_stats lurk.Server.new_server
  main-Sound none config p e = cc e
  main-Sound (some _) config p e =
      let (addr, given, e') = and_then-eq-ok (server_tcp_bind_addr config) _ e in
      subst Sound (ok-injective e') (refl, refl, tt, λ started. tt)

  -- In every execution of the program, however its tasks take their turns, there is a start of the
  -- server, and the server's own while it serves, so that every answer of the endpoint tells of it. A
  -- health check that is asked before the server has started is told of no start. One that is asked
  -- while it starts is told of no start, or the time since 1970 with a start in 1970 or with the true
  -- start. One that is asked later is told the start in whole milliseconds and the time since then, or
  -- it panics, and then the clock is behind the start. Other requests get status 501.
  pub answers-Tells :
      (log4rs : Option (Unit {0})) (config : LurkConfig) (p q : Program)
      → main log4rs config ≡ ok p
      → Execution machine to_string p q
      → (started : ℕ) × IsStartIn machine to_string
          (stage_of q.node.phase)
          started
          q.node.server.stats
        × All (Tells machine to_string started) q.answers
  answers-Tells log4rs config p q e run =
      start_in machine to_string (stage_of q.node.phase) q.stored q.node.server.stats q.pending
        q.answers (Execution-Sound run (main-Sound log4rs config p e))
