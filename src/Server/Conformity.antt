-- ===== src/Server/Conformity.antt =====
-- What the tasks of SOCKS5 clients do in a run of the server, against the server of RFC 1928.
use lurk.Server.{create_tcp_connection_handler, socks5_handler, Task}
use lurk.Server.Service.{conn_of, generous}
use lurk.Server.Steps.{did, events_by, initial, task_events, Machine, Node, Run}
use lurk.Server.Tasks.{Run-Everywhere}
use lurk.Handler.{Event}
use lurk.Handler.Rfc.{answer_client}
use lurk.Handler.Rfc.Agreement.{handle-front}
use lurk.Tcp.{socks5, LurkTcpConnection}
use lurk.Address.{SocketAddr}
use lurk.Error.{ok, ok-injective, ErrorKind}
use lurk.Common.{
  All, All-append, All-pick, Option, append_assoc, ap, refl, subst, sym, ◌++◌, ◌≡◌, ◌∙◌, List, [],
  ◌∷◌, ℕ,
}

module _ (machine : Machine) where
  -- The handler of a task is that of its label, and the task has done a front part of all that the
  -- handler does.
  abbrev IsUnderway : Task → Type 0
  IsUnderway task =
      (create_tcp_connection_handler task.conn.label ≡ ok task.handler)
      × ((rest : List Event) × (task_events machine task ≡ task.progress ++ rest))

  advanced :
      (task : Task) (event : Event) (rest : List Event)
      → task_events machine task ≡ task.progress ++ (event ∷ rest)
      → IsUnderway task
      → IsUnderway (did event task)
  advanced task event rest e (known, before) =
      (known, (rest, e ∙ sym (append_assoc task.progress (event ∷ []) rest)))

  known_handler :
      (task : Task) (conn : LurkTcpConnection)
      → task.conn ≡ conn
      → conn.label ≡ socks5
      → create_tcp_connection_handler task.conn.label ≡ ok task.handler
      → task.handler ≡ socks5_handler
  unfolding create_tcp_connection_handler
  known_handler task conn e l known =
      sym (ok-injective (sym (ap create_tcp_connection_handler (ap (λ c. c.label) e ∙ l)) ∙ known))

  -- In every run of the server, however its tasks interleave and are cancelled: what a task has
  -- dialed and tunnelled, whether it runs or has ended, for a client that is labelled SOCKS5 and takes
  -- every write, is a front part of what the server of RFC 1928 (`answer_client`) dials and tunnels on
  -- all that this client sends. It is also where the program departs from the RFC: there it does less.
  pub Run-Follows :
      (bind_addr : SocketAddr) (n : Node) (before after : List Task) (task : Task) (bytes : List ℕ)
      (ending : Option ErrorKind) (peer local : SocketAddr)
      → Run machine (initial bind_addr) n
      → n.server.task_tracker.tasks ++ n.ended ≡ before ++ (task ∷ after)
      → task.conn ≡ conn_of (generous bytes ending) peer local socks5
      → (rest : List Event) × ((answer_client machine.net machine.debug local bytes).events
          ≡ task.progress ++ rest)
  Run-Follows bind_addr n before after task bytes ending peer local r among e =
      let all =
        Run-Everywhere machine IsUnderway
          (record {
            spawned = λ conn handler same bytewise. (same, (events_by machine handler conn, refl));
            advanced = advanced;
          })
          bind_addr n r in
      let (known, (rest, done)) =
        (All-pick IsUnderway before after task (
          subst (All IsUnderway) among
            (All-append IsUnderway n.server.task_tracker.tasks n.ended all.running all.ended))).0 in
      let handler = known_handler task _ e refl known in
      let (beyond, within) =
        handle-front machine.net machine.debug ending local machine.order peer bytes in
      let all_done =
        ap (events_by machine socks5_handler) (sym e)
        ∙ ap (λ h. events_by machine h task.conn) (sym handler)
        ∙ done in
      (
        rest ++ beyond,
        within ∙ ap (λ events. events ++ beyond) all_done ∙ append_assoc task.progress rest beyond,
      )
