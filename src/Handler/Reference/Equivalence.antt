-- ===== src/Handler/Reference/Equivalence.antt =====
-- That the handler is its reference.
use lurk.Handler.{
  handle, process_handshake, process_relay_request, on_stream, run_tunnel, serve_request, Event,
  Session,
}
use lurk.Handler.Conversation.{connected_to}
use lurk.Handler.Handshake.{answer_handshake_lem, handshake_answer}
use lurk.Handler.Relay.{
  serve_request_connected, serve_request_refused, serve_request_unresolved,
  serve_request_unsupported,
}
use lurk.Handler.Replies.{method_reply, relay_reply}
use lurk.Handler.Calmness.{establish_tcp_connection-IsCalm, to_socket_addr-IsCalm}
use lurk.Handler.Reference.{
  close_with, enacted, events_of, greeted, on_command, on_dialed, on_greeting, on_methods,
  on_request, on_resolved, silent, tunnel_events, Close, Verdict, ends, relays,
}
use lurk.Socks5.Grammar.{cut, greeting, offers_none, request, whole, wrong, Front}
use lurk.Socks5.Grammar.Reads.{as_read, read_relay-request}
use lurk.Socks5.Grammar.Greeting.{read_handshake-greeting}
use lurk.Socks5.Request.{RelayRequest}
use lurk.Stream.{eof_error, write_all, Stream}
use lurk.Stream.Laws.{feed}
use lurk.Stream.Calm.{IsCalm}
use lurk.Auth.{HashOrder}
use lurk.Address.{SocketAddr}
use lurk.Tcp.{establish_tcp_connection}
use lurk.Net.{to_socket_addr, Net}
use lurk.Error.{
  continue, err, ok, panic, tcp_bind, tcp_connect, udp_associate, Command, ErrorKind, Result,
}
use lurk.Common.{
  ap, append_assoc, append-nil, sym, refl, false, true, ◌++◌, ◌∙◌, ◌≡◌, ◌≢◌, List, Option, [], Bool,
  ℕ,
}

module _ (net : Net) (debug : Bool) where
  close_with-events :
      (close : Close net debug) (s : Session)
      → (close_with net debug close s).1.events ≡ s.events ++ tunnel_events net debug close
  unfolding run_tunnel
  close_with-events (ends result) s = sym (append-nil s.events)
  close_with-events (relays addr outbound) s = refl

  module _ (order : HashOrder) (ending : Option ErrorKind) (peer_addr local_addr : SocketAddr) where
    abbrev at : (incoming written : List ℕ) → List Event → Session
    at = connected_to ending peer_addr local_addr

    silent-enacted :
        (result : Result (Unit {0})) (left written : List ℕ) (events : List Event)
        → (result, at left written events)
          ≡ enacted net debug ending peer_addr local_addr
              (silent net debug result left)
              written
              events
    silent-enacted result left written events = rw (append-nil written, append-nil events)

    module _ (r : RelayRequest) (left written : List ℕ) (events : List Event) where
      on_dialed-enacted :
          (addr : SocketAddr) (dialing : Result net.Socket)
          → r.command ≡ tcp_connect
          → to_socket_addr net r.endpoint_address ≡ ok addr
          → establish_tcp_connection net debug addr ≡ dialing
          → IsCalm dialing
          → serve_request net debug r (at left written events)
            ≡ enacted net debug ending peer_addr local_addr
                (on_dialed net debug local_addr addr left dialing)
                written
                events
      on_dialed-enacted addr (ok outbound) c h e calm =
          serve_request_connected net debug r _ addr c h outbound e ∙ unfold write_all in refl
      on_dialed-enacted addr (err x) c h e calm =
          serve_request_refused net debug r _ addr c h x e ∙ unfold write_all in refl
      on_dialed-enacted addr panic c h e calm = absurd calm

      on_resolved-enacted :
          (resolved : Result SocketAddr)
          → r.command ≡ tcp_connect
          → to_socket_addr net r.endpoint_address ≡ resolved
          → IsCalm resolved
          → serve_request net debug r (at left written events)
            ≡ enacted net debug ending peer_addr local_addr
                (on_resolved net debug local_addr left resolved)
                written
                events
      on_resolved-enacted (ok addr) c h calm =
          on_dialed-enacted addr _ c h refl (establish_tcp_connection-IsCalm net debug addr)
      on_resolved-enacted (err e) c h calm =
          serve_request_unresolved net debug r _ e c h ∙ silent-enacted (err e) left written events
      on_resolved-enacted panic c h calm = absurd calm

      unsupported-enacted :
          r.command ≢ tcp_connect
          → serve_request net debug r (at left written events)
            ≡ enacted net debug ending peer_addr local_addr
                (record (silent net debug (ok tt) left) { written = relay_reply 7 local_addr })
                written
                events
      unsupported-enacted h =
          serve_request_unsupported net debug r _ h ∙ unfold write_all in rw (append-nil events)

      on_command-enacted :
          (c : Command)
          → r.command ≡ c
          → serve_request net debug r (at left written events)
            ≡ enacted net debug ending peer_addr local_addr
                (on_command net debug local_addr c r.endpoint_address left)
                written
                events
      on_command-enacted tcp_connect e =
          on_resolved-enacted _ e refl (to_socket_addr-IsCalm net debug r.endpoint_address)
      on_command-enacted tcp_bind e = unsupported-enacted λ c. cc (sym e ∙ c)
      on_command-enacted udp_associate e = unsupported-enacted λ c. cc (sym e ∙ c)

    on_request-enacted :
        (front : Front RelayRequest) (incoming written : List ℕ) (events : List Event)
        → continue
            (on_stream (as_read front) (at incoming written events))
            (serve_request net debug)
          ≡ enacted net debug ending peer_addr local_addr
              (on_request net debug ending local_addr front)
              written
              events
    on_request-enacted (whole r left) incoming written events =
        on_command-enacted r left written events r.command refl
    on_request-enacted (wrong e left) incoming written events =
        silent-enacted (err e) left written events
    on_request-enacted cut incoming written events =
        silent-enacted (err (eof_error ending)) [] written events

    greeted-enacted :
        (v : Verdict net debug) (written : List ℕ) (events : List Event)
        → enacted net debug ending peer_addr local_addr v (written ++ method_reply 0) events
          ≡ enacted net debug ending peer_addr local_addr (greeted net debug v) written events
    greeted-enacted v written events = rw (append_assoc written (method_reply 0) v.written)

    on_methods-enacted :
        (offers : Bool) (bs written : List ℕ) (events : List Event)
        → continue
            (on_stream (handshake_answer offers) (at bs written events))
            (λ _. process_relay_request net debug)
          ≡ enacted net debug ending peer_addr local_addr
              (on_methods net debug ending local_addr offers bs)
              written
              events
    unfolding process_relay_request write_all
    on_methods-enacted true bs written events =
        rw (read_relay-request bs (at bs (written ++ method_reply 0) events).conn.stream) (
          on_request-enacted (request bs) bs (written ++ method_reply 0) events
          ∙ greeted-enacted (on_request net debug ending local_addr (request bs)) written events)
    on_methods-enacted false bs written events = rw (append-nil events)

    on_greeting-enacted :
        (front : Front (List ℕ)) (incoming written : List ℕ) (events : List Event)
        → continue
            (on_stream
              (λ s. continue (as_read front s) (λ ms. handshake_answer (offers_none ms)))
              (at incoming written events))
            (λ _. process_relay_request net debug)
          ≡ enacted net debug ending peer_addr local_addr
              (on_greeting net debug ending local_addr front)
              written
              events
    on_greeting-enacted (whole ms bs) incoming written events =
        on_methods-enacted (offers_none ms) bs written events
    on_greeting-enacted (wrong e bs) incoming written events =
        silent-enacted (err e) bs written events
    on_greeting-enacted cut incoming written events =
        silent-enacted (err (eof_error ending)) [] written events

    process_handshake-greeting :
        (bs : List ℕ) (s : Stream)
        → process_handshake debug order (feed bs s)
          ≡ continue (as_read (greeting bs) s) (λ ms. handshake_answer (offers_none ms))
    unfolding process_handshake
    process_handshake-greeting bs s =
        read_handshake-greeting _ handshake_answer
          (λ r s'. answer_handshake_lem debug order r.auth_methods s') bs s

    -- For a client that takes every write, whatever it sends and however its stream ends, in any build
    -- and with hash tables in any order, the handler is its reference: it leaves unread,
    -- writes, dials and returns what the verdict on the client's bytes says, and runs the tunnel if
    -- the verdict is one, on the stream as the verdict leaves it.
    pub handle-on_greeting :
        (incoming written : List ℕ) (events : List Event)
        → handle net debug order (at incoming written events)
          ≡ enacted net debug ending peer_addr local_addr
              (on_greeting net debug ending local_addr (greeting incoming))
              written
              events
    unfolding handle
    handle-on_greeting incoming written events =
        rw (process_handshake-greeting incoming (at incoming written events).conn.stream)
          (on_greeting-enacted (greeting incoming) incoming written events)

    -- What the handler dials and tunnels.
    pub handle-events_of :
        (incoming : List ℕ)
        → (handle net debug order (at incoming [] [])).1.events
          ≡ events_of net debug (on_greeting net debug ending local_addr (greeting incoming))
    handle-events_of incoming =
        ap (λ p. p.1.events) (handle-on_greeting incoming [] [])
        ∙ close_with-events (on_greeting net debug ending local_addr (greeting incoming)).close _
