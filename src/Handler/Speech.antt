-- ===== src/Handler/Speech.antt =====
-- All that the handler of a SOCKS5 connection ever writes to its client.
use lurk.Handler.Handshake.{answer_handshake_lem, process_handshake_sound, handshake_answer}
use lurk.Stream.Laws.{write_all-Wrote}
use lurk.Handler.Safety.{checked-eq-ok, on_stream-eq-ok}
use lurk.Socks5.Codes.{reply_code_bound, reply_code}
use lurk.Tcp.{establish_tcp_connection}
use lurk.Socks5.{command_eq}
use lurk.Socks5.Request.{read_handshake, read_relay, RelayRequest}
use lurk.Stream.{write_all, Stream}
use lurk.Handler.Replies.{
  send_success_lem, on_relay_request_handling_error_lem, relay_reply, method_reply,
}
use lurk.Auth.{contains, select_auth_method, HashOrder}
use lurk.Handler.{
  new_authenticator, answer_handshake, is_socks5, process_handshake, dialed, send_success,
  note_event, on_relay_request_handling_error, after_dialing, on_stream, Session,
  process_relay_request, dial, run_tunnel,
}
use lurk.Error.{
  LurkAuthMethod, continue-state, debug_assert, ◌>>◌, unsupported_socks_command, panic, lurk_error,
  err, continue-cases, tcp_connect, ◌>>=◌, ok, lift, Result, Error,
}
use lurk.Common.{
  false, true, subst₂, subst, ap, sym, refl, inr, inl, append_assoc, ◌∙◌, arith, Bool-cases, ◌++◌,
  ◌≡◌, ◌<◌, ℕ, Bool, List,
}
use lurk.Net.{to_socket_addr, Net}
use lurk.Address.{SocketAddr}
use lurk.Tunnel
use lurk.Handler.{serve_request, handle}
use lurk.Stream.Output.{Sent, Sent-none, write_all-Sent, Sent-append, Sent-longer}
use lurk.Socks5.Readers.{read_handshake-Quiet, read_relay-Quiet}

-- What the server may say: that it accepts no method; or that it takes `None`, and then one reply,
-- with a code of RFC 1928 and the bound address.
pub data IsSpeech (local_addr : SocketAddr) : List ℕ → Type 0 where
  refusal : IsSpeech local_addr (method_reply 255)
  answer :
      (code : ℕ) → code < 9 → IsSpeech local_addr (method_reply 0 ++ relay_reply code local_addr)

module _ (net : Net) (local_addr : SocketAddr) where
  -- What a stream was left with: a speech was written, or a front part of it; or the tunnel was run
  -- after the whole of a reply of success.
  pub data Spoke (before : List ℕ) (s : Stream) : Type 0 where
    spoke :
        (speech : List ℕ)
        → IsSpeech local_addr speech
        → Sent speech before s.written
        → Spoke before s
    handed_over :
        (inbound : Stream) (outbound : net.Socket)
        → inbound.written ≡ before ++ (method_reply 0 ++ relay_reply 0 local_addr)
        → s ≡ (Tunnel.run net (record { l2r = inbound; r2l = outbound })).1.l2r
        → Spoke before s

  -- The same of the reply to a request.
  pub data Replied (before : List ℕ) (s : Stream) : Type 0 where
    replied :
        (code : ℕ)
        → code < 9
        → Sent (relay_reply code local_addr) before s.written
        → Replied before s
    relayed :
        (inbound : Stream) (outbound : net.Socket)
        → inbound.written ≡ before ++ relay_reply 0 local_addr
        → s ≡ (Tunnel.run net (record { l2r = inbound; r2l = outbound })).1.l2r
        → Replied before s

  silent : (before : List ℕ) (s : Stream) → s.written ≡ before → Replied before s
  silent before s e = replied 1 (omega arith) (Sent-none _ before s.written e)

  Replied-Spoke :
      (before : List ℕ) (s : Stream) → Replied (before ++ method_reply 0) s → Spoke before s
  Replied-Spoke before s (replied code h sent) =
      spoke _ (answer code h) (Sent-append (method_reply 0) _ before s.written sent)
  Replied-Spoke before s (relayed inbound outbound written e) =
      handed_over inbound outbound (written ∙ append_assoc before (method_reply 0) _) e

module _ (net : Net) (debug : Bool) where
  error-Replied :
      (e : Error) (s : Session)
      → Replied net s.conn.local_addr s.conn.stream.written
          (on_stream (on_relay_request_handling_error debug e s.conn.local_addr) s).1.conn.stream
  error-Replied e s =
      rw (on_relay_request_handling_error_lem debug s.conn.stream e s.conn.local_addr) (
        replied (reply_code e) (reply_code_bound e)
          (write_all-Sent (relay_reply (reply_code e) s.conn.local_addr) s.conn.stream))

  after_dialing-Replied :
      (addr : SocketAddr) (x : Result net.Socket) (s : Session)
      → Replied net s.conn.local_addr s.conn.stream.written
          (after_dialing net debug addr x s).1.conn.stream
  unfolding run_tunnel
  after_dialing-Replied addr (ok outbound) s =
      let same = send_success_lem debug s.conn.stream s.conn.local_addr in
      elim (continue-cases (on_stream (send_success debug s.conn.local_addr) s)
        (λ _. run_tunnel net debug addr outbound)) [
          | inl (_, s₁, e₁, e) ↦
              let (said, kept) =
                on_stream-eq-ok net debug (send_success debug s.conn.local_addr) s s₁ e₁ in
              let (written, unread) =
                write_all-Wrote _ s.conn.stream s₁.conn.stream (sym same ∙ said) in
              relayed s₁.conn.stream outbound written (ap (λ p. p.1.conn.stream) e)
          | inr e ↦ replied 0 (omega arith) (
              subst (Sent (relay_reply 0 s.conn.local_addr) s.conn.stream.written)
                (sym (ap (λ t. t.conn.stream.written) e ∙ ap (λ p. p.1.written) same))
                (write_all-Sent (relay_reply 0 s.conn.local_addr) s.conn.stream))
        ]
  after_dialing-Replied addr (err e) s = error-Replied e s
  after_dialing-Replied addr panic s = silent net s.conn.local_addr _ s.conn.stream refl

  connect-Replied :
      (resolved : Result SocketAddr) (s : Session)
      → Replied net s.conn.local_addr s.conn.stream.written
          ((lift resolved >>= dial net debug) s).1.conn.stream
  unfolding dial
  connect-Replied (ok addr) s =
      after_dialing-Replied addr (establish_tcp_connection net debug addr)
        (note_event (dialed addr) s)
  connect-Replied (err e) s = silent net s.conn.local_addr _ s.conn.stream refl
  connect-Replied panic s = silent net s.conn.local_addr _ s.conn.stream refl

  serve_request-Replied :
      (r : RelayRequest) (s : Session)
      → Replied net s.conn.local_addr s.conn.stream.written
          (serve_request net debug r s).1.conn.stream
  unfolding serve_request
  serve_request-Replied r s = elim (Bool-cases (command_eq r.command tcp_connect)) [
    | inl connects ↦ rw connects (connect-Replied (to_socket_addr net r.endpoint_address) s)
    | inr other ↦ rw other (error-Replied (lurk_error (unsupported_socks_command r.command)) s)
  ]

  process_relay-Replied :
      (s : Session)
      → Replied net s.conn.local_addr s.conn.stream.written
          (process_relay_request net debug s).1.conn.stream
  unfolding process_relay_request
  process_relay-Replied s =
      elim (continue-cases (on_stream read_relay s) (serve_request net debug)) [
        | inr e ↦
            silent net s.conn.local_addr _ (process_relay_request net debug s).1.conn.stream
              (ap (λ t. t.conn.stream.written) e ∙ read_relay-Quiet s.conn.stream)
        | inl (r, s₁, e₁, e₂) ↦
            subst (Replied net s.conn.local_addr s.conn.stream.written)
              (sym (ap (λ p. p.1.conn.stream) e₂))
              (subst₂ (λ l w. Replied net l w (serve_request net debug r s₁).1.conn.stream)
                (sym (ap (λ p. p.1.conn.local_addr) e₁))
                (sym (ap (λ p. p.1.conn.stream.written) e₁) ∙ read_relay-Quiet s.conn.stream)
                (serve_request-Replied r s₁))
      ]

  -- The speech of a handshake.
  abbrev Said : SocketAddr → Stream → Stream → Type 0
  Said local_addr s s' =
      (speech : List ℕ) × IsSpeech local_addr speech × Sent speech s.written s'.written

  handshake_answer-Said :
      (local_addr : SocketAddr) (b : Bool) (s : Stream) → Said local_addr s (handshake_answer b s).1
  handshake_answer-Said local_addr true s = (
    _,
    answer 1 (omega arith),
    Sent-longer _ (relay_reply 1 local_addr) s.written _ (write_all-Sent (method_reply 0) s),
  )
  handshake_answer-Said local_addr false s = (
    _,
    refusal,
    subst (λ t. Sent (method_reply 255) s.written t.written)
        (sym (continue-state (write_all (method_reply 255) s) _ (λ u t. refl)))
        (write_all-Sent (method_reply 255) s),
  )

  module _ (order : HashOrder) where
    process_handshake-Said :
        (local_addr : SocketAddr) (s : Stream)
        → Said local_addr s (process_handshake debug order s).1
    unfolding process_handshake
    process_handshake-Said local_addr s =
        elim (continue-cases (read_handshake s) (λ r.
          answer_handshake debug (select_auth_method order new_authenticator r.auth_methods))) [
            | inr e ↦ (
              _,
              refusal,
              Sent-none _ s.written _ (ap (λ t. t.written) e ∙ read_handshake-Quiet s),
            )
            | inl (r, s₁, e₁, e₂) ↦
                let answered = answer_handshake_lem debug order r.auth_methods s₁ in
                let (speech, is_speech, sent) =
                  handshake_answer-Said local_addr (contains r.auth_methods LurkAuthMethod.none)
                    s₁ in
                (
                  speech,
                  is_speech,
                  subst₂ (λ w t. Sent speech w t.written)
                      (sym (ap (λ p. p.1.written) e₁) ∙ read_handshake-Quiet s)
                      (sym (ap (λ p. p.1) (e₂ ∙ answered))) sent,
                )
          ]

    checked-Spoke :
        (r : Result (Unit {0})) (s : Session)
        → Spoke net s.conn.local_addr s.conn.stream.written
            ((lift r >> on_stream (process_handshake debug order)) s).1.conn.stream
    checked-Spoke (ok u) s =
        let (speech, is_speech, sent) = process_handshake-Said s.conn.local_addr s.conn.stream in
        spoke speech is_speech sent
    checked-Spoke (err e) s = spoke _ refusal (Sent-none _ s.conn.stream.written _ refl)
    checked-Spoke panic s = spoke _ refusal (Sent-none _ s.conn.stream.written _ refl)

    checked-local_addr :
        (r : Result (Unit {0})) (s : Session)
        → ((lift r >> on_stream (process_handshake debug order)) s).1.conn.local_addr
          ≡ s.conn.local_addr
    checked-local_addr (ok u) s = refl
    checked-local_addr (err e) s = refl
    checked-local_addr panic s = refl

    -- Whatever the client sends, however its stream ends or fails and whatever it takes of what is
    -- written to it, and whether the handler succeeds, fails or panics: the handler has written a front
    -- part of `05 ff`, or of `05 00` and one reply with a code below 9 and the bound address; or it has
    -- written `05 00` and the whole reply with code 0, and then left the stream to the tunnel.
    pub handle-Spoke :
        (s : Session)
        → Spoke net s.conn.local_addr s.conn.stream.written (handle net debug order s).1.conn.stream
    unfolding handle
    handle-Spoke s =
        let agreed = debug_assert debug (is_socks5 s.conn.label) in
        elim (continue-cases ((lift agreed >> on_stream (process_handshake debug order)) s)
          (λ _. process_relay_request net debug)) [
            | inr e ↦
                subst (λ t. Spoke net s.conn.local_addr s.conn.stream.written t.conn.stream) (sym e)
                  (checked-Spoke agreed s)
            | inl (_, s₁, e₁, e₂) ↦
                let (shook, kept) =
                  checked-eq-ok net debug agreed (process_handshake debug order) s s₁ e₁ in
                let (ms, front, offered, written) =
                  process_handshake_sound debug order s.conn.stream s₁.conn.stream shook in
                let same_local =
                  sym (ap (λ p. p.1.conn.local_addr) e₁) ∙ checked-local_addr agreed s in
                Replied-Spoke net s.conn.local_addr s.conn.stream.written _ (
                  subst (Replied net s.conn.local_addr (s.conn.stream.written ++ method_reply 0))
                    (sym (ap (λ p. p.1.conn.stream) e₂))
                    (subst₂
                      (λ l w. Replied net l w (process_relay_request net debug s₁).1.conn.stream)
                      same_local written (process_relay-Replied s₁)))
          ]
