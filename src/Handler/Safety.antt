-- ===== src/Handler/Safety.antt =====
-- Whatever a client sends, and however its stream fails: when the handler opens a connection.
use lurk.Handler.Handshake.{process_handshake_sound}
use lurk.Socks5.Parsing.{read_relay_sound}
use lurk.Stream.{Stream}
use lurk.Common.Bytes.{IsByte}
use lurk.Auth.{contains, HashOrder}
use lurk.Socks5.Wire.{encode_relay, encode_handshake}
use lurk.Socks5.{command_eq}
use lurk.Tcp.{establish_tcp_connection}
use lurk.Error.{
  ◌>>◌, debug_assert, lift, M, panic, err, udp_associate, continue-cases, tcp_bind, Result-cases,
  Result, LurkAuthMethod, Command, ok, tcp_connect,
}
use lurk.Address.{SocketAddr}
use lurk.Handler.{
  process_handshake, is_socks5, process_relay_request, send_success, on_stream, after_dialing,
  handle, note_event, run_tunnel, tunnelled, dialed, Session, Event, serve_request, dial,
}
use lurk.Socks5.Request.{read_relay, RelayRequest}
use lurk.Net.{to_socket_addr, Net}
use lurk.Common.{
  subst, All-append_right, subst₂, arith, sym, ◌∙◌, ap, All, inr, inl, ◌⊎◌, ℕ, List, [], ◌∷◌, ◌++◌,
  ◌≡◌, refl, Bool, true,
}

module _ (net : Net) (debug : Bool) where
  -- The events of a request that was served: the address of a CONNECT request was dialed, and a
  -- tunnel was run only on a connection that was established.
  pub record Opened (r : RelayRequest) (before after : List Event) : Type 0 where
    pub addr : SocketAddr
    pub connects : r.command ≡ tcp_connect
    pub resolved : to_socket_addr net r.endpoint_address ≡ ok addr
    pub events :
        (after ≡ before ++ dialed addr ∷ [])
        ⊎ ((after ≡ (before ++ dialed addr ∷ []) ++ tunnelled addr ∷ [])
            × ((outbound : net.Socket) × (establish_tcp_connection net debug addr ≡ ok outbound)))

  -- After dialing, there is at most a tunnel, and only on a connection.
  after_dialing-events :
      (addr : SocketAddr) (x : Result net.Socket) (s : Session)
      → ((after_dialing net debug addr x s).1.events ≡ s.events)
        ⊎ (((after_dialing net debug addr x s).1.events ≡ s.events ++ tunnelled addr ∷ [])
            × ((outbound : net.Socket) × (x ≡ ok outbound)))
  unfolding run_tunnel
  after_dialing-events addr (ok outbound) s =
      elim (continue-cases (on_stream (send_success debug s.conn.local_addr) s)
        (λ _. run_tunnel net debug addr outbound)) [
          | inl (_, s₁, replied, e) ↦ inr (
            ap (λ p. p.1.events) e ∙ ap (λ p. p.1.events ++ tunnelled addr ∷ []) (sym replied),
            (outbound, refl),
          )
          | inr e ↦ inl (ap (λ t. t.events) e)
        ]
  after_dialing-events addr (err e) s = inl refl
  after_dialing-events addr panic s = inl refl

  dial-Opened :
      (r : RelayRequest) (s : Session) (addr : SocketAddr)
      → r.command ≡ tcp_connect
      → to_socket_addr net r.endpoint_address ≡ ok addr
      → Opened r s.events (dial net debug addr s).1.events
  unfolding dial
  dial-Opened r s addr c h = record {
    addr = addr;
    connects = c;
    resolved = h;
    events =
        after_dialing-events addr (establish_tcp_connection net debug addr)
          (note_event (dialed addr) s);
  }

  connect-Opened :
      (r : RelayRequest) (s : Session)
      → r.command ≡ tcp_connect
      → ((serve_request net debug r s).1.events ≡ s.events)
        ⊎ Opened r s.events (serve_request net debug r s).1.events
  unfolding serve_request command_eq
  connect-Opened r s c = elim (Result-cases (to_socket_addr net r.endpoint_address)) [
    | inl (addr, h) ↦ inr (simp (c, h) (dial-Opened r s addr c h))
    | inr (inl (e, h)) ↦ inl (rw (c, h))
    | inr (inr h) ↦ inl (rw (c, h))
  ]

  serve_request-Opened :
      (r : RelayRequest) (s : Session)
      → ((serve_request net debug r s).1.events ≡ s.events)
        ⊎ Opened r s.events (serve_request net debug r s).1.events
  unfolding serve_request
  serve_request-Opened r s = by_command r.command refl
    where
      by_command :
          (c : Command)
          → r.command ≡ c
          → ((serve_request net debug r s).1.events ≡ s.events)
            ⊎ Opened r s.events (serve_request net debug r s).1.events
      by_command tcp_connect e = connect-Opened r s e
      by_command tcp_bind e = inl (unfold command_eq in rw e)
      by_command udp_associate e = inl (unfold command_eq in rw e)

  -- Reading keeps the events, and what the stream was left with is what the session has.
  pub on_stream-eq-ok :
      {A : Type 0} (m : M Stream A) (s s' : Session) {a : A}
      → on_stream m s ≡ (ok a, s')
      → (m s.conn.stream ≡ (ok a, s'.conn.stream)) × (s'.events ≡ s.events)
  on_stream-eq-ok m s s' e = (ap (λ p. (p.0, p.1.conn.stream)) e, sym (ap (λ p. p.1.events) e))

  checked-events :
      (r : Result (Unit {0})) (m : M Stream (Unit {0})) (s : Session)
      → ((lift r >> on_stream m) s).1.events ≡ s.events
  checked-events (ok u) m s = refl
  checked-events (err e) m s = refl
  checked-events panic m s = refl

  pub checked-eq-ok :
      (r : Result (Unit {0})) (m : M Stream (Unit {0})) (s s' : Session)
      → (lift r >> on_stream m) s ≡ (ok tt, s')
      → (m s.conn.stream ≡ (ok tt, s'.conn.stream)) × (s'.events ≡ s.events)
  checked-eq-ok (ok u) m s s' e = on_stream-eq-ok m s s' e
  checked-eq-ok (err x) m s s' e = absurd (ground arith)
  checked-eq-ok panic m s s' e = absurd (ground arith)

  -- What must have gone before a connection was opened.
  pub record Authorized (s s' : Session) : Type 0 where
    pub methods : List LurkAuthMethod
    pub request : RelayRequest
    pub unread : List ℕ
    pub received :
        s.conn.stream.incoming ≡ encode_handshake methods ++ (encode_relay request ++ unread)
    pub offered : contains methods LurkAuthMethod.none ≡ true
    pub opened : Opened request s.events s'.events

  -- A request that was read and served.
  process_relay-Opened :
      (s : Session)
      → All IsByte s.conn.stream.incoming
      → ((process_relay_request net debug s).1.events ≡ s.events)
        ⊎ ((r : RelayRequest) × (unread : List ℕ) × (s.conn.stream.incoming
              ≡ encode_relay r ++ unread)
            × Opened r s.events (process_relay_request net debug s).1.events)
  unfolding process_relay_request
  process_relay-Opened s bytewise =
      elim (continue-cases (on_stream read_relay s) (serve_request net debug)) [
        | inr e ↦ inl (ap (λ t. t.events) e)
        | inl (r, s₁, e₁, e₂) ↦
            let (read, kept) = on_stream-eq-ok read_relay s s₁ e₁ in
            let (took, valid) = read_relay_sound s.conn.stream s₁.conn.stream r bytewise read in
            let same = ap (λ p. p.1.events) e₂ in
            elim (serve_request-Opened r s₁) [
              | inl e ↦ inl (same ∙ e ∙ kept)
              | inr o ↦
                  inr (r, s₁.conn.stream.incoming, took.0, subst₂ (Opened r) kept (sym same) o)
            ]
      ]

  -- Whatever the client sends, however its stream ends or fails, and whether the handler succeeds,
  -- fails or panics: either the handler opened nothing, or the client had sent a greeting that
  -- offers `None` and then a CONNECT request, both in the format of RFC 1928, the address of the
  -- request was resolved, just this address was dialed, once, and a tunnel was run at most once, on
  -- an established connection.
  pub handle-Authorized :
      (order : HashOrder) (s : Session)
      → All IsByte s.conn.stream.incoming
      → ((handle net debug order s).1.events ≡ s.events) ⊎ Authorized s (handle net debug order s).1
  unfolding handle
  handle-Authorized order s bytewise =
      elim (continue-cases
        ((lift (debug_assert debug (is_socks5 s.conn.label))
            >> on_stream (process_handshake debug order))
          s)
        (λ _. process_relay_request net debug)) [
          | inr e ↦ inl (ap (λ t. t.events) e ∙ checked-events _ (process_handshake debug order) s)
          | inl (_, s₁, e₁, e₂) ↦
              let (shook, kept) = checked-eq-ok _ (process_handshake debug order) s s₁ e₁ in
              let (ms, front, offered, _) =
                process_handshake_sound debug order s.conn.stream s₁.conn.stream shook in
              let same = ap (λ p. p.1.events) e₂ in
              let bytewise₁ =
                All-append_right IsByte (encode_handshake ms) _
                  (subst (All IsByte) front bytewise) in
              elim (process_relay-Opened s₁ bytewise₁) [
                | inl e ↦ inl (same ∙ e ∙ kept)
                | inr (r, unread, behind, o) ↦ inr (record {
                  methods = ms;
                  request = r;
                  unread = unread;
                  received = front ∙ ap (λ t. encode_handshake ms ++ t) behind;
                  offered = offered;
                  opened = subst₂ (Opened r) kept (sym same) o;
                })
              ]
        ]
