-- ===== src/Conformance/Handshakes.antt =====
-- The tests of server/handlers/socks5.rs.
use lurk.Address.{SocketAddr}
use lurk.Auth.{method_eq, contains, insert, collect, HashOrder, MethodSet}
use lurk.Common.{append-nil, subst, ap, false, arith, true, [], ◌∷◌, ◌≡◌, Bool, List, refl, ℕ}
use lurk.Conformance.{BailUnlessLurkErr}
use lurk.Error.{
  and_then, done, gss_api, no_acceptable_authentication_method, ok, password, LurkAuthMethod,
  Result,
}
use lurk.Handler.{process_handshake}
use lurk.Handler.Clients.{accept-write_handshake, handshake_conversation, idle, outcome}
use lurk.Socks5.Request.{write_handshake}
use lurk.Socks5.Response.{
  build_handshake, handshake_builder, read_handshake_response, with_auth_method,
  with_no_acceptable_method, HandshakeResponse,
}
use lurk.Stream.{Stream}
use lurk.Stream.Laws.{feed}
use lurk.Tcp.{accept, socks5, LurkTcpConnection}

-- The client writes its request and reads the response; the server accepts the connection, whose
-- label is SOCKS5, and processes the handshake.
abbrev HandshakeTest : MethodSet → (Result (Unit {0}) → Type 0) → Result HandshakeResponse → Type 0
HandshakeTest set Expected reference =
    (debug : Bool) (client_order server_order : HashOrder) (peer local : SocketAddr)
    → (greeting : List ℕ) × (conn : LurkTcpConnection) × (server : Stream) × (result : Result
        (Unit {0}))
      × (write_handshake client_order (record { auth_methods = set }) idle
          ≡ (ok tt, record idle { written = greeting }))
      × (accept
            (done (record { stream = feed greeting idle; peer = done peer; local = done local }))
          ≡ ok conn)
      × (conn.label ≡ socks5)
      × (process_handshake debug server_order conn.stream ≡ (result, server))
      × Expected result
      × ((read_handshake_response (feed server.written idle)).0 ≡ reference)

three : Unit {0}
unfolding collect insert contains method_eq with_auth_method with_no_acceptable_method
    build_handshake handshake_builder
three = tt

abbrev three_methods : MethodSet
three_methods = collect (LurkAuthMethod.none ∷ gss_api ∷ password ∷ [])

abbrev two_methods : MethodSet
two_methods = collect (gss_api ∷ password ∷ [])

abbrev pub HandshakeWithAuthMethod : Type 0
HandshakeWithAuthMethod =
    HandshakeTest three_methods (λ result. result ≡ ok tt)
      (and_then (with_auth_method true LurkAuthMethod.none handshake_builder) build_handshake)

abbrev pub HandshakeWithNonAccepatableMethod : Type 0
HandshakeWithNonAccepatableMethod =
    HandshakeTest two_methods (BailUnlessLurkErr no_acceptable_authentication_method)
      (and_then (with_no_acceptable_method true handshake_builder) build_handshake)

handshake_with_auth_method : HandshakeWithAuthMethod
unfolding three
handshake_with_auth_method debug client_order server_order peer local =
    let (greeting, sent, server, processed, left, received) =
      handshake_conversation debug client_order server_order three_methods [] (omega arith) in
    (
      greeting,
      _,
      server,
      outcome true,
      sent,
      accept-write_handshake client_order three_methods greeting peer local sent,
      refl,
      subst (λ g. process_handshake debug server_order (feed g idle) ≡ (outcome true, server))
          (append-nil greeting) processed,
      refl,
      ap (λ r. r.0) received,
    )

handshake_with_non_accepatable_method : HandshakeWithNonAccepatableMethod
unfolding three
handshake_with_non_accepatable_method debug client_order server_order peer local =
    let (greeting, sent, server, processed, left, received) =
      handshake_conversation debug client_order server_order two_methods [] (omega arith) in
    (
      greeting,
      _,
      server,
      outcome false,
      sent,
      accept-write_handshake client_order two_methods greeting peer local sent,
      refl,
      subst (λ g. process_handshake debug server_order (feed g idle) ≡ (outcome false, server))
          (append-nil greeting) processed,
      refl,
      ap (λ r. r.0) received,
    )
