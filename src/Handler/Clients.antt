-- ===== src/Handler/Clients.antt =====
-- The handshake between the server and the client of the tests: `HandshakeRequest::write_to` at one
-- end, `HandshakeResponse::read_from` at the other.
use lurk.Tcp.Labels.{accept_lem}
use lurk.Address.{SocketAddr}
use lurk.Tcp.{socks5, accept, is_socks5_label, is_http_label, label_of}
use lurk.Error.{
  done, LurkAuthMethod, no_acceptable_authentication_method, lurk_error, err, ok, Result,
}
use lurk.Common.{
  ap, subst, refl, ◌∙◌, arith, ◌%◌, ◌++◌, ◌<◌, length, ℕ, ◌≡◌, List, true, none, Bool, [],
}
use lurk.Common.{false, true}
use lurk.Auth.{contains, HashOrder, MethodSet}
use lurk.Handler.{process_handshake}
use lurk.Handler.Handshake.{handshake_answer, process_handshake-encode_handshake}
use lurk.Handler.Replies.{method_reply}
use lurk.Socks5.Request.{write_handshake}
use lurk.Socks5.Response.{read_handshake_response, HandshakeResponse}
use lurk.Socks5.Wire.{encode_handshake}
use lurk.Stream.{read_exact, write_all, Stream}
use lurk.Stream.Laws.{feed}

-- A connection on which nothing was sent or written, and that takes every write.
abbrev pub idle : Stream
idle = record { incoming = []; ending = none; written = []; sink = none }

-- The server's result and the client's response, by whether `None` is offered.
abbrev pub outcome : Bool → Result (Unit {0})
outcome true = ok tt
outcome false = err (lurk_error no_acceptable_authentication_method)

abbrev pub selected : Bool → HandshakeResponse
selected true = record { method = 0 }
selected false = record { method = 255 }

handshake_answer-idle :
    (b : Bool) (rest : List ℕ)
    → handshake_answer b (feed rest idle)
      ≡ (outcome b, record idle { incoming = rest; written = method_reply (selected b).method })
unfolding write_all
handshake_answer-idle true rest = refl
handshake_answer-idle false rest = refl

read_reply :
    (b : Bool)
    → read_handshake_response (feed (method_reply (selected b).method) idle)
      ≡ (ok (selected b), idle)
unfolding read_handshake_response read_exact
read_reply true = refl
read_reply false = refl

-- The client of the tests sends any set of methods that its length byte can hold, in the order of
-- its hash table, and then more bytes. Then the server succeeds if the set has `None`, and fails
-- with `NoAcceptableAuthenticationMethod` otherwise; the bytes behind the greeting are left; and
-- from what the server has written the client reads the response with the method `None`, or with
-- "no acceptable method". Neither side panics.
pub handshake_conversation :
    (debug : Bool) (client_order server_order : HashOrder) (set : MethodSet) (rest : List ℕ)
    → length set < 256
    → (greeting : List ℕ) × (write_handshake client_order (record { auth_methods = set }) idle
        ≡ (ok tt, record idle { written = greeting }))
      × (server : Stream) × (process_handshake debug server_order (feed (greeting ++ rest) idle)
          ≡ (outcome (contains set LurkAuthMethod.none), server))
      × (server.incoming ≡ rest)
      × (read_handshake_response (feed server.written idle)
          ≡ (ok (selected (contains set LurkAuthMethod.none)), idle))
unfolding write_handshake write_all encode_handshake
handshake_conversation debug client_order server_order set rest h =
    let methods = client_order.iter set in
    let offers = contains set LurkAuthMethod.none in
    let sized : length set % 256 ≡ length methods = omega (arith, client_order.length_iter set) in
    (
      encode_handshake methods,
      rw sized,
      record idle { incoming = rest; written = method_reply (selected offers).method },
      process_handshake-encode_handshake debug server_order methods rest idle
          ∙ rw (client_order.visits set LurkAuthMethod.none) (handshake_answer-idle offers rest),
      refl,
      read_reply offers,
    )

-- What the client of the tests has written is accepted as a SOCKS5 connection.
pub accept-write_handshake :
    (order : HashOrder) (set : MethodSet) (greeting : List ℕ) (peer local : SocketAddr)
    → write_handshake order (record { auth_methods = set }) idle
      ≡ (ok tt, record idle { written = greeting })
    → accept (done (record { stream = feed greeting idle; peer = done peer; local = done local }))
      ≡ ok (record {
        stream = feed greeting idle;
        label = socks5;
        peer_addr = peer;
        local_addr = local;
      })
unfolding write_handshake write_all label_of is_http_label is_socks5_label
accept-write_handshake order set greeting peer local e =
    subst
      (λ g.
        accept (done (record { stream = feed g idle; peer = done peer; local = done local }))
        ≡ ok
            (record { stream = feed g idle; label = socks5; peer_addr = peer; local_addr = local }))
      (ap (λ p. p.1.written) e) (accept_lem 5 _ idle peer local)
