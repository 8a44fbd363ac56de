-- ===== src/Handler/Conversation.antt =====
-- Whole conversations with a client that takes every byte that the server writes: the greeting, the
-- relay request, and what the server does in the end.
use lurk.Socks5.Codes.{reply_code}
use lurk.Handler.Relay.{
  serve_request_connected, serve_request_refused, serve_request_unresolved,
  serve_request_unsupported,
}
use lurk.Address.Encoding.{on_wire, IsValid}
use lurk.Handler.Replies.{relay_reply, method_reply}
use lurk.Stream.{Stream, write_all}
use lurk.Socks5.Wire.{read_relay-encode_relay, encode_handshake, encode_relay}
use lurk.Tcp.{establish_tcp_connection, socks5}
use lurk.Socks5.Request.{RelayRequest}
use lurk.Handler.Handshake.{process_handshake-encode_handshake}
use lurk.Address.{SocketAddr}
use lurk.Handler.{tunnelled, with_stream, dialed, run_tunnel, serve_request, handle, Event, Session}
use lurk.Error.{
  Error, ok, tcp_connect, no_acceptable_authentication_method, lurk_error, err, LurkAuthMethod,
  ErrorKind,
}
use lurk.Net.{to_socket_addr, Net}
use lurk.Auth.{contains, HashOrder}
use lurk.Common.{◌∙◌, ◌≢◌, none, Option, ℕ, List, [], ◌∷◌, ◌++◌, ◌≡◌, refl, Bool, true, false}

-- A connection labelled SOCKS5 whose peer takes every write.
module _ (ending : Option ErrorKind) (peer_addr local_addr : SocketAddr) where
  abbrev pub connected_to : (incoming written : List ℕ) → List Event → Session
  connected_to incoming written events = record {
    conn = record {
      stream = record { incoming = incoming; ending = ending; written = written; sink = none };
      label = socks5;
      peer_addr = peer_addr;
      local_addr = local_addr;
    };
    events = events;
  }

module _ (net : Net) (debug : Bool) (order : HashOrder) (ending : Option ErrorKind)
    (peer_addr local_addr : SocketAddr) (ms : List LurkAuthMethod) (r : RelayRequest)
    (rest written : List ℕ) (events : List Event) where
  abbrev at : (incoming written : List ℕ) → List Event → Session
  at = connected_to ending peer_addr local_addr

  abbrev request_bytes : List ℕ
  request_bytes = encode_relay r ++ rest

  abbrev greeted : Stream
  greeted = (at request_bytes written events).conn.stream

  -- For a client that takes every write: on a greeting that does not offer `None` the client gets
  -- `05 ff`; the handler fails, and leaves what follows the greeting unread; nothing is dialed.
  pub handle_no_method :
      contains ms LurkAuthMethod.none ≡ false
      → handle net debug order (at (encode_handshake ms ++ request_bytes) written events) ≡ (
        err (lurk_error no_acceptable_authentication_method),
        at request_bytes (written ++ method_reply 255) events,
      )
  unfolding handle write_all
  handle_no_method h =
      rw (process_handshake-encode_handshake debug order ms request_bytes greeted, h)

  module _ (offered : contains ms LurkAuthMethod.none ≡ true)
      (valid : IsValid r.endpoint_address) where
    abbrev request : RelayRequest
    request = record r { endpoint_address = on_wire r.endpoint_address }

    -- After a handshake that succeeds, the request is read back and served.
    handle_request :
        handle net debug order (at (encode_handshake ms ++ request_bytes) written events)
        ≡ serve_request net debug request (at rest (written ++ method_reply 0) events)
    unfolding handle write_all
    handle_request = rw (
      process_handshake-encode_handshake debug order ms request_bytes greeted,
      offered,
      read_relay-encode_relay r rest
          (at request_bytes (written ++ method_reply 0) events).conn.stream valid,
    )

    -- For a client that takes every write: after a greeting that offers `None` and a valid request
    -- for another command than CONNECT, the client has `05 00` and a reply with code 7 and the bound
    -- address; the handler succeeds, and nothing is dialed.
    pub handle_unsupported :
        r.command ≢ tcp_connect
        → handle net debug order (at (encode_handshake ms ++ request_bytes) written events)
          ≡ (ok tt, at rest ((written ++ method_reply 0) ++ relay_reply 7 local_addr) events)
    handle_unsupported h =
        handle_request ∙ serve_request_unsupported net debug request _ h ∙ unfold write_all in refl

    module _ (connects : r.command ≡ tcp_connect) where
      -- For a client that takes every write: after a greeting that offers `None` and a valid CONNECT
      -- request whose address is not resolved, the handler fails with the error of the resolution;
      -- the client has `05 00` and no reply to its request, and nothing is dialed.
      pub handle_unresolved :
          (e : Error)
          → to_socket_addr net (on_wire r.endpoint_address) ≡ err e
          → handle net debug order (at (encode_handshake ms ++ request_bytes) written events)
            ≡ (err e, at rest (written ++ method_reply 0) events)
      handle_unresolved e h =
          handle_request ∙ serve_request_unresolved net debug request _ e connects h

      module _ (addr : SocketAddr)
          (resolved : to_socket_addr net (on_wire r.endpoint_address) ≡ ok addr) where
        -- For a client that takes every write: after a greeting that offers `None` and a valid CONNECT
        -- request whose address is resolved, where the connection is not established, the client has
        -- `05 00` and a reply with the code of the error and the bound address; the handler succeeds,
        -- and has dialed once.
        pub handle_refused :
            (e : Error)
            → establish_tcp_connection net debug addr ≡ err e
            → handle net debug order (at (encode_handshake ms ++ request_bytes) written events) ≡ (
              ok tt,
              at rest
                  ((written ++ method_reply 0) ++ relay_reply (reply_code e) local_addr)
                  (events ++ dialed addr ∷ []),
            )
        handle_refused e h =
            handle_request
            ∙ serve_request_refused net debug request _ addr connects resolved e h
            ∙ unfold write_all in refl

        -- The stream that the tunnel gets: the request read, and both answers written.
        abbrev tunnel_inbound : Stream
        tunnel_inbound =
            (at rest ((written ++ method_reply 0) ++ relay_reply 0 local_addr) []).conn.stream

        -- The session when the tunnel has left the client's stream.
        abbrev pub tunnelled_session : net.Socket → Session
        tunnelled_session outbound =
            let (result, inbound, outbound') = net.copy_bidirectional tunnel_inbound outbound in
            with_stream inbound (at rest [] ((events ++ dialed addr ∷ []) ++ tunnelled addr ∷ []))

        -- For a client that takes every write: after a greeting that offers `None` and a valid CONNECT
        -- request whose address is resolved, where the connection is established, the tunnel is run
        -- on the two streams when the client has `05 00` and a reply with code 0 and the bound
        -- address, and with the bytes behind the request unread; the handler succeeds however the
        -- tunnel ends, and has dialed once.
        pub handle_connected :
            (outbound : net.Socket)
            → establish_tcp_connection net debug addr ≡ ok outbound
            → handle net debug order (at (encode_handshake ms ++ request_bytes) written events)
              ≡ (ok tt, tunnelled_session outbound)
        unfolding run_tunnel
        handle_connected outbound h =
            handle_request
            ∙ serve_request_connected net debug request _ addr connects resolved outbound h
            ∙ unfold write_all in refl
