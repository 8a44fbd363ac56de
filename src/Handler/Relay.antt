-- ===== src/Handler/Relay.antt =====
-- What the handler does with a relay request, on each of its branches.
use lurk.Socks5.Codes.{reply_code}
use lurk.Tcp.{establish_tcp_connection}
use lurk.Handler.Replies.{send_success_lem, on_relay_request_handling_error_lem, relay_reply}
use lurk.Stream.{write_all}
use lurk.Address.{SocketAddr}
use lurk.Error.{
  udp_associate, tcp_bind, unsupported_socks_command, lurk_error, ◌>>◌, Command, ok, err,
  tcp_connect, Error,
}
use lurk.Socks5.{command_eq}
use lurk.Socks5.Request.{RelayRequest}
use lurk.Handler.{
  dialed, run_tunnel, note_event, on_relay_request_handling_error, on_stream, Session,
  serve_request,
}
use lurk.Net.{to_socket_addr, Net}
use lurk.Common.{◌≢◌, ◌≡◌, refl, Bool}

module _ (net : Net) (debug : Bool) where
  -- A request for another command than CONNECT is answered with reply code 7 and the bound address;
  -- nothing is dialed, and nothing but the connection's stream changes.
  pub serve_request_unsupported :
      (r : RelayRequest) (s : Session)
      → r.command ≢ tcp_connect
      → serve_request net debug r s ≡ on_stream (write_all (relay_reply 7 s.conn.local_addr)) s
  unfolding serve_request command_eq
  serve_request_unsupported r s h = other r.command refl
    where
      reply :
          (c : Command)
          → on_stream
              (on_relay_request_handling_error debug
                (lurk_error (unsupported_socks_command c))
                s.conn.local_addr)
              s
            ≡ on_stream (write_all (relay_reply 7 s.conn.local_addr)) s
      reply c = rw (on_relay_request_handling_error_lem debug s.conn.stream)

      other :
          (c : Command)
          → r.command ≡ c
          → serve_request net debug r s ≡ on_stream (write_all (relay_reply 7 s.conn.local_addr)) s
      other tcp_connect e = absurd (h e)
      other tcp_bind e = rw (e, reply)
      other udp_associate e = rw (e, reply)

  -- A CONNECT request whose address is not resolved ends with the error of the resolution: nothing
  -- is dialed, and no reply is written.
  pub serve_request_unresolved :
      (r : RelayRequest) (s : Session) (e : Error)
      → r.command ≡ tcp_connect
      → to_socket_addr net r.endpoint_address ≡ err e
      → serve_request net debug r s ≡ (err e, s)
  unfolding serve_request command_eq
  serve_request_unresolved r s e h u = rw (h, u)

  module _ (r : RelayRequest) (s : Session) (addr : SocketAddr) (connects : r.command ≡ tcp_connect)
      (resolved : to_socket_addr net r.endpoint_address ≡ ok addr) where
    -- A CONNECT request whose connection cannot be established is answered with the reply code of the
    -- error; the connection was asked for once, and there is no tunnel.
    pub serve_request_refused :
        (e : Error)
        → establish_tcp_connection net debug addr ≡ err e
        → serve_request net debug r s
          ≡ on_stream
              (write_all (relay_reply (reply_code e) s.conn.local_addr))
              (note_event (dialed addr) s)
    unfolding serve_request command_eq
    serve_request_refused e f =
        rw (connects, resolved, f, on_relay_request_handling_error_lem debug s.conn.stream)

    -- A CONNECT request whose connection is established is answered with reply code 0 and the bound
    -- address, and only then is the tunnel run, on the stream with the reply written.
    pub serve_request_connected :
        (outbound : net.Socket)
        → establish_tcp_connection net debug addr ≡ ok outbound
        → serve_request net debug r s
          ≡ (on_stream (write_all (relay_reply 0 s.conn.local_addr))
                >> run_tunnel net debug addr outbound)
              (note_event (dialed addr) s)
    unfolding serve_request command_eq
    serve_request_connected outbound f =
        rw (connects, resolved, f, send_success_lem debug s.conn.stream s.conn.local_addr)
