-- ===== src/Handler/Calmness.antt =====
-- The handler never panics: no `expect`, assertion or `todo!` on its path can fail.
use lurk.Socks5.{command_eq}
use lurk.Auth.{HashOrder, contains}
use lurk.Common.{if◌then◌else◌, ap, [], ◌∷◌, ◌≡◌, Bool, List, true, false}
use lurk.Error.{
  unsupported_socks_command, lurk_error, tcp_connect, ok, err, panic, from_io, lift, debug_assert,
  LurkAuthMethod, M, Result,
}
use lurk.Address.{SocketAddr, Address, domain_name, socket_address}
use lurk.Handler.{
  after_dialing, dial, handle, is_socks5, note_event, on_stream, process_handshake,
  process_relay_request, run_tunnel, send_success, serve_request, Session, dialed,
}
use lurk.Handler.Handshake.{answer_handshake_lem, handshake_answer}
use lurk.Handler.Replies.{on_relay_request_handling_error_lem, send_success_lem}
use lurk.Net.{next_or_unavailable, resolve_sockaddr, to_socket_addr, HostQuery, Net}
use lurk.Socks5.Request.{read_handshake, read_relay, RelayRequest}
use lurk.Socks5.CalmReaders.{read_handshake-Calm, read_relay-Calm}
use lurk.Stream.{Stream, write_all}
use lurk.Stream.Calm.{
  >>=-Calm, and_then-IsCalm, continue-IsCalm, from_io-IsCalm, write_all-Calm, Calm, IsCalm,
}
use lurk.Tcp.{establish_tcp_connection, socks5}

on_stream-Calm : {A : Type 0} (m : M Stream A) → Calm m → Calm (on_stream m)
on_stream-Calm m h s = h s.conn.stream

handshake_answer-Calm : (b : Bool) → Calm (handshake_answer b)
handshake_answer-Calm true = write_all-Calm _
handshake_answer-Calm false = >>=-Calm (write_all _) _ (write_all-Calm _) (λ u s. tt)

module _ (debug : Bool) (order : HashOrder) where
  process_handshake-Calm : Calm (process_handshake debug order)
  unfolding process_handshake
  process_handshake-Calm = >>=-Calm read_handshake _ read_handshake-Calm λ request s.
      rw (answer_handshake_lem debug order request.auth_methods s)
        (handshake_answer-Calm (contains request.auth_methods LurkAuthMethod.none) s)

next_or_unavailable-IsCalm : (addrs : List SocketAddr) → IsCalm (next_or_unavailable addrs)
next_or_unavailable-IsCalm [] = tt
next_or_unavailable-IsCalm (addr ∷ more) = tt

branch-IsCalm :
    {S A : Type 0} (b : Bool) (x y : Result A × S)
    → IsCalm x.0
    → IsCalm y.0
    → IsCalm (if b then x else y).0
branch-IsCalm true x y h k = h
branch-IsCalm false x y h k = k

module _ (net : Net) (debug : Bool) where
  resolve_sockaddr-IsCalm : (query : HostQuery) → IsCalm (resolve_sockaddr net query)
  unfolding resolve_sockaddr
  resolve_sockaddr-IsCalm query =
      and_then-IsCalm (from_io (net.lookup_host query)) _ (from_io-IsCalm (net.lookup_host query))
        next_or_unavailable-IsCalm

  pub to_socket_addr-IsCalm : (address : Address) → IsCalm (to_socket_addr net address)
  unfolding to_socket_addr
  to_socket_addr-IsCalm (socket_address addr) = tt
  to_socket_addr-IsCalm (domain_name name port) = resolve_sockaddr-IsCalm _

  pub establish_tcp_connection-IsCalm :
      (addr : SocketAddr) → IsCalm (establish_tcp_connection net debug addr)
  unfolding establish_tcp_connection
  establish_tcp_connection-IsCalm addr =
      and_then-IsCalm (from_io (net.connect addr)) _ (from_io-IsCalm (net.connect addr))
        λ socket. from_io-IsCalm _

  after_dialing-Calm :
      (addr : SocketAddr) (connected : Result net.Socket)
      → IsCalm connected
      → Calm (after_dialing net debug addr connected)
  unfolding run_tunnel
  after_dialing-Calm addr (ok socket) h s =
      continue-IsCalm (on_stream (send_success debug s.conn.local_addr) s) _
        (rw (send_success_lem debug s.conn.stream s.conn.local_addr)
          (write_all-Calm _ s.conn.stream))
        (λ u s. tt)
  after_dialing-Calm addr (err e) h s =
      rw (on_relay_request_handling_error_lem debug s.conn.stream e s.conn.local_addr)
        (write_all-Calm _ s.conn.stream)
  after_dialing-Calm addr panic h s = h

  dial-Calm : (addr : SocketAddr) → Calm (dial net debug addr)
  unfolding dial
  dial-Calm addr s =
      after_dialing-Calm addr _ (establish_tcp_connection-IsCalm addr) (note_event (dialed addr) s)

  serve_request-Calm : (request : RelayRequest) → Calm (serve_request net debug request)
  unfolding serve_request
  serve_request-Calm request s =
      branch-IsCalm (command_eq request.command tcp_connect) _ _
        (>>=-Calm (lift (to_socket_addr net request.endpoint_address)) _
          (λ s. to_socket_addr-IsCalm request.endpoint_address) dial-Calm s)
        (rw
          (on_relay_request_handling_error_lem debug s.conn.stream
            (lurk_error (unsupported_socks_command request.command)) s.conn.local_addr)
          (write_all-Calm _ s.conn.stream))

  process_relay_request-Calm : Calm (process_relay_request net debug)
  unfolding process_relay_request
  process_relay_request-Calm =
      >>=-Calm (on_stream read_relay) _ (on_stream-Calm read_relay read_relay-Calm)
        serve_request-Calm

  -- The handler of a connection that is labelled SOCKS5 never panics, on every network and in every
  -- build, whatever the client sends, however its stream ends or fails and whatever it takes of what
  -- is written to it: no assertion, no `expect` and no `todo!` of the code that it runs can fail.
  pub handle-IsCalm :
      (order : HashOrder) (s : Session)
      → s.conn.label ≡ socks5
      → IsCalm (handle net debug order s).0
  unfolding handle
  handle-IsCalm order s e =
      let labelled : debug_assert debug (is_socks5 s.conn.label) ≡ ok tt =
        ap (λ label. debug_assert debug (is_socks5 label)) e in
      rw labelled (
        continue-IsCalm (on_stream (process_handshake debug order) s) _
          (process_handshake-Calm debug order s.conn.stream) (λ u. process_relay_request-Calm))
