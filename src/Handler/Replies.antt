-- ===== src/Handler/Replies.antt =====
-- What each reply of the handler puts on the wire: the builders do not panic, with or without debug
-- assertions.
use lurk.Socks5.Codes.{as_u8-status_of_error, reply_code}
use lurk.Error.{gss_api, password, LurkAuthMethod, Error}
use lurk.Socks5.{as_u8, from_socks5_const, as_socks5_const}
use lurk.Socks5.Response.{
  write_relay_response, relay_builder, write_handshake_response, build_relay, handshake_builder,
  with_bound_address, build_handshake, with_err, with_success, with_no_acceptable_method,
  with_auth_method,
}
use lurk.Handler.{
  on_relay_request_handling_error, send_success, send_no_acceptable_method, send_method,
}
use lurk.Stream.{write_all, Stream}
use lurk.Address.Encoding.{write_to-encode_address, encode_address}
use lurk.Address.{socket_address, SocketAddr}
use lurk.Common.{Bool, ℕ, List, [], ◌∷◌, ◌≡◌, refl}

-- VER, METHOD
abbrev pub method_reply : ℕ → List ℕ
method_reply code = 5 ∷ code ∷ []

-- VER, REP, RSV, ATYP, BND.ADDR, BND.PORT
abbrev pub relay_reply : ℕ → SocketAddr → List ℕ
relay_reply code addr = 5 ∷ code ∷ 0 ∷ encode_address (socket_address addr)

module _ (debug : Bool) (s : Stream) where
  -- The reply with a selected method is the version and the method's code in RFC 1928.
  pub send_method_lem :
      (m : LurkAuthMethod) → send_method debug m s ≡ write_all (method_reply (as_socks5_const m)) s
  unfolding send_method with_auth_method build_handshake handshake_builder write_handshake_response
      as_socks5_const from_socks5_const
  send_method_lem LurkAuthMethod.none = refl
  send_method_lem gss_api = refl
  send_method_lem password = refl

  pub send_no_acceptable_method_lem :
      send_no_acceptable_method debug s ≡ write_all (method_reply 255) s
  unfolding send_no_acceptable_method with_no_acceptable_method build_handshake handshake_builder
      write_handshake_response
  send_no_acceptable_method_lem = refl

  pub send_success_lem :
      (addr : SocketAddr) → send_success debug addr s ≡ write_all (relay_reply 0 addr) s
  unfolding send_success with_success with_bound_address build_relay relay_builder
      write_relay_response as_u8
  send_success_lem addr = rw (write_to-encode_address (socket_address addr) (5 ∷ 0 ∷ 0 ∷ []))

  pub on_relay_request_handling_error_lem :
      (e : Error) (addr : SocketAddr)
      → on_relay_request_handling_error debug e addr s
        ≡ write_all (relay_reply (reply_code e) addr) s
  unfolding on_relay_request_handling_error with_err with_bound_address build_relay relay_builder
      write_relay_response
  on_relay_request_handling_error_lem e addr =
      rw (write_to-encode_address (socket_address addr), (as_u8-status_of_error e).0)
