-- ===== src/Conformance/Protocol.antt =====
-- proto/socks5/test.rs
use lurk.Common.Bytes.{be_bytes, from_be_bytes}
use lurk.Address.{
  read_ipv4, ipv4_socket_address, read_from, v4, write_to, SocketAddr, socks5_addr_type_ipv4,
}
use lurk.Auth.{collect, insert, contains, method_eq}
use lurk.Common.{true, [], ◌++◌, ◌∷◌, ◌≡◌, List, refl, ℕ}
use lurk.Conformance.{mock, BailUnlessLurkErr}
use lurk.Error.{
  connection_aborted, data_error, domain_name_decoding_failed, gss_api, io_error, lift, lurk_error,
  ok, password, tcp_bind, tcp_connect, unsupported_socks_command, ◌>>=◌, ◌>>◌, ErrorKind,
  InvalidValue, LurkAuthMethod, M,
}
use lurk.Socks5.{
  as_u8, try_from, from_socks5_const, command_not_supported, general_failure, host_unreachable,
  socks5_auth_method_gssapi, socks5_auth_method_none, socks5_auth_method_not_acceptable,
  socks5_auth_method_password, socks5_cmd_connect, socks5_version, status_of_error, ReplyStatus,
}
use lurk.Socks5.Request.{collect_methods, read_handshake, read_relay}
use lurk.Socks5.Response.{
  build_handshake, build_relay, handshake_builder, relay_builder, with_auth_method,
  with_bound_address, with_no_acceptable_method, with_success, write_handshake_response,
  write_relay_response,
}
use lurk.Stream.{write_all, read_be, read_u8, read_exact, Stream}

abbrev handshakes : List ℕ
handshakes =
    socks5_version ∷ 3 ∷ socks5_auth_method_password ∷ socks5_auth_method_gssapi
    ∷ socks5_auth_method_none ∷ socks5_version ∷ 1 ∷ socks5_auth_method_not_acceptable ∷ []

abbrev write_both : M Stream (Unit {0})
write_both = do
  builder ← lift (with_auth_method true gss_api handshake_builder)
  response ← lift (build_handshake builder)
  write_handshake_response true response
  builder' ← lift (with_no_acceptable_method true handshake_builder)
  response' ← lift (build_handshake builder')
  write_handshake_response true response'

-- The two reads follow one another on one stream, and so do the two writes on another.
abbrev pub RwHandshakeMessages : Type 0
RwHandshakeMessages =
    ((read_handshake (mock handshakes)).0
      ≡ ok (record { auth_methods = collect (password ∷ gss_api ∷ LurkAuthMethod.none ∷ []) }))
    × BailUnlessLurkErr (data_error (InvalidValue.auth_method socks5_auth_method_not_acceptable))
        (read_handshake (read_handshake (mock handshakes)).1).0
    × (write_both (mock []) ≡ (
      ok tt,
      record (mock []) {
        written =
            socks5_version ∷ socks5_auth_method_gssapi ∷ socks5_version
            ∷ socks5_auth_method_not_acceptable ∷ [];
      },
    ))

-- What the tests run.
protocol : Unit {0}
unfolding read_handshake read_relay read_exact read_from read_u8 read_be read_ipv4 from_be_bytes
    collect_methods from_socks5_const try_from collect insert contains method_eq be_bytes write_to
    write_all with_auth_method with_no_acceptable_method build_handshake handshake_builder
    write_handshake_response with_success with_bound_address relay_builder build_relay
    write_relay_response as_u8
protocol = tt

rw_handshake_messages : RwHandshakeMessages
unfolding protocol
rw_handshake_messages = (refl, refl, refl)

abbrev relays : List ℕ
relays =
    socks5_version ∷ socks5_cmd_connect ∷ 0x00 ∷ socks5_addr_type_ipv4 ∷ 127 ∷ 0 ∷ 0 ∷ 1 ∷ 10 ∷ 10
    ∷ socks5_version ∷ 0xff ∷ 0x00 ∷ []

abbrev bound : SocketAddr
bound = v4 (record { ip = 0x7f00_0001; port = 11 })

abbrev write_reply : M Stream (Unit {0})
write_reply = do
  builder ← lift (with_success true relay_builder)
  builder' ← lift (with_bound_address true bound builder)
  response ← lift (build_relay builder')
  write_relay_response response

abbrev pub RwRelayMessages : Type 0
RwRelayMessages =
    ((read_relay (mock relays)).0
      ≡ ok (record {
        command = tcp_connect;
        endpoint_address = ipv4_socket_address 0x7f00_0001 2570;
      }))
    × BailUnlessLurkErr (data_error (InvalidValue.socks_command 0xff))
        (read_relay (read_relay (mock relays)).1).0
    × (write_reply (mock []) ≡ (
      ok tt,
      record (mock []) {
        written = socks5_version ∷ 0 ∷ 0x00 ∷ socks5_addr_type_ipv4 ∷ 127 ∷ 0 ∷ 0 ∷ 1 ∷ 0 ∷ 11 ∷ [];
      },
    ))

rw_relay_messages : RwRelayMessages
unfolding protocol
rw_relay_messages = (refl, refl, refl)

abbrev address_bytes : List ℕ
address_bytes = socks5_addr_type_ipv4 ∷ 127 ∷ 0 ∷ 0 ∷ 1 ∷ 10 ∷ 10 ∷ []

abbrev pub RwAddress : Type 0
RwAddress =
    ((read_from (mock (address_bytes ++ 0xff ∷ []))).0 ≡ ok (ipv4_socket_address 0x7f00_0001 2570))
    × BailUnlessLurkErr (data_error (InvalidValue.address_type 0xff))
        (read_from (read_from (mock (address_bytes ++ 0xff ∷ []))).1).0
    × (write_to (ipv4_socket_address 0x7f00_0001 2570) [] ≡ ok address_bytes)

rw_address : RwAddress
unfolding protocol
rw_address = (refl, refl, refl)

-- `NotFound` is another kind than those that the program names, whichever number stands for it.
abbrev pub ErrorToRelayStatusCast : Type 0
ErrorToRelayStatusCast =
    (status_of_error (lurk_error (unsupported_socks_command tcp_bind)) ≡ command_not_supported)
    × (status_of_error (lurk_error (data_error (InvalidValue.auth_method 0xff))) ≡ general_failure)
    × (status_of_error (lurk_error (domain_name_decoding_failed (0xf1 ∷ []))) ≡ general_failure)
    × (status_of_error (io_error ErrorKind.connection_refused) ≡ ReplyStatus.connection_refused)
    × (status_of_error (io_error connection_aborted) ≡ host_unreachable)
    × ((not_found : ℕ)
        → status_of_error (io_error (ErrorKind.other_kind not_found)) ≡ general_failure)

error_to_relay_status_cast : ErrorToRelayStatusCast
unfolding status_of_error
error_to_relay_status_cast = (refl, refl, refl, refl, refl, λ not_found. refl)
