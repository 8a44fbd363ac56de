-- ===== src/Socks5/Tests.antt =====
-- Concrete messages, and the theorems on requests and codes at concrete inputs.
use lurk.Common.Bytes.{be_bytes, from_be_bytes}
use lurk.Socks5.Parsing.{
  read_handshake_unknown, read_relay_refused, read_handshake_sound, read_relay_sound,
}
use lurk.Address.Encoding.{encode_address, IsValid}
use lurk.Auth.{method_eq, contains, insert, collect}
use lurk.Address.{read_ipv4, read_from, ipv4_socket_address}
use lurk.Socks5.Wire.{
  read_handshake-encode_handshake, read_relay-encode_relay, encode_handshake, encode_relay,
}
use lurk.Socks5.{as_socks5_const, try_from, from_socks5_const}
use lurk.Stream.Laws.{feed, Took}
use lurk.Socks5.Request.{collect_methods, read_relay, read_handshake, RelayRequest}
use lurk.Stream.{read_be, read_u8, read_exact, Stream}
use lurk.Error.{
  InvalidValue, reserved_value, unexpected_eof, data_error, invalid_value, io_error, lurk_error,
  err, ok, tcp_connect, gss_api, LurkAuthMethod, password,
}
use lurk.Common.{map, ℕ, List, [], ◌∷◌, ◌++◌, ◌≡◌, refl, none, arith}

abbrev quiet : List ℕ → Stream
quiet incoming = record { incoming = incoming; ending = none; written = []; sink = none }

abbrev greeting : List ℕ
greeting = 5 ∷ 3 ∷ 2 ∷ 1 ∷ 0 ∷ []

abbrev all_methods : List LurkAuthMethod
all_methods = password ∷ gss_api ∷ LurkAuthMethod.none ∷ []

abbrev connect_request : RelayRequest
connect_request = record {
  command = tcp_connect;
  endpoint_address = ipv4_socket_address 0x7f00_0001 2570;
}

abbrev connect_bytes : List ℕ
connect_bytes = 5 ∷ 1 ∷ 0 ∷ 1 ∷ 127 ∷ 0 ∷ 0 ∷ 1 ∷ 10 ∷ 10 ∷ []

reads : Unit {0}
unfolding read_handshake read_relay read_exact read_from read_u8 read_be read_ipv4 from_be_bytes
    collect_methods from_socks5_const try_from insert contains method_eq as_socks5_const
    encode_handshake encode_relay encode_address be_bytes
reads = tt

greeting_read :
    read_handshake (quiet greeting) ≡ (ok (record { auth_methods = all_methods }), quiet [])
unfolding reads
greeting_read = refl

greeting_refused :
    (read_handshake (quiet (5 ∷ 1 ∷ 0xff ∷ []))).0
    ≡ err (lurk_error (data_error (InvalidValue.auth_method 0xff)))
unfolding reads
greeting_refused = refl

connect_read : read_relay (quiet connect_bytes) ≡ (ok connect_request, quiet [])
unfolding reads
connect_read = refl

-- A request that is cut off.
cut_off : read_relay (quiet (5 ∷ 1 ∷ 0 ∷ 1 ∷ 127 ∷ [])) ≡ (err (io_error unexpected_eof), quiet [])
unfolding reads
cut_off = refl

read_handshake-encode_handshake_example :
    read_handshake (feed (encode_handshake all_methods ++ 7 ∷ []) (quiet []))
    ≡ (ok (record { auth_methods = collect all_methods }), quiet (7 ∷ []))
read_handshake-encode_handshake_example =
    read_handshake-encode_handshake all_methods (7 ∷ []) (quiet [])

read_relay-encode_relay_example :
    read_relay (feed (encode_relay connect_request ++ 7 ∷ []) (quiet []))
    ≡ (ok connect_request, quiet (7 ∷ []))
read_relay-encode_relay_example =
    read_relay-encode_relay connect_request (7 ∷ []) (quiet []) (omega arith)

read_relay_sound_example :
    Took (encode_relay connect_request) (quiet connect_bytes) (quiet [])
    × IsValid connect_request.endpoint_address
read_relay_sound_example =
    read_relay_sound (quiet connect_bytes) (quiet []) connect_request (omega arith) connect_read

read_relay_refused_example :
    read_relay (quiet (5 ∷ 9 ∷ 3 ∷ 8 ∷ []))
    ≡ (err (invalid_value (reserved_value 3)), quiet (8 ∷ []))
read_relay_refused_example = read_relay_refused 5 9 3 (8 ∷ []) (quiet []) (omega arith)

read_handshake_sound_example :
    (ms : List LurkAuthMethod) × Took (encode_handshake ms) (quiet greeting) (quiet [])
    × (all_methods ≡ collect ms)
read_handshake_sound_example =
    read_handshake_sound (quiet greeting) (quiet []) (record { auth_methods = all_methods })
      greeting_read

read_handshake_unknown_example :
    read_handshake (
      feed (5 ∷ 2 ∷ (map as_socks5_const (LurkAuthMethod.none ∷ []) ++ 0x80 ∷ []) ++ []) (quiet []))
    ≡ (err (lurk_error (data_error (InvalidValue.auth_method 0x80))), quiet [])
read_handshake_unknown_example =
    read_handshake_unknown (LurkAuthMethod.none ∷ []) 0x80 [] [] (quiet []) (omega arith)

abbrev bind_byte : ℕ
bind_byte = 2
