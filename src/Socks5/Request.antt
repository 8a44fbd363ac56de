-- ===== src/Socks5/Request.antt =====
-- proto/socks5/request.rs: the requests of a client, as the server reads them, and the writer of the
-- tests.
use lurk.Io.{LurkRequest}
use lurk.Socks5.{try_from, as_socks5_const, socks5_version, from_socks5_const}
use lurk.Stream.{byte_at, read_exact, write_all, Stream}
use lurk.Error.{
  unwrapped, reserved_value, protocol_version, invalid_value, ensure, ◌>>◌, and_then, lift, ◌>>=◌,
  pure, ok, Command, M, Result,
}
use lurk.Auth.{insert, HashOrder, MethodSet}
use lurk.Address.{Address, read_from as read_address_from}
use lurk.Common.{ℕ, ◌==◌, ◌%◌, List, [], ◌∷◌, length, if◌then◌else◌, map}

pub record HandshakeRequest : Type 0 where
  pub auth_methods : MethodSet

-- `methods.iter().map(from_socks5_const).collect::<Result<HashSet<_>>>()` stops at the first error.
unfoldable pub collect_methods : List ℕ → Result MethodSet
collect_methods [] = ok []
collect_methods (m ∷ ms) =
    and_then (from_socks5_const m)
      λ method. and_then (collect_methods ms) λ methods. ok (insert method methods)

unfoldable pub read_methods : ℕ → M Stream MethodSet
unfolding collect_methods
read_methods nmethods =
    if nmethods == 0
    then pure []
    else (read_exact nmethods >>= λ methods. lift (collect_methods methods))

unfoldable pub read_handshake : M Stream HandshakeRequest
unfolding read_methods
read_handshake = do
  header ← read_exact 2
  let version = byte_at header 0
  let nmethods = byte_at header 1
  ensure (version == socks5_version) (invalid_value (protocol_version version))
  auth_methods ← read_methods nmethods
  pure (record { auth_methods = auth_methods })

-- `write_to`, which visits the set in the order of its hash table.
unfoldable pub write_handshake : HashOrder → HandshakeRequest → M Stream (Unit {0})
write_handshake order request = unwrapped (
    write_all (
      socks5_version
      ∷ (length request.auth_methods % 256)
      ∷ map as_socks5_const (order.iter request.auth_methods)))

pub record RelayRequest : Type 0 where
  pub command : Command
  pub endpoint_address : Address

unfoldable pub read_relay : M Stream RelayRequest
read_relay = do
  buff ← read_exact 3
  let version = byte_at buff 0
  let cmd = byte_at buff 1
  let reserved = byte_at buff 2
  ensure (version == socks5_version) (invalid_value (protocol_version version))
  ensure (reserved == 0x00) (invalid_value (reserved_value reserved))
  command ← lift (try_from cmd)
  endpoint_address ← read_address_from
  pure (record { command = command; endpoint_address = endpoint_address })

abbrev pub handshake_request : LurkRequest HandshakeRequest
handshake_request = record { read_from = read_handshake }

abbrev pub relay_request : LurkRequest RelayRequest
relay_request = record { read_from = read_relay }
