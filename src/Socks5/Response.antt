-- ===== src/Socks5/Response.antt =====
-- proto/socks5/response.rs: the server's responses, their builders, and how they are written.
-- `debug` says whether the build has debug assertions.
use lurk.Io.{LurkResponse}
use lurk.Stream.{byte_at, read_exact, write_all, Stream}
use lurk.Socks5.{
  as_u8, socks5_version, from_socks5_const, status_of_error, succeeded,
  socks5_auth_method_not_acceptable, ReplyStatus,
}
use lurk.Error.{
  pure, assert, unwrapped, password, panic, lift, ◌>>=◌, ◌>>◌, and_then, gss_api, err, Error,
  debug_assert, ok, expect, M, Result, LurkAuthMethod,
}
use lurk.Address.{socket_address, SocketAddr, Address, write_to as write_address_to}
use lurk.Common.{false, true, Bool, ℕ, ◌==◌, [], ◌∷◌, Option, none, some, if◌then◌else◌}

pub record HandshakeResponse : Type 0 where
  pub method : ℕ

pub record HandshakeResponseBuilder : Type 0 where
  pub method : Option ℕ

pub record RelayResponse : Type 0 where
  pub bound_addr : Address
  pub status : ReplyStatus

pub record RelayResponseBuilder : Type 0 where
  pub bound_addr : Option Address
  pub status : Option ReplyStatus

abbrev is_none {ℓ} : {A : Type ℓ} → Option A → Bool
is_none none = true
is_none (some a) = false

unfoldable pub handshake_builder : HandshakeResponseBuilder
handshake_builder = record { method = none }

unfoldable pub relay_builder : RelayResponseBuilder
relay_builder = record { bound_addr = none; status = none }

-- `HandshakeResponse::read_from`, the reader of the tests.
unfoldable pub read_handshake_response : M Stream HandshakeResponse
read_handshake_response = do
  header ← unwrapped (read_exact 2)
  lift (assert (byte_at header 0 == socks5_version))
  pure (record { method = byte_at header 1 })

-- `selected_method as u8`: the position of the variant.
unfoldable pub discriminant : LurkAuthMethod → ℕ
discriminant LurkAuthMethod.none = 0
discriminant gss_api = 1
discriminant password = 2

unfoldable pub build_handshake : HandshakeResponseBuilder → Result HandshakeResponse
build_handshake b = and_then (expect b.method) λ method. ok (record { method = method })

unfoldable pub build_relay : RelayResponseBuilder → Result RelayResponse
build_relay b = and_then (expect b.bound_addr) λ bound_addr.
    and_then (expect b.status) λ status. ok (record { bound_addr = bound_addr; status = status })

abbrev benign : Bool → Result LurkAuthMethod → Result (Unit {0})
benign debug (ok method) = ok tt
benign debug (err e) = and_then (debug_assert debug false) λ _. err e
benign debug panic = panic

module _ (debug : Bool) where
  unfoldable pub with_auth_method :
      LurkAuthMethod → HandshakeResponseBuilder → Result HandshakeResponseBuilder
  unfolding discriminant
  with_auth_method selected_method b =
      and_then (debug_assert debug (is_none b.method))
        λ _. ok (record b { method = some (discriminant selected_method) })

  unfoldable pub with_no_acceptable_method :
      HandshakeResponseBuilder → Result HandshakeResponseBuilder
  with_no_acceptable_method b =
      and_then (debug_assert debug (is_none b.method))
        λ _. ok (record b { method = some socks5_auth_method_not_acceptable })

  unfoldable pub write_handshake_response : HandshakeResponse → M Stream (Unit {0})
  write_handshake_response r = do
    lift (
        if r.method == socks5_auth_method_not_acceptable
        then ok tt
        else benign debug (from_socks5_const r.method))
    write_all (socks5_version ∷ r.method ∷ [])

  unfoldable pub with_success : RelayResponseBuilder → Result RelayResponseBuilder
  with_success b =
      and_then (debug_assert debug (is_none b.status))
        λ _. ok (record b { status = some succeeded })

  unfoldable pub with_err : Error → RelayResponseBuilder → Result RelayResponseBuilder
  with_err e b =
      and_then (debug_assert debug (is_none b.status))
        λ _. ok (record b { status = some (status_of_error e) })

  unfoldable pub with_bound_address :
      SocketAddr → RelayResponseBuilder → Result RelayResponseBuilder
  with_bound_address bound_addr b =
      and_then (debug_assert debug (is_none b.bound_addr))
        λ _. ok (record b { bound_addr = some (socket_address bound_addr) })

unfoldable pub write_relay_response : RelayResponse → M Stream (Unit {0})
write_relay_response r = do
  bytes ← lift (write_address_to r.bound_addr (socks5_version ∷ as_u8 r.status ∷ 0x00 ∷ []))
  write_all bytes

abbrev pub handshake_response : Bool → LurkResponse HandshakeResponse
handshake_response debug = record { write_to = write_handshake_response debug }

abbrev pub relay_response : LurkResponse RelayResponse
relay_response = record { write_to = write_relay_response }
