-- ===== src/Address.antt =====
-- net/mod.rs and the two functions of `Address` in proto/socks5/mod.rs: addresses, how they are read
-- from a stream and written to a buffer.
pub mod Encoding
pub mod RoundTrip
pub mod Sound
mod Tests
use lurk.Common.{ℕ, ◌==◌, List, [], ◌∷◌, ◌++◌, if◌then◌else◌}
use lurk.Common.Bytes.{be_bytes}
use lurk.Common.Utf8.{is_utf8}
use lurk.Error.{
  data_error, InvalidValue, domain_name_decoding_failed, lurk_error, Result, ok, err, panic, M,
  ◌>>=◌, pure, lift, fail,
}
use lurk.Stream.{Stream, read_exact, read_u8, read_be}

-- `Ipv4Addr` and `Ipv6Addr` as the integers of 32 and 128 bits that their octets spell.
pub record SocketAddrV4 : Type 0 where
  pub ip : ℕ
  pub port : ℕ

pub record SocketAddrV6 : Type 0 where
  pub ip : ℕ
  pub port : ℕ
  pub flowinfo : ℕ
  pub scope_id : ℕ

pub data SocketAddr : Type 0 where
  v4 : SocketAddrV4 → SocketAddr
  v6 : SocketAddrV6 → SocketAddr

-- A domain name is the list of its bytes.
pub data Address : Type 0 where
  socket_address : SocketAddr → Address
  domain_name : List ℕ → ℕ → Address

abbrev pub ipv4_socket_address : ℕ → ℕ → Address
ipv4_socket_address ipv4 port = socket_address (v4 (record { ip = ipv4; port = port }))

abbrev pub ipv6_socket_address : ℕ → ℕ → Address
ipv6_socket_address ipv6 port =
    socket_address (v6 (record { ip = ipv6; port = port; flowinfo = 0; scope_id = 0 }))

abbrev pub socks5_addr_type_ipv4 : ℕ
socks5_addr_type_ipv4 = 0x01

abbrev socks5_addr_type_domain_name : ℕ
socks5_addr_type_domain_name = 0x03

abbrev socks5_addr_type_ipv6 : ℕ
socks5_addr_type_ipv6 = 0x04

unfoldable pub read_ipv4 : M Stream Address
read_ipv4 = do ipv4 ← read_be 4; port ← read_be 2; pure (ipv4_socket_address ipv4 port)

unfoldable pub read_ipv6 : M Stream Address
read_ipv6 = do ipv6 ← read_be 16; port ← read_be 2; pure (ipv6_socket_address ipv6 port)

-- `String::from_utf8(buf).map_err(LurkError::DomainNameDecodingFailed)`
unfoldable pub from_utf8 : List ℕ → Result (List ℕ)
from_utf8 buf = if is_utf8 buf then ok buf else err (lurk_error (domain_name_decoding_failed buf))

unfoldable pub read_domain_name : ℕ → M Stream Address
read_domain_name len = do
  buf ← read_exact len
  name ← lift (from_utf8 buf)
  port ← read_be 2
  pure (domain_name name port)

unfoldable pub read_address : ℕ → M Stream Address
unfolding read_domain_name
read_address address_type =
    if address_type == socks5_addr_type_ipv4
    then read_ipv4
    else if address_type == socks5_addr_type_ipv6
    then read_ipv6
    else if address_type == socks5_addr_type_domain_name
    then (read_u8 >>= read_domain_name)
    else fail (lurk_error (data_error (InvalidValue.address_type address_type)))

unfoldable pub read_from : M Stream Address
unfolding read_address
read_from = read_u8 >>= read_address

-- Writing appends to the buffer.
unfoldable write_ipv4 : List ℕ → SocketAddrV4 → List ℕ
write_ipv4 buf addr = (buf ++ be_bytes 4 addr.ip) ++ be_bytes 2 addr.port

unfoldable write_ipv6 : List ℕ → SocketAddrV6 → List ℕ
write_ipv6 buf addr = (buf ++ be_bytes 16 addr.ip) ++ be_bytes 2 addr.port

-- `todo!`
unfoldable write_domain_name : List ℕ → List ℕ → ℕ → Result (List ℕ)
write_domain_name buf name port = panic

unfoldable pub write_to : Address → List ℕ → Result (List ℕ)
unfolding write_ipv4 write_ipv6 write_domain_name
write_to (socket_address (v4 addr)) buf = ok (write_ipv4 (buf ++ socks5_addr_type_ipv4 ∷ []) addr)
write_to (socket_address (v6 addr)) buf = ok (write_ipv6 (buf ++ socks5_addr_type_ipv6 ∷ []) addr)
write_to (domain_name name port) buf =
    write_domain_name (buf ++ socks5_addr_type_domain_name ∷ []) name port
