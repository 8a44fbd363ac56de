-- ===== src/Socks5/Grammar.antt =====
-- The messages of a SOCKS5 client by RFC 1928, sections 3 to 5, on the bytes that it sent: an
-- independent description of what proto/socks5/request.rs reads.
pub mod Reads
pub mod Greeting
use lurk.Socks5.Request.{RelayRequest}
use lurk.Address.{domain_name, ipv4_socket_address, ipv6_socket_address, Address}
use lurk.Error.{
  data_error, domain_name_decoding_failed, lurk_error, tcp_bind, tcp_connect, udp_associate,
  Command, Error, InvalidValue, invalid_value, protocol_version, reserved_value,
}
use lurk.Common.{
  ◌*◌, ◌+◌, ◌==◌, ltb, ◌||◌, false, none, some, split_at, Bool, List, Option, [], ◌∷◌, ℕ,
  if◌then◌else◌,
}
use lurk.Common.Bytes.{from_be_bytes}
use lurk.Common.Utf8.{is_utf8}

-- What stands at the front of the bytes: a whole message, with the bytes behind it; something that
-- no message has, with the bytes behind what was looked at; or a message that is cut off.
pub data Front (A : Type 0) : Type 0 where
  whole : A → List ℕ → Front A
  wrong : Error → List ℕ → Front A
  cut : Front A

abbrev pub behind : {A B : Type 0} → Front A → (A → List ℕ → Front B) → Front B
behind (whole a bs) f = f a bs
behind (wrong e bs) f = wrong e bs
behind cut f = cut

abbrev pub front_of : Option (List ℕ × List ℕ) → Front (List ℕ)
front_of none = cut
front_of (some (front, back)) = whole front back

abbrev pub exactly : ℕ → List ℕ → Front (List ℕ)
exactly n bs = front_of (split_at n bs)

-- The methods of RFC 1928 that the program knows have the numbers 0, 1 and 2.
unfoldable pub first_unknown : List ℕ → Option ℕ
first_unknown [] = none
first_unknown (m ∷ ms) = if ltb 2 m then some m else first_unknown ms

-- "NO AUTHENTICATION REQUIRED"
unfoldable pub offers_none : List ℕ → Bool
offers_none [] = false
offers_none (m ∷ ms) = m == 0 || offers_none ms

abbrev pub all_known : Option ℕ → List ℕ → List ℕ → Front (List ℕ)
all_known none ms bs = whole ms bs
all_known (some m) ms bs = wrong (lurk_error (data_error (InvalidValue.auth_method m))) bs

-- VER, NMETHODS, METHODS
unfoldable pub greeting : List ℕ → Front (List ℕ)
unfolding first_unknown
greeting (version ∷ nmethods ∷ bs) =
    if version == 5
    then behind (exactly nmethods bs) (λ ms rest. all_known (first_unknown ms) ms rest)
    else wrong (invalid_value (protocol_version version)) bs
greeting _ = cut

-- DST.PORT
unfoldable pub port_behind : (ℕ → Address) → List ℕ → Front Address
port_behind address (high ∷ low ∷ bs) = whole (address (high * 256 + low)) bs
port_behind address _ = cut

abbrev pub ip_behind : ℕ → (ℕ → ℕ → Address) → List ℕ → Front Address
ip_behind n address bs =
    behind (exactly n bs) λ ip rest. port_behind (address (from_be_bytes ip)) rest

-- "The first octet of the address field contains the number of octets of name that follow"; the
-- program takes names in UTF-8.
unfoldable pub name_behind : List ℕ → Front Address
unfolding port_behind
name_behind [] = cut
name_behind (len ∷ bs) = behind (exactly len bs) λ name rest.
    if is_utf8 name
    then port_behind (domain_name name) rest
    else wrong (lurk_error (domain_name_decoding_failed name)) rest

-- ATYP, DST.ADDR, DST.PORT
unfoldable pub destination : List ℕ → Front Address
unfolding name_behind
destination [] = cut
destination (address_type ∷ bs) =
    if address_type == 1
    then ip_behind 4 ipv4_socket_address bs
    else if address_type == 3
    then name_behind bs
    else if address_type == 4
    then ip_behind 16 ipv6_socket_address bs
    else wrong (lurk_error (data_error (InvalidValue.address_type address_type))) bs

unfoldable pub command : ℕ → Option Command
command code =
    if code == 1
    then some tcp_connect
    else if code == 2
    then some tcp_bind
    else if code == 3
    then some udp_associate
    else none

abbrev pub with_destination : ℕ → Option Command → List ℕ → Front RelayRequest
with_destination code none bs = wrong (lurk_error (data_error (InvalidValue.socks_command code))) bs
with_destination code (some c) bs =
    behind (destination bs)
      λ address rest. whole (record { command = c; endpoint_address = address }) rest

-- VER, CMD, RSV, and the destination
unfoldable pub request : List ℕ → Front RelayRequest
unfolding command destination
request (version ∷ code ∷ reserved ∷ bs) =
    if version == 5
    then (if reserved == 0
        then with_destination code (command code) bs
        else wrong (invalid_value (reserved_value reserved)) bs)
    else wrong (invalid_value (protocol_version version)) bs
request _ = cut
