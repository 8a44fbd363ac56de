-- ===== src/Socks5/CalmReaders.antt =====
-- Reading an address, a greeting or a request never panics.
use lurk.Address.{from_utf8, read_address, read_domain_name, read_from, read_ipv4, read_ipv6}
use lurk.Common.{◌==◌, ◌∷◌, [], Bool, ℕ, List}
use lurk.Common.Utf8.{is_utf8}
use lurk.Error.{ensure, lift, ◌>>◌, Error, M, invalid_value, protocol_version, reserved_value}
use lurk.Socks5.{from_socks5_const, socks5_version, try_from}
use lurk.Socks5.Request.{collect_methods, read_handshake, read_methods, read_relay}
use lurk.Stream.{byte_at, read_be, read_exact, read_u8, Stream}
use lurk.Stream.Calm.{
  >>=-Calm, and_then-IsCalm, ensure-Calm, if-Calm, if-IsCalm, read_be-Calm, read_exact-Calm,
  read_u8-Calm, Calm, IsCalm,
}

from_utf8-IsCalm : (buf : List ℕ) → IsCalm (from_utf8 buf)
unfolding from_utf8
from_utf8-IsCalm buf = if-IsCalm (is_utf8 buf) _ _ tt tt

read_domain_name-Calm : (len : ℕ) → Calm (read_domain_name len)
unfolding read_domain_name
read_domain_name-Calm len = >>=-Calm (read_exact len) _ (read_exact-Calm len) λ buf.
    >>=-Calm (lift (from_utf8 buf)) _ (λ s. from_utf8-IsCalm buf)
      λ name. >>=-Calm (read_be 2) _ (read_be-Calm 2) λ port s. tt

read_address-Calm : (address_type : ℕ) → Calm (read_address address_type)
unfolding read_address read_ipv4 read_ipv6
read_address-Calm t =
    if-Calm (t == 1) _ _
      (>>=-Calm (read_be 4) _ (read_be-Calm 4)
        λ ip. >>=-Calm (read_be 2) _ (read_be-Calm 2) λ port s. tt)
      (if-Calm (t == 4) _ _
        (>>=-Calm (read_be 16) _ (read_be-Calm 16)
          λ ip. >>=-Calm (read_be 2) _ (read_be-Calm 2) λ port s. tt)
        (if-Calm (t == 3) _ _ (>>=-Calm read_u8 _ read_u8-Calm read_domain_name-Calm) (λ s. tt)))

read_from-Calm : Calm read_from
unfolding read_from
read_from-Calm = >>=-Calm read_u8 _ read_u8-Calm read_address-Calm

-- `ensure!(a == b, error)` before the rest.
checked-Calm :
    {A : Type 0} (b : Bool) (e : Error) (m : M Stream A) → Calm m → Calm (λ s. (ensure b e >> m) s)
checked-Calm b e m h = >>=-Calm (ensure b e) (λ u. m) (ensure-Calm b e) (λ u. h)

try_from-IsCalm : (value : ℕ) → IsCalm (try_from value)
unfolding try_from
try_from-IsCalm value =
    if-IsCalm (value == 2) _ _ tt (if-IsCalm (value == 1) _ _ tt (if-IsCalm (value == 3) _ _ tt tt))

pub read_relay-Calm : Calm read_relay
unfolding read_relay
read_relay-Calm = >>=-Calm (read_exact 3) _ (read_exact-Calm 3) λ buff.
    checked-Calm (byte_at buff 0 == socks5_version)
      (invalid_value (protocol_version (byte_at buff 0))) _
      (checked-Calm (byte_at buff 2 == 0) (invalid_value (reserved_value (byte_at buff 2))) _ (
        >>=-Calm (lift (try_from (byte_at buff 1))) _ (λ s. try_from-IsCalm (byte_at buff 1))
          λ command. >>=-Calm read_from _ read_from-Calm λ endpoint_address s. tt))

from_socks5_const-IsCalm : (value : ℕ) → IsCalm (from_socks5_const value)
unfolding from_socks5_const
from_socks5_const-IsCalm value =
    if-IsCalm (value == 0) _ _ tt (if-IsCalm (value == 1) _ _ tt (if-IsCalm (value == 2) _ _ tt tt))

collect_methods-IsCalm : (methods : List ℕ) → IsCalm (collect_methods methods)
unfolding collect_methods
collect_methods-IsCalm [] = tt
collect_methods-IsCalm (m ∷ ms) =
    and_then-IsCalm (from_socks5_const m) _ (from_socks5_const-IsCalm m)
      λ method. and_then-IsCalm (collect_methods ms) _ (collect_methods-IsCalm ms) λ methods. tt

read_methods-Calm : (n : ℕ) → Calm (read_methods n)
unfolding read_methods
read_methods-Calm n =
    if-Calm (n == 0) _ _ (λ s. tt)
      (>>=-Calm (read_exact n) _ (read_exact-Calm n) λ methods s. collect_methods-IsCalm methods)

pub read_handshake-Calm : Calm read_handshake
unfolding read_handshake
read_handshake-Calm = >>=-Calm (read_exact 2) _ (read_exact-Calm 2) λ header.
    checked-Calm (byte_at header 0 == socks5_version)
      (invalid_value (protocol_version (byte_at header 0))) _
      (>>=-Calm (read_methods (byte_at header 1)) _ (read_methods-Calm (byte_at header 1))
        λ auth_methods s. tt)
