-- ===== src/Socks5/Readers.antt =====
-- Reading an address, a greeting or a request writes nothing, also where it fails.
use lurk.Socks5.{socks5_version, try_from}
use lurk.Error.{reserved_value, ◌>>◌, protocol_version, invalid_value, M, Error, ensure, lift}
use lurk.Stream.{Stream, byte_at, read_be, read_exact, read_u8}
use lurk.Common.{Bool, refl, ◌==◌, ℕ}
use lurk.Socks5.Request.{read_handshake, read_methods, read_relay}
use lurk.Address.{from_utf8, read_ipv6, read_ipv4, read_from, read_address, read_domain_name}
use lurk.Stream.Output.{
  Quiet, >>=-Quiet, if-Quiet, ensure-Quiet, read_exact-Quiet, read_u8-Quiet, read_be-Quiet,
}

read_domain_name-Quiet : (len : ℕ) → Quiet (read_domain_name len)
unfolding read_domain_name
read_domain_name-Quiet len = >>=-Quiet (read_exact len) _ (read_exact-Quiet len) λ buf.
    >>=-Quiet (lift (from_utf8 buf)) _ (λ s. refl)
      λ name. >>=-Quiet (read_be 2) _ (read_be-Quiet 2) λ port s. refl

read_address-Quiet : (address_type : ℕ) → Quiet (read_address address_type)
unfolding read_address read_ipv4 read_ipv6
read_address-Quiet t =
    if-Quiet (t == 1) _ _
      (>>=-Quiet (read_be 4) _ (read_be-Quiet 4)
        λ ip. >>=-Quiet (read_be 2) _ (read_be-Quiet 2) λ port s. refl)
      (if-Quiet (t == 4) _ _
        (>>=-Quiet (read_be 16) _ (read_be-Quiet 16)
          λ ip. >>=-Quiet (read_be 2) _ (read_be-Quiet 2) λ port s. refl)
        (if-Quiet (t == 3) _ _ (>>=-Quiet read_u8 _ read_u8-Quiet read_domain_name-Quiet)
          (λ s. refl)))

read_from-Quiet : Quiet read_from
unfolding read_from
read_from-Quiet = >>=-Quiet read_u8 _ read_u8-Quiet read_address-Quiet

-- `ensure!(a == b, error)` before the rest.
checked-Quiet :
    {A : Type 0} (b : Bool) (e : Error) (m : M Stream A)
    → Quiet m
    → Quiet (λ s. (ensure b e >> m) s)
checked-Quiet b e m q = >>=-Quiet (ensure b e) (λ u. m) (ensure-Quiet b e) (λ u. q)

pub read_relay-Quiet : Quiet read_relay
unfolding read_relay
read_relay-Quiet = >>=-Quiet (read_exact 3) _ (read_exact-Quiet 3) λ buff.
    checked-Quiet (byte_at buff 0 == socks5_version)
      (invalid_value (protocol_version (byte_at buff 0))) _
      (checked-Quiet (byte_at buff 2 == 0) (invalid_value (reserved_value (byte_at buff 2))) _ (
        >>=-Quiet (lift (try_from (byte_at buff 1))) _ (λ s. refl)
          λ command. >>=-Quiet read_from _ read_from-Quiet λ endpoint_address s. refl))

read_methods-Quiet : (n : ℕ) → Quiet (read_methods n)
unfolding read_methods
read_methods-Quiet n =
    if-Quiet (n == 0) _ _ (λ s. refl)
      (>>=-Quiet (read_exact n) _ (read_exact-Quiet n) λ methods s. refl)

pub read_handshake-Quiet : Quiet read_handshake
unfolding read_handshake
read_handshake-Quiet = >>=-Quiet (read_exact 2) _ (read_exact-Quiet 2) λ header.
    checked-Quiet (byte_at header 0 == socks5_version)
      (invalid_value (protocol_version (byte_at header 0))) _
      (>>=-Quiet (read_methods (byte_at header 1)) _ (read_methods-Quiet (byte_at header 1))
        λ auth_methods s. refl)
