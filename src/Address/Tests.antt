-- ===== src/Address/Tests.antt =====
-- Concrete addresses, and the theorems on addresses at concrete inputs.
use lurk.Common.Bytes.{be_bytes, from_be_bytes}
use lurk.Common.Utf8.{is_utf8}
use lurk.Address.Sound.{read_from_sound}
use lurk.Address.RoundTrip.{read_from-encode_address}
use lurk.Error.{InvalidValue, domain_name_decoding_failed, data_error, lurk_error, err, ok}
use lurk.Stream.Laws.{feed, Took}
use lurk.Address.Encoding.{write_to-encode_address, encode_address, IsValid}
use lurk.Address.{
  from_utf8, read_domain_name, read_ipv4, v6, ipv4_socket_address, socket_address, domain_name,
  write_to, read_from, Address,
}
use lurk.Stream.{read_be, read_u8, read_exact, Stream}
use lurk.Common.{ℕ, List, [], ◌∷◌, ◌++◌, ◌≡◌, refl, none, arith}

abbrev quiet : List ℕ → Stream
quiet incoming = record { incoming = incoming; ending = none; written = []; sink = none }

abbrev named : Address
named = domain_name (b'a' ∷ 0xc3 ∷ 0xa9 ∷ []) 443

-- An IPv6 address with a scope, which the wire format drops.
abbrev scoped : Address
scoped = socket_address (v6 (record { ip = 1; port = 80; flowinfo = 0; scope_id = 2 }))

abbrev localhost_bytes : List ℕ
localhost_bytes = 1 ∷ 127 ∷ 0 ∷ 0 ∷ 1 ∷ 10 ∷ 10 ∷ []

addresses : Unit {0}
unfolding read_from read_exact read_u8 read_be read_ipv4 read_domain_name from_utf8 is_utf8
    from_be_bytes encode_address be_bytes write_to
addresses = tt

localhost_read :
    read_from (quiet localhost_bytes) ≡ (ok (ipv4_socket_address 0x7f00_0001 2570), quiet [])
unfolding addresses
localhost_read = refl

localhost_written : write_to (ipv4_socket_address 0x7f00_0001 2570) [] ≡ ok localhost_bytes
unfolding addresses
localhost_written = refl

unknown_type :
    read_from (quiet (0xff ∷ 1 ∷ []))
    ≡ (err (lurk_error (data_error (InvalidValue.address_type 0xff))), quiet (1 ∷ []))
unfolding addresses
unknown_type = refl

bad_name :
    read_from (quiet (3 ∷ 1 ∷ 0xf1 ∷ 0 ∷ 80 ∷ []))
    ≡ (err (lurk_error (domain_name_decoding_failed (0xf1 ∷ []))), quiet (0 ∷ 80 ∷ []))
unfolding addresses
bad_name = refl

named_fits : IsValid named
unfolding addresses
named_fits = (omega arith, refl, omega arith)

read_from-encode_address_example :
    read_from (feed (encode_address named ++ 7 ∷ []) (quiet [])) ≡ (ok named, quiet (7 ∷ []))
read_from-encode_address_example = read_from-encode_address named (7 ∷ []) (quiet []) named_fits

read_from_sound_example :
    Took (encode_address (ipv4_socket_address 0x7f00_0001 2570)) (quiet localhost_bytes) (quiet [])
    × IsValid (ipv4_socket_address 0x7f00_0001 2570)
    × (ipv4_socket_address 0x7f00_0001 2570 ≡ ipv4_socket_address 0x7f00_0001 2570)
read_from_sound_example =
    read_from_sound (quiet localhost_bytes) (quiet []) (ipv4_socket_address 0x7f00_0001 2570)
      (omega arith) localhost_read

write_to-encode_address_example : write_to scoped (9 ∷ []) ≡ ok (9 ∷ encode_address scoped)
write_to-encode_address_example = write_to-encode_address scoped (9 ∷ [])
