-- ===== src/Address/RoundTrip.antt =====
-- Reading an address back from its wire format, and that nothing else is read as an address.
use lurk.Common.{ℕ, ◌^◌, ◌<◌, ◌≡◌, refl, true, List, ◌++◌, length, append_assoc}
use lurk.Common.Bytes.{be_bytes}
use lurk.Common.Utf8.{is_utf8}
use lurk.Error.{ok}
use lurk.Stream.{Stream, read_u8}
use lurk.Stream.Laws.{feed, read_exact-append, read_be-append}
use lurk.Address.{
  v4, v6, Address, socket_address, domain_name, ipv4_socket_address, ipv6_socket_address, read_ipv4,
  read_ipv6, read_domain_name, read_from, from_utf8,
}
use lurk.Address.Encoding.{encode_address, IsValid, on_wire}

read_ipv4-be_bytes :
    (ip port : ℕ) (rest : List ℕ) (s : Stream)
    → ip < 256 ^ 4
    → port < 256 ^ 2
    → read_ipv4 (feed (be_bytes 4 ip ++ be_bytes 2 port ++ rest) s)
      ≡ (ok (ipv4_socket_address ip port), feed rest s)
unfolding read_ipv4
read_ipv4-be_bytes ip port rest s hi hp =
    rw (append_assoc (be_bytes 4 ip), read_be-append 4 ip _ s hi, read_be-append 2 port rest s hp)

read_ipv6-be_bytes :
    (ip port : ℕ) (rest : List ℕ) (s : Stream)
    → ip < 256 ^ 16
    → port < 256 ^ 2
    → read_ipv6 (feed (be_bytes 16 ip ++ be_bytes 2 port ++ rest) s)
      ≡ (ok (ipv6_socket_address ip port), feed rest s)
unfolding read_ipv6
read_ipv6-be_bytes ip port rest s hi hp =
    rw (append_assoc (be_bytes 16 ip), read_be-append 16 ip _ s hi, read_be-append 2 port rest s hp)

read_domain_name-be_bytes :
    (name : List ℕ) (port : ℕ) (rest : List ℕ) (s : Stream)
    → is_utf8 name ≡ true
    → port < 256 ^ 2
    → read_domain_name (length name) (feed (name ++ be_bytes 2 port ++ rest) s)
      ≡ (ok (domain_name name port), feed rest s)
unfolding read_domain_name from_utf8
read_domain_name-be_bytes name port rest s hu hp = rw (
  append_assoc name,
  read_exact-append (length name) name _ s refl,
  hu,
  read_be-append 2 port rest s hp,
)

-- Whatever follows an encoded address on the stream, `read_from` returns the address and leaves
-- what follows; of an IPv6 socket address the flow label and the scope come back as 0.
pub read_from-encode_address :
    (a : Address) (rest : List ℕ) (s : Stream)
    → IsValid a
    → read_from (feed (encode_address a ++ rest) s) ≡ (ok (on_wire a), feed rest s)
unfolding read_from encode_address read_u8
read_from-encode_address (socket_address (v4 a)) rest s (hi, hp) =
    read_ipv4-be_bytes a.ip a.port rest s hi hp
read_from-encode_address (socket_address (v6 a)) rest s (hi, hp) =
    read_ipv6-be_bytes a.ip a.port rest s hi hp
read_from-encode_address (domain_name name port) rest s (hl, hu, hp) =
    read_domain_name-be_bytes name port rest s hu hp
