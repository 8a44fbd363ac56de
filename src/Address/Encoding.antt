-- ===== src/Address/Encoding.antt =====
-- The wire format of an address in RFC 1928, section 5, and what `write_to` makes of it.
use lurk.Common.{ℕ, ◌^◌, ◌<◌, ◌≡◌, refl, true, List, ◌∷◌, ◌++◌, length, ap, append_assoc}
use lurk.Common.Bytes.{be_bytes}
use lurk.Common.Utf8.{is_utf8}
use lurk.Error.{Result, ok, panic}
use lurk.Address.{v4, v6, Address, socket_address, domain_name, ipv6_socket_address, write_to}

-- ATYP, DST.ADDR and DST.PORT. A name has one byte for its length in front.
unfoldable pub encode_address : Address → List ℕ
encode_address (socket_address (v4 a)) = 1 ∷ be_bytes 4 a.ip ++ be_bytes 2 a.port
encode_address (socket_address (v6 a)) = 4 ∷ be_bytes 16 a.ip ++ be_bytes 2 a.port
encode_address (domain_name name port) = 3 ∷ length name ∷ name ++ be_bytes 2 port

-- The values that the Rust types can hold, and a name that fits the format.
abbrev pub IsValid : Address → Type 0
IsValid (socket_address (v4 a)) = (a.ip < 256 ^ 4) × (a.port < 256 ^ 2)
IsValid (socket_address (v6 a)) = (a.ip < 256 ^ 16) × (a.port < 256 ^ 2)
IsValid (domain_name name port) = (length name < 256) × (is_utf8 name ≡ true) × (port < 256 ^ 2)

-- The format has no place for the flow label and the scope of an IPv6 socket address.
abbrev pub on_wire : Address → Address
on_wire (socket_address (v6 a)) = ipv6_socket_address a.ip a.port
on_wire a = a

-- What `write_to` should do: append the encoding; names are not implemented.
abbrev written_form : Address → List ℕ → Result (List ℕ)
written_form (socket_address a) buf = ok (buf ++ encode_address (socket_address a))
written_form (domain_name name port) buf = panic

-- `write_to` appends the wire format of a socket address to any buffer, and panics on a domain
-- name.
pub write_to-encode_address : (a : Address) (buf : List ℕ) → write_to a buf ≡ written_form a buf
unfolding write_to encode_address
write_to-encode_address (socket_address (v4 a)) buf = ap ok (simp append_assoc)
write_to-encode_address (socket_address (v6 a)) buf = ap ok (simp append_assoc)
write_to-encode_address (domain_name name port) buf = refl
