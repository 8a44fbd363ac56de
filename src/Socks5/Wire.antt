-- ===== src/Socks5/Wire.antt =====
-- The requests on the wire, as RFC 1928 has them, and that the server reads each of them back.
use lurk.Address.RoundTrip.{read_from-encode_address}
use lurk.Stream.Laws.{read_exact-append, feed}
use lurk.Address.Encoding.{on_wire, IsValid, encode_address}
use lurk.Socks5.{as_socks5_const}
use lurk.Socks5.Codes.{try_from_lem, from_socks5_const_iff, command_code}
use lurk.Stream.{Stream, read_exact}
use lurk.Auth.{collect}
use lurk.Error.{ok, LurkAuthMethod}
use lurk.Socks5.Request.{read_relay, read_handshake, read_methods, collect_methods, RelayRequest}
use lurk.Common.{
  arith, false, ◌==◌, suc, length-map, [], ◌++◌, map, length, ◌∷◌, List, ℕ, ◌≡◌, refl,
}

-- VER, NMETHODS, METHODS
unfoldable pub encode_handshake : List LurkAuthMethod → List ℕ
encode_handshake ms = 5 ∷ length ms ∷ map as_socks5_const ms

-- VER, CMD, RSV, ATYP, DST.ADDR, DST.PORT
unfoldable pub encode_relay : RelayRequest → List ℕ
encode_relay r = 5 ∷ command_code r.command ∷ 0 ∷ encode_address r.endpoint_address

collect_methods-map :
    (ms : List LurkAuthMethod) → collect_methods (map as_socks5_const ms) ≡ ok (collect ms)
unfolding collect_methods collect
collect_methods-map [] = refl
collect_methods-map (m ∷ ms) = rw ((from_socks5_const_iff _ m).1 refl, collect_methods-map ms)

read_methods-map :
    (ms : List LurkAuthMethod) (rest : List ℕ) (s : Stream)
    → read_methods (length ms) (feed (map as_socks5_const ms ++ rest) s)
      ≡ (ok (collect ms), feed rest s)
unfolding read_methods
read_methods-map [] rest s = unfold collect in refl
read_methods-map (m ∷ ms) rest s =
    let some_methods : (suc (length ms) == 0) ≡ false = ground arith in
    let codes = map as_socks5_const (m ∷ ms) in
    rw (
      some_methods,
      read_exact-append (suc (length ms)) codes rest s (length-map as_socks5_const (m ∷ ms)),
      collect_methods-map (m ∷ ms),
    )

-- From the greeting of a client that offers any list of methods, whatever follows it, the server
-- reads the set of these methods, and leaves what follows.
pub read_handshake-encode_handshake :
    (ms : List LurkAuthMethod) (rest : List ℕ) (s : Stream)
    → read_handshake (feed (encode_handshake ms ++ rest) s)
      ≡ (ok (record { auth_methods = collect ms }), feed rest s)
unfolding read_handshake encode_handshake read_exact
read_handshake-encode_handshake ms rest s = rw (read_methods-map ms rest s)

-- From any valid relay request on the wire, whatever follows it, the server reads the request back,
-- and leaves what follows; of an IPv6 address the flow label and the scope come back as 0.
pub read_relay-encode_relay :
    (r : RelayRequest) (rest : List ℕ) (s : Stream)
    → IsValid r.endpoint_address
    → read_relay (feed (encode_relay r ++ rest) s)
      ≡ (ok (record r { endpoint_address = on_wire r.endpoint_address }), feed rest s)
unfolding read_relay encode_relay read_exact
read_relay-encode_relay r rest s h = rw (
  ((try_from_lem (command_code r.command)).0 r.command).1 refl,
  read_from-encode_address r.endpoint_address rest s h,
)
