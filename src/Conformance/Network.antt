-- ===== src/Conformance/Network.antt =====
-- The tests of net/mod.rs, net/tcp.rs and auth.rs.
use lurk.Address.{
  domain_name, ipv4_socket_address, ipv6_socket_address, read_domain_name, read_ipv4, read_ipv6,
  Address, SocketAddr,
}
use lurk.Auth.{collect, current_method, new, select_auth_method, HashOrder, MethodSet}
use lurk.Auth.Selection.{select_auth_method-new}
use lurk.Common.{length, [], ◌++◌, ◌∷◌, ◌≡◌, All, List, Option, refl, some, ℕ, Bool}
use lurk.Conformance.{mock}
use lurk.Error.{done, failed, gss_api, ok, panic, password, err, ErrorKind, LurkAuthMethod, Result}
use lurk.Net.{text, to_socket_addr, Net}
use lurk.Stream.{Stream}
use lurk.Tcp.{accept, from_tcp_stream, socks5, unknown, LurkTcpConnection, TcpStream}

-- auth.rs
abbrev peer_methods : MethodSet
peer_methods = collect (gss_api ∷ password ∷ LurkAuthMethod.none ∷ [])

abbrev pub PickAuthMethod : Type 0
PickAuthMethod =
    (order : HashOrder)
    → current_method (select_auth_method order new peer_methods).0 ≡ some LurkAuthMethod.none

pick_auth_method : PickAuthMethod
unfolding current_method select_auth_method
pick_auth_method order = select_auth_method-new order peer_methods

-- net/mod.rs. The names of the resolver that the test runs with: one name has an address, the other
-- none.
abbrev example_name : List ℕ
example_name =
    b'w' ∷ b'w' ∷ b'w' ∷ b'.' ∷ b'e' ∷ b'x' ∷ b'a' ∷ b'm' ∷ b'p' ∷ b'l' ∷ b'e' ∷ b'.' ∷ b'c' ∷ b'o'
    ∷ b'm' ∷ []

abbrev unresolved_name : List ℕ
unresolved_name =
    b'u' ∷ b'n' ∷ b'r' ∷ b'e' ∷ b's' ∷ b'o' ∷ b'l' ∷ b'v' ∷ b'e' ∷ b'd' ∷ b'1' ∷ b'2' ∷ b'3' ∷ []

abbrev IsOk : {A : Type 0} → Result A → Type 0
IsOk {A} r = (a : A) × (r ≡ ok a)

abbrev IsErr : {A : Type 0} → Result A → Type 0
IsErr (err e) = Unit
IsErr (ok a) = ⊥
IsErr panic = ⊥

abbrev pub DomainToSocketAddr : Type 1
DomainToSocketAddr =
    (net : Net) (addr : SocketAddr) (more : List SocketAddr) (kind : ErrorKind)
    → net.lookup_host (text (example_name ++ b':' ∷ b'8' ∷ b'0' ∷ [])) ≡ done (addr ∷ more)
    → net.lookup_host (text (unresolved_name ++ b':' ∷ b'6' ∷ b'6' ∷ b'6' ∷ [])) ≡ failed kind
    → IsOk (to_socket_addr net (domain_name example_name 80))
      × IsErr (to_socket_addr net (domain_name unresolved_name 666))

domain_to_socket_addr : DomainToSocketAddr
unfolding to_socket_addr
domain_to_socket_addr net addr more kind e u = ((addr, rw e), rw u tt)

abbrev addresses : List ℕ
addresses =
    127
    ∷ 0
    ∷ 0
    ∷ 1
    ∷ 10
    ∷ 10
    ∷ 0
    ∷ 0
    ∷ 0
    ∷ 0
    ∷ 0
    ∷ 0xff
    ∷ 0xff
    ∷ 0xc0
    ∷ 0x0a
    ∷ 0x02
    ∷ 0xff
    ∷ 0xca
    ∷ 0x1
    ∷ 0x0
    ∷ 0x11
    ∷ 0xff
    ∷ 10
    ∷ 10
    ∷ (example_name ++ 10 ∷ 10 ∷ [])

abbrev after_ipv4 : Stream
after_ipv4 = (read_ipv4 (mock addresses)).1

abbrev after_ipv6 : Stream
after_ipv6 = (read_ipv6 after_ipv4).1

abbrev pub ReadAddressFromStream : Type 0
ReadAddressFromStream =
    ((read_ipv4 (mock addresses)).0 ≡ ok (ipv4_socket_address 0x7f00_0001 2570))
    × ((read_ipv6 after_ipv4).0
        ≡ ok (ipv6_socket_address 0x0000_0000_00ff_ffc0_0a02_ffca_0100_11ff 2570))
    × ((read_domain_name 15 after_ipv6).0 ≡ ok (domain_name example_name 2570))

read_address_from_stream : ReadAddressFromStream
unfolding read_ipv4 lurk.Stream.read_be lurk.Common.Bytes.from_be_bytes read_ipv6 read_domain_name
    lurk.Address.from_utf8 lurk.Common.Utf8.is_utf8
read_address_from_stream = (refl, refl, refl)

-- net/tcp.rs. What one client sends before it closes.
abbrev pub ExtractTcpConnLabel : Type 0
ExtractTcpConnLabel =
    (from_tcp_stream (mock (0x05 ∷ [])) ≡ ok socks5)
    × (from_tcp_stream (mock (0xff ∷ [])) ≡ ok (unknown 0xff))

extract_tcp_conn_label : ExtractTcpConnLabel
unfolding from_tcp_stream lurk.Tcp.label_of lurk.Tcp.is_http_label lurk.Tcp.is_socks5_label
extract_tcp_conn_label = (refl, refl)

-- The clients have each sent one byte and have closed when the listener accepts them; the test also
-- bounds the time, which the model does not have.
abbrev num_clients : ℕ
num_clients = 20

abbrev IsAccepted : SocketAddr × SocketAddr → Type 0
IsAccepted (peer, local) =
    (conn : LurkTcpConnection) × (accept
        (done (record { stream = mock (0x05 ∷ []); peer = done peer; local = done local }))
      ≡ ok conn)
    × (conn.label ≡ socks5)

abbrev pub LimitTcpConnections : Type 0
LimitTcpConnections =
    (clients : List (SocketAddr × SocketAddr))
    → length clients ≡ num_clients
    → All IsAccepted clients

accepts_each : (clients : List (SocketAddr × SocketAddr)) → All IsAccepted clients
unfolding accept lurk.Tcp.label_of
accepts_each [] = tt
accepts_each ((peer, local) ∷ clients) = (
  (
    record { stream = mock (0x05 ∷ []); label = socks5; peer_addr = peer; local_addr = local },
    refl,
    refl,
  ),
  accepts_each clients,
)

limit_tcp_connections : LimitTcpConnections
limit_tcp_connections clients h = accepts_each clients
