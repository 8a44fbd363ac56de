-- ===== src/Net.antt =====
-- What the program asks of the operating system, tokio and socket2 for outgoing connections, as an
-- interface; and the resolution of addresses in net/mod.rs.
use lurk.Stream.{Stream}
use lurk.Error.{addr_not_available, ok, from_io, kind_message, and_then, err, Result, IoResult}
use lurk.Address.{domain_name, socket_address, Address, SocketAddr}
use lurk.Common.{ℕ, List, [], ◌∷◌, ◌++◌}
use lurk.Common.Decimal.{decimal}

-- `impl ToSocketAddrs`: a socket address, or a text `host:port`.
pub data HostQuery : Type 0 where
  socket : SocketAddr → HostQuery
  text : List ℕ → HostQuery

-- The times are in seconds.
pub record TcpKeepalive : Type 0 where
  pub time : ℕ
  pub interval : ℕ
  pub retries : ℕ

-- `Socket` is an established outgoing `TcpStream`. `copy_bidirectional` returns the numbers of bytes
-- that went each way, or the error that stopped it, and both streams as it leaves them.
pub record Net : Type 1 where
  pub Socket : Type 0
  pub lookup_host : HostQuery → IoResult (List SocketAddr)
  pub connect : SocketAddr → IoResult Socket
  pub set_tcp_keepalive : TcpKeepalive → Socket → IoResult Socket
  pub copy_bidirectional : Stream → Socket → IoResult (ℕ × ℕ) × Stream × Socket

-- `.next().ok_or(anyhow!(io::ErrorKind::AddrNotAvailable))`
abbrev pub next_or_unavailable : List SocketAddr → Result SocketAddr
next_or_unavailable [] = err (kind_message addr_not_available)
next_or_unavailable (addr ∷ more) = ok addr

module _ (net : Net) where
  unfoldable pub resolve_sockaddr : HostQuery → Result SocketAddr
  resolve_sockaddr addr = and_then (from_io (net.lookup_host addr)) next_or_unavailable

  -- `format!("{hostname:}:{port:}")` is looked up.
  unfoldable pub to_socket_addr : Address → Result SocketAddr
  unfolding resolve_sockaddr decimal
  to_socket_addr (socket_address sock_addr) = ok sock_addr
  to_socket_addr (domain_name hostname port) =
      resolve_sockaddr (text (hostname ++ b':' ∷ decimal port))
