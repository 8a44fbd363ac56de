-- ===== src/Tcp.antt =====
-- net/tcp.rs: options of outgoing connections, the label of an incoming connection, and connections.
pub mod Labels
mod Tests
use lurk.Address.{SocketAddr}
use lurk.Error.{
  io_error, unexpected_eof, kind_message, err, failed, from_io, debug_assert, done, ErrorKind, ok,
  and_then, Result, IoResult,
}
use lurk.Stream.{Stream}
use lurk.Net.{HostQuery, resolve_sockaddr, Net, TcpKeepalive}
use lurk.Common.{false, true, Bool, ℕ, ◌==◌, ◌||◌, List, [], ◌∷◌, Option, none, some, if◌then◌else◌}

pub record TcpConnectionOptions : Type 0 where
  pub keep_alive : Option TcpKeepalive

unfoldable new_options : TcpConnectionOptions
new_options = record { keep_alive = none }

abbrev is_unset : Option TcpKeepalive → Bool
is_unset none = true
is_unset (some k) = false

unfoldable set_keepalive : Bool → TcpKeepalive → TcpConnectionOptions → Result TcpConnectionOptions
set_keepalive debug keep_alive opts =
    and_then (debug_assert debug (is_unset opts.keep_alive))
      λ _. ok (record opts { keep_alive = some keep_alive })

abbrev keepalive_settings : TcpKeepalive
keepalive_settings = record { time = 150; interval = 30; retries = 5 }

module _ (net : Net) where
  apply_option : Option TcpKeepalive → net.Socket → Result net.Socket
  apply_option none tcp_stream = ok tcp_stream
  apply_option (some keep_alive) tcp_stream = from_io (net.set_tcp_keepalive keep_alive tcp_stream)

  unfoldable apply_to : TcpConnectionOptions → net.Socket → Result net.Socket
  unfolding apply_option
  apply_to opts tcp_stream = apply_option opts.keep_alive tcp_stream

  unfoldable establish_tcp_connection_with_opts :
      SocketAddr → TcpConnectionOptions → Result net.Socket
  unfolding apply_to
  establish_tcp_connection_with_opts addr tcp_opts =
      and_then (from_io (net.connect addr)) (apply_to tcp_opts)

  unfoldable pub establish_tcp_connection : Bool → SocketAddr → Result net.Socket
  unfolding establish_tcp_connection_with_opts new_options set_keepalive
  establish_tcp_connection debug addr =
      and_then (set_keepalive debug keepalive_settings new_options)
        (establish_tcp_connection_with_opts addr)

pub data LurkTcpConnectionLabel : Type 0 where
  socks5 http : LurkTcpConnectionLabel
  unknown : ℕ → LurkTcpConnectionLabel

unfoldable pub is_http_label : ℕ → Bool
is_http_label byte =
    byte == b'G'
    || byte == b'g'
    || byte == b'H'
    || byte == b'h'
    || byte == b'P'
    || byte == b'p'
    || byte == b'D'
    || byte == b'd'
    || byte == b'C'
    || byte == b'c'
    || byte == b'O'
    || byte == b'o'
    || byte == b'T'
    || byte == b't'

unfoldable pub is_socks5_label : ℕ → Bool
is_socks5_label byte = byte == 0x05

-- `TcpStream::peek` with room for one byte: the byte is not taken; no byte at the end of the stream.
abbrev look : List ℕ → Option ErrorKind → IoResult (List ℕ)
look (b ∷ bytes) ending = done (b ∷ [])
look [] none = done []
look [] (some kind) = failed kind

abbrev pub peek : Stream → IoResult (List ℕ)
peek s = look s.incoming s.ending

unfoldable pub label_of : ℕ → LurkTcpConnectionLabel
unfolding is_http_label is_socks5_label
label_of b = if is_http_label b then http else if is_socks5_label b then socks5 else unknown b

label_from : IoResult (List ℕ) → Result LurkTcpConnectionLabel
label_from (done (b ∷ bytes)) = ok (label_of b)
label_from (done []) = err (kind_message unexpected_eof)
label_from (failed kind) = err (io_error kind)

unfoldable pub from_tcp_stream : Stream → Result LurkTcpConnectionLabel
unfolding label_from
from_tcp_stream s = label_from (peek s)

-- An accepted `TcpStream`: its bytes, and what the operating system says of its two ends.
pub record TcpStream : Type 0 where
  pub stream : Stream
  pub peer : IoResult SocketAddr
  pub local : IoResult SocketAddr

pub record LurkTcpConnection : Type 0 where
  pub stream : Stream
  pub label : LurkTcpConnectionLabel
  pub peer_addr : SocketAddr
  pub local_addr : SocketAddr

unfoldable new_connection : TcpStream → LurkTcpConnectionLabel → Result LurkTcpConnection
new_connection tcp_stream label = and_then (from_io tcp_stream.peer) λ peer_addr.
    and_then (from_io tcp_stream.local) λ local_addr. ok (record {
      stream = tcp_stream.stream;
      label = label;
      peer_addr = peer_addr;
      local_addr = local_addr;
    })

unfoldable create_connection : TcpStream → LurkTcpConnectionLabel → Result LurkTcpConnection
unfolding new_connection
create_connection tcp_stream label = new_connection tcp_stream label

-- `LurkTcpListener::accept`, on what the inner listener accepted.
unfoldable pub accept : IoResult TcpStream → Result LurkTcpConnection
unfolding from_tcp_stream create_connection
accept accepted = and_then (from_io accepted) λ tcp_stream.
    and_then (from_tcp_stream tcp_stream.stream) λ tcp_label. create_connection tcp_stream tcp_label

-- What `LurkTcpListener::bind` uses of socket2 and tokio: a listening socket is made in steps, each
-- of which may fail. `new_socket` makes a stream socket of the domain of the address.
pub record Listening : Type 1 where
  pub RawSocket : Type 0
  pub TcpListener : Type 0
  pub new_socket : SocketAddr → IoResult RawSocket
  pub bind_socket : SocketAddr → RawSocket → IoResult RawSocket
  pub listen : ℕ → RawSocket → IoResult RawSocket
  pub set_nonblocking : Bool → RawSocket → IoResult RawSocket
  pub from_std : RawSocket → IoResult TcpListener

abbrev tcp_listen_backlog : ℕ
tcp_listen_backlog = 1024

pub record LurkTcpListener (listening : Listening) : Type 0 where
  pub inner : listening.TcpListener

module _ (net : Net) (listening : Listening) where
  open_listener : SocketAddr → Result (LurkTcpListener listening)
  open_listener bind_addr = and_then (from_io (listening.new_socket bind_addr)) λ socket.
      and_then (from_io (listening.bind_socket bind_addr socket)) λ bound.
        and_then (from_io (listening.listen tcp_listen_backlog bound)) λ heard.
          and_then (from_io (listening.set_nonblocking true heard)) λ ready.
            and_then (from_io (listening.from_std ready)) λ inner. ok (record { inner = inner })

  unfoldable pub bind : HostQuery → Result (LurkTcpListener listening)
  unfolding open_listener
  bind addr = and_then (resolve_sockaddr net addr) open_listener
