-- ===== src/Log.antt =====
-- common/logging.rs: the lines of the log, and what of them a part of the program writes. A text is
-- the list of its bytes, and a line break of a format stands as in the source.

use Prim.Native.Char.{code}
use Prim.Native.String.{String}
use lurk.Address.{domain_name, socket_address, Address, SocketAddr}
use lurk.Common.{◌-◌, ◌+◌, ◌/◌, ◌%◌, ◌++◌, ◌∷◌, [], if◌then◌else◌, ltb, List, ℕ}
use lurk.Common.Decimal.{decimal}
use lurk.Error.{Error}
use lurk.Socks5.Request.{RelayRequest}
use lurk.Socks5.Response.{RelayResponse}
use lurk.Tcp.{http, socks5, unknown, LurkTcpConnectionLabel}

pub data Level : Type 0 where
  debug warn error : Level

pub record LogRecord : Type 0 where
  pub level : Level
  pub message : List ℕ

abbrev codes : String → List ℕ
codes String.[] = []
codes (String.◌∷◌ c s) = code c ∷ codes s

-- How the standard library, anyhow and the crate human_bytes print values: `{}` and `{:?}`.
pub record Displays : Type 0 where
  pub socket_addr : SocketAddr → List ℕ
  pub error_text : Error → List ℕ
  pub human_bytes : ℕ → List ℕ
  pub debug_request : RelayRequest → List ℕ
  pub debug_response : RelayResponse → List ℕ

hex_digit : ℕ → ℕ
hex_digit n = if ltb n 10 then b'0' + n else b'a' + n - 10

-- `{l:#04x}` of a byte
hex_byte : ℕ → List ℕ
hex_byte l = b'0' ∷ b'x' ∷ hex_digit (l / 16) ∷ hex_digit (l % 16) ∷ []

-- `Display` of a label
unfoldable pub fmt_label : LurkTcpConnectionLabel → List ℕ
unfolding hex_byte hex_digit
fmt_label http = codes "HTTP(S)"
fmt_label socks5 = codes "SOCKS5"
fmt_label (unknown l) = codes "unknown " ++ hex_byte l

module _ (displays : Displays) where
  -- `Display` of an address
  unfoldable pub fmt_address : Address → List ℕ
  fmt_address (socket_address sock) = displays.socket_addr sock
  fmt_address (domain_name name port) = name ++ (b':' ∷ decimal port)

  between : SocketAddr → SocketAddr → Address → List ℕ
  unfolding fmt_address
  between peer proxy endpoint =
      codes "\n\t\tsource ["
      ++ (displays.socket_addr peer
          ++ (codes "] <--L--> lurk ["
              ++ (displays.socket_addr proxy
                  ++ (codes "] <--R--> destination [" ++ (fmt_address endpoint ++ codes "]")))))

  unfoldable pub log_tunnel_created : SocketAddr → SocketAddr → Address → LogRecord
  unfolding between
  log_tunnel_created peer proxy endpoint = record {
    level = debug;
    message =
        codes "\n\n\tTunnel has been CREATED: " ++ (between peer proxy endpoint ++ codes "\n");
  }

  unfoldable pub log_tunnel_closed : SocketAddr → SocketAddr → Address → ℕ → ℕ → LogRecord
  unfolding between
  log_tunnel_closed peer proxy endpoint l2r r2l = record {
    level = debug;
    message =
        codes "\n\n\tTunnel has been CLOSED: "
        ++ (between peer proxy endpoint
            ++ (codes " \n\t\ttransmitted: L->R "
                ++ (displays.human_bytes l2r
                    ++ (codes ", R->L " ++ (displays.human_bytes r2l ++ codes "\n")))));
  }

  unfoldable pub log_tunnel_closed_with_error :
      SocketAddr → SocketAddr → Address → Error → LogRecord
  unfolding between
  log_tunnel_closed_with_error peer proxy endpoint err = record {
    level = error;
    message =
        codes "\n\n\tTunnel has been CLOSED with ERROR: "
        ++ (between peer proxy endpoint
            ++ (codes " \n\t\terror: '" ++ (displays.error_text err ++ codes "'\n")));
  }

  -- `reason` is the text of the error.
  unfoldable pub log_request_handling_error :
      SocketAddr → List ℕ → RelayRequest → RelayResponse → LogRecord
  log_request_handling_error peer_addr reason req resp = record {
    level = error;
    message =
        codes "\n\n\tError occured during REQUEST handling: \n\t\tpeer: '"
        ++ (displays.socket_addr peer_addr
            ++ (codes "' \n\t\treason: '"
                ++ (reason
                    ++ (codes "' \n\t\trequest : '"
                        ++ (displays.debug_request req
                            ++ (codes "' \n\t\tresponse: '"
                                ++ (displays.debug_response resp ++ codes "' \n")))))));
  }

  unfoldable pub log_tcp_closed_conn_with_error :
      SocketAddr → LurkTcpConnectionLabel → Error → LogRecord
  unfolding fmt_label
  log_tcp_closed_conn_with_error conn_addr conn_label err = record {
    level = error;
    message =
        codes "\n\n\tTCP "
        ++ (fmt_label conn_label
            ++ (codes " connection has been CLOSED with ERROR: \n\t\tpeer: '"
                ++ (displays.socket_addr conn_addr
                    ++ (codes "' \n\t\treason: '" ++ (displays.error_text err ++ codes "' \n")))));
  }

  unfoldable pub log_tcp_closed_conn : SocketAddr → LurkTcpConnectionLabel → LogRecord
  unfolding fmt_label
  log_tcp_closed_conn conn_addr conn_label = record {
    level = debug;
    message =
        codes "\n\n\tTCP "
        ++ (fmt_label conn_label
            ++ (codes " connection has been CLOSED: \n\t\tpeer: '"
                ++ (displays.socket_addr conn_addr ++ codes "' \n")));
  }

  unfoldable pub log_tcp_canceled_conn : SocketAddr → LurkTcpConnectionLabel → LogRecord
  unfolding fmt_label
  log_tcp_canceled_conn conn_addr conn_label = record {
    level = debug;
    message =
        codes "\n\n\tTCP "
        ++ (fmt_label conn_label
            ++ (codes " connection has been CANCELED: \n\t\tpeer: '"
                ++ (displays.socket_addr conn_addr ++ codes "' \n")));
  }

  unfoldable pub log_tcp_established_conn : SocketAddr → LurkTcpConnectionLabel → LogRecord
  unfolding fmt_label
  log_tcp_established_conn conn_addr conn_label = record {
    level = debug;
    message =
        codes "\n\n\tTCP connection with "
        ++ (fmt_label conn_label
            ++ (codes " label has been OPENED: \n\t\tpeer: '"
                ++ (displays.socket_addr conn_addr ++ codes "' \n")));
  }

  unfoldable pub log_tcp_acception_error : Error → LogRecord
  log_tcp_acception_error err = record {
    level = warn;
    message =
        codes "\n\n\tTCP connection was NOT ACCEPTED: \n\t\treason: '"
        ++ (displays.error_text err ++ codes "' \n");
  }
