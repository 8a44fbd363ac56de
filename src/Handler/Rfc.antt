-- ===== src/Handler/Rfc.antt =====
-- The server of RFC 1928, sections 3 to 6, for server/handlers/socks5.rs to be held against: one that
-- offers "NO AUTHENTICATION REQUIRED" alone and supports CONNECT alone. It is written from the RFC,
-- also where the program departs from it. On bytes that are no message of the protocol, of which the
-- RFC says nothing, it closes the connection.
pub mod Agreement
use lurk.Handler.{dialed, tunnelled, Event}
use lurk.Handler.Replies.{method_reply, relay_reply}
use lurk.Socks5.Grammar.{command, cut, destination, exactly, offers_none, whole, wrong, Front}
use lurk.Address.{Address, SocketAddr}
use lurk.Tcp.{establish_tcp_connection}
use lurk.Net.{to_socket_addr, Net}
use lurk.Error.{
  connection_refused, data_error, err, io_error, lurk_error, ok, panic, tcp_connect, Command, Error,
  InvalidValue, Result,
}
use lurk.Common.{◌++◌, ◌==◌, false, true, some, Bool, List, Option, [], ◌∷◌, ℕ, if◌then◌else◌}

-- What a server does with a client: what it writes to it, and what it dials and tunnels.
pub record Conduct : Type 0 where
  pub written : List ℕ
  pub events : List Event

abbrev pub closes : Conduct
closes = record { written = []; events = [] }

-- A failure is replied, and the connection closed. The address in a reply is a parameter: the RFC has
-- in it the address from which the server dials, the program that to which its client has connected.
abbrev pub fails_with : ℕ → SocketAddr → Conduct
fails_with code bound = record { written = relay_reply code bound; events = [] }

-- X'05' is a refused connection; any other failure counts as a general one here, X'01', though the
-- RFC has codes for some of them.
abbrev pub failure_code : Error → ℕ
failure_code (io_error connection_refused) = 5
failure_code _ = 1

-- X'08' is an address type that is not supported, X'04' a host that cannot be reached: a name that no
-- resolver could know.
abbrev pub refusal_code : Error → ℕ
refusal_code (lurk_error (data_error (InvalidValue.address_type t))) = 8
refusal_code _ = 4

module _ (net : Net) (debug : Bool) (bound : SocketAddr) where
  abbrev pub on_connect : SocketAddr → Result net.Socket → Conduct
  on_connect addr (ok outbound) = record {
    written = relay_reply 0 bound;
    events = dialed addr ∷ tunnelled addr ∷ [];
  }
  on_connect addr (err e) = record {
    written = relay_reply (failure_code e) bound;
    events = dialed addr ∷ [];
  }
  on_connect addr panic = closes

  abbrev pub on_lookup : Result SocketAddr → Conduct
  on_lookup (ok addr) = on_connect addr (establish_tcp_connection net debug addr)
  on_lookup (err e) = fails_with 4 bound
  on_lookup panic = closes

  -- X'07' is a command that is not supported.
  abbrev pub on_asked : Option Command → Address → Conduct
  on_asked (some tcp_connect) address = on_lookup (to_socket_addr net address)
  on_asked _ address = fails_with 7 bound

  abbrev pub on_destination : Option Command → Front Address → Conduct
  on_destination asked (whole address rest) = on_asked asked address
  on_destination asked (wrong e rest) = fails_with (refusal_code e) bound
  on_destination asked cut = closes

  unfoldable pub answer_request : List ℕ → Conduct
  unfolding command destination
  answer_request (version ∷ code ∷ reserved ∷ bs) =
      if version == 5
      then (if reserved == 0 then on_destination (command code) (destination bs) else closes)
      else closes
  answer_request _ = closes

  abbrev pub chosen : Conduct → Conduct
  chosen c = record c { written = method_reply 0 ++ c.written }

  -- "If the selected METHOD is X'FF', none of the methods listed by the client are acceptable".
  abbrev pub on_offer : Bool → List ℕ → Conduct
  on_offer true bs = chosen (answer_request bs)
  on_offer false bs = record { written = method_reply 255; events = [] }

  -- METHODS holds 1 to 255 octets. A method that the server does not know is not acceptable, and no
  -- more.
  abbrev pub on_listed : Front (List ℕ) → Conduct
  on_listed (whole [] bs) = closes
  on_listed (whole (m ∷ ms) bs) = on_offer (offers_none (m ∷ ms)) bs
  on_listed (wrong e bs) = closes
  on_listed cut = closes

  -- All that the server does with a client that sends these bytes.
  unfoldable pub answer_client : List ℕ → Conduct
  unfolding answer_request offers_none
  answer_client (version ∷ nmethods ∷ bs) =
      if version == 5 then on_listed (exactly nmethods bs) else closes
  answer_client _ = closes
