-- ===== src/Handler/Reference.antt =====
-- What server/handlers/socks5.rs does on all that a client sends, in one pass over the messages and
-- apart from its streams: the replies of RFC 1928, and silence where the program departs from it (an
-- unknown method, command or address type, a name that is not UTF-8 or is not resolved).
pub mod Equivalence
use lurk.Handler.{
  tunnelled, dialed, handle, process_handshake, process_relay_request, on_stream, run_tunnel,
  serve_request, Event, Session,
}
use lurk.Handler.Conversation.{connected_to}
use lurk.Handler.Handshake.{answer_handshake_lem, handshake_answer}
use lurk.Handler.Relay.{
  serve_request_connected, serve_request_refused, serve_request_unresolved,
  serve_request_unsupported,
}
use lurk.Handler.Replies.{method_reply, relay_reply}
use lurk.Handler.Calmness.{establish_tcp_connection-IsCalm, to_socket_addr-IsCalm}
use lurk.Socks5.Codes.{reply_code}
use lurk.Socks5.Grammar.{cut, greeting, offers_none, request, whole, wrong, Front}
use lurk.Socks5.Request.{RelayRequest}
use lurk.Stream.{eof_error, write_all, Stream}
use lurk.Stream.Laws.{feed}
use lurk.Stream.Calm.{IsCalm}
use lurk.Auth.{HashOrder}
use lurk.Address.{Address, SocketAddr}
use lurk.Tcp.{establish_tcp_connection}
use lurk.Net.{to_socket_addr, Net}
use lurk.Error.{
  continue, err, lurk_error, no_acceptable_authentication_method, ok, panic, tcp_bind, tcp_connect,
  udp_associate, Command, ErrorKind, Result,
}
use lurk.Common.{
  append_assoc, append-nil, sym, refl, false, true, ◌++◌, ◌∙◌, ◌≡◌, ◌≢◌, List, Option, [], ◌∷◌,
  Bool, ℕ,
}

module _ (net : Net) (debug : Bool) where
  -- How the server is through with a client: with a result, or by a tunnel.
  pub data Close : Type 0 where
    ends : Result (Unit {0}) → Close
    relays : SocketAddr → net.Socket → Close

  -- What the server does with a client: what it leaves unread, what it writes, and which connections
  -- it asks for.
  pub record Verdict : Type 0 where
    pub left : List ℕ
    pub written : List ℕ
    pub dials : List Event
    pub close : Close

  abbrev pub silent : Result (Unit {0}) → List ℕ → Verdict
  silent result left = record { left = left; written = []; dials = []; close = ends result }

  -- "When a reply indicates a failure, the SOCKS server MUST terminate the TCP connection."
  abbrev pub on_dialed : SocketAddr → SocketAddr → List ℕ → Result net.Socket → Verdict
  on_dialed local_addr addr left (ok outbound) = record {
    left = left;
    written = relay_reply 0 local_addr;
    dials = dialed addr ∷ [];
    close = relays addr outbound;
  }
  on_dialed local_addr addr left (err e) = record {
    left = left;
    written = relay_reply (reply_code e) local_addr;
    dials = dialed addr ∷ [];
    close = ends (ok tt);
  }
  on_dialed local_addr addr left panic = silent panic left

  abbrev pub on_resolved : SocketAddr → List ℕ → Result SocketAddr → Verdict
  on_resolved local_addr left (ok addr) =
      on_dialed local_addr addr left (establish_tcp_connection net debug addr)
  on_resolved local_addr left (err e) = silent (err e) left
  on_resolved local_addr left panic = silent panic left

  abbrev pub on_command : SocketAddr → Command → Address → List ℕ → Verdict
  on_command local_addr tcp_connect address left =
      on_resolved local_addr left (to_socket_addr net address)
  on_command local_addr command address left = record (silent (ok tt) left) {
    written = relay_reply 7 local_addr;
  }

  abbrev pub on_request : Option ErrorKind → SocketAddr → Front RelayRequest → Verdict
  on_request ending local_addr (whole r left) =
      on_command local_addr r.command r.endpoint_address left
  on_request ending local_addr (wrong e left) = silent (err e) left
  on_request ending local_addr cut = silent (err (eof_error ending)) []

  abbrev pub greeted : Verdict → Verdict
  greeted v = record v { written = method_reply 0 ++ v.written }

  abbrev pub on_methods : Option ErrorKind → SocketAddr → Bool → List ℕ → Verdict
  on_methods ending local_addr true bs = greeted (on_request ending local_addr (request bs))
  on_methods ending local_addr false bs =
      record (silent (err (lurk_error no_acceptable_authentication_method)) bs) {
        written = method_reply 255;
      }

  abbrev pub on_greeting : Option ErrorKind → SocketAddr → Front (List ℕ) → Verdict
  on_greeting ending local_addr (whole ms bs) = on_methods ending local_addr (offers_none ms) bs
  on_greeting ending local_addr (wrong e bs) = silent (err e) bs
  on_greeting ending local_addr cut = silent (err (eof_error ending)) []

  abbrev pub close_with : Close → Session → Result (Unit {0}) × Session
  close_with (ends result) s = (result, s)
  close_with (relays addr outbound) s = run_tunnel net debug addr outbound s

  abbrev pub tunnel_events : Close → List Event
  tunnel_events (ends result) = []
  tunnel_events (relays addr outbound) = tunnelled addr ∷ []

  -- The events of a client, in the order in which they come.
  abbrev pub events_of : Verdict → List Event
  events_of v = v.dials ++ tunnel_events v.close

  module _ (ending : Option ErrorKind) (peer_addr local_addr : SocketAddr) where
    -- The handler after a verdict, with a client that takes every write.
    abbrev pub enacted : Verdict → List ℕ → List Event → Result (Unit {0}) × Session
    enacted v written events =
        close_with v.close (
          connected_to ending peer_addr local_addr v.left (written ++ v.written)
            (events ++ v.dials))
