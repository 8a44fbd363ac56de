-- ===== src/Handler/Tests.antt =====
-- Concrete conversations, and the theorems on the handler at concrete inputs.
use lurk.Stream.Laws.{feed}
use lurk.Handler.Clients.{handshake_conversation, selected, outcome, idle}
use lurk.Handler.Calmness.{handle-IsCalm}
use lurk.Stream.Calm.{IsCalm}
use lurk.Handler.Handshake.{process_handshake_sound}
use lurk.Handler.Speech.{Spoke, handle-Spoke}
use lurk.Handler.Safety.{handle-Authorized, Authorized}
use lurk.Socks5.Response.{
  read_handshake_response, write_relay_response, build_relay, relay_builder, with_bound_address,
  with_success, write_handshake_response, build_handshake, handshake_builder, with_auth_method,
}
use lurk.Handler.Replies.{relay_reply, method_reply}
use lurk.Common.Utf8.{is_utf8}
use lurk.Tcp.{establish_tcp_connection}
use lurk.Socks5.{as_u8, command_eq, try_from, as_socks5_const, from_socks5_const}
use lurk.Address.Encoding.{IsValid, encode_address}
use lurk.Common.Bytes.{IsByte, be_bytes, from_be_bytes}
use lurk.Stream.{Stream, write_all, read_be, read_u8, read_exact}
use lurk.Handler.Conversation.{handle_refused, handle_connected, tunnelled_session, connected_to}
use lurk.Socks5.Wire.{encode_relay, encode_handshake}
use lurk.Net.{to_socket_addr, Net}
use lurk.Handler.{
  tunnelled, run_tunnel, send_success, dialed, process_handshake, send_method, answer_handshake,
  Session, handle, Event,
}
use lurk.Socks5.Request.{write_handshake, collect_methods, read_relay, read_handshake, RelayRequest}
use lurk.Address.{read_ipv4, write_to, read_from, domain_name, socket_address, v4, SocketAddr}
use lurk.Error.{
  ErrorKind, addr_not_available, io_error, kind_message, err, failed, tcp_bind, ok, Result,
  tcp_connect, gss_api, done, Command, LurkAuthMethod, IoResult,
}
use lurk.Auth.{
  authenticate_connection, method_eq, contains, insert, new, select_auth_method, HashOrder,
}
use lurk.Handler.Reference.{enacted, on_greeting, Verdict}
use lurk.Handler.Rfc.{answer_client}
use lurk.Handler.Rfc.Agreement.{conduct_of, handle-answer_client, IsRegular}
use lurk.Socks5.Grammar.{greeting, offers_none, request}
use lurk.Error.{unexpected_eof}
use lurk.Common.{◌⊎◌, All, ℕ, List, [], ◌∷◌, ◌++◌, ◌≡◌, ◌≢◌, refl, true, false, none, arith}

abbrev pub order : HashOrder
order = record { iter = λ set. set; visits = λ set m. refl; length_iter = λ set. refl }

-- A network that connects to every address, or refuses every connection, and resolves no name.
abbrev pub net_of : IoResult ℕ → Net
net_of connection = record {
  Socket = ℕ;
  lookup_host = λ query. done [];
  connect = λ addr. connection;
  set_tcp_keepalive = λ settings socket. done socket;
  copy_bidirectional = λ stream socket. (done (3, 4), stream, socket);
}

abbrev pub localhost : ℕ → SocketAddr
localhost port = v4 (record { ip = 0x7f00_0001; port = port })

abbrev pub offered : List LurkAuthMethod
offered = gss_api ∷ LurkAuthMethod.none ∷ []

abbrev pub to_localhost : Command → RelayRequest
to_localhost command = record {
  command = command;
  endpoint_address = socket_address (localhost 80);
}

abbrev to_name : RelayRequest
to_name = record { command = tcp_connect; endpoint_address = domain_name (b'a' ∷ []) 80 }

abbrev session : List ℕ → List ℕ → List Event → Session
session = connected_to none (localhost 5000) (localhost 1080)

abbrev pub bytes_of : List LurkAuthMethod → RelayRequest → List ℕ
bytes_of ms r = encode_handshake ms ++ (encode_relay r ++ 9 ∷ [])

abbrev start : RelayRequest → Session
start r = session (bytes_of offered r) [] []

abbrev handled : IoResult ℕ → RelayRequest → Result (Unit {0}) × Session
handled connection r = handle (net_of connection) true order (start r)

unfoldable pub run : Unit {0}
unfolding handle read_handshake read_relay read_exact read_from read_u8 read_be from_be_bytes
    be_bytes encode_handshake encode_relay encode_address collect_methods from_socks5_const
    as_socks5_const try_from select_auth_method new insert contains method_eq answer_handshake
    send_method with_auth_method handshake_builder build_handshake write_handshake_response
    write_all authenticate_connection command_eq to_socket_addr establish_tcp_connection read_ipv4
    send_success with_success with_bound_address relay_builder build_relay write_relay_response
    write_to as_u8 run_tunnel
run = tt

connect_run :
    (handled (done 7) (to_localhost tcp_connect)).1.conn.stream.written
    ≡ 5 ∷ 0 ∷ 5 ∷ 0 ∷ 0 ∷ 1 ∷ 127 ∷ 0 ∷ 0 ∷ 1 ∷ 4 ∷ 56 ∷ []
unfolding run
connect_run = refl

no_offer : contains (gss_api ∷ []) LurkAuthMethod.none ≡ false
unfolding contains
no_offer = refl

not_connect : tcp_bind ≢ tcp_connect
not_connect e = cc

pub bytewise : All IsByte (bytes_of offered (to_localhost tcp_connect))
unfolding run
bytewise = omega arith

accepted :
    process_handshake true order (session (5 ∷ 1 ∷ 0 ∷ []) [] []).conn.stream
    ≡ (ok tt, (session [] (5 ∷ 0 ∷ []) []).conn.stream)
unfolding run
accepted = refl

offers : contains offered LurkAuthMethod.none ≡ true
unfolding contains
offers = refl

found : (net : Net) → to_socket_addr net (socket_address (localhost 80)) ≡ ok (localhost 80)
unfolding to_socket_addr
found net = refl

established : establish_tcp_connection (net_of (done 7)) true (localhost 80) ≡ ok 7
unfolding establish_tcp_connection
established = refl

not_established :
    establish_tcp_connection (net_of (failed ErrorKind.connection_refused)) true (localhost 80)
    ≡ err (io_error ErrorKind.connection_refused)
unfolding establish_tcp_connection
not_established = refl

not_found :
    to_socket_addr (net_of (done 7)) (domain_name (b'a' ∷ []) 80)
    ≡ err (kind_message addr_not_available)
unfolding to_socket_addr
not_found = refl

fits : IsValid (socket_address (localhost 80))
fits = omega arith

name_fits : IsValid (domain_name (b'a' ∷ []) 80)
unfolding is_utf8
name_fits = (omega arith, refl, omega arith)

handle_connected_example : handled (done 7) (to_localhost tcp_connect) ≡ (
  ok tt,
  tunnelled_session
      (net_of (done 7))
      true
      order
      none
      (localhost 5000)
      (localhost 1080)
      offered
      (to_localhost tcp_connect)
      (9 ∷ [])
      []
      []
      offers
      fits
      refl
      (localhost 80)
      (found (net_of (done 7)))
      7,
)
handle_connected_example =
    handle_connected (net_of (done 7)) true order none (localhost 5000) (localhost 1080) offered
      (to_localhost tcp_connect) (9 ∷ []) [] [] offers fits refl (localhost 80)
      (found (net_of (done 7))) 7 established

handle_refused_example :
    handled (failed ErrorKind.connection_refused) (to_localhost tcp_connect) ≡ (
      ok tt,
      session
          (9 ∷ [])
          (method_reply 0 ++ relay_reply 5 (localhost 1080))
          (dialed (localhost 80) ∷ []),
    )
handle_refused_example =
    handle_refused (net_of (failed ErrorKind.connection_refused)) true order none (localhost 5000)
      (localhost 1080) offered (to_localhost tcp_connect) (9 ∷ []) [] [] offers fits refl
      (localhost 80) (found (net_of (failed ErrorKind.connection_refused)))
      (io_error ErrorKind.connection_refused) not_established

handle-Authorized_example :
    ((handled (done 7) (to_localhost tcp_connect)).1.events ≡ [])
    ⊎ Authorized
        (net_of (done 7))
        true
        (start (to_localhost tcp_connect))
        (handled (done 7) (to_localhost tcp_connect)).1
handle-Authorized_example =
    handle-Authorized (net_of (done 7)) true order (start (to_localhost tcp_connect)) bytewise

process_handshake_sound_example :
    (ms : List LurkAuthMethod) × (5 ∷ 1 ∷ 0 ∷ [] ≡ encode_handshake ms ++ [])
    × (contains ms LurkAuthMethod.none ≡ true)
    × (5 ∷ 0 ∷ [] ≡ method_reply 0)
process_handshake_sound_example =
    process_handshake_sound true order (session (5 ∷ 1 ∷ 0 ∷ []) [] []).conn.stream
      (session [] (5 ∷ 0 ∷ []) []).conn.stream accepted

handle-Spoke_example :
    Spoke
      (net_of (done 7))
      (localhost 1080)
      []
      (handled (done 7) (to_localhost tcp_bind)).1.conn.stream
handle-Spoke_example = handle-Spoke (net_of (done 7)) true order (start (to_localhost tcp_bind))

handle-IsCalm_example : IsCalm (handled (done 7) (to_localhost tcp_connect)).0
handle-IsCalm_example =
    handle-IsCalm (net_of (done 7)) true order (start (to_localhost tcp_connect)) refl

handshake_conversation_example :
    (greeting : List ℕ) × (write_handshake order (record { auth_methods = offered }) idle
      ≡ (ok tt, record idle { written = greeting }))
    × (server : Stream) × (process_handshake true order (feed (greeting ++ 9 ∷ []) idle)
        ≡ (outcome (contains offered LurkAuthMethod.none), server))
    × (server.incoming ≡ 9 ∷ [])
    × (read_handshake_response (feed server.written idle)
        ≡ (ok (selected (contains offered LurkAuthMethod.none)), idle))
handshake_conversation_example =
    handshake_conversation true order order offered (9 ∷ []) (omega arith)

-- The client that asks for 127.0.0.1:80 is one on which the program and the RFC agree.
regular : IsRegular (net_of (done 7)) true (bytes_of offered (to_localhost tcp_connect))
unfolding greeting offers_none request establish_tcp_connection to_socket_addr from_be_bytes
    encode_address be_bytes encode_handshake as_socks5_const encode_relay
regular = tt

handle-answer_client_example :
    (v : Verdict (net_of (done 7)) true) × (handle
        (net_of (done 7))
        true
        order
        (start (to_localhost tcp_connect))
      ≡ enacted (net_of (done 7)) true none (localhost 5000) (localhost 1080) v [] [])
    × (conduct_of (net_of (done 7)) true v
        ≡ answer_client
            (net_of (done 7))
            true
            (localhost 1080)
            (bytes_of offered (to_localhost tcp_connect)))
handle-answer_client_example =
    handle-answer_client (net_of (done 7)) true none (localhost 1080) order (localhost 5000)
      (bytes_of offered (to_localhost tcp_connect)) regular

-- A client that also offers the method 128 is served by the RFC, and dropped by the program.
abbrev offers_more : List ℕ
offers_more = 5 ∷ 2 ∷ 0 ∷ 128 ∷ 5 ∷ 1 ∷ 0 ∷ 1 ∷ 127 ∷ 0 ∷ 0 ∷ 1 ∷ 0 ∷ 80 ∷ []

served_by_the_rfc :
    (answer_client (net_of (done 7)) true (localhost 1080) offers_more).events
    ≡ dialed (localhost 80) ∷ tunnelled (localhost 80) ∷ []
unfolding answer_client establish_tcp_connection to_socket_addr from_be_bytes
served_by_the_rfc = refl

dropped_by_the_program :
    (on_greeting (net_of (done 7)) true none (localhost 1080) (greeting offers_more)).written ≡ []
unfolding greeting
dropped_by_the_program = refl

-- A request that is cut off behind its header is the end of the stream for the server.
cut_off :
    enacted
      (net_of (done 7))
      true
      none
      (localhost 5000)
      (localhost 1080)
      (on_greeting
        (net_of (done 7))
        true
        none
        (localhost 1080)
        (greeting (5 ∷ 1 ∷ 0 ∷ 5 ∷ 1 ∷ 0 ∷ 1 ∷ [])))
      []
      []
    ≡ (err (io_error unexpected_eof), session [] (5 ∷ 0 ∷ []) [])
unfolding greeting offers_none request
cut_off = refl
