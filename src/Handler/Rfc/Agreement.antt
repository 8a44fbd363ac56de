-- ===== src/Handler/Rfc/Agreement.antt =====
-- Where the SOCKS5 handler is the server of RFC 1928, and that it never does more than this server.
use lurk.Handler.{handle, Event, Session}
use lurk.Handler.Conversation.{connected_to}
use lurk.Handler.Reference.{
  enacted, events_of, on_command, on_dialed, on_greeting, on_methods, on_request, on_resolved,
  Verdict,
}
use lurk.Handler.Reference.Equivalence.{handle-events_of, handle-on_greeting}
use lurk.Handler.Rfc.{
  answer_client, answer_request, chosen, closes, on_asked, on_connect, on_destination, on_listed,
  on_lookup, on_offer, Conduct,
}
use lurk.Socks5.Grammar.{
  all_known, behind, command, cut, destination, exactly, first_unknown, greeting, offers_none,
  request, whole, with_destination, wrong, Front,
}
use lurk.Socks5.Request.{RelayRequest}
use lurk.Auth.{HashOrder}
use lurk.Address.{Address, SocketAddr}
use lurk.Tcp.{establish_tcp_connection}
use lurk.Net.{to_socket_addr, Net}
use lurk.Error.{
  protocol_version, reserved_value, invalid_value, connection_refused, err, io_error, ok, panic,
  tcp_bind, tcp_connect, udp_associate, Command, Error, ErrorKind, Result,
}
use lurk.Common.{
  ap, refl, sym, false, true, none, some, ◌++◌, ◌∙◌, ◌==◌, ◌≡◌, List, Option, [], ◌∷◌, Bool, ℕ,
  if◌then◌else◌,
}

module _ (net : Net) (debug : Bool) where
  -- The clients on which the program and the RFC agree. Their greeting lists at least one method, and
  -- none but 0, 1 and 2; if it offers 0, their request is in the format of the RFC with a known command
  -- and a name in UTF-8; if it is CONNECT, its host is resolved, and the connection to it comes to be or
  -- is refused. Of a message that is cut off nothing is asked: both close the connection.
  abbrev pub IsSettled : Result net.Socket → Type 0
  IsSettled (ok outbound) = Unit
  IsSettled (err e) = e ≡ io_error connection_refused
  IsSettled panic = ⊥

  abbrev pub IsResolved : Result SocketAddr → Type 0
  IsResolved (ok addr) = IsSettled (establish_tcp_connection net debug addr)
  IsResolved _ = ⊥

  abbrev pub IsReachable : Command → Address → Type 0
  IsReachable tcp_connect address = IsResolved (to_socket_addr net address)
  IsReachable command address = Unit

  abbrev pub IsRegularRequest : Front RelayRequest → Type 0
  IsRegularRequest (whole r left) = IsReachable r.command r.endpoint_address
  IsRegularRequest (wrong e left) = ⊥
  IsRegularRequest cut = Unit

  abbrev pub IsFollowed : Bool → List ℕ → Type 0
  IsFollowed true bs = IsRegularRequest (request bs)
  IsFollowed false bs = Unit

  abbrev pub IsRegularGreeting : Front (List ℕ) → Type 0
  IsRegularGreeting (whole [] bs) = ⊥
  IsRegularGreeting (whole (m ∷ ms) bs) = IsFollowed (offers_none (m ∷ ms)) bs
  IsRegularGreeting (wrong e bs) = ⊥
  IsRegularGreeting cut = Unit

  abbrev pub IsRegular : List ℕ → Type 0
  IsRegular incoming = IsRegularGreeting (greeting incoming)

  abbrev pub conduct_of : Verdict net debug → Conduct
  conduct_of v = record { written = v.written; events = events_of net debug v }

  -- On the clients that `P` picks the conduct is the same, and on the others the server of the RFC does
  -- what the program does, and perhaps more.
  abbrev Agrees : Type 0 → Verdict net debug → Conduct → Type 0
  Agrees P v c =
      (P → conduct_of v ≡ c) × ((rest : List Event) × (c.events ≡ events_of net debug v ++ rest))

  module _ (ending : Option ErrorKind) (local_addr : SocketAddr) where
    on_dialed-Agrees :
        (addr : SocketAddr) (left : List ℕ) (dialing : Result net.Socket)
        → Agrees
            (IsSettled dialing)
            (on_dialed net debug local_addr addr left dialing)
            (on_connect net debug local_addr addr dialing)
    on_dialed-Agrees addr left (ok outbound) = (λ h. refl, ([], refl))
    on_dialed-Agrees addr left (err e) = (λ h. rw h refl, ([], refl))
    on_dialed-Agrees addr left panic = (λ h. refl, ([], refl))

    on_resolved-Agrees :
        (left : List ℕ) (resolved : Result SocketAddr)
        → Agrees
            (IsResolved resolved)
            (on_resolved net debug local_addr left resolved)
            (on_lookup net debug local_addr resolved)
    on_resolved-Agrees left (ok addr) = on_dialed-Agrees addr left _
    on_resolved-Agrees left (err e) = (λ h. absurd h, ([], refl))
    on_resolved-Agrees left panic = (λ h. refl, ([], refl))

    on_command-Agrees :
        (c : Command) (address : Address) (left : List ℕ)
        → Agrees
            (IsReachable c address)
            (on_command net debug local_addr c address left)
            (on_asked net debug local_addr (some c) address)
    on_command-Agrees tcp_connect address left = on_resolved-Agrees left _
    on_command-Agrees tcp_bind address left = (λ h. refl, ([], refl))
    on_command-Agrees udp_associate address left = (λ h. refl, ([], refl))

    at_destination : Command → Front Address → Front RelayRequest
    at_destination c front =
        behind front λ address rest. whole (record { command = c; endpoint_address = address }) rest

    on_destination-Agrees :
        (c : Command) (front : Front Address)
        → Agrees
            (IsRegularRequest (at_destination c front))
            (on_request net debug ending local_addr (at_destination c front))
            (on_destination net debug local_addr (some c) front)
    unfolding at_destination
    on_destination-Agrees c (whole address rest) = on_command-Agrees c address rest
    on_destination-Agrees c (wrong e rest) = (λ h. absurd h, ([], refl))
    on_destination-Agrees c cut = (λ h. refl, ([], refl))

    with_destination-Agrees :
        (code : ℕ) (asked : Option Command) (bs : List ℕ)
        → Agrees
            (IsRegularRequest (with_destination code asked bs))
            (on_request net debug ending local_addr (with_destination code asked bs))
            (on_destination net debug local_addr asked (destination bs))
    unfolding at_destination
    with_destination-Agrees code none bs = unknown_command (destination bs)
      where
        unknown_command :
            (front : Front Address)
            → Agrees ⊥
                (on_request net debug ending local_addr (with_destination code none bs))
                (on_destination net debug local_addr none front)
        unknown_command (whole address rest) = (λ h. absurd h, ([], refl))
        unknown_command (wrong e rest) = (λ h. absurd h, ([], refl))
        unknown_command cut = (λ h. absurd h, ([], refl))
    with_destination-Agrees code (some c) bs = on_destination-Agrees c (destination bs)

    checked_reserved-Agrees :
        (reserved code : ℕ) (bs : List ℕ) (valid : Bool) (e : Error)
        → Agrees
            (IsRegularRequest
              (if valid then with_destination code (command code) bs else wrong e bs))
            (on_request net debug ending local_addr
              (if valid then with_destination code (command code) bs else wrong e bs))
            (if valid
              then on_destination net debug local_addr (command code) (destination bs)
              else closes)
    checked_reserved-Agrees reserved code bs true e = with_destination-Agrees code (command code) bs
    checked_reserved-Agrees reserved code bs false e = (λ h. absurd h, ([], refl))

    request-Agrees :
        (bs : List ℕ)
        → Agrees
            (IsRegularRequest (request bs))
            (on_request net debug ending local_addr (request bs))
            (answer_request net debug local_addr bs)
    unfolding request answer_request
    request-Agrees [] = (λ h. refl, ([], refl))
    request-Agrees (version ∷ []) = (λ h. refl, ([], refl))
    request-Agrees (version ∷ code ∷ []) = (λ h. refl, ([], refl))
    request-Agrees (version ∷ code ∷ reserved ∷ bs) = by_version (version == 5)
      where
        by_version :
            (valid : Bool)
            → Agrees
                (IsRegularRequest (
                  if valid
                  then (if reserved == 0
                      then with_destination code (command code) bs
                      else wrong (invalid_value (reserved_value reserved)) bs)
                  else wrong (invalid_value (protocol_version version)) bs))
                (on_request net debug ending local_addr (
                  if valid
                  then (if reserved == 0
                      then with_destination code (command code) bs
                      else wrong (invalid_value (reserved_value reserved)) bs)
                  else wrong (invalid_value (protocol_version version)) bs))
                (if valid
                  then (if reserved == 0
                      then on_destination net debug local_addr (command code) (destination bs)
                      else closes)
                  else closes)
        by_version true = checked_reserved-Agrees reserved code bs (reserved == 0) _
        by_version false = (λ h. absurd h, ([], refl))

    on_offer-Agrees :
        (offers : Bool) (bs : List ℕ)
        → Agrees
            (IsFollowed offers bs)
            (on_methods net debug ending local_addr offers bs)
            (on_offer net debug local_addr offers bs)
    on_offer-Agrees true bs =
        let (equal, further) = request-Agrees bs in
        (λ h. ap (chosen net debug local_addr) (equal h), further)
    on_offer-Agrees false bs = (λ h. refl, ([], refl))

    all_known-Agrees :
        (unknown : Option ℕ) (m : ℕ) (ms bs : List ℕ)
        → Agrees
            (IsRegularGreeting (all_known unknown (m ∷ ms) bs))
            (on_greeting net debug ending local_addr (all_known unknown (m ∷ ms) bs))
            (on_listed net debug local_addr (whole (m ∷ ms) bs))
    all_known-Agrees none m ms bs = on_offer-Agrees (offers_none (m ∷ ms)) bs
    all_known-Agrees (some x) m ms bs =
        (λ h. absurd h, ((on_listed net debug local_addr (whole (m ∷ ms) bs)).events, refl))

    listed : Front (List ℕ) → Front (List ℕ)
    unfolding first_unknown
    listed front = behind front λ ms rest. all_known (first_unknown ms) ms rest

    listed-Agrees :
        (front : Front (List ℕ))
        → Agrees
            (IsRegularGreeting (listed front))
            (on_greeting net debug ending local_addr (listed front))
            (on_listed net debug local_addr front)
    unfolding listed
    listed-Agrees (whole [] bs) = unfold first_unknown offers_none in (λ h. absurd h, ([], refl))
    listed-Agrees (whole (m ∷ ms) bs) = all_known-Agrees (first_unknown (m ∷ ms)) m ms bs
    listed-Agrees (wrong e bs) = (λ h. absurd h, ([], refl))
    listed-Agrees cut = (λ h. refl, ([], refl))

    checked_version-Agrees :
        (valid : Bool) (e : Error) (front : Front (List ℕ)) (bs : List ℕ)
        → Agrees
            (IsRegularGreeting (if valid then listed front else wrong e bs))
            (on_greeting net debug ending local_addr (if valid then listed front else wrong e bs))
            (if valid then on_listed net debug local_addr front else closes)
    checked_version-Agrees true e front bs = listed-Agrees front
    checked_version-Agrees false e front bs = (λ h. absurd h, ([], refl))

    greeting-Agrees :
        (bs : List ℕ)
        → Agrees
            (IsRegular bs)
            (on_greeting net debug ending local_addr (greeting bs))
            (answer_client net debug local_addr bs)
    unfolding greeting answer_client listed
    greeting-Agrees [] = (λ h. refl, ([], refl))
    greeting-Agrees (version ∷ []) = (λ h. refl, ([], refl))
    greeting-Agrees (version ∷ nmethods ∷ bs) =
        checked_version-Agrees (version == 5) _ (exactly nmethods bs) bs

    module _ (order : HashOrder) (peer_addr : SocketAddr) where
      abbrev at_end : List ℕ → Session
      at_end incoming =
          (handle net debug order (connected_to ending peer_addr local_addr incoming [] [])).1

      -- For a client on which the program and the RFC agree (`IsRegular`) and that takes every write,
      -- however its stream ends, in any build and with hash tables in any order, the handler is the
      -- server of RFC 1928: it writes what this server writes, dials and tunnels what it does, and is
      -- through with the client: it returns, or runs the tunnel. The address in its replies is that to
      -- which the client has connected.
      pub handle-answer_client :
          (incoming : List ℕ)
          → IsRegular incoming
          → (v : Verdict net debug) × (handle net debug order
                (connected_to ending peer_addr local_addr incoming [] [])
              ≡ enacted net debug ending peer_addr local_addr v [] [])
            × (conduct_of v ≡ answer_client net debug local_addr incoming)
      handle-answer_client incoming regular = (
        on_greeting net debug ending local_addr (greeting incoming),
        handle-on_greeting net debug order ending peer_addr local_addr incoming [] [],
        (greeting-Agrees incoming).0 regular,
      )

      -- Whatever a client sends, the handler dials and tunnels a front part of what the server of RFC
      -- 1928 does.
      pub handle-front :
          (incoming : List ℕ)
          → (rest : List Event) × ((answer_client net debug local_addr incoming).events
              ≡ (at_end incoming).events ++ rest)
      handle-front incoming =
          let (rest, e) = (greeting-Agrees incoming).1 in
          (
            rest,
            e
                ∙ ap (λ events. events ++ rest)
                    (sym (handle-events_of net debug order ending peer_addr local_addr incoming)),
          )

      -- And exactly that for a client on which they agree.
      pub handle-events :
          (incoming : List ℕ)
          → IsRegular incoming
          → (at_end incoming).events ≡ (answer_client net debug local_addr incoming).events
      handle-events incoming regular =
          handle-events_of net debug order ending peer_addr local_addr incoming
          ∙ ap (λ c. c.events) ((greeting-Agrees incoming).0 regular)
