-- ===== src/Tcp/Labels.antt =====
-- Which connections are taken for HTTP, which for SOCKS5, and that labelling takes no byte.
use lurk.Stream.Laws.{feed}
use lurk.Error.{unexpected_eof, kind_message, err, ok, done, IoResult}
use lurk.Address.{SocketAddr}
use lurk.Stream.{Stream}
use lurk.Tcp.{unknown, socks5, http, accept, label_of}
use lurk.Common.{◌≢◌, none, ℕ, ◌≡◌, refl, ◌+◌, ◌↔◌, ◌⊎◌, List, [], ◌∷◌, arith}

-- The first letters of GET, HEAD, POST (and PUT, PATCH), DELETE, CONNECT, OPTIONS, TRACE.
abbrev pub method_initials : List ℕ
method_initials = b'G' ∷ b'H' ∷ b'P' ∷ b'D' ∷ b'C' ∷ b'O' ∷ b'T' ∷ []

-- The byte is one of the letters, or its small letter.
abbrev pub IsInitial : ℕ → List ℕ → Type 0
IsInitial b [] = ⊥
IsInitial b (c ∷ cs) = (b ≡ c) ⊎ ((b ≡ c + 32) ⊎ IsInitial b cs)

-- A byte is labelled HTTP exactly if it is the first letter of an HTTP method, in either case;
-- SOCKS5 exactly if it is 5; and every other byte is labelled unknown, with the byte.
pub label_of_iff :
    (b : ℕ)
    → ((label_of b ≡ http) ↔ IsInitial b method_initials)
      × ((label_of b ≡ socks5) ↔ (b ≡ 5))
      × ((v : ℕ) → (label_of b ≡ unknown v) ↔ ((v ≡ b) × (b ≢ 5) × ¬ IsInitial b method_initials))
unfolding label_of
label_of_iff b = (ground arith, ground arith, λ v. ground arith)

-- Whatever the peer sends first, the accepted connection has the label of that byte and keeps the
-- whole stream, the labelled byte included; it has the two addresses of the socket.
pub accept_lem :
    (b : ℕ) (bytes : List ℕ) (s : Stream) (peer local : SocketAddr)
    → accept (done (record { stream = feed (b ∷ bytes) s; peer = done peer; local = done local }))
      ≡ ok (record {
        stream = feed (b ∷ bytes) s;
        label = label_of b;
        peer_addr = peer;
        local_addr = local;
      })
unfolding accept
accept_lem b bytes s peer local = refl

-- A peer that closes without a byte is not accepted: the error holds a kind, and no `io::Error`.
accept_closed :
    (s : Stream) (peer local : IoResult SocketAddr)
    → accept (
        done (record {
          stream = record s { incoming = []; ending = none };
          peer = peer;
          local = local;
        }))
      ≡ err (kind_message unexpected_eof)
unfolding accept
accept_closed s peer local = refl
