-- ===== src/Tcp/Tests.antt =====
-- The theorems on labels and accepted connections at concrete inputs.
use lurk.Common.{◌≢◌, none, ℕ, [], ◌↔◌, ◌∷◌, ◌≡◌}
use lurk.Address.{v4, SocketAddr}
use lurk.Stream.{Stream}
use lurk.Tcp.Labels.{label_of_iff, method_initials, IsInitial}
use lurk.Tcp.{label_of, socks5, http, unknown}

abbrev stream : Stream
stream = record { incoming = 1 ∷ []; ending = none; written = []; sink = none }

abbrev client : SocketAddr
client = v4 (record { ip = 0x7f00_0001; port = 5000 })

abbrev proxy : SocketAddr
proxy = v4 (record { ip = 0x7f00_0001; port = 1080 })

abbrev letter_g : ℕ
letter_g = b'G'

label_of_iff_example :
    ((label_of letter_g ≡ http) ↔ IsInitial letter_g method_initials)
    × ((label_of letter_g ≡ socks5) ↔ (letter_g ≡ 5))
    × ((v : ℕ)
        → (label_of letter_g ≡ unknown v)
          ↔ ((v ≡ letter_g) × (letter_g ≢ 5) × ¬ IsInitial letter_g method_initials))
label_of_iff_example = label_of_iff letter_g
