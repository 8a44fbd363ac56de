-- ===== src/Api/Tests.antt =====
-- The theorems on the endpoint at concrete inputs.
use lurk.Error.{io_error, ErrorKind, failed, done}
use lurk.Address.{v4, SocketAddr}
use lurk.Common.{[], none, ◌∷◌, List, some, ◌≡◌, Option, ℕ}
use lurk.Api.{run_endpoint, LurkNodeStatus}
use lurk.Api.Healthcheck.{run_endpoint-append}

abbrev pub to_string : LurkNodeStatus → Option (List ℕ)
to_string status = elim status.started_utc_ts [ none ↦ some [] | some ts ↦ some (ts ∷ []) ]

abbrev pub client : SocketAddr
client = v4 (record { ip = 0x7f00_0001; port = 5000 })

run_endpoint-append_example :
    run_endpoint (done tt) (done client ∷ failed ErrorKind.connection_aborted ∷ done client ∷ [])
    ≡ (some (io_error ErrorKind.connection_aborted), client ∷ [])
run_endpoint-append_example =
    run_endpoint-append (client ∷ []) ErrorKind.connection_aborted (done client ∷ [])
