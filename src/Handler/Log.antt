-- ===== src/Handler/Log.antt =====
-- What the handler of server/handlers/socks5.rs logs of a request that it refuses and of a tunnel.
use lurk.Address.{Address, SocketAddr}
use lurk.Common.{[], ◌∷◌, List, ℕ}
use lurk.Error.{err, ok, panic, Error, Result}
use lurk.Log.{
  log_request_handling_error, log_tunnel_closed, log_tunnel_closed_with_error, log_tunnel_created,
  Displays, LogRecord,
}
use lurk.Socks5.Request.{RelayRequest}
use lurk.Socks5.Response.{RelayResponse}

module _ (displays : Displays) (peer bound : SocketAddr) where
  -- By what the tunnel returned.
  tunnel_end : Address → Result (ℕ × ℕ) → List LogRecord
  tunnel_end address (ok (l2r, r2l)) = log_tunnel_closed displays peer bound address l2r r2l ∷ []
  tunnel_end address (err e) = log_tunnel_closed_with_error displays peer bound address e ∷ []
  tunnel_end address panic = []

  unfoldable pub tunnel_log : Address → Result (ℕ × ℕ) → List LogRecord
  unfolding tunnel_end
  tunnel_log address result =
      log_tunnel_created displays peer bound address ∷ tunnel_end address result

  -- In `on_relay_request_handling_error`, before the response is written.
  unfoldable pub error_log : Error → RelayRequest → RelayResponse → LogRecord
  error_log e request response =
      log_request_handling_error displays peer (displays.error_text e) request response
