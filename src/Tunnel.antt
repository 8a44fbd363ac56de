-- ===== src/Tunnel.antt =====
-- io/tunnel.rs: the relay between a client's stream and an outgoing connection.
use lurk.Error.{from_io, Result}
use lurk.Stream.{Stream}
use lurk.Net.{Net}
use lurk.Common.{ℕ}

-- `l2r` is the client's side, `r2l` the endpoint's.
pub record LurkTunnel (net : Net) : Type 0 where
  pub l2r : Stream
  pub r2l : net.Socket

abbrev pub new_tunnel : {net : Net} → Stream → net.Socket → LurkTunnel net
new_tunnel l2r r2l = record { l2r = l2r; r2l = r2l }

-- `copy_bidirectional(self.l2r, self.r2l).await.map_err(anyhow::Error::from)`, which leaves the two
-- streams behind.
unfoldable pub run : (net : Net) → LurkTunnel net → Result (ℕ × ℕ) × LurkTunnel net
run net tunnel =
    let (copied, l2r, r2l) = net.copy_bidirectional tunnel.l2r tunnel.r2l in
    (from_io copied, record { l2r = l2r; r2l = r2l })
