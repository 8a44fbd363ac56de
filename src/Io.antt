-- ===== src/Io.antt =====
-- io/mod.rs: what is read from a stream as a request, and what is written to one as a response. The
-- handler takes the messages of a protocol through these.
use lurk.Error.{M}
use lurk.Stream.{Stream}

pub record LurkRequest (A : Type 0) : Type 0 where
  pub read_from : M Stream A

pub record LurkResponse (A : Type 0) : Type 0 where
  pub write_to : A → M Stream (Unit {0})
