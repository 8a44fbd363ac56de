-- ===== src/Conformance.antt =====
-- The repository's own tests, each as a statement on the model, and a proof of it. A mock stream is a
-- stream that holds the bytes which the test feeds, and what a test expects to be written is compared
-- with what was written. `unwrap` and `expect` in a test say that there is a value.
pub mod Protocol
pub mod Network
pub mod Handshakes
use lurk.Error.{err, lurk_error, ok, panic, Error, LurkError, Result}
use lurk.Stream.{Stream}
use lurk.Common.{◌≡◌, none, ℕ, List, []}

-- common/assertions.rs
abbrev pub AssertLurkErr : LurkError → Error → Type 0
AssertLurkErr expected result = result ≡ lurk_error expected

abbrev pub BailUnlessLurkErr {ℓ} : {A : Type ℓ} → LurkError → Result A → Type 0
BailUnlessLurkErr expected_lurk_err (err e) = AssertLurkErr expected_lurk_err e
BailUnlessLurkErr expected_lurk_err (ok a) = ⊥
BailUnlessLurkErr expected_lurk_err panic = ⊥

abbrev pub mock : List ℕ → Stream
mock incoming = record { incoming = incoming; ending = none; written = []; sink = none }
