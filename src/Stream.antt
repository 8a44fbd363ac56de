-- ===== src/Stream.antt =====
-- Byte streams: what the code uses of tokio's `AsyncReadExt` and `AsyncWriteExt` on one connection.
pub mod Laws
pub mod Output
pub mod Calm
use lurk.Common.{
  ℕ, zero, suc, ◌-◌, List, [], ◌∷◌, ◌++◌, Option, none, some, leb, length, take, split_at,
  if◌then◌else◌,
}
use lurk.Common.Bytes.{from_be_bytes}
use lurk.Error.{Error, ErrorKind, io_error, unexpected_eof, Result, ok, err, M, ◌>>=◌, pure}

-- `incoming` is all that the peer still sends, and `ending` how it stops: by closing, or with an
-- error. `sink` is `none` where the peer takes every write, and otherwise the number of bytes that
-- it still takes before writes fail, with the error.
pub record Stream : Type 0 where
  pub incoming : List ℕ
  pub ending : Option ErrorKind
  pub written : List ℕ
  pub sink : Option (ℕ × ErrorKind)

abbrev pub eof_error : Option ErrorKind → Error
eof_error none = io_error unexpected_eof
eof_error (some kind) = io_error kind

abbrev pub consume : Stream → Option (List ℕ × List ℕ) → Result (List ℕ) × Stream
consume s none = (err (eof_error s.ending), record s { incoming = [] })
consume s (some (front, back)) = (ok front, record s { incoming = back })

-- Waits for `n` bytes. A stream that ends before has lost what it had.
unfoldable pub read_exact : ℕ → M Stream (List ℕ)
read_exact n s = consume s (split_at n s.incoming)

-- `bytes[i]`; the code only asks for bytes that are there.
abbrev pub byte_at : List ℕ → ℕ → ℕ
byte_at [] i = 0
byte_at (b ∷ bs) zero = b
byte_at (b ∷ bs) (suc i) = byte_at bs i

unfoldable pub read_u8 : M Stream ℕ
unfolding read_exact
read_u8 = do bytes ← read_exact 1; pure (byte_at bytes 0)

-- `read_u16`, `read_u32` and `read_u128` are big-endian integers of 2, 4 and 16 bytes.
unfoldable pub read_be : ℕ → M Stream ℕ
unfolding read_exact
read_be n = do bytes ← read_exact n; pure (from_be_bytes bytes)

abbrev pub accept_write : Option (ℕ × ErrorKind) → List ℕ → Stream → Result (Unit {0}) × Stream
accept_write none bytes s = (ok tt, record s { written = s.written ++ bytes })
accept_write (some (room, kind)) bytes s =
    if leb (length bytes) room
    then (ok tt, record s { written = s.written ++ bytes; sink = some (room - length bytes, kind) })
    else (
      err (io_error kind),
      record s { written = s.written ++ take room bytes; sink = some (0, kind) },
    )

unfoldable pub write_all : List ℕ → M Stream (Unit {0})
write_all bytes s = accept_write s.sink bytes s
