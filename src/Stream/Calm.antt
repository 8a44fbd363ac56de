-- ===== src/Stream/Calm.antt =====
-- Code that never panics, whatever it reads and wherever writing fails.
use lurk.Common.{if◌then◌else◌, none, some, Bool, List, Option, true, false, ℕ, leb, length}
use lurk.Error.{
  continue, ensure, err, ok, panic, and_then, Error, ErrorKind, M, Result, IoResult, from_io, done,
  failed,
}
use lurk.Stream.{accept_write, consume, read_be, read_exact, read_u8, write_all, Stream}

abbrev pub IsCalm {ℓ} : {A : Type ℓ} → Result A → Type 0
IsCalm (ok a) = Unit
IsCalm (err e) = Unit
IsCalm panic = ⊥

-- In every state.
abbrev pub Calm : {S A : Type 0} → M S A → Type 0
Calm {S} m = (s : S) → IsCalm (m s).0

module _ {S A B : Type 0} where
  pub continue-IsCalm :
      (r : Result A × S) (f : A → M S B)
      → IsCalm r.0
      → ((a : A) → Calm (f a))
      → IsCalm (continue r f).0
  continue-IsCalm (ok a, s) f h k = k a s
  continue-IsCalm (err e, s) f h k = tt
  continue-IsCalm (panic, s) f h k = h

  pub >>=-Calm :
      (m : M S A) (f : A → M S B) → Calm m → ((a : A) → Calm (f a)) → Calm (λ s. continue (m s) f)
  >>=-Calm m f h k s = continue-IsCalm (m s) f (h s) k

pub and_then-IsCalm {ℓ κ} :
    {A : Type ℓ} {B : Type κ} (r : Result A) (f : A → Result B)
    → IsCalm r
    → ((a : A) → IsCalm (f a))
    → IsCalm (and_then r f)
and_then-IsCalm (ok a) f h k = k a
and_then-IsCalm (err e) f h k = tt
and_then-IsCalm panic f h k = h

pub if-IsCalm {ℓ} :
    {A : Type ℓ} (b : Bool) (x y : Result A) → IsCalm x → IsCalm y → IsCalm (if b then x else y)
if-IsCalm true x y h k = h
if-IsCalm false x y h k = k

pub if-Calm :
    {S A : Type 0} (b : Bool) (m n : M S A) → Calm m → Calm n → Calm (λ s. (if b then m else n) s)
if-Calm true m n h k = h
if-Calm false m n h k = k

pub from_io-IsCalm {ℓ} : {A : Type ℓ} (r : IoResult A) → IsCalm (from_io r)
from_io-IsCalm (done a) = tt
from_io-IsCalm (failed kind) = tt

pub ensure-Calm : {S : Type 0} (b : Bool) (e : Error) → Calm {S = S} (ensure b e)
ensure-Calm true e s = tt
ensure-Calm false e s = tt

consume-IsCalm : (s : Stream) (cut : Option (List ℕ × List ℕ)) → IsCalm (consume s cut).0
consume-IsCalm s none = tt
consume-IsCalm s (some (front, back)) = tt

pub read_exact-Calm : (n : ℕ) → Calm (read_exact n)
unfolding read_exact
read_exact-Calm n s = consume-IsCalm s _

pub read_u8-Calm : Calm read_u8
unfolding read_u8
read_u8-Calm = >>=-Calm (read_exact 1) _ (read_exact-Calm 1) (λ bytes s. tt)

pub read_be-Calm : (n : ℕ) → Calm (read_be n)
unfolding read_be
read_be-Calm n = >>=-Calm (read_exact n) _ (read_exact-Calm n) (λ bytes s. tt)

fits-IsCalm :
    (b : Bool) (kind : ErrorKind) (s t : Stream)
    → IsCalm
        (if b
          then (let r : Result (Unit {0}) × Stream = (ok tt, s) in r)
          else (err (Error.io_error kind), t)).0
fits-IsCalm true kind s t = tt
fits-IsCalm false kind s t = tt

accept_write-IsCalm :
    (sink : Option (ℕ × ErrorKind)) (bytes : List ℕ) (s : Stream)
    → IsCalm (accept_write sink bytes s).0
accept_write-IsCalm none bytes s = tt
accept_write-IsCalm (some (room, kind)) bytes s = fits-IsCalm (leb (length bytes) room) kind _ _

pub write_all-Calm : (bytes : List ℕ) → Calm (write_all bytes)
unfolding write_all
write_all-Calm bytes s = accept_write-IsCalm s.sink bytes s
