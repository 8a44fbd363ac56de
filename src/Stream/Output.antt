-- ===== src/Stream/Output.antt =====
-- What code leaves behind as written: nothing where it only reads, and a front part of what it writes.
use lurk.Common.{
  if◌then◌else◌, false, take-append-drop, drop, take, inr, inl, length, leb, Bool-cases, append-nil,
  append_assoc, sym, none, true, ap, [], refl, some, ◌∙◌, ◌++◌, ◌≡◌, Option, List, ℕ, Bool,
}
use lurk.Error.{panic, err, ensure, ok, ErrorKind, Error, continue, Result, M}
use lurk.Stream.{Stream, read_exact, read_u8, read_be, write_all, consume, accept_write}

-- Whatever it reads, and however it ends, nothing is written.
abbrev pub Quiet : {A : Type 0} → M Stream A → Type 0
Quiet m = (s : Stream) → (m s).1.written ≡ s.written

module _ {A B : Type 0} where
  continue-written :
      (r : Result A × Stream) (f : A → M Stream B)
      → ((a : A) → Quiet (f a))
      → (continue r f).1.written ≡ r.1.written
  continue-written (ok a, s) f q = q a s
  continue-written (err e, s) f q = refl
  continue-written (panic, s) f q = refl

  pub >>=-Quiet :
      (m : M Stream A) (f : A → M Stream B)
      → Quiet m
      → ((a : A) → Quiet (f a))
      → Quiet (λ s. continue (m s) f)
  >>=-Quiet m f q k s = continue-written (m s) f k ∙ q s

pub if-Quiet :
    {A : Type 0} (b : Bool) (m n : M Stream A)
    → Quiet m
    → Quiet n
    → Quiet (λ s. (if b then m else n) s)
if-Quiet true m n q k s = q s
if-Quiet false m n q k s = k s

pub ensure-Quiet : (b : Bool) (e : Error) → Quiet (ensure b e)
ensure-Quiet true e s = refl
ensure-Quiet false e s = refl

consume-written :
    (s : Stream) (cut : Option (List ℕ × List ℕ)) → (consume s cut).1.written ≡ s.written
consume-written s none = refl
consume-written s (some (front, back)) = refl

pub read_exact-Quiet : (n : ℕ) → Quiet (read_exact n)
unfolding read_exact
read_exact-Quiet n s = consume-written s _

pub read_u8-Quiet : Quiet read_u8
unfolding read_u8
read_u8-Quiet = >>=-Quiet (read_exact 1) _ (read_exact-Quiet 1) (λ bytes s. refl)

pub read_be-Quiet : (n : ℕ) → Quiet (read_be n)
unfolding read_be
read_be-Quiet n = >>=-Quiet (read_exact n) _ (read_exact-Quiet n) (λ bytes s. refl)

-- What was written grew by a front part of these bytes.
pub record Sent (bytes before after : List ℕ) : Type 0 where
  pub sent : List ℕ
  unsent : List ℕ
  pub whole : bytes ≡ sent ++ unsent
  pub appended : after ≡ before ++ sent

Sent-all : (bytes before : List ℕ) → Sent bytes before (before ++ bytes)
Sent-all bytes before = record {
  sent = bytes;
  unsent = [];
  whole = sym (append-nil bytes);
  appended = refl;
}

pub Sent-none : (bytes before after : List ℕ) → after ≡ before → Sent bytes before after
Sent-none bytes before after e = record {
  sent = [];
  unsent = bytes;
  whole = refl;
  appended = e ∙ sym (append-nil before);
}

accept_write-Sent :
    (sink : Option (ℕ × ErrorKind)) (bytes : List ℕ) (s : Stream)
    → Sent bytes s.written (accept_write sink bytes s).1.written
accept_write-Sent none bytes s = Sent-all bytes s.written
accept_write-Sent (some (room, kind)) bytes s = elim (Bool-cases (leb (length bytes) room)) [
  | inl fits ↦ rw fits (Sent-all bytes s.written)
  | inr full ↦ rw full (record {
    sent = take room bytes;
    unsent = drop room bytes;
    whole = sym (take-append-drop room bytes);
    appended = refl;
  })
]

pub write_all-Sent :
    (bytes : List ℕ) (s : Stream) → Sent bytes s.written (write_all bytes s).1.written
unfolding write_all
write_all-Sent bytes s = accept_write-Sent s.sink bytes s

-- Before what was sent, all of another text was written.
pub Sent-append :
    (front bytes before after : List ℕ)
    → Sent bytes (before ++ front) after
    → Sent (front ++ bytes) before after
Sent-append front bytes before after h = record {
  sent = front ++ h.sent;
  unsent = h.unsent;
  whole = ap (λ t. front ++ t) h.whole ∙ sym (append_assoc front h.sent h.unsent);
  appended = h.appended ∙ append_assoc before front h.sent;
}

-- A text of which a part was sent may be longer.
pub Sent-longer :
    (bytes more before after : List ℕ) → Sent bytes before after → Sent (bytes ++ more) before after
Sent-longer bytes more before after h = record {
  sent = h.sent;
  unsent = h.unsent ++ more;
  whole = ap (λ t. t ++ more) h.whole ∙ append_assoc h.sent h.unsent more;
  appended = h.appended;
}
