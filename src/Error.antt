-- ===== src/Error.antt =====
-- common/error.rs, with the enumerations that its errors mention (`LurkAuthMethod` of auth.rs and
-- `Command` of proto/socks5/mod.rs), and `anyhow::Result` as the result of every fallible function.
use lurk.Common.{◌⊎◌, inl, inr, ℕ, ◌≡◌, refl, ap, List, Bool, true, false, Option, some}

-- auth.rs
pub data LurkAuthMethod : Type 0 where
  none gss_api password : LurkAuthMethod

-- proto/socks5/mod.rs
pub data Command : Type 0 where
  tcp_connect tcp_bind udp_associate : Command

pub data InvalidValue : Type 0 where
  reserved_value address_type protocol_version auth_method socks_command : ℕ → InvalidValue

pub data LurkError : Type 0 where
  data_error : InvalidValue → LurkError
  -- `FromUtf8Error` holds the bytes that are no UTF-8.
  domain_name_decoding_failed : List ℕ → LurkError
  unsupported_socks_command : Command → LurkError
  unsupported_auth_method : LurkAuthMethod → LurkError
  unresolved_domain_name : List ℕ → LurkError
  no_acceptable_authentication_method : LurkError

-- `std::io::ErrorKind`: the kinds that the program names, and every other one.
pub data ErrorKind : Type 0 where
  connection_refused connection_aborted unexpected_eof addr_not_available : ErrorKind
  other_kind : ℕ → ErrorKind

-- `anyhow::Error`, by the value that it holds and that `downcast` finds. `anyhow!(kind)` and
-- `bail!(kind)` with an `io::ErrorKind` hold the kind as a message: it is no `io::Error`.
pub data Error : Type 0 where
  lurk_error : LurkError → Error
  invalid_value : InvalidValue → Error
  io_error : ErrorKind → Error
  kind_message : ErrorKind → Error
  method_not_selected unknown_tcp_connection : Error
  foreign : ℕ → Error

-- `panic` is a failed assertion, an `expect` on `None`, or `todo!`.
pub data Result {ℓ} (A : Type ℓ) : Type ℓ where
  ok : A → Result A
  err : Error → Result A
  panic : Result A

-- Code that reads and changes a state `S`; what it changed before an error stays changed.
abbrev pub M : Type 0 → Type 0 → Type 0
M S A = S → Result A × S

abbrev pub continue {ℓ} :
    {S : Type ℓ} {A B : Type ℓ} → Result A × S → (A → S → Result B × S) → Result B × S
continue (ok a, s) f = f a s
continue (err e, s) f = (err e, s)
continue (panic, s) f = (panic, s)

infixl 5 ◌>>=◌ ◌>>◌
abbrev pub ◌>>=◌ : {S A B : Type 0} → M S A → (A → M S B) → M S B
◌>>=◌ m f s = continue (m s) f

abbrev pub ◌>>◌ : {S B : Type 0} → M S (Unit {0}) → M S B → M S B
◌>>◌ m k s = continue (m s) (λ _. k)

abbrev pub pure : {S A : Type 0} → A → M S A
pure a s = (ok a, s)

abbrev pub lift : {S A : Type 0} → Result A → M S A
lift r s = (r, s)

abbrev pub fail : {S A : Type 0} → Error → M S A
fail e s = (err e, s)

-- `ensure!(test, error)`
abbrev pub ensure : {S : Type 0} → Bool → Error → M S (Unit {0})
ensure true e s = (ok tt, s)
ensure false e s = (err e, s)

-- Fallible code without a state.
abbrev pub and_then {ℓ κ} : {A : Type ℓ} {B : Type κ} → Result A → (A → Result B) → Result B
and_then (ok a) f = f a
and_then (err e) f = err e
and_then panic f = panic

-- `debug_assert!(test)`, where `debug` says whether the build has debug assertions.
abbrev pub debug_assert : Bool → Bool → Result (Unit {0})
debug_assert debug true = ok tt
debug_assert true false = panic
debug_assert false false = ok tt

-- `option.expect(…)`
abbrev pub expect {ℓ} : {A : Type ℓ} → Option A → Result A
expect Option.none = panic
expect (some a) = ok a

-- `assert!`
abbrev pub assert : Bool → Result (Unit {0})
assert true = ok tt
assert false = panic

-- `result.unwrap()`, and on the result of an operation
abbrev pub unwrap {ℓ} : {A : Type ℓ} → Result A → Result A
unwrap (err e) = panic
unwrap (ok a) = ok a
unwrap panic = panic

abbrev pub unwrapped : {S A : Type 0} → M S A → M S A
unwrapped m s = let (r, s') = m s in (unwrap r, s')

-- A call of the operating system that may fail, and `?` on it.
pub data IoResult {ℓ} (A : Type ℓ) : Type ℓ where
  done : A → IoResult A
  failed : ErrorKind → IoResult A

abbrev pub from_io {ℓ} : {A : Type ℓ} → IoResult A → Result A
from_io (done a) = ok a
from_io (failed kind) = err (io_error kind)

-- A chain that succeeded: its first step did, and so did the rest.
pub continue-eq-ok :
    {S A B : Type 0} (r : Result A × S) (f : A → M S B) {b : B} {s' : S}
    → continue r f ≡ (ok b, s')
    → (a : A) × (s₁ : S) × (r ≡ (ok a, s₁)) × (f a s₁ ≡ (ok b, s'))
continue-eq-ok (ok a, s) f h = (a, s, refl, h)
continue-eq-ok (err e, s) f h = cc (ap (λ p. p.0) h)
continue-eq-ok (panic, s) f h = cc (ap (λ p. p.0) h)

abbrev value_or : {A : Type 0} → A → Result A → A
value_or d (ok a) = a
value_or d (err e) = d
value_or d panic = d

pub ok-injective : {A : Type 0} {a b : A} → ok a ≡ ok b → a ≡ b
ok-injective {a} e = ap (value_or a) e

-- The value of an outcome that is equal to another.
pub result_of : {S A : Type 0} {a b : A} {s t : S} → (pure a s) ≡ (ok b, t) → a ≡ b
result_of {a} e = ap (λ p. value_or a p.0) e

pub result_of_lift : {S A : Type 0} {r q : Result A} {s t : S} → lift r s ≡ (q, t) → r ≡ q
result_of_lift e = ap (λ p. p.0) e

pub and_then-eq-ok {ℓ κ} :
    {A : Type ℓ} {B : Type κ} (r : Result A) (f : A → Result B) {b : B}
    → and_then r f ≡ ok b
    → (a : A) × (r ≡ ok a) × (f a ≡ ok b)
and_then-eq-ok (ok a) f h = (a, refl, h)
and_then-eq-ok (err e) f h = cc
and_then-eq-ok panic f h = cc

-- To succeed with nothing, after a step that returns nothing, changes nothing.
pub continue_assoc :
    {S A B C : Type 0} (r : Result A × S) (f : A → M S B) (g : B → M S C)
    → continue (continue r f) g ≡ continue r (λ a s. continue (f a s) g)
continue_assoc (ok a, s) f g = refl
continue_assoc (err e, s) f g = refl
continue_assoc (panic, s) f g = refl

pub continue-pure : {S : Type 0} (r : Result (Unit {0}) × S) → continue r (λ _ s. (ok tt, s)) ≡ r
continue-pure (ok u, s) = refl
continue-pure (err e, s) = refl
continue-pure (panic, s) = refl

-- Where the rest changes nothing, a chain leaves the state of its first step.
pub continue-state :
    {S A B : Type 0} (r : Result A × S) (f : A → M S B)
    → ((a : A) (s : S) → (f a s).1 ≡ s)
    → (continue r f).1 ≡ r.1
continue-state (ok a, s) f h = h a s
continue-state (err e, s) f h = refl
continue-state (panic, s) f h = refl

-- A chain either goes on from a success, or stops in the state that its first step left.
pub continue-cases :
    {S A B : Type 0} (r : Result A × S) (f : A → M S B)
    → ((a : A) × (s : S) × (r ≡ (ok a, s)) × (continue r f ≡ f a s)) ⊎ ((continue r f).1 ≡ r.1)
continue-cases (ok a, s) f = inl (a, s, refl, refl)
continue-cases (err e, s) f = inr refl
continue-cases (panic, s) f = inr refl

-- A result is a value, or stops every chain that goes on from it.
pub Result-cases {ℓ} :
    {A : Type ℓ} (r : Result A)
    → ((a : A) × (r ≡ ok a)) ⊎ (((e : Error) × (r ≡ err e)) ⊎ (r ≡ panic))
Result-cases (ok a) = inl (a, refl)
Result-cases (err e) = inr (inl (e, refl))
Result-cases panic = inr (inr refl)
