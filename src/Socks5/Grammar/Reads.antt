-- ===== src/Socks5/Grammar/Reads.antt =====
-- That the readers of the code read what the grammar says, from any stream.
use lurk.Socks5.Grammar.{
  behind, command, cut, destination, exactly, front_of, ip_behind, name_behind, port_behind,
  request, whole, with_destination, wrong, Front,
}
use lurk.Socks5.Request.{read_relay}
use lurk.Socks5.{try_from}
use lurk.Address.{
  domain_name, from_utf8, read_address, read_domain_name, read_from, read_ipv4, read_ipv6, Address,
}
use lurk.Error.{
  Command, continue, continue_assoc, data_error, domain_name_decoding_failed, err, lurk_error, ok,
  InvalidValue, M, Result,
}
use lurk.Stream.{consume, eof_error, read_be, read_exact, read_u8, Stream}
use lurk.Stream.Laws.{feed}
use lurk.Common.{
  ap, arith, refl, inl, inr, none, some, split_at, Bool-cases, true, false, ◌∙◌, ◌≡◌, ◌==◌, List,
  Option, [], ◌∷◌, ℕ, Bool, if◌then◌else◌,
}
use lurk.Common.Bytes.{from_be_bytes}
use lurk.Common.Utf8.{is_utf8}

-- What a reader returns, and what it leaves of the stream.
abbrev pub as_read : {A : Type 0} → Front A → M Stream A
as_read (whole a bs) s = (ok a, feed bs s)
as_read (wrong e bs) s = (err e, feed bs s)
as_read cut s = (err (eof_error s.ending), feed [] s)

consume-front_of :
    (o : Option (List ℕ × List ℕ)) (bs : List ℕ) (s : Stream)
    → consume (feed bs s) o ≡ as_read (front_of o) s
consume-front_of none bs s = refl
consume-front_of (some (front, back)) bs s = refl

-- One part after another: the rule for a `do` block.
continue-behind :
    {A B : Type 0} (read : Result A × Stream) (front : Front A) (rest : A → M Stream B)
    (more : A → List ℕ → Front B) (s : Stream)
    → read ≡ as_read front s
    → ((a : A) (bs : List ℕ) → rest a (feed bs s) ≡ as_read (more a bs) s)
    → continue read rest ≡ as_read (behind front more) s
continue-behind read (whole a bs) rest more s e h = rw e (h a bs)
continue-behind read (wrong x bs) rest more s e h = rw e
continue-behind read cut rest more s e h = rw e

pub read_exact-exactly :
    (n : ℕ) (bs : List ℕ) (s : Stream) → read_exact n (feed bs s) ≡ as_read (exactly n bs) s
unfolding read_exact
read_exact-exactly n bs s = consume-front_of (split_at n bs) bs s

read_port :
    (address : ℕ → Address) (bs : List ℕ) (s : Stream)
    → continue (read_be 2 (feed bs s)) (λ port s'. (ok (address port), s'))
      ≡ as_read (port_behind address bs) s
unfolding read_be read_exact port_behind from_be_bytes
read_port address [] s = refl
read_port address (a ∷ []) s = refl
read_port address (a ∷ b ∷ bs) s = ap (λ n. (ok (address n), feed bs s)) (omega arith)

read_ip :
    (n : ℕ) (address : ℕ → ℕ → Address) (bs : List ℕ) (s : Stream)
    → continue
        (continue (read_exact n (feed bs s)) (λ bytes s'. (ok (from_be_bytes bytes), s')))
        (λ ip s₁. continue (read_be 2 s₁) (λ port s₂. (ok (address ip port), s₂)))
      ≡ as_read (ip_behind n address bs) s
read_ip n address bs s =
    continue_assoc (read_exact n (feed bs s)) _ _
    ∙ continue-behind (read_exact n (feed bs s)) (exactly n bs) _
        (λ ip rest. port_behind (address (from_be_bytes ip)) rest) s (read_exact-exactly n bs s)
        λ ip rest. read_port (address (from_be_bytes ip)) rest s

read_name :
    (name : List ℕ) (valid : Bool) (bs : List ℕ) (s : Stream)
    → continue
        (if valid then ok name else err (lurk_error (domain_name_decoding_failed name)), feed bs s)
        (λ name s₁. continue (read_be 2 s₁) (λ port s₂. (ok (domain_name name port), s₂)))
      ≡ as_read
          (if valid
            then port_behind (domain_name name) bs
            else wrong (lurk_error (domain_name_decoding_failed name)) bs)
          s
read_name name true bs s = read_port (domain_name name) bs s
read_name name false bs s = refl

read_domain_name-name_behind :
    (bs : List ℕ) (s : Stream)
    → continue (read_u8 (feed bs s)) read_domain_name ≡ as_read (name_behind bs) s
unfolding read_u8 read_exact read_domain_name name_behind from_utf8
read_domain_name-name_behind [] s = refl
read_domain_name-name_behind (len ∷ bs) s =
    continue-behind (read_exact len (feed bs s)) (exactly len bs) _ _ s
      (read_exact-exactly len bs s) λ name rest. read_name name (is_utf8 name) rest s

by_type :
    (address_type : ℕ) (bs : List ℕ) (s : Stream)
    → read_address address_type (feed bs s) ≡ as_read (destination (address_type ∷ bs)) s
unfolding read_address destination read_ipv4 read_ipv6 read_be
by_type address_type bs s = elim (Bool-cases (address_type == 1)) [
  | inl is_ipv4 ↦ rw is_ipv4 (read_ip 4 _ bs s)
  | inr not_ipv4 ↦ elim (Bool-cases (address_type == 4)) [
    | inl is_ipv6 ↦
        let not_name : (address_type == 3) ≡ false = ground arith in
        rw (not_ipv4, is_ipv6, not_name) (read_ip 16 _ bs s)
    | inr not_ipv6 ↦ elim (Bool-cases (address_type == 3)) [
      | inl is_name ↦ rw (not_ipv4, not_ipv6, is_name) (read_domain_name-name_behind bs s)
      | inr not_name ↦ rw (not_ipv4, not_ipv6, not_name)
    ]
  ]
]

read_from-destination :
    (bs : List ℕ) (s : Stream) → read_from (feed bs s) ≡ as_read (destination bs) s
unfolding read_from read_u8 read_exact destination
read_from-destination [] s = refl
read_from-destination (address_type ∷ bs) s = by_type address_type bs s

-- The command of a request: the code's table has another order than the RFC's.
abbrev lookup : ℕ → Option Command → Result Command
lookup code none = err (lurk_error (data_error (InvalidValue.socks_command code)))
lookup code (some c) = ok c

try_from-command : (code : ℕ) → try_from code ≡ lookup code (command code)
unfolding try_from command
try_from-command code = ground arith

read_rest :
    (code : ℕ) (c : Option Command) (bs : List ℕ) (s : Stream)
    → continue
        (lookup code c, feed bs s)
        (λ c s₁.
          continue
            (read_from s₁)
            λ address s₂. (ok (record { command = c; endpoint_address = address }), s₂))
      ≡ as_read (with_destination code c bs) s
read_rest code none bs s = refl
read_rest code (some c) bs s =
    continue-behind (read_from (feed bs s)) (destination bs) _ _ s (read_from-destination bs s)
      λ address rest. refl

-- A request is read as the grammar has it.
pub read_relay-request :
    (bs : List ℕ) (s : Stream) → read_relay (feed bs s) ≡ as_read (request bs) s
unfolding read_relay request read_exact
read_relay-request [] s = refl
read_relay-request (a ∷ []) s = refl
read_relay-request (a ∷ b ∷ []) s = refl
read_relay-request (version ∷ code ∷ reserved ∷ bs) s = elim (Bool-cases (version == 5)) [
  | inr e ↦ rw e
  | inl e ↦ elim (Bool-cases (reserved == 0)) [
    | inr k ↦ rw (e, k)
    | inl k ↦ rw (e, k, try_from-command code) (read_rest code (command code) bs s)
  ]
]
