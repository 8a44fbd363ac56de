-- ===== src/Socks5/Parsing.antt =====
-- What the server reads as a request is a request on the wire, and what it answers to anything else.
use lurk.Auth.{MethodSet, collect}
use lurk.Address.Sound.{read_from_sound}
use lurk.Address.Encoding.{encode_address, IsValid}
use lurk.Address.{read_from}
use lurk.Common.Bytes.{IsByte}
use lurk.Socks5.Codes.{from_socks5_const_iff, from_socks5_const_unknown, try_from_lem, command_code}
use lurk.Stream.Laws.{read_exact-append, read_exact-Took, Took-append, Took-IsByte, feed, Took}
use lurk.Socks5.{from_socks5_const, as_socks5_const, try_from}
use lurk.Stream.{read_exact, byte_at, Stream}
use lurk.Error.{
  and_then-eq-ok, LurkAuthMethod, result_of_lift, result_of, InvalidValue, data_error, err,
  lurk_error, reserved_value, continue-eq-ok, protocol_version, invalid_value, ok, ensure, Error,
}
use lurk.Socks5.Wire.{encode_handshake, encode_relay}
use lurk.Socks5.Request.{
  HandshakeRequest, read_handshake, read_methods, collect_methods, RelayRequest, read_relay,
}
use lurk.Common.{
  length-map, sym, length-append, ap₂, subst, false, ◌+◌, zero, suc, ◌≤◌, map, subst₂, ==_iff, ◌∙◌,
  ◌++◌, ◌⊎◌, ap, ◌≢◌, ◌==◌, All, arith, true, not, [], if◌then◌else◌, length, ◌∷◌, List, Bool, ℕ,
  ◌≡◌, refl,
}

ensure-eq-ok :
    {S : Type 0} (test : Bool) (e : Error) (s s' : S) {u : Unit {0}}
    → ensure test e s ≡ (ok u, s')
    → (test ≡ true) × (s ≡ s')
ensure-eq-ok true e s s' h = (refl, ap (λ p. p.1) h)
ensure-eq-ok false e s s' h = absurd (ground arith)

-- The three bytes in front of a relay request.
abbrev header : (v c r : ℕ) → List ℕ
header v c r = v ∷ c ∷ r ∷ []

two : (bytes : List ℕ) → length bytes ≡ 2 → bytes ≡ byte_at bytes 0 ∷ byte_at bytes 1 ∷ []
two (a ∷ b ∷ []) h = refl
two (a ∷ b ∷ c ∷ bytes) h = absurd (omega arith)
two [] h = absurd (omega arith)
two (a ∷ []) h = absurd (omega arith)

three :
    (bytes : List ℕ)
    → length bytes ≡ 3
    → bytes ≡ header (byte_at bytes 0) (byte_at bytes 1) (byte_at bytes 2)
three (a ∷ b ∷ c ∷ []) h = refl
three (a ∷ b ∷ c ∷ d ∷ bytes) h = absurd (omega arith)
three [] h = absurd (omega arith)
three (a ∷ []) h = absurd (omega arith)
three (a ∷ b ∷ []) h = absurd (omega arith)

header-eq : {v v' c c' r r' : ℕ} → v ≡ v' → c ≡ c' → r ≡ r' → header v c r ≡ header v' c' r'
header-eq p q t = cc

read_relay_parts :
    (s s' : Stream) (r : RelayRequest)
    → read_relay s ≡ (ok r, s')
    → (s₁ : Stream) × Took (header 5 (command_code r.command) 0) s s₁
      × (read_from s₁ ≡ (ok r.endpoint_address, s'))
unfolding read_relay
read_relay_parts s s' r e =
    let (buff, s₁, e₁, e₁') = continue-eq-ok (read_exact 3 s) _ e in
    let (_, s₂, e₂, e₂') = continue-eq-ok (ensure (byte_at buff 0 == 5) _ s₁) _ e₁' in
    let (_, s₃, e₃, e₃') = continue-eq-ok (ensure (byte_at buff 2 == 0) _ s₂) _ e₂' in
    let (command, s₄, e₄, e₄') = continue-eq-ok (try_from (byte_at buff 1), s₃) _ e₃' in
    let (addr, s₅, e₅, e₅') = continue-eq-ok (read_from s₄) _ e₄' in
    let (took, long) = read_exact-Took 3 s s₁ buff e₁ in
    let (same_v, same₂) = ensure-eq-ok _ _ s₁ s₂ e₂ in
    let (same_r, same₃) = ensure-eq-ok _ _ s₂ s₃ e₃ in
    let same₄ : s₃ ≡ s₄ = ap (λ p. p.1) e₄ in
    let request : record { command = command; endpoint_address = addr } ≡ r = result_of e₅' in
    let code : byte_at buff 1 ≡ command_code command =
      ((try_from_lem (byte_at buff 1)).0 command).0 (result_of_lift e₄) in
    let front : buff ≡ header 5 (command_code r.command) 0 =
      three buff long
      ∙ header-eq ((==_iff _ 5).0 same_v) (code ∙ ap (λ q. command_code q.command) request)
          ((==_iff _ 0).0 same_r) in
    let ends : s₅ ≡ s' = ap (λ p. p.1) e₅' in
    (
      s₄,
      subst₂ (λ t x. Took t s x) front (same₂ ∙ same₃ ∙ same₄) took,
      subst₂ (λ a x. read_from s₄ ≡ (ok a, x)) (ap (λ q. q.endpoint_address) request) ends e₅,
    )

-- A relay request that the server accepts stood on the stream in the format of RFC 1928, and exactly
-- its bytes were taken from the stream; its address is valid.
pub read_relay_sound :
    (s s' : Stream) (r : RelayRequest)
    → All IsByte s.incoming
    → read_relay s ≡ (ok r, s')
    → Took (encode_relay r) s s' × IsValid r.endpoint_address
unfolding encode_relay
read_relay_sound s s' r bytewise e =
    let (s₁, took, e') = read_relay_parts s s' r e in
    let front = header 5 (command_code r.command) 0 in
    let (took', valid, _) =
      read_from_sound s₁ s' r.endpoint_address (Took-IsByte front took bytewise) e' in
    (Took-append front (encode_address r.endpoint_address) took took', valid)

-- The first test that fails decides the error.
abbrev relay_header_error : (v c r : ℕ) → Error
relay_header_error v c r =
    if not (v == 5)
    then invalid_value (protocol_version v)
    else if not (r == 0)
    then invalid_value (reserved_value r)
    else lurk_error (data_error (InvalidValue.socks_command c))

-- A header with another version, with a reserved byte that is not 0, or with an unknown command is
-- refused: the error names the first of these in this order, the three bytes are taken from the
-- stream, and nothing else.
pub read_relay_refused :
    (v c r : ℕ) (rest : List ℕ) (s : Stream)
    → (v ≢ 5) ⊎ (r ≢ 0) ⊎ ((c ≢ 1) × (c ≢ 2) × (c ≢ 3))
    → read_relay (feed (header v c r ++ rest) s) ≡ (err (relay_header_error v c r), feed rest s)
unfolding read_relay try_from read_exact
read_relay_refused v c r rest s h = ground arith

collect_methods-eq-ok :
    (bytes : List ℕ) (set : MethodSet)
    → collect_methods bytes ≡ ok set
    → (ms : List LurkAuthMethod) × (bytes ≡ map as_socks5_const ms) × (set ≡ collect ms)
unfolding collect_methods collect
collect_methods-eq-ok [] set e = ([], refl, ground arith)
collect_methods-eq-ok (b ∷ bytes) set e =
    let (m, e₁, e') = and_then-eq-ok (from_socks5_const b) _ e in
    let (rest, e₂, e'') = and_then-eq-ok (collect_methods bytes) _ e' in
    let (ms, same, same_set) = collect_methods-eq-ok bytes rest e₂ in
    let code : b ≡ as_socks5_const m = (from_socks5_const_iff b m).0 e₁ in
    (m ∷ ms, cc, ground arith)

-- Reading `n` methods.
read_methods_sound :
    (n : ℕ) (s s' : Stream) (set : MethodSet)
    → read_methods n s ≡ (ok set, s')
    → (ms : List LurkAuthMethod) × Took (map as_socks5_const ms) s s'
      × (length ms ≡ n)
      × (set ≡ collect ms)
unfolding read_methods
read_methods_sound zero s s' set e =
    let kept : Took [] s s' = subst (Took [] s) (ap (λ p. p.1) e) (refl, refl) in
    ([], kept, refl, unfold collect in sym (result_of e))
read_methods_sound (suc n) s s' set e =
    let some_methods : (suc n == 0) ≡ false = ground arith in
    let (bytes, s₁, e₁, e') = continue-eq-ok (read_exact (suc n) s) _ (rw some_methods at e) in
    let (took, long) = read_exact-Took (suc n) s s₁ bytes e₁ in
    let (ms, same, same_set) = collect_methods-eq-ok bytes set (result_of_lift e') in
    (
      ms,
      subst₂ (λ t x. Took t s x) same (ap (λ p. p.1) e') took,
      omega (arith, length-map as_socks5_const ms, ap length same),
      same_set,
    )

-- A greeting that the server accepts stood on the stream as the byte 5, the number of its methods and
-- a byte for each, all of them known methods; exactly these bytes were taken from the stream, and the
-- methods read are those listed. The number may be 0, of which RFC 1928 knows nothing.
pub read_handshake_sound :
    (s s' : Stream) (r : HandshakeRequest)
    → read_handshake s ≡ (ok r, s')
    → (ms : List LurkAuthMethod) × Took (encode_handshake ms) s s' × (r.auth_methods ≡ collect ms)
unfolding read_handshake encode_handshake
read_handshake_sound s s' r e =
    let (head, s₁, e₁, e₁') = continue-eq-ok (read_exact 2 s) _ e in
    let (_, s₂, e₂, e₂') = continue-eq-ok (ensure (byte_at head 0 == 5) _ s₁) _ e₁' in
    let (set, s₃, e₃, e₃') = continue-eq-ok (read_methods (byte_at head 1) s₂) _ e₂' in
    let (took, long) = read_exact-Took 2 s s₁ head e₁ in
    let (same_v, same₂) = ensure-eq-ok _ _ s₁ s₂ e₂ in
    let (ms, took', count, same_set) = read_methods_sound (byte_at head 1) s₂ s₃ set e₃ in
    let front : head ≡ 5 ∷ length ms ∷ [] =
      two head long ∙ ap₂ (λ v n. v ∷ n ∷ []) ((==_iff _ 5).0 same_v) (sym count) in
    let took_head = subst₂ (λ t x. Took t s x) front same₂ took in
    (
      ms,
      subst (Took (encode_handshake ms) s) (ap (λ p. p.1) e₃')
          (Took-append (5 ∷ length ms ∷ []) (map as_socks5_const ms) took_head took'),
      sym (ap (λ q. q.auth_methods) (result_of e₃')) ∙ same_set,
    )

collect_methods_unknown :
    (ms : List LurkAuthMethod) (b : ℕ) (more : List ℕ)
    → 3 ≤ b
    → collect_methods (map as_socks5_const ms ++ b ∷ more)
      ≡ err (lurk_error (data_error (InvalidValue.auth_method b)))
unfolding collect_methods
collect_methods_unknown [] b more h = rw (from_socks5_const_unknown b h)
collect_methods_unknown (m ∷ ms) b more h =
    rw ((from_socks5_const_iff _ m).1 refl, collect_methods_unknown ms b more h)

-- A greeting whose list of methods holds a byte that stands for no method is refused as a whole,
-- whatever else it lists: the first such byte is the error, and the methods are not filtered.
pub read_handshake_unknown :
    (ms : List LurkAuthMethod) (b : ℕ) (more rest : List ℕ) (s : Stream)
    → 3 ≤ b
    → read_handshake
        (feed (5 ∷ suc (length ms + length more) ∷ (map as_socks5_const ms ++ b ∷ more) ++ rest) s)
      ≡ (err (lurk_error (data_error (InvalidValue.auth_method b))), feed rest s)
unfolding read_handshake read_methods read_exact
read_handshake_unknown ms b more rest s h =
    let bytes = map as_socks5_const ms ++ b ∷ more in
    let count : length bytes ≡ suc (length ms + length more) =
      omega
        (arith, length-append (map as_socks5_const ms) (b ∷ more), length-map as_socks5_const ms) in
    let some_methods : (suc (length ms + length more) == 0) ≡ false = ground arith in
    rw (some_methods, read_exact-append _ bytes rest s count, collect_methods_unknown ms b more h)
