-- ===== src/Address/Sound.antt =====
-- Nothing but the wire format of an address is read as an address.
use lurk.Common.Utf8.{is_utf8}
use lurk.Error.{ok, ◌>>=◌, result_of, continue-eq-ok}
use lurk.Common.Bytes.{be_bytes, IsByte}
use lurk.Stream.Laws.{read_u8-Took, Took-append, Took-IsByte, read_exact-Took, read_be-Took, Took}
use lurk.Address.{
  read_from, read_address, domain_name, ipv6_socket_address, ipv4_socket_address, read_domain_name,
  from_utf8, read_ipv6, read_ipv4, Address,
}
use lurk.Stream.{read_be, read_exact, read_u8, Stream}
use lurk.Common.{
  List, sym, inr, ==_iff, inl, ◌==◌, subst, Bool-cases, [], ◌^◌, length, ◌++◌, subst₂, ap, arith,
  true, ◌<◌, ◌∷◌, All, ℕ, ◌≡◌, refl,
}
use lurk.Address.Encoding.{encode_address, IsValid, on_wire}

-- A read of `a`, behind the type byte `tag`, took the rest of the wire format of `a`.
record Reads (s s' : Stream) (tag : ℕ) (a : Address) : Type 0 where
  payload : List ℕ
  took : Took payload s s'
  encoded : encode_address a ≡ tag ∷ payload
  valid : IsValid a
  kept : on_wire a ≡ a

module _ (s s' : Stream) (a : Address) (bytewise : All IsByte s.incoming) where
  read_ipv4-Reads : read_ipv4 s ≡ (ok a, s') → Reads s s' 1 a
  unfolding read_ipv4 encode_address
  read_ipv4-Reads e =
      let (ip, s₁, e₁, e') = continue-eq-ok (read_be 4 s) _ e in
      let (port, s₂, e₂, e'') = continue-eq-ok (read_be 2 s₁) _ e' in
      let (took_ip, hi) = read_be-Took 4 s s₁ ip bytewise e₁ in
      let (took_port, hp) = read_be-Took 2 s₁ s₂ port (Took-IsByte _ took_ip bytewise) e₂ in
      let same_a : ipv4_socket_address ip port ≡ a = result_of e'' in
      let same_s : s₂ ≡ s' = ap (λ p. p.1) e'' in
      subst₂ (λ t x. Reads s t 1 x) same_s same_a
        (record {
          payload = be_bytes 4 ip ++ be_bytes 2 port;
          took = Took-append _ _ took_ip took_port;
          encoded = refl;
          valid = (hi, hp);
          kept = refl;
        })

  read_ipv6-Reads : read_ipv6 s ≡ (ok a, s') → Reads s s' 4 a
  unfolding read_ipv6 encode_address
  read_ipv6-Reads e =
      let (ip, s₁, e₁, e') = continue-eq-ok (read_be 16 s) _ e in
      let (port, s₂, e₂, e'') = continue-eq-ok (read_be 2 s₁) _ e' in
      let (took_ip, hi) = read_be-Took 16 s s₁ ip bytewise e₁ in
      let (took_port, hp) = read_be-Took 2 s₁ s₂ port (Took-IsByte _ took_ip bytewise) e₂ in
      let same_a : ipv6_socket_address ip port ≡ a = result_of e'' in
      let same_s : s₂ ≡ s' = ap (λ p. p.1) e'' in
      subst₂ (λ t x. Reads s t 4 x) same_s same_a
        (record {
          payload = be_bytes 16 ip ++ be_bytes 2 port;
          took = Took-append _ _ took_ip took_port;
          encoded = refl;
          valid = (hi, hp);
          kept = refl;
        })

-- `from_utf8` gives the bytes back, and only if they are UTF-8.
from_utf8-eq-ok :
    (buf name : List ℕ) → from_utf8 buf ≡ ok name → (buf ≡ name) × (is_utf8 buf ≡ true)
unfolding from_utf8
from_utf8-eq-ok buf name e = ground arith

-- The name that `read_exact` and `from_utf8` leave.
abbrev NameTaken : ℕ → Stream → Stream → List ℕ → Type 0
NameTaken len s s' name = Took name s s' × (length name ≡ len) × (is_utf8 name ≡ true)

module _ (len : ℕ) (small : len < 256) where
  domain_name-Reads :
      (s s₁ s₂ : Stream) (name : List ℕ) (port : ℕ)
      → NameTaken len s s₁ name
      → Took (be_bytes 2 port) s₁ s₂ × (port < 256 ^ 2)
      → (payload : List ℕ) × Took payload s s₂
        × (encode_address (domain_name name port) ≡ 3 ∷ len ∷ payload)
        × IsValid (domain_name name port)
  unfolding encode_address
  domain_name-Reads s s₁ s₂ name port (took, long, hu) (took_port, hp) =
      (name ++ be_bytes 2 port, Took-append _ _ took took_port, rw long, (omega arith, hu, hp))

  read_domain_name-Reads :
      (s s' : Stream) (a : Address)
      → All IsByte s.incoming
      → read_domain_name len s ≡ (ok a, s')
      → (payload : List ℕ) × Took payload s s'
        × (encode_address a ≡ 3 ∷ len ∷ payload)
        × IsValid a
        × (on_wire a ≡ a)
  unfolding read_domain_name
  read_domain_name-Reads s s' a bytewise e =
      let (buf, s₁, e₁, e') = continue-eq-ok (read_exact len s) _ e in
      let (name, s₂, e₂, e'') = continue-eq-ok (from_utf8 buf, s₁) _ e' in
      let (port, s₃, e₃, e''') = continue-eq-ok (read_be 2 s₂) _ e'' in
      let (took, long) = read_exact-Took len s s₁ buf e₁ in
      let (same_name, hu) = from_utf8-eq-ok buf name (ap (λ p. p.0) e₂) in
      let taken : NameTaken len s s₂ name =
        subst₂ (NameTaken len s) (ap (λ p. p.1) e₂) same_name (took, long, hu) in
      let read_port = read_be-Took 2 s₂ s₃ port (Took-IsByte _ taken.0 bytewise) e₃ in
      let (payload, whole, encoded, valid) = domain_name-Reads s s₂ s₃ name port taken read_port in
      let same_a : domain_name name port ≡ a = result_of e''' in
      let same_s : s₃ ≡ s' = ap (λ p. p.1) e''' in
      subst₂
        (λ t x.
          (payload : List ℕ) × Took payload s t
          × (encode_address x ≡ 3 ∷ len ∷ payload)
          × IsValid x
          × (on_wire x ≡ x))
        same_s same_a (payload, whole, encoded, valid, refl)

read_named-Reads :
    (s s' : Stream) (a : Address)
    → All IsByte s.incoming
    → (read_u8 >>= read_domain_name) s ≡ (ok a, s')
    → Reads s s' 3 a
read_named-Reads s s' a bytewise e =
    let (len, s₁, e₁, e') = continue-eq-ok (read_u8 s) _ e in
    let took_len = read_u8-Took s s₁ len e₁ in
    let small : len < 256 = (subst (All IsByte) took_len.0 bytewise).0 in
    let (payload, took, encoded, valid, kept) =
      read_domain_name-Reads len small s₁ s' a (Took-IsByte (len ∷ []) took_len bytewise) e' in
    record {
      payload = len ∷ payload;
      took = Took-append (len ∷ []) payload took_len took;
      encoded = encoded;
      valid = valid;
      kept = kept;
    }

read_address-Reads :
    (tag : ℕ) (s s' : Stream) (a : Address)
    → All IsByte s.incoming
    → read_address tag s ≡ (ok a, s')
    → Reads s s' tag a
unfolding read_address
read_address-Reads tag s s' a bytewise e = elim (Bool-cases (tag == 1)) [
  | inl t ↦
      subst (λ k. Reads s s' k a) (sym ((==_iff tag 1).0 t))
        (read_ipv4-Reads s s' a bytewise (rw t at e))
  | inr n ↦ elim (Bool-cases (tag == 4)) [
    | inl t ↦
        subst (λ k. Reads s s' k a) (sym ((==_iff tag 4).0 t))
          (read_ipv6-Reads s s' a bytewise (rw (n, t) at e))
    | inr n' ↦ elim (Bool-cases (tag == 3)) [
      | inl t ↦
          subst (λ k. Reads s s' k a) (sym ((==_iff tag 3).0 t))
            (read_named-Reads s s' a bytewise (rw (n, n', t) at e))
      | inr n'' ↦ ground arith
    ]
  ]
]

-- A successful `read_from` on a stream of bytes took exactly the wire format of the address that it
-- returns, changed nothing else of the stream, and the address is valid.
pub read_from_sound :
    (s s' : Stream) (a : Address)
    → All IsByte s.incoming
    → read_from s ≡ (ok a, s')
    → Took (encode_address a) s s' × IsValid a × (on_wire a ≡ a)
unfolding read_from
read_from_sound s s' a bytewise e =
    let (tag, s₁, e₁, e') = continue-eq-ok (read_u8 s) _ e in
    let took_tag = read_u8-Took s s₁ tag e₁ in
    let r = read_address-Reads tag s₁ s' a (Took-IsByte (tag ∷ []) took_tag bytewise) e' in
    (rw r.encoded (Took-append (tag ∷ []) r.payload took_tag r.took), r.valid, r.kept)
