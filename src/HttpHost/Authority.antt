-- ===== src/HttpHost/Authority.antt =====
-- What the host of an authority is read as: an IPv4 address, an IPv6 address or a name.
use lurk.Common.{
  ap, sym, subst, refl, arith, ◌∙◌, none, some, Option, some-injective, ◌≡◌, ◌↔◌, inl, inr, ℕ, List,
  [], ◌∷◌, ◌++◌, Bool, true, false, Option-cases, Bool-cases, length, length-append, suc, take,
  ◌==◌, ◌-◌, ◌+◌, ◌<◌, ◌&&◌,
}
use lurk.Common.IpText.{parse_ipv4, parse_ipv6}
use lurk.Common.Decimal.{decimal}
use lurk.Common.IpText.Dotted.{dotted, decimal-Digits, Digits, one, two, three}
use lurk.Common.IpText.Canonical.{IsDotted, parse_ipv4_iff}
use lurk.Address.{domain_name, Address, ipv4_socket_address, ipv6_socket_address}
use Prim.Native.String.{String}
use lurk.HttpHost.Ports.{port_or_default_iff, IsPort}
use lurk.HttpHost.{
  is_bracketed, inner_text, starts_with, ends_with, from_ipv4, from_ipv6, port_or_default,
  parse_host_from_authority, HttpTypes, parse_host, with_port,
}

-- `[` and `]` about a text.
unfoldable pub bracketed : List ℕ → List ℕ
bracketed text = b'[' ∷ (text ++ (b']' ∷ []))

eqb_sound : (b c : ℕ) → (b == c) ≡ true → b ≡ c
eqb_sound b c e = ground arith

eqb_same : (c : ℕ) → (c == c) ≡ true
eqb_same c = ground arith

-- `ends_with`, on a text of at least one byte
ends_with_sound :
    (c b : ℕ) (bs : List ℕ)
    → ends_with c (b ∷ bs) ≡ true
    → b ∷ bs ≡ take (length bs) (b ∷ bs) ++ (c ∷ [])
unfolding ends_with
ends_with_sound c b [] e = ap (λ b. b ∷ []) (eqb_sound b c e)
ends_with_sound c b (d ∷ bs) e = ap (λ bs. b ∷ bs) (ends_with_sound c d bs e)

ends_with-append : (c b : ℕ) (text : List ℕ) → ends_with c (b ∷ (text ++ (c ∷ []))) ≡ true
unfolding ends_with
ends_with-append c b [] = eqb_same c
ends_with-append c b (d ∷ text) = ends_with-append c d text

length_lem :
    (text : List ℕ) (c : ℕ)
    → suc (length (text ++ (c ∷ []))) - 1 ≡ suc (length (text ++ (c ∷ [])) - 1)
length_lem text c = omega (arith, length-append text (c ∷ []))

take-front :
    (text : List ℕ) (c : ℕ) → take (length (text ++ (c ∷ [])) - 1) (text ++ (c ∷ [])) ≡ text
take-front [] c = refl
take-front (b ∷ text) c =
    ap (λ n. take n (b ∷ (text ++ (c ∷ [])))) (length_lem text c)
    ∙ ap (λ text. b ∷ text) (take-front text c)

inner_text-bracketed : (text : List ℕ) → inner_text (bracketed text) ≡ text
unfolding inner_text bracketed
inner_text-bracketed text = take-front text b']'

is_bracketed-bracketed : (text : List ℕ) → is_bracketed (bracketed text) ≡ true
unfolding is_bracketed bracketed
is_bracketed-bracketed text = ends_with-append b']' b'[' text

and_inv : (a b : Bool) → (a && b) ≡ true → (a ≡ true) × (b ≡ true)
and_inv true b e = (refl, e)
and_inv false b e = ground arith

not_both : {P : Type 0} (b : ℕ) → (b == b'[') ≡ true → (b == b']') ≡ true → P
not_both b h k = ground arith

is_bracketed_sound : (host : List ℕ) → is_bracketed host ≡ true → host ≡ bracketed (inner_text host)
unfolding is_bracketed starts_with inner_text bracketed
is_bracketed_sound [] e = ground arith
is_bracketed_sound (b ∷ []) e =
    (let (h, k) = and_inv (starts_with b'[' (b ∷ [])) _ e in not_both b h k)
is_bracketed_sound (b ∷ d ∷ bs) e =
    let (h, k) = and_inv (starts_with b'[' (b ∷ d ∷ bs)) _ e in
    ap (λ c. c ∷ d ∷ bs) (eqb_sound b _ h)
    ∙ ap (λ bs. b'[' ∷ bs)
        (ends_with_sound b']' d bs k ∙ ap (λ n. take n (d ∷ bs) ++ (b']' ∷ [])) (omega arith))

-- How the host of an authority is understood, with a port.
pub data IsHost (host : List ℕ) (port : ℕ) : Address → Type 0 where
  ipv4 : (ip : ℕ) → IsDotted host ip → IsHost host port (ipv4_socket_address ip port)
  ipv6 :
      (text : List ℕ) (ip : ℕ)
      → host ≡ bracketed text
      → parse_ipv6 text ≡ some ip
      → IsHost host port (ipv6_socket_address ip port)
  name :
      ((text : List ℕ) → ¬ (host ≡ bracketed text))
      → ((ip : ℕ) → ¬ IsDotted host ip)
      → IsHost host port (domain_name host port)

not_open : (x : ℕ) → x < 10 → (48 + x == b'[') ≡ false
not_open x h = ground arith

starts_with-Digits :
    (n : ℕ) (text rest : List ℕ) → Digits n text → starts_with b'[' (text ++ rest) ≡ false
unfolding starts_with
starts_with-Digits n _ rest (one h) = not_open n h
starts_with-Digits n _ rest (two x y p h k e) = not_open x h
starts_with-Digits n _ rest (three x y z p h k e b) = not_open x (omega arith)

is_bracketed-dotted : (a b c d : ℕ) → a < 256 → is_bracketed (dotted a b c d) ≡ false
unfolding is_bracketed dotted
is_bracketed-dotted a b c d h =
    rw (is_bracketed, starts_with-Digits a (decimal a) _ (decimal-Digits a h))

IsDotted-unbracketed : (host : List ℕ) (ip : ℕ) → IsDotted host ip → is_bracketed host ≡ false
unfolding IsDotted
IsDotted-unbracketed host ip (a, b, c, d, h, i, j, k, e, e') =
    ap is_bracketed e ∙ is_bracketed-dotted a b c d h

from_ipv6_sound :
    (host : List ℕ) (port : ℕ) (parsed : Option ℕ) (addr : Address)
    → host ≡ bracketed (inner_text host)
    → parsed ≡ parse_ipv6 (inner_text host)
    → from_ipv6 port parsed ≡ some addr
    → IsHost host port addr
from_ipv6_sound host port none addr h p e = ground arith
from_ipv6_sound host port (some ip) addr h p e =
    subst (IsHost host port) (some-injective _ _ e) (ipv6 (inner_text host) ip h (sym p))

none_not_some : {A : Type 0} (a : A) → ¬ (none ≡ some a)
none_not_some a e = ground arith

false_not_true : ¬ (false ≡ true)
false_not_true e = ground arith

not-IsDotted : (host : List ℕ) → parse_ipv4 host ≡ none → (ip : ℕ) → ¬ IsDotted host ip
not-IsDotted host e ip d = none_not_some ip (sym e ∙ (parse_ipv4_iff host ip).1 d)

not_bracketed :
    (host : List ℕ) → is_bracketed host ≡ false → (text : List ℕ) → ¬ (host ≡ bracketed text)
not_bracketed host h text e =
    false_not_true (sym h ∙ ap is_bracketed e ∙ is_bracketed-bracketed text)

from_ipv4_sound :
    (host : List ℕ) (port : ℕ) (parsed : Option ℕ) (addr : Address)
    → is_bracketed host ≡ false
    → parse_ipv4 host ≡ parsed
    → from_ipv4 host port parsed ≡ some addr
    → IsHost host port addr
from_ipv4_sound host port none addr h p e =
    subst (IsHost host port) (some-injective _ _ e)
      (name (not_bracketed host h) (not-IsDotted host p))
from_ipv4_sound host port (some ip) addr h p e =
    subst (IsHost host port) (some-injective _ _ e) (ipv4 ip ((parse_ipv4_iff host ip).0 p))

parse_host_sound :
    (host : List ℕ) (port : ℕ) (addr : Address)
    → parse_host host port ≡ some addr
    → IsHost host port addr
unfolding parse_host
parse_host_sound host port addr e = elim (Bool-cases (is_bracketed host)) [
  | inl h ↦
      from_ipv6_sound host port _ addr (is_bracketed_sound host h) refl (rw (parse_host, h) at e)
  | inr h ↦ from_ipv4_sound host port _ addr h refl (rw (parse_host, h) at e)
]

parse_host-IsHost :
    (host : List ℕ) (port : ℕ) (addr : Address)
    → IsHost host port addr
    → parse_host host port ≡ some addr
unfolding parse_host
parse_host-IsHost host port _ (ipv4 ip d) =
    rw (parse_host, IsDotted-unbracketed host ip d, (parse_ipv4_iff host ip).1 d)
parse_host-IsHost host port _ (ipv6 text ip e h) =
    rw (parse_host, e, is_bracketed-bracketed text, inner_text-bracketed text, h)
parse_host-IsHost host port _ (name unbracketed undotted) = elim (Bool-cases (is_bracketed host)) [
  | inl h ↦ absurd (unbracketed _ (is_bracketed_sound host h))
  | inr h ↦ elim (Option-cases (parse_ipv4 host)) [
    | inl k ↦ rw (parse_host, h, k)
    | inr (ip, k) ↦ absurd (undotted ip ((parse_ipv4_iff host ip).0 k))
  ]
]

-- The addresses that a host and a port give, if there is a port.
with_port_iff :
    (host : List ℕ) (port : Option ℕ) (addr : Address)
    → (with_port host port ≡ some addr) ↔ ((p : ℕ) × (port ≡ some p) × IsHost host p addr)
with_port_iff host none addr =
    (λ e. absurd (none_not_some addr e), λ (p, e, h). absurd (none_not_some p e))
with_port_iff host (some port) addr = (
  λ e. (port, refl, parse_host_sound host port addr e),
  λ (p, e, h).
      parse_host-IsHost host port addr
        (subst (λ p. IsHost host p addr) (sym (some-injective _ _ e)) h),
)

-- An authority gives an address exactly if it has a port, its own, or 80 without a scheme or for http,
-- or 443 for https (`IsPort`), and then: the IPv4 address, if the host is its dotted form; the IPv6
-- address, if the host is a form of it between brackets; and otherwise, unless there are brackets, the
-- name that the host is.
pub parse_host_from_authority_iff :
    (types : HttpTypes) (scheme : Option String) (authority : types.Authority) (addr : Address)
    → (parse_host_from_authority types scheme authority ≡ some addr) ↔ (
        (port : ℕ) × IsPort (types.port_u16 authority) scheme port
        × IsHost (types.host authority) port addr)
unfolding parse_host_from_authority
parse_host_from_authority_iff types scheme authority addr =
    let given = types.port_u16 authority in
    let (forth, back) = with_port_iff (types.host authority) (port_or_default given scheme) addr in
    (
      λ e.
          let (port, known, host) = forth e in
          (port, (port_or_default_iff given scheme port).0 known, host),
      λ (port, is_port, host). back (port, (port_or_default_iff given scheme port).1 is_port, host),
    )
