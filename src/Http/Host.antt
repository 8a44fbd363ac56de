-- ===== src/Http/Host.antt =====
-- The host of a request: where it comes from, and its port.
use lurk.Common.{
  inr, Option-cases, ◌⊎◌, some-injective, inl, ap, arith, none, some, Option, ◌≡◌, ℕ, List,
}
use lurk.Address.{Address}
use lurk.HttpHost.{
  strip_uri, uri_or, reassemble_uri, with_uri, get_host_addr_from_header, get_host_addr,
  get_host_addr_from_authority, Request, parse_host_from_authority, HttpTypes, header_text,
  HostHeader, missing, not_text, header_value,
}

module _ (types : HttpTypes) where
  -- The host that a request names: its URI's authority, and if that gives none, the authority in its
  -- "Host" header.
  pub data Names (req : Request types) (addr : Address) : Type 0 where
    by_authority :
        (authority : types.Authority)
        → types.uri_authority req.uri ≡ some authority
        → parse_host_from_authority types (types.scheme_str req.uri) authority ≡ some addr
        → Names req addr
    by_header :
        (text : List ℕ) (authority : types.Authority)
        → (get_host_addr_from_authority types req).0 ≡ none
        → req.host_header ≡ header_text text
        → types.authority_from_str text ≡ some authority
        → parse_host_from_authority types (types.scheme_str req.uri) authority ≡ some addr
        → Names req addr

  -- What a place of the request gives: nothing, and the request as it was, or an address by that
  -- place, and the request with another URI.
  abbrev pub Looked : (Address → Type 0) → Request types → Option Address × Request types → Type 0
  Looked By req found =
      (found ≡ (none, req))
      ⊎ ((addr : Address) × (uri : types.Uri) × (found ≡ (some addr, with_uri types uri req))
          × By addr)

  pub authority-Looked :
      (req : Request types)
      → Looked
          (λ addr.
            (authority : types.Authority) × (types.uri_authority req.uri ≡ some authority)
            × (parse_host_from_authority types (types.scheme_str req.uri) authority ≡ some addr))
          req
          (get_host_addr_from_authority types req)
  unfolding get_host_addr_from_authority
  authority-Looked req = elim (Option-cases (types.uri_authority req.uri)) [
    | inl h ↦ inl (rw (get_host_addr_from_authority, h))
    | inr (a, h) ↦
        elim (Option-cases (parse_host_from_authority types (types.scheme_str req.uri) a)) [
          | inl k ↦ inl (rw (get_host_addr_from_authority, h, k))
          | inr (addr, k) ↦ inr (
            addr,
            strip_uri types req.uri (types.uri_path_and_query req.uri),
            rw (get_host_addr_from_authority, h, k),
            (a, h, k),
          )
        ]
  ]

  header_value-eq :
      (header : HostHeader) (text : List ℕ)
      → header_value types header ≡ some text
      → header ≡ header_text text
  header_value-eq missing text e = ground arith
  header_value-eq not_text text e = ground arith
  header_value-eq (header_text t) text e = ap header_text (some-injective _ _ e)

  header-Looked :
      (req : Request types)
      → Looked
          (λ addr.
            (text : List ℕ) × (authority : types.Authority) × (req.host_header ≡ header_text text)
            × (types.authority_from_str text ≡ some authority)
            × (parse_host_from_authority types (types.scheme_str req.uri) authority ≡ some addr))
          req
          (get_host_addr_from_header types req)
  unfolding get_host_addr_from_header
  header-Looked req = elim (Option-cases (header_value types req.host_header)) [
    | inl h ↦ inl (rw (get_host_addr_from_header, h))
    | inr (text, h) ↦ elim (Option-cases (types.authority_from_str text)) [
      | inl i ↦ inl (rw (get_host_addr_from_header, h, i))
      | inr (a, i) ↦
          elim (Option-cases (parse_host_from_authority types (types.scheme_str req.uri) a)) [
            | inl k ↦ inl (rw (get_host_addr_from_header, h, i, k))
            | inr (addr, k) ↦ inr (
              addr,
              uri_or types req.uri (reassemble_uri types req.uri a),
              rw (get_host_addr_from_header, h, i, k),
              (text, a, header_value-eq _ text h, i, k),
            )
          ]
    ]
  ]

  -- Only a host that the request names is taken, and with it nothing of the request but its URI is
  -- changed; a request that names no host stays as it is.
  pub get_host_addr-Names : (req : Request types) → Looked (Names req) req (get_host_addr types req)
  unfolding get_host_addr
  get_host_addr-Names req = elim (authority-Looked req) [
    | inr (addr, uri, e, (a, h, k)) ↦ inr (addr, uri, rw (get_host_addr, e), by_authority a h k)
    | inl e ↦ elim (header-Looked req) [
      | inr (addr, uri, e', (text, a, h, i, k)) ↦
          inr (addr, uri, rw (get_host_addr, e, e'), by_header text a (ap (λ r. r.0) e) h i k)
      | inl e' ↦ inl (rw (get_host_addr, e, e'))
    ]
  ]
