-- ===== src/Http/Forwarding.antt =====
-- The request that is forwarded: its URI keeps its path and query.
use lurk.Http.Host.{authority-Looked}
use lurk.Address.{Address, SocketAddr}
use lurk.Common.{◌∙◌, ap, sym, refl, ◌≡◌, none, some, Bool, List, Option, Option-cases, inl, inr, ℕ}
use lurk.Error.{done, ok, Result}
use lurk.Http.{forward, serve_request, Response}
use lurk.HttpHost.{
  header_value, parse_host_from_authority, get_host_addr, get_host_addr_from_authority,
  get_host_addr_from_header, other_method, strip_uri, reassemble_uri, uri_or, with_uri, HttpTypes,
  Request,
}
use lurk.Net.{to_socket_addr, Net}

module _ (types : HttpTypes) (path : types.PathAndQuery) where
  abbrev HasPath : types.Uri → Type 0
  HasPath uri = types.uri_path_and_query uri ≡ some path

  strip_uri-HasPath :
      (uri : types.Uri) → HasPath uri → HasPath (strip_uri types uri (types.uri_path_and_query uri))
  unfolding strip_uri
  strip_uri-HasPath uri h =
      elim (Option-cases (
        types.from_parts
          (record { scheme = none; authority = none; path_and_query = some path }))) [
            | inl e ↦ rw (h, e) h
            | inr (new_uri, e) ↦ rw (h, e) (types.from_parts_path _ new_uri path refl e)
          ]

  reassemble_uri-HasPath :
      (uri : types.Uri) (authority : types.Authority)
      → (types.into_parts uri).path_and_query ≡ some path
      → HasPath (uri_or types uri (reassemble_uri types uri authority))
  unfolding reassemble_uri uri_or
  reassemble_uri-HasPath uri authority h =
      elim (Option-cases (reassemble_uri types uri authority)) [
        | inl e ↦ rw e (types.into_parts_path uri path h)
        | inr (new_uri, e) ↦ rw e (types.from_parts_path _ new_uri path h e)
      ]

  -- The request has at most another URI, with the same path and query.
  abbrev IsKept : Request types → Option Address × Request types → Type 0
  IsKept req found = (uri : types.Uri) × (found.1 ≡ with_uri types uri req) × HasPath uri

  module _ (req : Request types) (h : (types.into_parts req.uri).path_and_query ≡ some path) where
    unchanged : HasPath req.uri
    unchanged = types.into_parts_path req.uri path h

    get_host_addr_from_authority-IsKept : IsKept req (get_host_addr_from_authority types req)
    unfolding get_host_addr_from_authority
    get_host_addr_from_authority-IsKept = elim (Option-cases (types.uri_authority req.uri)) [
      | inl e ↦ (req.uri, rw (get_host_addr_from_authority, e), unchanged)
      | inr (a, e) ↦
          elim (Option-cases (parse_host_from_authority types (types.scheme_str req.uri) a)) [
            | inl k ↦ (req.uri, rw (get_host_addr_from_authority, e, k), unchanged)
            | inr (addr, k) ↦ (
              strip_uri types req.uri (types.uri_path_and_query req.uri),
              rw (get_host_addr_from_authority, e, k),
              strip_uri-HasPath req.uri unchanged,
            )
          ]
    ]

    get_host_addr_from_header-IsKept : IsKept req (get_host_addr_from_header types req)
    unfolding get_host_addr_from_header
    get_host_addr_from_header-IsKept = elim (Option-cases (header_value types req.host_header)) [
      | inl e ↦ (req.uri, rw (get_host_addr_from_header, e), unchanged)
      | inr (text, e) ↦ elim (Option-cases (types.authority_from_str text)) [
        | inl i ↦ (req.uri, rw (get_host_addr_from_header, e, i), unchanged)
        | inr (a, i) ↦
            elim (Option-cases (parse_host_from_authority types (types.scheme_str req.uri) a)) [
              | inl k ↦ (req.uri, rw (get_host_addr_from_header, e, i, k), unchanged)
              | inr (addr, k) ↦ (
                uri_or types req.uri (reassemble_uri types req.uri a),
                rw (get_host_addr_from_header, e, i, k),
                reassemble_uri-HasPath req.uri a h,
              )
            ]
      ]
    ]

    get_host_addr-IsKept : IsKept req (get_host_addr types req)
    unfolding get_host_addr
    get_host_addr-IsKept = elim (authority-Looked types req) [
      | inr (addr, uri, e, by) ↦
          let (uri, kept, path) = get_host_addr_from_authority-IsKept in
          (uri, rw (get_host_addr, e) (sym (ap (λ r. r.1) e) ∙ kept), path)
      | inl e ↦
          let (uri, kept, path) = get_host_addr_from_header-IsKept in
          (uri, rw (get_host_addr, e) kept, path)
    ]

pair_eq :
    (types : HttpTypes) (req : Request types) (host : Address) (uri : types.Uri)
    → (get_host_addr types req).0 ≡ some host
    → (get_host_addr types req).1 ≡ with_uri types uri req
    → get_host_addr types req ≡ (some host, with_uri types uri req)
pair_eq types req host uri e kept = λ i. (e i, kept i)

module _ (types : HttpTypes) (net : Net) (debug : Bool)
    (send : net.Socket → Request types → Result Response) where
  -- Where a request with another method than CONNECT has a path, names a host that is resolved, and
  -- a connection is established to it, this one address is dialed, and the answer is what the client
  -- of this connection gives for the request, with at most another URI that has the same path and
  -- query; no tunnel is started.
  pub serve_request_forwarded :
      (req : Request types) (name : List ℕ) (path : types.PathAndQuery) (host : Address)
      (remote_addr : SocketAddr) (outbound : net.Socket)
      → req.method ≡ other_method name
      → (types.into_parts req.uri).path_and_query ≡ some path
      → (get_host_addr types req).0 ≡ some host
      → to_socket_addr net host ≡ ok remote_addr
      → net.connect remote_addr ≡ done outbound
      → (uri : types.Uri) × (serve_request types net debug send req ≡ record {
        answer = send outbound (with_uri types uri req);
        dialed = some remote_addr;
        tunnel = none;
      })
        × (types.uri_path_and_query uri ≡ some path)
  unfolding serve_request forward
  serve_request_forwarded req name path host remote_addr outbound hm hp hh hr hc =
      let (uri, kept, same) = get_host_addr-IsKept types path req hp in
      (uri, rw (pair_eq types req host uri hh kept, hm, hr, hc) refl, same)
