-- ===== src/HttpHost.antt =====
-- `mod utils` of server/handlers/http.rs: the host that a request names. A text is the list of its
-- bytes.
pub mod Authority
pub mod Ports
use lurk.Address.{domain_name, ipv4_socket_address, ipv6_socket_address, Address}
use text.Mathlib.Text.{◌==◌ as str_eq}
use Prim.Native.String.{String}
use lurk.Common.{
  option_map, ◌≡◌, ◌-◌, if◌then◌else◌, length, ◌==◌, [], none, some, ◌&&◌, ◌∷◌, false, Bool, ℕ,
  Option, List, take,
}
use lurk.Common.IpText.{parse_ipv4, parse_ipv6}

pub data Method : Type 0 where
  connect : Method
  other_method : List ℕ → Method

pub record Parts (Scheme Authority PathAndQuery : Type 0) : Type 0 where
  pub scheme : Option Scheme
  pub authority : Option Authority
  pub path_and_query : Option PathAndQuery

-- What the code uses of the crate `http`, and what a URI keeps of the parts that it is made of.
pub record HttpTypes : Type 1 where
  pub Scheme : Type 0
  pub Authority : Type 0
  pub PathAndQuery : Type 0
  pub Uri : Type 0
  pub http_scheme : Scheme
  pub port_u16 : Authority → Option ℕ
  pub host : Authority → List ℕ
  pub authority_from_str : List ℕ → Option Authority
  pub uri_authority : Uri → Option Authority
  pub scheme_str : Uri → Option String
  pub uri_path_and_query : Uri → Option PathAndQuery
  pub into_parts : Uri → Parts Scheme Authority PathAndQuery
  pub from_parts : Parts Scheme Authority PathAndQuery → Option Uri
  pub as_str : Scheme → String
  pub http_scheme_as_str : as_str http_scheme ≡ "http"
  pub into_parts_scheme : (uri : Uri) → scheme_str uri ≡ option_map as_str (into_parts uri).scheme
  pub from_parts_scheme :
      (parts : Parts Scheme Authority PathAndQuery) (uri : Uri)
      → from_parts parts ≡ some uri
      → scheme_str uri ≡ option_map as_str parts.scheme
  pub from_parts_authority :
      (parts : Parts Scheme Authority PathAndQuery) (uri : Uri)
      → from_parts parts ≡ some uri
      → uri_authority uri ≡ parts.authority
  pub into_parts_path :
      (uri : Uri) (path : PathAndQuery)
      → (into_parts uri).path_and_query ≡ some path
      → uri_path_and_query uri ≡ some path
  pub from_parts_path :
      (parts : Parts Scheme Authority PathAndQuery) (uri : Uri) (path : PathAndQuery)
      → parts.path_and_query ≡ some path
      → from_parts parts ≡ some uri
      → uri_path_and_query uri ≡ some path

-- The "Host" header: `get` finds none, `to_str` fails on it, or it is a text.
pub data HostHeader : Type 0 where
  missing not_text : HostHeader
  header_text : List ℕ → HostHeader

pub record Request (types : HttpTypes) : Type 0 where
  pub method : Method
  pub uri : types.Uri
  pub host_header : HostHeader
  pub content : List ℕ

unfoldable starts_with : ℕ → List ℕ → Bool
starts_with c [] = false
starts_with c (b ∷ bs) = b == c

unfoldable ends_with : ℕ → List ℕ → Bool
ends_with c [] = false
ends_with c (b ∷ []) = b == c
ends_with c (b ∷ d ∷ bs) = ends_with c (d ∷ bs)

-- `&text[1..text.len() - 1]`
unfoldable inner_text : List ℕ → List ℕ
inner_text [] = []
inner_text (b ∷ bs) = take (length bs - 1) bs

unfoldable pub is_bracketed : List ℕ → Bool
unfolding starts_with ends_with
is_bracketed text = starts_with b'[' text && ends_with b']' text

-- The port of an authority that has none.
unfoldable pub default_port : Option String → Option ℕ
default_port none = some 80
default_port (some scheme) =
    if str_eq scheme "http" then some 80 else if str_eq scheme "https" then some 443 else none

abbrev pub port_or_default : Option ℕ → Option String → Option ℕ
port_or_default (some port) scheme = some port
port_or_default none scheme = default_port scheme

abbrev pub from_ipv6 : ℕ → Option ℕ → Option Address
from_ipv6 port (some ipv6) = some (ipv6_socket_address ipv6 port)
from_ipv6 port none = none

abbrev pub from_ipv4 : List ℕ → ℕ → Option ℕ → Option Address
from_ipv4 host_str port (some ipv4) = some (ipv4_socket_address ipv4 port)
from_ipv4 host_str port none = some (domain_name host_str port)

-- The part of `parse_host_from_authority` after the port.
unfoldable pub parse_host : List ℕ → ℕ → Option Address
unfolding is_bracketed inner_text parse_ipv4 parse_ipv6
parse_host host_str port =
    if is_bracketed host_str
    then from_ipv6 port (parse_ipv6 (inner_text host_str))
    else from_ipv4 host_str port (parse_ipv4 host_str)

abbrev pub with_port : List ℕ → Option ℕ → Option Address
with_port host_str (some port) = parse_host host_str port
with_port host_str none = none

module _ (types : HttpTypes) where
  unfoldable pub parse_host_from_authority : Option String → types.Authority → Option Address
  unfolding default_port parse_host
  parse_host_from_authority scheme authority =
      with_port (types.host authority) (port_or_default (types.port_u16 authority) scheme)

  -- The URI as `Uri::from_parts` makes it, or as it was where that fails.
  unfoldable pub uri_or : types.Uri → Option types.Uri → types.Uri
  uri_or uri none = uri
  uri_or uri (some new_uri) = new_uri

  abbrev pub scheme_or_http : Option types.Scheme → types.Scheme
  scheme_or_http none = types.http_scheme
  scheme_or_http (some scheme) = scheme

  unfoldable pub reassemble_uri : types.Uri → types.Authority → Option types.Uri
  reassemble_uri uri authority =
      let parts = types.into_parts uri in
      types.from_parts (record {
        scheme = some (scheme_or_http parts.scheme);
        authority = some authority;
        path_and_query = parts.path_and_query;
      })

  -- The URI with its path and query alone, where it has these.
  unfoldable pub strip_uri : types.Uri → Option types.PathAndQuery → types.Uri
  unfolding uri_or
  strip_uri uri none = uri
  strip_uri uri (some path_and_query) = uri_or uri (
      types.from_parts
        (record { scheme = none; authority = none; path_and_query = some path_and_query }))

  abbrev pub with_uri : types.Uri → Request types → Request types
  with_uri uri req = record req { uri = uri }

  unfoldable pub get_host_addr_from_authority : Request types → Option Address × Request types
  unfolding parse_host_from_authority strip_uri
  get_host_addr_from_authority req = elim (types.uri_authority req.uri) [
    | none ↦ (none, req)
    | some authority ↦ elim (parse_host_from_authority (types.scheme_str req.uri) authority) [
      | none ↦ (none, req)
      | some host ↦ (some host, with_uri (strip_uri req.uri (types.uri_path_and_query req.uri)) req)
    ]
  ]

  abbrev pub header_value : HostHeader → Option (List ℕ)
  header_value missing = none
  header_value not_text = none
  header_value (header_text text) = some text

  unfoldable pub get_host_addr_from_header : Request types → Option Address × Request types
  unfolding parse_host_from_authority reassemble_uri uri_or
  get_host_addr_from_header req = elim (header_value req.host_header) [
    | none ↦ (none, req)
    | some text ↦ elim (types.authority_from_str text) [
      | none ↦ (none, req)
      | some authority ↦ elim (parse_host_from_authority (types.scheme_str req.uri) authority) [
        | none ↦ (none, req)
        | some host ↦ (some host, with_uri (uri_or req.uri (reassemble_uri req.uri authority)) req)
      ]
    ]
  ]

  abbrev or_from_header : Option Address × Request types → Option Address × Request types
  or_from_header (some addr, req) = (some addr, req)
  or_from_header (none, req) = get_host_addr_from_header req

  unfoldable pub get_host_addr : Request types → Option Address × Request types
  unfolding get_host_addr_from_authority get_host_addr_from_header
  get_host_addr req = or_from_header (get_host_addr_from_authority req)
