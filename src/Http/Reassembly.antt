-- ===== src/Http/Reassembly.antt =====
-- The URI that is made from the "Host" header.
use lurk.Address.{Address}
use lurk.Common.{refl, none, option_map, sym, ap, ◌∙◌, ◌≡◌, ℕ, some, Option}
use Prim.Native.String.{String}
use lurk.HttpHost.{
  get_host_addr, port_or_default, Request, parse_host_from_authority, reassemble_uri, default_port,
  HttpTypes, scheme_or_http, with_port, get_host_addr_from_authority,
}

module _ (types : HttpTypes) where
  -- No scheme means the same port as `http`.
  default_port-scheme_or_http :
      (scheme : Option types.Scheme)
      → default_port (some (types.as_str (scheme_or_http types scheme)))
        ≡ default_port (option_map types.as_str scheme)
  unfolding default_port
  default_port-scheme_or_http none = rw types.http_scheme_as_str
  default_port-scheme_or_http (some scheme) = refl

  port_or_default-eq :
      (port : Option ℕ) (a b : Option String)
      → default_port a ≡ default_port b
      → port_or_default port a ≡ port_or_default port b
  port_or_default-eq none a b e = e
  port_or_default-eq (some port) a b e = refl

  get_host_addr_by_authority :
      (req : Request types) (authority : types.Authority) (addr : Address)
      → types.uri_authority req.uri ≡ some authority
      → parse_host_from_authority types (types.scheme_str req.uri) authority ≡ some addr
      → (get_host_addr types req).0 ≡ some addr
  unfolding get_host_addr
  get_host_addr_by_authority req authority addr h k =
      rw (get_host_addr, get_host_addr_from_authority, h, k)

  -- A URI that was reassembled from the "Host" header names, by its authority and whatever the
  -- header of its request, the host that the header named.
  pub get_host_addr-reassemble_uri :
      (req : Request types) (uri : types.Uri) (authority : types.Authority) (addr : Address)
      → parse_host_from_authority types (types.scheme_str uri) authority ≡ some addr
      → reassemble_uri types uri authority ≡ some req.uri
      → (get_host_addr types req).0 ≡ some addr
  unfolding reassemble_uri parse_host_from_authority
  get_host_addr-reassemble_uri req uri authority addr parsed made =
      let scheme = types.from_parts_scheme _ req.uri made in
      let same_port =
        default_port-scheme_or_http (types.into_parts uri).scheme
        ∙ ap default_port (sym (types.into_parts_scheme uri)) in
      get_host_addr_by_authority req authority addr (types.from_parts_authority _ req.uri made) (
        ap (with_port (types.host authority)) (
          port_or_default-eq (types.port_u16 authority) (types.scheme_str req.uri)
            (types.scheme_str uri) (ap default_port scheme ∙ same_port))
        ∙ parsed)
