-- ===== src/Http/Tests.antt =====
-- The theorems on the HTTP handler at concrete requests.
use lurk.Http.Reassembly.{get_host_addr-reassemble_uri}
use lurk.Tcp.{establish_tcp_connection}
use lurk.Address.{v4, ipv6_socket_address, ipv4_socket_address}
use lurk.Error.{ok, done, Result}
use lurk.Common.{
  ◌↔◌, option_map, ◌∙◌, some-injective, sym, ap, refl, [], ◌∷◌, ◌≡◌, none, some, Option, ℕ, true,
  List,
}
use lurk.Net.{to_socket_addr, Net}
use lurk.HttpHost.Ports.{IsPort}
use lurk.HttpHost.Authority.{IsHost, parse_host_from_authority_iff}
use lurk.Http.Host.{Looked, Names, get_host_addr-Names}
use lurk.Http.Forwarding.{serve_request_forwarded}
use lurk.Http.Outcomes.{serve_request-Outcome, Outcome}
use Prim.Native.String.{String}
use lurk.HttpHost.{
  with_uri, other_method, reassemble_uri, Parts, get_host_addr, parse_host_from_authority,
  HostHeader, Request, HttpTypes, connect, missing,
}
use lurk.Http.{Response, serve_request}

pub map_same : (scheme : Option String) → scheme ≡ option_map (λ s. s) scheme
map_same none = refl
map_same (some scheme) = refl

-- A URI is its parts, an authority is a host and a port.
abbrev pub types : HttpTypes
types = record {
  Scheme = String;
  Authority = List ℕ × Option ℕ;
  PathAndQuery = List ℕ;
  Uri = Parts String (List ℕ × Option ℕ) (List ℕ);
  http_scheme = "http";
  port_u16 = λ authority. authority.1;
  host = λ authority. authority.0;
  authority_from_str = λ text. some (text, none);
  uri_authority = λ uri. uri.authority;
  scheme_str = λ uri. uri.scheme;
  uri_path_and_query = λ uri. uri.path_and_query;
  into_parts = λ uri. uri;
  from_parts = λ parts. some parts;
  as_str = λ scheme. scheme;
  http_scheme_as_str = refl;
  into_parts_scheme = λ uri. map_same uri.scheme;
  from_parts_scheme =
      λ parts uri e. ap (λ p. p.scheme) (sym (some-injective _ _ e)) ∙ map_same parts.scheme;
  from_parts_authority = λ parts uri e. ap (λ p. p.authority) (sym (some-injective _ _ e));
  into_parts_path = λ uri path e. e;
  from_parts_path =
      λ parts uri path e made. ap (λ p. p.path_and_query) (sym (some-injective _ _ made)) ∙ e;
}

abbrev net : Net
net = record {
  Socket = ℕ;
  lookup_host = λ query. done [];
  connect = λ addr. done 7;
  set_tcp_keepalive = λ settings socket. done socket;
  copy_bidirectional = λ stream socket. (done (3, 4), stream, socket);
}

abbrev send : net.Socket → Request types → Result Response
send socket req = ok (record { status = 200; body = req.content })

abbrev loopback : List ℕ
loopback = b'1' ∷ b'2' ∷ b'7' ∷ b'.' ∷ b'0' ∷ b'.' ∷ b'0' ∷ b'.' ∷ b'1' ∷ []

abbrev loopback6 : List ℕ
loopback6 = b'[' ∷ b':' ∷ b':' ∷ b'1' ∷ b']' ∷ []

abbrev request_of : HostHeader → Option (List ℕ × Option ℕ) → Request types
request_of header authority = record {
  method = connect;
  uri = record { scheme = none; authority = authority; path_and_query = none };
  host_header = header;
  content = [];
}

abbrev to_loopback : Request types
to_loopback = request_of missing (some (loopback, some 443))

parsed :
    parse_host_from_authority types none (loopback, some 443)
    ≡ some (ipv4_socket_address 0x7f00_0001 443)
unfolding parse_host_from_authority
parsed = refl

parsed6 :
    parse_host_from_authority types (some "https") (loopback6, none)
    ≡ some (ipv6_socket_address 1 443)
unfolding parse_host_from_authority
parsed6 = refl

unsupported : parse_host_from_authority types (some "ftp") (loopback, none) ≡ none
unfolding parse_host_from_authority
unsupported = refl

tunnelled : (serve_request types net true send to_loopback).tunnel ≡ some 7
unfolding serve_request to_socket_addr establish_tcp_connection
tunnelled = refl

parse_host_from_authority_iff_example :
    (parse_host_from_authority types none (loopback, some 8080)
      ≡ some (ipv4_socket_address 2130706433 8080))
    ↔ ((port : ℕ) × IsPort (some 8080) none port
        × IsHost (loopback) port (ipv4_socket_address 2130706433 8080))
parse_host_from_authority_iff_example =
    parse_host_from_authority_iff types none (loopback, some 8080)
      (ipv4_socket_address 2130706433 8080)

get_host_addr-Names_example :
    Looked types (Names types to_loopback) to_loopback (get_host_addr types to_loopback)
get_host_addr-Names_example = get_host_addr-Names types to_loopback

serve_request-Outcome_example :
    Outcome types net true send to_loopback (serve_request types net true send to_loopback)
serve_request-Outcome_example = serve_request-Outcome types net true send to_loopback

-- GET http://127.0.0.1/, which is forwarded as GET /.
abbrev pub get_loopback : Request types
get_loopback = record {
  method = other_method (b'G' ∷ b'E' ∷ b'T' ∷ []);
  uri = record {
    scheme = some "http";
    authority = some (loopback, none);
    path_and_query = some (b'/' ∷ []);
  };
  host_header = missing;
  content = [];
}

get_names : (get_host_addr types get_loopback).0 ≡ some (ipv4_socket_address 0x7f00_0001 80)
unfolding get_host_addr
get_names = refl

get_resolves :
    to_socket_addr net (ipv4_socket_address 0x7f00_0001 80)
    ≡ ok (v4 (record { ip = 0x7f00_0001; port = 80 }))
unfolding to_socket_addr
get_resolves = refl

serve_request_forwarded_example :
    (uri : types.Uri) × (serve_request types net true send get_loopback ≡ record {
      answer = send 7 (with_uri types uri get_loopback);
      dialed = some (v4 (record { ip = 0x7f00_0001; port = 80 }));
      tunnel = none;
    })
    × (types.uri_path_and_query uri ≡ some (b'/' ∷ []))
serve_request_forwarded_example =
    serve_request_forwarded types net true send get_loopback (b'G' ∷ b'E' ∷ b'T' ∷ []) (b'/' ∷ [])
      (ipv4_socket_address 0x7f00_0001 80) (v4 (record { ip = 0x7f00_0001; port = 80 })) 7 refl refl
      get_names get_resolves refl

abbrev without_scheme : types.Uri
without_scheme = record { scheme = none; authority = none; path_and_query = some (b'/' ∷ []) }

abbrev reassembled : Request types
reassembled = record to_loopback {
  uri = record {
    scheme = some "http";
    authority = some (loopback, none);
    path_and_query = some (b'/' ∷ []);
  };
}

parsed_without_scheme :
    parse_host_from_authority types none (loopback, none)
    ≡ some (ipv4_socket_address 0x7f00_0001 80)
unfolding parse_host_from_authority
parsed_without_scheme = refl

made : reassemble_uri types without_scheme (loopback, none) ≡ some reassembled.uri
unfolding reassemble_uri
made = refl

get_host_addr-reassemble_uri_example :
    (get_host_addr types reassembled).0 ≡ some (ipv4_socket_address 0x7f00_0001 80)
get_host_addr-reassemble_uri_example =
    get_host_addr-reassemble_uri types reassembled without_scheme (loopback, none)
      (ipv4_socket_address 0x7f00_0001 80) parsed_without_scheme made
