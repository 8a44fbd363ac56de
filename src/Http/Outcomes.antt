-- ===== src/Http/Outcomes.antt =====
-- All that serving an HTTP request can come to.
use lurk.Handler.Calmness.{establish_tcp_connection-IsCalm, to_socket_addr-IsCalm}
use lurk.Stream.Calm.{IsCalm}
use lurk.Http.Host.{Names, get_host_addr-Names}
use lurk.Tcp.{establish_tcp_connection}
use lurk.Address.{SocketAddr, Address}
use lurk.Error.{panic, err, ok, Result, Error, ErrorKind, io_error, done, failed, IoResult}
use lurk.Common.{
  ◌∙◌, some-injective, refl, ap, sym, subst, inr, inl, some, none, ◌≡◌, Bool, List, ℕ, [],
}
use lurk.Net.{to_socket_addr, Net}
use lurk.HttpHost.{other_method, Method, connect, Request, HttpTypes, get_host_addr}
use lurk.Http.{bad_request, Response, serve_request, Served, response, forward}
use lurk.Http.{serve_host, serve_to, on_connected}

-- A host that is found is one that the request names.
pub get_host_addr-host :
    (types : HttpTypes) (req : Request types) (host : Address)
    → (get_host_addr types req).0 ≡ some host
    → Names types req host
get_host_addr-host types req host e = elim (get_host_addr-Names types req) [
  | inl absent ↦ cc (sym (ap (λ found. found.0) absent) ∙ e)
  | inr (other, uri, found, names) ↦
      subst (Names types req) (some-injective _ _ (sym (ap (λ found. found.0) found) ∙ e)) names
]

module _ (types : HttpTypes) (net : Net) (debug : Bool)
    (send : net.Socket → Request types → Result Response) where
  -- The outcomes, each with when it comes.
  pub data Outcome (req : Request types) : Served net → Type 0 where
    no_host :
        (get_host_addr types req).0 ≡ none
        → Outcome req (record { answer = ok bad_request; dialed = none; tunnel = none })
    unresolved :
        (host : Address) (e : Error)
        → (get_host_addr types req).0 ≡ some host
        → to_socket_addr net host ≡ err e
        → Outcome req (record { answer = err e; dialed = none; tunnel = none })
    tunnelled :
        (host : Address) (addr : SocketAddr) (outbound : net.Socket)
        → req.method ≡ connect
        → (get_host_addr types req).0 ≡ some host
        → to_socket_addr net host ≡ ok addr
        → establish_tcp_connection net debug addr ≡ ok outbound
        → Outcome req
            (record { answer = ok (response 200 []); dialed = some addr; tunnel = some outbound })
    unreachable :
        (host : Address) (addr : SocketAddr) (e : Error)
        → req.method ≡ connect
        → (get_host_addr types req).0 ≡ some host
        → to_socket_addr net host ≡ ok addr
        → establish_tcp_connection net debug addr ≡ err e
        → Outcome req (record { answer = ok (response 500 []); dialed = some addr; tunnel = none })
    forwarded :
        (name : List ℕ) (host : Address) (addr : SocketAddr) (outbound : net.Socket)
        → req.method ≡ other_method name
        → (get_host_addr types req).0 ≡ some host
        → to_socket_addr net host ≡ ok addr
        → net.connect addr ≡ done outbound
        → Outcome req (record {
          answer = send outbound (get_host_addr types req).1;
          dialed = some addr;
          tunnel = none;
        })
    not_forwarded :
        (name : List ℕ) (host : Address) (addr : SocketAddr) (kind : ErrorKind)
        → req.method ≡ other_method name
        → (get_host_addr types req).0 ≡ some host
        → to_socket_addr net host ≡ ok addr
        → net.connect addr ≡ failed kind
        → Outcome req (record { answer = err (io_error kind); dialed = some addr; tunnel = none })

  on_connected-Outcome :
      (req : Request types) (host : Address) (addr : SocketAddr) (connected : Result net.Socket)
      → req.method ≡ connect
      → (get_host_addr types req).0 ≡ some host
      → to_socket_addr net host ≡ ok addr
      → establish_tcp_connection net debug addr ≡ connected
      → IsCalm connected
      → Outcome req (on_connected types net debug addr connected)
  on_connected-Outcome req host addr (ok outbound) hm hh hr e calm =
      tunnelled host addr outbound hm hh hr e
  on_connected-Outcome req host addr (err x) hm hh hr e calm = unreachable host addr x hm hh hr e
  on_connected-Outcome req host addr panic hm hh hr e calm = absurd calm

  forward-Outcome :
      (req : Request types) (name : List ℕ) (host : Address) (addr : SocketAddr)
      (connected : IoResult net.Socket)
      → req.method ≡ other_method name
      → (get_host_addr types req).0 ≡ some host
      → to_socket_addr net host ≡ ok addr
      → net.connect addr ≡ connected
      → Outcome req (record {
        answer = forward types net debug send addr (get_host_addr types req).1;
        dialed = some addr;
        tunnel = none;
      })
  unfolding forward
  forward-Outcome req name host addr (done outbound) hm hh hr e =
      rw (forward, e) (forwarded name host addr outbound hm hh hr e)
  forward-Outcome req name host addr (failed kind) hm hh hr e =
      rw (forward, e) (not_forwarded name host addr kind hm hh hr e)

  serve_to-Outcome :
      (req : Request types) (method : Method) (host : Address) (resolved : Result SocketAddr)
      → req.method ≡ method
      → (get_host_addr types req).0 ≡ some host
      → to_socket_addr net host ≡ resolved
      → IsCalm resolved
      → Outcome req (serve_to types net debug send method (get_host_addr types req).1 resolved)
  serve_to-Outcome req connect host (ok addr) hm hh hr calm =
      on_connected-Outcome req host addr _ hm hh hr refl
        (establish_tcp_connection-IsCalm net debug addr)
  serve_to-Outcome req (other_method name) host (ok addr) hm hh hr calm =
      forward-Outcome req name host addr _ hm hh hr refl
  serve_to-Outcome req connect host (err e) hm hh hr calm = unresolved host e hh hr
  serve_to-Outcome req (other_method name) host (err e) hm hh hr calm = unresolved host e hh hr
  serve_to-Outcome req connect host panic hm hh hr calm = absurd calm
  serve_to-Outcome req (other_method name) host panic hm hh hr calm = absurd calm

  -- Serving a request comes to one of these: without a host, the answer 400; where the host is not
  -- resolved, that error in place of an answer; for CONNECT, 200 and a tunnel on the established
  -- connection, or 500 where none is established; for another method, what hyper's client gives for
  -- the request on a connection to the host, or where that is not opened, the error in place of an
  -- answer. An address is dialed just where the host is resolved, a tunnel is started just with the
  -- answer 200 to CONNECT, and no panic comes but from hyper's client.
  pub serve_request-Outcome :
      (req : Request types) → Outcome req (serve_request types net debug send req)
  unfolding serve_request
  serve_request-Outcome req = elim (get_host_addr-Names types req) [
    | inl e ↦ rw e (no_host (ap (λ found. found.0) e))
    | inr (host, uri, e, names) ↦
        subst (λ found. Outcome req (serve_host types net debug send found)) (sym e)
          (subst
            (λ r.
              Outcome req (serve_to types net debug send req.method r (to_socket_addr net host)))
            (ap (λ found. found.1) e)
            (serve_to-Outcome req req.method host _ refl (ap (λ found. found.0) e) refl
              (to_socket_addr-IsCalm net debug host)))
  ]
