-- ===== src/Config.antt =====
-- config.rs: the addresses that the server and the HTTP endpoint listen on.
use lurk.Address.{v4, SocketAddr}
use lurk.Error.{ok, expect, and_then, Result}
use lurk.Common.{ℕ, Bool, not, Option, none, some, if◌then◌else◌}

pub record LurkHttpEndpointConfig : Type 0 where
  pub http_endpoint_enabled : Bool
  pub http_endpoint_port : ℕ

pub record LurkProxyServerConfig : Type 0 where
  pub proxy_port : ℕ
  pub proxy_ipv4 : Option ℕ

pub record LurkConfig : Type 0 where
  pub proxy_server_config : LurkProxyServerConfig
  pub http_endpoint_config : LurkHttpEndpointConfig

unfoldable pub server_tcp_bind_addr : LurkConfig → Result SocketAddr
server_tcp_bind_addr config =
    let port = config.proxy_server_config.proxy_port in
    and_then (expect config.proxy_server_config.proxy_ipv4)
      λ ipv4. ok (v4 (record { ip = ipv4; port = port }))

unfoldable pub http_endpoint_bind_addr : LurkConfig → Option SocketAddr
http_endpoint_bind_addr config =
    if not config.http_endpoint_config.http_endpoint_enabled
    then none
    else some (v4 (record { ip = 0; port = config.http_endpoint_config.http_endpoint_port }))
