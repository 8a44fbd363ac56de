-- ===== src/Socks5.antt =====
-- proto/socks5/mod.rs: the protocol's constants, and the codes of methods, commands and replies.
-- The address codec of that file is in Address.
pub mod Grammar
pub mod Codes
pub mod Request
pub mod Response
pub mod Wire
pub mod Readers
pub mod CalmReaders
pub mod Parsing
mod Tests
use lurk.Error.{
  connection_aborted, InvalidValue, data_error, udp_associate, err, tcp_connect, password, io_error,
  unresolved_domain_name, tcp_bind, gss_api, lurk_error, unsupported_socks_command, ok, Error,
  ErrorKind, LurkError, Command, LurkAuthMethod, Result,
}
use lurk.Common.{false, true, Bool, ℕ, ◌==◌, if◌then◌else◌}

abbrev pub socks5_version : ℕ
socks5_version = 0x05

abbrev pub socks5_auth_method_none : ℕ
socks5_auth_method_none = 0x00

abbrev pub socks5_auth_method_gssapi : ℕ
socks5_auth_method_gssapi = 0x01

abbrev pub socks5_auth_method_password : ℕ
socks5_auth_method_password = 0x02

abbrev pub socks5_auth_method_not_acceptable : ℕ
socks5_auth_method_not_acceptable = 0xff

abbrev pub socks5_cmd_connect : ℕ
socks5_cmd_connect = 0x01

abbrev pub socks5_cmd_bind : ℕ
socks5_cmd_bind = 0x02

abbrev pub socks5_cmd_udp_associate : ℕ
socks5_cmd_udp_associate = 0x03

unfoldable pub from_socks5_const : ℕ → Result LurkAuthMethod
from_socks5_const value =
    if value == socks5_auth_method_none
    then ok LurkAuthMethod.none
    else if value == socks5_auth_method_gssapi
    then ok gss_api
    else if value == socks5_auth_method_password
    then ok password
    else err (lurk_error (data_error (InvalidValue.auth_method value)))

unfoldable pub as_socks5_const : LurkAuthMethod → ℕ
as_socks5_const LurkAuthMethod.none = socks5_auth_method_none
as_socks5_const gss_api = socks5_auth_method_gssapi
as_socks5_const password = socks5_auth_method_password

-- `Command::try_from`, its `LurkError` converted by `?`
unfoldable pub try_from : ℕ → Result Command
try_from value =
    if value == socks5_cmd_bind
    then ok tcp_bind
    else if value == socks5_cmd_connect
    then ok tcp_connect
    else if value == socks5_cmd_udp_associate
    then ok udp_associate
    else err (lurk_error (data_error (InvalidValue.socks_command value)))

-- `PartialEq` of `Command`
unfoldable pub command_eq : Command → Command → Bool
command_eq tcp_connect tcp_connect = true
command_eq tcp_bind tcp_bind = true
command_eq udp_associate udp_associate = true
command_eq _ _ = false

pub data ReplyStatus : Type 0 where
  succeeded general_failure connection_not_allowed network_unreachable : ReplyStatus
  host_unreachable connection_refused ttl_expired command_not_supported : ReplyStatus
  address_type_not_supported : ReplyStatus
  other_reply : ℕ → ReplyStatus

unfoldable pub as_u8 : ReplyStatus → ℕ
as_u8 succeeded = 0x00
as_u8 general_failure = 0x01
as_u8 connection_not_allowed = 0x02
as_u8 network_unreachable = 0x03
as_u8 host_unreachable = 0x04
as_u8 ReplyStatus.connection_refused = 0x05
as_u8 ttl_expired = 0x06
as_u8 command_not_supported = 0x07
as_u8 address_type_not_supported = 0x08
as_u8 (other_reply other) = other

-- `From<LurkError>`
unfoldable pub status_of_lurk_error : LurkError → ReplyStatus
status_of_lurk_error (unsupported_socks_command command) = command_not_supported
status_of_lurk_error (unresolved_domain_name name) = host_unreachable
status_of_lurk_error _ = general_failure

status_of_kind : ErrorKind → ReplyStatus
status_of_kind ErrorKind.connection_refused = ReplyStatus.connection_refused
status_of_kind connection_aborted = host_unreachable
status_of_kind _ = general_failure

-- `From<anyhow::Error>`: `downcast` first to a `LurkError`, then to an `io::Error`.
unfoldable pub status_of_error : Error → ReplyStatus
unfolding status_of_lurk_error status_of_kind
status_of_error (lurk_error e) = status_of_lurk_error e
status_of_error (io_error kind) = status_of_kind kind
status_of_error _ = general_failure
