-- ===== src/Socks5/Codes.antt =====
-- The byte codes of methods, commands and replies: what each table reads and writes.
use lurk.Error.{
  connection_aborted, udp_associate, password, InvalidValue, gss_api, io_error,
  unresolved_domain_name, data_error, ErrorKind, LurkError, unsupported_socks_command, tcp_bind,
  err, LurkAuthMethod, lurk_error, ok, tcp_connect, Error, Command,
}
use lurk.Socks5.{
  status_of_kind, as_u8, as_socks5_const, status_of_error, status_of_lurk_error, try_from,
  from_socks5_const,
}
use lurk.Common.{◌<◌, arith, ◌≢◌, ◌≤◌, ℕ, ◌≡◌, ◌↔◌, refl}

-- A byte is read as a method exactly if it is the byte that stands for the method.
pub from_socks5_const_iff :
    (value : ℕ) (m : LurkAuthMethod)
    → (from_socks5_const value ≡ ok m) ↔ (value ≡ as_socks5_const m)
unfolding from_socks5_const as_socks5_const
from_socks5_const_iff value LurkAuthMethod.none = ground arith
from_socks5_const_iff value gss_api = ground arith
from_socks5_const_iff value password = ground arith

-- Every other byte is refused, with the byte in the error.
pub from_socks5_const_unknown :
    (value : ℕ)
    → 3 ≤ value
    → from_socks5_const value ≡ err (lurk_error (data_error (InvalidValue.auth_method value)))
unfolding from_socks5_const
from_socks5_const_unknown value h = ground arith

-- CMD in RFC 1928, section 4.
abbrev pub command_code : Command → ℕ
command_code tcp_connect = 1
command_code tcp_bind = 2
command_code udp_associate = 3

-- A byte is read as a command exactly if it is the command's code in RFC 1928; every other byte is
-- refused, with the byte in the error.
pub try_from_lem :
    (value : ℕ)
    → ((c : Command) → (try_from value ≡ ok c) ↔ (value ≡ command_code c))
      × ((value ≢ 1) × (value ≢ 2) × (value ≢ 3)
          → try_from value ≡ err (lurk_error (data_error (InvalidValue.socks_command value))))
unfolding try_from
try_from_lem value = (by_command, ground arith)
  where
    by_command : (c : Command) → (try_from value ≡ ok c) ↔ (value ≡ command_code c)
    by_command tcp_connect = ground arith
    by_command tcp_bind = ground arith
    by_command udp_associate = ground arith

-- The program's table of reply codes, by what an error holds: 7 for a command that is not supported, 4
-- for a name that is not resolved and for an aborted connection, 5 for a refused connection, 1 for all
-- else, also where RFC 1928, section 6, has a code of its own (3, an unreachable network).
abbrev pub reply_code : Error → ℕ
reply_code (lurk_error (unsupported_socks_command c)) = 7
reply_code (lurk_error (unresolved_domain_name name)) = 4
reply_code (io_error ErrorKind.connection_refused) = 5
reply_code (io_error connection_aborted) = 4
reply_code _ = 1

reply_code_pos : (e : Error) → reply_code e ≢ 0
reply_code_pos (lurk_error (unsupported_socks_command c)) = omega arith
reply_code_pos (lurk_error _) = omega arith
reply_code_pos (io_error ErrorKind.connection_refused) = omega arith
reply_code_pos (io_error _) = omega arith
reply_code_pos _ = omega arith

pub reply_code_bound : (e : Error) → reply_code e < 9
reply_code_bound (lurk_error (unsupported_socks_command c)) = omega arith
reply_code_bound (lurk_error _) = omega arith
reply_code_bound (io_error ErrorKind.connection_refused) = omega arith
reply_code_bound (io_error _) = omega arith
reply_code_bound _ = omega arith

status_of_lurk_error-code :
    (e : LurkError) → as_u8 (status_of_lurk_error e) ≡ reply_code (lurk_error e)
unfolding status_of_lurk_error as_u8
status_of_lurk_error-code (unsupported_socks_command c) = refl
status_of_lurk_error-code (unresolved_domain_name name) = refl
status_of_lurk_error-code _ = refl

status_of_kind-code : (k : ErrorKind) → as_u8 (status_of_kind k) ≡ reply_code (io_error k)
unfolding status_of_kind as_u8
status_of_kind-code ErrorKind.connection_refused = refl
status_of_kind-code _ = refl

-- Every error is sent as the code that the table has for it, and never as a success.
pub as_u8-status_of_error :
    (e : Error) → (as_u8 (status_of_error e) ≡ reply_code e) × (as_u8 (status_of_error e) ≢ 0)
unfolding status_of_error as_u8
as_u8-status_of_error (lurk_error e) =
    rw (status_of_lurk_error-code e) (refl, reply_code_pos (lurk_error e))
as_u8-status_of_error (io_error k) = rw (status_of_kind-code k) (refl, reply_code_pos (io_error k))
as_u8-status_of_error _ = (refl, omega arith)
