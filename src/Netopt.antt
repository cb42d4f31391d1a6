-- ===== src/Netopt.antt =====
-- src/netopt.rs: the socket options, and `split_host_port`.
pub mod Calls
pub mod Dial
use gust.Prelude.{
  ℕ, Bool, true, [], ◌∷◌, Option, none, some, Result, ok, ◌>>=◌, ◌>>◌, reject_if, ok_or, is_empty,
  ◌==◌, if◌then◌else◌,
}
use gust.Text.{Text, cut, rcut}
use gust.Text.Number.{parse_unsigned, max_u16}

pub record SockOpts : Type 0 where
  pub nodelay : Bool
  pub rcvbuf : Option ℕ
  pub sndbuf : Option ℕ

-- `SockOpts::default()`
abbrev pub default_sock_opts : SockOpts
default_sock_opts = record { nodelay = true; rcvbuf = none; sndbuf = none }

-- `io::Error` of the kind InvalidInput, for the text
pub data InvalidHostPort : Type 0 where
  invalid_host_port : Text → InvalidHostPort

-- `strip_prefix(':')`
abbrev pub strip_colon : Text → Option Text
strip_colon [] = none
strip_colon (c ∷ s) = if c == b':' then some s else none

-- the host and the text of the port
unfoldable pub host_and_port_text : Text → Option (Text × Text)
host_and_port_text [] = rcut b':' []
host_and_port_text (c ∷ s) =
    if c == b'['
    then elim (cut b']' s) [
      | none ↦ none
      | some (host, after) ↦ elim (strip_colon after) [
        | none ↦ none
        | some port ↦ some (host, port)
      ]
    ]
    else rcut b':' (c ∷ s)

unfoldable pub split_host_port : Text → Result InvalidHostPort (Text × ℕ)
unfolding host_and_port_text
split_host_port s = do
  (host, port_text) ← ok_or (host_and_port_text s) (invalid_host_port s)
  port ← ok_or (parse_unsigned max_u16 port_text) (invalid_host_port s)
  reject_if (is_empty host) (invalid_host_port s)
  ok (host, port)
