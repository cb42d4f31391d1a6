-- ===== src/Socks5.antt =====
-- src/socks5.rs: the client side of a SOCKS5 handshake, over a byte stream with its peer's bytes.
pub mod Stream
pub mod Address
pub mod Transcript
use gust.Prelude.{
  ℕ, ◌+◌, ◌/◌, ◌%◌, Bool, true, false, not, ◌||◌, List, [], ◌∷◌, ◌++◌, Option, none, some, Result,
  ok, err, ltb, ◌==◌, if◌then◌else◌, length, nth,
}
use gust.Text.{Text}
use gust.Text.Utf8.{Bytes, as_bytes}
use gust.Net.{parse_ipv4, parse_ipv6}
use Stream.{
  Io, Error, bad_method_version, auth_not_configured, methods_rejected, unsupported_method,
  credentials_too_long, auth_failed, hostname_too_long, bad_reply_version, connect_failed,
  unknown_atyp, ◌>>=◌, ◌>>◌, done, fail, fail_if, write_all, read_exact,
}

abbrev pub version : ℕ
version = 0x05

abbrev pub method_no_auth : ℕ
method_no_auth = 0x00

abbrev pub method_user_pass : ℕ
method_user_pass = 0x02

abbrev pub method_none : ℕ
method_none = 0xff

abbrev pub cmd_connect : ℕ
cmd_connect = 0x01

abbrev pub atyp_ipv4 : ℕ
atyp_ipv4 = 0x01

abbrev pub atyp_domain : ℕ
atyp_domain = 0x03

abbrev pub atyp_ipv6 : ℕ
atyp_ipv6 = 0x04

abbrev pub auth_version : ℕ
auth_version = 0x01

abbrev pub text_or_empty : Option Text → Text
text_or_empty none = []
text_or_empty (some t) = t

abbrev pub methods : Option Text → Bytes
methods none = method_no_auth ∷ []
methods (some u) = method_no_auth ∷ method_user_pass ∷ []

-- the version, the number of methods, and the methods
abbrev pub method_request : Option Text → Bytes
method_request user = version ∷ (length (methods user) % 256) ∷ methods user

abbrev pub auth_request : Text → Text → Bytes
auth_request user pass =
    auth_version
    ∷ (length (as_bytes user) % 256)
    ∷ (as_bytes user ++ (length (as_bytes pass) % 256) ∷ as_bytes pass)

unfoldable pub user_pass_auth : Text → Text → Io (Unit {0})
user_pass_auth user pass = do
  fail_if (ltb 255 (length (as_bytes user)) || ltb 255 (length (as_bytes pass)))
      credentials_too_long
  write_all (auth_request user pass)
  resp ← read_exact 2
  fail_if (not (nth 1 resp == 0x00)) (auth_failed (nth 1 resp))

-- what follows the server's choice of a method
unfoldable pub chosen_method : Option Text → Option Text → ℕ → Io (Unit {0})
chosen_method user pass m =
    if m == method_no_auth
    then done tt
    else if m == method_user_pass
    then elim user [
      | none ↦ fail auth_not_configured
      | some u ↦ user_pass_auth u (text_or_empty pass)
    ]
    else if m == method_none
    then fail methods_rejected
    else fail (unsupported_method m)

unfoldable pub negotiate_method : Option Text → Option Text → Io (Unit {0})
negotiate_method user pass = do
  write_all (method_request user)
  resp ← read_exact 2
  fail_if (not (nth 0 resp == version)) (bad_method_version (nth 0 resp))
  chosen_method user pass (nth 1 resp)

abbrev pub domain_bytes : Bytes → Result Error Bytes
domain_bytes b =
    if ltb 255 (length b) then err hostname_too_long else ok (atyp_domain ∷ (length b % 256) ∷ b)

-- The address type and the address, as they are appended to the request.
unfoldable pub encode_addr : Text → Result Error Bytes
unfolding parse_ipv4 parse_ipv6 as_bytes
encode_addr host = elim (parse_ipv4 host) [
  | some v4 ↦ ok (atyp_ipv4 ∷ v4)
  | none ↦ elim (parse_ipv6 host) [
    | some v6 ↦ ok (atyp_ipv6 ∷ v6)
    | none ↦ domain_bytes (as_bytes host)
  ]
]

-- `encode_addr(..)?`
abbrev pub lift {ℓ} : {A : Type ℓ} → Result Error A → Io A
lift (ok a) = done a
lift (err e) = fail e

abbrev pub to_be_bytes : ℕ → Bytes
to_be_bytes p = (p / 256) ∷ (p % 256) ∷ []

abbrev pub connect_request : Bytes → ℕ → Bytes
connect_request addr port = version ∷ cmd_connect ∷ 0x00 ∷ (addr ++ to_be_bytes port)

-- the length of the bound address in the reply
unfoldable pub reply_addr_len : ℕ → Io ℕ
reply_addr_len atyp =
    if atyp == atyp_ipv4
    then done 4
    else if atyp == atyp_ipv6
    then done 16
    else if atyp == atyp_domain
    then read_exact 1 >>= (λ l. done (nth 0 l))
    else fail (unknown_atyp atyp)

unfoldable pub read_reply : Io (Unit {0})
read_reply = do
  head ← read_exact 4
  fail_if (not (nth 0 head == version)) (bad_reply_version (nth 0 head))
  fail_if (not (nth 1 head == 0x00)) (connect_failed (nth 1 head))
  addr_len ← reply_addr_len (nth 3 head)
  scratch ← read_exact (addr_len + 2)
  done tt

unfoldable pub send_connect : Text → ℕ → Io (Unit {0})
send_connect host port = do
  addr ← lift (encode_addr host)
  write_all (connect_request addr port)
  read_reply

unfoldable pub connect : Text → ℕ → Option Text → Option Text → Io (Unit {0})
connect host port user pass = do negotiate_method user pass; send_connect host port
