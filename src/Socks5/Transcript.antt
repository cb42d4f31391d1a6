-- ===== src/Socks5/Transcript.antt =====
-- The handshakes of RFC 1928 and RFC 1929, as the bytes that each side sends: an independent
-- description of a successful run of `connect` of src/socks5.rs. Where the code does not look at a
-- byte of the server, that byte is free: the reserved byte of the reply, and the version in the
-- answer to the credentials.
pub mod Requests
pub mod Sound
pub mod Complete
use gust.Prelude.{ℕ, ◌+◌, ◌≤◌, ◌≡◌, ◌⊎◌, [], ◌∷◌, ◌++◌, Option, none, some, length, ◌*◌, ◌<◌}
use gust.Text.{Text}
use gust.Text.Utf8.{Bytes, as_bytes}
use gust.Net.{parse_ipv4, parse_ipv6}

-- VER NMETHODS METHODS: without credentials only the method 0 is offered, and else 0 and 2.
abbrev pub greeting : Option Text → Bytes
greeting none = 5 ∷ 1 ∷ 0 ∷ []
greeting (some u) = 5 ∷ 2 ∷ 0 ∷ 2 ∷ []

-- no password is an empty one
abbrev pub password : Option Text → Bytes
password none = []
password (some p) = as_bytes p

-- VER ULEN UNAME PLEN PASSWD
abbrev pub credentials : Bytes → Bytes → Bytes
credentials u p = 1 ∷ length u ∷ (u ++ length p ∷ p)

-- ATYP DST.ADDR: a host that is an address literal is sent as that address, and another one as a
-- domain name of at most 255 bytes.
abbrev pub IsDestination : Text → Bytes → Type 0
IsDestination host addr =
    ((a : Bytes) × (parse_ipv4 host ≡ some a) × (addr ≡ 1 ∷ a))
    ⊎ ((a : Bytes) × (parse_ipv4 host ≡ none) × (parse_ipv6 host ≡ some a) × (addr ≡ 4 ∷ a))
    ⊎ ((parse_ipv4 host ≡ none)
        × (parse_ipv6 host ≡ none)
        × (length (as_bytes host) ≤ 255)
        × (addr ≡ 3 ∷ length (as_bytes host) ∷ as_bytes host))

-- VER CMD RSV and the destination, and then DST.PORT in network order
abbrev pub IsRequest : Text → ℕ → Bytes → Type 0
IsRequest host port out =
    (addr : Bytes) × (high low : ℕ) × IsDestination host addr
    × (high * 256 + low ≡ port)
    × (low < 256)
    × (out ≡ 5 ∷ 1 ∷ 0 ∷ (addr ++ high ∷ low ∷ []))

-- The bound address of a reply, by its type.
abbrev pub IsBoundAddr : ℕ → Bytes → Type 0
IsBoundAddr atyp a =
    ((atyp ≡ 1) × (length a ≡ 4))
    ⊎ ((atyp ≡ 4) × (length a ≡ 16))
    ⊎ ((atyp ≡ 3) × ((b : Bytes) × (a ≡ length b ∷ b)))

-- VER REP RSV ATYP BND.ADDR BND.PORT with the status 0
pub data IsReply : Bytes → Type 0 where
  reply :
      (rsv atyp : ℕ) (addr port r : Bytes)
      → IsBoundAddr atyp addr
      → length port ≡ 2
      → r ≡ 0x05 ∷ 0x00 ∷ rsv ∷ atyp ∷ (addr ++ port)
      → IsReply r

-- What is sent and received until a method is agreed on and passed.
pub data Negotiation (user pass : Option Text) : Bytes → Bytes → Type 0 where
  without_auth :
      (out inp : Bytes)
      → out ≡ greeting user
      → inp ≡ 0x05 ∷ 0x00 ∷ []
      → Negotiation user pass out inp
  with_auth :
      (u : Text) (v : ℕ) (out inp : Bytes)
      → user ≡ some u
      → length (as_bytes u) ≤ 255
      → length (password pass) ≤ 255
      → out ≡ greeting user ++ credentials (as_bytes u) (password pass)
      → inp ≡ 0x05 ∷ 0x02 ∷ v ∷ 0x00 ∷ []
      → Negotiation user pass out inp

-- A whole handshake.
pub data Transcript (host : Text) (port : ℕ) (user pass : Option Text)
    : Bytes → Bytes → Type 0 where
  handshake :
      (o i c r out inp : Bytes)
      → Negotiation user pass o i
      → IsRequest host port c
      → IsReply r
      → out ≡ o ++ c
      → inp ≡ i ++ r
      → Transcript host port user pass out inp
