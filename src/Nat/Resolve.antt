-- ===== src/Nat/Resolve.antt =====
-- `resolve_ip` of src/nat/linux.rs: which of a host's addresses is taken.
use gust.Prelude.{◌≡◌, refl, false, List, [], ◌∷◌, Option, none, some, All}
use gust.Text.{Text}
use gust.Text.Utf8.{Bytes}
use gust.Nat.Nftables.{IpAddr, v4, v6, is_ipv4}
use gust.Nat.{parse_ip, prefer_v4, resolve_ip}

abbrev pub IsV6 : IpAddr → Type 0
IsV6 a = is_ipv4 a ≡ false

prefer_v4-IsV6 :
    (fallback : Option IpAddr) (addrs : List IpAddr) (a : Bytes)
    → prefer_v4 fallback addrs ≡ some (v6 a)
    → All IsV6 addrs
unfolding prefer_v4
prefer_v4-IsV6 fallback [] a h = tt
prefer_v4-IsV6 fallback (v4 b ∷ addrs) a h = cc
prefer_v4-IsV6 fallback (v6 b ∷ addrs) a h = (refl, prefer_v4-IsV6 (some (v6 b)) addrs a h)

-- A host that is no address literal gets an IPv6 address only if the look-up gives no IPv4 address
-- at all.
pub resolve_ip-IsV6 :
    (lookup_host : Text → Option (List IpAddr)) (show_ip : IpAddr → Text) (host : Text)
    (addrs : List IpAddr) (a : Bytes)
    → parse_ip host ≡ none
    → lookup_host host ≡ some addrs
    → resolve_ip lookup_host show_ip host ≡ some (v6 a)
    → All IsV6 addrs
unfolding resolve_ip
resolve_ip-IsV6 lookup_host show_ip host addrs a e f h =
    prefer_v4-IsV6 none addrs a (rw (e, f, resolve_ip) at h)
