-- ===== src/Tests/SocksTests.antt =====
-- The SOCKS5 client and the dialing through hops on concrete bytes.
use gust.Prelude.{◌≡◌, ◌↔◌, ◌<◌, refl, true, [], ◌∷◌, ◌++◌, none, some, ok, err, length}
use gust.Text.{Text, codes, rcut}
use gust.Text.Utf8.{Bytes, as_bytes}
use gust.Net.{parse_ipv4, parse_ipv6, read_ipv4, read_number, read_ipv6, read_groups, read_char}
use gust.Config.{ChainHop}
use gust.Socks5.{
  encode_addr, connect, negotiate_method, chosen_method, send_connect, read_reply, reply_addr_len,
}
use gust.Socks5.Stream.{Stream, hostname_too_long, write_all, read_exact}
use gust.Socks5.Stream.Moves.{Moves}
use gust.Socks5.Address.{decode_addr, destination, decode_addr-encode_addr, encode_addr_fails_iff}
use gust.Socks5.Transcript.{Transcript}
use gust.Socks5.Transcript.Complete.{connect_iff}
use gust.Chain.{dial, handshakes}
use gust.Netopt.{split_host_port}
use gust.Text.Number.{parse_unsigned}
use gust.Chain.Script.{Script, dial_iff}

abbrev example_host : Text
example_host = codes "example.com"

encode_example : encode_addr example_host ≡ ok (3 ∷ 11 ∷ codes "example.com")
unfolding encode_addr read_ipv4 read_number read_ipv6 read_groups read_char
encode_example = refl

decode_addr-encode_addr_example :
    decode_addr ((3 ∷ 11 ∷ codes "example.com") ++ 0 ∷ 80 ∷ [])
    ≡ some (destination example_host, 0 ∷ 80 ∷ [])
decode_addr-encode_addr_example =
    decode_addr-encode_addr example_host (3 ∷ 11 ∷ codes "example.com") (0 ∷ 80 ∷ []) encode_example

encode_addr_fails_iff_example : (encode_addr example_host ≡ err hostname_too_long) ↔ (
    (parse_ipv4 example_host ≡ none)
    × (parse_ipv6 example_host ≡ none)
    × (255 < length (as_bytes example_host))
    × (hostname_too_long ≡ hostname_too_long))
encode_addr_fails_iff_example = encode_addr_fails_iff example_host hostname_too_long

-- A server that takes no credentials, grants the request, and then sends "hi".
abbrev granted : Stream
granted = record {
  incoming = 5 ∷ 0 ∷ 5 ∷ 0 ∷ 0 ∷ 1 ∷ 0 ∷ 0 ∷ 0 ∷ 0 ∷ 0 ∷ 0 ∷ codes "hi";
  sent = [];
  room = 100;
}

abbrev connected : Stream
connected = record {
  incoming = codes "hi";
  sent = 5 ∷ 1 ∷ 0 ∷ 5 ∷ 1 ∷ 0 ∷ 1 ∷ 1 ∷ 2 ∷ 3 ∷ 4 ∷ 0 ∷ 80 ∷ [];
  room = 87;
}

connect_run_example : connect (codes "1.2.3.4") 80 none none granted ≡ (ok tt, connected)
unfolding connect negotiate_method write_all read_exact chosen_method send_connect encode_addr
    read_ipv4 read_number read_char read_reply reply_addr_len
connect_run_example = refl

connect_iff_example :
    (out : Bytes) × (inp : Bytes) × Transcript (codes "1.2.3.4") 80 none none out inp
    × Moves granted inp out connected
connect_iff_example =
    (connect_iff (codes "1.2.3.4") 80 none none granted connected).0 connect_run_example

abbrev hop : ChainHop
hop = record { addr = codes "proxy:1080"; user = none; pass = none }

dial_run_example :
    dial (λ _. true) (λ _. some granted) (hop ∷ []) (codes "1.2.3.4:80") ≡ ok connected
unfolding connect negotiate_method write_all read_exact chosen_method send_connect encode_addr
    read_ipv4 read_number read_char read_reply reply_addr_len dial handshakes split_host_port rcut
    parse_unsigned
dial_run_example = refl

dial_iff_example :
    (s : Stream) × (some granted ≡ some s)
    × (out : Bytes) × (inp : Bytes) × Script (hop ∷ []) (codes "1.2.3.4:80") out inp
    × Moves s inp out connected
dial_iff_example =
    (dial_iff (λ _. true) (λ _. some granted) (λ _. refl) hop [] (codes "1.2.3.4:80") connected).0
      dial_run_example
