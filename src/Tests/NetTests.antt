-- ===== src/Tests/NetTests.antt =====
-- The address parsers.
use gust.Prelude.{◌≡◌, refl, [], ◌∷◌, none, some}
use gust.Text.{codes}
use gust.Text.Utf8.{as_bytes}
use gust.Net.{read_number, read_char, read_ipv4, read_groups, read_ipv6, parse_ipv4, parse_ipv6}

ipv4_literal : parse_ipv4 (codes "1.2.3.4") ≡ some (1 ∷ 2 ∷ 3 ∷ 4 ∷ [])
unfolding parse_ipv4 read_ipv4 read_number read_char as_bytes
ipv4_literal = refl

ipv4_octal : parse_ipv4 (codes "1.2.3.04") ≡ none
unfolding parse_ipv4 read_ipv4 read_number read_char as_bytes
ipv4_octal = refl

ipv6_loopback :
    parse_ipv6 (codes "::1")
    ≡ some (0 ∷ 0 ∷ 0 ∷ 0 ∷ 0 ∷ 0 ∷ 0 ∷ 0 ∷ 0 ∷ 0 ∷ 0 ∷ 0 ∷ 0 ∷ 0 ∷ 0 ∷ 1 ∷ [])
unfolding parse_ipv6 read_ipv6 read_groups read_ipv4 read_number read_char
ipv6_loopback = refl

ipv6_embedded :
    parse_ipv6 (codes "2001:db8::1.2.3.4")
    ≡ some (0x20 ∷ 1 ∷ 0xd ∷ 0xb8 ∷ 0 ∷ 0 ∷ 0 ∷ 0 ∷ 0 ∷ 0 ∷ 0 ∷ 0 ∷ 1 ∷ 2 ∷ 3 ∷ 4 ∷ [])
unfolding parse_ipv6 read_ipv6 read_groups read_ipv4 read_number read_char
ipv6_embedded = refl

ipv6_domain : parse_ipv6 (codes "host.example") ≡ none
unfolding parse_ipv6 read_ipv6 read_groups read_ipv4 read_number read_char
ipv6_domain = refl
