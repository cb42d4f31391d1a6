-- ===== src/Socks5/Address.antt =====
-- `encode_addr` of src/socks5.rs against the reading that RFC 1928 gives of an address field.
use gust.Prelude.{
  ℕ, ◌%◌, ◌<◌, ◌≡◌, ◌↔◌, subst, inl, inr, [], ◌∷◌, ◌++◌, Option, none, some, Result, ok, err, arith,
  ltb, ◌==◌, length, take, drop, take_append, drop_append, Bool-cases, Option-cases, if◌then◌else◌,
}
use gust.Text.{Text}
use gust.Text.Utf8.{Bytes, as_bytes}
use gust.Net.{parse_ipv4, parse_ipv6}
use gust.Net.Lengths.{parse_ipv4-length, parse_ipv6-length}
use gust.Socks5.Stream.{Error, hostname_too_long}
use gust.Socks5.{encode_addr, domain_bytes}

-- What an address field names.
pub data Destination : Type 0 where
  ipv4 ipv6 domain : Bytes → Destination

-- A server's reading of an address field, with what follows it.
pub decode_addr : Bytes → Option (Destination × Bytes)
decode_addr [] = none
decode_addr (a ∷ s) =
    if a == 1
    then some (ipv4 (take 4 s), drop 4 s)
    else if a == 4
    then some (ipv6 (take 16 s), drop 16 s)
    else if a == 3
    then read_domain s
    else none
  where
    read_domain : Bytes → Option (Destination × Bytes)
    read_domain [] = none
    read_domain (l ∷ t) = some (domain (take l t), drop l t)

-- The destination that a host means: an address where it is a literal, otherwise its name.
pub destination : Text → Destination
destination host = elim (parse_ipv4 host) [
  | some v4 ↦ ipv4 v4
  | none ↦ elim (parse_ipv6 host) [ some v6 ↦ ipv6 v6 | none ↦ domain (as_bytes host) ]
]

-- The reading of an encoded address, for every way that a host parses.
Reads : Destination → Result Error Bytes → Bytes → Type 0
Reads d (ok addr) rest = decode_addr (addr ++ rest) ≡ some (d, rest)
Reads d (err e) rest = Unit {0}

take_long : (n : ℕ) (b rest : Bytes) → length b ≡ n → take n (b ++ rest) ≡ b
take_long n b rest h = rw (← h) (take_append b rest)

drop_long : (n : ℕ) (b rest : Bytes) → length b ≡ n → drop n (b ++ rest) ≡ rest
drop_long n b rest h = rw (← h) (drop_append b rest)

decode_ipv4 : (b rest : Bytes) → length b ≡ 4 → decode_addr (1 ∷ (b ++ rest)) ≡ some (ipv4 b, rest)
unfolding decode_addr
decode_ipv4 b rest h = λ i. some (ipv4 (take_long 4 b rest h i), drop_long 4 b rest h i)

decode_ipv6 : (b rest : Bytes) → length b ≡ 16 → decode_addr (4 ∷ (b ++ rest)) ≡ some (ipv6 b, rest)
unfolding decode_addr
decode_ipv6 b rest h = λ i. some (ipv6 (take_long 16 b rest h i), drop_long 16 b rest h i)

decode_domain :
    (n : ℕ) (b rest : Bytes)
    → length b ≡ n
    → decode_addr (3 ∷ n ∷ (b ++ rest)) ≡ some (domain b, rest)
unfolding decode_addr
decode_domain n b rest h = λ i. some (domain (take_long n b rest h i), drop_long n b rest h i)

domain_bytes-Reads : (b rest : Bytes) → Reads (domain b) (domain_bytes b) rest
unfolding Reads
domain_bytes-Reads b rest = elim (Bool-cases (ltb 255 (length b))) [
  | inl e ↦ rw e tt
  | inr e ↦ rw e (decode_domain (length b % 256) b rest (ground arith))
]

encode_addr-Reads : (host : Text) (rest : Bytes) → Reads (destination host) (encode_addr host) rest
unfolding encode_addr destination
encode_addr-Reads host rest = elim (Option-cases (parse_ipv4 host)) [
  | inr (v4, e) ↦
      rw (e, encode_addr, destination)
        (unfold Reads in decode_ipv4 v4 rest (parse_ipv4-length host v4 e))
  | inl e ↦ elim (Option-cases (parse_ipv6 host)) [
    | inr (v6, f) ↦
        rw (e, encode_addr, destination)
          (rw f (unfold Reads in decode_ipv6 v6 rest (parse_ipv6-length host v6 f)))
    | inl f ↦ rw (e, encode_addr, destination) (rw f (domain_bytes-Reads (as_bytes host) rest))
  ]
]

-- A server that reads the address field of a request finds the destination that the host means,
-- and the field's end, whatever follows.
pub decode_addr-encode_addr :
    (host : Text) (addr rest : Bytes)
    → encode_addr host ≡ ok addr
    → decode_addr (addr ++ rest) ≡ some (destination host, rest)
unfolding Reads
decode_addr-encode_addr host addr rest e =
    subst (λ r. Reads (destination host) r rest) e (encode_addr-Reads host rest)

-- Only a name is ever refused, exactly if it has more than 255 bytes.
pub encode_addr_fails_iff :
    (host : Text) (e : Error)
    → (encode_addr host ≡ err e) ↔ (
        (parse_ipv4 host ≡ none)
        × (parse_ipv6 host ≡ none)
        × (255 < length (as_bytes host))
        × (e ≡ hostname_too_long))
unfolding encode_addr
encode_addr_fails_iff host e = (λ h. ground arith, λ h. ground arith)
