-- ===== src/Net.antt =====
-- `parse::<Ipv4Addr>()` and `parse::<Ipv6Addr>()` of the standard library, which decide how a host
-- is written into a SOCKS5 request. Each reader returns what it read and the rest.
pub mod Lengths
use gust.Prelude.{
  ℕ, zero, suc, ◌+◌, ◌-◌, ◌*◌, ◌/◌, ◌%◌, Bool, true, false, not, ◌&&◌, ◌||◌, List, [], ◌∷◌, ◌++◌,
  Option, none, some, between, leb, ltb, ◌==◌, if◌then◌else◌, length, is_empty, replicate, nth,
}
use gust.Text.{Text}
use gust.Text.Utf8.{Bytes, as_bytes}

infixl 5 ◌>>=◌
abbrev pub ◌>>=◌ {ℓ κ} : {A : Type ℓ} {B : Type κ} → Option A → (A → Option B) → Option B
none >>= f = none
some a >>= f = f a

-- `c.to_digit(radix)` for the radixes 10 and 16
unfoldable pub to_digit : ℕ → ℕ → Option ℕ
to_digit radix c =
    if between b'0' b'9' c
    then some (c - b'0')
    else if radix == 16 && between b'a' b'f' c
    then some (c - b'a' + 10)
    else if radix == 16 && between b'A' b'F' c
    then some (c - b'A' + 10)
    else none

-- the digits ahead, as the value, their number and the rest
unfoldable pub read_digits : ℕ → ℕ → ℕ → Text → ℕ → ℕ → Option (ℕ × ℕ × Text)
unfolding to_digit
read_digits radix limit max_digits [] n count = some (n, count, [])
read_digits radix limit max_digits (c ∷ s) n count = elim (to_digit radix c) [
  | none ↦ some (n, count, c ∷ s)
  | some d ↦
      let m = n * radix + d in
      let rest = read_digits radix limit max_digits s m (count + 1) in
      if leb m limit && ltb count max_digits then rest else none
]

abbrev leading_zero : Text → Bool
leading_zero [] = false
leading_zero (c ∷ s) = c == b'0'

-- `Parser::read_number`
unfoldable pub read_number : ℕ → ℕ → ℕ → Bool → Text → Option (ℕ × Text)
unfolding read_digits
read_number radix limit max_digits allow_zero_prefix s = do
  (n, count, rest) ← read_digits radix limit max_digits s 0 0
  let refused = count == 0 || not allow_zero_prefix && (leading_zero s && ltb 1 count)
  if refused then none else some (n, rest)

-- `Parser::read_given_char`
unfoldable pub read_char : ℕ → Text → Option Text
read_char c [] = none
read_char c (x ∷ s) = if x == c then some s else none

abbrev pub read_octet : Text → Option (ℕ × Text)
read_octet = read_number 10 255 3 false

abbrev pub read_dotted : Text → Option (ℕ × Text)
read_dotted s = do s1 ← read_char b'.' s; read_octet s1

-- `Parser::read_ipv4_addr`, as the four octets
unfoldable pub read_ipv4 : Text → Option (Bytes × Text)
read_ipv4 s = do
  (a, s1) ← read_octet s
  (b, s2) ← read_dotted s1
  (c, s3) ← read_dotted s2
  (d, s4) ← read_dotted s3
  some (a ∷ b ∷ c ∷ d ∷ [], s4)

-- `Parser::read_separator`: nothing before the first item
abbrev pub read_colon : ℕ → Text → Option Text
read_colon i s = if i == 0 then some s else read_char b':' s

abbrev pub read_embedded : ℕ → Text → Option (Bytes × Text)
read_embedded i s = do s1 ← read_colon i s; read_ipv4 s1

abbrev pub read_group : ℕ → Text → Option (ℕ × Text)
read_group i s = do s1 ← read_colon i s; read_number 16 0xffff 4 true s1

abbrev pub octet_groups : Bytes → List ℕ
octet_groups o = (nth 0 o * 256 + nth 1 o) ∷ (nth 2 o * 256 + nth 3 o) ∷ []

-- The groups that were read, whether an IPv4 address ended them, and the rest.
abbrev pub Groups : Type 0
Groups = List ℕ × Bool × Text

abbrev pub before_group : ℕ → Groups → Groups
before_group g (gs, v4, rest) = (g ∷ gs, v4, rest)

-- One round: an embedded IPv4 address ends the groups, and so does what is no group.
abbrev pub group_step : Option (Bytes × Text) → Option (ℕ × Text) → (Text → Groups) → Text → Groups
group_step (some (o, rest)) g next s = (octet_groups o, true, rest)
group_step none (some (g, rest)) next s = before_group g (next rest)
group_step none none next s = ([], false, s)

-- `read_groups`. The first argument counts the groups that there is room for, the second those
-- that were read; an embedded address takes the room of two.
unfoldable pub read_groups : ℕ → ℕ → Text → Groups
read_groups zero i s = ([], false, s)
read_groups (suc k) i s =
    group_step (if k == 0 then none else read_embedded i s) (read_group i s) (read_groups k (i + 1))
      s

-- `Parser::read_ipv6_addr`, as the eight groups
unfoldable pub read_ipv6 : Text → Option (List ℕ × Text)
read_ipv6 s =
    let (head, head_ipv4, rest) = read_groups 8 0 s in
    if length head == 8 then some (head, rest) else if head_ipv4 then none else (do
      s1 ← read_char b':' rest
      s2 ← read_char b':' s1
      let (tail, _, rest') = read_groups (7 - length head) 0 s2
      some (head ++ (replicate (8 - length head - length tail) 0 ++ tail), rest'))

-- `host.parse::<Ipv4Addr>()`, as its octets
unfoldable pub parse_ipv4 : Text → Option Bytes
parse_ipv4 s =
    if ltb 15 (length (as_bytes s))
    then none
    else (do (o, rest) ← read_ipv4 s; if is_empty rest then some o else none)

abbrev pub group_bytes : List ℕ → Bytes
group_bytes [] = []
group_bytes (g ∷ gs) = (g / 256) ∷ (g % 256) ∷ group_bytes gs

-- `host.parse::<Ipv6Addr>()`, as its octets
unfoldable pub parse_ipv6 : Text → Option Bytes
parse_ipv6 s = do (gs, rest) ← read_ipv6 s; if is_empty rest then some (group_bytes gs) else none
