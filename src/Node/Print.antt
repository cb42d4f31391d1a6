-- ===== src/Node/Print.antt =====
-- The node string of a parsed node, by the grammar that src/node.rs states, and which nodes have
-- one: an independent description of the format, against which `parse_node` is checked.
pub mod Chars
pub mod RoundTrip
use gust.Prelude.{
  ℕ, ◌≤◌, ◌≡◌, ◌≢◌, Bool, true, false, ◌||◌, List, [], ◌∷◌, ◌++◌, Option, none, some, All, Lacks,
  between, ◌==◌, if◌then◌else◌,
}
use gust.Text.{Text, codes, contains, to_ascii_lowercase, is_whitespace}
use gust.Text.Number.{show, max_u16}
use gust.Text.Trim.{Free, NoStart, NoEnd}
use gust.Text.Utf8.Laws.{IsScalar}
use gust.Node.{Node, Query}
use gust.Node.Query.{query_text, HasPlainPair, DistinctFrom}
use gust.Node.Percent.RoundTrip.{percent_encode}

-- the characters of RFC 3986 that are never escaped
abbrev pub unreserved : ℕ → Bool
unreserved c =
    between b'a' b'z' c
    || between b'A' b'Z' c
    || between b'0' b'9' c
    || c == b'-'
    || c == b'.'
    || c == b'_'
    || c == b'~'

abbrev pub encoded : Text → Text
encoded = percent_encode unreserved

abbrev pub port_text : Option ℕ → Text
port_text none = []
port_text (some p) = b':' ∷ show p

-- a host with a colon stands in brackets
abbrev pub host_port_text : Text → Option ℕ → Text
host_port_text host o =
    if contains b':' host then b'[' ∷ (host ++ b']' ∷ port_text o) else host ++ port_text o

abbrev pub userinfo_text : Text → Option Text → Text
userinfo_text u none = encoded u
userinfo_text u (some p) = encoded u ++ b':' ∷ encoded p

abbrev pub authority_text : Option Text → Option Text → Text → Text
authority_text none pass hp = hp
authority_text (some u) pass hp = userinfo_text u pass ++ b'@' ∷ hp

abbrev pub query_part : Query → Text
query_part [] = []
query_part (kv ∷ q) = b'?' ∷ query_text (kv ∷ q)

abbrev pub rest_text : Node → Text
rest_text n =
    authority_text n.user n.pass (host_port_text n.host n.port)
    ++ b'/' ∷ (n.target ++ query_part n.query)

pub print_node : Node → Text
print_node n = n.scheme ++ (codes "://" ++ rest_text n)

abbrev pub slash : ℕ → Bool
slash c = c == b'/'

abbrev pub IsHostChar : ℕ → Type 0
IsHostChar c =
    (c ≢ b'@') × (c ≢ b'/') × (c ≢ b'?') × (c ≢ b'[') × (c ≢ b']') × (is_whitespace c ≡ false)

abbrev pub IsTargetChar : ℕ → Type 0
IsTargetChar c = (c ≢ b'?') × (is_whitespace c ≡ false)

abbrev pub IsPart : Option Text → Type 0
IsPart none = Unit {0}
IsPart (some t) = All IsScalar t

abbrev pub IsPort : Option ℕ → Type 0
IsPort none = Unit {0}
IsPort (some p) = p ≤ max_u16

abbrev pub IsFreePair : Text × Text → Type 0
IsFreePair (k, v) = Free is_whitespace k × Free is_whitespace v

-- Which nodes the format can express.
pub record IsPrintable (n : Node) : Type 0 where
  pub scheme_ne_nil : n.scheme ≢ []
  pub scheme_lower : to_ascii_lowercase n.scheme ≡ n.scheme
  pub scheme_plain : Lacks b':' n.scheme
  pub scheme_free : Free is_whitespace n.scheme
  pub user_first : n.user ≡ none → n.pass ≡ none
  pub user_scalar : IsPart n.user
  pub pass_scalar : IsPart n.pass
  pub host_chars : All IsHostChar n.host
  pub port_fits : IsPort n.port
  pub target_chars : All IsTargetChar n.target
  pub target_start : NoStart slash n.target
  pub target_end : NoEnd slash n.target
  pub query_plain : All HasPlainPair n.query
  pub query_distinct : DistinctFrom [] n.query
  pub query_free : All IsFreePair n.query
