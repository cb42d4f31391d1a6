-- ===== src/Node.antt =====
-- src/node.rs: node strings `scheme://[user:pass@]host:port[/target][?query]`. Errors carry what
-- their messages are built from.
pub mod Percent
pub mod HostPort
pub mod Query
pub mod Print
pub mod Targets
pub mod WellFormed
use gust.Prelude.{
  ℕ, Bool, true, false, not, List, [], ◌∷◌, ◌++◌, Option, none, some, ◌||◌, Result, ok, err, ◌>>=◌,
  ◌>>◌, reject_if, ok_or, map_err, ◌==◌, if◌then◌else◌, is_empty, list_eq,
}
use gust.Text.{
  Text, codes, cut, rcut, span_until, cut_text, strip_prefix, split, to_ascii_lowercase, trim,
  trim_matches,
}
use gust.Text.Number.{show, parse_unsigned, max_u16}
use Percent.{decode}

-- `HashMap<String, String>`: an insert replaces what the key had.
abbrev pub Query : Type 0
Query = List (Text × Text)

unfoldable pub query_get : Text → Query → Option Text
unfolding list_eq
query_get k [] = none
query_get k ((j, v) ∷ q) = if list_eq j k then some v else query_get k q

unfoldable pub query_insert : Text → Text → Query → Query
unfolding list_eq
query_insert k v [] = (k, v) ∷ []
query_insert k v ((j, w) ∷ q) = if list_eq j k then (k, v) ∷ q else (j, w) ∷ query_insert k v q

pub record Node : Type 0 where
  pub scheme : Text
  pub user : Option Text
  pub pass : Option Text
  pub host : Text
  pub port : Option ℕ
  pub target : Text
  pub query : Query

pub data HostPortError : Type 0 where
  unterminated_bracket : HostPortError
  after_literal : Text → HostPortError
  invalid_port : Text → HostPortError

pub data NodeError : Type 0 where
  empty_node : NodeError
  missing_scheme : Text → NodeError
  empty_scheme : Text → NodeError
  in_node : Text → HostPortError → NodeError

-- `format!("{}:{}", host, port)`
abbrev pub host_port : Text → ℕ → Text
host_port h p = h ++ b':' ∷ show p

-- `Node::authority`
unfoldable pub authority : Node → Option Text
authority n = elim n.port [ none ↦ none | some p ↦ some (host_port n.host p) ]

-- `Node::bind_string`
unfoldable pub bind_string : Node → Option Text
bind_string n = elim n.port [
  | none ↦ none
  | some p ↦
      if is_empty n.host then some (host_port (codes "0.0.0.0") p) else some (host_port n.host p)
]

-- the part if it is not empty
abbrev pub keep_nonempty : Text → List Text → List Text
keep_nonempty t ts = if is_empty t then ts else t ∷ ts

-- `split(',').map(trim).filter(non-empty)`
unfoldable pub trimmed_parts : List Text → List Text
trimmed_parts [] = []
trimmed_parts (t ∷ ts) = keep_nonempty (trim t) (trimmed_parts ts)

-- `Node::targets`
unfoldable pub targets : Node → List Text
unfolding trimmed_parts
targets n = trimmed_parts (split b',' n.target)

unfoldable pub parse_port : Text → Result HostPortError ℕ
parse_port p = ok_or (parse_unsigned max_u16 p) (invalid_port p)

-- what stands behind the bracket of an IPv6 literal
unfoldable pub port_after_bracket : Text → Result HostPortError (Option ℕ)
unfolding parse_port
port_after_bracket [] = ok none
port_after_bracket (c ∷ after) =
    if c == b':' then (do p ← parse_port after; ok (some p)) else err (after_literal (c ∷ after))

unfoldable pub parse_bracketed : Text → Result HostPortError (Text × Option ℕ)
unfolding port_after_bracket
parse_bracketed stripped = elim (cut b']' stripped) [
  | none ↦ err unterminated_bracket
  | some (host, after) ↦ do port ← port_after_bracket after; ok (host, port)
]

unfoldable pub parse_plain : Text → Result HostPortError (Text × Option ℕ)
unfolding parse_port
parse_plain hp = elim (rcut b':' hp) [
  | some (host, p) ↦ do port ← parse_port p; ok (host, some port)
  | none ↦ ok (hp, none)
]

unfoldable pub parse_host_port : Text → Result HostPortError (Text × Option ℕ)
unfolding parse_bracketed parse_plain
parse_host_port [] = ok ([], none)
parse_host_port (c ∷ hp) = if c == b'[' then parse_bracketed hp else parse_plain (c ∷ hp)

-- the path and the query string of what follows the authority
unfoldable pub path_and_query : Text → Text × Text
path_and_query [] = ([], [])
path_and_query (c ∷ rest) =
    if c == b'?'
    then ([], rest)
    else if c == b'/'
    then elim (cut b'?' rest) [ some (path, q) ↦ (path, q) | none ↦ (rest, []) ]
    else ([], [])

-- `(user, pass)` of the authority's userinfo
pub userinfo_parts : Text → Option Text × Option Text
unfolding decode
userinfo_parts ui = elim (cut b':' ui) [
  | some (u, p) ↦ (some (decode u), some (decode p))
  | none ↦ (some (decode ui), none)
]

-- `(user, pass, hostport)`: the userinfo ends at the last `@`
unfoldable pub split_userinfo : Text → Option Text × Option Text × Text
unfolding userinfo_parts
split_userinfo authority = elim (rcut b'@' authority) [
  | some (ui, hp) ↦ let (u, p) = userinfo_parts ui in (u, p, hp)
  | none ↦ (none, none, authority)
]

-- one round of the loop over the query's pairs
-- one round of the loop over the query's pairs
abbrev pub insert_pair : Text → Query → Query
insert_pair [] q = q
insert_pair (c ∷ pair) q = elim (cut b'=' (c ∷ pair)) [
  | some (k, v) ↦ query_insert k v q
  | none ↦ query_insert (c ∷ pair) [] q
]

unfoldable pub query_pairs : List Text → Query → Query
unfolding query_insert
query_pairs [] q = q
query_pairs (p ∷ ps) q = query_pairs ps (insert_pair p q)

abbrev pub ends_authority : ℕ → Bool
ends_authority c = c == b'/' || c == b'?'

-- the `Node` that is returned
abbrev pub build_node : Text → Option Text → Option Text → Text → Text → Text × Option ℕ → Node
build_node scheme user pass path query_str (host, port) = record {
  scheme = scheme;
  user = user;
  pass = pass;
  host = host;
  port = port;
  target = trim_matches (λ c. c == b'/') path;
  query = query_pairs (split b'&' query_str) [];
}

-- the part of `parse_node` behind the scheme
unfoldable pub parse_rest : Text → Text → Text → Result NodeError Node
unfolding path_and_query split_userinfo parse_host_port query_pairs
parse_rest s scheme rest =
    let (auth, remainder) = span_until ends_authority rest in
    let (path, query_str) = path_and_query remainder in
    let (user, pass, hostport) = split_userinfo auth in
    do
      host_and_port ← map_err (in_node s) (parse_host_port hostport)
      ok (build_node scheme user pass path query_str host_and_port)

unfoldable pub parse_trimmed : Text → Result NodeError Node
unfolding parse_rest
parse_trimmed s = elim (cut_text (codes "://") s) [
  | none ↦ err (missing_scheme s)
  | some (scheme, rest) ↦ do
    reject_if (is_empty scheme) (empty_scheme s)
    parse_rest s (to_ascii_lowercase scheme) rest
]

unfoldable pub parse_node : Text → Result NodeError Node
unfolding parse_trimmed
parse_node s = do reject_if (is_empty (trim s)) empty_node; parse_trimmed (trim s)
