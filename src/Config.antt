-- ===== src/Config.antt =====
-- src/config.rs: the validated configuration. Errors carry what their messages show.
pub mod HostPort
pub mod Asked
pub mod Listeners
pub mod Rules
pub mod NoPanic
pub mod Valid
use gust.Prelude.{
  ℕ, ℤ, pos, negsuc, suc, ◌+◌, ◌*◌, ◌-◌, ◌%◌, ◌^◌, Bool, true, false, not, ◌&&◌, ◌||◌, List, [],
  ◌∷◌, ◌++◌, Option, none, some, Result, ok, err, ◌>>=◌, ◌>>◌, reject_if, ok_or, map_err, is_empty,
  ltb, leb, between, ◌==◌, if◌then◌else◌, list_eq,
}
use gust.Text.{Text, codes, cut, rcut}
use gust.Text.Number.{show, parse_unsigned, max_u16}
use gust.Node.{Node, NodeError, parse_node, authority, bind_string, targets, query_get}
use gust.Netopt.{SockOpts, strip_colon}
use gust.Cli.{RawArgs}

pub data Protocol : Type 0 where
  tcp udp : Protocol

-- `Protocol::as_str`
abbrev pub proto_str : Protocol → Text
proto_str tcp = codes "tcp"
proto_str udp = codes "udp"

-- `==` on protocols
abbrev pub proto_eq : Protocol → Protocol → Bool
proto_eq tcp tcp = true
proto_eq udp udp = true
proto_eq _ _ = false

pub record ListenerSpec : Type 0 where
  pub proto : Protocol
  pub bind : Text
  pub port : ℕ
  pub targets : List Text
  pub nodelay : Bool
  pub name : Text

pub record ChainHop : Type 0 where
  pub addr : Text
  pub user : Option Text
  pub pass : Option Text

pub data Mode : Type 0 where
  userspace nat : Mode

-- `heartbeat` is in seconds.
pub record Config : Type 0 where
  pub listeners : List ListenerSpec
  pub chain : List ChainHop
  pub mode : Mode
  pub mark : Option ℕ
  pub set_ip_forward : Bool
  pub buf_size : ℕ
  pub heartbeat : ℕ
  pub debug : Bool
  pub worker_threads : Option ℕ
  pub sock : SockOpts

abbrev pub min_buf_kb : ℕ
min_buf_kb = 1

abbrev pub max_buf_kb : ℕ
max_buf_kb = 1024

-- The errors of `validate_hostport`.
pub data HostError : Type 0 where
  unterminated_bracket missing_port_after_literal missing_port missing_host : HostError
  invalid_port : Text → HostError

-- The errors of `build_config`; `expect_failed` is the panic of its `expect`.
pub data ConfigError : Type 0 where
  no_listeners : ConfigError
  bad_node : NodeError → ConfigError
  unsupported_scheme : Text → Text → ConfigError
  missing_listen_port : Text → ConfigError
  expect_failed : ConfigError
  missing_destination : Text → Protocol → ℕ → ConfigError
  bad_target : Text → Text → HostError → ConfigError
  unsupported_hop : Text → Text → ConfigError
  missing_hop_port : Text → ConfigError
  bad_hop : Text → HostError → ConfigError
  nat_with_chain : ConfigError
  udp_with_chain : Text → ConfigError
  duplicate_listener : ListenerSpec → ListenerSpec → ConfigError
  bad_buf_size : ℕ → ConfigError
  negative_mark : ℤ → ConfigError
  zero_workers : ConfigError

-- the host and the text of the port
unfoldable pub validated_parts : Text → Result HostError (Text × Text)
validated_parts [] = ok_or (rcut b':' []) missing_port
validated_parts (c ∷ s) =
    if c == b'['
    then (do
      (host, after) ← ok_or (cut b']' s) unterminated_bracket
      port ← ok_or (strip_colon after) missing_port_after_literal
      ok (host, port))
    else ok_or (rcut b':' (c ∷ s)) missing_port

unfoldable pub validate_hostport : Text → Result HostError (Unit {0})
unfolding validated_parts
validate_hostport s = do
  (host, port) ← validated_parts s
  reject_if (is_empty host) missing_host
  _ ← ok_or (parse_unsigned max_u16 port) (invalid_port port)
  ok tt

-- the protocol of a `-L` value's scheme
unfoldable pub listen_proto : Text → Text → Result ConfigError Protocol
unfolding list_eq
listen_proto ls scheme =
    if list_eq scheme (codes "tcp")
    then ok tcp
    else if list_eq scheme (codes "udp")
    then ok udp
    else err (unsupported_scheme ls scheme)

-- the loop over a listener's destinations
unfoldable pub validate_targets : Text → List Text → Result ConfigError (Unit {0})
unfolding validate_hostport
validate_targets ls [] = ok tt
validate_targets ls (t ∷ ts) = do
  map_err (bad_target ls t) (validate_hostport t)
  validate_targets ls ts

abbrev pub requests_nodelay : Option Text → Bool
requests_nodelay none = false
requests_nodelay (some v) = not (list_eq v (codes "false")) && not (list_eq v (codes "0"))

abbrev pub listener_name : Protocol → Text → ℕ → Text
listener_name proto host port =
    if is_empty host
    then proto_str proto ++ (codes "://:" ++ show port)
    else proto_str proto ++ (codes "://" ++ (host ++ b':' ∷ show port))

-- the `ListenerSpec` that is pushed
abbrev pub listener_of : Protocol → Text → ℕ → Node → ListenerSpec
listener_of proto bind port node = record {
  proto = proto;
  bind = bind;
  port = port;
  targets = targets node;
  nodelay = requests_nodelay (query_get (codes "nodelay") node.query);
  name = listener_name proto node.host port;
}

-- one round of the loop over the `-L` values
unfoldable pub build_listener : Text → Result ConfigError ListenerSpec
unfolding listen_proto validate_targets
build_listener ls = do
  node ← map_err bad_node (parse_node ls)
  proto ← listen_proto ls node.scheme
  bind ← ok_or (bind_string node) (missing_listen_port ls)
  port ← ok_or node.port expect_failed
  reject_if (is_empty (targets node)) (missing_destination ls proto port)
  validate_targets ls (targets node)
  ok (listener_of proto bind port node)

unfoldable pub build_listeners : List Text → Result ConfigError (List ListenerSpec)
build_listeners [] = ok []
build_listeners (ls ∷ rest) = do l ← build_listener ls; more ← build_listeners rest; ok (l ∷ more)

-- one round of the loop over the `-F` values
unfoldable pub build_hop : Text → Result ConfigError ChainHop
unfolding validate_hostport list_eq
build_hop fwd = do
  node ← map_err bad_node (parse_node fwd)
  reject_if (not (list_eq node.scheme (codes "socks5"))) (unsupported_hop fwd node.scheme)
  addr ← ok_or (authority node) (missing_hop_port fwd)
  map_err (bad_hop fwd) (validate_hostport addr)
  ok (record { addr = addr; user = node.user; pass = node.pass })

unfoldable pub build_chain : List Text → Result ConfigError (List ChainHop)
build_chain [] = ok []
build_chain (fwd ∷ rest) = do h ← build_hop fwd; more ← build_chain rest; ok (h ∷ more)

-- `listeners.iter().find(|l| l.proto == Protocol::Udp)`
unfoldable pub find_udp : List ListenerSpec → Option ListenerSpec
find_udp [] = none
find_udp (l ∷ ls) = if proto_eq l.proto udp then some l else find_udp ls

abbrev pub same_bind : ListenerSpec → ListenerSpec → Bool
same_bind a b = proto_eq a.proto b.proto && list_eq a.bind b.bind

-- the inner loop over the later listeners
unfoldable pub find_same_bind : ListenerSpec → List ListenerSpec → Option ListenerSpec
unfolding list_eq
find_same_bind a [] = none
find_same_bind a (b ∷ ls) = if same_bind a b then some b else find_same_bind a ls

abbrev pub refuse_some {ℓ} :
    {A : Type ℓ} → Option A → (A → ConfigError) → Result ConfigError (Unit {0})
refuse_some none e = ok tt
refuse_some (some a) e = err (e a)

unfoldable pub check_duplicates : List ListenerSpec → Result ConfigError (Unit {0})
unfolding find_same_bind
check_duplicates [] = ok tt
check_duplicates (a ∷ ls) = do
  refuse_some (find_same_bind a ls) (duplicate_listener a)
  check_duplicates ls

-- the rules that span several flags
unfoldable pub check_rules :
    Bool → List ListenerSpec → List ChainHop → Result ConfigError (Unit {0})
unfolding find_udp check_duplicates
check_rules is_nat listeners chain = do
  reject_if (is_nat && not (is_empty chain)) nat_with_chain
  refuse_some (if is_empty chain then none else find_udp listeners) (λ l. udp_with_chain l.name)
  check_duplicates listeners

abbrev pub unwrap_or {ℓ} : {A : Type ℓ} → Option A → A → A
unwrap_or none d = d
unwrap_or (some a) d = a

-- `m as u32` keeps the low 32 bits.
unfoldable pub checked_mark : Option ℤ → Result ConfigError (Option ℕ)
checked_mark none = ok none
checked_mark (some (pos m)) = ok (some (m % 2 ^ 32))
checked_mark (some (negsuc m)) = err (negative_mark (negsuc m))

abbrev pub is_zero_workers : Option ℕ → Bool
is_zero_workers none = false
is_zero_workers (some w) = w == 0

-- the `Config` that is returned
abbrev pub config_of : RawArgs → List ListenerSpec → List ChainHop → Option ℕ → Config
config_of raw listeners chain mark = record {
  listeners = listeners;
  chain = chain;
  mode = if raw.nat then nat else userspace;
  mark = mark;
  set_ip_forward = raw.set_ip_forward;
  buf_size = unwrap_or raw.buf_size_kb 32 * 1024;
  heartbeat = unwrap_or raw.heartbeat_secs 60;
  debug = raw.debug;
  worker_threads = raw.worker_threads;
  sock = record {
    nodelay = unwrap_or raw.nodelay true;
    rcvbuf = raw.so_rcvbuf;
    sndbuf = raw.so_sndbuf;
  };
}

abbrev pub bad_buf : ℕ → Bool
bad_buf kb = not (between min_buf_kb max_buf_kb kb)

unfoldable pub build_config : RawArgs → Result ConfigError Config
build_config raw = do
  reject_if (is_empty raw.listens) no_listeners
  listeners ← build_listeners raw.listens
  chain ← build_chain raw.forwards
  check_rules raw.nat listeners chain
  reject_if (bad_buf (unwrap_or raw.buf_size_kb 32)) (bad_buf_size (unwrap_or raw.buf_size_kb 32))
  mark ← checked_mark raw.mark
  reject_if (is_zero_workers raw.worker_threads) zero_workers
  ok (config_of raw listeners chain mark)
