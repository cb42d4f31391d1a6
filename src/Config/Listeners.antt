-- ===== src/Config/Listeners.antt =====
-- The loops over the `-L` and the `-F` values of `build_config` of src/config.rs.
use gust.Prelude.{
  ℕ, ◌≤◌, ◌≡◌, ◌≢◌, inl, inr, refl, ap, ◌∙◌, subst, false, not, List, [], ◌∷◌, Option, none, some,
  ok, map_err, ok_or, >>=-eq-ok, map_err-eq-ok, ok_or-eq-ok, reject_if-eq-ok, ok-injective,
  is_empty, is_empty-false, some-injective, list_eq, list_eq_sound, All, Each, Bool-cases, arith,
}
use gust.Text.{Text, codes}
use gust.Text.Number.{max_u16}
use gust.Node.{query_get, Node, parse_node, authority, bind_string, targets}
use gust.Node.Print.{IsPort}
use gust.Node.WellFormed.{parse_node-IsWellFormed}
use gust.Netopt.{split_host_port}
use gust.Config.{
  Protocol, proto_str, ListenerSpec, ChainHop, bad_node, bad_target, bad_hop, unsupported_hop,
  missing_listen_port, missing_hop_port, missing_destination, expect_failed, validate_hostport,
  listen_proto, validate_targets, build_listener, build_listeners, build_hop, build_chain,
  listener_of,
}
use gust.Config.Asked.{
  IsValue, IsNodelay, IsName, requests_nodelay-IsNodelay, query_get-IsValue, listener_name-IsName,
}
use gust.Config.HostPort.{validate-split_iff}

-- The text is a host and a port for `split_host_port`.
abbrev pub IsEndpoint : Text → Type 0
IsEndpoint t = (host : Text) × (port : ℕ) × (split_host_port t ≡ ok (host, port))

-- The listener that a `-L` value asks for.
pub record IsListenerOf (ls : Text) (l : ListenerSpec) : Type 0 where
  pub node : Node
  pub parsed : parse_node ls ≡ ok node
  pub scheme_is_proto : node.scheme ≡ proto_str l.proto
  pub port_is_node_port : node.port ≡ some l.port
  pub port_fits : l.port ≤ max_u16
  pub binds : bind_string node ≡ some l.bind
  pub targets_eq : l.targets ≡ targets node
  pub targets_ne_nil : l.targets ≢ []
  pub targets_are_endpoints : All IsEndpoint l.targets
  pub nodelay_value : Option Text
  pub value_of_nodelay : IsValue (codes "nodelay") node.query nodelay_value
  pub nodelay_as_asked : IsNodelay nodelay_value l.nodelay
  pub named : IsName l.proto node.host l.port l.name

-- The hop that a `-F` value asks for.
pub record IsHopOf (fwd : Text) (h : ChainHop) : Type 0 where
  pub node : Node
  pub parsed : parse_node fwd ≡ ok node
  pub is_socks5 : node.scheme ≡ codes "socks5"
  pub has_addr : authority node ≡ some h.addr
  pub is_endpoint : IsEndpoint h.addr
  pub user_eq : h.user ≡ node.user
  pub pass_eq : h.pass ≡ node.pass

listen_proto-eq-ok :
    (ls scheme : Text) (p : Protocol) → listen_proto ls scheme ≡ ok p → scheme ≡ proto_str p
unfolding listen_proto
listen_proto-eq-ok ls scheme p h = elim (Bool-cases (list_eq scheme (codes "tcp"))) [
  | inl e ↦
      list_eq_sound scheme (codes "tcp") e ∙ ap proto_str (ok-injective (rw (e, listen_proto) at h))
  | inr e ↦ elim (Bool-cases (list_eq scheme (codes "udp"))) [
    | inl f ↦
        list_eq_sound scheme (codes "udp") f
        ∙ ap proto_str (ok-injective (rw (e, f, listen_proto) at h))
    | inr f ↦ cc (rw (e, f, listen_proto) at h)
  ]
]

validate_hostport-IsEndpoint : (t : Text) {x : Unit {0}} → validate_hostport t ≡ ok x → IsEndpoint t
validate_hostport-IsEndpoint t {x} h = (validate-split_iff t).0 h

validate_targets-All :
    (ls : Text) (ts : List Text) {x : Unit {0}} → validate_targets ls ts ≡ ok x → All IsEndpoint ts
unfolding validate_targets
validate_targets-All ls [] h = tt
validate_targets-All ls (t ∷ ts) h =
    let (_, e, g) = >>=-eq-ok (map_err (bad_target ls t) (validate_hostport t)) _ h in
    (
      validate_hostport-IsEndpoint t (map_err-eq-ok (bad_target ls t) _ e),
      validate_targets-All ls ts g,
    )

port_fits_of : (o : Option ℕ) (p : ℕ) → IsPort o → o ≡ some p → p ≤ max_u16
port_fits_of none p h e = cc
port_fits_of (some q) p h e = subst (λ x. x ≤ max_u16) (some-injective e) h

module _ (ls : Text) where
  listener_of-IsListenerOf :
      (node : Node) (proto : Protocol) (bind : Text) (port : ℕ)
      → parse_node ls ≡ ok node
      → node.scheme ≡ proto_str proto
      → bind_string node ≡ some bind
      → node.port ≡ some port
      → is_empty (targets node) ≡ false
      → All IsEndpoint (targets node)
      → IsListenerOf ls (listener_of proto bind port node)
  listener_of-IsListenerOf node proto bind port e p b q n v = record {
    node = node;
    parsed = e;
    scheme_is_proto = p;
    port_is_node_port = q;
    port_fits = port_fits_of node.port port (parse_node-IsWellFormed ls node e).port_fits q;
    binds = b;
    targets_eq = refl;
    targets_ne_nil = is_empty-false (targets node) n;
    targets_are_endpoints = v;
    nodelay_value = query_get (codes "nodelay") node.query;
    value_of_nodelay = query_get-IsValue (codes "nodelay") node.query;
    nodelay_as_asked = requests_nodelay-IsNodelay (query_get (codes "nodelay") node.query);
    named = listener_name-IsName proto node.host port;
  }

  build_listener-IsListenerOf : (l : ListenerSpec) → build_listener ls ≡ ok l → IsListenerOf ls l
  unfolding build_listener
  build_listener-IsListenerOf l h =
      let (node, e, h1) = >>=-eq-ok (map_err bad_node (parse_node ls)) _ h in
      let (proto, p, h2) = >>=-eq-ok (listen_proto ls node.scheme) _ h1 in
      let (bind, b, h3) = >>=-eq-ok (ok_or (bind_string node) (missing_listen_port ls)) _ h2 in
      let (port, q, h4) = >>=-eq-ok (ok_or node.port expect_failed) _ h3 in
      let (n, h5) =
        reject_if-eq-ok (is_empty (targets node)) (missing_destination ls proto port) _ h4 in
      let (_, v, h6) = >>=-eq-ok (validate_targets ls (targets node)) _ h5 in
      subst (IsListenerOf ls) (ok-injective h6) (
        listener_of-IsListenerOf node proto bind port (map_err-eq-ok bad_node _ e)
          (listen_proto-eq-ok ls node.scheme proto p) (ok_or-eq-ok (bind_string node) _ b)
          (ok_or-eq-ok node.port _ q) n (validate_targets-All ls (targets node) v))

  made_hop-IsHopOf :
      (node : Node) (addr : Text)
      → parse_node ls ≡ ok node
      → not (list_eq node.scheme (codes "socks5")) ≡ false
      → authority node ≡ some addr
      → IsEndpoint addr
      → IsHopOf ls (record { addr = addr; user = node.user; pass = node.pass })
  made_hop-IsHopOf node addr e s a v = record {
    node = node;
    parsed = e;
    is_socks5 = list_eq_sound node.scheme (codes "socks5") (ground arith);
    has_addr = a;
    is_endpoint = v;
    user_eq = refl;
    pass_eq = refl;
  }

  build_hop-IsHopOf : (c : ChainHop) → build_hop ls ≡ ok c → IsHopOf ls c
  unfolding build_hop
  build_hop-IsHopOf c h =
      let (node, e, h1) = >>=-eq-ok (map_err bad_node (parse_node ls)) _ h in
      let (s, h2) =
        reject_if-eq-ok (not (list_eq node.scheme (codes "socks5")))
          (unsupported_hop ls node.scheme) _ h1 in
      let (addr, a, h3) = >>=-eq-ok (ok_or (authority node) (missing_hop_port ls)) _ h2 in
      let (_, v, h4) = >>=-eq-ok (map_err (bad_hop ls) (validate_hostport addr)) _ h3 in
      subst (IsHopOf ls) (ok-injective h4) (
        made_hop-IsHopOf node addr (map_err-eq-ok bad_node _ e) s (ok_or-eq-ok (authority node) _ a)
          (validate_hostport-IsEndpoint addr (map_err-eq-ok (bad_hop ls) _ v)))

pub build_listeners-Each :
    (texts : List Text) (ls : List ListenerSpec)
    → build_listeners texts ≡ ok ls
    → Each IsListenerOf texts ls
unfolding build_listeners
build_listeners-Each [] [] h = tt
build_listeners-Each [] (l ∷ ls) h = cc
build_listeners-Each (t ∷ texts) ls h =
    let (a, e, h1) = >>=-eq-ok (build_listener t) _ h in
    let (more, f, h2) = >>=-eq-ok (build_listeners texts) _ h1 in
    subst (Each IsListenerOf (t ∷ texts)) (ok-injective h2)
      (build_listener-IsListenerOf t a e, build_listeners-Each texts more f)

pub build_chain-Each :
    (texts : List Text) (hops : List ChainHop)
    → build_chain texts ≡ ok hops
    → Each IsHopOf texts hops
unfolding build_chain
build_chain-Each [] [] h = tt
build_chain-Each [] (c ∷ hops) h = cc
build_chain-Each (t ∷ texts) hops h =
    let (a, e, h1) = >>=-eq-ok (build_hop t) _ h in
    let (more, f, h2) = >>=-eq-ok (build_chain texts) _ h1 in
    subst (Each IsHopOf (t ∷ texts)) (ok-injective h2)
      (build_hop-IsHopOf t a e, build_chain-Each texts more f)
