-- ===== src/Config/NoPanic.antt =====
-- The `expect` of `build_config` of src/config.rs.
use gust.Prelude.{
  ℕ, ℤ, pos, negsuc, ◌≡◌, ◌≢◌, refl, ap, Bool, true, false, not, ◌&&◌, List, [], ◌∷◌, Option, none,
  some, Result, ok, err, ◌>>=◌, ◌>>◌, reject_if, ok_or, ok_or-eq-ok, map_err, is_empty, list_eq,
  if◌then◌else◌, Bool-cases, inl, inr,
}
use gust.Text.{Text, codes}
use gust.Node.{Node, parse_node, bind_string, authority, targets}
use gust.Cli.{RawArgs}
use gust.Config.{
  ListenerSpec, ChainHop, ConfigError, expect_failed, bad_node, missing_listen_port,
  missing_destination, bad_target, unsupported_hop, missing_hop_port, bad_hop, no_listeners,
  nat_with_chain, udp_with_chain, duplicate_listener, bad_buf_size, zero_workers, find_udp,
  find_same_bind, refuse_some, validate_hostport, listen_proto, validate_targets, build_listener,
  build_listeners, build_hop, build_chain, check_duplicates, check_rules, unwrap_or, bad_buf,
  is_zero_workers, checked_mark, build_config,
}

abbrev pub NoPanic {ℓ} : {A : Type ℓ} → Result ConfigError A → Type ℓ
NoPanic {A} r = r ≢ err expect_failed

err-injective {ℓ κ} :
    {E : Type ℓ} {A : Type κ} {a b : E} → ◌≡◌ {A = Result E A} (err a) (err b) → a ≡ b
err-injective h = cc

module _ {ℓ κ} {A : Type ℓ} {B : Type κ} where
  bind-NoPanic :
      (m : Result ConfigError A) (f : A → Result ConfigError B)
      → NoPanic m
      → ((a : A) → m ≡ ok a → NoPanic (f a))
      → NoPanic (m >>= f)
  bind-NoPanic (ok a) f n k = k a refl
  bind-NoPanic (err e) f n k = λ q. n (ap err (err-injective q))

module _ {ℓ} {A : Type ℓ} where
  reject_if-NoPanic :
      (b : Bool) (e : ConfigError) (m : Result ConfigError A)
      → e ≢ expect_failed
      → (b ≡ false → NoPanic m)
      → NoPanic (reject_if b e >> m)
  reject_if-NoPanic true e m n k = λ q. n (err-injective q)
  reject_if-NoPanic false e m n k = k refl

  ok_or-NoPanic : (o : Option A) (e : ConfigError) → e ≢ expect_failed → NoPanic (ok_or o e)
  ok_or-NoPanic none e n = λ q. n (err-injective q)
  ok_or-NoPanic (some a) e n = λ q. cc

  map_err-NoPanic {κ} :
      {E : Type κ} (f : E → ConfigError) (m : Result E A)
      → ((e : E) → f e ≢ expect_failed)
      → NoPanic (map_err f m)
  map_err-NoPanic f (ok a) n = λ q. cc
  map_err-NoPanic f (err e) n = λ q. n e (err-injective q)

  refuse_some-NoPanic :
      (o : Option A) (f : A → ConfigError)
      → ((a : A) → f a ≢ expect_failed)
      → NoPanic (refuse_some o f)
  refuse_some-NoPanic none f n = λ q. cc
  refuse_some-NoPanic (some a) f n = λ q. n a (err-injective q)

listen_proto-NoPanic : (ls scheme : Text) → NoPanic (listen_proto ls scheme)
unfolding listen_proto
listen_proto-NoPanic ls scheme = elim (Bool-cases (list_eq scheme (codes "tcp"))) [
  | inl e ↦ rw e (λ q. absurd (cc))
  | inr e ↦ elim (Bool-cases (list_eq scheme (codes "udp"))) [
    | inl f ↦ rw (e, f) (λ q. absurd (cc))
    | inr f ↦ rw (e, f) (λ q. absurd (cc))
  ]
]

validate_targets-NoPanic : (ls : Text) (ts : List Text) → NoPanic (validate_targets ls ts)
unfolding validate_targets
validate_targets-NoPanic ls [] = λ q. cc
validate_targets-NoPanic ls (t ∷ ts) =
    bind-NoPanic (map_err (bad_target ls t) (validate_hostport t)) _
      (map_err-NoPanic (bad_target ls t) (validate_hostport t) (λ e q. cc))
      (λ _ _. validate_targets-NoPanic ls ts)

-- A node that has an address to bind has a port.
bind_string-port : (node : Node) (b : Text) → bind_string node ≡ some b → node.port ≢ none
unfolding bind_string
bind_string-port node b h e = absurd (cc (rw (e, bind_string) at h))

port-NoPanic : (o : Option ℕ) → o ≢ none → NoPanic (ok_or o expect_failed)
port-NoPanic none n = absurd (n refl)
port-NoPanic (some p) n = λ q. cc

build_listener-NoPanic : (ls : Text) → NoPanic (build_listener ls)
unfolding build_listener
build_listener-NoPanic ls =
    bind-NoPanic (map_err bad_node (parse_node ls)) _
      (map_err-NoPanic bad_node (parse_node ls) (λ e q. cc))
      (λ node _.
        bind-NoPanic (listen_proto ls node.scheme) _ (listen_proto-NoPanic ls node.scheme)
          (λ proto _.
            bind-NoPanic (ok_or (bind_string node) (missing_listen_port ls)) _
              (ok_or-NoPanic (bind_string node) (missing_listen_port ls) (λ q. cc))
              (λ bind b.
                bind-NoPanic (ok_or node.port expect_failed) _
                  (port-NoPanic node.port
                    (bind_string-port node bind (ok_or-eq-ok (bind_string node) _ b)))
                  (λ port _.
                    reject_if-NoPanic (is_empty (targets node)) (missing_destination ls proto port)
                      _ (λ q. cc)
                      (λ _.
                        bind-NoPanic (validate_targets ls (targets node)) _
                          (validate_targets-NoPanic ls (targets node)) (λ _ _ q. cc))))))

build_hop-NoPanic : (fwd : Text) → NoPanic (build_hop fwd)
unfolding build_hop
build_hop-NoPanic fwd =
    bind-NoPanic (map_err bad_node (parse_node fwd)) _
      (map_err-NoPanic bad_node (parse_node fwd) (λ e q. cc))
      (λ node _.
        reject_if-NoPanic (not (list_eq node.scheme (codes "socks5")))
          (unsupported_hop fwd node.scheme) _ (λ q. cc)
          (λ _.
            bind-NoPanic (ok_or (authority node) (missing_hop_port fwd)) _
              (ok_or-NoPanic (authority node) (missing_hop_port fwd) (λ q. cc))
              (λ addr _.
                bind-NoPanic (map_err (bad_hop fwd) (validate_hostport addr)) _
                  (map_err-NoPanic (bad_hop fwd) (validate_hostport addr) (λ e q. cc))
                  (λ _ _ q. cc))))

build_listeners-NoPanic : (texts : List Text) → NoPanic (build_listeners texts)
unfolding build_listeners
build_listeners-NoPanic [] = λ q. cc
build_listeners-NoPanic (t ∷ texts) =
    bind-NoPanic (build_listener t) _ (build_listener-NoPanic t)
      (λ l _. bind-NoPanic (build_listeners texts) _ (build_listeners-NoPanic texts) (λ _ _ q. cc))

build_chain-NoPanic : (texts : List Text) → NoPanic (build_chain texts)
unfolding build_chain
build_chain-NoPanic [] = λ q. cc
build_chain-NoPanic (t ∷ texts) =
    bind-NoPanic (build_hop t) _ (build_hop-NoPanic t)
      (λ l _. bind-NoPanic (build_chain texts) _ (build_chain-NoPanic texts) (λ _ _ q. cc))

check_duplicates-NoPanic : (ls : List ListenerSpec) → NoPanic (check_duplicates ls)
unfolding check_duplicates
check_duplicates-NoPanic [] = λ q. cc
check_duplicates-NoPanic (a ∷ ls) =
    bind-NoPanic (refuse_some (find_same_bind a ls) (duplicate_listener a)) _
      (refuse_some-NoPanic (find_same_bind a ls) (duplicate_listener a) (λ b q. cc))
      (λ _ _. check_duplicates-NoPanic ls)

check_rules-NoPanic :
    (is_nat : Bool) (ls : List ListenerSpec) (chain : List ChainHop)
    → NoPanic (check_rules is_nat ls chain)
unfolding check_rules
check_rules-NoPanic is_nat ls chain =
    reject_if-NoPanic (is_nat && not (is_empty chain)) nat_with_chain _ (λ q. cc)
      (λ _.
        let udp_listener = if is_empty chain then none else find_udp ls in
        bind-NoPanic (refuse_some udp_listener (λ l. udp_with_chain l.name)) _
          (refuse_some-NoPanic udp_listener (λ l. udp_with_chain l.name) (λ l q. cc))
          (λ _ _. check_duplicates-NoPanic ls))

checked_mark-NoPanic : (m : Option ℤ) → NoPanic (checked_mark m)
unfolding checked_mark
checked_mark-NoPanic none = λ q. cc
checked_mark-NoPanic (some (pos m)) = λ q. cc
checked_mark-NoPanic (some (negsuc m)) = λ q. cc

-- Whatever the flags are, building the configuration never panics at the `expect` for the port.
pub build_config-NoPanic : (raw : RawArgs) → build_config raw ≢ err expect_failed
unfolding build_config
build_config-NoPanic raw =
    let kb = unwrap_or raw.buf_size_kb 32 in
    reject_if-NoPanic (is_empty raw.listens) no_listeners _ (λ q. cc)
      (λ _.
        bind-NoPanic (build_listeners raw.listens) _ (build_listeners-NoPanic raw.listens) (λ ls _.
          bind-NoPanic (build_chain raw.forwards) _ (build_chain-NoPanic raw.forwards) (λ chain _.
            bind-NoPanic (check_rules raw.nat ls chain) _ (check_rules-NoPanic raw.nat ls chain)
              (λ _ _.
                reject_if-NoPanic (bad_buf kb) (bad_buf_size kb) _ (λ q. cc)
                  (λ _.
                    bind-NoPanic (checked_mark raw.mark) _ (checked_mark-NoPanic raw.mark)
                      (λ mark _.
                        reject_if-NoPanic (is_zero_workers raw.worker_threads) zero_workers _
                          (λ q. cc) (λ _ q. cc)))))))
