-- ===== src/Config/Valid.antt =====
-- What `build_config` of src/config.rs promises of a configuration that it returns.
use gust.Prelude.{
  ℕ, ◌*◌, ◌%◌, ◌^◌, ◌≤◌, ◌<◌, ◌≡◌, ◌≢◌, refl, subst, sym, ℤ, pos, negsuc, Bool, true, false, List,
  [], ◌∷◌, Option, none, some, ok, >>=-eq-ok, reject_if-eq-ok, ok-injective, some-injective,
  is_empty, Each, if◌then◌else◌, arith,
}
use gust.Text.{Text}
use gust.Cli.{RawArgs}
use gust.Config.{
  ListenerSpec, ChainHop, Mode, nat, userspace, Config, no_listeners, bad_buf_size, zero_workers,
  build_listeners, build_chain, check_rules, checked_mark, config_of, unwrap_or, bad_buf,
  is_zero_workers, build_config,
}
use gust.Config.Listeners.{IsListenerOf, IsHopOf, build_listeners-Each, build_chain-Each}
use gust.Config.Rules.{IsAllowed, check_rules_iff}

abbrev pub IsMark : Option ℕ → Type 0
IsMark none = Unit
IsMark (some m) = m < 2 ^ 32

-- The mark keeps the low 32 bits of the number that is given.
abbrev pub IsMarkOf : Option ℤ → Option ℕ → Type 0
IsMarkOf none mark = mark ≡ none
IsMarkOf (some (pos m)) mark = mark ≡ some (m % 2 ^ 32)
IsMarkOf (some (negsuc m)) mark = ⊥

-- The value that is given, and a default where none is.
abbrev pub IsGivenOr {ℓ} : {A : Type ℓ} → A → Option A → A → Type ℓ
IsGivenOr d none a = a ≡ d
IsGivenOr d (some b) a = a ≡ b

abbrev pub is_nat_mode : Mode → Bool
is_nat_mode nat = true
is_nat_mode userspace = false

-- The configuration is the one that the flags ask for, and keeps the rules that the rest of the
-- program relies on.
pub record IsConfigOf (raw : RawArgs) (c : Config) : Type 0 where
  pub listeners_of : Each IsListenerOf raw.listens c.listeners
  pub listeners_ne_nil : c.listeners ≢ []
  pub chain_of : Each IsHopOf raw.forwards c.chain
  pub mode_of : is_nat_mode c.mode ≡ raw.nat
  pub allowed : IsAllowed (is_nat_mode c.mode) c.listeners c.chain
  pub buf_low : 1024 ≤ c.buf_size
  pub buf_high : c.buf_size ≤ 1048576
  pub mark_fits : IsMark c.mark
  pub workers_ne_zero : c.worker_threads ≢ some 0
  pub mark_of : IsMarkOf raw.mark c.mark
  pub set_ip_forward_of : c.set_ip_forward ≡ raw.set_ip_forward
  pub buf_kb : ℕ
  pub buf_kb_of : IsGivenOr 32 raw.buf_size_kb buf_kb
  pub buf_size_of : c.buf_size ≡ buf_kb * 1024
  pub heartbeat_of : IsGivenOr 60 raw.heartbeat_secs c.heartbeat
  pub debug_of : c.debug ≡ raw.debug
  pub worker_threads_of : c.worker_threads ≡ raw.worker_threads
  pub nodelay_of : IsGivenOr true raw.nodelay c.sock.nodelay
  pub rcvbuf_of : c.sock.rcvbuf ≡ raw.so_rcvbuf
  pub sndbuf_of : c.sock.sndbuf ≡ raw.so_sndbuf

checked_mark-IsMark : (m : Option ℤ) (o : Option ℕ) → checked_mark m ≡ ok o → IsMark o
unfolding checked_mark
checked_mark-IsMark none o h = subst IsMark (ok-injective h) tt
checked_mark-IsMark (some (pos m)) o h = subst IsMark (ok-injective h) (omega arith)
checked_mark-IsMark (some (negsuc m)) o h = cc

checked_mark-IsMarkOf : (m : Option ℤ) (o : Option ℕ) → checked_mark m ≡ ok o → IsMarkOf m o
unfolding checked_mark
checked_mark-IsMarkOf none o h = sym (ok-injective h)
checked_mark-IsMarkOf (some (pos m)) o h = sym (ok-injective h)
checked_mark-IsMarkOf (some (negsuc m)) o h = cc

unwrap_or-IsGivenOr : {A : Type 0} (o : Option A) (d : A) → IsGivenOr d o (unwrap_or o d)
unwrap_or-IsGivenOr none d = refl
unwrap_or-IsGivenOr (some a) d = refl

workers_ne_zero_of : (o : Option ℕ) → is_zero_workers o ≡ false → o ≢ some 0
workers_ne_zero_of none h e = cc
workers_ne_zero_of (some w) h e = let q = some-injective e in ground arith

mode_of_flag : (b : Bool) → is_nat_mode (if b then nat else userspace) ≡ b
mode_of_flag true = refl
mode_of_flag false = refl

buf_in_range : (kb : ℕ) → bad_buf kb ≡ false → (1 ≤ kb) × (kb ≤ 1024)
buf_in_range kb h = ground arith

listeners_ne_nil_of :
    (texts : List Text) (ls : List ListenerSpec)
    → is_empty texts ≡ false
    → Each IsListenerOf texts ls
    → ls ≢ []
listeners_ne_nil_of [] ls e h q = cc
listeners_ne_nil_of (t ∷ texts) [] e h q = h
listeners_ne_nil_of (t ∷ texts) (l ∷ ls) e h q = cc

module _ (raw : RawArgs) where
  config_of-IsConfigOf :
      (ls : List ListenerSpec) (chain : List ChainHop) (mark : Option ℕ)
      → is_empty raw.listens ≡ false
      → Each IsListenerOf raw.listens ls
      → Each IsHopOf raw.forwards chain
      → IsAllowed raw.nat ls chain
      → bad_buf (unwrap_or raw.buf_size_kb 32) ≡ false
      → checked_mark raw.mark ≡ ok mark
      → is_zero_workers raw.worker_threads ≡ false
      → IsConfigOf raw (config_of raw ls chain mark)
  config_of-IsConfigOf ls chain mark n l f v b m w = record {
    listeners_of = l;
    listeners_ne_nil = listeners_ne_nil_of raw.listens ls n l;
    chain_of = f;
    mode_of = mode_of_flag raw.nat;
    allowed = subst (λ x. IsAllowed x ls chain) (sym (mode_of_flag raw.nat)) v;
    buf_low = (let (p, q) = buf_in_range (unwrap_or raw.buf_size_kb 32) b in omega arith);
    buf_high = (let (p, q) = buf_in_range (unwrap_or raw.buf_size_kb 32) b in omega arith);
    mark_fits = checked_mark-IsMark raw.mark mark m;
    workers_ne_zero = workers_ne_zero_of raw.worker_threads w;
    mark_of = checked_mark-IsMarkOf raw.mark mark m;
    set_ip_forward_of = refl;
    buf_kb = unwrap_or raw.buf_size_kb 32;
    buf_kb_of = unwrap_or-IsGivenOr raw.buf_size_kb 32;
    buf_size_of = refl;
    heartbeat_of = unwrap_or-IsGivenOr raw.heartbeat_secs 60;
    debug_of = refl;
    worker_threads_of = refl;
    nodelay_of = unwrap_or-IsGivenOr raw.nodelay true;
    rcvbuf_of = refl;
    sndbuf_of = refl;
  }

  -- A configuration that is returned has one listener for each `-L` value in order, with the
  -- protocol, the bind, the destinations, the name and the `nodelay` of the value, at least one, and
  -- one hop for each `-F` value; kernel mode has no hops, a chain has only TCP listeners, and no two
  -- listeners bind one address with one protocol. Every other value is that of its flag, where no
  -- flag means a buffer of 32 KiB, a heartbeat of 60 seconds and sockets with `TCP_NODELAY`; the
  -- buffer has 1 KiB to 1 MiB, the mark is not negative and is kept modulo 2^32, and the number of
  -- worker threads is not zero.
  pub build_config-IsConfigOf : (c : Config) → build_config raw ≡ ok c → IsConfigOf raw c
  unfolding build_config
  build_config-IsConfigOf c h =
      let (n, h1) = reject_if-eq-ok (is_empty raw.listens) no_listeners _ h in
      let (ls, l, h2) = >>=-eq-ok (build_listeners raw.listens) _ h1 in
      let (chain, f, h3) = >>=-eq-ok (build_chain raw.forwards) _ h2 in
      let (_, v, h4) = >>=-eq-ok (check_rules raw.nat ls chain) _ h3 in
      let kb = unwrap_or raw.buf_size_kb 32 in
      let (b, h5) = reject_if-eq-ok (bad_buf kb) (bad_buf_size kb) _ h4 in
      let (mark, m, h6) = >>=-eq-ok (checked_mark raw.mark) _ h5 in
      let (w, h7) = reject_if-eq-ok (is_zero_workers raw.worker_threads) zero_workers _ h6 in
      subst (IsConfigOf raw) (ok-injective h7) (
        config_of-IsConfigOf ls chain mark n (build_listeners-Each raw.listens ls l)
          (build_chain-Each raw.forwards chain f) ((check_rules_iff raw.nat ls chain).0 v) b m w)
