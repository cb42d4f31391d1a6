-- ===== src/App/Serves.antt =====
-- src/main.rs and src/app.rs: what the userspace mode serves, from the arguments on.
use gust.Prelude.{
  ℕ, ◌*◌, ◌^◌, ◌≤◌, ◌<◌, ◌≡◌, refl, sym, ap, ◌∙◌, Bool, true, false, List, [], ◌∷◌, Option, none,
  some, ok, Each, arith,
}
use gust.Text.{Text}
use gust.Cli.{RawArgs, ParseOutcome, parse_args}
use gust.Cli
use gust.Config.{
  Protocol, tcp, udp, proto_str, ListenerSpec, Mode, userspace, nat, Config, build_config,
}
use gust.Config.Listeners.{IsListenerOf, IsHopOf}
use gust.Config.Valid.{IsConfigOf, IsMarkOf, IsGivenOr, is_nat_mode, build_config-IsConfigOf}
use gust.Stats.{ListenerStats, Registry, new_stats}
use gust.Nat.Nftables.{IpAddr}
use gust.Nat.{Machine, success, System}
use gust.Nat.Commands.{Process}
use gust.App.{
  Service, serve_tcp, serve_udp, spawn_listener, launch, pool_of, blocking_threads, Userspace,
  run_userspace, served, main,
}

-- The counters of a listener that has not served yet.
pub record IsFresh (spec : ListenerSpec) (stats : ListenerStats) : Type 0 where
  pub name_eq : stats.name ≡ spec.name
  pub proto_eq : stats.proto ≡ proto_str spec.proto
  pub not_accepted : stats.accepted ≡ 0
  pub not_active : stats.active ≡ 0
  pub not_restarted : stats.restarts ≡ 0
  pub no_errors : stats.errors ≡ 0
  pub no_last_error : stats.last_error ≡ none

-- The service that a `-L` value asks for: the serve loop of its protocol, with fresh counters.
abbrev pub IsServiceOf : Text → Service → Type 0
IsServiceOf text (serve_tcp spec stats) =
    IsListenerOf text spec × (spec.proto ≡ tcp) × IsFresh spec stats
IsServiceOf text (serve_udp spec stats) =
    IsListenerOf text spec × (spec.proto ≡ udp) × IsFresh spec stats

abbrev pub counters : List Service → Registry
counters [] = []
counters (serve_tcp spec stats ∷ services) = stats ∷ counters services
counters (serve_udp spec stats ∷ services) = stats ∷ counters services

-- What the userspace mode serves is what the flags ask for.
pub record IsServerOf (raw : RawArgs) (u : Userspace) : Type 0 where
  pub services_of : Each IsServiceOf raw.listens u.services
  pub registry_of : u.registry ≡ counters u.services
  pub hops_of : Each IsHopOf raw.forwards u.ctx.dialer.chain
  pub mark_of : IsMarkOf raw.mark u.ctx.mark
  pub same_mark : u.ctx.dialer.mark ≡ u.ctx.mark
  pub same_sock : u.ctx.dialer.sock ≡ u.ctx.sock
  pub nodelay_of : IsGivenOr true raw.nodelay u.ctx.sock.nodelay
  pub rcvbuf_of : u.ctx.sock.rcvbuf ≡ raw.so_rcvbuf
  pub sndbuf_of : u.ctx.sock.sndbuf ≡ raw.so_sndbuf
  pub buf_kb : ℕ
  pub buf_kb_of : IsGivenOr 32 raw.buf_size_kb buf_kb
  pub buf_size_of : u.ctx.buf_size ≡ buf_kb * 1024
  pub heartbeat_of : IsGivenOr 60 raw.heartbeat_secs u.heartbeat

-- The pool of the runtime: that of the system for no number of worker threads, and else so many
-- workers, with two blocking threads at least and twice as many as workers where a `usize` can hold
-- that.
abbrev pub IsPool : Option ℕ → Option (ℕ × ℕ) → Type 0
IsPool none pool = pool ≡ none
IsPool (some n) pool =
    (blocking : ℕ) × (pool ≡ some (n, blocking))
    × (2 ≤ blocking)
    × (0 < n → n < 2 ^ 63 → blocking ≡ 2 * n)

blocking_threads_low : (n : ℕ) → 2 ≤ blocking_threads n
blocking_threads_low n = ground arith

blocking_threads_twice : (n : ℕ) → 0 < n → n < 2 ^ 63 → blocking_threads n ≡ 2 * n
blocking_threads_twice n h k = ground arith

pool_of-IsPool : (o : Option ℕ) → IsPool o (pool_of o)
pool_of-IsPool none = refl
pool_of-IsPool (some n) =
    (blocking_threads n, refl, blocking_threads_low n, blocking_threads_twice n)

new_stats-IsFresh :
    (spec : ListenerSpec) → IsFresh spec (new_stats spec.name (proto_str spec.proto))
unfolding new_stats
new_stats-IsFresh spec = record {
  name_eq = refl;
  proto_eq = refl;
  not_accepted = refl;
  not_active = refl;
  not_restarted = refl;
  no_errors = refl;
  no_last_error = refl;
}

spawn_listener-IsServiceOf :
    (text : Text) (spec : ListenerSpec) (stats : ListenerStats) (p : Protocol)
    → spec.proto ≡ p
    → IsListenerOf text spec
    → IsFresh spec stats
    → IsServiceOf text (spawn_listener spec stats p)
spawn_listener-IsServiceOf text spec stats tcp e l f = (l, e, f)
spawn_listener-IsServiceOf text spec stats udp e l f = (l, e, f)

launch-IsServiceOf :
    (texts : List Text) (specs : List ListenerSpec)
    → Each IsListenerOf texts specs
    → Each IsServiceOf texts (launch specs).1
unfolding launch
launch-IsServiceOf [] [] h = tt
launch-IsServiceOf [] (spec ∷ specs) h = absurd h
launch-IsServiceOf (text ∷ texts) [] h = absurd h
launch-IsServiceOf (text ∷ texts) (spec ∷ specs) (l, h) = (
  spawn_listener-IsServiceOf text spec (new_stats spec.name (proto_str spec.proto)) spec.proto refl
      l (new_stats-IsFresh spec),
  launch-IsServiceOf texts specs h,
)

counters-spawn_listener :
    (spec : ListenerSpec) (stats : ListenerStats) (p : Protocol) (services : List Service)
    → counters (spawn_listener spec stats p ∷ services) ≡ stats ∷ counters services
counters-spawn_listener spec stats tcp services = refl
counters-spawn_listener spec stats udp services = refl

launch-counters : (specs : List ListenerSpec) → (launch specs).0 ≡ counters (launch specs).1
unfolding launch
launch-counters [] = refl
launch-counters (spec ∷ specs) =
    let stats = new_stats spec.name (proto_str spec.proto) in
    ap (◌∷◌ stats) (launch-counters specs)
    ∙ sym (counters-spawn_listener spec stats spec.proto (launch specs).1)

run_userspace-IsServerOf :
    (raw : RawArgs) (c : Config) → IsConfigOf raw c → IsServerOf raw (run_userspace c)
unfolding run_userspace
run_userspace-IsServerOf raw c v = record {
  services_of = launch-IsServiceOf raw.listens c.listeners v.listeners_of;
  registry_of = launch-counters c.listeners;
  hops_of = v.chain_of;
  mark_of = v.mark_of;
  same_mark = refl;
  same_sock = refl;
  nodelay_of = v.nodelay_of;
  rcvbuf_of = v.rcvbuf_of;
  sndbuf_of = v.sndbuf_of;
  buf_kb = v.buf_kb;
  buf_kb_of = v.buf_kb_of;
  buf_size_of = v.buf_size_of;
  heartbeat_of = v.heartbeat_of;
}

userspace_of : (m : Mode) → is_nat_mode m ≡ false → m ≡ userspace
userspace_of userspace h = refl
userspace_of nat h = absurd (cc)

module _ {T : Type 0} (process : Process T) (machine : Machine) (euid : ℕ) (status : Option Text)
    (lookup_host : Text → Option (List IpAddr)) (show_ip : IpAddr → Text)
    (builds : Option (ℕ × ℕ) → Bool) where
  -- If the arguments parse to flags without `--nat` and `--nat-cleanup` that give a configuration,
  -- and a runtime with the pool that its worker threads ask for can be built, the program serves
  -- and, when the shutdown comes, succeeds; it leaves `ip_forward` and the tables alone. It serves
  -- one service for each `-L` value in order, that of the value's protocol, with fresh counters that
  -- are those of the registry, and dials through one hop for each `-F` value; the mark, the socket
  -- options, the buffer and the heartbeat are those of the flags or their defaults.
  pub main-IsServerOf :
      (args : List Text) (s : System T) (raw : RawArgs) (c : Config)
      → parse_args args ≡ ok (Cli.run raw)
      → raw.nat_cleanup ≡ false
      → raw.nat ≡ false
      → build_config raw ≡ ok c
      → ((pool : Option (ℕ × ℕ)) → IsPool c.worker_threads pool → builds pool ≡ true)
      → (u : Userspace) × (main process machine euid status lookup_host show_ip builds args s
          ≡ (served u, success, s))
        × IsServerOf raw u
  unfolding main build_config run_userspace
  main-IsServerOf args s raw c parsed no_cleanup no_nat built pool =
      let v = build_config-IsConfigOf raw c built in
      (
        run_userspace c,
        rw
            (
              parsed,
              no_cleanup,
              built,
              pool (pool_of c.worker_threads) (pool_of-IsPool c.worker_threads),
              userspace_of c.mode (v.mode_of ∙ no_nat),
            )
            refl,
        run_userspace-IsServerOf raw c v,
      )
