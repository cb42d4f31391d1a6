-- ===== src/App.antt =====
-- src/main.rs and src/app.rs: from the arguments to the exit code. The runtime and the machine are
-- parameters. A run in userspace mode is what it has launched when it begins to wait for the
-- shutdown; the shutdown ends it.
pub mod Serves
use gust.Prelude.{
  ℕ, ◌*◌, ◌%◌, Bool, true, false, List, [], ◌∷◌, Option, none, some, Result, ok, err, if◌then◌else◌,
  ltb,
}
use gust.Text.{Text}
use gust.Cli.{ParseOutcome, show_help, show_version, CliError, parse_args}
use gust.Cli
use gust.Config.{
  Protocol, tcp, udp, proto_str, ListenerSpec, Mode, userspace, nat, Config, ConfigError,
  build_config,
}
use gust.Stats.{ListenerStats, two_64, new_stats, Registry}
use gust.Runtime.{Context, context_of}
use gust.Nat.Nftables.{IpAddr}
use gust.Nat.{Machine, ExitCode, success, failure, usage, System}
use gust.Nat
use gust.Nat.Commands.{Process, cleanup_main}
use gust.Nat.Commands.Implements.{nft_of, machine_of}

-- The serve loop of a listener, under its supervisor.
pub data Service : Type 0 where
  serve_tcp serve_udp : ListenerSpec → ListenerStats → Service

-- `spawn_listener`
abbrev pub spawn_listener : ListenerSpec → ListenerStats → Protocol → Service
spawn_listener spec stats tcp = serve_tcp spec stats
spawn_listener spec stats udp = serve_udp spec stats

-- the registry and the services that the loop of `run_userspace` makes
unfoldable pub launch : List ListenerSpec → Registry × List Service
launch [] = ([], [])
launch (spec ∷ specs) =
    let (registry, services) = launch specs in
    let stats = new_stats spec.name (proto_str spec.proto) in
    (stats ∷ registry, spawn_listener spec stats spec.proto ∷ services)

-- the cap of the blocking pool for so many worker threads, in the release profile's arithmetic
abbrev pub blocking_threads : ℕ → ℕ
blocking_threads n = let m = n * 2 % two_64 in if ltb m 2 then 2 else m

-- `worker_threads` and `max_blocking_threads` of the runtime's builder, where they are set
abbrev pub pool_of : Option ℕ → Option (ℕ × ℕ)
pool_of none = none
pool_of (some n) = some (n, blocking_threads n)

-- What `run_userspace` has made when it waits for the shutdown: the context that the listeners
-- share, the registry, the supervised listeners, and the interval of the heartbeat.
pub record Userspace : Type 0 where
  pub ctx : Context
  pub registry : Registry
  pub services : List Service
  pub heartbeat : ℕ

unfoldable pub run_userspace : Config → Userspace
run_userspace cfg =
    let (registry, services) = launch cfg.listeners in
    record {
      ctx = context_of cfg;
      registry = registry;
      services = services;
      heartbeat = cfg.heartbeat;
    }

-- What the program did before it ended.
pub data Ending : Type 0 where
  printed_help printed_version cleaned no_runtime : Ending
  refused_flags : CliError → Ending
  refused_config : ConfigError → Ending
  forwarded : Config → Ending
  served : Userspace → Ending

-- The `nft` program, the machine, the user's id and the text of /proc/self/status, the resolver, the
-- print of an address, and whether the runtime can be built with the pool asked for.
module _ {T : Type 0} (process : Process T) (machine : Machine) (euid : ℕ) (status : Option Text)
    (lookup_host : Text → Option (List IpAddr)) (show_ip : IpAddr → Text)
    (builds : Option (ℕ × ℕ) → Bool) where
  -- `app::run`, where the userspace mode touches neither `ip_forward` nor the tables, and succeeds
  -- when the shutdown comes
  abbrev pub run_mode : Mode → Config → System T → Ending × ExitCode × System T
  run_mode userspace cfg s = (served (run_userspace cfg), success, s)
  run_mode nat cfg s =
      let (code, t) =
        Nat.run (nft_of process) (machine_of process euid status machine s) lookup_host show_ip cfg
          s in
      (forwarded cfg, code, t)

  abbrev pub run_config : Bool → Config → System T → Ending × ExitCode × System T
  run_config false cfg s = (no_runtime, failure, s)
  run_config true cfg s = run_mode cfg.mode cfg s

  abbrev pub run_valid : Result ConfigError Config → System T → Ending × ExitCode × System T
  run_valid (err e) s = (refused_config e, usage, s)
  run_valid (ok cfg) s = run_config (builds (pool_of cfg.worker_threads)) cfg s

  abbrev pub run_cleanup : System T → Ending × ExitCode × System T
  run_cleanup s =
      let (code, t) = cleanup_main process s.tables in (cleaned, code, record s { tables = t })

  abbrev pub run_outcome : Result CliError ParseOutcome → System T → Ending × ExitCode × System T
  run_outcome (err e) s = (refused_flags e, usage, s)
  run_outcome (ok show_help) s = (printed_help, success, s)
  run_outcome (ok show_version) s = (printed_version, success, s)
  run_outcome (ok (Cli.run raw)) s =
      if raw.nat_cleanup then run_cleanup s else run_valid (build_config raw) s

  -- `main`
  unfoldable pub main : List Text → System T → Ending × ExitCode × System T
  main args s = run_outcome (parse_args args) s
