-- ===== src/Nat.antt =====
-- src/nat/linux.rs: the kernel forwarding of `--nat`, from the flags to the cleanup. `nft`, the
-- resolver and the file of `ip_forward` are parameters.
pub mod Nftables
pub mod Rules
pub mod Restores
pub mod Resolve
pub mod Commands
pub mod Status
pub mod Rights
use gust.Prelude.{
  ℕ, suc, Bool, true, false, ◌≡◌, not, List, [], ◌∷◌, ◌++◌, Option, none, some, Result, ok, err,
  ◌>>=◌, ok_or, map_err, length, if◌then◌else◌,
}
use gust.Text.{Text, codes}
use gust.Text.Number.{show}
use gust.Net.{parse_ipv4, parse_ipv6}
use gust.Netopt.{InvalidHostPort, split_host_port}
use gust.Config.{ListenerSpec, Config, proto_str}
use Nftables.{IpAddr, v4, v6, is_ipv4, NatRule, build_ruleset, Family, ip, ip6}

-- The errors of `build_rules`.
pub data RulesError : Type 0 where
  not_one_target : Text → ℕ → RulesError
  bad_target : InvalidHostPort → RulesError
  unresolved : Text → RulesError

-- `host.parse::<IpAddr>()`
unfoldable pub parse_ip : Text → Option IpAddr
parse_ip s = elim (parse_ipv4 s) [
  | some a ↦ some (v4 a)
  | none ↦ elim (parse_ipv6 s) [ some a ↦ some (v6 a) | none ↦ none ]
]

-- the first IPv4 address, and else the last IPv6 address
unfoldable pub prefer_v4 : Option IpAddr → List IpAddr → Option IpAddr
prefer_v4 fallback [] = fallback
prefer_v4 fallback (v4 a ∷ addrs) = some (v4 a)
prefer_v4 fallback (v6 a ∷ addrs) = prefer_v4 (some (v6 a)) addrs

-- `lookup_host` gives the addresses of a host, and `show_ip` is the print of `IpAddr`.
module _ (lookup_host : Text → Option (List IpAddr)) (show_ip : IpAddr → Text) where
  unfoldable pub resolve_ip : Text → Option IpAddr
  resolve_ip host = elim (parse_ip host) [
    | some a ↦ some a
    | none ↦ elim (lookup_host host) [ none ↦ none | some addrs ↦ prefer_v4 none addrs ]
  ]

  abbrev pub rule_comment : ListenerSpec → IpAddr → ℕ → Text
  rule_comment l addr port =
      codes "gust:"
      ++ (proto_str l.proto
          ++ (b':' ∷ (show l.port ++ (codes "->" ++ (show_ip addr ++ b':' ∷ show port)))))

  -- one round of the loop over the listeners
  unfoldable pub build_rule : ListenerSpec → List Text → Result RulesError NatRule
  build_rule l (target ∷ []) = do
    (host, port) ← map_err bad_target (split_host_port target)
    addr ← ok_or (resolve_ip host) (unresolved host)
    ok (record {
      proto = l.proto;
      dport = l.port;
      dest_ip = addr;
      dest_port = port;
      comment = rule_comment l addr port;
    })
  build_rule l targets = err (not_one_target l.name (length targets))

  unfoldable pub build_rules : List ListenerSpec → Result RulesError (List NatRule)
  build_rules [] = ok []
  build_rules (l ∷ ls) = do r ← build_rule l l.targets; more ← build_rules ls; ok (r ∷ more)

-- `nft` on the tables that are called `gust`: `delete_table` tells whether it ends without its
-- warning, and then the table is absent; a deletion brings no table back; and a ruleset is applied
-- whole or not at all.
pub record Nft (T : Type 0) : Type 0 where
  pub delete_table : Family → T → Bool × T
  pub apply : Text → T → Option T
  pub present : Family → T → Bool
  pub deleted :
      (f : Family) (t : T) → (delete_table f t).0 ≡ true → present f (delete_table f t).1 ≡ false
  pub stays_absent :
      (f g : Family) (t : T) → present g t ≡ false → present g (delete_table f t).1 ≡ false

-- What the machine answers: whether `nft` and the rights are there, whether the file of
-- `ip_forward` can be read, set and set back.
pub record Machine : Type 0 where
  pub nft_available : Bool
  pub has_net_admin : Bool
  pub can_read : Bool
  pub can_set : Bool
  pub can_restore : Bool

pub data ExitCode : Type 0 where
  success failure usage : ExitCode

-- The `ip_forward` flag, the tables, and how often `delete_table` has warned that it could not
-- delete the table of a family.
pub record System (T : Type 0) : Type 0 where
  pub forwarding : Bool
  pub tables : T
  pub ip_warnings : ℕ
  pub ip6_warnings : ℕ

abbrev pub warn : {T : Type 0} → Family → System T → System T
warn ip s = record s { ip_warnings = suc s.ip_warnings }
warn ip6 s = record s { ip6_warnings = suc s.ip6_warnings }

-- `write_ip_forward`, where the write works or not
abbrev pub write_ip_forward : {T : Type 0} → Bool → Bool → System T → System T
write_ip_forward works v s = if works then record s { forwarding = v } else s

-- `ensure_ip_forward`: `none` for an error, and else what must be restored
unfoldable pub ensure_ip_forward :
    {T : Type 0} → Machine → Bool → System T → Option (Option Bool) × System T
ensure_ip_forward m set s =
    if not m.can_read
    then (none, s)
    else if s.forwarding
    then (some none, s)
    else if not set
    then (none, s)
    else if m.can_set
    then (some (some false), write_ip_forward true true s)
    else (none, s)

-- `if let Some(prev) = restore_fwd`
abbrev pub restore : {T : Type 0} → Machine → Option Bool → System T → System T
restore m none s = s
restore m (some prev) s = write_ip_forward m.can_restore prev s

-- `NatState`
pub record NatState : Type 0 where
  pub armed : Bool
  pub restore_fwd : Option Bool

module _ {T : Type 0} (nft : Nft T) (m : Machine) where
  -- `delete_table`, which only warns if it cannot delete
  abbrev pub delete_one : Family → System T → System T
  delete_one f s =
      let (works, t) = nft.delete_table f s.tables in
      let s1 = record s { tables = t } in if works then s1 else warn f s1

  -- deletes our table in both families
  abbrev pub delete_both : System T → System T
  delete_both s = delete_one ip6 (delete_one ip s)

  -- `NatState::cleanup`, which the guard's `Drop` calls too
  unfoldable pub cleanup : NatState → System T → NatState × System T
  cleanup st s =
      if not st.armed
      then (st, s)
      else (record { armed = false; restore_fwd = none }, restore m st.restore_fwd (delete_both s))

  -- the rest of `run` behind a ruleset that is applied: the shutdown comes, `cleanup` runs, and
  -- then the guard is dropped
  abbrev pub shut_down : Option Bool → System T → System T
  shut_down restore_fwd s =
      let (st, s1) = cleanup (record { armed = true; restore_fwd = restore_fwd }) s in
      (cleanup st s1).1

  -- what `apply` gives, and then
  abbrev pub installed : Option Bool → System T → Option T → ExitCode × System T
  installed restore_fwd s none = (failure, restore m restore_fwd s)
  installed restore_fwd s (some t) = (success, shut_down restore_fwd (record s { tables = t }))

  abbrev pub run_rules : Text → Option (Option Bool) × System T → ExitCode × System T
  run_rules text (none, s) = (failure, s)
  run_rules text (some restore_fwd, s) =
      let s1 = delete_both s in installed restore_fwd s1 (nft.apply text s1.tables)

  abbrev pub run_built :
      (IpAddr → Text) → Bool → System T → Result RulesError (List NatRule) → ExitCode × System T
  run_built show_ip set s (err e) = (usage, s)
  run_built show_ip set s (ok rules) =
      run_rules (build_ruleset show_ip rules) (ensure_ip_forward m set s)

  module _ (lookup_host : Text → Option (List IpAddr)) (show_ip : IpAddr → Text) where
    unfoldable pub run : Config → System T → ExitCode × System T
    run cfg s =
        if not m.nft_available
        then (failure, s)
        else if not m.has_net_admin
        then (failure, s)
        else run_built show_ip cfg.set_ip_forward s (build_rules lookup_host show_ip cfg.listeners)
