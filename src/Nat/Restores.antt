-- ===== src/Nat/Restores.antt =====
-- What `run` of src/nat/linux.rs leaves behind.
pub mod Clears
use gust.Prelude.{
  arith, ◌≡◌, ◌≢◌, ◌⊎◌, inl, inr, refl, ap, ◌∙◌, sym, Bool, true, not, List, Option, none, some,
  Result, ok, err, if-cases,
}
use gust.Nat.Restores.Clears.{
  BothCleared, Since, delete_both-BothCleared, delete_both-Since, delete_both-forwarding,
}
use gust.Text.{Text}
use gust.Config.{Config}
use gust.Nat.Nftables.{IpAddr, NatRule, ip, build_ruleset}
use gust.Nat.{
  Nft, Machine, ExitCode, success, failure, usage, System, ensure_ip_forward, restore, delete_both,
  cleanup, shut_down, installed, run_rules, run_built, RulesError, build_rules, run,
}

module _ {T : Type 0} (nft : Nft T) (m : Machine) where
  -- The system as a run that began at `s` may leave it.
  pub record Leaves (s : System T) (r : ExitCode × System T) : Type 0 where
    pub forwarding_restored : r.1.forwarding ≡ s.forwarding
    pub tables_cleared : (r.1 ≡ s) ⊎ BothCleared nft m s r.1
    pub cleared_on_success : r.0 ≡ success → BothCleared nft m s r.1

  unchanged-Leaves : (s : System T) (c : ExitCode) → c ≢ success → Leaves s (c, s)
  unchanged-Leaves s c n = record {
    forwarding_restored = refl;
    tables_cleared = inl refl;
    cleared_on_success = λ e. absurd (n e);
  }

  module _ (restores : m.can_restore ≡ true) where
    -- what `ensure_ip_forward` leaves to restore, before any warning
    Owes : System T → Option Bool → System T → Type 0
    Owes s none s1 = s1.forwarding ≡ s.forwarding
    Owes s (some prev) s1 = prev ≡ s.forwarding

    restore-forwarding :
        (s : System T) (o : Option Bool) (s1 : System T)
        → Owes s o s1
        → (restore m o s1).forwarding ≡ s.forwarding
    unfolding Owes
    restore-forwarding s none s1 h = h
    restore-forwarding s (some prev) s1 h = rw restores h

    restore-BothCleared :
        (s : System T) (o : Option Bool) (s1 : System T)
        → BothCleared nft m s s1
        → BothCleared nft m s (restore m o s1)
    restore-BothCleared s none s1 h = h
    restore-BothCleared s (some prev) s1 h = rw restores h

    shut_down_lem :
        (o : Option Bool) (s : System T) → shut_down nft m o s ≡ restore m o (delete_both nft m s)
    unfolding cleanup
    shut_down_lem o s = refl

    restored-Leaves :
        (s : System T) (o : Option Bool) (s1 : System T) (c : ExitCode)
        → Owes s o s1
        → BothCleared nft m s s1
        → Leaves s (c, restore m o s1)
    restored-Leaves s o s1 c w v =
        let cleared = restore-BothCleared s o s1 v in
        record {
          forwarding_restored = restore-forwarding s o s1 w;
          tables_cleared = inr cleared;
          cleared_on_success = λ _. cleared;
        }

    Owes-delete_both :
        (s : System T) (o : Option Bool) (s1 : System T)
        → Owes s o s1
        → Owes s o (delete_both nft m s1)
    unfolding Owes
    Owes-delete_both s none s1 h = delete_both-forwarding nft m s1 ∙ h
    Owes-delete_both s (some prev) s1 h = h

    Owes-tables :
        (s : System T) (o : Option Bool) (s1 : System T) (t : T)
        → Owes s o s1
        → Owes s o (record s1 { tables = t })
    unfolding Owes
    Owes-tables s none s1 t h = h
    Owes-tables s (some prev) s1 t h = h

    installed-Leaves :
        (s : System T) (o : Option Bool) (s1 : System T) (r : Option T)
        → Owes s o s1
        → Since nft m s s1
        → BothCleared nft m s s1
        → Leaves s (installed nft m o s1 r)
    installed-Leaves s o s1 none w q v = restored-Leaves s o s1 failure w v
    installed-Leaves s o s1 (some t) w q v =
        let s2 = record s1 { tables = t } in
        rw (shut_down_lem o s2) (
          restored-Leaves s o (delete_both nft m s2) success
            (Owes-delete_both s o s2 (Owes-tables s o s1 t w))
            (delete_both-BothCleared nft m s s2 q))

    -- `ensure_ip_forward` refuses and changes nothing, or records what must be restored.
    Ensured : System T → Option (Option Bool) × System T → Type 0
    Ensured s (none, s1) = s1 ≡ s
    Ensured s (some o, s1) = Owes s o s1 × Since nft m s s1

    ensure-Ensured : (set : Bool) (s : System T) → Ensured s (ensure_ip_forward m set s)
    unfolding ensure_ip_forward Ensured Owes
    ensure-Ensured set s =
        if-cases (Ensured s) (not m.can_read) (λ _. refl)
          (λ _.
            if-cases (Ensured s) s.forwarding (λ _. (refl, same))
              (λ f.
                if-cases (Ensured s) (not set) (λ _. refl)
                  (λ _. if-cases (Ensured s) m.can_set (λ _. (sym f, same)) (λ _. refl))))
      where
        same : Since nft m s s
        same = (omega arith, omega arith)

    run_rules-Leaves :
        (text : Text) (s : System T) (r : Option (Option Bool) × System T)
        → Ensured s r
        → Leaves s (run_rules nft m text r)
    unfolding Ensured
    run_rules-Leaves text s (none, s1) h = rw h (unchanged-Leaves s failure (λ q. cc))
    run_rules-Leaves text s (some o, s1) (h, q) =
        let s2 = delete_both nft m s1 in
        installed-Leaves s o s2 (nft.apply text s2.tables) (Owes-delete_both s o s1 h)
          (delete_both-Since nft m s s1 q) (delete_both-BothCleared nft m s s1 q)

    run_built-Leaves :
        (show_ip : IpAddr → Text) (set : Bool) (s : System T) (r : Result RulesError (List NatRule))
        → Leaves s (run_built nft m show_ip set s r)
    run_built-Leaves show_ip set s (err e) = unchanged-Leaves s usage (λ q. cc)
    run_built-Leaves show_ip set s (ok rules) =
        run_rules-Leaves (build_ruleset show_ip rules) s (ensure_ip_forward m set s)
          (ensure-Ensured set s)

-- If setting the flag back works, a run of the kernel mode that ends, with success or with any of
-- its errors, leaves the flag `ip_forward` as it was. It leaves the system as it was, or clears both
-- families, and after a success they are cleared: the family's table is absent, or `delete_table`
-- has warned in this run that it could not delete it.
pub run-Leaves :
    {T : Type 0} (nft : Nft T) (m : Machine) (lookup_host : Text → Option (List IpAddr))
    (show_ip : IpAddr → Text) (cfg : Config) (s : System T)
    → m.can_restore ≡ true
    → Leaves nft m s (run nft m lookup_host show_ip cfg s)
unfolding run
run-Leaves nft m lookup_host show_ip cfg s h =
    if-cases (Leaves nft m s) (not m.nft_available)
      (λ _. unchanged-Leaves nft m s failure (λ q. cc))
      (λ _.
        if-cases (Leaves nft m s) (not m.has_net_admin)
          (λ _. unchanged-Leaves nft m s failure (λ q. cc))
          (λ _.
            run_built-Leaves nft m h show_ip cfg.set_ip_forward s
              (build_rules lookup_host show_ip cfg.listeners)))
