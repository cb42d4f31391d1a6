-- ===== src/Nat/Rules.antt =====
-- The DNAT rules that src/nat/linux.rs builds from the listeners.
use gust.Prelude.{
  ℕ, ◌≡◌, ◌↔◌, refl, ap, subst, List, [], ◌∷◌, Option, some, ok, ok_or, map_err, >>=-eq-ok,
  map_err-eq-ok, ok_or-eq-ok, ok-injective, Each,
}
use gust.Text.{Text}
use gust.Netopt.{split_host_port}
use gust.Config.{ListenerSpec}
use gust.Nat.Nftables.{IpAddr, NatRule}
use gust.Nat.{bad_target, unresolved, resolve_ip, rule_comment, build_rule, build_rules}

module _ (lookup_host : Text → Option (List IpAddr)) (show_ip : IpAddr → Text) where
  -- The rule that a listener asks for: its protocol and port, to the address of its only target.
  pub record IsRuleOf (l : ListenerSpec) (r : NatRule) : Type 0 where
    pub target : Text
    pub host : Text
    pub only_target : l.targets ≡ target ∷ []
    pub parts : split_host_port target ≡ ok (host, r.dest_port)
    pub resolved : resolve_ip lookup_host show_ip host ≡ some r.dest_ip
    pub same_proto : r.proto ≡ l.proto
    pub same_port : r.dport ≡ l.port
    pub has_comment : r.comment ≡ rule_comment lookup_host show_ip l r.dest_ip r.dest_port

  build_rule-IsRuleOf :
      (l : ListenerSpec) (ts : List Text) (r : NatRule)
      → l.targets ≡ ts
      → build_rule lookup_host show_ip l ts ≡ ok r
      → IsRuleOf l r
  unfolding build_rule
  build_rule-IsRuleOf l [] r e h = cc
  build_rule-IsRuleOf l (t ∷ u ∷ ts) r e h = cc
  build_rule-IsRuleOf l (t ∷ []) r e h =
      let (hp, p, h1) = >>=-eq-ok (map_err bad_target (split_host_port t)) _ h in
      let (addr, q, h2) =
        >>=-eq-ok (ok_or (resolve_ip lookup_host show_ip hp.0) (unresolved hp.0)) _ h1 in
      subst (IsRuleOf l) (ok-injective h2) (record {
        target = t;
        host = hp.0;
        only_target = e;
        parts = map_err-eq-ok bad_target _ p;
        resolved = ok_or-eq-ok (resolve_ip lookup_host show_ip hp.0) _ q;
        same_proto = refl;
        same_port = refl;
        has_comment = refl;
      })

  rule_of : ListenerSpec → IpAddr → ℕ → NatRule
  rule_of l addr port = record {
    proto = l.proto;
    dport = l.port;
    dest_ip = addr;
    dest_port = port;
    comment = rule_comment lookup_host show_ip l addr port;
  }

  rule_eta : (l : ListenerSpec) (r : NatRule) → IsRuleOf l r → rule_of l r.dest_ip r.dest_port ≡ r
  unfolding rule_of
  rule_eta l r v = cc (v.same_proto, v.same_port, v.has_comment)

  IsRuleOf-build_rule :
      (l : ListenerSpec) (r : NatRule)
      → IsRuleOf l r
      → build_rule lookup_host show_ip l l.targets ≡ ok r
  unfolding build_rule rule_of
  IsRuleOf-build_rule l r v = rw (v.only_target, v.parts, v.resolved) (ap ok (rule_eta l r v))

  rules_of :
      (l : ListenerSpec) (ls : List ListenerSpec) (rules : List NatRule)
      → ((more : List NatRule)
          → Each IsRuleOf ls more
          → build_rules lookup_host show_ip ls ≡ ok more)
      → Each IsRuleOf (l ∷ ls) rules
      → build_rules lookup_host show_ip (l ∷ ls) ≡ ok rules
  unfolding build_rules
  rules_of l ls [] go h = absurd h
  rules_of l ls (r ∷ rules) go (v, h) = rw (IsRuleOf-build_rule l r v, go rules h) refl

  -- Building the rules succeeds exactly if each listener has one target, which is a host and a port
  -- whose host resolves, and gives one rule for each listener in order: the listener's protocol and
  -- port, to the address and port of its target.
  pub build_rules_iff :
      (ls : List ListenerSpec) (rules : List NatRule)
      → (build_rules lookup_host show_ip ls ≡ ok rules) ↔ Each IsRuleOf ls rules
  unfolding build_rules
  build_rules_iff [] [] = (λ _. tt, λ _. refl)
  build_rules_iff [] (r ∷ rules) = (λ h. absurd (cc), λ h. absurd h)
  build_rules_iff (l ∷ ls) rules = (
    λ h.
        let (r, e, h1) = >>=-eq-ok (build_rule lookup_host show_ip l l.targets) _ h in
        let (more, f, h2) = >>=-eq-ok (build_rules lookup_host show_ip ls) _ h1 in
        subst (Each IsRuleOf (l ∷ ls)) (ok-injective h2)
          (build_rule-IsRuleOf l l.targets r refl e, (build_rules_iff ls more).0 f),
    rules_of l ls rules (λ more. (build_rules_iff ls more).1),
  )
