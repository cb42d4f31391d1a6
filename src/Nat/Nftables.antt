-- ===== src/Nat/Nftables.antt =====
-- src/nat/nftables.rs: the text of the ruleset. The print of an address is a parameter.
use gust.Prelude.{ℕ, Bool, true, false, List, [], ◌∷◌, ◌++◌, is_empty, if◌then◌else◌}
use gust.Text.{Text, codes}
use gust.Text.Number.{show}
use gust.Text.Utf8.{Bytes}
use gust.Config.{Protocol, proto_str}

pub data IpAddr : Type 0 where
  v4 v6 : Bytes → IpAddr

abbrev pub is_ipv4 : IpAddr → Bool
is_ipv4 (v4 a) = true
is_ipv4 (v6 a) = false

-- the family of a table
pub data Family : Type 0 where
  ip ip6 : Family

abbrev pub family_str : Family → Text
family_str ip = codes "ip"
family_str ip6 = codes "ip6"

pub record NatRule : Type 0 where
  pub proto : Protocol
  pub dport : ℕ
  pub dest_ip : IpAddr
  pub dest_port : ℕ
  pub comment : Text

-- `rules.iter().filter(|r| r.dest_ip.is_ipv4())`, and the one with `is_ipv6`
unfoldable pub v4_rules : List NatRule → List NatRule
v4_rules [] = []
v4_rules (r ∷ rules) = let rest = v4_rules rules in if is_ipv4 r.dest_ip then r ∷ rest else rest

unfoldable pub v6_rules : List NatRule → List NatRule
v6_rules [] = []
v6_rules (r ∷ rules) = let rest = v6_rules rules in if is_ipv4 r.dest_ip then rest else r ∷ rest

module _ (show_ip : IpAddr → Text) where
  abbrev pub format_dest : IpAddr → ℕ → Text
  format_dest (v4 a) port = show_ip (v4 a) ++ b':' ∷ show port
  format_dest (v6 a) port = b'[' ∷ (show_ip (v6 a) ++ (codes "]:" ++ show port))

  abbrev pub rule_line : NatRule → Text
  rule_line r =
      codes "        "
      ++ (proto_str r.proto
          ++ (codes " dport "
              ++ (show r.dport
                  ++ (codes " counter comment \""
                      ++ (r.comment
                          ++ (codes "\" dnat to "
                              ++ (format_dest r.dest_ip r.dest_port ++ b'\n' ∷ [])))))))

  unfoldable pub rule_lines : List NatRule → Text
  rule_lines [] = []
  rule_lines (r ∷ rules) = rule_line r ++ rule_lines rules

  unfoldable pub build_table : Family → List NatRule → Text
  build_table family rules =
      codes "table "
      ++ (family_str family
          ++ (codes " gust {\n"
              ++ (codes "    chain prerouting {\n"
                  ++ (codes "        type nat hook prerouting priority dstnat; policy accept;\n"
                      ++ (rule_lines rules
                          ++ (codes "    }\n"
                              ++ (codes "    chain postrouting {\n"
                                  ++ (codes
                                        "        type nat hook postrouting priority srcnat; policy accept;\n"
                                      ++ (codes
                                            "        ct status dnat counter masquerade fully-random\n"
                                          ++ (codes "    }\n" ++ codes "}\n"))))))))))

  abbrev pub table_if_any : Family → List NatRule → Text
  table_if_any family rules = if is_empty rules then [] else build_table family rules

  unfoldable pub build_ruleset : List NatRule → Text
  build_ruleset rules = table_if_any ip (v4_rules rules) ++ table_if_any ip6 (v6_rules rules)
