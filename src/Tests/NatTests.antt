-- ===== src/Tests/NatTests.antt =====
-- The kernel mode on a concrete machine.
use gust.Prelude.{
  All, ◌≡◌, ◌↔◌, refl, Bool, true, false, List, [], ◌∷◌, Option, none, some, ok, Each,
}
use gust.Text.{Text, codes}
use gust.Cli.{default_args}
use gust.Config.{ListenerSpec, tcp, Config, config_of}
use gust.Nat.Nftables.{v6, IpAddr, v4, NatRule, Family, ip, ip6}
use gust.Text.{rcut}
use gust.Text.Number.{parse_unsigned}
use gust.Netopt.{split_host_port, host_and_port_text}
use gust.Nat.{
  success, build_rule, ensure_ip_forward, cleanup, parse_ip, resolve_ip, prefer_v4, Nft, Machine,
  System, run, build_rules,
}
use gust.Nat.Rules.{IsRuleOf, build_rules_iff}
use gust.Nat.Resolve.{IsV6, resolve_ip-IsV6}
use gust.Text.Utf8.{as_bytes}
use gust.Net.{parse_ipv4, parse_ipv6, read_ipv4, read_ipv6, read_number, read_char, read_groups}
use gust.Nat.Restores.{Leaves, run-Leaves}

-- The tables of a kernel that only knows which families have one.
abbrev pub remove : Family → Bool × Bool → Bool × Bool
remove ip (a, b) = (false, b)
remove ip6 (a, b) = (a, false)

abbrev pub has : Family → Bool × Bool → Bool
has ip (a, b) = a
has ip6 (a, b) = b

abbrev install_v4 : Text → Bool × Bool → Option (Bool × Bool)
install_v4 text (a, b) = some (true, b)

pub remove-absent : (f : Family) (t : Bool × Bool) → has f (remove f t) ≡ false
remove-absent ip (a, b) = refl
remove-absent ip6 (a, b) = refl

pub remove-stays : (f g : Family) (t : Bool × Bool) → has g t ≡ false → has g (remove f t) ≡ false
remove-stays ip ip (a, b) h = refl
remove-stays ip ip6 (a, b) h = h
remove-stays ip6 ip (a, b) h = h
remove-stays ip6 ip6 (a, b) h = refl

abbrev pub kernel : Nft (Bool × Bool)
kernel = record {
  delete_table = λ f t. (true, remove f t);
  apply = install_v4;
  present = has;
  deleted = λ f t _. remove-absent f t;
  stays_absent = remove-stays;
}

abbrev pub machine : Machine
machine = record {
  nft_available = true;
  has_net_admin = true;
  can_read = true;
  can_set = true;
  can_restore = true;
}

abbrev listener : ListenerSpec
listener = record {
  proto = tcp;
  bind = codes "0.0.0.0:80";
  port = 80;
  targets = codes "10.0.0.1:8080" ∷ [];
  nodelay = false;
  name = codes "tcp://:80";
}

abbrev config : Config
config =
    config_of (record default_args { nat = true; set_ip_forward = true }) (listener ∷ []) [] none

-- A crashed run has left a table, and forwarding is off.
abbrev pub system : System (Bool × Bool)
system = record { forwarding = false; tables = (true, false); ip_warnings = 0; ip6_warnings = 0 }

abbrev pub no_names : Text → Option (List IpAddr)
no_names host = none

abbrev pub no_print : IpAddr → Text
no_print a = []

run-Leaves_example :
    Leaves kernel machine system (run kernel machine no_names no_print config system)
run-Leaves_example = run-Leaves kernel machine no_names no_print config system refl

not_deleted : (f : Family) (t : Bool × Bool) → false ≡ true → has f t ≡ false
not_deleted f t h = cc

-- A kernel that deletes nothing: a run ends with success, and its table is still there, with two
-- warnings about each family.
abbrev stubborn : Nft (Bool × Bool)
stubborn = record {
  delete_table = λ f t. (false, t);
  apply = install_v4;
  present = has;
  deleted = not_deleted;
  stays_absent = λ f g t h. h;
}

stubborn_run :
    run stubborn machine (λ host. some (v4 (10 ∷ 0 ∷ 0 ∷ 1 ∷ []) ∷ [])) no_print config system ≡ (
      success,
      record { forwarding = false; tables = (true, false); ip_warnings = 2; ip6_warnings = 2 },
    )
unfolding run build_rules build_rule split_host_port resolve_ip parse_ip parse_ipv4 read_ipv4
    read_number read_char parse_ipv6 read_ipv6 read_groups as_bytes prefer_v4 ensure_ip_forward
    cleanup rcut parse_unsigned host_and_port_text
stubborn_run = refl

abbrev rule : NatRule
rule = record {
  proto = tcp;
  dport = 80;
  dest_ip = v4 (10 ∷ 0 ∷ 0 ∷ 1 ∷ []);
  dest_port = 8080;
  comment = codes "gust:tcp:80->:8080";
}

build_rules_iff_example :
    (build_rules no_names no_print (listener ∷ []) ≡ ok (rule ∷ []))
    ↔ Each (IsRuleOf no_names no_print) (listener ∷ []) (rule ∷ [])
build_rules_iff_example = build_rules_iff no_names no_print (listener ∷ []) (rule ∷ [])

-- a host with one IPv6 address
abbrev only_v6 : Text → Option (List IpAddr)
only_v6 host = some (v6 (1 ∷ []) ∷ [])

resolve_ip-IsV6_example : All IsV6 (v6 (1 ∷ []) ∷ [])
unfolding parse_ip resolve_ip prefer_v4 parse_ipv4 read_ipv4 read_number read_char parse_ipv6
    read_ipv6 read_groups as_bytes
resolve_ip-IsV6_example =
    resolve_ip-IsV6 only_v6 no_print (codes "host") (v6 (1 ∷ []) ∷ []) (1 ∷ []) refl refl refl
