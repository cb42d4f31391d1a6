-- ===== src/Tests/ConfigTests.antt =====
-- The validated configuration at concrete flags.
use gust.Prelude.{pos, some, list_eq, ℕ, ◌≡◌, ◌≢◌, ◌↔◌, refl, false, [], ◌∷◌, none, ok, err}
use gust.Text.{
  Text, codes, rcut, cut, split, trim, contains, cut_text, to_ascii_lowercase, span_until,
  strip_prefix,
}
use gust.Text.Number.{parse_unsigned, show}
use gust.Node.{parse_node, parse_trimmed, parse_rest, bind_string, targets, query_get}
use gust.Netopt.{split_host_port}
use gust.Cli.{RawArgs, default_args}
use gust.Config.{
  ListenerSpec, tcp, config_of, expect_failed, build_config, build_listeners, build_listener,
  build_chain, listen_proto, validate_targets, validate_hostport, validated_parts, check_rules,
  check_duplicates, find_udp, find_same_bind, checked_mark,
}
use gust.Config.HostPort.{validate-split_iff}
use gust.Config.Rules.{IsAllowed, check_rules_iff}
use gust.Config.Valid.{IsConfigOf, build_config-IsConfigOf}
use gust.Config.NoPanic.{build_config-NoPanic}

abbrev pub listener : ListenerSpec
listener = record {
  proto = tcp;
  bind = codes "0.0.0.0:8080";
  port = 8080;
  targets = codes "1.2.3.4:9090" ∷ [];
  nodelay = false;
  name = codes "tcp://:8080";
}

abbrev pub flags : RawArgs
flags = record default_args { listens = codes "tcp://:8080/1.2.3.4:9090" ∷ [] }

pub build_config_run : build_config flags ≡ ok (config_of flags (listener ∷ []) [] none)
unfolding build_config build_listeners build_listener parse_node parse_trimmed parse_rest
    bind_string targets query_get trim cut_text strip_prefix to_ascii_lowercase span_until
    listen_proto validate_targets validated_parts rcut cut contains split parse_unsigned show
    build_chain check_rules check_duplicates find_udp find_same_bind checked_mark
build_config_run = refl

build_config-IsConfigOf_example : IsConfigOf flags (config_of flags (listener ∷ []) [] none)
build_config-IsConfigOf_example =
    build_config-IsConfigOf flags (config_of flags (listener ∷ []) [] none) build_config_run

build_config-NoPanic_example : build_config flags ≢ err expect_failed
build_config-NoPanic_example = build_config-NoPanic flags

validate-split_iff_example :
    (validate_hostport (codes "[::1]:80") ≡ ok tt)
    ↔ ((host : Text) × (port : ℕ) × (split_host_port (codes "[::1]:80") ≡ ok (host, port)))
validate-split_iff_example = validate-split_iff (codes "[::1]:80")

check_rules_iff_example :
    (check_rules false (listener ∷ listener ∷ []) [] ≡ ok tt)
    ↔ IsAllowed false (listener ∷ listener ∷ []) []
check_rules_iff_example = check_rules_iff false (listener ∷ listener ∷ []) []

-- -M=4294967296 asks for no mark bits at all.
mark_wraps : checked_mark (some (pos 4294967296)) ≡ ok (some 0)
unfolding checked_mark
mark_wraps = refl

-- One address under two names is not seen as a duplicate.
abbrev on_loopback : ListenerSpec
on_loopback = record listener { bind = codes "127.0.0.1:8080" }

overlap_passes : check_duplicates (listener ∷ on_loopback ∷ []) ≡ ok tt
unfolding check_duplicates find_same_bind list_eq
overlap_passes = refl
