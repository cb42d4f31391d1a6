-- ===== src/Tests/NodeTests.antt =====
-- The node parser on concrete texts.
use gust.Prelude.{◌≡◌, ◌↔◌, refl, [], ◌∷◌, some, ok, All, arith}
use gust.Text.{Text, codes, to_ascii_lowercase, is_whitespace}
use gust.Node.{Node, parse_node, parse_host_port, targets}
use gust.Node.Percent.{decode}
use gust.Node.Percent.RoundTrip.{percent_encode, decode-percent_encode}
use gust.Node.HostPort.{HostPortForm, parse_host_port_iff}
use gust.Node.Print.{print_node, IsPrintable, unreserved}
use gust.Node.Print.RoundTrip.{parse_node-print_node}
use gust.Node.Targets.{IsTarget, targets-IsTarget, targets-join}
use gust.Node.WellFormed.{IsWellFormed, parse_node-IsWellFormed}

-- socks5://us%3Aer:p%40ss@[::1]:1080/a:1,b:2?nodelay=1
abbrev proxy : Node
proxy = record {
  scheme = codes "socks5";
  user = some (codes "us:er");
  pass = some (codes "p@ss");
  host = codes "::1";
  port = some 1080;
  target = codes "a:1,b:2";
  query = (codes "nodelay", codes "1") ∷ [];
}

proxy-IsPrintable : IsPrintable proxy
unfolding to_ascii_lowercase is_whitespace
proxy-IsPrintable = record {
  scheme_ne_nil = λ q. cc;
  scheme_lower = refl;
  scheme_plain = ground arith;
  scheme_free = ground arith;
  user_first = λ q. absurd (cc);
  user_scalar = ground arith;
  pass_scalar = ground arith;
  host_chars = ground arith;
  port_fits = omega arith;
  target_chars = ground arith;
  target_start = refl;
  target_end = refl;
  query_plain = ground arith;
  query_free = ground arith;
  query_distinct = (tt, tt);
}

parse_node-print_node_example : parse_node (print_node proxy) ≡ ok proxy
parse_node-print_node_example = parse_node-print_node proxy proxy-IsPrintable

parse_host_port_iff_example :
    (parse_host_port (codes "[::1]:1080") ≡ ok (codes "::1", some 1080))
    ↔ HostPortForm (codes "[::1]:1080") (codes "::1") (some 1080)
parse_host_port_iff_example = parse_host_port_iff (codes "[::1]:1080") (codes "::1") (some 1080)

-- "a b%" with an umlaut
abbrev password : Text
password = b'a' ∷ b' ' ∷ 0xfc ∷ b'%' ∷ []

decode-percent_encode_example : decode (percent_encode unreserved password) ≡ password
decode-percent_encode_example = decode-percent_encode unreserved refl password (ground arith)

targets-IsTarget_example : All IsTarget (targets proxy)
targets-IsTarget_example = targets-IsTarget proxy

a1_IsTarget : IsTarget (codes "a:1")
unfolding is_whitespace
a1_IsTarget = record { ne_nil = λ q. cc; one_part = ground arith; starts = refl; ends = refl }

b2_IsTarget : IsTarget (codes "b:2")
unfolding is_whitespace
b2_IsTarget = record { ne_nil = λ q. cc; one_part = ground arith; starts = refl; ends = refl }

targets-join_example : targets proxy ≡ codes "a:1" ∷ codes "b:2" ∷ []
targets-join_example =
    targets-join proxy (codes "a:1" ∷ codes "b:2" ∷ []) refl (a1_IsTarget, (b2_IsTarget, tt))

parse_node-IsWellFormed_example : IsWellFormed proxy
parse_node-IsWellFormed_example =
    parse_node-IsWellFormed (print_node proxy) proxy parse_node-print_node_example
