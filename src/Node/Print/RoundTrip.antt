-- ===== src/Node/Print/RoundTrip.antt =====
-- `parse_node` reads a printed node back.
use gust.Prelude.{
  ℕ, ◌≡◌, ◌≢◌, refl, ap, ◌∙◌, inl, inr, false, [], ◌∷◌, ◌++◌, append-nil, Option, none, some, ok,
  arith, All, All-mono, Lacks, Bool-cases, is_empty, is_empty-append, is_empty-ne,
}
use gust.Text.{Text, codes, contains, span_until, trim}
use gust.Text.Cut.{
  cut-append, cut-Lacks, rcut-append, rcut-Lacks, cut_text-append, span_until-append, is_stop,
  Lacks-contains,
}
use gust.Text.Trim.{trim_id, trim_matches_id}
use gust.Text.Number.{show}
use gust.Text.Utf8.Laws.{IsScalar}
use gust.Node.{
  Node, ends_authority, path_and_query, userinfo_parts, split_userinfo, parse_rest, parse_trimmed,
  parse_node,
}
use gust.Node.HostPort.{
  HostPortForm, bare, plain, literal, literal_port, opens_bracket, parse_host_port_iff,
  show-IsPortText,
}
use gust.Node.Percent.{decode}
use gust.Node.Percent.RoundTrip.{decode-percent_encode}
use gust.Node.Query.{query_text, query_pairs-query_text}
use gust.Node.Print.{
  unreserved, encoded, host_port_text, userinfo_text, authority_text, query_part, rest_text,
  print_node, slash, IsHostChar, IsTargetChar, IsPart, IsPort, IsPrintable,
}
use gust.Node.Print.Chars.{
  IsAuthorityChar, IsHostPortChar, host_port_text-chars, authority_text-chars, encoded-Lacks_colon,
  print_node-Free,
}

host_opens :
    (h t : Text) → All IsHostChar h → opens_bracket t ≡ false → opens_bracket (h ++ t) ≡ false
host_opens [] t k e = e
host_opens (c ∷ h) t k e = ground arith

host_port_text-Form :
    (h : Text) (o : Option ℕ) → All IsHostChar h → IsPort o → HostPortForm (host_port_text h o) h o
host_port_text-Form h none k f = elim (Bool-cases (contains b':' h)) [
  | inl e ↦ rw e (literal (All-mono IsHostChar (λ c. c ≢ b']') (λ c d. d.4) h k) refl)
  | inr e ↦
      rw (e, append-nil h)
        (bare (rw (← append-nil h) (host_opens h [] k refl)) (Lacks-contains b':' h e) refl)
]
host_port_text-Form h (some p) k f = elim (Bool-cases (contains b':' h)) [
  | inl e ↦ rw e (
      literal_port (show p) (All-mono IsHostChar (λ c. c ≢ b']') (λ c d. d.4) h k) refl
        (show-IsPortText p f))
  | inr e ↦ rw e (plain (show p) (host_opens h (b':' ∷ show p) k refl) refl (show-IsPortText p f))
]

decode-encoded : (s : Text) → All IsScalar s → decode (encoded s) ≡ s
decode-encoded s h = decode-percent_encode unreserved refl s h

userinfo_parts-text :
    (u : Text) (p : Option Text)
    → All IsScalar u
    → IsPart p
    → userinfo_parts (userinfo_text u p) ≡ (some u, p)
unfolding userinfo_parts
userinfo_parts-text u none h k =
    rw (cut-Lacks b':' (encoded u) (encoded-Lacks_colon u h), userinfo_parts)
      (rw (decode-encoded u h))
userinfo_parts-text u (some p) h k =
    rw (cut-append b':' (encoded u) (encoded p) (encoded-Lacks_colon u h), userinfo_parts)
      (rw (decode-encoded u h, decode-encoded p k))

split_userinfo-text :
    (u p : Option Text) (hp : Text)
    → (u ≡ none → p ≡ none)
    → IsPart u
    → IsPart p
    → Lacks b'@' hp
    → split_userinfo (authority_text u p hp) ≡ (u, p, hp)
unfolding split_userinfo
split_userinfo-text none p hp f h k l = rw (rcut-Lacks b'@' hp l, split_userinfo) (rw (f refl))
split_userinfo-text (some u) p hp f h k l =
    rw (rcut-append b'@' (userinfo_text u p) hp l, split_userinfo)
      (rw (userinfo_parts-text u p h k))

target-Lacks : (t : Text) → All IsTargetChar t → Lacks b'?' t
target-Lacks t = All-mono IsTargetChar (λ c. c ≢ b'?') (λ c d. d.0) t

path_and_query-text :
    (n : Node)
    → IsPrintable n
    → path_and_query (b'/' ∷ (n.target ++ query_part n.query)) ≡ (n.target, query_text n.query)
unfolding path_and_query
path_and_query-text n v = go n.query
  where
    go : (q : _) → path_and_query (b'/' ∷ (n.target ++ query_part q)) ≡ (n.target, query_text q)
    go [] =
        ap (λ (t : Text). path_and_query (b'/' ∷ t)) (append-nil n.target)
        ∙ rw (cut-Lacks b'?' n.target (target-Lacks n.target v.target_chars), path_and_query)
    go (kv ∷ q) = rw (
      cut-append b'?' n.target (query_text (kv ∷ q)) (target-Lacks n.target v.target_chars),
      path_and_query,
    )

span-text :
    (n : Node)
    → IsPrintable n
    → span_until ends_authority (rest_text n) ≡ (
      authority_text n.user n.pass (host_port_text n.host n.port),
      b'/' ∷ (n.target ++ query_part n.query),
    )
span-text n v =
    span_until-append ends_authority (authority_text n.user n.pass (host_port_text n.host n.port)) _
      (All-mono IsAuthorityChar (λ c. ends_authority c ≡ false) (λ c d. ground arith) _
        (authority_text-chars n.user n.pass _ v.user_scalar v.pass_scalar
          (host_port_text-chars n.host n.port v.host_chars)))
      (unfold is_stop in refl)

host_port_text-Lacks_at : (n : Node) → IsPrintable n → Lacks b'@' (host_port_text n.host n.port)
host_port_text-Lacks_at n v =
    All-mono IsHostPortChar (λ c. c ≢ b'@') (λ c d. d.0) (host_port_text n.host n.port)
      (host_port_text-chars n.host n.port v.host_chars)

parse_rest-text : (n : Node) (s : Text) → IsPrintable n → parse_rest s n.scheme (rest_text n) ≡ ok n
unfolding parse_rest
parse_rest-text n s v = rw (
  span-text n v,
  split_userinfo-text n.user n.pass _ v.user_first v.user_scalar v.pass_scalar
      (host_port_text-Lacks_at n v),
  path_and_query-text n v,
  (parse_host_port_iff _ n.host n.port).1
      (host_port_text-Form n.host n.port v.host_chars v.port_fits),
  trim_matches_id slash n.target v.target_start v.target_end,
  query_pairs-query_text n.query v.query_plain v.query_distinct,
)

parse_node_trimmed : (s : Text) → trim s ≡ s → is_empty s ≡ false → parse_node s ≡ parse_trimmed s
unfolding parse_node
parse_node_trimmed s e h = rw (e, h)

print_node-ne-nil : (n : Node) → IsPrintable n → is_empty (print_node n) ≡ false
unfolding print_node
print_node-ne-nil n v = is_empty-append n.scheme _ v.scheme_ne_nil

parse_trimmed-text : (n : Node) → IsPrintable n → parse_trimmed (print_node n) ≡ ok n
unfolding print_node parse_trimmed
parse_trimmed-text n v =
    rw
      (
        cut_text-append b':' (codes "//") n.scheme (rest_text n) v.scheme_plain,
        parse_trimmed,
        is_empty-ne n.scheme v.scheme_ne_nil,
        v.scheme_lower,
      )
      (parse_rest-text n _ v)

-- Every node that the format can express is read back from its node string: the scheme, the
-- credentials (percent-decoded), host, port, target and query.
pub parse_node-print_node : (n : Node) → IsPrintable n → parse_node (print_node n) ≡ ok n
parse_node-print_node n v =
    parse_node_trimmed (print_node n) (trim_id (print_node n) (print_node-Free n v))
      (print_node-ne-nil n v)
    ∙ parse_trimmed-text n v
