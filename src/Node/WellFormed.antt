-- ===== src/Node/WellFormed.antt =====
-- What holds of every node that `parse_node` of src/node.rs returns.
use gust.Prelude.{
  ℕ, ◌≡◌, ◌≢◌, refl, false, [], ◌∷◌, Option, none, some, ok, ◌>>=◌, >>=-eq-ok, map_err, is_empty,
  arith, subst, map_err-eq-ok, ok-injective, reject_if-eq-ok,
}
use gust.Text.{Text, codes, cut_text, span_until, trim, to_ascii_lowercase}
use gust.Text.Trim.{NoStart, NoEnd, trim_matches-NoStart, trim_matches-NoEnd}
use gust.Node.{
  Node, in_node, empty_node, empty_scheme, parse_host_port, build_node, ends_authority,
  path_and_query, split_userinfo, parse_rest, parse_trimmed, parse_node,
}
use gust.Node.HostPort.{HostPortForm, plain, literal_port, parse_host_port_iff}
use gust.Node.Print.{slash, IsPort}

-- The scheme is there and in lower case, the port fits 16 bits, and no slash ends the target.
pub record IsWellFormed (n : Node) : Type 0 where
  pub scheme_ne_nil : n.scheme ≢ []
  pub scheme_lower : to_ascii_lowercase n.scheme ≡ n.scheme
  pub port_fits : IsPort n.port
  pub target_start : NoStart slash n.target
  pub target_end : NoEnd slash n.target

Form-IsPort : (s h : Text) (o : Option ℕ) → HostPortForm s h o → IsPort o
Form-IsPort s h none f = tt
Form-IsPort s h (some p) (plain t a e k) = k.3
Form-IsPort s h (some p) (literal_port t a e k) = k.3

lower_lower : (s : Text) → to_ascii_lowercase (to_ascii_lowercase s) ≡ to_ascii_lowercase s
unfolding to_ascii_lowercase
lower_lower [] = refl
lower_lower (c ∷ s) = ground (arith, lower_lower s)

lower-ne-nil : (s : Text) → is_empty s ≡ false → to_ascii_lowercase s ≢ []
unfolding to_ascii_lowercase
lower-ne-nil [] h e = cc
lower-ne-nil (c ∷ s) h e = cc

module _ (s scheme : Text) (n : Node) where
  build-IsWellFormed :
      (hp path query_str : Text) (user pass : Option Text)
      → scheme ≢ []
      → to_ascii_lowercase scheme ≡ scheme
      → (map_err (in_node s) (parse_host_port hp) >>= λ r.
          ok (build_node scheme user pass path query_str r))
        ≡ ok n
      → IsWellFormed n
  build-IsWellFormed hp path query_str user pass h l e =
      let (r, q, g) =
        >>=-eq-ok (map_err (in_node s) (parse_host_port hp))
          (λ r. ok (build_node scheme user pass path query_str r)) e in
      subst IsWellFormed (ok-injective g) (record {
        scheme_ne_nil = h;
        scheme_lower = l;
        port_fits =
            Form-IsPort hp r.0 r.1
              ((parse_host_port_iff hp r.0 r.1).0 (map_err-eq-ok (in_node s) _ q));
        target_start = trim_matches-NoStart slash path;
        target_end = trim_matches-NoEnd slash path;
      })

  parse_rest-IsWellFormed :
      (rest : Text)
      → scheme ≢ []
      → to_ascii_lowercase scheme ≡ scheme
      → parse_rest s scheme rest ≡ ok n
      → IsWellFormed n
  unfolding parse_rest
  parse_rest-IsWellFormed rest h l e =
      let (auth, remainder) = span_until ends_authority rest in
      let (path, query_str) = path_and_query remainder in
      let (user, pass, hp) = split_userinfo auth in
      build-IsWellFormed hp path query_str user pass h l e

parse_trimmed-IsWellFormed :
    (s : Text) (o : Option (Text × Text)) (n : Node)
    → cut_text (codes "://") s ≡ o
    → parse_trimmed s ≡ ok n
    → IsWellFormed n
unfolding parse_trimmed
parse_trimmed-IsWellFormed s none n e h = cc (rw (e, parse_trimmed) at h)
parse_trimmed-IsWellFormed s (some (scheme, rest)) n e h =
    let lower = to_ascii_lowercase scheme in
    let (q, g) =
      reject_if-eq-ok (is_empty scheme) (empty_scheme s) (parse_rest s lower rest)
        (rw (e, parse_trimmed) at h) in
    parse_rest-IsWellFormed s (to_ascii_lowercase scheme) n rest (lower-ne-nil scheme q)
      (lower_lower scheme) g

-- Whatever text is read: a node that is returned has a scheme in lower case, a port that fits 16
-- bits if it has one, and a target without slashes at its ends.
pub parse_node-IsWellFormed : (s : Text) (n : Node) → parse_node s ≡ ok n → IsWellFormed n
unfolding parse_node
parse_node-IsWellFormed s n h =
    let (_, g) = reject_if-eq-ok (is_empty (trim s)) empty_node (parse_trimmed (trim s)) h in
    parse_trimmed-IsWellFormed (trim s) _ n refl g
