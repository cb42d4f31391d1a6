-- ===== src/Config/HostPort.antt =====
-- `validate_hostport` of src/config.rs against `split_host_port` of src/netopt.rs.
use gust.Prelude.{
  ℕ, ◌≡◌, ◌↔◌, refl, ◌⊎◌, inl, inr, [], ◌∷◌, Option, none, some, Result, ok, err, ok_or, is_empty,
  ◌==◌, Option-cases, Bool-cases,
}
use gust.Text.{Text, cut, rcut}
use gust.Text.Number.{parse_unsigned, max_u16}
use gust.Netopt.{host_and_port_text, strip_colon, split_host_port}
use gust.Config.{
  HostError, validated_parts, validate_hostport, missing_port, unterminated_bracket,
  missing_port_after_literal,
}

-- Both find the same host and port text, or none.
abbrev Agree : Option (Text × Text) → Result HostError (Text × Text) → Type 0
Agree p r =
    ((p ≡ none) × ((e : HostError) × (r ≡ err e))) ⊎ ((q : Text × Text) × (p ≡ some q) × (r ≡ ok q))

ok_or-Agree : (o : Option (Text × Text)) (e : HostError) → Agree o (ok_or o e)
ok_or-Agree none e = inl (refl, (e, refl))
ok_or-Agree (some q) e = inr (q, refl, refl)

parts-Agree : (s : Text) → Agree (host_and_port_text s) (validated_parts s)
unfolding host_and_port_text validated_parts
parts-Agree [] = ok_or-Agree (rcut b':' []) missing_port
parts-Agree (c ∷ s) = elim (Bool-cases (c == b'[')) [
  | inr n ↦ rw n (ok_or-Agree (rcut b':' (c ∷ s)) missing_port)
  | inl b ↦ elim (Option-cases (cut b']' s)) [
    | inl f ↦ rw (b, f) (inl (refl, (unterminated_bracket, refl)))
    | inr ((host, after), f) ↦ elim (Option-cases (strip_colon after)) [
      | inl g ↦ rw (b, f, g) (inl (refl, (missing_port_after_literal, refl)))
      | inr (port, g) ↦ rw (b, f, g) (inr ((host, port), refl, refl))
    ]
  ]
]

-- What the validation accepts, the splitter that builds the SOCKS5 and NAT requests never refuses,
-- and it accepts nothing else.
pub validate-split_iff :
    (s : Text)
    → (validate_hostport s ≡ ok tt)
      ↔ ((host : Text) × (port : ℕ) × (split_host_port s ≡ ok (host, port)))
unfolding validate_hostport split_host_port
validate-split_iff s = elim (parts-Agree s) [
  | inl (p, (e, r)) ↦ rw (p, r) (λ h. absurd (cc), λ h. absurd (cc))
  | inr ((host, port), p, r) ↦ elim (Bool-cases (is_empty host)) [
    | inl z ↦ elim (Option-cases (parse_unsigned max_u16 port)) [
      | inl k ↦ rw (p, r, z, k) (λ h. absurd (cc), λ (_, _, h). absurd (cc))
      | inr (n, k) ↦ rw (p, r, z, k) (λ h. absurd (cc), λ (_, _, h). absurd (cc))
    ]
    | inr z ↦ elim (Option-cases (parse_unsigned max_u16 port)) [
      | inl k ↦ rw (p, r, z, k) (λ h. absurd (cc), λ (_, _, h). absurd (cc))
      | inr (n, k) ↦ rw (p, r, z, k) (λ _. (host, n, refl), λ _. refl)
    ]
  ]
]
