-- ===== src/Socks5/Transcript/Requests.antt =====
-- The messages that `connect` of src/socks5.rs sends are those of the protocol.
use gust.Prelude.{
  ℕ, ◌/◌, ◌%◌, ◌≤◌, ◌≡◌, inl, inr, refl, sym, ap, ◌∙◌, false, [], ◌∷◌, ◌++◌, Option, none, some, ok,
  arith, ltb, length, Bool-cases, Option-cases, ok-injective,
}
use gust.Text.{Text}
use gust.Text.Utf8.{Bytes, as_bytes}
use gust.Net.{parse_ipv4, parse_ipv6}
use gust.Socks5.{
  method_request, auth_request, connect_request, text_or_empty, encode_addr, domain_bytes,
}
use gust.Socks5.Transcript.{greeting, password, credentials, IsDestination, IsRequest}

pub method_request-greeting : (user : Option Text) → method_request user ≡ greeting user
method_request-greeting none = refl
method_request-greeting (some u) = refl

pub password-text_or_empty : (pass : Option Text) → as_bytes (text_or_empty pass) ≡ password pass
unfolding as_bytes
password-text_or_empty none = refl
password-text_or_empty (some p) = refl

small_length : (b : Bytes) → length b ≤ 255 → length b % 256 ≡ length b
small_length b h = omega arith

pub auth_request-credentials :
    (u : Text) (pass : Option Text)
    → length (as_bytes u) ≤ 255
    → length (password pass) ≤ 255
    → auth_request u (text_or_empty pass) ≡ credentials (as_bytes u) (password pass)
auth_request-credentials u pass h k =
    rw (password-text_or_empty pass, small_length (as_bytes u) h, small_length (password pass) k)
      refl

domain_bytes_sound :
    (b addr : Bytes) → domain_bytes b ≡ ok addr → (length b ≤ 255) × (addr ≡ 3 ∷ length b ∷ b)
domain_bytes_sound b addr h = elim (Bool-cases (ltb 255 (length b))) [
  | inl e ↦ absurd (let k = rw e at h in cc)
  | inr e ↦
      let small : length b ≤ 255 = ground arith in
      (small, sym (ok-injective (rw e at h)) ∙ ap (λ n. 3 ∷ n ∷ b) (small_length b small))
]

domain_bytes_complete : (b : Bytes) → length b ≤ 255 → domain_bytes b ≡ ok (3 ∷ length b ∷ b)
domain_bytes_complete b h =
    let fits : ltb 255 (length b) ≡ false = ground arith in rw (fits, small_length b h)

encode_addr_ipv4 :
    (host : Text) (a : Bytes) → parse_ipv4 host ≡ some a → encode_addr host ≡ ok (1 ∷ a)
unfolding encode_addr
encode_addr_ipv4 host a e = rw (e, encode_addr) refl

encode_addr_ipv6 :
    (host : Text) (a : Bytes)
    → parse_ipv4 host ≡ none
    → parse_ipv6 host ≡ some a
    → encode_addr host ≡ ok (4 ∷ a)
unfolding encode_addr
encode_addr_ipv6 host a e f = rw (e, encode_addr) (rw f refl)

encode_addr_name :
    (host : Text)
    → parse_ipv4 host ≡ none
    → parse_ipv6 host ≡ none
    → encode_addr host ≡ domain_bytes (as_bytes host)
unfolding encode_addr
encode_addr_name host e f = rw (e, encode_addr) (rw f refl)

pub encode_addr-IsDestination :
    (host : Text) (addr : Bytes) → encode_addr host ≡ ok addr → IsDestination host addr
encode_addr-IsDestination host addr h = elim (Option-cases (parse_ipv4 host)) [
  | inr (a, e) ↦ inl (a, e, ok-injective (sym h ∙ encode_addr_ipv4 host a e))
  | inl e ↦ elim (Option-cases (parse_ipv6 host)) [
    | inr (a, f) ↦ inr (inl (a, e, f, ok-injective (sym h ∙ encode_addr_ipv6 host a e f)))
    | inl f ↦
        let (n, k) =
          domain_bytes_sound (as_bytes host) addr (sym (encode_addr_name host e f) ∙ h) in
        inr (inr (e, f, n, k))
  ]
]

pub IsDestination-encode_addr :
    (host : Text) (addr : Bytes) → IsDestination host addr → encode_addr host ≡ ok addr
IsDestination-encode_addr host addr (inl (a, e, k)) = encode_addr_ipv4 host a e ∙ ap ok (sym k)
IsDestination-encode_addr host addr (inr (inl (a, e, f, k))) =
    encode_addr_ipv6 host a e f ∙ ap ok (sym k)
IsDestination-encode_addr host addr (inr (inr (e, f, n, k))) =
    encode_addr_name host e f ∙ domain_bytes_complete (as_bytes host) n ∙ ap ok (sym k)

pub connect_request-IsRequest :
    (host : Text) (port : ℕ) (addr : Bytes)
    → encode_addr host ≡ ok addr
    → IsRequest host port (connect_request addr port)
connect_request-IsRequest host port addr h = (
  addr,
  port / 256,
  port % 256,
  encode_addr-IsDestination host addr h,
  omega arith,
  omega arith,
  refl,
)

pub IsRequest-connect_request :
    (host : Text) (port : ℕ) (out : Bytes)
    → IsRequest host port out
    → (addr : Bytes) × (encode_addr host ≡ ok addr) × (out ≡ connect_request addr port)
IsRequest-connect_request host port out (addr, high, low, d, e, l, k) =
    let h : high ≡ port / 256 = omega (arith, e, l) in
    let m : low ≡ port % 256 = omega (arith, e, l) in
    (
      addr,
      IsDestination-encode_addr host addr d,
      k ∙ ap (λ (x, y). 5 ∷ 1 ∷ 0 ∷ (addr ++ x ∷ y ∷ [])) (pair_path h m),
    )
  where
    pair_path : {a b c d : ℕ} → a ≡ b → c ≡ d → ◌≡◌ {A = ℕ × ℕ} (a, c) (b, d)
    pair_path p q = rw (p, q) refl
