-- ===== src/Node/Print/Chars.antt =====
-- Which characters stand in the parts of a printed node.
use gust.Prelude.{
  ℕ, ◌/◌, ◌%◌, ◌<◌, ◌≡◌, ◌≢◌, refl, ◌⊎◌, inl, inr, true, false, ◌||◌, [], ◌∷◌, ◌++◌, Option, none,
  some, All, All-append, All-mono, Lacks, ◌==◌, arith, Bool-cases,
}
use gust.Text.{Text, codes, contains, is_whitespace}
use gust.Text.Number.{show}
use gust.Text.Number.Laws.{IsDigit, show-IsDigit}
use gust.Text.Trim.{Free}
use gust.Text.Utf8.{Bytes, char_bytes}
use gust.Text.Utf8.Laws.{IsScalar, IsByte, char_bytes-IsByte}
use gust.Node.{Node, Query}
use gust.Node.Query.{more_pairs, pair_text}
use gust.Node.Percent.RoundTrip.{percent_encode, escaped, hex_upper, encode_char}
use gust.Node.Print.{
  unreserved, encoded, port_text, host_port_text, userinfo_text, authority_text, query_part,
  rest_text, print_node, IsHostChar, IsTargetChar, IsPart, IsFreePair, IsPrintable,
}

-- The characters of a percent-encoded text.
abbrev pub IsEncodedChar : ℕ → Type 0
IsEncodedChar c = (unreserved c || c == b'%') ≡ true

hex_upper-IsEncodedChar : (d : ℕ) → d < 16 → IsEncodedChar (hex_upper d)
hex_upper-IsEncodedChar d h = ground arith

escaped-IsEncodedChar : (bs : Bytes) → All IsByte bs → All IsEncodedChar (escaped bs)
unfolding escaped
escaped-IsEncodedChar [] h = tt
escaped-IsEncodedChar (b ∷ bs) (h, hs) = (
  refl,
  (
    hex_upper-IsEncodedChar (b / 16) (omega arith),
    (hex_upper-IsEncodedChar (b % 16) (omega arith), escaped-IsEncodedChar bs hs),
  ),
)

encode_char-IsEncodedChar : (c : ℕ) → IsScalar c → All IsEncodedChar (encode_char unreserved c)
encode_char-IsEncodedChar c h = elim (Bool-cases (unreserved c)) [
  | inl e ↦ rw e (rw e refl, tt)
  | inr e ↦ rw e (escaped-IsEncodedChar (char_bytes c) (char_bytes-IsByte c h))
]

pub encoded-IsEncodedChar : (s : Text) → All IsScalar s → All IsEncodedChar (encoded s)
unfolding percent_encode
encoded-IsEncodedChar [] h = tt
encoded-IsEncodedChar (c ∷ s) h =
    All-append IsEncodedChar (encode_char unreserved c) (encoded s)
      (encode_char-IsEncodedChar c h.0) (encoded-IsEncodedChar s h.1)

encoded_plain : (c : ℕ) → IsEncodedChar c → (c ≢ b':') × (c ≢ b'@') × (c ≢ b'/') × (c ≢ b'?')
encoded_plain c h = ground arith

encoded_free : (c : ℕ) → IsEncodedChar c → is_whitespace c ≡ false
unfolding is_whitespace
encoded_free c h = ground arith

digit_free : (c : ℕ) → IsDigit c → is_whitespace c ≡ false
unfolding is_whitespace
digit_free c h = ground arith

-- The characters that may stand in the host and port, and so in the authority.
abbrev pub IsAuthorityChar : ℕ → Type 0
IsAuthorityChar c = (c ≢ b'/') × (c ≢ b'?') × (is_whitespace c ≡ false)

abbrev pub IsHostPortChar : ℕ → Type 0
IsHostPortChar c = (c ≢ b'@') × IsAuthorityChar c

is_free : (c : ℕ) → c ≡ b':' ⊎ (c ≡ b'[') ⊎ (c ≡ b']') → IsHostPortChar c
unfolding is_whitespace
is_free c h = ground arith

port_text-chars : (o : Option ℕ) → All IsHostPortChar (port_text o)
port_text-chars none = tt
port_text-chars (some p) = (
  is_free b':' (inl refl),
  All-mono IsDigit IsHostPortChar (λ c d. (omega arith, (omega arith, omega arith, digit_free c d)))
      (show p) (show-IsDigit p),
)

host-chars : (h : Text) → All IsHostChar h → All IsHostPortChar h
host-chars h = All-mono IsHostChar IsHostPortChar (λ c d. (d.0, (d.1, d.2, d.5))) h

pub host_port_text-chars :
    (h : Text) (o : Option ℕ) → All IsHostChar h → All IsHostPortChar (host_port_text h o)
host_port_text-chars h o k = elim (Bool-cases (contains b':' h)) [
  | inl e ↦ rw e (
    is_free b'[' (inr (inl refl)),
    All-append IsHostPortChar h (b']' ∷ port_text o) (host-chars h k)
        (is_free b']' (inr (inr refl)), port_text-chars o),
  )
  | inr e ↦ rw e (All-append IsHostPortChar h (port_text o) (host-chars h k) (port_text-chars o))
]

encoded-chars : (s : Text) → All IsScalar s → All IsAuthorityChar (encoded s)
encoded-chars s h =
    All-mono IsEncodedChar IsAuthorityChar
      (λ c d. let q = encoded_plain c d in (q.2, q.3, encoded_free c d)) (encoded s)
      (encoded-IsEncodedChar s h)

pub encoded-Lacks_colon : (s : Text) → All IsScalar s → Lacks b':' (encoded s)
encoded-Lacks_colon s h =
    All-mono IsEncodedChar (λ c. c ≢ b':') (λ c d. (encoded_plain c d).0) (encoded s)
      (encoded-IsEncodedChar s h)

at_sign : IsAuthorityChar b'@'
unfolding is_whitespace
at_sign = (omega arith, omega arith, refl)

userinfo_text-chars :
    (u : Text) (p : Option Text)
    → All IsScalar u
    → IsPart p
    → All IsAuthorityChar (userinfo_text u p)
userinfo_text-chars u none h k = encoded-chars u h
userinfo_text-chars u (some p) h k =
    All-append IsAuthorityChar (encoded u) (b':' ∷ encoded p) (encoded-chars u h)
      ((is_free b':' (inl refl)).1, encoded-chars p k)

pub authority_text-chars :
    (u p : Option Text) (hp : Text)
    → IsPart u
    → IsPart p
    → All IsHostPortChar hp
    → All IsAuthorityChar (authority_text u p hp)
authority_text-chars none p hp h k g = All-mono IsHostPortChar IsAuthorityChar (λ c d. d.1) hp g
authority_text-chars (some u) p hp h k g =
    All-append IsAuthorityChar (userinfo_text u p) (b'@' ∷ hp) (userinfo_text-chars u p h k)
      (at_sign, All-mono IsHostPortChar IsAuthorityChar (λ c d. d.1) hp g)

pair_text-Free : (kv : Text × Text) → IsFreePair kv → Free is_whitespace (pair_text kv)
unfolding is_whitespace
pair_text-Free (k, v) h = All-append _ k (b'=' ∷ v) h.0 (refl, h.1)

more_pairs-Free : (q : Query) → All IsFreePair q → Free is_whitespace (more_pairs q)
unfolding is_whitespace
more_pairs-Free [] h = tt
more_pairs-Free (kv ∷ q) h = (
  refl,
  All-append _ (pair_text kv) (more_pairs q) (pair_text-Free kv h.0) (more_pairs-Free q h.1),
)

query_part-Free : (q : Query) → All IsFreePair q → Free is_whitespace (query_part q)
unfolding is_whitespace
query_part-Free [] h = tt
query_part-Free (kv ∷ q) h = (
  refl,
  All-append _ (pair_text kv) (more_pairs q) (pair_text-Free kv h.0) (more_pairs-Free q h.1),
)

target-Free : (t : Text) → All IsTargetChar t → Free is_whitespace t
target-Free t = All-mono IsTargetChar (λ c. is_whitespace c ≡ false) (λ c d. d.1) t

slash_free : (is_whitespace b'/' ≡ false) × (is_whitespace b':' ≡ false)
unfolding is_whitespace
slash_free = (refl, refl)

-- A printed node has no white space.
pub print_node-Free : (n : Node) → IsPrintable n → Free is_whitespace (print_node n)
unfolding print_node
print_node-Free n v = All-append W n.scheme (codes "://" ++ rest_text n) v.scheme_free (
  slash_free.1,
  (
    slash_free.0,
    (
      slash_free.0,
      All-append W (authority_text n.user n.pass hp) (b'/' ∷ (n.target ++ query_part n.query))
          (All-mono IsAuthorityChar W (λ c d. d.2) (authority_text n.user n.pass hp)
            (authority_text-chars n.user n.pass hp v.user_scalar v.pass_scalar
              (host_port_text-chars n.host n.port v.host_chars)))
          (
            slash_free.0,
            All-append W n.target (query_part n.query) (target-Free n.target v.target_chars)
                (query_part-Free n.query v.query_free),
          ),
    ),
  ),
)
  where
    W : ℕ → Type 0
    W c = is_whitespace c ≡ false

    hp : Text
    hp = host_port_text n.host n.port
