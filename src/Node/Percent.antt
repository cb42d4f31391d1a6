-- ===== src/Node/Percent.antt =====
-- `decode` of src/node.rs: percent-decoding of the userinfo.
pub mod RoundTrip
use gust.Prelude.{
  ℕ, ◌+◌, ◌-◌, ◌*◌, ◌%◌, Bool, List, [], ◌∷◌, ◌++◌, Option, none, some, between, ◌==◌,
  if◌then◌else◌,
}
use gust.Text.{Text, contains}
use gust.Text.Utf8.{Bytes, as_bytes, from_utf8_lossy, start}

-- `(b as char).to_digit(16)`
unfoldable pub hex_digit : ℕ → Option ℕ
hex_digit b =
    if between b'0' b'9' b
    then some (b - b'0')
    else if between b'a' b'f' b
    then some (b - b'a' + 10)
    else if between b'A' b'F' b
    then some (b - b'A' + 10)
    else none

-- the byte of a valid escape `%hl`
unfoldable pub escape_byte : ℕ → ℕ → ℕ → Option ℕ
unfolding hex_digit
escape_byte b h l =
    if b == b'%'
    then elim (hex_digit h) [
      | none ↦ none
      | some x ↦ elim (hex_digit l) [ none ↦ none | some y ↦ some ((x * 16 + y) % 256) ]
    ]
    else none

-- the loop over the bytes; the last two are never the start of an escape
unfoldable pub unescape : Bytes → Bytes
unfolding escape_byte
unescape [] = []
unescape (b ∷ []) = b ∷ []
unescape (b ∷ h ∷ []) = b ∷ h ∷ []
unescape (b ∷ h ∷ l ∷ s) = elim (escape_byte b h l) [
  | some x ↦ x ∷ unescape s
  | none ↦ b ∷ unescape (h ∷ l ∷ s)
]

unfoldable pub decode : Text → Text
unfolding unescape
decode s = if contains b'%' s then from_utf8_lossy start (unescape (as_bytes s)) else s
