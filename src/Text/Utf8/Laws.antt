-- ===== src/Text/Utf8/Laws.antt =====
-- Decoding gives the encoded text back, and encoded texts are bytes.
use gust.Prelude.{
  ℕ, ◌≤◌, ◌<◌, ◌≡◌, refl, ap, ◌∙◌, ◌⊎◌, [], ◌∷◌, ◌++◌, All, All-append, append_assoc, arith,
}
use gust.Text.{Text}
use gust.Text.Utf8.{Bytes, char_bytes, as_bytes, start, from_utf8_lossy}

-- A Unicode scalar value: a code point that is no surrogate.
abbrev pub IsScalar : ℕ → Type 0
IsScalar c = (c < 0xd800) ⊎ ((0xe000 ≤ c) × (c < 0x110000))

abbrev pub IsByte : ℕ → Type 0
IsByte b = b < 256

pub char_bytes-IsByte : (c : ℕ) → IsScalar c → All IsByte (char_bytes c)
unfolding char_bytes
char_bytes-IsByte c h = ground arith

pub as_bytes-IsByte : (s : Text) → All IsScalar s → All IsByte (as_bytes s)
unfolding as_bytes
as_bytes-IsByte [] h = tt
as_bytes-IsByte (c ∷ s) h =
    All-append IsByte (char_bytes c) (as_bytes s) (char_bytes-IsByte c h.0) (as_bytes-IsByte s h.1)

lossy_char :
    (c : ℕ) (rest : Bytes)
    → IsScalar c
    → from_utf8_lossy start (char_bytes c ++ rest) ≡ c ∷ from_utf8_lossy start rest
unfolding from_utf8_lossy char_bytes
lossy_char c rest h = ground arith

pub lossy-as_bytes : (s : Text) → All IsScalar s → from_utf8_lossy start (as_bytes s) ≡ s
unfolding as_bytes
lossy-as_bytes [] h = unfold from_utf8_lossy in refl
lossy-as_bytes (c ∷ s) h = lossy_char c (as_bytes s) h.0 ∙ ap (◌∷◌ c) (lossy-as_bytes s h.1)

pub as_bytes-append : (s t : Text) → as_bytes (s ++ t) ≡ as_bytes s ++ as_bytes t
unfolding as_bytes
as_bytes-append [] t = refl
as_bytes-append (c ∷ s) t = rw (as_bytes-append s t, append_assoc (char_bytes c))
