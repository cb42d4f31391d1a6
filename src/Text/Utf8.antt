-- ===== src/Text/Utf8.antt =====
-- `str::as_bytes` and `String::from_utf8_lossy`.
pub mod Laws
use gust.Prelude.{
  ℕ, ◌+◌, ◌-◌, ◌*◌, ◌/◌, ◌%◌, List, [], ◌∷◌, ◌++◌, ltb, leb, between, ◌==◌, if◌then◌else◌,
}
use gust.Text.{Text}

abbrev pub Bytes : Type 0
Bytes = List ℕ

-- The bytes of one code point.
unfoldable pub char_bytes : ℕ → Bytes
char_bytes c =
    if ltb c 0x80
    then c ∷ []
    else if ltb c 0x800
    then (0xc0 + c / 64) ∷ (0x80 + c % 64) ∷ []
    else if ltb c 0x10000
    then (0xe0 + c / 4096) ∷ (0x80 + c / 64 % 64) ∷ (0x80 + c % 64) ∷ []
    else (0xf0 + c / 262144) ∷ (0x80 + c / 4096 % 64) ∷ (0x80 + c / 64 % 64) ∷ (0x80 + c % 64) ∷ []

-- `s.as_bytes()`
unfoldable pub as_bytes : Text → Bytes
unfolding char_bytes
as_bytes [] = []
as_bytes (c ∷ s) = char_bytes c ++ as_bytes s

-- Where the decoder stands: between characters, or behind a part of one, with the bytes that the
-- next may be. `more k` waits for k bytes behind that next one.
pub data Decoder : Type 0 where
  start : Decoder
  more : (k lo hi acc : ℕ) → Decoder

abbrev pub replacement : ℕ
replacement = 0xfffd

-- the first byte of a character
unfoldable pub first_byte : ℕ → Text × Decoder
first_byte b =
    if ltb b 0x80
    then (b ∷ [], start)
    else if between 0xc2 0xdf b
    then ([], more 0 0x80 0xbf (b - 0xc0))
    else if b == 0xe0
    then ([], more 1 0xa0 0xbf 0)
    else if b == 0xed
    then ([], more 1 0x80 0x9f 13)
    else if between 0xe1 0xef b
    then ([], more 1 0x80 0xbf (b - 0xe0))
    else if b == 0xf0
    then ([], more 2 0x90 0xbf 0)
    else if between 0xf1 0xf3 b
    then ([], more 2 0x80 0xbf (b - 0xf0))
    else if b == 0xf4
    then ([], more 2 0x80 0x8f 4)
    else (replacement ∷ [], start)

-- a byte that continues a character
abbrev pub continue_byte : ℕ → ℕ → Text × Decoder
continue_byte k acc = if k == 0 then (acc ∷ [], start) else ([], more (k - 1) 0x80 0xbf acc)

-- the sequence broken off is replaced, and the byte begins the next one
abbrev pub replaced : Text × Decoder → Text × Decoder
replaced (out, d) = (replacement ∷ out, d)

unfoldable pub feed : Decoder → ℕ → Text × Decoder
unfolding first_byte
feed start b = first_byte b
feed (more k lo hi acc) b =
    if between lo hi b then continue_byte k (acc * 64 + (b - 0x80)) else replaced (first_byte b)

-- `String::from_utf8_lossy(bytes)`, from a state of the decoder
unfoldable pub from_utf8_lossy : Decoder → Bytes → Text
unfolding feed
from_utf8_lossy start [] = []
from_utf8_lossy (more k lo hi acc) [] = replacement ∷ []
from_utf8_lossy d (b ∷ s) = let (out, d') = feed d b in out ++ from_utf8_lossy d' s
