-- ===== src/Text.antt =====
-- The operations of `str` that the program uses, over a text as its list of code points. A slice
-- `s[..i]`, `s[i + 1..]` at the `i` of a `find` is the pair of texts round the character found.
pub mod Cut
pub mod Trim
pub mod Number
pub mod Utf8
use Prim.Native.Char.{code}
use Prim.Native.String.{String}
use gust.Prelude.{
  ℕ, ◌+◌, Bool, true, false, ◌||◌, List, [], ◌∷◌, ◌++◌, Option, none, some, between, ◌==◌,
  if◌then◌else◌,
}

abbrev pub Text : Type 0
Text = List ℕ

abbrev pub codes : String → Text
codes String.[] = []
codes (String.◌∷◌ c s) = code c ∷ codes s

-- puts a character before the first half
abbrev pub before : ℕ → Option (Text × Text) → Option (Text × Text)
before x none = none
before x (some (a, b)) = some (x ∷ a, b)

-- `s.find(c)`
unfoldable pub cut : ℕ → Text → Option (Text × Text)
cut c [] = none
cut c (x ∷ s) = if x == c then some ([], s) else before x (cut c s)

-- what `s.rfind(c)` gives at a character with the rest behind it
abbrev pub rcut_step : ℕ → ℕ → Text → Option (Text × Text) → Option (Text × Text)
rcut_step c x s none = if x == c then some ([], s) else none
rcut_step c x s (some (a, b)) = some (x ∷ a, b)

-- `s.rfind(c)`
unfoldable pub rcut : ℕ → Text → Option (Text × Text)
rcut c [] = none
rcut c (x ∷ s) = rcut_step c x s (rcut c s)

abbrev pub on_first : ℕ → Text × Text → Text × Text
on_first x (a, b) = (x ∷ a, b)

-- `s.find(p).unwrap_or(s.len())`, with the slices before it and from it on
unfoldable pub span_until : (ℕ → Bool) → Text → Text × Text
span_until p [] = ([], [])
span_until p (x ∷ s) = if p x then ([], x ∷ s) else on_first x (span_until p s)

-- `s.strip_prefix(pre)`
unfoldable pub strip_prefix : Text → Text → Option Text
strip_prefix [] s = some s
strip_prefix (c ∷ pre) [] = none
strip_prefix (c ∷ pre) (x ∷ s) = if x == c then strip_prefix pre s else none

-- `s.find(pat)` for a pattern of several characters
unfoldable pub cut_text : Text → Text → Option (Text × Text)
cut_text pat [] = elim (strip_prefix pat []) [ some rest ↦ some ([], rest) | none ↦ none ]
cut_text pat (x ∷ s) = elim (strip_prefix pat (x ∷ s)) [
  | some rest ↦ some ([], rest)
  | none ↦ before x (cut_text pat s)
]

abbrev pub onto_head : ℕ → List Text → List Text
onto_head x [] = (x ∷ []) ∷ []
onto_head x (p ∷ ps) = (x ∷ p) ∷ ps

-- `s.split(c)`: always at least one part
unfoldable pub split : ℕ → Text → List Text
split c [] = [] ∷ []
split c (x ∷ s) = if x == c then [] ∷ split c s else onto_head x (split c s)

-- `s.contains(c)`
unfoldable pub contains : ℕ → Text → Bool
contains c [] = false
contains c (x ∷ s) = x == c || contains c s

abbrev pub lower_char : ℕ → ℕ
lower_char c = if between b'A' b'Z' c then c + 32 else c

-- `s.to_ascii_lowercase()`
unfoldable pub to_ascii_lowercase : Text → Text
to_ascii_lowercase [] = []
to_ascii_lowercase (x ∷ s) = lower_char x ∷ to_ascii_lowercase s

-- `char::is_whitespace`: the code points with the property White_Space
unfoldable pub is_whitespace : ℕ → Bool
is_whitespace c =
    between 9 13 c
    || c == 0x20
    || c == 0x85
    || c == 0xa0
    || c == 0x1680
    || between 0x2000 0x200a c
    || between 0x2028 0x2029 c
    || c == 0x202f
    || c == 0x205f
    || c == 0x3000

-- `s.trim_start_matches(p)`
unfoldable pub trim_start_matches : (ℕ → Bool) → Text → Text
trim_start_matches p [] = []
trim_start_matches p (x ∷ s) = let rest = trim_start_matches p s in if p x then rest else x ∷ s

abbrev pub trim_end_step : (ℕ → Bool) → ℕ → Text → Text
trim_end_step p x [] = if p x then [] else x ∷ []
trim_end_step p x (y ∷ r) = x ∷ y ∷ r

-- `s.trim_end_matches(p)`
unfoldable pub trim_end_matches : (ℕ → Bool) → Text → Text
trim_end_matches p [] = []
trim_end_matches p (x ∷ s) = trim_end_step p x (trim_end_matches p s)

-- `s.trim_matches(p)`
unfoldable pub trim_matches : (ℕ → Bool) → Text → Text
unfolding trim_start_matches trim_end_matches
trim_matches p s = trim_end_matches p (trim_start_matches p s)

-- `s.trim()`
unfoldable pub trim : Text → Text
unfolding trim_matches is_whitespace
trim s = trim_matches is_whitespace s
