-- ===== src/Nat/Rights.antt =====
-- `has_net_admin` of src/nat/linux.rs. The user's id and the text of /proc/self/status are given; the
-- lines are those between line feeds, since the code trims what could be left of a line's end.
use gust.Prelude.{
  ℕ, ◌+◌, ◌*◌, ◌/◌, ◌%◌, ◌^◌, ◌≡◌, ◌↔◌, ◌⊎◌, inl, inr, refl, ap, ◌∙◌, Bool, true, false, List, [],
  ◌∷◌, ◌++◌, Option, none, some, All, leb, ◌==◌, if◌then◌else◌, arith,
}
use gust.Text.{Text, codes, split, strip_prefix, trim}
use gust.Text.Number.{max_u64}
use gust.Node.Percent.{hex_digit}

-- `u64::from_str_radix(s, 16)`, from the value of the digits so far on
unfoldable pub scan_hex : Text → ℕ → Option ℕ
scan_hex [] n = some n
scan_hex (c ∷ s) n = elim (hex_digit c) [
  | none ↦ none
  | some d ↦ let m = n * 16 + d in if leb m max_u64 then scan_hex s m else none
]

abbrev pub some_hex : Text → Option ℕ
some_hex [] = none
some_hex (c ∷ s) = scan_hex (c ∷ s) 0

unfoldable pub from_hex : Text → Option ℕ
from_hex [] = none
from_hex (c ∷ s) = if c == b'+' then some_hex s else some_hex (c ∷ s)

-- the bits of a line of capabilities
unfoldable pub cap_bits : Text → Option ℕ
cap_bits line = elim (strip_prefix (codes "CapEff:") line) [
  | none ↦ none
  | some hex ↦ from_hex (trim hex)
]

-- `(bits >> CAP_NET_ADMIN) & 1 == 1`
abbrev pub has_bit : ℕ → Bool
has_bit bits = bits / 2 ^ 12 % 2 == 1

-- the loop over the lines
unfoldable pub lines_allow : List Text → Bool
lines_allow [] = false
lines_allow (line ∷ lines) = elim (cap_bits line) [
  | none ↦ lines_allow lines
  | some bits ↦ has_bit bits
]

abbrev pub status_allows : Option Text → Bool
status_allows none = false
status_allows (some s) = lines_allow (split b'\n' s)

unfoldable pub has_net_admin : ℕ → Option Text → Bool
has_net_admin euid status = if euid == 0 then true else status_allows status

-- The first line with capabilities has the bit.
abbrev pub Allows : List Text → Type 0
Allows lines =
    (before : List Text) × (line : Text) × (after : List Text) × (bits : ℕ) × (lines
      ≡ before ++ line ∷ after)
    × All (λ l. cap_bits l ≡ none) before
    × (cap_bits line ≡ some bits)
    × (has_bit bits ≡ true)

lines_allow_sound : (lines : List Text) → lines_allow lines ≡ true → Allows lines
unfolding lines_allow
lines_allow_sound [] h = absurd (cc)
lines_allow_sound (line ∷ lines) h = by_bits (cap_bits line) refl h (lines_allow_sound lines)
  where
    by_bits :
        (o : Option ℕ)
        → cap_bits line ≡ o
        → elim o [ none ↦ lines_allow lines | some bits ↦ has_bit bits ] ≡ true
        → (lines_allow lines ≡ true → Allows lines)
        → Allows (line ∷ lines)
    by_bits (some bits) e k f = ([], line, lines, bits, refl, tt, e, k)
    by_bits none e k f =
        let (before, x, after, bits, split_is, lacks, got, bit) = f k in
        (line ∷ before, x, after, bits, ap (◌∷◌ line) split_is, (e, lacks), got, bit)

lines_allow_complete :
    (before : List Text) (line : Text) (after : List Text) (bits : ℕ)
    → All (λ l. cap_bits l ≡ none) before
    → cap_bits line ≡ some bits
    → has_bit bits ≡ true
    → lines_allow (before ++ line ∷ after) ≡ true
unfolding lines_allow cap_bits strip_prefix
lines_allow_complete [] line after bits h e k = rw e k
lines_allow_complete (x ∷ before) line after bits (h, hs) e k =
    rw h (lines_allow_complete before line after bits hs e k)

-- The rights are there exactly for root, and for a status whose first line with capabilities that
-- can be read has the bit of CAP_NET_ADMIN.
has_net_admin_iff :
    (euid : ℕ) (s : Text)
    → (has_net_admin euid (some s) ≡ true) ↔ ((euid ≡ 0) ⊎ Allows (split b'\n' s))
unfolding has_net_admin
has_net_admin_iff euid s = (to (euid == 0) refl, from)
  where
    to :
        (b : Bool)
        → (euid == 0) ≡ b
        → (if b then true else lines_allow (split b'\n' s)) ≡ true
        → (euid ≡ 0) ⊎ Allows (split b'\n' s)
    to true e h = inl (ground arith)
    to false e h = inr (lines_allow_sound (split b'\n' s) h)

    from :
        (euid ≡ 0) ⊎ Allows (split b'\n' s)
        → (if euid == 0 then true else lines_allow (split b'\n' s)) ≡ true
    from (inl e) = ground arith
    from (inr (before, line, after, bits, e, lacks, got, bit)) =
        let k : lines_allow (split b'\n' s) ≡ true =
          ap lines_allow e ∙ lines_allow_complete before line after bits lacks got bit in
        ground arith
