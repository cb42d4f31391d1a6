-- ===== src/Text/Number.antt =====
-- `str::parse` into an unsigned type and into `i64`, and the decimal print of `format!`.
pub mod Laws
use gust.Prelude.{
  ℕ, zero, suc, ◌+◌, ◌-◌, ◌*◌, ◌/◌, ◌%◌, ◌^◌, Bool, true, false, List, [], ◌∷◌, ◌++◌, Option, none,
  some, between, leb, ltb, ◌&&◌, ◌==◌, if◌then◌else◌,
}
use gust.Text.{Text}

abbrev pub is_digit : ℕ → Bool
is_digit c = between b'0' b'9' c

-- the digits behind the value so far; `none` for another character or past `limit`
unfoldable pub scan : ℕ → Text → ℕ → Option ℕ
scan limit [] n = some n
scan limit (c ∷ s) n =
    let m = n * 10 + (c - b'0') in if is_digit c && leb m limit then scan limit s m else none

-- digits, and at least one
unfoldable pub scan_some : ℕ → Text → Option ℕ
unfolding scan
scan_some limit [] = none
scan_some limit (c ∷ s) = scan limit (c ∷ s) 0

-- `s.parse::<uN>()` with `limit` the type's largest value; a leading `+` is allowed
unfoldable pub parse_unsigned : ℕ → Text → Option ℕ
unfolding scan_some
parse_unsigned limit [] = none
parse_unsigned limit (c ∷ s) = if c == b'+' then scan_some limit s else scan_some limit (c ∷ s)

abbrev pub max_u16 : ℕ
max_u16 = 2 ^ 16 - 1

abbrev pub max_u64 : ℕ
max_u64 = 2 ^ 64 - 1

-- the decimal print; a number below the fuel is printed whole
unfoldable pub show_digits : ℕ → ℕ → Text
show_digits zero n = []
show_digits (suc fuel) n =
    let more = show_digits fuel (n / 10) ++ (b'0' + n % 10) ∷ [] in
    if ltb n 10 then (b'0' + n) ∷ [] else more

unfoldable pub show : ℕ → Text
unfolding show_digits
show n = show_digits (suc n) n
