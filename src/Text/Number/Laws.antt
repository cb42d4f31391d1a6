-- ===== src/Text/Number/Laws.antt =====
-- What the number parsers accept, and that they read back what is printed.
use gust.Prelude.{
  ℕ, zero, suc, ◌+◌, ◌-◌, ◌*◌, ◌/◌, ◌≤◌, ◌<◌, ◌≡◌, ◌≢◌, refl, ap, ◌∙◌, [], ◌∷◌, ◌++◌, some, arith,
  All, All-append, Bool-cases, ltb, ◌==◌, if◌then◌else◌, inl, inr,
}
use gust.Text.{Text}
use gust.Text.Number.{scan, scan_some, parse_unsigned, show_digits, show}

abbrev pub IsDigit : ℕ → Type 0
IsDigit c = (b'0' ≤ c) × (c ≤ b'9')

-- the number that digits spell behind `n`, with no bound
abbrev pub value : ℕ → Text → ℕ
value n [] = n
value n (c ∷ s) = value (n * 10 + (c - b'0')) s

scan_sound :
    (limit : ℕ) (digits : Text) (so_far r : ℕ)
    → so_far ≤ limit
    → scan limit digits so_far ≡ some r
    → All IsDigit digits × (r ≡ value so_far digits) × (r ≤ limit)
unfolding scan
scan_sound limit [] so_far r low e = ground arith
scan_sound limit (d ∷ digits) so_far r low e =
    ground (arith, scan_sound limit digits (so_far * 10 + (d - b'0')) r)

value_ge : (digits : Text) (so_far : ℕ) → so_far ≤ value so_far digits
value_ge [] so_far = omega arith
value_ge (d ∷ digits) so_far = omega (arith, value_ge digits (so_far * 10 + (d - b'0')))

scan_complete :
    (limit : ℕ) (digits : Text) (so_far : ℕ)
    → All IsDigit digits
    → value so_far digits ≤ limit
    → scan limit digits so_far ≡ some (value so_far digits)
unfolding scan
scan_complete limit [] so_far v h = refl
scan_complete limit (d ∷ digits) so_far (v, vs) h =
    let next = so_far * 10 + (d - b'0') in
    ground (arith, value_ge digits next, scan_complete limit digits next vs h)

-- The digits of an unsigned literal: all of it, or what stands behind a leading plus.
abbrev pub unsigned_digits : Text → Text
unsigned_digits [] = []
unsigned_digits (c ∷ s) = if c == b'+' then s else c ∷ s

scan_some_sound :
    (limit : ℕ) (s : Text) (r : ℕ)
    → scan_some limit s ≡ some r
    → (s ≢ []) × All IsDigit s × (r ≡ value 0 s) × (r ≤ limit)
unfolding scan_some
scan_some_sound limit [] r h = cc
scan_some_sound limit (c ∷ s) r h =
    let (d, e, f) = scan_sound limit (c ∷ s) 0 r (omega arith) h in ((λ q. cc), d, e, f)

scan_some_complete :
    (limit : ℕ) (s : Text)
    → s ≢ []
    → All IsDigit s
    → value 0 s ≤ limit
    → scan_some limit s ≡ some (value 0 s)
unfolding scan_some
scan_some_complete limit [] h = absurd (h refl)
scan_some_complete limit (c ∷ s) _ = scan_complete limit (c ∷ s) 0

pub parse_unsigned_sound :
    (limit : ℕ) (s : Text) (r : ℕ)
    → parse_unsigned limit s ≡ some r
    → (unsigned_digits s ≢ [])
      × All IsDigit (unsigned_digits s)
      × (r ≡ value 0 (unsigned_digits s))
      × (r ≤ limit)
unfolding parse_unsigned
parse_unsigned_sound limit [] r h = cc
parse_unsigned_sound limit (c ∷ s) r h = elim (Bool-cases (c == b'+')) [
  | inl e ↦ rw e (scan_some_sound limit s r (rw e at h))
  | inr e ↦ rw e (scan_some_sound limit (c ∷ s) r (rw e at h))
]

pub parse_unsigned_complete :
    (limit : ℕ) (s : Text)
    → unsigned_digits s ≢ []
    → All IsDigit (unsigned_digits s)
    → value 0 (unsigned_digits s) ≤ limit
    → parse_unsigned limit s ≡ some (value 0 (unsigned_digits s))
unfolding parse_unsigned
parse_unsigned_complete limit [] h _ _ = absurd (h refl)
parse_unsigned_complete limit (c ∷ s) h d f = elim (Bool-cases (c == b'+')) [
  | inl e ↦ rw e (scan_some_complete limit s (rw e at h) (rw e at d) (rw e at f))
  | inr e ↦ rw e (scan_some_complete limit (c ∷ s) (rw e at h) (rw e at d) (rw e at f))
]

show_digits-IsDigit : (fuel n : ℕ) → All IsDigit (show_digits fuel n)
unfolding show_digits
show_digits-IsDigit zero n = tt
show_digits-IsDigit (suc fuel) n = elim (Bool-cases (ltb n 10)) [
  | inl e ↦ rw e ((omega arith, ground arith), tt)
  | inr e ↦ rw e (
      All-append IsDigit (show_digits fuel (n / 10)) _ (show_digits-IsDigit fuel (n / 10))
        ((omega arith, omega arith), tt))
]

show_digits-ne-nil : (fuel n : ℕ) → show_digits (suc fuel) n ≢ []
unfolding show_digits
show_digits-ne-nil fuel n = grind (arith)

pub show-IsDigit : (n : ℕ) → All IsDigit (show n)
unfolding show
show-IsDigit n = show_digits-IsDigit (suc n) n

value-append : (s t : Text) (n : ℕ) → value n (s ++ t) ≡ value (value n s) t
value-append [] t n = refl
value-append (c ∷ s) t n = value-append s t (n * 10 + (c - b'0'))

value-show_digits : (fuel n : ℕ) → n < fuel → value 0 (show_digits fuel n) ≡ n
unfolding show_digits
value-show_digits zero n h = absurd (omega arith)
value-show_digits (suc fuel) n h = elim (Bool-cases (ltb n 10)) [
  | inl e ↦ rw e (omega arith)
  | inr e ↦
      rw
        (
          e,
          value-append (show_digits fuel (n / 10)),
          value-show_digits fuel (n / 10) (ground arith),
        )
        (omega arith)
]

pub value-show : (n : ℕ) → value 0 (show n) ≡ n
unfolding show
value-show n = value-show_digits (suc n) n (omega arith)

pub show-ne-nil : (n : ℕ) → show n ≢ []
unfolding show
show-ne-nil n = show_digits-ne-nil n n

digit_first : (s : Text) → s ≢ [] → All IsDigit s → unsigned_digits s ≡ s
digit_first [] h _ = refl
digit_first (c ∷ s) h (d, _) = ground arith

-- A printed number within the limit is read back.
pub parse_unsigned-show : (limit n : ℕ) → n ≤ limit → parse_unsigned limit (show n) ≡ some n
parse_unsigned-show limit n h =
    let e = digit_first (show n) (show-ne-nil n) (show-IsDigit n) in
    parse_unsigned_complete limit (show n) (rw e (show-ne-nil n)) (rw e (show-IsDigit n))
      (rw (e, value-show n) h)
    ∙ ap some (ap (value 0) e ∙ value-show n)
