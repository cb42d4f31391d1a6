-- ===== src/Text/Trim.antt =====
-- Laws of `trim_matches` and `trim`.
use gust.Prelude.{ℕ, ◌≡◌, refl, Bool, false, [], ◌∷◌, All, Bool-cases, inl, inr}
use gust.Text.{
  Text, trim_start_matches, trim_end_step, trim_end_matches, trim_matches, trim, is_whitespace,
}

-- The characters that a test refuses.
abbrev pub Free : (ℕ → Bool) → Text → Type 0
Free p = All (λ x. p x ≡ false)

-- Neither end of the text passes the test.
abbrev pub NoStart : (ℕ → Bool) → Text → Type 0
NoStart p [] = Unit {0}
NoStart p (x ∷ s) = p x ≡ false

abbrev pub NoEnd : (ℕ → Bool) → Text → Type 0
NoEnd p [] = Unit {0}
NoEnd p (x ∷ []) = p x ≡ false
NoEnd p (x ∷ y ∷ s) = NoEnd p (y ∷ s)

module _ (p : ℕ → Bool) where
  trim_start-NoStart : (s : Text) → NoStart p (trim_start_matches p s)
  unfolding trim_start_matches
  trim_start-NoStart [] = tt
  trim_start-NoStart (x ∷ s) = elim (Bool-cases (p x)) [
    | inl e ↦ rw e (trim_start-NoStart s)
    | inr e ↦ rw e e
  ]

  trim_end_step-NoEnd : (x : ℕ) (r : Text) → NoEnd p r → NoEnd p (trim_end_step p x r)
  trim_end_step-NoEnd x [] h = elim (Bool-cases (p x)) [ inl e ↦ rw e tt | inr e ↦ rw e e ]
  trim_end_step-NoEnd x (y ∷ r) h = h

  trim_end-NoEnd : (s : Text) → NoEnd p (trim_end_matches p s)
  unfolding trim_end_matches
  trim_end-NoEnd [] = tt
  trim_end-NoEnd (x ∷ s) = trim_end_step-NoEnd x (trim_end_matches p s) (trim_end-NoEnd s)

  trim_end_step-NoStart : (x : ℕ) (r : Text) → p x ≡ false → NoStart p (trim_end_step p x r)
  trim_end_step-NoStart x [] h = rw h h
  trim_end_step-NoStart x (y ∷ r) h = h

  trim_end-NoStart : (s : Text) → NoStart p s → NoStart p (trim_end_matches p s)
  unfolding trim_end_matches
  trim_end-NoStart [] h = tt
  trim_end-NoStart (x ∷ s) h = trim_end_step-NoStart x (trim_end_matches p s) h

  -- A trimmed text neither begins nor ends with a character of the set.
  pub trim_matches-NoStart : (s : Text) → NoStart p (trim_matches p s)
  unfolding trim_matches
  trim_matches-NoStart s = trim_end-NoStart (trim_start_matches p s) (trim_start-NoStart s)

  pub trim_matches-NoEnd : (s : Text) → NoEnd p (trim_matches p s)
  unfolding trim_matches
  trim_matches-NoEnd s = trim_end-NoEnd (trim_start_matches p s)

  pub trim_start_id : (s : Text) → NoStart p s → trim_start_matches p s ≡ s
  unfolding trim_start_matches
  trim_start_id [] h = refl
  trim_start_id (x ∷ s) h = rw h

  trim_end_id : (s : Text) → NoEnd p s → trim_end_matches p s ≡ s
  unfolding trim_end_matches
  trim_end_id [] h = refl
  trim_end_id (x ∷ []) h = rw h
  trim_end_id (x ∷ y ∷ s) h = rw (trim_end_id (y ∷ s) h)

  -- Trimming leaves such a text alone.
  pub trim_matches_id : (s : Text) → NoStart p s → NoEnd p s → trim_matches p s ≡ s
  unfolding trim_matches
  trim_matches_id s h k = rw (trim_start_id s h) (trim_end_id s k)

  pub Free-NoStart : (s : Text) → Free p s → NoStart p s
  Free-NoStart [] h = tt
  Free-NoStart (x ∷ s) h = h.0

  pub Free-NoEnd : (s : Text) → Free p s → NoEnd p s
  Free-NoEnd [] h = tt
  Free-NoEnd (x ∷ []) h = h.0
  Free-NoEnd (x ∷ y ∷ s) h = Free-NoEnd (y ∷ s) h.1

module _ {ℓ} (P : ℕ → Type ℓ) (p : ℕ → Bool) where
  trim_start-All : (s : Text) → All P s → All P (trim_start_matches p s)
  unfolding trim_start_matches
  trim_start-All [] h = tt
  trim_start-All (x ∷ s) h = elim (Bool-cases (p x)) [
    | inl e ↦ rw e (trim_start-All s h.1)
    | inr e ↦ rw e h
  ]

  trim_end_step-All : (x : ℕ) (r : Text) → P x → All P r → All P (trim_end_step p x r)
  trim_end_step-All x [] h k = elim (Bool-cases (p x)) [ inl e ↦ rw e tt | inr e ↦ rw e (h, tt) ]
  trim_end_step-All x (y ∷ r) h k = (h, k)

  trim_end-All : (s : Text) → All P s → All P (trim_end_matches p s)
  unfolding trim_end_matches
  trim_end-All [] h = tt
  trim_end-All (x ∷ s) h = trim_end_step-All x (trim_end_matches p s) h.0 (trim_end-All s h.1)

  -- Trimming only drops characters.
  pub trim_matches-All : (s : Text) → All P s → All P (trim_matches p s)
  unfolding trim_matches
  trim_matches-All s h = trim_end-All (trim_start_matches p s) (trim_start-All s h)

pub trim_id : (s : Text) → Free is_whitespace s → trim s ≡ s
unfolding trim
trim_id s h =
    trim_matches_id is_whitespace s (Free-NoStart is_whitespace s h) (Free-NoEnd is_whitespace s h)
