-- ===== src/Text/Cut.antt =====
-- Laws of `find`, `rfind`, `strip_prefix` and `split`.
use gust.Prelude.{
  Option-cases, ℕ, ◌≡◌, ◌≢◌, inl, inr, refl, ap, Bool, true, false, List, [], ◌∷◌, ◌++◌, Option,
  none, some, arith, All, Lacks, ◌==◌, Bool-cases, ==_iff,
}
use gust.Text.{
  Text, before, cut, rcut, rcut_step, span_until, strip_prefix, cut_text, onto_head, split,
  contains,
}

module _ (c : ℕ) where
  pub cut-append : (a b : Text) → Lacks c a → cut c (a ++ c ∷ b) ≡ some (a, b)
  unfolding cut
  cut-append [] b _ = ground arith
  cut-append (x ∷ a) b (h, hs) = ground (arith, cut-append a b hs)

  pub cut-Lacks : (s : Text) → Lacks c s → cut c s ≡ none
  unfolding cut
  cut-Lacks [] _ = refl
  cut-Lacks (x ∷ s) (h, hs) = ground (arith, cut-Lacks s hs)

  -- What `find` says of a text: the first `c`, with the texts round it, or that there is none.
  abbrev pub CutsFirst : Text → Option (Text × Text) → Type 0
  CutsFirst s none = Lacks c s
  CutsFirst s (some (a, b)) = (s ≡ a ++ c ∷ b) × Lacks c a

  CutsFirst-before :
      (x : ℕ) (s : Text) (r : Option (Text × Text))
      → x ≢ c
      → CutsFirst s r
      → CutsFirst (x ∷ s) (before x r)
  CutsFirst-before x s none h k = (h, k)
  CutsFirst-before x s (some (a, b)) h (e, k) = (ap (◌∷◌ x) e, (h, k))

  pub cut-CutsFirst : (s : Text) → CutsFirst s (cut c s)
  unfolding cut
  cut-CutsFirst [] = tt
  cut-CutsFirst (x ∷ s) = elim (Bool-cases (x == c)) [
    | inl e ↦ rw e (ap (λ (t : ℕ). t ∷ s) ((==_iff x c).0 e), tt)
    | inr e ↦ rw e (CutsFirst-before x s (cut c s) (ground arith) (cut-CutsFirst s))
  ]

  abbrev pub CutsLast : Text → Option (Text × Text) → Type 0
  CutsLast s none = Lacks c s
  CutsLast s (some (a, b)) = (s ≡ a ++ c ∷ b) × Lacks c b

  CutsLast-step :
      (x : ℕ) (s : Text) (r : Option (Text × Text))
      → CutsLast s r
      → CutsLast (x ∷ s) (rcut_step c x s r)
  CutsLast-step x s none k = elim (Bool-cases (x == c)) [
    | inl e ↦ rw e (ap (λ (t : ℕ). t ∷ s) ((==_iff x c).0 e), k)
    | inr e ↦ rw e (ground arith, k)
  ]
  CutsLast-step x s (some (a, b)) (e, k) = (ap (◌∷◌ x) e, k)

  pub rcut-CutsLast : (s : Text) → CutsLast s (rcut c s)
  unfolding rcut
  rcut-CutsLast [] = tt
  rcut-CutsLast (x ∷ s) = CutsLast-step x s (rcut c s) (rcut-CutsLast s)

  pub rcut-Lacks : (s : Text) → Lacks c s → rcut c s ≡ none
  unfolding rcut
  rcut-Lacks [] _ = refl
  rcut-Lacks (x ∷ s) (h, hs) = ground (arith, rcut-Lacks s hs)

  pub rcut-append : (a b : Text) → Lacks c b → rcut c (a ++ c ∷ b) ≡ some (a, b)
  unfolding rcut
  rcut-append [] b h = ground (arith, rcut-Lacks b h)
  rcut-append (x ∷ a) b h = ground (arith, rcut-append a b h)

  pub contains-Lacks : (s : Text) → Lacks c s → contains c s ≡ false
  unfolding contains
  contains-Lacks [] _ = refl
  contains-Lacks (x ∷ s) (h, hs) = ground (arith, contains-Lacks s hs)

  pub Lacks-contains : (s : Text) → contains c s ≡ false → Lacks c s
  unfolding contains
  Lacks-contains [] _ = tt
  Lacks-contains (x ∷ s) h = ground (arith, Lacks-contains s)

pub strip_prefix-append : (pre s : Text) → strip_prefix pre (pre ++ s) ≡ some s
unfolding strip_prefix
strip_prefix-append [] s = refl
strip_prefix-append (c ∷ pre) s = ground (arith, strip_prefix-append pre s)

pub strip_prefix_sound :
    (pre s : Text) (rest : Text) → strip_prefix pre s ≡ some rest → s ≡ pre ++ rest
unfolding strip_prefix
strip_prefix_sound [] s rest h = ground arith
strip_prefix_sound (c ∷ pre) [] rest h = cc
strip_prefix_sound (c ∷ pre) (x ∷ s) rest h = ground (arith, strip_prefix_sound pre s rest)

strip_prefix_ne : (c x : ℕ) (pat s : Text) → x ≢ c → strip_prefix (c ∷ pat) (x ∷ s) ≡ none
unfolding strip_prefix
strip_prefix_ne c x pat s h = ground arith

onto_head-Lacks :
    (c x : ℕ) (ps : List Text) → x ≢ c → All (Lacks c) ps → All (Lacks c) (onto_head x ps)
onto_head-Lacks c x [] h _ = ((h, tt), tt)
onto_head-Lacks c x (p ∷ ps) h (k, ks) = ((h, k), ks)

-- The text is empty, or its first character ends the span.
unfoldable pub is_stop : Text → (ℕ → Bool) → Bool
is_stop [] p = true
is_stop (y ∷ b) p = p y

-- A pattern is found at once where it stands, if its first character is nowhere before it.
pub cut_text-append :
    (c : ℕ) (pat a b : Text) → Lacks c a → cut_text (c ∷ pat) (a ++ c ∷ (pat ++ b)) ≡ some (a, b)
unfolding cut_text
cut_text-append c pat [] b h = rw (strip_prefix-append (c ∷ pat) b, cut_text)
cut_text-append c pat (x ∷ a) b (h, hs) =
    rw (strip_prefix_ne c x pat (a ++ c ∷ (pat ++ b)) h, cut_text)
      (ap (before x) (cut_text-append c pat a b hs))

module _ (p : ℕ → Bool) where
  pub span_until-append :
      (a b : Text)
      → All (λ x. p x ≡ false) a
      → (is_stop b p ≡ true)
      → span_until p (a ++ b) ≡ (a, b)
  unfolding span_until is_stop
  span_until-append [] [] _ _ = refl
  span_until-append [] (y ∷ b) _ h = ground arith
  span_until-append (x ∷ a) b (h, hs) k = rw (h, span_until-append a b hs k)

  pub span_until_sound :
      (s : Text)
      → (s ≡ (span_until p s).0 ++ (span_until p s).1)
        × All (λ x. p x ≡ false) (span_until p s).0
        × (is_stop (span_until p s).1 p ≡ true)
  unfolding span_until is_stop
  span_until_sound [] = (refl, tt, refl)
  span_until_sound (x ∷ s) = elim (Bool-cases (p x)) [
    | inl e ↦ rw e (refl, tt, e)
    | inr e ↦ let (w, o, t) = span_until_sound s in rw e (ap (◌∷◌ x) w, (e, o), t)
  ]

-- No part of a split holds the separator.
pub split-Lacks-All : (c : ℕ) (s : Text) → All (Lacks c) (split c s)
unfolding split
split-Lacks-All c [] = (tt, tt)
split-Lacks-All c (x ∷ s) = elim (Bool-cases (x == c)) [
  | inl e ↦ rw e (tt, split-Lacks-All c s)
  | inr e ↦ rw e (onto_head-Lacks c x (split c s) (ground arith) (split-Lacks-All c s))
]

pub split-Lacks : (c : ℕ) (s : Text) → Lacks c s → split c s ≡ s ∷ []
unfolding split
split-Lacks c [] h = refl
split-Lacks c (x ∷ s) (h, hs) = ground (arith, split-Lacks c s hs)

pub split-append : (c : ℕ) (a b : Text) → Lacks c a → split c (a ++ c ∷ b) ≡ a ∷ split c b
unfolding split
split-append c [] b h = ground arith
split-append c (x ∷ a) b (h, hs) = ground (arith, split-append c a b hs)

-- The pattern stands somewhere in the text.
abbrev pub Contains : Text → Text → Type 0
Contains pat s = (a : Text) × (b : Text) × (s ≡ a ++ (pat ++ b))

pub cut_text-Contains : (pat s : Text) (r : Text × Text) → cut_text pat s ≡ some r → Contains pat s
unfolding cut_text
cut_text-Contains pat [] r h = elim (Option-cases (strip_prefix pat [])) [
  | inl e ↦ absurd (let k = rw (e, cut_text) at h in cc)
  | inr (rest, e) ↦ ([], rest, strip_prefix_sound pat [] rest e)
]
cut_text-Contains pat (x ∷ s) r h = elim (Option-cases (strip_prefix pat (x ∷ s))) [
  | inr (rest, e) ↦ ([], rest, strip_prefix_sound pat (x ∷ s) rest e)
  | inl e ↦ elim (Option-cases (cut_text pat s)) [
    | inl f ↦ absurd (let k = rw (e, f, cut_text) at h in cc)
    | inr (q, f) ↦ let (a, b, g) = cut_text-Contains pat s q f in (x ∷ a, b, ap (◌∷◌ x) g)
  ]
]

pub cut_text_finds : (pat a b : Text) → cut_text pat (a ++ (pat ++ b)) ≢ none
unfolding cut_text
cut_text_finds pat [] b h = by_text (pat ++ b) (strip_prefix-append pat b) h
  where
    by_text : (s : Text) → strip_prefix pat s ≡ some b → cut_text pat s ≢ none
    by_text [] e k = absurd (let q = rw (e, cut_text) at k in cc)
    by_text (x ∷ s) e k = absurd (let q = rw (e, cut_text) at k in cc)
cut_text_finds pat (x ∷ a) b h = elim (Option-cases (strip_prefix pat (x ∷ (a ++ (pat ++ b))))) [
  | inr (rest, e) ↦ let k = rw (e, cut_text) at h in cc
  | inl e ↦ elim (Option-cases (cut_text pat (a ++ (pat ++ b)))) [
    | inl f ↦ cut_text_finds pat a b f
    | inr (q, f) ↦ let k = rw (e, f, cut_text) at h in cc
  ]
]
