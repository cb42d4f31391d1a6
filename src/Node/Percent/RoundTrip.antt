-- ===== src/Node/Percent/RoundTrip.antt =====
-- `decode` undoes percent-encoding, and leaves a text without an escape alone.
use gust.Prelude.{
  ℕ, ◌+◌, ◌-◌, ◌/◌, ◌%◌, ◌<◌, ◌≡◌, ◌≢◌, refl, ap, ◌∙◌, sym, inl, inr, Bool, true, false, [], ◌∷◌,
  ◌++◌, some, All, All-append, All-mono, Lacks, append-nil, arith, ltb, if◌then◌else◌, Bool-cases,
}
use gust.Text.{Text, contains}
use gust.Text.Cut.{contains-Lacks, Lacks-contains}
use gust.Text.Utf8.{Bytes, char_bytes, as_bytes, from_utf8_lossy, start}
use gust.Text.Utf8.Laws.{IsScalar, IsByte, char_bytes-IsByte, lossy-as_bytes, as_bytes-append}
use gust.Node.Percent.{hex_digit, escape_byte, unescape, decode}

abbrev pub hex_upper : ℕ → ℕ
hex_upper d = if ltb d 10 then b'0' + d else b'A' + (d - 10)

-- `%XX` for each byte
unfoldable pub escaped : Bytes → Text
escaped [] = []
escaped (b ∷ bs) = b'%' ∷ hex_upper (b / 16) ∷ hex_upper (b % 16) ∷ escaped bs

abbrev pub encode_char : (ℕ → Bool) → ℕ → Text
encode_char keep c = if keep c then c ∷ [] else escaped (char_bytes c)

-- Percent-encoding that keeps the characters of a set and escapes the others byte by byte.
unfoldable pub percent_encode : (ℕ → Bool) → Text → Text
unfolding escaped
percent_encode keep [] = []
percent_encode keep (c ∷ s) = encode_char keep c ++ percent_encode keep s

unescape_plain : (b : ℕ) (rest : Bytes) → b ≢ b'%' → unescape (b ∷ rest) ≡ b ∷ unescape rest
unfolding unescape
unescape_plain b [] h = refl
unescape_plain b (x ∷ []) h = refl
unescape_plain b (x ∷ y ∷ rest) h = ground arith

unescape-Lacks : (bs rest : Bytes) → Lacks b'%' bs → unescape (bs ++ rest) ≡ bs ++ unescape rest
unescape-Lacks [] rest h = refl
unescape-Lacks (b ∷ bs) rest (h, hs) =
    unescape_plain b (bs ++ rest) h ∙ ap (◌∷◌ b) (unescape-Lacks bs rest hs)

hex_digit-upper : (d : ℕ) → d < 16 → hex_digit (hex_upper d) ≡ some d
unfolding hex_digit
hex_digit-upper d h = ground arith

escape_byte-upper :
    (b : ℕ) → b < 256 → escape_byte b'%' (hex_upper (b / 16)) (hex_upper (b % 16)) ≡ some b
unfolding escape_byte
escape_byte-upper b h =
    rw (hex_digit-upper (b / 16) (omega arith), escape_byte)
      (rw (hex_digit-upper (b % 16) (omega arith)) (ap some (omega arith)))

unescape_escape :
    (b h l x : ℕ) (rest : Bytes)
    → escape_byte b h l ≡ some x
    → unescape (b ∷ h ∷ l ∷ rest) ≡ x ∷ unescape rest
unfolding unescape
unescape_escape b h l x rest e = rw (e, unescape)

unescape-escaped :
    (bs rest : Bytes) → All IsByte bs → unescape (escaped bs ++ rest) ≡ bs ++ unescape rest
unfolding escaped
unescape-escaped [] rest h = refl
unescape-escaped (b ∷ bs) rest (h, hs) =
    unescape_escape b'%' _ _ b (escaped bs ++ rest) (escape_byte-upper b h)
    ∙ ap (◌∷◌ b) (unescape-escaped bs rest hs)

char_bytes-Lacks : (c : ℕ) → c ≢ b'%' → Lacks b'%' (char_bytes c)
unfolding char_bytes
char_bytes-Lacks c h = ground arith

as_bytes-Lacks : (s : Text) → Lacks b'%' s → Lacks b'%' (as_bytes s)
unfolding as_bytes
as_bytes-Lacks [] h = tt
as_bytes-Lacks (c ∷ s) (h, hs) =
    All-append _ (char_bytes c) (as_bytes s) (char_bytes-Lacks c h) (as_bytes-Lacks s hs)

unescape-nil : unescape [] ≡ []
unfolding unescape
unescape-nil = refl

unescape_id : (bs : Bytes) → Lacks b'%' bs → unescape bs ≡ bs
unescape_id bs h = rw (← append-nil bs) (unescape-Lacks bs [] h ∙ ap (◌++◌ bs) unescape-nil)

-- The test for a percent sign only saves work.
decode_bytes :
    (s : Text) → All IsScalar s → decode s ≡ from_utf8_lossy start (unescape (as_bytes s))
decode_bytes s h = elim (Bool-cases (contains b'%' s)) [
  | inl e ↦ unfold decode in rw e
  | inr e ↦
      unfold decode in
      rw (e, unescape_id (as_bytes s) (as_bytes-Lacks s (Lacks-contains b'%' s e)))
        (sym (lossy-as_bytes s h))
]

as_bytes_single : (c : ℕ) → as_bytes (c ∷ []) ≡ char_bytes c
unfolding as_bytes
as_bytes_single c = append-nil (char_bytes c)

as_bytes_cons : (c : ℕ) (s : Text) → char_bytes c ++ as_bytes s ≡ as_bytes (c ∷ s)
unfolding as_bytes
as_bytes_cons c s = refl

-- A byte's text of hexadecimal digits is ASCII.
abbrev IsAscii : ℕ → Type 0
IsAscii c = c < 128

escaped-IsAscii : (bs : Bytes) → All IsByte bs → All IsAscii (escaped bs)
unfolding escaped
escaped-IsAscii [] h = tt
escaped-IsAscii (b ∷ bs) (h, hs) =
    (omega arith, (ground arith, (ground arith, escaped-IsAscii bs hs)))

as_bytes-IsAscii : (s : Text) → All IsAscii s → as_bytes s ≡ s
unfolding as_bytes char_bytes
as_bytes-IsAscii [] h = refl
as_bytes-IsAscii (c ∷ s) (h, hs) = ground (arith, as_bytes-IsAscii s hs)

module _ (keep : ℕ → Bool) (escapes : keep b'%' ≡ false) where
  kept_ne : (c : ℕ) → keep c ≡ true → c ≢ b'%'
  kept_ne c h e = cc (ap keep e)

  encode_char-unescape :
      (c : ℕ) (rest : Bytes)
      → IsScalar c
      → unescape (as_bytes (encode_char keep c) ++ rest) ≡ char_bytes c ++ unescape rest
  encode_char-unescape c rest h = elim (Bool-cases (keep c)) [
    | inl e ↦
        rw (e, as_bytes_single c)
          (unescape-Lacks (char_bytes c) rest (char_bytes-Lacks c (kept_ne c e)))
    | inr e ↦
        let bytes = char_bytes-IsByte c h in
        rw (e, as_bytes-IsAscii (escaped (char_bytes c)) (escaped-IsAscii (char_bytes c) bytes))
          (unescape-escaped (char_bytes c) rest bytes)
  ]

  unescape-encode :
      (s : Text) → All IsScalar s → unescape (as_bytes (percent_encode keep s)) ≡ as_bytes s
  unfolding percent_encode
  unescape-encode [] h = unfold as_bytes in unescape-nil
  unescape-encode (c ∷ s) h = rw (as_bytes-append (encode_char keep c) (percent_encode keep s)) (
      encode_char-unescape c (as_bytes (percent_encode keep s)) h.0
      ∙ ap (◌++◌ (char_bytes c)) (unescape-encode s h.1)
      ∙ as_bytes_cons c s)

  encode_char-IsScalar : (c : ℕ) → IsScalar c → All IsScalar (encode_char keep c)
  encode_char-IsScalar c h = elim (Bool-cases (keep c)) [
    | inl e ↦ rw e (h, tt)
    | inr e ↦ rw e (
        All-mono IsAscii IsScalar (λ a k. inl (omega arith)) (escaped (char_bytes c))
          (escaped-IsAscii (char_bytes c) (char_bytes-IsByte c h)))
  ]

  percent_encode-IsScalar : (s : Text) → All IsScalar s → All IsScalar (percent_encode keep s)
  unfolding percent_encode
  percent_encode-IsScalar [] h = tt
  percent_encode-IsScalar (c ∷ s) h =
      All-append IsScalar (encode_char keep c) (percent_encode keep s) (encode_char-IsScalar c h.0)
        (percent_encode-IsScalar s h.1)

  -- Decoding undoes percent-encoding, whatever characters the encoder keeps beside the percent
  -- sign's escape, for every text of Unicode scalar values.
  pub decode-percent_encode : (s : Text) → All IsScalar s → decode (percent_encode keep s) ≡ s
  decode-percent_encode s h =
      decode_bytes (percent_encode keep s) (percent_encode-IsScalar s h)
      ∙ ap (from_utf8_lossy start) (unescape-encode s h)
      ∙ lossy-as_bytes s h

pub decode-Lacks : (s : Text) → Lacks b'%' s → decode s ≡ s
unfolding decode
decode-Lacks s h = rw (contains-Lacks b'%' s h)
