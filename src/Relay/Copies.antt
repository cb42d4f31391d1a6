-- ===== src/Relay/Copies.antt =====
-- src/relay.rs: what a copy has written when it ends, and that it ends.
use gust.Prelude.{
  ℕ, zero, suc, ◌+◌, ◌%◌, ◌≤◌, ◌<◌, ◌≡◌, refl, sym, ap, ◌∙◌, [], ◌∷◌, ◌++◌, append_assoc,
  append-nil, Option, none, some, Result, ok, err, length, length-append, arith,
}
use gust.Text.Utf8.{Bytes}
use gust.Stats.{two_64}
use gust.Netopt.Calls.{IoError}
use gust.Relay.{Reader, Writer, after_write, after_read, copy_one}

module _ {R W : Type 0} (reader : Reader R) (writer : Writer W) (buf_size : ℕ) where
  -- A copy of a stream ended: with all of it written and its length counted, or with an error and a
  -- beginning of it written, at most a buffer lost behind that, and the rest still to be read.
  abbrev pub Copied : ℕ → R → W → Result IoError ℕ × R × W → Type 0
  Copied total r w (ok n, s, v) =
      (writer.written v ≡ writer.written w ++ reader.remaining r)
      × (n ≡ (total + length (reader.remaining r)) % two_64)
      × (reader.remaining s ≡ [])
  Copied total r w (err e, s, v) =
      (part lost : Bytes) × (writer.written v ≡ writer.written w ++ part)
      × (reader.remaining r ≡ part ++ (lost ++ reader.remaining s))
      × (length lost ≤ buf_size)

  abbrev pub EndsCopied : ℕ → R → W → Option (Result IoError ℕ × R × W) → Type 0
  EndsCopied total r w none = ⊥
  EndsCopied total r w (some out) = Copied total r w out

  -- a round that copied a chunk, and then the rest
  chunk_Copied :
      (total : ℕ) (r s : R) (w v : W) (bs : Bytes) (out : Result IoError ℕ × R × W)
      → reader.remaining r ≡ bs ++ reader.remaining s
      → writer.written v ≡ writer.written w ++ bs
      → Copied ((total + length bs) % two_64) s v out
      → Copied total r w out
  chunk_Copied total r s w v bs (ok n, t, u) e f (g, h, k) = (
    g
        ∙ (ap (λ x. x ++ reader.remaining s) f
            ∙ (append_assoc (writer.written w) bs (reader.remaining s)
                ∙ ap (λ x. writer.written w ++ x) (sym e))),
    omega (arith, h, ap length e, length-append bs (reader.remaining s)),
    k,
  )
  chunk_Copied total r s w v bs (err x, t, u) e f (part, lost, g, h, small) = (
    bs ++ part,
    lost,
    g ∙ (ap (λ y. y ++ part) f ∙ append_assoc (writer.written w) bs part),
    e ∙ (ap (λ y. bs ++ y) h ∙ sym (append_assoc bs part (lost ++ reader.remaining t))),
    small,
  )

  written_EndsCopied :
      (next : W → Option (Result IoError ℕ × R × W)) (total : ℕ) (r s : R) (w : W) (bs : Bytes)
      (o : Result IoError (Unit {0}) × W)
      → writer.write_all bs w ≡ o
      → reader.remaining r ≡ bs ++ reader.remaining s
      → length bs ≤ buf_size
      → ((v : W) → EndsCopied ((total + length bs) % two_64) s v (next v))
      → EndsCopied total r w (after_write reader writer next s o)
  written_EndsCopied next total r s w bs (err e, v) h k small rest =
      let (part, lost, split, wrote) = writer.wrote_part bs e w v h in
      (
        part,
        lost,
        wrote,
        k ∙ (ap (λ x. x ++ reader.remaining s) split ∙ append_assoc part lost (reader.remaining s)),
        omega (arith, small, ap length split, length-append part lost),
      )
  written_EndsCopied next total r s w bs (ok _, v) h k small rest = onward (next v) (rest v)
    where
      onward :
          (o : Option (Result IoError ℕ × R × W))
          → EndsCopied ((total + length bs) % two_64) s v o
          → EndsCopied total r w o
      onward none e = e
      onward (some out) e = chunk_Copied total r s w v bs out k (writer.wrote bs w v h) e

  round_EndsCopied :
      (fuel total : ℕ) (r : R) (w : W) (o : Result IoError Bytes × R)
      → 0 < buf_size
      → total < two_64
      → length (reader.remaining r) ≤ fuel
      → reader.read buf_size r ≡ o
      → ((n : ℕ) (s : R) (v : W)
          → n < two_64
          → length (reader.remaining s) < fuel
          → EndsCopied n s v (copy_one reader writer fuel buf_size n s v))
      → EndsCopied total r w
          (after_read reader writer (copy_one reader writer fuel buf_size) total w o)
  round_EndsCopied fuel total r w (err e, s) b t f h rest = (
    [],
    [],
    sym (append-nil (writer.written w)),
    sym (reader.read_failed buf_size e r s h),
    omega arith,
  )
  round_EndsCopied fuel total r w (ok [], s) b t f h rest =
      let empty = reader.read_end buf_size r s b h in
      (
        sym (ap (λ x. writer.written w ++ x) empty ∙ append-nil (writer.written w)),
        omega (arith, t, ap length empty),
        sym (reader.read_next buf_size r s [] h) ∙ empty,
      )
  round_EndsCopied fuel total r w (ok (x ∷ xs), s) b t f h rest =
      let n : ℕ = (total + length (x ∷ xs)) % two_64 in
      let k = reader.read_next buf_size r s (x ∷ xs) h in
      written_EndsCopied (copy_one reader writer fuel buf_size n s) total r s w (x ∷ xs)
        (writer.write_all (x ∷ xs) w) refl k (reader.read_size buf_size r s (x ∷ xs) h)
        (λ v.
          rest n s v (omega arith)
            (omega (arith, f, ap length k, length-append xs (reader.remaining s))))

  -- A copy with a buffer ends within one more round than the stream has bytes. If it succeeds, it
  -- wrote the whole stream, in order and behind what was written before, and gives the length added
  -- to its total, modulo 2^64. If it fails, it wrote a beginning of the stream, and what it
  -- lost, between that and what is still to be read, is no more than a buffer.
  pub copy_one-EndsCopied :
      (fuel total : ℕ) (r : R) (w : W)
      → 0 < buf_size
      → total < two_64
      → length (reader.remaining r) < fuel
      → EndsCopied total r w (copy_one reader writer fuel buf_size total r w)
  unfolding copy_one
  copy_one-EndsCopied zero total r w b t f = absurd (omega (arith, f))
  copy_one-EndsCopied (suc fuel) total r w b t f =
      round_EndsCopied fuel total r w (reader.read buf_size r) b t (omega (arith, f)) refl
        (λ n s v. copy_one-EndsCopied fuel n s v b)
