-- ===== src/Socks5/Stream/Moves.antt =====
-- What the steps on a stream read and write.
use gust.Prelude.{
  ℕ, ◌+◌, ◌-◌, ◌≡◌, refl, sym, ap, ◌∙◌, inl, inr, Bool, true, false, [], ◌++◌, append_assoc,
  append-nil, Result, ok, err, arith, subst, leb, length, length-append, take, drop,
  take-append-drop, length-take_le, take_append, drop_append, Bool-cases,
}
use gust.Text.Utf8.{Bytes}
use gust.Socks5.Stream.{Stream, Error, Io, and_then, fail_if, write_all, read_exact}

-- From `s` to `t` the bytes `inp` were read and the bytes `out` were written, and there was room.
pub record Moves (s : Stream) (inp out : Bytes) (t : Stream) : Type 0 where
  pub taken : s.incoming ≡ inp ++ t.incoming
  pub written : t.sent ≡ s.sent ++ out
  pub fits : s.room ≡ length out + t.room

pub Moves-refl : (s : Stream) → Moves s [] [] s
Moves-refl s = record { taken = refl; written = sym (append-nil s.sent); fits = omega arith }

pub Moves-trans :
    {s t u : Stream} {i j o p : Bytes} → Moves s i o t → Moves t j p u → Moves s (i ++ j) (o ++ p) u
Moves-trans {s} {t} {u} {i} {j} {o} {p} m n = record {
  taken = m.taken ∙ ap (◌++◌ i) n.taken ∙ sym (append_assoc i j u.incoming);
  written = n.written ∙ ap (λ (x : Bytes). x ++ p) m.written ∙ append_assoc s.sent o p;
  fits = omega (arith, m.fits, n.fits, length-append o p);
}

-- Inversion of a step that succeeds.
pub and_then-eq-ok {ℓ κ} :
    {A : Type ℓ} {B : Type κ} (r : Result Error A × Stream) (f : A → Io B) {b : B} {u : Stream}
    → and_then r f ≡ (ok b, u)
    → (a : A) × (t : Stream) × (r ≡ (ok a, t)) × (f a t ≡ (ok b, u))
and_then-eq-ok (ok a, t) f h = (a, t, refl, h)
and_then-eq-ok (err e, t) f h = cc

pub fail_if-eq-ok {ℓ} :
    {B : Type ℓ} (b : Bool) (e : Error) (k : Io B) {s u : Stream} {x : B}
    → and_then (fail_if b e s) (λ _. k) ≡ (ok x, u)
    → (b ≡ false) × (k s ≡ (ok x, u))
fail_if-eq-ok true e k h = cc
fail_if-eq-ok false e k h = (refl, h)

pub write_all-Moves :
    (bs : Bytes) (s t : Stream) {u : Unit {0}} → write_all bs s ≡ (ok u, t) → Moves s [] bs t
unfolding write_all
write_all-Moves bs s t h = elim (Bool-cases (leb (length bs) s.room)) [
  | inl e ↦
      subst (Moves s [] bs) (ap (λ p. p.1) (rw e at h))
        (record { taken = refl; written = refl; fits = ground arith })
  | inr e ↦ cc (rw e at h)
]

pub read_exact-Moves :
    (n : ℕ) (s t : Stream) {a : Bytes}
    → read_exact n s ≡ (ok a, t)
    → (length a ≡ n) × Moves s a [] t
unfolding read_exact
read_exact-Moves n s t {a} h = elim (Bool-cases (leb n (length s.incoming))) [
  | inl e ↦
      let h' = rw e at h in
      let got : take n s.incoming ≡ a = cc (ap (λ p. p.0) h') in
      subst (λ b. (length b ≡ n) × Moves s b [] t) got
        (
          length-take_le n s.incoming (ground arith),
          subst (Moves s (take n s.incoming) []) (ap (λ p. p.1) h') (record {
            taken = sym (take-append-drop n s.incoming);
            written = sym (append-nil s.sent);
            fits = omega arith;
          }),
        )
  | inr e ↦ cc (rw e at h)
]

pub fail_if_last :
    (b : Bool) (e : Error) (s u : Stream) {x : Unit {0}}
    → fail_if b e s ≡ (ok x, u)
    → (b ≡ false) × (s ≡ u)
fail_if_last true e s u h = cc
fail_if_last false e s u h = (refl, ap (λ p. p.1) h)

-- A move whose bytes are known in another form.
pub Moves-as : {s t : Stream} {i j o p : Bytes} → Moves s i o t → i ≡ j → o ≡ p → Moves s j p t
Moves-as {s} {t} {i} {j} {o} {p} m e f = rw (← e, ← f) m

-- A move in two parts passes through a stream between them.
pub Moves-split :
    (i j o p : Bytes) {s t : Stream}
    → Moves s (i ++ j) (o ++ p) t
    → (m : Stream) × Moves s i o m × Moves m j p t
Moves-split i j o p {s} {t} v = (
  record { incoming = j ++ t.incoming; sent = s.sent ++ o; room = length p + t.room },
  record {
    taken = v.taken ∙ append_assoc i j t.incoming;
    written = refl;
    fits = omega (arith, v.fits, length-append o p);
  },
  record { taken = refl; written = v.written ∙ sym (append_assoc s.sent o p); fits = refl },
)

pub write_all_run : (bs : Bytes) (s t : Stream) → Moves s [] bs t → write_all bs s ≡ (ok tt, t)
unfolding write_all
write_all_run bs s t v =
    let h : leb (length bs) s.room ≡ true = ground (arith, v.fits) in
    rw h (λ i. (ok tt, record { incoming = v.taken i; sent = sym v.written i; room = room_left i }))
  where
    room_left : s.room - length bs ≡ t.room
    room_left = omega (arith, v.fits)

pub read_exact_run :
    (n : ℕ) (a : Bytes) (s t : Stream) → length a ≡ n → Moves s a [] t → read_exact n s ≡ (ok a, t)
unfolding read_exact
read_exact_run n a s t e v =
    let long : length s.incoming ≡ length a + length t.incoming =
      ap length v.taken ∙ length-append a t.incoming in
    let h : leb n (length s.incoming) ≡ true = ground (arith, long) in
    rw h (λ i. (
      ok (got i),
      record {
        incoming = rest i;
        sent = (sym (append-nil s.sent) ∙ sym v.written) i;
        room = room_left i;
      },
    ))
  where
    got : take n s.incoming ≡ a
    got = rw (← e, v.taken) (take_append a t.incoming)

    rest : drop n s.incoming ≡ t.incoming
    rest = rw (← e, v.taken) (drop_append a t.incoming)

    room_left : s.room ≡ t.room
    room_left = omega (arith, v.fits)
