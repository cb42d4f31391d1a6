-- ===== src/Node/HostPort.antt =====
-- `parse_port` and `parse_host_port` of src/node.rs: what they accept, and what they return.
use gust.Prelude.{
  ℕ, ◌≤◌, ◌<◌, ◌≡◌, ◌≢◌, ◌⊎◌, inl, inr, refl, ap, sym, ◌∙◌, Bool, false, [], ◌∷◌, ◌++◌, Option,
  none, some, Result, ok, err, arith, All, All-mono, Lacks, Bool-cases, Option-cases, ◌↔◌, ◌>>=◌,
  ==_iff, ◌==◌,
}
use gust.Text.{Text, cut, rcut}
use gust.Text.Cut.{
  cut-append, rcut-append, rcut-Lacks, CutsFirst, CutsLast, cut-CutsFirst, rcut-CutsLast,
}
use gust.Text.Number.{show, parse_unsigned, max_u16}
use gust.Text.Number.Laws.{
  IsDigit, value, unsigned_digits, parse_unsigned_sound, parse_unsigned_complete,
  parse_unsigned-show, show-IsDigit,
}
use gust.Node.{
  HostPortError, parse_port, port_after_bracket, parse_bracketed, parse_plain, parse_host_port,
}

-- The texts that name a port: digits, perhaps behind a plus, of a value that fits 16 bits.
abbrev pub IsPortText : Text → ℕ → Type 0
IsPortText t p =
    (unsigned_digits t ≢ [])
    × All IsDigit (unsigned_digits t)
    × (p ≡ value 0 (unsigned_digits t))
    × (p ≤ max_u16)

parse_port_sound : (t : Text) (p : ℕ) → parse_port t ≡ ok p → IsPortText t p
unfolding parse_port
parse_port_sound t p h = elim (Option-cases (parse_unsigned max_u16 t)) [
  | inl e ↦ cc (rw e at h)
  | inr (q, e) ↦ parse_unsigned_sound max_u16 t p (cc (rw e at h))
]

parse_port_complete : (t : Text) (p : ℕ) → IsPortText t p → parse_port t ≡ ok p
unfolding parse_port
parse_port_complete t p (h, d, e, f) =
    rw (parse_unsigned_complete max_u16 t h d (rw e at f)) (ap ok (sym e))

pub digits-Lacks : (c : ℕ) (t : Text) → (c < b'0') ⊎ (b'9' < c) → All IsDigit t → Lacks c t
digits-Lacks c t h = All-mono IsDigit (λ x. x ≢ c) (λ a k. ground arith) t

pub show-Lacks : (c p : ℕ) → (c < b'0') ⊎ (b'9' < c) → Lacks c (show p)
show-Lacks c p h = digits-Lacks c (show p) h (show-IsDigit p)

unsigned-Lacks : (t : Text) → All IsDigit (unsigned_digits t) → Lacks b':' t
unsigned-Lacks [] h = tt
unsigned-Lacks (c ∷ t) h = elim (Bool-cases (c == b'+')) [
  | inl e ↦ (ground arith, digits-Lacks b':' t (inr (omega arith)) (rw e at h))
  | inr e ↦ digits-Lacks b':' (c ∷ t) (inr (omega arith)) (rw e at h)
]

pub show-IsPortText : (p : ℕ) → p ≤ max_u16 → IsPortText (show p) p
show-IsPortText p h = parse_unsigned_sound max_u16 (show p) p (parse_unsigned-show max_u16 p h)

abbrev pub opens_bracket : Text → Bool
opens_bracket [] = false
opens_bracket (c ∷ s) = c == b'['

-- The texts that name a host and perhaps a port, and what they name.
pub data HostPortForm (s host : Text) : Option ℕ → Type 0 where
  bare : opens_bracket s ≡ false → Lacks b':' s → s ≡ host → HostPortForm s host none
  plain :
      {p : ℕ} (t : Text)
      → opens_bracket s ≡ false
      → s ≡ host ++ b':' ∷ t
      → IsPortText t p
      → HostPortForm s host (some p)
  literal : Lacks b']' host → s ≡ b'[' ∷ (host ++ b']' ∷ []) → HostPortForm s host none
  literal_port :
      {p : ℕ} (t : Text)
      → Lacks b']' host
      → s ≡ b'[' ∷ (host ++ b']' ∷ b':' ∷ t)
      → IsPortText t p
      → HostPortForm s host (some p)

parse_host_port_plain : (s : Text) → opens_bracket s ≡ false → parse_host_port s ≡ parse_plain s
unfolding parse_host_port
parse_host_port_plain [] h = unfold parse_plain rcut in refl
parse_host_port_plain (c ∷ s) h = rw h

parse_plain_bare : (s : Text) → Lacks b':' s → parse_plain s ≡ ok (s, none)
unfolding parse_plain
parse_plain_bare s h = rw (rcut-Lacks b':' s h, parse_plain)

parse_plain_port :
    (host t : Text) (p : ℕ) → IsPortText t p → parse_plain (host ++ b':' ∷ t) ≡ ok (host, some p)
unfolding parse_plain
parse_plain_port host t p h =
    rw (rcut-append b':' host t (unsigned-Lacks t h.1), parse_plain)
      (rw (parse_port_complete t p h))

parse_bracketed_at :
    (host after : Text) (o : Option ℕ)
    → Lacks b']' host
    → port_after_bracket after ≡ ok o
    → parse_bracketed (host ++ b']' ∷ after) ≡ ok (host, o)
unfolding parse_bracketed
parse_bracketed_at host after o h e = rw (cut-append b']' host after h, parse_bracketed) (rw e)

port_after_port : (t : Text) (p : ℕ) → IsPortText t p → port_after_bracket (b':' ∷ t) ≡ ok (some p)
unfolding port_after_bracket
port_after_port t p h = rw (parse_port_complete t p h)

parse_host_port_complete :
    (s host : Text) (o : Option ℕ) → HostPortForm s host o → parse_host_port s ≡ ok (host, o)
parse_host_port_complete s host none (bare h k e) =
    parse_host_port_plain s h ∙ parse_plain_bare s k ∙ ap (λ (t : Text). ok (t, none)) e
parse_host_port_complete s host (some p) (plain t h e k) =
    parse_host_port_plain s h ∙ ap parse_plain e ∙ parse_plain_port host t p k
parse_host_port_complete s host none (literal h e) =
    ap parse_host_port e
    ∙ (unfold parse_host_port in
        parse_bracketed_at host [] none h (unfold port_after_bracket in refl))
parse_host_port_complete s host (some p) (literal_port t h e k) =
    ap parse_host_port e
    ∙ (unfold parse_host_port in parse_bracketed_at host _ (some p) h (port_after_port t p k))

-- What a run of a parser found, when it found something.
abbrev Found : (Text → Option ℕ → Type 0) → Result HostPortError (Text × Option ℕ) → Type 0
Found P (ok (host, o)) = P host o
Found P (err e) = Unit {0}

parse_plain-Found :
    (s : Text) (r : Option (Text × Text))
    → opens_bracket s ≡ false
    → rcut b':' s ≡ r
    → CutsLast b':' s r
    → Found (HostPortForm s) (parse_plain s)
unfolding parse_plain
parse_plain-Found s none h e k = rw (e, parse_plain) (bare h k refl)
parse_plain-Found s (some (host, t)) h e (w, k) = rw (e, parse_plain) (by_port (parse_port t) refl)
  where
    by_port :
        (r : Result HostPortError ℕ)
        → parse_port t ≡ r
        → Found (HostPortForm s) (r >>= λ port. ok (host, some port))
    by_port (err _) _ = tt
    by_port (ok p) q = plain t h w (parse_port_sound t p q)

port_after_bracket-Found :
    (s host after : Text)
    → Lacks b']' host
    → s ≡ b'[' ∷ (host ++ b']' ∷ after)
    → Found (HostPortForm s) (port_after_bracket after >>= λ port. ok (host, port))
unfolding port_after_bracket
port_after_bracket-Found s host [] h e = literal h e
port_after_bracket-Found s host (c ∷ t) h e = elim (Bool-cases (c == b':')) [
  | inl q ↦ rw q (
      by_port (ap (λ (x : ℕ). b'[' ∷ (host ++ b']' ∷ x ∷ t)) ((==_iff c b':').0 q)) (parse_port t)
        refl)
  | inr q ↦ rw q tt
]
  where
    by_port :
        (b'[' ∷ (host ++ b']' ∷ c ∷ t)) ≡ (b'[' ∷ (host ++ b']' ∷ b':' ∷ t))
        → (r : Result HostPortError ℕ) → parse_port t ≡ r
        → Found (HostPortForm s) ((r >>= λ p. ok (some p)) >>= λ port. ok (host, port))
    by_port w (err _) _ = tt
    by_port w (ok p) q = literal_port t h (e ∙ w) (parse_port_sound t p q)

parse_bracketed-Found :
    (s hp : Text) (r : Option (Text × Text))
    → s ≡ b'[' ∷ hp
    → cut b']' hp ≡ r
    → CutsFirst b']' hp r
    → Found (HostPortForm s) (parse_bracketed hp)
unfolding parse_bracketed
parse_bracketed-Found s hp none w e k = rw (e, parse_bracketed) tt
parse_bracketed-Found s hp (some (host, after)) w e (v, k) =
    rw (e, parse_bracketed) (port_after_bracket-Found s host after k (w ∙ ap (◌∷◌ b'[') v))

parse_host_port-Found : (s : Text) → Found (HostPortForm s) (parse_host_port s)
unfolding parse_host_port
parse_host_port-Found [] = bare refl tt refl
parse_host_port-Found (c ∷ hp) = elim (Bool-cases (c == b'[')) [
  | inl e ↦ rw e (
      parse_bracketed-Found (c ∷ hp) hp (cut b']' hp) (ap (λ (x : ℕ). x ∷ hp) ((==_iff c b'[').0 e))
        refl (cut-CutsFirst b']' hp))
  | inr e ↦
      rw e (parse_plain-Found (c ∷ hp) (rcut b':' (c ∷ hp)) e refl (rcut-CutsLast b':' (c ∷ hp)))
]

parse_host_port_sound :
    (s host : Text) (o : Option ℕ) → parse_host_port s ≡ ok (host, o) → HostPortForm s host o
parse_host_port_sound s host o h = rw h at (parse_host_port-Found s)

-- `parse_host_port` returns a host and perhaps a port exactly for the texts of the four forms: a
-- bare host without a colon (it may be empty), a host with a port behind the last colon, and a
-- bracketed literal without or with a port; the port is the value of its digits, at most 65535.
pub parse_host_port_iff :
    (s host : Text) (o : Option ℕ) → (parse_host_port s ≡ ok (host, o)) ↔ HostPortForm s host o
parse_host_port_iff s host o = (parse_host_port_sound s host o, parse_host_port_complete s host o)
