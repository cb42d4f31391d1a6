-- ===== src/Net/Lengths.antt =====
-- The parsed addresses have four and sixteen octets.
use gust.Prelude.{
  ℕ, zero, suc, ◌+◌, ◌-◌, ◌≤◌, ◌*◌, ◌≡◌, ◌≢◌, ==_iff, refl, ap, ◌∙◌, subst, ◌⊎◌, inl, inr, Bool,
  true, false, List, [], ◌∷◌, ◌++◌, Option, none, some, arith, ltb, ◌==◌, length, length-append,
  replicate, length-replicate, is_empty, Bool-cases, if◌then◌else◌,
}
use gust.Text.{Text}
use gust.Text.Utf8.{Bytes, as_bytes}
use gust.Net.{
  read_octet, read_dotted, read_ipv4, read_groups, read_embedded, read_group, read_char, read_ipv6,
  parse_ipv4, parse_ipv6, group_bytes, ◌>>=◌, Groups, group_step,
}

-- What a reader returns, if it returns, has a property.
abbrev Gives {ℓ κ} : {A : Type ℓ} → (A → Type κ) → Option A → Type κ
Gives P none = Unit
Gives P (some a) = P a

>>=-Gives {ℓ κ μ} :
    {A : Type ℓ} {B : Type κ} (P : B → Type μ) (m : Option A) (f : A → Option B)
    → ((a : A) → Gives P (f a))
    → Gives P (m >>= f)
>>=-Gives P none f h = tt
>>=-Gives P (some a) f h = h a

if-Gives {ℓ κ} :
    {A : Type ℓ} (P : A → Type κ) (b : Bool) (a : A) → P a → Gives P (if b then some a else none)
if-Gives P true a h = h
if-Gives P false a h = tt

>>=-Gives_from {ℓ κ μ ν} :
    {A : Type ℓ} {B : Type κ} (Q : A → Type ν) (P : B → Type μ) (m : Option A) (f : A → Option B)
    → Gives Q m
    → ((a : A) → Q a → Gives P (f a))
    → Gives P (m >>= f)
>>=-Gives_from Q P none f q h = tt
>>=-Gives_from Q P (some a) f q h = h a q

Gives-eq {ℓ κ} : {A : Type ℓ} (P : A → Type κ) (o : Option A) {a : A} → Gives P o → o ≡ some a → P a
Gives-eq P o g e = subst (Gives P) e g

abbrev FourOctets : Bytes × Text → Type 0
FourOctets r = length r.0 ≡ 4

read_ipv4-Gives : (s : Text) → Gives FourOctets (read_ipv4 s)
unfolding read_ipv4
read_ipv4-Gives s = >>=-Gives FourOctets (read_octet s) _ λ r.
    >>=-Gives FourOctets (read_dotted r.1) _ λ r1.
      >>=-Gives FourOctets (read_dotted r1.1) _
        λ r2. >>=-Gives FourOctets (read_dotted r2.1) _ λ r3. refl

abbrev IsLong : ℕ → Bytes → Type 0
IsLong n o = length o ≡ n

parse_ipv4-Gives : (s : Text) → Gives (IsLong 4) (parse_ipv4 s)
unfolding parse_ipv4
parse_ipv4-Gives s = elim (Bool-cases (ltb 15 (length (as_bytes s)))) [
  | inl e ↦ rw e tt
  | inr e ↦ rw e (
      >>=-Gives_from FourOctets (IsLong 4) (read_ipv4 s) _ (read_ipv4-Gives s)
        λ r q. if-Gives (IsLong 4) (is_empty r.1) r.0 q)
]

pub parse_ipv4-length : (s : Text) (o : Bytes) → parse_ipv4 s ≡ some o → length o ≡ 4
parse_ipv4-length s o h = Gives-eq (IsLong 4) (parse_ipv4 s) (parse_ipv4-Gives s) h

group_step-length :
    (k : ℕ) (e : Option (Bytes × Text)) (g : Option (ℕ × Text)) (next : Text → Groups) (s : Text)
    → (e ≡ none) ⊎ (1 ≤ k)
    → ((rest : Text) → length (next rest).0 ≤ k)
    → length (group_step e g next s).0 ≤ suc k
group_step-length k (some (o, rest)) g next s (inl q) h = cc
group_step-length k (some (o, rest)) g next s (inr q) h = omega arith
group_step-length k none (some (g, rest)) next s q h = omega (arith, h rest)
group_step-length k none none next s q h = omega arith

embedded_room :
    (k : ℕ) (e : Option (Bytes × Text)) → ((if k == 0 then none else e) ≡ none) ⊎ (1 ≤ k)
embedded_room zero e = inl refl
embedded_room (suc k) e = inr (omega arith)

read_groups-length : (k i : ℕ) (s : Text) → length (read_groups k i s).0 ≤ k
unfolding read_groups
read_groups-length zero i s = omega arith
read_groups-length (suc k) i s =
    group_step-length k _ (read_group i s) (read_groups k (i + 1)) s
      (embedded_room k (read_embedded i s)) (read_groups-length k (i + 1))

abbrev EightGroups : List ℕ × Text → Type 0
EightGroups r = length r.0 ≡ 8

filled-length :
    (head tail : List ℕ)
    → length head ≤ 8
    → length head ≢ 8
    → length tail ≤ 7 - length head
    → length (head ++ (replicate (8 - length head - length tail) 0 ++ tail)) ≡ 8
filled-length head tail h n t = omega (
  arith,
  length-append head (replicate (8 - length head - length tail) 0 ++ tail),
  length-append (replicate (8 - length head - length tail) 0) tail,
  length-replicate {A = ℕ} (8 - length head - length tail) 0,
)

read_ipv6-Gives : (s : Text) → Gives EightGroups (read_ipv6 s)
unfolding read_ipv6
read_ipv6-Gives s =
    let (head, v4, rest) = read_groups 8 0 s in
    elim (Bool-cases (length head == 8)) [
      | inl e ↦ rw e ((==_iff (length head) 8).0 e)
      | inr e ↦ elim (Bool-cases v4) [
        | inl f ↦ rw (e, f) tt
        | inr f ↦
            rw (e, f)
              (>>=-Gives EightGroups (read_char b':' rest) _ λ s1.
                >>=-Gives EightGroups (read_char b':' s1) _ λ s2.
                  filled-length head (read_groups (7 - length head) 0 s2).0
                    (read_groups-length 8 0 s) (ground arith)
                    (read_groups-length (7 - length head) 0 s2))
      ]
    ]

group_bytes-length : (gs : List ℕ) → length (group_bytes gs) ≡ 2 * length gs
group_bytes-length [] = refl
group_bytes-length (g ∷ gs) = omega (arith, group_bytes-length gs)

parse_ipv6-Gives : (s : Text) → Gives (IsLong 16) (parse_ipv6 s)
unfolding parse_ipv6
parse_ipv6-Gives s =
    >>=-Gives_from EightGroups (IsLong 16) (read_ipv6 s) _ (read_ipv6-Gives s) λ r q.
      if-Gives (IsLong 16) (is_empty r.1) (group_bytes r.0)
        (group_bytes-length r.0 ∙ ap (λ (n : ℕ). 2 * n) q)

pub parse_ipv6-length : (s : Text) (o : Bytes) → parse_ipv6 s ≡ some o → length o ≡ 16
parse_ipv6-length s o h = Gives-eq (IsLong 16) (parse_ipv6 s) (parse_ipv6-Gives s) h
