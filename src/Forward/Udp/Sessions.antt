-- ===== src/Forward/Udp/Sessions.antt =====
-- The map of the sessions of src/forward/udp.rs, and the tasks that it stands for.
use gust.Prelude.{
  ℕ, ◌≡◌, ◌≢◌, refl, sym, ap, ◌∙◌, List, [], ◌∷◌, ◌++◌, none, ◌==◌, Bool-cases, inl, inr, arith,
}
use gust.Forward.Udp.{
  Phase, waiting, closing, removed, Task, Sessions, lookup, insert, remove, touch,
}

-- No client has two entries.
abbrev pub DistinctKeys : Sessions → Type 0
DistinctKeys [] = Unit {0}
DistinctKeys ((p, s) ∷ m) = (lookup p m ≡ none) × DistinctKeys m

-- a session is in the map until its task removes it
abbrev pub entry : Phase → ℕ → ℕ → Sessions → Sessions
entry waiting p s m = (p, s) ∷ m
entry closing p s m = (p, s) ∷ m
entry removed p s m = m

unfoldable pub entries : List Task → Sessions
entries [] = []
entries (t ∷ ts) = entry t.phase t.peer t.socket (entries ts)

entry-append : (f : Phase) (p s : ℕ) (m n : Sessions) → entry f p s m ++ n ≡ entry f p s (m ++ n)
entry-append waiting p s m n = refl
entry-append closing p s m n = refl
entry-append removed p s m n = refl

pub entries-append : (xs ys : List Task) → entries (xs ++ ys) ≡ entries xs ++ entries ys
unfolding entries
entries-append [] ys = refl
entries-append (t ∷ xs) ys =
    ap (entry t.phase t.peer t.socket) (entries-append xs ys)
    ∙ sym (entry-append t.phase t.peer t.socket (entries xs) (entries ys))

pub entries-touch : (s now : ℕ) (ts : List Task) → entries (touch s now ts) ≡ entries ts
unfolding entries touch
entries-touch s now [] = refl
entries-touch s now (t ∷ ts) = elim (Bool-cases (t.socket == s)) [
  | inl e ↦ rw (e, entries-touch s now ts) refl
  | inr e ↦ rw (e, entries-touch s now ts) refl
]

pub insert_new : (p s : ℕ) (m : Sessions) → lookup p m ≡ none → insert p s m ≡ m ++ (p, s) ∷ []
unfolding lookup insert
insert_new p s [] h = refl
insert_new p s ((q, t) ∷ m) h = ground (arith, insert_new p s m)

lookup-append_none :
    (p : ℕ) (m n : Sessions) → lookup p m ≡ none → lookup p n ≡ none → lookup p (m ++ n) ≡ none
unfolding lookup
lookup-append_none p [] n h k = k
lookup-append_none p ((q, t) ∷ m) n h k = ground (arith, lookup-append_none p m n)

lookup_left : (p : ℕ) (m n : Sessions) → lookup p (m ++ n) ≡ none → lookup p m ≡ none
unfolding lookup
lookup_left p [] n h = refl
lookup_left p ((q, t) ∷ m) n h = ground (arith, lookup_left p m n)

lookup_right : (p : ℕ) (m n : Sessions) → lookup p (m ++ n) ≡ none → lookup p n ≡ none
unfolding lookup
lookup_right p [] n h = h
lookup_right p ((q, t) ∷ m) n h = ground (arith, lookup_right p m n)

lookup_other :
    (p q s : ℕ) (m : Sessions) → lookup p ((q, s) ∷ m) ≡ none → (q ≢ p) × (lookup p m ≡ none)
unfolding lookup
lookup_other p q s m h = ground arith

lookup_single : (q p s : ℕ) → q ≢ p → lookup q ((p, s) ∷ []) ≡ none
unfolding lookup
lookup_single q p s h = ground arith

pub DistinctKeys-snoc :
    (p s : ℕ) (m : Sessions) → lookup p m ≡ none → DistinctKeys m → DistinctKeys (m ++ (p, s) ∷ [])
unfolding lookup
DistinctKeys-snoc p s [] h d = (refl, tt)
DistinctKeys-snoc p s ((q, t) ∷ m) h (d, ds) =
    let (n, k) = lookup_other p q t m h in
    (lookup-append_none q m ((p, s) ∷ []) d (lookup_single q p s n), DistinctKeys-snoc p s m k ds)

-- Taking a session out of the middle of the map removes it and nothing else.
pub remove_middle :
    (p s : ℕ) (m n : Sessions)
    → DistinctKeys (m ++ (p, s) ∷ n)
    → remove p (m ++ (p, s) ∷ n) ≡ m ++ n
unfolding remove
remove_middle p s [] n d = ground arith
remove_middle p s ((q, t) ∷ m) n (d, ds) =
    let (k, _) = lookup_other q p s n (lookup_right q m ((p, s) ∷ n) d) in
    ground (arith, remove_middle p s m n ds)

pub DistinctKeys-middle :
    (p s : ℕ) (m n : Sessions) → DistinctKeys (m ++ (p, s) ∷ n) → DistinctKeys (m ++ n)
DistinctKeys-middle p s [] n d = d.1
DistinctKeys-middle p s ((q, t) ∷ m) n (d, ds) =
    let (_, k) = lookup_other q p s n (lookup_right q m ((p, s) ∷ n) d) in
    (lookup-append_none q m n (lookup_left q m ((p, s) ∷ n) d) k, DistinctKeys-middle p s m n ds)
