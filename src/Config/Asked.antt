-- ===== src/Config/Asked.antt =====
-- The `nodelay` and the name of a listener of src/config.rs, as a `-L` value asks for them.
use gust.Prelude.{
  ℕ, ◌≡◌, ◌≢◌, ◌↔◌, ◌⊎◌, ◌++◌, Bool, if-cases, inl, inr, refl, ap, false, [], ◌∷◌, Option, none,
  some, list_eq, list_eq_sound, list_eq_iff, All, Bool-cases,
}
use gust.Text.{Text, codes}
use gust.Text.Number.{show}
use gust.Node.{Query, query_get}
use gust.Config.{Protocol, proto_str, requests_nodelay, listener_name}

abbrev pub Named : Text → Text × Text → Type 0
Named key (j, v) = j ≡ key

-- The value of a key in a query: that of its first pair, if there is one.
abbrev pub IsValue : Text → Query → Option Text → Type 0
IsValue key query none = All (λ pair. ¬ Named key pair) query
IsValue key query (some v) =
    (before : Query) × (after : Query) × (query ≡ before ++ (key, v) ∷ after)
    × All (λ pair. ¬ Named key pair) before

-- A value asks for `nodelay` unless it is `false` or `0`, and no value does not.
abbrev pub IsNodelay : Option Text → Bool → Type 0
IsNodelay none b = b ≡ false
IsNodelay (some v) b = (b ≡ false) ↔ ((v ≡ codes "false") ⊎ (v ≡ codes "0"))

abbrev pub IsName : Protocol → Text → ℕ → Text → Type 0
IsName proto host port name =
    ((host ≡ []) × (name ≡ proto_str proto ++ (codes "://:" ++ show port)))
    ⊎ ((host ≢ []) × (name ≡ proto_str proto ++ (codes "://" ++ (host ++ b':' ∷ show port))))

pub requests_nodelay-IsNodelay : (o : Option Text) → IsNodelay o (requests_nodelay o)
unfolding list_eq
requests_nodelay-IsNodelay none = refl
requests_nodelay-IsNodelay (some v) = (
  λ h. elim (Bool-cases (list_eq v (codes "false"))) [
    | inl e ↦ inl (list_eq_sound v (codes "false") e)
    | inr e ↦ elim (Bool-cases (list_eq v (codes "0"))) [
      | inl f ↦ inr (list_eq_sound v (codes "0") f)
      | inr f ↦ absurd (let k = rw (e, f) at h in cc)
    ]
  ],
  λ h. elim h [ inl e ↦ rw e refl | inr e ↦ rw e refl ],
)

pub query_get-IsValue : (key : Text) (q : Query) → IsValue key q (query_get key q)
unfolding query_get
query_get-IsValue key [] = tt
query_get-IsValue key ((j, v) ∷ q) =
    if-cases (IsValue key ((j, v) ∷ q)) (list_eq j key)
      (λ e. ([], q, ap (λ k. (k, v) ∷ q) (list_eq_sound j key e), tt))
      (λ e.
        later (query_get key q) (λ k. (let r = (list_eq_iff j key).1 k in cc))
          (query_get-IsValue key q))
  where
    later : (o : Option Text) → ¬ Named key (j, v) → IsValue key q o → IsValue key ((j, v) ∷ q) o
    later none n h = (n, h)
    later (some w) n (before, after, e, h) = ((j, v) ∷ before, after, ap (◌∷◌ (j, v)) e, (n, h))

pub listener_name-IsName :
    (proto : Protocol) (host : Text) (port : ℕ)
    → IsName proto host port (listener_name proto host port)
listener_name-IsName proto [] port = inl (refl, refl)
listener_name-IsName proto (c ∷ host) port = inr (λ e. cc, refl)
