-- ===== src/Nat/Status/Numbers.antt =====
-- src/nat/status.rs: the numbers of a counter.
use gust.Prelude.{ℕ, ◌≡◌, ◌⊎◌, inl, inr, refl, sym, subst, Option-cases, none, some}
use gust.Text.{Text, codes}
use gust.Nat.Status.{CounterStat, Json, number_at, stat_of}

module _ {J : Type 0} (json : Json J) where
  -- The number at a key of a counter, where one that is missing or no `u64` is 0.
  abbrev pub IsNumber : Text → J → ℕ → Type 0
  IsNumber key counter n =
      ((value : J) × (json.get key counter ≡ some value) × (json.as_u64 value ≡ some n))
      ⊎ ((json.get key counter ≡ none) × (n ≡ 0))
      ⊎ ((value : J) × (json.get key counter ≡ some value) × (json.as_u64 value ≡ none) × (n ≡ 0))

  number_at-IsNumber :
      (key : Text) (counter : J) → IsNumber key counter (number_at json key counter)
  number_at-IsNumber key counter = elim (Option-cases (json.get key counter)) [
    | inl e ↦ inr (inl (e, rw e refl))
    | inr (value, e) ↦ elim (Option-cases (json.as_u64 value)) [
      | inl f ↦ inr (inr (value, e, f, rw (e, f) refl))
      | inr (n, f) ↦ inl (value, e, rw (e, f) refl)
    ]
  ]

  IsNumber-number_at :
      (key : Text) (counter : J) (n : ℕ) → IsNumber key counter n → number_at json key counter ≡ n
  IsNumber-number_at key counter n (inl (value, e, f)) = rw (e, f) refl
  IsNumber-number_at key counter n (inr (inl (e, z))) = rw e (sym z)
  IsNumber-number_at key counter n (inr (inr (value, e, f, z))) = rw (e, f) (sym z)

  -- what `stat_of` gives, and nothing else
  abbrev pub StatIs : Text → J → CounterStat → Type 0
  StatIs comment counter stat =
      (stat.comment ≡ comment)
      × IsNumber (codes "packets") counter stat.packets
      × IsNumber (codes "bytes") counter stat.bytes

  pub stat_of-StatIs :
      (comment c : Text) (counter : J) (stat : CounterStat)
      → stat_of json c counter ≡ stat
      → c ≡ comment
      → StatIs comment counter stat
  stat_of-StatIs comment c counter stat h k =
      subst (StatIs comment counter) h (
        k,
        number_at-IsNumber (codes "packets") counter,
        number_at-IsNumber (codes "bytes") counter,
      )

  pub StatIs-stat_of :
      (comment : Text) (counter : J) (stat : CounterStat)
      → StatIs comment counter stat
      → stat_of json comment counter ≡ stat
  StatIs-stat_of comment counter stat (c, p, b) i = record {
    comment = sym c i;
    packets = IsNumber-number_at (codes "packets") counter stat.packets p i;
    bytes = IsNumber-number_at (codes "bytes") counter stat.bytes b i;
  }
