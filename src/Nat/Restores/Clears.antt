-- ===== src/Nat/Restores/Clears.antt =====
-- What `delete_table` of src/nat/nftables.rs leaves of our tables, with its warnings.
use gust.Prelude.{
  ℕ, ◌≤◌, ◌<◌, arith, Bool-cases, if◌then◌else◌, ◌≡◌, ◌⊎◌, inl, inr, refl, ap, ◌∙◌, Bool, true,
  false,
}
use gust.Nat.Nftables.{Family, ip, ip6}
use gust.Nat.{Nft, Machine, System, warn, delete_one, delete_both}

-- how often `delete_table` has warned about a family
abbrev pub warnings : {T : Type 0} → Family → System T → ℕ
warnings ip s = s.ip_warnings
warnings ip6 s = s.ip6_warnings

module _ {T : Type 0} (nft : Nft T) (m : Machine) where
  -- The family's table is absent, or a warning that it could not be deleted came since.
  abbrev pub AbsentOrWarned : Family → System T → System T → Type 0
  AbsentOrWarned f s t = (nft.present f t.tables ≡ false) ⊎ (warnings f s < warnings f t)

  abbrev pub BothCleared : System T → System T → Type 0
  BothCleared s t = AbsentOrWarned ip s t × AbsentOrWarned ip6 s t

  -- no warning is taken back
  abbrev pub Since : System T → System T → Type 0
  Since s t = (s.ip_warnings ≤ t.ip_warnings) × (s.ip6_warnings ≤ t.ip6_warnings)

  delete_one-forwarding :
      (f : Family) (s : System T) → (delete_one nft m f s).forwarding ≡ s.forwarding
  delete_one-forwarding f s =
      by_result f (nft.delete_table f s.tables).0
        (record s { tables = (nft.delete_table f s.tables).1 })
    where
      by_result :
          (g : Family) (b : Bool) (u : System T)
          → (if b then u else warn g u).forwarding ≡ u.forwarding
      by_result g true u = refl
      by_result ip false u = refl
      by_result ip6 false u = refl

  delete_one-Since : (f : Family) (s : System T) → Since s (delete_one nft m f s)
  delete_one-Since f s =
      by_result f (nft.delete_table f s.tables).0
        (record s { tables = (nft.delete_table f s.tables).1 })
    where
      by_result : (g : Family) (b : Bool) (u : System T) → Since u (if b then u else warn g u)
      by_result g true u = (omega arith, omega arith)
      by_result ip false u = (omega arith, omega arith)
      by_result ip6 false u = (omega arith, omega arith)

  Since-warnings : (f : Family) (s t : System T) → Since s t → warnings f s ≤ warnings f t
  Since-warnings ip s t h = h.0
  Since-warnings ip6 s t h = h.1

  pub Since-trans : (s t u : System T) → Since s t → Since t u → Since s u
  Since-trans s t u (p, q) (v, w) = (omega (arith, p, v), omega (arith, q, w))

  delete_one-tables :
      (f : Family) (s : System T) → (delete_one nft m f s).tables ≡ (nft.delete_table f s.tables).1
  delete_one-tables f s =
      by_result f (nft.delete_table f s.tables).0
        (record s { tables = (nft.delete_table f s.tables).1 })
    where
      by_result :
          (g : Family) (b : Bool) (u : System T) → (if b then u else warn g u).tables ≡ u.tables
      by_result g true u = refl
      by_result ip false u = refl
      by_result ip6 false u = refl

  delete_one-warns :
      (f : Family) (s : System T)
      → (nft.delete_table f s.tables).0 ≡ false
      → warnings f s < warnings f (delete_one nft m f s)
  delete_one-warns ip s h = rw h (omega arith)
  delete_one-warns ip6 s h = rw h (omega arith)

  -- a deletion clears its family, and leaves the other one cleared
  delete_one-AbsentOrWarned :
      (f : Family) (s t : System T) → Since s t → AbsentOrWarned f s (delete_one nft m f t)
  delete_one-AbsentOrWarned f s t h = elim (Bool-cases (nft.delete_table f t.tables).0) [
    | inl e ↦ inl (ap (nft.present f) (delete_one-tables f t) ∙ nft.deleted f t.tables e)
    | inr e ↦ inr (omega (arith, Since-warnings f s t h, delete_one-warns f t e))
  ]

  AbsentOrWarned-delete_one :
      (f g : Family) (s t : System T)
      → AbsentOrWarned f s t
      → AbsentOrWarned f s (delete_one nft m g t)
  AbsentOrWarned-delete_one f g s t (inl e) =
      inl (ap (nft.present f) (delete_one-tables g t) ∙ nft.stays_absent g f t.tables e)
  AbsentOrWarned-delete_one f g s t (inr w) =
      inr (omega (arith, w, Since-warnings f t (delete_one nft m g t) (delete_one-Since g t)))

  pub delete_both-BothCleared : (s t : System T) → Since s t → BothCleared s (delete_both nft m t)
  delete_both-BothCleared s t h =
      let u = delete_one nft m ip t in
      (
        AbsentOrWarned-delete_one ip ip6 s u (delete_one-AbsentOrWarned ip s t h),
        delete_one-AbsentOrWarned ip6 s u (Since-trans s t u h (delete_one-Since ip t)),
      )

  pub delete_both-Since : (s t : System T) → Since s t → Since s (delete_both nft m t)
  delete_both-Since s t h =
      let u = delete_one nft m ip t in
      Since-trans s u (delete_both nft m t) (Since-trans s t u h (delete_one-Since ip t))
        (delete_one-Since ip6 u)

  pub delete_both-forwarding : (s : System T) → (delete_both nft m s).forwarding ≡ s.forwarding
  delete_both-forwarding s =
      delete_one-forwarding ip6 (delete_one nft m ip s) ∙ delete_one-forwarding ip s
