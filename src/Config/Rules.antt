-- ===== src/Config/Rules.antt =====
-- The checks of `build_config` of src/config.rs that span several flags.
use gust.Prelude.{
  ◌≡◌, ◌≢◌, ◌↔◌, inl, inr, refl, Bool, true, false, not, ◌&&◌, List, [], ◌∷◌, Option, none, some,
  ok, >>=-eq-ok, reject_if-eq-ok, is_empty, list_eq, list_eq_sound, list_eq_refl, All, Bool-cases,
  Option-cases, if◌then◌else◌, arith,
}
use gust.Config.{
  Protocol, tcp, udp, proto_eq, ListenerSpec, ChainHop, ConfigError, nat_with_chain, udp_with_chain,
  find_udp, same_bind, find_same_bind, refuse_some, check_duplicates, check_rules,
}

abbrev pub SameBind : ListenerSpec → ListenerSpec → Type 0
SameBind a b = (a.proto ≡ b.proto) × (a.bind ≡ b.bind)

-- No two listeners bind one address with one protocol.
abbrev pub NoSharedBind : List ListenerSpec → Type 0
NoSharedBind [] = Unit
NoSharedBind (a ∷ ls) = All (λ b. ¬ SameBind a b) ls × NoSharedBind ls

-- What the flags may ask for together.
pub record IsAllowed (is_nat : Bool) (ls : List ListenerSpec) (chain : List ChainHop) : Type 0 where
  pub nat_alone : is_nat ≡ true → chain ≡ []
  pub chain_is_tcp : chain ≢ [] → All (λ l. l.proto ≡ tcp) ls
  pub no_shared : NoSharedBind ls

proto_eq_sound : (p q : Protocol) → proto_eq p q ≡ true → p ≡ q
proto_eq_sound tcp tcp h = refl
proto_eq_sound udp udp h = refl
proto_eq_sound tcp udp h = cc
proto_eq_sound udp tcp h = cc

proto_eq_refl : (p : Protocol) → proto_eq p p ≡ true
proto_eq_refl tcp = refl
proto_eq_refl udp = refl

proto_eq_udp : (p : Protocol) → proto_eq p udp ≡ false → p ≡ tcp
proto_eq_udp tcp h = refl
proto_eq_udp udp h = cc

and_true : (b c : Bool) → (b && c) ≡ true → (b ≡ true) × (c ≡ true)
and_true b c h = ground arith

same_bind_iff : (a b : ListenerSpec) → (same_bind a b ≡ true) ↔ SameBind a b
same_bind_iff a b = (
  λ h.
      let (p, q) = and_true (proto_eq a.proto b.proto) (list_eq a.bind b.bind) h in
      (proto_eq_sound a.proto b.proto p, list_eq_sound a.bind b.bind q),
  λ (p, q). rw (p, q, proto_eq_refl b.proto, list_eq_refl b.bind),
)

refuse_some-eq-ok {ℓ} :
    {A : Type ℓ} (o : Option A) (e : A → ConfigError) {x : Unit {0}}
    → refuse_some o e ≡ ok x
    → o ≡ none
refuse_some-eq-ok none e h = refl
refuse_some-eq-ok (some a) e h = cc

find_same_bind-none :
    (a : ListenerSpec) (ls : List ListenerSpec)
    → (find_same_bind a ls ≡ none) ↔ All (λ b. ¬ SameBind a b) ls
unfolding find_same_bind
find_same_bind-none a [] = (λ _. tt, λ _. refl)
find_same_bind-none a (b ∷ ls) = elim (Bool-cases (same_bind a b)) [
  | inl e ↦ rw e (λ h. absurd (cc), λ (n, _). absurd (n ((same_bind_iff a b).0 e)))
  | inr e ↦ rw e (
    λ h. (λ q. absurd (cc ((same_bind_iff a b).1 q)), (find_same_bind-none a ls).0 h),
    λ (_, h). (find_same_bind-none a ls).1 h,
  )
]

find_udp-none : (ls : List ListenerSpec) → (find_udp ls ≡ none) ↔ All (λ l. l.proto ≡ tcp) ls
unfolding find_udp
find_udp-none [] = (λ _. tt, λ _. refl)
find_udp-none (l ∷ ls) = elim (Bool-cases (proto_eq l.proto udp)) [
  | inl e ↦ rw e (λ h. absurd (cc), λ (t, _). absurd (cc (proto_eq_sound l.proto udp e)))
  | inr e ↦
      rw e (λ h. (proto_eq_udp l.proto e, (find_udp-none ls).0 h), λ (_, h). (find_udp-none ls).1 h)
]

check_duplicates_iff : (ls : List ListenerSpec) → (check_duplicates ls ≡ ok tt) ↔ NoSharedBind ls
unfolding check_duplicates
check_duplicates_iff [] = (λ _. tt, λ _. refl)
check_duplicates_iff (a ∷ ls) = elim (Option-cases (find_same_bind a ls)) [
  | inl e ↦ rw e (
    λ h. ((find_same_bind-none a ls).0 e, (check_duplicates_iff ls).0 h),
    λ (_, h). (check_duplicates_iff ls).1 h,
  )
  | inr (b, e) ↦ rw e (λ h. absurd (cc), λ (n, _). absurd (cc ((find_same_bind-none a ls).1 n)))
]

check_chain_iff :
    (ls : List ListenerSpec) (chain : List ChainHop)
    → ((if is_empty chain then none else find_udp ls) ≡ none)
      ↔ (chain ≢ [] → All (λ l. l.proto ≡ tcp) ls)
check_chain_iff ls [] = (λ _ n. absurd (n refl), λ _. refl)
check_chain_iff ls (c ∷ chain) =
    (λ h _. (find_udp-none ls).0 h, λ f. (find_udp-none ls).1 (f (λ e. cc)))

check_nat_iff :
    (is_nat : Bool) (chain : List ChainHop)
    → ((is_nat && not (is_empty chain)) ≡ false) ↔ (is_nat ≡ true → chain ≡ [])
check_nat_iff true [] = (λ _ _. refl, λ _. refl)
check_nat_iff true (c ∷ chain) = (λ h. absurd (cc), λ f. absurd (cc (f refl)))
check_nat_iff false chain = (λ _ e. absurd (cc), λ _. refl)

-- The rules across flags pass exactly when kernel mode has no chain, a chain has only TCP
-- listeners, and no two listeners bind one address with one protocol.
pub check_rules_iff :
    (is_nat : Bool) (ls : List ListenerSpec) (chain : List ChainHop)
    → (check_rules is_nat ls chain ≡ ok tt) ↔ IsAllowed is_nat ls chain
unfolding check_rules
check_rules_iff is_nat ls chain = (
  λ h.
      let (e, h1) = reject_if-eq-ok (is_nat && not (is_empty chain)) nat_with_chain _ h in
      let (_, f, h2) =
        >>=-eq-ok
          (refuse_some (if is_empty chain then none else find_udp ls) (λ l. udp_with_chain l.name))
          _ h1 in
      record {
        nat_alone = (check_nat_iff is_nat chain).0 e;
        chain_is_tcp = (check_chain_iff ls chain).0 (refuse_some-eq-ok _ _ f);
        no_shared = (check_duplicates_iff ls).0 h2;
      },
  λ v.
      rw ((check_nat_iff is_nat chain).1 v.nat_alone, (check_chain_iff ls chain).1 v.chain_is_tcp)
        ((check_duplicates_iff ls).1 v.no_shared),
)
