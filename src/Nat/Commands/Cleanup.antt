-- ===== src/Nat/Commands/Cleanup.antt =====
-- src/nat/mod.rs: what `--nat-cleanup` leaves.
use gust.Prelude.{
  ◌≡◌, ◌⊎◌, refl, sym, ap, subst, false, none, Result, ok, err, Bool-cases, Option-cases, true, ◌≢◌,
  ◌∙◌, arith, inl, inr,
}
use gust.Text.{Text, codes, cut_text}
use gust.Text.Cut.{Contains, cut_text-Contains, cut_text_finds}
use gust.Netopt.Calls.{IoError}
use gust.Nat.{ExitCode, success, failure}
use gust.Nat.Nftables.{Family, ip, ip6}
use gust.Nat.Commands.{
  Ran, not_started, broken_pipe, not_waited, exited, delete_args, version_args, contains_text,
  says_missing, SaysMissing, Process, ran_outcome, Deletion, removed, already_absent, not_removed,
  not_run, deletion, ensure_available, delete_table, cleanup_available, cleanup_main,
}

-- The branches of `delete_table` for a deletion that cannot be done.
abbrev pub Fails : Deletion → Type 0
Fails d = (d ≡ not_removed) ⊎ (d ≡ not_run)

contains_text-Contains : (pat s : Text) → contains_text pat s ≡ true → Contains pat s
contains_text-Contains pat s h = elim (Option-cases (cut_text pat s)) [
  | inl e ↦ absurd (let k = rw (e, contains_text) at h in cc)
  | inr (r, e) ↦ cut_text-Contains pat s r e
]

Contains-contains_text : (pat s : Text) → Contains pat s → contains_text pat s ≢ false
Contains-contains_text pat s (a, b, k) h = elim (Option-cases (cut_text pat s)) [
  | inl e ↦ cut_text_finds pat a b (ap (cut_text pat) (sym k) ∙ e)
  | inr (r, e) ↦ let q = rw (e, contains_text) at h in cc
]

says_missing-SaysMissing : (e : Text) → says_missing e ≡ true → SaysMissing e
unfolding says_missing
says_missing-SaysMissing e h = elim (Bool-cases (contains_text (codes "no such file") e)) [
  | inl k ↦ inl (contains_text-Contains (codes "no such file") e k)
  | inr k ↦ inr (contains_text-Contains (codes "does not exist") e (ground arith))
]

says_missing-not : (e : Text) → says_missing e ≡ false → ¬ SaysMissing e
unfolding says_missing
says_missing-not e h (inl c) = Contains-contains_text (codes "no such file") e c (ground arith)
says_missing-not e h (inr c) = Contains-contains_text (codes "does not exist") e c (ground arith)

-- `nft` could not be run, or failed with an error that does not say that the table is not there.
abbrev pub CannotDelete : (Text → Text) → Ran → Type 0
CannotDelete lower (not_started e) = Unit
CannotDelete lower (broken_pipe e) = Unit
CannotDelete lower (not_waited e) = Unit
CannotDelete lower (exited out) = (out.success ≡ false) × ¬ SaysMissing (lower out.stderr)

removed-not : ¬ Fails removed
removed-not (inl e) = cc
removed-not (inr e) = cc

already_absent-not : ¬ Fails already_absent
already_absent-not (inl e) = cc
already_absent-not (inr e) = cc

module _ {T : Type 0} (p : Process T) where
  -- How a deletion in a state may end, for a later state: it was done and the table is absent, or it
  -- took a branch of failure because it could not be done.
  abbrev pub Deletes : Family → T → T → Type 0
  Deletes f t u =
      ((¬ Fails (delete_table p f t).0) × (p.present f u ≡ false))
      ⊎ (Fails (delete_table p f t).0
          × CannotDelete p.to_lowercase (p.run (delete_args f) none t).0)

  pub delete_table-Deletes : (f : Family) (t : T) → Deletes f t (delete_table p f t).1
  unfolding delete_table
  delete_table-Deletes f t =
      by_run (p.run (delete_args f) none t).0 (p.run (delete_args f) none t).1 refl
    where
      by_run :
          (r : Ran) (u : T)
          → p.run (delete_args f) none t ≡ (r, u)
          → ((¬ Fails (deletion p.to_lowercase (ran_outcome r))) × (p.present f u ≡ false))
            ⊎ (Fails (deletion p.to_lowercase (ran_outcome r)) × CannotDelete p.to_lowercase r)
      by_run (not_started e) u h = inr (inr refl, tt)
      by_run (broken_pipe e) u h = inr (inr refl, tt)
      by_run (not_waited e) u h = inr (inr refl, tt)
      by_run (exited out) u h = elim (Bool-cases out.success) [
        | inl s ↦ inl (rw s removed-not, p.deleted f t u out h s)
        | inr s ↦ elim (Bool-cases (says_missing (p.to_lowercase out.stderr))) [
          | inl m ↦ inl (
            rw (s, m) already_absent-not,
            p.missing f t u out h s (says_missing-SaysMissing (p.to_lowercase out.stderr) m),
          )
          | inr m ↦ inr (inl (rw (s, m)), (s, says_missing-not (p.to_lowercase out.stderr) m))
        ]
      ]

  pub delete_table-stays :
      (f g : Family) (t : T) → p.present g t ≡ false → p.present g (delete_table p f t).1 ≡ false
  unfolding delete_table
  delete_table-stays f g t h = p.stays_absent f g t _ (p.run (delete_args f) none t).0 refl h

  ensure_available-keeps : (t : T) → (ensure_available p t).1 ≡ t
  unfolding ensure_available
  ensure_available-keeps t = p.version_keeps t _ (p.run version_args none t).0 refl

  -- A clean-up where `nft` cannot be used changes nothing and fails. Else it succeeds, and each
  -- table whose deletion could be done is absent.
  abbrev pub CleansUp : T → Result IoError (Unit {0}) → ExitCode × T → Type 0
  CleansUp t (err e) out = out ≡ (failure, t)
  CleansUp t (ok _) out =
      (out.0 ≡ success) × Deletes ip t out.1 × Deletes ip6 (delete_table p ip t).1 out.1

  -- Where `nft` cannot be used, `--nat-cleanup` fails and changes no table. Else its exit code is
  -- that of a success, whether the deletions work or not; each of the two tables is then absent, or
  -- its deletion took a branch of failure, because `nft` could not be run or failed with an error
  -- that does not say that the table is not there.
  pub cleanup_main-CleansUp : (t : T) → CleansUp t (ensure_available p t).0 (cleanup_main p t)
  unfolding cleanup_main
  cleanup_main-CleansUp t =
      by_version (ensure_available p t).0 (ensure_available p t).1 (ensure_available-keeps t)
    where
      first :
          Deletes ip t (delete_table p ip t).1
          → Deletes ip t (delete_table p ip6 (delete_table p ip t).1).1
      first (inl (n, e)) = inl (n, delete_table-stays ip6 ip (delete_table p ip t).1 e)
      first (inr e) = inr e

      by_version :
          (r : Result IoError (Unit {0})) (u : T)
          → u ≡ t
          → CleansUp t r (cleanup_available p (r, u))
      by_version (err e) u h = ap (λ (x : T). (failure, x)) h
      by_version (ok _) u h =
          subst (λ x. CleansUp t (ok tt) (cleanup_available p (ok tt, x))) (sym h)
            (
              refl,
              first (delete_table-Deletes ip t),
              delete_table-Deletes ip6 (delete_table p ip t).1,
            )
