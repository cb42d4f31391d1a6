-- ===== src/Nat/Commands/Implements.antt =====
-- src/nat/nftables.rs: the calls of the `nft` program give the kernel mode what it relies on.
use gust.Prelude.{ℕ, ◌≡◌, Bool, true, false, inl, inr, Option, none, some, Result, ok, err}
use gust.Text.{Text}
use gust.Netopt.Calls.{IoError}
use gust.Nat.{Nft, Machine, System}
use gust.Nat.Nftables.{Family}
use gust.Nat.Rights.{has_net_admin}
use gust.Nat.Commands.{
  Deletion, removed, already_absent, not_removed, not_run, Process, ensure_available, apply,
  delete_table,
}
use gust.Nat.Commands.Cleanup.{Fails, delete_table-Deletes, delete_table-stays}

-- what the kernel mode looks at
abbrev pub applied : {T : Type 0} → Result IoError (Unit {0}) × T → Option T
applied (ok _, t) = some t
applied (err e, t) = none

abbrev pub is_ok : Result IoError (Unit {0}) → Bool
is_ok (ok _) = true
is_ok (err e) = false

-- whether the deletion ends without the warning
abbrev pub is_deleted : Deletion → Bool
is_deleted removed = true
is_deleted already_absent = true
is_deleted not_removed = false
is_deleted not_run = false

module _ {T : Type 0} (p : Process T) where
  abbrev pub deleted_of : Deletion × T → Bool × T
  deleted_of (d, t) = (is_deleted d, t)

  is_deleted-Fails : (d : Deletion) → is_deleted d ≡ true → ¬ Fails d
  is_deleted-Fails removed h (inl e) = cc
  is_deleted-Fails removed h (inr e) = cc
  is_deleted-Fails already_absent h (inl e) = cc
  is_deleted-Fails already_absent h (inr e) = cc
  is_deleted-Fails not_removed h f = cc
  is_deleted-Fails not_run h f = cc

  pub delete_table-deletes :
      (f : Family) (t : T)
      → is_deleted (delete_table p f t).0 ≡ true
      → p.present f (delete_table p f t).1 ≡ false
  delete_table-deletes f t h = elim (delete_table-Deletes p f t) [
    | inl (n, e) ↦ e
    | inr (w, c) ↦ absurd (is_deleted-Fails (delete_table p f t).0 h w)
  ]

  abbrev pub nft_of : Nft T
  nft_of = record {
    delete_table = λ f t. deleted_of (delete_table p f t);
    apply = λ text t. applied (apply p text t);
    present = p.present;
    deleted = delete_table-deletes;
    stays_absent = delete_table-stays p;
  }

  -- the machine, where `nft` is available if it tells its version, and the rights are those of the
  -- user and of /proc/self/status
  abbrev pub machine_of : ℕ → Option Text → Machine → System T → Machine
  machine_of euid status m s = record m {
    nft_available = is_ok (ensure_available p s.tables).0;
    has_net_admin = has_net_admin euid status;
  }
