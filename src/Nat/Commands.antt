-- ===== src/Nat/Commands.antt =====
-- src/nat/nftables.rs: the calls of the `nft` program, and `cleanup_main` of src/nat/mod.rs. The
-- program, with the state of the kernel's tables behind it, is a parameter.
pub mod Cleanup
pub mod Implements
use gust.Prelude.{
  ℕ, ◌≡◌, ◌⊎◌, Bool, true, false, ◌||◌, List, [], ◌∷◌, ◌++◌, Option, none, some, Result, ok, err,
  if◌then◌else◌,
}
use gust.Text.{Text, codes, cut_text, trim}
use gust.Text.Cut.{Contains}
use gust.Netopt.Calls.{ErrorKind, other, IoError}
use gust.Nat.{ExitCode, success, failure}
use gust.Nat.Nftables.{Family, ip, ip6, family_str}

pub record NftOutcome : Type 0 where
  pub success : Bool
  pub stdout : Text
  pub stderr : Text

-- How a run of a child process ends: it is not started, the pipe to it breaks, waiting for it
-- fails, or it exits.
pub data Ran : Type 0 where
  not_started broken_pipe not_waited : IoError → Ran
  exited : NftOutcome → Ran

-- the arguments of the calls
abbrev pub version_args : List Text
version_args = codes "--version" ∷ []

abbrev pub apply_args : List Text
apply_args = codes "-f" ∷ codes "-" ∷ []

abbrev pub delete_args : Family → List Text
delete_args family = codes "delete" ∷ codes "table" ∷ family_str family ∷ codes "gust" ∷ []

abbrev pub list_args : List Text
list_args = codes "-j" ∷ codes "list" ∷ codes "table" ∷ codes "ip" ∷ codes "gust" ∷ []

-- `s.contains(pat)`
abbrev pub contains_text : Text → Text → Bool
contains_text pat s = elim (cut_text pat s) [ none ↦ false | some _ ↦ true ]

-- the test of `delete_table` on the error in lower case
unfoldable pub says_missing : Text → Bool
says_missing e = contains_text (codes "no such file") e || contains_text (codes "does not exist") e

-- The text says that there is no such table.
abbrev pub SaysMissing : Text → Type 0
SaysMissing e = Contains (codes "no such file") e ⊎ Contains (codes "does not exist") e

-- The documented behaviour of `nft` with `to_lowercase` of the standard library: asking for the
-- version changes no table; deleting a table brings none back; and it is gone if that succeeds or
-- if the error says that there is no such table.
pub record Process (T : Type 0) : Type 0 where
  pub run : List Text → Option Text → T → Ran × T
  pub to_lowercase : Text → Text
  pub present : Family → T → Bool
  pub version_keeps : (t u : T) (r : Ran) → run version_args none t ≡ (r, u) → u ≡ t
  pub stays_absent :
      (f g : Family) (t u : T) (r : Ran)
      → run (delete_args f) none t ≡ (r, u)
      → present g t ≡ false
      → present g u ≡ false
  pub deleted :
      (f : Family) (t u : T) (out : NftOutcome)
      → run (delete_args f) none t ≡ (exited out, u)
      → out.success ≡ true
      → present f u ≡ false
  pub missing :
      (f : Family) (t u : T) (out : NftOutcome)
      → run (delete_args f) none t ≡ (exited out, u)
      → out.success ≡ false
      → SaysMissing (to_lowercase out.stderr)
      → present f u ≡ false

abbrev pub other_error : Text → IoError
other_error text = record { kind = other; raw_os_error = none; text = text }

abbrev pub ran_outcome : Ran → Result IoError NftOutcome
ran_outcome (not_started e) = err (record {
  kind = e.kind;
  raw_os_error = none;
  text = codes "failed to run `nft` (is the nftables package installed?): " ++ e.text;
})
ran_outcome (broken_pipe e) = err e
ran_outcome (not_waited e) = err e
ran_outcome (exited out) = ok out

-- `Ok` at a success, and else an error with the program's
abbrev pub checked : Text → Result IoError NftOutcome → Result IoError (Unit {0})
checked what (err e) = err e
checked what (ok out) = if out.success then ok tt else err (other_error (what ++ trim out.stderr))

-- the branch that `delete_table` takes
pub data Deletion : Type 0 where
  removed already_absent not_removed not_run : Deletion

abbrev pub deletion : (Text → Text) → Result IoError NftOutcome → Deletion
deletion lower (err e) = not_run
deletion lower (ok out) =
    if out.success
    then removed
    else if says_missing (lower out.stderr)
    then already_absent
    else not_removed

abbrev pub listed : Result IoError NftOutcome → Option Text
listed (err e) = none
listed (ok out) = if out.success then some out.stdout else none

module _ {T : Type 0} (p : Process T) where
  abbrev pub run_nft : List Text → Option Text → T → Result IoError NftOutcome × T
  run_nft args input t = let (r, u) = p.run args input t in (ran_outcome r, u)

  unfoldable pub ensure_available : T → Result IoError (Unit {0}) × T
  ensure_available t =
      let (r, u) = run_nft version_args none t in (checked (codes "`nft --version` failed: ") r, u)

  unfoldable pub apply : Text → T → Result IoError (Unit {0}) × T
  apply rules t =
      let (r, u) = run_nft apply_args (some rules) t in (checked (codes "nft apply failed: ") r, u)

  unfoldable pub delete_table : Family → T → Deletion × T
  delete_table family t =
      let (r, u) = run_nft (delete_args family) none t in (deletion p.to_lowercase r, u)

  unfoldable pub list_json : T → Option Text × T
  list_json t = let (r, u) = run_nft list_args none t in (listed r, u)

  abbrev pub cleanup_available : Result IoError (Unit {0}) × T → ExitCode × T
  cleanup_available (err e, t) = (failure, t)
  cleanup_available (ok _, t) =
      let (_, u) = delete_table ip t in let (_, v) = delete_table ip6 u in (success, v)

  -- `cleanup_main`
  unfoldable pub cleanup_main : T → ExitCode × T
  cleanup_main t = cleanup_available (ensure_available t)
