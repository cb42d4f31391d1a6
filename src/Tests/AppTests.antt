-- ===== src/Tests/AppTests.antt =====
-- The program at concrete arguments, the clean-up, and the counters of a rule.
use gust.Prelude.{
  ℕ, ◌≡◌, refl, sym, ap, ◌∙◌, inl, inr, subst, Bool, true, false, List, [], ◌∷◌, Option, none, some,
  ok, length, list_eq, ◌==◌, if◌then◌else◌,
}
use gust.Text.{
  Text, codes, strip_prefix, cut_text, cut, split, trim, trim_start_matches, to_ascii_lowercase,
}
use gust.Text.Cut.{Contains, cut_text_finds}
use gust.Nat.Nftables.{Family, ip, ip6}
use gust.Nat.{success}
use gust.Node.Percent.{hex_digit}
use gust.Nat.Rights.{has_net_admin, lines_allow, cap_bits, from_hex, scan_hex}
use gust.Nat.Commands.{
  NftOutcome, Ran, exited, not_started, broken_pipe, not_waited, delete_args, version_args,
  SaysMissing, Process, ensure_available, delete_table, cleanup_main,
}
use gust.Nat.Commands.Cleanup.{CleansUp, cleanup_main-CleansUp}
use gust.Nat.Status.{Json, first_counter, item_stat, item_stats, parse_counters}
use gust.Nat.Status.Counters.{AllReports, parse_counters-AllReports}
use gust.Tests.NatTests.{
  remove, has, machine, no_names, no_print, system, remove-absent, remove-stays,
}
use gust.Cli.{
  parse_args, scan_args, name_and_inline, split_inline, flag_in, apply_flag, take_value, parse_bool,
  outcome_of,
}
use gust.Cli
use gust.Config.{config_of}
use gust.App.{Userspace, served, main}
use gust.App.Serves.{IsServerOf, main-IsServerOf}
use gust.Tests.ConfigTests.{flags, listener, build_config_run}

abbrev worked : NftOutcome
worked = record { success = true; stdout = []; stderr = [] }

-- the family that the third argument of a deletion names
abbrev family_of : Text → Family
family_of s = if length s == 2 then ip else ip6

abbrev run_nft : List Text → Option Text → Bool × Bool → Ran × (Bool × Bool)
run_nft (a ∷ b ∷ family ∷ d ∷ []) input t = (exited worked, remove (family_of family) t)
run_nft args input t = (exited worked, t)

version_keeps : (t u : Bool × Bool) (r : Ran) → run_nft version_args none t ≡ (r, u) → u ≡ t
version_keeps t u r h = sym (ap (λ (_, x). x) h)

delete_is : (f : Family) (t : Bool × Bool) → (run_nft (delete_args f) none t).1 ≡ remove f t
delete_is ip t = refl
delete_is ip6 t = refl

stays_absent :
    (f g : Family) (t u : Bool × Bool) (r : Ran)
    → run_nft (delete_args f) none t ≡ (r, u)
    → has g t ≡ false
    → has g u ≡ false
stays_absent ip g t u r h k =
    subst (λ x. has g x ≡ false) (ap (λ (_, x). x) h) (remove-stays ip g t k)
stays_absent ip6 g t u r h k =
    subst (λ x. has g x ≡ false) (ap (λ (_, x). x) h) (remove-stays ip6 g t k)

removes :
    (f : Family) (t u : Bool × Bool) (out : NftOutcome)
    → run_nft (delete_args f) none t ≡ (exited out, u)
    → has f u ≡ false
removes ip t u out h = subst (λ x. has ip x ≡ false) (ap (λ (_, x). x) h) (remove-absent ip t)
removes ip6 t u out h = subst (λ x. has ip6 x ≡ false) (ap (λ (_, x). x) h) (remove-absent ip6 t)

abbrev process : Process (Bool × Bool)
process = record {
  run = run_nft;
  to_lowercase = λ s. s;
  present = has;
  version_keeps = version_keeps;
  stays_absent = stays_absent;
  deleted = λ f t u out h _. removes f t u out h;
  missing = λ f t u out h _ _. removes f t u out h;
}

cleanup_main-CleansUp_example :
    CleansUp process
      (true, true)
      (ensure_available process (true, true)).0
      (cleanup_main process (true, true))
cleanup_main-CleansUp_example = cleanup_main-CleansUp process (true, true)

cleanup_main_run : cleanup_main process (true, true) ≡ (success, (false, false))
unfolding cleanup_main ensure_available delete_table
cleanup_main_run = refl

-- An `nft` that may not delete anything.
abbrev denied : NftOutcome
denied = record { success = false; stdout = []; stderr = codes "Operation not permitted" }

abbrev run_denied : List Text → Option Text → Bool × Bool → Ran × (Bool × Bool)
run_denied (a ∷ b ∷ family ∷ d ∷ []) input t = (exited denied, t)
run_denied args input t = (exited worked, t)

denied_keeps : (t u : Bool × Bool) (r : Ran) → run_denied version_args none t ≡ (r, u) → u ≡ t
denied_keeps t u r h = sym (ap (λ (_, x). x) h)

denied_stays :
    (f g : Family) (t u : Bool × Bool) (r : Ran)
    → run_denied (delete_args f) none t ≡ (r, u)
    → has g t ≡ false
    → has g u ≡ false
denied_stays f g t u r h k = subst (λ x. has g x ≡ false) (ap (λ (_, x). x) h) k

denied_outcome :
    (f : Family) (t u : Bool × Bool) (out : NftOutcome)
    → run_denied (delete_args f) none t ≡ (exited out, u)
    → denied ≡ out
denied_outcome f t u out h = outcome_of (exited out) (ap (λ (x, _). x) h)
  where
    outcome_of :
        (r : Ran)
        → exited denied ≡ r
        → denied ≡ (elim r [
          | exited o ↦ o
          | not_started e ↦ denied
          | broken_pipe e ↦ denied
          | not_waited e ↦ denied
        ])
    outcome_of (exited o) e = cc
    outcome_of (not_started x) e = refl
    outcome_of (broken_pipe x) e = refl
    outcome_of (not_waited x) e = refl

denied_deletes :
    (f : Family) (t u : Bool × Bool) (out : NftOutcome)
    → run_denied (delete_args f) none t ≡ (exited out, u)
    → out.success ≡ true
    → has f u ≡ false
denied_deletes f t u out h k =
    let e = denied_outcome f t u out h in
    absurd (let c : false ≡ true = ap (λ o. NftOutcome.success o) e ∙ k in cc)

says_nothing :
    (pat : Text)
    → cut_text pat (codes "Operation not permitted") ≡ none
    → ¬ Contains pat (codes "Operation not permitted")
says_nothing pat h (a, b, e) = cut_text_finds pat a b (ap (cut_text pat) (sym e) ∙ h)

denied_misses :
    (f : Family) (t u : Bool × Bool) (out : NftOutcome)
    → run_denied (delete_args f) none t ≡ (exited out, u)
    → out.success ≡ false
    → SaysMissing out.stderr
    → has f u ≡ false
unfolding cut_text strip_prefix
denied_misses f t u out h s k =
    let e = denied_outcome f t u out h in
    absurd (elim (subst SaysMissing (ap (λ o. NftOutcome.stderr o) (sym e)) k) [
      | inl c ↦ says_nothing (codes "no such file") refl c
      | inr c ↦ says_nothing (codes "does not exist") refl c
    ])

abbrev powerless : Process (Bool × Bool)
powerless = record {
  run = run_denied;
  to_lowercase = λ s. s;
  present = has;
  version_keeps = denied_keeps;
  stays_absent = denied_stays;
  deleted = denied_deletes;
  missing = denied_misses;
}

-- The clean-up reports a success and leaves both tables.
denied_cleanup_run : cleanup_main powerless (true, true) ≡ (success, (true, true))
unfolding cleanup_main ensure_available delete_table
denied_cleanup_run = refl

abbrev builds : Option (ℕ × ℕ) → Bool
builds pool = true

-- A user with the right to change the network.
abbrev status : Text
status = codes "Name:\tgust\nCapEff:\t0000000000001000\n"

status_run : has_net_admin 1000 (some status) ≡ true
unfolding has_net_admin lines_allow cap_bits from_hex scan_hex strip_prefix split trim hex_digit
status_run = refl

-- A forwarder of one port, as it is asked for.
abbrev arguments : List Text
arguments = codes "-L" ∷ codes "tcp://:8080/1.2.3.4:9090" ∷ []

arguments_parsed : parse_args arguments ≡ ok (Cli.run flags)
unfolding parse_args scan_args name_and_inline split_inline flag_in apply_flag take_value parse_bool
    outcome_of list_eq cut trim_start_matches to_ascii_lowercase
arguments_parsed = refl

main-IsServerOf_example :
    (u : Userspace) × (main process machine 1000
        (some status)
        no_names
        no_print
        builds
        arguments
        system
      ≡ (served u, success, system))
    × IsServerOf flags u
main-IsServerOf_example =
    main-IsServerOf process machine 1000 (some status) no_names no_print builds arguments system
      flags (config_of flags (listener ∷ []) [] none) arguments_parsed refl refl build_config_run
      (λ pool h. refl)

-- The values of a listing with one rule of ours.
data Value : Type 0 where
  root items_value item rule comment exprs_value match_expr counter_expr counter packets bytes :
      Value

abbrev get_root : Text → Option Value
get_root key = if list_eq key (codes "nftables") then some items_value else none

abbrev get_rule : Text → Option Value
get_rule key =
    if list_eq key (codes "comment")
    then some comment
    else if list_eq key (codes "expr")
    then some exprs_value
    else none

abbrev get_counter : Text → Option Value
get_counter key =
    if list_eq key (codes "packets")
    then some packets
    else if list_eq key (codes "bytes")
    then some bytes
    else none

abbrev get : Text → Value → Option Value
get key root = get_root key
get key item = if list_eq key (codes "rule") then some rule else none
get key rule = get_rule key
get key counter_expr = if list_eq key (codes "counter") then some counter else none
get key counter = get_counter key
get key v = none

abbrev as_array : Value → Option (List Value)
as_array items_value = some (match_expr ∷ item ∷ [])
as_array exprs_value = some (match_expr ∷ counter_expr ∷ [])
as_array v = none

abbrev as_str : Value → Option Text
as_str comment = some (codes "gust:tcp:80->10.0.0.1:80")
as_str v = none

abbrev as_u64 : Value → Option ℕ
as_u64 packets = some 10
as_u64 bytes = some 840
as_u64 v = none

abbrev listing : Json Value
listing = record {
  from_str = λ s. some root;
  get = get;
  as_array = as_array;
  as_str = as_str;
  as_u64 = as_u64;
}

parse_counters-AllReports_example :
    AllReports listing (match_expr ∷ item ∷ []) (parse_counters listing [])
unfolding list_eq
parse_counters-AllReports_example =
    parse_counters-AllReports listing [] root items_value (match_expr ∷ item ∷ []) refl refl refl

parse_counters_run :
    parse_counters listing []
    ≡ record { comment = codes "gust:tcp:80->10.0.0.1:80"; packets = 10; bytes = 840 } ∷ []
unfolding list_eq parse_counters item_stats item_stat first_counter strip_prefix
parse_counters_run = refl
