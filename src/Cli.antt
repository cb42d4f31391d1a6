-- ===== src/Cli.antt =====
-- src/cli.rs: the scanner of the command line. `usize` has 64 bits, and an error carries what its
-- message shows.
pub mod Scan
pub mod Forms
pub mod Print
use gust.Prelude.{
  ℕ, zero, suc, ◌^◌, ◌-◌, ℤ, pos, negsuc, Bool, true, false, not, ◌||◌, List, [], ◌∷◌, ◌++◌, Option,
  none, some, Result, ok, err, ◌>>=◌, ◌>>◌, reject_if, ok_or, list_eq, length, ◌==◌, if◌then◌else◌,
}
use gust.Text.{Text, codes, cut, trim_start_matches, to_ascii_lowercase}
use gust.Text.Number.{parse_unsigned, scan_some, max_u64}

-- `RawArgs`
pub record RawArgs : Type 0 where
  pub listens : List Text
  pub forwards : List Text
  pub mark : Option ℤ
  pub nat : Bool
  pub set_ip_forward : Bool
  pub nat_cleanup : Bool
  pub buf_size_kb : Option ℕ
  pub heartbeat_secs : Option ℕ
  pub worker_threads : Option ℕ
  pub nodelay : Option Bool
  pub so_rcvbuf : Option ℕ
  pub so_sndbuf : Option ℕ
  pub debug : Bool
  pub help : Bool
  pub version : Bool

-- `RawArgs::default()`
abbrev pub default_args : RawArgs
default_args = record {
  listens = [];
  forwards = [];
  mark = none;
  nat = false;
  set_ip_forward = false;
  nat_cleanup = false;
  buf_size_kb = none;
  heartbeat_secs = none;
  worker_threads = none;
  nodelay = none;
  so_rcvbuf = none;
  so_sndbuf = none;
  debug = false;
  help = false;
  version = false;
}

pub data ParseOutcome : Type 0 where
  run : RawArgs → ParseOutcome
  show_help show_version : ParseOutcome

-- The errors of `parse_args`; `out_of_fuel` is the model's own, and is never returned.
pub data CliError : Type 0 where
  unexpected_positional requires_value unknown_flag : Text → CliError
  bad_number bad_boolean : Text → Text → CliError
  out_of_fuel : CliError

abbrev pub max_i64 : ℕ
max_i64 = 2 ^ 63 - 1

abbrev pub negated : ℕ → ℤ
negated zero = pos 0
negated (suc n) = negsuc n

abbrev pub pos_option : Option ℕ → Option ℤ
pos_option none = none
pos_option (some n) = some (pos n)

abbrev pub negated_option : Option ℕ → Option ℤ
negated_option none = none
negated_option (some n) = some (negated n)

-- `v.parse::<i64>()`
unfoldable pub parse_i64 : Text → Option ℤ
parse_i64 [] = none
parse_i64 (c ∷ s) =
    if c == b'-'
    then negated_option (scan_some (2 ^ 63) s)
    else pos_option (parse_unsigned max_i64 (c ∷ s))

-- `starts_with('-')`
abbrev pub starts_with_dash : Text → Bool
starts_with_dash [] = false
starts_with_dash (c ∷ s) = c == b'-'

abbrev pub at_inline : Text → Option (Text × Text) → Text × Option Text
at_inline body none = (body, none)
at_inline body (some (name, v)) = (name, some v)

-- a flag's name and its `=value`, of the argument without its leading dashes
unfoldable pub split_inline : Text → Text × Option Text
split_inline body = at_inline body (cut b'=' body)

unfoldable pub name_and_inline : Text → Text × Option Text
name_and_inline arg = split_inline (trim_start_matches (λ c. c == b'-') arg)

-- a flag's value, and the arguments that are left
unfoldable pub take_value : Text → Option Text → List Text → Result CliError (Text × List Text)
take_value name (some v) rest = ok (v, rest)
take_value name none [] = err (requires_value name)
take_value name none (v ∷ rest) = ok (v, rest)

-- `v.parse::<u64>()`, with the flag's own error
unfoldable pub parse_number : Text → Text → Result CliError ℕ
parse_number name v = ok_or (parse_unsigned max_u64 v) (bad_number name v)

abbrev pub one_of : Text → List Text → Bool
one_of v [] = false
one_of v (w ∷ ws) = list_eq v w || one_of v ws

unfoldable pub parse_bool : Text → Option Text → Result CliError Bool
parse_bool name none = ok true
parse_bool name (some v) =
    let lower = to_ascii_lowercase v in
    if one_of lower (codes "true" ∷ codes "1" ∷ codes "yes" ∷ codes "on" ∷ [])
    then ok true
    else if one_of lower (codes "false" ∷ codes "0" ∷ codes "no" ∷ codes "off" ∷ [])
    then ok false
    else err (bad_boolean name v)

-- What one round of the loop leaves: the flags and the arguments that are left, or an outcome.
pub data Step : Type 0 where
  next : RawArgs → List Text → Step
  stop : ParseOutcome → Step

-- the patterns of the `match` on a flag's name
pub data Flag : Type 0 where
  flag_l flag_f flag_m buf_size_kb heartbeat_secs worker_threads so_rcvbuf so_sndbuf : Flag
  nodelay nat set_ip_forward nat_cleanup debug help version unknown : Flag

unfoldable pub flag_in : List (Text × Flag) → Text → Flag
flag_in [] name = unknown
flag_in ((n, f) ∷ table) name = if list_eq name n then f else flag_in table name

abbrev pub flag_names : List (Text × Flag)
flag_names =
    (codes "L", flag_l)
    ∷ (codes "F", flag_f)
    ∷ (codes "M", flag_m)
    ∷ (codes "buf-size-kb", buf_size_kb)
    ∷ (codes "heartbeat-secs", heartbeat_secs)
    ∷ (codes "worker-threads", worker_threads)
    ∷ (codes "so-rcvbuf", so_rcvbuf)
    ∷ (codes "so-sndbuf", so_sndbuf)
    ∷ (codes "nodelay", nodelay)
    ∷ (codes "nat", nat)
    ∷ (codes "set-ip-forward", set_ip_forward)
    ∷ (codes "nat-cleanup", nat_cleanup)
    ∷ (codes "D", debug)
    ∷ (codes "debug", debug)
    ∷ (codes "h", help)
    ∷ (codes "help", help)
    ∷ (codes "V", version)
    ∷ (codes "version", version)
    ∷ []

-- the arm of the `match` for a flag
unfoldable pub apply_flag : Flag → RawArgs → Text → Option Text → List Text → Result CliError Step
apply_flag flag_l raw name inline rest = do
  (v, rest) ← take_value name inline rest
  ok (next (record raw { listens = raw.listens ++ v ∷ [] }) rest)
apply_flag flag_f raw name inline rest = do
  (v, rest) ← take_value name inline rest
  ok (next (record raw { forwards = raw.forwards ++ v ∷ [] }) rest)
apply_flag flag_m raw name inline rest = do
  (v, rest) ← take_value name inline rest
  m ← ok_or (parse_i64 v) (bad_number name v)
  ok (next (record raw { mark = some m }) rest)
apply_flag buf_size_kb raw name inline rest = do
  (v, rest) ← take_value name inline rest
  n ← parse_number name v
  ok (next (record raw { buf_size_kb = some n }) rest)
apply_flag heartbeat_secs raw name inline rest = do
  (v, rest) ← take_value name inline rest
  n ← parse_number name v
  ok (next (record raw { heartbeat_secs = some n }) rest)
apply_flag worker_threads raw name inline rest = do
  (v, rest) ← take_value name inline rest
  n ← parse_number name v
  ok (next (record raw { worker_threads = some n }) rest)
apply_flag so_rcvbuf raw name inline rest = do
  (v, rest) ← take_value name inline rest
  n ← parse_number name v
  ok (next (record raw { so_rcvbuf = some n }) rest)
apply_flag so_sndbuf raw name inline rest = do
  (v, rest) ← take_value name inline rest
  n ← parse_number name v
  ok (next (record raw { so_sndbuf = some n }) rest)
apply_flag nodelay raw name inline rest = do
  b ← parse_bool name inline
  ok (next (record raw { nodelay = some b }) rest)
apply_flag nat raw name inline rest = do
  b ← parse_bool name inline
  ok (next (record raw { nat = b }) rest)
apply_flag set_ip_forward raw name inline rest = do
  b ← parse_bool name inline
  ok (next (record raw { set_ip_forward = b }) rest)
apply_flag nat_cleanup raw name inline rest = do
  b ← parse_bool name inline
  ok (next (record raw { nat_cleanup = b }) rest)
apply_flag debug raw name inline rest = do
  b ← parse_bool name inline
  ok (next (record raw { debug = b }) rest)
apply_flag help raw name inline rest = ok (stop show_help)
apply_flag version raw name inline rest = ok (stop show_version)
apply_flag unknown raw name inline rest = err (unknown_flag name)

-- what follows the loop
unfoldable pub outcome_of : RawArgs → ParseOutcome
outcome_of raw = if raw.help then show_help else if raw.version then show_version else run raw

abbrev pub refuses : Bool → Text → Bool
refuses no_more_flags arg = no_more_flags || not (starts_with_dash arg) || list_eq arg (codes "-")

-- one flag, whose name and inline value are read off the argument
abbrev pub scan_flag : RawArgs → Text × Option Text → List Text → Result CliError Step
scan_flag raw (name, inline) rest = apply_flag (flag_in flag_names name) raw name inline rest

-- The loop. Each round takes an argument at least, so the number of the arguments is fuel enough.
unfoldable pub scan_args : ℕ → Bool → RawArgs → List Text → Result CliError ParseOutcome
scan_args fuel no_more_flags raw [] = ok (outcome_of raw)
scan_args zero no_more_flags raw (arg ∷ rest) = err out_of_fuel
scan_args (suc fuel) no_more_flags raw (arg ∷ rest) = do
  reject_if (refuses no_more_flags arg) (unexpected_positional arg)
  elim (list_eq arg (codes "--")) [
    | true ↦ scan_args fuel true raw rest
    | false ↦ do
      step ← scan_flag raw (name_and_inline arg) rest
      elim step [
        | next raw rest ↦ scan_args fuel no_more_flags raw rest
        | stop outcome ↦ ok outcome
      ]
  ]

unfoldable pub parse_args : List Text → Result CliError ParseOutcome
parse_args args = scan_args (length args) false default_args args
