-- ===== src/Cli/Scan.antt =====
-- The loop of `parse_args` of src/cli.rs ends: each round takes an argument.
use gust.Prelude.{
  ℕ, zero, suc, ◌≤◌, ◌≡◌, ◌≢◌, refl, ◌∙◌, sym, Bool, true, false, List, [], ◌∷◌, ◌++◌, Option, none,
  some, Result, ok, err, ◌>>=◌, ok_or, list_eq, length, inl, inr, Bool-cases, if◌then◌else◌, arith,
}
use gust.Text.{Text, codes}
use gust.Cli.{
  RawArgs, CliError, out_of_fuel, ParseOutcome, Step, next, stop, Flag, flag_l, flag_f, flag_m,
  buf_size_kb, heartbeat_secs, worker_threads, so_rcvbuf, so_sndbuf, nodelay, nat, set_ip_forward,
  nat_cleanup, debug, help, version, unknown, take_value, parse_number, parse_bool, parse_i64,
  bad_number, apply_flag, refuses, scan_flag, name_and_inline, flag_in, flag_names, scan_args,
  parse_args, default_args, unexpected_positional, outcome_of,
}

-- A round that goes on leaves no more arguments than it got, and none runs out of fuel.
abbrev pub Shrinks : List Text → Result CliError Step → Type 0
Shrinks rest (ok (next raw r)) = length r ≤ length rest
Shrinks rest (ok (stop o)) = Unit
Shrinks rest (err e) = e ≢ out_of_fuel

abbrev NoFuelError {ℓ} : {A : Type ℓ} → Result CliError A → Type 0
NoFuelError (ok a) = Unit
NoFuelError (err e) = e ≢ out_of_fuel

ok_or-NoFuelError {ℓ} :
    {A : Type ℓ} (o : Option A) (e : CliError) → e ≢ out_of_fuel → NoFuelError (ok_or o e)
ok_or-NoFuelError none e n = n
ok_or-NoFuelError (some a) e n = tt

parse_bool-NoFuelError : (name : Text) (inline : Option Text) → NoFuelError (parse_bool name inline)
unfolding parse_bool
parse_bool-NoFuelError name none = tt
parse_bool-NoFuelError name (some v) = ground arith

parse_number-NoFuelError : (name v : Text) → NoFuelError (parse_number name v)
unfolding parse_number
parse_number-NoFuelError name v = ok_or-NoFuelError _ (bad_number name v) (λ q. cc)

module _ {A : Type 0} (f : A → RawArgs) where
  after_value-Shrinks :
      (rest r : List Text) (m : Result CliError A)
      → length r ≤ length rest
      → NoFuelError m
      → Shrinks rest (m >>= λ a. ok (next (f a) r))
  after_value-Shrinks rest r (ok a) l n = l
  after_value-Shrinks rest r (err e) l n = n

  value-Shrinks :
      (m : Text → Result CliError A)
      → ((v : Text) → NoFuelError (m v))
      → (name : Text) (inline : Option Text) (rest : List Text)
      → Shrinks rest (take_value name inline rest >>= λ (v, r). m v >>= λ a. ok (next (f a) r))
  unfolding take_value
  value-Shrinks m n name (some v) rest = after_value-Shrinks rest rest (m v) (omega arith) (n v)
  value-Shrinks m n name none [] = λ q. cc
  value-Shrinks m n name none (v ∷ rest) =
      after_value-Shrinks (v ∷ rest) rest (m v) (omega arith) (n v)

  bool-Shrinks :
      (rest : List Text) (m : Result CliError A)
      → NoFuelError m
      → Shrinks rest (m >>= λ a. ok (next (f a) rest))
  bool-Shrinks rest m n = after_value-Shrinks rest rest m (omega arith) n

apply_flag-Shrinks :
    (fl : Flag) (raw : RawArgs) (name : Text) (inline : Option Text) (rest : List Text)
    → Shrinks rest (apply_flag fl raw name inline rest)
unfolding apply_flag
apply_flag-Shrinks flag_l raw name inline rest =
    value-Shrinks (λ a. record raw { listens = raw.listens ++ a ∷ [] }) ok (λ _. tt) name inline
      rest
apply_flag-Shrinks flag_f raw name inline rest =
    value-Shrinks (λ a. record raw { forwards = raw.forwards ++ a ∷ [] }) ok (λ _. tt) name inline
      rest
apply_flag-Shrinks flag_m raw name inline rest =
    value-Shrinks (λ a. record raw { mark = some a }) (λ v. ok_or (parse_i64 v) (bad_number name v))
      (λ v. ok_or-NoFuelError (parse_i64 v) (bad_number name v) (λ q. cc)) name inline rest
apply_flag-Shrinks buf_size_kb raw name inline rest =
    value-Shrinks (λ a. record raw { buf_size_kb = some a }) (parse_number name)
      (parse_number-NoFuelError name) name inline rest
apply_flag-Shrinks heartbeat_secs raw name inline rest =
    value-Shrinks (λ a. record raw { heartbeat_secs = some a }) (parse_number name)
      (parse_number-NoFuelError name) name inline rest
apply_flag-Shrinks worker_threads raw name inline rest =
    value-Shrinks (λ a. record raw { worker_threads = some a }) (parse_number name)
      (parse_number-NoFuelError name) name inline rest
apply_flag-Shrinks so_rcvbuf raw name inline rest =
    value-Shrinks (λ a. record raw { so_rcvbuf = some a }) (parse_number name)
      (parse_number-NoFuelError name) name inline rest
apply_flag-Shrinks so_sndbuf raw name inline rest =
    value-Shrinks (λ a. record raw { so_sndbuf = some a }) (parse_number name)
      (parse_number-NoFuelError name) name inline rest
apply_flag-Shrinks nodelay raw name inline rest =
    bool-Shrinks (λ a. record raw { nodelay = some a }) rest (parse_bool name inline)
      (parse_bool-NoFuelError name inline)
apply_flag-Shrinks nat raw name inline rest =
    bool-Shrinks (λ a. record raw { nat = a }) rest (parse_bool name inline)
      (parse_bool-NoFuelError name inline)
apply_flag-Shrinks set_ip_forward raw name inline rest =
    bool-Shrinks (λ a. record raw { set_ip_forward = a }) rest (parse_bool name inline)
      (parse_bool-NoFuelError name inline)
apply_flag-Shrinks nat_cleanup raw name inline rest =
    bool-Shrinks (λ a. record raw { nat_cleanup = a }) rest (parse_bool name inline)
      (parse_bool-NoFuelError name inline)
apply_flag-Shrinks debug raw name inline rest =
    bool-Shrinks (λ a. record raw { debug = a }) rest (parse_bool name inline)
      (parse_bool-NoFuelError name inline)
apply_flag-Shrinks help raw name inline rest = tt
apply_flag-Shrinks version raw name inline rest = tt
apply_flag-Shrinks unknown raw name inline rest = λ q. cc

pub scan_flag-Shrinks :
    (raw : RawArgs) (flag : Text × Option Text) (rest : List Text)
    → Shrinks rest (scan_flag raw flag rest)
scan_flag-Shrinks raw (name, inline) rest =
    apply_flag-Shrinks (flag_in flag_names name) raw name inline rest

-- the rest of the loop behind one round
abbrev pub after_step :
    (RawArgs → List Text → Result CliError ParseOutcome)
    → Result CliError Step
    → Result CliError ParseOutcome
after_step go (ok (next raw rest)) = go raw rest
after_step go (ok (stop o)) = ok o
after_step go (err e) = err e

-- One round, with the rest of the loop as a function.
abbrev pub round :
    (Bool → RawArgs → List Text → Result CliError ParseOutcome)
    → Bool
    → RawArgs
    → Text
    → List Text
    → Result CliError ParseOutcome
round go b raw arg rest =
    if refuses b arg
    then err (unexpected_positional arg)
    else if list_eq arg (codes "--")
    then go true raw rest
    else after_step (go b) (scan_flag raw (name_and_inline arg) rest)

after_step_lem :
    (go : RawArgs → List Text → Result CliError ParseOutcome) (m : Result CliError Step)
    → (m >>= λ step. elim step [ next raw rest ↦ go raw rest | stop o ↦ ok o ]) ≡ after_step go m
after_step_lem go (ok (next raw rest)) = refl
after_step_lem go (ok (stop o)) = refl
after_step_lem go (err e) = refl

pub scan_args-nil :
    (fuel : ℕ) (b : Bool) (raw : RawArgs) → scan_args fuel b raw [] ≡ ok (outcome_of raw)
unfolding scan_args
scan_args-nil zero b raw = refl
scan_args-nil (suc fuel) b raw = refl

pub scan_args-suc :
    (fuel : ℕ) (b : Bool) (raw : RawArgs) (arg : Text) (rest : List Text)
    → scan_args (suc fuel) b raw (arg ∷ rest) ≡ round (scan_args fuel) b raw arg rest
unfolding scan_args
scan_args-suc fuel b raw arg rest = elim (Bool-cases (refuses b arg)) [
  | inl e ↦ rw e refl
  | inr e ↦ elim (Bool-cases (list_eq arg (codes "--"))) [
    | inl f ↦ rw (e, f) refl
    | inr f ↦
        rw (e, f) (after_step_lem (scan_args fuel b) (scan_flag raw (name_and_inline arg) rest))
  ]
]

module _ (go went : Bool → RawArgs → List Text → Result CliError ParseOutcome) where
  pub after_step-agree :
      (b : Bool) (rest : List Text) (m : Result CliError Step)
      → Shrinks rest m
      → ((raw : RawArgs) (r : List Text) → length r ≤ length rest → go b raw r ≡ went b raw r)
      → after_step (go b) m ≡ after_step (went b) m
  after_step-agree b rest (ok (next raw r)) l h = h raw r l
  after_step-agree b rest (ok (stop o)) l h = refl
  after_step-agree b rest (err e) l h = refl

  round-agree :
      (b : Bool) (raw : RawArgs) (arg : Text) (rest : List Text)
      → ((b : Bool) (raw : RawArgs) (r : List Text)
          → length r ≤ length rest
          → go b raw r ≡ went b raw r)
      → round go b raw arg rest ≡ round went b raw arg rest
  round-agree b raw arg rest h = elim (Bool-cases (refuses b arg)) [
    | inl e ↦ rw e refl
    | inr e ↦ elim (Bool-cases (list_eq arg (codes "--"))) [
      | inl f ↦ rw (e, f) (h true raw rest (omega arith))
      | inr f ↦
          rw (e, f)
            (after_step-agree b rest (scan_flag raw (name_and_inline arg) rest)
              (scan_flag-Shrinks raw (name_and_inline arg) rest) (h b))
    ]
  ]

-- Any fuel from the number of the arguments on gives the same result.
pub scan_args-fuel :
    (f g : ℕ) (b : Bool) (raw : RawArgs) (args : List Text)
    → length args ≤ f
    → length args ≤ g
    → scan_args f b raw args ≡ scan_args g b raw args
scan_args-fuel f g b raw [] p q = scan_args-nil f b raw ∙ sym (scan_args-nil g b raw)
scan_args-fuel zero g b raw (arg ∷ rest) p q = absurd (omega arith)
scan_args-fuel (suc f) zero b raw (arg ∷ rest) p q = absurd (omega arith)
scan_args-fuel (suc f) (suc g) b raw (arg ∷ rest) p q =
    scan_args-suc f b raw arg rest
    ∙ (round-agree (scan_args f) (scan_args g) b raw arg rest
          (λ b raw r l. scan_args-fuel f g b raw r (omega arith) (omega arith))
        ∙ sym (scan_args-suc g b raw arg rest))

after_step-NoFuelError :
    (go : RawArgs → List Text → Result CliError ParseOutcome) (rest : List Text)
    (m : Result CliError Step)
    → Shrinks rest m
    → ((raw : RawArgs) (r : List Text) → length r ≤ length rest → go raw r ≢ err out_of_fuel)
    → after_step go m ≢ err out_of_fuel
after_step-NoFuelError go rest (ok (next raw r)) l h = h raw r l
after_step-NoFuelError go rest (ok (stop o)) l h = λ q. cc
after_step-NoFuelError go rest (err e) l h = λ q. l (cc)

scan_args-NoFuelError :
    (fuel : ℕ) (b : Bool) (raw : RawArgs) (args : List Text)
    → length args ≤ fuel
    → scan_args fuel b raw args ≢ err out_of_fuel
scan_args-NoFuelError fuel b raw [] p = λ q. absurd (cc (scan_args-nil fuel b raw))
scan_args-NoFuelError zero b raw (arg ∷ rest) p = absurd (omega arith)
scan_args-NoFuelError (suc fuel) b raw (arg ∷ rest) p =
    rw (scan_args-suc fuel b raw arg rest) (elim (Bool-cases (refuses b arg)) [
      | inl e ↦ rw e (λ q. absurd (cc))
      | inr e ↦ elim (Bool-cases (list_eq arg (codes "--"))) [
        | inl f ↦ rw (e, f) (scan_args-NoFuelError fuel true raw rest (omega arith))
        | inr f ↦
            rw (e, f)
              (after_step-NoFuelError (scan_args fuel b) rest
                (scan_flag raw (name_and_inline arg) rest)
                (scan_flag-Shrinks raw (name_and_inline arg) rest)
                (λ raw r l. scan_args-NoFuelError fuel b raw r (omega arith)))
      ]
    ])

-- The scan of the arguments ends by itself: the number of the arguments bounds the rounds of its
-- loop, so the model's fuel never runs out.
pub parse_args-terminates : (args : List Text) → parse_args args ≢ err out_of_fuel
unfolding parse_args
parse_args-terminates args =
    scan_args-NoFuelError (length args) false default_args args (omega arith)
