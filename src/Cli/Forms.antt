-- ===== src/Cli/Forms.antt =====
-- One round of the scan of src/cli.rs, and the two forms of a flag's value.
use gust.Prelude.{
  ℕ, zero, suc, ◌≡◌, ◌≢◌, refl, ap, ◌∙◌, sym, Bool, true, false, List, [], ◌∷◌, ◌++◌, none, some,
  Result, err, list_eq, list_eq_sound, length, replicate, Lacks, inl, inr, Bool-cases, ◌==◌, arith,
}
use gust.Text.{Text, codes, trim_start_matches}
use gust.Text.Trim.{NoStart, trim_start_id}
use gust.Text.Cut.{cut-append, cut-Lacks}
use gust.Cli.{
  RawArgs, CliError, ParseOutcome, Flag, flag_l, flag_f, flag_m, buf_size_kb, heartbeat_secs,
  worker_threads, so_rcvbuf, so_sndbuf, take_value, apply_flag, refuses, scan_flag, name_and_inline,
  split_inline, at_inline, flag_in, flag_names, scan_args, unknown, unknown_flag,
}
use gust.Cli.Scan.{scan_args-suc, after_step, after_step-agree, scan_flag-Shrinks, scan_args-fuel}

-- the loop at these arguments, before a `--`
abbrev pub scan : RawArgs → List Text → Result CliError ParseOutcome
scan raw args = scan_args (length args) false raw args

-- A flag, and not a lone dash or two.
pub record IsFlagArg (arg : Text) : Type 0 where
  pub not_refused : refuses false arg ≡ false
  pub not_end : list_eq arg (codes "--") ≡ false

pub scan_cons :
    (raw : RawArgs) (arg : Text) (rest : List Text)
    → IsFlagArg arg
    → scan raw (arg ∷ rest) ≡ after_step scan (scan_flag raw (name_and_inline arg) rest)
scan_cons raw arg rest v =
    scan_args-suc (length rest) false raw arg rest
    ∙ rw (v.not_refused, v.not_end)
        (after_step-agree (scan_args (length rest)) (λ b raw r. scan_args (length r) b raw r) false
          rest (scan_flag raw (name_and_inline arg) rest)
          (scan_flag-Shrinks raw (name_and_inline arg) rest)
          (λ raw r l. scan_args-fuel (length rest) (length r) false raw r l (omega arith)))

abbrev is_dash : ℕ → Bool
is_dash c = c == b'-'

-- one dash or more before a name
abbrev pub dashed : ℕ → Text → Text
dashed n name = b'-' ∷ (replicate n b'-' ++ name)

-- What can name a flag.
pub record IsFlagName (name : Text) : Type 0 where
  pub ne_nil : name ≢ []
  pub no_dash : NoStart is_dash name
  pub no_eq : Lacks b'=' name

trim_replicate :
    (n : ℕ) (s : Text) → NoStart is_dash s → trim_start_matches is_dash (replicate n b'-' ++ s) ≡ s
unfolding trim_start_matches
trim_replicate zero s h = trim_start_id is_dash s h
trim_replicate (suc n) s h = trim_replicate n s h

trim_dashed : (n : ℕ) (s : Text) → NoStart is_dash s → trim_start_matches is_dash (dashed n s) ≡ s
unfolding trim_start_matches
trim_dashed n s h = trim_replicate n s h

dashed-ne : (n k : ℕ) (s : Text) → s ≢ [] → NoStart is_dash s → dashed n s ≢ dashed k []
dashed-ne n k s h v e =
    h (sym (trim_dashed n s v) ∙ (ap (trim_start_matches is_dash) e ∙ trim_dashed k [] tt))

list_eq_ne : (s t : Text) → s ≢ t → list_eq s t ≡ false
list_eq_ne s t n = elim (Bool-cases (list_eq s t)) [
  | inl e ↦ absurd (n (list_eq_sound s t e))
  | inr e ↦ e
]

dashed-IsFlagArg : (n : ℕ) (s : Text) → s ≢ [] → NoStart is_dash s → IsFlagArg (dashed n s)
dashed-IsFlagArg n s h v = record {
  not_refused = list_eq_ne (dashed n s) (codes "-") (dashed-ne n 0 s h v);
  not_end = list_eq_ne (dashed n s) (codes "--") (dashed-ne n 1 s h v);
}

NoStart-append : (s t : Text) → s ≢ [] → NoStart is_dash s → NoStart is_dash (s ++ t)
NoStart-append [] t h v = absurd (h refl)
NoStart-append (c ∷ s) t h v = v

append-ne-nil : (s t : Text) → s ≢ [] → s ++ t ≢ []
append-ne-nil [] t h e = h refl
append-ne-nil (c ∷ s) t h e = cc

inline_of :
    (n : ℕ) (name v : Text)
    → IsFlagName name
    → name_and_inline (dashed n (name ++ b'=' ∷ v)) ≡ (name, some v)
unfolding name_and_inline split_inline
inline_of n name v h =
    ap split_inline
      (trim_dashed n (name ++ b'=' ∷ v) (NoStart-append name (b'=' ∷ v) h.ne_nil h.no_dash))
    ∙ ap (at_inline (name ++ b'=' ∷ v)) (cut-append b'=' name v h.no_eq)

no_inline_of :
    (n : ℕ) (name : Text) → IsFlagName name → name_and_inline (dashed n name) ≡ (name, none)
unfolding name_and_inline split_inline
no_inline_of n name h =
    ap split_inline (trim_dashed n name h.no_dash)
    ∙ ap (at_inline name) (cut-Lacks b'=' name h.no_eq)

abbrev pub takes_value : Flag → Bool
takes_value flag_l = true
takes_value flag_f = true
takes_value flag_m = true
takes_value buf_size_kb = true
takes_value heartbeat_secs = true
takes_value worker_threads = true
takes_value so_rcvbuf = true
takes_value so_sndbuf = true
takes_value _ = false

apply_flag-forms :
    (f : Flag) (raw : RawArgs) (name v : Text) (rest : List Text)
    → takes_value f ≡ true
    → apply_flag f raw name (some v) rest ≡ apply_flag f raw name none (v ∷ rest)
unfolding apply_flag take_value
apply_flag-forms flag_l raw name v rest h = refl
apply_flag-forms flag_f raw name v rest h = refl
apply_flag-forms flag_m raw name v rest h = refl
apply_flag-forms buf_size_kb raw name v rest h = refl
apply_flag-forms heartbeat_secs raw name v rest h = refl
apply_flag-forms worker_threads raw name v rest h = refl
apply_flag-forms so_rcvbuf raw name v rest h = refl
apply_flag-forms so_sndbuf raw name v rest h = refl
apply_flag-forms _ raw name v rest h = absurd (cc)

module _ (raw : RawArgs) (n : ℕ) (name : Text) (h : IsFlagName name) (rest : List Text) where
  pub scan_inline :
      (v : Text)
      → scan raw (dashed n (name ++ b'=' ∷ v) ∷ rest)
        ≡ after_step scan (scan_flag raw (name, some v) rest)
  scan_inline v =
      let s = name ++ b'=' ∷ v in
      scan_cons raw (dashed n s) rest (
        dashed-IsFlagArg n s (append-ne-nil name (b'=' ∷ v) h.ne_nil)
          (NoStart-append name (b'=' ∷ v) h.ne_nil h.no_dash))
      ∙ ap (λ p. after_step scan (scan_flag raw p rest)) (inline_of n name v h)

  pub scan_plain :
      scan raw (dashed n name ∷ rest) ≡ after_step scan (scan_flag raw (name, none) rest)
  scan_plain =
      scan_cons raw (dashed n name) rest (dashed-IsFlagArg n name h.ne_nil h.no_dash)
      ∙ ap (λ p. after_step scan (scan_flag raw p rest)) (no_inline_of n name h)

-- Wherever the scan stands, a flag that takes a value does the same with the value behind the
-- first `=` of its own argument as with the value in the next argument, whatever the value holds
-- and whatever the numbers of leading dashes are.
pub inline_value-next_value :
    (raw : RawArgs) (n k : ℕ) (name v : Text) (rest : List Text)
    → IsFlagName name
    → takes_value (flag_in flag_names name) ≡ true
    → scan raw (dashed n (name ++ b'=' ∷ v) ∷ rest) ≡ scan raw (dashed k name ∷ v ∷ rest)
inline_value-next_value raw n k name v rest h t =
    scan_inline raw n name h rest v
    ∙ (ap (after_step scan) (apply_flag-forms (flag_in flag_names name) raw name v rest t)
        ∙ sym (scan_plain raw k name h (v ∷ rest)))

-- A flag whose name is not in the table is refused, with an inline value or
-- without one, and the error names it.
pub unknown-fails :
    (raw : RawArgs) (n : ℕ) (name v : Text) (rest : List Text)
    → IsFlagName name
    → flag_in flag_names name ≡ unknown
    → (scan raw (dashed n name ∷ rest) ≡ err (unknown_flag name))
      × (scan raw (dashed n (name ++ b'=' ∷ v) ∷ rest) ≡ err (unknown_flag name))
unfolding apply_flag
unknown-fails raw n name v rest h u =
    (scan_plain raw n name h rest ∙ rw u refl, scan_inline raw n name h rest v ∙ rw u refl)
