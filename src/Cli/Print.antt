-- ===== src/Cli/Print.antt =====
-- The command line that asks for given flags, and its scan by `parse_args` of src/cli.rs.
pub mod RoundTrip
use gust.Prelude.{
  ℕ, zero, suc, ◌+◌, ◌-◌, ◌^◌, ◌≤◌, ◌≡◌, ◌≢◌, refl, sym, ap, ◌∙◌, ℤ, pos, negsuc, Bool, true, false,
  List, [], ◌∷◌, ◌++◌, append_assoc, append-nil, Option, none, some, Result, ok, err, length, All,
  arith, list_eq,
}
use gust.Text.{Text, codes, to_ascii_lowercase}
use gust.Text.Number.{show, parse_unsigned, scan_some, max_u64}
use gust.Text.Number.Laws.{IsDigit, show-IsDigit, show-ne-nil, parse_unsigned-show}
use gust.Cli.{
  RawArgs, default_args, ParseOutcome, run, Step, next, CliError, max_i64, parse_i64, pos_option,
  negated_option, parse_bool, parse_number, take_value, apply_flag, flag_in, flag_names, outcome_of,
  scan_args, parse_args,
}
use gust.Cli.Scan.{after_step, scan_args-nil}
use gust.Cli.Forms.{scan, dashed, IsFlagName, scan_plain, scan_inline}

-- each text behind a flag of its own
abbrev pub print_texts : Text → List Text → List Text → List Text
print_texts name [] rest = rest
print_texts name (v ∷ vs) rest = dashed 0 name ∷ v ∷ print_texts name vs rest

abbrev pub print_number : Text → Option ℕ → List Text → List Text
print_number name none rest = rest
print_number name (some n) rest = dashed 1 name ∷ show n ∷ rest

abbrev pub integer_text : ℤ → Text
integer_text (pos n) = show n
integer_text (negsuc n) = b'-' ∷ show (suc n)

abbrev pub print_integer : Text → Option ℤ → List Text → List Text
print_integer name none rest = rest
print_integer name (some m) rest = dashed 0 name ∷ integer_text m ∷ rest

abbrev pub bool_text : Bool → Text
bool_text true = codes "true"
bool_text false = codes "false"

abbrev pub print_bool : Text → Bool → List Text → List Text
print_bool name b rest = dashed 1 (name ++ b'=' ∷ bool_text b) ∷ rest

abbrev pub print_option_bool : Text → Option Bool → List Text → List Text
print_option_bool name none rest = rest
print_option_bool name (some b) rest = print_bool name b rest

-- the arguments that ask for the flags
unfoldable pub print_args : RawArgs → List Text
print_args raw = print_texts (codes "L") raw.listens (
    print_texts (codes "F") raw.forwards (
      print_integer (codes "M") raw.mark (
        print_number (codes "buf-size-kb") raw.buf_size_kb (
          print_number (codes "heartbeat-secs") raw.heartbeat_secs (
            print_number (codes "worker-threads") raw.worker_threads (
              print_number (codes "so-rcvbuf") raw.so_rcvbuf (
                print_number (codes "so-sndbuf") raw.so_sndbuf (
                  print_option_bool (codes "nodelay") raw.nodelay (
                    print_bool (codes "nat") raw.nat (
                      print_bool (codes "set-ip-forward") raw.set_ip_forward (
                        print_bool (codes "nat-cleanup") raw.nat_cleanup
                          (print_bool (codes "debug") raw.debug []))))))))))))

abbrev pub FitsU64 : Option ℕ → Type 0
FitsU64 none = Unit {0}
FitsU64 (some n) = n ≤ max_u64

abbrev pub FitsI64 : Option ℤ → Type 0
FitsI64 none = Unit {0}
FitsI64 (some (pos n)) = n ≤ max_i64
FitsI64 (some (negsuc n)) = suc n ≤ 2 ^ 63

-- The numbers fit their types.
pub record Fits (raw : RawArgs) : Type 0 where
  pub mark_fits : FitsI64 raw.mark
  pub buf_fits : FitsU64 raw.buf_size_kb
  pub heartbeat_fits : FitsU64 raw.heartbeat_secs
  pub workers_fit : FitsU64 raw.worker_threads
  pub rcvbuf_fits : FitsU64 raw.so_rcvbuf
  pub sndbuf_fits : FitsU64 raw.so_sndbuf

digits-parse_i64 :
    (t : Text) → t ≢ [] → All IsDigit t → parse_i64 t ≡ pos_option (parse_unsigned max_i64 t)
unfolding parse_i64
digits-parse_i64 [] n h = absurd (n refl)
digits-parse_i64 (c ∷ s) n (h, hs) = ground arith

digits-scan_some :
    (limit : ℕ) (t : Text) → t ≢ [] → All IsDigit t → scan_some limit t ≡ parse_unsigned limit t
unfolding parse_unsigned
digits-scan_some limit [] n h = absurd (n refl)
digits-scan_some limit (c ∷ s) n (h, hs) = ground arith

pub parse_i64-integer_text : (m : ℤ) → FitsI64 (some m) → parse_i64 (integer_text m) ≡ some m
unfolding parse_i64
parse_i64-integer_text (pos n) h =
    digits-parse_i64 (show n) (show-ne-nil n) (show-IsDigit n)
    ∙ ap pos_option (parse_unsigned-show max_i64 n h)
parse_i64-integer_text (negsuc n) h = ap negated_option (
    digits-scan_some (2 ^ 63) (show (suc n)) (show-ne-nil (suc n)) (show-IsDigit (suc n))
    ∙ parse_unsigned-show (2 ^ 63) (suc n) h)

pub parse_bool-bool_text : (name : Text) (b : Bool) → parse_bool name (some (bool_text b)) ≡ ok b
unfolding parse_bool to_ascii_lowercase list_eq
parse_bool-bool_text name true = refl
parse_bool-bool_text name false = refl

-- A flag with its value in the next argument sets a field.
abbrev pub Sets {ℓ} : {A : Type ℓ} → Text → Text → (A → RawArgs) → A → A → Type 0
Sets name v set a b =
    (rest : List Text)
    → apply_flag (flag_in flag_names name) (set a) name none (v ∷ rest) ≡ ok (next (set b) rest)

module _ (name : Text) (is_name : IsFlagName name) where
  scan_value {ℓ} :
      {A : Type ℓ} (v : Text) (set : A → RawArgs) (a b : A) (rest : List Text) (k : ℕ)
      → Sets name v set a b
      → scan (set a) (dashed k name ∷ v ∷ rest) ≡ scan (set b) rest
  scan_value v set a b rest k e =
      scan_plain (set a) k name is_name (v ∷ rest) ∙ ap (after_step scan) (e rest)

  pub scan_texts :
      (set : List Text → RawArgs) (vs seen rest : List Text)
      → ((seen : List Text) (v : Text) → Sets name v set seen (seen ++ v ∷ []))
      → scan (set seen) (print_texts name vs rest) ≡ scan (set (seen ++ vs)) rest
  scan_texts set [] seen rest e = ap (λ l. scan (set l) rest) (sym (append-nil seen))
  scan_texts set (v ∷ vs) seen rest e =
      scan_value v set seen (seen ++ v ∷ []) (print_texts name vs rest) 0 (e seen v)
      ∙ (scan_texts set vs (seen ++ v ∷ []) rest e
          ∙ ap (λ l. scan (set l) rest) (append_assoc seen (v ∷ []) vs))

  pub scan_number :
      (set : Option ℕ → RawArgs) (o : Option ℕ) (rest : List Text)
      → ((n : ℕ) → n ≤ max_u64 → Sets name (show n) set none (some n))
      → FitsU64 o
      → scan (set none) (print_number name o rest) ≡ scan (set o) rest
  scan_number set none rest e h = refl
  scan_number set (some n) rest e h = scan_value (show n) set none (some n) rest 1 (e n h)

  pub scan_integer :
      (set : Option ℤ → RawArgs) (o : Option ℤ) (rest : List Text)
      → ((m : ℤ) → FitsI64 (some m) → Sets name (integer_text m) set none (some m))
      → FitsI64 o
      → scan (set none) (print_integer name o rest) ≡ scan (set o) rest
  scan_integer set none rest e h = refl
  scan_integer set (some m) rest e h = scan_value (integer_text m) set none (some m) rest 0 (e m h)

  pub scan_bool {ℓ} :
      {A : Type ℓ} (set : A → RawArgs) (a b : A) (v : Bool) (rest : List Text)
      → (apply_flag (flag_in flag_names name) (set a) name (some (bool_text v)) rest
          ≡ ok (next (set b) rest))
      → scan (set a) (print_bool name v rest) ≡ scan (set b) rest
  scan_bool set a b v rest e =
      scan_inline (set a) 1 name is_name rest (bool_text v) ∙ ap (after_step scan) e
