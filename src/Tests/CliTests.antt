-- ===== src/Tests/CliTests.antt =====
-- The command line at concrete arguments.
use gust.Prelude.{
  some, false, negsuc, ◌≡◌, ◌≢◌, refl, true, List, [], ◌∷◌, ◌++◌, ok, err, list_eq, arith,
}
use gust.Text.{Text, codes, cut, trim_start_matches, to_ascii_lowercase}
use gust.Cli.{
  RawArgs, default_args, out_of_fuel, run, parse_args, scan_args, name_and_inline, split_inline,
  flag_in, apply_flag, take_value, parse_bool, outcome_of,
}
use gust.Cli.Scan.{parse_args-terminates}
use gust.Cli.Print.{Fits, print_args}
use gust.Cli.Print.RoundTrip.{parse_args-print_args}
use gust.Cli.Forms.{scan, dashed, IsFlagName, inline_value-next_value}

abbrev arguments : List Text
arguments = codes "-L" ∷ codes "tcp://:1/a:2" ∷ codes "--nat=off" ∷ codes "-D" ∷ []

parse_args-run :
    parse_args arguments
    ≡ ok (run (record default_args { listens = codes "tcp://:1/a:2" ∷ []; debug = true }))
unfolding parse_args scan_args name_and_inline split_inline flag_in apply_flag take_value parse_bool
    outcome_of list_eq cut trim_start_matches to_ascii_lowercase
parse_args-run = refl

parse_args-terminates_example : parse_args arguments ≢ err out_of_fuel
parse_args-terminates_example = parse_args-terminates arguments

f-IsFlagName : IsFlagName (codes "F")
f-IsFlagName = record { ne_nil = λ q. cc; no_dash = refl; no_eq = ground arith }

inline_value-next_value_example :
    scan default_args (dashed 0 (codes "F" ++ b'=' ∷ codes "a=b") ∷ arguments)
    ≡ scan default_args (dashed 1 (codes "F") ∷ codes "a=b" ∷ arguments)
unfolding flag_in list_eq
inline_value-next_value_example =
    inline_value-next_value default_args 0 1 (codes "F") (codes "a=b") arguments f-IsFlagName refl

abbrev wanted : RawArgs
wanted = record default_args {
  listens = codes "tcp://:1/a:2" ∷ codes "-x" ∷ [];
  forwards = codes "socks5://b:3" ∷ [];
  mark = some (negsuc 4);
  buf_size_kb = some 64;
  nodelay = some false;
  debug = true;
}

wanted-Fits : Fits wanted
wanted-Fits = record {
  mark_fits = omega arith;
  buf_fits = omega arith;
  heartbeat_fits = tt;
  workers_fit = tt;
  rcvbuf_fits = tt;
  sndbuf_fits = tt;
}

parse_args-print_args_example : parse_args (print_args wanted) ≡ ok (run wanted)
parse_args-print_args_example = parse_args-print_args wanted wanted-Fits

-- Three dashes are stripped as well as one or two.
three_dashes : parse_args (codes "---nat" ∷ []) ≡ ok (run (record default_args { nat = true }))
unfolding parse_args scan_args name_and_inline split_inline flag_in apply_flag parse_bool outcome_of
    list_eq cut trim_start_matches
three_dashes = refl
