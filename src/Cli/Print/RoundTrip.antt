-- ===== src/Cli/Print/RoundTrip.antt =====
-- The scan of a printed command line, flag by flag.
use gust.Prelude.{
  ℕ, ℤ, ◌≡◌, ◌≢◌, Lacks, refl, ◌∙◌, Bool, false, List, [], ◌∷◌, Option, none, some, ok, list_eq,
  arith,
}
use gust.Text.{Text, codes}
use gust.Text.Number.{max_u64}
use gust.Text.Number.Laws.{parse_unsigned-show}
use gust.Cli.{
  RawArgs, default_args, run, parse_args, apply_flag, take_value, parse_number, flag_in, outcome_of,
}
use gust.Cli.Scan.{scan_args-nil}
use gust.Cli.Forms.{scan, IsFlagName}
use gust.Cli.Print.{
  print_texts, print_number, print_integer, print_bool, print_option_bool, print_args, Fits,
  scan_texts, scan_number, scan_integer, scan_bool, parse_i64-integer_text, parse_bool-bool_text,
}

is_name : (c : ℕ) (s : Text) → c ≢ b'-' → Lacks b'=' (c ∷ s) → IsFlagName (c ∷ s)
is_name c s n h = record { ne_nil = λ q. cc; no_dash = ground arith; no_eq = h }

-- the flags up to one of them, and that one
abbrev with_listens : RawArgs → List Text → RawArgs
with_listens raw x = record default_args { listens = x }

abbrev with_forwards : RawArgs → List Text → RawArgs
with_forwards raw x = record (with_listens raw raw.listens) { forwards = x }

abbrev with_mark : RawArgs → Option ℤ → RawArgs
with_mark raw x = record (with_forwards raw raw.forwards) { mark = x }

abbrev with_buf_size_kb : RawArgs → Option ℕ → RawArgs
with_buf_size_kb raw x = record (with_mark raw raw.mark) { buf_size_kb = x }

abbrev with_heartbeat_secs : RawArgs → Option ℕ → RawArgs
with_heartbeat_secs raw x = record (with_buf_size_kb raw raw.buf_size_kb) { heartbeat_secs = x }

abbrev with_worker_threads : RawArgs → Option ℕ → RawArgs
with_worker_threads raw x = record (with_heartbeat_secs raw raw.heartbeat_secs) {
  worker_threads = x;
}

abbrev with_so_rcvbuf : RawArgs → Option ℕ → RawArgs
with_so_rcvbuf raw x = record (with_worker_threads raw raw.worker_threads) { so_rcvbuf = x }

abbrev with_so_sndbuf : RawArgs → Option ℕ → RawArgs
with_so_sndbuf raw x = record (with_so_rcvbuf raw raw.so_rcvbuf) { so_sndbuf = x }

abbrev with_nodelay : RawArgs → Option Bool → RawArgs
with_nodelay raw x = record (with_so_sndbuf raw raw.so_sndbuf) { nodelay = x }

abbrev with_nat : RawArgs → Bool → RawArgs
with_nat raw x = record (with_nodelay raw raw.nodelay) { nat = x }

abbrev with_set_ip_forward : RawArgs → Bool → RawArgs
with_set_ip_forward raw x = record (with_nat raw raw.nat) { set_ip_forward = x }

abbrev with_nat_cleanup : RawArgs → Bool → RawArgs
with_nat_cleanup raw x = record (with_set_ip_forward raw raw.set_ip_forward) { nat_cleanup = x }

abbrev with_debug : RawArgs → Bool → RawArgs
with_debug raw x = record (with_nat_cleanup raw raw.nat_cleanup) { debug = x }

module _ (raw : RawArgs) (fits : Fits raw) where
  listens_scanned :
      (rest : List Text)
      → scan ((with_listens raw) []) (print_texts (codes "L") raw.listens rest)
        ≡ scan ((with_listens raw) raw.listens) rest
  unfolding apply_flag take_value flag_in list_eq
  listens_scanned rest =
      scan_texts (codes "L") (is_name _ _ (ground arith) (ground arith)) (with_listens raw)
        raw.listens [] rest (λ seen v rest. refl)

  forwards_scanned :
      (rest : List Text)
      → scan ((with_forwards raw) []) (print_texts (codes "F") raw.forwards rest)
        ≡ scan ((with_forwards raw) raw.forwards) rest
  unfolding apply_flag take_value flag_in list_eq
  forwards_scanned rest =
      scan_texts (codes "F") (is_name _ _ (ground arith) (ground arith)) (with_forwards raw)
        raw.forwards [] rest (λ seen v rest. refl)

  mark_scanned :
      (rest : List Text)
      → scan ((with_mark raw) none) (print_integer (codes "M") raw.mark rest)
        ≡ scan ((with_mark raw) raw.mark) rest
  unfolding apply_flag take_value flag_in list_eq
  mark_scanned rest =
      scan_integer (codes "M") (is_name _ _ (ground arith) (ground arith)) (with_mark raw) raw.mark
        rest (λ m h rest. rw (parse_i64-integer_text m h) refl) fits.mark_fits

  buf_size_kb_scanned :
      (rest : List Text)
      → scan ((with_buf_size_kb raw) none) (print_number (codes "buf-size-kb") raw.buf_size_kb rest)
        ≡ scan ((with_buf_size_kb raw) raw.buf_size_kb) rest
  unfolding apply_flag take_value flag_in list_eq parse_number
  buf_size_kb_scanned rest =
      scan_number (codes "buf-size-kb") (is_name _ _ (ground arith) (ground arith))
        (with_buf_size_kb raw) raw.buf_size_kb rest
        (λ n h rest. rw (parse_unsigned-show max_u64 n h) refl) fits.buf_fits

  heartbeat_secs_scanned :
      (rest : List Text)
      → scan
          ((with_heartbeat_secs raw) none)
          (print_number (codes "heartbeat-secs") raw.heartbeat_secs rest)
        ≡ scan ((with_heartbeat_secs raw) raw.heartbeat_secs) rest
  unfolding apply_flag take_value flag_in list_eq parse_number
  heartbeat_secs_scanned rest =
      scan_number (codes "heartbeat-secs") (is_name _ _ (ground arith) (ground arith))
        (with_heartbeat_secs raw) raw.heartbeat_secs rest
        (λ n h rest. rw (parse_unsigned-show max_u64 n h) refl) fits.heartbeat_fits

  worker_threads_scanned :
      (rest : List Text)
      → scan
          ((with_worker_threads raw) none)
          (print_number (codes "worker-threads") raw.worker_threads rest)
        ≡ scan ((with_worker_threads raw) raw.worker_threads) rest
  unfolding apply_flag take_value flag_in list_eq parse_number
  worker_threads_scanned rest =
      scan_number (codes "worker-threads") (is_name _ _ (ground arith) (ground arith))
        (with_worker_threads raw) raw.worker_threads rest
        (λ n h rest. rw (parse_unsigned-show max_u64 n h) refl) fits.workers_fit

  so_rcvbuf_scanned :
      (rest : List Text)
      → scan ((with_so_rcvbuf raw) none) (print_number (codes "so-rcvbuf") raw.so_rcvbuf rest)
        ≡ scan ((with_so_rcvbuf raw) raw.so_rcvbuf) rest
  unfolding apply_flag take_value flag_in list_eq parse_number
  so_rcvbuf_scanned rest =
      scan_number (codes "so-rcvbuf") (is_name _ _ (ground arith) (ground arith))
        (with_so_rcvbuf raw) raw.so_rcvbuf rest
        (λ n h rest. rw (parse_unsigned-show max_u64 n h) refl) fits.rcvbuf_fits

  so_sndbuf_scanned :
      (rest : List Text)
      → scan ((with_so_sndbuf raw) none) (print_number (codes "so-sndbuf") raw.so_sndbuf rest)
        ≡ scan ((with_so_sndbuf raw) raw.so_sndbuf) rest
  unfolding apply_flag take_value flag_in list_eq parse_number
  so_sndbuf_scanned rest =
      scan_number (codes "so-sndbuf") (is_name _ _ (ground arith) (ground arith))
        (with_so_sndbuf raw) raw.so_sndbuf rest
        (λ n h rest. rw (parse_unsigned-show max_u64 n h) refl) fits.sndbuf_fits

  nodelay_scanned_as :
      (o : Option Bool) (rest : List Text)
      → scan ((with_nodelay raw) none) (print_option_bool (codes "nodelay") o rest)
        ≡ scan ((with_nodelay raw) o) rest
  unfolding apply_flag flag_in list_eq
  nodelay_scanned_as none rest = refl
  nodelay_scanned_as (some b) rest =
      scan_bool (codes "nodelay") (is_name _ _ (ground arith) (ground arith)) (with_nodelay raw)
        none (some b) b rest (rw (parse_bool-bool_text (codes "nodelay") b) refl)

  nat_scanned :
      (rest : List Text)
      → scan ((with_nat raw) false) (print_bool (codes "nat") raw.nat rest)
        ≡ scan ((with_nat raw) raw.nat) rest
  unfolding apply_flag flag_in list_eq
  nat_scanned rest =
      scan_bool (codes "nat") (is_name _ _ (ground arith) (ground arith)) (with_nat raw) false
        raw.nat raw.nat rest (rw (parse_bool-bool_text (codes "nat") raw.nat) refl)

  set_ip_forward_scanned :
      (rest : List Text)
      → scan
          ((with_set_ip_forward raw) false)
          (print_bool (codes "set-ip-forward") raw.set_ip_forward rest)
        ≡ scan ((with_set_ip_forward raw) raw.set_ip_forward) rest
  unfolding apply_flag flag_in list_eq
  set_ip_forward_scanned rest =
      scan_bool (codes "set-ip-forward") (is_name _ _ (ground arith) (ground arith))
        (with_set_ip_forward raw) false raw.set_ip_forward raw.set_ip_forward rest
        (rw (parse_bool-bool_text (codes "set-ip-forward") raw.set_ip_forward) refl)

  nat_cleanup_scanned :
      (rest : List Text)
      → scan ((with_nat_cleanup raw) false) (print_bool (codes "nat-cleanup") raw.nat_cleanup rest)
        ≡ scan ((with_nat_cleanup raw) raw.nat_cleanup) rest
  unfolding apply_flag flag_in list_eq
  nat_cleanup_scanned rest =
      scan_bool (codes "nat-cleanup") (is_name _ _ (ground arith) (ground arith))
        (with_nat_cleanup raw) false raw.nat_cleanup raw.nat_cleanup rest
        (rw (parse_bool-bool_text (codes "nat-cleanup") raw.nat_cleanup) refl)

  debug_scanned :
      (rest : List Text)
      → scan ((with_debug raw) false) (print_bool (codes "debug") raw.debug rest)
        ≡ scan ((with_debug raw) raw.debug) rest
  unfolding apply_flag flag_in list_eq
  debug_scanned rest =
      scan_bool (codes "debug") (is_name _ _ (ground arith) (ground arith)) (with_debug raw) false
        raw.debug raw.debug rest (rw (parse_bool-bool_text (codes "debug") raw.debug) refl)

  -- Whatever flags are asked for, with numbers that fit their types, the command line that prints
  -- them is scanned back into the same flags, with `help` and `version` unset.
  pub parse_args-print_args :
      parse_args (print_args raw) ≡ ok (run (record raw { help = false; version = false }))
  unfolding parse_args print_args outcome_of
  parse_args-print_args =
      listens_scanned _
      ∙ (forwards_scanned _
          ∙ (mark_scanned _
              ∙ (buf_size_kb_scanned _
                  ∙ (heartbeat_secs_scanned _
                      ∙ (worker_threads_scanned _
                          ∙ (so_rcvbuf_scanned _
                              ∙ (so_sndbuf_scanned _
                                  ∙ (nodelay_scanned_as raw.nodelay _
                                      ∙ (nat_scanned _
                                          ∙ (set_ip_forward_scanned _
                                              ∙ (nat_cleanup_scanned _
                                                  ∙ (debug_scanned _
                                                      ∙ scan_args-nil 0 false
                                                          (with_debug raw raw.debug)))))))))))))
