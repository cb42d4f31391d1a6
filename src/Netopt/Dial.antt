-- ===== src/Netopt/Dial.antt =====
-- src/netopt.rs: tuning an accepted socket, and dialing an address with a mark and options.
use gust.Prelude.{
  ℕ, suc, Bool, true, false, ◌||◌, List, [], ◌∷◌, ◌++◌, Option, none, some, Result, ok, err,
  if◌then◌else◌, ◌==◌,
}
use gust.Text.{Text, codes}
use gust.Nat.Nftables.{is_ipv4}
use gust.Netopt.{SockOpts}
use gust.Netopt.Calls.{
  SocketAddr, ErrorKind, would_block, timed_out, other, IoError, Keepalive, Call, socket,
  set_nonblocking, take_error, from_std, writable, bind_any, set_nodelay, set_tcp_keepalive,
  set_recv_buffer_size, set_send_buffer_size, set_mark, connect, Sys, ◌>>=◌, ◌>>◌, then_run, give,
  fail, if_some, if_set,
}
pub mod Perform
pub mod Order
pub mod Session
pub mod Names

-- `libc::EINPROGRESS`
abbrev pub einprogress : ℕ
einprogress = 115

abbrev pub is_would_block : ErrorKind → Bool
is_would_block would_block = true
is_would_block timed_out = false
is_would_block other = false

abbrev pub is_raw : Option ℕ → ℕ → Bool
is_raw none n = false
is_raw (some m) n = m == n

unfoldable pub is_in_progress : IoError → Bool
is_in_progress e = is_would_block e.kind || is_raw e.raw_os_error einprogress

-- `KEEPALIVE`, `KEEPALIVE_INTERVAL` and `KEEPALIVE_RETRIES` of src/constants.rs
abbrev pub keepalive : Keepalive
keepalive = record { time = 180; interval = 25; retries = 4 }

-- How waiting for a writable socket ends.
pub data Wait : Type 0 where
  ready elapsed : Wait
  broken : IoError → Wait

abbrev pub connect_timed_out : IoError
connect_timed_out = record {
  kind = timed_out;
  raw_os_error = none;
  text = codes "connect timed out";
}

-- The kernel: what a call gives behind the calls before it, how a wait ends, and the error that
-- stands on the socket.
pub record Kernel : Type 0 where
  pub answer : List Call → Call → Option IoError
  pub wait : List Call → Wait
  pub pending : List Call → Option IoError

abbrev pub answered : Option IoError → Result IoError (Unit {0})
answered none = ok tt
answered (some e) = err e

-- only a connection that is under way may go on
abbrev pub started : Result IoError (Unit {0}) → Result IoError (Unit {0})
started (ok _) = ok tt
started (err e) = if is_in_progress e then ok tt else err e

abbrev pub waited : Wait → Result IoError (Unit {0})
waited ready = ok tt
waited elapsed = err connect_timed_out
waited (broken e) = err e

module _ (k : Kernel) where
  abbrev pub call : Call → Sys (Unit {0})
  call c tr = (answered (k.answer tr c), tr ++ c ∷ [])

  -- `sock.connect`, with its errors but for that of a connection under way
  abbrev pub start_connect : SocketAddr → Sys (Unit {0})
  start_connect sa tr = (started (answered (k.answer tr (connect sa))), tr ++ connect sa ∷ [])

  abbrev pub wait_writable : Sys (Unit {0})
  wait_writable tr = (waited (k.wait tr), tr ++ writable ∷ [])

  abbrev pub no_pending : Sys (Unit {0})
  no_pending tr = (answered (k.pending tr), tr ++ take_error ∷ [])

  -- `tune_accepted`
  unfoldable pub tune_accepted : SockOpts → Sys (Unit {0})
  tune_accepted opts = do
    if_set opts.nodelay (call set_nodelay)
    call (set_tcp_keepalive keepalive)
    if_some opts.rcvbuf (λ n. call (set_recv_buffer_size n))
    if_some opts.sndbuf (λ n. call (set_send_buffer_size n))

  -- `dial_one`
  unfoldable pub dial_one : SocketAddr → Option ℕ → SockOpts → Sys (Unit {0})
  dial_one sa mark opts = do
    call (socket true sa)
    call set_nonblocking
    call (set_tcp_keepalive keepalive)
    if_set opts.nodelay (call set_nodelay)
    if_some opts.rcvbuf (λ n. call (set_recv_buffer_size n))
    if_some opts.sndbuf (λ n. call (set_send_buffer_size n))
    if_some mark (λ m. call (set_mark m))
    start_connect sa
    call from_std
    wait_writable
    no_pending

  -- `bind_connected` of src/forward/udp.rs
  unfoldable pub bind_connected : SocketAddr → Option ℕ → Sys (Unit {0})
  bind_connected sa mark = do
    call (socket false sa)
    call set_nonblocking
    if_some mark (λ m. call (set_mark m))
    call (bind_any (is_ipv4 sa.ip))
    call (connect sa)
    call from_std

-- The loops over the addresses of a name; `attempt` is a try with an address, by the number of the
-- tries before.
module _ {S : Type 0} (attempt : ℕ → SocketAddr → Result IoError S) (missing : IoError) where
  -- from the number of tries and the last error on
  unfoldable pub first_connected : ℕ → Option IoError → List SocketAddr → Result IoError S
  first_connected n none [] = err missing
  first_connected n (some e) [] = err e
  first_connected n last (sa ∷ addrs) = elim (attempt n sa) [
    | ok s ↦ ok s
    | err e ↦ first_connected (suc n) (some e) addrs
  ]

  abbrev pub among : Result IoError (List SocketAddr) → Result IoError S
  among (err e) = err e
  among (ok addrs) = first_connected 0 none addrs

  abbrev pub literal_or : Result IoError (List SocketAddr) → Option SocketAddr → Result IoError S
  literal_or found (some sa) = attempt 0 sa
  literal_or found none = among found

abbrev pub unresolved : Text → IoError
unresolved addr = record {
  kind = other;
  raw_os_error = none;
  text = codes "could not resolve `" ++ (addr ++ codes "`");
}

abbrev pub no_target_address : IoError
no_target_address = record { kind = other; raw_os_error = none; text = codes "no target address" }

-- A stream or a session's socket is told by the address that it is connected to.
abbrev pub connected :
    SocketAddr → Result IoError (Unit {0}) × List Call → Result IoError SocketAddr
connected sa (ok _, tr) = ok sa
connected sa (err e, tr) = err e

-- `kernels` is the kernel at each try.
module _ (kernels : ℕ → Kernel) where
  abbrev pub try_tcp : Option ℕ → SockOpts → ℕ → SocketAddr → Result IoError SocketAddr
  try_tcp mark opts n sa = connected sa (dial_one (kernels n) sa mark opts [])

  abbrev pub try_udp : Option ℕ → ℕ → SocketAddr → Result IoError SocketAddr
  try_udp mark n sa = connected sa (bind_connected (kernels n) sa mark [])

  -- `parse_addr` is the standard library's parser of `SocketAddr`, and `lookup_host` the resolver.
  module _ (parse_addr : Text → Option SocketAddr)
      (lookup_host : Text → Result IoError (List SocketAddr)) where
    unfoldable pub dial_tcp : Text → Option ℕ → SockOpts → Result IoError SocketAddr
    dial_tcp addr mark opts =
        literal_or (try_tcp mark opts) (unresolved addr) (lookup_host addr) (parse_addr addr)

    -- `new_session` of src/forward/udp.rs
    unfoldable pub new_session : Text → Option ℕ → Result IoError SocketAddr
    new_session target mark =
        literal_or (try_udp mark) no_target_address (lookup_host target) (parse_addr target)
