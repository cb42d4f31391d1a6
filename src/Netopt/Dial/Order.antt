-- ===== src/Netopt/Dial/Order.antt =====
-- src/netopt.rs: in which order the calls on a dialed socket are made.
use gust.Prelude.{
  ℕ, ◌≡◌, ◌↔◌, refl, sym, ap, ◌∙◌, subst, Bool, true, false, List, [], ◌∷◌, ◌++◌, Option, none,
  some, ok, All, All-append,
}
use gust.Netopt.{SockOpts}
use gust.Netopt.Calls.{
  SocketAddr, Call, take_error, from_std, writable, set_recv_buffer_size, set_send_buffer_size,
  set_mark, connect,
}
use gust.Netopt.Dial.{Kernel, dial_one}
use gust.Netopt.Dial.Perform.{
  if_asked, nodelay_calls, buffer_calls, tcp_options, granted, perform, AllGranted, perform-made,
  perform_iff, Quiet, made-Reached, if_asked-Quiet, nodelay_calls-Quiet,
}

dial_one-perform :
    (k : Kernel) (sa : SocketAddr) (mark : Option ℕ) (opts : SockOpts)
    → dial_one k sa mark opts []
      ≡ perform
          (granted k)
          (tcp_options sa mark opts ++ connect sa ∷ from_std ∷ writable ∷ take_error ∷ [])
          []
unfolding dial_one perform
dial_one-perform k sa mark opts = by_options opts.nodelay opts.rcvbuf opts.sndbuf mark
  where
    by_options :
        (nodelay : Bool) (rcvbuf sndbuf mark : Option ℕ)
        → dial_one k sa mark (record { nodelay = nodelay; rcvbuf = rcvbuf; sndbuf = sndbuf }) []
          ≡ perform
              (granted k)
              (tcp_options sa mark (record { nodelay = nodelay; rcvbuf = rcvbuf; sndbuf = sndbuf })
                ++ connect sa ∷ from_std ∷ writable ∷ take_error ∷ [])
              []
    by_options true none none none = refl
    by_options true none none (some m) = refl
    by_options true none (some s) none = refl
    by_options true none (some s) (some m) = refl
    by_options true (some r) none none = refl
    by_options true (some r) none (some m) = refl
    by_options true (some r) (some s) none = refl
    by_options true (some r) (some s) (some m) = refl
    by_options false none none none = refl
    by_options false none none (some m) = refl
    by_options false none (some s) none = refl
    by_options false none (some s) (some m) = refl
    by_options false (some r) none none = refl
    by_options false (some r) none (some m) = refl
    by_options false (some r) (some s) none = refl
    by_options false (some r) (some s) (some m) = refl

tcp_options-Quiet :
    (sa : SocketAddr) (mark : Option ℕ) (opts : SockOpts) → All Quiet (tcp_options sa mark opts)
tcp_options-Quiet sa mark opts =
    let buffers =
      All-append Quiet (if_asked set_recv_buffer_size opts.rcvbuf) _
        (if_asked-Quiet set_recv_buffer_size (λ n. refl) opts.rcvbuf)
        (if_asked-Quiet set_send_buffer_size (λ n. refl) opts.sndbuf) in
    (
      refl,
      (
        refl,
        (
          refl,
          All-append Quiet (nodelay_calls opts.nodelay) _ (nodelay_calls-Quiet opts.nodelay) (
              All-append Quiet (buffer_calls opts) _ buffers
                (if_asked-Quiet set_mark (λ n. refl) mark)),
        ),
      ),
    )

-- Whatever the kernel answers, if a TCP socket is connected then to the address that was asked for,
-- and behind just these calls, all of which succeeded: the socket was made and put into the mode
-- without blocking, its keep-alive was set, and then each of the other options that were asked
-- for, with the mark last.
pub dial_one-Reached :
    (k : Kernel) (sa sb : SocketAddr) (mark : Option ℕ) (opts : SockOpts) (before after : List Call)
    → (dial_one k sa mark opts []).1 ≡ before ++ connect sb ∷ after
    → (before ≡ tcp_options sa mark opts)
      × (sb ≡ sa)
      × AllGranted (granted k) [] (tcp_options sa mark opts)
dial_one-Reached k sa sb mark opts before after e =
    let finish : List Call = from_std ∷ writable ∷ take_error ∷ [] in
    made-Reached (granted k) sa finish (tcp_options sa mark opts) [] before after sb
      (tcp_options-Quiet sa mark opts) (refl, (refl, (refl, tt)))
      (sym (perform-made (granted k) (tcp_options sa mark opts ++ connect sa ∷ finish) [])
        ∙ (ap (λ (r, tr). tr) (sym (dial_one-perform k sa mark opts)) ∙ e))

-- Dialing one address succeeds exactly if all of its calls are granted in turn: those of the
-- options, the start of the connection, and then the wait for it, which must end well in time,
-- with no error left on the socket.
pub dial_one_iff :
    (k : Kernel) (sa : SocketAddr) (mark : Option ℕ) (opts : SockOpts)
    → ((dial_one k sa mark opts []).0 ≡ ok tt)
      ↔ AllGranted
          (granted k)
          []
          (tcp_options sa mark opts ++ connect sa ∷ from_std ∷ writable ∷ take_error ∷ [])
dial_one_iff k sa mark opts =
    subst
      (λ r.
        (r.0 ≡ ok tt)
        ↔ AllGranted (granted k) []
            (tcp_options sa mark opts ++ connect sa ∷ from_std ∷ writable ∷ take_error ∷ []))
      (sym (dial_one-perform k sa mark opts)) (perform_iff (granted k) _ [])
