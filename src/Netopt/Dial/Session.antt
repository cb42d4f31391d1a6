-- ===== src/Netopt/Dial/Session.antt =====
-- src/forward/udp.rs and src/netopt.rs: the calls on the socket of a UDP session and on an accepted one.
use gust.Prelude.{
  ℕ, ◌≡◌, refl, sym, ap, ◌∙◌, Bool, true, false, List, [], ◌∷◌, ◌++◌, Option, none, some, Result,
  ok, err, All-append,
}
use gust.Netopt.{SockOpts}
use gust.Netopt.Calls.{
  SocketAddr, IoError, Call, from_std, set_nodelay, set_tcp_keepalive, set_recv_buffer_size,
  set_mark, connect, then_run,
}
use gust.Netopt.Dial.{keepalive, Kernel, bind_connected, tune_accepted, call}
use gust.Netopt.Dial.Perform.{
  if_asked, accepted_options, udp_options, granted, granted_udp, perform, AllGranted, perform-made,
  Quiet, made-Reached, if_asked-Quiet,
}

bind_connected-perform :
    (k : Kernel) (sa : SocketAddr) (mark : Option ℕ)
    → bind_connected k sa mark []
      ≡ perform (granted_udp k) (udp_options sa mark ++ connect sa ∷ from_std ∷ []) []
unfolding bind_connected perform
bind_connected-perform k sa none = refl
bind_connected-perform k sa (some m) = refl

tune_accepted-perform :
    (k : Kernel) (opts : SockOpts)
    → tune_accepted k opts [] ≡ perform (granted k) (accepted_options opts) []
unfolding tune_accepted perform
tune_accepted-perform k opts = by_options opts.nodelay opts.rcvbuf opts.sndbuf
  where
    end_run : (r : Result IoError (Unit {0}) × List Call) → then_run r (λ _ tr. (ok tt, tr)) ≡ r
    end_run (ok _, tr) = refl
    end_run (err e, tr) = refl

    with_sndbuf :
        (nodelay : Bool) (rcvbuf : Option ℕ) (s : ℕ)
        → tune_accepted k (record { nodelay = nodelay; rcvbuf = rcvbuf; sndbuf = some s }) []
          ≡ perform
              (granted k)
              (accepted_options (record { nodelay = nodelay; rcvbuf = rcvbuf; sndbuf = some s }))
              []
    with_sndbuf true none s = refl
    with_sndbuf true (some n) s = refl
    with_sndbuf false none s = refl
    with_sndbuf false (some n) s = refl

    by_options :
        (nodelay : Bool) (rcvbuf sndbuf : Option ℕ)
        → tune_accepted k (record { nodelay = nodelay; rcvbuf = rcvbuf; sndbuf = sndbuf }) []
          ≡ perform
              (granted k)
              (accepted_options (record { nodelay = nodelay; rcvbuf = rcvbuf; sndbuf = sndbuf }))
              []
    by_options true r (some s) = with_sndbuf true r s
    by_options false r (some s) = with_sndbuf false r s
    by_options true none none = λ i.
        then_run (call k set_nodelay [])
          (λ _ tr. end_run (call k (set_tcp_keepalive keepalive) tr) i)
    by_options false none none = end_run (call k (set_tcp_keepalive keepalive) [])
    by_options true (some n) none = λ i. then_run (call k set_nodelay []) (λ _ tr.
        then_run (call k (set_tcp_keepalive keepalive) tr)
          (λ _ tr2. end_run (call k (set_recv_buffer_size n) tr2) i))
    by_options false (some n) none = λ i.
        then_run (call k (set_tcp_keepalive keepalive) [])
          (λ _ tr. end_run (call k (set_recv_buffer_size n) tr) i)

-- A socket is made, put into the mode without blocking, marked if a mark was asked for, and bound
-- to the wildcard of the address's own family, each with success, before the session's socket is
-- connected; and it is connected to the address that was asked for.
pub bind_connected-Reached :
    (k : Kernel) (sa sb : SocketAddr) (mark : Option ℕ) (before after : List Call)
    → (bind_connected k sa mark []).1 ≡ before ++ connect sb ∷ after
    → (before ≡ udp_options sa mark)
      × (sb ≡ sa)
      × AllGranted (granted_udp k) [] (udp_options sa mark)
bind_connected-Reached k sa sb mark before after e =
    made-Reached (granted_udp k) sa (from_std ∷ []) (udp_options sa mark) [] before after sb
      (
        refl,
        (
          refl,
          All-append Quiet (if_asked set_mark mark) _ (if_asked-Quiet set_mark (λ n. refl) mark)
              (refl, tt),
        ),
      )
      (refl, tt)
      (sym (perform-made (granted_udp k) (udp_options sa mark ++ connect sa ∷ from_std ∷ []) [])
        ∙ (ap (λ (r, tr). tr) (sym (bind_connected-perform k sa mark)) ∙ e))
