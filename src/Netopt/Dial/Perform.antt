-- ===== src/Netopt/Dial/Perform.antt =====
-- The calls on a socket as a list that is gone through, for src/netopt.rs and src/forward/udp.rs.
use gust.Prelude.{
  ℕ, ◌≡◌, ◌≢◌, ◌↔◌, refl, sym, ◌∙◌, subst, Bool, true, false, List, [], ◌∷◌, ◌++◌, append_assoc,
  append-nil, Option, none, some, Result, ok, err, All,
}
use gust.Nat.Nftables.{is_ipv4}
use gust.Netopt.{SockOpts}
use gust.Netopt.Calls.{
  SocketAddr, IoError, Call, socket, set_nonblocking, take_error, from_std, writable, bind_any,
  set_nodelay, set_tcp_keepalive, set_recv_buffer_size, set_send_buffer_size, set_mark, connect,
  then_run,
}
use gust.Netopt.Dial.{keepalive, Kernel, answered, started, waited}

-- The calls that an option asks for.
abbrev pub if_asked : (ℕ → Call) → Option ℕ → List Call
if_asked f none = []
if_asked f (some n) = f n ∷ []

abbrev pub nodelay_calls : Bool → List Call
nodelay_calls true = set_nodelay ∷ []
nodelay_calls false = []

abbrev pub buffer_calls : SockOpts → List Call
buffer_calls opts =
    if_asked set_recv_buffer_size opts.rcvbuf ++ if_asked set_send_buffer_size opts.sndbuf

-- What an accepted socket is given, a dialed one before it connects, and a session's one.
abbrev pub accepted_options : SockOpts → List Call
accepted_options opts =
    nodelay_calls opts.nodelay ++ set_tcp_keepalive keepalive ∷ buffer_calls opts

abbrev pub tcp_options : SocketAddr → Option ℕ → SockOpts → List Call
tcp_options sa mark opts =
    socket true sa
    ∷ set_nonblocking
    ∷ set_tcp_keepalive keepalive
    ∷ (nodelay_calls opts.nodelay ++ (buffer_calls opts ++ if_asked set_mark mark))

abbrev pub udp_options : SocketAddr → Option ℕ → List Call
udp_options sa mark =
    socket false sa ∷ set_nonblocking ∷ (if_asked set_mark mark ++ bind_any (is_ipv4 sa.ip) ∷ [])

-- What the code takes a call to have done: a TCP connection may be under way, a wait must end well
-- in time, and no error may be left on the socket.
abbrev pub granted : Kernel → List Call → Call → Result IoError (Unit {0})
granted k tr writable = waited (k.wait tr)
granted k tr take_error = answered (k.pending tr)
granted k tr (connect sa) = started (answered (k.answer tr (connect sa)))
granted k tr (socket b sa) = answered (k.answer tr (socket b sa))
granted k tr set_nonblocking = answered (k.answer tr set_nonblocking)
granted k tr from_std = answered (k.answer tr from_std)
granted k tr set_nodelay = answered (k.answer tr set_nodelay)
granted k tr (set_tcp_keepalive a) = answered (k.answer tr (set_tcp_keepalive a))
granted k tr (bind_any v) = answered (k.answer tr (bind_any v))
granted k tr (set_recv_buffer_size n) = answered (k.answer tr (set_recv_buffer_size n))
granted k tr (set_send_buffer_size n) = answered (k.answer tr (set_send_buffer_size n))
granted k tr (set_mark n) = answered (k.answer tr (set_mark n))

abbrev pub granted_udp : Kernel → List Call → Call → Result IoError (Unit {0})
granted_udp k tr c = answered (k.answer tr c)

module _ (grant : List Call → Call → Result IoError (Unit {0})) where
  -- the calls of a list in turn, up to the first that is not granted
  unfoldable pub perform : List Call → List Call → Result IoError (Unit {0}) × List Call
  perform [] tr = (ok tt, tr)
  perform (c ∷ []) tr = (grant tr c, tr ++ c ∷ [])
  perform (c ∷ d ∷ cs) tr = then_run (grant tr c, tr ++ c ∷ []) (λ _. perform (d ∷ cs))

  abbrev pub AllGranted : List Call → List Call → Type 0
  AllGranted tr [] = Unit
  AllGranted tr (c ∷ cs) = (grant tr c ≡ ok tt) × AllGranted (tr ++ c ∷ []) cs

  -- the calls of a list that are made
  unfoldable pub made : List Call → List Call → List Call
  made [] tr = []
  made (c ∷ cs) tr = c ∷ elim (grant tr c) [ ok _ ↦ made cs (tr ++ c ∷ []) | err e ↦ [] ]

  pub perform-made : (cs tr : List Call) → (perform cs tr).1 ≡ tr ++ made cs tr
  unfolding perform made
  perform-made [] tr = sym (append-nil tr)
  perform-made (c ∷ []) tr =
      elim (grant tr c) as (λ r. tr ++ c ∷ [] ≡ tr ++ c ∷ elim r [ ok _ ↦ [] | err e ↦ [] ]) [
        | ok _ ↦ refl
        | err e ↦ refl
      ]
  perform-made (c ∷ d ∷ cs) tr = next (grant tr c) (perform-made (d ∷ cs) (tr ++ c ∷ []))
    where
      next :
          (r : Result IoError (Unit {0}))
          → (perform (d ∷ cs) (tr ++ c ∷ [])).1 ≡ (tr ++ c ∷ []) ++ made (d ∷ cs) (tr ++ c ∷ [])
          → (then_run (r, tr ++ c ∷ []) (λ _. perform (d ∷ cs))).1
            ≡ tr ++ c ∷ elim r [ ok _ ↦ made (d ∷ cs) (tr ++ c ∷ []) | err e ↦ [] ]
      next (ok _) ih = ih ∙ append_assoc tr (c ∷ []) (made (d ∷ cs) (tr ++ c ∷ []))
      next (err e) ih = refl

  pub made-All : (P : Call → Type 0) (cs tr : List Call) → All P cs → All P (made cs tr)
  unfolding made
  made-All P [] tr h = tt
  made-All P (c ∷ cs) tr (p, h) = (p, next (grant tr c) (made-All P cs (tr ++ c ∷ []) h))
    where
      next :
          (r : Result IoError (Unit {0}))
          → All P (made cs (tr ++ c ∷ []))
          → All P (elim r [ ok _ ↦ made cs (tr ++ c ∷ []) | err e ↦ [] ])
      next (ok _) ih = ih
      next (err e) ih = tt

  pub perform_iff : (cs tr : List Call) → ((perform cs tr).0 ≡ ok tt) ↔ AllGranted tr cs
  unfolding perform
  perform_iff [] tr = (λ _. tt, λ _. refl)
  perform_iff (c ∷ []) tr = (λ h. (h, tt), λ (h, _). h)
  perform_iff (c ∷ d ∷ cs) tr = next (grant tr c) (perform_iff (d ∷ cs) (tr ++ c ∷ []))
    where
      next :
          (r : Result IoError (Unit {0}))
          → (((perform (d ∷ cs) (tr ++ c ∷ [])).0 ≡ ok tt) ↔ AllGranted (tr ++ c ∷ []) (d ∷ cs))
          → ((then_run (r, tr ++ c ∷ []) (λ _. perform (d ∷ cs))).0 ≡ ok tt)
            ↔ ((r ≡ ok tt) × AllGranted (tr ++ c ∷ []) (d ∷ cs))
      next (ok _) (to, from) = (λ h. (refl, to h), λ (_, h). from h)
      next (err e) ih = (λ h. absurd (cc), λ (h, _). absurd (cc))

abbrev pub is_connect : Call → Bool
is_connect (connect sa) = true
is_connect (socket b sa) = false
is_connect set_nonblocking = false
is_connect take_error = false
is_connect from_std = false
is_connect writable = false
is_connect set_nodelay = false
is_connect (set_tcp_keepalive a) = false
is_connect (bind_any v) = false
is_connect (set_recv_buffer_size n) = false
is_connect (set_send_buffer_size n) = false
is_connect (set_mark n) = false

abbrev pub Quiet : Call → Type 0
Quiet c = is_connect c ≡ false

none_loud :
    (before after : List Call) (sa : SocketAddr) → All Quiet (before ++ connect sa ∷ after) → ⊥
none_loud [] after sa (p, h) = cc
none_loud (c ∷ before) after sa (p, h) = none_loud before after sa h

nothing : (before after : List Call) (c : Call) → [] ≢ before ++ c ∷ after
nothing [] after c e = cc
nothing (b ∷ before) after c e = cc

-- Where a connection is made in the middle of a list of calls, all before it were granted.
module _ (grant : List Call → Call → Result IoError (Unit {0})) (sa : SocketAddr)
    (q : List Call) where
  abbrev pub Reached : List Call → List Call → List Call → SocketAddr → Type 0
  Reached tr p before sb = (before ≡ p) × (sb ≡ sa) × AllGranted grant tr p

  pub made-Reached :
      (p tr before after : List Call) (sb : SocketAddr)
      → All Quiet p
      → All Quiet q
      → made grant (p ++ connect sa ∷ q) tr ≡ before ++ connect sb ∷ after
      → Reached tr p before sb
  unfolding made
  made-Reached [] tr [] after sb hp hq e = (refl, cc, tt)
  made-Reached [] tr (b ∷ before) after sb hp hq e =
      absurd (none_loud before after sb (subst (All Quiet) (cc) (behind (grant tr (connect sa)))))
    where
      behind :
          (r : Result IoError (Unit {0}))
          → All Quiet (elim r [ ok _ ↦ made grant q (tr ++ connect sa ∷ []) | err e ↦ [] ])
      behind (ok _) = made-All grant Quiet q (tr ++ connect sa ∷ []) hq
      behind (err e) = tt
  made-Reached (c ∷ p) tr [] after sb (k, hp) hq e = absurd (cc)
  made-Reached (c ∷ p) tr (b ∷ before) after sb (k, hp) hq e =
      next (grant tr c) refl (made-Reached p (tr ++ c ∷ []) before after sb hp hq) e
    where
      next :
          (r : Result IoError (Unit {0}))
          → grant tr c ≡ r
          → (made grant (p ++ connect sa ∷ q) (tr ++ c ∷ []) ≡ before ++ connect sb ∷ after
              → Reached (tr ++ c ∷ []) p before sb)
          → (c ∷ elim r [ ok _ ↦ made grant (p ++ connect sa ∷ q) (tr ++ c ∷ []) | err e ↦ [] ])
            ≡ b ∷ (before ++ connect sb ∷ after)
          → Reached tr (c ∷ p) (b ∷ before) sb
      next (err x) h ih eq = absurd (nothing before after (connect sb) (cc))
      next (ok _) h ih eq = let (same, at, rest) = ih (cc) in (cc, at, (h, rest))

pub if_asked-Quiet :
    (f : ℕ → Call) → ((n : ℕ) → Quiet (f n)) → (o : Option ℕ) → All Quiet (if_asked f o)
if_asked-Quiet f h none = tt
if_asked-Quiet f h (some n) = (h n, tt)

pub nodelay_calls-Quiet : (b : Bool) → All Quiet (nodelay_calls b)
nodelay_calls-Quiet true = (refl, tt)
nodelay_calls-Quiet false = tt
