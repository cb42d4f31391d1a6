-- ===== src/Tests/SystemTests.antt =====
-- The calls of the system, the copies and the NAT reports at concrete answers.
use gust.Prelude.{ℕ, zero, suc, ◌≡◌, refl, List, [], ◌∷◌, ◌++◌, Option, none, some, Result, ok}
use gust.Text.{Text, codes}
use gust.Nat.Nftables.{v4}
use gust.Netopt.{default_sock_opts}
use gust.Netopt.Calls.{SocketAddr, IoError, other, Call, connect, from_std, writable, take_error}
use gust.Netopt.Dial.{
  Kernel, ready, is_in_progress, first_connected, bind_connected, dial_one, dial_tcp, new_session,
  try_tcp, try_udp, unresolved, no_target_address,
}
use gust.Netopt.Dial.Names.{Outcome, dial_tcp-Outcome}
use gust.Netopt.Dial.Perform.{tcp_options, udp_options, granted, granted_udp, AllGranted}
use gust.Netopt.Dial.Order.{dial_one-Reached}
use gust.Netopt.Dial.Session.{bind_connected-Reached}

abbrev backend : SocketAddr
backend = record { ip = v4 (10 ∷ 0 ∷ 0 ∷ 1 ∷ []); port = 80 }

abbrev spare : SocketAddr
spare = record { ip = v4 (10 ∷ 0 ∷ 0 ∷ 2 ∷ []); port = 80 }

abbrev refused : IoError
refused = record { kind = other; raw_os_error = some 111; text = codes "connection refused" }

abbrev refuse_connect : Call → Option IoError
refuse_connect (connect sa) = some refused
refuse_connect c = none

abbrev willing : Kernel
willing = record { answer = λ tr c. none; wait = λ tr. ready; pending = λ tr. none }

abbrev unwilling : Kernel
unwilling = record { answer = λ tr. refuse_connect; wait = λ tr. ready; pending = λ tr. none }

-- the first try is refused
abbrev kernels : ℕ → Kernel
kernels zero = unwilling
kernels (suc n) = willing

abbrev no_literal : Text → Option SocketAddr
no_literal s = none

abbrev two_addrs : Text → Result IoError (List SocketAddr)
two_addrs s = ok (backend ∷ spare ∷ [])

abbrev host : Text
host = codes "backend:80"

dial_tcp-Outcome_example :
    Outcome
      (try_tcp kernels (some 7) default_sock_opts)
      0
      (unresolved host)
      (backend ∷ spare ∷ [])
      (dial_tcp kernels no_literal two_addrs host (some 7) default_sock_opts)
    × Outcome
        (try_udp kernels (some 7))
        0
        no_target_address
        (backend ∷ spare ∷ [])
        (new_session kernels no_literal two_addrs host (some 7))
dial_tcp-Outcome_example =
    dial_tcp-Outcome kernels no_literal two_addrs host (some 7) default_sock_opts
      (backend ∷ spare ∷ []) refl refl

-- The second address is taken.
dial_tcp_run : dial_tcp kernels no_literal two_addrs host (some 7) default_sock_opts ≡ ok spare
unfolding dial_tcp first_connected dial_one is_in_progress
dial_tcp_run = refl

dial_one_run :
    (dial_one willing backend (some 7) default_sock_opts []).1
    ≡ tcp_options backend (some 7) default_sock_opts
      ++ connect backend ∷ from_std ∷ writable ∷ take_error ∷ []
unfolding dial_one
dial_one_run = refl

dial_one-Reached_example :
    (tcp_options backend (some 7) default_sock_opts
      ≡ tcp_options backend (some 7) default_sock_opts)
    × (backend ≡ backend)
    × AllGranted (granted willing) [] (tcp_options backend (some 7) default_sock_opts)
dial_one-Reached_example =
    dial_one-Reached willing backend backend (some 7) default_sock_opts
      (tcp_options backend (some 7) default_sock_opts) (from_std ∷ writable ∷ take_error ∷ [])
      dial_one_run

bind_connected_run :
    (bind_connected willing backend (some 7) []).1
    ≡ udp_options backend (some 7) ++ connect backend ∷ from_std ∷ []
unfolding bind_connected
bind_connected_run = refl

bind_connected-Reached_example :
    (udp_options backend (some 7) ≡ udp_options backend (some 7))
    × (backend ≡ backend)
    × AllGranted (granted_udp willing) [] (udp_options backend (some 7))
bind_connected-Reached_example =
    bind_connected-Reached willing backend backend (some 7) (udp_options backend (some 7))
      (from_std ∷ []) bind_connected_run
