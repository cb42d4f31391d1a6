-- ===== src/Tests/RuntimeTests.antt =====
-- The shutdown signal and the dialer at a concrete channel.
use gust.Prelude.{
  ok, List, Result, ℕ, zero, suc, ◌-◌, ◌<◌, ◌≡◌, ◌↔◌, ◌⊎◌, refl, arith, Bool, true, false, [], ◌∷◌,
  Option, none, All,
}
use gust.Text.{Text}
use gust.Config.{ChainHop, ListenerSpec, config_of}
use gust.Netopt.{SockOpts}
use gust.Socks5.Stream.{Stream}
use gust.Netopt.Calls.{SocketAddr, IoError}
use gust.Netopt.Dial.{Kernel, ready}
use gust.Nat.Nftables.{v4}
use gust.Runtime.{tcp_stream, Watch, new_shutdown, begin_cancelled, is_triggered, trigger}
use gust.Runtime.Signal.{
  World, Steps, Polls, start, begin, more, done, trigger_iff, triggered-drains,
}
use gust.Tests.ConfigTests.{flags, listener, build_config_run}
use gust.Runtime.Dials.{NoAddressError, dialed, validated-NoAddressError}

-- A channel is its value and the number of its receivers.
abbrev send : Bool → Bool × ℕ → Bool × ℕ
send v (b, zero) = (b, zero)
send v (b, suc n) = (v, suc n)

send_heard : (v : Bool) (c : Bool × ℕ) → 0 < c.1 → (send v c).0 ≡ v
send_heard v (b, zero) h = absurd (omega (arith, h))
send_heard v (b, suc n) h = refl

send_unheard : (v : Bool) (c : Bool × ℕ) → c.1 ≡ 0 → send v c ≡ c
send_unheard v (b, zero) h = refl
send_unheard v (b, suc n) h = absurd (cc)

send_receivers : (v : Bool) (c : Bool × ℕ) → (send v c).1 ≡ c.1
send_receivers v (b, zero) = refl
send_receivers v (b, suc n) = refl

fewer : (c : Bool × ℕ) (n : ℕ) → c.1 ≡ suc n → c.1 - 1 ≡ n
fewer (b, m) n h = omega (arith, h)

abbrev channel : Watch (Bool × ℕ)
channel = record {
  channel = (false, 0);
  send = send;
  borrow = λ c. c.0;
  subscribe = λ c. (c.0, suc c.1);
  drop_receiver = λ c. (c.0, c.1 - 1);
  receivers = λ c. c.1;
  no_receivers_yet = refl;
  starts_false = refl;
  send_heard = send_heard;
  send_unheard = send_unheard;
  send_receivers = send_receivers;
  subscribe_value = λ c. refl;
  subscribe_receivers = λ c. refl;
  drop_value = λ c. refl;
  drop_receivers = fewer;
}

-- One call of `cancelled` waits.
abbrev one_waits : World (Bool × ℕ)
one_waits = record { chan = (false, 1); waiting = 1 }

one_waits_reached : Steps channel (start channel) one_waits
unfolding new_shutdown begin_cancelled
one_waits_reached =
    more (start channel) one_waits one_waits (begin (start channel)) (done one_waits)

trigger_iff_example :
    (is_triggered channel (trigger channel one_waits.chan) ≡ true)
    ↔ ((is_triggered channel one_waits.chan ≡ true) ⊎ (0 < 1))
trigger_iff_example = trigger_iff channel one_waits one_waits_reached

-- A trigger that nobody waits for is lost.
lost_run : is_triggered channel (trigger channel (new_shutdown channel)) ≡ false
unfolding is_triggered trigger new_shutdown
lost_run = refl

abbrev two_wait : World (Bool × ℕ)
two_wait = record { chan = (true, 2); waiting = 2 }

two_wait_triggered : is_triggered channel two_wait.chan ≡ true
unfolding is_triggered
two_wait_triggered = refl

triggered-drains_example :
    (w : World (Bool × ℕ)) × Polls channel 2 two_wait w
    × (w.waiting ≡ 0)
    × (is_triggered channel w.chan ≡ true)
triggered-drains_example = triggered-drains channel two_wait two_wait_triggered

-- Every call is granted, and the peer sends nothing.
abbrev willing : ℕ → Kernel
willing n = record { answer = λ tr c. none; wait = λ tr. ready; pending = λ tr. none }

abbrev backend : SocketAddr
backend = record { ip = v4 (1 ∷ 2 ∷ 3 ∷ 4 ∷ []); port = 9090 }

abbrev one_addr : Text → Result IoError (List SocketAddr)
one_addr host = ok (backend ∷ [])

abbrev no_literal : Text → Option SocketAddr
no_literal s = none

abbrev silent : SocketAddr → Stream
silent sa = record { incoming = []; sent = []; room = 0 }

abbrev network : Text → Option ℕ → SockOpts → Option Stream
network = tcp_stream willing no_literal one_addr silent

abbrev never_late : ChainHop → Bool
never_late hop = true

validated-NoAddressError_example :
    All
      (λ l.
        All
          (λ t.
            NoAddressError (dialed never_late network (config_of flags (listener ∷ []) [] none) t))
          (ListenerSpec.targets l))
      (listener ∷ [])
validated-NoAddressError_example =
    validated-NoAddressError never_late network flags (config_of flags (listener ∷ []) [] none)
      build_config_run
