-- ===== src/Runtime.antt =====
-- src/runtime.rs: the shutdown signal and the dialer. The `watch` channel is a parameter.
pub mod Signal
pub mod Dials
use gust.Prelude.{
  ℕ, suc, ◌<◌, ◌≡◌, Bool, true, false, List, [], ◌∷◌, Option, none, some, Result, ok, err, is_empty,
  if◌then◌else◌,
}
use gust.Text.{Text}
use gust.Config.{ChainHop, Config}
use gust.Netopt.{SockOpts}
use gust.Netopt.Calls.{SocketAddr, IoError}
use gust.Netopt.Dial.{Kernel}
use gust.Netopt.Dial
use gust.Chain.{DialError, dial}
use gust.Socks5.Stream.{Stream}

-- The documented behaviour of a `watch` channel of a `bool`: a value that is sent is kept if a
-- receiver is there, and otherwise `send` fails and changes nothing.
pub record Watch (C : Type 0) : Type 0 where
  pub channel : C
  pub send : Bool → C → C
  pub borrow : C → Bool
  pub subscribe : C → C
  pub drop_receiver : C → C
  pub receivers : C → ℕ
  pub no_receivers_yet : receivers channel ≡ 0
  pub starts_false : borrow channel ≡ false
  pub send_heard : (v : Bool) (c : C) → 0 < receivers c → borrow (send v c) ≡ v
  pub send_unheard : (v : Bool) (c : C) → receivers c ≡ 0 → send v c ≡ c
  pub send_receivers : (v : Bool) (c : C) → receivers (send v c) ≡ receivers c
  pub subscribe_value : (c : C) → borrow (subscribe c) ≡ borrow c
  pub subscribe_receivers : (c : C) → receivers (subscribe c) ≡ suc (receivers c)
  pub drop_value : (c : C) → borrow (drop_receiver c) ≡ borrow c
  pub drop_receivers : (c : C) (n : ℕ) → receivers c ≡ suc n → receivers (drop_receiver c) ≡ n

module _ {C : Type 0} (watch : Watch C) where
  -- `Shutdown::new`, whose own receiver is dropped at once
  unfoldable pub new_shutdown : C
  new_shutdown = watch.channel

  unfoldable pub trigger : C → C
  trigger c = watch.send true c

  unfoldable pub is_triggered : C → Bool
  is_triggered c = watch.borrow c

  -- What a poll of `cancelled` finds at the value that its receiver borrows: it returns, and its
  -- receiver is dropped, or it waits for the next change.
  abbrev pub return_if : Bool → C → Bool × C
  return_if v c = if v then (true, watch.drop_receiver c) else (false, c)

  -- `cancelled` up to its first wait
  unfoldable pub begin_cancelled : C → Bool × C
  begin_cancelled c = let c1 = watch.subscribe c in return_if (watch.borrow c1) c1

  -- one round of the loop of `cancelled`, behind `changed`
  unfoldable pub resume_cancelled : C → Bool × C
  resume_cancelled c = return_if (watch.borrow c) c

-- `Dialer`
pub record Dialer : Type 0 where
  pub chain : List ChainHop
  pub mark : Option ℕ
  pub sock : SockOpts

abbrev pub new_dialer : List ChainHop → Option ℕ → SockOpts → Dialer
new_dialer chain mark sock = record { chain = chain; mark = mark; sock = sock }

-- The kernel at each try, the parser of addresses, the resolver, and the stream that the peer at an
-- address gives.
module _ (kernels : ℕ → Kernel) (parse_addr : Text → Option SocketAddr)
    (lookup_host : Text → Result IoError (List SocketAddr)) (peer : SocketAddr → Stream) where
  abbrev pub stream_of : Result IoError SocketAddr → Option Stream
  stream_of (ok sa) = some (peer sa)
  stream_of (err e) = none

  -- `dial_tcp` of src/netopt.rs, by its stream
  unfoldable pub tcp_stream : Text → Option ℕ → SockOpts → Option Stream
  tcp_stream addr mark opts =
      stream_of (Dial.dial_tcp kernels parse_addr lookup_host addr mark opts)

-- `dial_tcp` connects to an address with a mark and options, as `tcp_stream` does; `in_time` is that
-- of `dial`.
module _ (in_time : ChainHop → Bool) (dial_tcp : Text → Option ℕ → SockOpts → Option Stream) where
  abbrev pub direct : Option Stream → Result DialError Stream
  direct none = err DialError.dial_failed
  direct (some s) = ok s

  -- `Dialer::connect`
  unfoldable pub dialer_connect : Dialer → Text → Result DialError Stream
  dialer_connect d target =
      if is_empty d.chain
      then direct (dial_tcp target d.mark d.sock)
      else dial in_time (λ addr. dial_tcp addr d.mark d.sock) d.chain target

-- `Context`
pub record Context : Type 0 where
  pub buf_size : ℕ
  pub dialer : Dialer
  pub mark : Option ℕ
  pub sock : SockOpts

-- the context that `run_userspace` of src/app.rs builds
abbrev pub context_of : Config → Context
context_of cfg = record {
  buf_size = cfg.buf_size;
  dialer = new_dialer cfg.chain cfg.mark cfg.sock;
  mark = cfg.mark;
  sock = cfg.sock;
}
