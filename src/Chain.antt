-- ===== src/Chain.antt =====
-- src/chain.rs: dialing through SOCKS5 hops. `dial_tcp`, the network behind it and the clock are
-- parameters.
pub mod Script
use gust.Prelude.{
  ℕ, Bool, true, false, not, List, [], ◌∷◌, Option, none, some, Result, ok, err, ◌>>=◌, ◌>>◌,
  reject_if, map_err,
}
use gust.Text.{Text}
use gust.Config.{ChainHop}
use gust.Netopt.{InvalidHostPort, split_host_port}
use gust.Socks5.{connect}
use gust.Socks5.Stream.{Stream, Error}

-- The errors of `dial`; `no_hops` is the panic of `hops[0]`.
pub data DialError : Type 0 where
  no_hops dial_failed : DialError
  bad_address : InvalidHostPort → DialError
  timed_out : Text → DialError
  handshake_failed : Error → DialError

-- the address behind a hop: the next hop's, or the target
abbrev pub next_address : List ChainHop → Text → Text
next_address [] target = target
next_address (hop ∷ hops) target = hop.addr

abbrev pub stream_or_error : Result Error (Unit {0}) × Stream → Result DialError Stream
stream_or_error (ok _, s) = ok s
stream_or_error (err e, s) = err (handshake_failed e)

abbrev pub first_stream : Option Stream → Result DialError Stream
first_stream none = err dial_failed
first_stream (some s) = ok s

-- `in_time` tells if the handshake with a hop ends before its time-out.
module _ (in_time : ChainHop → Bool) where
  -- the loop over the hops
  unfoldable pub handshakes : List ChainHop → Text → Stream → Result DialError Stream
  handshakes [] target s = ok s
  handshakes (hop ∷ hops) target s = do
    (host, port) ← map_err bad_address (split_host_port (next_address hops target))
    reject_if (not (in_time hop)) (timed_out hop.addr)
    t ← stream_or_error (connect host port hop.user hop.pass s)
    handshakes hops target t

  -- `dial_tcp` connects to an address, with the options of the call.
  unfoldable pub dial :
      (dial_tcp : Text → Option Stream) → List ChainHop → Text → Result DialError Stream
  dial dial_tcp [] target = err no_hops
  dial dial_tcp (hop ∷ hops) target = do
    s ← first_stream (dial_tcp hop.addr)
    handshakes (hop ∷ hops) target s
