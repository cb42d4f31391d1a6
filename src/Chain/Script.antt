-- ===== src/Chain/Script.antt =====
-- What goes over the wire when src/chain.rs dials through its hops.
use gust.Prelude.{
  ℕ, ◌≡◌, ◌↔◌, refl, sym, ap, ◌∙◌, arith, append-nil, Bool, true, not, List, [], ◌∷◌, ◌++◌, Option,
  none, some, Result, ok, err, >>=-eq-ok, reject_if-eq-ok, map_err, map_err-eq-ok, subst,
  ok-injective,
}
use gust.Text.{Text}
use gust.Text.Utf8.{Bytes}
use gust.Config.{ChainHop}
use gust.Netopt.{split_host_port}
use gust.Socks5.{connect}
use gust.Socks5.Stream.{Stream, Error}
use gust.Socks5.Stream.Moves.{Moves, Moves-refl, Moves-trans, Moves-split}
use gust.Socks5.Transcript.{Transcript}
use gust.Socks5.Transcript.Complete.{connect_iff}
use gust.Chain.{
  bad_address, timed_out, next_address, stream_or_error, handshakes, first_stream, dial,
}

-- The address behind a hop: that of the next hop, and the target behind the last one.
abbrev pub IsBehind : List ChainHop → Text → Text → Type 0
IsBehind [] target dest = dest ≡ target
IsBehind (next ∷ rest) target dest = dest ≡ next.addr

next_address-IsBehind :
    (hops : List ChainHop) (target : Text) → IsBehind hops target (next_address hops target)
next_address-IsBehind [] target = refl
next_address-IsBehind (next ∷ rest) target = refl

IsBehind-next_address :
    (hops : List ChainHop) (target dest : Text)
    → IsBehind hops target dest
    → next_address hops target ≡ dest
IsBehind-next_address [] target dest h = sym h
IsBehind-next_address (next ∷ rest) target dest h = sym h

-- One whole handshake with each hop in turn, each for the address behind that hop.
pub data Script : List ChainHop → Text → Bytes → Bytes → Type 0 where
  finished : (target : Text) → Script [] target [] []
  through :
      (hop : ChainHop) (hops : List ChainHop) (target dest host : Text) (port : ℕ) (o i p j : Bytes)
      → IsBehind hops target dest
      → split_host_port dest ≡ ok (host, port)
      → Transcript host port hop.user hop.pass o i
      → Script hops target p j
      → Script (hop ∷ hops) target (o ++ p) (i ++ j)

stream_or_error-eq-ok :
    (r : Result Error (Unit {0}) × Stream) (t : Stream) → stream_or_error r ≡ ok t → r ≡ (ok tt, t)
stream_or_error-eq-ok (ok x, s) t h = ap (λ u. (ok tt, u)) (ok-injective h)
stream_or_error-eq-ok (err e, s) t h = cc

Moves-nil : (s u : Stream) → Moves s [] [] u → s ≡ u
Moves-nil s u m =
    ap (λ (i : Bytes). record s { incoming = i }) m.taken
    ∙ ap (λ (x : Bytes). record s { incoming = u.incoming; sent = x })
        (sym (append-nil s.sent) ∙ sym m.written)
    ∙ ap (λ (r : ℕ). record u { room = r }) (omega (arith, m.fits))

first_stream-eq-ok : (o : Option Stream) (s : Stream) → first_stream o ≡ ok s → o ≡ some s
first_stream-eq-ok none s h = cc
first_stream-eq-ok (some t) s h = ap some (ok-injective h)

module _ (in_time : ChainHop → Bool) where
  handshakes_sound :
      (hops : List ChainHop) (target : Text) (s u : Stream)
      → handshakes in_time hops target s ≡ ok u
      → (out : Bytes) × (inp : Bytes) × Script hops target out inp × Moves s inp out u
  unfolding handshakes
  handshakes_sound [] target s u h =
      ([], [], finished target, subst (Moves s [] []) (ok-injective h) (Moves-refl s))
  handshakes_sound (hop ∷ hops) target s u h =
      let (hp, e, h1) =
        >>=-eq-ok (map_err bad_address (split_host_port (next_address hops target))) _ h in
      let (_, h2) = reject_if-eq-ok (not (in_time hop)) (timed_out hop.addr) _ h1 in
      let (t, c, h3) = >>=-eq-ok (stream_or_error (connect hp.0 hp.1 hop.user hop.pass s)) _ h2 in
      let (o, i, a, m) =
        (connect_iff hp.0 hp.1 hop.user hop.pass s t).0 (stream_or_error-eq-ok _ t c) in
      let (p, j, b, n) = handshakes_sound hops target t u h3 in
      (
        o ++ p,
        i ++ j,
        through hop hops target (next_address hops target) hp.0 hp.1 o i p j
            (next_address-IsBehind hops target) (map_err-eq-ok bad_address _ e) a b,
        Moves-trans m n,
      )

  module _ (timely : (hop : ChainHop) → in_time hop ≡ true) where
    handshakes_complete :
        (hops : List ChainHop) (target : Text) (s u : Stream) (out inp : Bytes)
        → Script hops target out inp
        → Moves s inp out u
        → handshakes in_time hops target s ≡ ok u
    unfolding handshakes
    handshakes_complete hops target s u out inp (finished target') m = ap ok (Moves-nil s u m)
    handshakes_complete hops target s u out inp
          (through hop hops' target' dest host port o i p j d e a b) m =
        let (t, m1, m2) = Moves-split i j o p m in
        rw
          (
            IsBehind-next_address hops' target' dest d,
            e,
            timely hop,
            (connect_iff host port hop.user hop.pass s t).1 (o, i, a, m1),
          )
          (handshakes_complete hops' target' t u p j b m2)

-- If no handshake times out, dialing through the hops succeeds exactly if the connection to the
-- first hop is made and the bytes that come in begin with the servers' sides of one whole handshake
-- with each hop in turn, each for the address behind that hop and the last for the target. The
-- clients' sides are then what was written, and the stream stands at the target's first byte.
pub dial_iff :
    (in_time : ChainHop → Bool) (dial_tcp : Text → Option Stream)
    → ((hop : ChainHop) → in_time hop ≡ true)
    → (hop : ChainHop) (hops : List ChainHop) (target : Text) (u : Stream)
    → (dial in_time dial_tcp (hop ∷ hops) target ≡ ok u) ↔ (
        (s : Stream) × (dial_tcp hop.addr ≡ some s)
        × (out : Bytes) × (inp : Bytes) × Script (hop ∷ hops) target out inp
        × Moves s inp out u)
unfolding dial
dial_iff in_time dial_tcp timely hop hops target u = (
  λ h.
      let (s, f, g) = >>=-eq-ok (first_stream (dial_tcp hop.addr)) _ h in
      let (out, inp, v, m) = handshakes_sound in_time (hop ∷ hops) target s u g in
      (s, first_stream-eq-ok (dial_tcp hop.addr) s f, out, inp, v, m),
  λ (s, f, out, inp, v, m).
      rw f (handshakes_complete in_time timely (hop ∷ hops) target s u out inp v m),
)
