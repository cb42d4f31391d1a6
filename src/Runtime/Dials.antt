-- ===== src/Runtime/Dials.antt =====
-- How a connection of the forwarders is dialed: `Dialer` of src/runtime.rs in the context that
-- src/app.rs builds from a validated configuration.
use gust.Prelude.{
  ℕ, ◌≡◌, Bool, true, false, List, [], ◌∷◌, Option, none, some, Result, ok, err, ◌>>=◌, reject_if,
  not, is_empty, All, Each, if◌then◌else◌,
}
use gust.Text.{Text}
use gust.Netopt.{SockOpts}
use gust.Cli.{RawArgs}
use gust.Config.{ChainHop, ListenerSpec, Config, build_config}
use gust.Config.Listeners.{IsEndpoint, IsHopOf, IsListenerOf}
use gust.Config.Valid.{build_config-IsConfigOf}
use gust.Socks5
use gust.Chain.{
  DialError, bad_address, no_hops, dial_failed, timed_out, handshake_failed, stream_or_error,
  next_address, handshakes, dial, first_stream,
}
use gust.Socks5.Stream.{Stream, Error}
use gust.Runtime.{dialer_connect, direct, context_of}

-- The ends of a chain are hosts with ports.
hops-All :
    (texts : List Text) (hops : List ChainHop)
    → Each IsHopOf texts hops
    → All (λ h. IsEndpoint h.addr) hops
hops-All [] [] h = tt
hops-All [] (c ∷ hops) h = absurd h
hops-All (t ∷ texts) [] h = absurd h
hops-All (t ∷ texts) (c ∷ hops) (v, h) = (v.is_endpoint, hops-All texts hops h)

-- Neither the panic at an empty chain nor an address that does not split.
abbrev pub NoAddressError {ℓ} : {A : Type ℓ} → Result DialError A → Type 0
NoAddressError (ok a) = Unit
NoAddressError (err no_hops) = ⊥
NoAddressError (err (bad_address e)) = ⊥
NoAddressError (err _) = Unit

bind-NoAddressError {ℓ κ} :
    {A : Type ℓ} {B : Type κ} (m : Result DialError A) (f : A → Result DialError B)
    → NoAddressError m
    → ((a : A) → NoAddressError (f a))
    → NoAddressError (m >>= f)
bind-NoAddressError (ok a) f h k = k a
bind-NoAddressError (err no_hops) f h k = h
bind-NoAddressError (err (bad_address e)) f h k = h
bind-NoAddressError (err dial_failed) f h k = tt
bind-NoAddressError (err (timed_out t)) f h k = tt
bind-NoAddressError (err (handshake_failed e)) f h k = tt

next_address-IsEndpoint :
    (hops : List ChainHop) (target : Text)
    → All (λ h. IsEndpoint h.addr) hops
    → IsEndpoint target
    → IsEndpoint (next_address hops target)
next_address-IsEndpoint [] target h t = t
next_address-IsEndpoint (c ∷ hops) target (v, h) t = v

stream_or_error-NoAddressError :
    (r : Result Error (Unit {0}) × Stream) → NoAddressError (stream_or_error r)
stream_or_error-NoAddressError (ok x, s) = tt
stream_or_error-NoAddressError (err e, s) = tt

reject_if-NoAddressError : (b : Bool) (t : Text) → NoAddressError (reject_if b (timed_out t))
reject_if-NoAddressError true t = tt
reject_if-NoAddressError false t = tt

first_stream-NoAddressError : (o : Option Stream) → NoAddressError (first_stream o)
first_stream-NoAddressError none = tt
first_stream-NoAddressError (some s) = tt

module _ (in_time : ChainHop → Bool) (dial_tcp : Text → Option ℕ → SockOpts → Option Stream) where
  handshakes-NoAddressError :
      (hops : List ChainHop) (target : Text) (s : Stream)
      → All (λ h. IsEndpoint h.addr) hops
      → IsEndpoint target
      → NoAddressError (handshakes in_time hops target s)
  unfolding handshakes
  handshakes-NoAddressError [] target s h t = tt
  handshakes-NoAddressError (c ∷ hops) target s (v, h) t =
      let (host, port, e) = next_address-IsEndpoint hops target h t in
      rw e (
        bind-NoAddressError (reject_if (not (in_time c)) (timed_out c.addr)) _
          (reject_if-NoAddressError (not (in_time c)) c.addr)
          (λ _.
            bind-NoAddressError (stream_or_error (Socks5.connect host port c.user c.pass s)) _
              (stream_or_error-NoAddressError (Socks5.connect host port c.user c.pass s))
              (λ u. handshakes-NoAddressError hops target u h t)))

  direct-NoAddressError : (o : Option Stream) → NoAddressError (direct in_time dial_tcp o)
  direct-NoAddressError none = tt
  direct-NoAddressError (some s) = tt

  by_chain :
      (hops : List ChainHop) (o : Option Stream) (f : Text → Option Stream) (target : Text)
      → All (λ h. IsEndpoint h.addr) hops
      → IsEndpoint target
      → NoAddressError
          (if is_empty hops then direct in_time dial_tcp o else dial in_time f hops target)
  unfolding dial
  by_chain [] o f target h t = direct-NoAddressError o
  by_chain (c ∷ hops) o f target h t =
      bind-NoAddressError (first_stream (f c.addr)) _ (first_stream-NoAddressError (f c.addr))
        (λ s. handshakes-NoAddressError (c ∷ hops) target s h t)

  -- a connection to a target, through the context of a configuration
  abbrev pub dialed : Config → Text → Result DialError Stream
  dialed c target = dialer_connect in_time dial_tcp (context_of c).dialer target

  targets-NoAddressError :
      (c : Config) (ts : List Text)
      → All (λ h. IsEndpoint h.addr) c.chain
      → All IsEndpoint ts
      → All (λ t. NoAddressError (dialed c t)) ts
  unfolding dialer_connect
  targets-NoAddressError c [] h v = tt
  targets-NoAddressError c (t ∷ ts) h (v, vs) =
      (by_chain c.chain _ _ t h v, targets-NoAddressError c ts h vs)

  listeners-NoAddressError :
      (c : Config) (texts : List Text) (ls : List ListenerSpec)
      → All (λ h. IsEndpoint h.addr) c.chain
      → Each IsListenerOf texts ls
      → All (λ l. All (λ t. NoAddressError (dialed c t)) l.targets) ls
  listeners-NoAddressError c [] [] h v = tt
  listeners-NoAddressError c [] (l ∷ ls) h v = absurd v
  listeners-NoAddressError c (x ∷ texts) [] h v = absurd v
  listeners-NoAddressError c (x ∷ texts) (l ∷ ls) h (v, vs) = (
    targets-NoAddressError c l.targets h v.targets_are_endpoints,
    listeners-NoAddressError c texts ls h vs,
  )

  -- With a configuration that was validated, no dial to a target of its listeners, direct or through
  -- its hops, meets the panic at an empty chain or fails at an address that does not split.
  pub validated-NoAddressError :
      (raw : RawArgs) (c : Config)
      → build_config raw ≡ ok c
      → All (λ l. All (λ t. NoAddressError (dialed c t)) l.targets) c.listeners
  validated-NoAddressError raw c h =
      let v = build_config-IsConfigOf raw c h in
      listeners-NoAddressError c raw.listens c.listeners (hops-All raw.forwards c.chain v.chain_of)
        v.listeners_of
