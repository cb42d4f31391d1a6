-- ===== src/Forward/Tcp/Serving.antt =====
-- src/forward/tcp.rs: the accept loop never panics and keeps its tallies.
use gust.Prelude.{
  ℕ, zero, suc, ◌%◌, ◌≢◌, ◌<◌, refl, false, if-cases, List, [], ◌∷◌, Option, none, some, length,
  arith, get_elem?, ◌==◌,
}
use gust.Text.{Text}
use gust.Stats.{new_stats, inc_error}
use gust.Forward.{pick_target, picks}
use gust.Forward.Tcp.{
  Event, accept_fails, accepts, shuts_down, begins, ends, Server, new_server, conn_at, serve_event,
  serve_rest, serve,
}
use gust.Forward.Tcp.Counts.{Tallies}
use gust.Forward.Tcp.Tally.{begin_task-Tallies, end_task-Tallies, Serves, spawn_conn-Serves}

get_elem?_in : (ts : List Text) (i : ℕ) → i < length ts → get_elem? ts i ≢ none
get_elem?_in [] i h e = absurd (omega (arith, h))
get_elem?_in (t ∷ ts) zero h e = cc
get_elem?_in (t ∷ ts) (suc i) h e = get_elem?_in ts i (omega (arith, h)) e

remainder_lt : (n m : ℕ) → n % suc m < suc m
remainder_lt n m = omega arith

pick_target-some : (targets : List Text) (rr : ℕ) → targets ≢ [] → (pick_target targets rr).0 ≢ none
unfolding pick_target
pick_target-some [] rr h = absurd (h refl)
pick_target-some (t ∷ ts) rr h =
    if-cases (λ (r : Option Text × ℕ). r.0 ≢ none) (length (t ∷ ts) == 1) (λ _ e. cc)
      (λ _. get_elem?_in (t ∷ ts) (rr % length (t ∷ ts)) (remainder_lt rr (length ts)))

refused-Tallies :
    (targets : List Text) (s : Server)
    → Tallies targets s
    → Tallies targets (record s { stats = inc_error s.stats; refused = suc s.refused })
unfolding inc_error
refused-Tallies targets s v = record {
  active = v.active;
  accepted = v.accepted;
  errors = omega (arith, v.errors);
  turn = v.turn;
  picked = v.picked;
}

stopped-Tallies :
    (targets : List Text) (s : Server)
    → Tallies targets s
    → Tallies targets (record s { serving = false })
stopped-Tallies targets s v = record {
  active = v.active;
  accepted = v.accepted;
  errors = v.errors;
  turn = v.turn;
  picked = v.picked;
}

module _ (targets : List Text) (some_target : targets ≢ []) where
  serve_event-Serves :
      (e : Event) (s : Server) → Tallies targets s → Serves targets (serve_event targets e s)
  unfolding serve_event
  serve_event-Serves accept_fails s v =
      if-cases (Tallies targets) s.serving (λ _. refused-Tallies targets s v) (λ _. v)
  serve_event-Serves accepts s v =
      if-cases (Serves targets) s.serving
        (λ _.
          spawn_conn-Serves targets s (pick_target targets s.rr) v refl
            (pick_target-some targets s.rr some_target))
        (λ _. v)
  serve_event-Serves shuts_down s v = stopped-Tallies targets s v
  serve_event-Serves (begins i) s v = begin_task-Tallies targets s i (conn_at i s.conns) v refl
  serve_event-Serves (ends i tuned dialed relayed) s v =
      end_task-Tallies targets s i tuned dialed relayed (conn_at i s.conns) v refl

  serve_from :
      (events : List Event) (s : Server)
      → Tallies targets s
      → Serves targets (serve targets events s)
  unfolding serve
  serve_from [] s v = v
  serve_from (e ∷ events) s v =
      rest (serve_event targets e s) (serve_event-Serves e s v) (serve_from events)
    where
      rest :
          (o : Option Server)
          → Serves targets o
          → ((t : Server) → Tallies targets t → Serves targets (serve targets events t))
          → Serves targets (serve_rest (serve targets events) o)
      rest none h f = h
      rest (some t) h f = f t h

-- With a target at hand, a TCP listener never panics. Whatever accept errors, connections and ends
-- of tasks come, in any order, the gauge is the number of the connections whose tasks run, the
-- counter that of those whose tasks have run, and the error count that of the accept errors and of
-- the connections that failed, each modulo 2^64; and the connections got the targets that
-- `pick_target` gives one after the other from a counter of 0.
pub serve-Serves :
    (name proto : Text) (targets : List Text) (events : List Event)
    → targets ≢ []
    → Serves targets (serve targets events (new_server (new_stats name proto)))
unfolding new_server new_stats picks
serve-Serves name proto targets events h =
    serve_from targets h events (new_server (new_stats name proto)) (record {
      active = omega arith;
      accepted = omega arith;
      errors = omega arith;
      turn = refl;
      picked = refl;
    })
