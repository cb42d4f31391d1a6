-- ===== src/Tests/RunTests.antt =====
-- The counters and the restarts of a listener at concrete events.
use gust.Prelude.{◌≡◌, ◌+◌, ◌%◌, refl, false, List, [], ◌∷◌, All, length, arith}
use gust.Text.{Text, codes}
use gust.Forward.{picks}
use gust.Forward.RoundRobin.{in_turn, picks-in_turn}
use gust.Stats.{ListenerStats, new_stats, on_accept, drop_guard, two_64}
use gust.Stats.Gauge.{accept, drop_one, start, then_step, active-Counts}
use gust.Supervisor.{Round, failed, supervise}
use gust.Supervisor.Backoff.{
  IsBackoff, IsQuickFailure, exponentials, supervise-IsBackoff, supervise-restarts,
  supervise-exponential,
}

abbrev name : Text
name = codes "tcp://:80"

abbrev fresh : ListenerStats
fresh = new_stats name (codes "tcp")

-- two connections, one of which has ended
active-Counts_example :
    ((drop_guard (on_accept (on_accept fresh))).active ≡ 1 % two_64)
    × ((drop_guard (on_accept (on_accept fresh))).accepted ≡ 2 % two_64)
active-Counts_example =
    active-Counts name (codes "tcp")
      (record { stats = drop_guard (on_accept (on_accept fresh)); alive = 1; dropped = 1 })
      (then_step (record { stats = on_accept (on_accept fresh); alive = 2; dropped = 0 })
        (record { stats = drop_guard (on_accept (on_accept fresh)); alive = 1; dropped = 1 })
        (then_step (record { stats = on_accept fresh; alive = 1; dropped = 0 })
          (record { stats = on_accept (on_accept fresh); alive = 2; dropped = 0 })
          (then_step (record { stats = fresh; alive = 0; dropped = 0 })
            (record { stats = on_accept fresh; alive = 1; dropped = 0 }) start (accept fresh 0 0))
          (accept (on_accept fresh) 1 0))
        (drop_one (on_accept (on_accept fresh)) 1 0))

abbrev bind_fails : Round
bind_fails = record {
  triggered_at_start = false;
  cancelled_in_serve = false;
  outcome = failed (codes "bind failed");
  elapsed = 3;
  triggered_after = false;
  cancelled_in_wait = false;
}

bind_fails-IsQuickFailure : IsQuickFailure bind_fails
bind_fails-IsQuickFailure = record {
  not_at_start = refl;
  not_in_serve = refl;
  not_after = refl;
  not_in_wait = refl;
  quick = omega arith;
  not_clean = λ q. cc;
  not_aborted = λ q. cc;
}

abbrev three_rounds : List Round
three_rounds = bind_fails ∷ bind_fails ∷ bind_fails ∷ []

supervise-IsBackoff_example : All IsBackoff (supervise fresh three_rounds).waits
unfolding new_stats
supervise-IsBackoff_example = supervise-IsBackoff fresh three_rounds (omega arith)

supervise-restarts_example :
    (supervise fresh three_rounds).stats.restarts
    ≡ (fresh.restarts + length (supervise fresh three_rounds).waits) % two_64
unfolding new_stats
supervise-restarts_example = supervise-restarts fresh three_rounds (omega arith)

supervise-exponential_example : (supervise fresh three_rounds).waits ≡ exponentials 0 3
supervise-exponential_example =
    supervise-exponential fresh three_rounds
      (bind_fails-IsQuickFailure, (bind_fails-IsQuickFailure, (bind_fails-IsQuickFailure, tt)))

abbrev two_targets : List Text
two_targets = codes "a:1" ∷ codes "b:2" ∷ []

picks-in_turn_example : picks 3 two_targets 7 ≡ in_turn 3 two_targets 7
picks-in_turn_example = picks-in_turn 3 two_targets 7 (λ q. cc) (omega arith)
