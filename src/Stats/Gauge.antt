-- ===== src/Stats/Gauge.antt =====
-- The gauge of the active connections of src/stats.rs, and the guards that are alive.
use gust.Prelude.{ℕ, suc, ◌+◌, ◌%◌, ◌≡◌, arith}
use gust.Text.{Text}
use gust.Stats.{
  ListenerStats, two_64, new_stats, on_accept, drop_guard, inc_restart, inc_error, set_last_error,
}

-- The counters with the numbers of the guards that are alive and that were dropped.
pub record World : Type 0 where
  pub stats : ListenerStats
  pub alive : ℕ
  pub dropped : ℕ

-- What the tasks of a listener do to its counters, in any order.
pub data Step : World → World → Type 0 where
  accept :
      (s : ListenerStats) (a d : ℕ)
      → Step
          (record { stats = s; alive = a; dropped = d })
          (record { stats = on_accept s; alive = suc a; dropped = d })
  drop_one :
      (s : ListenerStats) (a d : ℕ)
      → Step
          (record { stats = s; alive = suc a; dropped = d })
          (record { stats = drop_guard s; alive = a; dropped = suc d })
  restart :
      (s : ListenerStats) (a d : ℕ)
      → Step
          (record { stats = s; alive = a; dropped = d })
          (record { stats = inc_restart s; alive = a; dropped = d })
  fail :
      (s : ListenerStats) (a d : ℕ)
      → Step
          (record { stats = s; alive = a; dropped = d })
          (record { stats = inc_error s; alive = a; dropped = d })
  note_error :
      (s : ListenerStats) (a d : ℕ) (e : Text)
      → Step
          (record { stats = s; alive = a; dropped = d })
          (record { stats = set_last_error e s; alive = a; dropped = d })

-- What can be reached from a new listener.
pub data Reachable (name proto : Text) : World → Type 0 where
  start : Reachable name proto (record { stats = new_stats name proto; alive = 0; dropped = 0 })
  then_step : (v w : World) → Reachable name proto v → Step v w → Reachable name proto w

abbrev Counts : World → Type 0
Counts w = (w.stats.active ≡ w.alive % two_64) × (w.stats.accepted ≡ (w.alive + w.dropped) % two_64)

Step-Counts : (v w : World) → Step v w → Counts v → Counts w
unfolding on_accept drop_guard inc_restart inc_error set_last_error
Step-Counts v w (accept s a d) (p, q) = (omega arith, omega arith)
Step-Counts v w (drop_one s a d) (p, q) = (omega arith, omega arith)
Step-Counts v w (restart s a d) h = h
Step-Counts v w (fail s a d) h = h
Step-Counts v w (note_error s a d e) h = h

-- In whatever order connections are accepted, end, fail and listeners restart, the gauge is the
-- number of the guards that are alive, and the counter is the number of all guards ever handed
-- out, both modulo 2^64.
pub active-Counts : (name proto : Text) (w : World) → Reachable name proto w → Counts w
unfolding new_stats
active-Counts name proto x start = (omega arith, omega arith)
active-Counts name proto x (then_step v w r s) = Step-Counts v w s (active-Counts name proto v r)
