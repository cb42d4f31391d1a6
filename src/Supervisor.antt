-- ===== src/Supervisor.antt =====
-- src/supervisor.rs: the loop that restarts a listener, over the events that it meets. Times are in
-- milliseconds.
pub mod Backoff
use gust.Prelude.{
  ℕ, zero, suc, ◌+◌, ◌*◌, ◌||◌, Bool, true, false, List, [], ◌∷◌, leb, if◌then◌else◌,
}
use gust.Text.{Text, codes}
use gust.Stats.{ListenerStats, set_last_error, inc_restart}

abbrev pub backoff_initial : ℕ
backoff_initial = 100

abbrev pub backoff_max : ℕ
backoff_max = 5000

abbrev pub backoff_healthy : ℕ
backoff_healthy = 10000

-- What the serve loop's task ends with.
pub data Outcome : Type 0 where
  clean_stop panicked aborted : Outcome
  failed : Text → Outcome

-- What one round of the loop meets: the flag at its start, whether the shutdown comes while the
-- task runs, how the task ends and after what time, the flag then, and whether the shutdown comes
-- during the wait.
pub record Round : Type 0 where
  pub triggered_at_start : Bool
  pub cancelled_in_serve : Bool
  pub outcome : Outcome
  pub elapsed : ℕ
  pub triggered_after : Bool
  pub cancelled_in_wait : Bool

-- The waits that were begun, the counters, and whether `supervise` has returned.
pub record Run : Type 0 where
  pub waits : List ℕ
  pub stats : ListenerStats
  pub returned : Bool

abbrev pub smaller : ℕ → ℕ → ℕ
smaller a b = if leb a b then a else b

abbrev pub stopped : ListenerStats → Run
stopped stats = record { waits = []; stats = stats; returned = true }

abbrev pub waited : ℕ → Run → Run
waited w run = record run { waits = w ∷ run.waits }

-- the backoff after a task that ran for `elapsed`
abbrev pub reset_backoff : ℕ → ℕ → ℕ
reset_backoff elapsed backoff = if leb backoff_healthy elapsed then backoff_initial else backoff

-- what follows a failure; `go` is the rest of the loop
abbrev pub after_failure : (ℕ → ListenerStats → Run) → ℕ → ListenerStats → Round → Run
after_failure go backoff stats r =
    let b = reset_backoff r.elapsed backoff in
    if r.triggered_after
    then stopped stats
    else if r.cancelled_in_wait
    then waited b (stopped (inc_restart stats))
    else waited b (go (smaller (b * 2) backoff_max) (inc_restart stats))

-- the `match` on the outcome
abbrev pub after_task : (ℕ → ListenerStats → Run) → ℕ → ListenerStats → Round → Outcome → Run
after_task go backoff stats r clean_stop = stopped stats
after_task go backoff stats r (failed e) = after_failure go backoff (set_last_error e stats) r
after_task go backoff stats r panicked =
    after_failure go backoff (set_last_error (codes "panic") stats) r
after_task go backoff stats r aborted = stopped stats

-- The loop over the rounds that are observed.
unfoldable pub supervise_from : ℕ → ListenerStats → List Round → Run
supervise_from backoff stats [] = record { waits = []; stats = stats; returned = false }
supervise_from backoff stats (r ∷ rounds) =
    if r.triggered_at_start || r.cancelled_in_serve
    then stopped stats
    else after_task (λ b s. supervise_from b s rounds) backoff stats r r.outcome

unfoldable pub supervise : ListenerStats → List Round → Run
unfolding supervise_from
supervise stats rounds = supervise_from backoff_initial stats rounds
