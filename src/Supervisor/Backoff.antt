-- ===== src/Supervisor/Backoff.antt =====
-- The waits between the restarts of a listener, in src/supervisor.rs.
use gust.Prelude.{
  ℕ, zero, suc, ◌+◌, ◌*◌, ◌%◌, ◌^◌, ◌≤◌, ◌<◌, ◌≡◌, ◌≢◌, refl, ap, ◌∙◌, false, ◌||◌, List, [], ◌∷◌,
  All, length, Bool-cases, inl, inr, arith,
}
use gust.Text.{Text, codes}
use gust.Stats.{ListenerStats, set_last_error, inc_restart, two_64}
use gust.Supervisor.{
  Outcome, clean_stop, panicked, aborted, failed, Round, Run, smaller, stopped, waited,
  reset_backoff, after_failure, after_task, supervise_from, supervise, backoff_initial, backoff_max,
}

abbrev pub IsBackoff : ℕ → Type 0
IsBackoff b = (100 ≤ b) × (b ≤ 5000)

-- Every wait is in range, and each is counted as a restart.
record IsRunFrom (before : ListenerStats) (run : Run) : Type 0 where
  in_range : All IsBackoff run.waits
  counted : run.stats.restarts ≡ (before.restarts + length run.waits) % two_64

smaller-IsBackoff : (b : ℕ) → IsBackoff b → IsBackoff (smaller (b * 2) backoff_max)
smaller-IsBackoff b (l, h) = ground arith

reset-IsBackoff : (e b : ℕ) → IsBackoff b → IsBackoff (reset_backoff e b)
reset-IsBackoff e b (l, h) = ground arith

-- the counter of a listener as it can be
abbrev pub IsCount : ListenerStats → Type 0
IsCount s = s.restarts < two_64

stopped-IsRunFrom : (s : ListenerStats) → IsCount s → IsRunFrom s (stopped s)
stopped-IsRunFrom s c = record { in_range = tt; counted = omega arith }

module _ (go : ℕ → ListenerStats → Run)
    (goes : (b : ℕ) (s : ListenerStats) → IsBackoff b → IsCount s → IsRunFrom s (go b s)) where
  waited-IsRunFrom :
      (b : ℕ) (s : ListenerStats) (run : Run)
      → IsBackoff b
      → IsRunFrom (inc_restart s) run
      → IsRunFrom s (waited b run)
  unfolding inc_restart
  waited-IsRunFrom b s run v h = record {
    in_range = (v, h.in_range);
    counted = (let q = h.counted in omega arith);
  }

  inc_restart-IsCount : (s : ListenerStats) → IsCount (inc_restart s)
  unfolding inc_restart
  inc_restart-IsCount s = omega arith

  after_failure-IsRunFrom :
      (b : ℕ) (s : ListenerStats) (r : Round)
      → IsBackoff b
      → IsCount s
      → IsRunFrom s (after_failure go b s r)
  after_failure-IsRunFrom b s r v c =
      let w = reset_backoff r.elapsed b in
      let k = reset-IsBackoff r.elapsed b v in
      elim (Bool-cases r.triggered_after) [
        | inl e ↦ rw e (stopped-IsRunFrom s c)
        | inr e ↦ elim (Bool-cases r.cancelled_in_wait) [
          | inl f ↦
              rw (e, f)
                (waited-IsRunFrom w s (stopped (inc_restart s)) k
                  (stopped-IsRunFrom (inc_restart s) (inc_restart-IsCount s)))
          | inr f ↦
              rw (e, f)
                (waited-IsRunFrom w s (go (smaller (w * 2) backoff_max) (inc_restart s)) k (
                  goes (smaller (w * 2) backoff_max) (inc_restart s) (smaller-IsBackoff w k)
                    (inc_restart-IsCount s)))
        ]
      ]

  noted :
      (t : Text) (s : ListenerStats) (run : Run)
      → IsRunFrom (set_last_error t s) run
      → IsRunFrom s run
  unfolding set_last_error
  noted t s run h = record { in_range = h.in_range; counted = h.counted }

  noted-IsCount : (t : Text) (s : ListenerStats) → IsCount s → IsCount (set_last_error t s)
  unfolding set_last_error
  noted-IsCount t s c = c

  after_task-IsRunFrom :
      (b : ℕ) (s : ListenerStats) (r : Round) (o : Outcome)
      → IsBackoff b
      → IsCount s
      → IsRunFrom s (after_task go b s r o)
  after_task-IsRunFrom b s r clean_stop v c = stopped-IsRunFrom s c
  after_task-IsRunFrom b s r (failed t) v c =
      noted t s (after_failure go b (set_last_error t s) r)
        (after_failure-IsRunFrom b (set_last_error t s) r v (noted-IsCount t s c))
  after_task-IsRunFrom b s r panicked v c =
      let t = codes "panic" in
      noted t s (after_failure go b (set_last_error t s) r)
        (after_failure-IsRunFrom b (set_last_error t s) r v (noted-IsCount t s c))
  after_task-IsRunFrom b s r aborted v c = stopped-IsRunFrom s c

supervise_from-IsRunFrom :
    (rounds : List Round) (b : ℕ) (s : ListenerStats)
    → IsBackoff b
    → IsCount s
    → IsRunFrom s (supervise_from b s rounds)
unfolding supervise_from
supervise_from-IsRunFrom [] b s v c = record { in_range = tt; counted = omega arith }
supervise_from-IsRunFrom (r ∷ rounds) b s v c =
    elim (Bool-cases (r.triggered_at_start || r.cancelled_in_serve)) [
      | inl e ↦ rw e (stopped-IsRunFrom s c)
      | inr e ↦ rw e (
          after_task-IsRunFrom (λ b s. supervise_from b s rounds)
            (λ b s. supervise_from-IsRunFrom rounds b s) b s r r.outcome v c)
    ]

-- Whatever a listener meets, each wait before a restart takes 100 ms to 5 s.
pub supervise-IsBackoff :
    (s : ListenerStats) (rounds : List Round) → IsCount s → All IsBackoff (supervise s rounds).waits
unfolding supervise
supervise-IsBackoff s rounds c =
    (supervise_from-IsRunFrom rounds backoff_initial s (omega arith, omega arith) c).in_range

-- Whatever a listener meets, the counter of the restarts grows by the number of the waits that
-- were begun, modulo 2^64.
pub supervise-restarts :
    (s : ListenerStats) (rounds : List Round)
    → IsCount s
    → (supervise s rounds).stats.restarts
      ≡ (s.restarts + length (supervise s rounds).waits) % two_64
unfolding supervise
supervise-restarts s rounds c =
    (supervise_from-IsRunFrom rounds backoff_initial s (omega arith, omega arith) c).counted

-- A task that fails or panics before 10 s, with no shutdown.
pub record IsQuickFailure (r : Round) : Type 0 where
  pub not_at_start : r.triggered_at_start ≡ false
  pub not_in_serve : r.cancelled_in_serve ≡ false
  pub not_after : r.triggered_after ≡ false
  pub not_in_wait : r.cancelled_in_wait ≡ false
  pub quick : r.elapsed < 10000
  pub not_clean : r.outcome ≢ clean_stop
  pub not_aborted : r.outcome ≢ aborted

-- 100 ms · 2^k, and 5 s at most
pub exponential : ℕ → ℕ
exponential k = smaller (100 * 2 ^ k) 5000

abbrev pub exponentials : ℕ → ℕ → List ℕ
exponentials k zero = []
exponentials k (suc n) = exponential k ∷ exponentials (suc k) n

smaller_twice : (x : ℕ) → smaller (smaller x 5000 * 2) backoff_max ≡ smaller (x * 2) 5000
smaller_twice x = ground arith

exponential-suc : (k : ℕ) → smaller (exponential k * 2) backoff_max ≡ exponential (suc k)
unfolding exponential
exponential-suc k =
    let e : 100 * 2 ^ k * 2 ≡ 100 * 2 ^ suc k = omega arith in
    smaller_twice (100 * 2 ^ k) ∙ ap (λ x. smaller x 5000) e

quick-reset : (e b : ℕ) → e < 10000 → reset_backoff e b ≡ b
quick-reset e b h = ground arith

module _ (go : ℕ → ListenerStats → Run) (k : ℕ) (r : Round) (h : IsQuickFailure r) where
  after_failure-quick :
      (s : ListenerStats)
      → after_failure go (exponential k) s r
        ≡ waited (exponential k) (go (exponential (suc k)) (inc_restart s))
  after_failure-quick s =
      rw
        (
          h.not_after,
          h.not_in_wait,
          quick-reset r.elapsed (exponential k) h.quick,
          exponential-suc k,
        )
        refl

  after_task-waits :
      (s : ListenerStats) (o : Outcome) (rest : List ℕ)
      → o ≢ clean_stop
      → o ≢ aborted
      → ((s : ListenerStats) → (go (exponential (suc k)) s).waits ≡ rest)
      → (after_task go (exponential k) s r o).waits ≡ exponential k ∷ rest
  after_task-waits s clean_stop rest n m g = absurd (n refl)
  after_task-waits s aborted rest n m g = absurd (m refl)
  after_task-waits s panicked rest n m g =
      let t = set_last_error (codes "panic") s in
      ap (λ x. x.waits) (after_failure-quick t) ∙ ap (◌∷◌ (exponential k)) (g (inc_restart t))
  after_task-waits s (failed e) rest n m g =
      let t = set_last_error e s in
      ap (λ x. x.waits) (after_failure-quick t) ∙ ap (◌∷◌ (exponential k)) (g (inc_restart t))

quick_failures-waits :
    (rounds : List Round) (k : ℕ) (s : ListenerStats)
    → All IsQuickFailure rounds
    → (supervise_from (exponential k) s rounds).waits ≡ exponentials k (length rounds)
unfolding supervise_from
quick_failures-waits [] k s h = refl
quick_failures-waits (r ∷ rounds) k s (h, hs) =
    rw (h.not_at_start, h.not_in_serve)
      (after_task-waits (λ b s. supervise_from b s rounds) k r h s r.outcome
        (exponentials (suc k) (length rounds)) h.not_clean h.not_aborted
        (λ s. quick_failures-waits rounds (suc k) s hs))

-- Where a listener fails or panics n times in a row, each time before 10 s and with no shutdown,
-- the waits are 100 ms · 2^k for k from 0 to n - 1, each cut to 5 s.
pub supervise-exponential :
    (s : ListenerStats) (rounds : List Round)
    → All IsQuickFailure rounds
    → (supervise s rounds).waits ≡ exponentials 0 (length rounds)
unfolding supervise exponential
supervise-exponential s rounds h = quick_failures-waits rounds 0 s h
