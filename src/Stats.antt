-- ===== src/Stats.antt =====
-- src/stats.rs: the counters of a listener. The atomics have 64 bits and wrap around.
pub mod Gauge
use gust.Prelude.{ℕ, zero, suc, ◌+◌, ◌-◌, ◌%◌, ◌^◌, List, [], ◌∷◌, ◌++◌, Option, none, some, length}
use gust.Text.{Text, codes}
use gust.Text.Number.{show}

pub record ListenerStats : Type 0 where
  pub name : Text
  pub proto : Text
  pub accepted : ℕ
  pub active : ℕ
  pub restarts : ℕ
  pub errors : ℕ
  pub last_error : Option Text

abbrev pub two_64 : ℕ
two_64 = 2 ^ 64

-- `fetch_add(1)` and `fetch_sub(1)`
abbrev pub fetch_add : ℕ → ℕ
fetch_add n = (n + 1) % two_64

abbrev pub fetch_sub : ℕ → ℕ
fetch_sub n = (n + (two_64 - 1)) % two_64

-- `ListenerStats::new`
unfoldable pub new_stats : Text → Text → ListenerStats
new_stats name proto = record {
  name = name;
  proto = proto;
  accepted = 0;
  active = 0;
  restarts = 0;
  errors = 0;
  last_error = none;
}

-- The guard that is returned is the caller's; it is dropped once.
unfoldable pub on_accept : ListenerStats → ListenerStats
on_accept s = record s { accepted = fetch_add s.accepted; active = fetch_add s.active }

-- `ActiveGuard::drop`
unfoldable pub drop_guard : ListenerStats → ListenerStats
drop_guard s = record s { active = fetch_sub s.active }

unfoldable pub inc_restart : ListenerStats → ListenerStats
inc_restart s = record s { restarts = fetch_add s.restarts }

unfoldable pub inc_error : ListenerStats → ListenerStats
inc_error s = record s { errors = fetch_add s.errors }

-- the lock is never poisoned
unfoldable pub set_last_error : Text → ListenerStats → ListenerStats
set_last_error e s = record s { last_error = some e }

abbrev pub last_text : Option Text → Text
last_text none = []
last_text (some e) = codes ", last_error=\"" ++ (e ++ codes "\"")

unfoldable pub summary : ListenerStats → Text
summary s =
    s.name
    ++ (codes " accepted="
        ++ (show s.accepted
            ++ (codes " active="
                ++ (show s.active
                    ++ (codes " restarts="
                        ++ (show s.restarts
                            ++ (codes " errors=" ++ (show s.errors ++ last_text s.last_error))))))))

abbrev pub Registry : Type 0
Registry = List ListenerStats

-- the sum of a counter over the listeners, from `acc` on, in the release profile's arithmetic
unfoldable pub total : (ListenerStats → ℕ) → ℕ → Registry → ℕ
total field acc [] = acc
total field acc (s ∷ registry) = total field ((acc + field s) % two_64) registry

abbrev pub summaries : Registry → List Text
summaries [] = []
summaries (s ∷ registry) = summary s ∷ summaries registry

-- the lines that `Registry::dump` logs
unfoldable pub dump : Registry → List Text
unfolding total
dump registry =
    (codes "--- status dump (" ++ (show (length registry) ++ codes " listeners) ---"))
    ∷ (summaries registry
        ++ (codes "totals: accepted="
            ++ (show (total (λ s. s.accepted) 0 registry)
                ++ (codes " active=" ++ show (total (λ s. s.active) 0 registry))))
          ∷ [])

unfoldable pub heartbeat_line : Registry → Text
unfolding total
heartbeat_line registry =
    codes "heartbeat: listeners="
    ++ (show (length registry)
        ++ (codes " accepted="
            ++ (show (total (λ s. s.accepted) 0 registry)
                ++ (codes " active="
                    ++ (show (total (λ s. s.active) 0 registry)
                        ++ (codes " restarts=" ++ show (total (λ s. s.restarts) 0 registry)))))))
