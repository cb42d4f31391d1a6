-- ===== src/Forward/Tcp.antt =====
-- src/forward/tcp.rs: the accept loop of a TCP listener from the first bind on, and the tasks of its
-- connections. What happens comes as a list of events, in any order.
pub mod Counts
pub mod Tally
pub mod Serving
use gust.Prelude.{
  ℕ, zero, suc, ◌+◌, List, [], ◌∷◌, ◌++◌, Option, none, some, Result, ok, err, map_err, Bool, true,
  false, if◌then◌else◌,
}
use gust.Text.{Text}
use gust.Stats.{ListenerStats, on_accept, drop_guard, inc_error}
use gust.Netopt.Calls.{IoError}
use gust.Chain.{DialError, no_hops}
use gust.Forward.{pick_target}

-- Where the task of a connection stands: it has not run yet, it holds the guard, or it is over:
-- without an error, with one, or by a panic.
pub data Phase : Type 0 where
  spawned running closed failed panicked : Phase

pub record Conn : Type 0 where
  pub target : Text
  pub phase : Phase

-- The errors of `handle_conn`
pub data ConnError : Type 0 where
  not_tuned not_relayed : IoError → ConnError
  not_dialed : Text → DialError → ConnError

-- `handle_conn` behind a dial that fails or panics
abbrev pub dial_ends : Text → DialError → Option (Result ConnError (Unit {0}))
dial_ends target no_hops = none
dial_ends target e = some (err (not_dialed target e))

-- `handle_conn` from its second call on
abbrev pub dial_and_relay :
    Text
    → Result DialError (Unit {0})
    → Result IoError (Unit {0})
    → Option (Result ConnError (Unit {0}))
dial_and_relay target (ok _) relayed = some (map_err not_relayed relayed)
dial_and_relay target (err e) relayed = dial_ends target e

-- `handle_conn`, by how its three calls end; `none` is the panic of the dial
abbrev pub handle_conn :
    Text
    → Result IoError (Unit {0})
    → Result DialError (Unit {0})
    → Result IoError (Unit {0})
    → Option (Result ConnError (Unit {0}))
handle_conn target (err e) dialed relayed = some (err (not_tuned e))
handle_conn target (ok _) dialed relayed = dial_and_relay target dialed relayed

-- What happens to a listener: the accept call gives an error or a connection, the shutdown comes, or
-- the task of the i-th connection first runs or ends.
pub data Event : Type 0 where
  accept_fails accepts shuts_down : Event
  begins : ℕ → Event
  ends :
      ℕ
      → Result IoError (Unit {0})
      → Result DialError (Unit {0})
      → Result IoError (Unit {0})
      → Event

-- A listener with the connections it accepted; `refused` counts the errors of `accept`.
pub record Server : Type 0 where
  pub serving : Bool
  pub rr : ℕ
  pub stats : ListenerStats
  pub conns : List Conn
  pub refused : ℕ

unfoldable pub new_server : ListenerStats → Server
new_server stats = record { serving = true; rr = 0; stats = stats; conns = []; refused = 0 }

-- the connection at a place
abbrev pub conn_at : ℕ → List Conn → Option Conn
conn_at i [] = none
conn_at zero (c ∷ cs) = some c
conn_at (suc i) (c ∷ cs) = conn_at i cs

unfoldable pub set_phase : ℕ → Phase → List Conn → List Conn
set_phase i p [] = []
set_phase zero p (c ∷ cs) = record c { phase = p } ∷ cs
set_phase (suc i) p (c ∷ cs) = c ∷ set_phase i p cs

-- a connection was accepted, for the target that was picked; `none` is the panic of `pick_target`
abbrev pub spawn_conn : Server → Option Text × ℕ → Option Server
spawn_conn s (none, rr) = none
spawn_conn s (some target, rr) =
    some (record s { rr = rr; conns = s.conns ++ record { target = target; phase = spawned } ∷ [] })

-- the first run of a task
abbrev pub begin_conn : ℕ → Phase → Server → Server
begin_conn i spawned s = record s { stats = on_accept s.stats; conns = set_phase i running s.conns }
begin_conn i running s = s
begin_conn i closed s = s
begin_conn i failed s = s
begin_conn i panicked s = s

-- the end of a task, where the guard is dropped last, behind a panic too
abbrev pub finish_conn : ℕ → Option (Result ConnError (Unit {0})) → Server → Server
finish_conn i none s = record s { stats = drop_guard s.stats; conns = set_phase i panicked s.conns }
finish_conn i (some (ok _)) s = record s {
  stats = drop_guard s.stats;
  conns = set_phase i closed s.conns;
}
finish_conn i (some (err e)) s = record s {
  stats = drop_guard (inc_error s.stats);
  conns = set_phase i failed s.conns;
}

abbrev pub end_conn : ℕ → Phase → Option (Result ConnError (Unit {0})) → Server → Server
end_conn i running r s = finish_conn i r s
end_conn i spawned r s = s
end_conn i closed r s = s
end_conn i failed r s = s
end_conn i panicked r s = s

-- An event for a task that is elsewhere cannot happen, and changes nothing.
abbrev pub begin_task : ℕ → Option Conn → Server → Server
begin_task i none s = s
begin_task i (some c) s = begin_conn i c.phase s

abbrev pub end_task :
    ℕ
    → Result IoError (Unit {0})
    → Result DialError (Unit {0})
    → Result IoError (Unit {0})
    → Option Conn
    → Server
    → Server
end_task i tuned dialed relayed none s = s
end_task i tuned dialed relayed (some c) s =
    end_conn i c.phase (handle_conn c.target tuned dialed relayed) s

-- One round of the loop of `serve`, which stops at the shutdown, or a step of a task, which goes on.
unfoldable pub serve_event : List Text → Event → Server → Option Server
serve_event targets accept_fails s =
    some (if s.serving then record s { stats = inc_error s.stats; refused = suc s.refused } else s)
serve_event targets accepts s =
    if s.serving then spawn_conn s (pick_target targets s.rr) else some s
serve_event targets shuts_down s = some (record s { serving = false })
serve_event targets (begins i) s = some (begin_task i (conn_at i s.conns) s)
serve_event targets (ends i tuned dialed relayed) s =
    some (end_task i tuned dialed relayed (conn_at i s.conns) s)

abbrev pub serve_rest : (Server → Option Server) → Option Server → Option Server
serve_rest f none = none
serve_rest f (some s) = f s

unfoldable pub serve : List Text → List Event → Server → Option Server
serve targets [] s = some s
serve targets (e ∷ events) s = serve_rest (serve targets events) (serve_event targets e s)
