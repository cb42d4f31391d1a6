-- ===== src/Forward/Udp.antt =====
-- src/forward/udp.rs: the sessions of a UDP listener, one for each client, from the first bind on.
-- A client's address is a number, and so is an outbound socket. Times are in milliseconds, and a
-- send takes none. The shutdown ends the loop, not the reverse tasks: its steps then come no more.
pub mod Sessions
pub mod Invariant
pub mod TaskSteps
pub mod Safety
pub mod Idle
pub mod Table
use gust.Prelude.{
  ℕ, suc, ◌+◌, ◌-◌, ◌*◌, ◌≤◌, ◌≡◌, Bool, true, false, List, [], ◌∷◌, ◌++◌, Option, none, some,
  length, take, leb, ◌==◌, if◌then◌else◌,
}
use gust.Text.{Text}
use gust.Text.Utf8.{Bytes}
use gust.Stats.{ListenerStats, new_stats, on_accept, drop_guard, inc_error}
use gust.Forward.{pick_target}

-- `UDP_TTL` and `UDP_BUF`
abbrev pub udp_ttl : ℕ
udp_ttl = 60000

abbrev pub udp_buf : ℕ
udp_buf = 64 * 1024

-- Where a reverse task stands: in its loop, behind it, or behind the removal of its session.
pub data Phase : Type 0 where
  waiting closing removed : Phase

-- A reverse task with its socket and its client; `armed` is when its sleep began, and `last` is the
-- cell of the last activity, which the session shares.
pub record Task : Type 0 where
  pub socket : ℕ
  pub peer : ℕ
  pub phase : Phase
  pub armed : ℕ
  pub last : ℕ

-- A datagram that went through a socket, from or to a client.
pub record Packet : Type 0 where
  pub socket : ℕ
  pub peer : ℕ
  pub payload : Bytes

-- The map of the sessions, from a client to its socket.
abbrev pub Sessions : Type 0
Sessions = List (ℕ × ℕ)

-- `map.get(peer)`
unfoldable pub lookup : ℕ → Sessions → Option ℕ
lookup p [] = none
lookup p ((q, s) ∷ m) = if q == p then some s else lookup p m

-- `map.insert(peer, session)`
unfoldable pub insert : ℕ → ℕ → Sessions → Sessions
insert p s [] = (p, s) ∷ []
insert p s ((q, t) ∷ m) = let rest = insert p s m in if q == p then (p, s) ∷ m else (q, t) ∷ rest

-- `map.remove(peer)`
unfoldable pub remove : ℕ → Sessions → Sessions
remove p [] = []
remove p ((q, t) ∷ m) = let rest = remove p m in if q == p then m else (q, t) ∷ rest

-- A listener with its sessions and tasks. `owners` holds the client that each socket was opened for,
-- and `forwarded` and `returned` what went through the sockets.
pub record Server : Type 0 where
  pub sessions : Sessions
  pub tasks : List Task
  pub rr : ℕ
  pub stats : ListenerStats
  pub clock : ℕ
  pub owners : List ℕ
  pub forwarded : List Packet
  pub returned : List Packet

unfoldable pub new_server : ListenerStats → Server
new_server stats = record {
  sessions = [];
  tasks = [];
  rr = 0;
  stats = stats;
  clock = 0;
  owners = [];
  forwarded = [];
  returned = [];
}

-- `last.store(mono_ms())` for the cell of a socket's session
unfoldable pub touch : ℕ → ℕ → List Task → List Task
touch s now [] = []
touch s now (t ∷ ts) = (if t.socket == s then record t { last = now } else t) ∷ touch s now ts

-- a datagram goes out; a failure to send is only logged
abbrev pub forward : ℕ → ℕ → Bytes → Server → Server
forward s p payload w = record w {
  forwarded = w.forwarded ++ record { socket = s; peer = p; payload = take udp_buf payload } ∷ [];
}

-- the reverse task of a new session
abbrev pub spawn_reverse : ℕ → ℕ → ℕ → Task
spawn_reverse s p now = record { socket = s; peer = p; phase = waiting; armed = now; last = now }

-- the branch of a new session, whose socket opens or not; `none` is the panic of `pick_target`
abbrev pub open_session : Bool → ℕ → Bytes → ℕ → Server → Option Text × ℕ → Option Server
open_session opens p payload now w (none, rr) = none
open_session false p payload now w (some target, rr) =
    some (record w { rr = rr; stats = inc_error w.stats; clock = now })
open_session true p payload now w (some target, rr) =
    let s = length w.owners in
    some (
      forward s p payload (record w {
        sessions = insert p s w.sessions;
        tasks = w.tasks ++ spawn_reverse s p now ∷ [];
        rr = rr;
        stats = on_accept w.stats;
        clock = now;
        owners = w.owners ++ p ∷ [];
      }))

-- the branch of a client that has a session, and else that of one that has none
abbrev pub dispatch : List Text → Bool → ℕ → Bytes → ℕ → Server → Option ℕ → Option Server
dispatch targets opens p payload now w (some s) =
    some (forward s p payload (record w { tasks = touch s now w.tasks; clock = now }))
dispatch targets opens p payload now w none =
    open_session opens p payload now w (pick_target targets w.rr)

-- One round of the loop of `serve` at a datagram.
unfoldable pub receive : List Text → Bool → ℕ → Bytes → ℕ → Server → Option Server
receive targets opens p payload now w = dispatch targets opens p payload now w (lookup p w.sessions)

-- One round of the loop of `serve` at an error of the socket.
unfoldable pub receive_error : Server → Server
receive_error w = record w { stats = inc_error w.stats }

-- What a reverse task does next at a reply, whose way back to the client may fail.
abbrev pub on_reply : Bool → ℕ → Task → Task
on_reply sends now t =
    if sends then record t { last = now; armed = now } else record t { last = now; phase = closing }

-- ... and when its sleep ends
abbrev pub on_timer : ℕ → Task → Task
on_timer now t =
    if leb udp_ttl (now - t.last) then record t { phase = closing } else record t { armed = now }

abbrev pub sent_back : Bool → Task → Bytes → List Packet
sent_back true t payload =
    record { socket = t.socket; peer = t.peer; payload = take udp_buf payload } ∷ []
sent_back false t payload = []

-- The steps of the listener and of its reverse tasks, in any order. A task's steps stand in the
-- order of its body: the loop, the removal, the drop of the guard.
pub data Step (targets : List Text) (w : Server) : Server → Type 0 where
  datagram :
      (opens : Bool) (p : ℕ) (payload : Bytes) (now : ℕ) (u : Server)
      → w.clock ≤ now
      → receive targets opens p payload now w ≡ some u
      → Step targets w u
  broken : Step targets w (receive_error w)
  reply :
      (before after : List Task) (t : Task) (sends : Bool) (payload : Bytes) (now : ℕ)
      → w.tasks ≡ before ++ t ∷ after
      → t.phase ≡ waiting
      → w.clock ≤ now
      → Step targets w (record w {
        tasks = before ++ on_reply sends now t ∷ after;
        clock = now;
        returned = w.returned ++ sent_back sends t payload;
      })
  reply_error :
      (before after : List Task) (t : Task)
      → w.tasks ≡ before ++ t ∷ after
      → t.phase ≡ waiting
      → Step targets w (record w { tasks = before ++ record t { phase = closing } ∷ after })
  timer :
      (before after : List Task) (t : Task) (now : ℕ)
      → w.tasks ≡ before ++ t ∷ after
      → t.phase ≡ waiting
      → w.clock ≤ now
      → t.armed + udp_ttl ≤ now
      → Step targets w (record w { tasks = before ++ on_timer now t ∷ after; clock = now })
  removal :
      (before after : List Task) (t : Task)
      → w.tasks ≡ before ++ t ∷ after
      → t.phase ≡ closing
      → Step targets w (record w {
        tasks = before ++ record t { phase = removed } ∷ after;
        sessions = remove t.peer w.sessions;
      })
  finish :
      (before after : List Task) (t : Task)
      → w.tasks ≡ before ++ t ∷ after
      → t.phase ≡ removed
      → Step targets w (record w { tasks = before ++ after; stats = drop_guard w.stats })

pub data Reach (targets : List Text) (stats : ListenerStats) : Server → Type 0 where
  start : Reach targets stats (new_server stats)
  later : (v w : Server) → Reach targets stats v → Step targets v w → Reach targets stats w
