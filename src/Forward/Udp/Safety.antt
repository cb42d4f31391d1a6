-- ===== src/Forward/Udp/Safety.antt =====
-- The invariant of a UDP listener of src/forward/udp.rs in every state that can be reached.
use gust.Prelude.{
  ℕ, suc, ◌%◌, ◌≤◌, ◌≡◌, refl, sym, ap, ◌∙◌, subst, Bool, true, false, List, [], ◌∷◌, ◌++◌, Option,
  none, some, length, length-append, ◌==◌, if-cases, arith, All, All-append, All-mono,
}
use gust.Text.{Text}
use gust.Text.Utf8.{Bytes}
use gust.Stats.{ListenerStats, two_64, on_accept, inc_error}
use gust.Forward.{pick_target}
use gust.Forward.Udp.{
  Phase, waiting, closing, removed, Task, Sessions, lookup, insert, Server, new_server, touch,
  forward, spawn_reverse, open_session, dispatch, receive, receive_error, Step, datagram, broken,
  reply, reply_error, timer, removal, finish, Reach, start, later,
}
use gust.Forward.Udp.Sessions.{
  DistinctKeys, entry, entries, entries-append, entries-touch, insert_new, DistinctKeys-snoc,
}
use gust.Forward.Udp.Invariant.{
  Owns, OwnTask, OwnPacket, Timely, Inv, get_elem?-snoc, get_elem?_last, later-Timely,
}
use gust.Forward.Udp.TaskSteps.{reply-Inv, closing-Inv, timer-Inv, removal-Inv, finish-Inv}

touched_tasks :
    (P : Task → Type 0) (s now : ℕ)
    → ((t : Task) → P t → P (record t { last = now }))
    → (ts : List Task) → All P ts
    → All P (touch s now ts)
unfolding touch
touched_tasks P s now f [] h = tt
touched_tasks P s now f (t ∷ ts) (p, h) =
    (if-cases P (t.socket == s) (λ _. f t p) (λ _. p), touched_tasks P s now f ts h)

length-touch : (s now : ℕ) (ts : List Task) → length (touch s now ts) ≡ length ts
unfolding touch
length-touch s now [] = refl
length-touch s now (t ∷ ts) = ap suc (length-touch s now ts)

found_own :
    (owners : List ℕ) (p s q t : ℕ) (m : Sessions)
    → Owns owners t q
    → (lookup p m ≡ some s → Owns owners s p)
    → lookup p ((q, t) ∷ m) ≡ some s
    → Owns owners s p
unfolding lookup
found_own owners p s q t m o rest = ground arith

entry_own :
    (owners : List ℕ) (p s q t : ℕ) (m : Sessions) (f : Phase)
    → Owns owners t q
    → (lookup p m ≡ some s → Owns owners s p)
    → lookup p (entry f q t m) ≡ some s
    → Owns owners s p
entry_own owners p s q t m waiting o rest e = found_own owners p s q t m o rest e
entry_own owners p s q t m closing o rest e = found_own owners p s q t m o rest e
entry_own owners p s q t m removed o rest e = rest e

-- The socket of a session was opened for its client.
lookup-Owns :
    (owners : List ℕ) (p s : ℕ) (ts : List Task)
    → All (OwnTask owners) ts
    → lookup p (entries ts) ≡ some s
    → Owns owners s p
unfolding lookup entries
lookup-Owns owners p s [] h e = cc
lookup-Owns owners p s (t ∷ ts) (o, h) e =
    entry_own owners p s t.peer t.socket (entries ts) t.phase o (lookup-Owns owners p s ts h) e

known-Inv :
    (w : Server) (p s now : ℕ) (payload : Bytes)
    → Inv w
    → w.clock ≤ now
    → lookup p w.sessions ≡ some s
    → Inv (forward s p payload (record w { tasks = touch s now w.tasks; clock = now }))
known-Inv w p s now payload v c e = record {
  mapped = v.mapped ∙ sym (entries-touch s now w.tasks);
  keys = v.keys;
  gauge = v.gauge ∙ ap (λ n. n % two_64) (sym (length-touch s now w.tasks));
  owned = touched_tasks (OwnTask w.owners) s now (λ t h. h) w.tasks v.owned;
  sent =
      All-append (OwnPacket w.owners) w.forwarded _ v.sent
        (lookup-Owns w.owners p s w.tasks v.owned (ap (lookup p) (sym v.mapped) ∙ e), tt);
  back = v.back;
  timely =
      touched_tasks (Timely now) s now (λ t (l, q, r). (omega arith, q, omega (arith, q))) w.tasks
        (later-Timely w.clock now c w.tasks v.timely);
}

opened-Inv :
    (w : Server) (p now rr : ℕ) (payload : Bytes)
    → Inv w
    → w.clock ≤ now
    → lookup p w.sessions ≡ none
    → Inv (
        forward (length w.owners) p payload (record w {
          sessions = insert p (length w.owners) w.sessions;
          tasks = w.tasks ++ spawn_reverse (length w.owners) p now ∷ [];
          rr = rr;
          stats = on_accept w.stats;
          clock = now;
          owners = w.owners ++ p ∷ [];
        }))
unfolding on_accept entries
opened-Inv w p now rr payload v c e =
    let s : ℕ = length w.owners in
    let t : Task = spawn_reverse s p now in
    let own : Owns (w.owners ++ p ∷ []) s p = get_elem?_last w.owners p in
    record {
      mapped =
          insert_new p s w.sessions e
          ∙ (ap (λ m. m ++ (p, s) ∷ []) v.mapped ∙ sym (entries-append w.tasks (t ∷ [])));
      keys =
          subst DistinctKeys (sym (insert_new p s w.sessions e))
            (DistinctKeys-snoc p s w.sessions e v.keys);
      gauge = omega (arith, v.gauge, length-append w.tasks (t ∷ []));
      owned =
          All-append (OwnTask (w.owners ++ p ∷ [])) w.tasks (t ∷ [])
            (All-mono (OwnTask w.owners) (OwnTask (w.owners ++ p ∷ []))
              (λ u. get_elem?-snoc w.owners p u.socket u.peer) w.tasks v.owned)
            (own, tt);
      sent =
          All-append (OwnPacket (w.owners ++ p ∷ [])) w.forwarded _
            (All-mono (OwnPacket w.owners) (OwnPacket (w.owners ++ p ∷ []))
              (λ u. get_elem?-snoc w.owners p u.socket u.peer) w.forwarded v.sent)
            (own, tt);
      back =
          All-mono (OwnPacket w.owners) (OwnPacket (w.owners ++ p ∷ []))
            (λ u. get_elem?-snoc w.owners p u.socket u.peer) w.returned v.back;
      timely =
          All-append (Timely now) w.tasks (t ∷ []) (later-Timely w.clock now c w.tasks v.timely)
            ((omega arith, omega arith, omega arith), tt);
    }

refused-Inv :
    (w : Server) (now rr : ℕ)
    → Inv w
    → w.clock ≤ now
    → Inv (record w { rr = rr; stats = inc_error w.stats; clock = now })
unfolding inc_error
refused-Inv w now rr v c = record {
  mapped = v.mapped;
  keys = v.keys;
  gauge = v.gauge;
  owned = v.owned;
  sent = v.sent;
  back = v.back;
  timely = later-Timely w.clock now c w.tasks v.timely;
}

-- An option that is `some` of a state with the invariant.
abbrev Kept : Option Server → Type 0
Kept none = Unit {0}
Kept (some u) = Inv u

open-Kept :
    (opens : Bool) (p : ℕ) (payload : Bytes) (now : ℕ) (w : Server) (r : Option Text × ℕ)
    → Inv w
    → w.clock ≤ now
    → lookup p w.sessions ≡ none
    → Kept (open_session opens p payload now w r)
open-Kept opens p payload now w (none, rr) v c e = tt
open-Kept false p payload now w (some target, rr) v c e = refused-Inv w now rr v c
open-Kept true p payload now w (some target, rr) v c e = opened-Inv w p now rr payload v c e

dispatch-Kept :
    (targets : List Text) (opens : Bool) (p : ℕ) (payload : Bytes) (now : ℕ) (w : Server)
    (r : Option ℕ)
    → Inv w
    → w.clock ≤ now
    → lookup p w.sessions ≡ r
    → Kept (dispatch targets opens p payload now w r)
dispatch-Kept targets opens p payload now w none v c e =
    open-Kept opens p payload now w (pick_target targets w.rr) v c e
dispatch-Kept targets opens p payload now w (some s) v c e = known-Inv w p s now payload v c e

Step-Inv : (targets : List Text) (w u : Server) → Step targets w u → Inv w → Inv u
unfolding receive receive_error inc_error
Step-Inv targets w x (datagram opens p payload now u c e) v =
    subst Kept e (dispatch-Kept targets opens p payload now w (lookup p w.sessions) v c refl)
Step-Inv targets w x broken v = refused-Inv w w.clock w.rr v (omega arith)
Step-Inv targets w x (reply before after t sends payload now e f c) v =
    reply-Inv w before after t sends payload now v e f c
Step-Inv targets w x (reply_error before after t e f) v =
    closing-Inv w before after t w.clock v e f (omega arith)
Step-Inv targets w x (timer before after t now e f c d) v = timer-Inv w before after t now v e f c
Step-Inv targets w x (removal before after t e f) v = removal-Inv w before after t v e f
Step-Inv targets w x (finish before after t e f) v = finish-Inv w before after t v e f

-- In every state that a UDP listener can reach, in whatever order datagrams, replies, errors and
-- timers come: the map holds just the sessions whose tasks have not removed them, one at most for a
-- client; the gauge is the number of the tasks that live, modulo 2^64; each task serves the client
-- that its socket was opened for, and so does each datagram that was sent on or sent back; and no
-- task sleeps from later than its last activity's time to live.
pub Reach-Inv :
    (targets : List Text) (stats : ListenerStats) (w : Server)
    → stats.active ≡ 0
    → Reach targets stats w
    → Inv w
unfolding new_server entries
Reach-Inv targets stats w h start = record {
  mapped = refl;
  keys = tt;
  gauge = omega arith;
  owned = tt;
  sent = tt;
  back = tt;
  timely = tt;
}
Reach-Inv targets stats x h (later v w r s) = Step-Inv targets v w s (Reach-Inv targets stats v h r)
