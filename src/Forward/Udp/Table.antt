-- ===== src/Forward/Udp/Table.antt =====
-- src/forward/udp.rs as a table of sessions, of which each step of the listener opens one, closes one
-- or leaves all alone.
use gust.Prelude.{
  ℕ, zero, suc, ◌<◌, ◌≡◌, ◌≢◌, refl, sym, ap, ◌∙◌, subst, Bool, true, false, List, [], ◌∷◌, ◌++◌,
  Option, none, some, length, arith, All,
}
use gust.Text.{Text}
use gust.Text.Utf8.{Bytes}
use gust.Stats.{ListenerStats}
use gust.Forward.{pick_target}
use gust.Forward.Udp.{
  Phase, waiting, closing, removed, Task, Sessions, lookup, remove, Server, open_session, dispatch,
  receive, receive_error, Step, datagram, broken, reply, reply_error, timer, removal, finish, Reach,
}
use gust.Forward.Udp.Sessions.{DistinctKeys, entry, entries, insert_new, remove_middle}
use gust.Forward.Udp.Invariant.{Owns, OwnTask, Inv, middle_entry}
use gust.Forward.Udp.Safety.{Reach-Inv}

-- no session of the table has the socket
abbrev pub Unused : ℕ → Sessions → Type 0
Unused s = All (λ (_, t). t ≢ s)

-- What the table promises: a session opens for a client that has none, with a socket that no other
-- session has, and a session closes; all others stay as they are.
pub data TableStep (m : Sessions) : Sessions → Type 0 where
  same : TableStep m m
  opens : (p s : ℕ) → lookup p m ≡ none → Unused s m → TableStep m (m ++ (p, s) ∷ [])
  closes : (a b : Sessions) (p s : ℕ) → m ≡ a ++ (p, s) ∷ b → TableStep m (a ++ b)

Owns-lt : (owners : List ℕ) (s p : ℕ) → Owns owners s p → s < length owners
Owns-lt [] s p h = absurd (cc)
Owns-lt (q ∷ owners) zero p h = omega arith
Owns-lt (q ∷ owners) (suc s) p h = omega (arith, Owns-lt owners s p h)

entry-Unused :
    (owners : List ℕ) (f : Phase) (p s : ℕ) (m : Sessions)
    → Owns owners s p
    → Unused (length owners) m
    → Unused (length owners) (entry f p s m)
entry-Unused owners waiting p s m o h = (λ e. absurd (omega (arith, Owns-lt owners s p o, e)), h)
entry-Unused owners closing p s m o h = (λ e. absurd (omega (arith, Owns-lt owners s p o, e)), h)
entry-Unused owners removed p s m o h = h

entries-Unused :
    (owners : List ℕ) (ts : List Task)
    → All (OwnTask owners) ts
    → Unused (length owners) (entries ts)
unfolding entries
entries-Unused owners [] h = tt
entries-Unused owners (t ∷ ts) (o, h) =
    entry-Unused owners t.phase t.peer t.socket (entries ts) o (entries-Unused owners ts h)

-- A state that is there is one step of the table away.
abbrev pub Moves : Sessions → Option Server → Type 0
Moves m none = Unit {0}
Moves m (some u) = TableStep m u.sessions

open-Moves :
    (opens_socket : Bool) (p : ℕ) (payload : Bytes) (now : ℕ) (w : Server) (r : Option Text × ℕ)
    → Inv w
    → lookup p w.sessions ≡ none
    → Moves w.sessions (open_session opens_socket p payload now w r)
open-Moves b p payload now w (none, rr) v e = tt
open-Moves false p payload now w (some target, rr) v e = same
open-Moves true p payload now w (some target, rr) v e =
    subst (TableStep w.sessions) (sym (insert_new p (length w.owners) w.sessions e)) (
      opens p (length w.owners) e
        (subst (Unused (length w.owners)) (sym v.mapped) (entries-Unused w.owners w.tasks v.owned)))

dispatch-Moves :
    (targets : List Text) (opens_socket : Bool) (p : ℕ) (payload : Bytes) (now : ℕ) (w : Server)
    (r : Option ℕ)
    → Inv w
    → lookup p w.sessions ≡ r
    → Moves w.sessions (dispatch targets opens_socket p payload now w r)
dispatch-Moves targets b p payload now w none v e =
    open-Moves b p payload now w (pick_target targets w.rr) v e
dispatch-Moves targets b p payload now w (some s) v e = same

-- In every state that a UDP listener can reach, each of its steps is one of a table of sessions: it
-- opens a session for a client that has none, with a socket that no session has; or it closes one
-- session; or none changes. All other sessions stay as they are, in their order.
pub Step-TableStep :
    (targets : List Text) (stats : ListenerStats) (w u : Server)
    → stats.active ≡ 0
    → Reach targets stats w
    → Step targets w u
    → TableStep w.sessions u.sessions
unfolding receive receive_error
Step-TableStep targets stats w x h r (datagram b p payload now u c e) = subst (Moves w.sessions) e (
    dispatch-Moves targets b p payload now w (lookup p w.sessions) (Reach-Inv targets stats w h r)
      refl)
Step-TableStep targets stats w x h r broken = same
Step-TableStep targets stats w x h r (reply before after t sends payload now e f c) = same
Step-TableStep targets stats w x h r (reply_error before after t e f) = same
Step-TableStep targets stats w x h r (timer before after t now e f c d) = same
Step-TableStep targets stats w x h r (finish before after t e f) = same
Step-TableStep targets stats w x h r (removal before after t e f) =
    let v = Reach-Inv targets stats w h r in
    let m = middle_entry w before after t v e f in
    subst (TableStep w.sessions)
      (sym (
        ap (remove t.peer) m
        ∙ remove_middle t.peer t.socket (entries before) (entries after)
            (subst DistinctKeys m v.keys)))
      (closes (entries before) (entries after) t.peer t.socket m)
