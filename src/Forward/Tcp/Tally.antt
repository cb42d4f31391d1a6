-- ===== src/Forward/Tcp/Tally.antt =====
-- src/forward/tcp.rs: each event keeps the tallies of a TCP listener.
use gust.Prelude.{
  ℕ, ◌+◌, ◌≡◌, ◌≢◌, refl, sym, ap, ◌∙◌, subst, List, [], ◌∷◌, ◌++◌, Option, none, some, Result, ok,
  err, length, arith,
}
use gust.Text.{Text}
use gust.Stats.{on_accept, drop_guard, inc_error}
use gust.Netopt.Calls.{IoError}
use gust.Chain.{DialError}
use gust.Forward.{pick_target, picks}
use gust.Forward.Tcp.{
  Phase, spawned, running, closed, failed, panicked, Conn, ConnError, handle_conn, Server, conn_at,
  set_phase, spawn_conn, begin_conn, finish_conn, end_conn, begin_task, end_task,
}
use gust.Forward.Tcp.Counts.{
  runs, has_run, has_failed, count, conn_targets, rr_after, Tallies, count-set_phase,
  length-set_phase, conn_targets-set_phase, count-snoc, conn_targets-snoc, length-snoc, picks-suc,
  rr_after-suc,
}

-- the targets of the connections do not change when a task moves on
module _ (targets : List Text) (s : Server) (v : Tallies targets s) (i : ℕ) (p : Phase) where
  same_turn : s.rr ≡ rr_after (length (set_phase i p s.conns)) targets 0
  same_turn = v.turn ∙ ap (λ n. rr_after n targets 0) (sym (length-set_phase i p s.conns))

  same_picked :
      conn_targets (set_phase i p s.conns) ≡ picks (length (set_phase i p s.conns)) targets 0
  same_picked =
      conn_targets-set_phase i p s.conns
      ∙ (v.picked ∙ ap (λ n. picks n targets 0) (sym (length-set_phase i p s.conns)))

  -- what the tallies become
  moved :
      (c : Conn) (q : Phase) (w : Phase → ℕ)
      → conn_at i s.conns ≡ some c
      → c.phase ≡ q
      → count w (set_phase i p s.conns) + w q ≡ count w s.conns + w p
  moved c q w h e =
      subst (λ f. count w (set_phase i p s.conns) + w f ≡ count w s.conns + w p) e
        (count-set_phase w i p s.conns c h)

begun-Tallies :
    (targets : List Text) (s : Server) (i : ℕ) (c : Conn)
    → Tallies targets s
    → conn_at i s.conns ≡ some c
    → Tallies targets (begin_conn i c.phase s)
unfolding on_accept
begun-Tallies targets s i c v h = by_phase c.phase refl
  where
    by_phase : (p : Phase) → c.phase ≡ p → Tallies targets (begin_conn i p s)
    by_phase spawned e =
        let m = λ (w : Phase → ℕ). moved targets s v i running c spawned w h e in
        record {
          active = omega (arith, v.active, m runs);
          accepted = omega (arith, v.accepted, m has_run);
          errors = omega (arith, v.errors, m has_failed);
          turn = same_turn targets s v i running;
          picked = same_picked targets s v i running;
        }
    by_phase running e = v
    by_phase closed e = v
    by_phase failed e = v
    by_phase panicked e = v

finished-Tallies :
    (targets : List Text) (s : Server) (i : ℕ) (c : Conn) (r : Option (Result ConnError (Unit {0})))
    → Tallies targets s
    → conn_at i s.conns ≡ some c
    → c.phase ≡ running
    → Tallies targets (finish_conn i r s)
unfolding drop_guard inc_error
finished-Tallies targets s i c r v h e = by_end r
  where
    by_end : (o : Option (Result ConnError (Unit {0}))) → Tallies targets (finish_conn i o s)
    by_end none = record {
      active = omega (arith, v.active, moved targets s v i panicked c running runs h e);
      accepted = omega (arith, v.accepted, moved targets s v i panicked c running has_run h e);
      errors = omega (arith, v.errors, moved targets s v i panicked c running has_failed h e);
      turn = same_turn targets s v i panicked;
      picked = same_picked targets s v i panicked;
    }
    by_end (some (ok _)) = record {
      active = omega (arith, v.active, moved targets s v i closed c running runs h e);
      accepted = omega (arith, v.accepted, moved targets s v i closed c running has_run h e);
      errors = omega (arith, v.errors, moved targets s v i closed c running has_failed h e);
      turn = same_turn targets s v i closed;
      picked = same_picked targets s v i closed;
    }
    by_end (some (err x)) = record {
      active = omega (arith, v.active, moved targets s v i failed c running runs h e);
      accepted = omega (arith, v.accepted, moved targets s v i failed c running has_run h e);
      errors = omega (arith, v.errors, moved targets s v i failed c running has_failed h e);
      turn = same_turn targets s v i failed;
      picked = same_picked targets s v i failed;
    }

ended-Tallies :
    (targets : List Text) (s : Server) (i : ℕ) (c : Conn) (r : Option (Result ConnError (Unit {0})))
    → Tallies targets s
    → conn_at i s.conns ≡ some c
    → Tallies targets (end_conn i c.phase r s)
ended-Tallies targets s i c r v h = by_phase c.phase refl
  where
    by_phase : (p : Phase) → c.phase ≡ p → Tallies targets (end_conn i p r s)
    by_phase running e = finished-Tallies targets s i c r v h e
    by_phase spawned e = v
    by_phase closed e = v
    by_phase failed e = v
    by_phase panicked e = v

pub begin_task-Tallies :
    (targets : List Text) (s : Server) (i : ℕ) (o : Option Conn)
    → Tallies targets s
    → conn_at i s.conns ≡ o
    → Tallies targets (begin_task i o s)
begin_task-Tallies targets s i none v h = v
begin_task-Tallies targets s i (some c) v h = begun-Tallies targets s i c v h

pub end_task-Tallies :
    (targets : List Text) (s : Server) (i : ℕ) (tuned : Result IoError (Unit {0}))
    (dialed : Result DialError (Unit {0})) (relayed : Result IoError (Unit {0})) (o : Option Conn)
    → Tallies targets s
    → conn_at i s.conns ≡ o
    → Tallies targets (end_task i tuned dialed relayed o s)
end_task-Tallies targets s i tuned dialed relayed none v h = v
end_task-Tallies targets s i tuned dialed relayed (some c) v h =
    ended-Tallies targets s i c (handle_conn c.target tuned dialed relayed) v h

-- A state that is there, with its tallies.
abbrev pub Serves : List Text → Option Server → Type 0
Serves targets none = ⊥
Serves targets (some s) = Tallies targets s

pub spawn_conn-Serves :
    (targets : List Text) (s : Server) (o : Option Text × ℕ)
    → Tallies targets s
    → pick_target targets s.rr ≡ o
    → o.0 ≢ none
    → Serves targets (spawn_conn s o)
spawn_conn-Serves targets s (none, rr) v h k = k refl
spawn_conn-Serves targets s (some t, rr) v h k =
    let c : Conn = record { target = t; phase = spawned } in
    let n = length-snoc s.conns c in
    let picked_here = ap (pick_target targets) (sym v.turn) ∙ h in
    record {
      active = omega (arith, v.active, count-snoc runs s.conns c);
      accepted = omega (arith, v.accepted, count-snoc has_run s.conns c);
      errors = omega (arith, v.errors, count-snoc has_failed s.conns c);
      turn = sym (
          ap (λ m. rr_after m targets 0) n
          ∙ (rr_after-suc (length s.conns) targets 0 ∙ ap (λ (_, r). r) picked_here));
      picked =
          conn_targets-snoc s.conns c
          ∙ (ap (λ l. l ++ some t ∷ []) v.picked
              ∙ (ap (λ x. picks (length s.conns) targets 0 ++ x ∷ [])
                    (sym (ap (λ (x, _). x) picked_here))
                  ∙ (sym (picks-suc (length s.conns) targets 0)
                      ∙ ap (λ m. picks m targets 0) (sym n))));
    }
