-- ===== src/Forward/Tcp/Counts.antt =====
-- src/forward/tcp.rs: the counters and the targets of a TCP listener, whatever happens to it.
use gust.Prelude.{
  ℕ, zero, suc, ◌+◌, ◌%◌, ◌≡◌, refl, ap, List, [], ◌∷◌, ◌++◌, Option, some, length, length-append,
  arith,
}
use gust.Text.{Text}
use gust.Stats.{two_64}
use gust.Forward.{pick_target, picks}
use gust.Forward.Tcp.{
  Phase, spawned, running, closed, failed, panicked, Conn, Server, conn_at, set_phase,
}

-- what a connection counts for: its task runs, it has run, it failed
abbrev pub runs : Phase → ℕ
runs spawned = 0
runs running = 1
runs closed = 0
runs failed = 0
runs panicked = 0

abbrev pub has_run : Phase → ℕ
has_run spawned = 0
has_run running = 1
has_run closed = 1
has_run failed = 1
has_run panicked = 1

abbrev pub has_failed : Phase → ℕ
has_failed spawned = 0
has_failed running = 0
has_failed closed = 0
has_failed failed = 1
has_failed panicked = 0

abbrev pub count : (Phase → ℕ) → List Conn → ℕ
count w [] = 0
count w (c ∷ cs) = w c.phase + count w cs

abbrev pub conn_targets : List Conn → List (Option Text)
conn_targets [] = []
conn_targets (c ∷ cs) = some c.target ∷ conn_targets cs

-- the counter of the targets behind so many connections
abbrev pub rr_after : ℕ → List Text → ℕ → ℕ
rr_after zero targets rr = rr
rr_after (suc n) targets rr = rr_after n targets (pick_target targets rr).1

pub record Tallies (targets : List Text) (s : Server) : Type 0 where
  pub active : s.stats.active ≡ count runs s.conns % two_64
  pub accepted : s.stats.accepted ≡ count has_run s.conns % two_64
  pub errors : s.stats.errors ≡ (s.refused + count has_failed s.conns) % two_64
  pub turn : s.rr ≡ rr_after (length s.conns) targets 0
  pub picked : conn_targets s.conns ≡ picks (length s.conns) targets 0

pub count-set_phase :
    (w : Phase → ℕ) (i : ℕ) (p : Phase) (cs : List Conn) (c : Conn)
    → conn_at i cs ≡ some c
    → count w (set_phase i p cs) + w c.phase ≡ count w cs + w p
unfolding set_phase
count-set_phase w i p [] c h = absurd (cc)
count-set_phase w zero p (d ∷ cs) c h =
    let e : d ≡ c = cc in omega (arith, ap (λ x. w (Conn.phase x)) e)
count-set_phase w (suc i) p (d ∷ cs) c h = omega (arith, count-set_phase w i p cs c h)

pub length-set_phase : (i : ℕ) (p : Phase) (cs : List Conn) → length (set_phase i p cs) ≡ length cs
unfolding set_phase
length-set_phase i p [] = refl
length-set_phase zero p (c ∷ cs) = refl
length-set_phase (suc i) p (c ∷ cs) = ap suc (length-set_phase i p cs)

pub conn_targets-set_phase :
    (i : ℕ) (p : Phase) (cs : List Conn) → conn_targets (set_phase i p cs) ≡ conn_targets cs
unfolding set_phase
conn_targets-set_phase i p [] = refl
conn_targets-set_phase zero p (c ∷ cs) = refl
conn_targets-set_phase (suc i) p (c ∷ cs) = ap (◌∷◌ (some c.target)) (conn_targets-set_phase i p cs)

pub count-snoc :
    (w : Phase → ℕ) (cs : List Conn) (c : Conn) → count w (cs ++ c ∷ []) ≡ count w cs + w c.phase
count-snoc w [] c = omega arith
count-snoc w (d ∷ cs) c = omega (arith, count-snoc w cs c)

pub conn_targets-snoc :
    (cs : List Conn) (c : Conn)
    → conn_targets (cs ++ c ∷ []) ≡ conn_targets cs ++ some c.target ∷ []
conn_targets-snoc [] c = refl
conn_targets-snoc (d ∷ cs) c = ap (◌∷◌ (some d.target)) (conn_targets-snoc cs c)

pub length-snoc : (cs : List Conn) (c : Conn) → length (cs ++ c ∷ []) ≡ suc (length cs)
length-snoc cs c = omega (arith, length-append cs (c ∷ []))

pub picks-suc :
    (n : ℕ) (targets : List Text) (rr : ℕ)
    → picks (suc n) targets rr
      ≡ picks n targets rr ++ (pick_target targets (rr_after n targets rr)).0 ∷ []
unfolding picks
picks-suc zero targets rr = refl
picks-suc (suc n) targets rr =
    ap (◌∷◌ (pick_target targets rr).0) (picks-suc n targets (pick_target targets rr).1)

pub rr_after-suc :
    (n : ℕ) (targets : List Text) (rr : ℕ)
    → rr_after (suc n) targets rr ≡ (pick_target targets (rr_after n targets rr)).1
rr_after-suc zero targets rr = refl
rr_after-suc (suc n) targets rr = rr_after-suc n targets (pick_target targets rr).1
