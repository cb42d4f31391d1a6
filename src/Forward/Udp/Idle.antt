-- ===== src/Forward/Udp/Idle.antt =====
-- How long a silent session of src/forward/udp.rs lives: the ends of the sleep in its reverse task's
-- loop.
use gust.Prelude.{
  ℕ, ◌+◌, ◌*◌, ◌-◌, ◌≤◌, ◌≡◌, ◌⊎◌, inl, inr, refl, subst, true, List, ◌∷◌, ◌++◌, All, Bool-cases,
  leb, arith,
}
use gust.Text.{Text}
use gust.Stats.{ListenerStats}
use gust.Forward.Udp.{udp_ttl, waiting, closing, Task, Server, on_timer, Reach}
use gust.Forward.Udp.Invariant.{Timely, Inv, All_at}
use gust.Forward.Udp.Safety.{Reach-Inv}

-- The time lies between one and two times to live after the last activity, or by so much later.
abbrev pub IsBetween : ℕ → Task → ℕ → Type 0
IsBetween late t now = (t.last + udp_ttl ≤ now) × (now ≤ t.last + 2 * udp_ttl + late)

-- The loop of a silent session ends with one of its next two sleeps, which end at these times.
abbrev pub EndsInTime : ℕ → Task → ℕ → ℕ → Type 0
EndsInTime late t first second =
    (((on_timer first t).phase ≡ closing) × IsBetween late t first)
    ⊎ (((on_timer first t).phase ≡ waiting)
        × ((on_timer second (on_timer first t)).phase ≡ closing)
        × IsBetween late t second)

Timely-EndsInTime :
    (clock late : ℕ) (t : Task) (first second : ℕ)
    → Timely clock t
    → t.phase ≡ waiting
    → clock ≤ first
    → first ≤ t.armed + udp_ttl + late
    → first + udp_ttl ≤ second
    → second ≤ first + udp_ttl + late
    → EndsInTime late t first second
Timely-EndsInTime clock late t first second (l, a, k) p c f g h =
    elim (Bool-cases (leb udp_ttl (first - t.last))) [
      | inl e ↦ inl (rw e refl, (ground arith, omega arith))
      | inr e ↦
          let again : leb udp_ttl (second - t.last) ≡ true = ground arith in
          inr (rw e p, rw (e, again) refl, (omega arith, ground arith))
    ]

-- In every state that a UDP listener can reach, a session that hears nothing more ends with one of
-- its next two sleeps, if each of them ends no sooner than it is due (the first: not before now)
-- and at most some time late: not before the time to live has passed since the session's last
-- activity, and at most so much later than twice that time.
pub Reach-EndsInTime :
    (targets : List Text) (stats : ListenerStats) (w : Server) (before after : List Task) (t : Task)
    (late first second : ℕ)
    → stats.active ≡ 0
    → Reach targets stats w
    → w.tasks ≡ before ++ t ∷ after
    → t.phase ≡ waiting
    → w.clock ≤ first
    → first ≤ t.armed + udp_ttl + late
    → first + udp_ttl ≤ second
    → second ≤ first + udp_ttl + late
    → EndsInTime late t first second
Reach-EndsInTime targets stats w before after t late first second h r e p =
    Timely-EndsInTime w.clock late t first second
      (All_at (Timely w.clock) before after t
        (subst (All (Timely w.clock)) e (Inv.timely (Reach-Inv targets stats w h r))))
      p
