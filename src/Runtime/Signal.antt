-- ===== src/Runtime/Signal.antt =====
-- `Shutdown` of src/runtime.rs, with the calls of `cancelled` that wait on it.
use gust.Prelude.{
  ℕ, zero, suc, ◌<◌, ◌≡◌, ◌↔◌, ◌⊎◌, inl, inr, refl, sym, ap, ◌∙◌, Bool, true, false, Bool-cases,
  arith, subst, if◌then◌else◌,
}
use gust.Runtime.{Watch, new_shutdown, trigger, is_triggered, begin_cancelled, resume_cancelled}

-- The channel, and the number of the calls of `cancelled` that are waiting.
pub record World (C : Type 0) : Type 0 where
  pub chan : C
  pub waiting : ℕ

-- What a call of `cancelled` that has not waited yet leaves.
abbrev pub after_begin {ℓ} : {C : Type ℓ} → ℕ → Bool × C → ℕ
after_begin n (true, c) = n
after_begin n (false, c) = suc n

module _ {C : Type 0} (watch : Watch C) where
  abbrev pub begun : World C → World C
  begun w =
      let r = begin_cancelled watch w.chan in
      record { chan = r.1; waiting = if r.0 then w.waiting else suc w.waiting }

  -- a call that waited is polled
  abbrev pub resumed : C → ℕ → World C
  resumed c n =
      let r = resume_cancelled watch c in record { chan = r.1; waiting = if r.0 then n else suc n }

  -- What the tasks do, in any order: a call of `cancelled` begins, one that waits is polled or
  -- is dropped, and the shutdown is triggered.
  pub data Step : World C → World C → Type 0 where
    begin : (w : World C) → Step w (begun w)
    resume : (c : C) (n : ℕ) → Step (record { chan = c; waiting = suc n }) (resumed c n)
    give_up :
        (c : C) (n : ℕ)
        → Step
            (record { chan = c; waiting = suc n })
            (record { chan = watch.drop_receiver c; waiting = n })
    pull : (w : World C) → Step w (record w { chan = trigger watch w.chan })

  pub data Steps : World C → World C → Type 0 where
    done : (w : World C) → Steps w w
    more : (u v w : World C) → Step u v → Steps v w → Steps u w

  abbrev pub start : World C
  start = record { chan = new_shutdown watch; waiting = 0 }

  -- Each waiting call holds a receiver, and nobody else does.
  abbrev pub Held : World C → Type 0
  Held w = watch.receivers w.chan ≡ w.waiting

  begun-Held : (w : World C) → Held w → Held (begun w)
  unfolding begin_cancelled
  begun-Held w h = elim (Bool-cases (watch.borrow (watch.subscribe w.chan))) [
    | inl e ↦ rw e (
        watch.drop_receivers (watch.subscribe w.chan) w.waiting
          (watch.subscribe_receivers w.chan ∙ ap suc h))
    | inr e ↦ rw e (watch.subscribe_receivers w.chan ∙ ap suc h)
  ]

  resumed-Held : (c : C) (n : ℕ) → watch.receivers c ≡ suc n → Held (resumed c n)
  unfolding resume_cancelled
  resumed-Held c n h = elim (Bool-cases (watch.borrow c)) [
    | inl e ↦ rw e (watch.drop_receivers c n h)
    | inr e ↦ rw e h
  ]

  Step-Held : (v w : World C) → Step v w → Held v → Held w
  unfolding trigger
  Step-Held v w (begin u) h = begun-Held u h
  Step-Held v w (resume c n) h = resumed-Held c n h
  Step-Held v w (give_up c n) h = watch.drop_receivers c n h
  Step-Held v w (pull u) h = watch.send_receivers true u.chan ∙ h

  pub Steps-Held : (v w : World C) → Steps v w → Held v → Held w
  Steps-Held v w (done u) h = h
  Steps-Held v w (more t u x s r) h = Steps-Held u x r (Step-Held t u s h)

  start-Held : Held start
  unfolding new_shutdown
  start-Held = watch.no_receivers_yet

  -- the flag is never taken back
  begun-triggered :
      (w : World C) → is_triggered watch w.chan ≡ true → is_triggered watch (begun w).chan ≡ true
  unfolding is_triggered begin_cancelled
  begun-triggered w h =
      let e = watch.subscribe_value w.chan ∙ h in
      rw (e, watch.drop_value (watch.subscribe w.chan), e) refl

  resumed-triggered :
      (c : C) (n : ℕ) → is_triggered watch c ≡ true → is_triggered watch (resumed c n).chan ≡ true
  unfolding is_triggered resume_cancelled
  resumed-triggered c n h = rw (h, watch.drop_value c, h) refl

  dropped-triggered :
      (c : C) → is_triggered watch c ≡ true → is_triggered watch (watch.drop_receiver c) ≡ true
  unfolding is_triggered
  dropped-triggered c h = watch.drop_value c ∙ h

  -- A trigger is kept if it was there already, or if a receiver hears it.
  triggered_as :
      (c : C) (n : ℕ)
      → watch.receivers c ≡ n
      → (is_triggered watch (trigger watch c) ≡ true) ↔ ((is_triggered watch c ≡ true) ⊎ (0 < n))
  unfolding is_triggered trigger
  triggered_as c zero h =
      let e = watch.send_unheard true c h in
      rw e (inl, λ t. elim t [ inl i ↦ i | inr p ↦ absurd (omega arith) ])
  triggered_as c (suc n) h =
      (λ _. inr (omega arith), λ _. watch.send_heard true c (rw h (omega arith)))

  Step-triggered :
      (v w : World C)
      → Step v w
      → Held v
      → is_triggered watch v.chan ≡ true
      → is_triggered watch w.chan ≡ true
  Step-triggered v w (begin u) h t = begun-triggered u t
  Step-triggered v w (resume c n) h t = resumed-triggered c n t
  Step-triggered v w (give_up c n) h t = dropped-triggered c t
  Step-triggered v w (pull u) h t = (triggered_as u.chan u.waiting h).1 (inl t)

  Steps-triggered :
      (v w : World C)
      → Steps v w
      → Held v
      → is_triggered watch v.chan ≡ true
      → is_triggered watch w.chan ≡ true
  Steps-triggered v w (done u) h t = t
  Steps-triggered v w (more t u x s r) h e =
      Steps-triggered u x r (Step-Held t u s h) (Step-triggered t u s h e)

  -- A trigger takes effect exactly if it had taken effect before or a call of `cancelled` is waiting
  -- at that moment: one that nobody waits for is lost.
  pub trigger_iff :
      (w : World C)
      → Steps start w
      → (is_triggered watch (trigger watch w.chan) ≡ true)
        ↔ ((is_triggered watch w.chan ≡ true) ⊎ (0 < w.waiting))
  trigger_iff w r = triggered_as w.chan w.waiting (Steps-Held start w r start-Held)

  -- Once the shutdown is triggered, it stays so, whatever the tasks do.
  pub triggered-stays :
      (v w : World C)
      → Steps start v
      → Steps v w
      → is_triggered watch v.chan ≡ true
      → is_triggered watch w.chan ≡ true
  triggered-stays v w r s t = Steps-triggered v w s (Steps-Held start v r start-Held) t

  -- So many polls of calls of `cancelled` that wait, and nothing else.
  pub data Polls : ℕ → World C → World C → Type 0 where
    unpolled : (w : World C) → Polls 0 w w
    polled :
        (n : ℕ) (c : C) (k : ℕ) (w : World C)
        → Polls n (resumed c k) w
        → Polls (suc n) (record { chan = c; waiting = suc k }) w

  -- a state in which nobody waits, behind so many polls
  DrainedBy : ℕ → World C → Type 0
  DrainedBy n v = (w : World C) × Polls n v w × (w.waiting ≡ 0) × (is_triggered watch w.chan ≡ true)

  resumed-returns : (c : C) (n : ℕ) → is_triggered watch c ≡ true → (resumed c n).waiting ≡ n
  unfolding is_triggered resume_cancelled
  resumed-returns c n t = rw t refl

  drain :
      (n : ℕ) (c : C) → is_triggered watch c ≡ true → DrainedBy n (record { chan = c; waiting = n })
  unfolding DrainedBy
  drain zero c t =
      (record { chan = c; waiting = 0 }, unpolled (record { chan = c; waiting = 0 }), refl, t)
  drain (suc n) c t =
      let u = resumed c n in
      let (w, s, e, f) =
        subst (λ k. DrainedBy n (record { chan = u.chan; waiting = k }))
          (sym (resumed-returns c n t)) (drain n u.chan (resumed-triggered c n t)) in
      (w, polled n c n w s, e, f)

  -- From every state in which the shutdown is triggered, one poll of each waiting call of
  -- `cancelled` makes all of them return: as many polls as calls wait lead to a state in which none
  -- waits, and which is still triggered.
  pub triggered-drains :
      (v : World C)
      → is_triggered watch v.chan ≡ true
      → (w : World C) × Polls v.waiting v w × (w.waiting ≡ 0) × (is_triggered watch w.chan ≡ true)
  unfolding DrainedBy
  triggered-drains v t = drain v.waiting v.chan t
