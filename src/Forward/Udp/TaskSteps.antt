-- ===== src/Forward/Udp/TaskSteps.antt =====
-- The steps of the reverse tasks of src/forward/udp.rs keep the listener's invariant.
use gust.Prelude.{
  ℕ, suc, ◌-◌, ◌%◌, ◌≤◌, ◌≡◌, refl, sym, ap, ◌∙◌, subst, Bool, true, false, List, [], ◌∷◌, ◌++◌,
  length, leb, if-cases, ◌⊎◌, append-nil, inl, inr, arith, All,
}
use gust.Text.Utf8.{Bytes}
use gust.Stats.{two_64, drop_guard}
use gust.Forward.Udp.{
  udp_ttl, Phase, waiting, closing, removed, Task, Sessions, remove, Server, on_reply, on_timer,
  sent_back,
}
use gust.Forward.Udp.Sessions.{
  DistinctKeys, entry, entries, entries-append, remove_middle, DistinctKeys-middle,
}
use gust.Forward.Udp.Invariant.{
  OwnTask, Timely, Inv, All-middle, All-without, entries_middle, middle_entry, length_middle,
  length_without, task-Inv,
}

-- the same without a packet
quiet-Inv :
    (w : Server) (before after : List Task) (t u : Task) (now : ℕ)
    → Inv w
    → w.tasks ≡ before ++ t ∷ after
    → w.clock ≤ now
    → ((m : Sessions) → entry t.phase t.peer t.socket m ≡ entry u.phase u.peer u.socket m)
    → (u.socket ≡ t.socket) × (u.peer ≡ t.peer)
    → (Timely w.clock t → Timely now u)
    → Inv (record w { tasks = before ++ u ∷ after; clock = now })
quiet-Inv w before after t u now v e c k s f =
    subst (λ r. Inv (record w { tasks = before ++ u ∷ after; clock = now; returned = r }))
      (append-nil w.returned) (task-Inv w before after t u now [] v e c k s f (λ _. tt))

stays_entry :
    (f g : Phase) (p s : ℕ) (m : Sessions)
    → f ≡ waiting
    → (g ≡ waiting) ⊎ (g ≡ closing)
    → entry f p s m ≡ entry g p s m
stays_entry f g p s m e (inl h) = rw (e, h) refl
stays_entry f g p s m e (inr h) = rw (e, h) refl

pub reply-Inv :
    (w : Server) (before after : List Task) (t : Task) (sends : Bool) (payload : Bytes) (now : ℕ)
    → Inv w
    → w.tasks ≡ before ++ t ∷ after
    → t.phase ≡ waiting
    → w.clock ≤ now
    → Inv (record w {
      tasks = before ++ on_reply sends now t ∷ after;
      clock = now;
      returned = w.returned ++ sent_back sends t payload;
    })
reply-Inv w before after t true payload now v e p c =
    task-Inv w before after t (on_reply true now t) now (sent_back true t payload) v e c (λ m. refl)
      (refl, refl) (λ _. (omega arith, omega arith, omega arith)) (λ h. (h, tt))
reply-Inv w before after t false payload now v e p c =
    task-Inv w before after t (on_reply false now t) now [] v e c
      (λ m. stays_entry t.phase closing t.peer t.socket m p (inr refl)) (refl, refl)
      (λ (_, q, r). (omega arith, omega (arith, q), omega (arith, q))) (λ _. tt)

pub closing-Inv :
    (w : Server) (before after : List Task) (t : Task) (now : ℕ)
    → Inv w
    → w.tasks ≡ before ++ t ∷ after
    → t.phase ≡ waiting
    → w.clock ≤ now
    → Inv (record w { tasks = before ++ record t { phase = closing } ∷ after; clock = now })
closing-Inv w before after t now v e p c =
    quiet-Inv w before after t (record t { phase = closing }) now v e c
      (λ m. stays_entry t.phase closing t.peer t.socket m p (inr refl)) (refl, refl)
      (λ (l, q, r). (omega (arith, l), omega (arith, q), r))

pub timer-Inv :
    (w : Server) (before after : List Task) (t : Task) (now : ℕ)
    → Inv w
    → w.tasks ≡ before ++ t ∷ after
    → t.phase ≡ waiting
    → w.clock ≤ now
    → Inv (record w { tasks = before ++ on_timer now t ∷ after; clock = now })
timer-Inv w before after t now v e p c =
    if-cases (λ u. Inv (record w { tasks = before ++ u ∷ after; clock = now }))
      (leb udp_ttl (now - t.last)) (λ _. closing-Inv w before after t now v e p c)
      (λ h.
        quiet-Inv w before after t (record t { armed = now }) now v e c (λ m. refl) (refl, refl)
          (λ (l, q, r). (omega (arith, l), omega arith, ground arith)))

pub removal-Inv :
    (w : Server) (before after : List Task) (t : Task)
    → Inv w
    → w.tasks ≡ before ++ t ∷ after
    → t.phase ≡ closing
    → Inv (record w {
      tasks = before ++ record t { phase = removed } ∷ after;
      sessions = remove t.peer w.sessions;
    })
removal-Inv w before after t v e p =
    let u : Task = record t { phase = removed } in
    let own = subst (All (OwnTask w.owners)) e v.owned in
    let all_timely = subst (All (Timely w.clock)) e v.timely in
    let m = middle_entry w before after t v e p in
    let d = subst DistinctKeys m v.keys in
    let left : remove t.peer w.sessions ≡ entries before ++ entries after =
      ap (remove t.peer) m ∙ remove_middle t.peer t.socket (entries before) (entries after) d in
    record {
      mapped = left ∙ sym (entries_middle before after u);
      keys =
          subst DistinctKeys (sym left)
            (DistinctKeys-middle t.peer t.socket (entries before) (entries after) d);
      gauge = v.gauge ∙ ap (λ n. n % two_64) (ap length e ∙ length_middle before after t u);
      owned = All-middle (OwnTask w.owners) before after t u (λ h. h) own;
      sent = v.sent;
      back = v.back;
      timely = All-middle (Timely w.clock) before after t u (λ h. h) all_timely;
    }

pub finish-Inv :
    (w : Server) (before after : List Task) (t : Task)
    → Inv w
    → w.tasks ≡ before ++ t ∷ after
    → t.phase ≡ removed
    → Inv (record w { tasks = before ++ after; stats = drop_guard w.stats })
unfolding drop_guard
finish-Inv w before after t v e p = record {
  mapped =
      v.mapped
      ∙ (ap entries e
          ∙ (entries_middle before after t
              ∙ (ap (λ f. entries before ++ entry f t.peer t.socket (entries after)) p
                  ∙ sym (entries-append before after))));
  keys = v.keys;
  gauge =
      (let n : length w.tasks ≡ suc (length (before ++ after)) =
          ap length e ∙ length_without before after t in
        omega (arith, v.gauge, n));
  owned = All-without (OwnTask w.owners) before after t (subst (All (OwnTask w.owners)) e v.owned);
  sent = v.sent;
  back = v.back;
  timely = All-without (Timely w.clock) before after t (subst (All (Timely w.clock)) e v.timely);
}
