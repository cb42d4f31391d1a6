-- ===== src/Forward/Udp/Invariant.antt =====
-- What holds of a UDP listener of src/forward/udp.rs and its reverse tasks at every time.
use gust.Prelude.{
  ℕ, zero, suc, ◌+◌, ◌%◌, ◌≤◌, ◌≡◌, refl, sym, ap, ◌∙◌, subst, List, [], ◌∷◌, ◌++◌, some, length,
  length-append, get_elem?, arith, All, All-append, All-mono,
}
use gust.Stats.{two_64}
use gust.Forward.Udp.{udp_ttl, closing, Task, Packet, Sessions, Server}
use gust.Forward.Udp.Sessions.{DistinctKeys, entry, entries, entries-append}

-- The socket was opened for the client.
abbrev pub Owns : List ℕ → ℕ → ℕ → Type 0
Owns owners s p = get_elem? owners s ≡ some p

abbrev pub OwnTask : List ℕ → Task → Type 0
OwnTask owners t = Owns owners t.socket t.peer

abbrev pub OwnPacket : List ℕ → Packet → Type 0
OwnPacket owners k = Owns owners k.socket k.peer

-- A task sleeps from its last activity's time to live on at the latest.
abbrev pub Timely : ℕ → Task → Type 0
Timely clock t = (t.last ≤ clock) × (t.armed ≤ clock) × (t.armed ≤ t.last + udp_ttl)

pub record Inv (w : Server) : Type 0 where
  pub mapped : w.sessions ≡ entries w.tasks
  pub keys : DistinctKeys w.sessions
  pub gauge : w.stats.active ≡ length w.tasks % two_64
  pub owned : All (OwnTask w.owners) w.tasks
  pub sent : All (OwnPacket w.owners) w.forwarded
  pub back : All (OwnPacket w.owners) w.returned
  pub timely : All (Timely w.clock) w.tasks

pub get_elem?-snoc :
    (xs : List ℕ) (x i y : ℕ) → get_elem? xs i ≡ some y → get_elem? (xs ++ x ∷ []) i ≡ some y
get_elem?-snoc [] x i y h = cc
get_elem?-snoc (z ∷ xs) x zero y h = h
get_elem?-snoc (z ∷ xs) x (suc i) y h = get_elem?-snoc xs x i y h

pub get_elem?_last : (xs : List ℕ) (x : ℕ) → get_elem? (xs ++ x ∷ []) (length xs) ≡ some x
get_elem?_last [] x = refl
get_elem?_last (y ∷ xs) x = get_elem?_last xs x

-- one task changes
module _ (P : Task → Type 0) where
  pub All-middle :
      (before after : List Task) (t u : Task)
      → (P t → P u)
      → All P (before ++ t ∷ after)
      → All P (before ++ u ∷ after)
  All-middle [] after t u f (p, h) = (f p, h)
  All-middle (x ∷ before) after t u f (p, h) = (p, All-middle before after t u f h)

  pub All_at : (before after : List Task) (t : Task) → All P (before ++ t ∷ after) → P t
  All_at [] after t (p, h) = p
  All_at (x ∷ before) after t (p, h) = All_at before after t h

  pub All-without :
      (before after : List Task) (t : Task) → All P (before ++ t ∷ after) → All P (before ++ after)
  All-without [] after t (p, h) = h
  All-without (x ∷ before) after t (p, h) = (p, All-without before after t h)

pub entries_middle :
    (before after : List Task) (t : Task)
    → entries (before ++ t ∷ after)
      ≡ entries before ++ entry t.phase t.peer t.socket (entries after)
unfolding entries
entries_middle before after t = entries-append before (t ∷ after)

entries_same :
    (before after : List Task) (t u : Task)
    → ((m : Sessions) → entry t.phase t.peer t.socket m ≡ entry u.phase u.peer u.socket m)
    → entries (before ++ t ∷ after) ≡ entries (before ++ u ∷ after)
entries_same before after t u e =
    entries_middle before after t
    ∙ (ap (◌++◌ (entries before)) (e (entries after)) ∙ sym (entries_middle before after u))

pub length_middle :
    (before after : List Task) (t u : Task)
    → length (before ++ t ∷ after) ≡ length (before ++ u ∷ after)
length_middle before after t u =
    omega (arith, length-append before (t ∷ after), length-append before (u ∷ after))

pub length_without :
    (before after : List Task) (t : Task)
    → length (before ++ t ∷ after) ≡ suc (length (before ++ after))
length_without before after t =
    omega (arith, length-append before (t ∷ after), length-append before after)

pub later-Timely :
    (clock now : ℕ) → clock ≤ now → (ts : List Task) → All (Timely clock) ts → All (Timely now) ts
later-Timely clock now c =
    All-mono (Timely clock) (Timely now)
      (λ t (p, q, r). (omega (arith, p, c), omega (arith, q, c), r))

-- the entry of a task that is about to remove it
pub middle_entry :
    (w : Server) (before after : List Task) (t : Task)
    → Inv w
    → w.tasks ≡ before ++ t ∷ after
    → t.phase ≡ closing
    → w.sessions ≡ entries before ++ (t.peer, t.socket) ∷ entries after
middle_entry w before after t v e p =
    v.mapped
    ∙ (ap entries e
        ∙ (entries_middle before after t
            ∙ ap (λ f. entries before ++ entry f t.peer t.socket (entries after)) p))

-- A step of one task that keeps its client, its socket and its entry keeps the invariant.
pub task-Inv :
    (w : Server) (before after : List Task) (t u : Task) (now : ℕ) (more : List Packet)
    → Inv w
    → w.tasks ≡ before ++ t ∷ after
    → w.clock ≤ now
    → ((m : Sessions) → entry t.phase t.peer t.socket m ≡ entry u.phase u.peer u.socket m)
    → (u.socket ≡ t.socket) × (u.peer ≡ t.peer)
    → (Timely w.clock t → Timely now u)
    → (OwnTask w.owners t → All (OwnPacket w.owners) more)
    → Inv (record w { tasks = before ++ u ∷ after; clock = now; returned = w.returned ++ more })
task-Inv w before after t u now more v e c k (same_socket, same_peer) f g =
    let own = subst (All (OwnTask w.owners)) e v.owned in
    let all_timely = subst (All (Timely w.clock)) e v.timely in
    record {
      mapped = v.mapped ∙ (ap entries e ∙ entries_same before after t u k);
      keys = v.keys;
      gauge = v.gauge ∙ ap (λ n. n % two_64) (ap length e ∙ length_middle before after t u);
      owned =
          All-middle (OwnTask w.owners) before after t u (λ h. rw (same_socket, same_peer) h) own;
      sent = v.sent;
      back =
          All-append (OwnPacket w.owners) w.returned more v.back
            (g (All_at (OwnTask w.owners) before after t own));
      timely =
          All-middle (Timely now) before after t u
            (λ _. f (All_at (Timely w.clock) before after t all_timely))
            (later-Timely w.clock now c (before ++ t ∷ after) all_timely);
    }
