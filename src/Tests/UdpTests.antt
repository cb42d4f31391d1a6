-- ===== src/Tests/UdpTests.antt =====
-- The listeners of TCP and UDP at concrete events.
use gust.Prelude.{◌≤◌, ◌≡◌, refl, arith, true, List, [], ◌∷◌, some}
use gust.Text.{Text, codes}
use gust.Stats.{ListenerStats, new_stats, on_accept}
use gust.Forward.{pick_target}
use gust.Forward.Udp.{
  closing, on_timer, waiting, Server, new_server, lookup, insert, receive, Reach, start, later,
  datagram, spawn_reverse,
}
use gust.Forward.Udp.Invariant.{Inv}
use gust.Forward.Udp.Safety.{Reach-Inv}
use gust.Forward.Udp.Table.{TableStep, Step-TableStep}
use gust.Forward.Udp.Idle.{EndsInTime, Reach-EndsInTime}

abbrev fresh : ListenerStats
fresh = new_stats (codes "udp://:53") (codes "udp")

abbrev targets : List Text
targets = codes "9.9.9.9:53" ∷ []

-- the state behind the first datagram of client 7, at 5 ms
abbrev opened : Server
opened = record {
  sessions = (7, 0) ∷ [];
  tasks = spawn_reverse 0 7 5 ∷ [];
  rr = 0;
  stats = on_accept fresh;
  clock = 5;
  owners = 7 ∷ [];
  forwarded = record { socket = 0; peer = 7; payload = 1 ∷ 2 ∷ [] } ∷ [];
  returned = [];
}

receive_run : receive targets true 7 (1 ∷ 2 ∷ []) 5 (new_server fresh) ≡ some opened
unfolding receive lookup new_server pick_target insert new_stats
receive_run = refl

starts_early : (new_server fresh).clock ≤ 5
unfolding new_server
starts_early = omega arith

no_clients : fresh.active ≡ 0
unfolding new_stats
no_clients = refl

opened_reached : Reach targets fresh opened
opened_reached =
    later (new_server fresh) opened start
      (datagram true 7 (1 ∷ 2 ∷ []) 5 opened starts_early receive_run)

Reach-Inv_example : Inv opened
Reach-Inv_example = Reach-Inv targets fresh opened no_clients opened_reached

-- Both sleeps end half a second late.
Reach-EndsInTime_example : EndsInTime 500 (spawn_reverse 0 7 5) 60505 121005
Reach-EndsInTime_example =
    Reach-EndsInTime targets fresh opened [] [] (spawn_reverse 0 7 5) 500 60505 121005 no_clients
      opened_reached refl refl (omega arith) (omega arith) (omega arith) (omega arith)

-- A client that sends just before the timer fires keeps its session for nearly twice the time.
late_end :
    on_timer 120000
      (on_timer 60000 (record { socket = 0; peer = 7; phase = waiting; armed = 0; last = 59999 }))
    ≡ record { socket = 0; peer = 7; phase = closing; armed = 60000; last = 59999 }
late_end = refl

Step-TableStep_example : TableStep (new_server fresh).sessions ((7, 0) ∷ [])
Step-TableStep_example =
    Step-TableStep targets fresh (new_server fresh) opened no_clients start
      (datagram true 7 (1 ∷ 2 ∷ []) 5 opened starts_early receive_run)
