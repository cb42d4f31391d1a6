-- ===== src/Forward.antt =====
-- The choice of a target by the forwarders, `pick_target` of src/forward/tcp.rs and of
-- src/forward/udp.rs. The counter is a `usize`, which wraps around.
pub mod RoundRobin
pub mod Tcp
pub mod Udp
use gust.Prelude.{
  ℕ, zero, suc, ◌+◌, ◌%◌, List, [], ◌∷◌, Option, none, some, length, get_elem?, ◌==◌, if◌then◌else◌,
}
use gust.Text.{Text}
use gust.Stats.{two_64}

-- The target and the counter; `none` is the panic at an empty list.
unfoldable pub pick_target : List Text → ℕ → Option Text × ℕ
pick_target [] rr = (none, rr)
pick_target (t ∷ ts) rr =
    if length (t ∷ ts) == 1
    then (some t, rr)
    else (get_elem? (t ∷ ts) (rr % length (t ∷ ts)), (rr + 1) % two_64)

-- the targets of the next `n` connections
unfoldable pub picks : ℕ → List Text → ℕ → List (Option Text)
picks zero targets rr = []
picks (suc n) targets rr = let (t, rr) = pick_target targets rr in t ∷ picks n targets rr
