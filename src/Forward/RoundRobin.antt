-- ===== src/Forward/RoundRobin.antt =====
-- The order in which src/forward/tcp.rs and src/forward/udp.rs go through the targets.
use gust.Prelude.{
  ℕ, zero, suc, ◌+◌, ◌%◌, ◌<◌, ◌≡◌, ◌≢◌, refl, sym, ap, ◌∙◌, false, List, [], ◌∷◌, Option, some,
  length, get_elem?, ◌==◌, arith,
}
use gust.Text.{Text}
use gust.Stats.{two_64}
use gust.Forward.{pick_target, picks}

-- the targets from the place of `rr` on, again from the first behind the last
pub in_turn : ℕ → List Text → ℕ → List (Option Text)
in_turn zero targets rr = []
in_turn (suc n) targets rr = get_elem? targets (rr % length targets) ∷ in_turn n targets (suc rr)

one_target : (t : Text) (rr : ℕ) → get_elem? (t ∷ []) (rr % 1) ≡ some t
one_target t rr = let e : rr % 1 ≡ 0 = omega arith in ap (get_elem? (t ∷ [])) e

in_turn_one : (n : ℕ) (t : Text) (rr k : ℕ) → in_turn n (t ∷ []) rr ≡ in_turn n (t ∷ []) k
unfolding in_turn
in_turn_one zero t rr k = refl
in_turn_one (suc n) t rr k =
    ap (λ o. o ∷ in_turn n (t ∷ []) (suc rr)) (one_target t rr ∙ sym (one_target t k))
    ∙ ap (◌∷◌ (get_elem? (t ∷ []) (k % 1))) (in_turn_one n t (suc rr) (suc k))

-- While the counter does not wrap around, the connections get the targets in turn: each one in the
-- order of the list, and the first again behind the last.
pub picks-in_turn :
    (n : ℕ) (targets : List Text) (rr : ℕ)
    → targets ≢ []
    → rr + n < two_64
    → picks n targets rr ≡ in_turn n targets rr
unfolding picks in_turn pick_target
picks-in_turn zero targets rr h b = refl
picks-in_turn (suc n) [] rr h b = absurd (h refl)
picks-in_turn (suc n) (t ∷ []) rr h b =
    ap (◌∷◌ (some t)) (picks-in_turn n (t ∷ []) rr h (omega arith) ∙ in_turn_one n t rr (suc rr))
    ∙ ap (λ o. o ∷ in_turn n (t ∷ []) (suc rr)) (sym (one_target t rr))
picks-in_turn (suc n) (t ∷ u ∷ ts) rr h b =
    let several : (suc (suc (length ts)) == 1) ≡ false = ground arith in
    let next : (rr + 1) % two_64 ≡ suc rr = omega arith in
    rw (several, next)
      (ap (◌∷◌ (get_elem? (t ∷ u ∷ ts) (rr % length (t ∷ u ∷ ts))))
        (picks-in_turn n (t ∷ u ∷ ts) (suc rr) h (omega arith)))
