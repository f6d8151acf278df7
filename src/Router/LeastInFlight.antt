-- ===== src/Router/LeastInFlight.antt =====
-- internal/router/leastinflight.go: the candidate with the fewest outstanding reads.
pub mod Minimal
use pgpilot.Base.{ℕ, String, Bool, false, List, [], ◌∷◌, Option, none, some, if◌then◌else◌, ltb}
use pgpilot.Router.Policy.{Candidate, Policy}
use pgpilot.Router.InFlight.{InFlight, in_flight, begin_read, end_read}

unfoldable pub new_least_in_flight : InFlight
new_least_in_flight = []

-- The loop of Choose over the candidates after the first.
unfoldable pub least : {F : Type 0} → InFlight → String → ℕ → List (Candidate F) → String
least m best best_n [] = best
least m best best_n (c ∷ cs) =
    let n = in_flight m c.addr in
    least m (if ltb n best_n then c.addr else best) (if ltb n best_n then n else best_n) cs

unfoldable pub choose :
    {F : Type 0} → InFlight → List (Candidate F) → String → Option (String × InFlight)
unfolding least
choose m [] _ = none
choose m (c ∷ cs) _ =
    let best = least m c.addr (in_flight m c.addr) cs in some (best, begin_read best m)

unfoldable pub release : InFlight → String → String → ℕ → InFlight
release m a _ _ = end_read a m

abbrev pub least_in_flight : (F : Type 0) → Policy F
least_in_flight F = record {
  State = InFlight;
  choose = choose;
  release = release;
  needs_fingerprint = false;
}
