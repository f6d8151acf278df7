-- ===== src/Tests/Router.antt =====
-- Runs of internal/router.
use pgpilot.Base.{ℕ, ◌+◌, ◌*◌, ◌/◌, ◌≡◌, refl, String, List, [], ◌∷◌, some, arith, count, string_eq}
use pgpilot.Base.Float.{thousandths}
use pgpilot.Base.Dict.{lookup}
use pgpilot.Router.Policy.{Candidate, addrs, OneOf}
use pgpilot.Router.RoundRobin.{RoundRobin, u64_mod, new_round_robin}
use pgpilot.Router.RoundRobin
use pgpilot.Router.RoundRobin.Fairness.{choices, choices_fair}
use pgpilot.Router.InFlight.{
  InFlight, began, ended, in_flight, track, outstanding, in_flight-track, begin_read,
}
use pgpilot.Router.LeastInFlight
use pgpilot.Router.LeastInFlight.Minimal.{IsFirstLeast, choose-IsFirstLeast}
use pgpilot.Router.Scored.{ScoredWeights, Scored, service, new_scored_with}
use pgpilot.Router.Scored
use pgpilot.Router.Scored.Lowest.{IsLowest, choose-IsLowest, service-release}
use pgpilot.Router.Members.{round_robin-Picks, least_in_flight-Picks}

abbrev replica_at : String → ℕ → Candidate ℕ
replica_at a lag = record { addr = a; lag_bytes = 0; lag_seconds = lag }

abbrev two : List (Candidate ℕ)
two = replica_at "r:1" 0 ∷ replica_at "r:2" 4 ∷ []

abbrev reads : InFlight
reads = ("r:1", 2) ∷ ("r:2", 1) ∷ []

in_flight-track_run :
    in_flight (track (ended "r:1" ∷ began "r:2" ∷ began "r:1" ∷ [])) "r:2"
    ≡ count "r:2" (outstanding (ended "r:1" ∷ began "r:2" ∷ began "r:1" ∷ []))
in_flight-track_run = in_flight-track (ended "r:1" ∷ began "r:2" ∷ began "r:1" ∷ []) "r:2"

least_chosen : LeastInFlight.choose reads two "" ≡ some ("r:2", begin_read "r:2" reads)
unfolding LeastInFlight.choose in_flight lookup
least_chosen = refl

choose-IsFirstLeast_example :
    IsFirstLeast reads "r:2" two × (begin_read "r:2" reads ≡ begin_read "r:2" reads)
choose-IsFirstLeast_example =
    choose-IsFirstLeast reads two "" "r:2" (begin_read "r:2" reads) least_chosen

round_robin-Picks_run :
    (a : String) × (p : RoundRobin) × (RoundRobin.choose new_round_robin two "" ≡ some (a, p))
    × OneOf a (addrs two)
round_robin-Picks_run =
    round_robin-Picks ℕ new_round_robin (replica_at "r:1" 0) (replica_at "r:2" 4 ∷ []) ""

least_in_flight-Picks_run :
    (a : String) × (m : InFlight) × (LeastInFlight.choose reads two "" ≡ some (a, m))
    × OneOf a (addrs two)
least_in_flight-Picks_run =
    least_in_flight-Picks ℕ reads (replica_at "r:1" 0) (replica_at "r:2" 4 ∷ []) ""

choices_fair_run :
    count "r:2" (choices two (3 * 2) (record { next = 7 })) ≡ 3 * count "r:2" (addrs two)
choices_fair_run = choices_fair two "r:2" 3 (record { next = 7 }) (omega arith) (omega arith)

-- Weights in thousandths: alpha 0.3, 5 ms, 1000 ms per second.
abbrev weights : ScoredWeights ℕ
weights = record { alpha = 300; default_service_ms = 5_000; lag_penalty_ms = 1_000_000 }

abbrev idle_scored : Scored ℕ
idle_scored = record { w = weights; reads = reads; latency = [] }

lowest_chosen :
    Scored.choose thousandths idle_scored two "f"
    ≡ some ("r:2", record idle_scored { reads = begin_read "r:2" reads })
unfolding Scored.choose Scored.lowest Scored.score service in_flight lookup
lowest_chosen = refl

choose-IsLowest_run : (t : ℕ) × IsLowest thousandths idle_scored "f" "r:2" t two
choose-IsLowest_run =
    choose-IsLowest thousandths idle_scored "f" two "r:2"
      (record idle_scored { reads = begin_read "r:2" reads }) lowest_chosen

service-release_run :
    service thousandths (Scored.release thousandths idle_scored "r:1" "f" 9_000_000) "r:1" "f"
    ≡ 300 * 9_000 / 1000 + 700 * service thousandths idle_scored "r:1" "f" / 1000
service-release_run = service-release thousandths idle_scored "r:1" "f" "r:1" "f" 9_000_000
