-- ===== src/Router/Scored.antt =====
-- internal/router/scored.go: the candidate with the lowest estimate of its completion time. Floats
-- are the interface `Float64`, a parameter.
pub mod Lowest
use pgpilot.Base.{
  ℕ, ◌+◌, String, true, List, [], ◌∷◌, Option, none, some, if◌then◌else◌, string_eq, pair_eq, Bool,
}
use pgpilot.Base.Dict.{lookup, insert}
use pgpilot.Base.Float.{Float64}
use pgpilot.Router.Policy.{Candidate, Policy}
use pgpilot.Router.InFlight.{InFlight, in_flight, begin_read, end_read}

pub record ScoredWeights (F : Type 0) : Type 0 where
  pub alpha : F
  pub default_service_ms : F
  pub lag_penalty_ms : F

-- `latency` is keyed by fpKey, the address and the fingerprint.
pub record Scored (F : Type 0) : Type 0 where
  pub w : ScoredWeights F
  pub reads : InFlight
  pub latency : List ((String × String) × F)

abbrev pub or_default : {F : Type 0} → F → Option F → F
or_default d none = d
or_default d (some v) = v

module _ (fl : Float64) where
  open fl use {F, lt, add, sub, mul, div, of_nat, infinity}

  unfoldable pub new_scored_with : ScoredWeights F → Scored F
  new_scored_with w = record { w = w; reads = []; latency = [] }

  -- serviceLocked
  unfoldable pub service : Scored F → String → String → F
  service p addr fingerprint =
      or_default p.w.default_service_ms (lookup (addr, fingerprint) p.latency)

  unfoldable pub score : Scored F → String → Candidate F → F
  score p fingerprint c =
      add (mul (of_nat (in_flight p.reads c.addr + 1)) (service p c.addr fingerprint))
        (mul p.w.lag_penalty_ms c.lag_seconds)

  -- The loop of Choose.
  unfoldable pub lowest : Scored F → String → String → F → List (Candidate F) → String
  lowest p fingerprint best best_score [] = best
  lowest p fingerprint best best_score (c ∷ cs) =
      let s = score p fingerprint c in
      lowest p fingerprint (if lt s best_score then c.addr else best)
        (if lt s best_score then s else best_score) cs

  unfoldable pub choose : Scored F → List (Candidate F) → String → Option (String × Scored F)
  choose p cs fingerprint =
      let best = lowest p fingerprint "" infinity cs in
      some (best, record p { reads = begin_read best p.reads })

  -- `latency` is in nanoseconds.
  unfoldable pub release : Scored F → String → String → ℕ → Scored F
  release p addr fingerprint latency =
      let ms = div (of_nat latency) (of_nat 1_000_000) in
      let prev = or_default p.w.default_service_ms (lookup (addr, fingerprint) p.latency) in
      record p {
        reads = end_read addr p.reads;
        latency =
            insert (addr, fingerprint)
              (add (mul p.w.alpha ms) (mul (sub (of_nat 1) p.w.alpha) prev)) p.latency;
      }

  abbrev pub scored : Policy F
  scored = record { State = Scored F; choose = choose; release = release; needs_fingerprint = true }
