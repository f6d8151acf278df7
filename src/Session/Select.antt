-- ===== src/Session/Select.antt =====
-- internal/proxy/session.go: replicaEligible and selectReadTarget.
pub mod Fenced
use pgpilot.Base.{
  ℕ, ◌&&◌, not, String, Bool, true, false, List, [], ◌∷◌, Option, none, some, if◌then◌else◌, leb,
  ◌==◌, string_eq, contains,
}
use pgpilot.Base.Int.{ℤ}
use pgpilot.Base.Float.{Float64}
use pgpilot.Registry.State.{Status, is_replica}
use pgpilot.Router.Policy.{Candidate, Policy}

-- What the router reads of the configuration.
pub record Fencing : Type 0 where
  pub primary : String
  pub mode : String
  pub bounded_ms : ℤ

module _ (fl : Float64) (cfg : Fencing) where
  open fl use {F, le, mul, of_nat, of_int}

  -- Any mode but "relaxed" and "bounded" is strict.
  unfoldable pub replica_eligible : Status F → ℕ → Bool
  replica_eligible st fence =
      if cfg.mode == "relaxed"
      then true
      else if cfg.mode == "bounded"
      then le (mul st.lag_seconds (of_nat 1000)) (of_int cfg.bounded_ms)
      else leb fence st.lsn

  -- The condition under which a backend becomes a candidate.
  unfoldable pub is_candidate : ℕ → List String → Status F → Bool
  unfolding replica_eligible
  is_candidate fence exclude st =
      is_replica st.role
      && st.healthy
      && not (contains exclude st.addr)
      && replica_eligible st fence

  abbrev pub to_candidate : Status F → Candidate F
  to_candidate st = record {
    addr = st.addr;
    lag_bytes = st.lag_bytes;
    lag_seconds = st.lag_seconds;
  }

  unfoldable pub candidates : ℕ → List String → List (Status F) → List (Candidate F)
  candidates fence exclude [] = []
  candidates fence exclude (st ∷ sts) =
      let rest = candidates fence exclude sts in
      if is_candidate fence exclude st then to_candidate st ∷ rest else rest

  module _ (policy : Policy F) where
    open policy use {State, choose}

    abbrev pub routed : Option (String × State) → Option (String × Bool × State)
    routed none = none
    routed (some (a, p)) = some (a, true, p)

    abbrev pub select_from : State → List (Candidate F) → String → Option (String × Bool × State)
    select_from p [] fp = some (cfg.primary, false, p)
    select_from p (c ∷ cs) fp = routed (choose p (c ∷ cs) fp)

    -- The address, whether the policy was asked, and its state; `none` if the policy panics.
    unfoldable pub select_read_target :
        State → List (Status F) → ℕ → String → List String → Option (String × Bool × State)
    select_read_target p snapshot fence fp exclude =
        select_from p (candidates fence exclude snapshot) fp
