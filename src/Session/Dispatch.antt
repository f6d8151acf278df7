-- ===== src/Session/Dispatch.antt =====
-- internal/proxy/session.go: dispatchRead, which tries eligible replicas and then the primary. What
-- the registry, the pools and the network answer in each round is an argument.
pub mod Log
pub mod Failover
use pgpilot.Base.{
  ℕ, zero, suc, ◌+◌, String, Bool, true, false, List, [], ◌∷◌, Option, none, some, string_eq,
}
use pgpilot.Base.Float.{Float64}
use pgpilot.Registry.State.{Status}
use pgpilot.Router.Policy.{Policy}
use pgpilot.Session.Select.{Fencing, select_read_target}

-- The answers of one round: the snapshot, the connection of AcquireAt, and whether the write of the
-- query succeeds.
pub record Round (F : Type 0) : Type 0 where
  pub snapshot : List (Status F)
  pub acquired : Option ℕ
  pub writes : Bool

-- What a session does to the policy (Choose and Release) and the pools (AcquireAt, DiscardAt and
-- ReleaseAt), the latest first.
pub data Effect : Type 0 where
  returned : String → ℕ → Effect
  chose : String → Effect
  unchose : String → Effect
  took : String → ℕ → Effect
  discarded : String → ℕ → Effect

-- The held connection and its address, and the address chosen by the policy, if it was asked.
pub data Dispatched (S : Type 0) : Type 0 where
  sent : ℕ → String → Option String → S → List Effect → Dispatched S
  refused : S → List Effect → Dispatched S
  panicked : Dispatched S

module _ (fl : Float64) (cfg : Fencing) where
  open fl use {F}

  module _ (policy : Policy F) (rounds : ℕ → Round F) (fence : ℕ) (fp : String) where
    open policy use {State, release}

    abbrev pub Loop : Type 0
    Loop = List String → State → List Effect → Option (Dispatched State)

    -- A backend failed: a replica's slot is released and the next one tried; the primary was the
    -- last resort.
    abbrev pub fail_over :
        Bool → String → List String → State → List Effect → Loop → Option (Dispatched State)
    fail_over false target exclude p log again = some (refused p log)
    fail_over true target exclude p log again =
        again (target ∷ exclude) (release p target fp 0) (unchose target ∷ log)

    abbrev pub routed_addr : Bool → String → Option String
    routed_addr true a = some a
    routed_addr false a = none

    abbrev pub try_target :
        Option ℕ
        → Bool
        → Bool
        → String
        → List String
        → State
        → List Effect
        → Loop
        → Option (Dispatched State)
    try_target none writes routed target exclude p log again =
        fail_over routed target exclude p log again
    try_target (some c) true routed target exclude p log again =
        some (sent c target (routed_addr routed target) p (took target c ∷ log))
    try_target (some c) false routed target exclude p log again =
        fail_over routed target exclude p (discarded target c ∷ took target c ∷ log) again

    abbrev pub logged : Bool → String → List Effect → List Effect
    logged true a log = chose a ∷ log
    logged false a log = log

    abbrev pub with_target :
        Round F
        → List String
        → List Effect
        → Loop
        → Option (String × Bool × State)
        → Option (Dispatched State)
    with_target r exclude log again none = some panicked
    with_target r exclude log again (some (target, routed, p)) =
        try_target r.acquired r.writes routed target exclude p (logged routed target log) again

    -- `i` counts the rounds; `none` is a run out of fuel.
    unfoldable pub dispatch_loop : ℕ → ℕ → Loop
    dispatch_loop zero i exclude p log = none
    dispatch_loop (suc n) i exclude p log =
        with_target (rounds i) exclude log (dispatch_loop n (suc i))
          (select_read_target fl cfg policy p (rounds i).snapshot fence fp exclude)

    unfoldable pub dispatch_read : ℕ → State → Option (Dispatched State)
    unfolding dispatch_loop
    dispatch_read fuel p = dispatch_loop fuel 0 [] p []
