-- ===== src/Tests/Server.antt =====
-- Runs of internal/proxy/proxy.go, internal/metrics/metrics.go and of the pollers of
-- internal/registry/registry.go.
use pgpilot.Base.{ℕ, ◌≡◌, refl, String, true, false, List, [], ◌∷◌, Option, none, All}
use pgpilot.Base.Int.{pos}
use pgpilot.Registry.Backoff.{Config}
use pgpilot.Registry.Poll.{Answers, query_error}
use pgpilot.Registry.Pollers.{Poller, Registry, start, started, polled, exited, polls, exits}
use pgpilot.Registry.Pollers
use pgpilot.Registry.Pollers.Drained.{Tended, Reach-Tended, Reach-closed}
use pgpilot.Sql.Classify.{read, write}
use pgpilot.Metrics.{Event, decided, failed_over, extended}
use pgpilot.Server.{
  Server, serving, accept, open_session, close_session, accepts, opens, closes, breaks, returns,
}
use pgpilot.Server
use pgpilot.Server.Drain.{Reach-returned}

abbrev events : List Event
events =
    decided true read "p:1" "p:1" false
    ∷ (decided true write "p:1" "p:1" false ∷ (failed_over ∷ (extended ∷ [])))

-- A client comes and goes and the server shuts down.
abbrev s₁ : Server
s₁ = accept serving

abbrev s₂ : Server
s₂ = open_session s₁

abbrev s₃ : Server
s₃ = record s₂ { done = true }

abbrev s₄ : Server
s₄ = record s₃ { accepting = false }

abbrev s₅ : Server
s₅ = close_session [] [] s₄

abbrev s₆ : Server
s₆ = record s₅ { returned = true }

shut_down : Server.Reach serving s₆
unfolding accept open_session close_session
shut_down =
    Server.later
      (Server.later
        (Server.later
          (Server.later (Server.later (Server.later Server.here (accepts refl refl)) (opens 0 refl))
            Server.cancels)
          (breaks refl refl))
        (closes [] [] 1 refl))
      (returns refl refl)

Reach-returned_example :
    (s₆.live ≡ [])
    × (s₆.metrics.sessions_active ≡ pos 0)
    × (s₆.metrics.sessions_opened ≡ s₆.metrics.sessions_closed)
Reach-returned_example = Reach-returned s₆ shut_down refl

abbrev config : Config
config = record { interval = 1000; failure_threshold = 3; base_backoff = 10; max_backoff = 100 }

abbrev float : List ℕ → Option ℕ
float _ = none

abbrev error : List (List ℕ) → String
error _ = "bad row"

abbrev backends : List (String × String)
backends = ("primary", "p:1") ∷ []

abbrev fresh : Poller ℕ
fresh = started float error config 0 ("primary", "p:1")

-- The dialer gives a connection and the query fails.
abbrev failed_poll : Answers
failed_poll = record { dial_error = none; query = query_error "gone"; now = 5 }

abbrev r₁ : Registry ℕ
r₁ = record (start float error config 0 backends) { parent_done = true }

abbrev r₂ : Registry ℕ
r₂ = polled float error config 0 [] fresh [] failed_poll r₁

gone : (q : Poller ℕ) × (r₂.pollers ≡ q ∷ []) × (q.running ≡ true)
unfolding polled
gone = (_, refl, refl)

abbrev r₃ : Registry ℕ
r₃ = exited float error config 0 [] gone.0 [] r₂

stopped : Pollers.Reach float error config 0 (start float error config 0 backends) r₃
unfolding start polled exited
stopped =
    Pollers.later
      (Pollers.later (Pollers.later Pollers.here Pollers.parent_ends)
        (polls [] [] fresh failed_poll refl refl))
      (exits [] [] gone.0 gone.1 gone.2 refl)

all_stopped : All (λ (q : Poller ℕ). q.running ≡ false) r₃.pollers
unfolding exited
all_stopped = (refl, tt)

Reach-closed_example : r₃.opened ≡ r₃.closed
Reach-closed_example = Reach-closed float error config 0 backends r₃ stopped all_stopped

Reach-Tended_example : Tended r₃
Reach-Tended_example = Reach-Tended float error config 0 backends r₃ stopped
