-- ===== src/Registry/Pollers.antt =====
-- internal/registry/registry.go: the goroutines of Start, Reconfigure and Wait, one poller for each
-- backend. A step is what one of them does between two points at which another may act; pollOnce is
-- one step, for only its own poller writes to a backend's state and connection.
pub mod Drained
use pgpilot.Base.{
  ℕ, ◌+◌, ◌-◌, ◌≡◌, String, Bool, true, false, ◌||◌, List, [], ◌∷◌, ◌++◌, Option, none, some, map,
  All,
}
use pgpilot.Registry.Backoff.{Config}
use pgpilot.Registry.State.{BackendState, launched}
use pgpilot.Registry.Poll.{Answers, Result, poll_once}

-- A backend with its poller: whether the goroutine runs, and whether it has a connection.
pub record Poller (F : Type 0) : Type 0 where
  pub st : BackendState F
  pub connected : Bool
  pub running : Bool

-- The registry: its pollers in the order of `r.backends`, the names and addresses that the last
-- launch was given, whether the context of its pollers and the context of Start are cancelled, and
-- how many health connections have been opened and closed since Start.
pub record Registry (F : Type 0) : Type 0 where
  pub pollers : List (Poller F)
  pub configured : List (String × String)
  pub cancelled : Bool
  pub parent_done : Bool
  pub opened : ℕ
  pub closed : ℕ

abbrev pub as_number : Bool → ℕ
as_number true = 1
as_number false = 0

module _ {F : Type 0} (parse_float : List ℕ → Option F) (row_error : List (List ℕ) → String)
    (cfg : Config) (zero_lag : F) where
  unfoldable pub started : String × String → Poller F
  started (name, addr) = record {
    st = launched zero_lag name addr;
    connected = false;
    running = true;
  }

  -- launch, whose pollers take the place of those before.
  unfoldable pub launch : List (String × String) → Registry F → Registry F
  unfolding started
  launch backends r = record r {
    pollers = map started backends;
    configured = backends;
    cancelled = r.parent_done;
  }

  -- New and Start.
  unfoldable pub start : List (String × String) → Registry F
  unfolding launch
  start backends = launch backends (record {
    pollers = [];
    configured = [];
    cancelled = false;
    parent_done = false;
    opened = 0;
    closed = 0;
  })

  -- The poller after a poll, from the result of pollOnce.
  abbrev pub after_poll : Result F → Poller F
  after_poll result = record { st = result.st; connected = result.connected; running = true }

  -- One poll of a poller that stands between others.
  unfoldable pub polled :
      List (Poller F) → Poller F → List (Poller F) → Answers → Registry F → Registry F
  polled before q after a r =
      let result = poll_once parse_float row_error cfg q.st q.connected a in
      record r {
        pollers = before ++ (after_poll result ∷ after);
        opened = r.opened + result.opened;
        closed = r.closed + result.closed;
      }

  -- The deferred end of pollLoop: the connection is closed.
  unfoldable pub exited : List (Poller F) → Poller F → List (Poller F) → Registry F → Registry F
  exited before q after r = record r {
    pollers = before ++ (record q { connected = false; running = false } ∷ after);
    closed = r.closed + as_number q.connected;
  }

  -- A poll may still begin after the cancellation, since a select between the timer and the context
  -- takes either. Reconfigure cancels the pollers, waits for them and launches the new ones.
  pub data Step (r : Registry F) : Registry F → Type 0 where
    polls :
        (before after : List (Poller F)) (q : Poller F) (a : Answers)
        → r.pollers ≡ before ++ (q ∷ after)
        → q.running ≡ true
        → Step r (polled before q after a r)
    exits :
        (before after : List (Poller F)) (q : Poller F)
        → r.pollers ≡ before ++ (q ∷ after)
        → q.running ≡ true
        → (r.cancelled || r.parent_done) ≡ true
        → Step r (exited before q after r)
    cancels : Step r (record r { cancelled = true })
    parent_ends : Step r (record r { parent_done = true })
    relaunches :
        (backends : List (String × String))
        → All (λ (q : Poller F). q.running ≡ false) r.pollers
        → r.cancelled ≡ true
        → Step r (launch backends r)

  pub data Reach (r : Registry F) : Registry F → Type 0 where
    here : Reach r r
    later : {s t : Registry F} → Reach r s → Step s t → Reach r t
