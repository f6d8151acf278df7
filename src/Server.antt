-- ===== src/Server.antt =====
-- internal/proxy/proxy.go: the accept loop of the server and the life of its sessions, the choice of
-- the routing policy; and the backends that cmd/pgpilot/main.go gives to the health registry. A step
-- is what one goroutine does between two points at which another may act.
pub mod Drain
pub mod Named
use pgpilot.Base.{
  ℕ, zero, suc, ◌+◌, ◌-◌, ◌≡◌, String, Bool, true, false, List, [], ◌∷◌, ◌++◌, Option, none, some,
  if◌then◌else◌, ◌==◌, string_eq,
}
use pgpilot.Config.{PolicyKind, least_in_flight, policy_named}
use pgpilot.Metrics.{Metrics, new_metrics, session_opened, session_closed}

-- The server: whether its listener is open and its accept loop runs, whether the context is done and
-- Serve has returned; the goroutines of the wait group, those that have not yet opened their session
-- and the sessions that are open, by number; the number of the last session.
pub record Server : Type 0 where
  pub listening : Bool
  pub accepting : Bool
  pub done : Bool
  pub returned : Bool
  pub wg : ℕ
  pub spawned : ℕ
  pub live : List ℕ
  pub sessions : ℕ
  pub metrics : Metrics

-- Listen, and Serve up to its loop.
abbrev pub serving : Server
serving = record {
  listening = true;
  accepting = true;
  done = false;
  returned = false;
  wg = 0;
  spawned = 0;
  live = [];
  sessions = 0;
  metrics = new_metrics;
}

-- A client is accepted: `s.wg.Add(1)` and a goroutine.
unfoldable pub accept : Server → Server
accept s = record s { wg = s.wg + 1; spawned = s.spawned + 1 }

-- The start of handle.
unfoldable pub open_session : Server → Server
open_session s = record s {
  spawned = s.spawned - 1;
  sessions = s.sessions + 1;
  live = (s.sessions + 1) ∷ s.live;
  metrics = session_opened s.metrics;
}

-- The end of handle, of a session that stands between others, and of its goroutine.
unfoldable pub close_session : List ℕ → List ℕ → Server → Server
close_session before after s = record s {
  wg = s.wg - 1;
  live = before ++ after;
  metrics = session_closed s.metrics;
}

-- The loop breaks on an error of Accept once the context is done; Serve returns when the wait group
-- is empty.
pub data Step (s : Server) : Server → Type 0 where
  accepts : s.listening ≡ true → s.accepting ≡ true → Step s (accept s)
  opens : (n : ℕ) → s.spawned ≡ suc n → Step s (open_session s)
  closes :
      (before after : List ℕ) (id : ℕ)
      → s.live ≡ before ++ (id ∷ after)
      → Step s (close_session before after s)
  cancels : Step s (record s { done = true })
  unlistens : s.done ≡ true → Step s (record s { listening = false })
  breaks : s.done ≡ true → s.accepting ≡ true → Step s (record s { accepting = false })
  returns : s.accepting ≡ false → s.wg ≡ 0 → Step s (record s { returned = true })

pub data Reach (s : Server) : Server → Type 0 where
  here : Reach s s
  later : {t u : Server} → Reach s t → Step t u → Reach s u

-- The policy that was injected, or else the one named in the configuration of the users, with
-- least-in-flight for no name and for an unknown one; `named` is none without a configuration.
abbrev pub or_default : Option PolicyKind → PolicyKind
or_default none = least_in_flight
or_default (some kind) = kind

abbrev pub default_name : Option String → String
default_name none = "least-in-flight"
default_name (some name) = if name == "" then "least-in-flight" else name

unfoldable pub resolve_policy : Option PolicyKind → Option String → PolicyKind
unfolding policy_named
resolve_policy (some injected) named = injected
resolve_policy none named = or_default (policy_named (default_name named))

-- The name and the address of each backend; `numbered` is fmt.Sprintf of "replica%d".
unfoldable pub replicas_from : (ℕ → String) → ℕ → List String → List (String × String)
replicas_from numbered i [] = []
replicas_from numbered i (addr ∷ rest) =
    (numbered (i + 1), addr) ∷ replicas_from numbered (i + 1) rest

unfoldable pub backends_from : (ℕ → String) → String → List String → List (String × String)
unfolding replicas_from
backends_from numbered primary replicas = ("primary", primary) ∷ replicas_from numbered 0 replicas
