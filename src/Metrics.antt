-- ===== src/Metrics.antt =====
-- internal/metrics/metrics.go: the counters and the gauge that sessions move, and recordDecision of
-- internal/proxy/session.go, which labels each statement. The query latency is a histogram of the
-- metrics library and is left out.
pub mod Fallbacks
pub mod Collector
use pgpilot.Base.{
  ℕ, ◌+◌, String, Bool, true, false, List, [], ◌∷◌, Option, none, some, if◌then◌else◌, ◌==◌,
  string_eq, pair_eq,
}
use pgpilot.Base.Dict.{lookup, insert}
use pgpilot.Base.Int.{ℤ, pos, inc, dec}
use pgpilot.Sql.Classify.{Class, read, write}

-- The routing decisions are counted for each target and reason.
pub record Metrics : Type 0 where
  pub sessions_opened : ℕ
  pub sessions_closed : ℕ
  pub sessions_active : ℤ
  pub routing : List ((String × String) × ℕ)
  pub fence_fallbacks : ℕ
  pub read_failovers : ℕ

abbrev pub target_primary : String
target_primary = "primary"

abbrev pub target_replica : String
target_replica = "replica"

abbrev pub reason_read : String
reason_read = "read"

abbrev pub reason_write : String
reason_write = "write"

abbrev pub reason_pinned : String
reason_pinned = "pinned"

abbrev pub reason_extended : String
reason_extended = "extended"

abbrev pub reason_fence_fallback : String
reason_fence_fallback = "fence_fallback"

abbrev pub new_metrics : Metrics
new_metrics = record {
  sessions_opened = 0;
  sessions_closed = 0;
  sessions_active = pos 0;
  routing = [];
  fence_fallbacks = 0;
  read_failovers = 0;
}

unfoldable pub session_opened : Metrics → Metrics
session_opened m = record m {
  sessions_opened = m.sessions_opened + 1;
  sessions_active = inc m.sessions_active;
}

unfoldable pub session_closed : Metrics → Metrics
session_closed m = record m {
  sessions_closed = m.sessions_closed + 1;
  sessions_active = dec m.sessions_active;
}

-- The value of a counter that may not exist yet.
abbrev pub count_of : Option ℕ → ℕ
count_of none = 0
count_of (some n) = n

abbrev pub decisions : String → String → Metrics → ℕ
decisions target reason m = count_of (lookup (target, reason) m.routing)

unfoldable pub routing_decision : String → String → Metrics → Metrics
routing_decision target reason m = record m {
  routing = insert (target, reason) (decisions target reason m + 1) m.routing;
}

unfoldable pub fence_fallback : Metrics → Metrics
unfolding routing_decision
fence_fallback m =
    routing_decision target_primary reason_fence_fallback
      (record m { fence_fallbacks = m.fence_fallbacks + 1 })

unfoldable pub read_failover : Metrics → Metrics
read_failover m = record m { read_failovers = m.read_failovers + 1 }

unfoldable pub target_label : String → String → String
target_label addr primary = if addr == primary then target_primary else target_replica

-- A fresh read, on a replica or on the primary.
abbrev pub record_read : Bool → Metrics → Metrics
record_read true m = routing_decision target_replica reason_read m
record_read false m = fence_fallback m

abbrev pub record_fresh : Class → Bool → Metrics → Metrics
record_fresh read routed m = record_read routed m
record_fresh write routed m = routing_decision target_primary reason_write m

unfoldable pub record_decision : Bool → Class → String → String → Bool → Metrics → Metrics
unfolding routing_decision fence_fallback target_label
record_decision false class held_addr primary routed m =
    routing_decision (target_label held_addr primary) reason_pinned m
record_decision true class held_addr primary routed m = record_fresh class routed m

-- What a session tells the metrics about one statement or failover.
pub data Event : Type 0 where
  decided : Bool → Class → String → String → Bool → Event
  extended failed_over : Event

-- A statement, the extended protocol, and a read failover.
unfoldable pub observe : Event → Metrics → Metrics
unfolding record_decision routing_decision read_failover
observe (decided fresh class held_addr primary routed) m =
    record_decision fresh class held_addr primary routed m
observe extended m = routing_decision target_primary reason_extended m
observe failed_over m = read_failover m

unfoldable pub observe_all : List Event → Metrics → Metrics
unfolding observe
observe_all [] m = m
observe_all (e ∷ es) m = observe_all es (observe e m)
