-- ===== src/Tests/Collector.antt =====
-- Runs of internal/metrics/state.go.
use pgpilot.Base.{ℕ, ◌≡◌, ◌↔◌, refl, String, true, false, List, [], ◌∷◌, string_eq}
use pgpilot.Base.Dict.{lookup}
use pgpilot.Base.Float.{thousandths}
use pgpilot.Pool.State.{Pool}
use pgpilot.Registry.State.{Role, primary, replica, BackendState}
use pgpilot.Backend.{PoolKey, stats_at}
use pgpilot.Metrics.Collector.{stat_or_zero, stats_by_addr, collect}
use pgpilot.Metrics.Collector.Distinct.{DistinctBy, collect-DistinctBy}
use pgpilot.Metrics.Collector.Sums.{stats_by_addr-stats_at}

abbrev backend : String → Role → BackendState ℕ
backend addr role = record {
  name = addr;
  addr = addr;
  role = role;
  lsn = 7;
  lag_seconds = 0;
  healthy = true;
  last_err = "";
  last_poll = 0;
  failures = 0;
}

abbrev pool : ℕ → Pool
pool opened = record {
  cfg = record { max_size = 5; max_waiters = 0; idle_timeout = 100 };
  idle = (record { conn = 3; idle_since = 40 }) ∷ [];
  opened = opened;
  waiters = [];
  closed = false;
}

-- A replica that is listed twice, and two users of the primary.
abbrev backends : List (BackendState ℕ)
backends = backend "p:1" primary ∷ (backend "r:1" replica ∷ (backend "r:1" replica ∷ []))

abbrev pools : List (PoolKey × Pool)
pools = (("app", ("db", "p:1")), pool 2) ∷ ((("bob", ("db", "p:1")), pool 3) ∷ [])

collect-DistinctBy_example :
    DistinctBy (λ m. m.0) (collect thousandths backends pools)
    ↔ DistinctBy BackendState.addr backends
collect-DistinctBy_example = collect-DistinctBy thousandths backends pools

listed_twice : ¬ DistinctBy (λ m. m.0) (collect thousandths backends pools)
listed_twice h = ((collect-DistinctBy thousandths backends pools).0 h).1.0.0 refl

stats_by_addr-stats_at_run :
    stat_or_zero (lookup "p:1" (stats_by_addr pools)) ≡ stats_at "p:1" pools
stats_by_addr-stats_at_run = stats_by_addr-stats_at "p:1" pools

summed : stats_at "p:1" pools ≡ (record { idle = 2; in_use = 3; waiters = 0 })
unfolding stats_at
summed = refl
