-- ===== src/Metrics/Collector.antt =====
-- internal/metrics/state.go: the gauges of one scrape, with stateSource of cmd/pgpilot/main.go and
-- StatsByAddr of internal/backend/manager.go, which feed it. A metric is the series that its labels
-- name, and its value; the numbers are those of the float interface.
pub mod Distinct
pub mod Sums
use pgpilot.Base.{
  ℕ, ◌+◌, String, Bool, true, false, List, [], ◌∷◌, ◌++◌, Option, none, some, map, string_eq,
}
use pgpilot.Base.Dict.{lookup, insert}
use pgpilot.Base.Float.{Float64}
use pgpilot.Pool.State.{Pool, stats}
use pgpilot.Registry.State.{Role, unknown, primary, replica, BackendState, Status, snapshot}
use pgpilot.Backend.{PoolKey, PoolStat}

-- The descriptors, applied to their labels.
pub data Series : Type 0 where
  backend_healthy : String → String → Series
  backend_lag_bytes backend_lag_seconds : String → Series
  pool_connections : String → String → Series
  pool_waiters : String → Series

unfoldable pub role_string : Role → String
role_string primary = "primary"
role_string replica = "replica"
role_string unknown = "unknown"

pub record BackendStat (F : Type 0) : Type 0 where
  pub addr : String
  pub role : String
  pub healthy : Bool
  pub lag_bytes : ℕ
  pub lag_seconds : F

module _ {F : Type 0} where
  unfoldable pub backend_stat : Status F → BackendStat F
  unfolding role_string
  backend_stat st = record {
    addr = st.addr;
    role = role_string st.role;
    healthy = st.healthy;
    lag_bytes = st.lag_bytes;
    lag_seconds = st.lag_seconds;
  }

  unfoldable pub backend_stats : List (BackendState F) → List (BackendStat F)
  unfolding backend_stat snapshot
  backend_stats sts = map backend_stat (snapshot sts)

-- The entry of an address, zero when there is none yet.
abbrev pub stat_or_zero : Option PoolStat → PoolStat
stat_or_zero none = record { idle = 0; in_use = 0; waiters = 0 }
stat_or_zero (some s) = s

abbrev pub add_pool : PoolStat → Pool → PoolStat
unfolding stats
add_pool s p = record {
  idle = s.idle + (stats p).idle;
  in_use = s.in_use + (stats p).in_use;
  waiters = s.waiters + (stats p).waiters;
}

-- The loop of StatsByAddr over the pools, and StatsByAddr: each address with its sums.
unfoldable pub sum_pools :
    List (PoolKey × Pool) → List (String × PoolStat) → List (String × PoolStat)
sum_pools [] by_addr = by_addr
sum_pools (((user, (database, a)), p) ∷ rest) by_addr =
    sum_pools rest (insert a (add_pool (stat_or_zero (lookup a by_addr)) p) by_addr)

unfoldable pub stats_by_addr : List (PoolKey × Pool) → List (String × PoolStat)
unfolding sum_pools
stats_by_addr pools = sum_pools pools []

module _ (f : Float64) where
  abbrev pub gauge : Bool → f.F
  gauge true = f.of_nat 1
  gauge false = f.of_nat 0

  unfoldable pub collect_backends : List (BackendStat f.F) → List (Series × f.F)
  collect_backends [] = []
  collect_backends (b ∷ bs) =
      (backend_healthy b.addr b.role, gauge b.healthy)
      ∷ ((backend_lag_bytes b.addr, f.of_nat b.lag_bytes)
          ∷ ((backend_lag_seconds b.addr, b.lag_seconds) ∷ collect_backends bs))

  unfoldable pub collect_pools : List (String × PoolStat) → List (Series × f.F)
  collect_pools [] = []
  collect_pools ((a, p) ∷ ps) =
      (pool_connections a "idle", f.of_nat p.idle)
      ∷ ((pool_connections a "in_use", f.of_nat p.in_use)
          ∷ ((pool_waiters a, f.of_nat p.waiters) ∷ collect_pools ps))

  -- Collect, on the state of the registry and of the pools.
  unfoldable pub collect : List (BackendState f.F) → List (PoolKey × Pool) → List (Series × f.F)
  unfolding backend_stats stats_by_addr collect_backends collect_pools
  collect sts pools = collect_backends (backend_stats sts) ++ collect_pools (stats_by_addr pools)
