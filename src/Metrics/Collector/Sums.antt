-- ===== src/Metrics/Collector/Sums.antt =====
-- The sums of StatsByAddr of internal/backend/manager.go.
use pgpilot.Base.{◌+◌, ◌≡◌, ap, String, List, [], ◌∷◌, Bool-cases, ◌==◌, string_eq, inl, inr, arith}
use pgpilot.Base.Dict.{lookup, insert, lookup-insert}
use pgpilot.Pool.State.{Pool, stats}
use pgpilot.Backend.{PoolKey, PoolStat, stats_at}
use pgpilot.Metrics.Collector.{stat_or_zero, add_pool, sum_pools, stats_by_addr}

-- One count is the sum of two others, in each field.
abbrev IsSum : PoolStat → PoolStat → PoolStat → Type 0
IsSum s t u =
    (s.idle ≡ t.idle + u.idle)
    × ((s.in_use ≡ t.in_use + u.in_use) × (s.waiters ≡ t.waiters + u.waiters))

moved :
    (s t u v : PoolStat) (p : Pool)
    → IsSum s v u
    → v ≡ add_pool t p
    → IsSum s t record {
      idle = (stats p).idle + u.idle;
      in_use = (stats p).in_use + u.in_use;
      waiters = (stats p).waiters + u.waiters;
    }
unfolding stats
moved s t u v p (i, (n, w)) h = (
  omega (arith, i, ap PoolStat.idle h),
  (omega (arith, n, ap PoolStat.in_use h), omega (arith, w, ap PoolStat.waiters h)),
)

sum_pools-IsSum :
    (a : String) (pools : List (PoolKey × Pool)) (xs : List (String × PoolStat))
    → IsSum
        (stat_or_zero (lookup a (sum_pools pools xs)))
        (stat_or_zero (lookup a xs))
        (stats_at a pools)
unfolding sum_pools stats_at
sum_pools-IsSum a [] xs = (omega arith, (omega arith, omega arith))
sum_pools-IsSum a (((user, (database, b)), p) ∷ rest) xs =
    let new = add_pool (stat_or_zero (lookup b xs)) p in
    let ih = sum_pools-IsSum a rest (insert b new xs) in
    elim (Bool-cases (b == a)) [
      | inl e ↦
          let here =
            ap (λ x. add_pool (stat_or_zero (lookup x xs)) p) ((string_eq.beq_iff b a).0 e) in
          rw e
            (moved _ (stat_or_zero (lookup a xs)) _ _ p ih (rw (lookup-insert b a new xs, e) here))
      | inr e ↦ rw e (rw (lookup-insert b a new xs, e) at ih)
    ]

record_lem :
    (s t : PoolStat) → s.idle ≡ t.idle → s.in_use ≡ t.in_use → s.waiters ≡ t.waiters → s ≡ t
record_lem s t h k l = cc (h, k, l)

-- The entry of an address in StatsByAddr has the sums over the pools of that address, and is zero
-- for an address that has no pool.
pub stats_by_addr-stats_at :
    (a : String) (pools : List (PoolKey × Pool))
    → stat_or_zero (lookup a (stats_by_addr pools)) ≡ stats_at a pools
unfolding stats_by_addr lookup
stats_by_addr-stats_at a pools =
    let (i, (u, w)) = sum_pools-IsSum a pools [] in
    record_lem (stat_or_zero (lookup a (sum_pools pools []))) (stats_at a pools) (omega (arith, i))
      (omega (arith, u)) (omega (arith, w))
