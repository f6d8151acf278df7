-- ===== src/Metrics/Collector/Distinct.antt =====
-- When a scrape of internal/metrics/state.go sends a series twice.
use pgpilot.Base.{
  ℕ, ◌≡◌, ◌≢◌, ◌↔◌, ap, sym, String, List, [], ◌∷◌, ◌++◌, Option, none, All, All-append, All-mono,
  Bool-cases, ◌==◌, string_eq, inl, inr, arith, Bool, true, false, refl, map,
}
use pgpilot.Base.Dict.{lookup, insert}
use pgpilot.Base.Float.{Float64}
use pgpilot.Pool.State.{Pool}
use pgpilot.Registry.State.{BackendState, snapshot, statuses, primary_lsn, status_of}
use pgpilot.Backend.{PoolKey, PoolStat}
use pgpilot.Metrics.Collector.{
  Series, backend_healthy, backend_lag_bytes, backend_lag_seconds, pool_connections, pool_waiters,
  BackendStat, backend_stat, backend_stats, sum_pools, stats_by_addr, stat_or_zero, add_pool,
  collect_backends, collect_pools, collect,
}

-- The elements of a list have different keys.
abbrev pub DistinctBy {ℓ} : {A : Type ℓ} → {B : Type 0} → (A → B) → List A → Type 0
DistinctBy key [] = Unit
DistinctBy key (x ∷ xs) = All (λ y. key x ≢ key y) xs × DistinctBy key xs

insert-All :
    (P : String × PoolStat → Type 0) (a : String) (s : PoolStat) (xs : List (String × PoolStat))
    → P (a, s)
    → All P xs
    → All P (insert a s xs)
unfolding insert
insert-All P a s [] p h = (p, tt)
insert-All P a s ((b, t) ∷ xs) p h = elim (Bool-cases (b == a)) [
  | inl e ↦ rw e (p, h.1)
  | inr e ↦ rw e (h.0, insert-All P a s xs p h.1)
]

insert-DistinctBy :
    (a : String) (s : PoolStat) (xs : List (String × PoolStat))
    → DistinctBy (λ x. x.0) xs
    → DistinctBy (λ x. x.0) (insert a s xs)
unfolding insert
insert-DistinctBy a s [] h = (tt, tt)
insert-DistinctBy a s ((b, t) ∷ xs) h = elim (Bool-cases (b == a)) [
  | inl e ↦
      let same : b ≡ a = (string_eq.beq_iff b a).0 e in
      rw e (All-mono (λ y. b ≢ y.0) (λ y. a ≢ y.0) xs (λ y n k. n (cc (same, k))) h.0, h.1)
  | inr e ↦ rw e (
    insert-All (λ y. b ≢ y.0) a s xs (λ k. absurd (ground (arith, string_eq.beq_iff b a))) h.0,
    insert-DistinctBy a s xs h.1,
  )
]

sum_pools-DistinctBy :
    (pools : List (PoolKey × Pool)) (xs : List (String × PoolStat))
    → DistinctBy (λ x. x.0) xs
    → DistinctBy (λ x. x.0) (sum_pools pools xs)
unfolding sum_pools
sum_pools-DistinctBy [] xs h = h
sum_pools-DistinctBy (((user, (database, a)), p) ∷ rest) xs h =
    sum_pools-DistinctBy rest _ (insert-DistinctBy a (add_pool (stat_or_zero (lookup a xs)) p) xs h)

-- The address that a series is about, and whether it is one of the pools.
abbrev addr_of : Series → String
addr_of (backend_healthy a r) = a
addr_of (backend_lag_bytes a) = a
addr_of (backend_lag_seconds a) = a
addr_of (pool_connections a st) = a
addr_of (pool_waiters a) = a

abbrev of_pool : Series → Bool
of_pool (backend_healthy a r) = false
of_pool (backend_lag_bytes a) = false
of_pool (backend_lag_seconds a) = false
of_pool (pool_connections a st) = true
of_pool (pool_waiters a) = true

module _ (f : Float64) where
  collect_backends-addr_of :
      (a : String) (bs : List (BackendStat f.F))
      → All (λ b. a ≢ b.addr) bs
      → All (λ m. a ≢ addr_of m.0) (collect_backends f bs)
  unfolding collect_backends
  collect_backends-addr_of a [] h = tt
  collect_backends-addr_of a (b ∷ bs) h = (h.0, (h.0, (h.0, collect_backends-addr_of a bs h.1)))

  collect_pools-addr_of :
      (a : String) (ps : List (String × PoolStat))
      → All (λ p. a ≢ p.0) ps
      → All (λ m. a ≢ addr_of m.0) (collect_pools f ps)
  unfolding collect_pools
  collect_pools-addr_of a [] h = tt
  collect_pools-addr_of a ((b, p) ∷ ps) h = (h.0, (h.0, (h.0, collect_pools-addr_of a ps h.1)))

  collect_pools-of_pool :
      (ps : List (String × PoolStat)) → All (λ m. of_pool m.0 ≡ true) (collect_pools f ps)
  unfolding collect_pools
  collect_pools-of_pool [] = tt
  collect_pools-of_pool ((b, p) ∷ ps) = (refl, (refl, (refl, collect_pools-of_pool ps)))

  -- A series about another address than those of the list is not in it.
  elsewhere :
      (s : Series) (ms : List (Series × f.F))
      → All (λ m. addr_of s ≢ addr_of m.0) ms
      → All (λ m. s ≢ m.0) ms
  elsewhere s ms =
      All-mono (λ m. addr_of s ≢ addr_of m.0) (λ m. s ≢ m.0) ms λ m n e. n (ap addr_of e)

  collect_pools-DistinctBy :
      (ps : List (String × PoolStat))
      → DistinctBy (λ p. p.0) ps
      → DistinctBy (λ m. m.0) (collect_pools f ps)
  unfolding collect_pools
  collect_pools-DistinctBy [] h = tt
  collect_pools-DistinctBy ((a, p) ∷ ps) h =
      let rest = collect_pools-addr_of a ps h.0 in
      let ms = collect_pools f ps in
      (
        (λ e. absurd (cc e), (λ e. absurd (cc e), elsewhere (pool_connections a "idle") ms rest)),
        (
          (λ e. absurd (cc e), elsewhere (pool_connections a "in_use") ms rest),
          (elsewhere (pool_waiters a) ms rest, collect_pools-DistinctBy ps h.1),
        ),
      )

  -- A series of a backend whose address does not follow is neither among the backends nor the pools.
  apart :
      (s : Series) (bs : List (BackendStat f.F)) (ps : List (String × PoolStat))
      → of_pool s ≡ false
      → All (λ b. addr_of s ≢ b.addr) bs
      → All (λ m. s ≢ m.0) (collect_backends f bs ++ collect_pools f ps)
  apart s bs ps q h =
      All-append (λ m. s ≢ m.0) (collect_backends f bs) (collect_pools f ps)
        (elsewhere s (collect_backends f bs) (collect_backends-addr_of (addr_of s) bs h))
        (All-mono (λ m. of_pool m.0 ≡ true) (λ m. s ≢ m.0) (collect_pools f ps)
          (λ m p e. absurd (cc (ap of_pool e, p, q))) (collect_pools-of_pool ps))

  distinct_if :
      (bs : List (BackendStat f.F)) (ps : List (String × PoolStat))
      → DistinctBy (λ p. p.0) ps
      → DistinctBy BackendStat.addr bs
      → DistinctBy (λ m. m.0) (collect_backends f bs ++ collect_pools f ps)
  unfolding collect_backends
  distinct_if [] ps d h = collect_pools-DistinctBy ps d
  distinct_if (b ∷ bs) ps d h = (
    (
      λ e. absurd (cc e),
      (λ e. absurd (cc e), apart (backend_healthy b.addr b.role) bs ps refl h.0),
    ),
    (
      (λ e. absurd (cc e), apart (backend_lag_bytes b.addr) bs ps refl h.0),
      (apart (backend_lag_seconds b.addr) bs ps refl h.0, distinct_if bs ps d h.1),
    ),
  )

  lag_bytes-addr :
      (a : String) (bs : List (BackendStat f.F)) (ms : List (Series × f.F))
      → All (λ m. backend_lag_bytes a ≢ m.0) (collect_backends f bs ++ ms)
      → All (λ b. a ≢ b.addr) bs
  unfolding collect_backends
  lag_bytes-addr a [] ms h = tt
  lag_bytes-addr a (b ∷ bs) ms h =
      (λ e. h.1.0 (ap backend_lag_bytes e), lag_bytes-addr a bs ms h.1.1.1)

  only_if :
      (bs : List (BackendStat f.F)) (ms : List (Series × f.F))
      → DistinctBy (λ m. m.0) (collect_backends f bs ++ ms)
      → DistinctBy BackendStat.addr bs
  unfolding collect_backends
  only_if [] ms h = tt
  only_if (b ∷ bs) ms h = (lag_bytes-addr b.addr bs ms h.1.0.1, only_if bs ms h.1.1.1)

  stats-All :
      (a : String) (p : Option ℕ) (sts : List (BackendState f.F))
      → All (λ b. a ≢ b.addr) (map backend_stat (statuses p sts)) ≡ All (λ st. a ≢ st.addr) sts
  unfolding statuses status_of backend_stat
  stats-All a p [] = refl
  stats-All a p (st ∷ sts) = ap (λ t. (a ≢ st.addr) × t) (stats-All a p sts)

  stats-DistinctBy :
      (p : Option ℕ) (sts : List (BackendState f.F))
      → DistinctBy BackendStat.addr (map backend_stat (statuses p sts))
        ≡ DistinctBy BackendState.addr sts
  unfolding statuses status_of backend_stat
  stats-DistinctBy p [] = refl
  stats-DistinctBy p (st ∷ sts) = rw (stats-All st.addr p sts, stats-DistinctBy p sts) refl

  -- A scrape sends no series twice exactly if no two backends of the registry have one address,
  -- whatever the pools.
  pub collect-DistinctBy :
      (sts : List (BackendState f.F)) (pools : List (PoolKey × Pool))
      → DistinctBy (λ m. m.0) (collect f sts pools) ↔ DistinctBy BackendState.addr sts
  unfolding collect backend_stats stats_by_addr snapshot
  collect-DistinctBy sts pools =
      let p = primary_lsn sts none in
      let same = stats-DistinctBy p sts in
      (
        λ h. rw (sym same) (only_if (backend_stats sts) (collect_pools f (stats_by_addr pools)) h),
        λ h.
            distinct_if (backend_stats sts) (stats_by_addr pools) (sum_pools-DistinctBy pools [] tt)
              (rw same h),
      )
