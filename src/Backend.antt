-- ===== src/Backend.antt =====
-- internal/backend/manager.go: one pool for each user, database and address.
pub mod Isolation
pub mod Conn
use pgpilot.Base.{
  ℕ, ◌+◌, String, Bool, true, false, List, [], ◌∷◌, Option, none, some, if◌then◌else◌, ◌==◌,
  string_eq, pair_eq,
}
use pgpilot.Base.Int.{ℤ}
use pgpilot.Base.Dict.{lookup, insert}
use pgpilot.Pool.State.{Pool, Released, closes, new, free_slot, release, close, Stats, stats}
use pgpilot.Pool.Alone.{Outcome, acquire}

pub record PoolConfig : Type 0 where
  pub max_size : ℤ
  pub max_waiters : ℕ
  pub idle_timeout : ℕ

-- User, database and address.
abbrev pub PoolKey : Type 0
PoolKey = String × (String × String)

pub record Manager : Type 0 where
  pub primary : String
  pub users : List (String × String)
  pub pool_cfg : PoolConfig
  pub pools : List (PoolKey × Pool)

unfoldable pub new_manager : String → List (String × String) → PoolConfig → Manager
new_manager primary users cfg = record {
  primary = primary;
  users = users;
  pool_cfg = cfg;
  pools = [];
}

abbrev pub added : Manager → PoolKey → Option Pool → Option (Pool × Manager)
added m key none = none
added m key (some p) = some (p, record m { pools = insert key p m.pools })

abbrev pub pool_or_new : Manager → PoolKey → Option Pool → Option (Pool × Manager)
pool_or_new m key (some p) = some (p, m)
pool_or_new m key none =
    added m key (new m.pool_cfg.max_size m.pool_cfg.max_waiters m.pool_cfg.idle_timeout true)

abbrev pub for_user : Option String → Manager → PoolKey → Option (Pool × Manager)
for_user none m key = none
for_user (some password) m key = pool_or_new m key (lookup key m.pools)

-- poolFor; `none` is an unknown user or an error of pool.New.
unfoldable pub pool_for : Manager → String → String → String → Option (Pool × Manager)
pool_for m user database addr = for_user (lookup user m.users) m (user, (database, addr))

module _ (dialed : Option ℕ) (ping : ℕ → Bool) (now w fuel : ℕ) where
  abbrev pub put_back : Manager → PoolKey → Option (Pool × Outcome) → Option (Outcome × Manager)
  put_back m key none = none
  put_back m key (some (p, o)) = some (o, record m { pools = insert key p m.pools })

  abbrev pub acquire_in :
      PoolKey
      → Option (Pool × Manager)
      → Option (Option Outcome × Manager)
      → Option (Option Outcome × Manager)
  acquire_in key none failed = failed
  acquire_in key (some (p, m)) failed = elim (put_back m key (acquire dialed ping now w fuel p)) [
    | none ↦ none
    | some (o, m') ↦ some (some o, m')
  ]

  -- AcquireAt by a caller that nobody else interferes with: what the pool answers, or no answer where
  -- there is no pool. The outer `none` is a run out of fuel.
  unfoldable pub acquire_at : Manager → String → String → String → Option (Option Outcome × Manager)
  unfolding pool_for
  acquire_at m user database addr =
      acquire_in (user, (database, addr)) (pool_for m user database addr) (some (none, m))

abbrev pub released_to : Manager → PoolKey → ℕ → ℕ → Option Pool → Released × Manager
released_to m key c now none = (closes, m)
released_to m key c now (some p) =
    let (p', r) = release p c now in (r, record m { pools = insert key p' m.pools })

-- ReleaseAt: without a pool the connection is closed.
unfoldable pub release_at : Manager → String → String → String → ℕ → ℕ → Released × Manager
release_at m user database addr c now =
    released_to m (user, (database, addr)) c now (lookup (user, (database, addr)) m.pools)

abbrev pub discarded_to : Manager → PoolKey → Option Pool → Manager
discarded_to m key none = m
discarded_to m key (some p) = record m { pools = insert key (free_slot p) m.pools }

-- DiscardAt, which closes the connection in either case.
unfoldable pub discard_at : Manager → String → String → String → Manager
discard_at m user database addr =
    discarded_to m (user, (database, addr)) (lookup (user, (database, addr)) m.pools)

pub record PoolStat : Type 0 where
  pub idle : ℕ
  pub in_use : ℕ
  pub waiters : ℕ

-- The entry of one address in StatsByAddr, summed over its pools.
unfoldable pub stats_at : String → List (PoolKey × Pool) → PoolStat
unfolding stats
stats_at addr [] = record { idle = 0; in_use = 0; waiters = 0 }
stats_at addr (((user, (database, a)), p) ∷ rest) =
    let others = stats_at addr rest in
    if a == addr
    then record {
      idle = (stats p).idle + others.idle;
      in_use = (stats p).in_use + others.in_use;
      waiters = (stats p).waiters + others.waiters;
    }
    else others

-- The pools that Close closes, and the manager after it.
unfoldable pub close_all : List (PoolKey × Pool) → List Pool
close_all [] = []
close_all ((key, p) ∷ rest) = (close p).0 ∷ close_all rest

unfoldable pub close_manager : Manager → List Pool × Manager
unfolding close_all
close_manager m = (close_all m.pools, record m { pools = [] })
