-- ===== src/Pool/System/Starvation.antt =====
-- What a waiting caller is owed: Release serves the oldest waiter, Discard serves none.
use pgpilot.Base.{ℕ, ◌≡◌, List, ◌∷◌, arith}
use pgpilot.Pool.State.{release}
use pgpilot.Pool.System.{Sys, after_release}
use pgpilot.Pool.System.Accounting.{Inv}

-- A connection released while callers wait goes to the one that has waited longest; it is not put
-- back, and the number of open connections stays.
pub release_serves_oldest :
    (s : Sys) (c now w : ℕ) (ws : List ℕ)
    → Inv s
    → s.pool.waiters ≡ w ∷ ws
    → let t = after_release s c (release s.pool c now) in
      (t.delivered ≡ (w, c) ∷ s.delivered)
      × (t.pool.waiters ≡ ws)
      × (t.pool.idle ≡ s.pool.idle)
      × (t.pool.opened ≡ s.pool.opened)
unfolding release
release_serves_oldest s c now w ws v e = ground arith
