-- ===== src/Tests/Backend.antt =====
-- Runs of internal/backend/manager.go.
use pgpilot.Base.{ℕ, Bool, true, [], ◌∷◌, some}
use pgpilot.Base.Int.{pos}
use pgpilot.Backend.{Manager, new_manager, acquire_at}
use pgpilot.Backend.Isolation.{ApartIn, acquire_at-Apart}

abbrev manager : Manager
manager =
    new_manager "p:1" (("app", "secret") ∷ [])
      (record { max_size = pos 2; max_waiters = 0; idle_timeout = 0 })

abbrev ping : ℕ → Bool
ping c = true

acquire_at-Apart_run :
    ApartIn ("app", ("db", "p:1")) manager (acquire_at (some 4) ping 0 9 1 manager "app" "db" "p:1")
acquire_at-Apart_run = acquire_at-Apart (some 4) ping 0 9 1 manager "app" "db" "p:1"
