-- ===== src/Registry/State/Breaker.antt =====
-- The circuit breaker over a whole history of polls.
use pgpilot.Base.{ℕ, suc, ◌<◌, ◌≡◌, refl, ◌↔◌, String, Bool, true, false, List, [], ◌∷◌, arith}
use pgpilot.Registry.Backoff.{Config}
use pgpilot.Registry.State.{Role, BackendState, launched, record_success, record_failure}

-- The polls of a backend, the latest first.
pub data Poll (F : Type 0) : Type 0 where
  success : Role → ℕ → F → ℕ → Poll F
  failure : String → ℕ → Poll F

-- How many of the latest polls failed, and whether one before them succeeded.
unfoldable pub failed_since : {F : Type 0} → List (Poll F) → ℕ
failed_since [] = 0
failed_since (success role lsn lag now ∷ h) = 0
failed_since (failure e now ∷ h) = suc (failed_since h)

unfoldable pub ever_succeeded : {F : Type 0} → List (Poll F) → Bool
ever_succeeded [] = false
ever_succeeded (success role lsn lag now ∷ h) = true
ever_succeeded (failure e now ∷ h) = ever_succeeded h

module _ {F : Type 0} (cfg : Config) (zero_lag : F) (name addr : String) where
  unfoldable pub polled : List (Poll F) → BackendState F
  polled [] = launched zero_lag name addr
  polled (success role lsn lag now ∷ h) = record_success (polled h) role lsn lag now
  polled (failure e now ∷ h) = (record_failure cfg (polled h) e now).0

  polled-failures : (h : List (Poll F)) → (polled h).failures ≡ failed_since h
  unfolding polled launched record_success record_failure failed_since
  polled-failures [] = refl
  polled-failures (success role lsn lag now ∷ h) = refl
  polled-failures (failure e now ∷ h) = omega (arith, polled-failures h)

  -- A backend counts as healthy exactly if some poll has succeeded and fewer polls than the
  -- threshold have failed since the last one that did.
  pub polled-healthy :
      (h : List (Poll F))
      → 0 < cfg.failure_threshold
      → ((polled h).healthy ≡ true)
        ↔ ((ever_succeeded h ≡ true) × (failed_since h < cfg.failure_threshold))
  unfolding polled launched record_success record_failure failed_since ever_succeeded
  polled-healthy [] pos = ground arith
  polled-healthy (success role lsn lag now ∷ h) pos = ground arith
  polled-healthy (failure e now ∷ h) pos = ground (arith, polled-failures h, polled-healthy h pos)
