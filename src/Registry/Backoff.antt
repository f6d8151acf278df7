-- ===== src/Registry/Backoff.antt =====
-- internal/registry/registry.go: the settings of the registry, and the delay that recordFailure
-- computes by an int64 shift. Durations are nanoseconds.
pub mod Bounds
use pgpilot.Base.{ℕ, ◌-◌, ◌*◌, ◌%◌, ◌^◌, ◌||◌, Bool, if◌then◌else◌, leb, ltb, nat_beq}
use pgpilot.Base.Int.{ℤ, is_positive, to_ℕ}

-- Config as the caller gives it; any field may be zero or negative.
pub record Settings : Type 0 where
  pub interval : ℤ
  pub failure_threshold : ℤ
  pub base_backoff : ℤ
  pub max_backoff : ℤ

-- Config as the Registry keeps it.
pub record Config : Type 0 where
  pub interval : ℕ
  pub failure_threshold : ℕ
  pub base_backoff : ℕ
  pub max_backoff : ℕ

abbrev pub second : ℕ
second = 1_000_000_000

abbrev pub positive_or : ℤ → ℕ → ℕ
positive_or x d = if is_positive x then to_ℕ x else d

unfoldable pub new : Settings → Config
new cfg = record {
  interval = positive_or cfg.interval second;
  failure_threshold = positive_or cfg.failure_threshold 3;
  base_backoff = positive_or cfg.base_backoff second;
  max_backoff = positive_or cfg.max_backoff (30 * second);
}

-- `BaseBackoff << shift` as the bits of an int64, and the test that it is not positive.
unfoldable pub shifted : ℕ → ℕ → ℕ
shifted base shift = base * 2 ^ shift % 2 ^ 64

unfoldable pub not_positive : ℕ → Bool
not_positive x = nat_beq x 0 || leb (2 ^ 63) x

-- `failures - 1`, at most 30; `failures` is at least 1.
unfoldable pub capped_shift : ℕ → ℕ
capped_shift failures = if ltb 30 (failures - 1) then 30 else failures - 1

unfoldable pub backoff : Config → ℕ → ℕ
unfolding shifted not_positive capped_shift
backoff cfg failures =
    let delay = shifted cfg.base_backoff (capped_shift failures) in
    if not_positive delay || ltb cfg.max_backoff delay then cfg.max_backoff else delay
