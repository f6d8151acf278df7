-- ===== src/Tests/Registry.antt =====
-- Runs of internal/registry/registry.go.
use pgpilot.Base.{
  ℕ, ◌+◌, ◌*◌, ◌-◌, ◌^◌, ◌<◌, ◌≤◌, ◌≡◌, refl, ◌↔◌, String, Bool, true, List, [], ◌∷◌, ◌++◌, some,
  arith, All,
}
use Prim.Native.Nat.{min}
use pgpilot.Base.Int.{pos, negsuc}
use pgpilot.Registry.Backoff.{Settings, Config, new, backoff}
use pgpilot.Registry.Backoff.Bounds.{backoff_bounds, backoff_exact, backoff_overflow}
use pgpilot.Registry.State.{Role, primary, replica, BackendState, snapshot}
use pgpilot.Registry.State.Breaker.{
  Poll, success, failure, failed_since, ever_succeeded, polled, polled-healthy,
}
use pgpilot.Registry.State.Lag.{LagIs, snapshot_lag}
use pgpilot.Registry.Lsn.{parse_lsn, hex_digit}
use pgpilot.Registry.Lsn.Parse.{IsLsn, parse_lsn_iff}

abbrev settings : Settings
settings = record {
  interval = pos 0;
  failure_threshold = negsuc 1;
  base_backoff = pos 1_000_000_000;
  max_backoff = pos 0;
}

abbrev config : Config
config = record {
  interval = 1_000_000_000;
  failure_threshold = 3;
  base_backoff = 1_000_000_000;
  max_backoff = 30_000_000_000;
}

backoff_bounds_run :
    (0 < backoff (new settings) 40) × (backoff (new settings) 40 ≤ (new settings).max_backoff)
backoff_bounds_run = backoff_bounds settings 40

backoff_exact_run : backoff config 3 ≡ min (1_000_000_000 * 2 ^ min (3 - 1) 30) 30_000_000_000
backoff_exact_run = backoff_exact config 3 (omega arith) (omega arith)

-- Three failures double the delay twice.
backoff_of_three : backoff config 3 ≡ 4_000_000_000
unfolding backoff
backoff_of_three = refl

abbrev long_base : Config
long_base = record {
  interval = 1_000_000_000;
  failure_threshold = 3;
  base_backoff = 2 ^ 34 + 1;
  max_backoff = 30_000_000_000;
}

backoff_overflow_example :
    (backoff long_base 31 ≡ 1 * 2 ^ 30) × (backoff long_base 31 < long_base.base_backoff)
backoff_overflow_example =
    backoff_overflow long_base 31 1 refl (omega arith) (omega arith) (omega arith) (omega arith)

abbrev history : List (Poll ℕ)
history =
    failure "refused" 9 ∷ failure "refused" 8 ∷ success replica 70 0 7 ∷ failure "refused" 6 ∷ []

polled-healthy_example :
    ((polled config 0 "b" "b:1" history).healthy ≡ true)
    ↔ ((ever_succeeded history ≡ true) × (failed_since history < 3))
polled-healthy_example = polled-healthy config 0 "b" "b:1" history (omega arith)

abbrev backend : String → Role → ℕ → Bool → BackendState ℕ
backend addr role lsn healthy = record {
  name = addr;
  addr = addr;
  role = role;
  lsn = lsn;
  lag_seconds = 0;
  healthy = healthy;
  last_err = "";
  last_poll = 0;
  failures = 0;
}

snapshot_lag_example : All (LagIs (some 100)) (
    snapshot (
      (backend "r:1" replica 90 true ∷ [])
      ++ (backend "p:1" primary 100 true ∷ backend "r:2" replica 110 true ∷ [])))
snapshot_lag_example =
    snapshot_lag (backend "r:1" replica 90 true ∷ []) (backend "p:1" primary 100 true)
      (backend "r:2" replica 110 true ∷ []) refl (refl, tt)

-- The text 1/A.
abbrev lsn_text : List ℕ
lsn_text = b'1' ∷ b'/' ∷ b'A' ∷ []

lsn_text-IsLsn : IsLsn lsn_text 4_294_967_306
unfolding hex_digit
lsn_text-IsLsn = record {
  hi = b'1' ∷ [];
  lo = b'A' ∷ [];
  high = 1;
  low = 10;
  splits = refl;
  hi_digits = λ h. absurd (cc h);
  lo_digits = λ h. absurd (cc h);
  high_value = refl;
  low_value = refl;
  high_range = omega arith;
  low_range = omega arith;
  position = refl;
}

parse_lsn_iff_example : (parse_lsn lsn_text ≡ some 4_294_967_306) ↔ IsLsn lsn_text 4_294_967_306
parse_lsn_iff_example = parse_lsn_iff lsn_text 4_294_967_306

lsn_text_parses : parse_lsn lsn_text ≡ some 4_294_967_306
lsn_text_parses = (parse_lsn_iff lsn_text 4_294_967_306).1 lsn_text-IsLsn
