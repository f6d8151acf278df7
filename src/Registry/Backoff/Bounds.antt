-- ===== src/Registry/Backoff/Bounds.antt =====
-- The delay between failed polls: its bounds, where it is exact, and where the shift overflows.
use Prim.Native.Nat.{min}
use native.Mathlib.Nat.{one-le-pow, pow-le-pow_right, mod-eq_of_lt, mul-le-mul_left, lt_of_le_of_lt}
use pgpilot.Base.{ℕ, ◌+◌, ◌-◌, ◌*◌, ◌^◌, ◌≤◌, ◌<◌, ◌≡◌, arith}
use pgpilot.Registry.Backoff.{Settings, Config, new, shifted, capped_shift, backoff}

-- New leaves every setting positive.
new_positive :
    (s : Settings)
    → (0 < (new s).interval)
      × (0 < (new s).failure_threshold)
      × (0 < (new s).base_backoff)
      × (0 < (new s).max_backoff)
unfolding new
new_positive s = ground arith

-- The delay is positive and at most MaxBackoff, after any number of failures and for any base.
pub backoff_bounds :
    (s : Settings) (failures : ℕ)
    → (0 < backoff (new s) failures) × (backoff (new s) failures ≤ (new s).max_backoff)
unfolding backoff
backoff_bounds s failures = ground (arith, new_positive s)

pow_bound : (s : ℕ) → s ≤ 30 → (1 ≤ 2 ^ s) × (2 ^ s ≤ 2 ^ 30)
pow_bound s h = (one-le-pow s 2 (omega arith), pow-le-pow_right {n = 2} (omega arith) h)

shifted_range :
    (base s : ℕ)
    → 0 < base
    → base * 2 ^ 30 < 2 ^ 63
    → s ≤ 30
    → (0 < base * 2 ^ s) × (base * 2 ^ s < 2 ^ 63)
shifted_range base s pos fits le =
    let (low, high) = pow_bound s le in
    (grind arith, lt_of_le_of_lt (mul-le-mul_left base high) fits)

shifted_exact : (base s : ℕ) → base * 2 ^ 30 < 2 ^ 63 → s ≤ 30 → shifted base s ≡ base * 2 ^ s
unfolding shifted
shifted_exact base s fits le = mod-eq_of_lt (omega (arith, mul-le-mul_left base (pow_bound s le).1))

shifted_overflow : (base r : ℕ) → base ≡ 2 ^ 34 + r → r < 16 → shifted base 30 ≡ r * 2 ^ 30
unfolding shifted
shifted_overflow base r e small = rw e (omega arith)

capped_shift-le : (f : ℕ) → (capped_shift f ≤ 30) × (capped_shift f ≡ min (f - 1) 30)
unfolding capped_shift
capped_shift-le f = ground arith

-- Where the base, shifted by 30, fits an int64, the delay is the base doubled for each further
-- failure, up to 30 times, and capped by MaxBackoff.
pub backoff_exact :
    (cfg : Config) (failures : ℕ)
    → 0 < cfg.base_backoff
    → cfg.base_backoff * 2 ^ 30 < 2 ^ 63
    → backoff cfg failures ≡ min (cfg.base_backoff * 2 ^ min (failures - 1) 30) cfg.max_backoff
unfolding backoff
backoff_exact cfg failures pos fits =
    let (le, e) = capped_shift-le failures in
    rw (shifted_exact cfg.base_backoff (capped_shift failures) fits le, e)
      (ground
        (arith, shifted_range cfg.base_backoff (min (failures - 1) 30) pos fits (omega arith)))

-- A base of 2 ^ 34 + r overflows after 31 failures: the delay falls to r * 2 ^ 30, below the base.
pub backoff_overflow :
    (cfg : Config) (failures r : ℕ)
    → cfg.base_backoff ≡ 2 ^ 34 + r
    → 0 < r
    → r * 2 ^ 30 ≤ cfg.max_backoff
    → r < 16
    → 31 ≤ failures
    → (backoff cfg failures ≡ r * 2 ^ 30) × (backoff cfg failures < cfg.base_backoff)
unfolding backoff
backoff_overflow cfg failures r e pos cap small h =
    let s : capped_shift failures ≡ 30 = omega (arith, (capped_shift-le failures).1) in
    let d : shifted cfg.base_backoff 30 ≡ r * 2 ^ 30 =
      shifted_overflow cfg.base_backoff r e small in
    rw (s, d) (ground arith)
