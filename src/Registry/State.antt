-- ===== src/Registry/State.antt =====
-- internal/registry/registry.go: what the poller records of a backend, the circuit breaker, and the
-- snapshot that the router reads. Durations are nanoseconds; times are arguments.
pub mod Breaker
pub mod Lag
use pgpilot.Registry.Backoff.{Config, backoff}
use pgpilot.Base.{
  ℕ, ◌+◌, ◌-◌, ◌*◌, ◌%◌, ◌^◌, String, Bool, true, false, ◌&&◌, ◌||◌, not, List, [], ◌∷◌, Option,
  none, some, if◌then◌else◌, leb, ltb, nat_beq,
}

pub data Role : Type 0 where
  unknown primary replica : Role

abbrev pub is_primary : Role → Bool
is_primary primary = true
is_primary _ = false

abbrev pub is_replica : Role → Bool
is_replica replica = true
is_replica _ = false

-- `F` is the type of floats, `last_err` the message of the last failure.
pub record BackendState (F : Type 0) : Type 0 where
  pub name : String
  pub addr : String
  pub role : Role
  pub lsn : ℕ
  pub lag_seconds : F
  pub healthy : Bool
  pub last_err : String
  pub last_poll : ℕ
  pub failures : ℕ

module _ {F : Type 0} where
  -- `&backendState{name: b.Name, addr: b.Addr}`, as launch builds it; `zero_lag` is the float 0.
  unfoldable pub launched : F → String → String → BackendState F
  launched zero_lag name addr = record {
    name = name;
    addr = addr;
    role = unknown;
    lsn = 0;
    lag_seconds = zero_lag;
    healthy = false;
    last_err = "";
    last_poll = 0;
    failures = 0;
  }

  unfoldable pub record_success : BackendState F → Role → ℕ → F → ℕ → BackendState F
  record_success st role lsn lag_seconds now = record st {
    role = role;
    lsn = lsn;
    lag_seconds = lag_seconds;
    healthy = true;
    last_err = "";
    last_poll = now;
    failures = 0;
  }

  -- The state that recordFailure leaves and the delay that it returns.
  unfoldable pub record_failure : Config → BackendState F → String → ℕ → BackendState F × ℕ
  record_failure cfg st e now =
      let failures = st.failures + 1 in
      (
        record st {
          healthy = if leb cfg.failure_threshold failures then false else st.healthy;
          last_err = e;
          last_poll = now;
          failures = failures;
        },
        backoff cfg failures,
      )

  -- Whether recordFailure trips the breaker, which it logs.
  unfoldable pub trips : Config → BackendState F → Bool
  trips cfg st = st.healthy && leb cfg.failure_threshold (st.failures + 1)

-- Status, without the fields that are copied for display alone.
pub record Status (F : Type 0) : Type 0 where
  pub name : String
  pub addr : String
  pub role : Role
  pub healthy : Bool
  pub lsn : ℕ
  pub lag_bytes : ℕ
  pub lag_seconds : F
  pub last_err : String
  pub last_poll : ℕ

module _ {F : Type 0} where
  -- The first loop of Snapshot: the position of the last healthy primary, if there is one.
  unfoldable pub primary_lsn : List (BackendState F) → Option ℕ → Option ℕ
  primary_lsn [] found = found
  primary_lsn (st ∷ sts) found =
      primary_lsn sts (if is_primary st.role && st.healthy then some st.lsn else found)

  -- `int64(primaryLSN - st.lsn)` under the guard that it is positive; the bits of the int64.
  unfoldable pub lag_bytes : Option ℕ → BackendState F → ℕ
  lag_bytes none st = 0
  lag_bytes (some p) st = if is_replica st.role && ltb st.lsn p then p - st.lsn else 0

  unfoldable pub status_of : Option ℕ → BackendState F → Status F
  unfolding lag_bytes
  status_of p st = record {
    name = st.name;
    addr = st.addr;
    role = st.role;
    healthy = st.healthy;
    lsn = st.lsn;
    lag_bytes = lag_bytes p st;
    lag_seconds = st.lag_seconds;
    last_err = st.last_err;
    last_poll = st.last_poll;
  }

  unfoldable pub statuses : Option ℕ → List (BackendState F) → List (Status F)
  unfolding status_of
  statuses p [] = []
  statuses p (st ∷ sts) = status_of p st ∷ statuses p sts

  unfoldable pub snapshot : List (BackendState F) → List (Status F)
  unfolding statuses primary_lsn
  snapshot sts = statuses (primary_lsn sts none) sts
