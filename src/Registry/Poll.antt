-- ===== src/Registry/Poll.antt =====
-- internal/registry/registry.go: one poll of a backend. What the dialer and the query return, the
-- clock and the float parser of the standard library are arguments; a row is a list of byte strings.
use pgpilot.Base.{
  ℕ, ◌+◌, ◌≡◌, refl, ◌⊎◌, inl, inr, String, Bool, true, false, List, [], ◌∷◌, Option, none, some,
  if◌then◌else◌, nat_beq,
}
use pgpilot.Registry.Backoff.{Config, backoff}
use pgpilot.Registry.Lsn.{parse_lsn, ◌>>=◌}
use pgpilot.Registry.State.{Role, primary, replica, BackendState, record_success, record_failure}

-- `row[0] == "t"`
unfoldable pub is_t : List ℕ → Bool
is_t (c ∷ []) = nat_beq c b't'
is_t _ = false

pub data QueryResult : Type 0 where
  row : List (List ℕ) → QueryResult
  query_error : String → QueryResult

-- What the environment answers in one poll: the error of the dialer, if any, and the query's result.
pub record Answers : Type 0 where
  pub dial_error : Option String
  pub query : QueryResult
  pub now : ℕ

-- What a poll leaves: the state, whether `*conn` is not nil, and the delay before the next poll; with
-- the connections that the dialer gave and the calls of Close.
pub record Result (F : Type 0) : Type 0 where
  pub st : BackendState F
  pub connected : Bool
  pub delay : ℕ
  pub opened : ℕ
  pub closed : ℕ

module _ {F : Type 0} (parse_float : List ℕ → Option F) (row_error : List (List ℕ) → String) where
  -- `none` is one of the errors; its text is `row_error`.
  unfoldable pub parse_health_row : List (List ℕ) → Option (Role × ℕ × F)
  unfolding is_t
  parse_health_row (r ∷ l ∷ g ∷ _) = do
    lsn ← parse_lsn l
    lag_seconds ← parse_float g
    some (if is_t r then replica else primary, lsn, lag_seconds)
  parse_health_row _ = none

  module _ (cfg : Config) where
    unfoldable pub poll_failed : BackendState F → String → ℕ → ℕ → ℕ → Result F
    poll_failed st e now opened closed =
        let (st', delay) = record_failure cfg st e now in
        record { st = st'; connected = false; delay = delay; opened = opened; closed = closed }

    -- A row that cannot be parsed: `(*conn).Close()` and `*conn = nil`.
    abbrev pub poll_parsed :
        BackendState F → List (List ℕ) → ℕ → ℕ → Option (Role × ℕ × F) → Result F
    poll_parsed st r now opened none = poll_failed st (row_error r) now opened 1
    poll_parsed st r now opened (some (role, lsn, lag)) = record {
      st = record_success st role lsn lag now;
      connected = true;
      delay = cfg.interval;
      opened = opened;
      closed = 0;
    }

    -- An error of the query: the same.
    abbrev pub poll_query : BackendState F → QueryResult → ℕ → ℕ → Result F
    poll_query st (query_error e) now opened = poll_failed st e now opened 1
    poll_query st (row r) now opened = poll_parsed st r now opened (parse_health_row r)

    -- Without a connection the dialer is asked for one; its error leaves none to close.
    abbrev pub poll_dialed : BackendState F → Bool → Option String → QueryResult → ℕ → Result F
    poll_dialed st false (some e) q now = poll_failed st e now 0 0
    poll_dialed st false none q now = poll_query st q now 1
    poll_dialed st true d q now = poll_query st q now 0

    -- pollOnce; `connected` says that `*conn` is not nil.
    unfoldable pub poll_once : BackendState F → Bool → Answers → Result F
    unfolding poll_failed
    poll_once st connected a = poll_dialed st connected a.dial_error a.query a.now

    pub record Succeeded (st : BackendState F) (r : Result F) : Type 0 where
      pub keeps_connection : r.connected ≡ true
      pub marks_healthy : r.st.healthy ≡ true
      pub resets : r.st.failures ≡ 0
      pub clears_error : r.st.last_err ≡ ""
      pub waits_interval : r.delay ≡ cfg.interval

    pub record Failed (st : BackendState F) (r : Result F) : Type 0 where
      pub drops_connection : r.connected ≡ false
      pub counts : r.st.failures ≡ st.failures + 1
      pub waits_backoff : r.delay ≡ backoff cfg (st.failures + 1)
      pub keeps_role : r.st.role ≡ st.role
      pub keeps_lsn : r.st.lsn ≡ st.lsn
      pub keeps_lag : r.st.lag_seconds ≡ st.lag_seconds

    poll_failed-Failed :
        (st : BackendState F) (e : String) (now opened closed : ℕ)
        → Failed st (poll_failed st e now opened closed)
    unfolding poll_failed record_failure
    poll_failed-Failed st e now opened closed = record {
      drops_connection = refl;
      counts = refl;
      waits_backoff = refl;
      keeps_role = refl;
      keeps_lsn = refl;
      keeps_lag = refl;
    }

    poll_query-outcome :
        (st : BackendState F) (q : QueryResult) (now opened : ℕ)
        → Succeeded st (poll_query st q now opened) ⊎ Failed st (poll_query st q now opened)
    unfolding record_success
    poll_query-outcome st (query_error e) now opened = inr (poll_failed-Failed st e now opened _)
    poll_query-outcome st (row r) now opened = go (parse_health_row r)
      where
        go :
            (o : Option (Role × ℕ × F))
            → Succeeded st (poll_parsed st r now opened o)
              ⊎ Failed st (poll_parsed st r now opened o)
        go none = inr (poll_failed-Failed st (row_error r) now opened _)
        go (some (role, lsn, lag)) = inl (record {
          keeps_connection = refl;
          marks_healthy = refl;
          resets = refl;
          clears_error = refl;
          waits_interval = refl;
        })

    -- Each poll either succeeds, which keeps the connection, resets the failures and waits for the
    -- interval, or fails, which drops the connection, counts one failure, waits for the backoff of
    -- the new count, and leaves the role, position and lag of the last success.
    pub poll_once-outcome :
        (st : BackendState F) (connected : Bool) (a : Answers)
        → Succeeded st (poll_once st connected a) ⊎ Failed st (poll_once st connected a)
    unfolding poll_once
    poll_once-outcome st connected a = go connected a.dial_error
      where
        go :
            (c : Bool) (d : Option String)
            → Succeeded st (poll_dialed st c d a.query a.now)
              ⊎ Failed st (poll_dialed st c d a.query a.now)
        go true d = poll_query-outcome st a.query a.now 0
        go false none = poll_query-outcome st a.query a.now 1
        go false (some e) = inr (poll_failed-Failed st e a.now 0 0)
