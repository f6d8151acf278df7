-- ===== src/Registry/Pollers/Drained.antt =====
-- No health connection outlives its poller: internal/registry/registry.go.
use pgpilot.Base.{
  ℕ, ◌+◌, ◌≡◌, refl, sym, ap, subst, ◌∙◌, String, Bool, true, false, List, [], ◌∷◌, ◌++◌, Option,
  none, some, arith, map, All,
}
use pgpilot.Registry.Backoff.{Config}
use pgpilot.Registry.State.{Role, BackendState, launched, record_success, record_failure}
use pgpilot.Registry.Poll.{
  Answers, Result, QueryResult, row, query_error, parse_health_row, poll_failed, poll_parsed,
  poll_query, poll_dialed, poll_once,
}
use pgpilot.Registry.Pollers.{
  Poller, Registry, as_number, started, launch, start, after_poll, polled, exited, Step, polls,
  exits, cancels, parent_ends, relaunches, Reach, here, later,
}

abbrev pub open_count : {F : Type 0} → List (Poller F) → ℕ
open_count [] = 0
open_count (q ∷ qs) = as_number q.connected + open_count qs

abbrev pub identity_of : {F : Type 0} → Poller F → String × String
identity_of q = (q.st.name, q.st.addr)

-- The connections that are open are those of the pollers, none of a poller that has stopped; and the
-- pollers are those of the backends that were launched last, in their order.
pub record Tended {F : Type 0} (r : Registry F) : Type 0 where
  pub balanced : r.opened ≡ r.closed + open_count r.pollers
  pub stopped : All (λ (q : Poller F). q.running ≡ false → q.connected ≡ false) r.pollers
  pub named : map identity_of r.pollers ≡ r.configured

module _ {F : Type 0} where
  open_count-append :
      (before after : List (Poller F))
      → open_count (before ++ after) ≡ open_count before + open_count after
  open_count-append [] after = omega arith
  open_count-append (q ∷ qs) after = omega (arith, open_count-append qs after)

  -- The poller between the others.
  All-middle {κ} :
      (P : Poller F → Type κ) (before after : List (Poller F)) (q q' : Poller F)
      → P q'
      → All P (before ++ (q ∷ after))
      → All P (before ++ (q' ∷ after))
  All-middle P [] after q q' h k = (h, k.1)
  All-middle P (x ∷ xs) after q q' h k = (k.0, All-middle P xs after q q' h k.1)

  map-middle :
      (before after : List (Poller F)) (q q' : Poller F)
      → identity_of q' ≡ identity_of q
      → map identity_of (before ++ (q' ∷ after)) ≡ map identity_of (before ++ (q ∷ after))
  map-middle [] after q q' e = ap (λ x. x ∷ map identity_of after) e
  map-middle (x ∷ xs) after q q' e = ap (λ l. identity_of x ∷ l) (map-middle xs after q q' e)

module _ {F : Type 0} (parse_float : List ℕ → Option F) (row_error : List (List ℕ) → String)
    (cfg : Config) (zero_lag : F) where
  -- What a poll leaves: the identity of its backend, and each connection, the one that it had or the
  -- one that it opened, either closed or kept.
  Polled : BackendState F → ℕ → Result F → Type 0
  Polled st had result =
      (identity_of (after_poll parse_float row_error cfg zero_lag result) ≡ (st.name, st.addr))
      × (had + result.opened ≡ result.closed + as_number result.connected)

  poll_query-Polled :
      (st : BackendState F) (q : QueryResult) (now had opened : ℕ)
      → had + opened ≡ 1
      → Polled st had (poll_query parse_float row_error cfg st q now opened)
  unfolding Polled poll_failed record_failure record_success
  poll_query-Polled st (query_error e) now had opened h = (refl, omega (arith, h))
  poll_query-Polled st (row r) now had opened h = go (parse_health_row parse_float row_error r)
    where
      go :
          (o : Option (Role × ℕ × F))
          → Polled st had (poll_parsed parse_float row_error cfg st r now opened o)
      go none = (refl, omega (arith, h))
      go (some (role, lsn, lag)) = (refl, omega (arith, h))

  poll_once-Polled :
      (st : BackendState F) (connected : Bool) (a : Answers)
      → Polled st (as_number connected) (poll_once parse_float row_error cfg st connected a)
  unfolding Polled poll_once poll_failed record_failure
  poll_once-Polled st true a = poll_query-Polled st a.query a.now 1 0 refl
  poll_once-Polled st false a = go a.dial_error
    where
      go :
          (e : Option String)
          → Polled st 0 (poll_dialed parse_float row_error cfg st false e a.query a.now)
      go none = poll_query-Polled st a.query a.now 0 1 refl
      go (some e) = (refl, refl)

  started-Tended :
      (backends : List (String × String))
      → (open_count (map (started parse_float row_error cfg zero_lag) backends) ≡ 0)
        × All
            (λ (q : Poller F). q.running ≡ false → q.connected ≡ false)
            (map (started parse_float row_error cfg zero_lag) backends)
        × (map identity_of (map (started parse_float row_error cfg zero_lag) backends) ≡ backends)
  unfolding started launched
  started-Tended [] = (refl, tt, refl)
  started-Tended ((name, addr) ∷ rest) =
      let (none_open, stopped, named) = started-Tended rest in
      (omega (arith, none_open), (λ _. refl, stopped), ap (λ l. (name, addr) ∷ l) named)

  none_open :
      (qs : List (Poller F))
      → All (λ (q : Poller F). q.running ≡ false → q.connected ≡ false) qs
      → All (λ (q : Poller F). q.running ≡ false) qs
      → open_count qs ≡ 0
  none_open [] h k = refl
  none_open (q ∷ qs) h k = rw (h.0 k.0) (omega (arith, none_open qs h.1 k.1))

  polled-Tended :
      (r : Registry F) (before after : List (Poller F)) (q : Poller F) (a : Answers)
      → Tended r
      → r.pollers ≡ before ++ (q ∷ after)
      → Tended (polled parse_float row_error cfg zero_lag before q after a r)
  unfolding polled Polled
  polled-Tended r before after q a v e =
      let result = poll_once parse_float row_error cfg q.st q.connected a in
      let q' = after_poll parse_float row_error cfg zero_lag result in
      let (same, kept) = poll_once-Polled q.st q.connected a in
      record {
        balanced = omega (
          arith,
          v.balanced,
          kept,
          ap open_count e,
          open_count-append before (q ∷ after),
          open_count-append before (q' ∷ after),
        );
        stopped =
            All-middle _ before after q q' (λ h. absurd (cc h))
              (subst (All (λ q. q.running ≡ false → q.connected ≡ false)) e v.stopped);
        named = map-middle before after q q' same ∙ ap (map identity_of) (sym e) ∙ v.named;
      }

  exited-Tended :
      (r : Registry F) (before after : List (Poller F)) (q : Poller F)
      → Tended r
      → r.pollers ≡ before ++ (q ∷ after)
      → Tended (exited parse_float row_error cfg zero_lag before q after r)
  unfolding exited
  exited-Tended r before after q v e =
      let q' = record q { connected = false; running = false } in
      record {
        balanced = omega (
          arith,
          v.balanced,
          ap open_count e,
          open_count-append before (q ∷ after),
          open_count-append before (q' ∷ after),
        );
        stopped =
            All-middle _ before after q q' (λ h. refl)
              (subst (All (λ q. q.running ≡ false → q.connected ≡ false)) e v.stopped);
        named = map-middle before after q q' refl ∙ ap (map identity_of) (sym e) ∙ v.named;
      }

  Step-Tended :
      (r s : Registry F) → Step parse_float row_error cfg zero_lag r s → Tended r → Tended s
  unfolding launch
  Step-Tended r s (polls before after q a e running) v = polled-Tended r before after q a v e
  Step-Tended r s (exits before after q e running ends) v = exited-Tended r before after q v e
  Step-Tended r s cancels v = record { balanced = v.balanced; stopped = v.stopped; named = v.named }
  Step-Tended r s parent_ends v = record {
    balanced = v.balanced;
    stopped = v.stopped;
    named = v.named;
  }
  Step-Tended r s (relaunches backends all_stopped cancelled) v =
      let (fresh, stopped, named) = started-Tended backends in
      record {
        balanced = omega (arith, v.balanced, none_open r.pollers v.stopped all_stopped, fresh);
        stopped = stopped;
        named = named;
      }

  start-Tended :
      (backends : List (String × String))
      → Tended (start parse_float row_error cfg zero_lag backends)
  unfolding start launch
  start-Tended backends =
      let (fresh, stopped, named) = started-Tended backends in
      record { balanced = omega (arith, fresh); stopped = stopped; named = named }

  -- However polls, reloads and the shutdown interleave: the health connections that are open are
  -- those of pollers that run, and the registry holds exactly the backends it was last configured
  -- with, in their order.
  pub Reach-Tended :
      (backends : List (String × String)) (r : Registry F)
      → Reach parse_float row_error cfg zero_lag
          (start parse_float row_error cfg zero_lag backends)
          r
      → Tended r
  Reach-Tended backends r here = start-Tended backends
  Reach-Tended backends r (later {s} reach step) =
      Step-Tended s r step (Reach-Tended backends s reach)

  -- When every poller has stopped, which is what Reconfigure and Wait wait for, as many health
  -- connections have been closed as were opened.
  pub Reach-closed :
      (backends : List (String × String)) (r : Registry F)
      → Reach parse_float row_error cfg zero_lag
          (start parse_float row_error cfg zero_lag backends)
          r
      → All (λ (q : Poller F). q.running ≡ false) r.pollers
      → r.opened ≡ r.closed
  Reach-closed backends r reach all_stopped =
      let v = Reach-Tended backends r reach in
      omega (arith, v.balanced, none_open r.pollers v.stopped all_stopped)
