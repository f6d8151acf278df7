-- ===== src/Tests/Session.antt =====
-- Runs of the routing of internal/proxy/session.go: a primary and two replicas under strict fencing.
use pgpilot.Base.{
  ℕ, ◌≤◌, ◌≡◌, refl, inl, inr, ◌⊎◌, if◌then◌else◌, ◌==◌, string_eq, String, Bool, true, false, List,
  [], ◌∷◌, none, some, arith, All,
}
use pgpilot.Base.Int.{pos}
use pgpilot.Base.Float.{thousandths}
use pgpilot.Protocol.TxStatus.{status_idle}
use pgpilot.Router.Policy.{OneOf}
use pgpilot.Router.RoundRobin.{RoundRobin, round_robin, new_round_robin}
use pgpilot.Router.RoundRobin
use pgpilot.Router.Members.{round_robin-Picks}
use pgpilot.Registry.State.{Role, replica, primary, Status}
use pgpilot.Sql.Tree.{delete_stmt, variable_show_stmt, nil}
use pgpilot.Sql.Classify.{classify, classify_all, classify_stmt}
use pgpilot.Sql.Detect.{breaks_tx_pooling, first_feature, breaking_stmt}
use pgpilot.Session.Select.{Fencing, select_read_target, candidates, is_candidate}
use pgpilot.Session.Select.Fenced.{Serves, Selected, select_read_target-Selected, select_strict}
use pgpilot.Session.Dispatch.{Round, Effect, chose, unchose, took, returned, dispatch_read}
use pgpilot.Session.Dispatch.Failover.{
  Balanced, Landed, dispatch_read-Balanced, dispatch_read-Landed,
}
use pgpilot.Session.Messages.{query_string}
use pgpilot.Session.Routing.{Analysis, Answers, Routing, next, serve_routing, turn}
use pgpilot.Session.Routing.{breaks_of, class_of, is_feature}
use pgpilot.Session.Routing.Pins.{breaks_of-breaks_tx_pooling}
use pgpilot.Session.Routing.Steps.{Keeps}
use pgpilot.Session.Routing.Conserved.{serve_routing-Conserves}
use pgpilot.Session.Routing.Fence.{Reaches, serve_routing-Reaches}
use pgpilot.Session.Routing.OwnWrites.{Commits, read_your_writes}

abbrev strict : Fencing
strict = record { primary = "p:1"; mode = "strict"; bounded_ms = pos 100 }

abbrev status : String → Role → ℕ → Status ℕ
status a role lsn = record {
  name = a;
  addr = a;
  role = role;
  healthy = true;
  lsn = lsn;
  lag_bytes = 0;
  lag_seconds = 0;
  last_err = "";
  last_poll = 0;
}

-- r:1 lags behind, r:2 does not.
abbrev statuses : List (Status ℕ)
statuses = status "p:1" primary 100 ∷ status "r:1" replica 90 ∷ status "r:2" replica 100 ∷ []

abbrev addresses : List String
addresses = "p:1" ∷ "r:1" ∷ "r:2" ∷ []

abbrev round : ℕ → Round ℕ
round i = record { snapshot = statuses; acquired = some 5; writes = true }

known : (i : ℕ) → All (λ (s : Status ℕ). OneOf s.addr addresses) statuses
known i = (inl refl, (inr (inl refl), (inr (inr (inl refl)), tt)))

select_read_target-Selected_example :
    (a : String) × (r : Bool) × (p : RoundRobin) × (select_read_target thousandths strict
        (round_robin ℕ)
        new_round_robin
        statuses
        95
        ""
        []
      ≡ some (a, r, p))
    × Selected thousandths strict
        (round_robin ℕ)
        (round_robin-Picks ℕ)
        new_round_robin
        statuses
        95
        []
        a
        r
        p
select_read_target-Selected_example =
    select_read_target-Selected thousandths strict (round_robin ℕ) (round_robin-Picks ℕ)
      new_round_robin statuses 95 "" []

selected :
    select_read_target thousandths strict (round_robin ℕ) new_round_robin statuses 95 "" []
    ≡ some ("r:2", true, record { next = 1 })
unfolding select_read_target candidates is_candidate RoundRobin.choose new_round_robin
selected = refl

select_strict_run : (v : Serves thousandths strict 95 [] statuses "r:2") × (95 ≤ v.status.lsn)
select_strict_run =
    select_strict thousandths strict (round_robin ℕ) (round_robin-Picks ℕ) new_round_robin
      (record { next = 1 }) statuses 95 "" "r:2" [] refl refl selected

dispatch_read-Balanced_run :
    Balanced (dispatch_read thousandths strict (round_robin ℕ) round 95 "" 4 new_round_robin)
dispatch_read-Balanced_run =
    dispatch_read-Balanced thousandths strict (round_robin ℕ) round 95 "" 4 new_round_robin

dispatch_read-Landed_example :
    Landed thousandths strict
      (round_robin ℕ)
      round
      95
      ""
      (dispatch_read thousandths strict (round_robin ℕ) round 95 "" 4 new_round_robin)
dispatch_read-Landed_example =
    dispatch_read-Landed thousandths strict (round_robin ℕ) round 95 "" (round_robin-Picks ℕ)
      addresses known 4 new_round_robin (omega arith)

-- A query is the statement DELETE, or SHOW when it has a text.
abbrev statement : List ℕ → String
statement [] = "delete"
statement (_ ∷ _) = "show"

abbrev analysis : Analysis
analysis = record {
  text = statement;
  parse = λ sql. some (if sql == "show" then variable_show_stmt nil ∷ [] else delete_stmt nil ∷ []);
  fingerprint = λ sql. "";
  to_lower = λ s. s;
  equal_fold = λ s t. s == t;
}

abbrev deletes : Answers ℕ
deletes = record {
  message = some (b'Q', []);
  rounds = round;
  acquired = some 7;
  writes = true;
  response = some status_idle;
  elapsed = 0;
  lsn = some 100;
  relayed_clean = true;
  resets = true;
}

abbrev fresh : Routing RoundRobin
fresh = record { held = none; wrote_this_tx = false; fence = 0; policy = new_round_robin }

serve_routing-Conserves_example :
    Keeps "p:1" 7 0 (
      serve_routing thousandths strict analysis (round_robin ℕ) 4 (deletes ∷ deletes ∷ []) fresh [])
serve_routing-Conserves_example =
    serve_routing-Conserves thousandths strict analysis (round_robin ℕ) 4 (round_robin-Picks ℕ)
      addresses (omega arith) (deletes ∷ deletes ∷ []) fresh (known, (known, tt)) refl "p:1" 7

serve_routing-Reaches_example :
    Reaches 0 (
      serve_routing thousandths strict analysis (round_robin ℕ) 4 (deletes ∷ deletes ∷ []) fresh [])
serve_routing-Reaches_example =
    serve_routing-Reaches thousandths strict analysis (round_robin ℕ) 4 (deletes ∷ deletes ∷ [])
      fresh []

deletes-Commits : Commits thousandths strict analysis (round_robin ℕ) 4 fresh deletes [] 7 100
unfolding classify classify_all classify_stmt breaks_tx_pooling first_feature breaking_stmt
    query_string
deletes-Commits = record {
  is_query = refl;
  pools = refl;
  wrote = inr (refl, refl, refl);
  writes = refl;
  ends = refl;
  position = refl;
}

abbrev after_delete : Routing RoundRobin
after_delete = record { held = none; wrote_this_tx = false; fence = 100; policy = new_round_robin }

delete_runs :
    serve_routing thousandths strict analysis (round_robin ℕ) 4 (deletes ∷ []) fresh []
    ≡ next after_delete (returned "p:1" 7 ∷ took "p:1" 7 ∷ [])
unfolding serve_routing turn classify breaks_tx_pooling query_string
delete_runs = refl

abbrev reads : Answers ℕ
reads = record deletes { message = some (b'Q', 0 ∷ 0 ∷ 0 ∷ 0 ∷ 0 ∷ 65 ∷ 0 ∷ []) }

abbrev after_read : Routing RoundRobin
after_read = record after_delete { policy = record { next = 1 } }

abbrev read_effects : List Effect
read_effects = returned "r:2" 5 ∷ (unchose "r:2" ∷ (took "r:2" 5 ∷ (chose "r:2" ∷ [])))

then_reads :
    turn thousandths strict analysis (round_robin ℕ) 4 after_delete reads
    ≡ next after_read read_effects
unfolding turn classify dispatch_read select_read_target candidates is_candidate RoundRobin.choose
    new_round_robin query_string RoundRobin.release
then_reads = refl

abbrev read_target : String
read_target = "r:2"

read_your_writes_example :
    (read_target ≡ "p:1")
    ⊎ ((i : ℕ) × (tried : List String) × (v : Serves thousandths strict 100 tried statuses "r:2")
        × (100 ≤ v.status.lsn))
read_your_writes_example =
    read_your_writes thousandths strict analysis (round_robin ℕ) 4 refl refl (round_robin-Picks ℕ)
      addresses (omega arith) fresh deletes [] 7 100 deletes-Commits [] after_delete
      (returned "p:1" 7 ∷ took "p:1" 7 ∷ []) delete_runs refl reads known after_read read_effects
      then_reads "r:2" refl

breaks_of-breaks_tx_pooling_example :
    breaks_of thousandths strict analysis
      (round_robin ℕ)
      4
      (class_of thousandths strict analysis (round_robin ℕ) 4 "show")
      "show"
    ≡ is_feature (breaks_tx_pooling analysis.parse "show")
breaks_of-breaks_tx_pooling_example =
    breaks_of-breaks_tx_pooling thousandths strict analysis (round_robin ℕ) 4 "show"
