-- ===== src/Session/Routing.antt =====
-- internal/proxy/session.go: serveRouting, one round of its loop for each message of the client. What
-- the client, the backends, the pools and the registry answer in a round is an argument; the parser,
-- the fingerprint and the case folding are parameters.
pub mod Steps
pub mod Conserved
pub mod Fence
pub mod Pins
pub mod Served
pub mod OwnWrites
use pgpilot.Base.{
  ℕ, ◌+◌, ◌&&◌, ◌||◌, not, String, Bool, true, false, List, [], ◌∷◌, ◌++◌, Option, none, some,
  length, if◌then◌else◌, leb, ltb, nat_beq, ◌==◌, string_eq,
}
use pgpilot.Base.Float.{Float64}
use pgpilot.Protocol.TxStatus.{TxStatus, status_idle}
use pgpilot.Router.Policy.{Policy}
use pgpilot.Sql.Tree.{Node}
use pgpilot.Sql.Classify.{Class, read, write, classify}
use pgpilot.Sql.Detect.{Feature, breaks_tx_pooling}
use pgpilot.Session.Select.{Fencing}
use pgpilot.Session.Dispatch.{
  Round, Effect, chose, unchose, took, discarded, returned, Dispatched, sent, refused, panicked,
  dispatch_read,
}
use pgpilot.Session.Messages.{query_string}

-- What the libraries answer about a query: its statements, its fingerprint, and the case folding.
pub record Analysis : Type 0 where
  pub text : List ℕ → String
  pub parse : String → Option (List Node)
  pub fingerprint : String → String
  pub to_lower : String → String
  pub equal_fold : String → String → Bool

-- The answers of one round: the message of the client (`none` is an error of the read), the rounds of
-- dispatchRead, AcquireAt of the primary, the write of the message, the status that relayResponse
-- returns (`none` is an error) and how long it took, the position that primaryLSN reads, what
-- relayPooled returns and whether Reset succeeds.
pub record Answers (F : Type 0) : Type 0 where
  pub message : Option (ℕ × List ℕ)
  pub rounds : ℕ → Round F
  pub acquired : Option ℕ
  pub writes : Bool
  pub response : Option TxStatus
  pub elapsed : ℕ
  pub lsn : Option ℕ
  pub relayed_clean : Bool
  pub resets : Bool

-- The variables of serveRouting that live across rounds; `held` is the connection and its address.
pub record Routing (S : Type 0) : Type 0 where
  pub held : Option (ℕ × String)
  pub wrote_this_tx : Bool
  pub fence : ℕ
  pub policy : S

-- A round continues, or ends the session (with a rejection or not); `stuck` is a dispatch that runs
-- out of fuel or a policy that panics.
pub data Turn (S : Type 0) : Type 0 where
  next : Routing S → List Effect → Turn S
  ended : Bool → S → List Effect → Turn S
  stuck : Turn S

-- The deferred DiscardAt of a held connection.
unfoldable pub drop_held : Option (ℕ × String) → List Effect → List Effect
drop_held none log = log
drop_held (some (c, a)) log = discarded a c ∷ log

-- finishBackendAt
unfoldable pub finish_backend_at : ℕ → String → Bool → Bool → List Effect → List Effect
finish_backend_at c a clean resets log =
    if clean
    then (if resets then returned a c ∷ log else discarded a c ∷ log)
    else discarded a c ∷ log

-- The fence after a transaction on the primary that wrote.
unfoldable pub advanced : ℕ → Option ℕ → ℕ
advanced fence none = fence
advanced fence (some l) = if ltb fence l then l else fence

abbrev pub is_write : Class → Bool
is_write read = false
is_write write = true

abbrev pub is_feature : Option Feature → Bool
is_feature none = false
is_feature (some f) = true

module _ (fl : Float64) (cfg : Fencing) (an : Analysis) (policy : Policy fl.F) (fuel : ℕ) where
  open policy use {State, release, needs_fingerprint}

  -- The slot that a read placed by the policy owes.
  unfoldable pub release_routed :
      Option String → String → ℕ → State → List Effect → State × List Effect
  release_routed none fp elapsed p log = (p, log)
  release_routed (some a) fp elapsed p log = (release p a fp elapsed, unchose a ∷ log)

  -- The end of a round whose response is complete: the session is pinned for good, stays in its
  -- transaction, or gives its backend back.
  unfoldable pub settle :
      Answers fl.F → Bool → TxStatus → ℕ → String → Bool → ℕ → State → List Effect → Turn State
  unfolding finish_backend_at advanced
  settle a breaks status c addr wrote fence p log =
      if breaks
      then ended false p (finish_backend_at c addr a.relayed_clean a.resets log)
      else if not (nat_beq status status_idle)
      then next (record { held = some (c, addr); wrote_this_tx = wrote; fence = fence; policy = p })
          log
      else next
          (record {
            held = none;
            wrote_this_tx = false;
            fence = if addr == cfg.primary && wrote then advanced fence a.lsn else fence;
            policy = p;
          })
          (returned addr c ∷ log)

  abbrev pub on_response :
      Answers fl.F
      → Option TxStatus
      → Bool
      → ℕ
      → String
      → Bool
      → ℕ
      → State × List Effect
      → Turn State
  on_response a none breaks c addr wrote fence (p, log) = ended false p (discarded addr c ∷ log)
  on_response a (some status) breaks c addr wrote fence (p, log) =
      settle a breaks status c addr wrote fence p log

  -- The response, once the query has been written.
  unfoldable pub respond :
      Answers fl.F
      → Bool
      → ℕ
      → String
      → Option String
      → String
      → Bool
      → ℕ
      → State
      → List Effect
      → Turn State
  unfolding settle release_routed
  respond a breaks c addr routed fp wrote fence p log =
      on_response a a.response breaks c addr wrote fence (release_routed routed fp a.elapsed p log)

  -- A query on a connection to which it has not been written yet.
  unfoldable pub write_query :
      Answers fl.F → Bool → Bool → ℕ → String → Bool → ℕ → State → List Effect → Turn State
  unfolding respond
  write_query a class_write breaks c addr wrote fence p log =
      if a.writes
      then respond a breaks c addr none "" (wrote || (class_write && (addr == cfg.primary))) fence p
          log
      else ended false p (discarded addr c ∷ log)

  abbrev pub on_dispatched :
      Answers fl.F → Bool → ℕ → String → Option (Dispatched State) → Turn State
  on_dispatched a wrote fence fp none = stuck
  on_dispatched a wrote fence fp (some (sent c addr routed p log)) =
      respond a false c addr routed fp wrote fence p log
  on_dispatched a wrote fence fp (some (refused p log)) = ended true p log
  on_dispatched a wrote fence fp (some panicked) = stuck

  -- The start of a transaction: a read is dispatched, a write acquires the primary.
  unfoldable pub start_query : Answers fl.F → Class → Bool → String → Bool → ℕ → State → Turn State
  unfolding respond write_query
  start_query a read breaks fp wrote fence p =
      on_dispatched a wrote fence fp (dispatch_read fl cfg policy a.rounds fence fp fuel p)
  start_query a write breaks fp wrote fence p = elim a.acquired [
    | none ↦ ended true p []
    | some c ↦ write_query a true breaks c cfg.primary wrote fence p (took cfg.primary c ∷ [])
  ]

  abbrev pub query :
      Answers fl.F → Routing State → Class → Bool → String → Option (ℕ × String) → Turn State
  query a st class breaks fp none =
      start_query a class breaks fp st.wrote_this_tx st.fence st.policy
  query a st class breaks fp (some (c, addr)) =
      write_query a (is_write class) breaks c addr st.wrote_this_tx st.fence st.policy []

  -- Any message of the extended protocol pins the session for good.
  unfoldable pub extended_on : Answers fl.F → State → ℕ → String → List Effect → Turn State
  unfolding finish_backend_at
  extended_on a p c addr log =
      if a.writes
      then ended false p (finish_backend_at c addr a.relayed_clean a.resets log)
      else ended false p (discarded addr c ∷ log)

  unfoldable pub extended : Answers fl.F → State → Option (ℕ × String) → Turn State
  unfolding extended_on
  extended a p (some (c, addr)) = extended_on a p c addr []
  extended a p none = elim a.acquired [
    | none ↦ ended true p []
    | some c ↦ extended_on a p c cfg.primary (took cfg.primary c ∷ [])
  ]

  abbrev pub class_of : String → Class
  class_of sql = classify an.to_lower an.equal_fold an.parse sql

  abbrev pub breaks_of : Class → String → Bool
  breaks_of read sql = false
  breaks_of write sql = is_feature (breaks_tx_pooling an.parse sql)

  -- The fingerprint of a query, if the policy wants it.
  abbrev pub fingerprint_of : String → String
  fingerprint_of sql = if needs_fingerprint then an.fingerprint sql else ""

  abbrev pub on_query : Answers fl.F → Routing State → String → Turn State
  on_query a st sql =
      query a st (class_of sql) (breaks_of (class_of sql) sql) (fingerprint_of sql) st.held

  -- One round; the log holds its effects, the latest first.
  unfoldable pub turn : Routing State → Answers fl.F → Turn State
  unfolding start_query extended drop_held
  turn st a = elim a.message [
    | none ↦ ended false st.policy (drop_held st.held [])
    | some (kind, full) ↦
        if nat_beq kind b'X'
        then ended false st.policy (drop_held st.held [])
        else if not (nat_beq kind b'Q')
        then extended a st.policy st.held
        else on_query a st (an.text (query_string full))
  ]

  -- serveRouting on the answers of its rounds: the state in which it stops.
  abbrev pub then_run :
      Turn State → List Effect → (Routing State → List Effect → Turn State) → Turn State
  then_run (next st l) log k = k st (l ++ log)
  then_run (ended r p l) log k = ended r p (l ++ log)
  then_run stuck log k = stuck

  unfoldable pub serve_routing : List (Answers fl.F) → Routing State → List Effect → Turn State
  serve_routing [] st log = next st log
  serve_routing (a ∷ rest) st log = then_run (turn st a) log (serve_routing rest)
