-- ===== src/Session/Transaction.antt =====
-- internal/proxy/session.go: serveTransaction, one round of its loop for each message of the client,
-- with finishBackend and releaseBetweenTransactions. What the client, the pool and the backend
-- answer in a round is an argument; the parser and the text of a query are parameters.
pub mod Pinned
pub mod Refines
use pgpilot.Base.{
  ℕ, ◌&&◌, not, String, Bool, true, false, List, [], ◌∷◌, ◌++◌, Option, none, some, if◌then◌else◌,
  nat_beq,
}
use pgpilot.Protocol.TxStatus.{TxStatus, status_idle}
use pgpilot.Sql.Tree.{Node}
use pgpilot.Sql.Detect.{Feature, breaks_tx_pooling}
use pgpilot.Session.Messages.{query_string}
use pgpilot.Session.Routing.{is_feature}

-- What a session does with connections, the latest first: Acquire, a client's message written to
-- the connection, a Reset and a DiscardAll that succeed, Discard and Release.
pub data Effect : Type 0 where
  took wrote reset cleaned discarded released : ℕ → Effect

-- The answers of one round: the message of the client (`none` is an error of the read), Acquire,
-- the write of the message, the status that relayResponse returns (`none` is an error), what
-- relayPooled returns, and whether Reset and DiscardAll succeed.
pub record Answers : Type 0 where
  pub message : Option (ℕ × List ℕ)
  pub acquired : Option ℕ
  pub writes : Bool
  pub response : Option TxStatus
  pub relayed_clean : Bool
  pub resets : Bool
  pub cleans : Bool

pub record Pooling : Type 0 where
  pub held : Option ℕ
  pub pinned : Bool

-- A round continues, or ends the session (with a rejection or not).
pub data Turn : Type 0 where
  next : Pooling → List Effect → Turn
  ended : Bool → List Effect → Turn

unfoldable pub finish_backend : ℕ → Bool → Bool → List Effect → List Effect
finish_backend c false resets log = discarded c ∷ log
finish_backend c true true log = released c ∷ reset c ∷ log
finish_backend c true false log = discarded c ∷ log

unfoldable pub release_between_transactions : ℕ → Bool → List Effect → List Effect
release_between_transactions c true log = released c ∷ cleaned c ∷ log
release_between_transactions c false log = discarded c ∷ log

-- The deferred end of a session that may hold a connection.
unfoldable pub finish_held : Option ℕ → Bool → Bool → List Effect → List Effect
unfolding finish_backend
finish_held none clean resets log = log
finish_held (some c) clean resets log = finish_backend c clean resets log

module _ (text : List ℕ → String) (parse : String → Option (List Node)) where
  -- A feature is looked for until one has been found.
  abbrev pub now_pinned : Bool → List ℕ → Bool
  now_pinned true full = true
  now_pinned false full = is_feature (breaks_tx_pooling parse (text (query_string full)))

  -- After a response: the connection goes back between transactions unless the session is pinned.
  unfoldable pub settle : Answers → Bool → ℕ → Option TxStatus → List Effect → Turn
  unfolding release_between_transactions
  settle a pinned c none log = ended false (discarded c ∷ log)
  settle a pinned c (some status) log =
      if nat_beq status status_idle && not pinned
      then next (record { held = none; pinned = pinned })
          (release_between_transactions c a.cleans log)
      else next (record { held = some c; pinned = pinned }) log

  unfoldable pub on_query : Answers → Bool → ℕ → List Effect → Turn
  unfolding settle
  on_query a pinned c log =
      if a.writes
      then settle a pinned c a.response (wrote c ∷ log)
      else ended false (discarded c ∷ log)

  -- The first message of another kind hands the session to the continuous relay.
  unfoldable pub hand_off : Answers → ℕ → List Effect → Turn
  unfolding finish_backend
  hand_off a c log =
      if a.writes
      then ended false (finish_backend c a.relayed_clean a.resets (wrote c ∷ log))
      else ended false (discarded c ∷ log)

  abbrev pub on_message : Answers → Bool → ℕ → List ℕ → ℕ → List Effect → Turn
  on_message a pinned kind full c log =
      if not (nat_beq kind b'Q')
      then hand_off a c log
      else on_query a (now_pinned pinned full) c log

  abbrev pub on_acquired : Answers → Bool → ℕ → List ℕ → Option ℕ → Turn
  on_acquired a pinned kind full none = ended true []
  on_acquired a pinned kind full (some c) = on_message a pinned kind full c (took c ∷ [])

  abbrev pub with_held : Answers → Bool → ℕ → List ℕ → Option ℕ → Turn
  with_held a pinned kind full none = on_acquired a pinned kind full a.acquired
  with_held a pinned kind full (some c) = on_message a pinned kind full c []

  abbrev pub on_read : Pooling → Answers → Option (ℕ × List ℕ) → Turn
  on_read st a none = ended false (finish_held st.held false a.resets [])
  on_read st a (some (kind, full)) =
      if nat_beq kind b'X'
      then ended false (finish_held st.held true a.resets [])
      else with_held a st.pinned kind full st.held

  -- One round.
  unfoldable pub turn : Pooling → Answers → Turn
  unfolding finish_held hand_off on_query
  turn st a = on_read st a a.message

  abbrev pub then_run : Turn → List Effect → (Pooling → List Effect → Turn) → Turn
  then_run (next st l) log k = k st (l ++ log)
  then_run (ended r l) log k = ended r (l ++ log)

  -- The rounds of a session; the log of them all.
  unfoldable pub serve_rounds : List Answers → Pooling → List Effect → Turn
  unfolding turn
  serve_rounds [] st log = next st log
  serve_rounds (a ∷ rest) st log = then_run (turn st a) log (serve_rounds rest)

  -- The session begins with the connection of the startup.
  unfoldable pub serve_transaction : List Answers → ℕ → Turn
  serve_transaction answers initial =
      serve_rounds answers (record { held = some initial; pinned = false }) (took initial ∷ [])
