-- ===== src/Session/Transaction/Pinned.antt =====
-- A session in transaction mode that has left state on its connection keeps it: serveTransaction of
-- internal/proxy/session.go.
use mathlib.Core.List.{append_assoc, append-nil}
use pgpilot.Base.{
  ℕ, ◌≡◌, refl, not, String, Bool, true, false, List, [], ◌∷◌, ◌++◌, Option, none, some,
  if◌then◌else◌, nat_beq, All, All-append, Bool-cases, ◌⊎◌, inl, inr, sym,
}
use pgpilot.Protocol.TxStatus.{TxStatus, status_idle}
use pgpilot.Sql.Tree.{Node}
use pgpilot.Sql.Detect.{breaks_tx_pooling}
use pgpilot.Session.Messages.{query_string}
use pgpilot.Session.Routing.{is_feature}
use pgpilot.Session.Transaction.{
  Effect, took, wrote, Answers, Pooling, Turn, next, ended, now_pinned, settle, on_query, hand_off,
  on_message, on_read, turn, then_run, serve_rounds,
}

abbrev pub pinned_to : ℕ → Pooling
pinned_to c = record { held = some c; pinned = true }

-- The log has grown from `base` by writes to the connection alone.
abbrev pub OnlyWrites : ℕ → List Effect → List Effect → Type 0
OnlyWrites c base log =
    (writes : List Effect) × (log ≡ writes ++ base) × All (λ e. e ≡ wrote c) writes

-- The session has ended, or is pinned to the connection, with nothing done since but writes to it.
abbrev pub Stays : ℕ → List Effect → Turn → Type 0
Stays c base (next st log) = (st ≡ pinned_to c) × OnlyWrites c base log
Stays c base (ended r log) = Unit

if-Stays :
    (c : ℕ) (base : List Effect) (b : Bool) (t u : Turn)
    → Stays c base t
    → Stays c base u
    → Stays c base (if b then t else u)
if-Stays c base true t u h k = h
if-Stays c base false t u h k = k

-- The connection on which a query is sent: the held one, or a new one.
abbrev pub IsUsed : ℕ → Pooling → Answers → Type 0
IsUsed c st a = (st.held ≡ some c) ⊎ ((st.held ≡ none) × (a.acquired ≡ some c))

-- What getting it leaves in the log.
abbrev pub got : ℕ → Option ℕ → List Effect
got c none = took c ∷ []
got c (some _) = []

module _ (text : List ℕ → String) (parse : String → Option (List Node)) where
  settle-Stays :
      (a : Answers) (c : ℕ) (response : Option TxStatus) (base log : List Effect)
      → OnlyWrites c base log
      → Stays c base (settle text parse a true c response log)
  unfolding settle
  settle-Stays a c none base log h = tt
  settle-Stays a c (some status) base log h = elim (Bool-cases (nat_beq status status_idle)) [
    | inl e ↦ rw e (refl, h)
    | inr e ↦ rw e (refl, h)
  ]

  on_message-Stays :
      (a : Answers) (pinned : Bool) (kind : ℕ) (full : List ℕ) (c : ℕ) (base : List Effect)
      → now_pinned text parse pinned full ≡ true
      → Stays c base (on_message text parse a pinned kind full c base)
  unfolding hand_off on_query
  on_message-Stays a pinned kind full c base pins =
      let written : OnlyWrites c base (wrote c ∷ base) = (wrote c ∷ [], refl, (refl, tt)) in
      if-Stays c base (not (nat_beq kind b'Q')) _ _ (if-Stays c base a.writes _ _ tt tt) (
        if-Stays c base a.writes _ _
          (rw pins (settle-Stays a c a.response base (wrote c ∷ base) written)) tt)

  on_read-Stays :
      (a : Answers) (c : ℕ) (message : Option (ℕ × List ℕ))
      → Stays c [] (on_read text parse (pinned_to c) a message)
  on_read-Stays a c none = tt
  on_read-Stays a c (some (kind, full)) =
      if-Stays c [] (nat_beq kind b'X') _ _ tt (on_message-Stays a true kind full c [] refl)

  OnlyWrites-append :
      (c : ℕ) (base log later : List Effect)
      → OnlyWrites c [] later
      → OnlyWrites c base log
      → OnlyWrites c base (later ++ log)
  OnlyWrites-append c base log later (ws, e, h) (vs, f, k) =
      (ws ++ vs, rw (e, f, append-nil ws) (sym (append_assoc ws vs base)), All-append _ ws vs h k)

  later-Stays :
      (c : ℕ) (rest : List Answers) (base log : List Effect)
      → OnlyWrites c base log
      → Stays c base (serve_rounds text parse rest (pinned_to c) log)
  unfolding serve_rounds turn
  later-Stays c [] base log h = (refl, h)
  later-Stays c (b ∷ rest) base log h =
      go (turn text parse (pinned_to c) b) (on_read-Stays b c b.message) (later-Stays c rest base)
    where
      go :
          (t : Turn)
          → Stays c [] t
          → ((log : List Effect)
              → OnlyWrites c base log
              → Stays c base (serve_rounds text parse rest (pinned_to c) log))
          → Stays c base (then_run text parse t log (serve_rounds text parse rest))
      go (next st l) (e, k) ih = rw e (ih (l ++ log) (OnlyWrites-append c base log l k h))
      go (ended r l) k ih = tt

  now_pinned-breaks :
      (pinned : Bool) (full : List ℕ)
      → is_feature (breaks_tx_pooling parse (text (query_string full))) ≡ true
      → now_pinned text parse pinned full ≡ true
  now_pinned-breaks true full breaks = refl
  now_pinned-breaks false full breaks = breaks

  first-Stays :
      (a : Answers) (st : Pooling) (c : ℕ) (full : List ℕ)
      → IsUsed c st a
      → a.message ≡ some (b'Q', full)
      → is_feature (breaks_tx_pooling parse (text (query_string full))) ≡ true
      → Stays c (got c st.held) (turn text parse st a)
  unfolding turn
  first-Stays a st c full used asks breaks =
      let pins = now_pinned-breaks st.pinned full breaks in
      elim used [
        | inl held ↦ rw (asks, held) (on_message-Stays a st.pinned b'Q' full c [] pins)
        | inr (held, acquired) ↦
            rw (asks, held, acquired) (on_message-Stays a st.pinned b'Q' full c (took c ∷ []) pins)
      ]

  -- From the query that leaves session state behind, such as a prepared statement or a temporary
  -- table, the session stays on the connection on which it is sent, held before or acquired for it:
  -- whatever follows, the session has ended, or it holds that connection and has done nothing since
  -- it had it but write to it.
  pub serve_rounds-Stays :
      (a : Answers) (answers : List Answers) (st : Pooling) (c : ℕ) (full : List ℕ)
      → IsUsed c st a
      → a.message ≡ some (b'Q', full)
      → is_feature (breaks_tx_pooling parse (text (query_string full))) ≡ true
      → Stays c (got c st.held) (serve_rounds text parse (a ∷ answers) st [])
  unfolding serve_rounds turn
  serve_rounds-Stays a answers st c full used asks breaks =
      go (turn text parse st a) (first-Stays a st c full used asks breaks)
    where
      go :
          (t : Turn)
          → Stays c (got c st.held) t
          → Stays c (got c st.held) (then_run text parse t [] (serve_rounds text parse answers))
      go (next st' l) (e, k) = rw (e, append-nil l) (later-Stays c answers (got c st.held) l k)
      go (ended r l) k = tt
