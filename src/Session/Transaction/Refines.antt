-- ===== src/Session/Transaction/Refines.antt =====
-- The use of pooled connections by serveTransaction of internal/proxy/session.go refines a protocol
-- of one connection at a time.
use pgpilot.Base.{
  ℕ, ◌&&◌, not, String, Bool, true, false, List, [], ◌∷◌, ◌++◌, Option, none, some, if◌then◌else◌,
  nat_beq,
}
use pgpilot.Protocol.TxStatus.{TxStatus, status_idle}
use pgpilot.Sql.Tree.{Node}
use pgpilot.Session.Transaction.{
  Effect, took, wrote, reset, cleaned, discarded, released, Answers, Pooling, Turn, next, ended,
  finish_backend, release_between_transactions, finish_held, now_pinned, settle, on_query, hand_off,
  on_message, on_acquired, with_held, on_read, turn, then_run, serve_rounds, serve_transaction,
}

-- What a session may hold: nothing, a connection that its client may have used, or one that has
-- been cleaned since.
pub data Use : Type 0 where
  free : Use
  in_use cleared : ℕ → Use

-- The protocol: a connection is acquired when none is held, written while it is held, returned to
-- the pool only when it has been cleaned since, and discarded at any time.
pub data Moves : Use → Effect → Use → Type 0 where
  on_take : {c : ℕ} → Moves free (took c) (in_use c)
  on_write : {c : ℕ} → Moves (in_use c) (wrote c) (in_use c)
  on_reset : {c : ℕ} → Moves (in_use c) (reset c) (cleared c)
  on_clean : {c : ℕ} → Moves (in_use c) (cleaned c) (cleared c)
  on_discard : {c : ℕ} → Moves (in_use c) (discarded c) free
  on_return : {c : ℕ} → Moves (cleared c) (released c) free

-- The effects of a log, the latest first, in a row.
pub data Run (u : Use) : List Effect → Use → Type 0 where
  start : Run u [] u
  then_ :
      {e : Effect} {log : List Effect} {v w : Use} → Run u log v → Moves v e w → Run u (e ∷ log) w

Run-append :
    (u v w : Use) (log later : List Effect) → Run u log v → Run v later w → Run u (later ++ log) w
Run-append u v w log [] r start = r
Run-append u v w log (e ∷ later) r (then_ s m) = then_ (Run-append u _ _ log later r s) m

abbrev pub use_of : Option ℕ → Use
use_of none = free
use_of (some c) = in_use c

-- A turn from a use of connections: it holds what its state says, or nothing at the end.
abbrev pub Obeys : Use → Turn → Type 0
Obeys u (next st log) = Run u log (use_of st.held)
Obeys u (ended r log) = Run u log free

pub finish_backend-Run :
    (u : Use) (c : ℕ) (clean resets : Bool) (log : List Effect)
    → Run u log (in_use c)
    → Run u (finish_backend c clean resets log) free
unfolding finish_backend
finish_backend-Run u c false resets log r = then_ r on_discard
finish_backend-Run u c true true log r = then_ (then_ r on_reset) on_return
finish_backend-Run u c true false log r = then_ r on_discard

release-Run :
    (u : Use) (c : ℕ) (cleans : Bool) (log : List Effect)
    → Run u log (in_use c)
    → Run u (release_between_transactions c cleans log) free
unfolding release_between_transactions
release-Run u c true log r = then_ (then_ r on_clean) on_return
release-Run u c false log r = then_ r on_discard

finish_held-Run :
    (held : Option ℕ) (clean resets : Bool)
    → Run (use_of held) (finish_held held clean resets []) free
unfolding finish_held
finish_held-Run none clean resets = start
finish_held-Run (some c) clean resets = finish_backend-Run (in_use c) c clean resets [] start

if-Obeys :
    (u : Use) (b : Bool) (t t' : Turn) → Obeys u t → Obeys u t' → Obeys u (if b then t else t')
if-Obeys u true t t' h k = h
if-Obeys u false t t' h k = k

module _ (text : List ℕ → String) (parse : String → Option (List Node)) where
  settle-Obeys :
      (u : Use) (a : Answers) (pinned : Bool) (c : ℕ) (response : Option TxStatus)
      (log : List Effect)
      → Run u log (in_use c)
      → Obeys u (settle text parse a pinned c response log)
  unfolding settle
  settle-Obeys u a pinned c none log r = then_ r on_discard
  settle-Obeys u a pinned c (some status) log r =
      if-Obeys u (nat_beq status status_idle && not pinned) _ _ (release-Run u c a.cleans log r) r

  on_message-Obeys :
      (u : Use) (a : Answers) (pinned : Bool) (kind : ℕ) (full : List ℕ) (c : ℕ) (log : List Effect)
      → Run u log (in_use c)
      → Obeys u (on_message text parse a pinned kind full c log)
  unfolding hand_off on_query
  on_message-Obeys u a pinned kind full c log r =
      if-Obeys u (not (nat_beq kind b'Q')) _ _
        (if-Obeys u a.writes _ _
          (finish_backend-Run u c a.relayed_clean a.resets (wrote c ∷ log) (then_ r on_write))
          (then_ r on_discard))
        (if-Obeys u a.writes _ _
          (settle-Obeys u a (now_pinned text parse pinned full) c a.response (wrote c ∷ log)
            (then_ r on_write))
          (then_ r on_discard))

  on_acquired-Obeys :
      (a : Answers) (pinned : Bool) (kind : ℕ) (full : List ℕ) (acquired : Option ℕ)
      → Obeys free (on_acquired text parse a pinned kind full acquired)
  on_acquired-Obeys a pinned kind full none = start
  on_acquired-Obeys a pinned kind full (some c) =
      on_message-Obeys free a pinned kind full c (took c ∷ []) (then_ start on_take)

  with_held-Obeys :
      (a : Answers) (pinned : Bool) (kind : ℕ) (full : List ℕ) (held : Option ℕ)
      → Obeys (use_of held) (with_held text parse a pinned kind full held)
  with_held-Obeys a pinned kind full none = on_acquired-Obeys a pinned kind full a.acquired
  with_held-Obeys a pinned kind full (some c) =
      on_message-Obeys (in_use c) a pinned kind full c [] start

  on_read-Obeys :
      (st : Pooling) (a : Answers) (message : Option (ℕ × List ℕ))
      → Obeys (use_of st.held) (on_read text parse st a message)
  on_read-Obeys st a none = finish_held-Run st.held false a.resets
  on_read-Obeys st a (some (kind, full)) =
      if-Obeys (use_of st.held) (nat_beq kind b'X') _ _ (finish_held-Run st.held true a.resets)
        (with_held-Obeys a st.pinned kind full st.held)

  then_run-Obeys :
      (u : Use) (t : Turn) (log : List Effect) (rest : Pooling → List Effect → Turn)
      → Run free log u
      → Obeys u t
      → ((st : Pooling) (log : List Effect)
          → Run free log (use_of st.held)
          → Obeys free (rest st log))
      → Obeys free (then_run text parse t log rest)
  then_run-Obeys u (next st l) log rest r k ih = ih st (l ++ log) (Run-append free _ _ log l r k)
  then_run-Obeys u (ended x l) log rest r k ih = Run-append free _ _ log l r k

  serve_rounds-Obeys :
      (answers : List Answers) (st : Pooling) (log : List Effect)
      → Run free log (use_of st.held)
      → Obeys free (serve_rounds text parse answers st log)
  unfolding serve_rounds turn
  serve_rounds-Obeys [] st log r = r
  serve_rounds-Obeys (a ∷ rest) st log r =
      then_run-Obeys (use_of st.held) (turn text parse st a) log (serve_rounds text parse rest) r
        (on_read-Obeys st a a.message) (serve_rounds-Obeys rest)

  -- Whatever the client, the pool and the backends answer, a session in transaction mode keeps to the
  -- protocol: it holds at most one connection, uses only the one that it holds, returns it only after
  -- a Reset or a DISCARD ALL that succeeded and came after all that its client has sent, and in the
  -- end has returned or discarded each.
  pub serve_transaction-Obeys :
      (answers : List Answers) (initial : ℕ)
      → Obeys free (serve_transaction text parse answers initial)
  unfolding serve_transaction
  serve_transaction-Obeys answers initial =
      serve_rounds-Obeys answers (record { held = some initial; pinned = false })
        (took initial ∷ []) (then_ start on_take)
