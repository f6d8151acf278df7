-- ===== src/Protocol/TxStatus.antt =====
-- internal/protocol/txstatus.go: the transaction status of ReadyForQuery and its tracker. A status
-- is a byte, as in the source; the mutex of the tracker makes each call one step.
use pgpilot.Base.{
  ℕ, Bool, true, false, ◌&&◌, ◌||◌, not, if◌then◌else◌, nat_beq, List, [], ◌∷◌, Option, none, some,
}

abbrev pub TxStatus : Type 0
TxStatus = ℕ

abbrev pub status_idle : TxStatus
status_idle = b'I'

abbrev pub status_in_tx : TxStatus
status_in_tx = b'T'

abbrev pub status_in_failed_tx : TxStatus
status_in_failed_tx = b'E'

unfoldable pub valid : TxStatus → Bool
valid s = nat_beq s status_idle || nat_beq s status_in_tx || nat_beq s status_in_failed_tx

unfoldable pub in_transaction : TxStatus → Bool
in_transaction s = nat_beq s status_in_tx || nat_beq s status_in_failed_tx

pub record TxTracker : Type 0 where
  pub status : TxStatus
  pub seen : Bool

-- `&protocol.TxTracker{}`, the zero value.
unfoldable pub new_tracker : TxTracker
new_tracker = record { status = 0; seen = false }

unfoldable pub update : TxTracker → TxStatus → TxTracker × Bool
update t s = (record { status = s; seen = true }, not t.seen || not (nat_beq t.status s))

unfoldable pub tracker_status : TxTracker → TxStatus × Bool
tracker_status t = (t.status, t.seen)

unfoldable pub tracker_in_transaction : TxTracker → Bool
unfolding in_transaction
tracker_in_transaction t = t.seen && in_transaction t.status

-- ParseReadyForQuery of message.go: the body is one valid indicator byte.
unfoldable pub parse_ready_for_query : List ℕ → Option TxStatus
unfolding valid
parse_ready_for_query [] = none
parse_ready_for_query (s ∷ []) = if valid s then some s else none
parse_ready_for_query (s ∷ _ ∷ _) = none

-- trackBackend of session.go: each ReadyForQuery that parses is recorded, all else ignored.
unfoldable pub track_backend : TxTracker → ℕ → List ℕ → TxTracker
unfolding parse_ready_for_query update
track_backend t kind body =
    if nat_beq kind b'Z'
    then elim (parse_ready_for_query body) [ none ↦ t | some s ↦ (update t s).0 ]
    else t
