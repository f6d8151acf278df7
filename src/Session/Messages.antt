-- ===== src/Session/Messages.antt =====
-- internal/proxy/session.go: the streams of a session. readMessage, relayFrontend, relayResponse,
-- queryString; and readStartupPacket of internal/proxy/startup.go with negotiateStartup.
pub mod Whole
pub mod Response
use pgpilot.Base.{
  ℕ, zero, suc, ◌+◌, ◌-◌, ◌*◌, ◌^◌, ◌||◌, Bool, true, false, List, [], ◌∷◌, ◌++◌, Option, none,
  some, length, take, drop, if◌then◌else◌, leb, ltb, nat_beq,
}
use pgpilot.Protocol.TxStatus.{TxStatus}
use pgpilot.Protocol.Wire.{
  IoError, eof, unexpected_eof, net_closed, deadline_exceeded, other, Error, io, write_failed,
  bad_length, empty_ready, too_long, rejected, Wire, Out, ok, err, Io, ◌>>=◌, ◌>>◌, bind_out, pure,
  fail, read_full, write, copy_n, be_uint32,
}
use pgpilot.Protocol.Message.{header_kind, header_length}

-- 64 << 20
abbrev pub max_buffered_message : ℕ
max_buffered_message = 64 * 2 ^ 20

unfoldable pub read_body : {S : Type 0} → List ℕ → Io S (ℕ × List ℕ)
read_body header = do
  body ← read_full (header_length header - 4)
  pure (header_kind header, header ++ body)

-- readMessage: the type byte and the whole message, header included.
unfoldable pub read_message : {S : Type 0} → Io S (ℕ × List ℕ)
unfolding read_body
read_message = do
  header ← read_full 5
  (if ltb (header_length header) 4
      then fail (bad_length (header_length header))
      else if ltb max_buffered_message (header_length header - 4)
      then fail (too_long (header_length header - 4))
      else read_body header)

-- queryString: the text between the header and the last byte.
unfoldable pub query_string : List ℕ → List ℕ
query_string full = if ltb (length full) 6 then [] else take (length full - 1 - 5) (drop 5 full)

-- relayResponse, after a header has been read: `some` status at the end of a ReadyForQuery.
unfoldable pub finish_ready : {S : Type 0} → ℕ → Io S (List ℕ)
finish_ready n = do
  status ← read_full 1
  write status
  (if ltb 1 n then copy_n (n - 1) else pure tt)
  pure status

abbrev pub status_byte : List ℕ → TxStatus
status_byte [] = 0
status_byte (s ∷ _) = s

unfoldable pub relay_ready : {S : Type 0} → ℕ → Io S (Option TxStatus)
unfolding finish_ready
relay_ready n =
    if ltb n 1 then fail empty_ready else finish_ready n >>= λ s. pure (some (status_byte s))

unfoldable pub relay_other : {S : Type 0} → ℕ → Io S (Option TxStatus)
relay_other n = do copy_n n; pure none

unfoldable pub relay_one : {S : Type 0} → List ℕ → Io S (Option TxStatus)
unfolding relay_ready relay_other
relay_one header =
    if ltb (header_length header) 4 then fail (bad_length (header_length header)) else do
      write header
      (if nat_beq (header_kind header) b'Z'
          then relay_ready (header_length header - 4)
          else relay_other (header_length header - 4))

abbrev pub continue_unless :
    {S : Type 0}
    → Out S (Option TxStatus)
    → (Wire S → Option (Out S TxStatus))
    → Option (Out S TxStatus)
continue_unless (ok (some s) w) k = some (ok s w)
continue_unless (ok none w) k = k w
continue_unless (err e w) k = some (err e w)

-- The loop of relayResponse; `none` is a run out of fuel.
unfoldable pub response_loop : {S : Type 0} → ℕ → Wire S → Option (Out S TxStatus)
response_loop zero w = none
response_loop (suc n) w = continue_unless ((read_full 5 >>= relay_one) w) (response_loop n)

unfoldable pub relay_response : {S : Type 0} → Wire S → Option (Out S TxStatus)
unfolding response_loop
relay_response w = response_loop (suc (length w.input)) w
