-- ===== src/Session/Auth.antt =====
-- internal/proxy/session.go: reject, authenticateClient and completeStartup on the connection of a
-- client. The client is the list of messages that Receive still gives, as pgproto3 reads them after
-- SetAuthType; what is sent counts once a flush succeeds.
pub mod Proven
use pgpilot.Base.{
  ℕ, zero, suc, String, Bool, true, false, List, [], ◌∷◌, ◌++◌, Option, none, some, if◌then◌else◌,
  map, ◌==◌, string_eq,
}
use pgpilot.Base.Result.{Result, failure, success}
use pgpilot.Protocol.TxStatus.{TxStatus, status_idle}
use pgpilot.Scram.{Bytes, Primitives, ScramError}
use pgpilot.Scram.Server.{Server, new_server, handle_client_first, handle_client_final}
use pgpilot.Backend.Conn.{scram_mechanism}

pub data ClientMessage : Type 0 where
  sasl_initial_response : String → Bytes → ClientMessage
  sasl_response : Bytes → ClientMessage
  other_message : ℕ → ClientMessage

pub data ServerMessage : Type 0 where
  authentication_sasl : List String → ServerMessage
  authentication_sasl_continue authentication_sasl_final : Bytes → ServerMessage
  authentication_ok : ServerMessage
  parameter_status : String → String → ServerMessage
  backend_key_data : ℕ → ℕ → ServerMessage
  ready_for_query : TxStatus → ServerMessage
  error_response : String → String → ServerMessage

-- The last is the error of `reject`, with its code.
pub data SessionError : Type 0 where
  flush_failed no_randomness receive_failed expected_initial expected_response : SessionError
  negotiation_failed : SessionError
  rejected : String → SessionError

pub record ClientConn : Type 0 where
  pub replies : List ClientMessage
  pub sent : List ServerMessage
  pub flushes : ℕ

abbrev pub Io : Type 0 → Type 0
Io A = ClientConn → ClientConn × Result SessionError A

abbrev pub bind_io :
    {A B : Type 0}
    → ClientConn × Result SessionError A
    → (A → Io B)
    → ClientConn × Result SessionError B
bind_io (c, failure e) f = (c, failure e)
bind_io (c, success a) f = f a c

infixl 5 ◌>>=◌ ◌>>◌
abbrev pub ◌>>=◌ : {A B : Type 0} → Io A → (A → Io B) → Io B
◌>>=◌ m f c = bind_io (m c) f

abbrev pub ◌>>◌ : {B : Type 0} → Io (Unit {0}) → Io B → Io B
m >> k = m >>= λ _. k

abbrev pub pure : {A : Type 0} → A → Io A
pure a c = (c, success a)

abbrev pub fail : {A : Type 0} → SessionError → Io A
fail e c = (c, failure e)

abbrev pub flush_on : ℕ → List ServerMessage → Io (Unit {0})
flush_on zero ms c = (c, failure flush_failed)
flush_on (suc left) ms c = (record c { sent = c.sent ++ ms; flushes = left }, success tt)

-- Send of each message and Flush.
unfoldable pub flush : List ServerMessage → Io (Unit {0})
flush ms c = flush_on c.flushes ms c

abbrev pub receive_from : List ClientMessage → Io ClientMessage
receive_from [] c = (c, failure receive_failed)
receive_from (m ∷ ms) c = (record c { replies = ms }, success m)

unfoldable pub receive : Io ClientMessage
receive c = receive_from c.replies c

-- The client's connection after the FATAL error; a write that fails is ignored.
abbrev pub with_error : ℕ → String → String → ClientConn → ClientConn
with_error zero code message c = c
with_error (suc left) code message c = record c {
  sent = c.sent ++ (error_response code message ∷ []);
  flushes = left;
}

unfoldable pub reject : {A : Type 0} → String → String → Io A
reject code message c = (with_error c.flushes code message c, failure (rejected code))

abbrev pub initial_of : ClientMessage → Io (String × Bytes)
initial_of (sasl_initial_response mechanism payload) = pure (mechanism, payload)
initial_of (sasl_response payload) = fail expected_initial
initial_of (other_message kind) = fail expected_initial

abbrev pub response_of : ClientMessage → Io Bytes
response_of (sasl_response payload) = pure payload
response_of (sasl_initial_response mechanism payload) = fail expected_response
response_of (other_message kind) = fail expected_response

-- A result of the SCRAM server, or a rejection of the client.
abbrev pub or_reject : {A : Type 0} → String → Result ScramError A → Io A
or_reject message (failure e) = reject "28P01" message
or_reject message (success a) = pure a

abbrev pub drawn : {A : Type 0} → Option A → Io A
drawn none = fail no_randomness
drawn (some a) = pure a

abbrev pub check_mechanism : Bool → Io (Unit {0})
check_mechanism true = pure tt
check_mechanism false = reject "28P01" "unsupported SASL mechanism"

-- authenticateClient up to the client's first message: the random bytes of the nonce and of the salt,
-- and that message.
unfoldable pub challenge : Option (Bytes × Bytes) → Io (Bytes × Bytes × Bytes)
unfolding reject
challenge draws = do
  flush (authentication_sasl (scram_mechanism ∷ []) ∷ [])
  (random, salt) ← drawn draws
  msg ← receive
  (mechanism, initial) ← initial_of msg
  check_mechanism (mechanism == scram_mechanism)
  pure (random, salt, initial)

module _ (p : Primitives) where
  -- From the client's second message to its end.
  unfoldable pub verify : Server → Io (Unit {0})
  unfolding reject
  verify waiting = do
    reply ← receive
    response ← response_of reply
    server_final ←
        or_reject "password authentication failed" (handle_client_final p waiting response)
    flush (authentication_sasl_final server_final ∷ (authentication_ok ∷ []))

  unfoldable pub authenticate_client : Option (Bytes × Bytes) → Bytes → Io (Unit {0})
  unfolding reject
  authenticate_client draws password = do
    (random, salt, initial) ← challenge draws
    (waiting, server_first) ←
        or_reject "SCRAM negotiation failed"
          (handle_client_first p (new_server p password random salt) initial)
    flush (authentication_sasl_continue server_first ∷ [])
    verify waiting

abbrev pub status_of : String × String → ServerMessage
status_of (name, value) = parameter_status name value

-- The parameters in any order of the map, and a key that is made up.
unfoldable pub complete_startup : Option (ℕ × ℕ) → List (String × String) → Io (Unit {0})
complete_startup key_data params = do
  (pid, key) ← drawn key_data
  flush (map status_of params ++ (backend_key_data pid key ∷ (ready_for_query status_idle ∷ [])))
