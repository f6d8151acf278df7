-- ===== src/Backend/Conn.antt =====
-- internal/backend/backend.go: a connection to a PostgreSQL server, its handshake and its simple
-- queries. The messages are those of pgproto3 that the source distinguishes; the server is the list
-- of messages that Receive still gives, and at its end Receive fails. Deadlines are not modelled: one
-- that passes is an end of that list, or of the flushes that succeed. Each call has a Frontend of its
-- own, which may have read messages ahead of those that it was asked for; they are lost when the call
-- returns, and `ahead` is how many there are. A read that ends inside a message is left out; and a
-- server is taken to send nothing between the ReadyForQuery of the handshake and the first query.
pub mod Handshake
pub mod Queries
pub mod Reset
pub mod Rows
pub mod Trust
use pgpilot.Base.{
  ℕ, zero, suc, String, Bool, true, false, List, [], ◌∷◌, ◌++◌, Option, none, some, if◌then◌else◌,
  map, contains, string_eq, drop,
}
use pgpilot.Base.Dict.{insert}
use pgpilot.Base.Result.{Result, failure, success, or_else, ◌>>=◌}
use pgpilot.Scram.{Bytes, Primitives, ScramError}
use pgpilot.Scram.Client.{
  Client, new_client, first_message, handle_server_first, handle_server_final,
}

-- What the server sends; `other_message` is any kind that the source does not name.
pub data BackendMessage : Type 0 where
  authentication_sasl : List String → BackendMessage
  authentication_sasl_continue authentication_sasl_final : Bytes → BackendMessage
  authentication_ok : BackendMessage
  parameter_status : String → String → BackendMessage
  backend_key_data : ℕ → ℕ → BackendMessage
  ready_for_query : ℕ → BackendMessage
  error_response : String → String → BackendMessage
  notice_response : BackendMessage
  data_row : List (Option String) → BackendMessage
  other_message : ℕ → BackendMessage

-- What is sent to it.
pub data FrontendMessage : Type 0 where
  startup_message : String → String → FrontendMessage
  sasl_initial_response sasl_response : Bytes → FrontendMessage
  query : String → FrontendMessage

pub data ConnError : Type 0 where
  dial_failed flush_failed receive_failed unsupported_mechanisms no_nonce : ConnError
  unexpected_continue unexpected_final unexpected_message : ConnError
  scram_failed : ScramError → ConnError
  server_rejected : String → String → ConnError

-- The connection: what the server has still to send, what was sent to it and how many flushes will
-- succeed; the parameters that it reported, its process and its secret key.
pub record Conn : Type 0 where
  pub incoming : List BackendMessage
  pub outgoing : List FrontendMessage
  pub flushes : ℕ
  pub params : List (String × String)
  pub pid : ℕ
  pub key : ℕ

abbrev pub scram_mechanism : String
scram_mechanism = "SCRAM-SHA-256"

abbrev pub flush_with : Conn → FrontendMessage → ℕ → Result ConnError Conn
flush_with c m zero = failure flush_failed
flush_with c m (suc left) = success (record c { outgoing = c.outgoing ++ (m ∷ []); flushes = left })

-- Send and Flush.
unfoldable pub send : FrontendMessage → Conn → Result ConnError Conn
send m c = flush_with c m c.flushes

-- The local variables of `authenticate`: the connection, the SCRAM client once there is one, and
-- the random bytes that rand.Read will give, one entry for each nonce.
pub record Progress : Type 0 where
  pub conn : Conn
  pub sc : Option Client
  pub draws : List Bytes

abbrev pub from_scram : {A : Type 0} → Result ScramError A → Result ConnError A
from_scram (failure e) = failure (scram_failed e)
from_scram (success a) = success a

-- What a message does to the handshake: it goes on, or ends at ReadyForQuery.
pub data Turn : Type 0 where
  more : Progress → Turn
  ready : Conn → Turn

module _ (p : Primitives) (password : Bytes) where
  abbrev pub drawn : List Bytes → Progress → Result ConnError Turn
  drawn [] t = failure no_nonce
  drawn (random ∷ draws) t = do
    let (sc, first) = first_message p (new_client p password random)
    conn ← send (sasl_initial_response first) t.conn
    success (more (record { conn = conn; sc = some sc; draws = draws }))

  abbrev pub continued : Option Client → Bytes → Progress → Result ConnError Turn
  continued none payload t = failure unexpected_continue
  continued (some sc) payload t = do
    (sc', final) ← from_scram (handle_server_first p sc payload)
    conn ← send (sasl_response final) t.conn
    success (more (record t { conn = conn; sc = some sc' }))

  abbrev pub finished : Option Client → Bytes → Progress → Result ConnError Turn
  finished none payload t = failure unexpected_final
  finished (some sc) payload t = do
    _ ← from_scram (handle_server_final p sc payload)
    success (more t)

  -- One round of the loop, on the message that Receive gave.
  unfoldable pub on_message : BackendMessage → Progress → Result ConnError Turn
  on_message (authentication_sasl mechanisms) t =
      if contains mechanisms scram_mechanism
      then drawn t.draws t
      else failure unsupported_mechanisms
  on_message (authentication_sasl_continue payload) t = continued t.sc payload t
  on_message (authentication_sasl_final payload) t = finished t.sc payload t
  on_message authentication_ok t = success (more t)
  on_message (parameter_status name value) t =
      success
        (more (record t { conn = record t.conn { params = insert name value t.conn.params } }))
  on_message (backend_key_data pid key) t =
      success (more (record t { conn = record t.conn { pid = pid; key = key } }))
  on_message (ready_for_query status) t = success (ready t.conn)
  on_message (error_response code message) t = failure (server_rejected code message)
  on_message notice_response t = success (more t)
  on_message (data_row values) t = failure unexpected_message
  on_message (other_message kind) t = failure unexpected_message

  -- The rest of the loop after a turn; the messages not yet received stay.
  abbrev pub continue_with :
      Result ConnError Turn
      → List BackendMessage
      → (Progress → Result ConnError Conn)
      → Result ConnError Conn
  continue_with (failure e) rest loop = failure e
  continue_with (success (more t)) rest loop = loop t
  continue_with (success (ready c)) rest loop = success (record c { incoming = rest })

  unfoldable pub authenticate_loop : List BackendMessage → Progress → Result ConnError Conn
  authenticate_loop [] t = failure receive_failed
  authenticate_loop (m ∷ rest) t = continue_with (on_message m t) rest (authenticate_loop rest)

  unfoldable pub authenticate : List Bytes → String → String → Conn → Result ConnError Conn
  authenticate draws user database c = do
    conn ← send (startup_message user database) c
    authenticate_loop c.incoming (record { conn = conn; sc = none; draws = draws })

-- A connection as DialContext opens it, on a server that will send `incoming`.
abbrev pub opened : List BackendMessage → ℕ → Conn
opened incoming flushes = record {
  incoming = incoming;
  outgoing = [];
  flushes = flushes;
  params = [];
  pid = 0;
  key = 0;
}

-- The outcome, and whether the raw connection was closed.
abbrev pub dialed : Result ConnError Conn → Result ConnError Conn × Bool
dialed (failure e) = (failure e, true)
dialed (success c) = (success c, false)

unfoldable pub dial :
    Primitives → List Bytes → String → Bytes → String → Option Conn → Result ConnError Conn × Bool
dial p draws user password database none = (failure dial_failed, false)
dial p draws user password database (some c) =
    dialed (authenticate p password draws user database c)

-- The connection after a query, and its result.
abbrev pub Ran : Type 0 → Type 0
Ran A = Conn × Result ConnError A

-- The messages that runSimple leaves unread.
unfoldable pub simple_loop : List BackendMessage → List BackendMessage × Result ConnError (Unit {0})
simple_loop [] = ([], failure receive_failed)
simple_loop (ready_for_query status ∷ rest) = (rest, success tt)
simple_loop (error_response code message ∷ rest) = (rest, failure (server_rejected code message))
simple_loop (_ ∷ rest) = simple_loop rest

abbrev pub received : {A : Type 0} → Conn → List BackendMessage × Result ConnError A → Ran A
received c (rest, result) = (record c { incoming = rest }, result)

abbrev pub run_sent :
    {A : Type 0}
    → Conn
    → Result ConnError Conn
    → (List BackendMessage → List BackendMessage × Result ConnError A)
    → Ran A
run_sent c (failure e) loop = (c, failure e)
run_sent c (success sent) loop = received sent (loop sent.incoming)

unfoldable pub run_simple : String → Conn → Ran (Unit {0})
run_simple sql c = run_sent c (send (query sql) c) simple_loop

abbrev pub and_then : Ran (Unit {0}) → (Conn → Ran (Unit {0})) → Ran (Unit {0})
and_then (c, failure e) next = (c, failure e)
and_then (c, success u) next = next c

-- The return of a call: what its Frontend has read ahead is gone.
unfoldable pub returning : {A : Type 0} → ℕ → Ran A → Ran A
returning ahead (c, result) = (record c { incoming = drop ahead c.incoming }, result)

unfoldable pub reset : ℕ → Conn → Ran (Unit {0})
unfolding returning
reset ahead c = returning ahead (and_then (run_simple "ROLLBACK" c) (run_simple "DISCARD ALL"))

unfoldable pub discard_all : ℕ → Conn → Ran (Unit {0})
unfolding returning
discard_all ahead c = returning ahead (run_simple "DISCARD ALL" c)

unfoldable pub ping : ℕ → Conn → Ran (Unit {0})
unfolding returning
ping ahead c = returning ahead (run_simple ";" c)

-- A NULL is the empty string.
abbrev pub column : Option String → String
column none = ""
column (some v) = v

-- `if row == nil`
abbrev pub first_row : Option (List String) → List (Option String) → Option (List String)
first_row none values = some (map column values)
first_row (some row) values = some row

-- The first row so far.
unfoldable pub row_loop :
    Option (List String)
    → List BackendMessage
    → List BackendMessage × Result ConnError (Option (List String))
row_loop row [] = ([], failure receive_failed)
row_loop row (data_row values ∷ rest) = row_loop (first_row row values) rest
row_loop row (ready_for_query status ∷ rest) = (rest, success row)
row_loop row (error_response code message ∷ rest) = (rest, failure (server_rejected code message))
row_loop row (_ ∷ rest) = row_loop row rest

unfoldable pub query_row : ℕ → String → Conn → Ran (Option (List String))
unfolding returning
query_row ahead sql c = returning ahead (run_sent c (send (query sql) c) (row_loop none))
