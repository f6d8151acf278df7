-- ===== src/Session/Serve.antt =====
-- internal/proxy/session.go: serve, from the startup packet to the mode of the session. What the
-- other parts answer is an argument: the negotiation, the decoder of pgproto3, the random bytes,
-- Acquire, the connection's parameters, relayPooled, Reset, and the rounds of transaction mode.
pub mod Authentic
use pgpilot.Base.{
  ℕ, String, Bool, true, false, List, [], ◌∷◌, ◌++◌, Option, none, some, drop, if◌then◌else◌, ◌&&◌,
  not, ◌==◌, string_eq,
}
use pgpilot.Base.Dict.{lookup}
use pgpilot.Base.Result.{Result, failure, success}
use pgpilot.Config.{User, user_in}
use pgpilot.Scram.{Bytes, Primitives}
use pgpilot.Sql.Tree.{Node}
use pgpilot.Session.Frontend.{StartupPacket, is_cancel_request}
use pgpilot.Session.Transaction.{
  Effect, took, discarded, released, Answers, Turn, next, ended, finish_backend, serve_transaction,
}
use pgpilot.Session.Auth.{
  SessionError, negotiation_failed, rejected, ClientConn, reject, authenticate_client,
  complete_startup,
}

pub data Mode : Type 0 where
  transaction session : Mode

-- The part of the configuration that serve reads; `routes` is whether there is a registry and a
-- replica.
pub record Setting : Type 0 where
  pub users : List User
  pub mode : Mode
  pub routes : Bool

pub record Env : Type 0 where
  pub negotiated : Option StartupPacket
  pub decode : List ℕ → Option (List (String × String))
  pub bytes_of : String → Bytes
  pub draws : Option (Bytes × Bytes)
  pub acquired : String → String → Option ℕ
  pub params : List (String × String)
  pub key_data : Option (ℕ × ℕ)
  pub relayed_clean : Bool
  pub resets : Bool
  pub rounds : List Answers

-- How the session goes on or ends: a cancel request is ignored; a routing session begins.
pub data Served : Type 0 where
  cancelled : Served
  failed : SessionError → Served
  routing : Served
  finished : Served
  pooled : Turn → Served

-- The client's connection, the outcome and the effects on the pool before it, the latest first. The
-- effects of transaction mode are those of its turn.
abbrev pub Outcome : Type 0
Outcome = ClientConn × Served × List Effect

-- A missing key of a map is the empty string.
abbrev pub value_of : Option String → String
value_of none = ""
value_of (some v) = v

abbrev pub user_of : List (String × String) → String
user_of params = value_of (lookup "user" params)

-- The database is named like the user if it is not given.
unfoldable pub database_of : List (String × String) → String
database_of params =
    let given = value_of (lookup "database" params) in if given == "" then user_of params else given

abbrev pub rejection : String → String → ClientConn → List Effect → Outcome
rejection code message client log =
    let (c, _) = reject {A = Unit {0}} code message client in (c, failed (rejected code), log)

module _ (p : Primitives) (text : List ℕ → String) (parse : String → Option (List Node)) where
  -- The mode of the session, with the connection of the startup.
  unfoldable pub begin : Setting → Env → ClientConn → ℕ → Outcome
  begin cfg env client c =
      if cfg.routes then (client, routing, released c ∷ (took c ∷ [])) else elim cfg.mode [
        | transaction ↦ (client, pooled (serve_transaction text parse env.rounds c), [])
        | session ↦ (client, finished, finish_backend c env.relayed_clean env.resets (took c ∷ []))
      ]

  abbrev pub on_completed :
      Setting → Env → ℕ → ClientConn × Result SessionError (Unit {0}) → Outcome
  on_completed cfg env c (client, failure e) = (client, failed e, discarded c ∷ (took c ∷ []))
  on_completed cfg env c (client, success u) = begin cfg env client c

  abbrev pub on_acquired : Setting → Env → ClientConn → Option ℕ → Outcome
  on_acquired cfg env client none =
      rejection "53300" "could not acquire a backend connection" client []
  on_acquired cfg env client (some c) =
      on_completed cfg env c (complete_startup env.key_data env.params client)

  abbrev pub on_authenticated :
      Setting → Env → List (String × String) → ClientConn × Result SessionError (Unit {0}) → Outcome
  on_authenticated cfg env params (client, failure e) = (client, failed e, [])
  on_authenticated cfg env params (client, success u) =
      on_acquired cfg env client (env.acquired (user_of params) (database_of params))

  abbrev pub on_user : Setting → Env → List (String × String) → ClientConn → Option User → Outcome
  on_user cfg env params client none = rejection "28P01" "password authentication failed" client []
  on_user cfg env params client (some u) =
      on_authenticated cfg env params
        (authenticate_client p env.draws (env.bytes_of u.password) client)

  abbrev pub on_params : Setting → Env → ClientConn → Option (List (String × String)) → Outcome
  on_params cfg env client none = rejection "08P01" "invalid startup packet" client []
  on_params cfg env client (some params) =
      if user_of params == ""
      then rejection "08P01" "startup packet has no user" client []
      else on_user cfg env params client (user_in cfg.users (user_of params))

  abbrev pub on_packet : Setting → Env → ClientConn → Option StartupPacket → Outcome
  on_packet cfg env client none = (client, failed negotiation_failed, [])
  on_packet cfg env client (some pkt) =
      if is_cancel_request pkt
      then (client, cancelled, [])
      else on_params cfg env client (env.decode (drop 4 pkt.raw))

  unfoldable pub serve : Setting → Env → ClientConn → Outcome
  serve cfg env client = on_packet cfg env client env.negotiated
