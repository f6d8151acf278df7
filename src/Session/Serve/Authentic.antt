-- ===== src/Session/Serve/Authentic.antt =====
-- serve of internal/proxy/session.go: who reaches a backend, and what becomes of the connection that
-- the startup acquires.
use pgpilot.Base.{
  ℕ, ◌≡◌, ◌⊎◌, inl, inr, refl, String, Bool, true, false, List, [], ◌∷◌, Option, none, some, drop,
  if◌then◌else◌, ◌==◌, string_eq,
}
use pgpilot.Base.Result.{Result, failure, success}
use pgpilot.Config.{User, user_in}
use pgpilot.Scram.{Primitives}
use pgpilot.Sql.Tree.{Node}
use pgpilot.Session.Frontend.{StartupPacket, is_cancel_request}
use pgpilot.Session.Transaction.{took, released, finish_backend, serve_transaction}
use pgpilot.Session.Transaction.Refines.{
  Run, start, then_, free, on_take, on_discard, Obeys, finish_backend-Run, serve_transaction-Obeys,
}
use pgpilot.Session.Auth.{SessionError, ClientConn, authenticate_client, complete_startup}
use pgpilot.Session.Auth.Proven.{IsAuthentic, authenticate_client-IsAuthentic}
use pgpilot.Session.Serve.{
  Mode, transaction, session, Setting, Env, cancelled, failed, routing, finished, pooled, Outcome,
  user_of, begin, on_completed, on_acquired, on_authenticated, on_user, on_params, on_packet, serve,
}

-- What an outcome leaves of the pool's connections.
abbrev pub Handled : Outcome → Type 0
Handled (client, cancelled, log) = log ≡ []
Handled (client, failed e, log) = Run free log free
Handled (client, routing, log) = (c : ℕ) × (log ≡ released c ∷ (took c ∷ []))
Handled (client, finished, log) = Run free log free
Handled (client, pooled t, log) = (log ≡ []) × Obeys free t

-- The pool has not been touched.
abbrev pub Untouched : Outcome → Type 0
Untouched (client, cancelled, log) = log ≡ []
Untouched (client, failed e, log) = log ≡ []
Untouched (client, routing, log) = ⊥
Untouched (client, finished, log) = ⊥
Untouched (client, pooled t, log) = ⊥

if-Handled : (b : Bool) (o o' : Outcome) → Handled o → Handled o' → Handled (if b then o else o')
if-Handled true o o' h k = h
if-Handled false o o' h k = k

module _ (p : Primitives) (text : List ℕ → String) (parse : String → Option (List Node)) where
  begin-Handled :
      (cfg : Setting) (env : Env) (client : ClientConn) (c : ℕ)
      → Handled (begin p text parse cfg env client c)
  unfolding begin
  begin-Handled cfg env client c = if-Handled cfg.routes _ _ (c, refl) (by_mode cfg.mode)
    where
      by_mode :
          (m : Mode)
          → Handled (elim m [
            | transaction ↦ (client, pooled (serve_transaction text parse env.rounds c), [])
            | session ↦
                (client, finished, finish_backend c env.relayed_clean env.resets (took c ∷ []))
          ])
      by_mode transaction = (refl, serve_transaction-Obeys text parse env.rounds c)
      by_mode session =
          finish_backend-Run free c env.relayed_clean env.resets (took c ∷ []) (then_ start on_take)

  on_completed-Handled :
      (cfg : Setting) (env : Env) (c : ℕ) (r : ClientConn × Result SessionError (Unit {0}))
      → Handled (on_completed p text parse cfg env c r)
  on_completed-Handled cfg env c (client, failure e) = then_ (then_ start on_take) on_discard
  on_completed-Handled cfg env c (client, success u) = begin-Handled cfg env client c

  on_acquired-Handled :
      (cfg : Setting) (env : Env) (client : ClientConn) (o : Option ℕ)
      → Handled (on_acquired p text parse cfg env client o)
  on_acquired-Handled cfg env client none = start
  on_acquired-Handled cfg env client (some c) =
      on_completed-Handled cfg env c (complete_startup env.key_data env.params client)

  on_authenticated-Handled :
      (cfg : Setting) (env : Env) (params : List (String × String))
      (r : ClientConn × Result SessionError (Unit {0}))
      → Handled (on_authenticated p text parse cfg env params r)
  on_authenticated-Handled cfg env params (client, failure e) = start
  on_authenticated-Handled cfg env params (client, success u) = on_acquired-Handled cfg env client _

  on_user-Handled :
      (cfg : Setting) (env : Env) (params : List (String × String)) (client : ClientConn)
      (o : Option User)
      → Handled (on_user p text parse cfg env params client o)
  on_user-Handled cfg env params client none = start
  on_user-Handled cfg env params client (some u) =
      on_authenticated-Handled cfg env params
        (authenticate_client p env.draws (env.bytes_of u.password) client)

  on_params-Handled :
      (cfg : Setting) (env : Env) (client : ClientConn) (o : Option (List (String × String)))
      → Handled (on_params p text parse cfg env client o)
  on_params-Handled cfg env client none = start
  on_params-Handled cfg env client (some params) =
      if-Handled (user_of params == "") _ _ start
        (on_user-Handled cfg env params client (user_in cfg.users (user_of params)))

  on_packet-Handled :
      (cfg : Setting) (env : Env) (client : ClientConn) (o : Option StartupPacket)
      → Handled (on_packet p text parse cfg env client o)
  on_packet-Handled cfg env client none = start
  on_packet-Handled cfg env client (some pkt) =
      if-Handled (is_cancel_request pkt) _ _ refl
        (on_params-Handled cfg env client (env.decode (drop 4 pkt.raw)))

  -- However a session begins and ends, in session or transaction mode the connection that it acquires
  -- is discarded, or returned after a Reset or a DISCARD ALL that succeeded; in routing mode the one
  -- of the startup, which the client has not used, is returned at once; and one whose startup the
  -- client does not complete is discarded.
  pub serve-Handled :
      (cfg : Setting) (env : Env) (client : ClientConn)
      → Handled (serve p text parse cfg env client)
  unfolding serve
  serve-Handled cfg env client = on_packet-Handled cfg env client env.negotiated

  -- A configured user whose password the client has proved.
  abbrev pub Authentic : Setting → Env → ClientConn → Type 0
  Authentic cfg env client =
      (name : String) × (u : User) × (client' : ClientConn) × (user_in cfg.users name ≡ some u)
      × IsAuthentic p (env.bytes_of u.password) client client'

  on_authenticated-Authentic :
      (cfg : Setting) (env : Env) (params : List (String × String)) (client : ClientConn)
      (name : String) (u : User) (r : ClientConn × Result SessionError (Unit {0}))
      → user_in cfg.users name ≡ some u
      → authenticate_client p env.draws (env.bytes_of u.password) client ≡ r
      → Untouched (on_authenticated p text parse cfg env params r) ⊎ Authentic cfg env client
  on_authenticated-Authentic cfg env params client name u (client', failure e) known h = inl refl
  on_authenticated-Authentic cfg env params client name u (client', success tt) known h = inr (
    name,
    u,
    client',
    known,
    authenticate_client-IsAuthentic p env.draws (env.bytes_of u.password) client client' h,
  )

  on_user-Authentic :
      (cfg : Setting) (env : Env) (params : List (String × String)) (client : ClientConn)
      (name : String) (o : Option User)
      → user_in cfg.users name ≡ o
      → Untouched (on_user p text parse cfg env params client o) ⊎ Authentic cfg env client
  on_user-Authentic cfg env params client name none known = inl refl
  on_user-Authentic cfg env params client name (some u) known =
      on_authenticated-Authentic cfg env params client name u _ known refl

  if-Authentic :
      (P : Type 0) (b : Bool) (o o' : Outcome)
      → Untouched o
      → Untouched o' ⊎ P
      → Untouched (if b then o else o') ⊎ P
  if-Authentic P true o o' h k = inl h
  if-Authentic P false o o' h k = k

  on_params-Authentic :
      (cfg : Setting) (env : Env) (client : ClientConn) (o : Option (List (String × String)))
      → Untouched (on_params p text parse cfg env client o) ⊎ Authentic cfg env client
  on_params-Authentic cfg env client none = inl refl
  on_params-Authentic cfg env client (some params) =
      if-Authentic _ (user_of params == "") _ _ refl
        (on_user-Authentic cfg env params client (user_of params) _ refl)

  on_packet-Authentic :
      (cfg : Setting) (env : Env) (client : ClientConn) (o : Option StartupPacket)
      → Untouched (on_packet p text parse cfg env client o) ⊎ Authentic cfg env client
  on_packet-Authentic cfg env client none = inl refl
  on_packet-Authentic cfg env client (some pkt) =
      if-Authentic _ (is_cancel_request pkt) _ _ refl
        (on_params-Authentic cfg env client (env.decode (drop 4 pkt.raw)))

  -- No session touches a pool before its client has proved the password of a configured user.
  pub serve-Authentic :
      (cfg : Setting) (env : Env) (client : ClientConn)
      → Untouched (serve p text parse cfg env client) ⊎ Authentic cfg env client
  unfolding serve
  serve-Authentic cfg env client = on_packet-Authentic cfg env client env.negotiated
