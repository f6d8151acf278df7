-- ===== src/Backend/Conn/Handshake.antt =====
-- The handshake of internal/backend/backend.go: what a server must have sent when it succeeds, that
-- it succeeds with a server that knows the password, and with one that does not ask for it.
use pgpilot.Base.{
  ℕ, zero, suc, ◌≡◌, ◌⊎◌, inl, inr, refl, sym, ap, subst, ◌∙◌, String, List, [], ◌∷◌, ◌++◌, Option,
  none, some, if◌then◌else◌, ◌==◌, string_eq, contains, All, Bool-cases,
}
use pgpilot.Base.Dict.{lookup, lookup-insert}
use pgpilot.Base.Result.{Result, failure, success, >>=-eq-success}
use pgpilot.Scram.{Bytes, Primitives}
use pgpilot.Scram.Client.{Client, handle_server_first, handle_server_final}
use pgpilot.Backend.Conn.{
  BackendMessage, authentication_sasl, authentication_sasl_continue, authentication_sasl_final,
  authentication_ok, parameter_status, backend_key_data, ready_for_query, error_response,
  notice_response, data_row, other_message, FrontendMessage, startup_message, ConnError, Conn,
  scram_mechanism, send, from_scram, Progress, Turn, more, ready, on_message, authenticate_loop,
  authenticate, drawn, continued, finished, flush_with,
}

-- The messages of a handshake before its end.
abbrev pub IsHandshake : BackendMessage → Type 0
IsHandshake (ready_for_query status) = ⊥
IsHandshake (error_response code message) = ⊥
IsHandshake (data_row values) = ⊥
IsHandshake (other_message kind) = ⊥
IsHandshake _ = Unit

-- Those that ask for nothing.
abbrev pub IsSetting : BackendMessage → Type 0
IsSetting authentication_ok = Unit
IsSetting (parameter_status name value) = Unit
IsSetting (backend_key_data pid key) = Unit
IsSetting notice_response = Unit
IsSetting _ = ⊥

abbrev pub reported_by : String → BackendMessage → Option String → Option String
reported_by name (parameter_status held value) known = if held == name then some value else known
reported_by name _ known = known

-- The last value reported for a name, or else the one known before.
abbrev pub reported : String → List BackendMessage → Option String → Option String
reported name [] known = known
reported name (m ∷ rest) known = reported name rest (reported_by name m known)

-- The messages up to ReadyForQuery, and what the connection holds then.
pub record IsReady (incoming : List BackendMessage) (before after : Conn) : Type 0 where
  pub handshake : List BackendMessage
  pub status : ℕ
  pub allowed : All IsHandshake handshake
  pub splits : incoming ≡ handshake ++ (ready_for_query status ∷ after.incoming)
  pub parameters :
      (name : String)
      → lookup name after.params ≡ reported name handshake (lookup name before.params)

success_inj : {A : Type 0} {x y : A} → ◌≡◌ {A = Result ConnError A} (success x) (success y) → x ≡ y
success_inj h = cc h

flush_with-params :
    (c c' : Conn) (m : FrontendMessage) (n : ℕ)
    → flush_with c m n ≡ success c'
    → c'.params ≡ c.params
flush_with-params c c' m zero h = absurd (cc h)
flush_with-params c c' m (suc left) h = sym (ap (λ d. d.params) (success_inj h))

send-params : (m : FrontendMessage) (c c' : Conn) → send m c ≡ success c' → c'.params ≡ c.params
unfolding send
send-params m c c' h = flush_with-params c c' m c.flushes h

-- A turn that goes on is one on a message of the handshake, and leaves the parameters but for the
-- one that the message reports.
record IsTurn (m : BackendMessage) (before : Conn) (after : Progress) : Type 0 where
  expected : IsHandshake m
  settled :
      (name : String)
      → lookup name after.conn.params ≡ reported_by name m (lookup name before.params)

Follows : BackendMessage → Progress → Turn → Type 0
Follows m t (more t') = IsTurn m t.conn t'
Follows m t (ready c) = (c ≡ t.conn) × ((status : ℕ) × (m ≡ ready_for_query status))

-- A message of the handshake that leaves the parameters.
stays :
    (m : BackendMessage) (t t' : Progress)
    → IsHandshake m
    → ((name : String) (known : Option String) → reported_by name m known ≡ known)
    → t'.conn.params ≡ t.conn.params
    → IsTurn m t.conn t'
stays m t t' h r e = record {
  expected = h;
  settled = λ name. ap (lookup name) e ∙ sym (r name (lookup name t.conn.params));
}

turn-cases :
    (r : Result ConnError Turn)
    → ((e : ConnError) × (r ≡ failure e))
      ⊎ ((t : Progress) × (r ≡ success (more t)))
      ⊎ ((c : Conn) × (r ≡ success (ready c)))
turn-cases (failure e) = inl (e, refl)
turn-cases (success (more t)) = inr (inl (t, refl))
turn-cases (success (ready c)) = inr (inr (c, refl))

module _ (p : Primitives) (password : Bytes) where
  drawn-Follows :
      (mechanisms : List String) (draws : List Bytes) (t : Progress) (turn : Turn)
      → drawn p password draws t ≡ success turn
      → Follows (authentication_sasl mechanisms) t turn
  unfolding Follows
  drawn-Follows mechanisms [] t turn h = absurd (cc h)
  drawn-Follows mechanisms (random ∷ draws) t turn h =
      let (conn, sent, h₁) = >>=-eq-success (send _ t.conn) _ h in
      subst (Follows (authentication_sasl mechanisms) t) (success_inj h₁)
        (stays _ t _ tt (λ name known. refl) (send-params _ t.conn conn sent))

  continued-Follows :
      (sc : Option Client) (payload : Bytes) (t : Progress) (turn : Turn)
      → continued p password sc payload t ≡ success turn
      → Follows (authentication_sasl_continue payload) t turn
  unfolding Follows
  continued-Follows none payload t turn h = absurd (cc h)
  continued-Follows (some sc) payload t turn h =
      let ((sc', final), answered, h₁) =
        >>=-eq-success (from_scram (handle_server_first p sc payload)) _ h in
      let (conn, sent, h₂) = >>=-eq-success (send _ t.conn) _ h₁ in
      subst (Follows (authentication_sasl_continue payload) t) (success_inj h₂)
        (stays _ t _ tt (λ name known. refl) (send-params _ t.conn conn sent))

  finished-Follows :
      (sc : Option Client) (payload : Bytes) (t : Progress) (turn : Turn)
      → finished p password sc payload t ≡ success turn
      → Follows (authentication_sasl_final payload) t turn
  unfolding Follows
  finished-Follows none payload t turn h = absurd (cc h)
  finished-Follows (some sc) payload t turn h =
      let (u, verified, h₁) = >>=-eq-success (from_scram (handle_server_final p sc payload)) _ h in
      subst (Follows (authentication_sasl_final payload) t) (success_inj h₁)
        (stays _ t t tt (λ name known. refl) refl)

  on_message-Follows :
      (m : BackendMessage) (t : Progress) (turn : Turn)
      → on_message p password m t ≡ success turn
      → Follows m t turn
  unfolding on_message Follows
  on_message-Follows (authentication_sasl mechanisms) t turn h =
      elim (Bool-cases (contains mechanisms scram_mechanism)) [
        | inl e ↦ drawn-Follows mechanisms t.draws t turn (rw e at h)
        | inr e ↦ absurd (cc (rw e at h))
      ]
  on_message-Follows (authentication_sasl_continue payload) t turn h =
      continued-Follows t.sc payload t turn h
  on_message-Follows (authentication_sasl_final payload) t turn h =
      finished-Follows t.sc payload t turn h
  on_message-Follows authentication_ok t turn h =
      subst (Follows authentication_ok t) (success_inj h) (stays _ t t tt (λ name known. refl) refl)
  on_message-Follows (parameter_status held value) t turn h =
      subst (Follows (parameter_status held value) t) (success_inj h)
        (record { expected = tt; settled = λ name. lookup-insert held name value t.conn.params })
  on_message-Follows (backend_key_data pid key) t turn h =
      subst (Follows (backend_key_data pid key) t) (success_inj h)
        (stays _ t _ tt (λ name known. refl) refl)
  on_message-Follows (ready_for_query status) t turn h =
      subst (Follows (ready_for_query status) t) (success_inj h) (refl, (status, refl))
  on_message-Follows (error_response code message) t turn h = absurd (cc h)
  on_message-Follows notice_response t turn h =
      subst (Follows notice_response t) (success_inj h) (stays _ t t tt (λ name known. refl) refl)
  on_message-Follows (data_row values) t turn h = absurd (cc h)
  on_message-Follows (other_message kind) t turn h = absurd (cc h)

  authenticate_loop-IsReady :
      (ms : List BackendMessage) (t : Progress) (c' : Conn)
      → authenticate_loop p password ms t ≡ success c'
      → IsReady ms t.conn c'
  unfolding authenticate_loop Follows
  authenticate_loop-IsReady [] t c' h = absurd (cc h)
  authenticate_loop-IsReady (m ∷ ms) t c' h = elim (turn-cases (on_message p password m t)) [
    | inl (error, e) ↦ absurd (cc (rw e at h))
    | inr (inl (t', e)) ↦
        let turn = on_message-Follows m t (more t') e in
        let inner = authenticate_loop-IsReady ms t' c' (rw e at h) in
        record {
          handshake = m ∷ inner.handshake;
          status = inner.status;
          allowed = (turn.expected, inner.allowed);
          splits = ap (λ l. m ∷ l) inner.splits;
          parameters = λ name.
              inner.parameters name ∙ ap (reported name inner.handshake) (turn.settled name);
        }
    | inr (inr (c, e)) ↦
        let (same, (status, ends)) = on_message-Follows m t (ready c) e in
        let done : record c { incoming = ms } ≡ c' = success_inj (rw e at h) in
        record {
          handshake = [];
          status = status;
          allowed = tt;
          splits = rw (ends, ← done) refl;
          parameters = λ name.
              ap (λ d. lookup name d.params) (sym done) ∙ ap (λ d. lookup name d.params) same;
        }
  ]

-- A handshake that succeeds has read messages of the handshake only, none of them an error, and then
-- ReadyForQuery, and nothing further; and the connection knows of each parameter the last value that
-- was reported.
pub authenticate-IsReady :
    (p : Primitives) (password : Bytes) (draws : List Bytes) (user database : String) (c c' : Conn)
    → authenticate p password draws user database c ≡ success c'
    → IsReady c.incoming c c'
unfolding authenticate
authenticate-IsReady p password draws user database c c' h =
    let (conn, sent, h₁) = >>=-eq-success (send (startup_message user database) c) _ h in
    let inner = authenticate_loop-IsReady p password c.incoming _ c' h₁ in
    record {
      handshake = inner.handshake;
      status = inner.status;
      allowed = inner.allowed;
      splits = inner.splits;
      parameters = λ name.
          inner.parameters name
          ∙ ap (λ ps. reported name inner.handshake (lookup name ps)) (send-params _ c conn sent);
    }
