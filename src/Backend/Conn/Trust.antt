-- ===== src/Backend/Conn/Trust.antt =====
-- Whom the handshake of internal/backend/backend.go takes for the server: one that knows the
-- password, and also one that never shows that it does.
use pgpilot.Base.{
  ℕ, suc, ◌≡◌, refl, ap, ◌∙◌, String, true, List, [], ◌∷◌, ◌++◌, none, some, contains, All,
  string_eq,
}
use pgpilot.Base.Result.{success, >>=-eq-success}
use pgpilot.Scram.{Bytes, Primitives}
use pgpilot.Scram.Client.{new_client, first_message, handle_server_first}
use pgpilot.Scram.Server.{Server, new_server, handle_client_first, handle_client_final}
use pgpilot.Scram.Exchange.{IsDocumented, exchange, exchange-accepts}
use pgpilot.Backend.Conn.{
  BackendMessage, authentication_sasl, authentication_sasl_continue, authentication_sasl_final,
  authentication_ok, parameter_status, backend_key_data, ready_for_query, error_response,
  notice_response, data_row, other_message, startup_message, sasl_initial_response, sasl_response,
  Conn, scram_mechanism, send, Progress, on_message, authenticate_loop, authenticate,
}
use pgpilot.Backend.Conn.Handshake.{IsSetting}

module _ (p : Primitives) (password : Bytes) where
  -- Settings and then ReadyForQuery end the loop, with nothing sent.
  authenticate_loop-settings :
      (settings rest : List BackendMessage) (status : ℕ) (t : Progress)
      → All IsSetting settings
      → (c : Conn) × (authenticate_loop p password (settings ++ (ready_for_query status ∷ rest)) t
          ≡ success c)
        × (c.incoming ≡ rest)
        × (c.outgoing ≡ t.conn.outgoing)
  unfolding authenticate_loop on_message
  authenticate_loop-settings [] rest status t h =
      (record t.conn { incoming = rest }, refl, refl, refl)
  authenticate_loop-settings (authentication_ok ∷ ms) rest status t h =
      authenticate_loop-settings ms rest status t h.1
  authenticate_loop-settings (parameter_status name value ∷ ms) rest status t h =
      authenticate_loop-settings ms rest status _ h.1
  authenticate_loop-settings (backend_key_data pid key ∷ ms) rest status t h =
      authenticate_loop-settings ms rest status _ h.1
  authenticate_loop-settings (notice_response ∷ ms) rest status t h =
      authenticate_loop-settings ms rest status t h.1
  authenticate_loop-settings (authentication_sasl mechanisms ∷ ms) rest status t h = absurd h.0
  authenticate_loop-settings (authentication_sasl_continue payload ∷ ms) rest status t h =
      absurd h.0
  authenticate_loop-settings (authentication_sasl_final payload ∷ ms) rest status t h = absurd h.0
  authenticate_loop-settings (ready_for_query st ∷ ms) rest status t h = absurd h.0
  authenticate_loop-settings (error_response code message ∷ ms) rest status t h = absurd h.0
  authenticate_loop-settings (data_row values ∷ ms) rest status t h = absurd h.0
  authenticate_loop-settings (other_message kind ∷ ms) rest status t h = absurd h.0

-- The handshake succeeds, whatever the password, with a server that sends its settings and
-- ReadyForQuery without asking for any proof or giving one; only the startup message was sent.
pub authenticate-settings :
    (p : Primitives) (password : Bytes) (draws : List Bytes) (user database : String) (c : Conn)
    (left : ℕ) (settings rest : List BackendMessage) (status : ℕ)
    → c.flushes ≡ suc left
    → c.incoming ≡ settings ++ (ready_for_query status ∷ rest)
    → All IsSetting settings
    → (c' : Conn) × (authenticate p password draws user database c ≡ success c')
      × (c'.incoming ≡ rest)
      × (c'.outgoing ≡ c.outgoing ++ (startup_message user database ∷ []))
unfolding authenticate send
authenticate-settings p password draws user database c left settings rest status e i h =
    let start = record c {
      outgoing = c.outgoing ++ (startup_message user database ∷ []);
      flushes = left;
    } in
    let (c', done, read, sent) =
      authenticate_loop-settings p password settings rest status
        (record { conn = start; sc = none; draws = draws }) h in
    (
      c',
      rw e (
          ap
            (λ ms.
              authenticate_loop p password ms (record { conn = start; sc = none; draws = draws }))
            i
          ∙ done),
      read,
      sent,
    )

-- With a server that runs the exchange of SCRAM with the same password, offers the mechanism and
-- then reports its settings, the handshake succeeds: there are answers of that server to the
-- client's two messages, which are sent after the startup message, and the answers are accepted.
pub authenticate-exchange :
    (p : Primitives)
    → IsDocumented p
    → (password random random_of_server salt : Bytes) (draws : List Bytes) (user database : String)
      (c : Conn) (left : ℕ) (mechanisms : List String) (settings rest : List BackendMessage)
      (status : ℕ)
    → c.flushes ≡ suc (suc (suc left))
    → contains mechanisms scram_mechanism ≡ true
    → All IsSetting settings
    → let client = first_message p (new_client p password random) in
      let server = new_server p password random_of_server salt in
      (waiting : Server) × (first final last : Bytes) × (handle_client_first p server client.1
        ≡ success (waiting, first))
      × (handle_client_final p waiting final ≡ success last)
      × (c' : Conn) × (authenticate p password (random ∷ draws) user database (record c {
        incoming =
            authentication_sasl mechanisms
            ∷ (authentication_sasl_continue first
                ∷ (authentication_sasl_final last ∷ (settings ++ (ready_for_query status ∷ rest))));
      })
          ≡ success c')
      × (c'.incoming ≡ rest)
      × (c'.outgoing
          ≡ ((c.outgoing ++ (startup_message user database ∷ []))
              ++ (sasl_initial_response client.1 ∷ []))
            ++ (sasl_response final ∷ []))
unfolding authenticate send authenticate_loop on_message exchange
authenticate-exchange p laws password random random_of_server salt draws user database c left
      mechanisms settings rest status e offered h =
    let client = first_message p (new_client p password random) in
    let server = new_server p password random_of_server salt in
    let accepted = exchange-accepts p laws password random random_of_server salt in
    let ((waiting, first), a₁, k₁) =
      >>=-eq-success (handle_client_first p server client.1) _ accepted in
    let ((proving, final), a₂, k₂) = >>=-eq-success (handle_server_first p client.0 first) _ k₁ in
    let (last, a₃, k₃) = >>=-eq-success (handle_client_final p waiting final) _ k₂ in
    let sent =
      ((c.outgoing ++ (startup_message user database ∷ []))
        ++ (sasl_initial_response client.1 ∷ []))
      ++ (sasl_response final ∷ []) in
    let conn = record c {
      incoming =
          authentication_sasl mechanisms
          ∷ (authentication_sasl_continue first
              ∷ (authentication_sasl_final last ∷ (settings ++ (ready_for_query status ∷ rest))));
      outgoing = sent;
      flushes = left;
    } in
    let (c', done, read, kept) =
      authenticate_loop-settings p password settings rest status
        (record { conn = conn; sc = some proving; draws = draws }) h in
    (waiting, first, final, last, a₁, a₃, c', rw e (rw offered (rw a₂ (rw k₃ done))), read, kept)
