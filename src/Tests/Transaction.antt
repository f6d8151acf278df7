-- ===== src/Tests/Transaction.antt =====
-- Runs of serveTransaction, of serve and of the authentication of clients, internal/proxy/session.go.
use pgpilot.Base.{ℕ, ◌≡◌, ◌⊎◌, inr, refl, String, true, false, List, [], ◌∷◌, Option, none, some}
use pgpilot.Base.Result.{success}
use pgpilot.Scram.{Bytes}
use pgpilot.Scram.Client.{first_message, handle_server_first}
use pgpilot.Scram.Server.{Server, handle_client_first, handle_client_final}
use pgpilot.Scram.Exchange.{exchange, exchange-accepts}
use pgpilot.Base.Result.{>>=-eq-success}
use pgpilot.Sql.Tree.{Node, prepare_stmt, nil}
use pgpilot.Sql.Detect.{breaks_tx_pooling, first_feature, breaking_stmt}
use pgpilot.Backend.Conn.{
  ready_for_query, error_response, Conn, opened, run_simple, scram_mechanism,
}
use pgpilot.Session.Messages.{query_string}
use pgpilot.Session.Routing.{is_feature}
use pgpilot.Session.Transaction.{took, Answers, serve_transaction, serve_rounds}
use pgpilot.Session.Transaction.Refines.{Obeys, free, serve_transaction-Obeys}
use pgpilot.Session.Transaction.Pinned.{Stays, serve_rounds-Stays}
use pgpilot.Session.Auth.{
  sasl_initial_response, sasl_response, authentication_sasl, authentication_sasl_continue,
  authentication_sasl_final, authentication_ok, ClientConn, authenticate_client, challenge, verify,
  flush, receive,
}
use pgpilot.Session.Auth.Proven.{IsAuthentic, authenticate_client-IsAuthentic}
use pgpilot.Session.Serve.{Setting, Env, transaction, serve}
use pgpilot.Session.Serve.Authentic.{Handled, Untouched, Authentic, serve-Handled, serve-Authentic}
use pgpilot.Session.Position.{primary_lsn, primary_lsn-run_simple}
use pgpilot.Tests.Scram.{primitives, documented, password, salt, client, server}

abbrev text : List ℕ → String
text _ = "PREPARE p AS SELECT 1"

abbrev parse : String → Option (List Node)
parse _ = some (prepare_stmt nil ∷ [])

-- A query that is answered and leaves the session idle.
abbrev round : Answers
round = record {
  message = some (b'Q', []);
  acquired = some 8;
  writes = true;
  response = some b'I';
  relayed_clean = true;
  resets = true;
  cleans = true;
}

-- The client terminates.
abbrev last_round : Answers
last_round = record round { message = some (b'X', []) }

serve_transaction-Obeys_example :
    Obeys free (serve_transaction text parse (round ∷ (last_round ∷ [])) 3)
serve_transaction-Obeys_example = serve_transaction-Obeys text parse (round ∷ (last_round ∷ [])) 3

leaves_state : is_feature (breaks_tx_pooling parse (text (query_string []))) ≡ true
unfolding breaks_tx_pooling first_feature breaking_stmt
leaves_state = refl

-- The query arrives between transactions.
serve_rounds-Stays_example :
    Stays 8
      (took 8 ∷ [])
      (serve_rounds text parse (round ∷ (round ∷ [])) (record { held = none; pinned = false }) [])
serve_rounds-Stays_example =
    serve_rounds-Stays text parse round (round ∷ []) (record { held = none; pinned = false }) 8 []
      (inr (refl, refl)) refl leaves_state

-- The two messages of a client that knows the password.
proof :
    (waiting : Server) × (first final last : Bytes) × (handle_client_first primitives server
        (first_message primitives client).1
      ≡ success (waiting, first))
    × (handle_client_final primitives waiting final ≡ success last)
unfolding exchange
proof =
    let accepted = exchange-accepts primitives documented password (b'a' ∷ []) (b'b' ∷ []) salt in
    let hello = first_message primitives client in
    let ((waiting, first), a₁, k₁) =
      >>=-eq-success (handle_client_first primitives server hello.1) _ accepted in
    let ((proving, final), a₂, k₂) =
      >>=-eq-success (handle_server_first primitives hello.0 first) _ k₁ in
    let (last, a₃, k₃) = >>=-eq-success (handle_client_final primitives waiting final) _ k₂ in
    (waiting, first, final, last, a₁, a₃)

abbrev visitor : ClientConn
visitor = record {
  replies =
      sasl_initial_response scram_mechanism (first_message primitives client).1
      ∷ (sasl_response proof.2 ∷ []);
  sent = [];
  flushes = 9;
}

abbrev welcomed : ClientConn
welcomed = record {
  replies = [];
  sent =
      authentication_sasl (scram_mechanism ∷ [])
      ∷ (authentication_sasl_continue proof.1
          ∷ (authentication_sasl_final proof.3 ∷ (authentication_ok ∷ [])));
  flushes = 6;
}

let_in :
    authenticate_client primitives (some (b'b' ∷ [], salt)) password visitor
    ≡ (welcomed, success tt)
unfolding authenticate_client challenge verify flush receive
let_in = rw proof.4 (rw proof.5 refl)

authenticate_client-IsAuthentic_example : IsAuthentic primitives password visitor welcomed
authenticate_client-IsAuthentic_example =
    authenticate_client-IsAuthentic primitives (some (b'b' ∷ [], salt)) password visitor welcomed
      let_in

abbrev setting : Setting
setting = record {
  users = (record { name = "app"; password = "pw" }) ∷ [];
  mode = transaction;
  routes = false;
}

abbrev env : Env
env = record {
  negotiated = some (record { raw = 0 ∷ []; code = 196608 });
  decode = λ _. some (("user", "app") ∷ []);
  bytes_of = λ _. password;
  draws = some (b'b' ∷ [], salt);
  acquired = λ user database. some 3;
  params = ("TimeZone", "UTC") ∷ [];
  key_data = some (1, 2);
  relayed_clean = true;
  resets = true;
  rounds = round ∷ (last_round ∷ []);
}

serve-Handled_example : Handled (serve primitives text parse setting env visitor)
serve-Handled_example = serve-Handled primitives text parse setting env visitor

serve-Authentic_example :
    Untouched (serve primitives text parse setting env visitor)
    ⊎ Authentic primitives text parse setting env visitor
serve-Authentic_example = serve-Authentic primitives text parse setting env visitor

-- A server that answers the question for its position with an error.
abbrev demoted : Conn
demoted = opened (error_response "55000" "recovery is in progress" ∷ (ready_for_query b'I' ∷ [])) 2

primary_lsn-run_simple_example :
    ((c' : Conn) × (primary_lsn (λ _. []) 1 demoted ≡ (c', none)) × (c'.incoming ≡ []))
    × ((c' c'' : Conn) × (primary_lsn (λ _. []) 0 demoted ≡ (c', none))
        × (run_simple ";" c' ≡ (c'', success tt))
        × (c''.incoming ≡ []))
primary_lsn-run_simple_example =
    primary_lsn-run_simple (λ _. []) demoted 0 [] [] b'I' "55000" "recovery is in progress" ";" refl
      tt refl
