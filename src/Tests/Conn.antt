-- ===== src/Tests/Conn.antt =====
-- Runs of internal/backend/backend.go on short conversations.
use pgpilot.Base.{ℕ, drop, ◌≡◌, ◌↔◌, refl, List, [], ◌∷◌, ◌++◌, none, some, string_eq}
use pgpilot.Base.Result.{success, failure}
use pgpilot.Scram.Client.{new_client, first_message}
use pgpilot.Scram.Server.{Server, new_server, handle_client_first, handle_client_final}
use pgpilot.Scram.{Bytes}
use pgpilot.Backend.Conn.{
  BackendMessage, authentication_sasl, authentication_sasl_continue, authentication_sasl_final,
  authentication_ok, parameter_status, ready_for_query, error_response, data_row, other_message,
  startup_message, sasl_initial_response, sasl_response, query, Conn, opened, scram_mechanism,
  server_rejected, run_simple, reset, query_row, authenticate,
}
use pgpilot.Backend.Conn.Queries.{IsAnswered, after}
use pgpilot.Backend.Conn.Reset.{IsReset, reset_iff, reset-run_simple}
use pgpilot.Backend.Conn.Rows.{rows, pick, query_row-rows}
use pgpilot.Backend.Conn.Handshake.{IsReady, authenticate-IsReady}
use pgpilot.Backend.Conn.Trust.{authenticate-settings, authenticate-exchange}
use pgpilot.Tests.Scram.{primitives, documented, password, salt}

abbrev answer : List BackendMessage → List BackendMessage
answer rest = other_message b'C' ∷ (ready_for_query b'I' ∷ rest)

answer-IsAnswered : (rest : List BackendMessage) → IsAnswered (answer rest) rest
answer-IsAnswered rest = record {
  quiet = other_message b'C' ∷ [];
  status = b'I';
  quietly = (tt, tt);
  splits = refl;
}

abbrev two_answers : Conn
two_answers = opened (answer (answer [])) 5

abbrev three_answers : Conn
three_answers = opened (answer (answer (answer []))) 5

reset_iff_example :
    (reset 0 two_answers
      ≡ (after two_answers (query "ROLLBACK" ∷ (query "DISCARD ALL" ∷ [])) [] 3, success tt))
    ↔ IsReset 0 two_answers (after two_answers (query "ROLLBACK" ∷ (query "DISCARD ALL" ∷ [])) [] 3)
reset_iff_example =
    reset_iff 0 two_answers (after two_answers (query "ROLLBACK" ∷ (query "DISCARD ALL" ∷ [])) [] 3)

reset-run_simple_example :
    ((ahead : ℕ)
      → (c' : Conn) × (reset ahead three_answers ≡ (c', success tt))
        × (c'.incoming ≡ drop ahead (answer [])))
    × ((c' c'' : Conn) × (reset 0 three_answers ≡ (c', success tt))
        × (run_simple ";" c' ≡ (c'', success tt))
        × (c''.incoming ≡ []))
reset-run_simple_example =
    reset-run_simple three_answers (answer (answer [])) (answer []) [] 2 ";" refl
      (answer-IsAnswered (answer (answer []))) (answer-IsAnswered (answer []))
      (answer-IsAnswered [])

abbrev row_message : BackendMessage
row_message = data_row (some "t" ∷ (none ∷ []))

abbrev row_answer : Conn
row_answer = opened (row_message ∷ (ready_for_query b'I' ∷ [])) 1

query_row-rows_example :
    let whole = record row_answer { incoming = row_message ∷ (ready_for_query b'I' ∷ []) } in
    let broken = record row_answer {
      incoming = row_message ∷ (error_response "42P01" "gone" ∷ []);
    } in
    let c' = after row_answer (query "q" ∷ []) [] 0 in
    (query_row 0 "q" whole ≡ (c', success (pick none (rows (row_message ∷ [])))))
    × (query_row 0 "q" broken ≡ (c', failure (server_rejected "42P01" "gone")))
query_row-rows_example =
    query_row-rows 0 "q" row_answer 0 (row_message ∷ []) [] b'I' "42P01" "gone" refl (tt, tt)

abbrev settings : List BackendMessage
settings = authentication_ok ∷ (parameter_status "TimeZone" "UTC" ∷ [])

abbrev unguarded : Conn
unguarded = opened (settings ++ (ready_for_query b'I' ∷ [])) 1

authenticate-settings_example :
    (c' : Conn) × (authenticate primitives password [] "app" "db" unguarded ≡ success c')
    × (c'.incoming ≡ [])
    × (c'.outgoing ≡ startup_message "app" "db" ∷ [])
authenticate-settings_example =
    authenticate-settings primitives password [] "app" "db" unguarded 0 settings [] b'I' refl refl
      (tt, (tt, tt))

unguarded_done :
    (c' : Conn) × (authenticate primitives password [] "app" "db" unguarded ≡ success c')
unguarded_done =
    let (c', done, _, _) =
      authenticate-settings primitives password [] "app" "db" unguarded 0 settings [] b'I' refl refl
        (tt, (tt, tt)) in
    (c', done)

authenticate-IsReady_example : IsReady unguarded.incoming unguarded unguarded_done.0
authenticate-IsReady_example =
    authenticate-IsReady primitives password [] "app" "db" unguarded unguarded_done.0
      unguarded_done.1

abbrev guarded : Conn
guarded = opened [] 3

authenticate-exchange_example :
    let hello = first_message primitives (new_client primitives password (b'a' ∷ [])) in
    let server = new_server primitives password (b'b' ∷ []) salt in
    (waiting : Server) × (first final last : Bytes) × (handle_client_first primitives server hello.1
      ≡ success (waiting, first))
    × (handle_client_final primitives waiting final ≡ success last)
    × (c' : Conn) × (authenticate primitives password
          ((b'a' ∷ []) ∷ [])
          "app"
          "db"
          (record guarded {
            incoming =
                authentication_sasl (scram_mechanism ∷ [])
                ∷ (authentication_sasl_continue first
                    ∷ (authentication_sasl_final last ∷ (settings ++ (ready_for_query b'I' ∷ []))));
          })
        ≡ success c')
    × (c'.incoming ≡ [])
    × (c'.outgoing
        ≡ (([] ++ (startup_message "app" "db" ∷ [])) ++ (sasl_initial_response hello.1 ∷ []))
          ++ (sasl_response final ∷ []))
authenticate-exchange_example =
    authenticate-exchange primitives documented password (b'a' ∷ []) (b'b' ∷ []) salt [] "app" "db"
      guarded 0 (scram_mechanism ∷ []) settings [] b'I' refl refl (tt, (tt, tt))
