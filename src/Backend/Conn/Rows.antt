-- ===== src/Backend/Conn/Rows.antt =====
-- What QueryRow of internal/backend/backend.go returns.
use pgpilot.Base.{
  ℕ, suc, ◌≡◌, refl, ap, ◌∙◌, String, List, [], ◌∷◌, ◌++◌, Option, none, some, map, All, drop,
}
use pgpilot.Base.Result.{failure, success}
use pgpilot.Backend.Conn.{
  BackendMessage, authentication_sasl, authentication_sasl_continue, authentication_sasl_final,
  authentication_ok, parameter_status, backend_key_data, ready_for_query, error_response,
  notice_response, data_row, other_message, query, server_rejected, Conn, send, column, first_row,
  row_loop, returning, query_row,
}
use pgpilot.Backend.Conn.Queries.{IsQuiet, after}

-- The rows of an answer.
abbrev pub rows : List BackendMessage → List (List (Option String))
rows [] = []
rows (data_row values ∷ rest) = values ∷ rows rest
rows (_ ∷ rest) = rows rest

-- The row found before, or else the first one.
abbrev pub pick : Option (List String) → List (List (Option String)) → Option (List String)
pick (some row) found = some row
pick none [] = none
pick none (values ∷ found) = some (map column values)

pick-first_row :
    (row : Option (List String)) (values : List (Option String))
    (found : List (List (Option String)))
    → pick (first_row row values) found ≡ pick row (values ∷ found)
pick-first_row none values found = refl
pick-first_row (some row) values found = refl

module _ (rest : List BackendMessage) (status : ℕ) (code message : String) where
  row_loop-append :
      (row : Option (List String)) (quiet : List BackendMessage)
      → All IsQuiet quiet
      → (row_loop row (quiet ++ (ready_for_query status ∷ rest))
          ≡ (rest, success (pick row (rows quiet))))
        × (row_loop row (quiet ++ (error_response code message ∷ rest))
            ≡ (rest, failure (server_rejected code message)))
  unfolding row_loop
  row_loop-append none [] h = (refl, refl)
  row_loop-append (some row) [] h = (refl, refl)
  row_loop-append row (data_row values ∷ ms) h =
      let (found, failed) = row_loop-append (first_row row values) ms h.1 in
      (found ∙ ap (λ r. (rest, success r)) (pick-first_row row values (rows ms)), failed)
  row_loop-append row (authentication_sasl mechanisms ∷ ms) h = row_loop-append row ms h.1
  row_loop-append row (authentication_sasl_continue payload ∷ ms) h = row_loop-append row ms h.1
  row_loop-append row (authentication_sasl_final payload ∷ ms) h = row_loop-append row ms h.1
  row_loop-append row (authentication_ok ∷ ms) h = row_loop-append row ms h.1
  row_loop-append row (parameter_status name value ∷ ms) h = row_loop-append row ms h.1
  row_loop-append row (backend_key_data pid key ∷ ms) h = row_loop-append row ms h.1
  row_loop-append row (ready_for_query st ∷ ms) h = absurd h.0
  row_loop-append row (error_response c m ∷ ms) h = absurd h.0
  row_loop-append row (notice_response ∷ ms) h = row_loop-append row ms h.1
  row_loop-append row (other_message kind ∷ ms) h = row_loop-append row ms h.1

-- QueryRow returns the first row of an answer that ends at ReadyForQuery, with "" for a NULL, and
-- no row if there is none, and has then read the answer to its end; of an answer that breaks off
-- with an error it returns the error and does not wait for what follows, the ReadyForQuery included.
-- In either case it loses what its Frontend has read ahead.
pub query_row-rows :
    (ahead : ℕ) (sql : String) (c : Conn) (left : ℕ) (quiet rest : List BackendMessage) (status : ℕ)
    (code message : String)
    → c.flushes ≡ suc left
    → All IsQuiet quiet
    → let whole = record c { incoming = quiet ++ (ready_for_query status ∷ rest) } in
      let broken = record c { incoming = quiet ++ (error_response code message ∷ rest) } in
      let c' = after c (c.outgoing ++ (query sql ∷ [])) (drop ahead rest) left in
      (query_row ahead sql whole ≡ (c', success (pick none (rows quiet))))
      × (query_row ahead sql broken ≡ (c', failure (server_rejected code message)))
unfolding query_row send returning
query_row-rows ahead sql c left quiet rest status code message e h =
    let (found, failed) = row_loop-append rest status code message none quiet h in
    (rw (e, found) refl, rw (e, failed) refl)
