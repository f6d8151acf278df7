-- ===== src/Session/Position.antt =====
-- internal/proxy/session.go: primaryLSN, the position that advances a session's fence, on the
-- connection of the backend. `bytes_of` gives the bytes of a string.
use pgpilot.Base.{
  ℕ, suc, ◌≡◌, refl, ap, ◌∙◌, String, List, [], ◌∷◌, ◌++◌, Option, none, some, All, drop,
}
use pgpilot.Base.Result.{Result, failure, success}
use pgpilot.Registry.Lsn.{parse_lsn}
use pgpilot.Backend.Conn.{
  BackendMessage, ready_for_query, error_response, query, ConnError, Conn, query_row, run_simple,
}
use pgpilot.Backend.Conn.Queries.{IsQuiet, after, IsRun-run_simple}
use pgpilot.Backend.Conn.Rows.{rows, pick, query_row-rows}

abbrev pub position_query : String
position_query = "SELECT pg_current_wal_lsn()"

module _ (bytes_of : String → List ℕ) where
  -- The first column of the row, if there is one.
  abbrev pub lsn_of : Option (List String) → Option ℕ
  lsn_of none = none
  lsn_of (some []) = none
  lsn_of (some (text ∷ _)) = parse_lsn (bytes_of text)

  abbrev pub lsn_of_result : Result ConnError (Option (List String)) → Option ℕ
  lsn_of_result (failure e) = none
  lsn_of_result (success row) = lsn_of row

  abbrev pub position_of : Conn × Result ConnError (Option (List String)) → Conn × Option ℕ
  position_of (c, result) = (c, lsn_of_result result)

  -- The connection after the query, and the position, or `none` for any error; `ahead` messages are
  -- read ahead of the answer.
  unfoldable pub primary_lsn : ℕ → Conn → Conn × Option ℕ
  primary_lsn ahead c = position_of (query_row ahead position_query c)

  -- primaryLSN reads a whole answer and returns the position that the first column of its first row
  -- stands for.
  pub primary_lsn-rows :
      (ahead : ℕ) (c : Conn) (left : ℕ) (quiet rest : List BackendMessage) (status : ℕ)
      → c.flushes ≡ suc left
      → All IsQuiet quiet
      → c.incoming ≡ quiet ++ (ready_for_query status ∷ rest)
      → primary_lsn ahead c ≡ (
        after c (c.outgoing ++ (query position_query ∷ [])) (drop ahead rest) left,
        lsn_of (pick none (rows quiet)),
      )
  unfolding primary_lsn
  primary_lsn-rows ahead c left quiet rest status e h i =
      ap (λ ms. primary_lsn ahead (record c { incoming = ms })) i
      ∙ ap position_of (query_row-rows ahead position_query c left quiet rest status "" "" e h).0

  primary_lsn-error :
      (ahead : ℕ) (c : Conn) (left : ℕ) (quiet rest : List BackendMessage) (code message : String)
      → c.flushes ≡ suc left
      → All IsQuiet quiet
      → c.incoming ≡ quiet ++ (error_response code message ∷ rest)
      → primary_lsn ahead c
        ≡ (after c (c.outgoing ++ (query position_query ∷ [])) (drop ahead rest) left, none)
  unfolding primary_lsn
  primary_lsn-error ahead c left quiet rest code message e h i =
      ap (λ ms. primary_lsn ahead (record c { incoming = ms })) i
      ∙ ap position_of (query_row-rows ahead position_query c left quiet rest 0 code message e h).1

  -- If the server answers primaryLSN with an error, the ReadyForQuery after it is lost when it has
  -- been read ahead together with the error. If nothing has been read ahead it stays unread:
  -- the next query of runSimple on the connection, such as the ping before the pool reuses it, is
  -- taken for answered by it at once, and its own answer is left for the query after it.
  pub primary_lsn-run_simple :
      (c : Conn) (left : ℕ) (quiet rest : List BackendMessage) (status : ℕ) (code message : String)
      (sql : String)
      → c.flushes ≡ suc (suc left)
      → All IsQuiet quiet
      → c.incoming ≡ quiet ++ (error_response code message ∷ (ready_for_query status ∷ rest))
      → ((c' : Conn) × (primary_lsn 1 c ≡ (c', none)) × (c'.incoming ≡ rest))
        × ((c' c'' : Conn) × (primary_lsn 0 c ≡ (c', none))
            × (run_simple sql c' ≡ (c'', success tt))
            × (c''.incoming ≡ rest))
  primary_lsn-run_simple c left quiet rest status code message sql e h i =
      let unread = ready_for_query status ∷ rest in
      let sent = c.outgoing ++ (query position_query ∷ []) in
      let c' = after c sent unread (suc left) in
      let c'' = after c' (sent ++ (query sql ∷ [])) rest left in
      (
        (
          after c sent rest (suc left),
          primary_lsn-error 1 c (suc left) quiet unread code message e h i,
          refl,
        ),
        (
          c',
          c'',
          primary_lsn-error 0 c (suc left) quiet unread code message e h i,
          IsRun-run_simple sql c' c'' (record {
            left = left;
            rest = rest;
            flushed = refl;
            answered = record { quiet = []; status = status; quietly = tt; splits = refl };
            result = refl;
          }),
          refl,
        ),
      )
