-- ===== src/Backend/Conn/Queries.antt =====
-- What runSimple, Reset and QueryRow of internal/backend/backend.go read from the connection.
use pgpilot.Base.{
  ℕ, zero, suc, ◌≡◌, ◌⊎◌, inl, inr, refl, sym, ap, ◌∙◌, String, List, [], ◌∷◌, ◌++◌, All,
}
use pgpilot.Base.Result.{Result, failure, success}
use pgpilot.Backend.Conn.{
  BackendMessage, authentication_sasl, authentication_sasl_continue, authentication_sasl_final,
  authentication_ok, parameter_status, backend_key_data, ready_for_query, error_response,
  notice_response, data_row, other_message, FrontendMessage, query, ConnError, Conn, send,
  simple_loop, run_simple,
}

-- A message inside an answer: no end of it and no error.
abbrev pub IsQuiet : BackendMessage → Type 0
IsQuiet (ready_for_query status) = ⊥
IsQuiet (error_response code message) = ⊥
IsQuiet _ = Unit

-- The messages begin with one whole answer, up to its ReadyForQuery, and go on with `rest`.
pub record IsAnswered (messages rest : List BackendMessage) : Type 0 where
  pub quiet : List BackendMessage
  pub status : ℕ
  pub quietly : All IsQuiet quiet
  pub splits : messages ≡ quiet ++ (ready_for_query status ∷ rest)

message-cases :
    (m : BackendMessage)
    → IsQuiet m
      ⊎ ((status : ℕ) × (m ≡ ready_for_query status))
      ⊎ ((code : String) × (message : String) × (m ≡ error_response code message))
message-cases (authentication_sasl mechanisms) = inl tt
message-cases (authentication_sasl_continue payload) = inl tt
message-cases (authentication_sasl_final payload) = inl tt
message-cases authentication_ok = inl tt
message-cases (parameter_status name value) = inl tt
message-cases (backend_key_data pid key) = inl tt
message-cases (ready_for_query status) = inr (inl (status, refl))
message-cases (error_response code message) = inr (inr (code, message, refl))
message-cases notice_response = inl tt
message-cases (data_row values) = inl tt
message-cases (other_message kind) = inl tt

simple_loop-quiet :
    (m : BackendMessage) (rest : List BackendMessage)
    → IsQuiet m
    → simple_loop (m ∷ rest) ≡ simple_loop rest
unfolding simple_loop
simple_loop-quiet (authentication_sasl mechanisms) rest h = refl
simple_loop-quiet (authentication_sasl_continue payload) rest h = refl
simple_loop-quiet (authentication_sasl_final payload) rest h = refl
simple_loop-quiet authentication_ok rest h = refl
simple_loop-quiet (parameter_status name value) rest h = refl
simple_loop-quiet (backend_key_data pid key) rest h = refl
simple_loop-quiet (ready_for_query status) rest h = absurd h
simple_loop-quiet (error_response code message) rest h = absurd h
simple_loop-quiet notice_response rest h = refl
simple_loop-quiet (data_row values) rest h = refl
simple_loop-quiet (other_message kind) rest h = refl

simple_loop-IsAnswered :
    (ms rest : List BackendMessage) → simple_loop ms ≡ (rest, success tt) → IsAnswered ms rest
unfolding simple_loop
simple_loop-IsAnswered [] rest h = absurd (cc h)
simple_loop-IsAnswered (m ∷ ms) rest h = elim (message-cases m) [
  | inl q ↦
      let inner = simple_loop-IsAnswered ms rest (sym (simple_loop-quiet m ms q) ∙ h) in
      record {
        quiet = m ∷ inner.quiet;
        status = inner.status;
        quietly = (q, inner.quietly);
        splits = ap (λ l. m ∷ l) inner.splits;
      }
  | inr (inl (status, e)) ↦ record {
    quiet = [];
    status = status;
    quietly = tt;
    splits = rw e (ap (λ l. ready_for_query status ∷ l) (ap (λ r. r.0) (rw e at h)));
  }
  | inr (inr (code, message, e)) ↦ let failed = ap (λ r. r.1) (rw e at h) in absurd (cc failed)
]

simple_loop-append :
    (quiet : List BackendMessage) (status : ℕ) (rest : List BackendMessage)
    → All IsQuiet quiet
    → simple_loop (quiet ++ (ready_for_query status ∷ rest)) ≡ (rest, success tt)
unfolding simple_loop
simple_loop-append [] status rest h = refl
simple_loop-append (m ∷ ms) status rest h =
    simple_loop-quiet m (ms ++ (ready_for_query status ∷ rest)) h.0
    ∙ simple_loop-append ms status rest h.1

IsAnswered-simple_loop :
    (ms rest : List BackendMessage) → IsAnswered ms rest → simple_loop ms ≡ (rest, success tt)
IsAnswered-simple_loop ms rest a =
    ap simple_loop a.splits ∙ simple_loop-append a.quiet a.status rest a.quietly

-- The connection after two flushes and the messages up to `rest`.
abbrev pub after : Conn → List FrontendMessage → List BackendMessage → ℕ → Conn
after c sent rest left = record c { incoming = rest; outgoing = sent; flushes = left }

pub record IsRun (sql : String) (c c' : Conn) : Type 0 where
  pub left : ℕ
  pub rest : List BackendMessage
  pub flushed : c.flushes ≡ suc left
  pub answered : IsAnswered c.incoming rest
  pub result : c' ≡ after c (c.outgoing ++ (query sql ∷ [])) rest left

flushes-cases : (n : ℕ) → (n ≡ 0) ⊎ ((left : ℕ) × (n ≡ suc left))
flushes-cases zero = inl refl
flushes-cases (suc n) = inr (n, refl)

loop-cases :
    (r : List BackendMessage × Result ConnError (Unit {0}))
    → ((rest : List BackendMessage) × (r ≡ (rest, success tt)))
      ⊎ ((rest : List BackendMessage) × (e : ConnError) × (r ≡ (rest, failure e)))
loop-cases (rest, success tt) = inl (rest, refl)
loop-cases (rest, failure e) = inr (rest, e, refl)

pub run_simple-IsRun :
    (sql : String) (c c' : Conn) → run_simple sql c ≡ (c', success tt) → IsRun sql c c'
unfolding run_simple send
run_simple-IsRun sql c c' h = elim (flushes-cases c.flushes) [
  | inl e ↦ let failed = ap (λ r. r.1) (rw e at h) in absurd (cc failed)
  | inr (left, e) ↦ elim (loop-cases (simple_loop c.incoming)) [
    | inl (rest, done) ↦ record {
      left = left;
      rest = rest;
      flushed = e;
      answered = simple_loop-IsAnswered c.incoming rest done;
      result = sym (ap (λ r. r.0) (rw done at (rw e at h)));
    }
    | inr (rest, error, done) ↦
        let failed = ap (λ r. r.1) (rw done at (rw e at h)) in absurd (cc failed)
  ]
]

pub IsRun-run_simple :
    (sql : String) (c c' : Conn) → IsRun sql c c' → run_simple sql c ≡ (c', success tt)
unfolding run_simple send
IsRun-run_simple sql c c' v =
    rw (v.flushed, IsAnswered-simple_loop c.incoming v.rest v.answered)
      (ap (λ d. (d, success tt)) (sym v.result))
