-- ===== src/Backend/Conn/Reset.antt =====
-- What Reset of internal/backend/backend.go reads, on a quiescent connection and on one with an
-- answer still to come.
use pgpilot.Base.{
  ℕ, suc, ◌≡◌, ◌⊎◌, ◌↔◌, inl, inr, refl, sym, ap, subst, ◌∙◌, String, List, [], ◌∷◌, ◌++◌, drop,
}
use pgpilot.Base.Result.{Result, failure, success}
use pgpilot.Backend.Conn.{BackendMessage, query, ConnError, Conn, run_simple, returning, reset}
use pgpilot.Backend.Conn.Queries.{IsAnswered, after, run_simple-IsRun, IsRun-run_simple}

-- Two queries were sent and one whole answer was read for each; what was read ahead of them is lost,
-- and nothing else has changed.
pub record IsReset (ahead : ℕ) (c c' : Conn) : Type 0 where
  pub left : ℕ
  pub between : List BackendMessage
  pub rest : List BackendMessage
  pub flushed : c.flushes ≡ suc (suc left)
  pub rolled_back : IsAnswered c.incoming between
  pub discarded : IsAnswered between rest
  pub result :
      c'
      ≡ after c
          ((c.outgoing ++ (query "ROLLBACK" ∷ [])) ++ (query "DISCARD ALL" ∷ []))
          (drop ahead rest)
          left

ran-cases :
    (r : Conn × Result ConnError (Unit {0}))
    → ((c : Conn) × (r ≡ (c, success tt))) ⊎ ((c : Conn) × (e : ConnError) × (r ≡ (c, failure e)))
ran-cases (c, success tt) = inl (c, refl)
ran-cases (c, failure e) = inr (c, e, refl)

-- The connection without the messages that were read ahead.
abbrev losing : ℕ → Conn → Conn
losing ahead c = record c { incoming = drop ahead c.incoming }

reset-IsReset : (ahead : ℕ) (c c' : Conn) → reset ahead c ≡ (c', success tt) → IsReset ahead c c'
unfolding reset returning
reset-IsReset ahead c c' h = elim (ran-cases (run_simple "ROLLBACK" c)) [
  | inl (mid, e) ↦ elim (ran-cases (run_simple "DISCARD ALL" mid)) [
    | inl (last, d) ↦
        let first = run_simple-IsRun "ROLLBACK" c mid e in
        let second = run_simple-IsRun "DISCARD ALL" mid last d in
        let dropped : losing ahead last ≡ c' = ap (λ r. r.0) (rw (e, d) at h) in
        record {
          left = second.left;
          between = first.rest;
          rest = second.rest;
          flushed =
              first.flushed ∙ ap suc (sym (ap (λ d. d.flushes) first.result) ∙ second.flushed);
          rolled_back = first.answered;
          discarded = subst (λ d. IsAnswered d.incoming second.rest) first.result second.answered;
          result =
              sym dropped
              ∙ ap (losing ahead) second.result
              ∙ ap
                  (λ d.
                    after d (d.outgoing ++ (query "DISCARD ALL" ∷ [])) (drop ahead second.rest)
                      second.left)
                  first.result;
        }
    | inr (last, error, d) ↦ let failed = ap (λ r. r.1) (rw (e, d) at h) in absurd (cc failed)
  ]
  | inr (mid, error, e) ↦ let failed = ap (λ r. r.1) (rw e at h) in absurd (cc failed)
]

IsReset-reset : (ahead : ℕ) (c c' : Conn) → IsReset ahead c c' → reset ahead c ≡ (c', success tt)
unfolding reset returning
IsReset-reset ahead c c' v =
    let sent = c.outgoing ++ (query "ROLLBACK" ∷ []) in
    let mid = after c sent v.between (suc v.left) in
    let last = after mid (sent ++ (query "DISCARD ALL" ∷ [])) v.rest v.left in
    let first = IsRun-run_simple "ROLLBACK" c mid (record {
      left = suc v.left;
      rest = v.between;
      flushed = v.flushed;
      answered = v.rolled_back;
      result = refl;
    }) in
    let second = IsRun-run_simple "DISCARD ALL" mid last (record {
      left = v.left;
      rest = v.rest;
      flushed = refl;
      answered = v.discarded;
      result = refl;
    }) in
    rw (first, second) (ap (λ d. (d, success tt)) (sym v.result))

-- Reset succeeds exactly if two flushes succeed and the server has two whole answers without an
-- error to give; it sends ROLLBACK and then DISCARD ALL, reads both answers to their end, loses what
-- its Frontend has read ahead of them, and changes nothing else of the connection.
pub reset_iff : (ahead : ℕ) (c c' : Conn) → (reset ahead c ≡ (c', success tt)) ↔ IsReset ahead c c'
reset_iff ahead c c' = (reset-IsReset ahead c c', IsReset-reset ahead c c')

-- If the answer to an earlier query is still to come, Reset takes it for the one to its ROLLBACK
-- and that one for the one to DISCARD ALL: it succeeds without having waited for the answer to
-- DISCARD ALL. Of what still comes, it loses the messages that its Frontend has read ahead; if it
-- has read none ahead, the next query on the connection is given the answer to DISCARD ALL.
pub reset-run_simple :
    (c : Conn) (unread rolled_back discarded : List BackendMessage) (left : ℕ) (sql : String)
    → c.flushes ≡ suc (suc (suc left))
    → IsAnswered c.incoming unread
    → IsAnswered unread rolled_back
    → IsAnswered rolled_back discarded
    → ((ahead : ℕ)
        → (c' : Conn) × (reset ahead c ≡ (c', success tt)) × (c'.incoming ≡ drop ahead rolled_back))
      × ((c' c'' : Conn) × (reset 0 c ≡ (c', success tt))
          × (run_simple sql c' ≡ (c'', success tt))
          × (c''.incoming ≡ discarded))
reset-run_simple c unread rolled_back discarded left sql e a b d =
    let sent = (c.outgoing ++ (query "ROLLBACK" ∷ [])) ++ (query "DISCARD ALL" ∷ []) in
    let c' = after c sent rolled_back (suc left) in
    let c'' = after c' (sent ++ (query sql ∷ [])) discarded left in
    (
      λ ahead. (after c sent (drop ahead rolled_back) (suc left), succeeds ahead, refl),
      (
        c',
        c'',
        succeeds 0,
        IsRun-run_simple sql c' c''
            (record { left = left; rest = discarded; flushed = refl; answered = d; result = refl }),
        refl,
      ),
    )
  where
    succeeds :
        (ahead : ℕ)
        → reset ahead c ≡ (
          after c
              ((c.outgoing ++ (query "ROLLBACK" ∷ [])) ++ (query "DISCARD ALL" ∷ []))
              (drop ahead rolled_back)
              (suc left),
          success tt,
        )
    succeeds ahead = IsReset-reset ahead c _ (record {
      left = suc left;
      between = unread;
      rest = rolled_back;
      flushed = e;
      rolled_back = a;
      discarded = b;
      result = refl;
    })
