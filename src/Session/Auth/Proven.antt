-- ===== src/Session/Auth/Proven.antt =====
-- Whom authenticateClient of internal/proxy/session.go lets in.
use pgpilot.Base.{
  ℕ, zero, suc, ◌≡◌, refl, sym, ap, ◌∙◌, String, Bool, true, false, List, [], ◌∷◌, ◌++◌, Option,
  none, some, ◌==◌, string_eq,
}
use pgpilot.Base.Result.{Result, failure, success}
use pgpilot.Scram.{Bytes, Primitives, ScramError}
use pgpilot.Scram.Server.{Server, new_server, handle_client_first, handle_client_final}
use pgpilot.Scram.Sound.{IsProven, handle_client_final_iff}
use pgpilot.Backend.Conn.{scram_mechanism}
use pgpilot.Session.Auth.{
  ClientMessage, sasl_initial_response, sasl_response, other_message, ServerMessage,
  authentication_sasl, authentication_sasl_continue, authentication_sasl_final, authentication_ok,
  SessionError, ClientConn, Io, bind_io, flush_on, flush, receive_from, receive, initial_of,
  response_of, or_reject, drawn, check_mechanism, challenge, verify, authenticate_client, reject,
}

-- A client whose two replies show, to a server with this password, that it knows the password; what
-- it has then been sent.
pub record IsAuthentic (p : Primitives) (password : Bytes) (before after : ClientConn)
    : Type 0 where
  pub random : Bytes
  pub salt : Bytes
  pub initial : Bytes
  pub waiting : Server
  pub server_first : Bytes
  pub response : Bytes
  pub answer : Bytes
  pub replies :
      before.replies
      ≡ sasl_initial_response scram_mechanism initial ∷ (sasl_response response ∷ after.replies)
  pub offers :
      handle_client_first p (new_server p password random salt) initial
      ≡ success (waiting, server_first)
  pub proven : IsProven p waiting response answer
  pub sent :
      after.sent
      ≡ ((before.sent ++ (authentication_sasl (scram_mechanism ∷ []) ∷ []))
          ++ (authentication_sasl_continue server_first ∷ []))
        ++ (authentication_sasl_final answer ∷ (authentication_ok ∷ []))

bind_io-eq-success :
    {A B : Type 0} (r : ClientConn × Result SessionError A) (f : A → Io B) {c' : ClientConn} {b : B}
    → bind_io r f ≡ (c', success b)
    → (c : ClientConn) × (a : A) × (r ≡ (c, success a)) × (f a c ≡ (c', success b))
bind_io-eq-success (c, failure e) f h = let failed = ap (λ r. r.1) h in absurd (cc failed)
bind_io-eq-success (c, success a) f h = (c, a, refl, h)

pair_inj :
    {A : Type 0} {c c' : ClientConn} {a b : A}
    → ◌≡◌ {A = ClientConn × Result SessionError A} (c, success a) (c', success b)
    → (c ≡ c') × (a ≡ b)
pair_inj h = (ap (λ r. r.0) h, let same = ap (λ r. r.1) h in cc same)

flush_on-success :
    (n : ℕ) (ms : List ServerMessage) (c c' : ClientConn) {u : Unit {0}}
    → flush_on n ms c ≡ (c', success u)
    → (c.replies ≡ c'.replies) × (c'.sent ≡ c.sent ++ ms)
flush_on-success zero ms c c' h = let failed = ap (λ r. r.1) h in absurd (cc failed)
flush_on-success (suc n) ms c c' h =
    let e = (pair_inj h).0 in (ap (λ d. d.replies) e, sym (ap (λ d. d.sent) e))

flush-success :
    (ms : List ServerMessage) (c c' : ClientConn) {u : Unit {0}}
    → flush ms c ≡ (c', success u)
    → (c.replies ≡ c'.replies) × (c'.sent ≡ c.sent ++ ms)
unfolding flush
flush-success ms c c' h = flush_on-success c.flushes ms c c' h

receive_from-success :
    (replies : List ClientMessage) (c c' : ClientConn) {m : ClientMessage}
    → receive_from replies c ≡ (c', success m)
    → (replies ≡ m ∷ c'.replies) × (c'.sent ≡ c.sent)
receive_from-success [] c c' h = let failed = ap (λ r. r.1) h in absurd (cc failed)
receive_from-success (m ∷ ms) c c' h =
    let (e, same) = pair_inj h in (rw (same, ← e) refl, sym (ap (λ d. d.sent) e))

receive-success :
    (c c' : ClientConn) {m : ClientMessage}
    → receive c ≡ (c', success m)
    → (c.replies ≡ m ∷ c'.replies) × (c'.sent ≡ c.sent)
unfolding receive
receive-success c c' h = receive_from-success c.replies c c' h

initial_of-success :
    (m : ClientMessage) (c c' : ClientConn) {mechanism : String} {payload : Bytes}
    → initial_of m c ≡ (c', success (mechanism, payload))
    → (m ≡ sasl_initial_response mechanism payload) × (c ≡ c')
initial_of-success (sasl_initial_response x y) c c' h =
    let (e, same) = pair_inj h in (ap (λ q. sasl_initial_response q.0 q.1) same, e)
initial_of-success (sasl_response x) c c' h = let failed = ap (λ r. r.1) h in absurd (cc failed)
initial_of-success (other_message x) c c' h = let failed = ap (λ r. r.1) h in absurd (cc failed)

response_of-success :
    (m : ClientMessage) (c c' : ClientConn) {payload : Bytes}
    → response_of m c ≡ (c', success payload)
    → (m ≡ sasl_response payload) × (c ≡ c')
response_of-success (sasl_response x) c c' h =
    let (e, same) = pair_inj h in (ap sasl_response same, e)
response_of-success (sasl_initial_response x y) c c' h =
    let failed = ap (λ r. r.1) h in absurd (cc failed)
response_of-success (other_message x) c c' h = let failed = ap (λ r. r.1) h in absurd (cc failed)

or_reject-success :
    {A : Type 0} (message : String) (r : Result ScramError A) (c c' : ClientConn) {a : A}
    → or_reject message r c ≡ (c', success a)
    → (r ≡ success a) × (c ≡ c')
unfolding reject
or_reject-success message (failure e) c c' h = let failed = ap (λ r. r.1) h in absurd (cc failed)
or_reject-success message (success a) c c' h = let (e, same) = pair_inj h in (ap success same, e)

drawn-success :
    {A : Type 0} (o : Option A) (c c' : ClientConn) {a : A} → drawn o c ≡ (c', success a) → c ≡ c'
drawn-success none c c' h = let failed = ap (λ r. r.1) h in absurd (cc failed)
drawn-success (some a) c c' h = (pair_inj h).0

check_mechanism-success :
    (b : Bool) (c c' : ClientConn) {u : Unit {0}}
    → check_mechanism b c ≡ (c', success u)
    → (b ≡ true) × (c ≡ c')
unfolding reject
check_mechanism-success true c c' h = (refl, (pair_inj h).0)
check_mechanism-success false c c' h = let failed = ap (λ r. r.1) h in absurd (cc failed)

challenge-success :
    (draws : Option (Bytes × Bytes)) (c c' : ClientConn) {random salt initial : Bytes}
    → challenge draws c ≡ (c', success (random, salt, initial))
    → (c.replies ≡ sasl_initial_response scram_mechanism initial ∷ c'.replies)
      × (c'.sent ≡ c.sent ++ (authentication_sasl (scram_mechanism ∷ []) ∷ []))
unfolding challenge
challenge-success draws c c' {random} {salt} {initial} h =
    let (c₁, _, f₁, h₁) = bind_io-eq-success (flush _ c) _ h in
    let (c₂, drawn_bytes, d, h₂) = bind_io-eq-success (drawn draws c₁) _ h₁ in
    let (c₃, msg, r, h₃) = bind_io-eq-success (receive c₂) _ h₂ in
    let (c₄, (mechanism, first), i, h₄) = bind_io-eq-success (initial_of msg c₃) _ h₃ in
    let (c₅, _, m, h₅) =
      bind_io-eq-success (check_mechanism (mechanism == scram_mechanism) c₄) _ h₄ in
    let (e₆, same) = pair_inj h₅ in
    let (offered, e₅) = check_mechanism-success (mechanism == scram_mechanism) c₄ c₅ m in
    let (kind, e₄) = initial_of-success msg c₃ c₄ i in
    let (q₁, s₁) = flush-success _ c c₁ f₁ in
    let (q₃, s₃) = receive-success c₂ c₃ r in
    let e₂ = drawn-success draws c₁ c₂ d in
    let named = (string_eq.beq_iff mechanism scram_mechanism).0 offered in
    let e₃₆ : c₃ ≡ c' = e₄ ∙ e₅ ∙ e₆ in
    (
      q₁ ∙ ap (λ c. c.replies) e₂ ∙ q₃ ∙ rw (kind, named, ap (λ q. q.2) same, e₃₆) refl,
      sym (ap (λ c. c.sent) e₃₆) ∙ s₃ ∙ sym (ap (λ c. c.sent) e₂) ∙ s₁,
    )

verify-success :
    (p : Primitives) (waiting : Server) (c c' : ClientConn)
    → verify p waiting c ≡ (c', success tt)
    → (response answer : Bytes) × (c.replies ≡ sasl_response response ∷ c'.replies)
      × IsProven p waiting response answer
      × (c'.sent ≡ c.sent ++ (authentication_sasl_final answer ∷ (authentication_ok ∷ [])))
unfolding verify
verify-success p waiting c c' h =
    let (c₁, reply, r, h₁) = bind_io-eq-success (receive c) _ h in
    let (c₂, response, i, h₂) = bind_io-eq-success (response_of reply c₁) _ h₁ in
    let final = handle_client_final p waiting response in
    let (c₃, answer, a, h₃) =
      bind_io-eq-success (or_reject "password authentication failed" final c₂) _ h₂ in
    let (kind, e₂) = response_of-success reply c₁ c₂ i in
    let (accepted, e₃) = or_reject-success _ final c₂ c₃ a in
    let (q₁, s₁) = receive-success c c₁ r in
    let (q₄, s₄) = flush-success _ c₃ c' h₃ in
    let e₁₃ : c₁ ≡ c₃ = e₂ ∙ e₃ in
    (
      response,
      answer,
      q₁ ∙ rw kind (ap (λ l. sasl_response response ∷ l) (ap (λ c. c.replies) e₁₃ ∙ q₄)),
      (handle_client_final_iff p waiting response answer).0 accepted,
      s₄
          ∙ ap (λ l. l ++ (authentication_sasl_final answer ∷ (authentication_ok ∷ [])))
              (sym (ap (λ c. c.sent) e₁₃) ∙ s₁),
    )

-- A client that authenticateClient lets in has proved the password: it offered the mechanism, and
-- its response proves to a SCRAM server with that password what IsProven says. It has been sent the
-- challenge, the server's first message, its signature and AuthenticationOk, and no more.
pub authenticate_client-IsAuthentic :
    (p : Primitives) (draws : Option (Bytes × Bytes)) (password : Bytes)
    (client client' : ClientConn)
    → authenticate_client p draws password client ≡ (client', success tt)
    → IsAuthentic p password client client'
unfolding authenticate_client
authenticate_client-IsAuthentic p draws password client client' h =
    let (c₁, (random, salt, initial), f, h₁) = bind_io-eq-success (challenge draws client) _ h in
    let first = handle_client_first p (new_server p password random salt) initial in
    let (c₂, (waiting, server_first), a, h₂) =
      bind_io-eq-success (or_reject "SCRAM negotiation failed" first c₁) _ h₁ in
    let (c₃, _, g, h₃) = bind_io-eq-success (flush _ c₂) _ h₂ in
    let (answered, e₂) = or_reject-success _ first c₁ c₂ a in
    let (q₁, s₁) = challenge-success draws client c₁ f in
    let (q₃, s₃) = flush-success _ c₂ c₃ g in
    let (response, answer, q₄, proven, s₄) = verify-success p waiting c₃ client' h₃ in
    record {
      random = random;
      salt = salt;
      initial = initial;
      waiting = waiting;
      server_first = server_first;
      response = response;
      answer = answer;
      replies =
          q₁
          ∙ ap (λ l. sasl_initial_response scram_mechanism initial ∷ l)
              (ap (λ c. c.replies) e₂ ∙ q₃ ∙ q₄);
      offers = answered;
      proven = proven;
      sent =
          s₄
          ∙ ap (λ l. l ++ (authentication_sasl_final answer ∷ (authentication_ok ∷ [])))
              (s₃
                ∙ ap (λ l. l ++ (authentication_sasl_continue server_first ∷ []))
                    (sym (ap (λ c. c.sent) e₂) ∙ s₁));
    }
