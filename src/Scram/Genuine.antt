-- ===== src/Scram/Genuine.antt =====
-- The client's side of internal/scram/scram.go: whom it accepts; and that neither side indexes a
-- hash out of range.
use pgpilot.Base.{
  ℕ, zero, suc, ◌≡◌, ◌≢◌, refl, sym, ap, ◌∙◌, Bool, true, false, ◌++◌, Option, none, some, length,
  take, nat_beq, nat_beq_iff,
}
use pgpilot.Base.Bytes.{bytes_beq, has_prefix, index}
use pgpilot.Base.Int.{ℤ, pos, negsuc}
use pgpilot.Base.Result.{
  Result, failure, success, or_else, check, >>=-eq-success, or_else-eq-success, check-eq-success,
  >>=-eq-failure, success-ne-failure,
}
use pgpilot.Scram.{
  Bytes, Primitives, ScramError, auth_failed, channel_binding_final, nonce_mismatch, missing_nonce,
  missing_salt, missing_iterations, salt_encoding, malformed_server_final, signature_encoding,
  missing_proof, proof_encoding, proof_length, malformed_client_final, out_of_range, server_nonce,
  hash_size, channel_binding, attribute, next_attribute, client_key_text, server_key_text, field,
  xor_bytes, at_least_one, parse_server_first,
}
use pgpilot.Scram.Client.{
  Client, auth_message, final_without_proof, handle_server_first, handle_server_final,
  no_server_error,
}
use pgpilot.Scram.Server.{Server, is_value, handle_client_final}
use pgpilot.Scram.Fields.{bytes_beq-eq, xor_bytes-total}

abbrev pub InRange : {A : Type 0} → Result ScramError A → Type 0
InRange r = r ≢ failure out_of_range

or_else-ne : {A : Type 0} (e e' : ScramError) (o : Option A) → e ≢ e' → or_else e o ≢ failure e'
or_else-ne e e' none h = λ g. let same : e ≡ e' = cc in h same
or_else-ne e e' (some a) h = λ g. cc

check-ne : (e e' : ScramError) (b : Bool) → e ≢ e' → check e b ≢ failure e'
check-ne e e' true h = λ g. cc
check-ne e e' false h = λ g. let same : e ≡ e' = cc in h same

xor_bytes-InRange : (a b : Bytes) → length a ≡ length b → InRange (xor_bytes a b)
xor_bytes-InRange a b h = let (out, made, _, _) = xor_bytes-total a b h in λ g. cc

at_least_one-InRange : (n : Option ℤ) → InRange (at_least_one n)
at_least_one-InRange none = λ g. cc
at_least_one-InRange (some (pos zero)) = λ g. cc
at_least_one-InRange (some (pos (suc n))) = λ g. cc
at_least_one-InRange (some (negsuc n)) = λ g. cc

parse_server_first-InRange : (p : Primitives) (s : Bytes) → InRange (parse_server_first p s)
unfolding parse_server_first
parse_server_first-InRange p s h =
    let nonce = field s (attribute b'r') in
    let salt = field s (attribute b's') in
    let iterations = field s (attribute b'i') in
    let (_, _, h₁) =
      >>=-eq-failure (or_else missing_nonce nonce) _ h (or_else-ne _ _ nonce (λ e. cc)) in
    let (salt_enc, _, h₂) =
      >>=-eq-failure (or_else missing_salt salt) _ h₁ (or_else-ne _ _ salt (λ e. cc)) in
    let (iter_str, _, h₃) =
      >>=-eq-failure (or_else missing_iterations iterations) _ h₂
        (or_else-ne _ _ iterations (λ e. cc)) in
    let (_, _, h₄) =
      >>=-eq-failure (or_else salt_encoding (p.decode salt_enc)) _ h₃
        (or_else-ne _ _ (p.decode salt_enc) (λ e. cc)) in
    let (_, _, h₅) =
      >>=-eq-failure (at_least_one (p.atoi iter_str)) _ h₄ (at_least_one-InRange _) in
    success-ne-failure _ _ h₅

-- With hashes of 32 bytes no message, however malformed, makes the server index one out of range.
pub handle_client_final-InRange :
    (p : Primitives)
    → ((key msg : Bytes) → length (p.hmac_sum key msg) ≡ hash_size)
    → (s : Server) (message : Bytes) → InRange (handle_client_final p s message)
unfolding handle_client_final
handle_client_final-InRange p size s message h =
    let cb = is_value channel_binding (field message (attribute b'c')) in
    let r = is_value (s.client_nonce ++ s.server_nonce) (field message (attribute b'r')) in
    let p_enc = field message (attribute b'p') in
    let idx = index message (next_attribute b'p') in
    let (_, _, h₁) =
      >>=-eq-failure (check channel_binding_final cb) _ h (check-ne _ _ cb (λ e. cc)) in
    let (_, _, h₂) = >>=-eq-failure (check nonce_mismatch r) _ h₁ (check-ne _ _ r (λ e. cc)) in
    let (encoded, _, h₃) =
      >>=-eq-failure (or_else missing_proof p_enc) _ h₂ (or_else-ne _ _ p_enc (λ e. cc)) in
    let (proof, _, h₄) =
      >>=-eq-failure (or_else proof_encoding (p.decode encoded)) _ h₃
        (or_else-ne _ _ (p.decode encoded) (λ e. cc)) in
    let sized = nat_beq (length proof) hash_size in
    let (_, l, h₅) =
      >>=-eq-failure (check proof_length sized) _ h₄ (check-ne _ _ sized (λ e. cc)) in
    let (place, _, h₆) =
      >>=-eq-failure (or_else malformed_client_final idx) _ h₅ (or_else-ne _ _ idx (λ e. cc)) in
    let full = (nat_beq_iff _ _).0 (check-eq-success proof_length _ l) in
    let auth = auth_message s.client_first_bare s.server_first (take place message) in
    let (key, _, h₇) =
      >>=-eq-failure (xor_bytes proof (p.hmac_sum s.stored_key auth)) _ h₆
        (xor_bytes-InRange _ _ (full ∙ sym (size _ _))) in
    let stored = bytes_beq (p.sha256_sum key) s.stored_key in
    let (_, _, h₈) =
      >>=-eq-failure (check auth_failed stored) _ h₇ (check-ne _ _ stored (λ e. cc)) in
    success-ne-failure _ _ h₈

-- Nor the client.
pub handle_server_first-InRange :
    (p : Primitives)
    → ((key msg : Bytes) → length (p.hmac_sum key msg) ≡ hash_size)
    → (c : Client) (message : Bytes) → InRange (handle_server_first p c message)
unfolding handle_server_first
handle_server_first-InRange p size c message h =
    let ((nonce, salt, i), _, h₁) =
      >>=-eq-failure (parse_server_first p message) _ h (parse_server_first-InRange p message) in
    let extends = has_prefix nonce c.client_nonce in
    let (_, _, h₂) =
      >>=-eq-failure (check server_nonce extends) _ h₁ (check-ne _ _ extends (λ e. cc)) in
    let key = p.hmac_sum (p.salted_password c.password salt i) client_key_text in
    let auth = auth_message c.client_first_bare message (final_without_proof nonce) in
    let (_, _, h₃) =
      >>=-eq-failure (xor_bytes key (p.hmac_sum (p.sha256_sum key) auth)) _ h₂
        (xor_bytes-InRange _ _ (size _ _ ∙ sym (size _ _))) in
    success-ne-failure _ _ h₃

-- What a client that has accepted a server-final message knows of the server.
pub record IsGenuine (p : Primitives) (c : Client) (first last : Bytes) : Type 0 where
  pub nonce : Bytes
  pub salt : Bytes
  pub iterations : ℕ
  pub encoded : Bytes
  pub offers : parse_server_first p first ≡ success (nonce, salt, iterations)
  pub extends : has_prefix nonce c.client_nonce ≡ true
  pub without_error : field last (attribute b'e') ≡ none
  pub carries : field last (attribute b'v') ≡ some encoded
  pub signs :
      p.decode encoded
      ≡ some (
          p.hmac_sum
            (p.hmac_sum (p.salted_password c.password salt iterations) server_key_text)
            (auth_message c.client_first_bare first (final_without_proof nonce)))

no_server_error-eq : (o : Option Bytes) {u : Unit {0}} → no_server_error o ≡ success u → o ≡ none
no_server_error-eq none h = refl
no_server_error-eq (some e) h = absurd (cc h)

pair_fst :
    {c c' : Client} {a b : Bytes}
    → ◌≡◌ {A = Result ScramError (Client × Bytes)} (success (c, a)) (success (c', b))
    → c ≡ c'
pair_fst h = cc h

-- A server whose final message the client accepts has extended the client's nonce and has signed
-- this exchange with the server key of the client's own password.
pub handle_server_final-IsGenuine :
    (p : Primitives) (c c' : Client) (first final last : Bytes)
    → handle_server_first p c first ≡ success (c', final)
    → handle_server_final p c' last ≡ success tt
    → IsGenuine p c first last
unfolding handle_server_first handle_server_final
handle_server_final-IsGenuine p c c' first final last h k =
    let ((nonce, salt, i), o, h₁) = >>=-eq-success (parse_server_first p first) _ h in
    let (_, e, h₂) = >>=-eq-success (check server_nonce _) _ h₁ in
    let (proof, x, h₃) = >>=-eq-success (xor_bytes _ _) _ h₂ in
    let (_, n, k₁) = >>=-eq-success (no_server_error _) _ k in
    let (encoded, v, k₂) = >>=-eq-success (or_else malformed_server_final _) _ k₁ in
    let (sig, d, k₃) = >>=-eq-success (or_else signature_encoding _) _ k₂ in
    record {
      nonce = nonce;
      salt = salt;
      iterations = i;
      encoded = encoded;
      offers = o;
      extends = check-eq-success _ _ e;
      without_error = no_server_error-eq _ n;
      carries = or_else-eq-success _ _ v;
      signs =
          or_else-eq-success _ _ d
          ∙ ap some (
              bytes_beq-eq _ _ (check-eq-success _ _ k₃)
              ∙ ap (λ c. c.server_signature) (sym (pair_fst h₃)));
    }
