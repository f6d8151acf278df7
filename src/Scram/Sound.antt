-- ===== src/Scram/Sound.antt =====
-- What acceptance proves in internal/scram/scram.go, on either side, and which errors are possible.
use pgpilot.Base.{
  ℕ, ◌≡◌, ◌≢◌, ◌⊎◌, ◌↔◌, inl, inr, refl, sym, ap, true, false, ◌++◌, Option, none, some, length,
  take, nat_beq_iff, Bool-cases,
}
use pgpilot.Base.Bytes.{index}
use pgpilot.Base.Result.{
  Result, failure, success, or_else, check, >>=-eq-success, or_else-eq-success, check-eq-success,
}
use pgpilot.Scram.{
  Bytes, Primitives, ScramError, auth_failed, channel_binding_final, nonce_mismatch, missing_proof,
  proof_encoding, proof_length, malformed_client_final, hash_size, channel_binding, attribute,
  next_attribute, field, xor_bytes,
}
use pgpilot.Scram.Client.{auth_message}
use pgpilot.Scram.Server.{Server, is_value, handle_client_final}
use pgpilot.Scram.Fields.{bytes_beq-eq, bytes_beq_refl}

pub is_value-eq : (v : Bytes) (o : Option Bytes) → is_value v o ≡ true → o ≡ some v
is_value-eq v none h = absurd (cc h)
is_value-eq v (some w) h = ap some (bytes_beq-eq w v h)

-- A final message of this exchange whose proof yields, with the signature of the messages that
-- were exchanged, a key that hashes to the stored key.
pub record IsProven (p : Primitives) (s : Server) (message answer : Bytes) : Type 0 where
  pub encoded : Bytes
  pub proof : Bytes
  pub place : ℕ
  pub key : Bytes
  pub binds : field message (attribute b'c') ≡ some channel_binding
  pub same_nonce : field message (attribute b'r') ≡ some (s.client_nonce ++ s.server_nonce)
  pub carries : field message (attribute b'p') ≡ some encoded
  pub decodes : p.decode encoded ≡ some proof
  pub full : length proof ≡ hash_size
  pub stands : index message (next_attribute b'p') ≡ some place
  pub yields :
      xor_bytes proof (
        p.hmac_sum s.stored_key
          (auth_message s.client_first_bare s.server_first (take place message)))
      ≡ success key
  pub preimage : p.sha256_sum key ≡ s.stored_key
  pub signed :
      answer
      ≡ attribute b'v'
        ++ p.encode (
            p.hmac_sum s.server_key
              (auth_message s.client_first_bare s.server_first (take place message)))

success_inj : {A : Type 0} {x y : A} → ◌≡◌ {A = Result ScramError A} (success x) (success y) → x ≡ y
success_inj h = cc

handle_client_final-IsProven :
    (p : Primitives) (s : Server) (message answer : Bytes)
    → handle_client_final p s message ≡ success answer
    → IsProven p s message answer
unfolding handle_client_final
handle_client_final-IsProven p s message answer h =
    let (_, b, h₁) = >>=-eq-success (check channel_binding_final _) _ h in
    let (_, n, h₂) = >>=-eq-success (check nonce_mismatch _) _ h₁ in
    let (encoded, c, h₃) = >>=-eq-success (or_else missing_proof _) _ h₂ in
    let (proof, d, h₄) = >>=-eq-success (or_else proof_encoding _) _ h₃ in
    let (_, l, h₅) = >>=-eq-success (check proof_length _) _ h₄ in
    let (place, i, h₆) = >>=-eq-success (or_else malformed_client_final _) _ h₅ in
    let (key, x, h₇) = >>=-eq-success (xor_bytes proof _) _ h₆ in
    let (_, e, h₈) = >>=-eq-success (check auth_failed _) _ h₇ in
    record {
      encoded = encoded;
      proof = proof;
      place = place;
      key = key;
      binds = is_value-eq _ _ (check-eq-success _ _ b);
      same_nonce = is_value-eq _ _ (check-eq-success _ _ n);
      carries = or_else-eq-success _ _ c;
      decodes = or_else-eq-success _ _ d;
      full = (nat_beq_iff _ _).0 (check-eq-success _ _ l);
      stands = or_else-eq-success _ _ i;
      yields = x;
      preimage = bytes_beq-eq _ _ (check-eq-success _ _ e);
      signed = sym (success_inj h₈);
    }

IsProven-handle_client_final :
    (p : Primitives) (s : Server) (message answer : Bytes)
    → IsProven p s message answer
    → handle_client_final p s message ≡ success answer
unfolding handle_client_final
IsProven-handle_client_final p s message answer v =
    rw
      (
        v.binds,
        v.same_nonce,
        bytes_beq_refl (s.client_nonce ++ s.server_nonce),
        v.carries,
        v.decodes,
        v.full,
        v.stands,
        v.yields,
        v.preimage,
        bytes_beq_refl s.stored_key,
      )
      (ap success (sym v.signed))

-- The server accepts exactly the final messages of its own exchange that prove the password: with
-- the binding of no channel, with both nonces, and with a proof of 32 bytes that, combined with the
-- signature of the exchanged messages, hashes to the stored key. It answers with its signature.
pub handle_client_final_iff :
    (p : Primitives) (s : Server) (message answer : Bytes)
    → (handle_client_final p s message ≡ success answer) ↔ IsProven p s message answer
handle_client_final_iff p s message answer = (
  handle_client_final-IsProven p s message answer,
  IsProven-handle_client_final p s message answer,
)

is_value-ne : (v : Bytes) (o : Option Bytes) → o ≢ some v → is_value v o ≡ false
is_value-ne v o h = elim (Bool-cases (is_value v o)) [
  | inl e ↦ absurd (h (is_value-eq v o e))
  | inr e ↦ e
]

-- A final message with any other nonce than that of this exchange, such as a recorded one, is
-- refused before its proof is looked at: for its channel binding or for the nonce.
pub handle_client_final-refuses :
    (p : Primitives) (s : Server) (message : Bytes)
    → field message (attribute b'r') ≢ some (s.client_nonce ++ s.server_nonce)
    → (handle_client_final p s message ≡ failure channel_binding_final)
      ⊎ (handle_client_final p s message ≡ failure nonce_mismatch)
unfolding handle_client_final
handle_client_final-refuses p s message h =
    elim (Bool-cases (is_value channel_binding (field message (attribute b'c')))) [
      | inl e ↦ inr (rw (e, is_value-ne _ _ h) refl)
      | inr e ↦ inl (rw e refl)
    ]
