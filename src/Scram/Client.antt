-- ===== src/Scram/Client.antt =====
-- internal/scram/scram.go: the client role.
use pgpilot.Base.{[], ◌∷◌, ◌++◌, Option, none, some}
use pgpilot.Base.Bytes.{bytes_beq, has_prefix}
use pgpilot.Base.Result.{Result, failure, success, or_else, check, ◌>>=◌}
use pgpilot.Scram.{
  Bytes, Primitives, ScramError, server_nonce, server_error, malformed_server_final,
  signature_encoding, signature_mismatch, gs2_header, channel_binding, attribute, next_attribute,
  client_key_text, server_key_text, field, xor_bytes, parse_server_first, new_nonce,
}

pub record Client : Type 0 where
  pub password : Bytes
  pub client_nonce : Bytes
  pub client_first_bare : Bytes
  pub server_signature : Bytes

-- The hash of both sides: client-first-bare, server-first and the final message without its proof.
abbrev pub auth_message : Bytes → Bytes → Bytes → Bytes
auth_message bare server_first without_proof =
    bare ++ (b',' ∷ (server_first ++ (b',' ∷ without_proof)))

-- "c=biws,r=" and the nonce
abbrev pub final_without_proof : Bytes → Bytes
final_without_proof nonce = attribute b'c' ++ (channel_binding ++ (next_attribute b'r' ++ nonce))

abbrev pub no_server_error : Option Bytes → Result ScramError (Unit {0})
no_server_error (some e) = failure server_error
no_server_error none = success tt

module _ (p : Primitives) where
  unfoldable pub new_client : Bytes → Bytes → Client
  new_client password random = record {
    password = password;
    client_nonce = new_nonce p random;
    client_first_bare = [];
    server_signature = [];
  }

  unfoldable pub first_message : Client → Client × Bytes
  first_message c =
      let bare = attribute b'n' ++ (next_attribute b'r' ++ c.client_nonce) in
      (record c { client_first_bare = bare }, gs2_header ++ bare)

  unfoldable pub handle_server_first : Client → Bytes → Result ScramError (Client × Bytes)
  handle_server_first c server_first = do
    (combined_nonce, salt, iterations) ← parse_server_first p server_first
    _ ← check server_nonce (has_prefix combined_nonce c.client_nonce)
    let salted = p.salted_password c.password salt iterations
    let client_key = p.hmac_sum salted client_key_text
    let stored_key = p.sha256_sum client_key
    let without_proof = final_without_proof combined_nonce
    let auth = auth_message c.client_first_bare server_first without_proof
    let client_signature = p.hmac_sum stored_key auth
    client_proof ← xor_bytes client_key client_signature
    let server_key = p.hmac_sum salted server_key_text
    success (
      record c { server_signature = p.hmac_sum server_key auth },
      without_proof ++ (next_attribute b'p' ++ p.encode client_proof),
    )

  unfoldable pub handle_server_final : Client → Bytes → Result ScramError (Unit {0})
  handle_server_final c server_final = do
    _ ← no_server_error (field server_final (attribute b'e'))
    v ← or_else malformed_server_final (field server_final (attribute b'v'))
    sig ← or_else signature_encoding (p.decode v)
    check signature_mismatch (bytes_beq sig c.server_signature)
