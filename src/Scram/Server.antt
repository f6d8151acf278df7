-- ===== src/Scram/Server.antt =====
-- internal/scram/scram.go: the server role.
use pgpilot.Base.{
  ℕ, Bool, false, not, [], ◌∷◌, ◌++◌, Option, none, some, length, take, if◌then◌else◌, nat_beq,
}
use pgpilot.Base.Bytes.{bytes_beq, has_prefix, index}
use pgpilot.Base.Result.{Result, success, or_else, check, ◌>>=◌}
use pgpilot.Scram.{
  Bytes, Primitives, ScramError, auth_failed, channel_binding_first, malformed_client_first,
  missing_nonce, channel_binding_final, nonce_mismatch, missing_proof, proof_encoding, proof_length,
  malformed_client_final, default_iterations, hash_size, channel_binding, attribute, next_attribute,
  client_key_text, server_key_text, field, xor_bytes, new_nonce,
}
use pgpilot.Scram.Client.{auth_message}

pub record Server : Type 0 where
  pub password : Bytes
  pub client_nonce : Bytes
  pub server_nonce : Bytes
  pub salt : Bytes
  pub iterations : ℕ
  pub client_first_bare : Bytes
  pub server_first : Bytes
  pub stored_key : Bytes
  pub server_key : Bytes

-- What follows the first comma.
abbrev pub after_comma : Bytes → Option Bytes
after_comma [] = none
after_comma (c ∷ cs) = if nat_beq c b',' then some cs else after_comma cs

-- The text after the second comma.
abbrev pub bare_of : Bytes → Result ScramError Bytes
bare_of client_first = do
  rest ← or_else malformed_client_first (after_comma client_first)
  or_else malformed_client_first (after_comma rest)

-- Whether the attribute is there with this value.
abbrev pub is_value : Bytes → Option Bytes → Bool
is_value expected none = false
is_value expected (some value) = bytes_beq value expected

module _ (p : Primitives) where
  unfoldable pub new_server : Bytes → Bytes → Bytes → Server
  new_server password random salt = record {
    password = password;
    client_nonce = [];
    server_nonce = new_nonce p random;
    salt = salt;
    iterations = default_iterations;
    client_first_bare = [];
    server_first = [];
    stored_key = [];
    server_key = [];
  }

  -- The rest of HandleClientFirst once the nonce is known.
  abbrev pub answer_first : Server → Bytes → Server × Bytes
  answer_first s nonce =
      let first =
        attribute b'r'
        ++ ((nonce ++ s.server_nonce)
            ++ (next_attribute b's'
                ++ (p.encode s.salt ++ (next_attribute b'i' ++ p.itoa s.iterations)))) in
      let salted = p.salted_password s.password s.salt s.iterations in
      (
        record s {
          client_nonce = nonce;
          server_first = first;
          stored_key = p.sha256_sum (p.hmac_sum salted client_key_text);
          server_key = p.hmac_sum salted server_key_text;
        },
        first,
      )

  -- An error leaves the exchange, and its server, behind.
  unfoldable pub handle_client_first : Server → Bytes → Result ScramError (Server × Bytes)
  handle_client_first s client_first = do
    _ ← check channel_binding_first (not (has_prefix client_first (attribute b'p')))
    bare ← bare_of client_first
    nonce ← or_else missing_nonce (field bare (attribute b'r'))
    success (answer_first (record s { client_first_bare = bare }) nonce)

  unfoldable pub handle_client_final : Server → Bytes → Result ScramError Bytes
  handle_client_final s client_final = do
    _ ← check channel_binding_final (is_value channel_binding (field client_final (attribute b'c')))
    _ ←
        check nonce_mismatch
          (is_value (s.client_nonce ++ s.server_nonce) (field client_final (attribute b'r')))
    p_enc ← or_else missing_proof (field client_final (attribute b'p'))
    client_proof ← or_else proof_encoding (p.decode p_enc)
    _ ← check proof_length (nat_beq (length client_proof) hash_size)
    idx ← or_else malformed_client_final (index client_final (next_attribute b'p'))
    let auth = auth_message s.client_first_bare s.server_first (take idx client_final)
    client_key ← xor_bytes client_proof (p.hmac_sum s.stored_key auth)
    _ ← check auth_failed (bytes_beq (p.sha256_sum client_key) s.stored_key)
    success (attribute b'v' ++ p.encode (p.hmac_sum s.server_key auth))
