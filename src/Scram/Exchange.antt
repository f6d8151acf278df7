-- ===== src/Scram/Exchange.antt =====
-- The whole exchange of internal/scram/scram.go: client-first, server-first, client-final and
-- server-final, each message handed to the other side as it stands.
use pgpilot.Base.{
  ℕ, suc, ◌^◌, ◌<◌, ◌≡◌, refl, sym, ◌∙◌, true, ◌++◌, some, arith, length, take-append, All-append,
}
use pgpilot.Base.Bytes.{has_prefix, index}
use pgpilot.Base.Int.{pos}
use pgpilot.Base.Result.{Result, success, ◌>>=◌}
use pgpilot.Scram.{
  Bytes, Primitives, ScramError, default_iterations, hash_size, channel_binding, attribute,
  next_attribute, client_key_text, server_key_text, field, xor_bytes, parse_server_first, new_nonce,
}
use pgpilot.Scram.Client.{
  Client, auth_message, final_without_proof, new_client, first_message, handle_server_first,
  handle_server_final,
}
use pgpilot.Scram.Server.{
  Server, new_server, answer_first, handle_client_first, handle_client_final,
}
use pgpilot.Scram.Fields.{
  NoComma, field_first, field_later, field_last, field_absent, index-append, bytes_beq_refl,
  has_prefix-append, xor_bytes-total,
}

-- What the packages of the standard library document: base64 decodes what it encodes, and neither
-- its alphabet nor a decimal number has a comma; Atoi reads what Itoa writes; a hash over SHA-256
-- has 32 bytes.
pub record IsDocumented (p : Primitives) : Type 0 where
  pub hmac_size : (key msg : Bytes) → length (p.hmac_sum key msg) ≡ hash_size
  pub decode-encode : (b : Bytes) → p.decode (p.encode b) ≡ some b
  pub encode-NoComma : (b : Bytes) → NoComma (p.encode b)
  pub raw_encode-NoComma : (b : Bytes) → NoComma (p.raw_encode b)
  pub itoa-NoComma : (n : ℕ) → NoComma (p.itoa n)
  pub atoi-itoa : (n : ℕ) → n < 2 ^ 63 → p.atoi (p.itoa n) ≡ some (pos n)

unfoldable pub exchange : Primitives → Client → Server → Result ScramError (Unit {0})
exchange p client server = do
  (waiting, answer) ← handle_client_first p server (first_message p client).1
  (proving, client_final) ← handle_server_first p (first_message p client).0 answer
  server_final ← handle_client_final p waiting client_final
  handle_server_final p proving server_final

abbrev server_first_of : Bytes → Bytes → Bytes → Bytes
server_first_of nonce salt iterations =
    attribute b'r'
    ++ (nonce ++ (next_attribute b's' ++ (salt ++ (next_attribute b'i' ++ iterations))))

abbrev client_final_of : Bytes → Bytes → Bytes
client_final_of nonce proof = final_without_proof nonce ++ (next_attribute b'p' ++ proof)

server_first_nonce :
    (n s i : Bytes) → NoComma n → field (server_first_of n s i) (attribute b'r') ≡ some n
server_first_nonce n s i h =
    field_first (attribute b'r' ++ n) _ (attribute b'r') (refl, (refl, h)) refl

server_first_salt :
    (n s i : Bytes)
    → NoComma n
    → NoComma s
    → field (server_first_of n s i) (attribute b's') ≡ some s
server_first_salt n s i h k =
    field_later (attribute b'r' ++ n) _ (attribute b's') (refl, (refl, h)) refl
    ∙ field_first (attribute b's' ++ s) _ (attribute b's') (refl, (refl, k)) refl

server_first_iterations :
    (n s i : Bytes)
    → NoComma n
    → NoComma s
    → NoComma i
    → field (server_first_of n s i) (attribute b'i') ≡ some i
server_first_iterations n s i h k l =
    field_later (attribute b'r' ++ n) _ (attribute b'i') (refl, (refl, h)) refl
    ∙ field_later (attribute b's' ++ s) _ (attribute b'i') (refl, (refl, k)) refl
    ∙ field_last (attribute b'i' ++ i) (attribute b'i') (refl, (refl, l)) refl

binding-NoComma : NoComma (attribute b'c' ++ channel_binding)
binding-NoComma = (refl, (refl, (refl, (refl, (refl, (refl, tt))))))

client_final_binding :
    (n e : Bytes) → field (client_final_of n e) (attribute b'c') ≡ some channel_binding
client_final_binding n e =
    field_first (attribute b'c' ++ channel_binding) _ (attribute b'c') binding-NoComma refl

client_final_nonce :
    (n e : Bytes) → NoComma n → field (client_final_of n e) (attribute b'r') ≡ some n
client_final_nonce n e h =
    field_later (attribute b'c' ++ channel_binding) _ (attribute b'r') binding-NoComma refl
    ∙ field_first (attribute b'r' ++ n) _ (attribute b'r') (refl, (refl, h)) refl

client_final_proof :
    (n e : Bytes) → NoComma n → NoComma e → field (client_final_of n e) (attribute b'p') ≡ some e
client_final_proof n e h k =
    field_later (attribute b'c' ++ channel_binding) _ (attribute b'p') binding-NoComma refl
    ∙ field_later (attribute b'r' ++ n) _ (attribute b'p') (refl, (refl, h)) refl
    ∙ field_last (attribute b'p' ++ e) (attribute b'p') (refl, (refl, k)) refl

client_final_index :
    (n e : Bytes)
    → NoComma n
    → index (client_final_of n e) (next_attribute b'p') ≡ some (length (final_without_proof n))
client_final_index n e h = rw (index-append n _ (attribute b'p') h refl) refl

module _ (p : Primitives) (laws : IsDocumented p) where
  parse_server_first_of :
      (n s : Bytes) (i : ℕ)
      → NoComma n
      → suc i < 2 ^ 63
      → parse_server_first p (server_first_of n (p.encode s) (p.itoa (suc i)))
        ≡ success (n, s, suc i)
  unfolding parse_server_first
  parse_server_first_of n s i h small =
      let k = laws.encode-NoComma s in
      let l = laws.itoa-NoComma (suc i) in
      rw
        (
          server_first_nonce n (p.encode s) (p.itoa (suc i)) h,
          server_first_salt n (p.encode s) (p.itoa (suc i)) h k,
          server_first_iterations n (p.encode s) (p.itoa (suc i)) h k l,
          laws.decode-encode s,
          laws.atoi-itoa (suc i) small,
        )
        refl

  abbrev bare_first : Bytes → Bytes
  bare_first nonce = attribute b'n' ++ (next_attribute b'r' ++ nonce)

  handle_client_first_of :
      (c : Client) (s : Server)
      → NoComma c.client_nonce
      → handle_client_first p s (first_message p c).1
        ≡ success (
            answer_first p
              (record s { client_first_bare = bare_first c.client_nonce })
              c.client_nonce)
  unfolding handle_client_first first_message
  handle_client_first_of c s h =
      rw
        (
          field_later (attribute b'n') (attribute b'r' ++ c.client_nonce) (attribute b'r')
              (refl, (refl, tt)) refl,
          field_last (attribute b'r' ++ c.client_nonce) (attribute b'r') (refl, (refl, h)) refl,
        )
        refl

  handle_server_first_of :
      (c : Client) (nonce salt proof : Bytes) (i : ℕ)
      → NoComma nonce
      → suc i < 2 ^ 63
      → has_prefix nonce c.client_nonce ≡ true
      → let first = server_first_of nonce (p.encode salt) (p.itoa (suc i)) in
        let auth = auth_message c.client_first_bare first (final_without_proof nonce) in
        let salted = p.salted_password c.password salt (suc i) in
        let key = p.hmac_sum salted client_key_text in
        xor_bytes key (p.hmac_sum (p.sha256_sum key) auth) ≡ success proof
        → handle_server_first p c first
          ≡ success (
            record c { server_signature = p.hmac_sum (p.hmac_sum salted server_key_text) auth },
            client_final_of nonce (p.encode proof),
          )
  unfolding handle_server_first
  handle_server_first_of c nonce salt proof i h small pre made =
      rw (parse_server_first_of nonce salt i h small) (rw pre (rw made refl))

  handle_client_final_of :
      (s : Server) (key proof : Bytes)
      → NoComma (s.client_nonce ++ s.server_nonce)
      → length proof ≡ hash_size
      → let nonce = s.client_nonce ++ s.server_nonce in
        let auth = auth_message s.client_first_bare s.server_first (final_without_proof nonce) in
        xor_bytes proof (p.hmac_sum s.stored_key auth) ≡ success key
        → p.sha256_sum key ≡ s.stored_key
        → handle_client_final p s (client_final_of nonce (p.encode proof))
          ≡ success (attribute b'v' ++ p.encode (p.hmac_sum s.server_key auth))
  unfolding handle_client_final
  handle_client_final_of s key proof h size undone stored =
      let nonce = s.client_nonce ++ s.server_nonce in
      let e = p.encode proof in
      rw
        (
          client_final_binding nonce e,
          client_final_nonce nonce e h,
          bytes_beq_refl nonce,
          client_final_proof nonce e h (laws.encode-NoComma proof),
          laws.decode-encode proof,
          size,
          client_final_index nonce e h,
          take-append (final_without_proof nonce) (next_attribute b'p' ++ e),
          undone,
          stored,
          bytes_beq_refl s.stored_key,
        )
        refl

  handle_server_final_of :
      (c : Client)
      → handle_server_final p c (attribute b'v' ++ p.encode c.server_signature) ≡ success tt
  unfolding handle_server_final
  handle_server_final_of c =
      let v = p.encode c.server_signature in
      let h : NoComma (attribute b'v' ++ v) =
        (refl, (refl, laws.encode-NoComma c.server_signature)) in
      rw
        (
          field_absent (attribute b'v' ++ v) (attribute b'e') h refl,
          field_last (attribute b'v' ++ v) (attribute b'v') h refl,
          laws.decode-encode c.server_signature,
          bytes_beq_refl c.server_signature,
        )
        refl

  -- A client and a server with the same password accept each other, whatever random bytes they
  -- draw and whatever the salt: every message of the one is read by the other, the server verifies
  -- the proof and the client verifies the signature.
  pub exchange-accepts :
      (password random random_of_server salt : Bytes)
      → exchange p (new_client p password random) (new_server p password random_of_server salt)
        ≡ success tt
  unfolding exchange new_client new_server new_nonce first_message
  exchange-accepts password random random_of_server salt =
      let c = new_client p password random in
      let s = new_server p password random_of_server salt in
      let h = laws.raw_encode-NoComma random in
      let nonce = c.client_nonce ++ s.server_nonce in
      let k : NoComma nonce =
        All-append _ c.client_nonce s.server_nonce h (laws.raw_encode-NoComma random_of_server) in
      let key = p.hmac_sum (p.salted_password password salt default_iterations) client_key_text in
      let first = server_first_of nonce (p.encode salt) (p.itoa default_iterations) in
      let auth = auth_message (bare_first c.client_nonce) first (final_without_proof nonce) in
      let signature = p.hmac_sum (p.sha256_sum key) auth in
      let (proof, made, size, undone) =
        xor_bytes-total key signature (laws.hmac_size _ _ ∙ sym (laws.hmac_size _ _)) in
      let (proving, _) = first_message p c in
      let (waiting, _) =
        answer_first p (record s { client_first_bare = bare_first c.client_nonce })
          c.client_nonce in
      rw
        (
          handle_client_first_of c s h,
          handle_server_first_of proving nonce salt proof 4095 k (omega arith)
              (has_prefix-append c.client_nonce s.server_nonce) made,
          handle_client_final_of waiting key proof k (size ∙ laws.hmac_size _ _) undone refl,
          handle_server_final_of _,
        )
        refl
