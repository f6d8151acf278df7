-- ===== src/Tests/Scram.antt =====
-- Runs of internal/scram/scram.go on simple functions in place of the hashes and of base64.
use pgpilot.Base.{
  ℕ, ◌+◌, ◌-◌, ◌≡◌, ◌≢◌, ◌↔◌, ◌⊎◌, refl, ap, true, false, [], ◌∷◌, ◌++◌, Option, none, some, arith,
  length, take, length-take, length-append, if◌then◌else◌, nat_beq, map, ltb,
}
use pgpilot.Base.Int.{ℤ, pos}
use pgpilot.Base.Result.{success, failure, >>=-eq-success}
use pgpilot.Scram.{
  Bytes, Primitives, channel_binding_final, nonce_mismatch, hash_size, attribute, field,
  first_value, new_nonce,
}
use pgpilot.Scram.Client.{
  Client, new_client, first_message, handle_server_first, handle_server_final,
}
use pgpilot.Scram.Server.{Server, is_value, new_server, handle_client_first, handle_client_final}
use pgpilot.Scram.Fields.{NoComma}
use pgpilot.Scram.Exchange.{IsDocumented, exchange, exchange-accepts}
use pgpilot.Scram.Sound.{IsProven, handle_client_final_iff, handle_client_final-refuses}
use pgpilot.Scram.Genuine.{
  InRange, IsGenuine, handle_client_final-InRange, handle_server_final-IsGenuine,
}

-- The bytes but the comma, and back.
abbrev shift : ℕ → ℕ
shift c = if ltb c 44 then c else c + 1

abbrev unshift : ℕ → ℕ
unshift c = if ltb c 44 then c else c - 1

abbrev zeros : Bytes
zeros =
    let eight : Bytes → Bytes = λ l. 0 ∷ (0 ∷ (0 ∷ (0 ∷ (0 ∷ (0 ∷ (0 ∷ (0 ∷ l))))))) in
    eight (eight (eight (eight [])))

abbrev atoi : Bytes → Option ℤ
atoi (c ∷ []) = some (pos (unshift c))
atoi _ = none

abbrev pub primitives : Primitives
primitives = record {
  hmac_sum = λ key msg. take 32 ((key ++ msg) ++ zeros);
  sha256_sum = λ b. b;
  salted_password = λ password salt i. password ++ salt;
  encode = map shift;
  decode = λ b. some (map unshift b);
  raw_encode = map shift;
  itoa = λ n. shift n ∷ [];
  atoi = atoi;
}

hmac_size : (key msg : Bytes) → length (primitives.hmac_sum key msg) ≡ hash_size
hmac_size key msg =
    let n : length ((key ++ msg) ++ zeros) ≡ length (key ++ msg) + 32 =
      length-append (key ++ msg) zeros in
    omega (arith, length-take 32 ((key ++ msg) ++ zeros), n)

unshift-shift : (c : ℕ) → unshift (shift c) ≡ c
unshift-shift c = ground arith

shift-ne-comma : (c : ℕ) → nat_beq (shift c) b',' ≡ false
shift-ne-comma c = ground arith

unshift_all : (b : Bytes) → map unshift (map shift b) ≡ b
unshift_all [] = refl
unshift_all (c ∷ cs) = rw (unshift-shift c, unshift_all cs) refl

shift-NoComma : (b : Bytes) → NoComma (map shift b)
shift-NoComma [] = tt
shift-NoComma (c ∷ cs) = (shift-ne-comma c, shift-NoComma cs)

pub documented : IsDocumented primitives
documented = record {
  hmac_size = hmac_size;
  decode-encode = λ b. ap some (unshift_all b);
  encode-NoComma = shift-NoComma;
  raw_encode-NoComma = shift-NoComma;
  itoa-NoComma = λ n. (shift-ne-comma n, tt);
  atoi-itoa = λ n h. ap (λ m. some (pos m)) (unshift-shift n);
}

abbrev pub password : Bytes
password = b'p' ∷ b'w' ∷ []

abbrev pub salt : Bytes
salt = 7 ∷ []

abbrev pub client : Client
client = new_client primitives password (b'a' ∷ [])

abbrev pub server : Server
server = new_server primitives password (b'b' ∷ []) salt

exchange-accepts_example : exchange primitives client server ≡ success tt
exchange-accepts_example =
    exchange-accepts primitives documented password (b'a' ∷ []) (b'b' ∷ []) salt

abbrev forged : Bytes
forged = attribute b'c' ++ (b'b' ∷ [])

handle_client_final_iff_example :
    (handle_client_final primitives server forged ≡ success [])
    ↔ IsProven primitives server forged []
handle_client_final_iff_example = handle_client_final_iff primitives server forged []

-- A message with the nonce `x`.
abbrev replayed : Bytes
replayed = attribute b'r' ++ (b'x' ∷ [])

replayed_nonce : field replayed (attribute b'r') ≢ some (server.client_nonce ++ server.server_nonce)
unfolding field first_value new_server new_nonce
replayed_nonce h =
    let known : is_value (b'x' ∷ []) (field replayed (attribute b'r'))
        ≡ is_value (b'x' ∷ []) (some (server.client_nonce ++ server.server_nonce)) =
      ap (is_value (b'x' ∷ [])) h in
    let absurdity : true ≡ false = known in absurd (cc absurdity)

handle_client_final-refuses_run :
    (handle_client_final primitives server replayed ≡ failure channel_binding_final)
    ⊎ (handle_client_final primitives server replayed ≡ failure nonce_mismatch)
handle_client_final-refuses_run =
    handle_client_final-refuses primitives server replayed replayed_nonce

handle_client_final-InRange_example : InRange (handle_client_final primitives server forged)
handle_client_final-InRange_example = handle_client_final-InRange primitives hmac_size server forged

-- The messages of the exchange that succeeds.
played :
    (first final last : Bytes) × (c : Client) × (handle_server_first primitives
        (first_message primitives client).0
        first
      ≡ success (c, final))
    × (handle_server_final primitives c last ≡ success tt)
unfolding exchange
played =
    let accepted = exchange-accepts primitives documented password (b'a' ∷ []) (b'b' ∷ []) salt in
    let hello = first_message primitives client in
    let ((waiting, first), a₁, k₁) =
      >>=-eq-success (handle_client_first primitives server hello.1) _ accepted in
    let ((proving, final), a₂, k₂) =
      >>=-eq-success (handle_server_first primitives hello.0 first) _ k₁ in
    let (last, a₃, k₃) = >>=-eq-success (handle_client_final primitives waiting final) _ k₂ in
    (first, final, last, proving, a₂, k₃)

handle_server_final-IsGenuine_example :
    IsGenuine primitives (first_message primitives client).0 played.0 played.2
handle_server_final-IsGenuine_example =
    handle_server_final-IsGenuine primitives (first_message primitives client).0 played.3 played.0
      played.1 played.2 played.4 played.5
