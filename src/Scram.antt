-- ===== src/Scram.antt =====
-- internal/scram/scram.go: SCRAM-SHA-256 for both roles. A text is its bytes. The hash functions,
-- base64 and the decimal notation of numbers belong to other packages: the record Primitives holds
-- them. A slice index out of range is an error of its own, `out_of_range`.
pub mod Client
pub mod Server
pub mod Fields
pub mod Exchange
pub mod Sound
pub mod Genuine
use Prim.Native.Nat.{bit_xor}
use pgpilot.Base.{
  ℕ, suc, ◌+◌, ◌≡◌, Bool, true, false, ◌&&◌, not, List, [], ◌∷◌, ◌++◌, Option, none, some, length,
  take, drop, if◌then◌else◌, nat_beq,
}
use pgpilot.Base.Bytes.{bytes_beq, has_prefix, split, index}
use pgpilot.Base.Int.{ℤ, to_ℕ, is_positive}
use pgpilot.Base.Result.{Result, failure, success, or_else, check, ◌>>=◌}

abbrev pub Bytes : Type 0
Bytes = List ℕ

-- hmac over sha256, sha256, pbkdf2 with sha256 for a key of 32 bytes, base64 with and without
-- padding, strconv.
pub record Primitives : Type 0 where
  pub hmac_sum : Bytes → Bytes → Bytes
  pub sha256_sum : Bytes → Bytes
  pub salted_password : Bytes → Bytes → ℕ → Bytes
  pub encode : Bytes → Bytes
  pub decode : Bytes → Option Bytes
  pub raw_encode : Bytes → Bytes
  pub itoa : ℕ → Bytes
  pub atoi : Bytes → Option ℤ

-- The errors in the order of the source.
pub data ScramError : Type 0 where
  auth_failed server_nonce server_error malformed_server_final signature_encoding : ScramError
  signature_mismatch channel_binding_first malformed_client_first missing_nonce : ScramError
  channel_binding_final nonce_mismatch missing_proof proof_encoding proof_length : ScramError
  malformed_client_final missing_salt missing_iterations salt_encoding : ScramError
  bad_iterations out_of_range : ScramError

abbrev pub default_iterations : ℕ
default_iterations = 4096

abbrev pub hash_size : ℕ
hash_size = 32

-- "n,,"
abbrev pub gs2_header : Bytes
gs2_header = b'n' ∷ b',' ∷ b',' ∷ []

-- "biws"
abbrev pub channel_binding : Bytes
channel_binding = b'b' ∷ b'i' ∷ b'w' ∷ b's' ∷ []

-- The text `k=` of an attribute.
abbrev pub attribute : ℕ → Bytes
attribute k = k ∷ b'=' ∷ []

-- The attribute `,k=` after another one.
abbrev pub next_attribute : ℕ → Bytes
next_attribute k = b',' ∷ attribute k

-- "Client Key"
abbrev pub client_key_text : Bytes
client_key_text = b'C' ∷ b'l' ∷ b'i' ∷ b'e' ∷ b'n' ∷ b't' ∷ b' ' ∷ b'K' ∷ b'e' ∷ b'y' ∷ []

-- "Server Key"
abbrev pub server_key_text : Bytes
server_key_text = b'S' ∷ b'e' ∷ b'r' ∷ b'v' ∷ b'e' ∷ b'r' ∷ b' ' ∷ b'K' ∷ b'e' ∷ b'y' ∷ []

-- The value of the first part that has the prefix.
unfoldable pub first_value : List Bytes → Bytes → Option Bytes
first_value [] prefix = none
first_value (part ∷ parts) prefix =
    if has_prefix part prefix then some (drop (length prefix) part) else first_value parts prefix

unfoldable pub field : Bytes → Bytes → Option Bytes
field msg prefix = first_value (split b',' msg) prefix

-- `out[i] = a[i] ^ b[i]` for each index of `a`
unfoldable pub xor_bytes : Bytes → Bytes → Result ScramError Bytes
xor_bytes [] b = success []
xor_bytes (x ∷ xs) [] = failure out_of_range
xor_bytes (x ∷ xs) (y ∷ ys) = do out ← xor_bytes xs ys; success (bit_xor x y ∷ out)

abbrev pub at_least_one : Option ℤ → Result ScramError ℕ
at_least_one none = failure bad_iterations
at_least_one (some n) = if is_positive n then success (to_ℕ n) else failure bad_iterations

module _ (p : Primitives) where
  unfoldable pub parse_server_first : Bytes → Result ScramError (Bytes × Bytes × ℕ)
  parse_server_first s = do
    nonce ← or_else missing_nonce (field s (attribute b'r'))
    salt_enc ← or_else missing_salt (field s (attribute b's'))
    iter_str ← or_else missing_iterations (field s (attribute b'i'))
    salt ← or_else salt_encoding (p.decode salt_enc)
    iterations ← at_least_one (p.atoi iter_str)
    success (nonce, salt, iterations)

  -- The random bytes are an argument.
  unfoldable pub new_nonce : Bytes → Bytes
  new_nonce random = p.raw_encode random
