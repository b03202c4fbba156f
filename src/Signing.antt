-- ===== src/Signing.antt =====
-- internal/signing/signing.go: domain-separated signatures and the names of keys. SHA-256, base 64 and Ed25519
-- are parameters; key generation and the PEM forms are not modelled.
pub mod Separation
mod Runs
use own_transit.Prelude.{
  ℕ, ◌+◌, ◌-◌, ◌*◌, ◌^◌, ◌≡◌, Bool, true, false, not, ◌&&◌, ◌||◌, Option, none, some, List, [], ◌∷◌,
  ◌++◌, length, take, drop, Bytes, bytes_eq, ltb, leb, ◌==◌, Outcome, ok, err, ◌>>=◌, ◌>>◌, fail_if,
}

pub data SigningError : Type 0 where
  missing_input invalid_input over_limit failed bad_prefix not_canonical : SigningError

abbrev pub maximum_signature_domain_size : ℕ
maximum_signature_domain_size = 255

abbrev pub maximum_signature_payload_size : ℕ
maximum_signature_payload_size = 8 * 1024 * 1024

-- The largest `int` of a 64-bit platform.
abbrev pub maximum_int : ℕ
maximum_int = 2 ^ 63 - 1

-- `strings.ContainsRune(domain, '\x00')`.
unfoldable pub contains_nul : Bytes → Bool
contains_nul [] = false
contains_nul (b ∷ bs) = b == 0 || contains_nul bs

-- The test is written without a subtraction; a length is not negative.
unfoldable pub signature_input_size : ℕ → ℕ → Outcome SigningError ℕ
signature_input_size domain_length payload_length = do
  fail_if (ltb maximum_int (domain_length + payload_length + 1)) over_limit
  ok (domain_length + 1 + payload_length)

unfoldable pub signature_input : Bytes → Bytes → Outcome SigningError Bytes
unfolding signature_input_size
signature_input domain payload = do
  size ← signature_input_size (length domain) (length payload)
  ok (domain ++ 0 ∷ payload)

-- The inputs that neither `Sign` nor `Verify` takes.
unfoldable pub unusable : Bytes → Bytes → Bool
unfolding contains_nul
unusable domain payload =
    length domain == 0
    || ltb maximum_signature_domain_size (length domain)
    || contains_nul domain
    || length payload == 0
    || ltb maximum_signature_payload_size (length payload)

-- `ed25519_sign private message` and `ed25519_verify public message signature`.
unfoldable pub sign : (Bytes → Bytes → Bytes) → Bytes → Bytes → Bytes → Outcome SigningError Bytes
unfolding unusable signature_input
sign ed25519_sign domain payload private_key = do
  fail_if (unusable domain payload || not (length private_key == 64)) missing_input
  message ← signature_input domain payload
  ok (ed25519_sign private_key message)

unfoldable pub verify :
    (Bytes → Bytes → Bytes → Bool) → Bytes → Bytes → Bytes → Bytes → Outcome SigningError (Unit {0})
unfolding unusable signature_input
verify ed25519_verify domain payload signature public_key = do
  fail_if (unusable domain payload || not (length signature == 64) || not (length public_key == 32))
      invalid_input
  message ← signature_input domain payload
  fail_if (not (ed25519_verify public_key message signature)) failed

abbrev pub key_prefix : Bytes
key_prefix = b's' ∷ b'h' ∷ b'a' ∷ b'2' ∷ b'5' ∷ b'6' ∷ b'/' ∷ []

module _ (sha256 : Bytes → Bytes) (base64 : Bytes → Bytes) (unbase64 : Bytes → Option Bytes) where
  unfoldable pub key_id : Bytes → Bytes
  key_id public_key = key_prefix ++ base64 (sha256 public_key)

  abbrev canonical_digest : Bytes → Option Bytes → Outcome SigningError (Unit {0})
  canonical_digest value none = err not_canonical
  canonical_digest value (some decoded) =
      fail_if (not (length decoded == 32) || not (bytes_eq (key_prefix ++ base64 decoded) value))
        not_canonical

  unfoldable pub validate_key_id : Bytes → Outcome SigningError (Unit {0})
  validate_key_id value = do
    fail_if (leb (length value) 7 || not (bytes_eq (take 7 value) key_prefix)) bad_prefix
    canonical_digest value (unbase64 (drop 7 value))
