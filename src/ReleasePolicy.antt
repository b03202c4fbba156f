-- ===== src/ReleasePolicy.antt =====
-- internal/release/policy.go: the signed release policies and the anchor that guards them against a rollback.
-- A Go string is a list of bytes. A codec holds the packages that the code calls.
pub mod Sets
pub mod Advances
pub mod Committed
pub mod Samples
mod Runs
use own_transit.Prelude.{
  ℕ, ◌+◌, ◌*◌, ◌≡◌, Bool, true, false, not, ◌&&◌, ◌||◌, Option, none, some, List, [], ◌∷◌, ◌++◌,
  length, replicate, Bytes, bytes_eq, ltb, leb, ◌==◌, if◌then◌else◌, Outcome, ok, err, ◌>>=◌, ◌>>◌,
  fail_if,
}
use own_transit.Prelude.Texts.{codes, lex_lt, has}
use own_transit.Identifiers.{parse_id}
use own_transit.Signing.{sign, verify, key_id, validate_key_id, SigningError}

-- `int64`.
pub data ℤ : Type 0 where
  pos negsuc : ℕ → ℤ

pub record Policy : Type 0 where
  pub schema : Bytes
  pub product : Bytes
  pub sequence : ℕ
  pub created_unix : ℤ
  pub release_key_id : Bytes
  pub minimum_release_sequence : ℕ
  pub minimum_lifecycle : ℕ
  pub tombstoned_release_ids : List Bytes

pub record PolicySignature : Type 0 where
  pub schema : Bytes
  pub key_id : Bytes
  pub policy_sha256 : Bytes
  pub signature : Bytes

pub record PolicyAnchor : Type 0 where
  pub highest_policy_sequence : ℕ
  pub minimum_release_sequence : ℕ
  pub minimum_lifecycle : ℕ
  pub tombstoned_release_ids : List Bytes

pub record VerifiedPolicy : Type 0 where
  pub policy : Policy
  pub key_id : Bytes
  pub valid : Bool

pub data PolicyError : Type 0 where
  bad_size bad_record wrong_key not_canonical wrong_digest bad_base64 invalid_policy bad_key_id :
      PolicyError
  bad_signature : SigningError → PolicyError
  too_many invalid_tombstone empty_anchor incomplete_anchor invalid_anchor replay weakens removes :
      PolicyError
  uncommitted mismatch unverified invalid_release below_floor below_lifecycle tombstoned :
      PolicyError

-- Base 32, base 64, SHA-256, hexadecimal digits and Ed25519, the sorting of strings, and JSON: `strictjson.Decode`
-- and `json.Marshal` of the two records.
pub record Codec : Type 0 where
  pub base32 : Bytes → Bytes
  pub unbase32 : Bytes → Option Bytes
  pub base64 : Bytes → Bytes
  pub unbase64 : Bytes → Option Bytes
  pub sha256 : Bytes → Bytes
  pub hex : Bytes → Bytes
  pub ed25519_verify : Bytes → Bytes → Bytes → Bool
  pub sort_strings : List Bytes → List Bytes
  pub decode_record : Bytes → Option PolicySignature
  pub marshal_record : PolicySignature → Option Bytes
  pub decode_policy : Bytes → Option Policy
  pub marshal_policy : Policy → Option Bytes

abbrev pub max_policy_size : ℕ
max_policy_size = 256 * 1024

abbrev pub max_record_size : ℕ
max_record_size = 16 * 1024

abbrev pub max_tombstones : ℕ
max_tombstones = 4096

abbrev pub policy_schema : Bytes
policy_schema = codes "owntransit.software-release-policy.v1"

abbrev pub policy_signature_schema : Bytes
policy_signature_schema = codes "owntransit.software-release-policy-signature.v1"

abbrev pub policy_signature_domain : Bytes
policy_signature_domain = codes "OwnTransit software release policy v1"

abbrev pub or_else : {A E : Type 0} → Option A → E → Outcome E A
or_else none e = err e
or_else (some a) e = ok a

-- `CreatedUnix <= 0`.
abbrev pub not_positive : ℤ → Bool
not_positive (pos n) = n == 0
not_positive (negsuc n) = true

-- The ids that are still required are `required[index:]`.
unfoldable pub contains_every : List Bytes → List Bytes → Bool
contains_every [] [] = true
contains_every [] (r ∷ rs) = false
contains_every (v ∷ vs) [] = contains_every vs []
contains_every (v ∷ vs) (r ∷ rs) =
    if lex_lt r v
    then false
    else elim (bytes_eq r v) [ true ↦ contains_every vs rs | false ↦ contains_every vs (r ∷ rs) ]

unfoldable pub equal_strings : List Bytes → List Bytes → Bool
equal_strings [] [] = true
equal_strings [] (r ∷ rs) = false
equal_strings (l ∷ ls) [] = false
equal_strings (l ∷ ls) (r ∷ rs) = bytes_eq l r && equal_strings ls rs

abbrev pub with_error : {E F A : Type 0} → F → Outcome E A → Outcome F A
with_error f (ok a) = ok a
with_error f (err e) = err f

abbrev pub signed_by : Outcome SigningError (Unit {0}) → Outcome PolicyError (Unit {0})
signed_by (ok u) = ok u
signed_by (err e) = err (bad_signature e)

module _ (c : Codec) where
  -- The id is text of an identifier that is not zero.
  abbrev pub nonzero_id : Bytes → Bool
  nonzero_id text = elim (parse_id c.base32 c.unbase32 text) [
    | none ↦ false
    | some id ↦ not (bytes_eq id (replicate 32 0))
  ]

  -- The loop over the tombstones; `previous` is `none` at index 0.
  unfoldable pub valid_tombstones : Option Bytes → List Bytes → Bool
  valid_tombstones previous [] = true
  valid_tombstones none (id ∷ ids) = nonzero_id id && valid_tombstones (some id) ids
  valid_tombstones (some previous) (id ∷ ids) =
      nonzero_id id && lex_lt previous id && valid_tombstones (some id) ids

  unfoldable pub validate : Policy → Outcome PolicyError (Unit {0})
  unfolding valid_tombstones
  validate policy = do
    fail_if
        (not (bytes_eq policy.schema policy_schema)
          || not (bytes_eq policy.product (codes "owntransit"))
          || policy.sequence == 0
          || not_positive policy.created_unix
          || policy.minimum_release_sequence == 0
          || policy.minimum_lifecycle == 0)
        invalid_policy
    with_error bad_key_id (validate_key_id c.sha256 c.base64 c.unbase64 policy.release_key_id)
    fail_if (ltb max_tombstones (length policy.tombstoned_release_ids)) too_many
    fail_if (not (valid_tombstones none policy.tombstoned_release_ids)) invalid_tombstone

  unfoldable pub encode_policy : Policy → Outcome PolicyError Bytes
  unfolding validate
  encode_policy policy = do
    validate policy
    encoded ← or_else (c.marshal_policy policy) bad_record
    fail_if (leb max_policy_size (length encoded)) bad_size
    ok (encoded ++ 10 ∷ [])

  unfoldable pub parse_policy : Bytes → Outcome PolicyError Policy
  unfolding validate encode_policy
  parse_policy encoded = do
    fail_if (length encoded == 0 || ltb max_policy_size (length encoded)) bad_size
    policy ← or_else (c.decode_policy encoded) bad_record
    validate policy
    canonical ← with_error not_canonical (encode_policy policy)
    fail_if (not (bytes_eq encoded canonical)) not_canonical
    ok policy

  abbrev pub encode_policy_signature : PolicySignature → Outcome PolicyError Bytes
  encode_policy_signature record_ = do
    encoded ← or_else (c.marshal_record record_) bad_record
    ok (encoded ++ 10 ∷ [])

  unfoldable pub verify_signed_policy : Bytes → Bytes → Bytes → Outcome PolicyError VerifiedPolicy
  unfolding parse_policy
  verify_signed_policy policy_bytes signature_bytes public_key = do
    fail_if
        (length policy_bytes == 0
          || ltb max_policy_size (length policy_bytes)
          || length signature_bytes == 0
          || ltb max_record_size (length signature_bytes))
        bad_size
    r ← or_else (c.decode_record signature_bytes) bad_record
    fail_if
        (not (bytes_eq r.schema policy_signature_schema)
          || not (bytes_eq r.key_id (key_id c.sha256 c.base64 c.unbase64 public_key)))
        wrong_key
    canonical ← with_error not_canonical (encode_policy_signature r)
    fail_if (not (bytes_eq signature_bytes canonical)) not_canonical
    fail_if (not (bytes_eq r.policy_sha256 (c.hex (c.sha256 policy_bytes)))) wrong_digest
    signature ← or_else (c.unbase64 r.signature) bad_base64
    fail_if (not (bytes_eq (c.base64 signature) r.signature)) bad_base64
    signed_by (verify c.ed25519_verify policy_signature_domain policy_bytes signature public_key)
    policy ← parse_policy policy_bytes
    ok (record { policy = policy; key_id = r.key_id; valid = true })

  unfoldable pub next_anchor : VerifiedPolicy → Outcome PolicyError PolicyAnchor
  next_anchor v = do
    fail_if (not v.valid) unverified
    ok (record {
      highest_policy_sequence = v.policy.sequence;
      minimum_release_sequence = v.policy.minimum_release_sequence;
      minimum_lifecycle = v.policy.minimum_lifecycle;
      tombstoned_release_ids = v.policy.tombstoned_release_ids;
    })

  -- The loop over the sorted ids, with the id before and the ids of the anchor from the index on.
  unfoldable pub valid_anchor_ids : Option Bytes → List Bytes → List Bytes → Bool
  valid_anchor_ids previous [] originals = true
  valid_anchor_ids previous (id ∷ ids) [] = false
  valid_anchor_ids none (id ∷ ids) (o ∷ os) =
      nonzero_id id && bytes_eq id o && valid_anchor_ids (some id) ids os
  valid_anchor_ids (some previous) (id ∷ ids) (o ∷ os) =
      nonzero_id id
      && not (bytes_eq id previous)
      && bytes_eq id o
      && valid_anchor_ids (some id) ids os

  unfoldable pub validate_policy_anchor : PolicyAnchor → Outcome PolicyError (Unit {0})
  unfolding valid_anchor_ids
  validate_policy_anchor anchor =
      if anchor.highest_policy_sequence == 0
      then fail_if
          (not (anchor.minimum_release_sequence == 0)
            || not (anchor.minimum_lifecycle == 0)
            || not (length anchor.tombstoned_release_ids == 0))
          empty_anchor
      else (do
        fail_if
            (anchor.minimum_release_sequence == 0
              || anchor.minimum_lifecycle == 0
              || ltb max_tombstones (length anchor.tombstoned_release_ids))
            incomplete_anchor
        fail_if
            (not (
              valid_anchor_ids none (c.sort_strings anchor.tombstoned_release_ids)
                anchor.tombstoned_release_ids))
            invalid_anchor)

  unfoldable pub verify_policy_advance :
      Bytes → Bytes → Bytes → PolicyAnchor → Outcome PolicyError VerifiedPolicy
  unfolding verify_signed_policy validate_policy_anchor
  verify_policy_advance policy_bytes signature_bytes public_key anchor = do
    verified ← verify_signed_policy policy_bytes signature_bytes public_key
    fail_if
        (length policy_bytes == 0
          || ltb max_policy_size (length policy_bytes)
          || length signature_bytes == 0
          || ltb max_record_size (length signature_bytes))
        bad_size
    validate_policy_anchor anchor
    let policy = verified.policy
    fail_if (leb policy.sequence anchor.highest_policy_sequence) replay
    fail_if
        (ltb policy.minimum_release_sequence anchor.minimum_release_sequence
          || ltb policy.minimum_lifecycle anchor.minimum_lifecycle)
        weakens
    fail_if (not (contains_every policy.tombstoned_release_ids anchor.tombstoned_release_ids))
        removes
    ok verified

  unfoldable pub verify_policy_at_anchor :
      Bytes → Bytes → Bytes → PolicyAnchor → Outcome PolicyError VerifiedPolicy
  unfolding verify_signed_policy validate_policy_anchor next_anchor
  verify_policy_at_anchor policy_bytes signature_bytes public_key anchor = do
    validate_policy_anchor anchor
    fail_if (anchor.highest_policy_sequence == 0) uncommitted
    verified ← verify_signed_policy policy_bytes signature_bytes public_key
    next ← next_anchor verified
    fail_if
        (not (next.highest_policy_sequence == anchor.highest_policy_sequence)
          || not (next.minimum_release_sequence == anchor.minimum_release_sequence)
          || not (next.minimum_lifecycle == anchor.minimum_lifecycle)
          || not (equal_strings next.tombstoned_release_ids anchor.tombstoned_release_ids))
        mismatch
    ok verified

  unfoldable pub authorize_retained_release :
      VerifiedPolicy → Bytes → ℕ → ℕ → Outcome PolicyError (Unit {0})
  authorize_retained_release v release_id sequence running_lifecycle = do
    fail_if (not v.valid) unverified
    fail_if (not (nonzero_id release_id) || sequence == 0 || running_lifecycle == 0) invalid_release
    fail_if (ltb sequence v.policy.minimum_release_sequence) below_floor
    fail_if (ltb running_lifecycle v.policy.minimum_lifecycle) below_lifecycle
    fail_if (has v.policy.tombstoned_release_ids release_id) tombstoned
