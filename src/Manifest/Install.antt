-- ===== src/Manifest/Install.antt =====
-- internal/release/manifest.go: the signed form of a manifest, and the decision to install a release.
use own_transit.Prelude.{
  ℕ, Bool, not, ◌&&◌, ◌||◌, Option, none, some, List, [], ◌∷◌, ◌++◌, length, Bytes, bytes_eq, ltb,
  leb, ◌==◌, if◌then◌else◌, Outcome, ok, err, ◌>>=◌, ◌>>◌, fail_if,
}
use own_transit.Prelude.Texts.{codes}
use own_transit.Signing.{SigningError, verify, key_id}
use own_transit.ReleasePolicy.{Codec, VerifiedPolicy, nonzero_id, or_else, with_error}
use own_transit.Manifest.{Manifest, Artifact, Url, ManifestError, validate_manifest}
use own_transit.Manifest.Names.{valid_digest}

pub record Signature : Type 0 where
  pub schema : Bytes
  pub key_id : Bytes
  pub manifest_sha256 : Bytes
  pub signature : Bytes

pub record InstallPolicy : Type 0 where
  pub highest_sequence : ℕ
  pub running_lifecycle : ℕ
  pub artifact_name : Bytes
  pub expected_os : Bytes
  pub expected_arch : Bytes
  pub expected_role : Bytes
  pub expected_artifact_sha256 : Bytes
  pub tombstoned_release_ids : List Bytes
  pub verified_release_policy : Option VerifiedPolicy
  pub exact_replay_release_id : Bytes

pub data InstallError : Type 0 where
  bad_size bad_record wrong_key not_canonical wrong_digest bad_base64 : InstallError
  bad_signature : SigningError → InstallError
  bad_manifest : ManifestError → InstallError
  incomplete_policy bad_expected_digest no_policy unauthorized_signer replay below_floor
        below_lifecycle :
      InstallError
  lifecycle_too_old bad_tombstone tombstoned mismatch absent : InstallError

-- The packages of a policy's codec, URLs, and JSON of the two records.
pub record ManifestCodec : Type 0 where
  pub base : Codec
  pub parse_url : Bytes → Option Url
  pub decode_manifest : Bytes → Option Manifest
  pub marshal_manifest : Manifest → Option Bytes
  pub decode_signature : Bytes → Option Signature
  pub marshal_signature : Signature → Option Bytes

abbrev pub max_manifest_size : ℕ
max_manifest_size = 1_048_576

abbrev pub max_signature_size : ℕ
max_signature_size = 16_384

abbrev pub signature_schema : Bytes
signature_schema = codes "owntransit.software-release-signature.v1"

abbrev pub signature_domain : Bytes
signature_domain = codes "OwnTransit software release manifest v1"

abbrev pub of_manifest : {A : Type 0} → Outcome ManifestError A → Outcome InstallError A
of_manifest (ok a) = ok a
of_manifest (err e) = err (bad_manifest e)

abbrev pub of_signature : {A : Type 0} → Outcome SigningError A → Outcome InstallError A
of_signature (ok a) = ok a
of_signature (err e) = err (bad_signature e)

-- The policy of the installation, if it was verified.
abbrev pub valid_policy : Option VerifiedPolicy → Outcome InstallError VerifiedPolicy
valid_policy none = err no_policy
valid_policy (some v) = if v.valid then ok v else err no_policy

abbrev pub fits_policy : InstallPolicy → Artifact → Bool
fits_policy policy a =
    bytes_eq a.os policy.expected_os
    && bytes_eq a.arch policy.expected_arch
    && bytes_eq a.role policy.expected_role
    && (length policy.expected_artifact_sha256 == 0
        || bytes_eq a.sha256 policy.expected_artifact_sha256)

-- The loop that looks for the artifact.
unfoldable pub select_artifact : InstallPolicy → List Artifact → Outcome InstallError Artifact
select_artifact policy [] = err absent
select_artifact policy (a ∷ rest) =
    let later = select_artifact policy rest in
    if bytes_eq a.name policy.artifact_name
    then (if fits_policy policy a then ok a else err mismatch)
    else later

module _ (c : ManifestCodec) where
  unfoldable pub encode_manifest : Manifest → Outcome InstallError Bytes
  unfolding validate_manifest
  encode_manifest m = do
    of_manifest (validate_manifest c.base c.parse_url m)
    encoded ← or_else (c.marshal_manifest m) bad_record
    fail_if (leb max_manifest_size (length encoded)) bad_size
    ok (encoded ++ 10 ∷ [])

  unfoldable pub parse_manifest : Bytes → Outcome InstallError Manifest
  unfolding encode_manifest validate_manifest
  parse_manifest encoded = do
    fail_if (length encoded == 0 || ltb max_manifest_size (length encoded)) bad_size
    m ← or_else (c.decode_manifest encoded) bad_record
    of_manifest (validate_manifest c.base c.parse_url m)
    again ← with_error not_canonical (encode_manifest m)
    fail_if (not (bytes_eq encoded again)) not_canonical
    ok m

  abbrev pub encode_signature : Signature → Outcome InstallError Bytes
  encode_signature r = do
    encoded ← or_else (c.marshal_signature r) bad_record
    ok (encoded ++ 10 ∷ [])

  unfoldable pub verify_manifest : Bytes → Bytes → Bytes → Outcome InstallError Manifest
  unfolding parse_manifest
  verify_manifest manifest_bytes signature_bytes public_key = do
    fail_if
        (length manifest_bytes == 0
          || ltb max_manifest_size (length manifest_bytes)
          || length signature_bytes == 0
          || ltb max_signature_size (length signature_bytes))
        bad_size
    r ← or_else (c.decode_signature signature_bytes) bad_record
    fail_if
        (not (bytes_eq r.schema signature_schema)
          || not
              (bytes_eq r.key_id (key_id c.base.sha256 c.base.base64 c.base.unbase64 public_key)))
        wrong_key
    again ← with_error not_canonical (encode_signature r)
    fail_if (not (bytes_eq signature_bytes again)) not_canonical
    fail_if (not (bytes_eq r.manifest_sha256 (c.base.hex (c.base.sha256 manifest_bytes))))
        wrong_digest
    signature ← or_else (c.base.unbase64 r.signature) bad_base64
    fail_if (not (bytes_eq (c.base.base64 signature) r.signature)) bad_base64
    of_signature (verify c.base.ed25519_verify signature_domain manifest_bytes signature public_key)
    parse_manifest manifest_bytes

  -- The loop over the tombstones of the machine and of the policy.
  unfoldable pub check_tombstones : List Bytes → Bytes → Outcome InstallError (Unit {0})
  check_tombstones [] release_id = ok tt
  check_tombstones (tombstone ∷ rest) release_id = do
    fail_if (not (nonzero_id c.base tombstone)) bad_tombstone
    fail_if (bytes_eq tombstone release_id) tombstoned
    check_tombstones rest release_id

  unfoldable pub verify_for_install :
      Bytes → Bytes → Bytes → InstallPolicy → Outcome InstallError (Manifest × Artifact)
  unfolding verify_manifest check_tombstones select_artifact
  verify_for_install manifest_bytes signature_bytes public_key policy = do
    fail_if
        (policy.running_lifecycle == 0
          || length policy.artifact_name == 0
          || length policy.expected_os == 0
          || length policy.expected_arch == 0
          || length policy.expected_role == 0)
        incomplete_policy
    fail_if
        (not (length policy.expected_artifact_sha256 == 0)
          && not (valid_digest policy.expected_artifact_sha256))
        bad_expected_digest
    v ← valid_policy policy.verified_release_policy
    fail_if
        (not (
          bytes_eq v.policy.release_key_id
            (key_id c.base.sha256 c.base.base64 c.base.unbase64 public_key)))
        unauthorized_signer
    m ← verify_manifest manifest_bytes signature_bytes public_key
    fail_if
        (leb m.sequence policy.highest_sequence
          && (not (m.sequence == policy.highest_sequence)
              || not (bytes_eq m.release_id policy.exact_replay_release_id)))
        replay
    fail_if (ltb m.sequence v.policy.minimum_release_sequence) below_floor
    fail_if (ltb policy.running_lifecycle v.policy.minimum_lifecycle) below_lifecycle
    fail_if (ltb policy.running_lifecycle m.minimum_lifecycle) lifecycle_too_old
    check_tombstones (policy.tombstoned_release_ids ++ v.policy.tombstoned_release_ids) m.release_id
    a ← select_artifact policy m.artifacts
    ok (m, a)
