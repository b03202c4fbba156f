-- ===== src/Packages/Records.antt =====
-- internal/packagetxn/transaction_unix.go and decision.go: the receipts and decisions with their tests, and the decision that a
-- receipt gives.
use own_transit.Prelude.{
  ℕ, ◌/◌, ◌%◌, Bool, ◌++◌, err, ◌>>=◌, not, ◌&&◌, ◌||◌, Option, none, some, List, [], ◌∷◌, map,
  length, Bytes, bytes_eq, ltb, ◌==◌, Outcome, ok, ◌>>◌, fail_if,
}
use own_transit.Prelude.Texts.{codes, lex_lt}
use own_transit.ReleasePolicy.{not_positive}
use own_transit.Manifest.{too_large}
use own_transit.Manifest.Names.{valid_digest}
use own_transit.Packages.{
  DecisionFile, Operation, Decision, ReceiptFile, ReceiptRecord, PackageError, valid_token,
  valid_component, unix_install_mode, decode_install_mode, valid_install_mode, receipt_file_name,
  receipt_stage_name, valid_role, not_after, validate_decision_files, install, rollback, not_sorted,
  invalid_receipt, invalid_decision, not_encoded, bad_metadata_size,
}

-- The loop over the files of a receipt.
unfoldable pub check_receipt_files :
    Option Bytes → List ReceiptFile → Outcome PackageError (Unit {0})
unfolding valid_token valid_component valid_digest lex_lt
check_receipt_files previous [] = ok tt
check_receipt_files previous (f ∷ rest) = do
  fail_if
      (not (valid_token f.artifact_name)
        || not (valid_component f.name)
        || bytes_eq f.name receipt_file_name
        || bytes_eq f.name receipt_stage_name
        || not (valid_digest f.sha256)
        || not_positive f.size
        || too_large f.size
        || not (valid_install_mode (decode_install_mode f.mode))
        || f.mode / 1024 % 2 == 1 && f.gid == 0)
      invalid_receipt
  fail_if (not_after previous f.name) not_sorted
  check_receipt_files (some f.name) rest

abbrev pub receipt_schema : Bytes
receipt_schema = codes "owntransit.package-receipt.v1"

abbrev pub file_of_receipt : ReceiptFile → DecisionFile
file_of_receipt f = record {
  artifact_name = f.artifact_name;
  source_path = f.name;
  install_name = f.name;
  sha256 = f.sha256;
  size = f.size;
  mode = decode_install_mode f.mode;
  gid = f.gid;
}

abbrev pub receipt_of_file : DecisionFile → ReceiptFile
receipt_of_file f = record {
  artifact_name = f.artifact_name;
  name = f.install_name;
  sha256 = f.sha256;
  size = f.size;
  mode = unix_install_mode f.mode;
  gid = f.gid;
}

-- The receipt that `receiptForDecision` encodes.
abbrev pub receipt_of : Decision → ReceiptRecord
receipt_of d = record {
  schema = receipt_schema;
  role = d.role;
  os = d.os;
  arch = d.arch;
  release_id = d.release_id;
  sequence = d.sequence;
  manifest_sha256 = d.manifest_sha256;
  files = map receipt_of_file d.files;
}

abbrev pub maximum_metadata_size : ℕ
maximum_metadata_size = 65_536

-- `encodeCanonical` behind `json.Marshal`: a line feed is appended.
abbrev pub encode_canonical : Option Bytes → Outcome PackageError Bytes
encode_canonical none = err not_encoded
encode_canonical (some encoded) = do
  fail_if
      (length (encoded ++ b'\n' ∷ []) == 0
        || ltb maximum_metadata_size (length (encoded ++ b'\n' ∷ [])))
      bad_metadata_size
  ok (encoded ++ b'\n' ∷ [])

abbrev pub anchors_fit : Bytes → Bytes → Bytes → Bool
anchors_fit before target policy =
    length policy == 0 && length before == 0 && length target == 0
    || valid_digest policy
      && valid_digest before
      && valid_digest target
      && not (bytes_eq before target)

abbrev pub root_of : Operation → Bytes
root_of install = codes "/unavailable-after-authenticated-staging"
root_of rollback = []

abbrev pub decision_of : Operation → ReceiptRecord → Bytes → Bytes → Bytes → Decision
decision_of operation r before target policy = record {
  operation = operation;
  bundle_root = root_of operation;
  release_id = r.release_id;
  sequence = r.sequence;
  manifest_sha256 = r.manifest_sha256;
  role = r.role;
  os = r.os;
  arch = r.arch;
  files = map file_of_receipt r.files;
  anchor_before = before;
  anchor_target = target;
  policy_sha256 = policy;
}

-- The arguments are `filepath.Clean`, `filepath.IsAbs` and the test of release ids.
module _ (clean : Bytes → Bytes) (is_abs : Bytes → Bool) (valid_release_id : Bytes → Bool) where
  unfoldable pub validate_receipt : ReceiptRecord → Outcome PackageError (Unit {0})
  unfolding check_receipt_files
  validate_receipt r = do
    fail_if
        (not (bytes_eq r.schema receipt_schema)
          || not (valid_role r.role)
          || not (valid_token r.os)
          || not (valid_token r.arch)
          || not (valid_release_id r.release_id)
          || r.sequence == 0
          || not (valid_digest r.manifest_sha256)
          || length r.files == 0
          || ltb 8 (length r.files))
        invalid_receipt
    check_receipt_files none r.files

  -- The root of the bundle: a canonical absolute path to install from, and none for a rollback.
  abbrev pub bad_root : Operation → Bytes → Bool
  bad_root install root = length root == 0 || not (is_abs root) || not (bytes_eq (clean root) root)
  bad_root rollback root = not (length root == 0)

  unfoldable pub validate_decision : Decision → Outcome PackageError (Unit {0})
  unfolding validate_decision_files
  validate_decision d = do
    fail_if
        (not (valid_role d.role)
          || not (valid_release_id d.release_id)
          || d.sequence == 0
          || not (valid_digest d.manifest_sha256)
          || not (valid_token d.os)
          || not (valid_token d.arch))
        invalid_decision
    fail_if (bad_root d.operation d.bundle_root) invalid_decision
    fail_if (not (anchors_fit d.anchor_before d.anchor_target d.policy_sha256)) invalid_decision
    validate_decision_files clean d.files

  unfoldable pub decision_from_receipt :
      Operation → ReceiptRecord → Bytes → Bytes → Bytes → Outcome PackageError Decision
  unfolding validate_receipt validate_decision
  decision_from_receipt operation r before target policy = do
    validate_receipt r
    validate_decision (decision_of operation r before target policy)
    ok (decision_of operation r before target policy)

  -- `json.Marshal` of a receipt, and the digest of bytes.
  module _ (marshal : ReceiptRecord → Option Bytes) (digest_bytes : Bytes → Bytes) where
    unfoldable pub encode_receipt : ReceiptRecord → Outcome PackageError Bytes
    unfolding validate_receipt
    encode_receipt r = do validate_receipt r; encode_canonical (marshal r)

    unfoldable pub receipt_for_decision :
        Decision → Outcome PackageError (ReceiptRecord × Bytes × Bytes)
    unfolding encode_receipt
    receipt_for_decision d = do
      encoded ← encode_receipt (receipt_of d)
      ok (receipt_of d, encoded, digest_bytes encoded)
