-- ===== src/Packages/Runs.antt =====
-- A receipt with two files, and the decision to go back to its release.
use own_transit.Prelude.{
  ◌≡◌, ◌++◌, arith, refl, Bool, true, false, Option, some, List, [], ◌∷◌, map, replicate, Bytes,
  All, ok,
}
use own_transit.Prelude.Texts.{codes, lex_lt, split, Increasing}
use own_transit.ReleasePolicy.{pos}
use own_transit.Manifest.Names.{every, every_part, valid_digest}
use own_transit.Packages.Records.{
  receipt_schema, file_of_receipt, check_receipt_files, receipt_for_decision, validate_receipt,
  decision_from_receipt,
}
use own_transit.Packages.{
  Decision, ReceiptFile, ReceiptRecord, rollback, valid_token, valid_component, valid_relative_path,
  check_files, validate_decision_files,
}
use own_transit.Manifest.{Manifest, Artifact, artifact_matrix}
use own_transit.Manifest.Matrix.{lookup}
use own_transit.Manifest.Samples.{digest, evidence_of, manifest, client, install_policy}
use own_transit.Packages.{
  DecisionFile, artifact_decision_file, evidence_decision_file, primary_install_profile,
}
use own_transit.Packages.Verified.{
  Verification, only_match, lifecycle_files, launcher_files, proxy_files, find_evidence,
  insert_file, sort_files, decision_for, decision_files, verify_decision,
}
use own_transit.Packages.Authentic.{Authentic, verify_decision-Authentic}
use own_transit.Packages.Safety.{Safe, names_of, validate_decision_files-Safe}
use own_transit.Packages.Receipts.{decision_from_receipt-rollback}

abbrev as_it_is : Bytes → Bytes
as_it_is path = path

abbrev any : Bytes → Bool
any text = true

abbrev digest_ : Bytes → Bytes
digest_ bytes = replicate 64 b'd'

abbrev file_ : Bytes → ReceiptFile
file_ name = record {
  artifact_name = name;
  name = name;
  sha256 = replicate 64 b'a';
  size = pos 10;
  mode = 493;
  gid = 20;
}

abbrev receipt : ReceiptRecord
receipt = record {
  schema = receipt_schema;
  role = codes "client";
  os = codes "linux";
  arch = codes "amd64";
  release_id = codes "id";
  sequence = 3;
  manifest_sha256 = replicate 64 b'b';
  files = file_ (codes "LICENSE") ∷ file_ (codes "owntransit") ∷ [];
}

valid_files : validate_decision_files as_it_is (map file_of_receipt receipt.files) ≡ ok tt
unfolding validate_decision_files check_files valid_token valid_relative_path valid_component
    valid_digest every every_part split lex_lt
valid_files = refl

validate_decision_files-Safe_example :
    Increasing (names_of (map file_of_receipt receipt.files))
    × All Safe (map file_of_receipt receipt.files)
validate_decision_files-Safe_example =
    validate_decision_files-Safe as_it_is (map file_of_receipt receipt.files) valid_files

valid_receipt : validate_receipt as_it_is any any receipt ≡ ok tt
unfolding validate_receipt check_receipt_files valid_token valid_component valid_digest every lex_lt
valid_receipt = refl

-- The second file has the setuid bit, which the receipt of the rollback has not.
abbrev with_setuid : ReceiptRecord
with_setuid = record receipt {
  files = file_ (codes "LICENSE") ∷ record (file_ (codes "owntransit")) { mode = 2541 } ∷ [];
}

valid_with_setuid : validate_receipt as_it_is any any with_setuid ≡ ok tt
unfolding validate_receipt check_receipt_files valid_token valid_component valid_digest every lex_lt
valid_with_setuid = refl

abbrev braces : ReceiptRecord → Option Bytes
braces r = some (codes "{}")

decision_from_receipt-rollback_example :
    (d : Decision) × (decision_from_receipt as_it_is any any rollback with_setuid [] [] [] ≡ ok d)
    × (receipt_for_decision as_it_is any any braces digest_ d
        ≡ ok (receipt, codes "{}" ++ b'\n' ∷ [], replicate 64 b'd'))
decision_from_receipt-rollback_example =
    decision_from_receipt-rollback as_it_is any any braces digest_ with_setuid [] [] [] (codes "{}")
      (λ c h. refl) valid_with_setuid refl refl (omega arith)

abbrev input : Verification
input = record {
  bundle_root = codes "/bundle";
  manifest_bytes = [];
  signature = [];
  release_key = [];
  install_policy = install_policy;
  local_os = [];
  local_arch = [];
  owner_gid = 0;
  reader_gid = 20;
}

abbrev bundle : Verification → Option (Manifest × Artifact)
bundle i = some (manifest, client)

abbrev lifecycle : Artifact
lifecycle = record {
  name = codes "lifecycle-linux-amd64";
  file = codes "artifacts/owntransitctl-linux-amd64";
  sha256 = digest;
  size = pos 10;
  os = codes "linux";
  arch = codes "amd64";
  role = codes "lifecycle";
  format = codes "executable";
  ssh_target = [];
  sbom = codes "sbom-lifecycle-linux-amd64";
}

abbrev client_files : List DecisionFile
unfolding artifact_decision_file evidence_decision_file
client_files =
    evidence_decision_file
      (evidence_of (codes "project-license") (codes "LICENSE") (codes "project-license"))
      (codes "LICENSE") 0
    ∷ evidence_decision_file
        (evidence_of (codes "third-party-licenses") (codes "THIRD_PARTY") (codes "licenses"))
        (codes "THIRD_PARTY_LICENSES.txt") 0
    ∷ artifact_decision_file client (codes "owntransit") (record { perm = 493; setgid = false }) 0
    ∷ artifact_decision_file client (codes "owntransit-proxy")
        (record { perm = 488; setgid = true }) 20
    ∷ artifact_decision_file lifecycle (codes "owntransitctl")
        (record { perm = 448; setgid = false }) 0
    ∷ []

abbrev client_decision : Decision
client_decision =
    decision_for as_it_is any digest_ (codes "linux") (codes "amd64") bundle input manifest client
      client_files

decides :
    verify_decision as_it_is any digest_ (codes "linux") (codes "amd64") bundle input
    ≡ ok client_decision
unfolding verify_decision decision_files primary_install_profile artifact_decision_file
    evidence_decision_file proxy_files lifecycle_files launcher_files only_match find_evidence
    sort_files insert_file validate_decision_files check_files valid_token valid_relative_path
    valid_component valid_digest every every_part split lex_lt artifact_matrix lookup client_files
decides = refl

verify_decision-Authentic_example :
    (m : Manifest) × (a : Artifact) × (bundle input ≡ some (m, a))
    × Authentic (codes "linux") (codes "amd64") input m a client_decision
verify_decision-Authentic_example =
    verify_decision-Authentic as_it_is any digest_ (codes "linux") (codes "amd64") bundle input
      client_decision decides
