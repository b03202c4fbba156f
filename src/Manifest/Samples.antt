-- ===== src/Manifest/Samples.antt =====
-- A manifest with all artifacts of the matrix, under codecs that accept it.
use own_transit.Prelude.{
  ◌≡◌, refl, false, Option, some, List, [], ◌∷◌, ◌++◌, map, replicate, Bytes, ok,
}
use own_transit.Prelude.Texts.{codes, lex_lt, has, split, cut_text, count_byte}
use own_transit.Identifiers.{parse_id, all_in_alphabet}
use own_transit.Signing.{
  key_id, verify, signature_input, signature_input_size, unusable, contains_nul,
}
use own_transit.ReleasePolicy.{pos}
use own_transit.ReleasePolicy.Samples.{codec, key, key_name, good_release, verified}
use own_transit.Manifest.{
  Manifest, Artifact, Evidence, Url, manifest_schema, artifact_matrix, validate_record,
  check_artifacts, check_evidence, tally, check_sboms, kind_of, all_used, check_header,
  check_counts, validate_manifest,
}
use own_transit.Manifest.Names.{
  every, every_part, safe_token, go_version, runs_to, valid_relative_path, valid_digest,
  valid_commit, valid_registry_host, number, atoi, valid_registry, valid_repository,
  valid_builder_image, valid_evidence_kind,
}
use own_transit.Manifest.Matrix.{lookup}
use own_transit.Manifest.Install.{
  ManifestCodec, InstallPolicy, Signature, signature_schema, encode_manifest, parse_manifest,
  verify_manifest, check_tombstones, select_artifact, verify_for_install,
}

abbrev pub digest : Bytes
digest = replicate 64 b'a'

abbrev pub measured : Artifact → Artifact
measured a = record a { sha256 = digest; size = pos 10 }

abbrev pub evidence_of : Bytes → Bytes → Bytes → Evidence
evidence_of name file kind = record {
  name = name;
  file = file;
  sha256 = digest;
  size = pos 10;
  kind = kind;
}

abbrev pub records : List Evidence
records =
    evidence_of (codes "project-license") (codes "LICENSE") (codes "project-license")
    ∷ evidence_of (codes "provenance") (codes "evidence/provenance.json") (codes "provenance")
    ∷ evidence_of (codes "sbom-client-darwin-arm64")
        (codes "evidence/sbom-client-darwin-arm64.json") (codes "sbom")
    ∷ evidence_of (codes "sbom-client-linux-amd64") (codes "evidence/sbom-client-linux-amd64.json")
        (codes "sbom")
    ∷ evidence_of (codes "sbom-client-linux-arm64") (codes "evidence/sbom-client-linux-arm64.json")
        (codes "sbom")
    ∷ evidence_of (codes "sbom-connector-linux-amd64")
        (codes "evidence/sbom-connector-linux-amd64.json") (codes "sbom")
    ∷ evidence_of (codes "sbom-connector-linux-arm64")
        (codes "evidence/sbom-connector-linux-arm64.json") (codes "sbom")
    ∷ evidence_of (codes "sbom-launcher-darwin-arm64")
        (codes "evidence/sbom-launcher-darwin-arm64.json") (codes "sbom")
    ∷ evidence_of (codes "sbom-lifecycle-darwin-arm64")
        (codes "evidence/sbom-lifecycle-darwin-arm64.json") (codes "sbom")
    ∷ evidence_of (codes "sbom-lifecycle-linux-amd64")
        (codes "evidence/sbom-lifecycle-linux-amd64.json") (codes "sbom")
    ∷ evidence_of (codes "sbom-lifecycle-linux-arm64")
        (codes "evidence/sbom-lifecycle-linux-arm64.json") (codes "sbom")
    ∷ evidence_of (codes "sbom-provisioner-darwin-arm64")
        (codes "evidence/sbom-provisioner-darwin-arm64.json") (codes "sbom")
    ∷ evidence_of (codes "sbom-provisioner-linux-amd64")
        (codes "evidence/sbom-provisioner-linux-amd64.json") (codes "sbom")
    ∷ evidence_of (codes "sbom-provisioner-linux-arm64")
        (codes "evidence/sbom-provisioner-linux-arm64.json") (codes "sbom")
    ∷ evidence_of (codes "sbom-relay-linux-amd64") (codes "evidence/sbom-relay-linux-amd64.json")
        (codes "sbom")
    ∷ evidence_of (codes "sbom-relay-linux-arm64") (codes "evidence/sbom-relay-linux-arm64.json")
        (codes "sbom")
    ∷ evidence_of (codes "third-party-licenses") (codes "THIRD_PARTY") (codes "licenses")
    ∷ []

abbrev pub manifest : Manifest
unfolding artifact_matrix
manifest = record {
  schema = manifest_schema;
  product = codes "owntransit";
  version = codes "1.2.0";
  release_id = good_release;
  sequence = 5;
  created_unix = pos 1;
  protocol = codes "forthgate/1";
  license = codes "Apache-2.0";
  minimum_lifecycle = 1;
  source = record {
    repository = codes "https://github.com/sentrybottale/owntransit";
    commit = replicate 40 b'c';
    dirty = false;
    manifest_sha256 = digest;
  };
  toolchain = record {
    go_version = codes "go1.24.1";
    builder_image = codes "docker.io/library/golang@sha256:" ++ digest;
  };
  artifacts = map measured artifact_matrix;
  evidence = records;
}

abbrev pub parse_url : Bytes → Option Url
parse_url text = some (record {
  text = text;
  scheme = codes "https";
  has_user = false;
  raw_query = [];
  fragment = [];
})

pub valid : validate_manifest codec parse_url manifest ≡ ok tt
unfolding validate_manifest artifact_matrix lookup check_header check_counts check_artifacts
    validate_record check_evidence tally check_sboms kind_of all_used safe_token every every_part
    split valid_relative_path valid_digest valid_commit go_version valid_builder_image cut_text
    count_byte valid_registry valid_repository valid_registry_host runs_to atoi number
    valid_evidence_kind lex_lt has parse_id all_in_alphabet
valid = refl

abbrev pub signature_record : Signature
signature_record = record {
  schema = signature_schema;
  key_id = key_name;
  manifest_sha256 = replicate 32 3;
  signature = replicate 64 4;
}

abbrev pub manifest_codec : ManifestCodec
manifest_codec = record {
  base = codec;
  parse_url = parse_url;
  decode_manifest = λ bytes. some manifest;
  marshal_manifest = λ m. some (1 ∷ []);
  decode_signature = λ bytes. some signature_record;
  marshal_signature = λ r. some (1 ∷ []);
}

abbrev pub install_policy : InstallPolicy
install_policy = record {
  highest_sequence = 4;
  running_lifecycle = 1;
  artifact_name = codes "client-linux-amd64";
  expected_os = codes "linux";
  expected_arch = codes "amd64";
  expected_role = codes "client";
  expected_artifact_sha256 = [];
  tombstoned_release_ids = [];
  verified_release_policy = some (verified 2);
  exact_replay_release_id = [];
}

abbrev pub client : Artifact
client = record {
  name = codes "client-linux-amd64";
  file = codes "artifacts/owntransit-linux-amd64";
  sha256 = digest;
  size = pos 10;
  os = codes "linux";
  arch = codes "amd64";
  role = codes "client";
  format = codes "executable";
  ssh_target = [];
  sbom = codes "sbom-client-linux-amd64";
}

pub verifies : verify_manifest manifest_codec (1 ∷ 10 ∷ []) (1 ∷ 10 ∷ []) key ≡ ok manifest
unfolding verify_manifest parse_manifest encode_manifest key_id verify signature_input
    signature_input_size unusable contains_nul
verifies = rw valid refl

pub installs :
    verify_for_install manifest_codec (1 ∷ 10 ∷ []) (1 ∷ 10 ∷ []) key install_policy
    ≡ ok (manifest, client)
unfolding verify_for_install artifact_matrix lookup check_tombstones select_artifact key_id parse_id
    all_in_alphabet
installs = rw verifies refl
