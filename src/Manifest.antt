-- ===== src/Manifest.antt =====
-- internal/release/manifest.go: the manifests of releases and their validation. A Go string is a list of bytes, a map
-- the list of its keys, and a codec holds the packages that the code calls.
pub mod Names
pub mod Matrix
pub mod Loops
pub mod Exact
pub mod Install
pub mod Decision
pub mod Samples
mod Runs
use own_transit.Prelude.{
  ℕ, ◌+◌, ◌*◌, ◌^◌, ◌≡◌, Bool, true, false, not, ◌&&◌, ◌||◌, Option, none, some, List, [], ◌∷◌,
  ◌++◌, map, length, Bytes, bytes_eq, ltb, leb, ◌==◌, if◌then◌else◌, Outcome, ok, err, ◌>>=◌, ◌>>◌,
  fail_if,
}
use own_transit.Prelude.Texts.{codes, lex_lt, has}
use own_transit.ReleasePolicy.{ℤ, pos, negsuc, Codec, not_positive, nonzero_id}
use own_transit.Manifest.Names.{
  safe_token, go_version, valid_relative_path, valid_digest, valid_commit, valid_builder_image,
  valid_evidence_kind,
}
use own_transit.Manifest.Matrix.{
  ArtifactProfile, initial_artifact_matrix, initial_artifact_order, lookup,
}

pub record Source : Type 0 where
  pub repository : Bytes
  pub commit : Bytes
  pub dirty : Bool
  pub manifest_sha256 : Bytes

pub record Toolchain : Type 0 where
  pub go_version : Bytes
  pub builder_image : Bytes

pub record Artifact : Type 0 where
  pub name : Bytes
  pub file : Bytes
  pub sha256 : Bytes
  pub size : ℤ
  pub os : Bytes
  pub arch : Bytes
  pub role : Bytes
  pub format : Bytes
  pub ssh_target : Bytes
  pub sbom : Bytes

pub record Evidence : Type 0 where
  pub name : Bytes
  pub file : Bytes
  pub sha256 : Bytes
  pub size : ℤ
  pub kind : Bytes

pub record Manifest : Type 0 where
  pub schema : Bytes
  pub product : Bytes
  pub version : Bytes
  pub release_id : Bytes
  pub sequence : ℕ
  pub created_unix : ℤ
  pub protocol : Bytes
  pub license : Bytes
  pub minimum_lifecycle : ℕ
  pub source : Source
  pub toolchain : Toolchain
  pub artifacts : List Artifact
  pub evidence : List Evidence

-- The zero value of Go for a name that the matrix does not have.
abbrev row : Bytes → Option ArtifactProfile → Artifact
row name none = record {
  name = name;
  file = [];
  sha256 = [];
  size = pos 0;
  os = [];
  arch = [];
  role = [];
  format = [];
  ssh_target = [];
  sbom = codes "sbom-" ++ name;
}
row name (some p) = record {
  name = name;
  file = p.file;
  sha256 = [];
  size = pos 0;
  os = p.os;
  arch = p.arch;
  role = p.role;
  format = p.format;
  ssh_target = p.ssh_target;
  sbom = codes "sbom-" ++ name;
}

-- `ArtifactMatrix`, whose artifacts are not measured.
unfoldable pub artifact_matrix : List Artifact
unfolding lookup
artifact_matrix =
    map (λ name. row name (lookup initial_artifact_matrix name)) initial_artifact_order

-- What the code reads of a parsed URL; `text` is `repository.String()`.
pub record Url : Type 0 where
  pub text : Bytes
  pub scheme : Bytes
  pub has_user : Bool
  pub raw_query : Bytes
  pub fragment : Bytes

pub data ManifestError : Type 0 where
  unsupported invalid_numbers bad_release_id bad_source bad_repository bad_toolchain wrong_count
        wrong_evidence_count :
      ManifestError
  bad_record duplicate_name duplicate_file : ManifestError
  not_in_matrix out_of_order wrong_profile bad_sbom bad_kind evidence_order : ManifestError
  no_licenses no_project_license no_provenance no_sbom reused_sbom unreferenced_sbom : ManifestError

-- The maps `seenNames` and `seenFiles`.
pub record Seen : Type 0 where
  pub names : List Bytes
  pub files : List Bytes

abbrev pub too_large : ℤ → Bool
too_large (pos n) = ltb (2 ^ 40) n
too_large (negsuc n) = false

unfoldable pub validate_record : Bytes → Bytes → Bytes → ℤ → Seen → Outcome ManifestError Seen
unfolding safe_token valid_relative_path valid_digest
validate_record name file digest size seen = do
  fail_if
      (not (safe_token name)
        || not (valid_relative_path file)
        || not (valid_digest digest)
        || not_positive size
        || too_large size)
      bad_record
  fail_if (has seen.names name) duplicate_name
  fail_if (has seen.files file) duplicate_file
  ok (record { names = name ∷ seen.names; files = file ∷ seen.files })

abbrev pub matches : Artifact → ArtifactProfile → Bool
matches artifact expected =
    bytes_eq artifact.file expected.file
    && bytes_eq artifact.os expected.os
    && bytes_eq artifact.arch expected.arch
    && bytes_eq artifact.role expected.role
    && bytes_eq artifact.format expected.format
    && bytes_eq artifact.ssh_target expected.ssh_target

abbrev pub required : Option ArtifactProfile → Outcome ManifestError ArtifactProfile
required none = err not_in_matrix
required (some p) = ok p

-- The loop over the artifacts, with `initialArtifactOrder[index:]`, which has as many names as there are artifacts.
unfoldable pub check_artifacts : List Bytes → Seen → List Artifact → Outcome ManifestError Seen
unfolding validate_record lookup
check_artifacts order seen [] = ok seen
check_artifacts [] seen (a ∷ rest) = err out_of_order
check_artifacts (name ∷ order) seen (a ∷ rest) = do
  seen' ← validate_record a.name a.file a.sha256 a.size seen
  expected ← required (lookup initial_artifact_matrix a.name)
  fail_if (not (bytes_eq a.name name)) out_of_order
  fail_if (not (matches a expected)) wrong_profile
  fail_if (not (safe_token a.sbom)) bad_sbom
  check_artifacts order seen' rest

-- The three counters of the loop over the evidence.
pub record Tally : Type 0 where
  pub licenses : ℕ
  pub project_licenses : ℕ
  pub provenance : ℕ

abbrev one_if : Bool → ℕ → ℕ
one_if b n = if b then n + 1 else n

unfoldable pub tally : Evidence → Tally → Tally
tally e t = record {
  licenses =
      one_if (bytes_eq e.name (codes "third-party-licenses") && bytes_eq e.kind (codes "licenses"))
        t.licenses;
  project_licenses =
      one_if
        (bytes_eq e.name (codes "project-license")
          && bytes_eq e.kind (codes "project-license")
          && bytes_eq e.file (codes "LICENSE"))
        t.project_licenses;
  provenance =
      one_if (bytes_eq e.name (codes "provenance") && bytes_eq e.kind (codes "provenance"))
        t.provenance;
}

abbrev not_after : Option Bytes → Bytes → Bool
not_after none name = false
not_after (some previous) name = not (lex_lt previous name)

-- The loop over the evidence; `previous` is `none` at index 0.
unfoldable pub check_evidence :
    Option Bytes → Seen → Tally → List Evidence → Outcome ManifestError Tally
unfolding validate_record tally
check_evidence previous seen t [] = ok t
check_evidence previous seen t (e ∷ rest) = do
  seen' ← validate_record e.name e.file e.sha256 e.size seen
  fail_if (not (valid_evidence_kind e.kind)) bad_kind
  fail_if (not_after previous e.name) evidence_order
  check_evidence (some e.name) seen' (tally e t) rest

-- `evidenceByName`, whose names are distinct: the kind of the evidence of a name.
unfoldable pub kind_of : List Evidence → Bytes → Option Bytes
kind_of [] name = none
kind_of (e ∷ es) name =
    let rest = kind_of es name in if bytes_eq e.name name then some e.kind else rest

abbrev is_sbom : Option Bytes → Bool
is_sbom none = false
is_sbom (some kind) = bytes_eq kind (codes "sbom")

-- The loop that collects `usedSBOMs`.
unfoldable pub check_sboms :
    List Evidence → List Bytes → List Artifact → Outcome ManifestError (List Bytes)
unfolding kind_of has
check_sboms evidence used [] = ok used
check_sboms evidence used (a ∷ rest) = do
  fail_if (not (is_sbom (kind_of evidence a.sbom))) no_sbom
  fail_if (has used a.sbom) reused_sbom
  check_sboms evidence (a.sbom ∷ used) rest

unfoldable pub all_used : List Bytes → List Evidence → Bool
all_used used [] = true
all_used used (e ∷ es) =
    (not (bytes_eq e.kind (codes "sbom")) || has used e.name) && all_used used es

abbrev pub manifest_schema : Bytes
manifest_schema = codes "owntransit.software-release.v1"

abbrev canonical : Option Url → Bool
canonical none = false
canonical (some u) =
    bytes_eq u.text (codes "https://github.com/sentrybottale/owntransit")
    && bytes_eq u.scheme (codes "https")
    && not u.has_user
    && length u.raw_query == 0
    && length u.fragment == 0

-- The tests of the lengths.
unfoldable pub check_counts : Manifest → Outcome ManifestError (Unit {0})
check_counts m = do
  fail_if (not (length m.artifacts == length initial_artifact_matrix)) wrong_count
  fail_if (length m.evidence == 0 || ltb 32 (length m.evidence)) wrong_evidence_count

module _ (c : Codec) (parse_url : Bytes → Option Url) where
  -- The tests of the fields.
  unfoldable pub check_header : Manifest → Outcome ManifestError (Unit {0})
  check_header m = do
    fail_if
        (not (bytes_eq m.schema manifest_schema)
          || not (bytes_eq m.product (codes "owntransit"))
          || not (bytes_eq m.protocol (codes "forthgate/1"))
          || not (bytes_eq m.license (codes "Apache-2.0")))
        unsupported
    fail_if
        (not (safe_token m.version)
          || m.sequence == 0
          || not_positive m.created_unix
          || m.minimum_lifecycle == 0)
        invalid_numbers
    fail_if (not (nonzero_id c m.release_id)) bad_release_id
    fail_if
        (m.source.dirty
          || not (valid_digest m.source.manifest_sha256)
          || not (valid_commit m.source.commit))
        bad_source
    fail_if (not (canonical (parse_url m.source.repository))) bad_repository
    fail_if
        (not (go_version m.toolchain.go_version)
          || not (valid_builder_image m.toolchain.builder_image))
        bad_toolchain

  unfoldable pub validate_manifest : Manifest → Outcome ManifestError (Unit {0})
  unfolding check_header check_counts check_artifacts check_evidence check_sboms all_used
  validate_manifest m = do
    check_header m
    check_counts m
    seen ← check_artifacts initial_artifact_order (record { names = []; files = [] }) m.artifacts
    t ←
        check_evidence none seen (record { licenses = 0; project_licenses = 0; provenance = 0 })
          m.evidence
    fail_if (not (t.licenses == 1)) no_licenses
    fail_if (not (t.project_licenses == 1)) no_project_license
    fail_if (not (t.provenance == 1)) no_provenance
    used ← check_sboms m.evidence [] m.artifacts
    fail_if (not (all_used used m.evidence)) unreferenced_sbom
