-- ===== src/Packages/Verified.antt =====
-- internal/packagetxn/decision.go: the decision for a release whose bundle was verified. The verification of the bundle reads
-- files and is an argument, as are `runtime.GOOS`, `runtime.GOARCH`, the hexadecimal SHA-256, `filepath.Clean` and `filepath.IsAbs`.
use own_transit.Prelude.{
  ℕ, Bool, true, false, not, ◌&&◌, ◌||◌, Option, none, some, List, [], ◌∷◌, ◌++◌, length, Bytes,
  bytes_eq, ◌==◌, if◌then◌else◌, Outcome, ok, err, ◌>>=◌, ◌>>◌, fail_if,
}
use own_transit.Prelude.Texts.{codes, lex_lt}
use own_transit.Manifest.{Manifest, Artifact, Evidence}
use own_transit.Manifest.Matrix.{executable}
use own_transit.Manifest.Install.{InstallPolicy}
use own_transit.Packages.{
  DecisionFile, Decision, PackageError, install, bad_bundle, wrong_platform, many_matches,
  no_lifecycle, no_launcher, no_license, not_executable, primary_install_profile,
  artifact_decision_file, evidence_decision_file, validate_decision_files,
}

pub record Verification : Type 0 where
  pub bundle_root : Bytes
  pub manifest_bytes : Bytes
  pub signature : Bytes
  pub release_key : Bytes
  pub install_policy : InstallPolicy
  pub local_os : Bytes
  pub local_arch : Bytes
  pub owner_gid : ℕ
  pub reader_gid : ℕ

abbrev pub default_to : Bytes → Bytes → Bytes
default_to value other = if length value == 0 then other else value

-- The artifacts of a role for the platform of the selected one; a second match is an error.
unfoldable pub only_match :
    Bytes → Artifact → Option Artifact → List Artifact → Outcome PackageError (Option Artifact)
only_match role selected found [] = ok found
only_match role selected found (a ∷ rest) =
    elim (bytes_eq a.role role && bytes_eq a.os selected.os && bytes_eq a.arch selected.arch) [
      | false ↦ only_match role selected found rest
      | true ↦ elim found [
        | some other ↦ err many_matches
        | none ↦ only_match role selected (some a) rest
      ]
    ]

-- The artifact of a match, which is a program.
abbrev pub program : PackageError → Option Artifact → Outcome PackageError Artifact
program absent none = err absent
program absent (some a) = if bytes_eq a.format executable then ok a else err not_executable

unfoldable pub lifecycle_files :
    Bool → Artifact → ℕ → Manifest → Outcome PackageError (List DecisionFile)
unfolding only_match artifact_decision_file
lifecycle_files false selected owner_gid m = ok []
lifecycle_files true selected owner_gid m = do
  found ← only_match (codes "lifecycle") selected none m.artifacts
  a ← program no_lifecycle found
  ok (
      artifact_decision_file a (codes "owntransitctl") (record { perm = 448; setgid = false })
        owner_gid
      ∷ [])

unfoldable pub launcher_files : Artifact → ℕ → Manifest → Outcome PackageError (List DecisionFile)
unfolding only_match artifact_decision_file
launcher_files selected reader_gid m =
    if bytes_eq selected.role (codes "client") && bytes_eq selected.os (codes "darwin")
    then (do
      found ← only_match (codes "launcher") selected none m.artifacts
      a ← program no_launcher found
      ok (
          artifact_decision_file a (codes "owntransit") (record { perm = 489; setgid = true })
            reader_gid
          ∷ []))
    else ok []

-- The proxy of a client on Linux.
unfoldable pub proxy_files : Artifact → ℕ → List DecisionFile
unfolding artifact_decision_file
proxy_files selected reader_gid =
    if bytes_eq selected.role (codes "client") && bytes_eq selected.os (codes "linux")
    then artifact_decision_file selected (codes "owntransit-proxy")
        (record { perm = 488; setgid = true }) reader_gid
      ∷ []
    else []

-- The first record of a name.
unfoldable pub find_evidence : Bytes → List Evidence → Option Evidence
find_evidence name [] = none
find_evidence name (e ∷ rest) =
    let later = find_evidence name rest in if bytes_eq e.name name then some e else later

abbrev pub of_kind : Bytes → Option Evidence → Outcome PackageError Evidence
of_kind kind none = err no_license
of_kind kind (some e) = if bytes_eq e.kind kind then ok e else err no_license

-- `sort.Slice`: two files with one name are refused afterwards, so their order does not matter.
unfoldable pub insert_file : DecisionFile → List DecisionFile → List DecisionFile
insert_file f [] = f ∷ []
insert_file f (g ∷ rest) =
    let deeper = insert_file f rest in
    if lex_lt g.install_name f.install_name then g ∷ deeper else f ∷ g ∷ rest

unfoldable pub sort_files : List DecisionFile → List DecisionFile
unfolding insert_file
sort_files [] = []
sort_files (f ∷ rest) = insert_file f (sort_files rest)

module _ (clean : Bytes → Bytes) (is_abs : Bytes → Bool) (sha256_hex : Bytes → Bytes)
    (goos goarch : Bytes) (verify_bundle : Verification → Option (Manifest × Artifact)) where
  abbrev pub authenticated :
      Option (Manifest × Artifact) → Outcome PackageError (Manifest × Artifact)
  authenticated none = err bad_bundle
  authenticated (some p) = ok p

  abbrev pub decision_for : Verification → Manifest → Artifact → List DecisionFile → Decision
  decision_for input m selected files = record {
    operation = install;
    bundle_root = input.bundle_root;
    release_id = m.release_id;
    sequence = m.sequence;
    manifest_sha256 = sha256_hex input.manifest_bytes;
    role = selected.role;
    os = selected.os;
    arch = selected.arch;
    files = files;
    anchor_before = [];
    anchor_target = [];
    policy_sha256 = [];
  }

  -- All files of a release, sorted.
  unfoldable pub decision_files :
      Verification → Manifest → Artifact → Outcome PackageError (List DecisionFile)
  unfolding primary_install_profile artifact_decision_file evidence_decision_file proxy_files
      lifecycle_files launcher_files find_evidence sort_files
  decision_files input m selected = do
    (name, mode, gid, needs_lifecycle) ←
        primary_install_profile selected input.owner_gid input.reader_gid
    lifecycle ← lifecycle_files needs_lifecycle selected input.owner_gid m
    launcher ← launcher_files selected input.reader_gid m
    project ← of_kind (codes "project-license") (find_evidence (codes "project-license") m.evidence)
    third ← of_kind (codes "licenses") (find_evidence (codes "third-party-licenses") m.evidence)
    ok (
        sort_files (
          artifact_decision_file selected name mode gid
          ∷ (proxy_files selected input.reader_gid
              ++ lifecycle
              ++ launcher
              ++ evidence_decision_file project (codes "LICENSE") input.owner_gid
                ∷ evidence_decision_file third (codes "THIRD_PARTY_LICENSES.txt") input.owner_gid
                ∷ [])))

  unfoldable pub verify_decision : Verification → Outcome PackageError Decision
  unfolding decision_files validate_decision_files
  verify_decision input = do
    fail_if
        (length input.bundle_root == 0
          || not (is_abs input.bundle_root)
          || not (bytes_eq (clean input.bundle_root) input.bundle_root)
          || bytes_eq input.bundle_root (codes "/"))
        bad_bundle
    (m, selected) ← authenticated (verify_bundle input)
    fail_if
        (not (bytes_eq selected.os (default_to input.local_os goos))
          || not (bytes_eq selected.arch (default_to input.local_arch goarch)))
        wrong_platform
    files ← decision_files input m selected
    validate_decision_files clean files
    ok (decision_for input m selected files)
