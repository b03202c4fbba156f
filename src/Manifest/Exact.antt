-- ===== src/Manifest/Exact.antt =====
-- A valid manifest lists exactly the artifacts of the matrix, without repetitions, each with a record of its contents.
use own_transit.Prelude.{
  ◌≡◌, sym, ap, subst, ◌∙◌, Bool, true, false, not, ◌||◌, Option, none, some, List, [], ◌∷◌, ◌++◌,
  map, length, Bytes, All, bytes_eq, bytes_eq→eq, ◌==◌, ==_iff, ok, fail_if, bound, ok_inj, arith,
}
use own_transit.Prelude.Texts.{codes, has}
use own_transit.ReleasePolicy.{Codec}
use own_transit.Manifest.Names.{valid_evidence_kind}
use own_transit.Manifest.Matrix.{initial_artifact_order}
use own_transit.Manifest.Loops.{
  Fresh, pushed, Fresh-append, has-pushed, IsFixed, tested, truth, names_of, files_of,
  validate_record-Recorded, check_artifacts-Looped,
}
use own_transit.Manifest.{
  Manifest, Artifact, Evidence, Url, Seen, Tally, bad_kind, wrong_count, evidence_order,
  no_licenses, no_project_license, no_provenance, no_sbom, reused_sbom, unreferenced_sbom,
  validate_record, check_artifacts, tally, not_after, check_evidence, kind_of, is_sbom, check_sboms,
  all_used, check_header, check_counts, validate_manifest,
}

abbrev evidence_names : List Evidence → List Bytes
evidence_names evidence = map (λ e. e.name) evidence

abbrev evidence_files : List Evidence → List Bytes
evidence_files evidence = map (λ e. e.file) evidence

abbrev sboms_of : List Artifact → List Bytes
sboms_of artifacts = map (λ a. a.sbom) artifacts

check_evidence-Fresh :
    (previous : Option Bytes) (seen : Seen) (t t' : Tally) (evidence : List Evidence)
    → check_evidence previous seen t evidence ≡ ok t'
    → Fresh seen.names (evidence_names evidence) × Fresh seen.files (evidence_files evidence)
unfolding check_evidence
check_evidence-Fresh previous seen t t' [] h = (tt, tt)
check_evidence-Fresh previous seen t t' (e ∷ rest) h =
    let (next, recorded, h) = bound (validate_record e.name e.file e.sha256 e.size seen) _ h in
    let (_, _, h) = bound (fail_if (not (valid_evidence_kind e.kind)) bad_kind) _ h in
    let (_, _, h) = bound (fail_if (not_after previous e.name) evidence_order) _ h in
    let (names, files) = check_evidence-Fresh (some e.name) next (tally e t) t' rest h in
    let r = validate_record-Recorded e.name e.file e.sha256 e.size seen next recorded in
    (
      (r.new_name, subst (λ s. Fresh s (evidence_names rest)) r.names names),
      (r.new_file, subst (λ s. Fresh s (evidence_files rest)) r.files files),
    )

-- The artifact names a record of kind sbom.
abbrev pub IsDescribed : List Evidence → Artifact → Type 0
IsDescribed evidence a = kind_of evidence a.sbom ≡ some (codes "sbom")

is_sbom_inv : (o : Option Bytes) → is_sbom o ≡ true → o ≡ some (codes "sbom")
is_sbom_inv none h = absurd (ground arith)
is_sbom_inv (some kind) h = ap some (bytes_eq→eq kind (codes "sbom") h)

check_sboms-IsDescribed :
    (evidence : List Evidence) (used used' : List Bytes) (artifacts : List Artifact)
    → check_sboms evidence used artifacts ≡ ok used'
    → All (IsDescribed evidence) artifacts
      × Fresh used (sboms_of artifacts)
      × (used' ≡ pushed (sboms_of artifacts) used)
unfolding check_sboms
check_sboms-IsDescribed evidence used used' [] h = (tt, tt, sym (ok_inj h))
check_sboms-IsDescribed evidence used used' (a ∷ rest) h =
    let (_, described, h) = bound (fail_if (not (is_sbom (kind_of evidence a.sbom))) no_sbom) _ h in
    let (_, new, h) = bound (fail_if (has used a.sbom) reused_sbom) _ h in
    let (others, fresh, all) = check_sboms-IsDescribed evidence (a.sbom ∷ used) used' rest h in
    (
      (is_sbom_inv (kind_of evidence a.sbom) (truth _ (tested no_sbom described)), others),
      (tested reused_sbom new, fresh),
      all,
    )

-- A record of kind sbom is the one of an artifact.
abbrev pub IsReferenced : List Artifact → Evidence → Type 0
IsReferenced artifacts e =
    (not (bytes_eq e.kind (codes "sbom")) || has (sboms_of artifacts) e.name) ≡ true

all_used-IsReferenced :
    (artifacts : List Artifact) (used : List Bytes) (evidence : List Evidence)
    → ((name : Bytes) → has used name ≡ has (sboms_of artifacts) name)
    → all_used used evidence ≡ true
    → All (IsReferenced artifacts) evidence
unfolding all_used
all_used-IsReferenced artifacts used [] same h = tt
all_used-IsReferenced artifacts used (e ∷ rest) same h =
    (ground (arith, same e.name), all_used-IsReferenced artifacts used rest same (ground arith))

pub record Exact (m : Manifest) : Type 0 where
  pub names : names_of m.artifacts ≡ initial_artifact_order
  pub profiles : All IsFixed m.artifacts
  pub distinct_names : Fresh [] (names_of m.artifacts ++ evidence_names m.evidence)
  pub distinct_files : Fresh [] (files_of m.artifacts ++ evidence_files m.evidence)
  pub described : All (IsDescribed m.evidence) m.artifacts
  pub distinct_sboms : Fresh [] (sboms_of m.artifacts)
  pub referenced : All (IsReferenced m.artifacts) m.evidence

header_count :
    (m : Manifest) → check_counts m ≡ ok tt → length m.artifacts ≡ length initial_artifact_order
unfolding check_counts
header_count m h =
    let (_, count, h) = bound (fail_if (not (length m.artifacts == 14)) wrong_count) _ h in
    (==_iff (length m.artifacts) 14).0 (truth _ (tested wrong_count count))

member :
    (artifacts : List Artifact) (used : List Bytes)
    → used ≡ pushed (sboms_of artifacts) []
    → (name : Bytes) → has used name ≡ has (sboms_of artifacts) name
unfolding has
member artifacts used e name =
    ap (λ u. has u name) e
    ∙ has-pushed (sboms_of artifacts) [] name
    ∙ or_nothing (has (sboms_of artifacts) name)
  where
    or_nothing : (b : Bool) → (b || false) ≡ b
    or_nothing b = ground arith

module _ (c : Codec) (parse_url : Bytes → Option Url) where
  -- A manifest that is valid has the artifacts of the matrix, in its order, each with the file, platform, role, format and
  -- target of its row; no two records of artifacts or evidence share a name or a file; and the records of kind sbom are
  -- those that the artifacts refer to, one for each artifact.
  pub validate_manifest-Exact : (m : Manifest) → validate_manifest c parse_url m ≡ ok tt → Exact m
  unfolding validate_manifest
  validate_manifest-Exact m h =
      let start : Seen = record { names = []; files = [] } in
      let none_yet : Tally = record { licenses = 0; project_licenses = 0; provenance = 0 } in
      let (_, _, h) = bound (check_header c parse_url m) _ h in
      let (_, counts, h) = bound (check_counts m) _ h in
      let (seen, artifacts, h) =
        bound (check_artifacts initial_artifact_order start m.artifacts) _ h in
      let (t, evidence, h) = bound (check_evidence none seen none_yet m.evidence) _ h in
      let (_, _, h) = bound (fail_if (not (t.licenses == 1)) no_licenses) _ h in
      let (_, _, h) = bound (fail_if (not (t.project_licenses == 1)) no_project_license) _ h in
      let (_, _, h) = bound (fail_if (not (t.provenance == 1)) no_provenance) _ h in
      let (used, sboms, h) = bound (check_sboms m.evidence [] m.artifacts) _ h in
      let (names, fixed, looped) =
        check_artifacts-Looped initial_artifact_order start seen m.artifacts artifacts
          (header_count m counts) in
      let (fresh_names, fresh_files) =
        check_evidence-Fresh none seen none_yet t m.evidence evidence in
      let (described, distinct, all) =
        check_sboms-IsDescribed m.evidence [] used m.artifacts sboms in
      record {
        names = names;
        profiles = fixed;
        distinct_names =
            Fresh-append [] (names_of m.artifacts) (evidence_names m.evidence) looped.fresh_names
              (subst (λ s. Fresh s (evidence_names m.evidence)) looped.all_names fresh_names);
        distinct_files =
            Fresh-append [] (files_of m.artifacts) (evidence_files m.evidence) looped.fresh_files
              (subst (λ s. Fresh s (evidence_files m.evidence)) looped.all_files fresh_files);
        described = described;
        distinct_sboms = distinct;
        referenced =
            all_used-IsReferenced m.artifacts used m.evidence (member m.artifacts used all)
              (truth _ (tested unreferenced_sbom h));
      }
