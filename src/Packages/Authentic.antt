-- ===== src/Packages/Authentic.antt =====
-- A decision installs the artifact of the release that was verified, under safe names.
use own_transit.Prelude.{
  ◌≡◌, refl, ap, subst, ◌∙◌, Bool, true, not, ◌||◌, Option, none, some, List, [], ◌∷◌, map, length,
  Bytes, All, bytes_eq, bytes_eq_refl, bytes_eq→eq, ◌==◌, ok, fail_if, bound, ok_inj, arith,
  Bool-cases, inl, inr,
}
use own_transit.Prelude.Texts.{codes, lex_lt, has, Increasing}
use own_transit.Manifest.{Manifest, Artifact}
use own_transit.Packages.{
  DecisionFile, Decision, bad_bundle, wrong_platform, primary_install_profile,
  artifact_decision_file, validate_decision_files,
}
use own_transit.Packages.Safety.{
  Safe, names_of, validate_decision_files-Safe, tested, or_false, truth,
}
use own_transit.Packages.Verified.{
  Verification, default_to, lifecycle_files, launcher_files, find_evidence, of_kind, insert_file,
  sort_files, authenticated, decision_files, verify_decision,
}

abbrev digests_of : List DecisionFile → List Bytes
digests_of files = map (λ f. f.sha256) files

has-insert_file :
    (f : DecisionFile) (files : List DecisionFile) (digest : Bytes)
    → has (digests_of (insert_file f files)) digest
      ≡ (bytes_eq f.sha256 digest || has (digests_of files) digest)
unfolding insert_file has
has-insert_file f [] digest = refl
has-insert_file f (g ∷ rest) digest = elim (Bool-cases (lex_lt g.install_name f.install_name)) [
  | inl below ↦ rw (below, has-insert_file f rest digest) (ground arith)
  | inr above ↦ rw above refl
]

-- What holds of the decision for a verified release and its selected artifact.
pub record Authentic (goos goarch : Bytes) (input : Verification) (m : Manifest) (a : Artifact)
    (d : Decision) : Type 0 where
  pub release : d.release_id ≡ m.release_id
  pub sequence : d.sequence ≡ m.sequence
  pub role : d.role ≡ a.role
  pub os : d.os ≡ default_to input.local_os goos
  pub arch : d.arch ≡ default_to input.local_arch goarch
  pub selected : has (digests_of d.files) a.sha256 ≡ true
  pub distinct : Increasing (names_of d.files)
  pub safe : All Safe d.files

module _ (clean : Bytes → Bytes) (is_abs : Bytes → Bool) (sha256_hex : Bytes → Bytes)
    (goos goarch : Bytes) (verify_bundle : Verification → Option (Manifest × Artifact)) where
  decision_files-has :
      (input : Verification) (m : Manifest) (a : Artifact) (files : List DecisionFile)
      → decision_files clean is_abs sha256_hex goos goarch verify_bundle input m a ≡ ok files
      → has (digests_of files) a.sha256 ≡ true
  unfolding decision_files sort_files artifact_decision_file
  decision_files-has input m a files h =
      let ((name, mode, gid, needs), _, h) =
        bound (primary_install_profile a input.owner_gid input.reader_gid) _ h in
      let (lifecycle, _, h) = bound (lifecycle_files needs a input.owner_gid m) _ h in
      let (launcher, _, h) = bound (launcher_files a input.reader_gid m) _ h in
      let (project, _, h) =
        bound
          (of_kind (codes "project-license") (find_evidence (codes "project-license") m.evidence)) _
          h in
      let (third, _, h) =
        bound (of_kind (codes "licenses") (find_evidence (codes "third-party-licenses") m.evidence))
          _ h in
      subst (λ fs. has (digests_of fs) a.sha256 ≡ true) (ok_inj h)
        (has-insert_file (artifact_decision_file a name mode gid) _ a.sha256 ∙ first a.sha256 _)
    where
      first : (digest : Bytes) (b : Bool) → (bytes_eq digest digest || b) ≡ true
      first digest b = rw (bytes_eq_refl digest) refl

  authenticated_inv :
      (o : Option (Manifest × Artifact)) (p : Manifest × Artifact)
      → authenticated clean is_abs sha256_hex goos goarch verify_bundle o ≡ ok p
      → o ≡ some p
  authenticated_inv none p h = absurd (ground arith)
  authenticated_inv (some q) p h = ap some (ok_inj h)

  -- A decision to install is for a release whose bundle was verified: it has the id and the sequence of its manifest, and the role of the
  -- selected artifact, whose platform is the local one; the artifact's digest is among the files; and the files have
  -- distinct and safe names.
  pub verify_decision-Authentic :
      (input : Verification) (d : Decision)
      → verify_decision clean is_abs sha256_hex goos goarch verify_bundle input ≡ ok d
      → (m : Manifest) × (a : Artifact) × (verify_bundle input ≡ some (m, a))
        × Authentic goos goarch input m a d
  unfolding verify_decision
  verify_decision-Authentic input d h =
      let (_, _, h) =
        bound
          (fail_if
            (length input.bundle_root == 0
              || not (is_abs input.bundle_root)
              || not (bytes_eq (clean input.bundle_root) input.bundle_root)
              || bytes_eq input.bundle_root (codes "/"))
            bad_bundle)
          _ h in
      let ((m, a), verified, h) =
        bound
          (authenticated clean is_abs sha256_hex goos goarch verify_bundle (verify_bundle input)) _
          h in
      let (_, platform, h) =
        bound
          (fail_if
            (not (bytes_eq a.os (default_to input.local_os goos))
              || not (bytes_eq a.arch (default_to input.local_arch goarch)))
            wrong_platform)
          _ h in
      let (files, made, h) =
        bound (decision_files clean is_abs sha256_hex goos goarch verify_bundle input m a) _ h in
      let (_, valid, h) = bound (validate_decision_files clean files) _ h in
      let (os, arch) = or_false _ _ (tested wrong_platform platform) in
      let (distinct, safe) = validate_decision_files-Safe clean files valid in
      (
        m,
        a,
        authenticated_inv (verify_bundle input) (m, a) verified,
        subst (Authentic goos goarch input m a) (ok_inj h) (record {
          release = refl;
          sequence = refl;
          role = refl;
          os = bytes_eq→eq a.os (default_to input.local_os goos) (truth _ os);
          arch = bytes_eq→eq a.arch (default_to input.local_arch goarch) (truth _ arch);
          selected = decision_files-has input m a files made;
          distinct = distinct;
          safe = safe;
        }),
      )
