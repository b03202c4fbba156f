-- ===== src/Manifest/Loops.antt =====
-- What the loop over the artifacts of a manifest leaves, and what the maps of names and files hold after it.
use own_transit.Prelude.{
  ◌≡◌, refl, sym, ap, subst, ◌∙◌, Bool, true, false, not, ◌||◌, Option, none, some, List, [], ◌∷◌,
  ◌++◌, map, length, Bytes, All, bytes_eq, bytes_eq→eq, ok, fail_if, bound, ok_inj, arith,
}
use own_transit.Prelude.Texts.{has}
use own_transit.ReleasePolicy.{ℤ}
use own_transit.Manifest.Names.{safe_token, valid_relative_path, valid_digest}
use own_transit.Manifest.Matrix.{ArtifactProfile, initial_artifact_matrix, lookup}
use own_transit.Manifest.{
  Artifact, Seen, ManifestError, bad_record, duplicate_name, duplicate_file, out_of_order,
  wrong_profile, bad_sbom, not_positive, too_large, validate_record, required, matches,
  check_artifacts,
}

-- No text of the list is in `seen` or stands in the list before.
abbrev pub Fresh : List Bytes → List Bytes → Type 0
Fresh seen [] = Unit {0}
Fresh seen (x ∷ xs) = (has seen x ≡ false) × Fresh (x ∷ seen) xs

abbrev pub pushed : List Bytes → List Bytes → List Bytes
pushed [] seen = seen
pushed (x ∷ xs) seen = pushed xs (x ∷ seen)

pub Fresh-append :
    (seen xs ys : List Bytes) → Fresh seen xs → Fresh (pushed xs seen) ys → Fresh seen (xs ++ ys)
Fresh-append seen [] ys h k = k
Fresh-append seen (x ∷ xs) ys (h, hs) k = (h, Fresh-append (x ∷ seen) xs ys hs k)

pub has-pushed :
    (xs seen : List Bytes) (y : Bytes) → has (pushed xs seen) y ≡ (has xs y || has seen y)
unfolding has
has-pushed [] seen y = refl
has-pushed (x ∷ xs) seen y = ground (arith, has-pushed xs (x ∷ seen) y)

-- The profile that an artifact has.
abbrev pub profile_of : Artifact → ArtifactProfile
profile_of a = record {
  file = a.file;
  os = a.os;
  arch = a.arch;
  role = a.role;
  format = a.format;
  ssh_target = a.ssh_target;
}

matches→eq : (a : Artifact) (p : ArtifactProfile) → matches a p ≡ true → p ≡ profile_of a
matches→eq a p h =
    let file = bytes_eq→eq a.file p.file (ground arith) in
    let os = bytes_eq→eq a.os p.os (ground arith) in
    let arch = bytes_eq→eq a.arch p.arch (ground arith) in
    let role = bytes_eq→eq a.role p.role (ground arith) in
    let format = bytes_eq→eq a.format p.format (ground arith) in
    let target = bytes_eq→eq a.ssh_target p.ssh_target (ground arith) in
    cc (file, os, arch, role, format, target)

pub tested : {b : Bool} (e : ManifestError) {u : Unit {0}} → fail_if b e ≡ ok u → b ≡ false
tested e h = ground arith

pub truth : (b : Bool) → not b ≡ false → b ≡ true
truth b h = ground arith

pub record Recorded (name file : Bytes) (seen seen' : Seen) : Type 0 where
  pub new_name : has seen.names name ≡ false
  pub new_file : has seen.files file ≡ false
  pub names : seen'.names ≡ name ∷ seen.names
  pub files : seen'.files ≡ file ∷ seen.files

pub validate_record-Recorded :
    (name file digest : Bytes) (size : ℤ) (seen seen' : Seen)
    → validate_record name file digest size seen ≡ ok seen'
    → Recorded name file seen seen'
unfolding validate_record
validate_record-Recorded name file digest size seen seen' h =
    let (_, _, h) =
      bound
        (fail_if
          (not (safe_token name)
            || not (valid_relative_path file)
            || not (valid_digest digest)
            || not_positive size
            || too_large size)
          bad_record)
        _ h in
    let (_, new_name, h) = bound (fail_if (has seen.names name) duplicate_name) _ h in
    let (_, new_file, h) = bound (fail_if (has seen.files file) duplicate_file) _ h in
    record {
      new_name = tested duplicate_name new_name;
      new_file = tested duplicate_file new_file;
      names = ap (λ s. s.names) (sym (ok_inj h));
      files = ap (λ s. s.files) (sym (ok_inj h));
    }

required_inv : (o : Option ArtifactProfile) (p : ArtifactProfile) → required o ≡ ok p → o ≡ some p
required_inv none p h = absurd (ground arith)
required_inv (some q) p h = ap some (ok_inj h)

-- The artifact has the profile that the matrix gives its name.
abbrev pub IsFixed : Artifact → Type 0
IsFixed a = lookup initial_artifact_matrix a.name ≡ some (profile_of a)

abbrev pub names_of : List Artifact → List Bytes
names_of artifacts = map (λ a. a.name) artifacts

abbrev pub files_of : List Artifact → List Bytes
files_of artifacts = map (λ a. a.file) artifacts

-- What a loop leaves: new names and files, which stand in the maps afterwards.
pub record Looped (names files : List Bytes) (seen seen' : Seen) : Type 0 where
  pub fresh_names : Fresh seen.names names
  pub fresh_files : Fresh seen.files files
  pub all_names : seen'.names ≡ pushed names seen.names
  pub all_files : seen'.files ≡ pushed files seen.files

pub then-Looped :
    (name file : Bytes) (names files : List Bytes) (seen next seen' : Seen)
    → Recorded name file seen next
    → Looped names files next seen'
    → Looped (name ∷ names) (file ∷ files) seen seen'
then-Looped name file names files seen next seen' r l = record {
  fresh_names = (r.new_name, subst (λ s. Fresh s names) r.names l.fresh_names);
  fresh_files = (r.new_file, subst (λ s. Fresh s files) r.files l.fresh_files);
  all_names = l.all_names ∙ ap (pushed names) r.names;
  all_files = l.all_files ∙ ap (pushed files) r.files;
}

pub check_artifacts-Looped :
    (order : List Bytes) (seen seen' : Seen) (artifacts : List Artifact)
    → check_artifacts order seen artifacts ≡ ok seen'
    → length artifacts ≡ length order
    → (names_of artifacts ≡ order)
      × All IsFixed artifacts
      × Looped (names_of artifacts) (files_of artifacts) seen seen'
unfolding check_artifacts
check_artifacts-Looped [] seen seen' [] h size = (
  refl,
  tt,
  record {
    fresh_names = tt;
    fresh_files = tt;
    all_names = ap (λ s. s.names) (sym (ok_inj h));
    all_files = ap (λ s. s.files) (sym (ok_inj h));
  },
)
check_artifacts-Looped (name ∷ order) seen seen' [] h size = absurd (omega arith)
check_artifacts-Looped [] seen seen' (a ∷ rest) h size = absurd (omega arith)
check_artifacts-Looped (name ∷ order) seen seen' (a ∷ rest) h size =
    let (next, recorded, h) = bound (validate_record a.name a.file a.sha256 a.size seen) _ h in
    let (expected, found, h) = bound (required (lookup initial_artifact_matrix a.name)) _ h in
    let (_, in_order, h) = bound (fail_if (not (bytes_eq a.name name)) out_of_order) _ h in
    let (_, profiled, h) = bound (fail_if (not (matches a expected)) wrong_profile) _ h in
    let (_, _, h) = bound (fail_if (not (safe_token a.sbom)) bad_sbom) _ h in
    let (names, fixed, looped) = check_artifacts-Looped order next seen' rest h (omega arith) in
    let first : a.name ≡ name = bytes_eq→eq a.name name (truth _ (tested out_of_order in_order)) in
    let same : expected ≡ profile_of a =
      matches→eq a expected (truth _ (tested wrong_profile profiled)) in
    (
      cc (first, names),
      (required_inv (lookup initial_artifact_matrix a.name) expected found ∙ ap some same, fixed),
      then-Looped a.name a.file (names_of rest) (files_of rest) seen next seen'
          (validate_record-Recorded a.name a.file a.sha256 a.size seen next recorded) looped,
    )
