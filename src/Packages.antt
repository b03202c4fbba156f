-- ===== src/Packages.antt =====
-- internal/packagetxn/decision.go and the tests of transaction_unix.go that it uses: what a package transaction is told to
-- install. A file mode is its permission bits and the setgid bit, the bits that the code keeps.
pub mod Safety
pub mod Records
pub mod Receipts
pub mod Verified
pub mod Authentic
mod Runs
use own_transit.Prelude.{
  ℕ, ◌+◌, ◌*◌, ◌/◌, ◌%◌, ◌^◌, ◌≡◌, Bool, true, false, not, ◌&&◌, ◌||◌, Option, none, some, List, [],
  ◌∷◌, ◌++◌, map, length, Bytes, byte_at, bytes_eq, ltb, leb, ◌==◌, if◌then◌else◌, Outcome, ok, err,
  ◌>>=◌, ◌>>◌, fail_if,
}
use own_transit.Prelude.Texts.{codes, lex_lt, split}
use own_transit.ReleasePolicy.{ℤ, not_positive}
use own_transit.Manifest.{Artifact, Evidence, too_large}
use own_transit.Manifest.Names.{lower, upper, digit, every, every_part, valid_digest}
use own_transit.Manifest.Matrix.{executable, oci}

pub record FileMode : Type 0 where
  pub perm : ℕ
  pub setgid : Bool

pub record DecisionFile : Type 0 where
  pub artifact_name : Bytes
  pub source_path : Bytes
  pub install_name : Bytes
  pub sha256 : Bytes
  pub size : ℤ
  pub mode : FileMode
  pub gid : ℕ

pub data Operation : Type 0 where
  install rollback : Operation

-- The seal is there in every decision that the package makes, and has no counterpart.
pub record Decision : Type 0 where
  pub operation : Operation
  pub bundle_root : Bytes
  pub release_id : Bytes
  pub sequence : ℕ
  pub manifest_sha256 : Bytes
  pub role : Bytes
  pub os : Bytes
  pub arch : Bytes
  pub files : List DecisionFile
  pub anchor_before : Bytes
  pub anchor_target : Bytes
  pub policy_sha256 : Bytes

pub record ReceiptFile : Type 0 where
  pub artifact_name : Bytes
  pub name : Bytes
  pub sha256 : Bytes
  pub size : ℤ
  pub mode : ℕ
  pub gid : ℕ

pub record ReceiptRecord : Type 0 where
  pub schema : Bytes
  pub role : Bytes
  pub os : Bytes
  pub arch : Bytes
  pub release_id : Bytes
  pub sequence : ℕ
  pub manifest_sha256 : Bytes
  pub files : List ReceiptFile

pub data PackageError : Type 0 where
  bad_count bad_file reserved_name not_sorted invalid_receipt invalid_decision : PackageError
  bad_bundle wrong_platform many_matches no_lifecycle no_launcher no_license : PackageError
  not_executable not_oci no_reader_gid unsupported_role not_encoded bad_metadata_size : PackageError

abbrev pub token_byte : ℕ → Bool
token_byte c = lower c || upper c || digit c || c == b'.' || c == b'_' || c == b'-'

unfoldable pub valid_token : Bytes → Bool
unfolding every
valid_token value = not (length value == 0 || ltb 128 (length value)) && every token_byte value

unfoldable pub valid_component : Bytes → Bool
unfolding valid_token
valid_component value =
    valid_token value && not (bytes_eq value (codes ".")) && not (bytes_eq value (codes ".."))

-- `filepath.Clean` is the argument `clean`.
unfoldable pub valid_relative_path : (Bytes → Bytes) → Bytes → Bool
unfolding split every_part valid_component
valid_relative_path clean value =
    not (
      length value == 0
      || ltb 512 (length value)
      || byte_at value 0 == b'/'
      || not (bytes_eq (clean value) value))
    && every_part valid_component (split b'/' value)

-- The bit 0o2000 is the setgid bit, and a permission has nine bits.
abbrev pub unix_install_mode : FileMode → ℕ
unix_install_mode mode = if mode.setgid then mode.perm % 512 + 1024 else mode.perm % 512

abbrev pub decode_install_mode : ℕ → FileMode
decode_install_mode mode = record { perm = mode % 512; setgid = mode / 1024 % 2 == 1 }

-- 0o600, 0o644, 0o700, 0o750, 0o755, 0o2750 and 0o2751.
abbrev pub install_modes : ℕ → Bool
install_modes value =
    value == 384
    || value == 420
    || value == 448
    || value == 488
    || value == 493
    || value == 1512
    || value == 1513

abbrev pub valid_install_mode : FileMode → Bool
valid_install_mode mode = install_modes (unix_install_mode mode)

abbrev pub receipt_file_name : Bytes
receipt_file_name = codes "receipt.json"

abbrev pub receipt_stage_name : Bytes
receipt_stage_name = codes ".receipt.stage"

abbrev pub valid_role : Bytes → Bool
valid_role role =
    bytes_eq role (codes "client")
    || bytes_eq role (codes "connector")
    || bytes_eq role (codes "relay")
    || bytes_eq role (codes "provisioner")

abbrev pub reserved : Bytes → Bool
reserved name = bytes_eq name receipt_file_name || bytes_eq name receipt_stage_name

abbrev pub not_after : Option Bytes → Bytes → Bool
not_after none name = false
not_after (some previous) name = not (lex_lt previous name)

-- `primaryInstallProfile`: the name, the mode, the group, and whether the lifecycle program is needed.
unfoldable pub primary_install_profile :
    Artifact → ℕ → ℕ → Outcome PackageError (Bytes × FileMode × ℕ × Bool)
primary_install_profile a owner_gid reader_gid =
    if bytes_eq a.role (codes "client")
    then (do
      fail_if (not (bytes_eq a.format executable)) not_executable
      fail_if (reader_gid == 0) no_reader_gid
      ok (
          if bytes_eq a.os (codes "darwin")
          then (codes "owntransit-real", record { perm = 488; setgid = false }, reader_gid, true)
          else (codes "owntransit", record { perm = 493; setgid = false }, owner_gid, true)))
    else (if bytes_eq a.role (codes "connector")
        then (do
          fail_if (not (bytes_eq a.format executable)) not_executable
          fail_if (reader_gid == 0) no_reader_gid
          ok (
            codes "owntransit-connector",
            record { perm = 488; setgid = false },
            reader_gid,
            true,
          ))
        else (if bytes_eq a.role (codes "relay")
            then (do
              fail_if (not (bytes_eq a.format oci)) not_oci
              ok (
                codes "owntransit-relay.oci.tar",
                record { perm = 384; setgid = false },
                owner_gid,
                true,
              ))
            else (if bytes_eq a.role (codes "provisioner")
                then (do
                  fail_if (not (bytes_eq a.format executable)) not_executable
                  ok (
                    codes "owntransit-provision",
                    record { perm = 493; setgid = false },
                    owner_gid,
                    true,
                  ))
                else err unsupported_role)))

unfoldable pub artifact_decision_file : Artifact → Bytes → FileMode → ℕ → DecisionFile
artifact_decision_file a install_name mode gid = record {
  artifact_name = a.name;
  source_path = a.file;
  install_name = install_name;
  sha256 = a.sha256;
  size = a.size;
  mode = mode;
  gid = gid;
}

unfoldable pub evidence_decision_file : Evidence → Bytes → ℕ → DecisionFile
evidence_decision_file e install_name gid = record {
  artifact_name = e.name;
  source_path = e.file;
  install_name = install_name;
  sha256 = e.sha256;
  size = e.size;
  mode = record { perm = 420; setgid = false };
  gid = gid;
}

module _ (clean : Bytes → Bytes) where
  -- The loop over the files; `previous` is `none` at index 0.
  unfoldable pub check_files : Option Bytes → List DecisionFile → Outcome PackageError (Unit {0})
  unfolding valid_token valid_relative_path valid_component valid_digest lex_lt
  check_files previous [] = ok tt
  check_files previous (f ∷ rest) = do
    fail_if
        (not (valid_token f.artifact_name)
          || not (valid_relative_path clean f.source_path)
          || not (valid_component f.install_name)
          || not (valid_digest f.sha256)
          || not_positive f.size
          || too_large f.size
          || not (valid_install_mode f.mode)
          || f.mode.setgid && f.gid == 0)
        bad_file
    fail_if (reserved f.install_name) reserved_name
    fail_if (not_after previous f.install_name) not_sorted
    check_files (some f.install_name) rest

  unfoldable pub validate_decision_files : List DecisionFile → Outcome PackageError (Unit {0})
  unfolding check_files
  validate_decision_files files = do
    fail_if (length files == 0 || ltb 8 (length files)) bad_count
    check_files none files
