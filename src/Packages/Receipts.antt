-- ===== src/Packages/Receipts.antt =====
-- The decision of a rollback to a valid receipt, and the receipt of that decision.
pub mod Plain
pub mod Paths
use own_transit.Prelude.{
  ℕ, ◌+◌, ◌*◌, ◌/◌, ◌%◌, ◌<◌, ◌≡◌, refl, ap, ◌∙◌, ◌++◌, length-append, Bool, true, false, not, ◌&&◌,
  ◌||◌, Option, none, some, List, [], ◌∷◌, map, length, Bytes, All, byte_at, bytes_eq, bytes_eq→eq,
  bytes_eq_refl, ltb, ◌==◌, ok, fail_if, bound, arith,
}
use own_transit.ReleasePolicy.{not_positive}
use own_transit.Manifest.{too_large}
use own_transit.Manifest.Names.{every, every_part, valid_digest}
use own_transit.Packages.Records.{
  check_receipt_files, file_of_receipt, receipt_of_file, receipt_of, receipt_for_decision,
  encode_receipt, maximum_metadata_size, receipt_schema, validate_receipt, anchors_fit,
  validate_decision, decision_of, decision_from_receipt,
}
use own_transit.Packages.{
  Decision, ReceiptFile, ReceiptRecord, rollback, not_sorted, invalid_receipt, receipt_file_name,
  receipt_stage_name, token_byte, valid_token, valid_component, valid_relative_path,
  unix_install_mode, decode_install_mode, valid_install_mode, not_after, check_files,
  validate_decision_files, valid_role,
}
use own_transit.Packages.Safety.{
  tested, truth, or_false, not_slash, every-split, valid_component-Component,
}
use own_transit.Packages.Receipts.Plain.{
  plain_mode, plain_file, plain_receipt, files_back, check_receipt_files-plain,
}
use own_transit.Packages.Receipts.Paths.{length-map, receipt_files}

module _ (clean : Bytes → Bytes) (is_abs : Bytes → Bool) (valid_release_id : Bytes → Bool)
    (marshal : ReceiptRecord → Option Bytes) (digest_bytes : Bytes → Bytes) where
  length-plain : (files : List ReceiptFile) → length (map plain_file files) ≡ length files
  length-plain [] = refl
  length-plain (f ∷ rest) = omega (arith, length-plain rest)

  validate_receipt-plain :
      (r : ReceiptRecord)
      → validate_receipt clean is_abs valid_release_id (plain_receipt r)
        ≡ validate_receipt clean is_abs valid_release_id r
  unfolding validate_receipt
  validate_receipt-plain r = rw (length-plain r.files, check_receipt_files-plain none r.files) refl

  encode_receipt-fits :
      (r : ReceiptRecord) (encoded : Bytes)
      → validate_receipt clean is_abs valid_release_id r ≡ ok tt
      → marshal r ≡ some encoded
      → length encoded < maximum_metadata_size
      → encode_receipt clean is_abs valid_release_id marshal digest_bytes r
        ≡ ok (encoded ++ b'\n' ∷ [])
  unfolding encode_receipt
  encode_receipt-fits r encoded valid made short =
      rw (valid, made, length-append encoded (b'\n' ∷ []), not_empty, fits) refl
    where
      not_empty : (length encoded + 1 == 0) ≡ false
      not_empty = ground arith

      fits : ltb maximum_metadata_size (length encoded + 1) ≡ false
      fits = ground arith

  -- If cleaning a path leaves a component as it is, then from every valid receipt, with the digests of two different anchors and
  -- a policy or with none of the three, the decision of a rollback is made; and if the receipt without the mode bits other than the
  -- permissions and the setgid bit marshals in less than 64 KiB, it is the receipt for this decision, with these bytes, a line feed and
  -- their digest.
  pub decision_from_receipt-rollback :
      (r : ReceiptRecord) (before target policy encoded : Bytes)
      → ((component : Bytes) → valid_component component ≡ true → clean component ≡ component)
      → validate_receipt clean is_abs valid_release_id r ≡ ok tt
      → anchors_fit before target policy ≡ true
      → marshal (plain_receipt r) ≡ some encoded
      → length encoded < maximum_metadata_size
      → (d : Decision) × (decision_from_receipt clean is_abs valid_release_id rollback r before
            target policy
          ≡ ok d)
        × (receipt_for_decision clean is_abs valid_release_id marshal digest_bytes d
            ≡ ok (plain_receipt r, encoded ++ b'\n' ∷ [], digest_bytes (encoded ++ b'\n' ∷ [])))
  unfolding decision_from_receipt validate_receipt validate_decision validate_decision_files
      receipt_for_decision
  decision_from_receipt-rollback r before target policy encoded cleaned valid anchors made short =
      let (_, fields, files) =
        bound
          (fail_if
            (not (bytes_eq r.schema receipt_schema)
              || not (valid_role r.role)
              || not (valid_token r.os)
              || not (valid_token r.arch)
              || not (valid_release_id r.release_id)
              || r.sequence == 0
              || not (valid_digest r.manifest_sha256)
              || length r.files == 0
              || ltb 8 (length r.files))
            invalid_receipt)
          _ valid in
      let (t, many) = or_false _ _ (tested invalid_receipt fields) in
      let (t, none_) = or_false _ _ t in
      let (t, digest) = or_false _ _ t in
      let (t, sequence) = or_false _ _ t in
      let (t, id) = or_false _ _ t in
      let (t, arch) = or_false _ _ t in
      let (t, os) = or_false _ _ t in
      let (schema, role) = or_false _ _ t in
      let many : ltb 8 (length r.files) ≡ false = many in
      let none_ : (length r.files == 0) ≡ false = none_ in
      let digest : valid_digest r.manifest_sha256 ≡ true = truth _ digest in
      let sequence : (r.sequence == 0) ≡ false = sequence in
      let id : valid_release_id r.release_id ≡ true = truth _ id in
      let arch : valid_token r.arch ≡ true = truth _ arch in
      let os : valid_token r.os ≡ true = truth _ os in
      let role : valid_role r.role ≡ true = truth _ role in
      let schema : r.schema ≡ receipt_schema =
        bytes_eq→eq r.schema receipt_schema (truth _ schema) in
      let back : receipt_of (decision_of rollback r before target policy) ≡ plain_receipt r =
        cc (schema, files_back r.files) in
      let bytes : encode_receipt clean is_abs valid_release_id marshal digest_bytes
            (receipt_of (decision_of rollback r before target policy))
          ≡ ok (encoded ++ b'\n' ∷ []) =
        ap (encode_receipt clean is_abs valid_release_id marshal digest_bytes) back
        ∙ encode_receipt-fits (plain_receipt r) encoded (validate_receipt-plain r ∙ valid) made
            short in
      (
        decision_of rollback r before target policy,
        rw
            (
              valid,
              role,
              id,
              sequence,
              digest,
              os,
              arch,
              anchors,
              length-map r.files,
              none_,
              many,
              receipt_files clean none r.files cleaned files,
            )
            refl,
        rw (bytes, back) refl,
      )
