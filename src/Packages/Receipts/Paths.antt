-- ===== src/Packages/Receipts/Paths.antt =====
-- The files of a receipt as the files of a decision: their names are paths.
use own_transit.Prelude.{
  ℕ, ◌/◌, ◌%◌, ◌≡◌, refl, true, false, not, ◌&&◌, ◌||◌, Option, some, List, [], ◌∷◌, map, length,
  Bytes, byte_at, bytes_eq, bytes_eq_refl, ltb, ◌==◌, ok, fail_if, bound, arith,
}
use own_transit.ReleasePolicy.{not_positive}
use own_transit.Manifest.{too_large}
use own_transit.Manifest.Names.{every, every_part, valid_digest}
use own_transit.Packages.Records.{check_receipt_files, file_of_receipt}
use own_transit.Packages.{
  ReceiptFile, not_sorted, invalid_receipt, receipt_file_name, receipt_stage_name, token_byte,
  valid_token, valid_component, valid_relative_path, decode_install_mode, valid_install_mode,
  not_after, check_files,
}
use own_transit.Packages.Safety.{
  tested, truth, or_false, not_slash, every-split, valid_component-Component,
}

pub length-map : (files : List ReceiptFile) → length (map file_of_receipt files) ≡ length files
length-map [] = refl
length-map (f ∷ rest) = omega (arith, length-map rest)

first_byte : (name : Bytes) → every token_byte name ≡ true → (byte_at name 0 == b'/') ≡ false
unfolding every
first_byte [] h = refl
first_byte (b ∷ bs) h = not_slash b (ground arith)

module _ (clean : Bytes → Bytes) where
  -- A component is a relative path.
  component_path :
      (name : Bytes)
      → ((component : Bytes) → valid_component component ≡ true → clean component ≡ component)
      → valid_component name ≡ true
      → valid_relative_path clean name ≡ true
  unfolding valid_relative_path every_part
  component_path name cleaned h =
      let n = valid_component-Component name h in
      rw
        (
          n.not_empty,
          longer (length name) n.short,
          first_byte name n.plain,
          cleaned name h,
          bytes_eq_refl name,
          every-split name n.plain,
          h,
        )
        refl
    where
      longer : (k : ℕ) → ltb 128 k ≡ false → ltb 512 k ≡ false
      longer k small = ground arith

  pub receipt_files :
      (previous : Option Bytes) (files : List ReceiptFile)
      → ((component : Bytes) → valid_component component ≡ true → clean component ≡ component)
      → check_receipt_files previous files ≡ ok tt
      → check_files clean previous (map file_of_receipt files) ≡ ok tt
  unfolding check_receipt_files check_files
  receipt_files previous [] cleaned h = refl
  receipt_files previous (f ∷ rest) cleaned h =
      let (_, fields, h) =
        bound
          (fail_if
            (not (valid_token f.artifact_name)
              || not (valid_component f.name)
              || bytes_eq f.name receipt_file_name
              || bytes_eq f.name receipt_stage_name
              || not (valid_digest f.sha256)
              || not_positive f.size
              || too_large f.size
              || not (valid_install_mode (decode_install_mode f.mode))
              || f.mode / 1024 % 2 == 1 && f.gid == 0)
            invalid_receipt)
          _ h in
      let (_, after, h) = bound (fail_if (not_after previous f.name) not_sorted) _ h in
      let (t, group) = or_false _ _ (tested invalid_receipt fields) in
      let (t, mode) = or_false _ _ t in
      let (t, large) = or_false _ _ t in
      let (t, positive) = or_false _ _ t in
      let (t, digest) = or_false _ _ t in
      let (t, stage) = or_false _ _ t in
      let (t, file) = or_false _ _ t in
      let (token, component) = or_false _ _ t in
      let token : valid_token f.artifact_name ≡ true = truth _ token in
      let component : valid_component f.name ≡ true = truth _ component in
      let digest : valid_digest f.sha256 ≡ true = truth _ digest in
      let positive : not_positive f.size ≡ false = positive in
      let large : too_large f.size ≡ false = large in
      let mode : valid_install_mode (decode_install_mode f.mode) ≡ true = truth _ mode in
      let group : (f.mode / 1024 % 2 == 1 && f.gid == 0) ≡ false = group in
      let file : bytes_eq f.name receipt_file_name ≡ false = file in
      let stage : bytes_eq f.name receipt_stage_name ≡ false = stage in
      let after : not_after previous f.name ≡ false = tested not_sorted after in
      rw
        (
          token,
          component_path f.name cleaned component,
          component,
          digest,
          positive,
          large,
          mode,
          group,
          file,
          stage,
          after,
        )
        (receipt_files (some f.name) rest cleaned h)
