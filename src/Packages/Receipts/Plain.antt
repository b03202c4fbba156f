-- ===== src/Packages/Receipts/Plain.antt =====
-- Receipts without the mode bits that an installation drops.
use own_transit.Prelude.{
  ℕ, ◌+◌, ◌*◌, ◌/◌, ◌%◌, ◌≡◌, refl, Option, some, List, [], ◌∷◌, map, Bytes, arith,
}
use own_transit.Packages.Records.{check_receipt_files, file_of_receipt, receipt_of_file}
use own_transit.Packages.{ReceiptFile, ReceiptRecord, unix_install_mode, decode_install_mode}

-- A mode without other bits than the permissions and the setgid bit.
abbrev pub plain_mode : ℕ → ℕ
plain_mode mode = mode % 512 + mode / 1024 % 2 * 1024

abbrev pub plain_file : ReceiptFile → ReceiptFile
plain_file f = record f { mode = plain_mode f.mode }

abbrev pub plain_receipt : ReceiptRecord → ReceiptRecord
plain_receipt r = record r { files = map plain_file r.files }

plain_perm : (mode : ℕ) → plain_mode mode % 512 ≡ mode % 512
plain_perm mode = omega arith

plain_setgid : (mode : ℕ) → plain_mode mode / 1024 % 2 ≡ mode / 1024 % 2
plain_setgid mode = omega arith

unix-decode : (mode : ℕ) → unix_install_mode (decode_install_mode mode) ≡ plain_mode mode
unix-decode mode = ground arith

pub files_back :
    (files : List ReceiptFile)
    → map receipt_of_file (map file_of_receipt files) ≡ map plain_file files
files_back [] = refl
files_back (f ∷ rest) = rw (unix-decode f.mode, files_back rest) refl

pub check_receipt_files-plain :
    (previous : Option Bytes) (files : List ReceiptFile)
    → check_receipt_files previous (map plain_file files) ≡ check_receipt_files previous files
unfolding check_receipt_files
check_receipt_files-plain previous [] = refl
check_receipt_files-plain previous (f ∷ rest) =
    rw (plain_perm f.mode, plain_setgid f.mode, check_receipt_files-plain (some f.name) rest) refl
