-- ===== src/PairRelay/Wire.antt =====
-- internal/pairrelay/wire.go: the frames of the pairing relay and the two payloads with fields of variable
-- size. A reader is the list of the bytes that arrive before it ends.
pub mod RoundTrip
pub mod Canonical
mod Runs
use own_transit.Prelude.{
  ℕ, ◌+◌, ◌≡◌, Bool, true, false, not, ◌&&◌, ◌||◌, Option, none, some, List, [], ◌∷◌, ◌++◌, length,
  take, drop, replicate, Bytes, byte_at, bytes_eq, ltb, leb, ◌==◌, if◌then◌else◌, min, Outcome, ok,
  err, ◌>>=◌, ◌>>◌, fail_if,
}
use own_transit.Prelude.Stream.{ReadError, read_full}
use own_transit.Prelude.BigEndian.{be_put, be_get}

pub data WireError : Type 0 where
  malformed : WireError
  io : ReadError → WireError

abbrev pub max_token_bytes : ℕ
max_token_bytes = 1024

abbrev pub max_admission_ca_bytes : ℕ
max_admission_ca_bytes = 65536

abbrev pub max_pairing_bytes : ℕ
max_pairing_bytes = 1048576

abbrev pub max_wire_payload : ℕ
max_wire_payload = max_pairing_bytes + max_admission_ca_bytes + max_token_bytes + 128

pub record WireFrame : Type 0 where
  pub kind : ℕ
  pub payload : Bytes

abbrev pub from_reader : {A : Type 0} → Outcome ReadError A → Outcome WireError A
from_reader (ok a) = ok a
from_reader (err e) = err (io e)

abbrev pub wire_magic : Bytes
wire_magic = b'O' ∷ b'T' ∷ b'R' ∷ b'2' ∷ []

-- The limit that a caller may set for a kind.
abbrev pub kind_maximum : Option (ℕ → ℕ) → ℕ → ℕ → ℕ
kind_maximum none maximum kind = maximum
kind_maximum (some limit) maximum kind = min maximum (limit kind)

unfoldable pub read_bounded_wire_frame :
    ℕ → Option (ℕ → ℕ) → Bytes → Outcome WireError (WireFrame × Bytes)
read_bounded_wire_frame maximum kind_limit src = do
  fail_if (ltb max_wire_payload maximum) malformed
  (header, body) ← from_reader (read_full 12 src)
  fail_if
      (not (bytes_eq (take 4 header) wire_magic)
        || not (byte_at header 4 == 2)
        || not (byte_at header 6 == 0)
        || not (byte_at header 7 == 0))
      malformed
  let size = be_get (drop 8 header)
  fail_if (ltb (kind_maximum kind_limit maximum (byte_at header 5)) size) malformed
  (payload, rest) ← from_reader (read_full size body)
  ok (record { kind = byte_at header 5; payload = payload }, rest)

-- The header and the payload that `writeWireFrame` hands to the writer.
abbrev pub wire_header : ℕ → ℕ → Bytes
wire_header kind size = b'O' ∷ b'T' ∷ b'R' ∷ b'2' ∷ 2 ∷ kind ∷ 0 ∷ 0 ∷ be_put 4 size

unfoldable pub encode_wire_frame : WireFrame → ℕ → Outcome WireError Bytes
encode_wire_frame frame maximum = do
  fail_if (ltb max_wire_payload maximum || ltb maximum (length frame.payload)) malformed
  ok (wire_header frame.kind (length frame.payload) ++ frame.payload)

abbrev pub role_receiver : ℕ
role_receiver = 1

abbrev pub role_client : ℕ
role_client = 2

abbrev pub zero_id : Bytes → Bool
zero_id id = bytes_eq id (replicate 32 0)

pub record RuntimePreface : Type 0 where
  pub token : Bytes
  pub admission_ca : Bytes
  pub role : ℕ
  pub peer : Bytes

abbrev pub known_role : ℕ → Bool
known_role role = role == role_receiver || role == role_client

abbrev pub preface_bytes : RuntimePreface → Bytes
preface_bytes v =
    be_put 2 (length v.token)
    ++ (v.token ++ (be_put 4 (length v.admission_ca) ++ (v.admission_ca ++ v.role ∷ v.peer)))

unfoldable pub encode_runtime_preface : RuntimePreface → Outcome WireError Bytes
encode_runtime_preface v = do
  fail_if
      (length v.token == 0
        || ltb max_token_bytes (length v.token)
        || length v.admission_ca == 0
        || ltb max_admission_ca_bytes (length v.admission_ca)
        || not (known_role v.role)
        || zero_id v.peer)
      malformed
  ok (preface_bytes v)

-- What stands before `offset` is gone: `rest` is `encoded[offset:]`.
unfoldable pub decode_runtime_preface : Bytes → Outcome WireError RuntimePreface
decode_runtime_preface encoded = do
  fail_if
      (ltb (length encoded) 40
        || ltb (max_token_bytes + max_admission_ca_bytes + 64) (length encoded))
      malformed
  let token_size = be_get (take 2 encoded)
  let after_size = drop 2 encoded
  fail_if (token_size == 0 || ltb max_token_bytes token_size || ltb (length after_size) token_size)
      malformed
  let after_token = drop token_size after_size
  fail_if (ltb (length after_token) 4) malformed
  let ca_size = be_get (take 4 after_token)
  let after_ca_size = drop 4 after_token
  fail_if
      (ca_size == 0
        || ltb max_admission_ca_bytes ca_size
        || ltb (length after_ca_size) (ca_size + 33))
      malformed
  let after_ca = drop ca_size after_ca_size
  let role = byte_at after_ca 0
  let peer = drop 1 after_ca
  fail_if (not (length peer == 32) || not (known_role role)) malformed
  fail_if (zero_id peer) malformed
  ok (record {
    token = take token_size after_size;
    admission_ca = take ca_size after_ca_size;
    role = role;
    peer = peer;
  })

unfoldable pub encode_token_and_blob : Bytes → Bytes → ℕ → Outcome WireError Bytes
encode_token_and_blob token blob maximum = do
  fail_if
      (length token == 0
        || ltb max_token_bytes (length token)
        || length blob == 0
        || ltb maximum (length blob))
      malformed
  ok (be_put 2 (length token) ++ (token ++ (be_put 4 (length blob) ++ blob)))

unfoldable pub decode_token_and_blob : Bytes → ℕ → Outcome WireError (Bytes × Bytes)
decode_token_and_blob encoded maximum = do
  fail_if (ltb (length encoded) 8 || ltb (max_token_bytes + maximum + 6) (length encoded)) malformed
  let token_size = be_get (take 2 encoded)
  fail_if
      (token_size == 0
        || ltb max_token_bytes token_size
        || ltb (length encoded) (2 + token_size + 4))
      malformed
  let after_token = drop token_size (drop 2 encoded)
  let blob_size = be_get (take 4 after_token)
  let blob = drop 4 after_token
  fail_if (blob_size == 0 || ltb maximum blob_size || not (length blob == blob_size)) malformed
  ok (take token_size (drop 2 encoded), blob)
