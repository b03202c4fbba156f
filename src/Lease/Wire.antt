-- ===== src/Lease/Wire.antt =====
-- internal/leasewire/wire.go: the frames of the lease channel.
use own_transit.Prelude.{
  ℕ, Bool, false, not, ◌&&◌, ◌||◌, [], ◌∷◌, ◌++◌, length, take, drop, Bytes, byte_at, bytes_eq, ltb,
  leb, ◌==◌, if◌then◌else◌, Outcome, ok, err, ◌>>=◌, ◌>>◌, fail_if,
}
use own_transit.Prelude.Stream.{ReadError, read_full}
use own_transit.Prelude.BigEndian.{be_put, be_get}

-- `io` is an error of the transport.
pub data Error : Type 0 where
  protocol expired locked peer_lock policy clock closed : Error
  io : ReadError → Error

abbrev pub max_data : ℕ
max_data = 16384

abbrev pub challenge_size : ℕ
challenge_size = 80

abbrev pub grant_size : ℕ
grant_size = 88

abbrev pub lock_size : ℕ
lock_size = 40

abbrev pub kind_data : ℕ
kind_data = 1

abbrev pub kind_challenge : ℕ
kind_challenge = 2

abbrev pub kind_grant : ℕ
kind_grant = 3

abbrev pub kind_lock : ℕ
kind_lock = 4

pub record Frame : Type 0 where
  pub kind : ℕ
  pub payload : Bytes

unfoldable pub valid_size : ℕ → ℕ → Bool
valid_size kind size =
    if kind == kind_data
    then ltb 0 size && leb size max_data
    else if kind == kind_challenge
    then size == challenge_size
    else if kind == kind_grant
    then size == grant_size
    else if kind == kind_lock
    then size == lock_size
    else false

abbrev pub magic : Bytes
magic = b'O' ∷ b'T' ∷ b'L' ∷ b'W' ∷ []

abbrev pub from_reader : {A : Type 0} → Outcome ReadError A → Outcome Error A
from_reader (ok a) = ok a
from_reader (err e) = err (io e)

unfoldable pub read_frame : Bytes → Outcome Error (Frame × Bytes)
read_frame src = do
  (header, body) ← from_reader (read_full 8 src)
  let size = be_get (drop 6 header)
  fail_if
      (not (bytes_eq (take 4 header) magic)
        || not (byte_at header 4 == 1)
        || not (valid_size (byte_at header 5) size))
      protocol
  (payload, rest) ← from_reader (read_full size body)
  ok (record { kind = byte_at header 5; payload = payload }, rest)

-- The bytes that `writeFrame` hands to the writer: the header, then the payload.
unfoldable pub encode_frame : Frame → Outcome Error Bytes
encode_frame f = do
  fail_if (not (valid_size f.kind (length f.payload))) protocol
  ok (magic ++ (1 ∷ f.kind ∷ be_put 2 (length f.payload)) ++ f.payload)
