-- ===== src/Protocol.antt =====
-- internal/protocol: the fixed-size rendezvous frames and the READY marker. A reader is the list of
-- the bytes that arrive on it before it ends; identifiers are arrays of 32 bytes.
pub mod RoundTrip
pub mod Writer
pub mod Ready
mod Runs
use own_transit.Prelude.{
  ℕ, ◌+◌, ◌-◌, ◌*◌, ◌≡◌, Bool, true, false, not, ◌&&◌, ◌||◌, Option, none, some, List, [], ◌∷◌,
  ◌++◌, length, take, drop, Bytes, byte_at, ltb, leb, ◌==◌, if◌then◌else◌, Outcome, ok, err, ◌>>=◌,
  ◌>>◌, fail_if,
}
use own_transit.Prelude.Stream.{ReadError, read_full}

abbrev pub header_size : ℕ
header_size = 8

abbrev pub id_size : ℕ
id_size = 32

pub data Error : Type 0 where
  invalid_magic unsupported_version unknown_type nonzero_reserved unsupported_frame : Error
  invalid_ready : Error
  io : ReadError → Error

pub data Frame : Type 0 where
  control_register : Bytes → Bytes → Frame
  registered : Bytes → Frame
  client_open : Bytes → Frame
  open_session : Bytes → Bytes → Frame
  data_join : Bytes → Bytes → Bytes → Frame
  cancel : Bytes → Bytes → Frame
  ping pong : Frame

abbrev pub type_of : Frame → ℕ
type_of (control_register r n) = 0x01
type_of (registered e) = 0x02
type_of (client_open r) = 0x03
type_of (open_session e s) = 0x04
type_of (data_join r e s) = 0x05
type_of (cancel e s) = 0x06
type_of ping = 0x07
type_of pong = 0x08

abbrev pub from_reader : {A : Type 0} → Outcome ReadError A → Outcome Error A
from_reader (ok a) = ok a
from_reader (err e) = err (io e)

-- `b[from:to]`.
abbrev pub slice : Bytes → ℕ → ℕ → Bytes
slice b from to = take (to - from) (drop from b)

payload_size : ℕ → Option ℕ
payload_size t =
    if t == 0x01
    then some (2 * id_size)
    else if t == 0x02 || t == 0x03
    then some id_size
    else if t == 0x04 || t == 0x06
    then some (2 * id_size)
    else if t == 0x05
    then some (3 * id_size)
    else if t == 0x07 || t == 0x08
    then some 0
    else none

abbrev or_fail : {A : Type 0} → Option A → Error → Outcome Error A
or_fail none e = err e
or_fail (some a) e = ok a

-- The frame's type and the size of its payload.
pub parse_header : Bytes → Outcome Error (ℕ × ℕ)
parse_header header = do
  fail_if
      (not (byte_at header 0 == b'F')
        || not (byte_at header 1 == b'G')
        || not (byte_at header 2 == b'A')
        || not (byte_at header 3 == b'T'))
      invalid_magic
  fail_if (not (byte_at header 4 == 1)) unsupported_version
  fail_if (not (byte_at header 6 == 0) || not (byte_at header 7 == 0)) nonzero_reserved
  size ← or_fail (payload_size (byte_at header 5)) unknown_type
  ok (byte_at header 5, size)

-- The switch of `ReadFrame` over the payload.
decode : ℕ → Bytes → Outcome Error Frame
decode t p =
    if t == 0x01
    then ok (control_register (slice p 0 32) (slice p 32 64))
    else if t == 0x02
    then ok (registered (slice p 0 32))
    else if t == 0x03
    then ok (client_open (slice p 0 32))
    else if t == 0x04
    then ok (open_session (slice p 0 32) (slice p 32 64))
    else if t == 0x05
    then ok (data_join (slice p 0 32) (slice p 32 64) (slice p 64 96))
    else if t == 0x06
    then ok (cancel (slice p 0 32) (slice p 32 64))
    else if t == 0x07
    then ok ping
    else if t == 0x08
    then ok pong
    else err unknown_type

-- One frame, and the bytes left in the reader.
pub read_frame : Bytes → Outcome Error (Frame × Bytes)
read_frame src = do
  (header, body) ← from_reader (read_full header_size src)
  (frame_type, size) ← parse_header header
  (payload, rest) ← from_reader (read_full size body)
  frame ← decode frame_type payload
  ok (frame, rest)

-- The fields in the order in which `WriteFrame` copies them behind the header.
abbrev pub payload_of : Frame → Bytes
payload_of (control_register route nonce) = route ++ nonce
payload_of (registered epoch) = epoch
payload_of (client_open route) = route
payload_of (open_session epoch session) = epoch ++ session
payload_of (data_join route epoch session) = route ++ (epoch ++ session)
payload_of (cancel epoch session) = epoch ++ session
payload_of ping = []
payload_of pong = []

-- `encoded[:size]`.
abbrev pub encode : Frame → Bytes
encode f = b'F' ∷ b'G' ∷ b'A' ∷ b'T' ∷ 1 ∷ type_of f ∷ 0 ∷ 0 ∷ payload_of f

-- A dynamic value of the interface `Frame`: a frame, a pointer to one or nil, or nothing at all.
pub data FrameValue : Type 0 where
  value : Frame → FrameValue
  pointer : Option Frame → FrameValue
  absent : FrameValue

-- What `WriteFrame` hands to `writeFull`.
pub encode_value : FrameValue → Outcome Error Bytes
encode_value (value f) = ok (encode f)
encode_value (pointer (some f)) = ok (encode f)
encode_value (pointer none) = err unsupported_frame
encode_value absent = err unsupported_frame

-- Every identifier of the frame is an array of `IDSize` bytes.
abbrev pub IsId : Bytes → Type 0
IsId b = length b ≡ id_size

abbrev pub IsSized : Frame → Type 0
IsSized (control_register route nonce) = IsId route × IsId nonce
IsSized (registered epoch) = IsId epoch
IsSized (client_open route) = IsId route
IsSized (open_session epoch session) = IsId epoch × IsId session
IsSized (data_join route epoch session) = IsId route × IsId epoch × IsId session
IsSized (cancel epoch session) = IsId epoch × IsId session
IsSized ping = Unit {0}
IsSized pong = Unit {0}
