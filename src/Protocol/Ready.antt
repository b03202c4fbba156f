-- ===== src/Protocol/Ready.antt =====
-- internal/protocol/ready.go: the marker that the connector sends once the local SSH side is open.
use own_transit.Prelude.{
  ◌≡◌, refl, not, Bytes, [], ◌∷◌, ◌++◌, Outcome, ok, err, ◌>>=◌, ◌>>◌, fail_if, bytes_eq,
  bytes_eq→eq, Outcome-cases, inl, inr, arith,
}
use own_transit.Protocol.{
  Error, invalid_ready, invalid_magic, from_reader, read_frame, parse_header,
}
use own_transit.Prelude.Stream.{read_full, read_full-append, read_full_inv}
use mathlib.Core.Logic.{◌↔◌}

abbrev pub ready_marker : Bytes
ready_marker = b'F' ∷ b'G' ∷ b'R' ∷ b'D' ∷ 1 ∷ 0 ∷ 0 ∷ 0 ∷ []

-- The bytes left in the reader.
pub read_ready : Bytes → Outcome Error Bytes
read_ready src = do
  (marker, rest) ← from_reader (read_full 8 src)
  fail_if (not (bytes_eq marker ready_marker)) invalid_ready
  ok rest

read_ready-marker : (rest : Bytes) → read_ready (ready_marker ++ rest) ≡ ok rest
unfolding read_ready
read_ready-marker rest = rw (read_full-append 8 ready_marker rest refl)

read_ready_inv : (src rest : Bytes) → read_ready src ≡ ok rest → src ≡ ready_marker ++ rest
unfolding read_ready
read_ready_inv src rest e = elim (Outcome-cases (read_full 8 src)) [
  | inr (x, f) ↦ ground arith
  | inl ((marker, r), f) ↦
      ground (arith, read_full_inv 8 src marker r f, bytes_eq→eq marker ready_marker)
]

-- `ReadReady` succeeds exactly on a reader that begins with the marker, and takes no byte behind it.
pub read_ready_iff : (src rest : Bytes) → (read_ready src ≡ ok rest) ↔ (src ≡ ready_marker ++ rest)
read_ready_iff src rest = (read_ready_inv src rest, λ e. rw e (read_ready-marker rest))

-- The marker is no rendezvous frame, whatever follows it.
pub read_frame-ready_marker : (rest : Bytes) → read_frame (ready_marker ++ rest) ≡ err invalid_magic
unfolding read_frame parse_header
read_frame-ready_marker rest = rw (read_full-append 8 ready_marker rest refl)
