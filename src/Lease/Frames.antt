-- ===== src/Lease/Frames.antt =====
-- The frames of the lease channel survive the way through a stream (internal/leasewire/wire.go).
use own_transit.Prelude.{
  ℕ, ◌<◌, ◌^◌, ◌≡◌, refl, true, ◌∷◌, ◌++◌, length, drop, Bytes, ok, Outcome-cases, arith, inl, inr,
  append_assoc, Bool-cases, subst,
}
use own_transit.Prelude.BigEndian.{be_put, be_get, length-be_put, be_get-be_put}
use own_transit.Prelude.Stream.{read_full, read_full-append, read_full_inv}
use own_transit.Lease.Wire.{Frame, valid_size, read_frame, encode_frame}

-- What a frame with a valid size is on the wire.
abbrev header : Frame → Bytes
header f = b'O' ∷ b'T' ∷ b'L' ∷ b'W' ∷ 1 ∷ f.kind ∷ be_put 2 (length f.payload)

valid_size-short : (kind size : ℕ) → valid_size kind size ≡ true → size < 256 ^ 2
unfolding valid_size
valid_size-short kind size h = ground arith

read_frame-wire :
    (f : Frame) (rest : Bytes)
    → valid_size f.kind (length f.payload) ≡ true
    → read_frame (header f ++ (f.payload ++ rest)) ≡ ok (f, rest)
unfolding read_frame
read_frame-wire f rest h =
    rw
      (
        read_full-append 8 (header f) (f.payload ++ rest)
            (omega (arith, length-be_put 2 (length f.payload))),
        be_get-be_put 2 (length f.payload) (valid_size-short f.kind (length f.payload) h),
        h,
        read_full-append (length f.payload) f.payload rest refl,
      )
      refl

-- A frame that the writer accepts is read back from the stream, with the stream behind it untouched.
pub read_frame-encode_frame :
    (f : Frame) (bytes rest : Bytes)
    → encode_frame f ≡ ok bytes
    → read_frame (bytes ++ rest) ≡ ok (f, rest)
unfolding encode_frame
read_frame-encode_frame f bytes rest h = elim (Bool-cases (valid_size f.kind (length f.payload))) [
  | inl t ↦
      subst (λ b. read_frame (b ++ rest) ≡ ok (f, rest)) (written t)
        (rw (append_assoc (header f) f.payload rest) (read_frame-wire f rest t))
  | inr t ↦ absurd (ground arith)
]
  where
    written : valid_size f.kind (length f.payload) ≡ true → header f ++ f.payload ≡ bytes
    written t = ground arith

-- A frame that is read has a known kind and a size that belongs to it.
pub read_frame-valid_size :
    (src rest : Bytes) (f : Frame)
    → read_frame src ≡ ok (f, rest)
    → valid_size f.kind (length f.payload) ≡ true
unfolding read_frame
read_frame-valid_size src rest f h = elim (Outcome-cases (read_full 8 src)) [
  | inr (x, e₁) ↦ ground arith
  | inl ((head, body), e₁) ↦ elim (Outcome-cases (read_full (be_get (drop 6 head)) body)) [
    | inr (x, e₂) ↦ ground arith
    | inl ((p, r), e₂) ↦ ground (arith, read_full_inv (be_get (drop 6 head)) body p r e₂)
  ]
]
