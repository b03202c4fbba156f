-- ===== src/PairRelay/Wire/Canonical.antt =====
-- Whatever the pairing relay reads is the encoding of what it read.
use own_transit.Prelude.{
  ℕ, ◌+◌, ◌≤◌, ◌<◌, ◌≡◌, ◌↔◌, refl, sym, ap, ◌∙◌, true, false, [], ◌∷◌, ◌++◌, length, take, drop,
  Bytes, IsByte, All, byte_at, bytes_eq→eq, ok, arith, take-append-drop, length-take, length-drop,
  length-take_all, All-left, All-drop, inl, inr, Outcome-cases, Option, subst,
}
use own_transit.Prelude.BigEndian.{be_put, be_get, be_put-be_get}
use own_transit.Prelude.Stream.{read_full, read_full_inv}
use own_transit.PairRelay.Wire.RoundTrip.{decode_runtime_preface-encode}
use own_transit.PairRelay.Wire.{
  WireFrame, RuntimePreface, read_bounded_wire_frame, wire_header, kind_maximum,
  encode_runtime_preface, decode_runtime_preface, max_token_bytes, max_admission_ca_bytes,
  wire_magic, preface_bytes, known_role, zero_id,
}

-- A number that was read from `k` bytes is written as them.
be_put-take :
    (k : ℕ) (bytes : Bytes)
    → k ≤ length bytes
    → All IsByte bytes
    → be_put k (be_get (take k bytes)) ≡ take k bytes
be_put-take k bytes h bs =
    subst (λ n. be_put n (be_get (take k bytes)) ≡ take k bytes)
      (omega (arith, length-take k bytes))
      (be_put-be_get (take k bytes) (
        All-left IsByte (take k bytes) (drop k bytes)
          (subst (All IsByte) (sym (take-append-drop k bytes)) bs)))

header_inv :
    (header : Bytes)
    → length header ≡ 12
    → All IsByte header
    → take 4 header ≡ wire_magic
    → byte_at header 4 ≡ 2
    → byte_at header 6 ≡ 0
    → byte_at header 7 ≡ 0
    → header ≡ wire_header (byte_at header 5) (be_get (drop 8 header))
header_inv (a ∷ b ∷ c ∷ d ∷ e ∷ f ∷ g ∷ h ∷ size) l (_, (_, (_, (_, (_, (_, (_, (_, bytes)))))))) m
      q r s =
    ground (arith, subst (λ n. be_put n (be_get size) ≡ size) (sized l) (be_put-be_get size bytes))
  where
    sized : length (a ∷ b ∷ c ∷ d ∷ e ∷ f ∷ g ∷ h ∷ size) ≡ 12 → length size ≡ 4
    sized k = omega arith
header_inv _ l bytes m q r s = absurd (omega arith)

-- Whatever frame is read from bytes has a payload within the maximum and within the limit of its kind, and the bytes
-- that were taken are the encoding of that frame.
pub read_bounded_wire_frame_canonical :
    (maximum : ℕ) (kind_limit : Option (ℕ → ℕ)) (src rest : Bytes) (frame : WireFrame)
    → All IsByte src
    → read_bounded_wire_frame maximum kind_limit src ≡ ok (frame, rest)
    → (src ≡ wire_header frame.kind (length frame.payload) ++ (frame.payload ++ rest))
      × (length frame.payload ≤ kind_maximum kind_limit maximum frame.kind)
unfolding read_bounded_wire_frame
read_bounded_wire_frame_canonical maximum kind_limit src rest frame h e =
    elim (Outcome-cases (read_full 12 src)) [
      | inr (x, e₁) ↦ absurd (ground arith)
      | inl ((header, body), e₁) ↦
          (let p = read_full_inv 12 src header body e₁ in
            elim (Outcome-cases (read_full (be_get (drop 8 header)) body)) [
              | inr (x, e₂) ↦ absurd (ground arith)
              | inl ((payload, r), e₂) ↦
                  (let q = read_full_inv (be_get (drop 8 header)) body payload r e₂ in
                    let magic : take 4 header ≡ wire_magic =
                      bytes_eq→eq (take 4 header) wire_magic (ground arith) in
                    let head =
                      header_inv header p.1 (All-left IsByte header body (subst (All IsByte) p.0 h))
                        magic (ground arith) (ground arith) (ground arith) in
                    ground (arith, p.0, q.0, q.1, head))
            ])
    ]

-- The fields of a preface where `decode_runtime_preface` finds them.
record Decoded (bytes : Bytes) (v : RuntimePreface) : Type 0 where
  token_size : ℕ
  token_size_is : token_size ≡ be_get (take 2 bytes)
  ca_size : ℕ
  ca_size_is : ca_size ≡ be_get (take 4 (drop token_size (drop 2 bytes)))
  token : v.token ≡ take token_size (drop 2 bytes)
  admission_ca : v.admission_ca ≡ take ca_size (drop 4 (drop token_size (drop 2 bytes)))
  role : v.role ≡ byte_at (drop ca_size (drop 4 (drop token_size (drop 2 bytes)))) 0
  peer : v.peer ≡ drop 1 (drop ca_size (drop 4 (drop token_size (drop 2 bytes))))
  token_positive : 0 < token_size
  token_max : token_size ≤ max_token_bytes
  token_room : token_size ≤ length (drop 2 bytes)
  size_room : 4 ≤ length (drop token_size (drop 2 bytes))
  ca_positive : 0 < ca_size
  ca_max : ca_size ≤ max_admission_ca_bytes
  ca_room : ca_size + 33 ≤ length (drop 4 (drop token_size (drop 2 bytes)))
  known : known_role v.role ≡ true
  nonzero : zero_id v.peer ≡ false

decode_runtime_preface-Decoded :
    (bytes : Bytes) (v : RuntimePreface) → decode_runtime_preface bytes ≡ ok v → Decoded bytes v
unfolding decode_runtime_preface
decode_runtime_preface-Decoded bytes v e = record {
  token_size = be_get (take 2 bytes);
  token_size_is = refl;
  ca_size = be_get (take 4 (drop (be_get (take 2 bytes)) (drop 2 bytes)));
  ca_size_is = refl;
  token = ground arith;
  admission_ca = ground arith;
  role = ground arith;
  peer = ground arith;
  token_positive = ground arith;
  token_max = ground arith;
  token_room = ground arith;
  size_room = ground arith;
  ca_positive = ground arith;
  ca_max = ground arith;
  ca_room = ground arith;
  known = ground arith;
  nonzero = ground arith;
}

head_tail : (bs : Bytes) → 0 < length bs → byte_at bs 0 ∷ drop 1 bs ≡ bs
head_tail [] h = absurd (omega arith)
head_tail (b ∷ bs) h = refl

-- A field behind its size, in front of the rest.
size_and_field :
    (k n : ℕ) (bytes : Bytes)
    → All IsByte bytes
    → n ≡ be_get (take k bytes)
    → k ≤ length bytes
    → n ≤ length (drop k bytes)
    → be_put k (length (take n (drop k bytes))) ++ (take n (drop k bytes) ++ drop n (drop k bytes))
      ≡ bytes
size_and_field k n bytes h q room field =
    rw
      (
        length-take_all n (drop k bytes) field,
        take-append-drop n (drop k bytes),
        q,
        be_put-take k bytes room h,
      )
      (take-append-drop k bytes)

assemble :
    (bytes : Bytes) (v : RuntimePreface)
    → All IsByte bytes
    → Decoded bytes v
    → preface_bytes v ≡ bytes
assemble bytes v h d =
    let after_token = drop d.token_size (drop 2 bytes) in
    let after_ca = drop d.ca_size (drop 4 after_token) in
    let inner =
      size_and_field 4 d.ca_size after_token
        (All-drop IsByte d.token_size (drop 2 bytes) (All-drop IsByte 2 bytes h)) d.ca_size_is
        d.size_room (omega (arith, d.ca_room)) in
    let outer =
      size_and_field 2 d.token_size bytes h d.token_size_is
        (omega (arith, length-drop 2 bytes, d.token_room, d.token_positive)) d.token_room in
    let end_ =
      head_tail after_ca (omega (arith, length-drop d.ca_size (drop 4 after_token), d.ca_room)) in
    cc (inner, outer, end_, d.token, d.admission_ca, d.role, d.peer)

-- Bytes from which a preface is decoded are the encoding of that preface.
pub decode_runtime_preface_canonical :
    (bytes : Bytes) (v : RuntimePreface)
    → All IsByte bytes
    → decode_runtime_preface bytes ≡ ok v
    → encode_runtime_preface v ≡ ok bytes
unfolding decode_runtime_preface encode_runtime_preface
decode_runtime_preface_canonical bytes v h e =
    let d = decode_runtime_preface-Decoded bytes v e in
    let whole = assemble bytes v h d in
    let token = ap length d.token ∙ length-take_all d.token_size (drop 2 bytes) d.token_room in
    let ca =
      ap length d.admission_ca
      ∙ length-take_all d.ca_size (drop 4 (drop d.token_size (drop 2 bytes)))
          (omega (arith, d.ca_room)) in
    rw (d.known, d.nonzero, whole) (ground (arith, token, ca))

-- For bytes and a preface with a peer of 32 bytes, the bytes decode as the preface exactly if the preface
-- encodes as the bytes.
pub decode_runtime_preface_iff :
    (bytes : Bytes) (v : RuntimePreface)
    → All IsByte bytes
    → length v.peer ≡ 32
    → (decode_runtime_preface bytes ≡ ok v) ↔ (encode_runtime_preface v ≡ ok bytes)
decode_runtime_preface_iff bytes v h peer =
    (decode_runtime_preface_canonical bytes v h, decode_runtime_preface-encode v bytes peer)
