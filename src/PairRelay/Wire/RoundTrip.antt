-- ===== src/PairRelay/Wire/RoundTrip.antt =====
-- What the pairing relay writes is read back.
use own_transit.Prelude.{
  ℕ, ◌+◌, ◌^◌, ◌≤◌, ◌<◌, ◌≡◌, refl, ap, ◌∙◌, true, false, ◌∷◌, ◌++◌, length, take, drop, Bytes, ok,
  arith, take-append, drop-append, length-append, append_assoc, none, subst,
}
use own_transit.Prelude.BigEndian.{be_put, be_get, length-be_put, be_get-be_put}
use own_transit.Prelude.Stream.{read_full-append}
use own_transit.PairRelay.Wire.{
  WireFrame, RuntimePreface, read_bounded_wire_frame, encode_wire_frame, wire_header,
  encode_runtime_preface, decode_runtime_preface, encode_token_and_blob, decode_token_and_blob,
  max_token_bytes, max_admission_ca_bytes, max_wire_payload, preface_bytes, known_role, zero_id,
}

-- A number of `k` bytes in front.
module _ (k n : ℕ) (rest : Bytes) (h : n < 256 ^ k) where
  take_size : take k (be_put k n ++ rest) ≡ be_put k n
  take_size = take-append k (be_put k n) rest (length-be_put k n)

  drop_size : drop k (be_put k n ++ rest) ≡ rest
  drop_size = drop-append k (be_put k n) rest (length-be_put k n)

  get_size : be_get (take k (be_put k n ++ rest)) ≡ n
  get_size = ap be_get take_size ∙ be_get-be_put k n h

decode_token_and_blob-fields :
    (token blob : Bytes) (maximum : ℕ)
    → 0 < length token
    → length token ≤ max_token_bytes
    → 0 < length blob
    → length blob ≤ maximum
    → length blob < 256 ^ 4
    → decode_token_and_blob
        (be_put 2 (length token) ++ (token ++ (be_put 4 (length blob) ++ blob)))
        maximum
      ≡ ok (token, blob)
unfolding decode_token_and_blob
decode_token_and_blob-fields token blob maximum a b c d e =
    rw
      (
        length-append (be_put 2 (length token)) (token ++ (be_put 4 (length blob) ++ blob)),
        length-append token (be_put 4 (length blob) ++ blob),
        length-append (be_put 4 (length blob)) blob,
        length-be_put 2 (length token),
        length-be_put 4 (length blob),
        get_size 2 (length token) (token ++ (be_put 4 (length blob) ++ blob)) (omega arith),
        drop_size 2 (length token) (token ++ (be_put 4 (length blob) ++ blob)) (omega arith),
        take-append (length token) token (be_put 4 (length blob) ++ blob) refl,
        drop-append (length token) token (be_put 4 (length blob) ++ blob) refl,
        get_size 4 (length blob) blob e,
        drop_size 4 (length blob) blob e,
      )
      (ground arith)

-- A token and a blob that are encoded are decoded again, under the same maximum of 32 bits.
pub decode_token_and_blob-encode :
    (token blob bytes : Bytes) (maximum : ℕ)
    → maximum < 256 ^ 4
    → encode_token_and_blob token blob maximum ≡ ok bytes
    → decode_token_and_blob bytes maximum ≡ ok (token, blob)
unfolding encode_token_and_blob
decode_token_and_blob-encode token blob bytes maximum small e =
    subst (λ b. decode_token_and_blob b maximum ≡ ok (token, blob)) written
      (decode_token_and_blob-fields token blob maximum (ground arith) (ground arith) (ground arith)
        (ground arith) (ground arith))
  where
    written : be_put 2 (length token) ++ (token ++ (be_put 4 (length blob) ++ blob)) ≡ bytes
    written = ground arith

-- The conditions under which a preface is encoded.
record Encodable (v : RuntimePreface) : Type 0 where
  token : 0 < length v.token
  token_max : length v.token ≤ max_token_bytes
  ca : 0 < length v.admission_ca
  ca_max : length v.admission_ca ≤ max_admission_ca_bytes
  role : known_role v.role ≡ true
  peer : zero_id v.peer ≡ false

length-preface :
    (v : RuntimePreface)
    → length (preface_bytes v) ≡ 7 + length v.token + length v.admission_ca + length v.peer
length-preface v = omega (
  arith,
  length-append (be_put 2 (length v.token))
      (v.token ++ (be_put 4 (length v.admission_ca) ++ (v.admission_ca ++ v.role ∷ v.peer))),
  length-append v.token (be_put 4 (length v.admission_ca) ++ (v.admission_ca ++ v.role ∷ v.peer)),
  length-append (be_put 4 (length v.admission_ca)) (v.admission_ca ++ v.role ∷ v.peer),
  length-append v.admission_ca (v.role ∷ v.peer),
  length-be_put 2 (length v.token),
  length-be_put 4 (length v.admission_ca),
)

decode_runtime_preface-bytes :
    (v : RuntimePreface)
    → Encodable v
    → length v.peer ≡ 32
    → decode_runtime_preface (preface_bytes v) ≡ ok v
unfolding decode_runtime_preface
decode_runtime_preface-bytes v c h =
    rw
      (
        length-preface v,
        get_size 2 (length v.token) behind (omega (arith, c.token_max)),
        drop_size 2 (length v.token) behind (omega (arith, c.token_max)),
        length-append v.token after_token,
        take-append (length v.token) v.token after_token refl,
        drop-append (length v.token) v.token after_token refl,
        length-append (be_put 4 (length v.admission_ca)) (v.admission_ca ++ v.role ∷ v.peer),
        length-be_put 4 (length v.admission_ca),
        get_size 4 (length v.admission_ca) (v.admission_ca ++ v.role ∷ v.peer)
            (omega (arith, c.ca_max)),
        drop_size 4 (length v.admission_ca) (v.admission_ca ++ v.role ∷ v.peer)
            (omega (arith, c.ca_max)),
        length-append v.admission_ca (v.role ∷ v.peer),
        take-append (length v.admission_ca) v.admission_ca (v.role ∷ v.peer) refl,
        drop-append (length v.admission_ca) v.admission_ca (v.role ∷ v.peer) refl,
        h,
        c.peer,
        c.role,
      )
      (ground arith)
  where
    after_token : Bytes
    after_token = be_put 4 (length v.admission_ca) ++ (v.admission_ca ++ v.role ∷ v.peer)

    behind : Bytes
    behind = v.token ++ after_token

-- A preface with an identifier of 32 bytes that is encoded is decoded again.
pub decode_runtime_preface-encode :
    (v : RuntimePreface) (bytes : Bytes)
    → length v.peer ≡ 32
    → encode_runtime_preface v ≡ ok bytes
    → decode_runtime_preface bytes ≡ ok v
unfolding encode_runtime_preface
decode_runtime_preface-encode v bytes h e =
    subst (λ b. decode_runtime_preface b ≡ ok v) written
      (decode_runtime_preface-bytes v
        (record {
          token = ground arith;
          token_max = ground arith;
          ca = ground arith;
          ca_max = ground arith;
          role = ground arith;
          peer = ground arith;
        })
        h)
  where
    written : preface_bytes v ≡ bytes
    written = ground arith

-- A frame that is written within a maximum is read back under it, with the stream behind it untouched,
-- where the kind has no limit of its own.
pub read_bounded_wire_frame-encode :
    (frame : WireFrame) (maximum : ℕ) (bytes rest : Bytes)
    → encode_wire_frame frame maximum ≡ ok bytes
    → read_bounded_wire_frame maximum none (bytes ++ rest) ≡ ok (frame, rest)
unfolding encode_wire_frame read_bounded_wire_frame
read_bounded_wire_frame-encode frame maximum bytes rest e =
    subst (λ b. read_bounded_wire_frame maximum none (b ++ rest) ≡ ok (frame, rest)) written
      (rw
        (
          append_assoc (wire_header frame.kind (length frame.payload)) frame.payload rest,
          read_full-append 12 (wire_header frame.kind (length frame.payload))
              (frame.payload ++ rest) (omega (arith, length-be_put 4 (length frame.payload))),
          be_get-be_put 4 (length frame.payload) (omega (arith, small, within)),
          read_full-append (length frame.payload) frame.payload rest refl,
        )
        (ground (arith, small, within)))
  where
    written : wire_header frame.kind (length frame.payload) ++ frame.payload ≡ bytes
    written = ground arith

    small : maximum ≤ max_wire_payload
    small = ground arith

    within : length frame.payload ≤ maximum
    within = ground arith
