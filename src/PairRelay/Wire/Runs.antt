-- ===== src/PairRelay/Wire/Runs.antt =====
-- A frame and a preface on the wire.
use own_transit.Prelude.{
  ◌≡◌, refl, none, some, [], ◌∷◌, ◌++◌, ◌≤◌, ◌↔◌, length, replicate, Bytes, ok, are_bytes-IsByte,
}
use own_transit.Prelude.BigEndian.{be_put, be_get}
use own_transit.Prelude.Stream.{read_full}
use own_transit.PairRelay.Wire.{
  WireFrame, read_bounded_wire_frame, encode_wire_frame, wire_header, kind_maximum, RuntimePreface,
  encode_runtime_preface, decode_runtime_preface, role_client,
}
use own_transit.PairRelay.Wire.RoundTrip.{read_bounded_wire_frame-encode}
use own_transit.PairRelay.Wire.Canonical.{
  read_bounded_wire_frame_canonical, decode_runtime_preface_iff,
}

abbrev greeting : WireFrame
greeting = record { kind = 3; payload = 1 ∷ 2 ∷ 3 ∷ [] }

abbrev greeting_bytes : Bytes
greeting_bytes = 79 ∷ 84 ∷ 82 ∷ 50 ∷ 2 ∷ 3 ∷ 0 ∷ 0 ∷ 0 ∷ 0 ∷ 0 ∷ 3 ∷ 1 ∷ 2 ∷ 3 ∷ []

encoded_greeting : encode_wire_frame greeting 8 ≡ ok greeting_bytes
unfolding encode_wire_frame be_put
encoded_greeting = refl

read_bounded_wire_frame-encode_example :
    read_bounded_wire_frame 8 none (greeting_bytes ++ 7 ∷ []) ≡ ok (greeting, 7 ∷ [])
read_bounded_wire_frame-encode_example =
    read_bounded_wire_frame-encode greeting 8 greeting_bytes (7 ∷ []) encoded_greeting

read_greeting :
    read_bounded_wire_frame 8 (some (λ kind. 4)) (greeting_bytes ++ 7 ∷ []) ≡ ok (greeting, 7 ∷ [])
unfolding read_bounded_wire_frame be_get read_full
read_greeting = refl

read_bounded_wire_frame_canonical_example :
    (greeting_bytes ++ 7 ∷ [] ≡ wire_header 3 3 ++ (1 ∷ 2 ∷ 3 ∷ [] ++ 7 ∷ []))
    × (length greeting.payload ≤ kind_maximum (some (λ kind. 4)) 8 3)
read_bounded_wire_frame_canonical_example =
    read_bounded_wire_frame_canonical 8 (some (λ kind. 4)) (greeting_bytes ++ 7 ∷ []) (7 ∷ [])
      greeting (are_bytes-IsByte (greeting_bytes ++ 7 ∷ []) refl) read_greeting

abbrev preface : RuntimePreface
preface = record {
  token = 9 ∷ 9 ∷ [];
  admission_ca = 8 ∷ [];
  role = role_client;
  peer = replicate 32 5;
}

abbrev written_preface : Bytes
written_preface = 0 ∷ 2 ∷ 9 ∷ 9 ∷ 0 ∷ 0 ∷ 0 ∷ 1 ∷ 8 ∷ 2 ∷ replicate 32 5

decode_runtime_preface_iff_example :
    (decode_runtime_preface written_preface ≡ ok preface)
    ↔ (encode_runtime_preface preface ≡ ok written_preface)
decode_runtime_preface_iff_example =
    decode_runtime_preface_iff written_preface preface (are_bytes-IsByte written_preface refl) refl
