-- ===== src/Protocol/Runs.antt =====
-- Frames on the wire, and the theorems at concrete inputs.
use own_transit.Prelude.{ℕ, ◌≡◌, refl, Bytes, [], ◌∷◌, ◌++◌, ok, err, replicate, none, some}
use own_transit.Prelude.Stream.{read_full, unexpected_eof}
use own_transit.Protocol.{
  Frame, cancel, data_join, io, nonzero_reserved, IsSized, encode, read_frame, parse_header,
  payload_size, decode,
}
use own_transit.Protocol.RoundTrip.{read_frame-encode, read_frame_canonical}
use own_transit.Protocol.Writer.{
  Reply, Finishes, negative, count, short_write, write_full, write_full-Finishes,
}

abbrev id_of : ℕ → Bytes
id_of n = replicate 32 n

abbrev join_frame : Frame
join_frame = data_join (id_of 1) (id_of 2) (id_of 3)

read_truncated : read_frame (b'F' ∷ b'G' ∷ []) ≡ err (io unexpected_eof)
unfolding read_frame read_full
read_truncated = refl

read_reserved : read_frame (b'F' ∷ b'G' ∷ b'A' ∷ b'T' ∷ 1 ∷ 7 ∷ 0 ∷ 1 ∷ []) ≡ err nonzero_reserved
unfolding read_frame read_full parse_header
read_reserved = refl

read_join : read_frame (encode join_frame ++ (9 ∷ [])) ≡ ok (join_frame, 9 ∷ [])
unfolding read_frame read_full parse_header payload_size decode
read_join = refl

read_frame-encode_example :
    read_frame (encode (cancel (id_of 4) (id_of 5)) ++ (9 ∷ []))
    ≡ ok (cancel (id_of 4) (id_of 5), 9 ∷ [])
read_frame-encode_example = read_frame-encode (cancel (id_of 4) (id_of 5)) (9 ∷ []) (refl, refl)

read_frame_canonical_example :
    (encode join_frame ++ (9 ∷ []) ≡ encode join_frame ++ (9 ∷ [])) × IsSized join_frame
read_frame_canonical_example =
    read_frame_canonical (encode join_frame ++ (9 ∷ [])) (9 ∷ []) join_frame read_join

-- A writer that takes two bytes at a time, and one that breaks at its second call.
abbrev two_at_a_time : ℕ → Reply
two_at_a_time i = record { n = count 2; error = none }

abbrev breaks : ℕ → Reply
breaks ℕ.zero = record { n = count 1; error = none }
breaks (ℕ.suc i) = record { n = negative; error = none }

write_pairs :
    write_full two_at_a_time (1 ∷ 2 ∷ 3 ∷ 4 ∷ [])
    ≡ some (record { sent = 1 ∷ 2 ∷ 3 ∷ 4 ∷ []; failure = none })
unfolding write_full
write_pairs = refl

write_broken :
    write_full breaks (1 ∷ 2 ∷ []) ≡ some (record { sent = 1 ∷ []; failure = some short_write })
unfolding write_full
write_broken = refl

write_full-Finishes_example : Finishes (1 ∷ 2 ∷ []) (write_full breaks (1 ∷ 2 ∷ []))
write_full-Finishes_example = write_full-Finishes breaks (1 ∷ 2 ∷ [])
