-- ===== src/Protocol/RoundTrip.antt =====
-- `ReadFrame` against `WriteFrame`: reading what was written, and writing what was read.
use own_transit.Prelude.{
  byte_at, ℕ, ◌≡◌, refl, ok, [], ◌∷◌, ◌++◌, length, arith, Bytes, append_assoc, length-append, take,
  drop, take-append, drop-append, take_all, length-take, length-drop, drop-drop, Outcome-cases,
  take-append-drop, some, ◌⊎◌, inl, inr,
}
use own_transit.Prelude.Stream.{read_full, read_full-append, read_full_inv}
use own_transit.Protocol.{
  Frame, control_register, registered, client_open, open_session, data_join, cancel, ping, pong,
  IsId, IsSized, encode, payload_of, type_of, read_frame, payload_size, decode, parse_header,
}

header-append :
    (t : ℕ) (body : Bytes)
    → read_full 8 (b'F' ∷ b'G' ∷ b'A' ∷ b'T' ∷ 1 ∷ t ∷ 0 ∷ 0 ∷ body)
      ≡ ok (b'F' ∷ b'G' ∷ b'A' ∷ b'T' ∷ 1 ∷ t ∷ 0 ∷ 0 ∷ [], body)
header-append t body = read_full-append 8 (b'F' ∷ b'G' ∷ b'A' ∷ b'T' ∷ 1 ∷ t ∷ 0 ∷ 0 ∷ []) body refl

module _ (a b : Bytes) (ha : IsId a) (hb : IsId b) where
  length_two : length (a ++ b) ≡ 64
  length_two = omega (arith, length-append a b)

  first_field : take 32 (a ++ b) ≡ a
  first_field = take-append 32 a b ha

  second_field : take 32 (drop 32 (a ++ b)) ≡ b
  second_field = rw (drop-append 32 a b ha) (take_all 32 b hb)

module _ (a b c : Bytes) (ha : IsId a) (hb : IsId b) (hc : IsId c) where
  length_three : length (a ++ (b ++ c)) ≡ 96
  length_three = omega (arith, length-append a (b ++ c), length-append b c)

  middle_field : take 32 (drop 32 (a ++ (b ++ c))) ≡ b
  middle_field = rw (drop-append 32 a (b ++ c) ha) (take-append 32 b c hb)

  last_field : take 32 (drop 64 (a ++ (b ++ c))) ≡ c
  last_field =
      rw (← append_assoc a b c, drop-append 64 (a ++ b) c (length_two a b ha hb)) (take_all 32 c hc)

-- A frame whose identifiers have 32 bytes is read back from the stream it was written to, with the
-- bytes behind it untouched.
pub read_frame-encode :
    (f : Frame) (rest : Bytes) → IsSized f → read_frame (encode f ++ rest) ≡ ok (f, rest)
unfolding read_frame parse_header payload_size decode
read_frame-encode (control_register a b) rest (ha, hb) = rw (
  header-append 1 ((a ++ b) ++ rest),
  read_full-append 64 (a ++ b) rest (length_two a b ha hb),
  first_field a b ha hb,
  second_field a b ha hb,
)
read_frame-encode (registered a) rest h =
    rw (header-append 2 (a ++ rest), read_full-append 32 a rest h, take_all 32 a h)
read_frame-encode (client_open a) rest h =
    rw (header-append 3 (a ++ rest), read_full-append 32 a rest h, take_all 32 a h)
read_frame-encode (open_session a b) rest (ha, hb) = rw (
  header-append 4 ((a ++ b) ++ rest),
  read_full-append 64 (a ++ b) rest (length_two a b ha hb),
  first_field a b ha hb,
  second_field a b ha hb,
)
read_frame-encode (data_join a b c) rest (ha, hb, hc) = rw (
  header-append 5 ((a ++ (b ++ c)) ++ rest),
  read_full-append 96 (a ++ (b ++ c)) rest (length_three a b c ha hb hc),
  take-append 32 a (b ++ c) ha,
  middle_field a b c ha hb hc,
  last_field a b c ha hb hc,
)
read_frame-encode (cancel a b) rest (ha, hb) = rw (
  header-append 6 ((a ++ b) ++ rest),
  read_full-append 64 (a ++ b) rest (length_two a b ha hb),
  first_field a b ha hb,
  second_field a b ha hb,
)
read_frame-encode ping rest h = rw (header-append 7 rest, read_full-append 0 [] rest refl)
read_frame-encode pong rest h = rw (header-append 8 rest, read_full-append 0 [] rest refl)

eight_bytes :
    (h : Bytes)
    → length h ≡ 8
    → h
      ≡ byte_at h 0
        ∷ byte_at h 1
        ∷ byte_at h 2
        ∷ byte_at h 3
        ∷ byte_at h 4
        ∷ byte_at h 5
        ∷ byte_at h 6
        ∷ byte_at h 7
        ∷ []
eight_bytes (a ∷ b ∷ c ∷ d ∷ e ∷ f ∷ g ∷ i ∷ []) h = refl
eight_bytes _ h = absurd (omega arith)

parse_header_inv :
    (h : Bytes) (t n : ℕ)
    → length h ≡ 8
    → parse_header h ≡ ok (t, n)
    → (h ≡ b'F' ∷ b'G' ∷ b'A' ∷ b'T' ∷ 1 ∷ t ∷ 0 ∷ 0 ∷ []) × (payload_size t ≡ some n)
unfolding parse_header
parse_header_inv h t n l e = ground (arith, eight_bytes h l)

-- A frame with the given type byte and payload.
abbrev Carries : Frame → ℕ → Bytes → Type 0
Carries f t p = (type_of f ≡ t) × (payload_of f ≡ p) × IsSized f

module _ (p : Bytes) where
  one_field : length p ≡ 32 → (take 32 p ≡ p) × IsId (take 32 p)
  one_field h = (take_all 32 p h, omega (arith, length-take 32 p))

  two_fields :
      length p ≡ 64
      → (take 32 p ++ take 32 (drop 32 p) ≡ p) × (IsId (take 32 p) × IsId (take 32 (drop 32 p)))
  two_fields h = (
    rw (take_all 32 (drop 32 p) (omega (arith, length-drop 32 p))) (take-append-drop 32 p),
    (omega (arith, length-take 32 p), omega (arith, length-take 32 (drop 32 p), length-drop 32 p)),
  )

  three_fields :
      length p ≡ 96
      → (take 32 p ++ (take 32 (drop 32 p) ++ take 32 (drop 64 p)) ≡ p)
        × (IsId (take 32 p) × IsId (take 32 (drop 32 p)) × IsId (take 32 (drop 64 p)))
  three_fields h = (
    rw
        (
          take_all 32 (drop 64 p) (omega (arith, length-drop 64 p)),
          ← drop-drop 32 32 p,
          take-append-drop 32 (drop 32 p),
        )
        (take-append-drop 32 p),
    (
      omega (arith, length-take 32 p),
      omega (arith, length-take 32 (drop 32 p), length-drop 32 p),
      omega (arith, length-take 32 (drop 64 p), length-drop 64 p),
    ),
  )

-- The eight types of version 1 and the sizes of their payloads.
data Known (t n : ℕ) : Type 0 where
  two : (t ≡ 1) ⊎ ((t ≡ 4) ⊎ (t ≡ 6)) → n ≡ 64 → Known t n
  one : (t ≡ 2) ⊎ (t ≡ 3) → n ≡ 32 → Known t n
  three : t ≡ 5 → n ≡ 96 → Known t n
  bare : (t ≡ 7) ⊎ (t ≡ 8) → n ≡ 0 → Known t n

payload_size-Known : (t n : ℕ) → payload_size t ≡ some n → Known t n
unfolding payload_size
payload_size-Known t n s = grind (arith, two, one, three, bare)

decode-Carries :
    (t n : ℕ) (p : Bytes) (f : Frame) → Known t n → length p ≡ n → decode t p ≡ ok f → Carries f t p
unfolding decode
decode-Carries t n p f (two (inl k) z) l e = ground (arith, two_fields p)
decode-Carries t n p f (two (inr (inl k)) z) l e = ground (arith, two_fields p)
decode-Carries t n p f (two (inr (inr k)) z) l e = ground (arith, two_fields p)
decode-Carries t n p f (one (inl k) z) l e = ground (arith, one_field p)
decode-Carries t n p f (one (inr k) z) l e = ground (arith, one_field p)
decode-Carries t n p f (three k z) l e = ground (arith, three_fields p)
decode-Carries t n [] f (bare (inl k) z) l e = ground arith
decode-Carries t n [] f (bare (inr k) z) l e = ground arith
decode-Carries t n (b ∷ p) f (bare k z) l e = absurd (omega arith)

-- Bytes from which a frame is read are exactly the encoding of that frame and what is left behind it,
-- so a frame has one encoding; the identifiers that are read have 32 bytes.
pub read_frame_canonical :
    (src rest : Bytes) (f : Frame)
    → read_frame src ≡ ok (f, rest)
    → (src ≡ encode f ++ rest) × IsSized f
unfolding read_frame
read_frame_canonical src rest f e = elim (Outcome-cases (read_full 8 src)) [
  | inr (x, e₁) ↦ ground arith
  | inl ((h, body), e₁) ↦ elim (Outcome-cases (parse_header h)) [
    | inr (x, e₂) ↦ ground arith
    | inl ((t, n), e₂) ↦ elim (Outcome-cases (read_full n body)) [
      | inr (x, e₃) ↦ ground arith
      | inl ((p, r), e₃) ↦ ground (
        arith,
        read_full_inv 8 src h body e₁,
        parse_header_inv h t n (read_full_inv 8 src h body e₁).1 e₂,
        read_full_inv n body p r e₃,
        decode-Carries t n p f,
        payload_size-Known t n,
      )
    ]
  ]
]
