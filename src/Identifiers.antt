-- ===== src/Identifiers.antt =====
-- internal/protocol/id.go: the text form of an identifier. Base 32 is encoding/base32's, a parameter: its
-- encoder in lower case, and its decoder on lower case, which the code raises to upper case first.
mod Runs
use own_transit.Prelude.{
  ℕ, ◌+◌, ◌≤◌, ◌≡◌, refl, sym, ◌∙◌, ap, Bool, true, false, not, ◌&&◌, ◌||◌, Option, none, some,
  List, [], ◌∷◌, length, Bytes, bytes_eq, bytes_eq_refl, bytes_eq→eq, ltb, leb, ◌==◌, if◌then◌else◌,
  arith, Bool-cases, Option-cases, inl, inr,
}

abbrev pub encoded_size : ℕ
encoded_size = 52

abbrev pub in_alphabet : ℕ → Bool
in_alphabet c = leb b'a' c && leb c b'z' || leb b'2' c && leb c b'7'

unfoldable pub all_in_alphabet : Bytes → Bool
all_in_alphabet [] = true
all_in_alphabet (c ∷ cs) = in_alphabet c && all_in_alphabet cs

module _ (encode : Bytes → Bytes) (decode : Bytes → Option Bytes) where
  abbrev parsed : Bytes → Option Bytes → Option Bytes
  parsed text none = none
  parsed text (some id) =
      if not (length id == 32) || not (bytes_eq (encode id) text) then none else some id

  -- `parseID`; `none` is ErrInvalidID.
  unfoldable pub parse_id : Bytes → Option Bytes
  unfolding all_in_alphabet
  parse_id text =
      if not (length text == encoded_size) || not (all_in_alphabet text)
      then none
      else parsed text (decode text)

  parsed_inv :
      (text id : Bytes) (o : Option Bytes)
      → parsed text o ≡ some id
      → (encode id ≡ text) × (length id ≡ 32)
  parsed_inv text id none e = absurd (ground arith)
  parsed_inv text id (some found) e = ground (arith, bytes_eq→eq (encode found) text)

  -- A text that is parsed is the one text form of its identifier, which has 32 bytes: two texts of the
  -- same identifier are equal, whatever the decoder accepts.
  pub parse_id_canonical :
      (text text' id : Bytes)
      → parse_id text ≡ some id
      → parse_id text' ≡ some id
      → (text ≡ text') × (length id ≡ 32)
  unfolding parse_id
  parse_id_canonical text text' id e e' = (sym (form text e).0 ∙ (form text' e').0, (form text e).1)
    where
      form : (t : Bytes) → parse_id t ≡ some id → (encode id ≡ t) × (length id ≡ 32)
      form t q = elim (Bool-cases (not (length t == encoded_size) || not (all_in_alphabet t))) [
        | inl b ↦ absurd (ground arith)
        | inr b ↦ parsed_inv t id (decode t) (rw b at q)
      ]

  -- If the encoder gives 52 characters of its alphabet for 32 bytes and the decoder inverts it, every
  -- identifier of 32 bytes is parsed from its text form.
  pub parse_id-encode :
      (id : Bytes)
      → length id ≡ 32
      → length (encode id) ≡ encoded_size
      → all_in_alphabet (encode id) ≡ true
      → decode (encode id) ≡ some id
      → parse_id (encode id) ≡ some id
  unfolding parse_id
  parse_id-encode id size encoded alphabet inverse =
      rw (encoded, alphabet, inverse, size, bytes_eq_refl (encode id)) refl
