-- ===== src/ReleasePolicy/Samples.antt =====
-- Two policies, one after the other, under a codec whose digests and signatures are the same for every text.
use own_transit.Prelude.{
  ℕ, ◌+◌, ◌-◌, ◌≡◌, refl, true, some, [], ◌∷◌, ◌++◌, replicate, Bytes, byte_at, ok,
}
use own_transit.Prelude.Texts.{codes, lex_lt, has}
use own_transit.Identifiers.{parse_id, all_in_alphabet}
use own_transit.Signing.{
  key_prefix, key_id, validate_key_id, verify, signature_input, signature_input_size, unusable,
  contains_nul,
}
use own_transit.ReleasePolicy.{
  Codec, Policy, PolicySignature, PolicyAnchor, VerifiedPolicy, pos, policy_schema,
  policy_signature_schema, contains_every, equal_strings, valid_tombstones, valid_anchor_ids,
  validate, parse_policy, encode_policy, next_anchor, verify_signed_policy, validate_policy_anchor,
  verify_policy_advance, verify_policy_at_anchor, authorize_retained_release,
}
use own_transit.ReleasePolicy.Advances.{Advances, begin, then_}

abbrev pub key_name : Bytes
key_name = key_prefix ++ replicate 32 3

abbrev pub bad_release : Bytes
bad_release = replicate 52 b'b'

abbrev pub good_release : Bytes
good_release = replicate 52 b'c'

abbrev pub policy_ : ℕ → Policy
policy_ n = record {
  schema = policy_schema;
  product = codes "owntransit";
  sequence = n;
  created_unix = pos 1;
  release_key_id = key_name;
  minimum_release_sequence = n;
  minimum_lifecycle = 1;
  tombstoned_release_ids = bad_release ∷ [];
}

abbrev pub signature_record : PolicySignature
signature_record = record {
  schema = policy_signature_schema;
  key_id = key_name;
  policy_sha256 = replicate 32 3;
  signature = replicate 64 4;
}

abbrev pub codec : Codec
codec = record {
  base32 = λ id. replicate 52 (byte_at id 0 + 97);
  unbase32 = λ text. some (replicate 32 (byte_at text 0 - 97));
  base64 = λ bytes. bytes;
  unbase64 = λ bytes. some bytes;
  sha256 = λ bytes. replicate 32 3;
  hex = λ bytes. bytes;
  ed25519_verify = λ key message signature. true;
  sort_strings = λ ids. ids;
  decode_record = λ bytes. some signature_record;
  marshal_record = λ r. some (1 ∷ []);
  decode_policy = λ bytes. some (policy_ (byte_at bytes 0));
  marshal_policy = λ p. some (p.sequence ∷ []);
}

abbrev pub key : Bytes
key = replicate 32 6

abbrev pub signature_bytes : Bytes
signature_bytes = 1 ∷ 10 ∷ []

abbrev pub verified : ℕ → VerifiedPolicy
verified n = record { policy = policy_ n; key_id = key_name; valid = true }

abbrev pub empty_anchor_ : PolicyAnchor
empty_anchor_ = record {
  highest_policy_sequence = 0;
  minimum_release_sequence = 0;
  minimum_lifecycle = 0;
  tombstoned_release_ids = [];
}

abbrev pub anchor : ℕ → PolicyAnchor
anchor n = record {
  highest_policy_sequence = n;
  minimum_release_sequence = n;
  minimum_lifecycle = 1;
  tombstoned_release_ids = bad_release ∷ [];
}

pub first_signed : verify_signed_policy codec (1 ∷ 10 ∷ []) signature_bytes key ≡ ok (verified 1)
unfolding verify_signed_policy parse_policy encode_policy validate valid_tombstones parse_id
    all_in_alphabet lex_lt key_id validate_key_id verify signature_input signature_input_size
    unusable contains_nul
first_signed = refl

pub second_signed : verify_signed_policy codec (2 ∷ 10 ∷ []) signature_bytes key ≡ ok (verified 2)
unfolding verify_signed_policy parse_policy encode_policy validate valid_tombstones parse_id
    all_in_alphabet lex_lt key_id validate_key_id verify signature_input signature_input_size
    unusable contains_nul
second_signed = refl

pub first_advance :
    verify_policy_advance codec (1 ∷ 10 ∷ []) signature_bytes key empty_anchor_ ≡ ok (verified 1)
unfolding verify_policy_advance validate_policy_anchor contains_every
first_advance = rw first_signed refl

pub second_advance :
    verify_policy_advance codec (2 ∷ 10 ∷ []) signature_bytes key (anchor 1) ≡ ok (verified 2)
unfolding verify_policy_advance validate_policy_anchor valid_anchor_ids parse_id all_in_alphabet
    contains_every lex_lt
second_advance = rw second_signed refl

pub first_anchor : next_anchor codec (verified 1) ≡ ok (anchor 1)
unfolding next_anchor
first_anchor = refl

pub second_anchor : next_anchor codec (verified 2) ≡ ok (anchor 2)
unfolding next_anchor
second_anchor = refl

pub chain : Advances codec key (anchor 1) (anchor 2)
chain =
    then_ (2 ∷ 10 ∷ []) signature_bytes (verified 2) (anchor 1) (anchor 2) begin second_advance
      second_anchor

pub at_second :
    verify_policy_at_anchor codec (2 ∷ 10 ∷ []) signature_bytes key (anchor 2) ≡ ok (verified 2)
unfolding verify_policy_at_anchor validate_policy_anchor valid_anchor_ids parse_id all_in_alphabet
    equal_strings next_anchor
at_second = rw second_signed refl

pub authorizes : authorize_retained_release codec (verified 2) good_release 5 1 ≡ ok tt
unfolding authorize_retained_release parse_id all_in_alphabet has
authorizes = refl
