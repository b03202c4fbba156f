-- ===== src/Identifiers/Runs.antt =====
-- Identifiers in a code that is 52 characters long: one letter for every byte, and twenty letters more.
use own_transit.Prelude.{
  ◌+◌, ◌-◌, ◌≡◌, refl, Option, some, ◌∷◌, ◌++◌, length, take, map, replicate, Bytes,
}
use own_transit.Identifiers.{all_in_alphabet, parse_id, parse_id_canonical}

abbrev letters : Bytes → Bytes
letters id = map (λ b. b + b'a') id ++ replicate 20 b'a'

abbrev bytes : Bytes → Option Bytes
bytes text = some (map (λ c. c - b'a') (take 32 text))

abbrev sample : Bytes
sample = 3 ∷ replicate 31 5

parsed_sample : parse_id letters bytes (letters sample) ≡ some sample
unfolding parse_id all_in_alphabet
parsed_sample = refl

parse_id_canonical_example : (letters sample ≡ letters sample) × (length sample ≡ 32)
parse_id_canonical_example =
    parse_id_canonical letters bytes (letters sample) (letters sample) sample parsed_sample
      parsed_sample
