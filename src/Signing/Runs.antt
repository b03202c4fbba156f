-- ===== src/Signing/Runs.antt =====
-- A toy signature scheme whose tags depend on the key, one signed message, and another domain for it.
use own_transit.Prelude.{
  ◌≡◌, ◌≢◌, refl, true, Bool, [], ◌∷◌, ◌++◌, length, length-take, length-append, replicate, take,
  Bytes, bytes_eq, bytes_eq_refl, ok, ◌⊎◌, arith,
}
use own_transit.Signing.{
  sign, verify, signature_input, signature_input_size, unusable, contains_nul,
}
use own_transit.Signing.Separation.{verify-sign}

abbrev padding_ : Bytes
padding_ = replicate 64 0

-- The first bytes of the message, the public part of the key and padding.
unfoldable tag : Bytes → Bytes → Bytes
tag key message = take 64 (message ++ (key ++ padding_))

abbrev tag_sign : Bytes → Bytes → Bytes
tag_sign private_key message = tag (take 32 private_key) message

abbrev tag_verify : Bytes → Bytes → Bytes → Bool
tag_verify public_key message signature = bytes_eq signature (tag public_key message)

length-tag : (key message : Bytes) → length (tag key message) ≡ 64
unfolding tag
length-tag key message =
    let padding : length padding_ ≡ 64 = refl in
    omega (
      arith,
      length-take 64 (message ++ (key ++ padding_)),
      length-append message (key ++ padding_),
      length-append key (padding_),
      padding,
    )

abbrev key_bytes : Bytes
key_bytes = replicate 32 3

abbrev signed_bytes : Bytes
signed_bytes = b'd' ∷ 0 ∷ b'p' ∷ replicate 32 3 ++ replicate 29 0

signs : sign tag_sign (b'd' ∷ []) (b'p' ∷ []) (replicate 64 3) ≡ ok signed_bytes
unfolding sign tag signature_input signature_input_size unusable contains_nul
signs = refl

verify-sign_example :
    (verify tag_verify (b'd' ∷ []) (b'p' ∷ []) signed_bytes key_bytes ≡ ok tt)
    × (verify tag_verify (b'e' ∷ []) (b'p' ∷ []) signed_bytes key_bytes ≡ ok tt
        → (◌≡◌ {A = Bytes} (b'e' ∷ []) (b'd' ∷ []) × ◌≡◌ {A = Bytes} (b'p' ∷ []) (b'p' ∷ []))
          ⊎ (◌≢◌ {A = Bytes} (b'e' ∷ 0 ∷ b'p' ∷ []) (b'd' ∷ 0 ∷ b'p' ∷ [])
              × (tag_verify key_bytes (b'e' ∷ 0 ∷ b'p' ∷ []) signed_bytes ≡ true)))
verify-sign_example =
    verify-sign tag_sign tag_verify (replicate 64 3) key_bytes (b'd' ∷ []) (b'p' ∷ []) signed_bytes
      (b'e' ∷ []) (b'p' ∷ []) refl (λ m. length-tag (replicate 32 3) m)
      (λ m. bytes_eq_refl (tag key_bytes m)) signs
