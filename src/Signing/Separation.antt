-- ===== src/Signing/Separation.antt =====
-- The message that a signature is made of, and what `Sign` and `Verify` ask of it.
use own_transit.Prelude.{
  ℕ, ◌≡◌, ◌≢◌, ◌⊎◌, inl, inr, Bool-cases, bytes_eq, bytes_eq→eq, bytes_eq_refl, refl, sym, ap, ◌∙◌,
  subst, Bool, true, false, not, ◌||◌, [], ◌∷◌, ◌++◌, length, Bytes, ◌==◌, ok, fail_if,
  fail_if-neither, bound, ok_inj, arith,
}
use own_transit.Signing.{
  missing_input, invalid_input, failed, contains_nul, signature_input, signature_input_size,
  unusable, sign, verify,
}

abbrev tail : Bytes → Bytes
tail [] = []
tail (b ∷ bs) = bs

abbrev head : Bytes → ℕ
head [] = 0
head (b ∷ bs) = b

-- Without a zero byte in the domains, the zero byte between a domain and a payload is found again.
split_at_nul :
    (d d' p p' : Bytes)
    → contains_nul d ≡ false
    → contains_nul d' ≡ false
    → d ++ 0 ∷ p ≡ d' ++ 0 ∷ p'
    → (d ≡ d') × (p ≡ p')
unfolding contains_nul
split_at_nul [] [] p p' h h' e = (refl, ap tail e)
split_at_nul [] (b ∷ d') p p' h h' e =
    let first : 0 ≡ b = ap head e in absurd (ground (arith, first))
split_at_nul (b ∷ d) [] p p' h h' e =
    let first : b ≡ 0 = ap head e in absurd (ground (arith, first))
split_at_nul (b ∷ d) (b' ∷ d') p p' h h' e =
    let (same, rest) = split_at_nul d d' p p' (ground arith) (ground arith) (ap tail e) in
    let first : b ≡ b' = ap head e in (cc (same, first), rest)

-- What both functions ask of their input, and the message they make of it.
record Usable (domain payload : Bytes) : Type 0 where
  no_nul : contains_nul domain ≡ false
  input : signature_input domain payload ≡ ok (domain ++ 0 ∷ payload)

unusable-Usable : (domain payload : Bytes) → unusable domain payload ≡ false → Usable domain payload
unfolding unusable signature_input signature_input_size
unusable-Usable domain payload h = record { no_nul = ground arith; input = ground arith }

same_or_not : (a b : Bytes) → (a ≡ b) ⊎ (a ≢ b)
same_or_not a b = elim (Bool-cases (bytes_eq a b)) [
  | inl t ↦ inl (bytes_eq→eq a b t)
  | inr f ↦ inr (λ e. absurd (cc (sym f ∙ ap (bytes_eq a) (sym e) ∙ bytes_eq_refl a)))
]

left_false : (a b : Bool) → (a || b) ≡ false → a ≡ false
left_false false b h = refl
left_false true b h = h

no_failure : (b : Bool) → fail_if (not b) failed ≡ ok tt → b ≡ true
no_failure b h = ground arith

module _ (ed25519_sign : Bytes → Bytes → Bytes) (ed25519_verify : Bytes → Bytes → Bytes → Bool)
    (private_key public_key : Bytes) where
  sign_inv :
      (domain payload signature : Bytes)
      → sign ed25519_sign domain payload private_key ≡ ok signature
      → (unusable domain payload ≡ false)
        × (ed25519_sign private_key (domain ++ 0 ∷ payload) ≡ signature)
  unfolding sign
  sign_inv domain payload signature h =
      let (_, fine, h) =
        bound (fail_if (unusable domain payload || not (length private_key == 64)) missing_input) _
          h in
      let (usable, _) =
        fail_if-neither (unusable domain payload) (not (length private_key == 64)) missing_input
          fine in
      let (m, made, h) = bound (signature_input domain payload) _ h in
      let same = ok_inj (sym made ∙ (unusable-Usable domain payload usable).input) in
      (usable, ap (ed25519_sign private_key) (sym same) ∙ ok_inj h)

  verify_inv :
      (domain payload signature : Bytes)
      → verify ed25519_verify domain payload signature public_key ≡ ok tt
      → (unusable domain payload ≡ false)
        × (ed25519_verify public_key (domain ++ 0 ∷ payload) signature ≡ true)
  unfolding verify
  verify_inv domain payload signature h =
      let (_, fine, h) =
        bound
          (fail_if
            (unusable domain payload
              || not (length signature == 64)
              || not (length public_key == 32))
            invalid_input)
          _ h in
      let usable =
        left_false (unusable domain payload) _
          (fail_if-neither (unusable domain payload || not (length signature == 64))
            (not (length public_key == 32)) invalid_input fine).0 in
      let (m, made, h) = bound (signature_input domain payload) _ h in
      let same = ok_inj (sym made ∙ (unusable-Usable domain payload usable).input) in
      (
        usable,
        subst (λ w. ed25519_verify public_key w signature ≡ true) same
            (no_failure (ed25519_verify public_key m signature) h),
      )

  -- With a public key of 32 bytes, and an Ed25519 whose signatures have 64 bytes and verify for the messages that they
  -- were made of, what `Sign` returns for a domain and a payload is accepted by `Verify` for them; and if it is accepted for any
  -- domain and payload, then either they are the same domain and the same payload, or Ed25519 itself verifies the signature for
  -- a message that is not the signed one.
  pub verify-sign :
      (domain payload signature domain' payload' : Bytes)
      → length public_key ≡ 32
      → ((message : Bytes) → length (ed25519_sign private_key message) ≡ 64)
      → ((message : Bytes)
          → ed25519_verify public_key message (ed25519_sign private_key message) ≡ true)
      → sign ed25519_sign domain payload private_key ≡ ok signature
      → (verify ed25519_verify domain payload signature public_key ≡ ok tt)
        × (verify ed25519_verify domain' payload' signature public_key ≡ ok tt
            → ((domain' ≡ domain) × (payload' ≡ payload))
              ⊎ ((domain' ++ 0 ∷ payload' ≢ domain ++ 0 ∷ payload)
                  × (ed25519_verify public_key (domain' ++ 0 ∷ payload') signature ≡ true)))
  unfolding verify
  verify-sign domain payload signature domain' payload' public size correct signed =
      let (usable, made) = sign_inv domain payload signature signed in
      let u = unusable-Usable domain payload usable in
      let message = domain ++ 0 ∷ payload in
      (
        rw (sym made, usable, u.input, size message, public, correct message) refl,
        λ h.
            let (usable', verified) = verify_inv domain' payload' signature h in
            let u' = unusable-Usable domain' payload' usable' in
            elim (same_or_not (domain' ++ 0 ∷ payload') message) [
              | inl same ↦
                  inl (split_at_nul domain' domain payload' payload u'.no_nul u.no_nul same)
              | inr differs ↦ inr (differs, verified)
            ],
      )
