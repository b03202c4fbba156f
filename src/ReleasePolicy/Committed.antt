-- ===== src/ReleasePolicy/Committed.antt =====
-- A policy that was accepted verifies at the anchor that it left.
use own_transit.Prelude.{
  ◌≡◌, refl, sym, subst, true, false, not, ◌||◌, none, some, List, [], ◌∷◌, length, Bytes, bytes_eq,
  bytes_eq→eq, bytes_eq_refl, ltb, ◌==◌, ==_refl, ok, fail_if, bound, ok_inj, arith, inl, inr,
  Bool-cases,
}
use own_transit.Prelude.Texts.{codes, lex_lt, lex_lt-ne, Increasing}
use own_transit.Signing.{key_id, validate_key_id, verify}
use own_transit.ReleasePolicy.{
  Codec, Policy, PolicyAnchor, VerifiedPolicy, max_policy_size, max_record_size, max_tombstones,
  bad_size, bad_record, wrong_key, not_canonical, wrong_digest, bad_base64, bad_key_id,
  invalid_policy, too_many, invalid_tombstone, policy_schema, policy_signature_schema,
  policy_signature_domain, or_else, with_error, signed_by, not_positive, valid_tombstones,
  valid_anchor_ids, validate, parse_policy, encode_policy, encode_policy_signature, next_anchor,
  verify_signed_policy, validate_policy_anchor, verify_policy_advance, verify_policy_at_anchor,
}
use own_transit.ReleasePolicy.Sets.{equal_strings_refl, valid_tombstones-Increasing}
use own_transit.ReleasePolicy.Advances.{next_anchor_inv, advance-Holds, tested, truth, or_false}

module _ (c : Codec) where
  -- What `validate` leaves of a policy.
  record Valid (policy : Policy) : Type 0 where
    sequence : (policy.sequence == 0) ≡ false
    release : (policy.minimum_release_sequence == 0) ≡ false
    lifecycle : (policy.minimum_lifecycle == 0) ≡ false
    few : ltb max_tombstones (length policy.tombstoned_release_ids) ≡ false
    ids : valid_tombstones c none policy.tombstoned_release_ids ≡ true

  validate-Valid : (policy : Policy) → validate c policy ≡ ok tt → Valid policy
  unfolding validate
  validate-Valid policy h =
      let (_, numbers, h) =
        bound
          (fail_if
            (not (bytes_eq policy.schema policy_schema)
              || not (bytes_eq policy.product (codes "owntransit"))
              || policy.sequence == 0
              || not_positive policy.created_unix
              || policy.minimum_release_sequence == 0
              || policy.minimum_lifecycle == 0)
            invalid_policy)
          _ h in
      let (_, _, h) =
        bound
          (with_error bad_key_id
            (validate_key_id c.sha256 c.base64 c.unbase64 policy.release_key_id))
          _ h in
      let (_, few, h) =
        bound (fail_if (ltb max_tombstones (length policy.tombstoned_release_ids)) too_many) _ h in
      let (n, lifecycle) = or_false _ _ (tested invalid_policy numbers) in
      let (n, release) = or_false _ _ n in
      let (n, _) = or_false _ _ n in
      let (_, sequence) = or_false _ _ n in
      record {
        sequence = sequence;
        release = release;
        lifecycle = lifecycle;
        few = tested too_many few;
        ids = truth _ (tested invalid_tombstone h);
      }

  parse_policy-Valid :
      (bytes : Bytes) (policy : Policy) → parse_policy c bytes ≡ ok policy → Valid policy
  unfolding parse_policy
  parse_policy-Valid bytes policy h =
      let (_, _, h) =
        bound (fail_if (length bytes == 0 || ltb max_policy_size (length bytes)) bad_size) _ h in
      let (p, _, h) = bound (or_else (c.decode_policy bytes) bad_record) _ h in
      let (_, valid, h) = bound (validate c p) _ h in
      let (canonical, _, h) = bound (with_error not_canonical (encode_policy c p)) _ h in
      let (_, _, h) = bound (fail_if (not (bytes_eq bytes canonical)) not_canonical) _ h in
      subst Valid (ok_inj h) (validate-Valid p valid)

  verify_signed_policy-Valid :
      (policy_bytes signature_bytes public_key : Bytes) (v : VerifiedPolicy)
      → verify_signed_policy c policy_bytes signature_bytes public_key ≡ ok v
      → (v.valid ≡ true) × Valid v.policy
  unfolding verify_signed_policy
  verify_signed_policy-Valid policy_bytes signature_bytes public_key v h =
      let (_, _, h) =
        bound
          (fail_if
            (length policy_bytes == 0
              || ltb max_policy_size (length policy_bytes)
              || length signature_bytes == 0
              || ltb max_record_size (length signature_bytes))
            bad_size)
          _ h in
      let (r, _, h) = bound (or_else (c.decode_record signature_bytes) bad_record) _ h in
      let (_, _, h) =
        bound
          (fail_if
            (not (bytes_eq r.schema policy_signature_schema)
              || not (bytes_eq r.key_id (key_id c.sha256 c.base64 c.unbase64 public_key)))
            wrong_key)
          _ h in
      let (canonical, _, h) = bound (with_error not_canonical (encode_policy_signature c r)) _ h in
      let (_, _, h) =
        bound (fail_if (not (bytes_eq signature_bytes canonical)) not_canonical) _ h in
      let (_, _, h) =
        bound
          (fail_if (not (bytes_eq r.policy_sha256 (c.hex (c.sha256 policy_bytes)))) wrong_digest) _
          h in
      let (signature, _, h) = bound (or_else (c.unbase64 r.signature) bad_base64) _ h in
      let (_, _, h) =
        bound (fail_if (not (bytes_eq (c.base64 signature) r.signature)) bad_base64) _ h in
      let (_, _, h) =
        bound
          (signed_by
            (verify c.ed25519_verify policy_signature_domain policy_bytes signature public_key))
          _ h in
      let (p, parsed, h) = bound (parse_policy c policy_bytes) _ h in
      subst (λ x. (x.valid ≡ true) × Valid x.policy) (ok_inj h)
        (refl, parse_policy-Valid policy_bytes p parsed)

  apart : (previous id : Bytes) → lex_lt previous id ≡ true → bytes_eq id previous ≡ false
  apart previous id h = elim (Bool-cases (bytes_eq id previous)) [
    | inl same ↦ absurd (lex_lt-ne previous id h (sym (bytes_eq→eq id previous same)))
    | inr other ↦ other
  ]

  anchor_after :
      (previous : Bytes) (ids : List Bytes)
      → valid_tombstones c (some previous) ids ≡ true
      → valid_anchor_ids c (some previous) ids ids ≡ true
  unfolding valid_tombstones valid_anchor_ids
  anchor_after previous [] h = refl
  anchor_after previous (id ∷ ids) h =
      ground (arith, anchor_after id ids, bytes_eq_refl id, apart previous id)

  anchor_ids :
      (ids : List Bytes)
      → valid_tombstones c none ids ≡ true
      → valid_anchor_ids c none ids ids ≡ true
  unfolding valid_tombstones valid_anchor_ids
  anchor_ids [] h = refl
  anchor_ids (id ∷ ids) h = ground (arith, anchor_after id ids, bytes_eq_refl id)

  anchor_of : VerifiedPolicy → PolicyAnchor
  anchor_of v = record {
    highest_policy_sequence = v.policy.sequence;
    minimum_release_sequence = v.policy.minimum_release_sequence;
    minimum_lifecycle = v.policy.minimum_lifecycle;
    tombstoned_release_ids = v.policy.tombstoned_release_ids;
  }

  -- If sorting leaves a sorted list of strings as it is, a policy that was accepted over an anchor verifies, as the
  -- same policy, at the anchor that it left: a recovery after the commit finds it.
  pub verify_policy_at_anchor-advance :
      (policy_bytes signature_bytes public_key : Bytes) (a b : PolicyAnchor) (v : VerifiedPolicy)
      → ((ids : List Bytes) → Increasing ids → c.sort_strings ids ≡ ids)
      → verify_policy_advance c policy_bytes signature_bytes public_key a ≡ ok v
      → next_anchor c v ≡ ok b
      → verify_policy_at_anchor c policy_bytes signature_bytes public_key b ≡ ok v
  unfolding verify_policy_at_anchor validate_policy_anchor next_anchor anchor_of
  verify_policy_at_anchor-advance policy_bytes signature_bytes public_key a b v sorted accepted
        next =
      let (_, _, signed) = advance-Holds c public_key policy_bytes signature_bytes a v accepted in
      let (valid, p) =
        verify_signed_policy-Valid policy_bytes signature_bytes public_key v signed in
      subst (λ x. verify_policy_at_anchor c policy_bytes signature_bytes public_key x ≡ ok v)
        (next_anchor_inv c v b next)
        (rw
          (
            p.sequence,
            p.release,
            p.lifecycle,
            p.few,
            sorted v.policy.tombstoned_release_ids
                (valid_tombstones-Increasing c v.policy.tombstoned_release_ids p.ids),
            anchor_ids v.policy.tombstoned_release_ids p.ids,
            signed,
            valid,
            ==_refl v.policy.sequence,
            ==_refl v.policy.minimum_release_sequence,
            ==_refl v.policy.minimum_lifecycle,
            equal_strings_refl v.policy.tombstoned_release_ids,
          )
          refl)
