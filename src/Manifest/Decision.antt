-- ===== src/Manifest/Decision.antt =====
-- A release that may be installed is newer, or the very one that is being installed again, and no chain of policies ever
-- ruled it out.
use own_transit.Prelude.{
  ℕ, ◌≤◌, ◌<◌, ◌≡◌, ◌⊎◌, inl, inr, refl, sym, ap, subst, ◌∙◌, Bool, true, false, not, ◌&&◌, ◌||◌,
  Option, none, some, List, [], ◌∷◌, ◌++◌, length, Bytes, bytes_eq, ltb, leb, ◌==◌, if◌then◌else◌,
  ok, err, fail_if, bound, ok_inj, arith, Bool-cases,
}
use own_transit.Prelude.Texts.{has}
use own_transit.Signing.{key_id}
use own_transit.ReleasePolicy.{
  PolicyAnchor, VerifiedPolicy, nonzero_id, verify_policy_at_anchor, verify_policy_advance,
}
use own_transit.ReleasePolicy.Advances.{Advances, Holds, Advances-Tighter, current-Holds}
use own_transit.Manifest.{Manifest, Artifact}
use own_transit.Manifest.Names.{valid_digest}
use own_transit.Manifest.Install.{
  ManifestCodec, InstallPolicy, InstallError, incomplete_policy, bad_expected_digest, no_policy,
  unauthorized_signer, replay, below_floor, below_lifecycle, lifecycle_too_old, bad_tombstone,
  tombstoned, mismatch, valid_policy, fits_policy, select_artifact, verify_manifest,
  check_tombstones, verify_for_install,
}

tested : {b : Bool} (e : InstallError) {u : Unit {0}} → fail_if b e ≡ ok u → b ≡ false
tested e h = ground arith

not_below : (m n : ℕ) → ltb m n ≡ false → n ≤ m
not_below m n h = ground arith

fresh_or_same :
    (m n : ℕ) (same : Bool)
    → (leb m n && (not (m == n) || not same)) ≡ false
    → (n < m) ⊎ ((m ≡ n) × (same ≡ true))
fresh_or_same m n same h = elim (Bool-cases (leb m n)) [
  | inl old ↦ inr (ground arith, ground arith)
  | inr new ↦ inl (ground arith)
]

checked :
    {A : Type 0} (b : Bool) (x a : A) (e : InstallError)
    → (if b then ok x else err e) ≡ ok a
    → (b ≡ true) × (x ≡ a)
checked true x a e h = (refl, ok_inj h)
checked false x a e h = absurd (ground arith)

-- The artifact stands in the list.
unfoldable pub Among : Artifact → List Artifact → Type 0
Among a [] = ⊥
Among a (b ∷ rest) = (a ≡ b) ⊎ Among a rest

select_artifact-Among :
    (policy : InstallPolicy) (artifacts : List Artifact) (a : Artifact)
    → select_artifact policy artifacts ≡ ok a
    → Among a artifacts
      × (bytes_eq a.name policy.artifact_name ≡ true)
      × (fits_policy policy a ≡ true)
unfolding select_artifact Among
select_artifact-Among policy [] a h = absurd (ground arith)
select_artifact-Among policy (b ∷ rest) a h =
    elim (Bool-cases (bytes_eq b.name policy.artifact_name)) [
      | inr other ↦
          (let (among, named, fits) = select_artifact-Among policy rest a (rw other at h) in
            (inr among, named, fits))
      | inl named ↦
          (let (fits, same) = checked (fits_policy policy b) b a mismatch (rw named at h) in
            (
              inl (sym same),
              subst (λ x. bytes_eq x.name policy.artifact_name ≡ true) same named,
              subst (λ x. fits_policy policy x ≡ true) same fits,
            ))
    ]

valid_policy_inv :
    (o : Option VerifiedPolicy) (v : VerifiedPolicy) → valid_policy o ≡ ok v → o ≡ some v
valid_policy_inv none v h = absurd (ground arith)
valid_policy_inv (some w) v h = ap some (checked w.valid w v no_policy h).1

has-right : (xs ys : List Bytes) (x : Bytes) → has (xs ++ ys) x ≡ false → has ys x ≡ false
unfolding has
has-right [] ys x h = h
has-right (y ∷ xs) ys x h = has-right xs ys x (ground arith)

has-left : (xs ys : List Bytes) (x : Bytes) → has (xs ++ ys) x ≡ false → has xs x ≡ false
unfolding has
has-left [] ys x h = refl
has-left (y ∷ xs) ys x h = ground (arith, has-left xs ys x)

some_inj : {x y : VerifiedPolicy} → some x ≡ some y → x ≡ y
some_inj h = ground arith

contraposed : (x y : Bool) → (x ≡ true → y ≡ true) → y ≡ false → x ≡ false
contraposed false y f h = refl
contraposed true y f h = absurd (ground (arith, f refl))

-- What holds of a manifest and an artifact that may be installed, where `start` is any anchor that the machine had.
pub record Installable (start : PolicyAnchor) (policy : InstallPolicy) (m : Manifest) (a : Artifact)
    : Type 0 where
  pub fresh :
      (policy.highest_sequence < m.sequence)
      ⊎ ((m.sequence ≡ policy.highest_sequence)
          × (bytes_eq m.release_id policy.exact_replay_release_id ≡ true))
  pub release_floor : start.minimum_release_sequence ≤ m.sequence
  pub lifecycle_floor : start.minimum_lifecycle ≤ policy.running_lifecycle
  pub own_lifecycle : m.minimum_lifecycle ≤ policy.running_lifecycle
  pub machine : has policy.tombstoned_release_ids m.release_id ≡ false
  pub tombstones : has start.tombstoned_release_ids m.release_id ≡ false
  pub among : Among a m.artifacts
  pub named : bytes_eq a.name policy.artifact_name ≡ true
  pub fits : fits_policy policy a ≡ true

module _ (c : ManifestCodec) where
  check_tombstones-has :
      (ids : List Bytes) (release_id : Bytes)
      → check_tombstones c ids release_id ≡ ok tt
      → has ids release_id ≡ false
  unfolding check_tombstones has
  check_tombstones-has [] release_id h = refl
  check_tombstones-has (id ∷ ids) release_id h =
      let (_, _, h) = bound (fail_if (not (nonzero_id c.base id)) bad_tombstone) _ h in
      let (_, other, h) = bound (fail_if (bytes_eq id release_id) tombstoned) _ h in
      rw (tested tombstoned other) (check_tombstones-has ids release_id h)

  -- What the tests of `verify_for_install` leave, under the policy that it was given.
  record Decided (policy : InstallPolicy) (v : VerifiedPolicy) (m : Manifest) (a : Artifact)
      : Type 0 where
    held : policy.verified_release_policy ≡ some v
    replayed :
        (leb m.sequence policy.highest_sequence
          && (not (m.sequence == policy.highest_sequence)
              || not (bytes_eq m.release_id policy.exact_replay_release_id)))
        ≡ false
    floor : v.policy.minimum_release_sequence ≤ m.sequence
    lifecycle : v.policy.minimum_lifecycle ≤ policy.running_lifecycle
    own : m.minimum_lifecycle ≤ policy.running_lifecycle
    free :
        has (policy.tombstoned_release_ids ++ v.policy.tombstoned_release_ids) m.release_id ≡ false
    selected : select_artifact policy m.artifacts ≡ ok a

  verify_for_install-Decided :
      (manifest_bytes signature_bytes public_key : Bytes) (policy : InstallPolicy) (m : Manifest)
      (a : Artifact)
      → verify_for_install c manifest_bytes signature_bytes public_key policy ≡ ok (m, a)
      → (v : VerifiedPolicy) × Decided policy v m a
  unfolding verify_for_install
  verify_for_install-Decided manifest_bytes signature_bytes public_key policy m a h =
      let (_, _, h) =
        bound
          (fail_if
            (policy.running_lifecycle == 0
              || length policy.artifact_name == 0
              || length policy.expected_os == 0
              || length policy.expected_arch == 0
              || length policy.expected_role == 0)
            incomplete_policy)
          _ h in
      let (_, _, h) =
        bound
          (fail_if
            (not (length policy.expected_artifact_sha256 == 0)
              && not (valid_digest policy.expected_artifact_sha256))
            bad_expected_digest)
          _ h in
      let (v, held, h) = bound (valid_policy policy.verified_release_policy) _ h in
      let (_, _, h) =
        bound
          (fail_if
            (not (
              bytes_eq v.policy.release_key_id
                (key_id c.base.sha256 c.base.base64 c.base.unbase64 public_key)))
            unauthorized_signer)
          _ h in
      let (n, _, h) = bound (verify_manifest c manifest_bytes signature_bytes public_key) _ h in
      let (_, replayed, h) =
        bound
          (fail_if
            (leb n.sequence policy.highest_sequence
              && (not (n.sequence == policy.highest_sequence)
                  || not (bytes_eq n.release_id policy.exact_replay_release_id)))
            replay)
          _ h in
      let (_, floor, h) =
        bound (fail_if (ltb n.sequence v.policy.minimum_release_sequence) below_floor) _ h in
      let (_, life, h) =
        bound (fail_if (ltb policy.running_lifecycle v.policy.minimum_lifecycle) below_lifecycle) _
          h in
      let (_, own, h) =
        bound (fail_if (ltb policy.running_lifecycle n.minimum_lifecycle) lifecycle_too_old) _ h in
      let (_, free, h) =
        bound
          (check_tombstones c (policy.tombstoned_release_ids ++ v.policy.tombstoned_release_ids)
            n.release_id)
          _ h in
      let (b, selected, h) = bound (select_artifact policy n.artifacts) _ h in
      let both : (n, b) ≡ (m, a) = ok_inj h in
      (
        v,
        subst (λ p. Decided policy v p.0 p.1) both
            (record {
              held = valid_policy_inv policy.verified_release_policy v held;
              replayed = tested replay replayed;
              floor =
                  not_below n.sequence v.policy.minimum_release_sequence (tested below_floor floor);
              lifecycle =
                  not_below policy.running_lifecycle v.policy.minimum_lifecycle
                    (tested below_lifecycle life);
              own =
                  not_below policy.running_lifecycle n.minimum_lifecycle
                    (tested lifecycle_too_old own);
              free =
                  check_tombstones-has
                    (policy.tombstoned_release_ids ++ v.policy.tombstoned_release_ids) n.release_id
                    free;
              selected = selected;
            }),
      )

  -- Suppose a chain of accepted policies leads from an anchor to the present one, and the policy of an installation is
  -- verified as the present one, or accepted over it. Then a release and an artifact that may be installed are newer than every
  -- release before, or the very release that is installed again; the release is at or above the floors of the anchor that the
  -- chain began with, and neither its tombstones nor those of the machine name it; and the artifact is one of the
  -- release's, with the expected name, platform and role.
  pub verify_for_install-Installable :
      (manifest_bytes signature_bytes public_key : Bytes) (policy : InstallPolicy) (m : Manifest)
      (a : Artifact) (policy_key policy_bytes policy_signature : Bytes) (start now : PolicyAnchor)
      (v : VerifiedPolicy)
      → Advances c.base policy_key start now
      → (verify_policy_at_anchor c.base policy_bytes policy_signature policy_key now ≡ ok v)
        ⊎ (verify_policy_advance c.base policy_bytes policy_signature policy_key now ≡ ok v)
      → policy.verified_release_policy ≡ some v
      → verify_for_install c manifest_bytes signature_bytes public_key policy ≡ ok (m, a)
      → Installable start policy m a
  verify_for_install-Installable manifest_bytes signature_bytes public_key policy m a policy_key
        policy_bytes policy_signature start now v chain current held h =
      let (w, d) =
        verify_for_install-Decided manifest_bytes signature_bytes public_key policy m a h in
      let same : w ≡ v = some_inj (sym d.held ∙ held) in
      let t = Advances-Tighter c.base policy_key start now chain in
      let p : Holds now w =
        subst (Holds now) (sym same)
          (current-Holds c.base policy_key policy_bytes policy_signature now v current) in
      let (among, named, fits) = select_artifact-Among policy m.artifacts a d.selected in
      record {
        fresh =
            fresh_or_same m.sequence policy.highest_sequence
              (bytes_eq m.release_id policy.exact_replay_release_id) d.replayed;
        release_floor = omega (arith, t.release, p.release, d.floor);
        lifecycle_floor = omega (arith, t.lifecycle, p.lifecycle, d.lifecycle);
        own_lifecycle = d.own;
        machine =
            has-left policy.tombstoned_release_ids w.policy.tombstoned_release_ids m.release_id
              d.free;
        tombstones =
            contraposed (has start.tombstoned_release_ids m.release_id)
              (has w.policy.tombstoned_release_ids m.release_id)
              (λ x. p.tombstones m.release_id (t.tombstones m.release_id x))
              (has-right policy.tombstoned_release_ids w.policy.tombstoned_release_ids m.release_id
                d.free);
        among = among;
        named = named;
        fits = fits;
      }
