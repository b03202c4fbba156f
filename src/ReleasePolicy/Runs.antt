-- ===== src/ReleasePolicy/Runs.antt =====
-- The theorems on the release policies at the two policies of the samples.
use own_transit.Prelude.{◌≤◌, ◌≡◌, ◌↔◌, inl, refl, true, false, [], ◌∷◌, Bytes, ok}
use own_transit.Prelude.Texts.{lex_lt, has}
use own_transit.ReleasePolicy.{contains_every, verify_policy_advance, verify_policy_at_anchor}
use own_transit.ReleasePolicy.Sets.{contains_every_iff}
use own_transit.ReleasePolicy.Advances.{
  verify_policy_advance-replay, authorize_retained_release-Advances,
}
use own_transit.ReleasePolicy.Committed.{verify_policy_at_anchor-advance}
use own_transit.ReleasePolicy.Samples.{
  bad_release, good_release, codec, key, signature_bytes, verified, empty_anchor_, anchor,
  first_advance, second_advance, first_anchor, second_anchor, chain, at_second, authorizes,
}

verify_policy_at_anchor-advance_example :
    verify_policy_at_anchor codec (2 ∷ 10 ∷ []) signature_bytes key (anchor 2) ≡ ok (verified 2)
verify_policy_at_anchor-advance_example =
    verify_policy_at_anchor-advance codec (2 ∷ 10 ∷ []) signature_bytes key (anchor 1) (anchor 2)
      (verified 2) (λ ids i. refl) second_advance second_anchor

authorize_retained_release-Advances_example :
    (1 ≤ 5) × (1 ≤ 1) × (has (bad_release ∷ []) good_release ≡ false)
authorize_retained_release-Advances_example =
    authorize_retained_release-Advances codec key (anchor 1) (anchor 2) (2 ∷ 10 ∷ [])
      signature_bytes (verified 2) good_release 5 1 chain (inl at_second) authorizes

verify_policy_advance-replay_example :
    ¬ (verify_policy_advance codec (1 ∷ 10 ∷ []) signature_bytes key (anchor 2) ≡ ok (verified 1))
verify_policy_advance-replay_example =
    verify_policy_advance-replay codec key (1 ∷ 10 ∷ []) signature_bytes empty_anchor_ (anchor 1)
      (anchor 2) (verified 1) (verified 1) first_advance first_anchor chain

contains_every_iff_example :
    (contains_every ((1 ∷ []) ∷ (1 ∷ 2 ∷ []) ∷ []) ((1 ∷ 2 ∷ []) ∷ []) ≡ true) ↔ (
      (id : Bytes)
      → has ((1 ∷ 2 ∷ []) ∷ []) id ≡ true
      → has ((1 ∷ []) ∷ (1 ∷ 2 ∷ []) ∷ []) id ≡ true)
unfolding lex_lt
contains_every_iff_example =
    contains_every_iff ((1 ∷ []) ∷ (1 ∷ 2 ∷ []) ∷ []) ((1 ∷ 2 ∷ []) ∷ []) ((refl, tt), (tt, tt))
      (tt, tt)
