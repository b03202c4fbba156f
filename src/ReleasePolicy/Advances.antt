-- ===== src/ReleasePolicy/Advances.antt =====
-- A chain of policies, each accepted over the anchor that the one before left, only ever tightens the anchor.
use own_transit.Prelude.{
  ℕ, ◌≤◌, ◌<◌, ◌≡◌, ◌⊎◌, refl, sym, subst, ap, ◌∙◌, Bool, true, false, not, ◌||◌, length, Bytes,
  ltb, leb, ◌==◌, ok, fail_if, fail_if-neither, bound, ok_inj, arith, inl, inr,
}
use own_transit.Prelude.Texts.{has}
use own_transit.ReleasePolicy.{
  Codec, PolicyAnchor, VerifiedPolicy, PolicyError, max_policy_size, max_record_size, bad_size,
  replay, weakens, removes, uncommitted, mismatch, unverified, tombstoned, nonzero_id,
  invalid_release, below_floor, below_lifecycle, contains_every, equal_strings, next_anchor,
  verify_signed_policy, validate_policy_anchor, verify_policy_advance, verify_policy_at_anchor,
  authorize_retained_release,
}
use own_transit.ReleasePolicy.Sets.{contains_every-has, equal_strings→eq}

-- The second anchor keeps the sequence, the floors and the tombstones of the first.
pub record Tighter (a b : PolicyAnchor) : Type 0 where
  pub highest : a.highest_policy_sequence ≤ b.highest_policy_sequence
  pub release : a.minimum_release_sequence ≤ b.minimum_release_sequence
  pub lifecycle : a.minimum_lifecycle ≤ b.minimum_lifecycle
  pub tombstones :
      (id : Bytes) → has a.tombstoned_release_ids id ≡ true → has b.tombstoned_release_ids id ≡ true

pub Tighter-refl : (a : PolicyAnchor) → Tighter a a
Tighter-refl a = record {
  highest = omega arith;
  release = omega arith;
  lifecycle = omega arith;
  tombstones = λ id m. m;
}

pub Tighter-trans : (a b d : PolicyAnchor) → Tighter a b → Tighter b d → Tighter a d
Tighter-trans a b d p q = record {
  highest = omega (arith, p.highest, q.highest);
  release = omega (arith, p.release, q.release);
  lifecycle = omega (arith, p.lifecycle, q.lifecycle);
  tombstones = λ id m. q.tombstones id (p.tombstones id m);
}

-- Every floor and tombstone of an anchor holds of a policy.
pub record Holds (a : PolicyAnchor) (v : VerifiedPolicy) : Type 0 where
  pub release : a.minimum_release_sequence ≤ v.policy.minimum_release_sequence
  pub lifecycle : a.minimum_lifecycle ≤ v.policy.minimum_lifecycle
  pub tombstones :
      (id : Bytes)
      → has a.tombstoned_release_ids id ≡ true
      → has v.policy.tombstoned_release_ids id ≡ true

not_below : (m n : ℕ) → ltb m n ≡ false → n ≤ m
not_below m n h = ground arith

above : (m n : ℕ) → leb m n ≡ false → n < m
above m n h = ground arith

equal : (m n : ℕ) → not (m == n) ≡ false → m ≡ n
equal m n h = ground arith

pub truth : (b : Bool) → not b ≡ false → b ≡ true
truth b h = ground arith

pub tested : {b : Bool} (e : PolicyError) {u : Unit {0}} → fail_if b e ≡ ok u → b ≡ false
tested e h = ground arith

pub or_false : (a b : Bool) → (a || b) ≡ false → (a ≡ false) × (b ≡ false)
or_false a b h = (ground arith, ground arith)

same_anchor :
    (n a : PolicyAnchor)
    → (not (n.highest_policy_sequence == a.highest_policy_sequence)
        || not (n.minimum_release_sequence == a.minimum_release_sequence)
        || not (n.minimum_lifecycle == a.minimum_lifecycle)
        || not (equal_strings n.tombstoned_release_ids a.tombstoned_release_ids))
      ≡ false
    → n ≡ a
same_anchor n a h =
    let (h, tombstones) = or_false _ _ h in
    let (h, lifecycle) = or_false _ _ h in
    let (highest, release) = or_false _ _ h in
    let first : n.highest_policy_sequence ≡ a.highest_policy_sequence = equal _ _ highest in
    let second : n.minimum_release_sequence ≡ a.minimum_release_sequence = equal _ _ release in
    let third : n.minimum_lifecycle ≡ a.minimum_lifecycle = equal _ _ lifecycle in
    let fourth : n.tombstoned_release_ids ≡ a.tombstoned_release_ids =
      equal_strings→eq _ _ (truth _ tombstones) in
    cc (first, second, third, fourth)

module _ (c : Codec) where
  pub next_anchor_inv :
      (v : VerifiedPolicy) (b : PolicyAnchor)
      → next_anchor c v ≡ ok b
      → record {
        highest_policy_sequence = v.policy.sequence;
        minimum_release_sequence = v.policy.minimum_release_sequence;
        minimum_lifecycle = v.policy.minimum_lifecycle;
        tombstoned_release_ids = v.policy.tombstoned_release_ids;
      }
        ≡ b
  unfolding next_anchor
  next_anchor_inv v b h = let (_, _, h) = bound (fail_if (not v.valid) unverified) _ h in ok_inj h

module _ (c : Codec) (public_key : Bytes) where
  -- An accepted policy has a greater sequence than the anchor, and holds its floors and tombstones.
  pub advance-Holds :
      (policy_bytes signature_bytes : Bytes) (a : PolicyAnchor) (v : VerifiedPolicy)
      → verify_policy_advance c policy_bytes signature_bytes public_key a ≡ ok v
      → (a.highest_policy_sequence < v.policy.sequence)
        × Holds a v
        × (verify_signed_policy c policy_bytes signature_bytes public_key ≡ ok v)
  unfolding verify_policy_advance
  advance-Holds policy_bytes signature_bytes a v h =
      let (w, signed, h) =
        bound (verify_signed_policy c policy_bytes signature_bytes public_key) _ h in
      let (_, _, h) =
        bound
          (fail_if
            (length policy_bytes == 0
              || ltb max_policy_size (length policy_bytes)
              || length signature_bytes == 0
              || ltb max_record_size (length signature_bytes))
            bad_size)
          _ h in
      let (_, _, h) = bound (validate_policy_anchor c a) _ h in
      let (_, new, h) =
        bound (fail_if (leb w.policy.sequence a.highest_policy_sequence) replay) _ h in
      let (_, floors, h) =
        bound
          (fail_if
            (ltb w.policy.minimum_release_sequence a.minimum_release_sequence
              || ltb w.policy.minimum_lifecycle a.minimum_lifecycle)
            weakens)
          _ h in
      let (_, kept, h) =
        bound
          (fail_if (not (contains_every w.policy.tombstoned_release_ids a.tombstoned_release_ids))
            removes)
          _ h in
      let (release, lifecycle) =
        fail_if-neither (ltb w.policy.minimum_release_sequence a.minimum_release_sequence)
          (ltb w.policy.minimum_lifecycle a.minimum_lifecycle) weakens floors in
      subst
        (λ x.
          (a.highest_policy_sequence < x.policy.sequence)
          × Holds a x
          × (verify_signed_policy c policy_bytes signature_bytes public_key ≡ ok x))
        (ok_inj h)
        (
          above w.policy.sequence a.highest_policy_sequence (tested replay new),
          record {
            release =
                not_below w.policy.minimum_release_sequence a.minimum_release_sequence release;
            lifecycle = not_below w.policy.minimum_lifecycle a.minimum_lifecycle lifecycle;
            tombstones =
                contains_every-has w.policy.tombstoned_release_ids a.tombstoned_release_ids
                  (truth _ (tested removes kept));
          },
          signed,
        )

  at_anchor-next_anchor :
      (policy_bytes signature_bytes : Bytes) (a : PolicyAnchor) (v : VerifiedPolicy)
      → verify_policy_at_anchor c policy_bytes signature_bytes public_key a ≡ ok v
      → next_anchor c v ≡ ok a
  unfolding verify_policy_at_anchor
  at_anchor-next_anchor policy_bytes signature_bytes a v h =
      let (_, _, h) = bound (validate_policy_anchor c a) _ h in
      let (_, _, h) = bound (fail_if (a.highest_policy_sequence == 0) uncommitted) _ h in
      let (w, _, h) = bound (verify_signed_policy c policy_bytes signature_bytes public_key) _ h in
      let (n, next, h) = bound (next_anchor c w) _ h in
      let (_, exact, h) =
        bound
          (fail_if
            (not (n.highest_policy_sequence == a.highest_policy_sequence)
              || not (n.minimum_release_sequence == a.minimum_release_sequence)
              || not (n.minimum_lifecycle == a.minimum_lifecycle)
              || not (equal_strings n.tombstoned_release_ids a.tombstoned_release_ids))
            mismatch)
          _ h in
      let same : n ≡ a = same_anchor n a (tested mismatch exact) in
      subst (λ x. next_anchor c x ≡ ok a) (ok_inj h) (next ∙ ap ok same)

  -- The anchors that a chain of accepted policies leads to.
  pub data Advances (start : PolicyAnchor) : PolicyAnchor → Type 0 where
    begin : Advances start start
    then_ :
        (policy_bytes signature_bytes : Bytes) (v : VerifiedPolicy) (a b : PolicyAnchor)
        → Advances start a
        → verify_policy_advance c policy_bytes signature_bytes public_key a ≡ ok v
        → next_anchor c v ≡ ok b
        → Advances start b

  advance-Tighter :
      (policy_bytes signature_bytes : Bytes) (a b : PolicyAnchor) (v : VerifiedPolicy)
      → verify_policy_advance c policy_bytes signature_bytes public_key a ≡ ok v
      → next_anchor c v ≡ ok b
      → (a.highest_policy_sequence < b.highest_policy_sequence) × Tighter a b
  advance-Tighter policy_bytes signature_bytes a b v h k =
      let (more, holds, _) = advance-Holds policy_bytes signature_bytes a v h in
      subst (λ x. (a.highest_policy_sequence < x.highest_policy_sequence) × Tighter a x)
        (next_anchor_inv c v b k)
        (
          more,
          record {
            highest = omega (arith, more);
            release = holds.release;
            lifecycle = holds.lifecycle;
            tombstones = holds.tombstones;
          },
        )

  pub Advances-Tighter : (a b : PolicyAnchor) → Advances a b → Tighter a b
  Advances-Tighter a b begin = Tighter-refl a
  Advances-Tighter a b (then_ p s v m b' before h k) =
      Tighter-trans a m b (Advances-Tighter a m before) (advance-Tighter p s m b v h k).1

  Advances-after :
      (a b : PolicyAnchor) → Advances a b → a.highest_policy_sequence ≤ b.highest_policy_sequence
  Advances-after a b chain = (Advances-Tighter a b chain).highest

  -- A policy that was accepted once is not accepted again, over the anchor that it left or any later one: the same
  -- bytes are refused then.
  pub verify_policy_advance-replay :
      (policy_bytes signature_bytes : Bytes) (a b d : PolicyAnchor) (v w : VerifiedPolicy)
      → verify_policy_advance c policy_bytes signature_bytes public_key a ≡ ok v
      → next_anchor c v ≡ ok b
      → Advances b d
      → ¬ (verify_policy_advance c policy_bytes signature_bytes public_key d ≡ ok w)
  verify_policy_advance-replay policy_bytes signature_bytes a b d v w h k chain again =
      let (_, _, first) = advance-Holds policy_bytes signature_bytes a v h in
      let (more, _, second) = advance-Holds policy_bytes signature_bytes d w again in
      let same : v ≡ w = ok_inj (sym first ∙ second) in
      let left : v.policy.sequence ≡ b.highest_policy_sequence =
        ap (λ x. x.highest_policy_sequence) (next_anchor_inv c v b k) in
      let back : v.policy.sequence ≡ w.policy.sequence = ap (λ x. x.policy.sequence) same in
      absurd (omega (arith, more, left, back, Advances-after b d chain))

  -- The floors and tombstones of any policy that the platform may hold at an anchor: one that is verified as
  -- the committed one, or one that is accepted over it.
  pub current-Holds :
      (policy_bytes signature_bytes : Bytes) (a : PolicyAnchor) (v : VerifiedPolicy)
      → (verify_policy_at_anchor c policy_bytes signature_bytes public_key a ≡ ok v)
        ⊎ (verify_policy_advance c policy_bytes signature_bytes public_key a ≡ ok v)
      → Holds a v
  current-Holds p s a v (inr h) = (advance-Holds p s a v h).1
  current-Holds p s a v (inl h) =
      subst (λ x. Holds x v) (next_anchor_inv c v a (at_anchor-next_anchor p s a v h))
        (record { release = omega arith; lifecycle = omega arith; tombstones = λ id m. m })

  authorized :
      (v : VerifiedPolicy) (release_id : Bytes) (sequence lifecycle : ℕ)
      → authorize_retained_release c v release_id sequence lifecycle ≡ ok tt
      → (v.policy.minimum_release_sequence ≤ sequence)
        × (v.policy.minimum_lifecycle ≤ lifecycle)
        × (has v.policy.tombstoned_release_ids release_id ≡ false)
  unfolding authorize_retained_release
  authorized v release_id sequence lifecycle h =
      let (_, _, h) = bound (fail_if (not v.valid) unverified) _ h in
      let (_, _, h) =
        bound
          (fail_if (not (nonzero_id c release_id) || sequence == 0 || lifecycle == 0)
            invalid_release)
          _ h in
      let (_, release, h) =
        bound (fail_if (ltb sequence v.policy.minimum_release_sequence) below_floor) _ h in
      let (_, life, h) =
        bound (fail_if (ltb lifecycle v.policy.minimum_lifecycle) below_lifecycle) _ h in
      (
        not_below sequence v.policy.minimum_release_sequence (tested below_floor release),
        not_below lifecycle v.policy.minimum_lifecycle (tested below_lifecycle life),
        tested tombstoned h,
      )

  -- After any chain of accepted policies, a release that the policy held then authorizes is at or above the floors
  -- of the anchor that the chain began with, and is not one of its tombstones: no rollback below a floor that was
  -- ever committed, and no release that was ever tombstoned.
  pub authorize_retained_release-Advances :
      (start now : PolicyAnchor) (policy_bytes signature_bytes : Bytes) (v : VerifiedPolicy)
      (release_id : Bytes) (sequence lifecycle : ℕ)
      → Advances start now
      → (verify_policy_at_anchor c policy_bytes signature_bytes public_key now ≡ ok v)
        ⊎ (verify_policy_advance c policy_bytes signature_bytes public_key now ≡ ok v)
      → authorize_retained_release c v release_id sequence lifecycle ≡ ok tt
      → (start.minimum_release_sequence ≤ sequence)
        × (start.minimum_lifecycle ≤ lifecycle)
        × (has start.tombstoned_release_ids release_id ≡ false)
  authorize_retained_release-Advances start now p s v release_id sequence lifecycle chain held
        permitted =
      let t = Advances-Tighter start now chain in
      let holds = current-Holds p s now v held in
      let (release, life, fresh) = authorized v release_id sequence lifecycle permitted in
      (
        omega (arith, t.release, holds.release, release),
        omega (arith, t.lifecycle, holds.lifecycle, life),
        not_member (has start.tombstoned_release_ids release_id)
            (has v.policy.tombstoned_release_ids release_id)
            (λ m. holds.tombstones release_id (t.tombstones release_id m)) fresh,
      )
    where
      not_member : (x y : Bool) → (x ≡ true → y ≡ true) → y ≡ false → x ≡ false
      not_member false y f h = refl
      not_member true y f h = absurd (ground (arith, f refl))
