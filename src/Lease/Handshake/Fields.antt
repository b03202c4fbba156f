-- ===== src/Lease/Handshake/Fields.antt =====
-- The fixed fields of challenges and grants, as `receiveControl` cuts them out.
use own_transit.Prelude.{
  ℕ, take, ◌+◌, ◌≡◌, refl, ◌++◌, length, drop, Bytes, take-append, drop-append, drop-drop,
}
use own_transit.Lease.Control.{slice}

skip : (n m : ℕ) (x r : Bytes) → length x ≡ n → drop (n + m) (x ++ r) ≡ drop m r
skip n m x r h = rw (← drop-drop m n (x ++ r), drop-append n x r h) refl

-- The fields of a challenge.
module _ (x y z w : Bytes) (hx : length x ≡ 32) (hy : length y ≡ 8) (hz : length z ≡ 32) where
  pub challenge_binding : take 32 (x ++ (y ++ (z ++ w))) ≡ x
  challenge_binding = take-append 32 x (y ++ (z ++ w)) hx

  pub challenge_generation : slice (x ++ (y ++ (z ++ w))) 32 40 ≡ y
  challenge_generation = rw (drop-append 32 x (y ++ (z ++ w)) hx, take-append 8 y (z ++ w) hy) refl

  pub challenge_nonce : slice (x ++ (y ++ (z ++ w))) 40 72 ≡ z
  challenge_nonce =
      rw (skip 32 8 x (y ++ (z ++ w)) hx, drop-append 8 y (z ++ w) hy, take-append 32 z w hz) refl

  pub challenge_duration : drop 72 (x ++ (y ++ (z ++ w))) ≡ w
  challenge_duration =
      rw (skip 32 40 x (y ++ (z ++ w)) hx, skip 8 32 y (z ++ w) hy, drop-append 32 z w hz) refl

-- The fields of a grant.
module _ (x y z u w : Bytes) (hx : length x ≡ 32) (hy : length y ≡ 8) (hz : length z ≡ 8)
    (hu : length u ≡ 32) where
  pub grant_sender : slice (x ++ (y ++ (z ++ (u ++ w)))) 32 40 ≡ y
  grant_sender =
      rw (drop-append 32 x (y ++ (z ++ (u ++ w))) hx, take-append 8 y (z ++ (u ++ w)) hy) refl

  pub grant_generation : slice (x ++ (y ++ (z ++ (u ++ w)))) 40 48 ≡ z
  grant_generation =
      rw
        (
          skip 32 8 x (y ++ (z ++ (u ++ w))) hx,
          drop-append 8 y (z ++ (u ++ w)) hy,
          take-append 8 z (u ++ w) hz,
        )
        refl

  pub grant_nonce : slice (x ++ (y ++ (z ++ (u ++ w)))) 48 80 ≡ u
  grant_nonce =
      rw
        (
          skip 32 16 x (y ++ (z ++ (u ++ w))) hx,
          skip 8 8 y (z ++ (u ++ w)) hy,
          drop-append 8 z (u ++ w) hz,
          take-append 32 u w hu,
        )
        refl

  pub grant_duration : drop 80 (x ++ (y ++ (z ++ (u ++ w)))) ≡ w
  grant_duration =
      rw
        (
          skip 32 48 x (y ++ (z ++ (u ++ w))) hx,
          skip 8 40 y (z ++ (u ++ w)) hy,
          skip 8 32 z (u ++ w) hz,
          drop-append 32 u w hu,
        )
        refl
