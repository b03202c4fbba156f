-- ===== src/PairRelay/Admission.antt =====
-- internal/pairrelay/relay.go: the operations on waiting legs and active pairs behind the check of the
-- durable admission.
use own_transit.Prelude.{
  ℕ, ◌≤◌, ◌≡◌, refl, Bool, true, false, Option, none, some, bytes_eq→eq, Outcome, ok, err, arith,
  ◌≢◌,
}
use own_transit.PairRelay.{
  RouteKey, TokenClaims, WaitingLeg, Pool, AdmissionRecord, RelayError, capacity, unauthorized,
  unavailable, check_admission, enqueue_leg, take_leg,
}
use own_transit.PairRelay.Ceilings.{Active, acquire_active}

-- `closed` and `admissions` of the relay.
module _ (closed : Bool) (admissions : RouteKey → Option AdmissionRecord) where
  abbrev or_capacity : {A : Type 0} → Option A → Outcome RelayError A
  or_capacity none = err capacity
  or_capacity (some a) = ok a

  abbrev or_unavailable : Option WaitingLeg → Outcome RelayError WaitingLeg
  or_unavailable none = err unavailable
  or_unavailable (some leg) = ok leg

  unfoldable pub enqueue_checked :
      ℕ → ℕ → ℕ → RouteKey → WaitingLeg → Pool → Outcome RelayError Pool
  unfolding check_admission enqueue_leg
  enqueue_checked global_limit per_route_pending route_limit key leg p =
      elim (check_admission closed admissions leg.claims) [
        | some e ↦ err e
        | none ↦ or_capacity (enqueue_leg global_limit per_route_pending route_limit key leg p)
      ]

  unfoldable pub take_checked :
      ℕ → RouteKey → TokenClaims → Pool → Pool × Outcome RelayError WaitingLeg
  unfolding check_admission take_leg
  take_checked now key claims p = elim (check_admission closed admissions claims) [
    | some e ↦ (p, err e)
    | none ↦ ((take_leg now key claims p).0, or_unavailable (take_leg now key claims p).1)
  ]

  unfoldable pub acquire_checked :
      ℕ → ℕ → RouteKey → TokenClaims → TokenClaims → Active → Outcome RelayError Active
  unfolding check_admission acquire_active
  acquire_checked active_carriers per_route_active key first other a =
      elim (check_admission closed admissions first) [
        | some e ↦ err e
        | none ↦ elim (check_admission closed admissions other) [
          | some e ↦ err e
          | none ↦ or_capacity (acquire_active active_carriers per_route_active key first other a)
        ]
      ]

  -- The record of the claims' route refuses them: it is removed, or has revoked the time of their issue,
  -- or has another admission root.
  pub data Revoked (claims : TokenClaims) (r : AdmissionRecord) : Type 0 where
    removed : r.removed ≡ true → Revoked claims r
    too_old : claims.issued ≤ r.reject_issued_through → Revoked claims r
    other_root : r.admission_root ≢ claims.admission_root → Revoked claims r

  pub check_admission-Revoked :
      (claims : TokenClaims) (r : AdmissionRecord)
      → closed ≡ false
      → admissions (record { receiver = claims.receiver; route = claims.route }) ≡ some r
      → Revoked claims r
      → check_admission closed admissions claims ≡ some unauthorized
  unfolding check_admission
  check_admission-Revoked claims r open_ q (removed h) = rw (open_, check_admission, q, h) refl
  check_admission-Revoked claims r open_ q (too_old h) = rw (open_, q) (ground arith)
  check_admission-Revoked claims r open_ q (other_root h) =
      rw (open_, q) (ground (arith, bytes_eq→eq r.admission_root claims.admission_root))
