-- ===== src/PairRelay/Removal.antt =====
-- internal/pairrelay: what the removal of an admission leaves behind.
use own_transit.Prelude.{
  ℕ, ◌≡◌, refl, sym, ap, ◌∙◌, Bool, true, false, Option, none, some, [], err, inl, inr, arith, ite,
  ◌⊎◌, subst,
}
use own_transit.PairRelay.{
  RouteKey, RouteKey-discrete, WaitingLeg, TokenClaims, Pool, AdmissionRecord, unauthorized,
  legs_of, check_admission,
}
use own_transit.PairRelay.Queues.{DistinctRoutes, legs_of-store}
use own_transit.PairRelay.Admission.{
  enqueue_checked, take_checked, acquire_checked, removed, check_admission-Revoked,
}
use own_transit.PairRelay.Ceilings.{Active}
use own_transit.PairRelay.Lifecycle.{
  Waiting, drop_route, remove_admission, remove_known, removed_record,
  remove_admission-remove_known,
}

abbrev route_of : TokenClaims → RouteKey
route_of claims = record { receiver = claims.receiver; route = claims.route }

-- The state behind the removal: the relay is open and the record of the route is a removed one.
record Removed (key : RouteKey) (s s' : Waiting) : Type 0 where
  open_ : s'.closed ≡ false
  entry : (r : AdmissionRecord) × (s'.admissions key ≡ some r) × (r.removed ≡ true)
  pairing : s'.pairing ≡ drop_route key s.pairing
  runtime : s'.runtime ≡ drop_route key s.runtime

ite_same : {A : Type 0} (key : RouteKey) (a b : A) → ite (RouteKey-discrete key key) a b ≡ a
ite_same key a b = ground arith

remove_known-Removed :
    (saved : Bool) (now : ℕ) (key : RouteKey) (s : Waiting) (r : AdmissionRecord)
    → s.closed ≡ false
    → Removed key s (remove_known saved now key s (some r)).0
remove_known-Removed saved now key s r o = record {
  open_ = o;
  entry =
      (removed_record now r, ite_same key (some (removed_record now r)) (s.admissions key), refl);
  pairing = refl;
  runtime = refl;
}

remove_admission-Removed :
    (saved : Bool) (now : ℕ) (key : RouteKey) (s : Waiting) (r : AdmissionRecord)
    → s.closed ≡ false
    → s.admissions key ≡ some r
    → Removed key s (remove_admission saved now key s).0
remove_admission-Removed saved now key s r o q =
    let known : remove_admission saved now key s ≡ remove_known saved now key s (some r) =
      remove_admission-remove_known saved now key s o ∙ ap (remove_known saved now key s) q in
    subst (λ t. Removed key s t.0) (sym known) (remove_known-Removed saved now key s r o)

check_admission_either :
    (admissions : RouteKey → Option AdmissionRecord) (claims : TokenClaims)
    → (check_admission false admissions claims ≡ none)
      ⊎ (check_admission false admissions claims ≡ some unauthorized)
unfolding check_admission
check_admission_either admissions claims = ground arith

module _ (closed : Bool) (admissions : RouteKey → Option AdmissionRecord) where
  refused_second :
      (carriers per_route : ℕ) (key : RouteKey) (other claims : TokenClaims) (a : Active)
      → closed ≡ false
      → check_admission closed admissions claims ≡ some unauthorized
      → acquire_checked closed admissions carriers per_route key other claims a ≡ err unauthorized
  unfolding acquire_checked
  refused_second carriers per_route key other claims a open_ refused =
      elim (check_admission_either admissions other) [
        | inl passes ↦
            rw
              (
                acquire_checked,
                ap (λ c. check_admission c admissions other) open_ ∙ passes,
                refused,
              )
              refl
        | inr fails ↦
            rw (acquire_checked, ap (λ c. check_admission c admissions other) open_ ∙ fails) refl
      ]

no_legs_of :
    (key : RouteKey) (p : Pool) → DistinctRoutes p.queue → legs_of key (drop_route key p).queue ≡ []
unfolding drop_route
no_legs_of key p d = legs_of-store key [] p.queue d

-- Behind the removal of a known route's admission from an open relay with one queue per route, stored or
-- not, no leg of either kind waits on that route, a leg with claims of the route is not enqueued, the claims take no
-- waiting leg, and no pair starts with them, be they the first or the second claims of the pair.
pub remove_admission-acquire_checked :
    (saved : Bool) (now later : ℕ) (claims other : TokenClaims) (s : Waiting) (r : AdmissionRecord)
    (g per_route route_limit : ℕ) (key : RouteKey) (leg : WaitingLeg) (p : Pool) (a : Active)
    → s.closed ≡ false
    → s.admissions (route_of claims) ≡ some r
    → DistinctRoutes s.pairing.queue
    → DistinctRoutes s.runtime.queue
    → leg.claims ≡ claims
    → let s' = (remove_admission saved now (route_of claims) s).0 in
      (legs_of (route_of claims) s'.pairing.queue ≡ [])
      × (legs_of (route_of claims) s'.runtime.queue ≡ [])
      × (enqueue_checked s'.closed s'.admissions g per_route route_limit key leg p
          ≡ err unauthorized)
      × (take_checked s'.closed s'.admissions later key claims p ≡ (p, err unauthorized))
      × (acquire_checked s'.closed s'.admissions g per_route key claims other a ≡ err unauthorized)
      × (acquire_checked s'.closed s'.admissions g per_route key other claims a ≡ err unauthorized)
unfolding enqueue_checked take_checked acquire_checked
remove_admission-acquire_checked saved now later claims other s r g per_route route_limit key leg p
      a o q dp dr same =
    let v = remove_admission-Removed saved now (route_of claims) s r o q in
    let s' = (remove_admission saved now (route_of claims) s).0 in
    let refused : check_admission s'.closed s'.admissions claims ≡ some unauthorized =
      check_admission-Revoked s'.closed s'.admissions claims v.entry.0 v.open_ v.entry.1
        (removed v.entry.2) in
    (
      ap (λ p. legs_of (route_of claims) p.queue) v.pairing
          ∙ no_legs_of (route_of claims) s.pairing dp,
      ap (λ p. legs_of (route_of claims) p.queue) v.runtime
          ∙ no_legs_of (route_of claims) s.runtime dr,
      rw (enqueue_checked, ap (check_admission s'.closed s'.admissions) same ∙ refused) refl,
      rw (take_checked, refused) refl,
      rw (acquire_checked, refused) refl,
      refused_second s'.closed s'.admissions g per_route key other claims a v.open_ refused,
    )
