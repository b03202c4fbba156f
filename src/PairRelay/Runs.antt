-- ===== src/PairRelay/Runs.antt =====
-- Three receivers wait on a route: one expires, one is promoted, one stays.
use own_transit.Prelude.{
  ℕ, ◌≡◌, ok, err, Option, ◌*◌, replicate, refl, true, false, none, some, List, [], ◌∷◌, arith, ite,
  ℕ_discrete,
}
use own_transit.Prelude.Ledger.{find, remove}
use own_transit.PairRelay.{
  RouteKey, RouteKey-discrete, TokenClaims, WaitingLeg, Pool, enqueue_leg, remove_leg, take_leg,
  take_first, same_route_claims, legs_of, AdmissionRecord, unauthorized, set_count, check_admission,
}
use own_transit.PairRelay.Queues.{DistinctRoutes}
use own_transit.PairRelay.Admission.{enqueue_checked, take_checked, acquire_checked}
use own_transit.PairRelay.Lifecycle.{
  Waiting, PendingLimits, at_start, then_, enqueues, runtime_moves, removes_admission, closes,
  no_legs, remove_admission, close, Reached,
}
use own_transit.PairRelay.Invariant.{Sound, Reached-Sound}
use own_transit.PairRelay.Removal.{remove_admission-acquire_checked}
use own_transit.PairRelay.Ceilings.{Active, acquire_active, ceilings, normalize, second}
use own_transit.PairRelay.Promotion.{Promoted, DistinctLegs, take_leg-Promoted, take_leg-remove_leg}

abbrev road : RouteKey
road = record { receiver = replicate 32 1; route = replicate 32 2 }

abbrev claims : TokenClaims
claims = record {
  receiver = replicate 32 1;
  route = replicate 32 2;
  admission_root = replicate 32 7;
  limits = record {
    pending_pairings = 1;
    pending_carriers = 3;
    active_carriers = 2;
    pairing_bytes = 100;
    session_lifetime = 900;
  };
  generation = 4;
  issued = 10;
  expires = 500;
}

abbrev waiting : ℕ → ℕ → WaitingLeg
waiting address expires = record {
  address = address;
  claims = claims;
  expires = expires;
  claimed = false;
}

abbrev full : Pool
full = record {
  queue = record { key = road; legs = waiting 1 20 ∷ waiting 2 90 ∷ waiting 3 95 ∷ [] } ∷ [];
  global = 3;
  per_route = λ key. ite (RouteKey-discrete road key) (some 3) none;
}

abbrev promoted : WaitingLeg
promoted = record { address = 2; claims = claims; expires = 90; claimed = true }

takes_second : (take_leg 50 road claims full).1 ≡ some promoted
unfolding take_leg take_first same_route_claims find RouteKey-discrete ℕ_discrete
takes_second = refl

abbrev one_leg : Pool
one_leg = record {
  queue = record { key = road; legs = waiting 1 20 ∷ [] } ∷ [];
  global = 1;
  per_route = λ key. ite (RouteKey-discrete road key) (some 1) none;
}

-- The route is known, with tokens up to time 5 revoked.
abbrev approved : AdmissionRecord
approved = record {
  admission_root = replicate 32 7;
  removed = false;
  last_issued = 10;
  reject_issued_through = 5;
}

abbrev all_approved : RouteKey → Option AdmissionRecord
all_approved key = some approved

abbrev small : PendingLimits
small = record {
  pending_pairings = 2;
  per_route_pairings = 1;
  pending_carriers = 4;
  per_route_carriers = 4;
}

abbrev occupied : Waiting
occupied = record {
  pairing = no_legs;
  runtime = one_leg;
  admissions = all_approved;
  closed = false;
}

first_enqueued : enqueue_checked false all_approved 4 4 3 road (waiting 1 20) no_legs ≡ ok one_leg
unfolding enqueue_checked check_admission enqueue_leg find remove RouteKey-discrete ℕ_discrete
first_enqueued = refl

occupied-Reached : Reached small occupied
occupied-Reached =
    then_ (at_start all_approved)
      (runtime_moves one_leg (enqueues 3 road (waiting 1 20) first_enqueued) refl)

-- A leg waits, its route is removed, and the relay closes.
abbrev removed_then_closed : Waiting
removed_then_closed = (close (remove_admission true 50 road occupied).0).0

Reached-Sound_example :
    Sound removed_then_closed.closed 2 1 removed_then_closed.pairing
    × Sound removed_then_closed.closed 4 4 removed_then_closed.runtime
Reached-Sound_example =
    Reached-Sound small removed_then_closed
      (then_ (then_ occupied-Reached (removes_admission true 50 road refl)) (closes refl))

distinct : DistinctRoutes full.queue
unfolding find
distinct = (refl, tt)

apart : DistinctLegs (legs_of road full.queue)
unfolding find RouteKey-discrete ℕ_discrete
apart = ((omega arith, (omega arith, tt)), ((omega arith, tt), (tt, tt)))

take_leg-Promoted_example :
    (front : WaitingLeg) × (promoted ≡ record front { claimed = true })
    × Promoted 50 claims
        (legs_of road full.queue)
        front
        (legs_of road (take_leg 50 road claims full).0.queue)
take_leg-Promoted_example = take_leg-Promoted 50 road claims full promoted distinct takes_second

take_leg-remove_leg_example :
    remove_leg road 2 (take_leg 50 road claims full).0 ≡ ((take_leg 50 road claims full).0, false)
take_leg-remove_leg_example =
    take_leg-remove_leg 50 road claims full promoted distinct apart takes_second

abbrev defaults : List ℕ
defaults =
    128
    ∷ 256
    ∷ 64
    ∷ 64
    ∷ 64
    ∷ 64
    ∷ 4
    ∷ 4
    ∷ 131072
    ∷ 1048576
    ∷ 86_400 * second
    ∷ 120 * second
    ∷ 30 * second
    ∷ 10 * second
    ∷ 86_400 * second
    ∷ []

normalized : normalize ceilings (replicate 15 0) ≡ some defaults
unfolding normalize
normalized = refl

abbrev one_active : Active
one_active = record {
  active = 1;
  per_route = λ key. ite (RouteKey-discrete road key) (some 1) none;
}

abbrev two_active : Active
two_active = record { active = 2; per_route = set_count one_active.per_route road 2 }

acquired : acquire_active 2 4 road claims claims one_active ≡ some two_active
unfolding acquire_active RouteKey-discrete ℕ_discrete
acquired = refl

one_route : DistinctRoutes one_leg.queue
unfolding find
one_route = (refl, tt)

abbrev behind : Waiting
behind = (remove_admission false 50 road occupied).0

remove_admission-acquire_checked_example :
    (legs_of road behind.pairing.queue ≡ [])
    × (legs_of road behind.runtime.queue ≡ [])
    × (enqueue_checked behind.closed behind.admissions 8 4 3 road (waiting 4 99) full
        ≡ err unauthorized)
    × (take_checked behind.closed behind.admissions 60 road claims full ≡ (full, err unauthorized))
    × (acquire_checked behind.closed behind.admissions 8 4 road claims claims one_active
        ≡ err unauthorized)
    × (acquire_checked behind.closed behind.admissions 8 4 road claims claims one_active
        ≡ err unauthorized)
remove_admission-acquire_checked_example =
    remove_admission-acquire_checked false 50 60 claims claims occupied approved 8 4 3 road
      (waiting 4 99) full one_active refl refl tt one_route refl
