-- ===== src/PairRelay/Promotion.antt =====
-- Which leg a client gets, and that the expiry of a leg that a client has taken finds nothing to remove.
use own_transit.Prelude.{
  ℕ, ◌<◌, ◌≡◌, ◌≢◌, refl, sym, ap, subst, true, false, not, ◌||◌, Option, none, some, List, [], ◌∷◌,
  ◌++◌, All, leb, arith, inl, inr, Bool-cases,
}
use own_transit.PairRelay.{
  RouteKey, WaitingLeg, TokenClaims, Pool, legs_of, without_leg, remove_leg, take_first, take_leg,
  same_route_claims,
}
use own_transit.PairRelay.Queues.{DistinctRoutes, legs_of-store}

-- The legs of a queue have different addresses.
abbrev pub Apart : ℕ → WaitingLeg → Type 0
Apart address leg = leg.address ≢ address

abbrev pub DistinctLegs : List WaitingLeg → Type 0
DistinctLegs [] = Unit {0}
DistinctLegs (leg ∷ legs) = All (Apart leg.address) legs × DistinctLegs legs

-- A leg that a client with these claims cannot take.
abbrev pub Passed : ℕ → TokenClaims → WaitingLeg → Type 0
Passed now claims leg = (leb leg.expires now || not (same_route_claims leg.claims claims)) ≡ true

-- The queue from which a client takes the leg `front`.
pub record Promoted (now : ℕ) (claims : TokenClaims) (legs : List WaitingLeg) (leg : WaitingLeg)
    (left : List WaitingLeg) : Type 0 where
  pub closed : List WaitingLeg
  pub queue : legs ≡ closed ++ leg ∷ left
  pub passed : All (Passed now claims) closed
  pub alive : now < leg.expires
  pub same : same_route_claims leg.claims claims ≡ true

take_first-Promoted :
    (now : ℕ) (claims : TokenClaims) (legs : List WaitingLeg) (leg : WaitingLeg)
    → (take_first now claims legs).claimed ≡ some leg
    → Promoted now claims legs leg (take_first now claims legs).left
unfolding take_first
take_first-Promoted now claims [] leg e = absurd (ground arith)
take_first-Promoted now claims (first ∷ legs) leg e =
    elim (Bool-cases (leb first.expires now || not (same_route_claims first.claims claims))) [
      | inl t ↦
          (let later = take_first-Promoted now claims legs leg (rw t at e) in
            record {
              closed = first ∷ later.closed;
              queue = rw t (ap (◌∷◌ first) later.queue);
              passed = (t, later.passed);
              alive = later.alive;
              same = later.same;
            })
      | inr t ↦ record {
        closed = [];
        queue = ground arith;
        passed = tt;
        alive = ground arith;
        same = ground arith;
      }
    ]

without_leg-Apart :
    (address : ℕ) (legs : List WaitingLeg)
    → All (Apart address) legs
    → without_leg address legs ≡ none
unfolding without_leg
without_leg-Apart address [] h = refl
without_leg-Apart address (leg ∷ legs) (h, hs) = ground (arith, without_leg-Apart address legs hs)

DistinctLegs-left :
    (closed left : List WaitingLeg) (leg : WaitingLeg)
    → DistinctLegs (closed ++ leg ∷ left)
    → All (Apart leg.address) left
DistinctLegs-left [] left leg d = d.0
DistinctLegs-left (x ∷ closed) left leg d = DistinctLegs-left closed left leg d.1

All-left :
    (address : ℕ) (closed left : List WaitingLeg) (leg : WaitingLeg)
    → All (Apart address) (closed ++ leg ∷ left)
    → leg.address ≢ address
All-left address [] left leg h = h.0
All-left address (x ∷ closed) left leg h = All-left address closed left leg h.1

-- What `takeLeg` returns.
abbrev claimed_leg : (o : Option WaitingLeg) → Option WaitingLeg
claimed_leg o = elim o [ none ↦ none | some leg ↦ some (record leg { claimed = true }) ]

claimed_leg_inv :
    (o : Option WaitingLeg) (leg : WaitingLeg)
    → claimed_leg o ≡ some leg
    → (front : WaitingLeg) × (o ≡ some front) × (leg ≡ record front { claimed = true })
claimed_leg_inv none leg e = absurd (ground arith)
claimed_leg_inv (some front) leg e = (front, refl, ground arith)

-- A client takes the first waiting leg of its route that has not expired and that carries the same
-- claims as the client, the receiver, the route, the admission root and the limits; what stood before it
-- has expired or differs, and what stood behind it stays, if no two queues have one key.
pub take_leg-Promoted :
    (now : ℕ) (key : RouteKey) (claims : TokenClaims) (p : Pool) (leg : WaitingLeg)
    → DistinctRoutes p.queue
    → (take_leg now key claims p).1 ≡ some leg
    → (front : WaitingLeg) × (leg ≡ record front { claimed = true })
      × Promoted now claims
          (legs_of key p.queue)
          front
          (legs_of key (take_leg now key claims p).0.queue)
unfolding take_leg
take_leg-Promoted now key claims p leg d e =
    let t = take_first now claims (legs_of key p.queue) in
    let (front, q, r) = claimed_leg_inv t.claimed leg e in
    (
      front,
      r,
      subst (Promoted now claims (legs_of key p.queue) front)
          (sym (legs_of-store key t.left p.queue d))
          (take_first-Promoted now claims (legs_of key p.queue) front q),
    )

-- A promotion wins: a leg that a client has taken is not expired by its timer afterwards, which changes
-- nothing, if no two queues have one key and no two legs of the route one address.
pub take_leg-remove_leg :
    (now : ℕ) (key : RouteKey) (claims : TokenClaims) (p : Pool) (leg : WaitingLeg)
    → DistinctRoutes p.queue
    → DistinctLegs (legs_of key p.queue)
    → (take_leg now key claims p).1 ≡ some leg
    → remove_leg key leg.address (take_leg now key claims p).0
      ≡ ((take_leg now key claims p).0, false)
unfolding remove_leg
take_leg-remove_leg now key claims p leg d apart e =
    let (front, r, taken) = take_leg-Promoted now key claims p leg d e in
    let behind =
      DistinctLegs-left taken.closed (legs_of key (take_leg now key claims p).0.queue) front
        (subst DistinctLegs taken.queue apart) in
    rw
      (
        ap (λ l. l.address) r,
        remove_leg,
        without_leg-Apart front.address (legs_of key (take_leg now key claims p).0.queue) behind,
      )
      refl
