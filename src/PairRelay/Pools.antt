-- ===== src/PairRelay/Pools.antt =====
-- A pool of waiting legs: what `enqueueLeg`, `removeLeg` and `takeLeg` do to its counters.
use own_transit.Prelude.{
  ℕ, ◌+◌, ◌-◌, ◌<◌, ◌≤◌, ◌≡◌, ◌≢◌, refl, Option, none, some, List, [], ◌∷◌, ◌++◌, length, arith,
  inl, inr, Option-cases, length-append,
}
use own_transit.PairRelay.{
  RouteKey, RouteKey-discrete, WaitingLeg, TokenClaims, Pool, legs_of, count_of, store, set_count,
  enqueue_leg, without_leg, remove_leg, take_first, take_leg, was_claimed,
}
use own_transit.PairRelay.Queues.{
  DistinctRoutes, total, total-store, legs_of-store, legs_of-store_ne, store-DistinctRoutes,
  length-without_leg, length-take_first,
}

-- The counters of a pool agree with its queues.
pub record Counted (p : Pool) : Type 0 where
  pub distinct : DistinctRoutes p.queue
  pub global : p.global ≡ total p.queue
  pub routes : (key : RouteKey) → count_of (p.per_route key) ≡ length (legs_of key p.queue)

set_count-same :
    (m : RouteKey → Option ℕ) (key : RouteKey) (n : ℕ) → count_of (set_count m key n key) ≡ n
set_count-same m key n = ground arith

set_count-other :
    (m : RouteKey → Option ℕ) (key other : RouteKey) (n : ℕ)
    → other ≢ key
    → set_count m key n other ≡ m other
set_count-other m key other n h = ground arith

pub stored-Counted :
    (p : Pool) (key : RouteKey) (legs : List WaitingLeg) (g n : ℕ)
    → Counted p
    → n ≡ length legs
    → g + length (legs_of key p.queue) ≡ p.global + length legs
    → Counted (record {
      queue = store key legs p.queue;
      global = g;
      per_route = set_count p.per_route key n;
    })
stored-Counted p key legs g n v e h = record {
  distinct = store-DistinctRoutes key legs p.queue v.distinct;
  global = omega (arith, total-store key legs p.queue, v.global, h);
  routes = λ other. elim (RouteKey-discrete other key) [
    | yes q ↦ rw (q, set_count-same p.per_route key n, legs_of-store key legs p.queue v.distinct) e
    | no q ↦
        rw (set_count-other p.per_route key other n q, legs_of-store_ne key other legs p.queue q)
          (v.routes other)
  ];
}

-- What a pool holds never exceeds the capacity of the kind, nor a route's at this relay.
pub record Within (global_limit per_route_pending : ℕ) (p : Pool) : Type 0 where
  pub global : p.global ≤ global_limit
  pub routes : (key : RouteKey) → count_of (p.per_route key) ≤ per_route_pending

set_count-le :
    (m : RouteKey → Option ℕ) (key other : RouteKey) (n limit : ℕ)
    → n ≤ limit
    → count_of (m other) ≤ limit
    → count_of (set_count m key n other) ≤ limit
set_count-le m key other n limit h k = ground arith

pub stored-Within :
    (global_limit per_route_pending : ℕ) (p : Pool) (key : RouteKey) (legs : List WaitingLeg)
    (g n : ℕ)
    → g ≤ global_limit
    → n ≤ per_route_pending
    → Within global_limit per_route_pending p
    → Within global_limit per_route_pending (record {
      queue = store key legs p.queue;
      global = g;
      per_route = set_count p.per_route key n;
    })
stored-Within global_limit per_route_pending p key legs g n hg hn w = record {
  global = hg;
  routes = λ other. set_count-le p.per_route key other n per_route_pending hn (w.routes other);
}

-- The pool behind `enqueueLeg`, and the room that there was.
record Enqueued (global_limit per_route_pending : ℕ) (key : RouteKey) (leg : WaitingLeg)
    (p p' : Pool) : Type 0 where
  after : p' ≡ record {
    queue = store key (legs_of key p.queue ++ leg ∷ []) p.queue;
    global = p.global + 1;
    per_route = set_count p.per_route key (count_of (p.per_route key) + 1);
  }
  global : p.global < global_limit
  route : count_of (p.per_route key) < per_route_pending

enqueue_leg-Enqueued :
    (global_limit per_route_pending route_limit : ℕ) (key : RouteKey) (leg : WaitingLeg)
    (p p' : Pool)
    → enqueue_leg global_limit per_route_pending route_limit key leg p ≡ some p'
    → Enqueued global_limit per_route_pending key leg p p'
unfolding enqueue_leg
enqueue_leg-Enqueued global_limit per_route_pending route_limit key leg p p' e = record {
  after = ground arith;
  global = ground arith;
  route = ground arith;
}

pub enqueue_leg-Counted :
    (global_limit per_route_pending route_limit : ℕ) (key : RouteKey) (leg : WaitingLeg)
    (p p' : Pool)
    → enqueue_leg global_limit per_route_pending route_limit key leg p ≡ some p'
    → Counted p
    → Within global_limit per_route_pending p
    → Counted p' × Within global_limit per_route_pending p'
enqueue_leg-Counted global_limit per_route_pending route_limit key leg p p' e v w =
    let i = enqueue_leg-Enqueued global_limit per_route_pending route_limit key leg p p' e in
    rw i.after (
      stored-Counted p key (legs_of key p.queue ++ leg ∷ []) (p.global + 1)
          (count_of (p.per_route key) + 1) v
          (omega (arith, length-append (legs_of key p.queue) (leg ∷ []), v.routes key))
          (omega (arith, length-append (legs_of key p.queue) (leg ∷ []))),
      stored-Within global_limit per_route_pending p key (legs_of key p.queue ++ leg ∷ [])
          (p.global + 1) (count_of (p.per_route key) + 1) (omega (arith, i.global))
          (omega (arith, i.route)) w,
    )

pub remove_leg-Counted :
    (global_limit per_route_pending : ℕ) (key : RouteKey) (address : ℕ) (p : Pool)
    → Counted p
    → Within global_limit per_route_pending p
    → Counted (remove_leg key address p).0
      × Within global_limit per_route_pending (remove_leg key address p).0
unfolding remove_leg
remove_leg-Counted global_limit per_route_pending key address p v w =
    elim (Option-cases (without_leg address (legs_of key p.queue))) [
      | inl n ↦ rw (n, remove_leg) (v, w)
      | inr (legs, e) ↦
          rw (e, remove_leg)
            (
              stored-Counted p key legs (p.global - 1) (count_of (p.per_route key) - 1) v
                  (omega
                    (arith, length-without_leg address (legs_of key p.queue) legs e, v.routes key))
                  (omega (
                    arith,
                    length-without_leg address (legs_of key p.queue) legs e,
                    v.global,
                    total-store key [] p.queue,
                  )),
              stored-Within global_limit per_route_pending p key legs (p.global - 1)
                  (count_of (p.per_route key) - 1) (omega (arith, w.global))
                  (omega (arith, w.routes key)) w,
            )
    ]

take_first-all :
    (now : ℕ) (claims : TokenClaims) (legs : List WaitingLeg)
    → (take_first now claims legs).claimed ≡ none
    → (take_first now claims legs).left ≡ []
unfolding take_first
take_first-all now claims [] e = refl
take_first-all now claims (leg ∷ legs) e = ground (arith, take_first-all now claims legs)

take_first-count :
    (now : ℕ) (claims : TokenClaims) (legs : List WaitingLeg) (n : ℕ)
    → n ≡ length legs
    → let t = take_first now claims legs in
      elim t.claimed [ none ↦ 0 | some leg ↦ n - (length t.closed + was_claimed t.claimed) ]
      ≡ length t.left
take_first-count now claims legs n h =
    ground (arith, length-take_first now claims legs, take_first-all now claims legs)

take_first-less :
    (o : Option WaitingLeg) (n m limit : ℕ)
    → n ≤ limit
    → elim o [ none ↦ 0 | some leg ↦ n - m ] ≤ limit
take_first-less none n m limit h = omega arith
take_first-less (some leg) n m limit h = omega arith

pub take_leg-Counted :
    (global_limit per_route_pending now : ℕ) (key : RouteKey) (claims : TokenClaims) (p : Pool)
    → Counted p
    → Within global_limit per_route_pending p
    → Counted (take_leg now key claims p).0
      × Within global_limit per_route_pending (take_leg now key claims p).0
unfolding take_leg
take_leg-Counted global_limit per_route_pending now key claims p v w =
    let t = take_first now claims (legs_of key p.queue) in
    let n = length t.closed + was_claimed t.claimed in
    let c : ℕ = elim t.claimed [ none ↦ 0 | some leg ↦ count_of (p.per_route key) - n ] in
    (
      stored-Counted p key t.left (p.global - n) c v
          (take_first-count now claims (legs_of key p.queue) (count_of (p.per_route key))
            (v.routes key))
          (omega (
            arith,
            length-take_first now claims (legs_of key p.queue),
            v.global,
            total-store key [] p.queue,
          )),
      stored-Within global_limit per_route_pending p key t.left (p.global - n) c
          (omega (arith, w.global)) (take_first-less _ _ _ _ (w.routes key)) w,
    )
