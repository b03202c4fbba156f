-- ===== src/PairRelay/Invariant.antt =====
-- internal/pairrelay: the counters of the waiting legs in every state of the relay, until it is closed and after.
use own_transit.Prelude.{
  ℕ, ◌-◌, ◌≡◌, refl, sym, ap, Bool, true, false, Option, none, some, [], length, ok, arith,
  Option-cases, inl, inr, choose, subst, Bool-cases, if◌then◌else◌, ◌⊎◌,
}
use own_transit.Prelude.Ledger.{find}
use own_transit.PairRelay.{
  RouteKey, WaitingLeg, TokenClaims, Pool, AdmissionRecord, RelayError, legs_of, remove_leg,
  take_leg, enqueue_leg, check_admission, without_leg, already_closed,
}
use own_transit.PairRelay.Queues.{total, total-store}
use own_transit.PairRelay.Pools.{
  Counted, Within, stored-Counted, stored-Within, enqueue_leg-Counted, remove_leg-Counted,
  take_leg-Counted,
}
use own_transit.PairRelay.Admission.{enqueue_checked, take_checked}
use own_transit.PairRelay.Lifecycle.{
  Waiting, drop_route, remove_admission, remove_known, remove_admission-remove_known, close,
  emptied, PoolStep, PendingLimits, Step, no_legs, Reached, at_start, then_, enqueues, removes,
  takes, pairing_moves, runtime_moves, admissions_change, removes_admission, closes,
}

-- A pool fits its limits; its counters agree with its queues while the relay is open, and a closed relay has
-- no waiting leg.
pub record Sound (closed : Bool) (global_limit per_route_pending : ℕ) (p : Pool) : Type 0 where
  pub within : Within global_limit per_route_pending p
  pub counted : closed ≡ false → Counted p
  pub empty : closed ≡ true → p.queue ≡ []

record SoundRelay (l : PendingLimits) (s : Waiting) : Type 0 where
  pairing : Sound s.closed l.pending_pairings l.per_route_pairings s.pairing
  runtime : Sound s.closed l.pending_carriers l.per_route_carriers s.runtime

drop_route-Sound :
    (closed : Bool) (g r : ℕ) (key : RouteKey) (p : Pool)
    → closed ≡ false
    → Sound closed g r p
    → Sound closed g r (drop_route key p)
unfolding drop_route
drop_route-Sound closed g r key p open_ v =
    let c = v.counted open_ in
    record {
      within =
          stored-Within g r p key [] (p.global - length (legs_of key p.queue)) 0
            (omega (arith, v.within.global)) (omega arith) v.within;
      counted = λ _.
          stored-Counted p key [] (p.global - length (legs_of key p.queue)) 0 c refl
            (omega (arith, c.global, total-store key [] p.queue));
      empty = λ h. absurd (cc (h, open_));
    }

emptied-Sound :
    (closed : Bool) (g r : ℕ) (p : Pool) → Sound closed g r p → Sound true g r (emptied p)
emptied-Sound closed g r p v = record {
  within = record { global = v.within.global; routes = v.within.routes };
  counted = λ h. absurd (cc h);
  empty = λ _. refl;
}

enqueues_open :
    (closed : Bool) (admissions : RouteKey → Option AdmissionRecord) (g r route_limit : ℕ)
    (key : RouteKey) (leg : WaitingLeg) (p p' : Pool)
    → enqueue_checked closed admissions g r route_limit key leg p ≡ ok p'
    → (closed ≡ false) × (enqueue_leg g r route_limit key leg p ≡ some p')
unfolding enqueue_checked check_admission
enqueues_open true admissions g r route_limit key leg p p' e = absurd (cc e)
enqueues_open false admissions g r route_limit key leg p p' e = (refl, ground arith)

take_checked_result :
    (closed : Bool) (admissions : RouteKey → Option AdmissionRecord) (now : ℕ) (key : RouteKey)
    (claims : TokenClaims) (p : Pool)
    → ((take_checked closed admissions now key claims p).0 ≡ p)
      ⊎ ((closed ≡ false)
          × ((take_checked closed admissions now key claims p).0 ≡ (take_leg now key claims p).0))
unfolding take_checked check_admission
take_checked_result true admissions now key claims p = inl refl
take_checked_result false admissions now key claims p =
    elim (Option-cases (check_admission false admissions claims)) [
      | inl n ↦ inr (refl, rw (take_checked, n) refl)
      | inr (e, q) ↦ inl (rw (take_checked, q) refl)
    ]

remove_leg-empty :
    (key : RouteKey) (address : ℕ) (p : Pool) → p.queue ≡ [] → (remove_leg key address p).0 ≡ p
unfolding remove_leg find without_leg
remove_leg-empty key address p q =
    let nothing : without_leg address (legs_of key p.queue) ≡ none =
      ap (λ queue. without_leg address (legs_of key queue)) q in
    rw (remove_leg, nothing) refl

PoolStep-Sound :
    (closed : Bool) (admissions : RouteKey → Option AdmissionRecord) (g r : ℕ) (p p' : Pool)
    → PoolStep closed admissions g r p p'
    → Sound closed g r p
    → Sound closed g r p'
PoolStep-Sound closed admissions g r p p' (enqueues route_limit key leg e) v =
    let (open_, stored) = enqueues_open closed admissions g r route_limit key leg p p' e in
    let (c, w) =
      enqueue_leg-Counted g r route_limit key leg p p' stored (v.counted open_) v.within in
    record { within = w; counted = λ _. c; empty = λ h. absurd (cc (h, open_)) }
PoolStep-Sound true admissions g r p p' (removes key address q) v =
    rw (q, remove_leg-empty key address p (v.empty refl)) v
PoolStep-Sound false admissions g r p p' (removes key address q) v =
    let (c, w) = remove_leg-Counted g r key address p (v.counted refl) v.within in
    rw q (record { within = w; counted = λ _. c; empty = λ h. absurd (cc h) })
PoolStep-Sound closed admissions g r p p' (takes now key claims q) v =
    elim (take_checked_result closed admissions now key claims p) [
      | inl same ↦ rw (q, same) v
      | inr (open_, taken) ↦
          let (c, w) = take_leg-Counted g r now key claims p (v.counted open_) v.within in
          rw (q, taken)
            (record { within = w; counted = λ _. c; empty = λ h. absurd (cc (h, open_)) })
    ]

abbrev SoundFirst : PendingLimits → Waiting × Option RelayError → Type 0
SoundFirst l r = SoundRelay l r.0

removed-Sound :
    (l : PendingLimits) (saved : Bool) (now : ℕ) (key : RouteKey) (s : Waiting)
    (o : Option AdmissionRecord)
    → s.closed ≡ false
    → SoundRelay l s
    → SoundRelay l (remove_known saved now key s o).0
removed-Sound l saved now key s none open_ v = v
removed-Sound l saved now key s (some r) open_ v = record {
  pairing = drop_route-Sound s.closed _ _ key s.pairing open_ v.pairing;
  runtime = drop_route-Sound s.closed _ _ key s.runtime open_ v.runtime;
}

remove_admission-Sound :
    (l : PendingLimits) (saved : Bool) (now : ℕ) (key : RouteKey) (s : Waiting)
    → SoundRelay l s
    → SoundRelay l (remove_admission saved now key s).0
unfolding remove_admission
remove_admission-Sound l saved now key s v = elim (Bool-cases s.closed) [
  | inl c ↦
      let known : remove_admission saved now key s ≡ (s, some already_closed) =
        ap
          (λ b.
            if b then (s, some already_closed) else remove_known saved now key s (s.admissions key))
          c in
      subst (SoundFirst l) (sym known) v
  | inr o ↦
      subst (SoundFirst l) (sym (remove_admission-remove_known saved now key s o))
        (removed-Sound l saved now key s (s.admissions key) o v)
]

close-Sound : (l : PendingLimits) (s : Waiting) → SoundRelay l s → SoundRelay l (close s).0
unfolding close
close-Sound l s v =
    choose (SoundFirst l) s.closed (s, some already_closed) _ v
      (record {
        pairing = emptied-Sound s.closed _ _ s.pairing v.pairing;
        runtime = emptied-Sound s.closed _ _ s.runtime v.runtime;
      })

Step-Sound : (l : PendingLimits) (s s' : Waiting) → Step l s s' → SoundRelay l s → SoundRelay l s'
Step-Sound l s s' (pairing_moves p m q) v = rw q (record {
  pairing = PoolStep-Sound s.closed s.admissions _ _ s.pairing p m v.pairing;
  runtime = v.runtime;
})
Step-Sound l s s' (runtime_moves p m q) v = rw q (record {
  pairing = v.pairing;
  runtime = PoolStep-Sound s.closed s.admissions _ _ s.runtime p m v.runtime;
})
Step-Sound l s s' (admissions_change admissions q) v =
    rw q (record { pairing = v.pairing; runtime = v.runtime })
Step-Sound l s s' (removes_admission saved now key q) v =
    rw q (remove_admission-Sound l saved now key s v)
Step-Sound l s s' (closes q) v = rw q (close-Sound l s v)

no_legs-Sound : (g r : ℕ) → Sound false g r no_legs
unfolding total find
no_legs-Sound g r = record {
  within = record { global = omega arith; routes = λ key. omega arith };
  counted = λ _. record { distinct = tt; global = refl; routes = λ key. refl };
  empty = λ h. absurd (cc h);
}

Reached-SoundRelay : (l : PendingLimits) (s : Waiting) → Reached l s → SoundRelay l s
Reached-SoundRelay l s (at_start admissions) = record {
  pairing = no_legs-Sound _ _;
  runtime = no_legs-Sound _ _;
}
Reached-SoundRelay l s' (then_ {s = s} r m) = Step-Sound l s s' m (Reached-SoundRelay l s r)

-- In every state that the relay reaches, both kinds of waiting legs fit the relay's and the routes' limits; while it is open,
-- the total of a kind is the number of legs in all its queues and each route's counter is the length of its queue;
-- and once it is closed, no leg waits.
pub Reached-Sound :
    (l : PendingLimits) (s : Waiting)
    → Reached l s
    → Sound s.closed l.pending_pairings l.per_route_pairings s.pairing
      × Sound s.closed l.pending_carriers l.per_route_carriers s.runtime
Reached-Sound l s r = let v = Reached-SoundRelay l s r in (v.pairing, v.runtime)
