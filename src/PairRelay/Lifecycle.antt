-- ===== src/PairRelay/Lifecycle.antt =====
-- internal/pairrelay/relay.go and inventory.go: the waiting legs of both kinds together with the durable
-- admissions and the closing of the relay, and every state that they reach.
use own_transit.Prelude.{
  ℕ, ◌-◌, ◌≡◌, ap, Bool, true, false, Option, none, some, [], length, ok, ltb, ite, if◌then◌else◌,
}
use own_transit.PairRelay.{
  RouteKey, RouteKey-discrete, WaitingLeg, TokenClaims, Pool, AdmissionRecord, RelayError,
  already_closed, unavailable, legs_of, store, set_count, remove_leg,
}
use own_transit.PairRelay.Admission.{enqueue_checked, take_checked}

pub record Waiting : Type 0 where
  pub pairing : Pool
  pub runtime : Pool
  pub admissions : RouteKey → Option AdmissionRecord
  pub closed : Bool

-- The body of the last loop of `RemoveAdmission`, for one kind.
unfoldable pub drop_route : RouteKey → Pool → Pool
drop_route key p = record {
  queue = store key [] p.queue;
  global = p.global - length (legs_of key p.queue);
  per_route = set_count p.per_route key 0;
}

-- Go's `max`.
abbrev pub max : ℕ → ℕ → ℕ
max a b = if ltb a b then b else a

abbrev pub removed_record : ℕ → AdmissionRecord → AdmissionRecord
removed_record now r = record r {
  removed = true;
  reject_issued_through = max (max r.reject_issued_through r.last_issued) now;
}

abbrev pub remove_known :
    Bool → ℕ → RouteKey → Waiting → Option AdmissionRecord → Waiting × Option RelayError
remove_known saved now key s none = (s, some unavailable)
remove_known saved now key s (some r) = (
  record {
    pairing = drop_route key s.pairing;
    runtime = drop_route key s.runtime;
    admissions = λ j. ite (RouteKey-discrete key j) (some (removed_record now r)) (s.admissions j);
    closed = s.closed;
  },
  if saved then none else some unavailable,
)

-- `saved` says whether the store of the admissions took the record; a removal stands even if it did not.
unfoldable pub remove_admission : Bool → ℕ → RouteKey → Waiting → Waiting × Option RelayError
unfolding drop_route
remove_admission saved now key s =
    if s.closed then (s, some already_closed) else remove_known saved now key s (s.admissions key)

-- What an open relay does.
pub remove_admission-remove_known :
    (saved : Bool) (now : ℕ) (key : RouteKey) (s : Waiting)
    → s.closed ≡ false
    → remove_admission saved now key s ≡ remove_known saved now key s (s.admissions key)
unfolding remove_admission
remove_admission-remove_known saved now key s =
    ap
      (λ b. if b then (s, some already_closed) else remove_known saved now key s (s.admissions key))

-- The queues are replaced, and the counters stay as they are.
abbrev pub emptied : Pool → Pool
emptied p = record p { queue = [] }

unfoldable pub close : Waiting → Waiting × Option RelayError
close s = if s.closed then (s, some already_closed) else (
  record s { pairing = emptied s.pairing; runtime = emptied s.runtime; closed = true },
  none,
)

-- A step of one pool: a receiver waits, a timer or a broken connection removes a leg, a client takes one.
pub data PoolStep (closed : Bool) (admissions : RouteKey → Option AdmissionRecord)
    (global_limit per_route_pending : ℕ) (p p' : Pool) : Type 0 where
  enqueues :
      (route_limit : ℕ) (key : RouteKey) (leg : WaitingLeg)
      → enqueue_checked closed admissions global_limit per_route_pending route_limit key leg p
        ≡ ok p'
      → PoolStep closed admissions global_limit per_route_pending p p'
  removes :
      (key : RouteKey) (address : ℕ)
      → p' ≡ (remove_leg key address p).0
      → PoolStep closed admissions global_limit per_route_pending p p'
  takes :
      (now : ℕ) (key : RouteKey) (claims : TokenClaims)
      → p' ≡ (take_checked closed admissions now key claims p).0
      → PoolStep closed admissions global_limit per_route_pending p p'

-- The limits of both kinds.
pub record PendingLimits : Type 0 where
  pub pending_pairings : ℕ
  pub per_route_pairings : ℕ
  pub pending_carriers : ℕ
  pub per_route_carriers : ℕ

-- A critical section of the relay that touches the waiting legs or the admissions. Approvals, revocations and new
-- publications may change the admissions in any way.
pub data Step (l : PendingLimits) (s s' : Waiting) : Type 0 where
  pairing_moves :
      (p : Pool)
      → PoolStep s.closed s.admissions l.pending_pairings l.per_route_pairings s.pairing p
      → s' ≡ record s { pairing = p }
      → Step l s s'
  runtime_moves :
      (p : Pool)
      → PoolStep s.closed s.admissions l.pending_carriers l.per_route_carriers s.runtime p
      → s' ≡ record s { runtime = p }
      → Step l s s'
  admissions_change :
      (admissions : RouteKey → Option AdmissionRecord)
      → s' ≡ record s { admissions = admissions }
      → Step l s s'
  removes_admission :
      (saved : Bool) (now : ℕ) (key : RouteKey)
      → s' ≡ (remove_admission saved now key s).0
      → Step l s s'
  closes : s' ≡ (close s).0 → Step l s s'

abbrev pub no_legs : Pool
no_legs = record { queue = []; global = 0; per_route = λ key. none }

-- A relay as it starts, with the admissions of its store.
abbrev pub started : (RouteKey → Option AdmissionRecord) → Waiting
started admissions = record {
  pairing = no_legs;
  runtime = no_legs;
  admissions = admissions;
  closed = false;
}

pub data Reached (l : PendingLimits) : Waiting → Type 0 where
  at_start : (admissions : RouteKey → Option AdmissionRecord) → Reached l (started admissions)
  then_ : {s s' : Waiting} → Reached l s → Step l s s' → Reached l s'
