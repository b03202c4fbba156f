-- ===== src/PairRelay.antt =====
-- internal/pairrelay/relay.go and inventory.go: the receivers that wait at the pairing relay for a client,
-- and the active pairs. The state is what the relay's mutex protects; a leg's address stands for the identity of its pointer.
pub mod Queues
pub mod Pools
pub mod Ceilings
pub mod Admission
pub mod Lifecycle
pub mod Invariant
pub mod Removal
pub mod Promotion
pub mod Wire
pub mod Token
mod Runs
use own_transit.Prelude.{
  ℕ, Bytes, bytes_eq, ◌+◌, ◌-◌, ◌≡◌, Bool, true, false, not, ◌&&◌, ◌||◌, Option, none, some, List,
  [], ◌∷◌, ◌++◌, length, ltb, leb, ◌==◌, if◌then◌else◌, min, ite, ℕ_discrete,
}
use own_transit.Prelude.Ledger.{find, remove}

pub record RouteKey : Type 0 where
  pub receiver : Bytes
  pub route : Bytes

unfoldable pub RouteKey-discrete : Discrete RouteKey
unfolding ℕ_discrete
RouteKey-discrete = hlevel ℕ_discrete

pub record RouteLimits : Type 0 where
  pub pending_pairings : ℕ
  pub pending_carriers : ℕ
  pub active_carriers : ℕ
  pub pairing_bytes : ℕ
  pub session_lifetime : ℕ

pub record TokenClaims : Type 0 where
  pub receiver : Bytes
  pub route : Bytes
  pub admission_root : Bytes
  pub limits : RouteLimits
  pub generation : ℕ
  pub issued : ℕ
  pub expires : ℕ

pub record WaitingLeg : Type 0 where
  pub address : ℕ
  pub claims : TokenClaims
  pub expires : ℕ
  pub claimed : Bool

-- An entry of the map from routes to queues; a missing key is an empty queue.
pub record Entry : Type 0 where
  pub key : RouteKey
  pub legs : List WaitingLeg

-- One of the two kinds of waiting legs, runtime or pairing.
pub record Pool : Type 0 where
  pub queue : List Entry
  pub global : ℕ
  pub per_route : RouteKey → Option ℕ

pub record AdmissionRecord : Type 0 where
  pub admission_root : Bytes
  pub removed : Bool
  pub last_issued : ℕ
  pub reject_issued_through : ℕ

pub data RelayError : Type 0 where
  already_closed unauthorized capacity unavailable : RelayError

abbrev entry_legs : Option Entry → List WaitingLeg
entry_legs none = []
entry_legs (some e) = e.legs

abbrev pub legs_of : RouteKey → List Entry → List WaitingLeg
legs_of key queue = entry_legs (find (λ e. e.key) RouteKey-discrete key queue)

abbrev pub count_of : Option ℕ → ℕ
count_of none = 0
count_of (some n) = n

-- `queue[key] = legs`, and `delete(queue, key)` where they are none.
abbrev pub store : RouteKey → List WaitingLeg → List Entry → List Entry
store key [] queue = remove (λ e. e.key) RouteKey-discrete key queue
store key (leg ∷ legs) queue =
    record { key = key; legs = leg ∷ legs } ∷ remove (λ e. e.key) RouteKey-discrete key queue

-- `perRoute[key] = n`, and `delete(perRoute, key)` for 0.
abbrev pub set_count : (RouteKey → Option ℕ) → RouteKey → ℕ → RouteKey → Option ℕ
set_count m key n j = ite (RouteKey-discrete key j) (if n == 0 then none else some n) (m j)

unfoldable pub check_admission :
    Bool → (RouteKey → Option AdmissionRecord) → TokenClaims → Option RelayError
check_admission closed admissions claims =
    if closed
    then some already_closed
    else elim (admissions (record { receiver = claims.receiver; route = claims.route })) [
      | none ↦ none
      | some r ↦
          if r.removed
            || leb claims.issued r.reject_issued_through
            || not (bytes_eq r.admission_root claims.admission_root)
          then some unauthorized
          else none
    ]

abbrev pub same_limits : RouteLimits → RouteLimits → Bool
same_limits a b =
    a.pending_pairings == b.pending_pairings
    && a.pending_carriers == b.pending_carriers
    && a.active_carriers == b.active_carriers
    && a.pairing_bytes == b.pairing_bytes
    && a.session_lifetime == b.session_lifetime

unfoldable pub same_route_claims : TokenClaims → TokenClaims → Bool
same_route_claims first second =
    bytes_eq first.receiver second.receiver
    && bytes_eq first.route second.route
    && bytes_eq first.admission_root second.admission_root
    && same_limits first.limits second.limits

-- `enqueueLeg` behind `checkAdmissionLocked`: the capacity of the kind, of a route at this relay, and of
-- the route by its token.
unfoldable pub enqueue_leg : ℕ → ℕ → ℕ → RouteKey → WaitingLeg → Pool → Option Pool
enqueue_leg global_limit per_route_pending route_limit key leg p =
    if leb global_limit p.global
      || leb (min per_route_pending route_limit) (count_of (p.per_route key))
    then none
    else some (record {
      queue = store key (legs_of key p.queue ++ leg ∷ []) p.queue;
      global = p.global + 1;
      per_route = set_count p.per_route key (count_of (p.per_route key) + 1);
    })

-- The queue without the first leg at the address that nobody has claimed.
unfoldable pub without_leg : ℕ → List WaitingLeg → Option (List WaitingLeg)
without_leg address [] = none
without_leg address (leg ∷ legs) =
    let others = without_leg address legs in
    if leg.address == address && not leg.claimed
    then some legs
    else elim others [ none ↦ none | some rest ↦ some (leg ∷ rest) ]

unfoldable pub remove_leg : RouteKey → ℕ → Pool → Pool × Bool
remove_leg key address p = elim (without_leg address (legs_of key p.queue)) [
  | none ↦ (p, false)
  | some legs ↦ (
    record {
      queue = store key legs p.queue;
      global = p.global - 1;
      per_route = set_count p.per_route key (count_of (p.per_route key) - 1);
    },
    true,
  )
]

-- The loop of `takeLeg`: the legs that it closes, the leg that it claims, and those left behind it.
pub record Taken : Type 0 where
  pub closed : List WaitingLeg
  pub claimed : Option WaitingLeg
  pub left : List WaitingLeg

unfoldable pub take_first : ℕ → TokenClaims → List WaitingLeg → Taken
unfolding same_route_claims
take_first now claims [] = record { closed = []; claimed = none; left = [] }
take_first now claims (leg ∷ legs) =
    let t = take_first now claims legs in
    if leb leg.expires now || not (same_route_claims leg.claims claims)
    then record { closed = leg ∷ t.closed; claimed = t.claimed; left = t.left }
    else record { closed = []; claimed = some leg; left = legs }

abbrev pub was_claimed : Option WaitingLeg → ℕ
was_claimed none = 0
was_claimed (some leg) = 1

-- `takeLeg` behind `checkAdmissionLocked`; the leg that is returned is claimed from now on.
unfoldable pub take_leg : ℕ → RouteKey → TokenClaims → Pool → Pool × Option WaitingLeg
unfolding take_first
take_leg now key claims p =
    let t = take_first now claims (legs_of key p.queue) in
    let n = length t.closed + was_claimed t.claimed in
    (
      record {
        queue = store key t.left p.queue;
        global = p.global - n;
        per_route =
            set_count p.per_route key
              (elim t.claimed [ none ↦ 0 | some leg ↦ count_of (p.per_route key) - n ]);
      },
      elim t.claimed [ none ↦ none | some leg ↦ some (record leg { claimed = true }) ],
    )
