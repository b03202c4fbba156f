-- ===== src/Relay.antt =====
-- internal/relay/service.go: the relay's tables of controls, pending clients and active pairs, and
-- every operation on them. Each operation runs under the service's mutex and is one function of the
-- state. Routes, epochs, sessions, pins, client names and connections are only compared, and are
-- numbers; `address` is the pointer of a heap object, drawn from the counter `allocated`.
pub mod Bucket
pub mod Outcomes
pub mod Cancels
pub mod Counting
pub mod Accounts
pub mod Steps
pub mod Within
pub mod Quotas
pub mod Reachable
pub mod Fairness
pub mod Channels
pub mod Races
mod Runs
use own_transit.Prelude.{
  ℕ, suc, ◌+◌, ◌-◌, ◌≡◌, Bool, true, false, not, ◌&&◌, ◌||◌, Option, none, some, List, [], ◌∷◌,
  ◌++◌, map, length, ltb, leb, ◌==◌, if◌then◌else◌, ℕ_discrete,
}
use own_transit.Prelude.Ledger.{find, remove, select}
use own_transit.Limits.{RelayLimits, second, pending_per_client_value, active_per_client_value}
use mathlib.Core.Option

pub record Admission : Type 0 where
  pub open_credit : ℕ
  pub last_open_refill : ℕ
  pub pending : ℕ
  pub active : ℕ

pub record Control : Type 0 where
  pub address : ℕ
  pub route : ℕ
  pub epoch : ℕ
  pub pin : ℕ
  pub conn : ℕ

pub record PendingKey : Type 0 where
  pub route : ℕ
  pub epoch : ℕ
  pub session : ℕ

unfoldable pub PendingKey-discrete : Discrete PendingKey
unfolding ℕ_discrete
PendingKey-discrete = hlevel ℕ_discrete

pub record Pending : Type 0 where
  pub address : ℕ
  pub key : PendingKey
  pub control : Control
  pub connector_pin : ℕ
  pub client_name : ℕ
  pub client : ℕ
  pub deadline : ℕ

-- A Go map with integer values: a key that is absent reads as 0.
abbrev pub Counts : Type 0
Counts = ℕ → Option ℕ

-- `resolved` holds the contents of each pending item's channel.
pub record Service : Type 0 where
  pub limits : RelayLimits
  pub admissions : ℕ → Option Admission
  pub controls : ℕ → Option Control
  pub pending : List Pending
  pub pending_per_route : Counts
  pub active_global : ℕ
  pub active_per_route : Counts
  pub resolved : ℕ → List (Option ℕ)
  pub allocated : ℕ

abbrev pub update : {A : Type 0} → (ℕ → A) → ℕ → A → ℕ → A
update m k v j = if k == j then v else m j

abbrev pub value_of : Option ℕ → ℕ
value_of none = 0
value_of (some n) = n

abbrev pub increment : Counts → ℕ → Counts
increment m k = update m k (some (value_of (m k) + 1))

-- `m[k]--`, and `delete(m, k)` once it is 0.
abbrev pub decrement : Counts → ℕ → Counts
decrement m k = update m k (if value_of (m k) - 1 == 0 then none else some (value_of (m k) - 1))

infixl 5 ◌>>=◌
abbrev ◌>>=◌ : {A B : Type 0} → Option A → (A → Option B) → Option B
none >>= f = none
some a >>= f = f a

-- A change of the record behind a client's pointer; the map itself is never changed.
abbrev pub adjust : (Admission → Admission) → ℕ → (ℕ → Option Admission) → ℕ → Option Admission
adjust f name m = update m name (Option.map f (m name))

abbrev pub find_pending : PendingKey → List Pending → Option Pending
find_pending = find (λ item. item.key) PendingKey-discrete

abbrev pub remove_pending : PendingKey → List Pending → List Pending
remove_pending = remove (λ item. item.key) PendingKey-discrete

pub resolve_pending : Pending → Option ℕ → Service → Service
resolve_pending item connector s = record s {
  pending = remove_pending item.key s.pending;
  pending_per_route = decrement s.pending_per_route item.key.route;
  admissions = adjust (λ a. record a { pending = a.pending - 1 }) item.client_name s.admissions;
  resolved = update s.resolved item.address (s.resolved item.address ++ connector ∷ []);
}

-- The capacity tests of `beginPending`.
abbrev pub pending_full : Service → Admission → ℕ → Bool
pending_full s a route =
    leb s.limits.pending_global (length s.pending)
    || leb s.limits.pending_per_route (value_of (s.pending_per_route route))
    || leb (pending_per_client_value s.limits) a.pending

pub add_pending : Pending → Service → Service
add_pending item s = record s {
  pending = item ∷ s.pending;
  pending_per_route = increment s.pending_per_route item.key.route;
  admissions = adjust (λ a. record a { pending = a.pending + 1 }) item.client_name s.admissions;
  resolved = update s.resolved item.address [];
  allocated = suc s.allocated;
}

-- `none` is the refusal, which leaves the service as it is.
pub begin_pending : ℕ → ℕ → ℕ → ℕ → ℕ → Service → Option (Control × Pending × Service)
begin_pending client_name route session client now s = do
  a ← s.admissions client_name
  control ← s.controls route
  let key : PendingKey = record { route = route; epoch = control.epoch; session = session }
  let item : Pending = record {
    address = s.allocated;
    key = key;
    control = control;
    connector_pin = control.pin;
    client_name = client_name;
    client = client;
    deadline = now + s.limits.join;
  }
  if pending_full s a route then none else elim (find_pending key s.pending) [
    | some duplicate ↦ none
    | none ↦ some (control, item, add_pending item s)
  ]

-- The client's connection, if this call cancelled its item.
pub cancel_pending_key : PendingKey → Service → Service × Option ℕ
cancel_pending_key key s = elim (find_pending key s.pending) [
  | none ↦ (s, none)
  | some item ↦ (resolve_pending item none s, some item.client)
]

-- The pointers are compared, so that a stale timer leaves a later item with the same key alone. Equal
-- pointers are one object, whose contents are `current`.
pub cancel_pending_item : Pending → Service → Service × Option ℕ
cancel_pending_item item s = elim (find_pending item.key s.pending) [
  | none ↦ (s, none)
  | some current ↦
      if current.address == item.address
      then (resolve_pending current none s, some current.client)
      else (s, none)
]

-- The items that wait for this control; the pointers and the epochs are compared.
abbrev pub waits_for : Control → ℕ → Pending → Bool
waits_for old route item =
    item.control.address == old.address && item.key.route == route && item.key.epoch == old.epoch

-- The loop over `service.pending` that resolves the items that pass the test.
pub resolve_all : List Pending → Service → Service
resolve_all [] s = s
resolve_all (item ∷ items) s = resolve_all items (resolve_pending item none s)

abbrev pub clients_of : List Pending → List ℕ
clients_of = map λ item. item.client

-- The service, the control that was replaced and the clients to close.
pub install_control : Control → Service → Service × Option Control × List ℕ
install_control current s = elim (s.controls current.route) [
  | none ↦ (record s { controls = update s.controls current.route (some current) }, none, [])
  | some old ↦
      let waiting = select (waits_for old current.route) s.pending in
      let installed : Service = record s {
        controls = update s.controls current.route (some current);
      } in
      (resolve_all waiting installed, some old, clients_of waiting)
]

pub remove_control : Control → Service → Service × List ℕ
remove_control current s = elim (s.controls current.route) [
  | none ↦ (s, [])
  | some installed ↦
      if installed.address == current.address
      then (let waiting = select (waits_for current current.route) s.pending in
          let removed : Service = record s { controls = update s.controls current.route none } in
          (resolve_all waiting removed, clients_of waiting))
      else (s, [])
]

pub add_active : Pending → Service → Service
add_active item s = record s {
  active_global = s.active_global + 1;
  active_per_route = increment s.active_per_route item.key.route;
  admissions = adjust (λ a. record a { active = a.active + 1 }) item.client_name s.admissions;
}

-- The tests of `joinData` on the item, the control and the client's record that it has found.
abbrev pub join_refused : Service → PendingKey → ℕ → ℕ → Pending → Control → Admission → Bool
join_refused s key pin now item current a =
    not (current.address == item.control.address)
    || not (current.epoch == key.epoch)
    || not (current.pin == pin)
    || not (item.connector_pin == pin)
    || ltb item.deadline now
    || leb s.limits.active_global s.active_global
    || leb s.limits.active_per_route (value_of (s.active_per_route key.route))
    || leb (active_per_client_value s.limits) a.active

-- `none` is the answer false, which leaves the service as it is; the item that was joined is ours.
pub join_data : ℕ → PendingKey → ℕ → ℕ → Service → Option (Pending × Service)
join_data conn key pin now s = do
  item ← find_pending key s.pending
  current ← s.controls key.route
  a ← s.admissions item.client_name
  if join_refused s key pin now item current a
      then none
      else some (item, resolve_pending item (some conn) (add_active item s))

pub finish_active : Pending → Service → Service
finish_active item s = record s {
  active_global = s.active_global - 1;
  active_per_route = decrement s.active_per_route item.key.route;
  admissions = adjust (λ a. record a { active = a.active - 1 }) item.client_name s.admissions;
}
