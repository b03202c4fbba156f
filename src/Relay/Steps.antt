-- ===== src/Relay/Steps.antt =====
-- The relay as a transition system: one step for each critical section that changes its tables. The
-- handlers of clients, connectors and timers interleave at these sections.
use own_transit.Prelude.{ℕ, ◌≡◌, Bool, if◌then◌else◌, none, some, List, [], ◌∷◌, ℕ_discrete}
use own_transit.Prelude.Ledger.{find, remove}
use own_transit.Limits.{RelayLimits}
use own_transit.Relay.{
  Admission, Pending, PendingKey, Service, Control, begin_pending, cancel_pending_key,
  cancel_pending_item, install_control, remove_control, join_data, finish_active,
}
use own_transit.Relay.Bucket.{consume_client_carrier, client_open_capacity}

-- The service, and the items whose pair is joined while `finishActive` has not run for them: each
-- is held by the one handler that received its connector.
pub record System : Type 0 where
  pub service : Service
  pub joined : List Pending

abbrev pub by_address : Pending → ℕ
by_address item = item.address

pub data Step (t u : System) : Type 0 where
  opens :
      (name route session client now : ℕ) (c : Control) (item : Pending) (s : Service)
      → begin_pending name route session client now t.service ≡ some (c, item, s)
      → u ≡ record { service = s; joined = t.joined }
      → Step t u
  cancels_key :
      (key : PendingKey)
      → u ≡ record { service = (cancel_pending_key key t.service).0; joined = t.joined }
      → Step t u
  cancels_item :
      (item : Pending)
      → u ≡ record { service = (cancel_pending_item item t.service).0; joined = t.joined }
      → Step t u
  installs :
      (c : Control)
      → u ≡ record { service = (install_control c t.service).0; joined = t.joined }
      → Step t u
  removes :
      (c : Control)
      → u ≡ record { service = (remove_control c t.service).0; joined = t.joined }
      → Step t u
  joins :
      (conn pin now : ℕ) (key : PendingKey) (item : Pending) (s : Service)
      → join_data conn key pin now t.service ≡ some (item, s)
      → u ≡ record { service = s; joined = item ∷ t.joined }
      → Step t u
  finishes :
      (address : ℕ) (item : Pending)
      → find by_address ℕ_discrete address t.joined ≡ some item
      → u ≡ record {
        service = finish_active item t.service;
        joined = remove by_address ℕ_discrete address t.joined;
      }
      → Step t u
  charges :
      (name now : ℕ)
      → u ≡ record { service = (consume_client_carrier name now t.service).0; joined = t.joined }
      → Step t u

pub data Reach (s : System) : System → Type 0 where
  here : Reach s s
  next : {t u : System} → Reach s t → Step t u → Reach s u

-- `newService` for the configured clients: full buckets, empty tables.
abbrev pub new_admission : ℕ → Admission
new_admission now = record {
  open_credit = client_open_capacity;
  last_open_refill = now;
  pending = 0;
  active = 0;
}

unfoldable pub new_service : RelayLimits → (ℕ → Bool) → ℕ → Service
new_service limits clients now = record {
  limits = limits;
  admissions = λ name. if clients name then some (new_admission now) else none;
  controls = λ r. none;
  pending = [];
  pending_per_route = λ r. none;
  active_global = 0;
  active_per_route = λ r. none;
  resolved = λ a. [];
  allocated = 0;
}

abbrev pub start : RelayLimits → (ℕ → Bool) → ℕ → System
start limits clients now = record { service = new_service limits clients now; joined = [] }
