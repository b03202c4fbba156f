-- ===== src/Relay/Runs.antt =====
-- The relay on small inputs, and the theorems at such inputs.
use own_transit.Prelude.{
  ℕ, ◌+◌, ◌*◌, ◌≤◌, ◌≡◌, refl, Bool, ◌||◌, none, some, [], ◌∷◌, ok, arith, ◌==◌,
}
use own_transit.Prelude.Ledger.{find}
use own_transit.Limits.{
  RelayLimits, second, validate, carrier_global, minimum_carriers, pending_per_client_value,
  active_per_client_value, session_idle_value, session_lifetime_value,
}
use own_transit.Relay.{
  Admission, Control, Pending, PendingKey-discrete, Service, update, begin_pending, join_data,
  install_control, cancel_pending_item, cancel_pending_key, add_pending, add_active,
  resolve_pending,
}
use own_transit.Relay.Outcomes.{new_item}
use own_transit.Relay.Bucket.{admit_all, allow_open, admit_all_rate}
use own_transit.Relay.Steps.{
  Reach, here, next, installs, opens, joins, start, new_service, new_admission,
}
use own_transit.Relay.Quotas.{Inv}
use own_transit.Relay.Reachable.{Reach-start-Inv}
use own_transit.Relay.Races.{join_data-cancel, cancel_pending_item-join}
use own_transit.Relay.Fairness.{begin_pending_fair}

abbrev small : RelayLimits
small = record {
  carriers_global = 0;
  outer_handshakes = 4;
  pending_global = 8;
  pending_per_route = 4;
  pending_per_client = 0;
  active_global = 8;
  active_per_route = 4;
  active_per_client = 0;
  handshake = second;
  preface = second;
  join = second;
  drain = second;
  session_idle = 0;
  session_lifetime = 0;
}

small_valid : validate small ≡ ok tt
unfolding validate carrier_global minimum_carriers pending_per_client_value active_per_client_value
    session_idle_value session_lifetime_value
small_valid = refl

abbrev two_clients : ℕ → Bool
two_clients name = name == 1 || name == 2

abbrev connector : Control
connector = record { address = 100; route = 7; epoch = 3; pin = 9; conn = 40 }

abbrev idle : Service
idle = record (new_service small two_clients 0) { controls = update (λ r. none) 7 (some connector) }

abbrev first_item : Pending
first_item = new_item 1 7 5 50 1000 idle connector

abbrev waiting : Service
waiting = add_pending first_item idle

abbrev paired : Service
paired = resolve_pending first_item (some 41) (add_active first_item waiting)

opened : begin_pending 1 7 5 50 1000 idle ≡ some (connector, first_item, waiting)
unfolding begin_pending new_service pending_per_client_value find PendingKey-discrete
opened = refl

joined : join_data 41 first_item.key 9 1500 waiting ≡ some (first_item, paired)
unfolding join_data new_service add_pending active_per_client_value find PendingKey-discrete
joined = refl

reached : Reach (start small two_clients 0) (record { service = paired; joined = first_item ∷ [] })
unfolding install_control new_service
reached =
    next
      (next (next here (installs connector refl))
        (opens 1 7 5 50 1000 connector first_item _ opened refl))
      (joins 41 9 1500 first_item.key first_item _ joined refl)

Reach-start-Inv_example : Inv (first_item ∷ []) paired
Reach-start-Inv_example =
    Reach-start-Inv small two_clients 0 (record { service = paired; joined = first_item ∷ [] })
      reached

waiting-Inv : Inv [] waiting
unfolding install_control new_service
waiting-Inv =
    Reach-start-Inv small two_clients 0 (record { service = waiting; joined = [] })
      (next (next here (installs connector refl))
        (opens 1 7 5 50 1000 connector first_item _ opened refl))

join_data-cancel_example :
    (paired.resolved first_item.address ≡ some 41 ∷ [])
    × (cancel_pending_item first_item paired ≡ (paired, none))
    × (cancel_pending_key first_item.key paired ≡ (paired, none))
join_data-cancel_example =
    join_data-cancel 41 9 1500 first_item.key waiting paired first_item
      waiting-Inv.accounted.distinct waiting-Inv.channels joined

abbrev cancelled : Service
cancelled = resolve_pending first_item none waiting

timed_out : cancel_pending_item first_item waiting ≡ (cancelled, some 50)
unfolding cancel_pending_item add_pending find PendingKey-discrete new_service
timed_out = refl

cancel_pending_item-join_example :
    (cancelled.resolved first_item.address ≡ none ∷ [])
    × ((conn pin now : ℕ) → join_data conn first_item.key pin now cancelled ≡ none)
cancel_pending_item-join_example =
    cancel_pending_item-join first_item 50 waiting cancelled waiting-Inv.accounted.distinct
      waiting-Inv.channels timed_out

begin_pending_fair_example :
    begin_pending 2 7 6 51 2000 waiting
    ≡ some (
      connector,
      new_item 2 7 6 51 2000 waiting connector,
      add_pending (new_item 2 7 6 51 2000 waiting connector) waiting,
    )
unfolding add_pending new_service find PendingKey-discrete
begin_pending_fair_example =
    begin_pending_fair waiting 1 2 7 6 51 2000 (new_admission 0) connector waiting-Inv small_valid
      (omega arith) (λ e. absurd (omega arith)) refl refl refl refl

abbrev bucket : Admission
bucket = new_admission 0

-- Six carriers at once: four are admitted.
burst : (admit_all bucket (1 ∷ 1 ∷ 1 ∷ 1 ∷ 1 ∷ 1 ∷ [])).1 ≡ 4
unfolding admit_all allow_open
burst = refl

admit_all_rate_example :
    let r = admit_all bucket (1 ∷ 1 ∷ 1 ∷ 1 ∷ 1 ∷ []) in
    r.1 * second + r.0.open_credit + 0 ≤ 4 * second + r.0.last_open_refill
admit_all_rate_example = admit_all_rate bucket (1 ∷ 1 ∷ 1 ∷ 1 ∷ 1 ∷ []) (omega arith)

abbrev empty_bucket : Admission
empty_bucket = record bucket { open_credit = 0 }
