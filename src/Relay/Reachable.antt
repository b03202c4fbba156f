-- ===== src/Relay/Reachable.antt =====
-- What holds in every state that the relay reaches, whatever the order of its critical sections.
use own_transit.Prelude.{ℕ, suc, ◌≡◌, refl, ◌∙◌, Bool, some, List, [], length, arith, ℕ_discrete}
use own_transit.Prelude.Ledger.{find, remove, count_if-remove, length-remove}
use own_transit.Limits.{RelayLimits}
use own_transit.Relay.{Pending, Service, finish_active}
use own_transit.Relay.Counting.{IsRemoval}
use own_transit.Relay.Outcomes.{begin_pending-Begun, join_data-Joined}
use own_transit.Relay.Accounts.{finish_active-Accounted}
use own_transit.Relay.Cancels.{
  cancel_pending_key-keeps, cancel_pending_item-keeps, install_control-keeps, remove_control-keeps,
  DistinctKeys,
}
use own_transit.Relay.Within.{Within-removal}
use own_transit.Relay.Bucket.{
  consume_client_carrier, carrier_tables, carrier_pending, carrier_active,
}
use own_transit.Relay.Steps.{
  System, Step, Reach, opens, cancels_key, cancels_item, installs, removes, joins, finishes,
  charges, here, next, start, new_service, by_address,
}
use own_transit.Relay.Quotas.{
  Inv, resolve_pending-Inv, controls-Inv, begin_pending-Inv, join_data-Inv,
}

finish_active-Inv :
    {joined : List Pending} (address : ℕ) (item : Pending) (s : Service)
    → find by_address ℕ_discrete address joined ≡ some item
    → Inv joined s
    → Inv (remove by_address ℕ_discrete address joined) (finish_active item s)
finish_active-Inv {joined} address item s e v = record {
  accounted = finish_active-Accounted item _ s gone shorter v.accounted;
  pending = unfold finish_active in v.pending;
  active =
      unfold finish_active in Within-removal item joined _ gone (omega (arith, shorter)) v.active;
  channels =
      unfold finish_active in
      record { ordered = v.channels.ordered; silent = v.channels.silent; once = v.channels.once };
}
  where
    gone : IsRemoval item joined (remove by_address ℕ_discrete address joined)
    gone p = count_if-remove by_address ℕ_discrete p address joined item e

    shorter : length joined ≡ suc (length (remove by_address ℕ_discrete address joined))
    shorter = length-remove by_address ℕ_discrete address joined item e

charge-Inv :
    {joined : List Pending} (name now : ℕ) (s : Service)
    → Inv joined s
    → Inv joined (consume_client_carrier name now s).0
charge-Inv name now s v = rw (carrier_tables name now s) (record {
  accounted = record {
    distinct = v.accounted.distinct;
    pending_routes = v.accounted.pending_routes;
    pending_clients = λ n. carrier_pending name now s n ∙ v.accounted.pending_clients n;
    active_routes = v.accounted.active_routes;
    active_clients = λ n. carrier_active name now s n ∙ v.accounted.active_clients n;
    active_total = v.accounted.active_total;
  };
  pending = v.pending;
  active = v.active;
  channels = record {
    ordered = v.channels.ordered;
    silent = v.channels.silent;
    once = v.channels.once;
  };
})

distinct : {joined : List Pending} (s : Service) → Inv joined s → DistinctKeys s.pending
distinct s v = v.accounted.distinct

Step-Inv : (t u : System) → Step t u → Inv t.joined t.service → Inv u.joined u.service
Step-Inv t u (opens name route session client now c item s e q) v =
    rw q (begin_pending-Inv (begin_pending-Begun name route session client now t.service e) v)
Step-Inv t u (cancels_key key q) v = rw q (
    cancel_pending_key-keeps (Inv t.joined) distinct resolve_pending-Inv controls-Inv key t.service
      v)
Step-Inv t u (cancels_item item q) v = rw q (
    cancel_pending_item-keeps (Inv t.joined) distinct resolve_pending-Inv controls-Inv item
      t.service v)
Step-Inv t u (installs c q) v =
    rw q
      (install_control-keeps (Inv t.joined) distinct resolve_pending-Inv controls-Inv c t.service v)
Step-Inv t u (removes c q) v =
    rw q
      (remove_control-keeps (Inv t.joined) distinct resolve_pending-Inv controls-Inv c t.service v)
Step-Inv t u (joins conn pin now key item s e q) v =
    rw q (join_data-Inv (join_data-Joined conn key pin now t.service e) v)
Step-Inv t u (finishes address item e q) v = rw q (finish_active-Inv address item t.service e v)
Step-Inv t u (charges name now q) v = rw q (charge-Inv name now t.service v)

start-Inv : (l : RelayLimits) (clients : ℕ → Bool) (now : ℕ) → Inv [] (new_service l clients now)
unfolding new_service
start-Inv l clients now = record {
  accounted = record {
    distinct = tt;
    pending_routes = λ r. refl;
    pending_clients = λ n. ground arith;
    active_routes = λ r. refl;
    active_clients = λ n. ground arith;
    active_total = refl;
  };
  pending = record { all = omega arith; routes = λ r. omega arith; clients = λ n. omega arith };
  active = record { all = omega arith; routes = λ r. omega arith; clients = λ n. omega arith };
  channels = record { ordered = tt; silent = tt; once = λ a. omega arith };
}

Reach-Inv : {s t : System} → Inv s.joined s.service → Reach s t → Inv t.joined t.service
Reach-Inv v here = v
Reach-Inv v (next {t = t} {u = u} r st) = Step-Inv t u st (Reach-Inv v r)

-- In every state that a new relay reaches, the counters agree with the tables, the pending clients and
-- the joined pairs keep within every limit in total, on each route and for each client, no two pending
-- items share a key, and each item's channel holds at most one message, none while the item is pending.
pub Reach-start-Inv :
    (l : RelayLimits) (clients : ℕ → Bool) (now : ℕ) (t : System)
    → Reach (start l clients now) t
    → Inv t.joined t.service
Reach-start-Inv l clients now t r = Reach-Inv (start-Inv l clients now) r
