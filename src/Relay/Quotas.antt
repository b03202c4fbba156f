-- ===== src/Relay/Quotas.antt =====
-- The limits of the relay hold in every state that it reaches.
use own_transit.Prelude.{
  ℕ, ◌<◌, ◌≡◌, ap, sym, subst, ◌∙◌, Option, none, some, List, ◌∷◌, length, arith,
}
use own_transit.Prelude.Ledger.{find-key, count_if, length-remove}
use own_transit.Limits.{pending_per_client_value, active_per_client_value}
use own_transit.Relay.{
  Pending, PendingKey, PendingKey-discrete, Service, Control, resolve_pending, add_pending,
  add_active, find_pending, value_of,
}
use own_transit.Relay.Counting.{entry, on_route, of_client, pending_of, active_of, value_of-entry}
use own_transit.Relay.Outcomes.{Begun, Joined}
use own_transit.Relay.Accounts.{
  Accounted, remove_pending-IsRemoval, resolve_pending-Accounted, controls-Accounted,
  begin_pending-Accounted, join_data-Accounted,
}
use own_transit.Relay.Cancels.{found-key}
use own_transit.Relay.Channels.{
  IsPrivate, resolve_pending-IsPrivate, add_pending-IsPrivate, controls-IsPrivate,
}
use own_transit.Relay.Within.{PendingWithin, ActiveWithin, Within-removal, Within-cons}

-- The invariant of the relay's tables: the counters count, every quota is kept, and every channel is
-- written at most once.
pub record Inv (joined : List Pending) (s : Service) : Type 0 where
  pub accounted : Accounted joined s
  pub pending : PendingWithin s.limits s.pending
  pub active : ActiveWithin s.limits joined
  pub channels : IsPrivate s

pub resolve_pending-Inv :
    {joined : List Pending} (item : Pending) (s : Service)
    → find_pending item.key s.pending ≡ some item
    → Inv joined s
    → Inv joined (resolve_pending item none s)
resolve_pending-Inv {joined} item s e v = record {
  accounted = resolve_pending-Accounted item none s e v.accounted;
  pending =
      unfold resolve_pending in
      Within-removal item s.pending _ (remove_pending-IsRemoval item s.pending e)
        (omega (arith, length-remove _ PendingKey-discrete item.key s.pending item e)) v.pending;
  active = unfold resolve_pending in v.active;
  channels = resolve_pending-IsPrivate item none s e v.channels;
}

pub controls-Inv :
    {joined : List Pending} (s : Service) (c : ℕ → Option Control)
    → Inv joined s
    → Inv joined (record s { controls = c })
controls-Inv s c v = record {
  accounted = controls-Accounted s c v.accounted;
  pending = v.pending;
  active = v.active;
  channels = controls-IsPrivate s c v.channels;
}

-- The tests of the counters are tests of what they count.
pub route_count :
    (m : ℕ → Option ℕ) (xs : List Pending) (r : ℕ)
    → ((k : ℕ) → m k ≡ entry (count_if (on_route k) xs))
    → value_of (m r) ≡ count_if (on_route r) xs
route_count m xs r h = rw (h r) (value_of-entry (count_if (on_route r) xs))

pub begin_pending-room :
    {joined : List Pending} {name route session client now : ℕ} {s s' : Service} {c : Control}
    {item : Pending}
    → Begun name route session client now s c item s'
    → Accounted joined s
    → (length s.pending < s.limits.pending_global)
      × (count_if (on_route route) s.pending < s.limits.pending_per_route)
      × (count_if (of_client name) s.pending < pending_per_client_value s.limits)
begin_pending-room {name = name} {route = route} {s = s} b v =
    let client_count : b.admission.pending ≡ count_if (of_client name) s.pending =
      ap pending_of (sym b.admitted) ∙ v.pending_clients name in
    ground (
      arith,
      b.room,
      client_count,
      route_count s.pending_per_route s.pending route v.pending_routes,
    )

pub begin_pending-Inv :
    {joined : List Pending} {name route session client now : ℕ} {s s' : Service} {c : Control}
    {item : Pending}
    → Begun name route session client now s c item s'
    → Inv joined s
    → Inv joined s'
begin_pending-Inv {s = s} {item = item} b v =
    let (total, routes, clients) = begin_pending-room b v.accounted in
    record {
      accounted = begin_pending-Accounted b v.accounted;
      pending = rw b.after (
          unfold add_pending in
          Within-cons item s.pending total (rw b.made routes) (rw b.made clients) v.pending);
      active = rw b.after (unfold add_pending in v.active);
      channels = rw b.after (add_pending-IsPrivate item s (rw b.made) v.channels);
    }

join_data-room :
    {joined : List Pending} {conn pin now : ℕ} {key : PendingKey} {s s' : Service} {item : Pending}
    → Joined conn key pin now s item s'
    → Accounted joined s
    → (length joined < s.limits.active_global)
      × (count_if (on_route key.route) joined < s.limits.active_per_route)
      × (count_if (of_client item.client_name) joined < active_per_client_value s.limits)
join_data-room {joined} {key = key} {s = s} {item = item} j v =
    let client_count : j.admission.active ≡ count_if (of_client item.client_name) joined =
      ap active_of (sym j.admitted) ∙ v.active_clients item.client_name in
    ground (
      arith,
      j.allowed,
      client_count,
      v.active_total,
      route_count s.active_per_route joined key.route v.active_routes,
    )

add_active-IsPrivate : (item : Pending) (s : Service) → IsPrivate s → IsPrivate (add_active item s)
unfolding add_active
add_active-IsPrivate item s v = record { ordered = v.ordered; silent = v.silent; once = v.once }

pub join_data-Inv :
    {joined : List Pending} {conn pin now : ℕ} {key : PendingKey} {s s' : Service} {item : Pending}
    → Joined conn key pin now s item s'
    → Inv joined s
    → Inv (item ∷ joined) s'
join_data-Inv {joined} {conn} {key = key} {s = s} {item = item} j v =
    let (total, routes, clients) = join_data-room j v.accounted in
    let found : find_pending item.key s.pending ≡ some item = found-key key item s j.found in
    let same : item.key ≡ key = find-key _ PendingKey-discrete key s.pending item j.found in
    record {
      accounted = join_data-Accounted j v.accounted;
      pending = rw j.after (
          unfold resolve_pending add_active in
          Within-removal item s.pending _ (remove_pending-IsRemoval item s.pending found)
            (omega (arith, length-remove _ PendingKey-discrete item.key s.pending item found))
            v.pending);
      active = rw j.after (
          unfold resolve_pending add_active in
          Within-cons item joined total
            (subst (λ k. count_if (on_route k) joined < s.limits.active_per_route)
              (ap (λ (k : PendingKey). k.route) (sym same)) routes)
            clients v.active);
      channels = rw j.after (
          resolve_pending-IsPrivate item (some conn) (add_active item s)
            (unfold add_active in found) (add_active-IsPrivate item s v.channels));
    }
