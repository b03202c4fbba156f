-- ===== src/Relay/Fairness.antt =====
-- What a validated configuration makes of the quotas: one client cannot take every slot.
use own_transit.Prelude.{
  ℕ, ◌+◌, ◌≤◌, ◌<◌, ◌≡◌, ◌≢◌, sym, ap, ◌∙◌, false, none, some, List, [], ◌∷◌, length, ok, arith,
}
use own_transit.Prelude.Ledger.{count_if, count_if-le-length}
use own_transit.Limits.{validate}
use own_transit.Limits.Fairness.{IsFair, validate-IsFair}
use own_transit.Relay.{
  Admission, Control, Pending, Service, begin_pending, add_pending, find_pending, pending_full,
}
use own_transit.Relay.Counting.{on_route, of_client, pending_of}
use own_transit.Relay.Outcomes.{new_item}
use own_transit.Relay.Quotas.{Inv, route_count}

-- An item belongs to one client.
two_clients :
    (n m : ℕ) (items : List Pending)
    → m ≢ n
    → count_if (of_client n) items + count_if (of_client m) items ≤ length items
two_clients n m [] h = omega arith
two_clients n m (x ∷ xs) h = ground (arith, two_clients n m xs h)

room_for :
    {joined : List Pending} (s : Service) (n m route : ℕ) (a : Admission)
    → Inv joined s
    → IsFair s.limits
    → 1 < s.limits.pending_per_route
    → m ≢ n
    → count_if (of_client n) s.pending ≡ length s.pending
    → s.admissions m ≡ some a
    → pending_full s a route ≡ false
room_for s n m route a v fair two apart all known =
    let mine : a.pending ≡ count_if (of_client m) s.pending =
      ap pending_of (sym known) ∙ v.accounted.pending_clients m in
    ground (
      arith,
      mine,
      two_clients n m s.pending apart,
      v.pending.clients n,
      fair.pending_reserved,
      fair.pending_routes,
      fair.pending_positive,
      count_if-le-length (on_route route) s.pending,
      route_count s.pending_per_route s.pending route v.accounted.pending_routes,
    )

-- In a state where the invariant holds, while only one client has pending items, any other configured
-- client that asks for a route with a control under a free key gets its item, if the limits validate
-- and a route has more than one slot.
pub begin_pending_fair :
    {joined : List Pending} (s : Service) (n m route session client now : ℕ) (a : Admission)
    (c : Control)
    → Inv joined s
    → validate s.limits ≡ ok tt
    → 1 < s.limits.pending_per_route
    → m ≢ n
    → count_if (of_client n) s.pending ≡ length s.pending
    → s.admissions m ≡ some a
    → s.controls route ≡ some c
    → find_pending (record { route = route; epoch = c.epoch; session = session }) s.pending ≡ none
    → begin_pending m route session client now s
      ≡ some (
        c,
        new_item m route session client now s c,
        add_pending (new_item m route session client now s c) s,
      )
unfolding begin_pending
begin_pending_fair s n m route session client now a c v valid two apart all known control fresh =
    rw (
      known,
      begin_pending,
      control,
      room_for s n m route a v (validate-IsFair s.limits valid) two apart all known,
      fresh,
    )
