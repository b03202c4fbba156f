-- ===== src/Relay/Accounts.antt =====
-- The invariant of service.go: the counters agree with the items that they count, through every
-- operation.
use own_transit.Prelude.{ℕ, suc, ◌≡◌, ◌∙◌, Option, none, some, List, ◌∷◌, length, arith}
use own_transit.Prelude.Ledger.{count_if, count_if-remove, IsDistinct, remove-IsDistinct}
use own_transit.Relay.{
  Admission, Pending, PendingKey, PendingKey-discrete, Service, Control, resolve_pending,
  add_pending, add_active, find_pending, remove_pending, finish_active,
}
use own_transit.Relay.Cancels.{found-key}
use own_transit.Relay.Outcomes.{Begun, Joined}
use own_transit.Relay.Counting.{
  entry, on_route, of_client, pending_of, active_of, IsRemoval, increment-entry, decrement-entry,
  adjust_same, adjust-add, adjust-sub, pending_down, active_down, active-add_pending,
  active-sub_pending, pending-add_active, pending-sub_active,
}

-- The counters agree with the pending items and with the pairs that are joined and not finished, no
-- entry is kept for a route that has none, and no two pending items share a key.
pub record Accounted (joined : List Pending) (s : Service) : Type 0 where
  pub distinct : IsDistinct (λ item. item.key) PendingKey-discrete s.pending
  pub pending_routes : (r : ℕ) → s.pending_per_route r ≡ entry (count_if (on_route r) s.pending)
  pub pending_clients : (n : ℕ) → pending_of (s.admissions n) ≡ count_if (of_client n) s.pending
  pub active_routes : (r : ℕ) → s.active_per_route r ≡ entry (count_if (on_route r) joined)
  pub active_clients : (n : ℕ) → active_of (s.admissions n) ≡ count_if (of_client n) joined
  pub active_total : s.active_global ≡ length joined

pub remove_pending-IsRemoval :
    (item : Pending) (ps : List Pending)
    → find_pending item.key ps ≡ some item
    → IsRemoval item ps (remove_pending item.key ps)
remove_pending-IsRemoval item ps e p = count_if-remove _ PendingKey-discrete p item.key ps item e

pub resolve_pending-Accounted :
    {joined : List Pending} (item : Pending) (connector : Option ℕ) (s : Service)
    → find_pending item.key s.pending ≡ some item
    → Accounted joined s
    → Accounted joined (resolve_pending item connector s)
unfolding resolve_pending
resolve_pending-Accounted item connector s e v = record {
  distinct = remove-IsDistinct _ PendingKey-discrete item.key s.pending v.distinct;
  pending_routes = decrement-entry s.pending_per_route item s.pending _ gone v.pending_routes;
  pending_clients =
      adjust-sub pending_of _ s.admissions pending_down item s.pending _ gone v.pending_clients;
  active_routes = v.active_routes;
  active_clients = λ n.
      adjust_same active_of _ s.admissions active-sub_pending item.client_name n
      ∙ v.active_clients n;
  active_total = v.active_total;
}
  where
    gone : IsRemoval item s.pending (remove_pending item.key s.pending)
    gone = remove_pending-IsRemoval item s.pending e

-- The client of the item has a record.
abbrev IsAdmitted : Service → Pending → Type 0
IsAdmitted s item = (a : Admission) × (s.admissions item.client_name ≡ some a)

add_pending-Accounted :
    {joined : List Pending} (item : Pending) (s : Service)
    → find_pending item.key s.pending ≡ none
    → IsAdmitted s item
    → Accounted joined s
    → Accounted joined (add_pending item s)
unfolding add_pending
add_pending-Accounted item s fresh (a, known) v = record {
  distinct = (fresh, v.distinct);
  pending_routes = increment-entry s.pending_per_route item s.pending v.pending_routes;
  pending_clients =
      adjust-add pending_of _ s.admissions (λ a. omega arith) item a s.pending known
        v.pending_clients;
  active_routes = v.active_routes;
  active_clients = λ n.
      adjust_same active_of _ s.admissions active-add_pending item.client_name n
      ∙ v.active_clients n;
  active_total = v.active_total;
}

add_active-Accounted :
    {joined : List Pending} (item : Pending) (s : Service)
    → IsAdmitted s item
    → Accounted joined s
    → Accounted (item ∷ joined) (add_active item s)
unfolding add_active
add_active-Accounted {joined} item s (a, known) v = record {
  distinct = v.distinct;
  pending_routes = v.pending_routes;
  pending_clients = λ n.
      adjust_same pending_of _ s.admissions pending-add_active item.client_name n
      ∙ v.pending_clients n;
  active_routes = increment-entry s.active_per_route item joined v.active_routes;
  active_clients =
      adjust-add active_of _ s.admissions (λ a. omega arith) item a joined known v.active_clients;
  active_total = omega (arith, v.active_total);
}

-- A pair that ends gives its slots back.
pub finish_active-Accounted :
    {joined : List Pending} (item : Pending) (rest : List Pending) (s : Service)
    → IsRemoval item joined rest
    → length joined ≡ suc (length rest)
    → Accounted joined s
    → Accounted rest (finish_active item s)
unfolding finish_active
finish_active-Accounted {joined} item rest s gone shorter v = record {
  distinct = v.distinct;
  pending_routes = v.pending_routes;
  pending_clients = λ n.
      adjust_same pending_of _ s.admissions pending-sub_active item.client_name n
      ∙ v.pending_clients n;
  active_routes = decrement-entry s.active_per_route item joined rest gone v.active_routes;
  active_clients =
      adjust-sub active_of _ s.admissions active_down item joined rest gone v.active_clients;
  active_total = omega (arith, v.active_total);
}

pub controls-Accounted :
    {joined : List Pending} (s : Service) (c : ℕ → Option Control)
    → Accounted joined s
    → Accounted joined (record s { controls = c })
controls-Accounted s c v = record {
  distinct = v.distinct;
  pending_routes = v.pending_routes;
  pending_clients = v.pending_clients;
  active_routes = v.active_routes;
  active_clients = v.active_clients;
  active_total = v.active_total;
}

-- A new pending item is counted.
pub begin_pending-Accounted :
    {joined : List Pending} {name route session client now : ℕ} {s s' : Service} {c : Control}
    {item : Pending}
    → Begun name route session client now s c item s'
    → Accounted joined s
    → Accounted joined s'
begin_pending-Accounted b v =
    rw b.after (add_pending-Accounted _ _ b.fresh (b.admission, rw b.made b.admitted) v)

-- A join moves one item from the pending ones to the joined ones.
pub join_data-Accounted :
    {joined : List Pending} {conn pin now : ℕ} {key : PendingKey} {s s' : Service} {item : Pending}
    → Joined conn key pin now s item s'
    → Accounted joined s
    → Accounted (item ∷ joined) s'
unfolding add_active
join_data-Accounted {s = s} {item = item} j v = rw j.after (
    resolve_pending-Accounted item _ (add_active item s) (found-key _ item s j.found)
      (add_active-Accounted item s (j.admission, j.admitted) v))
