-- ===== src/Relay/Within.antt =====
-- Quotas on lists of items: a total, a quota for each route and one for each client.
use own_transit.Prelude.{
  ℕ, ◌≤◌, ◌<◌, Bool, List, ◌∷◌, length, ◌==◌, arith, inl, inr, Bool-cases, ==_iff,
}
use own_transit.Prelude.Ledger.{count_if}
use own_transit.Limits.{RelayLimits, pending_per_client_value, active_per_client_value}
use own_transit.Relay.{Pending}
use own_transit.Relay.Counting.{on_route, of_client, IsRemoval}

-- A list of items keeps within a total, a quota for each route and one for each client.
pub record Within (total per_route per_client : ℕ) (items : List Pending) : Type 0 where
  pub all : length items ≤ total
  pub routes : (r : ℕ) → count_if (on_route r) items ≤ per_route
  pub clients : (n : ℕ) → count_if (of_client n) items ≤ per_client

abbrev pub PendingWithin : RelayLimits → List Pending → Type 0
PendingWithin l = Within l.pending_global l.pending_per_route (pending_per_client_value l)

abbrev pub ActiveWithin : RelayLimits → List Pending → Type 0
ActiveWithin l = Within l.active_global l.active_per_route (active_per_client_value l)

removal-le :
    (x : Pending) (xs ys : List Pending)
    → IsRemoval x xs ys
    → (p : Pending → Bool) → count_if p ys ≤ count_if p xs
removal-le x xs ys g p = elim (Bool-cases (p x)) [
  | inl t ↦ rw (g p, t) (omega arith)
  | inr t ↦ rw (g p, t) (omega arith)
]

pub Within-removal :
    {a b c : ℕ} (x : Pending) (xs ys : List Pending)
    → IsRemoval x xs ys
    → length ys ≤ length xs
    → Within a b c xs
    → Within a b c ys
Within-removal x xs ys g shorter w = record {
  all = omega arith;
  routes = λ r. omega (arith, removal-le x xs ys g (on_route r), w.routes r);
  clients = λ n. omega (arith, removal-le x xs ys g (of_client n), w.clients n);
}

pub Within-cons :
    {a b c : ℕ} (x : Pending) (xs : List Pending)
    → length xs < a
    → count_if (on_route x.key.route) xs < b
    → count_if (of_client x.client_name) xs < c
    → Within a b c xs
    → Within a b c (x ∷ xs)
Within-cons x xs p q r w = record {
  all = p;
  routes = λ k. elim (Bool-cases (x.key.route == k)) [
    | inl t ↦ rw t (rw ((==_iff x.key.route k).0 t) at q)
    | inr t ↦ rw t (w.routes k)
  ];
  clients = λ k. elim (Bool-cases (x.client_name == k)) [
    | inl t ↦ rw t (rw ((==_iff x.client_name k).0 t) at r)
    | inr t ↦ rw t (w.clients k)
  ];
}
