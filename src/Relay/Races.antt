-- ===== src/Relay/Races.antt =====
-- Who resolves a pending item when a join races with a timer, a failure or a CANCEL.
use own_transit.Prelude.{ℕ, ◌≡◌, subst, none, some, [], ◌∷◌, ==_refl, arith, inl, inr, Option-cases}
use own_transit.Prelude.Ledger.{find-key, find-remove_self}
use own_transit.Relay.{
  Pending, PendingKey, PendingKey-discrete, Service, resolve_pending, add_active, find_pending,
  join_data, cancel_pending_key, cancel_pending_item,
}
use own_transit.Relay.Cancels.{DistinctKeys}
use own_transit.Relay.Outcomes.{Joined, join_data-Joined}
use own_transit.Relay.Channels.{IsPrivate, found-Silent}

join_data-gone :
    {conn pin now : ℕ} {key : PendingKey} {s s' : Service} {item : Pending}
    → DistinctKeys s.pending
    → Joined conn key pin now s item s'
    → (find_pending item.key s'.pending ≡ none) × (find_pending key s'.pending ≡ none)
unfolding resolve_pending add_active
join_data-gone {key = key} {s = s} {s' = s'} {item = item} d j = (gone, same_key gone)
  where
    gone : find_pending item.key s'.pending ≡ none
    gone = rw j.after (find-remove_self _ PendingKey-discrete item.key s.pending d)

    same_key : find_pending item.key s'.pending ≡ none → find_pending key s'.pending ≡ none
    same_key =
        subst (λ k. find_pending k s'.pending ≡ none)
          (find-key _ PendingKey-discrete key s.pending item j.found)

join_data-message :
    {conn pin now : ℕ} {key : PendingKey} {s s' : Service} {item : Pending}
    → IsPrivate s
    → Joined conn key pin now s item s'
    → s'.resolved item.address ≡ some conn ∷ []
unfolding resolve_pending add_active
join_data-message {key = key} {s = s} {item = item} v j =
    rw (j.after, ==_refl item.address, found-Silent s.resolved key s.pending item j.found v.silent)

-- In a state with distinct keys and private channels a join wins: the item's channel then holds the connector and nothing else, and a timer or a failure
-- that comes later cancels nothing.
pub join_data-cancel :
    (conn pin now : ℕ) (key : PendingKey) (s s' : Service) (item : Pending)
    → DistinctKeys s.pending
    → IsPrivate s
    → join_data conn key pin now s ≡ some (item, s')
    → (s'.resolved item.address ≡ some conn ∷ [])
      × (cancel_pending_item item s' ≡ (s', none))
      × (cancel_pending_key key s' ≡ (s', none))
unfolding cancel_pending_item cancel_pending_key
join_data-cancel conn pin now key s s' item d v e = (
  join_data-message v j,
  rw ((join_data-gone d j).0, cancel_pending_item),
  rw ((join_data-gone d j).1, cancel_pending_key),
)
  where
    j : Joined conn key pin now s item s'
    j = join_data-Joined conn key pin now s e

cancel_pending_item_inv :
    (item : Pending) (client : ℕ) (s s' : Service)
    → cancel_pending_item item s ≡ (s', some client)
    → (current : Pending) × (find_pending item.key s.pending ≡ some current)
      × (current.address ≡ item.address)
      × (s' ≡ resolve_pending current none s)
unfolding cancel_pending_item
cancel_pending_item_inv item client s s' e = elim (Option-cases (find_pending item.key s.pending)) [
  | inl n ↦ absurd (ground arith)
  | inr (current, f) ↦ (current, f, ground arith, ground arith)
]

-- In a state with distinct keys and private channels a cancellation wins: the channel then holds the nil connector and nothing else, and no connector
-- can join under the item's key.
pub cancel_pending_item-join :
    (item : Pending) (client : ℕ) (s s' : Service)
    → DistinctKeys s.pending
    → IsPrivate s
    → cancel_pending_item item s ≡ (s', some client)
    → (s'.resolved item.address ≡ none ∷ [])
      × ((conn pin now : ℕ) → join_data conn item.key pin now s' ≡ none)
cancel_pending_item-join item client s s' d v e = (message, λ conn pin now. refused conn pin now)
  where
    won :
        (current : Pending) × (find_pending item.key s.pending ≡ some current)
        × (current.address ≡ item.address)
        × (s' ≡ resolve_pending current none s)
    won = cancel_pending_item_inv item client s s' e

    message : s'.resolved item.address ≡ none ∷ []
    message =
        rw (won.3, ← won.2)
          (unfold resolve_pending in
            rw (
              ==_refl won.0.address,
              found-Silent s.resolved item.key s.pending won.0 won.1 v.silent,
            ))

    gone : find_pending item.key s'.pending ≡ none
    gone =
        rw (won.3, ← find-key _ PendingKey-discrete item.key s.pending won.0 won.1)
          (unfold resolve_pending in find-remove_self _ PendingKey-discrete won.0.key s.pending d)

    refused : (conn pin now : ℕ) → join_data conn item.key pin now s' ≡ none
    refused conn pin now = unfold join_data in rw (gone, join_data)
