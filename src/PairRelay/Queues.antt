-- ===== src/PairRelay/Queues.antt =====
-- The queues of waiting legs: what they hold after a change, and how many legs there are in all.
use own_transit.Prelude.{
  ℕ, ◌+◌, ◌≡◌, ◌≢◌, refl, some, List, [], ◌∷◌, length, arith, inl, inr, Option-cases,
}
use own_transit.Prelude.Ledger.{
  find, remove, IsDistinct, find-remove_ne, find-remove_self, remove-IsDistinct,
}
use own_transit.PairRelay.{
  RouteKey, RouteKey-discrete, WaitingLeg, Entry, TokenClaims, legs_of, store, without_leg,
  take_first, was_claimed,
}

abbrev key_of : Entry → RouteKey
key_of e = e.key

abbrev pub DistinctRoutes : List Entry → Type 0
DistinctRoutes = IsDistinct key_of RouteKey-discrete

unfoldable pub total : List Entry → ℕ
total [] = 0
total (e ∷ es) = length e.legs + total es

total-remove :
    (key : RouteKey) (queue : List Entry)
    → total queue ≡ length (legs_of key queue) + total (remove key_of RouteKey-discrete key queue)
unfolding total find remove
total-remove key [] = refl
total-remove key (e ∷ es) = ground (arith, total-remove key es)

pub total-store :
    (key : RouteKey) (legs : List WaitingLeg) (queue : List Entry)
    → total (store key legs queue) + length (legs_of key queue) ≡ total queue + length legs
unfolding total
total-store key [] queue = ground (arith, total-remove key queue)
total-store key (leg ∷ legs) queue = ground (arith, total-remove key queue)

pub legs_of-store :
    (key : RouteKey) (legs : List WaitingLeg) (queue : List Entry)
    → DistinctRoutes queue
    → legs_of key (store key legs queue) ≡ legs
unfolding find
legs_of-store key [] queue d = ground (arith, find-remove_self key_of RouteKey-discrete key queue d)
legs_of-store key (leg ∷ legs) queue d = ground arith

pub legs_of-store_ne :
    (key other : RouteKey) (legs : List WaitingLeg) (queue : List Entry)
    → other ≢ key
    → legs_of other (store key legs queue) ≡ legs_of other queue
unfolding find
legs_of-store_ne key other [] queue h =
    ground (arith, find-remove_ne key_of RouteKey-discrete key other queue h)
legs_of-store_ne key other (leg ∷ legs) queue h =
    ground (arith, find-remove_ne key_of RouteKey-discrete key other queue h)

pub store-DistinctRoutes :
    (key : RouteKey) (legs : List WaitingLeg) (queue : List Entry)
    → DistinctRoutes queue
    → DistinctRoutes (store key legs queue)
store-DistinctRoutes key [] queue d = remove-IsDistinct key_of RouteKey-discrete key queue d
store-DistinctRoutes key (leg ∷ legs) queue d = (
  find-remove_self key_of RouteKey-discrete key queue d,
  remove-IsDistinct key_of RouteKey-discrete key queue d,
)

pub length-without_leg :
    (address : ℕ) (legs rest : List WaitingLeg)
    → without_leg address legs ≡ some rest
    → length legs ≡ length rest + 1
unfolding without_leg
length-without_leg address [] rest e = ground arith
length-without_leg address (leg ∷ legs) rest e = elim (Option-cases (without_leg address legs)) [
  | inl n ↦ ground arith
  | inr (others, q) ↦ ground (arith, length-without_leg address legs others q)
]

pub length-take_first :
    (now : ℕ) (claims : TokenClaims) (legs : List WaitingLeg)
    → let t = take_first now claims legs in
      length legs ≡ length t.closed + was_claimed t.claimed + length t.left
unfolding take_first
length-take_first now claims [] = refl
length-take_first now claims (leg ∷ legs) = ground (arith, length-take_first now claims legs)
