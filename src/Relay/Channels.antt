-- ===== src/Relay/Channels.antt =====
-- The channels of the pending items: one that waits has sent nothing, and none sends twice.
use own_transit.Prelude.{
  ℕ, ◌≤◌, ◌<◌, ◌≡◌, false, Option, some, List, [], ◌∷◌, length, All, ◌==◌, ==_refl, arith, inl, inr,
  Bool-cases,
}
use own_transit.Prelude.Ledger.{find, remove}
use own_transit.Relay.{
  Pending, PendingKey, PendingKey-discrete, Service, Control, resolve_pending, add_pending,
  find_pending, remove_pending, update,
}
use mathlib.Core.Logic.{if_pos, if_neg}

-- Addresses fall along the list, newest first, and stay below the next one.
abbrev pub Below : ℕ → List Pending → Type 0
Below n [] = Unit {0}
Below n (x ∷ xs) = (x.address < n) × Below x.address xs

abbrev pub Silent : (ℕ → List (Option ℕ)) → List Pending → Type 0
Silent channel = All (λ item. channel item.address ≡ [])

-- The channel of an item that waits is empty, and no channel ever holds two messages.
pub record IsPrivate (s : Service) : Type 0 where
  pub ordered : Below s.allocated s.pending
  pub silent : Silent s.resolved s.pending
  pub once : (address : ℕ) → length (s.resolved address) ≤ 1

Below-mono : (m n : ℕ) (xs : List Pending) → m ≤ n → Below m xs → Below n xs
Below-mono m n [] h b = tt
Below-mono m n (x ∷ xs) h b = (omega arith, b.1)

find-Below :
    (n : ℕ) (k : PendingKey) (xs : List Pending) (x : Pending)
    → Below n xs
    → find_pending k xs ≡ some x
    → x.address < n
unfolding find
find-Below n k [] x b e = cc
find-Below n k (y ∷ ys) x b e = ground (arith, find-Below y.address k ys x b.1)

remove-Below :
    (n : ℕ) (k : PendingKey) (xs : List Pending) → Below n xs → Below n (remove_pending k xs)
unfolding remove
remove-Below n k [] b = tt
remove-Below n k (y ∷ ys) b =
    ground (arith, remove-Below y.address k ys b.1, Below-mono y.address n ys)

-- A write to a channel at or above the bound is not seen below it.
Silent-update :
    (channel : ℕ → List (Option ℕ)) (a : ℕ) (v : List (Option ℕ)) (xs : List Pending)
    → Below a xs
    → Silent channel xs
    → Silent (update channel a v) xs
Silent-update channel a v [] b h = tt
Silent-update channel a v (x ∷ xs) b h =
    let apart : (a == x.address) ≡ false = ground arith in
    (rw apart h.0, Silent-update channel a v xs (Below-mono x.address a xs (omega arith) b.1) h.1)

Silent-remove :
    (channel : ℕ → List (Option ℕ)) (n : ℕ) (k : PendingKey) (item : Pending) (v : List (Option ℕ))
    (xs : List Pending)
    → Below n xs
    → find_pending k xs ≡ some item
    → Silent channel xs
    → Silent (update channel item.address v) (remove_pending k xs)
unfolding find remove
Silent-remove channel n k item v [] b e h = tt
Silent-remove channel n k item v (y ∷ ys) b e h = elim (PendingKey-discrete y.key k) [
  | yes hit ↦ rw (if_pos (PendingKey-discrete y.key k) hit ys (y ∷ remove_pending k ys)) (
      Silent-update channel item.address v ys
        (Below-mono y.address item.address ys (ground arith) b.1) h.1)
  | no miss ↦
      let found : find_pending k ys ≡ some item =
        rw (if_neg (PendingKey-discrete y.key k) miss (some y) (find_pending k ys)) at e in
      let apart : (item.address == y.address) ≡ false =
        ground (arith, find-Below y.address k ys item b.1 found) in
      rw (if_neg (PendingKey-discrete y.key k) miss ys (y ∷ remove_pending k ys))
        (rw apart h.0, Silent-remove channel y.address k item v ys b.1 found h.1)
]

pub found-Silent :
    (channel : ℕ → List (Option ℕ)) (k : PendingKey) (xs : List Pending) (item : Pending)
    → find_pending k xs ≡ some item
    → Silent channel xs
    → channel item.address ≡ []
unfolding find
found-Silent channel k [] item e h = cc
found-Silent channel k (y ∷ ys) item e h = ground (arith, found-Silent channel k ys item)

pub resolve_pending-IsPrivate :
    (item : Pending) (connector : Option ℕ) (s : Service)
    → find_pending item.key s.pending ≡ some item
    → IsPrivate s
    → IsPrivate (resolve_pending item connector s)
unfolding resolve_pending
resolve_pending-IsPrivate item connector s e v = record {
  ordered = remove-Below s.allocated item.key s.pending v.ordered;
  silent = Silent-remove s.resolved s.allocated item.key item _ s.pending v.ordered e v.silent;
  once = λ a. elim (Bool-cases (item.address == a)) [
    | inl t ↦ rw (t, found-Silent s.resolved item.key s.pending item e v.silent) (omega arith)
    | inr t ↦ rw t (v.once a)
  ];
}

pub add_pending-IsPrivate :
    (item : Pending) (s : Service)
    → item.address ≡ s.allocated
    → IsPrivate s
    → IsPrivate (add_pending item s)
unfolding add_pending
add_pending-IsPrivate item s e v = record {
  ordered = (omega arith, Below-mono s.allocated item.address s.pending (omega arith) v.ordered);
  silent = (
    rw (==_refl item.address),
    Silent-update s.resolved item.address [] s.pending
        (Below-mono s.allocated item.address s.pending (omega arith) v.ordered) v.silent,
  );
  once = λ a. elim (Bool-cases (item.address == a)) [
    | inl t ↦ rw t (omega arith)
    | inr t ↦ rw t (v.once a)
  ];
}

pub controls-IsPrivate :
    (s : Service) (c : ℕ → Option Control) → IsPrivate s → IsPrivate (record s { controls = c })
controls-IsPrivate s c v = record { ordered = v.ordered; silent = v.silent; once = v.once }
