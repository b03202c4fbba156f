-- ===== src/Relay/Counting.antt =====
-- How the maps of counters of service.go follow a list of items that gains or loses one.
use own_transit.Prelude.{
  ℕ, zero, suc, ◌+◌, ◌-◌, ◌≡◌, refl, ap, sym, ◌∙◌, Bool, Option, none, some, List, ◌∷◌, ◌==◌,
  if◌then◌else◌, arith, inl, inr, Bool-cases, ==_iff,
}
use own_transit.Prelude.Ledger.{count_if}
use mathlib.Core.Option
use own_transit.Relay.{Admission, Counts, Pending, value_of, increment, decrement, adjust}

-- The entry that a map of counters holds for a count: none for 0.
abbrev pub entry : ℕ → Option ℕ
entry zero = none
entry (suc n) = some (suc n)

abbrev pub on_route : ℕ → Pending → Bool
on_route r item = item.key.route == r

abbrev pub of_client : ℕ → Pending → Bool
of_client n item = item.client_name == n

abbrev pub pending_of : Option Admission → ℕ
pending_of none = 0
pending_of (some a) = a.pending

abbrev pub active_of : Option Admission → ℕ
active_of none = 0
active_of (some a) = a.active

-- `ys` is `xs` without one occurrence of `x`, as far as counting goes.
abbrev pub IsRemoval : Pending → List Pending → List Pending → Type 0
IsRemoval x xs ys =
    (p : Pending → Bool) → count_if p xs ≡ (if p x then suc (count_if p ys) else count_if p ys)

pub value_of-entry : (n : ℕ) → value_of (entry n) ≡ n
value_of-entry zero = refl
value_of-entry (suc n) = refl

pub increment-entry :
    (m : Counts) (x : Pending) (xs : List Pending)
    → ((r : ℕ) → m r ≡ entry (count_if (on_route r) xs))
    → (r : ℕ) → increment m x.key.route r ≡ entry (count_if (on_route r) (x ∷ xs))
increment-entry m x xs h r = elim (Bool-cases (x.key.route == r)) [
  | inl e ↦
      let p : x.key.route ≡ r = (==_iff _ _).0 e in
      rw (e, p, h r, value_of-entry (count_if (on_route r) xs)) (ground arith)
  | inr e ↦ rw e (h r)
]

entry-pred : (n : ℕ) → (if suc n - 1 == 0 then none else some (suc n - 1)) ≡ entry n
entry-pred zero = ground arith
entry-pred (suc n) = ground arith

pub decrement-entry :
    (m : Counts) (x : Pending) (xs ys : List Pending)
    → IsRemoval x xs ys
    → ((r : ℕ) → m r ≡ entry (count_if (on_route r) xs))
    → (r : ℕ) → decrement m x.key.route r ≡ entry (count_if (on_route r) ys)
decrement-entry m x xs ys g h r = elim (Bool-cases (x.key.route == r)) [
  | inl e ↦
      let p : x.key.route ≡ r = (==_iff _ _).0 e in
      rw (e, p, h r, g (on_route r), e) (entry-pred (count_if (on_route r) ys))
  | inr e ↦ rw e (h r ∙ rw (g (on_route r), e))
]

abbrev pub add_pending_one : Admission → Admission
add_pending_one a = record a { pending = a.pending + 1 }

abbrev pub sub_pending_one : Admission → Admission
sub_pending_one a = record a { pending = a.pending - 1 }

abbrev pub add_active_one : Admission → Admission
add_active_one a = record a { active = a.active + 1 }

abbrev pub sub_active_one : Admission → Admission
sub_active_one a = record a { active = a.active - 1 }

-- A change of one client's record, read at any client.
module _ (get : Option Admission → ℕ) (f : Admission → Admission) (m : ℕ → Option Admission) where
  adjust_lem :
      (k n : ℕ) → get (adjust f k m n) ≡ (if k == n then get (Option.map f (m n)) else get (m n))
  adjust_lem k n = elim (Bool-cases (k == n)) [
    | inl t ↦ let p : k ≡ n = (==_iff k n).0 t in rw (t, p)
    | inr t ↦ rw t
  ]

  pub adjust_same :
      ((o : Option Admission) → get (Option.map f o) ≡ get o)
      → (k n : ℕ) → get (adjust f k m n) ≡ get (m n)
  adjust_same same k n = elim (Bool-cases (k == n)) [
    | inl t ↦ adjust_lem k n ∙ rw t (same (m n))
    | inr t ↦ rw t
  ]

  pub adjust-add :
      ((a : Admission) → get (some (f a)) ≡ suc (get (some a)))
      → (x : Pending) (a : Admission) (xs : List Pending) → m x.client_name ≡ some a
      → ((n : ℕ) → get (m n) ≡ count_if (of_client n) xs)
      → (n : ℕ) → get (adjust f x.client_name m n) ≡ count_if (of_client n) (x ∷ xs)
  adjust-add up x a xs e h n = elim (Bool-cases (x.client_name == n)) [
    | inl t ↦
        let p : x.client_name ≡ n = (==_iff _ n).0 t in
        rw (t, e) (up a ∙ ap suc (ap get (sym e) ∙ rw p (h n)))
    | inr t ↦ rw t (h n)
  ]

  pub adjust-sub :
      ((o : Option Admission) → get (Option.map f o) ≡ get o - 1)
      → (x : Pending) (xs ys : List Pending) → IsRemoval x xs ys
      → ((n : ℕ) → get (m n) ≡ count_if (of_client n) xs)
      → (n : ℕ) → get (adjust f x.client_name m n) ≡ count_if (of_client n) ys
  adjust-sub down x xs ys g h n = elim (Bool-cases (x.client_name == n)) [
    | inl t ↦
        adjust_lem x.client_name n ∙ rw t (down (m n) ∙ rw (h n, g (of_client n), t) (omega arith))
    | inr t ↦ adjust_lem x.client_name n ∙ rw t (h n ∙ rw (g (of_client n), t))
  ]

pub pending_down :
    (o : Option Admission) → pending_of (Option.map sub_pending_one o) ≡ pending_of o - 1
pending_down none = omega arith
pending_down (some a) = refl

pub active_down : (o : Option Admission) → active_of (Option.map sub_active_one o) ≡ active_of o - 1
active_down none = omega arith
active_down (some a) = refl

module _ (o : Option Admission) where
  pub active-add_pending : active_of (Option.map add_pending_one o) ≡ active_of o
  active-add_pending = ground arith

  pub active-sub_pending : active_of (Option.map sub_pending_one o) ≡ active_of o
  active-sub_pending = ground arith

  pub pending-add_active : pending_of (Option.map add_active_one o) ≡ pending_of o
  pending-add_active = ground arith

  pub pending-sub_active : pending_of (Option.map sub_active_one o) ≡ pending_of o
  pending-sub_active = ground arith
