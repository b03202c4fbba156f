-- ===== src/Relay/Outcomes.antt =====
-- What `beginPending` and `joinData` have found when they succeed.
use own_transit.Prelude.{ℕ, ◌+◌, ◌≡◌, false, none, some, arith, Option-cases, Bool-cases, inl, inr}
use own_transit.Relay.{
  Admission, Pending, PendingKey, Service, Control, resolve_pending, add_pending, add_active,
  find_pending, begin_pending, join_data, pending_full, join_refused,
}

module _ (name route session client now : ℕ) (s : Service) where
  -- The item that `beginPending` makes for this control.
  abbrev pub new_item : Control → Pending
  new_item c = record {
    address = s.allocated;
    key = record { route = route; epoch = c.epoch; session = session };
    control = c;
    connector_pin = c.pin;
    client_name = name;
    client = client;
    deadline = now + s.limits.join;
  }

  pub record Begun (c : Control) (item : Pending) (s' : Service) : Type 0 where
    pub admission : Admission
    pub admitted : s.admissions name ≡ some admission
    pub control : s.controls route ≡ some c
    pub made : item ≡ new_item c
    pub room : pending_full s admission route ≡ false
    pub fresh : find_pending item.key s.pending ≡ none
    pub after : s' ≡ add_pending item s

  pub begin_pending-Begun :
      {c : Control} {item : Pending} {s' : Service}
      → begin_pending name route session client now s ≡ some (c, item, s')
      → Begun c item s'
  unfolding begin_pending
  begin_pending-Begun {c} {item} {s'} e = elim (Option-cases (s.admissions name)) [
    | inl n ↦ ground arith
    | inr (a, ea) ↦ elim (Option-cases (s.controls route)) [
      | inl n ↦ ground arith
      | inr (c', ec) ↦ elim (Bool-cases (pending_full s a route)) [
        | inl n ↦ ground arith
        | inr room ↦ elim (Option-cases (find_pending (new_item c').key s.pending)) [
          | inr (x, n) ↦ ground arith
          | inl fresh ↦ record {
            admission = a;
            admitted = ea;
            control = ground arith;
            made = ground arith;
            room = room;
            fresh = ground arith;
            after = ground arith;
          }
        ]
      ]
    ]
  ]

module _ (conn : ℕ) (key : PendingKey) (pin now : ℕ) (s : Service) where
  pub record Joined (item : Pending) (s' : Service) : Type 0 where
    pub found : find_pending key s.pending ≡ some item
    pub current : Control
    pub control : s.controls key.route ≡ some current
    pub admission : Admission
    pub admitted : s.admissions item.client_name ≡ some admission
    pub allowed : join_refused s key pin now item current admission ≡ false
    pub after : s' ≡ resolve_pending item (some conn) (add_active item s)

  pub join_data-Joined :
      {item : Pending} {s' : Service}
      → join_data conn key pin now s ≡ some (item, s')
      → Joined item s'
  unfolding join_data
  join_data-Joined {item} {s'} e = elim (Option-cases (find_pending key s.pending)) [
    | inl n ↦ ground arith
    | inr (x, ex) ↦ elim (Option-cases (s.controls key.route)) [
      | inl n ↦ ground arith
      | inr (c, ec) ↦ elim (Option-cases (s.admissions x.client_name)) [
        | inl n ↦ ground arith
        | inr (a, ea) ↦ elim (Bool-cases (join_refused s key pin now x c a)) [
          | inl n ↦ ground arith
          | inr fine ↦ record {
            found = ground arith;
            current = c;
            control = ec;
            admission = a;
            admitted = ground arith;
            allowed = ground arith;
            after = ground arith;
          }
        ]
      ]
    ]
  ]
