-- ===== src/Relay/Cancels.antt =====
-- Every way to cancel pending items, and the exchange of controls, keeps what one resolution keeps.
use own_transit.Prelude.{
  ℕ, ◌≡◌, sym, subst, Bool, Option, none, some, List, [], ◌∷◌, ◌==◌, Option-cases, Bool-cases, inl,
  inr,
}
use own_transit.Prelude.Ledger.{
  find-key, select, IsDistinct, AllFound, AllFound-remove, select-AllFound, select-IsDistinct,
}
use own_transit.Relay.{
  Pending, PendingKey, PendingKey-discrete, Service, Control, resolve_pending, find_pending,
  resolve_all, cancel_pending_key, cancel_pending_item, install_control, remove_control, waits_for,
}

abbrev pub DistinctKeys : List Pending → Type 0
DistinctKeys = IsDistinct (λ item. item.key) PendingKey-discrete

pub found-key :
    (key : PendingKey) (item : Pending) (s : Service)
    → find_pending key s.pending ≡ some item
    → find_pending item.key s.pending ≡ some item
found-key key item s e =
    subst (λ k. find_pending k s.pending ≡ some item)
      (sym (find-key _ PendingKey-discrete key s.pending item e)) e

module _ {ℓ} (P : Service → Type ℓ) (distinct : (s : Service) → P s → DistinctKeys s.pending)
    (resolves : (item : Pending) (s : Service)
      → find_pending item.key s.pending ≡ some item
      → P s
      → P (resolve_pending item none s))
    (controls : (s : Service) (c : ℕ → Option Control) → P s → P (record s { controls = c })) where
  resolve_all-keeps :
      (items : List Pending) (s : Service)
      → DistinctKeys items
      → AllFound (λ item. item.key) PendingKey-discrete items s.pending
      → P s
      → P (resolve_all items s)
  unfolding resolve_all
  resolve_all-keeps [] s d f v = v
  resolve_all-keeps (item ∷ items) s d f v =
      resolve_all-keeps items (resolve_pending item none s) d.1
        (unfold resolve_pending in
          AllFound-remove _ PendingKey-discrete item.key items s.pending d.0 f.1)
        (resolves item s f.0 v)

  sweep-keeps : (p : Pending → Bool) (s : Service) → P s → P (resolve_all (select p s.pending) s)
  sweep-keeps p s v =
      resolve_all-keeps (select p s.pending) s
        (select-IsDistinct _ PendingKey-discrete p s.pending (distinct s v))
        (select-AllFound _ PendingKey-discrete p s.pending (distinct s v)) v

  pub install_control-keeps :
      (current : Control) (s : Service) → P s → P (install_control current s).0
  unfolding install_control
  install_control-keeps current s v = elim (Option-cases (s.controls current.route)) [
    | inl e ↦ rw (e, install_control) (controls s _ v)
    | inr (old, e) ↦
        rw (e, install_control) (sweep-keeps (waits_for old current.route) _ (controls s _ v))
  ]

  pub remove_control-keeps :
      (current : Control) (s : Service) → P s → P (remove_control current s).0
  unfolding remove_control
  remove_control-keeps current s v = elim (Option-cases (s.controls current.route)) [
    | inl e ↦ rw (e, remove_control) v
    | inr (installed, e) ↦ elim (Bool-cases (installed.address == current.address)) [
      | inl t ↦
          rw (e, remove_control, t)
            (sweep-keeps (waits_for current current.route) _ (controls s _ v))
      | inr t ↦ rw (e, remove_control, t) v
    ]
  ]

  pub cancel_pending_key-keeps :
      (key : PendingKey) (s : Service) → P s → P (cancel_pending_key key s).0
  unfolding cancel_pending_key
  cancel_pending_key-keeps key s v = elim (Option-cases (find_pending key s.pending)) [
    | inl e ↦ rw (e, cancel_pending_key) v
    | inr (item, e) ↦ rw (e, cancel_pending_key) (resolves item s (found-key key item s e) v)
  ]

  pub cancel_pending_item-keeps :
      (item : Pending) (s : Service) → P s → P (cancel_pending_item item s).0
  unfolding cancel_pending_item
  cancel_pending_item-keeps item s v = elim (Option-cases (find_pending item.key s.pending)) [
    | inl e ↦ rw (e, cancel_pending_item) v
    | inr (current, e) ↦ elim (Bool-cases (current.address == item.address)) [
      | inl t ↦
          rw (e, cancel_pending_item, t) (resolves current s (found-key item.key current s e) v)
      | inr t ↦ rw (e, cancel_pending_item, t) v
    ]
  ]
