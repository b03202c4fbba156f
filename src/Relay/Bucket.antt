-- ===== src/Relay/Bucket.antt =====
-- The OPEN rate of one client: `allowOpen` and `consumeClientCarrier` of internal/relay/service.go.
-- Times and credits are nanoseconds.
use own_transit.Prelude.{
  ℕ, suc, ◌+◌, ◌-◌, ◌*◌, ◌≤◌, ◌≡◌, Bool, true, false, ◌||◌, Option, none, some, List, [], ◌∷◌, ltb,
  leb, if◌then◌else◌, arith, Option-cases, inl, inr, Bool-cases, ==_iff, ◌==◌, sym, ap, ◌∙◌,
}
use own_transit.Relay.Counting.{pending_of, active_of}
use own_transit.Limits.{second}
use own_transit.Relay.{Admission, Service, update}

abbrev pub client_open_burst : ℕ
client_open_burst = 4

abbrev pub client_open_capacity : ℕ
client_open_capacity = client_open_burst * second

-- `now.Sub(last) > 0` holds exactly if `last` lies before `now`.
pub refill : Admission → ℕ → Admission
refill a now =
    if ltb a.last_open_refill now
    then (let elapsed = now - a.last_open_refill in
        let missing = client_open_capacity - a.open_credit in
        record a {
          open_credit =
              if leb missing 0 || leb missing elapsed
              then client_open_capacity
              else a.open_credit + elapsed;
          last_open_refill = now;
        })
    else a

pub spend : Admission → Admission × Bool
spend a =
    if ltb a.open_credit second
    then (a, false)
    else (record a { open_credit = a.open_credit - second }, true)

unfoldable pub allow_open : Admission → ℕ → Admission × Bool
unfolding refill spend
allow_open a now = spend (refill a now)

-- An unknown name is refused and adds no entry.
pub consume_client_carrier : ℕ → ℕ → Service → Service × Bool
consume_client_carrier name now s = elim (s.admissions name) [
  | none ↦ (s, false)
  | some a ↦
      let (a', allowed) = allow_open a now in
      (record s { admissions = update s.admissions name (some a') }, allowed)
]

-- Charging a carrier changes one bucket and nothing else.
pub carrier_tables :
    (name now : ℕ) (s : Service)
    → (consume_client_carrier name now s).0
      ≡ record s { admissions = (consume_client_carrier name now s).0.admissions }
unfolding consume_client_carrier
carrier_tables name now s = ground arith

carrier_get :
    (get : Option Admission → ℕ) (s : Service) (name now : ℕ)
    → ((a : Admission) → get (some (allow_open a now).0) ≡ get (some a))
    → (n : ℕ) → get ((consume_client_carrier name now s).0.admissions n) ≡ get (s.admissions n)
unfolding consume_client_carrier
carrier_get get s name now same n = elim (Option-cases (s.admissions name)) [
  | inl e ↦ rw (e, consume_client_carrier)
  | inr (a, e) ↦ elim (Bool-cases (name == n)) [
    | inl t ↦
        let p : name ≡ n = (==_iff name n).0 t in
        rw (e, consume_client_carrier, t) (same a ∙ ap get (sym e ∙ ap s.admissions p))
    | inr t ↦ rw (e, consume_client_carrier, t)
  ]
]

pub carrier_pending :
    (name now : ℕ) (s : Service) (n : ℕ)
    → pending_of ((consume_client_carrier name now s).0.admissions n) ≡ pending_of (s.admissions n)
unfolding allow_open
carrier_pending name now s = carrier_get pending_of s name now (λ a. ground arith)

pub carrier_active :
    (name now : ℕ) (s : Service) (n : ℕ)
    → active_of ((consume_client_carrier name now s).0.admissions n) ≡ active_of (s.admissions n)
unfolding allow_open
carrier_active name now s = carrier_get active_of s name now (λ a. ground arith)

-- The carriers of one client at the given times: its record afterwards, and how many were admitted.
unfoldable pub admit_all : Admission → List ℕ → Admission × ℕ
admit_all a [] = (a, 0)
admit_all a (now ∷ times) =
    let (a', allowed) = allow_open a now in
    let (a'', n) = admit_all a' times in (a'', if allowed then suc n else n)

allow_open_step :
    (a : Admission) (now : ℕ)
    → a.open_credit ≤ client_open_capacity
    → let a' = (allow_open a now).0 in
      (a'.open_credit ≤ client_open_capacity)
      × (a.last_open_refill ≤ a'.last_open_refill)
      × ((if (allow_open a now).1 then second else 0) + a'.open_credit + a.last_open_refill
          ≤ a.open_credit + a'.last_open_refill)
unfolding allow_open
allow_open_step a now h = ground arith

-- Whatever the times of its carriers, and in whatever order the clock reports them, a client whose
-- credit is within the capacity is admitted at most as often as that credit and the whole time that
-- has passed pay for.
pub admit_all_rate :
    (a : Admission) (times : List ℕ)
    → a.open_credit ≤ client_open_capacity
    → let r = admit_all a times in
      r.1 * second + r.0.open_credit + a.last_open_refill ≤ a.open_credit + r.0.last_open_refill
unfolding admit_all
admit_all_rate a [] h = omega arith
admit_all_rate a (now ∷ times) h =
    ground (arith, allow_open_step a now h, admit_all_rate (allow_open a now).0 times)

-- A client that has let a second pass since its last refill is admitted.
pub allow_open_after_second :
    (a : Admission) (now : ℕ) → a.last_open_refill + second ≤ now → (allow_open a now).1 ≡ true
unfolding allow_open
allow_open_after_second a now h = ground arith
