-- ===== src/Limits.antt =====
-- internal/config: the capacity limits of the relay and of the connector, their compatibility
-- defaults and their validation. Counts and durations are those of a decoded configuration that are
-- not negative; the validation refuses a negative one by the test that refuses 0.
pub mod Fairness
mod Runs
use own_transit.Prelude.{
  ℕ, ◌+◌, ◌-◌, ◌*◌, ◌≡◌, Bool, true, false, not, ◌&&◌, ◌||◌, List, [], ◌∷◌, ltb, leb, ◌==◌,
  if◌then◌else◌, min, Outcome, ok, err, ◌>>=◌, ◌>>◌, fail_if,
}

pub record RelayLimits : Type 0 where
  pub carriers_global : ℕ
  pub outer_handshakes : ℕ
  pub pending_global : ℕ
  pub pending_per_route : ℕ
  pub pending_per_client : ℕ
  pub active_global : ℕ
  pub active_per_route : ℕ
  pub active_per_client : ℕ
  pub handshake : ℕ
  pub preface : ℕ
  pub join : ℕ
  pub drain : ℕ
  pub session_idle : ℕ
  pub session_lifetime : ℕ

-- Durations are nanoseconds.
abbrev pub second : ℕ
second = 1_000_000_000

abbrev pub default_session_idle : ℕ
default_session_idle = 30 * 60 * second

abbrev pub default_session_lifetime : ℕ
default_session_lifetime = 24 * 60 * 60 * second

unfoldable pub carrier_global : RelayLimits → ℕ
carrier_global l = if l.carriers_global == 0 then 96 else l.carriers_global

unfoldable pub session_idle_value : RelayLimits → ℕ
session_idle_value l = if l.session_idle == 0 then default_session_idle else l.session_idle

unfoldable pub session_lifetime_value : RelayLimits → ℕ
session_lifetime_value l =
    if l.session_lifetime == 0 then default_session_lifetime else l.session_lifetime

unfoldable pub bounded_per_client_default : ℕ → ℕ → ℕ → ℕ
bounded_per_client_default preferred global per_route =
    if leb global 0 || leb per_route 0
    then preferred
    else let capacity = min global per_route in
      min preferred (if ltb 1 capacity then capacity - 1 else capacity)

unfoldable pub pending_per_client_value : RelayLimits → ℕ
unfolding bounded_per_client_default
pending_per_client_value l =
    if not (l.pending_per_client == 0)
    then l.pending_per_client
    else bounded_per_client_default 2 l.pending_global l.pending_per_route

unfoldable pub active_per_client_value : RelayLimits → ℕ
unfolding bounded_per_client_default
active_per_client_value l =
    if not (l.active_per_client == 0)
    then l.active_per_client
    else bounded_per_client_default 4 l.active_global l.active_per_route

pub data LimitError : Type 0 where
  out_of_range route_over_global client_over_capacity no_reserved_slot : LimitError
  too_few_carriers no_duration no_session_duration idle_over_lifetime : LimitError

abbrev outside : ℕ → ℕ → Bool
outside bound v = leb v 0 || ltb bound v

abbrev any_of : List Bool → Bool
any_of [] = false
any_of (b ∷ bs) = b || any_of bs

unfoldable pub minimum_carriers : RelayLimits → ℕ → ℕ
minimum_carriers l routes = routes + l.outer_handshakes + l.pending_global + 2 * l.active_global

-- The loops over the two maps of named limits fail in the same way on whichever entry comes first.
unfoldable pub validate : RelayLimits → Outcome LimitError (Unit {0})
validate l = do
  fail_if
      (any_of (
        outside 1024 (carrier_global l)
        ∷ outside 1024 l.outer_handshakes
        ∷ outside 1024 l.pending_global
        ∷ outside 1024 l.pending_per_route
        ∷ outside 1024 (pending_per_client_value l)
        ∷ outside 1024 l.active_global
        ∷ outside 1024 l.active_per_route
        ∷ outside 1024 (active_per_client_value l)
        ∷ []))
      out_of_range
  fail_if (ltb l.pending_global l.pending_per_route || ltb l.active_global l.active_per_route)
      route_over_global
  fail_if
      (ltb l.pending_global (pending_per_client_value l)
        || ltb l.pending_per_route (pending_per_client_value l)
        || ltb l.active_global (active_per_client_value l)
        || ltb l.active_per_route (active_per_client_value l))
      client_over_capacity
  fail_if
      (ltb 1 l.pending_global && leb l.pending_global (pending_per_client_value l)
        || ltb 1 l.pending_per_route && leb l.pending_per_route (pending_per_client_value l)
        || ltb 1 l.active_global && leb l.active_global (active_per_client_value l)
        || ltb 1 l.active_per_route && leb l.active_per_route (active_per_client_value l))
      no_reserved_slot
  fail_if (ltb (carrier_global l) (minimum_carriers l 0)) too_few_carriers
  fail_if (any_of (leb l.handshake 0 ∷ leb l.preface 0 ∷ leb l.join 0 ∷ leb l.drain 0 ∷ []))
      no_duration
  fail_if (leb (session_idle_value l) 0 || leb (session_lifetime_value l) 0) no_session_duration
  fail_if (ltb (session_lifetime_value l) (session_idle_value l)) idle_over_lifetime
  ok tt

pub record ConnectorLimits : Type 0 where
  pub pending : ℕ
  pub active : ℕ
  pub active_per_client : ℕ
  pub connect_timeout : ℕ
  pub handshake : ℕ
  pub local_dial : ℕ
  pub drain : ℕ
  pub reconnect_min : ℕ
  pub reconnect_max : ℕ
  pub session_idle : ℕ
  pub session_lifetime : ℕ

unfoldable pub connector_idle_value : ConnectorLimits → ℕ
connector_idle_value l = if l.session_idle == 0 then default_session_idle else l.session_idle

unfoldable pub connector_lifetime_value : ConnectorLimits → ℕ
connector_lifetime_value l =
    if l.session_lifetime == 0 then default_session_lifetime else l.session_lifetime

unfoldable pub connector_per_client_value : ConnectorLimits → ℕ
connector_per_client_value l =
    if not (l.active_per_client == 0)
    then l.active_per_client
    else if leb l.active 1
    then 1
    else min 2 (l.active - 1)

pub data ConnectorLimitError : Type 0 where
  slots_out_of_range per_client_out_of_range connector_no_duration : ConnectorLimitError
  reconnect_order connector_no_session connector_idle_over_lifetime : ConnectorLimitError

unfoldable pub validate_connector : ConnectorLimits → Outcome ConnectorLimitError (Unit {0})
validate_connector l = do
  fail_if (leb l.pending 0 || ltb 64 l.pending || leb l.active 0 || ltb 64 l.active)
      slots_out_of_range
  fail_if (leb (connector_per_client_value l) 0 || ltb l.active (connector_per_client_value l))
      per_client_out_of_range
  fail_if
      (any_of (
        leb l.connect_timeout 0
        ∷ leb l.handshake 0
        ∷ leb l.local_dial 0
        ∷ leb l.drain 0
        ∷ leb l.reconnect_min 0
        ∷ leb l.reconnect_max 0
        ∷ []))
      connector_no_duration
  fail_if (ltb l.reconnect_max l.reconnect_min) reconnect_order
  fail_if (leb (connector_idle_value l) 0 || leb (connector_lifetime_value l) 0)
      connector_no_session
  fail_if (ltb (connector_lifetime_value l) (connector_idle_value l)) connector_idle_over_lifetime
  ok tt
