-- ===== src/Limits/Fairness.antt =====
-- What a validated configuration promises of its limits.
use own_transit.Prelude.{ℕ, ◌+◌, ◌*◌, ◌≤◌, ◌<◌, ◌≡◌, ok, arith, ◌⊎◌}
use own_transit.Limits.{
  RelayLimits, ConnectorLimits, validate, validate_connector, pending_per_client_value,
  active_per_client_value, bounded_per_client_default, session_idle_value, session_lifetime_value,
  carrier_global, minimum_carriers, connector_per_client_value,
}

-- The limits of a relay that has been validated.
pub record IsFair (l : RelayLimits) : Type 0 where
  pub pending_positive : 0 < pending_per_client_value l
  pub active_positive : 0 < active_per_client_value l
  pub pending_routes : l.pending_per_route ≤ l.pending_global
  pub active_routes : l.active_per_route ≤ l.active_global
  pub pending_reserved :
      (l.pending_per_route ≡ 1) ⊎ (pending_per_client_value l < l.pending_per_route)
  pub active_reserved : (l.active_per_route ≡ 1) ⊎ (active_per_client_value l < l.active_per_route)
  pub carriers : l.outer_handshakes + l.pending_global + 2 * l.active_global ≤ carrier_global l
  pub idle : session_idle_value l ≤ session_lifetime_value l

-- Relay limits that validate are fair: a route's capacities fit the global ones, the quota of one client
-- leaves a slot on every route that has more than one, the carriers cover the handshakes, the pending
-- and both sides of the active pairs, and the idle time fits the lifetime.
pub validate-IsFair : (l : RelayLimits) → validate l ≡ ok tt → IsFair l
unfolding validate minimum_carriers
validate-IsFair l e = ground arith

-- For a positive preference and positive capacities, the default quota of a client never is 0, fits both capacities, and leaves a slot wherever there is
-- more than one.
pub bounded_per_client_default_bounds :
    (preferred global per_route : ℕ)
    → 0 < preferred
    → 0 < global
    → 0 < per_route
    → let quota = bounded_per_client_default preferred global per_route in
      (0 < quota)
      × (quota ≤ preferred)
      × (quota ≤ global)
      × (quota ≤ per_route)
      × (1 < global → 1 < per_route → (quota < global) × (quota < per_route))
unfolding bounded_per_client_default
bounded_per_client_default_bounds preferred global per_route p g r = ground arith

-- A connector whose limits validate has slots for every client: its quota is positive and fits, and
-- without an explicit quota one slot more than a client's share stays free where there are two;
-- the reconnection delays are positive and ordered.
pub validate_connector-quota :
    (l : ConnectorLimits)
    → validate_connector l ≡ ok tt
    → (0 < connector_per_client_value l)
      × (connector_per_client_value l ≤ l.active)
      × (l.active_per_client ≡ 0 → 1 < l.active → connector_per_client_value l < l.active)
      × (l.reconnect_min ≤ l.reconnect_max)
      × (0 < l.reconnect_min)
unfolding validate_connector connector_per_client_value
validate_connector-quota l e = ground arith
