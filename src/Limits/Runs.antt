-- ===== src/Limits/Runs.antt =====
-- The limits of a small relay and of a connector, and the theorems at them.
use own_transit.Prelude.{◌≡◌, refl, ok, err}
use own_transit.Limits.{
  RelayLimits, ConnectorLimits, second, validate, validate_connector, no_reserved_slot,
  carrier_global, minimum_carriers, pending_per_client_value, active_per_client_value,
  session_idle_value, session_lifetime_value, connector_per_client_value, connector_idle_value,
  connector_lifetime_value,
}

abbrev small : RelayLimits
small = record {
  carriers_global = 0;
  outer_handshakes = 4;
  pending_global = 8;
  pending_per_route = 4;
  pending_per_client = 0;
  active_global = 8;
  active_per_route = 4;
  active_per_client = 0;
  handshake = second;
  preface = second;
  join = second;
  drain = second;
  session_idle = 0;
  session_lifetime = 0;
}

small_valid : validate small ≡ ok tt
unfolding validate carrier_global minimum_carriers pending_per_client_value active_per_client_value
    session_idle_value session_lifetime_value
small_valid = refl

-- A quota that takes a whole route is refused.
greedy : validate (record small { pending_per_client = 4 }) ≡ err no_reserved_slot
unfolding validate carrier_global minimum_carriers pending_per_client_value active_per_client_value
    session_idle_value session_lifetime_value
greedy = refl

abbrev home : ConnectorLimits
home = record {
  pending = 4;
  active = 2;
  active_per_client = 0;
  connect_timeout = second;
  handshake = second;
  local_dial = second;
  drain = second;
  reconnect_min = second;
  reconnect_max = 60_000_000_000;
  session_idle = 0;
  session_lifetime = 0;
}

home_valid : validate_connector home ≡ ok tt
unfolding validate_connector connector_per_client_value connector_idle_value
    connector_lifetime_value
home_valid = refl
