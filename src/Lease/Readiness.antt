-- ===== src/Lease/Readiness.antt =====
-- What a connection that carries DATA has exchanged with its peer.
use own_transit.Prelude.{◌≡◌, true}
use own_transit.Lease.{Conn}
use own_transit.Lease.Clock.{is_some}

-- A connection that is ready has sent a grant and accepted one.
record Exchanged (c : Conn) : Type 0 where
  sent : c.ready_closed ≡ true → c.grant_sent ≡ true
  accepted : c.ready_closed ≡ true → is_some c.lease_deadline ≡ true

record Ready (c : Conn) : Type 0 where
  ready : c.ready_closed ≡ true
