-- ===== src/Lease/Handshake/Grant.antt =====
-- What a connection makes of the grant that it waits for.
use own_transit.Prelude.{some, ◌/◌, min, ◌+◌, ◌<◌, ◌≡◌, true, false, Bytes}
use own_transit.Lease.{Conn, Instant}
use own_transit.Lease.Handshake.{agreed}

-- The connection `a` waits for the grant of `b`, and at `now` the lease that it grants has not passed on either clock.
pub record CanAccept (a b : Conn) (nonce : Bytes) (now : Instant) : Type 0 where
  pub waiting : a.pending ≡ true
  pub own_nonce : a.nonce ≡ nonce
  pub binding : a.inbound ≡ b.outbound
  pub positive : 0 < agreed a b
  pub mono : now.mono < a.challenge_issued.mono + agreed a b
  pub wall : now.wall < a.challenge_issued.wall + agreed a b

-- What `a` is behind the grant of `b`.
pub record Renewed (a b a' : Conn) (now : Instant) : Type 0 where
  pub lease :
      (d : Instant) × (a'.lease_deadline ≡ some d)
      × (d.mono ≡ a.challenge_issued.mono + agreed a b)
      × (d.wall ≡ a.challenge_issued.wall + agreed a b)
  pub pending : a'.pending ≡ false
  pub next : a'.next_renew.mono ≡ min a.next_renew.mono (a.challenge_issued.mono + agreed a b / 3)
  pub ready : a.grant_sent ≡ true → a'.ready_closed ≡ true
  pub peer : a'.peer_generation ≡ b.local_generation
  pub clock : a'.last_clock ≡ now
  pub queue : a'.control ≡ a.control
