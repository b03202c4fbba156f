-- ===== src/Lease/Handshake/Challenge.antt =====
-- The answer of a connection to the challenge of its peer.
use own_transit.Prelude.{
  ◌^◌, ◌≤◌, ◌<◌, ◌≡◌, true, false, ◌&&◌, [], ◌∷◌, ◌++◌, length, Bytes, bytes_eq,
}
use own_transit.Lease.{Conn, Frame, Instant, max_lease_duration}
use own_transit.Lease.Handshake.{GrantOf}

-- The connection `b` has room for an answer, and has not seen the nonce; what goes over the wire has its sizes.
pub record CanAnswer (a b : Conn) (nonce : Bytes) : Type 0 where
  pub room : length b.control < 4
  pub fresh : (b.have_peer_nonce && bytes_eq nonce b.last_peer_nonce) ≡ false
  pub binding : b.inbound ≡ a.outbound
  pub size : length a.outbound ≡ 32
  pub own_size : length b.outbound ≡ 32
  pub nonce_size : length nonce ≡ 32
  pub generation : a.local_generation < 256 ^ 8
  pub own_generation : b.local_generation < 256 ^ 8
  pub positive : 0 < a.lease_duration
  pub bounded : a.lease_duration ≤ max_lease_duration

-- What `b` is behind its answer to the challenge of `a`.
pub record AnsweredBy (a b b' : Conn) (nonce : Bytes) (now : Instant) : Type 0 where
  pub grant : (f : Frame) × (b'.control ≡ b.control ++ f ∷ []) × GrantOf a b nonce f
  pub peer : b'.peer_generation ≡ a.local_generation
  pub remembers : (b'.have_peer_nonce ≡ true) × (b'.last_peer_nonce ≡ nonce)
  pub clock : b'.last_clock ≡ now
  pub lease : b'.lease_deadline ≡ b.lease_deadline
