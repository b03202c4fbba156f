-- ===== src/Lease/Handshake/Runs.antt =====
-- The challenge of one connection, and the grant of the other.
use own_transit.Prelude.{Option, none}
use own_transit.Lease.{Conn, Error}
use own_transit.Lease.Control.{challenge_frame, receive_control}
use own_transit.Lease.Samples.{left_nonce, at, unlocked_right, left, right}

abbrev answered : Conn × Option Error
answered = receive_control none unlocked_right (challenge_frame left left_nonce) (at 2) right
