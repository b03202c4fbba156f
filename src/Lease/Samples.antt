-- ===== src/Lease/Samples.antt =====
-- Two connections of one stream, each with its first challenge, and the grant that answers one of them.
use own_transit.Prelude.{ℕ, true, false, Bytes, replicate, ◌+◌, ◌*◌}
use own_transit.Lease.{Conn, Frame, Instant, PolicyAnswer}
use own_transit.Lease.Control.{new_conn, begin_challenge, grant_frame}

abbrev pub left_id : Bytes
left_id = replicate 32 1

abbrev pub right_id : Bytes
right_id = replicate 32 2

abbrev pub left_nonce : Bytes
left_nonce = replicate 32 7

abbrev pub right_nonce : Bytes
right_nonce = replicate 32 9

abbrev pub at : ℕ → Instant
at s = record { mono = s * 1_000_000_000; wall = (1_000 + s) * 1_000_000_000 }

abbrev pub unlocked : PolicyAnswer
unlocked = record { generation = 5; is_locked = false; failed = false }

abbrev pub unlocked_right : PolicyAnswer
unlocked_right = record { generation = 6; is_locked = false; failed = false }

abbrev pub locked_now : PolicyAnswer
locked_now = record { generation = 5; is_locked = true; failed = false }

unfoldable pub left : Conn
unfolding begin_challenge
left =
    (begin_challenge left_nonce (at 1)
      (new_conn 60_000_000_000 20_000_000_000 left_id right_id 5 (at 1))).0

unfoldable pub right : Conn
unfolding begin_challenge
right =
    (begin_challenge right_nonce (at 1)
      (new_conn 30_000_000_000 10_000_000_000 right_id left_id 6 (at 1))).0

unfoldable pub left_grant : Frame
left_grant = grant_frame right 5 left_nonce 30_000_000_000
