-- ===== src/Lease/Runs.antt =====
-- Two connections of one stream on concrete bytes: the handshake, DATA, a lock, and a replay.
use own_transit.Prelude.{
  not, take, bytes_eq, ◌≡◌, refl, none, some, List, [], ◌∷◌, ◌++◌, Bytes, ok, ◌+◌, ◌<◌, arith,
}
use own_transit.Prelude.BigEndian.{be_put, be_get}
use own_transit.Prelude.Stream.{read_full}
use own_transit.Lease.{
  Frame, stop, check_policy, kind_data, kind_grant, locked, protocol, kind_lock, max_lease_duration,
}
use own_transit.Lease.Wire.{read_frame, encode_frame, valid_size}
use own_transit.Lease.Clock.{live, authorized, mark_ready, clock_jumped}
use own_transit.Lease.Control.{
  wrap, begin_challenge, enqueue_control, challenge_frame, grant_frame, receive_control,
  observe_peer, after_peer, answer_challenge, accept_grant, slice,
}
use own_transit.Lease.Loops.{
  Event, control_arrives, control_leaves, challenge_starts, control_handled, data_leaves,
  policy_ticks, step, run, read_control, write_next, transmit,
}
use own_transit.Lease.Frames.{read_frame-encode_frame}
use own_transit.Lease.Authority.{authorized-run-Silent}
use own_transit.Lease.Terminal.{authorized-run_stopped, step-locked, on_control_read}
use own_transit.Lease.Replay.{step-rollback, accept_grant-replay}
use own_transit.Lease.Moves.Steps.{AllStart}
use own_transit.Lease.Samples.{
  left_id, right_id, left_nonce, right_nonce, at, unlocked, locked_now, left, right, left_grant,
}

unfoldable handshake : List Event
handshake =
    control_arrives none unlocked (challenge_frame right right_nonce) (at 2)
    ∷ control_arrives none unlocked (grant_frame right 5 left_nonce 30_000_000_000) (at 3)
    ∷ control_leaves unlocked none (at 3)
    ∷ control_leaves unlocked none (at 3)
    ∷ []

abbrev data_frame : Frame
data_frame = record { kind = kind_data; payload = 1 ∷ 2 ∷ 3 ∷ [] }

wrapped : wrap 0 0 left_id right_id unlocked left_nonce (at 1) (at 1) ≡ ok left
unfolding wrap begin_challenge enqueue_control live clock_jumped left be_put
wrapped = refl

abbrev quiet : List Event
quiet = data_leaves unlocked data_frame none (at 10) (at 11) ∷ policy_ticks unlocked ∷ []

still_authorized : (authorized (run quiet (run handshake left)) (at 20)).1 ≡ none
unfolding authorized run step read_control write_next transmit receive_control observe_peer
    after_peer answer_challenge accept_grant enqueue_control mark_ready live clock_jumped
    check_policy stop left right handshake begin_challenge be_put be_get
still_authorized = refl

authorized-run-Silent_example :
    ((at 20).mono < (run handshake left).last_clock.mono + max_lease_duration)
    × ((at 20).wall < (run handshake left).last_wall + max_lease_duration)
authorized-run-Silent_example =
    authorized-run-Silent 0 0 left_id right_id unlocked left_nonce (at 1) (at 1) (at 20) left
      handshake quiet wrapped (refl, (refl, tt)) still_authorized

open_after_handshake : (run handshake left).err ≡ none
unfolding authorized run step read_control write_next transmit receive_control observe_peer
    after_peer answer_challenge accept_grant enqueue_control mark_ready live clock_jumped
    check_policy stop left right handshake begin_challenge be_put be_get
open_after_handshake = refl

stopped : (stop protocol left).err ≡ some protocol
unfolding stop left begin_challenge enqueue_control live clock_jumped
stopped = refl

authorized-run_stopped_example :
    (authorized (run handshake (stop protocol left)) (at 4)).1 ≡ some protocol
authorized-run_stopped_example =
    authorized-run_stopped protocol (stop protocol left) (at 4) handshake stopped

-- A challenge of the peer, of its generation.
abbrev asked_again : Event
asked_again = control_arrives none locked_now (challenge_frame right left_nonce) (at 4)

seen_again :
    (observe_peer none
      (be_get (slice (challenge_frame right left_nonce).payload 32 40))
      (run handshake left)).1
    ≡ none
unfolding authorized run step read_control write_next transmit receive_control observe_peer
    after_peer answer_challenge accept_grant enqueue_control mark_ready live clock_jumped
    check_policy stop left right handshake begin_challenge be_put be_get
seen_again = refl

same_binding : take 32 (challenge_frame right left_nonce).payload ≡ (run handshake left).inbound
unfolding authorized run step read_control write_next transmit receive_control observe_peer
    after_peer answer_challenge accept_grant enqueue_control mark_ready live clock_jumped
    check_policy stop left right handshake begin_challenge be_put be_get
same_binding = refl

step-locked_example :
    (authorized (run handshake (step asked_again (run handshake left))) (at 5)).1 ≡ some locked
step-locked_example =
    step-locked locked_now asked_again (run handshake left) handshake (at 5)
      (on_control_read none (challenge_frame right left_nonce) (at 4) same_binding seen_again refl
        refl)
      open_after_handshake refl

unfoldable old_lock : Frame
unfolding be_put
old_lock = record { kind = kind_lock; payload = right_id ++ be_put 8 5 }

older : be_get (slice old_lock.payload 32 40) < (run handshake left).peer_generation
unfolding authorized run step read_control write_next transmit receive_control observe_peer
    after_peer answer_challenge accept_grant enqueue_control mark_ready live clock_jumped
    check_policy stop left right handshake begin_challenge be_put be_get old_lock
older = omega arith

still_open : (run quiet (run handshake left)).err ≡ none
unfolding authorized run step read_control write_next transmit receive_control observe_peer
    after_peer answer_challenge accept_grant enqueue_control mark_ready live clock_jumped
    check_policy stop left right handshake begin_challenge be_put be_get
still_open = refl

step-rollback_example :
    (authorized
      (run handshake
        (step (control_arrives none unlocked old_lock (at 11)) (run quiet (run handshake left))))
      (at 12)).1
    ≡ some protocol
step-rollback_example =
    step-rollback none unlocked old_lock (at 11) (at 12) (run handshake left) quiet handshake older
      still_open

accepted : (accept_grant left_grant (at 2) left).1 ≡ none
unfolding accept_grant mark_ready left left_grant begin_challenge enqueue_control live clock_jumped
    be_get be_put right
accepted = refl

grants : left_grant.kind ≡ kind_grant
unfolding left_grant
grants = refl

-- A new challenge is written before the replay.
abbrev renewal : List Event
renewal = challenge_starts right_nonce (at 15) ∷ control_leaves unlocked none (at 15) ∷ []

open_at_replay : (live (run renewal (accept_grant left_grant (at 2) left).0) (at 16)).1 ≡ none
unfolding run step write_next transmit accept_grant enqueue_control mark_ready live clock_jumped
    check_policy stop left right left_grant begin_challenge be_put be_get
open_at_replay = refl

left-nonce : slice left_grant.payload 48 80 ≡ left.nonce
unfolding left left_grant right begin_challenge enqueue_control live clock_jumped be_put
left-nonce = refl

new_nonce : AllStart (λ nonce. not (bytes_eq nonce left.nonce)) renewal
unfolding left begin_challenge enqueue_control live clock_jumped
new_nonce = (refl, (tt, tt))

accept_grant-replay_example :
    (authorized
      (run quiet (
        step
          (control_handled left_grant 6 (at 16))
          (run renewal (accept_grant left_grant (at 2) left).0)))
      (at 17)).1
    ≡ some protocol
accept_grant-replay_example =
    accept_grant-replay left_grant left_grant (at 2) (at 16) (at 17) 6 left renewal quiet accepted
      grants left-nonce new_nonce open_at_replay

abbrev data_bytes : Bytes
data_bytes = b'O' ∷ b'T' ∷ b'L' ∷ b'W' ∷ 1 ∷ 1 ∷ 0 ∷ 3 ∷ 1 ∷ 2 ∷ 3 ∷ []

encoded : encode_frame data_frame ≡ ok data_bytes
unfolding encode_frame valid_size be_put
encoded = refl

decoded : read_frame data_bytes ≡ ok (data_frame, [])
unfolding read_frame valid_size be_get read_full
decoded = refl

read_frame-encode_frame_example :
    read_frame (data_bytes ++ 1 ∷ 2 ∷ []) ≡ ok (data_frame, 1 ∷ 2 ∷ [])
read_frame-encode_frame_example = read_frame-encode_frame data_frame data_bytes (1 ∷ 2 ∷ []) encoded
