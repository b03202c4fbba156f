-- ===== src/Lease/Loops.antt =====
-- The goroutines of a connection, a pass of a loop each, and the critical sections of a pass: `readLoop`, `writeLoop`, `watchLoop`,
-- `policyLoop`, and the calls `Read`, `Lock` and `Close`.
use own_transit.Prelude.{
  ℕ, Bool, true, not, ◌&&◌, Option, none, some, List, [], ◌∷◌, Bytes, ◌==◌, if◌then◌else◌,
}
use own_transit.Lease.{
  Conn, Error, Frame, Instant, PolicyAnswer, before, check_policy, stop, protocol, locked, closed,
  kind_data, kind_grant,
}
use own_transit.Lease.Clock.{live, authorized, mark_ready, stop_on, is_some}
use own_transit.Lease.Control.{receive_control, begin_challenge, observe_peer, dispatch}

-- `readLoop` on a control frame.
unfoldable pub read_control : Option (ℕ → Bool) → PolicyAnswer → Frame → Instant → Conn → Conn
unfolding receive_control stop
read_control callback answer f now c =
    let (c', e) = receive_control callback answer f now c in stop_on e c'

-- What becomes of a DATA frame: it reaches the reader, it waits until the connection is ready, or the
-- connection stops.
pub data Delivery : Type 0 where
  delivered waits refused : Delivery

abbrev pub deliver : Conn × Option Error → Conn × Delivery
deliver (c, none) = (c, delivered)
deliver (c, some e) = (c, refused)

unfoldable pub read_data : PolicyAnswer → Instant → Conn → Conn × Delivery
unfolding check_policy stop authorized
read_data answer now c = elim (check_policy answer c) [
  | some e ↦ (stop e c, refused)
  | none ↦
      if not (is_some c.lease_deadline)
      then (stop protocol c, refused)
      else if is_some c.err
      then (c, refused)
      else if not c.ready_closed
      then (c, waits)
      else deliver (authorized c now)
]

-- `writeLoop` with a frame taken from a queue; `written` is the error of the transport, if any.
abbrev pub written_after : Frame → Option Error → Conn → Option Error → Conn
written_after f written c (some e) = stop e c
written_after f (some e) c none = stop e c
written_after f none c none =
    if f.kind == kind_grant then mark_ready (record c { grant_sent = true }) else c

abbrev pub transmit_live : Frame → Option Error → Instant → Conn × Option Error → Conn
transmit_live f written later (c, some e) = stop e c
transmit_live f written later (c, none) = written_after f written (live c later).0 (live c later).1

-- The clock is read twice for DATA, and once for a control.
unfoldable pub transmit : PolicyAnswer → Frame → Option Error → Instant → Instant → Conn → Conn
unfolding check_policy stop authorized live mark_ready
transmit answer f written now later c = elim (check_policy answer c) [
  | some e ↦ stop e c
  | none ↦
      transmit_live f written later (if f.kind == kind_data then authorized c now else (c, none))
]

-- Controls go first; the queue of data is the caller's.
abbrev pub write_queue : PolicyAnswer → Option Error → Instant → Conn → List Frame → Conn
write_queue answer written now c [] = c
write_queue answer written now c (f ∷ rest) =
    transmit answer f written now now (record c { control = rest })

unfoldable pub write_next : PolicyAnswer → Option Error → Instant → Conn → Conn
unfolding transmit
write_next answer written now c = write_queue answer written now c c.control

abbrev pub watch_after : Bytes → Instant → Instant → Conn → Option Error → Conn
watch_after nonce now later c (some e) = stop e c
watch_after nonce now later c none =
    if not c.pending && not (before now c.next_renew)
    then (let (c', e) = begin_challenge nonce later c in stop_on e c')
    else c

-- A tick of `watchLoop`; a new challenge reads the clock again.
unfoldable pub watch : Bytes → Instant → Instant → Conn → Conn
unfolding live stop begin_challenge
watch nonce now later c = watch_after nonce now later (live c now).0 (live c now).1

-- A tick of `policyLoop`.
unfoldable pub poll_policy : PolicyAnswer → Conn → Conn
unfolding check_policy stop
poll_policy answer c = stop_on (check_policy answer c) c

abbrev pub rest_of : List Frame → List Frame
rest_of [] = []
rest_of (f ∷ others) = others

abbrev control_after : Frame → ℕ → Instant → Conn × Option Error → Conn
control_after f generation now (c, e) =
    let (c', e') = dispatch f generation now c e in stop_on e' c'

-- What may happen to a connection, with the answers and times that the environment gives: a pass of a loop
-- without an interruption, or, from `clock_checked` on, one critical section of a pass, in any order with the others.
pub data Event : Type 0 where
  control_arrives : Option (ℕ → Bool) → PolicyAnswer → Frame → Instant → Event
  data_arrives : PolicyAnswer → Instant → Event
  control_leaves : PolicyAnswer → Option Error → Instant → Event
  data_leaves : PolicyAnswer → Frame → Option Error → Instant → Instant → Event
  authority_asked : Instant → Event
  watch_ticks : Bytes → Instant → Instant → Event
  policy_ticks : PolicyAnswer → Event
  transport_fails : Error → Event
  lock_called close_called : Event
  clock_checked : Instant → Event
  challenge_starts : Bytes → Instant → Event
  generation_seen : Option (ℕ → Bool) → ℕ → Event
  control_handled : Frame → ℕ → Instant → Event
  control_taken : Event
  frame_written : Frame → Option Error → Instant → Event

unfoldable pub step : Event → Conn → Conn
unfolding read_control read_data write_next transmit authorized watch poll_policy stop live
    begin_challenge observe_peer
step (control_arrives callback answer f now) c = read_control callback answer f now c
step (data_arrives answer now) c = (read_data answer now c).0
step (control_leaves answer written now) c = write_next answer written now c
step (data_leaves answer f written now later) c = transmit answer f written now later c
step (authority_asked now) c = (authorized c now).0
step (watch_ticks nonce now later) c = watch nonce now later c
step (policy_ticks answer) c = poll_policy answer c
step (transport_fails e) c = stop e c
step lock_called c = stop locked c
step close_called c = stop closed c
step (clock_checked now) c = stop_on (live c now).1 (live c now).0
step (challenge_starts nonce now) c =
    stop_on (begin_challenge nonce now c).1 (begin_challenge nonce now c).0
step (generation_seen callback generation) c =
    stop_on (observe_peer callback generation c).1 (observe_peer callback generation c).0
step (control_handled f generation now) c = control_after f generation now (live c now)
step control_taken c = record c { control = rest_of c.control }
step (frame_written f written later) c = transmit_live f written later (c, none)

unfoldable pub run : List Event → Conn → Conn
unfolding step
run [] c = c
run (e ∷ es) c = run es (step e c)
