-- ===== src/Lease/Moves/Steps.antt =====
-- Every event of a connection is made of the elementary changes, a grant only if it delivers one.
use own_transit.Prelude.{
  ◌≡◌, refl, Bool, true, false, not, ◌&&◌, Option, none, some, List, [], ◌∷◌, ◌==◌, Bytes, subst,
  choose, pick,
}
use own_transit.Lease.{
  Conn, Error, Frame, Instant, PolicyAnswer, before, check_policy, stop, kind_data, kind_grant,
  protocol, locked, closed,
}
use own_transit.Lease.Clock.{authorized, mark_ready, is_some}
use own_transit.Lease.Loops.{
  Event, control_arrives, data_arrives, control_leaves, data_leaves, authority_asked, watch_ticks,
  policy_ticks, transport_fails, lock_called, close_called, clock_checked, challenge_starts,
  generation_seen, control_handled, control_taken, frame_written, rest_of, step, run, read_control,
  read_data, write_next, write_queue, transmit, watch, poll_policy, deliver, written_after,
  transmit_live, watch_after, refused, waits,
}
use own_transit.Lease.Moves.{
  Allowed, anything, no_grant, without_nonce, Moves, MovesFirst, sends, takes, next,
}
use own_transit.Lease.Moves.Controls.{
  stop-Moves, stop_on-Moves, live-Moves, authorized-Moves, mark_ready-Moves, begin_challenge-Moves,
  receive_control-Moves, observe_peer-Moves, dispatch-Moves,
}

abbrev is_grant : Event → Bool
is_grant (control_arrives callback answer f now) = f.kind == kind_grant
is_grant (control_handled f generation now) = f.kind == kind_grant
is_grant _ = false

-- A challenge that the event may start has an allowed nonce.
abbrev pub Starts : (Bytes → Bool) → Event → Type 0
Starts allowed (watch_ticks nonce now later) = allowed nonce ≡ true
Starts allowed (challenge_starts nonce now) = allowed nonce ≡ true
Starts allowed _ = Unit {0}

abbrev pub AllStart : (Bytes → Bool) → List Event → Type 0
AllStart allowed [] = Unit {0}
AllStart allowed (e ∷ es) = Starts allowed e × AllStart allowed es

start_any : (e : Event) → Starts (λ nonce. true) e
start_any (control_arrives callback answer f now) = tt
start_any (data_arrives answer now) = tt
start_any (control_leaves answer written now) = tt
start_any (data_leaves answer f written now later) = tt
start_any (authority_asked now) = tt
start_any (watch_ticks nonce now later) = refl
start_any (policy_ticks answer) = tt
start_any (transport_fails e) = tt
start_any lock_called = tt
start_any close_called = tt
start_any (clock_checked now) = tt
start_any (challenge_starts nonce now) = refl
start_any (generation_seen callback generation) = tt
start_any (control_handled f generation now) = tt
start_any control_taken = tt
start_any (frame_written f written later) = tt

all_start : (es : List Event) → AllStart (λ nonce. true) es
all_start [] = tt
all_start (e ∷ es) = (start_any e, all_start es)

deliver-Moves :
    {g : Allowed} {s : Conn} (r : Conn × Option Error)
    → MovesFirst g s r
    → MovesFirst g s (deliver r)
deliver-Moves (c, none) m = m
deliver-Moves (c, some e) m = m

read_data-Moves :
    {g : Allowed} {s : Conn} (answer : PolicyAnswer) (now : Instant) (c : Conn)
    → Moves g s c
    → Moves g s (read_data answer now c).0
unfolding read_data
read_data-Moves {g} {s} answer now c m =
    pick (MovesFirst g s) (check_policy answer c)
      (choose (MovesFirst g s) (not (is_some c.lease_deadline)) (stop protocol c, refused) _
        (stop-Moves protocol c m)
        (choose (MovesFirst g s) (is_some c.err) (c, refused) _ m
          (choose (MovesFirst g s) (not c.ready_closed) (c, waits) _ m
            (deliver-Moves (authorized c now) (authorized-Moves c now m)))))
      (λ e. stop-Moves e c m)

written_after-Moves :
    {g : Allowed} {s : Conn} (f : Frame) (written : Option Error) (c : Conn) (e : Option Error)
    → Moves g s c
    → Moves g s (written_after f written c e)
written_after-Moves f written c (some e) m = stop-Moves e c m
written_after-Moves f (some e) c none m = stop-Moves e c m
written_after-Moves {g} {s} f none c none m =
    choose (Moves g s) (f.kind == kind_grant) (mark_ready (record c { grant_sent = true })) c
      (mark_ready-Moves _ (next m (sends refl))) m

transmit_live-Moves :
    {g : Allowed} {s : Conn} (f : Frame) (written : Option Error) (later : Instant)
    (r : Conn × Option Error)
    → MovesFirst g s r
    → Moves g s (transmit_live f written later r)
transmit_live-Moves f written later (c, some e) m = stop-Moves e c m
transmit_live-Moves f written later (c, none) m =
    written_after-Moves f written _ _ (live-Moves c later m)

transmit-Moves :
    {g : Allowed} {s : Conn} (answer : PolicyAnswer) (f : Frame) (written : Option Error)
    (now later : Instant) (c : Conn)
    → Moves g s c
    → Moves g s (transmit answer f written now later c)
unfolding transmit
transmit-Moves {g} {s} answer f written now later c m =
    pick (Moves g s) (check_policy answer c)
      (transmit_live-Moves f written later _
        (choose (MovesFirst g s) (f.kind == kind_data) _ (c, none) (authorized-Moves c now m) m))
      (λ e. stop-Moves e c m)

write_queue-Moves :
    {g : Allowed} {s : Conn} (answer : PolicyAnswer) (written : Option Error) (now : Instant)
    (c : Conn) (queue : List Frame)
    → c.control ≡ queue
    → Moves g s c
    → Moves g s (write_queue answer written now c queue)
write_queue-Moves answer written now c [] q m = m
write_queue-Moves answer written now c (f ∷ fs) q m =
    transmit-Moves answer f written now now _ (next m (takes f fs q refl))

watch_after-Moves :
    {g : Allowed} {s : Conn} (nonce : Bytes) (now later : Instant) (c : Conn) (e : Option Error)
    → g.nonces nonce ≡ true
    → Moves g s c
    → Moves g s (watch_after nonce now later c e)
watch_after-Moves nonce now later c (some e) a m = stop-Moves e c m
watch_after-Moves {g} {s} nonce now later c none a m =
    choose (Moves g s) (not c.pending && not (before now c.next_renew)) _ c
      (stop_on-Moves _ _ (begin_challenge-Moves nonce later c a m)) m

rest_of-Moves :
    {g : Allowed} {s : Conn} (c : Conn) (queue : List Frame)
    → c.control ≡ queue
    → Moves g s c
    → Moves g s (record c { control = rest_of queue })
rest_of-Moves {g} {s} c [] q m = subst (λ queue. Moves g s (record c { control = queue })) q m
rest_of-Moves c (f ∷ fs) q m = next m (takes f fs q refl)

pub step-Moves :
    {g : Allowed} {s : Conn} (e : Event) (c : Conn)
    → (is_grant e ≡ true → g.grants ≡ true)
    → Starts g.nonces e
    → Moves g s c
    → Moves g s (step e c)
unfolding step read_control write_next watch poll_policy
step-Moves (control_arrives callback answer f now) c q a m =
    stop_on-Moves _ _ (receive_control-Moves callback answer f now c q m)
step-Moves (data_arrives answer now) c q a m = read_data-Moves answer now c m
step-Moves (control_leaves answer written now) c q a m =
    write_queue-Moves answer written now c c.control refl m
step-Moves (data_leaves answer f written now later) c q a m =
    transmit-Moves answer f written now later c m
step-Moves (authority_asked now) c q a m = authorized-Moves c now m
step-Moves (watch_ticks nonce now later) c q a m =
    watch_after-Moves nonce now later _ _ a (live-Moves c now m)
step-Moves (policy_ticks answer) c q a m = stop_on-Moves (check_policy answer c) c m
step-Moves (transport_fails e) c q a m = stop-Moves e c m
step-Moves lock_called c q a m = stop-Moves locked c m
step-Moves close_called c q a m = stop-Moves closed c m
step-Moves (clock_checked now) c q a m = stop_on-Moves _ _ (live-Moves c now m)
step-Moves (challenge_starts nonce now) c q a m =
    stop_on-Moves _ _ (begin_challenge-Moves nonce now c a m)
step-Moves (generation_seen callback generation) c q a m =
    stop_on-Moves _ _ (observe_peer-Moves callback generation c m)
step-Moves (control_handled f generation now) c q a m =
    stop_on-Moves _ _ (dispatch-Moves f generation now _ _ q (live-Moves c now m))
step-Moves control_taken c q a m = rest_of-Moves c c.control refl m
step-Moves (frame_written f written later) c q a m = transmit_live-Moves f written later (c, none) m

run_allowed :
    {g : Allowed} {s : Conn} (es : List Event) (c : Conn)
    → g.grants ≡ true
    → AllStart g.nonces es
    → Moves g s c
    → Moves g s (run es c)
unfolding run
run_allowed [] c q a m = m
run_allowed (e ∷ es) c q (a, others) m =
    run_allowed es (step e c) q others (step-Moves e c (λ t. q) a m)

pub run-Moves :
    {s : Conn} (es : List Event) (c : Conn) → Moves anything s c → Moves anything s (run es c)
run-Moves es c = run_allowed es c refl (all_start es)

-- Where no event starts a challenge with this nonce.
pub run-Moves_without :
    {s : Conn} (old : Bytes) (es : List Event) (c : Conn)
    → AllStart (without_nonce old).nonces es
    → Moves (without_nonce old) s c
    → Moves (without_nonce old) s (run es c)
run-Moves_without old es c = run_allowed es c refl

-- No grant is among the events.
abbrev pub Silent : List Event → Type 0
Silent [] = Unit {0}
Silent (e ∷ es) = (is_grant e ≡ false) × Silent es

pub run-Moves-Silent :
    {s : Conn} (es : List Event) (c : Conn)
    → Silent es
    → Moves no_grant s c
    → Moves no_grant s (run es c)
unfolding run
run-Moves-Silent [] c q m = m
run-Moves-Silent (e ∷ es) c (q, qs) m =
    run-Moves-Silent es (step e c) qs (step-Moves e c (λ t. cc) (start_any e) m)
