-- ===== src/Lease/Moves/Controls.antt =====
-- The critical sections of the control channel are made of the elementary changes.
use own_transit.Prelude.{
  ℕ, ◌≡◌, refl, Bool, true, not, ◌&&◌, ◌||◌, Option, none, some, ◌==◌, ltb, Bytes, take, drop,
  length, bytes_eq, arith, inl, inr, Option-cases, Bool-cases, choose, branch, pick,
}
use own_transit.Prelude.BigEndian.{be_get}
use own_transit.Lease.Moves.{
  Allowed, Moves, MovesFirst, ticks, stops, readies, queues, issues, meets, remembers, renews, next,
}
use own_transit.Lease.{
  Conn, Error, Frame, Instant, PolicyAnswer, check_policy, stop, max_lease_duration, kind_grant,
  protocol, kind_challenge, kind_lock, peer_lock,
}
use own_transit.Lease.Clock.{live, authorized, mark_ready, stop_on, is_some, clock_jumped}
use own_transit.Lease.Control.{
  enqueue_control, begin_challenge, observe_peer, answer_challenge, accept_grant, after_peer,
  receive_control, issue_after, dispatch, slice, renewed,
}

pub stop-Moves :
    {g : Allowed} {s : Conn} (e : Error) (c : Conn) → Moves g s c → Moves g s (stop e c)
unfolding stop
stop-Moves e c m = elim (Option-cases c.err) [
  | inl q ↦ rw (q, stop) (next m (stops e q refl))
  | inr (x, q) ↦ rw (q, stop) m
]

pub stop_on-Moves :
    {g : Allowed} {s : Conn} (e : Option Error) (c : Conn) → Moves g s c → Moves g s (stop_on e c)
stop_on-Moves none c m = m
stop_on-Moves (some e) c m = stop-Moves e c m

pub live-Moves :
    {g : Allowed} {s : Conn} (c : Conn) (now : Instant) → Moves g s c → Moves g s (live c now).0
unfolding live clock_jumped
live-Moves {g} {s} c now m = elim (Option-cases c.err) [
  | inr (e, q) ↦ rw (q, live) m
  | inl q ↦ elim (Bool-cases (clock_jumped c now)) [
    | inl t ↦ rw (q, live, t) m
    | inr t ↦
        rw (q, live, t)
          (choose (MovesFirst g s) _ _ _ (next m (ticks now q (ground arith) (ground arith) refl))
            (next m (ticks now q (ground arith) (ground arith) refl)))
  ]
]

-- A connection that is live has moved its clock on.
pub live-moves :
    (c : Conn) (now : Instant)
    → (live c now).1 ≡ none
    → ((live c now).0.last_clock ≡ now) × ((live c now).0.last_wall ≡ now.wall)
unfolding live
live-moves c now q = ground arith

pub authorized-Moves :
    {g : Allowed} {s : Conn} (c : Conn) (now : Instant)
    → Moves g s c
    → Moves g s (authorized c now).0
unfolding authorized
authorized-Moves c now m = stop_on-Moves _ _ (live-Moves c now m)

pub mark_ready-Moves : {g : Allowed} {s : Conn} (c : Conn) → Moves g s c → Moves g s (mark_ready c)
unfolding mark_ready
mark_ready-Moves c m =
    elim (Bool-cases (not c.ready_closed && (c.grant_sent && is_some c.lease_deadline))) [
      | inl t ↦ rw (t) (next m (readies (ground arith) (ground arith) refl))
      | inr t ↦ rw (t) m
    ]

pub enqueue_control-Moves :
    {g : Allowed} {s : Conn} (f : Frame) (c : Conn)
    → Moves g s c
    → Moves g s (enqueue_control f c).0
unfolding enqueue_control
enqueue_control-Moves {g} {s} f c m = elim (Option-cases c.err) [
  | inr (e, q) ↦ rw (q, enqueue_control) m
  | inl q ↦
      rw (q, enqueue_control)
        (branch (MovesFirst g s) (ltb (length c.control) 4) _ (c, some protocol)
          (λ t. next m (queues f q (ground arith) refl)) (λ t. m))
]

pub observe_peer-Moves :
    {g : Allowed} {s : Conn} (callback : Option (ℕ → Bool)) (generation : ℕ) (c : Conn)
    → Moves g s c
    → Moves g s (observe_peer callback generation c).0
unfolding observe_peer
observe_peer-Moves {g} {s} callback generation c m =
    branch (MovesFirst g s) (generation == 0 || ltb generation c.peer_generation) (c, some protocol)
      _ (λ t. m)
      (λ t.
        branch (MovesFirst g s) (generation == c.peer_generation) (c, none) _ (λ u. m)
          (λ u.
            pick (MovesFirst g s) callback (next m (meets generation (ground arith) refl))
              (λ accepts.
                choose (MovesFirst g s) (accepts generation) _ (c, some protocol)
                  (next m (meets generation (ground arith) refl)) m)))

pub answer_challenge-Moves :
    {g : Allowed} {s : Conn} (f : Frame) (generation : ℕ) (c : Conn)
    → Moves g s c
    → Moves g s (answer_challenge f generation c).0
unfolding answer_challenge
answer_challenge-Moves {g} {s} f generation c m =
    branch (MovesFirst g s)
      (be_get (drop 72 f.payload) == 0
        || ltb max_lease_duration (be_get (drop 72 f.payload))
        || c.have_peer_nonce && bytes_eq (slice f.payload 40 72) c.last_peer_nonce)
      (c, some protocol) _ (λ t. m)
      (λ t.
        enqueue_control-Moves _ _ (next m (remembers (slice f.payload 40 72) (ground arith) refl)))

pub accept_grant-Moves :
    {g : Allowed} {s : Conn} (f : Frame) (now : Instant) (c : Conn)
    → g.grants ≡ true
    → Moves g s c
    → Moves g s (accept_grant f now c).0
unfolding accept_grant
accept_grant-Moves {g} {s} f now c q m =
    branch (MovesFirst g s)
      (be_get (drop 80 f.payload) == 0 || ltb c.lease_duration (be_get (drop 80 f.payload)))
      (c, some protocol) _ (λ t. m)
      (λ t.
        branch (MovesFirst g s) _ (c, some protocol)
          (mark_ready (renewed (be_get (drop 80 f.payload)) c), none) (λ u. m)
          (λ u.
            mark_ready-Moves _
              (next m (renews (be_get (drop 80 f.payload)) q (ground arith) (ground arith) refl))))

issue_after-Moves :
    {g : Allowed} {s : Conn} (nonce : Bytes) (now : Instant) (c : Conn) (e : Option Error)
    → g.nonces nonce ≡ true
    → (e ≡ none → (c.last_clock ≡ now) × (c.last_wall ≡ now.wall))
    → Moves g s c
    → Moves g s (issue_after nonce now c e).0
issue_after-Moves nonce now c (some e) a moves m = m
issue_after-Moves {g} {s} nonce now c none a moves m =
    branch (MovesFirst g s) c.pending (c, none) _ (λ t. m)
      (λ t.
        enqueue_control-Moves _ _
          (next m (issues nonce now a t (moves refl).0 (moves refl).1 refl)))

pub begin_challenge-Moves :
    {g : Allowed} {s : Conn} (nonce : Bytes) (now : Instant) (c : Conn)
    → g.nonces nonce ≡ true
    → Moves g s c
    → Moves g s (begin_challenge nonce now c).0
unfolding begin_challenge
begin_challenge-Moves nonce now c a m =
    issue_after-Moves nonce now _ _ a (live-moves c now) (live-Moves c now m)

pub dispatch-Moves :
    {g : Allowed} {s : Conn} (f : Frame) (generation : ℕ) (now : Instant) (c : Conn)
    (e : Option Error)
    → ((f.kind == kind_grant) ≡ true → g.grants ≡ true)
    → Moves g s c
    → Moves g s (dispatch f generation now c e).0
dispatch-Moves f generation now c (some e) q m = m
dispatch-Moves {g} {s} f generation now c none q m =
    choose (MovesFirst g s) (f.kind == kind_challenge) _ _ (answer_challenge-Moves f generation c m)
      (branch (MovesFirst g s) (f.kind == kind_grant) _ (c, some protocol)
        (λ t. accept_grant-Moves f now c (q t) m) (λ t. m))

after_peer-Moves :
    {g : Allowed} {s : Conn} (answer : PolicyAnswer) (f : Frame) (generation : ℕ) (now : Instant)
    (c : Conn) (e : Option Error)
    → ((f.kind == kind_grant) ≡ true → g.grants ≡ true)
    → Moves g s c
    → Moves g s (after_peer answer f generation now c e).0
unfolding after_peer
after_peer-Moves answer f generation now c (some e) q m = m
after_peer-Moves {g} {s} answer f generation now c none q m =
    choose (MovesFirst g s) (f.kind == kind_lock) (c, some peer_lock) _ m
      (pick (MovesFirst g s) (check_policy answer c)
        (dispatch-Moves f generation now _ _ q (live-Moves c now m)) (λ e. m))

pub receive_control-Moves :
    {g : Allowed} {s : Conn} (callback : Option (ℕ → Bool)) (answer : PolicyAnswer) (f : Frame)
    (now : Instant) (c : Conn)
    → ((f.kind == kind_grant) ≡ true → g.grants ≡ true)
    → Moves g s c
    → Moves g s (receive_control callback answer f now c).0
unfolding receive_control
receive_control-Moves {g} {s} callback answer f now c q m =
    choose (MovesFirst g s) (not (bytes_eq (take 32 f.payload) c.inbound)) (c, some protocol) _ m
      (after_peer-Moves answer f (be_get (slice f.payload 32 40)) now _
        (observe_peer callback (be_get (slice f.payload 32 40)) c).1 q
        (observe_peer-Moves callback (be_get (slice f.payload 32 40)) c m))
