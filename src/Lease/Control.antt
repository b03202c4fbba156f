-- ===== src/Lease/Control.antt =====
-- The control channel: challenges, grants and locks (`Wrap`, `beginChallenge`, `observePeer` and
-- `receiveControl`). A random nonce is an argument; a failure of the random source is not modelled.
use own_transit.Prelude.{
  ℕ, ◌-◌, ◌/◌, Bool, true, false, not, ◌&&◌, ◌||◌, Option, none, some, [], ◌∷◌, ◌++◌, length, take,
  drop, Bytes, bytes_eq, ltb, leb, ◌==◌, if◌then◌else◌, Outcome, ok, err,
}
use own_transit.Prelude.BigEndian.{be_put, be_get}
use own_transit.Lease.{
  Conn, Error, Frame, Instant, PolicyAnswer, add, before, check_policy, protocol, peer_lock, policy,
  locked, kind_challenge, kind_grant, kind_lock, max_lease_duration, max_renew_every,
}
use own_transit.Lease.Clock.{live, mark_ready}

-- `b[from:to]`.
abbrev pub slice : Bytes → ℕ → ℕ → Bytes
slice b from to = take (to - from) (drop from b)

-- The queue holds four frames. A critical section that enqueues has just found the connection open.
unfoldable pub enqueue_control : Frame → Conn → Conn × Option Error
enqueue_control f c = elim c.err [
  | some e ↦ (c, some e)
  | none ↦
      if ltb (length c.control) 4
      then (record c { control = c.control ++ f ∷ [] }, none)
      else (c, some protocol)
]

abbrev pub challenge_frame : Conn → Bytes → Frame
challenge_frame c nonce = record {
  kind = kind_challenge;
  payload = c.outbound ++ (be_put 8 c.local_generation ++ (nonce ++ be_put 8 c.lease_duration));
}

abbrev pub issue : Conn → Bytes → Instant → Conn
issue c nonce now = record c {
  pending = true;
  nonce = nonce;
  challenge_issued = now;
  challenge_deadline = add now c.lease_duration;
  next_renew = add now c.renew_every;
}

-- The answer of `live` and what follows it.
abbrev pub issue_after : Bytes → Instant → Conn → Option Error → Conn × Option Error
issue_after nonce now c (some e) = (c, some e)
issue_after nonce now c none =
    if c.pending then (c, none) else enqueue_control (challenge_frame c nonce) (issue c nonce now)

unfoldable pub begin_challenge : Bytes → Instant → Conn → Conn × Option Error
unfolding enqueue_control live
begin_challenge nonce now c = issue_after nonce now (live c now).0 (live c now).1

-- `accepts` is the callback `OnPeerGeneration`, where there is one.
unfoldable pub observe_peer : Option (ℕ → Bool) → ℕ → Conn → Conn × Option Error
observe_peer callback generation c =
    if generation == 0 || ltb generation c.peer_generation
    then (c, some protocol)
    else if generation == c.peer_generation
    then (c, none)
    else elim callback [
      | none ↦ (record c { peer_generation = generation }, none)
      | some accepts ↦
          if accepts generation
          then (record c { peer_generation = generation }, none)
          else (c, some protocol)
    ]

abbrev pub grant_frame : Conn → ℕ → Bytes → ℕ → Frame
grant_frame c generation nonce granted = record {
  kind = kind_grant;
  payload =
      c.outbound
      ++ (be_put 8 c.local_generation ++ (be_put 8 generation ++ (nonce ++ be_put 8 granted)));
}

-- The case `kindChallenge`, on a connection that is live, with the two fields that it reads.
abbrev pub answer_with : Bytes → ℕ → ℕ → Conn → Conn × Option Error
answer_with nonce requested generation c =
    if requested == 0
      || ltb max_lease_duration requested
      || c.have_peer_nonce && bytes_eq nonce c.last_peer_nonce
    then (c, some protocol)
    else (let granted = if ltb c.lease_duration requested then c.lease_duration else requested in
        enqueue_control (grant_frame c generation nonce granted)
          (record c { last_peer_nonce = nonce; have_peer_nonce = true }))

unfoldable pub answer_challenge : Frame → ℕ → Conn → Conn × Option Error
unfolding enqueue_control
answer_challenge f generation c =
    answer_with (slice f.payload 40 72) (be_get (drop 72 f.payload)) generation c

-- What a grant does to the lease that it answers.
abbrev pub renewed : ℕ → Conn → Conn
renewed granted c =
    let next = add c.challenge_issued (granted / 3) in
    record c {
      lease_deadline = some (add c.challenge_issued granted);
      next_renew = if before next c.next_renew then next else c.next_renew;
      pending = false;
    }

-- The case `kindGrant`.
unfoldable pub accept_grant : Frame → Instant → Conn → Conn × Option Error
unfolding mark_ready
accept_grant f now c =
    let granted = be_get (drop 80 f.payload) in
    let deadline = add c.challenge_issued granted in
    if granted == 0 || ltb c.lease_duration granted
    then (c, some protocol)
    else if not c.pending
        || not (be_get (slice f.payload 40 48) == c.local_generation)
        || not (bytes_eq (slice f.payload 48 80) c.nonce)
        || not (before now deadline)
        || leb deadline.wall now.wall
    then (c, some protocol)
    else (mark_ready (renewed granted c), none)

abbrev pub dispatch : Frame → ℕ → Instant → Conn → Option Error → Conn × Option Error
dispatch f generation now c (some e) = (c, some e)
dispatch f generation now c none =
    if f.kind == kind_challenge
    then answer_challenge f generation c
    else if f.kind == kind_grant
    then accept_grant f now c
    else (c, some protocol)

-- `receiveControl` behind `observePeer`.
unfoldable pub after_peer :
    PolicyAnswer → Frame → ℕ → Instant → Conn → Option Error → Conn × Option Error
unfolding live answer_challenge accept_grant check_policy
after_peer answer f generation now c (some e) = (c, some e)
after_peer answer f generation now c none =
    if f.kind == kind_lock then (c, some peer_lock) else elim (check_policy answer c) [
      | some e ↦ (c, some e)
      | none ↦ dispatch f generation now (live c now).0 (live c now).1
    ]

unfoldable pub receive_control :
    Option (ℕ → Bool) → PolicyAnswer → Frame → Instant → Conn → Conn × Option Error
unfolding observe_peer after_peer
receive_control callback answer f now c =
    if not (bytes_eq (take 32 f.payload) c.inbound)
    then (c, some protocol)
    else (let generation = be_get (slice f.payload 32 40) in
        let (c', e) = observe_peer callback generation c in after_peer answer f generation now c' e)

-- `wrapWithClock` behind the validation of the binding: the durations, the policy and the first
-- challenge. `none` is a refusal.
abbrev pub or_default : ℕ → ℕ → ℕ
or_default v d = if v == 0 then d else v

abbrev pub epoch : Instant
epoch = record { mono = 0; wall = 0 }

abbrev pub new_conn : ℕ → ℕ → Bytes → Bytes → ℕ → Instant → Conn
new_conn lease renew outbound inbound generation start = record {
  lease_duration = lease;
  renew_every = renew;
  outbound = outbound;
  inbound = inbound;
  local_generation = generation;
  err = none;
  last_clock = start;
  last_wall = start.wall;
  initial_deadline = add start lease;
  lease_deadline = none;
  next_renew = epoch;
  pending = false;
  nonce = [];
  challenge_deadline = epoch;
  challenge_issued = epoch;
  peer_generation = 0;
  last_peer_nonce = [];
  have_peer_nonce = false;
  grant_sent = false;
  ready_closed = false;
  control = [];
}

abbrev pub wrap_result : Conn × Option Error → Outcome Error Conn
wrap_result (c, none) = ok c
wrap_result (c, some e) = err e

unfoldable pub wrap :
    ℕ → ℕ → Bytes → Bytes → PolicyAnswer → Bytes → Instant → Instant → Outcome Error Conn
unfolding begin_challenge
wrap lease_option renew_option outbound inbound answer nonce start now =
    let lease = or_default lease_option max_lease_duration in
    let renew = or_default renew_option max_renew_every in
    if leb lease 0
      || ltb max_lease_duration lease
      || leb renew 0
      || ltb max_renew_every renew
      || leb lease renew
    then err policy
    else if answer.failed || answer.generation == 0
    then err policy
    else if answer.is_locked
    then err locked
    else wrap_result
        (begin_challenge nonce now (new_conn lease renew outbound inbound answer.generation start))
