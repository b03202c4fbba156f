-- ===== src/Lease/Terminal.antt =====
-- The first error of a connection, and the lock that its policy reports.
use own_transit.Prelude.{
  ℕ, ◌≡◌, refl, ◌∙◌, ◌∷◌, ◌==◌, bytes_eq_refl, Bool, true, false, Option, none, some, List, arith,
  take,
}
use own_transit.Prelude.BigEndian.{be_get}
use own_transit.Lease.{
  Conn, Error, Frame, Instant, PolicyAnswer, locked, check_policy, stop, kind_lock,
}
use own_transit.Lease.Clock.{authorized, live}
use own_transit.Lease.Control.{observe_peer, receive_control, after_peer, slice}
use own_transit.Lease.Loops.{
  Event, policy_ticks, data_leaves, data_arrives, control_arrives, control_leaves, read_control,
  write_next, step, run, poll_policy, transmit, read_data,
}
use own_transit.Lease.Moves.{
  Move, Moves-keep, anything, ticks, stops, readies, queues, issues, meets, remembers, renews,
  sends, takes, rest,
}
use own_transit.Lease.Moves.Steps.{run-Moves}

-- The error `e` is set.
record Stopped (e : Error) (c : Conn) : Type 0 where
  error : c.err ≡ some e

Move-Stopped : (e : Error) (a b : Conn) → Move anything a b → Stopped e a → Stopped e b
Move-Stopped e a b (ticks now x m w q) v = ground arith
Move-Stopped e a b (stops f x q) v = ground arith
Move-Stopped e a b (readies x y q) v = ground arith
Move-Stopped e a b (queues f x y q) v = ground arith
Move-Stopped e a b (issues nonce now allow p m w q) v = ground arith
Move-Stopped e a b (meets generation x q) v = ground arith
Move-Stopped e a b (remembers nonce x q) v = ground arith
Move-Stopped e a b (renews granted x y p q) v = ground arith
Move-Stopped e a b (sends q) v = ground arith
Move-Stopped e a b (takes f fs x q) v = ground arith

run-Stopped : (e : Error) (c : Conn) (es : List Event) → c.err ≡ some e → Stopped e (run es c)
run-Stopped e c es q =
    Moves-keep (Stopped e) (Move-Stopped e) (run-Moves es c rest) (record { error = q })

authorized-Stopped :
    (e : Error) (c : Conn) (now : Instant) → Stopped e c → (authorized c now).1 ≡ some e
unfolding authorized live
authorized-Stopped e c now v = ground arith

-- The first error of a connection is its answer forever, whatever happens afterwards.
pub authorized-run_stopped :
    (e : Error) (c : Conn) (now : Instant) (es : List Event)
    → c.err ≡ some e
    → (authorized (run es c) now).1 ≡ some e
authorized-run_stopped e c now es q = authorized-Stopped e (run es c) now (run-Stopped e c es q)

-- The events at which a connection asks the policy before anything else could stop it: the regular check, DATA in
-- either direction, a control that leaves the queue, and a control of the peer's binding and of an acceptable generation that is no
-- lock.
pub data Asks (answer : PolicyAnswer) (c : Conn) (event : Event) : Type 0 where
  on_tick : event ≡ policy_ticks answer → Asks answer c event
  on_read : (now : Instant) → event ≡ data_arrives answer now → Asks answer c event
  on_write :
      (f : Frame) (written : Option Error) (now later : Instant)
      → event ≡ data_leaves answer f written now later
      → Asks answer c event
  on_control_write :
      (f : Frame) (others : List Frame) (written : Option Error) (now : Instant)
      → c.control ≡ f ∷ others
      → event ≡ control_leaves answer written now
      → Asks answer c event
  on_control_read :
      (callback : Option (ℕ → Bool)) (f : Frame) (now : Instant)
      → take 32 f.payload ≡ c.inbound
      → (observe_peer callback (be_get (slice f.payload 32 40)) c).1 ≡ none
      → (f.kind == kind_lock) ≡ false
      → event ≡ control_arrives callback answer f now
      → Asks answer c event

observe_peer-err :
    (callback : Option (ℕ → Bool)) (generation : ℕ) (c : Conn)
    → (observe_peer callback generation c).0.err ≡ c.err
unfolding observe_peer
observe_peer-err callback generation c = ground arith

after_peer-locked :
    (answer : PolicyAnswer) (f : Frame) (generation : ℕ) (now : Instant) (c : Conn)
    (e : Option Error)
    → e ≡ none
    → answer.is_locked ≡ true
    → (f.kind == kind_lock) ≡ false
    → after_peer answer f generation now c e ≡ (c, some locked)
unfolding after_peer check_policy
after_peer-locked answer f generation now c (some e) q p k = absurd (cc q)
after_peer-locked answer f generation now c none q p k = rw (k, p) refl

receive_control-locked :
    (callback : Option (ℕ → Bool)) (answer : PolicyAnswer) (f : Frame) (now : Instant) (c : Conn)
    → take 32 f.payload ≡ c.inbound
    → (observe_peer callback (be_get (slice f.payload 32 40)) c).1 ≡ none
    → (f.kind == kind_lock) ≡ false
    → answer.is_locked ≡ true
    → receive_control callback answer f now c
      ≡ ((observe_peer callback (be_get (slice f.payload 32 40)) c).0, some locked)
unfolding receive_control
receive_control-locked callback answer f now c binding met k p =
    let o = observe_peer callback (be_get (slice f.payload 32 40)) c in
    rw
      (
        binding,
        bytes_eq_refl c.inbound,
        after_peer-locked answer f (be_get (slice f.payload 32 40)) now o.0 o.1 met p k,
      )
      refl

pub stop-open : (e : Error) (c : Conn) → c.err ≡ none → (stop e c).err ≡ some e
unfolding stop
stop-open e c q = rw q refl

asked-locked :
    (answer : PolicyAnswer) (event : Event) (c : Conn)
    → Asks answer c event
    → c.err ≡ none
    → answer.is_locked ≡ true
    → (step event c).err ≡ some locked
unfolding step poll_policy read_data read_control write_next transmit check_policy stop
asked-locked answer event c (on_tick r) p q = rw (r, q, p) refl
asked-locked answer event c (on_read now r) p q = rw (r, q, p) refl
asked-locked answer event c (on_write f written now later r) p q = rw (r, q, p) refl
asked-locked answer event c (on_control_write f others written now queue r) p q =
    rw (r, queue, q, p) refl
asked-locked answer event c (on_control_read callback f now binding met k r) p q =
    rw (r, receive_control-locked callback answer f now c binding met k q)
      (stop-open locked (observe_peer callback (be_get (slice f.payload 32 40)) c).0
        (observe_peer-err callback (be_get (slice f.payload 32 40)) c ∙ p))

-- A connection that is open when it asks the policy and the policy answers that it is locked is refused with
-- that error forever.
pub step-locked :
    (answer : PolicyAnswer) (event : Event) (c : Conn) (es : List Event) (now : Instant)
    → Asks answer c event
    → c.err ≡ none
    → answer.is_locked ≡ true
    → (authorized (run es (step event c)) now).1 ≡ some locked
step-locked answer event c es now asks open_ q =
    authorized-run_stopped locked (step event c) now es (asked-locked answer event c asks open_ q)
