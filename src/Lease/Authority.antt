-- ===== src/Lease/Authority.antt =====
-- How long a connection may carry DATA after its last grant (internal/leasewire/conn.go).
use own_transit.Prelude.{
  refl, ℕ, ◌+◌, ◌≤◌, ◌<◌, ◌≡◌, ◌||◌, Option, none, some, List, Bytes, ltb, leb, ◌==◌, arith,
  Outcome, ok, err, subst, branch, choose,
}
use own_transit.Lease.{
  Conn, Error, Instant, PolicyAnswer, max_lease_duration, max_renew_every, policy, locked,
}
use own_transit.Lease.Clock.{live, authorized}
use own_transit.Lease.Control.{begin_challenge, wrap, wrap_result, or_default, new_conn}
use own_transit.Lease.Loops.{Event, run}
use own_transit.Lease.Moves.{
  Move, Moves-keep, anything, no_grant, ticks, stops, readies, queues, issues, meets, remembers,
  renews, sends, takes, rest,
}
use own_transit.Lease.Moves.Controls.{begin_challenge-Moves}
use own_transit.Lease.Moves.Steps.{run-Moves, run-Moves-Silent, Silent}

-- A deadline lies at most `duration` behind the instant, on both clocks.
abbrev LeaseWithin : Option Instant → ℕ → ℕ → ℕ → Type 0
LeaseWithin none mono wall duration = Unit {0}
LeaseWithin (some d) mono wall duration = (d.mono ≤ mono + duration) × (d.wall ≤ wall + duration)

widen :
    (d : Option Instant) {mono wall mono' wall' : ℕ} (duration : ℕ)
    → mono ≤ mono'
    → wall ≤ wall'
    → LeaseWithin d mono wall duration
    → LeaseWithin d mono' wall' duration
widen none duration m w v = v
widen (some d) duration m w v = ground arith

record Bounded (c : Conn) : Type 0 where
  duration : c.lease_duration ≤ max_lease_duration
  lease : LeaseWithin c.lease_deadline c.last_clock.mono c.last_wall max_lease_duration
  issued_mono : c.challenge_issued.mono ≤ c.last_clock.mono
  issued_wall : c.challenge_issued.wall ≤ c.last_wall

Move-Bounded : (a b : Conn) → Move anything a b → Bounded a → Bounded b
Move-Bounded a b (ticks now e m w q) v = rw q (record {
  duration = v.duration;
  lease = widen a.lease_deadline max_lease_duration m w v.lease;
  issued_mono = omega arith;
  issued_wall = omega arith;
})
Move-Bounded a b (stops e x q) v = ground arith
Move-Bounded a b (readies x y q) v = ground arith
Move-Bounded a b (queues f x y q) v = ground arith
Move-Bounded a b (issues nonce now allow p m w q) v = rw q (record {
  duration = v.duration;
  lease = v.lease;
  issued_mono = ground arith;
  issued_wall = ground arith;
})
Move-Bounded a b (meets generation x q) v = ground arith
Move-Bounded a b (remembers nonce x q) v = ground arith
Move-Bounded a b (renews granted x y p q) v = rw q (record {
  duration = v.duration;
  lease = (omega arith, omega arith);
  issued_mono = v.issued_mono;
  issued_wall = v.issued_wall;
})
Move-Bounded a b (sends q) v = ground arith
Move-Bounded a b (takes f fs x q) v = ground arith

-- A deadline, if there is one, within `max_lease_duration` of a reading of the clocks.
record Short (mono wall : ℕ) (c : Conn) : Type 0 where
  lease : LeaseWithin c.lease_deadline mono wall max_lease_duration

Move-Short :
    (mono wall : ℕ) (a b : Conn) → Move no_grant a b → Short mono wall a → Short mono wall b
Move-Short mono wall a b (ticks now e m w q) v = ground arith
Move-Short mono wall a b (stops e x q) v = ground arith
Move-Short mono wall a b (readies x y q) v = ground arith
Move-Short mono wall a b (queues f x y q) v = ground arith
Move-Short mono wall a b (issues nonce now allow p m w q) v = ground arith
Move-Short mono wall a b (meets generation x q) v = ground arith
Move-Short mono wall a b (remembers nonce x q) v = ground arith
Move-Short mono wall a b (renews granted x y p q) v = ground arith
Move-Short mono wall a b (sends q) v = ground arith
Move-Short mono wall a b (takes f fs x q) v = ground arith

-- What the refusals of `wrap` leave.
pub record Wrapped (lease renew : ℕ) (outbound inbound : Bytes) (generation : ℕ) (nonce : Bytes)
    (start now : Instant) (c : Conn) : Type 0 where
  duration : lease ≤ max_lease_duration
  pub made :
      c ≡ (begin_challenge nonce now (new_conn lease renew outbound inbound generation start)).0

wrap_result-made : (r : Conn × Option Error) {c : Conn} → wrap_result r ≡ ok c → c ≡ r.0
wrap_result-made (c, none) q = ground arith
wrap_result-made (c, some e) q = ground arith

pub wrap-Wrapped :
    (lease_option renew_option : ℕ) (outbound inbound : Bytes) (answer : PolicyAnswer)
    (nonce : Bytes) (start now : Instant) (c : Conn)
    → wrap lease_option renew_option outbound inbound answer nonce start now ≡ ok c
    → Wrapped
        (or_default lease_option max_lease_duration)
        (or_default renew_option max_renew_every)
        outbound
        inbound
        answer.generation
        nonce
        start
        now
        c
unfolding wrap
wrap-Wrapped lease_option renew_option outbound inbound answer nonce start now c =
    let lease = or_default lease_option max_lease_duration in
    let renew = or_default renew_option max_renew_every in
    branch Goal
      (leb lease 0
        || ltb max_lease_duration lease
        || leb renew 0
        || ltb max_renew_every renew
        || leb lease renew)
      (err policy) _ (λ t. λ e. ground arith)
      (λ t.
        choose Goal (answer.failed || answer.generation == 0) (err policy) _ (λ e. ground arith)
          (choose Goal answer.is_locked (err locked) _ (λ e. ground arith)
            (λ e. record { duration = ground arith; made = wrap_result-made _ e })))
  where
    Goal : Outcome Error Conn → Type 0
    Goal o =
        o ≡ ok c
        → Wrapped (or_default lease_option max_lease_duration)
            (or_default renew_option max_renew_every) outbound inbound answer.generation nonce start
            now c

new_conn-Bounded :
    (lease renew : ℕ) (outbound inbound : Bytes) (generation : ℕ) (start : Instant)
    → lease ≤ max_lease_duration
    → Bounded (new_conn lease renew outbound inbound generation start)
new_conn-Bounded lease renew outbound inbound generation start q = record {
  duration = q;
  lease = tt;
  issued_mono = omega arith;
  issued_wall = omega arith;
}

wrap-Bounded :
    (lease_option renew_option : ℕ) (outbound inbound : Bytes) (answer : PolicyAnswer)
    (nonce : Bytes) (start now : Instant) (c : Conn)
    → wrap lease_option renew_option outbound inbound answer nonce start now ≡ ok c
    → Bounded c
wrap-Bounded lease_option renew_option outbound inbound answer nonce start now c e =
    let w = wrap-Wrapped lease_option renew_option outbound inbound answer nonce start now c e in
    rw w.made (
      Moves-keep Bounded Move-Bounded (begin_challenge-Moves {g = anything} nonce now _ refl rest)
        (new_conn-Bounded _ _ outbound inbound answer.generation start w.duration))

authorized-deadline :
    (c : Conn) (now : Instant)
    → (authorized c now).1 ≡ none
    → (d : Instant) × (c.lease_deadline ≡ some d) × (now.mono < d.mono) × (now.wall < d.wall)
unfolding authorized live
authorized-deadline c now q = ground arith

Silent-Short :
    (c : Conn) (es : List Event)
    → Silent es
    → Bounded c
    → Short c.last_clock.mono c.last_wall (run es c)
Silent-Short c es quiet v =
    Moves-keep (Short c.last_clock.mono c.last_wall) (Move-Short _ _)
      (run-Moves-Silent es c quiet rest) (record { lease = v.lease })

expires :
    (c : Conn) (now : Instant) {mono wall : ℕ}
    → Short mono wall c
    → (authorized c now).1 ≡ none
    → (now.mono < mono + max_lease_duration) × (now.wall < wall + max_lease_duration)
expires c now {mono} {wall} short q =
    (omega (arith, found.2, within.0), omega (arith, found.3, within.1))
  where
    found : (d : Instant) × (c.lease_deadline ≡ some d) × (now.mono < d.mono) × (now.wall < d.wall)
    found = authorized-deadline c now q

    within : (found.0.mono ≤ mono + max_lease_duration) × (found.0.wall ≤ wall + max_lease_duration)
    within = subst (λ o. LeaseWithin o mono wall max_lease_duration) found.1 short.lease

-- Without grants the authority of a connection that `wrap` made ends within 60 seconds: if it has run
-- through any events, then through events without a grant, and is authorized after them, then each of
-- the two clocks is less than 60 seconds past its last reading before the events without a grant.
pub authorized-run-Silent :
    (lease_option renew_option : ℕ) (outbound inbound : Bytes) (answer : PolicyAnswer)
    (nonce : Bytes) (start first now : Instant) (c : Conn) (es silent : List Event)
    → wrap lease_option renew_option outbound inbound answer nonce start first ≡ ok c
    → Silent silent
    → (authorized (run silent (run es c)) now).1 ≡ none
    → (now.mono < (run es c).last_clock.mono + max_lease_duration)
      × (now.wall < (run es c).last_wall + max_lease_duration)
authorized-run-Silent lease_option renew_option outbound inbound answer nonce start first now c es
      silent e quiet q =
    expires (run silent (run es c)) now
      (Silent-Short (run es c) silent quiet (
        Moves-keep Bounded Move-Bounded (run-Moves es c rest)
          (wrap-Bounded lease_option renew_option outbound inbound answer nonce start first c e)))
      q
