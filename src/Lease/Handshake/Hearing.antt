-- ===== src/Lease/Handshake/Hearing.antt =====
-- `receiveControl` up to the kinds of frames, on a connection that takes the frame.
use own_transit.Prelude.{
  ℕ, Bool, Option, some, take, ◌≡◌, refl, ap, ◌∙◌, true, false, none, bytes_eq_refl, ltb, leb, ◌==◌,
  arith,
}
use own_transit.Prelude.BigEndian.{be_get}
use own_transit.Lease.{Conn, Frame, Instant, PolicyAnswer, check_policy, kind_lock}
use own_transit.Lease.Clock.{live, clock_jumped, deadline_of}
use own_transit.Lease.Control.{slice, observe_peer, after_peer, receive_control, dispatch}
use own_transit.Lease.Handshake.{Hears, heard}

observe_peer-Hears :
    (callback : Option (ℕ → Bool)) (answer : PolicyAnswer) (generation : ℕ) (now : Instant)
    (c : Conn)
    → Hears callback answer generation now c
    → observe_peer callback generation c ≡ (record c { peer_generation = generation }, none)
unfolding observe_peer
observe_peer-Hears none answer generation now c h =
    let p = h.positive in let n = h.not_older in ground arith
observe_peer-Hears (some accepts) answer generation now c h =
    let p = h.positive in
    let n = h.not_older in let a : accepts generation ≡ true = h.accepts in ground arith

live-early :
    (c : Conn) (now : Instant)
    → c.err ≡ none
    → clock_jumped c now ≡ false
    → ltb now.mono (deadline_of c).mono ≡ true
    → leb (deadline_of c).wall now.wall ≡ false
    → live c now ≡ (record c { last_clock = now; last_wall = now.wall }, none)
unfolding live
live-early c now open_ steady early live_ = ground (arith, open_, steady, early, live_)

live-Hears :
    (callback : Option (ℕ → Bool)) (answer : PolicyAnswer) (generation : ℕ) (now : Instant)
    (c : Conn)
    → Hears callback answer generation now c
    → live (record c { peer_generation = generation }) now ≡ (heard generation now c, none)
unfolding live clock_jumped
live-Hears callback answer generation now c h =
    let steady : clock_jumped (record c { peer_generation = generation }) now ≡ false = h.steady in
    let m = h.mono in
    let w = h.wall in
    let early : ltb now.mono (deadline_of c).mono ≡ true = ground (arith, m) in
    let live_ : leb (deadline_of c).wall now.wall ≡ false = ground (arith, w) in
    live-early (record c { peer_generation = generation }) now h.open_ steady early live_

after_peer-Hears :
    (callback : Option (ℕ → Bool)) (answer : PolicyAnswer) (f : Frame) (generation : ℕ)
    (now : Instant) (c : Conn)
    → Hears callback answer generation now c
    → (f.kind == kind_lock) ≡ false
    → after_peer answer f generation now (record c { peer_generation = generation }) none
      ≡ dispatch f generation now (heard generation now c) none
unfolding after_peer check_policy
after_peer-Hears callback answer f generation now c h k =
    rw (k, h.allowed, live-Hears callback answer generation now c h) refl

pub receive_control-Hears :
    (callback : Option (ℕ → Bool)) (answer : PolicyAnswer) (f : Frame) (generation : ℕ)
    (now : Instant) (c : Conn)
    → take 32 f.payload ≡ c.inbound
    → be_get (slice f.payload 32 40) ≡ generation
    → (f.kind == kind_lock) ≡ false
    → Hears callback answer generation now c
    → receive_control callback answer f now c
      ≡ dispatch f generation now (heard generation now c) none
unfolding receive_control
receive_control-Hears callback answer f generation now c binding sender k h =
    let seen : observe_peer callback (be_get (slice f.payload 32 40)) c
        ≡ (record c { peer_generation = generation }, none) =
      ap (λ g. observe_peer callback g c) sender
      ∙ observe_peer-Hears callback answer generation now c h in
    rw (binding, bytes_eq_refl c.inbound, seen)
      (ap (λ g. after_peer answer f g now (record c { peer_generation = generation }) none) sender
        ∙ after_peer-Hears callback answer f generation now c h k)
