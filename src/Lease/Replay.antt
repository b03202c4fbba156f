-- ===== src/Lease/Replay.antt =====
-- Old messages of a peer: a generation from before one that was met, and a grant that was accepted.
use own_transit.Prelude.{
  ℕ, ◌≤◌, ◌<◌, ◌≡◌, refl, sym, ap, ◌∙◌, Bool, true, false, not, Option, none, some, List, arith,
  bytes_eq, take, drop, choose, Bytes, bytes_eq→eq, bytes_eq_refl, Bool-cases, inl, inr,
}
use own_transit.Prelude.BigEndian.{be_get}
use own_transit.Lease.{Conn, Error, Frame, Instant, PolicyAnswer, protocol, kind_grant}
use own_transit.Lease.Clock.{authorized, live, mark_ready}
use own_transit.Lease.Control.{
  observe_peer, receive_control, after_peer, slice, accept_grant, renewed,
}
use own_transit.Lease.Loops.{Event, control_arrives, control_handled, read_control, step, run}
use own_transit.Lease.Moves.{
  Move, Moves-keep, anything, without_nonce, ticks, stops, readies, queues, issues, meets,
  remembers, renews, sends, takes, rest,
}
use own_transit.Lease.Moves.Controls.{live-Moves}
use own_transit.Lease.Moves.Steps.{run-Moves, run-Moves_without, AllStart}
use own_transit.Lease.Terminal.{authorized-run_stopped, stop-open}

-- At least the generation `g` of the peer has been met.
record Met (g : ℕ) (c : Conn) : Type 0 where
  generation : g ≤ c.peer_generation

Move-Met : (g : ℕ) (a b : Conn) → Move anything a b → Met g a → Met g b
Move-Met g a b (ticks now x m w q) v = ground arith
Move-Met g a b (stops f x q) v = ground arith
Move-Met g a b (readies x y q) v = ground arith
Move-Met g a b (queues f x y q) v = ground arith
Move-Met g a b (issues nonce now allow p m w q) v = ground arith
Move-Met g a b (meets generation x q) v = rw q (record { generation = omega arith })
Move-Met g a b (remembers nonce x q) v = ground arith
Move-Met g a b (renews granted x y p q) v = ground arith
Move-Met g a b (sends q) v = ground arith
Move-Met g a b (takes f fs x q) v = ground arith

observe_peer-older :
    (callback : Option (ℕ → Bool)) (generation : ℕ) (c : Conn)
    → generation < c.peer_generation
    → observe_peer callback generation c ≡ (c, some protocol)
unfolding observe_peer
observe_peer-older callback generation c q = ground arith

receive_control-older :
    (callback : Option (ℕ → Bool)) (answer : PolicyAnswer) (f : Frame) (now : Instant) (c : Conn)
    → be_get (slice f.payload 32 40) < c.peer_generation
    → receive_control callback answer f now c ≡ (c, some protocol)
unfolding receive_control after_peer
receive_control-older callback answer f now c q =
    choose (λ r. r ≡ (c, some protocol)) (not (bytes_eq (take 32 f.payload) c.inbound)) _ _ refl
      (rw (observe_peer-older callback (be_get (slice f.payload 32 40)) c q) refl)

-- When a control frame of a generation of the peer older than one that was met arrives at a connection that is still
-- open, whatever has happened since, the connection is refused as a breach of the protocol forever.
pub step-rollback :
    (callback : Option (ℕ → Bool)) (answer : PolicyAnswer) (f : Frame) (now later : Instant)
    (c : Conn) (es after : List Event)
    → be_get (slice f.payload 32 40) < c.peer_generation
    → (run es c).err ≡ none
    → (authorized (run after (step (control_arrives callback answer f now) (run es c))) later).1
      ≡ some protocol
unfolding step read_control
step-rollback callback answer f now later c es after q open_ =
    authorized-run_stopped protocol (step (control_arrives callback answer f now) (run es c)) later
      after
      (rw (receive_control-older callback answer f now (run es c) (omega (arith, met)))
        (stop-open protocol (run es c) open_))
  where
    met : c.peer_generation ≤ (run es c).peer_generation
    met =
        (Moves-keep (Met c.peer_generation) (Move-Met c.peer_generation) (run-Moves es c rest)
          (record { generation = omega arith })).generation

mark_ready-pending : (c : Conn) → (mark_ready c).pending ≡ c.pending
unfolding mark_ready
mark_ready-pending c = ground arith

accept_grant-answers :
    (f : Frame) (now : Instant) (c : Conn)
    → (accept_grant f now c).1 ≡ none
    → (accept_grant f now c).0.pending ≡ false
unfolding accept_grant
accept_grant-answers f now c =
    choose Answers _ (c, some protocol) _ (λ q. ground arith)
      (choose Answers _ (c, some protocol)
        (mark_ready (renewed (be_get (drop 80 f.payload)) c), none) (λ q. ground arith)
        (λ q. mark_ready-pending (renewed (be_get (drop 80 f.payload)) c)))
  where
    Answers : Conn × Option Error → Type 0
    Answers (c, e) = e ≡ none → c.pending ≡ false

-- No challenge with this nonce waits for a grant.
data Answered (old : Bytes) (c : Conn) : Type 0 where
  idle : c.pending ≡ false → Answered old c
  newer : bytes_eq c.nonce old ≡ false → Answered old c

negated : (b : Bool) → not b ≡ true → b ≡ false
negated b h = ground arith

same_wait :
    (old : Bytes) (a b : Conn)
    → b.pending ≡ a.pending
    → b.nonce ≡ a.nonce
    → Answered old a
    → Answered old b
same_wait old a b p n (idle h) = idle (p ∙ h)
same_wait old a b p n (newer h) = newer (ap (λ nonce. bytes_eq nonce old) n ∙ h)

Move-Answered :
    (old : Bytes) (a b : Conn) → Move (without_nonce old) a b → Answered old a → Answered old b
Move-Answered old a b (issues nonce now allow p m w q) v =
    newer (ap (λ c. bytes_eq c.nonce old) q ∙ negated (bytes_eq nonce old) allow)
Move-Answered old a b (renews granted x y p q) v = idle (ap (λ c. c.pending) q)
Move-Answered old a b (ticks now x m w q) v =
    same_wait old a b (ap (λ c. c.pending) q) (ap (λ c. c.nonce) q) v
Move-Answered old a b (stops f x q) v =
    same_wait old a b (ap (λ c. c.pending) q) (ap (λ c. c.nonce) q) v
Move-Answered old a b (readies x y q) v =
    same_wait old a b (ap (λ c. c.pending) q) (ap (λ c. c.nonce) q) v
Move-Answered old a b (queues f x y q) v =
    same_wait old a b (ap (λ c. c.pending) q) (ap (λ c. c.nonce) q) v
Move-Answered old a b (meets generation x q) v =
    same_wait old a b (ap (λ c. c.pending) q) (ap (λ c. c.nonce) q) v
Move-Answered old a b (remembers nonce x q) v =
    same_wait old a b (ap (λ c. c.pending) q) (ap (λ c. c.nonce) q) v
Move-Answered old a b (sends q) v =
    same_wait old a b (ap (λ c. c.pending) q) (ap (λ c. c.nonce) q) v
Move-Answered old a b (takes f fs x q) v =
    same_wait old a b (ap (λ c. c.pending) q) (ap (λ c. c.nonce) q) v

different : (nonce old : Bytes) → bytes_eq nonce old ≡ false → bytes_eq old nonce ≡ false
different nonce old h = elim (Bool-cases (bytes_eq old nonce)) [
  | inr f ↦ f
  | inl t ↦
      absurd (cc (sym h ∙ ap (bytes_eq nonce) (bytes_eq→eq old nonce t) ∙ bytes_eq_refl nonce))
]

-- A grant for a nonce that no challenge waits for is refused.
accept_grant-stale :
    (f : Frame) (now : Instant) (c : Conn) (old : Bytes)
    → slice f.payload 48 80 ≡ old
    → Answered old c
    → accept_grant f now c ≡ (c, some protocol)
unfolding accept_grant
accept_grant-stale f now c old n (idle p) = ground arith
accept_grant-stale f now c old n (newer p) =
    let other : bytes_eq (slice f.payload 48 80) c.nonce ≡ false =
      ap (λ x. bytes_eq x c.nonce) n ∙ different c.nonce old p in
    ground arith

live-open : (c : Conn) (now : Instant) → (live c now).1 ≡ none → (live c now).0.err ≡ none
unfolding live
live-open c now q = ground arith

handled-refused :
    (f : Frame) (generation : ℕ) (now : Instant) (d : Conn)
    → f.kind ≡ kind_grant
    → (live d now).1 ≡ none
    → accept_grant f now (live d now).0 ≡ ((live d now).0, some protocol)
    → (step (control_handled f generation now) d).err ≡ some protocol
unfolding step
handled-refused f generation now d kind open_ refused =
    rw (open_, kind, refused) (stop-open protocol (live d now).0 (live-open d now open_))

-- A grant is accepted once: after its acceptance, and through any events that start no challenge with the same nonce, a
-- grant for this nonce that is handled while the connection is live is refused as a breach of the protocol, and the connection
-- with it forever.
pub accept_grant-replay :
    (f f' : Frame) (now later last : Instant) (generation : ℕ) (c : Conn) (es after : List Event)
    → (accept_grant f now c).1 ≡ none
    → f'.kind ≡ kind_grant
    → slice f'.payload 48 80 ≡ c.nonce
    → AllStart (λ nonce. not (bytes_eq nonce c.nonce)) es
    → (live (run es (accept_grant f now c).0) later).1 ≡ none
    → (authorized
        (run after (step (control_handled f' generation later) (run es (accept_grant f now c).0)))
        last).1
      ≡ some protocol
accept_grant-replay f f' now later last generation c es after accepted kind same fresh open_ =
    let c' = (accept_grant f now c).0 in
    let moves = live-Moves (run es c') later (run-Moves_without c.nonce es c' fresh rest) in
    let answered =
      Moves-keep (Answered c.nonce) (Move-Answered c.nonce) moves
        (idle (accept_grant-answers f now c accepted)) in
    authorized-run_stopped protocol _ last after (
      handled-refused f' generation later (run es c') kind open_
        (accept_grant-stale f' later (live (run es c') later).0 c.nonce same answered))
