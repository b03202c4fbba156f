-- ===== src/Lease/Handshake.antt =====
-- Two connections of one stream: what a grant says field by field, and when a connection takes a control frame
-- of its peer.
pub mod Fields
pub mod Hearing
pub mod Challenge
pub mod Grant
mod Runs
use own_transit.Prelude.{
  ℕ, ◌||◌, not, Bool, Option, some, ◌/◌, min, take, subst, ◌+◌, ◌^◌, ◌≤◌, ◌<◌, ◌≡◌, refl, sym, ap,
  ◌∙◌, true, false, ◌&&◌, none, [], ◌∷◌, ◌++◌, length, drop, Bytes, bytes_eq, bytes_eq_refl, ltb,
  leb, ◌==◌, ==_refl, if◌then◌else◌, arith, take-append, drop-append, drop-drop,
}
use own_transit.Prelude.BigEndian.{be_put, be_get, length-be_put, be_get-be_put}
use own_transit.Lease.{
  Conn, Frame, Instant, PolicyAnswer, add, before, check_policy, max_lease_duration, kind_grant,
  kind_lock,
}
use own_transit.Lease.Clock.{is_some, mark_ready, live, clock_jumped, deadline_of}
use own_transit.Lease.Control.{
  slice, challenge_frame, grant_frame, answer_challenge, answer_with, accept_grant, enqueue_control,
  renewed, observe_peer, after_peer, receive_control, dispatch,
}

-- The duration that the answer to a challenge grants: the shorter of the two sides'.
abbrev pub agreed : Conn → Conn → ℕ
agreed a b = min a.lease_duration b.lease_duration

-- The frame is a grant of `b` for the challenge of `a` with this nonce, field by field.
pub record GrantOf (a b : Conn) (nonce : Bytes) (f : Frame) : Type 0 where
  pub kind : f.kind ≡ kind_grant
  pub binding : take 32 f.payload ≡ b.outbound
  pub sender : be_get (slice f.payload 32 40) ≡ b.local_generation
  pub receiver : be_get (slice f.payload 40 48) ≡ a.local_generation
  pub answers : slice f.payload 48 80 ≡ nonce
  pub duration : be_get (drop 80 f.payload) ≡ agreed a b

abbrev pub Accepts : Option (ℕ → Bool) → ℕ → Type 0
Accepts none generation = Unit {0}
Accepts (some accepts) generation = accepts generation ≡ true

-- The connection is live at `now`, its policy agrees, and it takes this generation of the peer.
pub record Hears (callback : Option (ℕ → Bool)) (answer : PolicyAnswer) (generation : ℕ)
    (now : Instant) (c : Conn) : Type 0 where
  pub open_ : c.err ≡ none
  pub positive : 0 < generation
  pub not_older : c.peer_generation ≤ generation
  pub accepts : Accepts callback generation
  pub allowed : check_policy answer c ≡ none
  pub steady : clock_jumped c now ≡ false
  pub mono : now.mono < (deadline_of c).mono
  pub wall : now.wall < (deadline_of c).wall

abbrev pub heard : ℕ → Instant → Conn → Conn
heard generation now c = record c {
  peer_generation = generation;
  last_clock = now;
  last_wall = now.wall;
}
