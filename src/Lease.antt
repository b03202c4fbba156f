-- ===== src/Lease.antt =====
-- internal/leasewire: the authorization lease inside an authenticated stream. A connection is its
-- mutable fields, and time is an argument. The operations that hold the mutex throughout are one step;
-- `receive_control`, `read_data`, `transmit` and `watch` are a pass of a loop with nothing in
-- between, and Loops has the critical sections of a pass as events of their own. A time has the monotonic
-- and the wall reading that Go keeps in a `time.Time`, in nanoseconds.
mod Wire
pub mod Clock
pub mod Control
pub mod Loops
pub mod Frames
pub mod Moves
pub mod Authority
pub mod Terminal
pub mod Replay
pub mod Readiness
pub mod Handshake
mod Samples
mod Runs
use own_transit.Prelude.{
  ℕ, ◌+◌, ◌-◌, ◌*◌, ◌≡◌, Bool, true, false, not, ◌&&◌, ◌||◌, Option, none, some, List, [], ◌∷◌,
  ◌++◌, length, Bytes, ltb, leb, ◌==◌, if◌then◌else◌,
}
pub use Wire.{
  Error, protocol, expired, locked, peer_lock, policy, clock, closed, io, Frame, kind_data,
  kind_challenge, kind_grant, kind_lock,
}

pub record Instant : Type 0 where
  pub mono : ℕ
  pub wall : ℕ

-- `t.Add(d)`.
abbrev pub add : Instant → ℕ → Instant
add t d = record { mono = t.mono + d; wall = t.wall + d }

-- `t.Before(u)`, which compares the monotonic readings.
abbrev pub before : Instant → Instant → Bool
before t u = ltb t.mono u.mono

abbrev pub max_lease_duration : ℕ
max_lease_duration = 60_000_000_000

abbrev pub max_renew_every : ℕ
max_renew_every = 20_000_000_000

abbrev pub clock_tolerance : ℕ
clock_tolerance = 250_000_000

-- The fields of `Conn` that the lease rests on; `done` is closed exactly if `err` is set, and the zero
-- `leaseDeadline` is `none`. `control` is the queue of that name.
pub record Conn : Type 0 where
  pub lease_duration : ℕ
  pub renew_every : ℕ
  pub outbound : Bytes
  pub inbound : Bytes
  pub local_generation : ℕ
  pub err : Option Error
  pub last_clock : Instant
  pub last_wall : ℕ
  pub initial_deadline : Instant
  pub lease_deadline : Option Instant
  pub next_renew : Instant
  pub pending : Bool
  pub nonce : Bytes
  pub challenge_deadline : Instant
  pub challenge_issued : Instant
  pub peer_generation : ℕ
  pub last_peer_nonce : Bytes
  pub have_peer_nonce : Bool
  pub grant_sent : Bool
  pub ready_closed : Bool
  pub control : List Frame

-- The answer of the caller's `Policy` callback at a call.
pub record PolicyAnswer : Type 0 where
  pub generation : ℕ
  pub is_locked : Bool
  pub failed : Bool

-- `stop`: the first error stays, and closes the connection.
unfoldable pub stop : Error → Conn → Conn
stop e c = elim c.err [ some first ↦ c | none ↦ record c { err = some e } ]

unfoldable pub check_policy : PolicyAnswer → Conn → Option Error
check_policy answer c =
    if answer.is_locked
    then some locked
    else if answer.failed || not (answer.generation == c.local_generation)
    then some policy
    else none
