-- ===== src/Lease/Moves.antt =====
-- The elementary changes of a connection that every critical section of internal/leasewire/conn.go
-- is made of; `Allowed` says whether a grant may be among them, and challenges with which nonces.
pub mod Controls
pub mod Steps
use own_transit.Prelude.{
  ℕ, ◌+◌, ◌≤◌, ◌<◌, ◌≡◌, refl, Bool, true, false, not, ◌&&◌, Option, none, some, List, [], ◌∷◌,
  ◌++◌, length, Bytes, bytes_eq,
}
use own_transit.Lease.{Conn, Error, Frame, Instant, add}
use own_transit.Lease.Clock.{is_some}
use own_transit.Lease.Control.{issue, renewed}

-- Which changes may be among them.
pub record Allowed : Type 0 where
  pub grants : Bool
  pub nonces : Bytes → Bool

abbrev pub anything : Allowed
anything = record { grants = true; nonces = λ nonce. true }

abbrev pub no_grant : Allowed
no_grant = record { grants = false; nonces = λ nonce. true }

-- Challenges with this nonce are not allowed.
abbrev pub without_nonce : Bytes → Allowed
without_nonce old = record { grants = true; nonces = λ nonce. not (bytes_eq nonce old) }

pub data Move (allowed : Allowed) (c c' : Conn) : Type 0 where
  ticks :
      (now : Instant)
      → c.err ≡ none
      → c.last_clock.mono ≤ now.mono
      → c.last_wall ≤ now.wall
      → c' ≡ record c { last_clock = now; last_wall = now.wall }
      → Move allowed c c'
  stops : (e : Error) → c.err ≡ none → c' ≡ record c { err = some e } → Move allowed c c'
  readies :
      c.grant_sent ≡ true
      → is_some c.lease_deadline ≡ true
      → c' ≡ record c { ready_closed = true }
      → Move allowed c c'
  queues :
      (f : Frame)
      → c.err ≡ none
      → length c.control < 4
      → c' ≡ record c { control = c.control ++ f ∷ [] }
      → Move allowed c c'
  issues :
      (nonce : Bytes) (now : Instant)
      → allowed.nonces nonce ≡ true
      → c.pending ≡ false
      → c.last_clock ≡ now
      → c.last_wall ≡ now.wall
      → c' ≡ issue c nonce now
      → Move allowed c c'
  meets :
      (generation : ℕ)
      → c.peer_generation < generation
      → c' ≡ record c { peer_generation = generation }
      → Move allowed c c'
  remembers :
      (nonce : Bytes)
      → (c.have_peer_nonce && bytes_eq nonce c.last_peer_nonce) ≡ false
      → c' ≡ record c { last_peer_nonce = nonce; have_peer_nonce = true }
      → Move allowed c c'
  renews :
      (granted : ℕ)
      → allowed.grants ≡ true
      → granted ≤ c.lease_duration
      → c.pending ≡ true
      → c' ≡ renewed granted c
      → Move allowed c c'
  sends : c' ≡ record c { grant_sent = true } → Move allowed c c'
  takes :
      (f : Frame) (rest : List Frame)
      → c.control ≡ f ∷ rest
      → c' ≡ record c { control = rest }
      → Move allowed c c'

pub data Moves (allowed : Allowed) (s : Conn) : Conn → Type 0 where
  rest : Moves allowed s s
  next : {c c' : Conn} → Moves allowed s c → Move allowed c c' → Moves allowed s c'

abbrev pub MovesFirst : {E : Type 0} → Allowed → Conn → Conn × E → Type 0
MovesFirst allowed s (c, e) = Moves allowed s c

-- A property that every change keeps is kept by all of them.
pub Moves-keep :
    (P : Conn → Type 0) {allowed : Allowed} {s c : Conn}
    → ((a b : Conn) → Move allowed a b → P a → P b)
    → Moves allowed s c
    → P s
    → P c
Moves-keep P keeps rest p = p
Moves-keep P keeps (next ms m) p = keeps _ _ m (Moves-keep P keeps ms p)
