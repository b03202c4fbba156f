-- ===== src/Guard.antt =====
-- internal/sessionguard/sessionguard.go: the idle and the absolute deadline of a joined stream. A guard
-- is its two durations and the deadlines that its two connections have; whether a `SetDeadline` fails is
-- an argument.
mod Runs
use own_transit.Prelude.{
  ℕ, ◌+◌, ◌≤◌, ◌<◌, ◌≡◌, refl, Bool, true, false, ◌||◌, Option, none, some, List, [], ◌∷◌, ltb, leb,
  ◌==◌, if◌then◌else◌, arith, inl, inr, Bool-cases,
}

pub record Guard : Type 0 where
  pub idle : ℕ
  pub expires : ℕ
  pub left : Option ℕ
  pub right : Option ℕ

pub data GuardError : Type 0 where
  lifetime_over deadline_failed : GuardError

-- `none` is a refusal.
unfoldable pub new_with_clock : ℕ → ℕ → ℕ → Option Guard
new_with_clock idle lifetime now =
    if idle == 0 || lifetime == 0 || ltb lifetime idle
    then none
    else some (record { idle = idle; expires = now + lifetime; left = none; right = none })

-- The clock and the failures of the two calls of `SetDeadline`.
pub record Moment : Type 0 where
  pub now : ℕ
  pub left_fails : Bool
  pub right_fails : Bool

abbrev pub next_deadline : Guard → ℕ → ℕ
next_deadline g now = if ltb g.expires (now + g.idle) then g.expires else now + g.idle

unfoldable pub touch : Moment → Guard → Guard × Option GuardError
touch m g =
    if leb g.expires m.now
    then (g, some lifetime_over)
    else if m.left_fails
    then (g, some deadline_failed)
    else if m.right_fails
    then (record g { left = some (next_deadline g m.now) }, some deadline_failed)
    else (
      record g { left = some (next_deadline g m.now); right = some (next_deadline g m.now) },
      none,
    )

-- `activityReader.Read` on a read that has delivered `count` bytes; a read without bytes asks nothing.
unfoldable pub after_read : ℕ → Moment → Guard → Guard × Option GuardError
unfolding touch
after_read count m g = if ltb 0 count then touch m g else (g, none)

unfoldable pub after_reads : List (ℕ × Moment) → Guard → Guard
unfolding after_read
after_reads [] g = g
after_reads ((count, m) ∷ reads) g = after_reads reads (after_read count m g).0

-- A deadline that is not behind the expiry.
abbrev Before : ℕ → Option ℕ → Type 0
Before expires none = Unit {0}
Before expires (some d) = d ≤ expires

pub record IsGuarded (expires : ℕ) (g : Guard) : Type 0 where
  pub fixed : g.expires ≡ expires
  pub left : Before expires g.left
  pub right : Before expires g.right

touch-IsGuarded :
    (expires : ℕ) (m : Moment) (g : Guard) → IsGuarded expires g → IsGuarded expires (touch m g).0
unfolding touch
touch-IsGuarded expires m g v = ground arith

after_reads-keeps :
    (expires : ℕ) (reads : List (ℕ × Moment)) (g : Guard)
    → IsGuarded expires g
    → IsGuarded expires (after_reads reads g)
unfolding after_reads after_read
after_reads-keeps expires [] g v = v
after_reads-keeps expires ((count, m) ∷ reads) g v = elim (Bool-cases (ltb 0 count)) [
  | inl t ↦ rw t (after_reads-keeps expires reads (touch m g).0 (touch-IsGuarded expires m g v))
  | inr t ↦ rw t (after_reads-keeps expires reads g v)
]

-- A new guard never lets a deadline pass the lifetime: whatever is read, and whenever, the expiry stays
-- where it was set, and no deadline of either connection lies behind it.
pub after_reads-IsGuarded :
    (idle lifetime now : ℕ) (g : Guard) (reads : List (ℕ × Moment))
    → new_with_clock idle lifetime now ≡ some g
    → IsGuarded (now + lifetime) (after_reads reads g)
unfolding new_with_clock
after_reads-IsGuarded idle lifetime now g reads e =
    after_reads-keeps (now + lifetime) reads g (ground arith)

-- Under a positive idle time, bytes that are read without an error are read before the expiry, and leave
-- both connections with one deadline, which is in the future and at most the idle time ahead.
pub after_read-success :
    (count : ℕ) (m : Moment) (g : Guard)
    → 0 < count
    → 0 < g.idle
    → (after_read count m g).1 ≡ none
    → (m.now < g.expires)
      × ((after_read count m g).0.left ≡ some (next_deadline g m.now))
      × ((after_read count m g).0.right ≡ some (next_deadline g m.now))
      × (m.now < next_deadline g m.now)
      × (next_deadline g m.now ≤ m.now + g.idle)
unfolding after_read touch
after_read-success count m g some_bytes positive e = ground arith

-- Once the lifetime is over, bytes are never read without an error, and no deadline moves.
pub after_read-late :
    (count : ℕ) (m : Moment) (g : Guard)
    → 0 < count
    → g.expires ≤ m.now
    → after_read count m g ≡ (g, some lifetime_over)
unfolding after_read touch
after_read-late count m g some_bytes late = ground arith
