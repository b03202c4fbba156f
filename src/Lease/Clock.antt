-- ===== src/Lease/Clock.antt =====
-- The clock of a connection: `clockLocked`, `liveLocked` and `authorized`.
use own_transit.Prelude.{
  ◌+◌, ◌-◌, Bool, true, false, not, ◌&&◌, ◌||◌, Option, none, some, ltb, leb, if◌then◌else◌,
}
use own_transit.Lease.{
  Conn, Error, Instant, before, protocol, expired, clock, clock_tolerance, stop,
}

-- `elapsed < 0` and `wall < 0` are the first two tests; behind them both differences are numbers.
unfoldable pub clock_jumped : Conn → Instant → Bool
clock_jumped c now =
    ltb now.mono c.last_clock.mono
    || ltb now.wall c.last_wall
    || ltb (now.mono - c.last_clock.mono + clock_tolerance) (now.wall - c.last_wall)
    || ltb (now.wall - c.last_wall + clock_tolerance) (now.mono - c.last_clock.mono)

abbrev pub deadline_of : Conn → Instant
deadline_of c = elim c.lease_deadline [ none ↦ c.initial_deadline | some d ↦ d ]

-- The connection with its clock moved on, and the error, if any.
unfoldable pub live : Conn → Instant → Conn × Option Error
unfolding clock_jumped
live c now = elim c.err [
  | some e ↦ (c, some e)
  | none ↦
      if clock_jumped c now
      then (c, some clock)
      else (let ticked : Conn = record c { last_clock = now; last_wall = now.wall } in
          if not (before now (deadline_of c)) || leb (deadline_of c).wall now.wall
          then (ticked, some expired)
          else (ticked, none))
]

abbrev pub stop_on : Option Error → Conn → Conn
stop_on none c = c
stop_on (some e) c = stop e c

abbrev pub is_some {ℓ} : {A : Type ℓ} → Option A → Bool
is_some none = false
is_some (some a) = true

abbrev ready_error : Conn → Option Error → Option Error
ready_error c (some e) = some e
ready_error c none =
    if not c.ready_closed || not (is_some c.lease_deadline) then some protocol else none

-- What WaitReady, every DATA write, every received DATA frame and every Read ask last.
unfoldable pub authorized : Conn → Instant → Conn × Option Error
unfolding live stop
authorized c now = let (c', e) = live c now in (stop_on (ready_error c' e) c', ready_error c' e)

unfoldable pub mark_ready : Conn → Conn
mark_ready c =
    if not c.ready_closed && (c.grant_sent && is_some c.lease_deadline)
    then record c { ready_closed = true }
    else c
