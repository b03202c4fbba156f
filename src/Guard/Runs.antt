-- ===== src/Guard/Runs.antt =====
-- A guard on a stream that is read three times.
use own_transit.Prelude.{ℕ, ◌≡◌, refl, false, none, some, List, [], ◌∷◌}
use own_transit.Guard.{
  Guard, Moment, IsGuarded, new_with_clock, after_read, after_reads, touch, after_reads-IsGuarded,
}

abbrev at : ℕ → Moment
at now = record { now = now; left_fails = false; right_fails = false }

abbrev guard : Guard
guard = record { idle = 10; expires = 125; left = none; right = none }

abbrev reads : List (ℕ × Moment)
reads = (3, at 101) ∷ (0, at 105) ∷ (7, at 120) ∷ []

guard_new : new_with_clock 10 25 100 ≡ some guard
unfolding new_with_clock
guard_new = refl

guard_last : (after_reads reads guard).right ≡ some 125
unfolding after_reads after_read touch
guard_last = refl

after_reads-IsGuarded_example : IsGuarded 125 (after_reads reads guard)
after_reads-IsGuarded_example = after_reads-IsGuarded 10 25 100 guard reads guard_new

touched : (after_read 3 (at 101) guard).1 ≡ none
unfolding after_read touch
touched = refl
