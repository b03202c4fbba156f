-- ===== src/Backoff/Runs.antt =====
-- A delay that doubles up to its maximum.
use own_transit.Prelude.{◌*◌, ◌^◌, ◌≡◌, refl, min, arith}
use own_transit.Backoff.{backoff_after, next_backoff, backoff_after-min}

doubled_twice : backoff_after 2 3 100 ≡ 12
unfolding backoff_after next_backoff
doubled_twice = refl

backoff_after-min_example : backoff_after 6 3 100 ≡ min 100 (3 * 2 ^ 6)
backoff_after-min_example = backoff_after-min 6 3 100 (omega arith)
