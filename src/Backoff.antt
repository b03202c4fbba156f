-- ===== src/Backoff.antt =====
-- internal/connector/limits.go: the delay before the connector reconnects.
mod Runs
use own_transit.Prelude.{
  ℕ, zero, suc, ◌+◌, ◌-◌, ◌*◌, ◌/◌, ◌%◌, ◌^◌, ◌≤◌, ◌<◌, ◌≡◌, refl, min, Bool, true, false, ◌||◌,
  Option, none, some, Bytes, ltb, leb, if◌then◌else◌, arith, Bool-cases, inl, inr,
}
use native.Mathlib.Nat.{pow-suc}
use own_transit.Prelude.BigEndian.{be_get}

unfoldable pub next_backoff : ℕ → ℕ → ℕ
next_backoff current maximum =
    if leb maximum current || ltb (maximum / 2) current then maximum else current * 2

abbrev pub maximum_duration : ℕ
maximum_duration = 2 ^ 63 - 1

abbrev offset_of : ℕ → Bytes → ℕ
offset_of value random = be_get random % 2 ^ 64 % (value / 2 + 1)

-- `none` is a failure of the random source, which fills eight bytes.
unfoldable pub jitter_duration : Option Bytes → ℕ → ℕ
jitter_duration random value = if leb value 1 then value else elim random [
  | none ↦ value
  | some bytes ↦
      if ltb (maximum_duration - offset_of value bytes) value
      then value
      else value + offset_of value bytes
]

-- The delay after some failures in a row.
unfoldable pub backoff_after : ℕ → ℕ → ℕ → ℕ
backoff_after zero current maximum = current
backoff_after (suc n) current maximum = backoff_after n (next_backoff current maximum) maximum

next_backoff-min : (current maximum : ℕ) → next_backoff current maximum ≡ min maximum (current * 2)
unfolding next_backoff
next_backoff-min current maximum = ground arith

power_positive : (n : ℕ) → 0 < 2 ^ n
power_positive zero = omega arith
power_positive (suc n) = rw (pow-suc 2 n) (omega (arith, power_positive n))

grow : (x k : ℕ) → x ≤ x * suc k
grow x k = grind arith

product_assoc : (x k : ℕ) → x * 2 * suc k ≡ x * (suc k * 2)
product_assoc x k = grind arith

capped :
    (current maximum p : ℕ)
    → 0 < p
    → min maximum (min maximum (current * 2) * p) ≡ min maximum (current * (p * 2))
capped current maximum zero h = elim h [ ]
capped current maximum (suc k) h = elim (Bool-cases (leb (current * 2) maximum)) [
  | inl t ↦ rw (within t, product_assoc current k) refl
  | inr t ↦
      rw (beyond t)
        (omega (arith, grow maximum k, grow (current * 2) k, product_assoc current k, beyond t))
]
  where
    within : leb (current * 2) maximum ≡ true → min maximum (current * 2) ≡ current * 2
    within t = ground arith

    beyond : leb (current * 2) maximum ≡ false → min maximum (current * 2) ≡ maximum
    beyond t = ground arith

-- After `n` failures in a row the delay has doubled `n` times, up to the maximum, if it began within it.
pub backoff_after-min :
    (n current maximum : ℕ)
    → current ≤ maximum
    → backoff_after n current maximum ≡ min maximum (current * 2 ^ n)
unfolding backoff_after
backoff_after-min zero current maximum h = omega arith
backoff_after-min (suc n) current maximum h =
    rw
      (
        next_backoff-min current maximum,
        backoff_after-min n (min maximum (current * 2)) maximum (omega arith),
        pow-suc 2 n,
      )
      (capped current maximum (2 ^ n) (power_positive n))

-- The jitter of a delay that fits 64 bits never shortens it, adds at most half of it, and still fits.
pub jitter_duration-bounds :
    (random : Option Bytes) (value : ℕ)
    → value ≤ maximum_duration
    → (value ≤ jitter_duration random value)
      × (jitter_duration random value ≤ value + value / 2)
      × (jitter_duration random value ≤ maximum_duration)
unfolding jitter_duration
jitter_duration-bounds random value h = ground arith
