-- ===== src/Prelude/BigEndian.antt =====
-- encoding/binary's big-endian integers, of any width.
use native.Mathlib.Nat.{
  pow-suc, div-div-eq-div-mul, div-add-mod, mul-add-div_right, mul_assoc, mul_comm,
  mul-le-mul_right, div-eq_of_lt,
}
use own_transit.Prelude.{
  ℕ, zero, suc, ◌+◌, ◌*◌, ◌/◌, ◌%◌, ◌^◌, ◌<◌, ◌≡◌, refl, [], ◌∷◌, length, Bytes, IsByte, All, arith,
  ap, ◌≤◌, sym,
}

-- The `k` bytes of `v`, most significant first.
unfoldable pub be_put : ℕ → ℕ → Bytes
be_put zero v = []
be_put (suc k) v = (v / 256 ^ k % 256) ∷ be_put k v

unfoldable pub be_get : Bytes → ℕ
be_get [] = 0
be_get (b ∷ bs) = b * 256 ^ length bs + be_get bs

pub length-be_put : (k v : ℕ) → length (be_put k v) ≡ k
unfolding be_put
length-be_put zero v = refl
length-be_put (suc k) v = ap suc (length-be_put k v)

-- What is written is the value without the part that the width cuts off.
be_get-be_put_split : (k v : ℕ) → be_get (be_put k v) + v / 256 ^ k * 256 ^ k ≡ v
unfolding be_put be_get
be_get-be_put_split zero v = omega arith
be_get-be_put_split (suc k) v =
    let m = 256 ^ k in
    let q = v / m in
    rw (length-be_put k v, pow-suc 256 k, ← div-div-eq-div-mul v m 256)
      (omega (arith, be_get-be_put_split k v, ap (λ (t : ℕ). t * m) (div-add-mod q 256)))

pub be_get-be_put : (k v : ℕ) → v < 256 ^ k → be_get (be_put k v) ≡ v
be_get-be_put k v h = grind (arith, be_get-be_put_split k v)

power_positive : (k : ℕ) → 0 < 256 ^ k
power_positive zero = omega arith
power_positive (suc k) = rw (pow-suc 256 k) (omega (arith, power_positive k))

-- The width cuts off what lies above it.
be_put_above : (k c v : ℕ) → be_put k (c * 256 ^ k + v) ≡ be_put k v
unfolding be_put
be_put_above zero c v = refl
be_put_above (suc k) c v =
    rw (regroup, mul-add-div_right (power_positive k) (c * 256) v, be_put_above k (c * 256) v)
      (ap (λ (d : ℕ). d ∷ be_put k v) (omega arith))
  where
    regroup : c * 256 ^ suc k ≡ c * 256 * 256 ^ k
    regroup = rw (pow-suc 256 k, mul_comm (256 ^ k) 256) (sym (mul_assoc c 256 (256 ^ k)))

pub be_get-lt : (bs : Bytes) → All IsByte bs → be_get bs < 256 ^ length bs
unfolding be_get
be_get-lt [] h = omega arith
be_get-lt (b ∷ bs) (h, hs) = rw (pow-suc 256 (length bs)) (omega (arith, be_get-lt bs hs, room))
  where
    room : (b + 1) * 256 ^ length bs ≤ 256 * 256 ^ length bs
    room = mul-le-mul_right (256 ^ length bs) (omega arith)

-- The bytes of the number that bytes stand for.
pub be_put-be_get : (bs : Bytes) → All IsByte bs → be_put (length bs) (be_get bs) ≡ bs
unfolding be_put be_get
be_put-be_get [] h = refl
be_put-be_get (b ∷ bs) (h, hs) =
    rw
      (
        mul-add-div_right (power_positive (length bs)) b (be_get bs),
        div-eq_of_lt (be_get-lt bs hs),
        be_put_above (length bs) b (be_get bs),
        be_put-be_get bs hs,
      )
      (ap (λ (d : ℕ). d ∷ bs) (omega arith))
