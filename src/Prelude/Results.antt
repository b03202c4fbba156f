-- ===== src/Prelude/Results.antt =====
-- The Go pair of a value and an error, over a type of errors.
use mathlib.Core.Path.{◌≡◌, refl}
use mathlib.Core.Bool.{Bool, true, false, not, ◌||◌}
use mathlib.Core.Logic.{◌⊎◌, inl, inr}
use native.Mathlib.Omega.{arith}

pub data Outcome (E A : Type 0) : Type 0 where
  ok : A → Outcome E A
  err : E → Outcome E A

infixl 5 ◌>>=◌ ◌>>◌
abbrev pub ◌>>=◌ : {E A B : Type 0} → Outcome E A → (A → Outcome E B) → Outcome E B
ok a >>= f = f a
err e >>= f = err e

abbrev pub ◌>>◌ : {E B : Type 0} → Outcome E (Unit {0}) → Outcome E B → Outcome E B
m >> k = m >>= λ _. k

-- `if test { return e }`.
abbrev pub fail_if : {E : Type 0} → Bool → E → Outcome E (Unit {0})
fail_if true e = err e
fail_if false e = ok tt

pub Outcome-cases :
    {E A : Type 0} (m : Outcome E A) → ((a : A) × (m ≡ ok a)) ⊎ ((e : E) × (m ≡ err e))
Outcome-cases (ok a) = inl (a, refl)
Outcome-cases (err e) = inr (e, refl)

-- What a result says of the steps before it.
module _ {E A : Type 0} where
  pub bound :
      {B : Type 0} (m : Outcome E B) (f : B → Outcome E A) {a : A}
      → (m >>= f) ≡ ok a
      → (b : B) × (m ≡ ok b) × (f b ≡ ok a)
  bound (ok b) f h = (b, refl, h)
  bound (err e) f h = absurd (ground arith)

  abbrev ok_of : A → Outcome E A
  ok_of = ok

  pub ok_inj : {a b : A} → ok_of a ≡ ok b → a ≡ b
  ok_inj h = ground arith

pub fail_if-neither :
    {E : Type 0} (a b : Bool) (e : E) {u : Unit {0}}
    → fail_if (a || b) e ≡ ok u
    → (a ≡ false) × (b ≡ false)
fail_if-neither a b e h = ground arith

pub fail_if-both :
    {E : Type 0} (a b : Bool) (e : E) {u : Unit {0}}
    → fail_if (not a || not b) e ≡ ok u
    → (a ≡ true) × (b ≡ true)
fail_if-both a b e h = ground arith
