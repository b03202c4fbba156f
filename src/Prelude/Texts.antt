-- ===== src/Prelude/Texts.antt =====
-- Go strings as lists of bytes: their order, and sets of them kept as sorted lists.
use Prim.Native.Char.{code}
use Prim.Native.String.{String}
use own_transit.Prelude.{
  ℕ, ◌+◌, ◌≡◌, ◌≢◌, refl, sym, subst, Bool, true, false, ◌&&◌, ◌||◌, Option, none, some, List, [],
  ◌∷◌, length, take, drop, Bytes, All, bytes_eq, bytes_eq→eq, ltb, ◌==◌, if◌then◌else◌, arith,
  Bool-cases, inl, inr,
}

-- The bytes of an ASCII text.
abbrev pub codes : String → Bytes
codes String.[] = []
codes (String.◌∷◌ c s) = code c ∷ codes s

-- `x < y` on strings.
unfoldable pub lex_lt : Bytes → Bytes → Bool
lex_lt [] [] = false
lex_lt [] (y ∷ ys) = true
lex_lt (x ∷ xs) [] = false
lex_lt (x ∷ xs) (y ∷ ys) = ltb x y || x == y && lex_lt xs ys

pub lex_lt_irrefl : (x : Bytes) → lex_lt x x ≡ false
unfolding lex_lt
lex_lt_irrefl [] = refl
lex_lt_irrefl (x ∷ xs) = ground (arith, lex_lt_irrefl xs)

pub lex_lt_trans : (x y z : Bytes) → lex_lt x y ≡ true → lex_lt y z ≡ true → lex_lt x z ≡ true
unfolding lex_lt
lex_lt_trans [] [] z h k = absurd (ground arith)
lex_lt_trans [] (y ∷ ys) [] h k = absurd (ground arith)
lex_lt_trans [] (y ∷ ys) (z ∷ zs) h k = refl
lex_lt_trans (x ∷ xs) [] z h k = absurd (ground arith)
lex_lt_trans (x ∷ xs) (y ∷ ys) [] h k = absurd (ground arith)
lex_lt_trans (x ∷ xs) (y ∷ ys) (z ∷ zs) h k = ground (arith, lex_lt_trans xs ys zs)

pub lex_lt-ne : (x y : Bytes) → lex_lt x y ≡ true → x ≢ y
lex_lt-ne x y h e =
    absurd (ground (arith, subst (λ z. lex_lt x z ≡ true) (sym e) h, lex_lt_irrefl x))

-- Whether a list has a string.
unfoldable pub has : List Bytes → Bytes → Bool
has [] x = false
has (y ∷ ys) x = bytes_eq y x || has ys x

-- The list is in strictly increasing order.
abbrev pub Increasing : List Bytes → Type 0
Increasing [] = Unit {0}
Increasing (x ∷ xs) = All (λ y. lex_lt x y ≡ true) xs × Increasing xs

pub All-below :
    (x y : Bytes) (xs : List Bytes)
    → lex_lt x y ≡ true
    → All (λ z. lex_lt y z ≡ true) xs
    → All (λ z. lex_lt x z ≡ true) xs
All-below x y [] h hs = tt
All-below x y (z ∷ zs) h (k, ks) = (lex_lt_trans x y z h k, All-below x y zs h ks)

-- A string below every member is not a member.
pub has-below : (x : Bytes) (xs : List Bytes) → All (λ z. lex_lt x z ≡ true) xs → has xs x ≡ false
unfolding has
has-below x [] h = refl
has-below x (z ∷ zs) (h, hs) =
    ground (arith, has-below x zs hs, bytes_eq→eq z x, λ (e : z ≡ x). lex_lt-ne x z h (sym e))

-- A string that a member of an increasing list lies above: the member is above its head too.
pub has-above :
    (x y : Bytes) (ys : List Bytes)
    → All (λ z. lex_lt y z ≡ true) ys
    → has ys x ≡ true
    → lex_lt y x ≡ true
unfolding has
has-above x y [] h e = absurd (ground arith)
has-above x y (z ∷ zs) (h, hs) e = elim (Bool-cases (bytes_eq z x)) [
  | inl same ↦ subst (λ w. lex_lt y w ≡ true) (bytes_eq→eq z x same) h
  | inr other ↦ has-above x y zs hs (ground arith)
]

-- `strings.Split` at one byte.
unfoldable pub split : ℕ → Bytes → List Bytes
split separator [] = [] ∷ []
split separator (c ∷ cs) =
    let rest = split separator cs in if c == separator then [] ∷ rest else prepend rest
  where
    prepend : List Bytes → List Bytes
    prepend [] = []
    prepend (part ∷ parts) = (c ∷ part) ∷ parts

-- `strings.Cut` at a text that is not empty.
unfoldable pub cut_text : Bytes → Bytes → Option (Bytes × Bytes)
cut_text separator [] = none
cut_text separator (c ∷ cs) =
    let rest = cut_text separator cs in
    if bytes_eq (take (length separator) (c ∷ cs)) separator
    then some ([], drop (length separator) (c ∷ cs))
    else prepend rest
  where
    prepend : Option (Bytes × Bytes) → Option (Bytes × Bytes)
    prepend none = none
    prepend (some (before, after)) = some (c ∷ before, after)

-- `strings.Count` of one byte.
unfoldable pub count_byte : ℕ → Bytes → ℕ
count_byte b [] = 0
count_byte b (c ∷ cs) = let rest = count_byte b cs in if c == b then rest + 1 else rest
