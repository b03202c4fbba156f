-- ===== src/Prelude/Fields.antt =====
-- A byte string cut into fields of given sizes, and put together again.
use own_transit.Prelude.{
  ℕ, zero, suc, ◌+◌, ◌≤◌, ◌≡◌, refl, List, [], ◌∷◌, ◌++◌, length, take, drop, map, Bytes, IsByte,
  All, All-take, All-drop, arith, length-take_all, length-drop, take-append-drop, take-append,
  drop-append, length-append,
}

unfoldable pub join : List Bytes → Bytes
join [] = []
join (f ∷ fs) = f ++ join fs

-- What stands behind the last field is left out.
unfoldable pub cut : List ℕ → Bytes → List Bytes
cut [] bytes = []
cut (n ∷ ns) bytes = take n bytes ∷ cut ns (drop n bytes)

abbrev pub sum : List ℕ → ℕ
sum [] = 0
sum (n ∷ ns) = n + sum ns

abbrev pub field : List Bytes → ℕ → Bytes
field [] i = []
field (f ∷ fs) zero = f
field (f ∷ fs) (suc i) = field fs i

pub cut-join : (fs : List Bytes) → cut (map length fs) (join fs) ≡ fs
unfolding cut join
cut-join [] = refl
cut-join (f ∷ fs) =
    rw
      (
        take-append (length f) f (join fs) refl,
        drop-append (length f) f (join fs) refl,
        cut-join fs,
      )
      refl

pub join-cut : (ns : List ℕ) (bytes : Bytes) → length bytes ≡ sum ns → join (cut ns bytes) ≡ bytes
unfolding cut join
join-cut [] [] h = refl
join-cut [] (b ∷ bytes) h = absurd (omega arith)
join-cut (n ∷ ns) bytes h =
    rw (join-cut ns (drop n bytes) (omega (arith, length-drop n bytes))) (take-append-drop n bytes)

pub map-length-cut :
    (ns : List ℕ) (bytes : Bytes) → sum ns ≤ length bytes → map length (cut ns bytes) ≡ ns
unfolding cut
map-length-cut [] bytes h = refl
map-length-cut (n ∷ ns) bytes h =
    rw
      (
        length-take_all n bytes (omega arith),
        map-length-cut ns (drop n bytes) (omega (arith, length-drop n bytes)),
      )
      refl

pub cut-IsByte : (ns : List ℕ) (bytes : Bytes) → All IsByte bytes → All (All IsByte) (cut ns bytes)
unfolding cut
cut-IsByte [] bytes h = tt
cut-IsByte (n ∷ ns) bytes h =
    (All-take IsByte n bytes h, cut-IsByte ns (drop n bytes) (All-drop IsByte n bytes h))

pub length-join : (fs : List Bytes) → length (join fs) ≡ sum (map length fs)
unfolding join
length-join [] = refl
length-join (f ∷ fs) = omega (arith, length-append f (join fs), length-join fs)

pub field-cut : (n : ℕ) (ns : List ℕ) (bytes : Bytes) → field (cut (n ∷ ns) bytes) 0 ≡ take n bytes
unfolding cut
field-cut n ns bytes = refl
