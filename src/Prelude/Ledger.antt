-- ===== src/Prelude/Ledger.antt =====
-- A Go map from keys to records that carry their key, as a list: an entry is added only when its key
-- is absent, so `find` and `remove` meet the one entry of a key.
use mathlib.Core.Logic.{ite, if_pos, if_neg}
use own_transit.Prelude.{
  ℕ, suc, ◌≤◌, ◌≡◌, ◌≢◌, refl, sym, ◌∙◌, Bool, Option, none, some, List, [], ◌∷◌, length,
  if◌then◌else◌, arith, Bool-cases, inl, inr,
}

module _ {A : Type 0} where
  abbrev pub count_if : (A → Bool) → List A → ℕ
  count_if p [] = 0
  count_if p (x ∷ xs) = if p x then suc (count_if p xs) else count_if p xs

  abbrev pub select : (A → Bool) → List A → List A
  select p [] = []
  select p (x ∷ xs) = if p x then x ∷ select p xs else select p xs

  pub count_if-le-length : (p : A → Bool) (xs : List A) → count_if p xs ≤ length xs
  count_if-le-length p [] = omega arith
  count_if-le-length p (x ∷ xs) = ground (arith, count_if-le-length p xs)

module _ {A K : Type 0} (key : A → K) (same : Discrete K) where
  unfoldable pub find : K → List A → Option A
  find k [] = none
  find k (x ∷ xs) = ite (same (key x) k) (some x) (find k xs)

  unfoldable pub remove : K → List A → List A
  remove k [] = []
  remove k (x ∷ xs) = ite (same (key x) k) xs (x ∷ remove k xs)

  pub find-key : (k : K) (xs : List A) (x : A) → find k xs ≡ some x → key x ≡ k
  unfolding find
  find-key k [] x e = cc
  find-key k (y ∷ ys) x e = elim (same (key y) k) [
    | yes hit ↦ ground arith
    | no miss ↦ find-key k ys x (rw (if_neg _ miss) at e)
  ]

  pub count_if-remove :
      (p : A → Bool) (k : K) (xs : List A) (x : A)
      → find k xs ≡ some x
      → count_if p xs ≡ (if p x then suc (count_if p (remove k xs)) else count_if p (remove k xs))
  unfolding find remove
  count_if-remove p k [] x e = cc
  count_if-remove p k (y ∷ ys) x e = ground (arith, count_if-remove p k ys x)

  pub length-remove :
      (k : K) (xs : List A) (x : A) → find k xs ≡ some x → length xs ≡ suc (length (remove k xs))
  unfolding find remove
  length-remove k [] x e = cc
  length-remove k (y ∷ ys) x e = ground (arith, length-remove k ys x)

  pub find-remove_ne : (k j : K) (xs : List A) → j ≢ k → find j (remove k xs) ≡ find j xs
  unfolding find remove
  find-remove_ne k j [] h = refl
  find-remove_ne k j (y ∷ ys) h = ground (arith, find-remove_ne k j ys h)

  -- No two entries have one key.
  abbrev pub IsDistinct : List A → Type 0
  IsDistinct [] = Unit {0}
  IsDistinct (x ∷ xs) = (find (key x) xs ≡ none) × IsDistinct xs

  pub find-remove_self : (k : K) (xs : List A) → IsDistinct xs → find k (remove k xs) ≡ none
  unfolding find remove
  find-remove_self k [] d = refl
  find-remove_self k (y ∷ ys) d = ground (arith, find-remove_self k ys d.1)

  find-remove-none : (k j : K) (xs : List A) → find j xs ≡ none → find j (remove k xs) ≡ none
  unfolding find remove
  find-remove-none k j [] e = refl
  find-remove-none k j (y ∷ ys) e = ground (arith, find-remove-none k j ys)

  pub remove-IsDistinct : (k : K) (xs : List A) → IsDistinct xs → IsDistinct (remove k xs)
  unfolding remove
  remove-IsDistinct k [] d = tt
  remove-IsDistinct k (y ∷ ys) d =
      ground (arith, remove-IsDistinct k ys d.1, find-remove-none k (key y) ys d.0)

  find-cons_none :
      (k : K) (x : A) (xs : List A) → find k (x ∷ xs) ≡ none → (key x ≢ k) × (find k xs ≡ none)
  unfolding find
  find-cons_none k x xs e = elim (same (key x) k) [
    | yes hit ↦ absurd (ground arith)
    | no miss ↦ (miss, rw (if_neg _ miss) at e)
  ]

  -- Every entry of the first list is the one that the second holds under its key.
  abbrev pub AllFound : List A → List A → Type 0
  AllFound [] ys = Unit {0}
  AllFound (x ∷ xs) ys = (find (key x) ys ≡ some x) × AllFound xs ys

  AllFound-cons :
      (y : A) (xs ys : List A) → find (key y) xs ≡ none → AllFound xs ys → AllFound xs (y ∷ ys)
  unfolding find
  AllFound-cons y [] ys e h = tt
  AllFound-cons y (x ∷ xs) ys e h =
      let (apart, rest) = find-cons_none (key y) x xs e in
      (rw (if_neg _ (λ q. apart (sym q))) h.0, AllFound-cons y xs ys rest h.1)

  pub AllFound-remove :
      (k : K) (xs ys : List A) → find k xs ≡ none → AllFound xs ys → AllFound xs (remove k ys)
  AllFound-remove k [] ys e h = tt
  AllFound-remove k (x ∷ xs) ys e h =
      let (apart, rest) = find-cons_none k x xs e in
      (find-remove_ne k (key x) ys apart ∙ h.0, AllFound-remove k xs ys rest h.1)

  find-select-none :
      (p : A → Bool) (k : K) (xs : List A) → find k xs ≡ none → find k (select p xs) ≡ none
  unfolding find
  find-select-none p k [] e = refl
  find-select-none p k (x ∷ xs) e =
      let (apart, rest) = find-cons_none k x xs e in
      elim (Bool-cases (p x)) [
        | inl t ↦ rw (t, if_neg _ apart) (find-select-none p k xs rest)
        | inr t ↦ rw t (find-select-none p k xs rest)
      ]

  pub select-IsDistinct : (p : A → Bool) (xs : List A) → IsDistinct xs → IsDistinct (select p xs)
  select-IsDistinct p [] d = tt
  select-IsDistinct p (x ∷ xs) d = elim (Bool-cases (p x)) [
    | inl t ↦ rw t (find-select-none p (key x) xs d.0, select-IsDistinct p xs d.1)
    | inr t ↦ rw t (select-IsDistinct p xs d.1)
  ]

  pub select-AllFound : (p : A → Bool) (xs : List A) → IsDistinct xs → AllFound (select p xs) xs
  unfolding find
  select-AllFound p [] d = tt
  select-AllFound p (x ∷ xs) d =
      let rest : AllFound (select p xs) (x ∷ xs) =
        AllFound-cons x (select p xs) xs (find-select-none p (key x) xs d.0)
          (select-AllFound p xs d.1) in
      elim (Bool-cases (p x)) [
        | inl t ↦ rw t (if_pos (same (key x) (key x)) refl (some x) (find (key x) xs), rest)
        | inr t ↦ rw t rest
      ]
