-- ===== src/ReleasePolicy/Sets.antt =====
-- The comparison of two sorted lists of tombstones is the inclusion of two sets.
use own_transit.Prelude.{
  ◌≡◌, ◌↔◌, refl, sym, subst, true, false, none, some, List, [], ◌∷◌, Bytes, All, bytes_eq,
  bytes_eq→eq, bytes_eq_refl, arith, Bool-cases, inl, inr,
}
use own_transit.Prelude.Texts.{
  lex_lt, lex_lt_irrefl, has, Increasing, All-below, has-below, has-above,
}
use own_transit.ReleasePolicy.{Codec, contains_every, equal_strings, valid_tombstones}

pub contains_every-has :
    (values required : List Bytes)
    → contains_every values required ≡ true
    → (id : Bytes) → has required id ≡ true
    → has values id ≡ true
unfolding contains_every has
contains_every-has values [] h id m = absurd (ground arith)
contains_every-has [] (r ∷ rs) h id m = absurd (ground arith)
contains_every-has (v ∷ vs) (r ∷ rs) h id m = elim (Bool-cases (lex_lt r v)) [
  | inl below ↦ absurd (ground arith)
  | inr above ↦ elim (Bool-cases (bytes_eq r v)) [
    | inl same ↦
        (let e = bytes_eq→eq r v same in
          ground (arith, contains_every-has vs rs (ground arith) id, e))
    | inr other ↦ ground (arith, contains_every-has vs (r ∷ rs) (ground arith) id)
  ]
]

-- A member of the tail of an increasing list is not its head.
has_tail :
    (x : Bytes) (xs : List Bytes) (id : Bytes)
    → All (λ y. lex_lt x y ≡ true) xs
    → has xs id ≡ true
    → bytes_eq x id ≡ false
has_tail x xs id above m = elim (Bool-cases (bytes_eq x id)) [
  | inl same ↦
      (let below : lex_lt x x ≡ true =
          subst (λ y. lex_lt x y ≡ true) (sym (bytes_eq→eq x id same))
            (has-above id x xs above m) in
        absurd (ground (arith, below, lex_lt_irrefl x)))
  | inr other ↦ other
]

has_head : (x : Bytes) (xs : List Bytes) → has (x ∷ xs) x ≡ true
unfolding has
has_head x xs = rw (bytes_eq_refl x) refl

contains_every_of :
    (values required : List Bytes)
    → Increasing values
    → Increasing required
    → ((id : Bytes) → has required id ≡ true → has values id ≡ true)
    → contains_every values required ≡ true
unfolding contains_every has
contains_every_of [] [] _ _ f = refl
contains_every_of [] (r ∷ rs) _ _ f = absurd (ground (arith, f r (has_head r rs)))
contains_every_of (v ∷ vs) [] (iv, ivs) i f =
    contains_every_of vs [] ivs i (λ id m. absurd (ground arith))
contains_every_of (v ∷ vs) (r ∷ rs) (iv, ivs) (ir, irs) f = elim (Bool-cases (lex_lt r v)) [
  | inl below ↦
      absurd (
        ground
          (arith, f r (has_head r rs), has-below r (v ∷ vs) (below, All-below r v vs below iv)))
  | inr above ↦ elim (Bool-cases (bytes_eq r v)) [
    | inl same ↦
        (let e = bytes_eq→eq r v same in
          rw (above, same)
            (contains_every_of vs rs ivs irs
              (λ id m. (let apart = has_tail r rs id ir m in ground (arith, f id, e)))))
    | inr other ↦
        rw (above, other)
          (contains_every_of vs (r ∷ rs) ivs (ir, irs)
            (λ id m. elim (Bool-cases (bytes_eq v id)) [
              | inl head ↦
                  (let e : v ≡ id = bytes_eq→eq v id head in
                    let inside : has (r ∷ rs) v ≡ true =
                      subst (λ y. has (r ∷ rs) y ≡ true) (sym e) m in
                    let below : lex_lt r v ≡ true = has-above v r rs ir (ground (arith, inside)) in
                    absurd (ground (arith, below)))
              | inr tail ↦ ground (arith, f id)
            ]))
  ]
]

-- For two lists of ids in increasing order, the one pass over both finds every required id if and only if the set
-- of the required ids is a part of the set of the values.
pub contains_every_iff :
    (values required : List Bytes)
    → Increasing values
    → Increasing required
    → (contains_every values required ≡ true)
      ↔ ((id : Bytes) → has required id ≡ true → has values id ≡ true)
contains_every_iff values required i j =
    (contains_every-has values required, contains_every_of values required i j)

pub equal_strings→eq : (ls rs : List Bytes) → equal_strings ls rs ≡ true → ls ≡ rs
unfolding equal_strings
equal_strings→eq [] [] h = refl
equal_strings→eq [] (r ∷ rs) h = absurd (ground arith)
equal_strings→eq (l ∷ ls) [] h = absurd (ground arith)
equal_strings→eq (l ∷ ls) (r ∷ rs) h =
    let first = bytes_eq→eq l r (ground arith) in
    let others = equal_strings→eq ls rs (ground arith) in cc (first, others)

pub equal_strings_refl : (ls : List Bytes) → equal_strings ls ls ≡ true
unfolding equal_strings
equal_strings_refl [] = refl
equal_strings_refl (l ∷ ls) = rw (bytes_eq_refl l, equal_strings_refl ls) refl

-- The tombstones of a valid policy are in increasing order.
module _ (c : Codec) where
  above_previous :
      (previous : Bytes) (ids : List Bytes)
      → valid_tombstones c (some previous) ids ≡ true
      → All (λ y. lex_lt previous y ≡ true) ids × Increasing ids
  unfolding valid_tombstones
  above_previous previous [] h = (tt, tt)
  above_previous previous (id ∷ ids) h =
      let (first, others) = above_previous id ids (ground arith) in
      let here : lex_lt previous id ≡ true = ground arith in
      ((here, All-below previous id ids here first), (first, others))

  pub valid_tombstones-Increasing :
      (ids : List Bytes) → valid_tombstones c none ids ≡ true → Increasing ids
  unfolding valid_tombstones
  valid_tombstones-Increasing [] h = tt
  valid_tombstones-Increasing (id ∷ ids) h = above_previous id ids (ground arith)
