-- ===== src/Protocol/Writer.antt =====
-- `writeFull`: handing all bytes of a frame to a writer that may take them in parts or fail.
use own_transit.Prelude.{
  ℕ, zero, suc, ◌≤◌, ◌<◌, ◌≡◌, refl, sym, ◌∙◌, Option, none, some, [], ◌∷◌, ◌++◌, length, take,
  drop, Bytes, ltb, ◌==◌, if◌then◌else◌, arith, take-append-drop, append_assoc, append-nil,
  length-drop, Option-cases, Bool-cases, inl, inr,
}

pub data WriteError : Type 0 where
  short_write : WriteError
  failed : ℕ → WriteError

-- The result of one call of `Write`: a count, which a broken writer may make negative, and its error.
pub data Count : Type 0 where
  negative : Count
  count : ℕ → Count

pub record Reply : Type 0 where
  pub n : Count
  pub error : Option ℕ

-- What the writer has taken, and the error of `writeFull`.
pub record Written : Type 0 where
  pub sent : Bytes
  pub failure : Option WriteError

-- The body of the loop after a call of `Write` that took the first `n` bytes; `next` goes on.
after_write : ℕ → Option ℕ → Bytes → Bytes → (Bytes → Bytes → Option Written) → Option Written
after_write n (some e) bytes sent next =
    some (record { sent = sent ++ take n bytes; failure = some (failed e) })
after_write n none bytes sent next =
    if n == 0
    then some (record { sent = sent; failure = some short_write })
    else next (drop n bytes) (sent ++ take n bytes)

abbrev taken : Count → Bytes → Option ℕ
taken negative bytes = none
taken (count n) bytes = if ltb (length bytes) n then none else some n

-- The `i`th call of `Write` answers `replies i`. `none` means that the fuel ran out.
pub write_loop : ℕ → (ℕ → Reply) → ℕ → Bytes → Bytes → Option Written
write_loop fuel replies i [] sent = some (record { sent = sent; failure = none })
write_loop zero replies i (b ∷ bs) sent = none
write_loop (suc fuel) replies i (b ∷ bs) sent = elim (taken (replies i).n (b ∷ bs)) [
  | none ↦ some (record { sent = sent; failure = some short_write })
  | some n ↦ after_write n (replies i).error (b ∷ bs) sent (write_loop fuel replies (suc i))
]

-- Every round but the last takes a byte at least, so `length bytes` rounds are enough.
unfoldable pub write_full : (ℕ → Reply) → Bytes → Option Written
unfolding write_loop after_write
write_full replies bytes = write_loop (length bytes) replies 0 bytes []

-- What a run of the loop leaves: all bytes and no error, or an error behind a part of them.
abbrev pub Finishes : Bytes → Option Written → Type 0
Finishes whole none = ⊥
Finishes whole (some w) = elim w.failure [
  | none ↦ w.sent ≡ whole
  | some e ↦ (rest : Bytes) × (w.sent ++ rest ≡ whole)
]

after_write-Finishes :
    (n : ℕ) (error : Option ℕ) (bytes sent whole : Bytes) (next : Bytes → Bytes → Option Written)
    → sent ++ bytes ≡ whole
    → n ≤ length bytes
    → ((bytes' sent' : Bytes)
        → length bytes' < length bytes
        → sent' ++ bytes' ≡ whole
        → Finishes whole (next bytes' sent'))
    → Finishes whole (after_write n error bytes sent next)
unfolding after_write
after_write-Finishes n (some x) bytes sent whole next e h go = (
  drop n bytes,
  append_assoc sent (take n bytes) (drop n bytes) ∙ rw (take-append-drop n bytes) e,
)
after_write-Finishes n none bytes sent whole next e h go = elim (Bool-cases (n == 0)) [
  | inl z ↦ rw (z, after_write) (bytes, e)
  | inr z ↦
      rw (z, after_write)
        (go (drop n bytes) (sent ++ take n bytes) (ground (arith, length-drop n bytes))
          (append_assoc sent (take n bytes) (drop n bytes) ∙ rw (take-append-drop n bytes) e))
]

taken-le : (c : Count) (bytes : Bytes) (n : ℕ) → taken c bytes ≡ some n → n ≤ length bytes
taken-le negative bytes n e = cc
taken-le (count m) bytes n e = ground arith

write_loop-Finishes :
    (fuel : ℕ) (replies : ℕ → Reply) (i : ℕ) (bytes sent whole : Bytes)
    → length bytes ≤ fuel
    → sent ++ bytes ≡ whole
    → Finishes whole (write_loop fuel replies i bytes sent)
unfolding write_loop
write_loop-Finishes fuel replies i [] sent whole h e = sym (append-nil sent) ∙ e
write_loop-Finishes zero replies i (b ∷ bs) sent whole h e = absurd (omega arith)
write_loop-Finishes (suc fuel) replies i (b ∷ bs) sent whole h e =
    elim (Option-cases (taken (replies i).n (b ∷ bs))) [
      | inl t ↦ rw (t, write_loop) (b ∷ bs, e)
      | inr (n, t) ↦
          rw (t, write_loop)
            (after_write-Finishes n (replies i).error (b ∷ bs) sent whole _ e
              (taken-le (replies i).n (b ∷ bs) n t)
              (λ bytes' sent' l e'.
                write_loop-Finishes fuel replies (suc i) bytes' sent' whole (omega arith) e'))
    ]

-- `writeFull` ends against any writer: without an error the writer has taken exactly the given bytes,
-- and with one it has taken a prefix of them.
pub write_full-Finishes :
    (replies : ℕ → Reply) (bytes : Bytes) → Finishes bytes (write_full replies bytes)
unfolding write_full
write_full-Finishes replies bytes =
    write_loop-Finishes (length bytes) replies 0 bytes [] bytes (omega arith) refl
