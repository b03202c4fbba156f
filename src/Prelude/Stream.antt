-- ===== src/Prelude/Stream.antt =====
-- `io.ReadFull` on a reader that is the list of the bytes that arrive before it ends.
use own_transit.Prelude.{
  ℕ, ◌≡◌, Outcome, ok, err, ◌++◌, length, take, drop, leb, ◌==◌, if◌then◌else◌, arith, Bytes,
  take-append-drop, length-append, length-take, take-append, drop-append,
}

pub data ReadError : Type 0 where
  eof unexpected_eof : ReadError

-- The `n` bytes read and what is left in the reader.
unfoldable pub read_full : ℕ → Bytes → Outcome ReadError (Bytes × Bytes)
read_full n src =
    if leb n (length src)
    then ok (take n src, drop n src)
    else if length src == 0
    then err eof
    else err unexpected_eof

pub read_full-append :
    (n : ℕ) (xs rest : Bytes) → length xs ≡ n → read_full n (xs ++ rest) ≡ ok (xs, rest)
unfolding read_full
read_full-append n xs rest h =
    ground (arith, length-append xs rest, take-append n xs rest h, drop-append n xs rest h)

pub read_full_inv :
    (n : ℕ) (src xs rest : Bytes)
    → read_full n src ≡ ok (xs, rest)
    → (src ≡ xs ++ rest) × (length xs ≡ n)
unfolding read_full
read_full_inv n src xs rest h = ground (arith, take-append-drop n src, length-take n src)
