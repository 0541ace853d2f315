-- ===== src/Packet/Checksum.antt =====
-- `checksum` against the plain sum, and what it detects.
use gpti84_plus.Base.{ℕ, ◌+◌, ◌%◌, ◌<◌, ◌≡◌, [], ◌∷◌, ◌++◌, arith}
use gpti84_plus.Base.Bytes.{Bytes, IsByte}
use gpti84_plus.Packet.{sum_bytes, checksum}

-- The sum of a sequence of bytes.
abbrev pub sum : Bytes → ℕ
sum [] = 0
sum (b ∷ bs) = b + sum bs

sum_bytes-sum : (bs : Bytes) (s : ℕ) → s < 65536 → sum_bytes s bs ≡ (s + sum bs) % 65536
unfolding sum_bytes
sum_bytes-sum [] s h = omega arith
sum_bytes-sum (b ∷ bs) s h = omega (arith, sum_bytes-sum bs ((s + b) % 65536) (omega arith))

-- The loop with its mask computes the sum of the bytes modulo 2 ^ 16.
pub checksum-sum : (bs : Bytes) → checksum bs ≡ sum bs % 65536
unfolding checksum
checksum-sum bs = omega (arith, sum_bytes-sum bs 0 (omega arith))

sum-append : (xs ys : Bytes) → sum (xs ++ ys) ≡ sum xs + sum ys
sum-append [] ys = omega arith
sum-append (x ∷ xs) ys = omega (arith, sum-append xs ys)

-- The checksum detects every change of one byte: if two bodies differ in one place at most and
-- have the same checksum, then the bytes in that place are equal.
pub checksum_detects :
    (xs ys : Bytes) (a b : ℕ)
    → IsByte a
    → IsByte b
    → checksum (xs ++ (a ∷ ys)) ≡ checksum (xs ++ (b ∷ ys))
    → a ≡ b
checksum_detects xs ys a b ha hb e = omega (
  arith,
  e,
  checksum-sum (xs ++ (a ∷ ys)),
  checksum-sum (xs ++ (b ∷ ys)),
  sum-append xs (a ∷ ys),
  sum-append xs (b ∷ ys),
)

-- It does not see the order: two bodies put together either way round have one checksum.
pub checksum-append_comm : (xs ys : Bytes) → checksum (xs ++ ys) ≡ checksum (ys ++ xs)
checksum-append_comm xs ys =
    omega
      (arith, checksum-sum (xs ++ ys), checksum-sum (ys ++ xs), sum-append xs ys, sum-append ys xs)

pub checksum-lt : (bs : Bytes) → checksum bs < 65536
checksum-lt bs = omega (arith, checksum-sum bs)
