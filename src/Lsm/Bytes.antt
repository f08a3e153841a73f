-- ===== src/Lsm/Bytes.antt =====
-- The bytes of the files: little-endian integers, length prefixes and exact reads. A reader is the
-- list of the bytes that are left.
use scry_index.Prelude.{
  ℕ, zero, suc, ◌+◌, ◌-◌, ◌*◌, ◌/◌, ◌%◌, ◌^◌, ◌<◌, Option, none, some, List, [], ◌∷◌, ◌++◌, ◌≡◌,
  refl, arith, length, take, leb, if◌then◌else◌,
}

abbrev pub Bytes : Type 0
Bytes = List ℕ

-- `(n as u32).to_le_bytes()`: the four low digits
unfoldable pub le32 : ℕ → Bytes
le32 n = n % 256 ∷ n / 256 % 256 ∷ n / 65536 % 256 ∷ n / 16777216 % 256 ∷ []

unfoldable pub from_le32 : Bytes → ℕ
from_le32 (a ∷ b ∷ c ∷ d ∷ []) = a + 256 * b + 65536 * c + 16777216 * d
from_le32 _ = 0

-- `read_exact`: the bytes that were asked for and the rest, or `none` at an early end
unfoldable pub read_exact : ℕ → Bytes → Option (Bytes × Bytes)
read_exact zero bs = some ([], bs)
read_exact (suc n) [] = none
read_exact (suc n) (b ∷ bs) = elim (read_exact n bs) [ none ↦ none | some (d, r) ↦ some (b ∷ d, r) ]

unfoldable pub length_prefixed : Bytes → Bytes
unfolding le32
length_prefixed xs = le32 (length xs) ++ xs

unfoldable pub read_length_prefixed : Bytes → Option (Bytes × Bytes)
unfolding read_exact from_le32
read_length_prefixed reader = elim (read_exact 4 reader) [
  | none ↦ none
  | some (len_buf, rest) ↦ read_exact (from_le32 len_buf) rest
]

-- A read of `xs` from a file that is cut after `m` bytes.
read_exact-take :
    (xs ys : Bytes) (m : ℕ)
    → read_exact (length xs) (take m (xs ++ ys))
      ≡ (if leb (length xs) m then some (xs, take (m - length xs) ys) else none)
unfolding read_exact
read_exact-take [] ys zero = refl
read_exact-take [] ys (suc m) = ground arith
read_exact-take (x ∷ xs) ys zero = ground arith
read_exact-take (x ∷ xs) ys (suc m) = ground (arith, read_exact-take xs ys m)

pub from_le32-le32 : (n : ℕ) → n < 2 ^ 32 → from_le32 (le32 n) ≡ n
unfolding le32 from_le32
from_le32-le32 n h = omega arith

-- A length-prefixed sequence is read back whole where the file is cut behind it, and not at all
-- where the file is cut inside it.
pub read_length_prefixed-take :
    (xs ys : Bytes) (n : ℕ)
    → length xs < 2 ^ 32
    → read_length_prefixed (take n (length_prefixed xs ++ ys))
      ≡ (if leb (4 + length xs) n then some (xs, take (n - (4 + length xs)) ys) else none)
unfolding read_length_prefixed length_prefixed le32
read_length_prefixed-take xs ys zero h = ground arith
read_length_prefixed-take xs ys (suc zero) h = ground arith
read_length_prefixed-take xs ys (suc (suc zero)) h = ground arith
read_length_prefixed-take xs ys (suc (suc (suc zero))) h = ground arith
read_length_prefixed-take xs ys (suc (suc (suc (suc m)))) h =
    ground (arith, read_exact-take xs ys m, from_le32-le32 (length xs) h)

-- `u64` and shorter: the `w` low bytes of a number, and the number of such bytes.
unfoldable pub le_bytes : ℕ → ℕ → Bytes
le_bytes zero n = []
le_bytes (suc w) n = n % 256 ∷ le_bytes w (n / 256)

unfoldable pub from_le : Bytes → ℕ
from_le [] = 0
from_le (b ∷ bs) = b + 256 * from_le bs

-- one more than the greatest number of `w` bytes
abbrev pub le_limit : ℕ → ℕ
le_limit zero = 1
le_limit (suc w) = 256 * le_limit w

pub from_le-le_bytes : (w n : ℕ) → n < le_limit w → from_le (le_bytes w n) ≡ n
unfolding le_bytes from_le
from_le-le_bytes zero n h = omega arith
from_le-le_bytes (suc w) n h = omega (arith, from_le-le_bytes w (n / 256) (omega arith))

pub length-le_bytes : (w n : ℕ) → length (le_bytes w n) ≡ w
unfolding le_bytes
length-le_bytes zero n = refl
length-le_bytes (suc w) n = omega (arith, length-le_bytes w (n / 256))

-- Reads of whole sequences.
pub read_exact-append : (xs ys : Bytes) → read_exact (length xs) (xs ++ ys) ≡ some (xs, ys)
unfolding read_exact
read_exact-append [] ys = refl
read_exact-append (x ∷ xs) ys = ground (arith, read_exact-append xs ys)

pub read_length_prefixed-append :
    (xs ys : Bytes)
    → length xs < 2 ^ 32
    → read_length_prefixed (length_prefixed xs ++ ys) ≡ some (xs, ys)
unfolding read_length_prefixed length_prefixed le32
read_length_prefixed-append xs ys h =
    ground (arith, read_exact-append xs ys, from_le32-le32 (length xs) h)

pub length-length_prefixed : (xs : Bytes) → length (length_prefixed xs) ≡ 4 + length xs
unfolding length_prefixed le32
length-length_prefixed xs = omega arith
