-- ===== src/Key/Ordinal.antt =====
-- src/key.rs: the ordinals of byte keys.
use scry_index.Prelude.{
  ℕ, zero, suc, ◌+◌, ◌*◌, ◌^◌, ◌<◌, ◌≤◌, Bool, true, false, ◌||◌, ◌&&◌, List, [], ◌∷◌, ◌≡◌, refl,
  arith, ltb, ◌==◌, length, Bool-cases, inl, inr,
}
use scry_index.Prelude.Int.{ℤ, ◌≤ℤ◌, sub_ℕ}
use scry_index.Key.{F64}

-- `from_be_bytes` of the first `n` bytes, with zeros on the right of a shorter slice; `acc` is the
-- value of the bytes before.
unfoldable pub from_be : (acc n : ℕ) → List ℕ → ℕ
from_be acc zero bytes = acc
from_be acc (suc n) [] = from_be (256 * acc) n []
from_be acc (suc n) (b ∷ bytes) = from_be (256 * acc + b) n bytes

unfoldable pub bytes_to_model_input : {F : Type 0} → F64 F → List ℕ → F
unfolding from_be
bytes_to_model_input f bytes = f.of_usize (from_be 0 8 bytes)

-- The cast to i128 and the flip of the sign bit take 2 ^ 127 away.
unfoldable pub bytes_to_exact_ordinal : List ℕ → ℤ
unfolding from_be
bytes_to_exact_ordinal bytes = sub_ℕ (from_be 0 16 bytes) (2 ^ 127)

-- The lexicographic order of slices.
unfoldable pub ltb_bytes : List ℕ → List ℕ → Bool
ltb_bytes xs [] = false
ltb_bytes [] (b ∷ ys) = true
ltb_bytes (a ∷ xs) (b ∷ ys) = ltb a b || a == b && ltb_bytes xs ys

abbrev pub AllBytes : List ℕ → Type 0
AllBytes [] = Unit {0}
AllBytes (b ∷ bytes) = (b < 256) × AllBytes bytes

-- A greater start stays greater.
from_be-lt : (a b n : ℕ) (xs ys : List ℕ) → a < b → AllBytes xs → from_be a n xs < from_be b n ys
unfolding from_be
from_be-lt a b zero xs ys h w = h
from_be-lt a b (suc n) [] [] h w = from_be-lt (256 * a) (256 * b) n [] [] (omega arith) tt
from_be-lt a b (suc n) [] (y ∷ ys) h w = from_be-lt (256 * a) (256 * b + y) n [] ys (omega arith) tt
from_be-lt a b (suc n) (x ∷ xs) [] h w =
    from_be-lt (256 * a + x) (256 * b) n xs [] (omega (arith, w.0)) w.1
from_be-lt a b (suc n) (x ∷ xs) (y ∷ ys) h w =
    from_be-lt (256 * a + x) (256 * b + y) n xs ys (omega (arith, w.0)) w.1

from_be-empty : (a b n : ℕ) (ys : List ℕ) → a ≤ b → from_be a n [] ≤ from_be b n ys
unfolding from_be
from_be-empty a b zero ys h = h
from_be-empty a b (suc n) [] h = from_be-empty (256 * a) (256 * b) n [] (omega arith)
from_be-empty a b (suc n) (y ∷ ys) h = from_be-empty (256 * a) (256 * b + y) n ys (omega arith)

from_be-le :
    (acc n : ℕ) (xs ys : List ℕ)
    → AllBytes xs
    → ltb_bytes xs ys ≡ true
    → from_be acc n xs ≤ from_be acc n ys
unfolding from_be ltb_bytes
from_be-le acc zero xs ys w h = omega arith
from_be-le acc (suc n) [] [] w h = omega arith
from_be-le acc (suc n) (x ∷ xs) [] w h = absurd (ground arith)
from_be-le acc (suc n) [] (y ∷ ys) w h =
    from_be-empty (256 * acc) (256 * acc + y) n ys (omega arith)
from_be-le acc (suc n) (x ∷ xs) (y ∷ ys) w h = elim (Bool-cases (ltb x y)) [
  | inl l ↦
      let less : 256 * acc + x < 256 * acc + y = ground arith in
      omega (arith, from_be-lt (256 * acc + x) (256 * acc + y) n xs ys less w.1)
  | inr e ↦
      let same : x ≡ y = ground arith in
      rw same (from_be-le (256 * acc + y) n xs ys w.1 (ground arith))
]

-- Where a slice of bytes is below another in lexicographic order, its ordinal is at most that of
-- the other.
pub bytes_to_exact_ordinal-mono :
    (xs ys : List ℕ)
    → AllBytes xs
    → ltb_bytes xs ys ≡ true
    → bytes_to_exact_ordinal xs ≤ℤ bytes_to_exact_ordinal ys
unfolding bytes_to_exact_ordinal
bytes_to_exact_ordinal-mono xs ys w h = ground (arith, from_be-le 0 16 xs ys w h)

from_be-injective :
    (a b n : ℕ) (xs ys : List ℕ)
    → AllBytes xs
    → AllBytes ys
    → length xs ≡ length ys
    → length xs ≤ n
    → from_be a n xs ≡ from_be b n ys
    → (a ≡ b) × (xs ≡ ys)
unfolding from_be
from_be-injective a b zero [] [] w v l m e = (e, refl)
from_be-injective a b zero (x ∷ xs) ys w v l m e = absurd (omega arith)
from_be-injective a b zero [] (y ∷ ys) w v l m e = absurd (omega arith)
from_be-injective a b (suc n) [] (y ∷ ys) w v l m e = absurd (omega arith)
from_be-injective a b (suc n) (x ∷ xs) [] w v l m e = absurd (omega arith)
from_be-injective a b (suc n) [] [] w v l m e =
    let (same, rest) = from_be-injective (256 * a) (256 * b) n [] [] tt tt refl (omega arith) e in
    (omega (arith, same), refl)
from_be-injective a b (suc n) (x ∷ xs) (y ∷ ys) w v l m e =
    let (same, rest) =
      from_be-injective (256 * a + x) (256 * b + y) n xs ys w.1 v.1 (omega (arith, l))
        (omega (arith, m)) e in
    let head : x ≡ y = omega (arith, same, w.0, v.0) in
    (omega (arith, same, w.0, v.0), rw (head, rest))

-- Two byte arrays of one length, 16 at most, with the same ordinal are equal.
pub bytes_to_exact_ordinal-injective :
    (xs ys : List ℕ)
    → AllBytes xs
    → AllBytes ys
    → length xs ≡ length ys
    → length xs ≤ 16
    → bytes_to_exact_ordinal xs ≡ bytes_to_exact_ordinal ys
    → xs ≡ ys
unfolding bytes_to_exact_ordinal
bytes_to_exact_ordinal-injective xs ys w v l m e =
    (from_be-injective 0 0 16 xs ys w v l m (ground arith)).1
