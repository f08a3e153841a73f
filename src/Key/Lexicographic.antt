-- ===== src/Key/Lexicographic.antt =====
-- The lexicographic order of byte slices, which the sorted tables use.
use scry_index.Prelude.{
  ℕ, Bool, true, false, not, ◌&&◌, List, [], ◌∷◌, ◌≡◌, refl, arith, ◌==◌, Bool-cases, inl, inr,
}
use mathlib.Core.Path.{subst}
use scry_index.Key.Ordinal.{ltb_bytes}

unfoldable pub eq_bytes : List ℕ → List ℕ → Bool
eq_bytes [] [] = true
eq_bytes [] (y ∷ ys) = false
eq_bytes (x ∷ xs) [] = false
eq_bytes (x ∷ xs) (y ∷ ys) = x == y && eq_bytes xs ys

abbrev pub IsBelow : List ℕ → List ℕ → Type 0
IsBelow xs ys = ltb_bytes xs ys ≡ true

pub ltb_bytes_irrefl : (xs : List ℕ) → ltb_bytes xs xs ≡ false
unfolding ltb_bytes
ltb_bytes_irrefl [] = refl
ltb_bytes_irrefl (x ∷ xs) = ground (arith, ltb_bytes_irrefl xs)

pub ltb_bytes_trans : (xs ys zs : List ℕ) → IsBelow xs ys → IsBelow ys zs → IsBelow xs zs
unfolding ltb_bytes
ltb_bytes_trans xs ys [] h g = absurd (ground arith)
ltb_bytes_trans [] ys (z ∷ zs) h g = refl
ltb_bytes_trans (x ∷ xs) [] (z ∷ zs) h g = absurd (ground arith)
ltb_bytes_trans (x ∷ xs) (y ∷ ys) (z ∷ zs) h g = ground (arith, ltb_bytes_trans xs ys zs)

-- Exactly one of three holds.
pub eq_bytes_lem :
    (xs ys : List ℕ) → eq_bytes xs ys ≡ (not (ltb_bytes xs ys) && not (ltb_bytes ys xs))
unfolding ltb_bytes eq_bytes
eq_bytes_lem [] [] = refl
eq_bytes_lem [] (y ∷ ys) = refl
eq_bytes_lem (x ∷ xs) [] = refl
eq_bytes_lem (x ∷ xs) (y ∷ ys) = ground (arith, eq_bytes_lem xs ys)

pub eq_bytes→≡ : (xs ys : List ℕ) → (eq_bytes xs ys ≡ true) → xs ≡ ys
unfolding eq_bytes
eq_bytes→≡ [] [] h = refl
eq_bytes→≡ [] (y ∷ ys) h = absurd (ground arith)
eq_bytes→≡ (x ∷ xs) [] h = absurd (ground arith)
eq_bytes→≡ (x ∷ xs) (y ∷ ys) h = ground (arith, eq_bytes→≡ xs ys)

pub ltb_bytes-asym : (xs ys : List ℕ) → IsBelow xs ys → ltb_bytes ys xs ≡ false
unfolding ltb_bytes
ltb_bytes-asym [] [] h = refl
ltb_bytes-asym [] (y ∷ ys) h = refl
ltb_bytes-asym (x ∷ xs) [] h = absurd (ground arith)
ltb_bytes-asym (x ∷ xs) (y ∷ ys) h = ground (arith, ltb_bytes-asym xs ys)

pub eq_bytes-neither :
    (xs ys : List ℕ) → ltb_bytes xs ys ≡ false → ltb_bytes ys xs ≡ false → eq_bytes xs ys ≡ true
eq_bytes-neither xs ys h g = rw (eq_bytes_lem xs ys, h, g) refl

pub eq_bytes-below : (xs ys : List ℕ) → IsBelow xs ys → eq_bytes xs ys ≡ false
eq_bytes-below xs ys h = rw (eq_bytes_lem xs ys, h) refl

pub eq_bytes-above : (xs ys : List ℕ) → IsBelow ys xs → eq_bytes xs ys ≡ false
eq_bytes-above xs ys h = rw (eq_bytes_lem xs ys, h, ltb_bytes-asym ys xs h) refl

pub ltb_bytes-le_lt : (xs ys zs : List ℕ) → ltb_bytes ys xs ≡ false → IsBelow ys zs → IsBelow xs zs
ltb_bytes-le_lt xs ys zs h g = elim (Bool-cases (ltb_bytes xs ys)) [
  | inl l ↦ ltb_bytes_trans xs ys zs l g
  | inr e ↦ subst (λ t. IsBelow t zs) (eq_bytes→≡ ys xs (eq_bytes-neither ys xs h e)) g
]

pub ltb_bytes-lt_le : (xs ys zs : List ℕ) → IsBelow xs ys → ltb_bytes zs ys ≡ false → IsBelow xs zs
ltb_bytes-lt_le xs ys zs h g = elim (Bool-cases (ltb_bytes ys zs)) [
  | inl l ↦ ltb_bytes_trans xs ys zs h l
  | inr e ↦ subst (IsBelow xs) (eq_bytes→≡ ys zs (eq_bytes-neither ys zs e g)) h
]
