-- ===== src/Prelude/Int.antt =====
-- Signed integers over the native numbers, under the library's names (its ℤ stands on the unary ℕ).
-- Sums and orders go through the two parts of an integer, which are numbers that `omega` reads.
use scry_index.Prelude.{
  ℕ, suc, ◌+◌, ◌-◌, ◌/◌, ◌%◌, ◌^◌, ◌<◌, ◌≤◌, ◌≡◌, Bool, true, false, refl, ◌∙◌, ◌&&◌, arith, ltb,
  leb, if◌then◌else◌,
}

-- `negsuc n` is -(n + 1).
pub data ℤ : Type 0 where
  pos : ℕ → ℤ
  negsuc : ℕ → ℤ

abbrev pub pos_part : ℤ → ℕ
pos_part (pos n) = n
pos_part (negsuc n) = 0

abbrev pub neg_part : ℤ → ℕ
neg_part (pos n) = 0
neg_part (negsuc n) = suc n

-- a - b, as an integer.
abbrev pub sub_ℕ : ℕ → ℕ → ℤ
sub_ℕ a b = if leb b a then pos (a - b) else negsuc (b - a - 1)

infixl 65 ◌+ℤ◌ ◌-ℤ◌
infix 50 ◌≤ℤ◌
unfoldable pub ◌+ℤ◌ : ℤ → ℤ → ℤ
a +ℤ b = sub_ℕ (pos_part a + pos_part b) (neg_part a + neg_part b)

unfoldable pub ◌-ℤ◌ : ℤ → ℤ → ℤ
a -ℤ b = sub_ℕ (pos_part a + neg_part b) (neg_part a + pos_part b)

abbrev pub ◌≤ℤ◌ : ℤ → ℤ → Type 0
a ≤ℤ b = pos_part a + neg_part b ≤ pos_part b + neg_part a

abbrev pub leb_ℤ : ℤ → ℤ → Bool
leb_ℤ a b = leb (pos_part a + neg_part b) (pos_part b + neg_part a)

abbrev pub eqb_ℤ : ℤ → ℤ → Bool
eqb_ℤ a b = leb_ℤ a b && leb_ℤ b a

-- Division by two, which rounds towards zero.
unfoldable pub half_ℤ : ℤ → ℤ
half_ℤ (pos n) = pos (n / 2)
half_ℤ (negsuc n) = sub_ℕ 0 (suc n / 2)

abbrev pub ltb_ℤ : ℤ → ℤ → Bool
ltb_ℤ a b = ltb (pos_part a + neg_part b) (pos_part b + neg_part a)

-- One lemma for each operation lets `omega` work with the operations shut, at any depth.
pub +ℤ_parts :
    (a b : ℤ)
    → pos_part (a +ℤ b) + neg_part a + neg_part b ≡ neg_part (a +ℤ b) + pos_part a + pos_part b
unfolding ◌+ℤ◌
+ℤ_parts a b = ground arith

pub -ℤ_parts :
    (a b : ℤ)
    → pos_part (a -ℤ b) + neg_part a + pos_part b ≡ neg_part (a -ℤ b) + pos_part a + neg_part b
unfolding ◌-ℤ◌
-ℤ_parts a b = ground arith

pub eq_of_parts : (a b : ℤ) → pos_part a + neg_part b ≡ pos_part b + neg_part a → a ≡ b
eq_of_parts a b h = ground arith

pub ruleset int_laws = (arith, +ℤ_parts, -ℤ_parts, eq_of_parts)

-- The machine's i128.
abbrev pub IsI128 : ℤ → Type 0
IsI128 a = (pos_part a < 2 ^ 127) × (neg_part a ≤ 2 ^ 127)

-- The value modulo 2 ^ 128, as a release build wraps it.
unfoldable pub wrap_i128 : ℤ → ℤ
wrap_i128 (pos n) = sub_ℕ ((n + 2 ^ 127) % 2 ^ 128) (2 ^ 127)
wrap_i128 (negsuc n) = sub_ℕ ((2 ^ 127 + 2 ^ 128 - 1 - n % 2 ^ 128) % 2 ^ 128) (2 ^ 127)

-- `lo + (hi - lo) / 2`
unfoldable pub midpoint_i128 : ℤ → ℤ → ℤ
unfolding wrap_i128 ◌+ℤ◌ ◌-ℤ◌ half_ℤ
midpoint_i128 lo hi = wrap_i128 (lo +ℤ half_ℤ (wrap_i128 (hi -ℤ lo)))

wrap_i128_lem : (a : ℤ) → IsI128 a → wrap_i128 a ≡ a
unfolding wrap_i128
wrap_i128_lem (pos n) h = ground (arith, h.0)
wrap_i128_lem (negsuc n) h = ground (arith, h.1)

-- 0 ≤ d gives lo ≤ lo + d / 2 < lo + d
half_between :
    (lo hi : ℤ)
    → lo ≤ℤ hi
    → eqb_ℤ lo hi ≡ false
    → (leb_ℤ lo (lo +ℤ half_ℤ (hi -ℤ lo)) ≡ true) × (leb_ℤ hi (lo +ℤ half_ℤ (hi -ℤ lo)) ≡ false)
unfolding half_ℤ ◌+ℤ◌ ◌-ℤ◌
half_between lo hi h d = ground arith

between-IsI128 :
    (lo hi m : ℤ) → IsI128 lo → IsI128 hi → leb_ℤ lo m ≡ true → leb_ℤ hi m ≡ false → IsI128 m
between-IsI128 lo hi m h g l u = ground (arith, h.0, h.1, g.0, g.1)

-- Where the difference does not overflow, the midpoint is at least `lo` and below `hi`.
pub midpoint_i128_lem :
    (lo hi : ℤ)
    → IsI128 lo
    → IsI128 hi
    → IsI128 (hi -ℤ lo)
    → lo ≤ℤ hi
    → eqb_ℤ lo hi ≡ false
    → (leb_ℤ lo (midpoint_i128 lo hi) ≡ true) × (leb_ℤ hi (midpoint_i128 lo hi) ≡ false)
unfolding midpoint_i128
midpoint_i128_lem lo hi a b c h d =
    let exact = half_between lo hi h d in
    let inner = wrap_i128_lem (hi -ℤ lo) c in
    let outer =
      wrap_i128_lem (lo +ℤ half_ℤ (hi -ℤ lo))
        (between-IsI128 lo hi (lo +ℤ half_ℤ (hi -ℤ lo)) a b exact.0 exact.1) in
    rw (inner, outer) exact
