-- ===== src/Key.antt =====
-- src/key.rs: the trait `Key`, and the `f64` operations that the model fitting uses.
pub mod Ordinal
pub mod Lexicographic
use scry_index.Prelude.{ℕ, Bool, true, false, ◌≡◌, ◌≢◌, ◌↔◌, arith}
use scry_index.Prelude.Int.{ℤ, ◌≤ℤ◌, IsI128}

-- The operations of `f64`. Its arithmetic is the machine's, so it is a parameter with no laws:
-- a theorem that needs one states it.
pub record F64 (F : Type 0) : Type 0 where
  pub zero : F
  pub one : F
  pub epsilon : F
  pub of_usize : ℕ → F
  pub add : F → F → F
  pub sub : F → F → F
  pub mul : F → F → F
  pub div : F → F → F
  pub max : F → F → F
  pub min : F → F → F
  pub neg : F → F
  pub abs : F → F
  pub round : F → F
  pub ceil : F → F
  pub mul_add : F → F → F → F
  pub lt : F → F → Bool
  pub to_usize : F → ℕ

-- The trait: `Ord` by its strict test and its equality, the model input and the ordinal, an i128.
pub record Key (F K : Type 0) : Type 0 where
  pub lt : K → K → Bool
  pub eqb : K → K → Bool
  pub to_model_input : K → F
  pub to_exact_ordinal : K → ℤ
  -- what `Ord` and `Eq` ask of an implementation
  pub eqb_iff : (a b : K) → (eqb a b ≡ true) ↔ (a ≡ b)
  pub lt_irrefl : (a : K) → lt a a ≡ false
  pub lt_trans : (a b c : K) → lt a b ≡ true → lt b c ≡ true → lt a c ≡ true
  pub lt_total : (a b : K) → lt a b ≡ false → lt b a ≡ false → a ≡ b
  -- the type of the ordinal, and the contract of the trait in the weak form that byte strings meet
  pub ordinal_bounded : (a : K) → IsI128 (to_exact_ordinal a)
  pub ordinal_mono : (a b : K) → lt a b ≡ true → to_exact_ordinal a ≤ℤ to_exact_ordinal b

module _ {F K : Type 0} (k : Key F K) where
  pub ne_of_eqb : (a b : K) → k.eqb a b ≡ false → a ≢ b
  ne_of_eqb a b h e = ground (arith, k.eqb_iff a b)

  pub lt_of_ne : (a b : K) → a ≢ b → k.lt a b ≡ false → k.lt b a ≡ true
  lt_of_ne a b n h = ground (arith, k.lt_total a b h)
