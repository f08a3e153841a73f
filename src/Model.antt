-- ===== src/Model.antt =====
-- src/model.rs: the linear model of a node.
use scry_index.Prelude.{ℕ, ◌-◌, ◌<◌, min, Option, none, some, arith, if◌then◌else◌}
use scry_index.Prelude.Int.{ℤ, leb_ℤ}
use scry_index.Key.{F64, Key}

pub record LinearModel (F : Type 0) : Type 0 where
  pub slope : F
  pub intercept : F
  pub midpoint : Option ℤ

module _ {F : Type 0} where
  unfoldable pub new : F → F → LinearModel F
  new slope intercept = record { slope = slope; intercept = intercept; midpoint = none }

module _ {F : Type 0} ⦃f : F64 F⦄ where
  unfoldable pub binary_split : ℤ → LinearModel F
  binary_split midpoint = record { slope = f.zero; intercept = f.zero; midpoint = some midpoint }

  unfoldable pub constant : LinearModel F
  constant = record { slope = f.zero; intercept = f.zero; midpoint = none }

  -- `saturating_sub` is the truncated subtraction
  unfoldable pub predict_raw : LinearModel F → F → ℕ → ℕ
  predict_raw m value array_size =
      let pos = f.mul_add m.slope value m.intercept in
      min (f.to_usize (f.max (f.round pos) f.zero)) (array_size - 1)

module _ {F K : Type 0} ⦃f : F64 F⦄ ⦃k : Key F K⦄ where
  unfoldable pub predict : LinearModel F → K → ℕ → ℕ
  unfolding predict_raw
  predict m key array_size = elim m.midpoint [
    | some mid ↦ if leb_ℤ (k.to_exact_ordinal key) mid then 0 else array_size - 1
    | none ↦ predict_raw m (k.to_model_input key) array_size
  ]

  -- The predicted slot lies in the array.
  pub predict-lt : (m : LinearModel F) (key : K) (n : ℕ) → 0 < n → predict m key n < n
  unfolding predict
  predict-lt m key n h = ground arith
