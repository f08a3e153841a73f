-- ===== src/Config.antt =====
-- src/config.rs: the parameters of the index, and the setters with their assertions.
use scry_index.Prelude.{ℕ, Bool, true, ◌&&◌, not, Option, none, some, if◌then◌else◌}
use scry_index.Key.{F64}

pub record Config (F : Type 0) : Type 0 where
  pub expansion_factor : F
  pub auto_rebuild : Bool
  pub rebuild_depth_threshold : ℕ
  pub tombstone_ratio_threshold : F
  pub range_headroom : F

module _ {F : Type 0} ⦃f : F64 F⦄ where
  unfoldable pub default : Config F
  default = record {
    expansion_factor = f.of_usize 2;
    auto_rebuild = true;
    rebuild_depth_threshold = 8;
    tombstone_ratio_threshold = f.div f.one (f.of_usize 2);
    range_headroom = f.zero;
  }

  -- `none` where the assertion panics. `a >= b` and `a <= b` are tested by `lt`, so the values are
  -- taken to be numbers, not NaN.
  unfoldable pub expansion_factor : Config F → F → Option (Config F)
  expansion_factor c factor =
      if f.lt factor f.one then none else some (record c { expansion_factor = factor })

  unfoldable pub auto_rebuild : Config F → Bool → Config F
  auto_rebuild c enabled = record c { auto_rebuild = enabled }

  unfoldable pub rebuild_depth_threshold : Config F → ℕ → Config F
  rebuild_depth_threshold c threshold = record c { rebuild_depth_threshold = threshold }

  unfoldable pub tombstone_ratio_threshold : Config F → F → Option (Config F)
  tombstone_ratio_threshold c threshold =
      if f.lt f.zero threshold && not (f.lt f.one threshold)
      then some (record c { tombstone_ratio_threshold = threshold })
      else none

  unfoldable pub range_headroom : Config F → F → Option (Config F)
  range_headroom c headroom =
      if f.lt headroom f.zero then none else some (record c { range_headroom = headroom })
