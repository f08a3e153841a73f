-- ===== src/Fmcd.antt =====
-- src/model.rs: the fitting of a model to sorted keys, by the FMCD heuristic.
pub mod Bounds
use scry_index.Prelude.{
  ℕ, zero, suc, ◌+◌, ◌-◌, ◌/◌, Bool, true, false, ◌||◌, Option, none, some, ◌==◌, ltb,
  if◌then◌else◌,
}
use scry_index.Key.{F64}
use scry_index.Model.{LinearModel, new, constant, predict_raw}

pub record FmcdResult (F : Type 0) : Type 0 where
  pub model : LinearModel F
  pub array_size : ℕ
  pub conflicts : ℕ

abbrev pub max_fmcd_candidates : ℕ
max_fmcd_candidates = 32

module _ {F : Type 0} ⦃f : F64 F⦄ where
  -- the array size for two keys or more
  unfoldable pub fmcd_array_size : ℕ → F → F → ℕ
  fmcd_array_size n expansion_factor headroom_mult =
      f.to_usize (
        f.max (f.ceil (f.mul (f.mul (f.of_usize n) expansion_factor) headroom_mult)) (f.of_usize n))

  module _ (key_input : ℕ → F) where
    -- `for i in i..i + rounds`
    unfoldable pub count_conflicts_loop : LinearModel F → ℕ → ℕ → ℕ → ℕ → ℕ → ℕ
    count_conflicts_loop model array_size zero i prev_slot conflicts = conflicts
    count_conflicts_loop model array_size (suc rounds) i prev_slot conflicts =
        let slot = predict_raw model (key_input i) array_size in
        count_conflicts_loop model array_size rounds (i + 1) slot
          (if slot == prev_slot then conflicts + 1 else conflicts)

    unfoldable pub count_conflicts_fast : ℕ → LinearModel F → ℕ → ℕ
    unfolding count_conflicts_loop
    count_conflicts_fast n model array_size =
        count_conflicts_loop model array_size (n - 1) 1 (predict_raw model (key_input 0) array_size)
          0

    unfoldable pub max_gap_loop : ℕ → ℕ → F → F
    max_gap_loop zero i max_gap = max_gap
    max_gap_loop (suc rounds) i max_gap =
        max_gap_loop rounds (i + 1) (f.max max_gap (f.sub (key_input (i + 1)) (key_input i)))

    -- `for j in j..j + rounds`, with its two breaks
    unfoldable pub candidates_loop : ℕ → ℕ → F → F → ℕ → ℕ → LinearModel F → ℕ → LinearModel F × ℕ
    unfolding count_conflicts_fast new
    candidates_loop n array_size max_gap max_slope zero j best_model best_conflicts =
        (best_model, best_conflicts)
    candidates_loop n array_size max_gap max_slope (suc rounds) j best_model best_conflicts =
        let slope = f.div (f.of_usize j) max_gap in
        let model = new slope (f.mul (f.neg slope) (key_input 0)) in
        let conflicts = count_conflicts_fast n model array_size in
        let better = ltb conflicts best_conflicts in
        let best_model' = if better then model else best_model in
        let best_conflicts' = if better then conflicts else best_conflicts in
        let rest =
          candidates_loop n array_size max_gap max_slope rounds (j + 1) best_model'
            best_conflicts' in
        if f.lt max_slope slope
        then (best_model, best_conflicts)
        else if best_conflicts' == 0
        then (best_model', best_conflicts')
        else rest

    -- the baseline and the candidates, for keys whose range is not negligible
    unfoldable pub fit_range : ℕ → F → ℕ → FmcdResult F
    unfolding count_conflicts_fast max_gap_loop candidates_loop new
    fit_range n headroom_mult array_size =
        let first = key_input 0 in
        let key_range = f.sub (key_input (n - 1)) first in
        let lin_slope = f.div (f.of_usize (array_size - 1)) (f.mul key_range headroom_mult) in
        let lin_model = new lin_slope (f.mul (f.neg lin_slope) first) in
        let lin_conflicts = count_conflicts_fast n lin_model array_size in
        let max_gap = max_gap_loop (n - 1) 0 f.zero in
        let max_slope = f.div (f.of_usize (array_size - 1)) key_range in
        let best =
          if f.lt f.epsilon max_gap
          then candidates_loop n array_size max_gap max_slope max_fmcd_candidates 1 lin_model
              lin_conflicts
          else (lin_model, lin_conflicts) in
        if lin_conflicts == 0
        then record { model = lin_model; array_size = array_size; conflicts = 0 }
        else record { model = best.0; array_size = array_size; conflicts = best.1 }

  -- `none` where an assertion panics. `expansion_factor >= 1.0` is tested by `lt`, so the factor is
  -- taken to be a number, not NaN.
  unfoldable pub fit_fmcd : ℕ → (ℕ → F) → F → F → Option (FmcdResult F)
  unfolding fit_range fmcd_array_size constant new
  fit_fmcd n key_input expansion_factor range_headroom =
      let headroom_mult = f.add f.one range_headroom in
      let array_size = fmcd_array_size n expansion_factor headroom_mult in
      let key_range = f.sub (key_input (n - 1)) (key_input 0) in
      if n == 0 || f.lt expansion_factor f.one
      then none
      else if n == 1
      then some (record { model = constant; array_size = 1; conflicts = 0 })
      else if f.lt (f.abs key_range) f.epsilon
      then some (record {
        model = new f.zero (f.of_usize (array_size / 2));
        array_size = array_size;
        conflicts = n - 1;
      })
      else some (fit_range key_input n headroom_mult array_size)
