-- ===== src/Fmcd/Bounds.antt =====
-- The number of conflicts that the fit of src/model.rs reports.
use scry_index.Prelude.{
  ℕ, Bool, true, false, zero, suc, ◌+◌, ◌-◌, ◌≤◌, ◌<◌, ◌≡◌, refl, arith, ◌==◌, if◌then◌else◌,
}
use scry_index.Key.{F64}
use scry_index.Model.{LinearModel, new, predict_raw}
use scry_index.Fmcd.{
  count_conflicts_loop, count_conflicts_fast, max_gap_loop, candidates_loop, max_fmcd_candidates,
  fit_range, FmcdResult,
}

module _ {F : Type 0} ⦃f : F64 F⦄ where
  -- A number of conflicts is at most the number of keys after the first.
  count_conflicts_loop-le :
      (key_input : ℕ → F) (model : LinearModel F) (size rounds i prev conflicts : ℕ)
      → count_conflicts_loop key_input model size rounds i prev conflicts ≤ conflicts + rounds
  unfolding count_conflicts_loop
  count_conflicts_loop-le key_input model size zero i prev conflicts = omega arith
  count_conflicts_loop-le key_input model size (suc rounds) i prev conflicts = ground (
    arith,
    count_conflicts_loop-le key_input model size rounds (i + 1)
        (predict_raw model (key_input i) size)
        (if predict_raw model (key_input i) size == prev then conflicts + 1 else conflicts),
  )

  count_conflicts_fast-lt :
      (key_input : ℕ → F) (n : ℕ) (model : LinearModel F) (size : ℕ)
      → 0 < n
      → count_conflicts_fast key_input n model size < n
  unfolding count_conflicts_fast
  count_conflicts_fast-lt key_input n model size h = omega (
    arith,
    count_conflicts_loop-le key_input model size (n - 1) 1 (predict_raw model (key_input 0) size) 0,
  )

  candidates_loop_lem :
      (key_input : ℕ → F) (n size : ℕ) (gap top : F) (rounds j : ℕ) (best : LinearModel F) (c : ℕ)
      → count_conflicts_fast key_input n best size ≡ c
      → let r = candidates_loop key_input n size gap top rounds j best c in
        (count_conflicts_fast key_input n r.0 size ≡ r.1) × (r.1 ≤ c)
  unfolding candidates_loop
  candidates_loop_lem key_input n size gap top zero j best c h = (h, omega arith)
  candidates_loop_lem key_input n size gap top (suc rounds) j best c h =
      let slope = f.div (f.of_usize j) gap in
      let model : LinearModel F = new slope (f.mul (f.neg slope) (key_input 0)) in
      let c' = count_conflicts_fast key_input n model size in
      let kept = candidates_loop_lem key_input n size gap top rounds (j + 1) best c h in
      let took = candidates_loop_lem key_input n size gap top rounds (j + 1) model c' refl in
      (ground (arith, kept, took), ground (arith, kept, took))

  best_lem :
      (key_input : ℕ → F) (n size : ℕ) (gap top : F) (lin : LinearModel F) (c : ℕ) (try : Bool)
      → count_conflicts_fast key_input n lin size ≡ c
      → let r =
          if try
          then candidates_loop key_input n size gap top max_fmcd_candidates 1 lin c
          else (lin, c) in
        (count_conflicts_fast key_input n r.0 size ≡ r.1) × (r.1 ≤ c)
  best_lem key_input n size gap top lin c true h =
      candidates_loop_lem key_input n size gap top max_fmcd_candidates 1 lin c h
  best_lem key_input n size gap top lin c false h = (h, omega arith)

  chosen_lem :
      (key_input : ℕ → F) (n size : ℕ) (lin best : LinearModel F) (c best_c : ℕ)
      → count_conflicts_fast key_input n lin size ≡ c
      → count_conflicts_fast key_input n best size ≡ best_c
      → best_c ≤ c
      → c < n
      → let r : FmcdResult F =
          if c == 0
          then record { model = lin; array_size = size; conflicts = 0 }
          else record { model = best; array_size = size; conflicts = best_c } in
        (r.array_size ≡ size)
        × (count_conflicts_fast key_input n r.model size ≡ r.conflicts)
        × (r.conflicts < n)
  chosen_lem key_input n size lin best c best_c e e' le few =
      (ground arith, ground arith, ground arith)

  -- For one key or more, the fit over a range keeps the array size, reports the conflicts that the
  -- returned model has at that size, and these are fewer than the keys.
  pub fit_range_lem :
      (key_input : ℕ → F) (n : ℕ) (headroom_mult : F) (array_size : ℕ)
      → 0 < n
      → let r = fit_range key_input n headroom_mult array_size in
        (r.array_size ≡ array_size)
        × (count_conflicts_fast key_input n r.model array_size ≡ r.conflicts)
        × (r.conflicts < n)
  unfolding fit_range
  fit_range_lem key_input n headroom_mult array_size h =
      let found =
        best_lem key_input n array_size _ _ _ _
          (f.lt f.epsilon (max_gap_loop key_input (n - 1) 0 f.zero)) refl in
      chosen_lem key_input n array_size _ _ _ _ refl found.0 found.1
        (count_conflicts_fast-lt key_input n _ array_size h)
