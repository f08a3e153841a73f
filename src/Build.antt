-- ===== src/Build.antt =====
-- src/build.rs: construction of a tree from sorted pairs. src/error.rs: its errors.
pub mod Sorted
pub mod Halves
pub mod Degenerate
use scry_index.Prelude.{
  ℕ, zero, suc, ◌+◌, ◌-◌, ◌/◌, Bool, true, false, ◌&&◌, Option, none, some, List, [], ◌∷◌, length,
  get_elem?, take, drop, ◌==◌, ltb, if◌then◌else◌,
}
use scry_index.Prelude.Int.{midpoint_i128, eqb_ℤ}
use scry_index.Key.{F64, Key}
use scry_index.Config.{Config}
use scry_index.Model.{constant, binary_split}
use scry_index.Fmcd.{fit_fmcd}
use scry_index.Node.{
  Node, with_capacity, with_capacity_leaf, with_split_key, store_data, store_child, inc_keys,
  predict_slot,
}

pub data Error : Type 0 where
  empty_data : Error
  not_sorted : Error

-- `diverges` stands for a construction that does not end within its fuel, or that panics.
pub data Outcome (A : Type 0) : Type 0 where
  ok : A → Outcome A
  err : Error → Outcome A
  diverges : Outcome A

-- A run of assignments to one slot: the slot, and the indices of its pairs.
abbrev pub Run : Type 0
Run = ℕ × List ℕ

-- The inner `while` of `build_recursive`: the runs of equal slots.
abbrev pub add_to_runs : ℕ → ℕ → List Run → List Run
add_to_runs slot i [] = (slot, i ∷ []) ∷ []
add_to_runs slot i ((s, is) ∷ runs) =
    if slot == s then (s, i ∷ is) ∷ runs else (slot, i ∷ []) ∷ (s, is) ∷ runs

unfoldable pub runs_of : List (ℕ × ℕ) → List Run
runs_of [] = []
runs_of ((slot, i) ∷ rest) = add_to_runs slot i (runs_of rest)

unfoldable pub pick {ℓ} : {A : Type ℓ} → List A → List ℕ → List A
pick pairs [] = []
pick pairs (i ∷ is) = elim (get_elem? pairs i) [ none ↦ pick pairs is | some p ↦ p ∷ pick pairs is ]

module _ {F K V : Type 0} (f : F64 F) (k : Key F K) where
  abbrev pub input_at : List (K × V) → ℕ → F
  input_at pairs i = elim (get_elem? pairs i) [
    | none ↦ f.zero
    | some (key, _) ↦ k.to_model_input key
  ]

  unfoldable pub is_degenerate_group : List (K × V) → Bool
  is_degenerate_group pairs =
      ltb 1 (length pairs)
      && f.lt (f.abs (f.sub (input_at pairs (length pairs - 1)) (input_at pairs 0))) f.epsilon

  -- the check of `bulk_load` over `windows(2)`: `a >= b` is `not (a < b)`
  unfoldable pub is_sorted : List (K × V) → Bool
  is_sorted [] = true
  is_sorted (p ∷ []) = true
  is_sorted ((a, _) ∷ (b, w) ∷ pairs) = k.lt a b && is_sorted ((b, w) ∷ pairs)

module _ {F K V : Type 0} ⦃f : F64 F⦄ ⦃k : Key F K⦄ where
  -- The split of `build_degenerate` between the last key of the lower half and the first of the upper.
  unfoldable pub degenerate_split : K → K → Node F K V
  unfolding with_split_key with_capacity binary_split
  degenerate_split lo_last hi_first =
      let lo_last_ord = k.to_exact_ordinal lo_last in
      let hi_first_ord = k.to_exact_ordinal hi_first in
      if eqb_ℤ lo_last_ord hi_first_ord
      then with_split_key lo_last 2
      else with_capacity (binary_split (midpoint_i128 lo_last_ord hi_first_ord)) 2

  -- One half: a single pair is stored inline, more in a child.
  unfoldable pub place_half :
      (List (K × V) → Option (Node F K V)) → ℕ → List (K × V) → Node F K V → Option (Node F K V)
  unfolding inc_keys store_data store_child
  place_half build idx ((key, v) ∷ []) n = some (inc_keys (store_data n idx key v))
  place_half build idx half n = elim (build half) [
    | none ↦ none
    | some child ↦ some (store_child n idx child)
  ]

  abbrev pub split_at : List (K × V) → Option (Node F K V)
  split_at pairs =
      let mid_idx = length pairs / 2 in
      elim (get_elem? pairs (mid_idx - 1)) [
        | none ↦ none
        | some (lo_last, _) ↦ elim (get_elem? pairs mid_idx) [
          | none ↦ none
          | some (hi_first, _) ↦ some (degenerate_split lo_last hi_first)
        ]
      ]

  -- With fuel for the depth; `none` also stands for the panic on an empty slice.
  unfoldable pub build_degenerate : ℕ → List (K × V) → Option (Node F K V)
  unfolding degenerate_split place_half
  build_degenerate zero pairs = none
  build_degenerate (suc fuel) [] = none
  build_degenerate (suc fuel) ((key, v) ∷ []) =
      some (inc_keys (store_data (with_capacity constant 1) 0 key v))
  build_degenerate (suc fuel) pairs =
      let mid_idx = length pairs / 2 in
      elim (split_at pairs) [
        | none ↦ none
        | some n ↦ elim (place_half (build_degenerate fuel) 0 (take mid_idx pairs) n) [
          | none ↦ none
          | some n' ↦ place_half (build_degenerate fuel) 1 (drop mid_idx pairs) n'
        ]
      ]

  unfoldable pub store_all : List (K × V) → Node F K V → Node F K V
  store_all [] n = n
  store_all ((key, v) ∷ pairs) n =
      store_all pairs (inc_keys (store_data n (predict_slot n key) key v))

  abbrev pub assignments_from : Node F K V → ℕ → List (K × V) → List (ℕ × ℕ)
  assignments_from n i [] = []
  assignments_from n i ((key, v) ∷ pairs) =
      (predict_slot n key, i) ∷ assignments_from n (i + 1) pairs

  -- The outer `while`: one slot for each run.
  unfoldable pub place_runs :
      (List (K × V) → Option (Node F K V))
      → List (K × V)
      → List Run
      → Node F K V
      → Option (Node F K V)
  place_runs build pairs [] n = some n
  place_runs build pairs ((slot_idx, is) ∷ runs) n =
      elim (place_half build slot_idx (pick pairs is) n) [
        | none ↦ none
        | some n' ↦ place_runs build pairs runs n'
      ]

  -- `sort` is `sort_unstable_by_key` on the slots, of the standard library.
  unfoldable pub build_recursive :
      (List (ℕ × ℕ) → List (ℕ × ℕ)) → Config F → ℕ → List (K × V) → Option (Node F K V)
  unfolding is_degenerate_group store_all place_runs runs_of pick build_degenerate fit_fmcd
  build_recursive sort config zero pairs = none
  build_recursive sort config (suc fuel) pairs =
      let n = length pairs in
      let build_group = λ (group : List (K × V)).
        if is_degenerate_group f k group
        then build_degenerate (length group) group
        else build_recursive sort config fuel group in
      elim (is_degenerate_group f k pairs) [
        | true ↦ build_degenerate n pairs
        | false ↦
            elim (fit_fmcd n (input_at f k pairs) config.expansion_factor config.range_headroom) [
              | none ↦ none
              | some result ↦ elim (result.conflicts == 0) [
                | true ↦ some (store_all pairs (with_capacity_leaf result.model result.array_size))
                | false ↦
                    let node : Node F K V = with_capacity result.model result.array_size in
                    place_runs build_group pairs (runs_of (sort (assignments_from node 0 pairs)))
                      node
              ]
            ]
      ]

  unfoldable pub bulk_load :
      (List (ℕ × ℕ) → List (ℕ × ℕ)) → Config F → ℕ → List (K × V) → Outcome (Node F K V)
  unfolding is_sorted build_recursive
  bulk_load sort config fuel [] = err empty_data
  bulk_load sort config fuel (p ∷ pairs) =
      if is_sorted f k (p ∷ pairs)
      then elim (build_recursive sort config fuel (p ∷ pairs)) [ none ↦ diverges | some n ↦ ok n ]
      else err not_sorted
