-- ===== src/Insert/Total.antt =====
-- Termination of `insert_loop` in src/insert.rs, by the node that it chooses for a conflict.
use scry_index.Prelude.{
  ℕ, zero, suc, ◌+◌, ◌*◌, ◌<◌, ◌≤◌, true, false, Option, none, some, ◌≡◌, ◌≢◌, refl, arith,
  some_of_ne_none, Returns,
}
use scry_index.Prelude.Int.{IsI128, ◌-ℤ◌, eqb_ℤ, midpoint_i128_lem}
use scry_index.Key.{F64, Key, ne_of_eqb, lt_of_ne}
use scry_index.Model.{predict, predict_raw}
use scry_index.Node.{
  Node, Slot, slot_empty, slot_writing, slot_data, slot_child, slot_child_stale, slot_tombstone,
  slot_state, predict_slot, with_split_key, cas_empty_to_data, cas_tombstone_to_child_stale,
  cas_data_to_child_stale,
}
use scry_index.Node.Laws.{predict_slot-lt, slot_state-none}
use scry_index.Node.Ready.{
  IsReady, slot_state-IsReady, capacity_pos, depth_pos, child_room, stale_room,
}
use scry_index.Node.Count.{max_depth}
use scry_index.Insert.{conflict_shell, conflict_model, build_conflict_node, insert_loop}

-- The slot that a position rounds to, before the bound of the array, and the position halfway
-- between the slots j and j + 1.
abbrev nearest : {F : Type 0} → F64 F → F → ℕ
nearest f p = f.to_usize (f.max (f.round p) f.zero)

abbrev halfway : {F : Type 0} → F64 F → ℕ → F
halfway f j = f.div (f.of_usize (2 * j + 1)) (f.of_usize 2)

-- The line of slope 3 / (b - a) through zero at `a`, at the input `t`.
abbrev line_at : {F : Type 0} → F64 F → F → F → F → F
line_at f a b t = let s = f.div (f.of_usize 3) (f.sub b a) in f.mul_add s t (f.mul (f.neg s) a)

-- What the code relies on of the machine's numbers, for all keys `lo` below `hi`: rounding respects
-- the halfway positions of four slots; where the difference of the inputs is not negligible, one of
-- these lies between the values of the line at `lo` and at `hi` (it does in `f64` unless the
-- difference of the inputs overflows, as between -1e308 and 1e308); and where it is negligible, the
-- difference of the ordinals does not overflow an i128.
pub record Separates {F K : Type 0} (f : F64 F) (k : Key F K) : Type 0 where
  pub round_down : (j : ℕ) (p : F) → j < 3 → f.lt p (halfway f j) ≡ true → nearest f p ≤ j
  pub round_up : (j : ℕ) (p : F) → j < 3 → f.lt (halfway f j) p ≡ true → j < nearest f p
  pub crosses :
      (lo hi : K)
      → k.lt lo hi ≡ true
      → f.lt (f.abs (f.sub (k.to_model_input hi) (k.to_model_input lo))) f.epsilon ≡ false
      → (j : ℕ) × (j < 3)
        × (f.lt
              (line_at f (k.to_model_input lo) (k.to_model_input hi) (k.to_model_input lo))
              (halfway f j)
            ≡ true)
        × (f.lt
              (halfway f j)
              (line_at f (k.to_model_input lo) (k.to_model_input hi) (k.to_model_input hi))
            ≡ true)
  pub ordinals_fit :
      (lo hi : K)
      → k.lt lo hi ≡ true
      → f.lt (f.abs (f.sub (k.to_model_input hi) (k.to_model_input lo))) f.epsilon ≡ true
      → IsI128 (k.to_exact_ordinal hi -ℤ k.to_exact_ordinal lo)

module _ (F V : Type 0) {K : Type 0} ⦃f : F64 F⦄ ⦃k : Key F K⦄ where
  by_line :
      (lo hi : K)
      → Separates f k
      → k.lt lo hi ≡ true
      → f.lt (f.abs (f.sub (k.to_model_input hi) (k.to_model_input lo))) f.epsilon ≡ false
      → predict {F = F} (conflict_model lo hi) lo 4 ≢ predict {F = F} (conflict_model lo hi) hi 4
  unfolding conflict_model predict predict_raw
  by_line lo hi s l far e =
      let (j, inside, below, above) = s.crosses lo hi l far in
      ground (arith, far, s.round_down j _ inside below, s.round_up j _ inside above)

  by_ordinal :
      (lo hi : K)
      → k.lt lo hi ≡ true
      → f.lt (f.abs (f.sub (k.to_model_input hi) (k.to_model_input lo))) f.epsilon ≡ true
      → IsI128 (k.to_exact_ordinal hi -ℤ k.to_exact_ordinal lo)
      → eqb_ℤ (k.to_exact_ordinal lo) (k.to_exact_ordinal hi) ≡ false
      → predict {F = F} (conflict_model lo hi) lo 4 ≢ predict {F = F} (conflict_model lo hi) hi 4
  unfolding conflict_model predict
  by_ordinal lo hi l same fit differ e = ground (
    arith,
    midpoint_i128_lem (k.to_exact_ordinal lo) (k.to_exact_ordinal hi) (k.ordinal_bounded lo)
        (k.ordinal_bounded hi) fit (k.ordinal_mono lo hi l) differ,
  )

  by_split_key :
      (lo hi : K)
      → k.lt lo hi ≡ true
      → predict_slot (with_split_key {F = F} {V = V} lo 4) lo
        ≢ predict_slot (with_split_key {F = F} {V = V} lo 4) hi
  unfolding predict_slot with_split_key
  by_split_key lo hi l e = ground (arith, k.lt_irrefl lo)

  -- Where the machine's numbers separate keys as `Separates` says (the line crosses a halfway
  -- position between inputs that differ, and the ordinals of keys with negligibly different inputs
  -- do not overflow an i128 by their difference), the node that is chosen for a conflict of two
  -- keys, the lower first, predicts different slots for them, by the line, by the midpoint of the
  -- ordinals or by the split key.
  pub conflict_shell-Separates :
      (lo hi : K)
      → Separates f k
      → k.lt lo hi ≡ true
      → predict_slot (conflict_shell {F = F} {V = V} lo hi) lo
        ≢ predict_slot (conflict_shell {F = F} {V = V} lo hi) hi
  unfolding conflict_shell predict_slot
  conflict_shell-Separates lo hi s l e = ground (
    arith,
    by_line lo hi s l,
    λ (same : f.lt (f.abs (f.sub (k.to_model_input hi) (k.to_model_input lo))) f.epsilon ≡ true).
        by_ordinal lo hi l same (s.ordinals_fit lo hi l same),
    by_split_key lo hi l,
  )

module _ {F K V : Type 0} ⦃f : F64 F⦄ ⦃k : Key F K⦄ (separates : Separates f k) where
  build_conflict_node-ne-none :
      (fuel : ℕ) (k1 : K) (v1 : V) (k2 : K) (v2 : V)
      → k1 ≢ k2
      → 0 < fuel
      → build_conflict_node {F = F} fuel k1 v1 k2 v2 ≢ none
  unfolding build_conflict_node
  build_conflict_node-ne-none zero k1 v1 k2 v2 ne h = elim h [ ]
  build_conflict_node-ne-none (suc fuel) k1 v1 k2 v2 ne h = ground (
    arith,
    lt_of_ne k k1 k2 ne,
    conflict_shell-Separates F V k1 k2 separates,
    conflict_shell-Separates F V k2 k1 separates,
  )

  round-ne-none :
      (fuel : ℕ) (n : Node F K V) (key : K) (value : V) (s : Option (Slot F K V))
      → slot_state n (predict_slot n key) ≡ s
      → IsReady n
      → max_depth n < suc fuel
      → ((c : Node F K V) → IsReady c → max_depth c < fuel → insert_loop fuel c key value ≢ none)
      → insert_loop (suc fuel) n key value ≢ none
  unfolding insert_loop cas_empty_to_data cas_tombstone_to_child_stale cas_data_to_child_stale
  round-ne-none fuel n key value none st ready d ih = absurd (
      omega (
        arith,
        predict_slot-lt n key (capacity_pos n ready),
        slot_state-none n (predict_slot n key) st,
      ))
  round-ne-none fuel n key value (some slot_empty) st ready d ih = ground arith
  round-ne-none fuel n key value (some slot_writing) st ready d ih =
      absurd (slot_state-IsReady n _ slot_writing ready st)
  round-ne-none fuel n key value (some (slot_data old v)) st ready d ih =
      ground
        (arith, ne_of_eqb k old key, build_conflict_node-ne-none fuel old v key value, depth_pos n)
  round-ne-none fuel n key value (some (slot_child c)) st ready d ih =
      let room : max_depth c < fuel = child_room n _ c d st in
      ground (arith, ih c (slot_state-IsReady n _ _ ready st) room)
  round-ne-none fuel n key value (some (slot_child_stale old v c)) st ready d ih =
      let room : max_depth c < fuel = stale_room n _ old v c d st in
      ground (arith, ih c (slot_state-IsReady n _ _ ready st) room)
  round-ne-none fuel n key value (some (slot_tombstone old v)) st ready d ih = ground arith

  insert_loop-ne-none :
      (fuel : ℕ) (n : Node F K V) (key : K) (value : V)
      → IsReady n
      → max_depth n < fuel
      → insert_loop fuel n key value ≢ none
  insert_loop-ne-none zero n key value ready d = absurd (omega arith)
  insert_loop-ne-none (suc fuel) n key value ready d =
      round-ne-none fuel n key value (slot_state n (predict_slot n key)) refl ready d
        (λ c r h. insert_loop-ne-none fuel c key value r h)

  -- Where no slot is being written and the machine's numbers separate keys as `Separates` says,
  -- which for keys of negligibly different inputs includes that the difference of their ordinals
  -- does not overflow an i128, `insert_loop` returns with fuel above the depth of the tree.
  pub insert_loop_total :
      (fuel : ℕ) (n : Node F K V) (key : K) (value : V)
      → IsReady n
      → max_depth n < fuel
      → Returns (insert_loop fuel n key value)
  insert_loop_total fuel n key value ready d =
      some_of_ne_none _ (insert_loop-ne-none fuel n key value ready d)
