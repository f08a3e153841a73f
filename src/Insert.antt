-- ===== src/Insert.antt =====
-- src/insert.rs: insertion by the chain method.
pub mod Store
pub mod Conflict
pub mod Law
pub mod Total
pub mod Ready
pub mod Result
pub mod Depth
pub mod Get
pub mod GetLaw
pub mod Pair
pub mod Apart
pub mod Count
use scry_index.Prelude.{
  ℕ, zero, suc, ◌+◌, Bool, true, false, Option, none, some, ◌&&◌, ◌==◌, if◌then◌else◌,
}
use scry_index.Prelude.Int.{midpoint_i128, eqb_ℤ}
use scry_index.Key.{F64, Key}
use scry_index.Model.{LinearModel, new, binary_split}
use scry_index.Node.{
  Node, Slot, slot_empty, slot_writing, slot_data, slot_child, slot_child_stale, slot_tombstone,
  with_capacity, with_split_key, slot_state, put_slot, store_data, cas_empty_to_data,
  cas_tombstone_to_child_stale, cas_data_to_child_stale, inc_keys, dec_keys, dec_tombstones,
  predict_slot,
}

pub data InsertResult : Type 0 where
  inserted : InsertResult
  updated : InsertResult

-- The tree after a call, its result, and the number of child nodes that the descent went through.
pub record Insertion (F K V : Type 0) : Type 0 where
  pub tree : Node F K V
  pub result : InsertResult
  pub depth : ℕ

-- The lower key first, each with its value; the test is `k1 < k2`.
abbrev pub in_order : {K V : Type 0} → Bool → K → V → K → V → K × V × K × V
in_order k1_lt_k2 k1 v1 k2 v2 = if k1_lt_k2 then (k1, v1, k2, v2) else (k2, v2, k1, v1)

module _ {F K V : Type 0} where
  -- The descent, seen from a node whose child at `idx` was descended into.
  abbrev pub below : (Node F K V → Slot F K V) → Node F K V → ℕ → Insertion F K V → Insertion F K V
  below slot n idx i = record {
    tree = put_slot n idx (slot i.tree);
    result = i.result;
    depth = i.depth + 1;
  }

  abbrev pub done : InsertResult → Node F K V → Option (Insertion F K V)
  done result n = some (record { tree = n; result = result; depth = 0 })

module _ {F K : Type 0} ⦃f : F64 F⦄ ⦃k : Key F K⦄ where
  -- The model for two keys with different inputs, or with the same input and different ordinals.
  unfoldable pub conflict_model : K → K → LinearModel F
  unfolding new binary_split
  conflict_model lo hi =
      let lo_f = k.to_model_input lo in
      let key_range = f.sub (k.to_model_input hi) lo_f in
      let lo_ord = k.to_exact_ordinal lo in
      let s = f.div (f.of_usize 3) key_range in
      if f.lt (f.abs key_range) f.epsilon
      then binary_split (midpoint_i128 lo_ord (k.to_exact_ordinal hi))
      else new s (f.mul (f.neg s) lo_f)

module _ {F K V : Type 0} ⦃f : F64 F⦄ ⦃k : Key F K⦄ where
  unfoldable pub build_single_entry_child : K → V → Node F K V
  unfolding with_capacity new store_data inc_keys
  build_single_entry_child key value =
      let node = with_capacity (new f.one (f.neg (k.to_model_input key))) 2 in
      inc_keys (store_data node (predict_slot node key) key value)

  -- The empty node of four slots that `build_conflict_node` chooses for `lo` and `hi`.
  unfoldable pub conflict_shell : K → K → Node F K V
  unfolding with_capacity with_split_key conflict_model
  conflict_shell lo hi =
      let key_range = f.sub (k.to_model_input hi) (k.to_model_input lo) in
      if f.lt (f.abs key_range) f.epsilon && eqb_ℤ (k.to_exact_ordinal lo) (k.to_exact_ordinal hi)
      then with_split_key lo 4
      else with_capacity (conflict_model lo hi) 4

  -- The loop of `insert`, with fuel: a round that finds the slot in the state `WRITING` spins, and a
  -- node that separates the two keys of a conflict no better than its parent recurs for ever.
  -- `none` also stands for the panic on an index out of bounds.
  unfoldable mutual
    pub build_conflict_node : ℕ → K → V → K → V → Option (Node F K V)
    build_conflict_node zero k1 v1 k2 v2 = none
    build_conflict_node (suc fuel) k1 v1 k2 v2 =
        let (lo_k, lo_v, hi_k, hi_v) = in_order (k.lt k1 k2) k1 v1 k2 v2 in
        let shell = conflict_shell lo_k hi_k in
        let s1 = predict_slot shell lo_k in
        let s2 = predict_slot shell hi_k in
        let one = inc_keys (store_data shell s1 lo_k lo_v) in
        elim (s1 == s2) [
          | true ↦ elim (insert_loop fuel one hi_k hi_v) [ none ↦ none | some i ↦ some i.tree ]
          | false ↦ some (inc_keys (store_data one s2 hi_k hi_v))
        ]

    pub insert_loop : ℕ → Node F K V → K → V → Option (Insertion F K V)
    insert_loop zero n key value = none
    insert_loop (suc fuel) n key value =
        let idx = predict_slot n key in
        let retry = insert_loop fuel n key value in
        elim (slot_state n idx) [
          | none ↦ none
          | some slot_writing ↦ retry
          | some slot_empty ↦ elim (cas_empty_to_data n idx key value) [
            | none ↦ retry
            | some n' ↦ done inserted (inc_keys n')
          ]
          | some (slot_tombstone old v) ↦
              elim (cas_tombstone_to_child_stale n idx (build_single_entry_child key value)) [
                | none ↦ retry
                | some n' ↦ done inserted (dec_tombstones n')
              ]
          | some (slot_data old v) ↦ elim (k.eqb old key) [
            | true ↦ elim (cas_data_to_child_stale n idx (build_single_entry_child key value)) [
              | none ↦ retry
              | some n' ↦ done updated n'
            ]
            | false ↦ elim (build_conflict_node fuel old v key value) [
              | none ↦ none
              | some child ↦ elim (cas_data_to_child_stale n idx child) [
                | none ↦ retry
                | some n' ↦ done inserted (dec_keys n')
              ]
            ]
          ]
          | some (slot_child c) ↦ elim (insert_loop fuel c key value) [
            | none ↦ none
            | some i ↦ some (below slot_child n idx i)
          ]
          | some (slot_child_stale old v c) ↦ elim (insert_loop fuel c key value) [
            | none ↦ none
            | some i ↦ some (below (slot_child_stale old v) n idx i)
          ]
        ]
