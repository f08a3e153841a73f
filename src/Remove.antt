-- ===== src/Remove.antt =====
-- src/remove.rs: removal by a tombstone.
pub mod Law
pub mod Total
pub mod Count
use scry_index.Prelude.{ℕ, zero, suc, Bool, true, false, not, Option, none, some}
use scry_index.Key.{F64, Key}
use scry_index.Config.{Config}
use scry_index.Node.{
  Node, Slot, slot_empty, slot_writing, slot_data, slot_child, slot_child_stale, slot_tombstone,
  slot_state, put_slot, cas_data_to_tombstone, dec_keys, inc_tombstones, tombstone_ratio,
  predict_slot,
}

-- The tree after a call, whether the key was there, whether the node that held it is above the
-- tombstone ratio, and whether the descent went through a child.
pub record Removal (F K V : Type 0) : Type 0 where
  pub tree : Node F K V
  pub was_removed : Bool
  pub is_sparse : Bool
  pub descended : Bool

module _ {F K V : Type 0} where
  abbrev pub absent : Node F K V → Option (Removal F K V)
  absent n = some (record { tree = n; was_removed = false; is_sparse = false; descended = false })

  abbrev pub below : (Node F K V → Slot F K V) → Node F K V → ℕ → Removal F K V → Removal F K V
  below slot n idx r = record r { tree = put_slot n idx (slot r.tree); descended = true }

module _ {F K V : Type 0} ⦃f : F64 F⦄ ⦃k : Key F K⦄ where
  abbrev pub found : Config F → Node F K V → Option (Removal F K V)
  found config n = some (record {
    tree = n;
    was_removed = true;
    is_sparse = f.lt config.tombstone_ratio_threshold (tombstone_ratio n);
    descended = false;
  })

  -- The loop of `remove`, with fuel: a slot in the state `WRITING` makes it spin.
  unfoldable pub remove_loop : Config F → ℕ → Node F K V → K → Option (Removal F K V)
  remove_loop config zero n key = none
  remove_loop config (suc fuel) n key =
      let idx = predict_slot n key in
      let retry = remove_loop config fuel n key in
      elim (slot_state n idx) [
        | none ↦ none
        | some slot_empty ↦ absent n
        | some (slot_tombstone old v) ↦ absent n
        | some slot_writing ↦ retry
        | some (slot_data old v) ↦ elim (k.eqb old key) [
          | false ↦ absent n
          | true ↦ elim (cas_data_to_tombstone n idx) [
            | none ↦ retry
            | some n' ↦ found config (inc_tombstones (dec_keys n'))
          ]
        ]
        | some (slot_child c) ↦ elim (remove_loop config fuel c key) [
          | none ↦ none
          | some r ↦ some (below slot_child n idx r)
        ]
        | some (slot_child_stale old v c) ↦ elim (remove_loop config fuel c key) [
          | none ↦ none
          | some r ↦ some (below (slot_child_stale old v) n idx r)
        ]
      ]
