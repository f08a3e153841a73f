-- ===== src/Rebuild.antt =====
-- src/rebuild.rs, and the tails of `insert` and `remove` that call it: the rebuild of a subtree.
-- No other thread runs between the freeze of the child pointer and its replacement, so the two
-- exchanges succeed and the frozen pointer is not seen.
use scry_index.Prelude.{ℕ, Bool, true, false, ◌&&◌, Option, none, some, List, length, leb, ltb}
use scry_index.Key.{F64, Key}
use scry_index.Config.{Config}
use scry_index.Node.{Node, Slot, slot_child, slot_child_stale, slot_state, put_slot, predict_slot}
use scry_index.Iter.{sorted_pairs}
use scry_index.Build.{build_recursive}
use scry_index.Insert.{InsertResult, inserted, updated, insert_loop}
use scry_index.Insert.Get.{get_or_insert_loop}
use scry_index.Remove.{remove_loop}

-- the factor 1.5, and at most 4.0
unfoldable pub boosted_config : {F : Type 0} → F64 F → Config F → Config F
boosted_config f config = record config {
  expansion_factor =
      f.min (f.mul config.expansion_factor (f.div (f.of_usize 3) (f.of_usize 2))) (f.of_usize 4);
}

abbrev pub is_inserted : InsertResult → Bool
is_inserted inserted = true
is_inserted updated = false

module _ {F K V : Type 0} ⦃f : F64 F⦄ ⦃k : Key F K⦄ (sort : List (ℕ × ℕ) → List (ℕ × ℕ))
    (config : Config F) (fuel : ℕ) where
  -- The new child for an old one: `some none` where the subtree is too small to rebuild.
  abbrev rebuilt : Node F K V → Option (Option (Node F K V))
  rebuilt child = elim (sorted_pairs fuel child) [
    | none ↦ none
    | some pairs ↦ elim (leb (length pairs) 1) [
      | true ↦ some none
      | false ↦ elim (build_recursive sort (boosted_config f config) fuel pairs) [
        | none ↦ none
        | some n ↦ some (some n)
      ]
    ]
  ]

  abbrev swap_child :
      Node F K V
      → ℕ
      → (Node F K V → Slot F K V)
      → Option (Option (Node F K V))
      → Option (Node F K V × Bool)
  swap_child parent idx slot none = none
  swap_child parent idx slot (some none) = some (parent, false)
  swap_child parent idx slot (some (some n)) = some (put_slot parent idx (slot n), true)

  unfoldable pub try_rebuild_subtree : Node F K V → ℕ → Option (Node F K V × Bool)
  unfolding boosted_config
  try_rebuild_subtree parent idx = elim (slot_state parent idx) [
    | none ↦ none
    | some (slot_child c) ↦ swap_child parent idx slot_child (rebuilt c)
    | some (slot_child_stale old v c) ↦ swap_child parent idx (slot_child_stale old v) (rebuilt c)
    | some s ↦ some (parent, false)
  ]

  abbrev rebuild_if : Bool → Node F K V → ℕ → Option (Node F K V)
  rebuild_if false n idx = some n
  rebuild_if true n idx = elim (try_rebuild_subtree n idx) [
    | none ↦ none
    | some (n', done) ↦ some n'
  ]

  -- `insert`: the loop, and the rebuild of the shallowest child where the descent was too deep.
  unfoldable pub insert : Node F K V → K → V → Option (Node F K V × InsertResult)
  unfolding insert_loop try_rebuild_subtree
  insert n key value = elim (insert_loop fuel n key value) [
    | none ↦ none
    | some i ↦
        elim (rebuild_if
          (is_inserted i.result
            && (config.auto_rebuild && ltb config.rebuild_depth_threshold i.depth))
          i.tree (predict_slot n key)) [ none ↦ none | some n' ↦ some (n', i.result) ]
  ]

  -- `remove`: the loop, and the rebuild of the shallowest child where tombstones are too many.
  unfoldable pub remove : Node F K V → K → Option (Node F K V × Bool)
  unfolding remove_loop try_rebuild_subtree
  remove n key = elim (remove_loop config fuel n key) [
    | none ↦ none
    | some r ↦
        elim (rebuild_if (r.was_removed && (config.auto_rebuild && (r.is_sparse && r.descended)))
          r.tree (predict_slot n key)) [ none ↦ none | some n' ↦ some (n', r.was_removed) ]
  ]

  -- `get_or_insert`: the loop, and the same rebuild as in `insert`.
  unfoldable pub get_or_insert : Node F K V → K → V → Option (Node F K V × V × InsertResult)
  unfolding get_or_insert_loop try_rebuild_subtree
  get_or_insert n key value = elim (get_or_insert_loop fuel n key value) [
    | none ↦ none
    | some o ↦
        elim (rebuild_if
          (is_inserted o.result
            && (config.auto_rebuild && ltb config.rebuild_depth_threshold o.depth))
          o.tree (predict_slot n key)) [ none ↦ none | some n' ↦ some (n', o.value, o.result) ]
  ]
