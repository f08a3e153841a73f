-- ===== src/Node.antt =====
-- src/node.rs: the node of the tree, its slots, and the operations on one slot.
-- A node is a value: a write through a shared pointer gives the node that the pointer then shows,
-- and an operation returns it. No other thread runs between the steps of an operation.
pub mod Protocol
pub mod Count
pub mod Laws
pub mod Ready
pub mod Totals
use scry_index.Prelude.{
  ℕ, zero, suc, ◌+◌, ◌-◌, ◌%◌, ◌^◌, Bool, true, false, not, Option, none, some, ◌==◌, if◌then◌else◌,
}
use scry_index.Key.{F64, Key}
use scry_index.Model.{LinearModel, constant, predict}

-- A slot with its state byte, and the data that this state makes valid. `slot_child_stale` and
-- `slot_tombstone` keep the key and the value that were written before. A child pointer is never
-- null: every transition to a child state stores one.
mutual
  pub data Node (F K V : Type 0) : Type 0 where
    node :
        LinearModel F
        → (split_key : Option K) → (has_children : Bool) → (num_keys : ℕ) → (num_tombstones : ℕ)
        → Slots F K V
        → Node F K V

  pub data Slots (F K V : Type 0) : Type 0 where
    nil : Slots F K V
    cons : Slot F K V → Slots F K V → Slots F K V

  pub data Slot (F K V : Type 0) : Type 0 where
    slot_empty : Slot F K V
    slot_writing : Slot F K V
    slot_data : K → V → Slot F K V
    slot_child : Node F K V → Slot F K V
    slot_child_stale : K → V → Node F K V → Slot F K V
    slot_tombstone : K → V → Slot F K V

-- `usize`, on a 64-bit target
abbrev pub usize_mod : ℕ
usize_mod = 2 ^ 64

module _ {F K V : Type 0} where
  unfoldable pub is_child : Slot F K V → Bool
  is_child (slot_child c) = true
  is_child (slot_child_stale k v c) = true
  is_child _ = false

  abbrev pub size : Slots F K V → ℕ
  size nil = 0
  size (cons s ss) = suc (size ss)

  abbrev pub empties : ℕ → Slots F K V
  empties zero = nil
  empties (suc n) = cons slot_empty (empties n)

  abbrev pub nth : Slots F K V → ℕ → Option (Slot F K V)
  nth nil i = none
  nth (cons s ss) zero = some s
  nth (cons s ss) (suc i) = nth ss i

  abbrev pub set_nth : Slots F K V → ℕ → Slot F K V → Slots F K V
  set_nth nil i x = nil
  set_nth (cons s ss) zero x = cons x ss
  set_nth (cons s ss) (suc i) x = cons s (set_nth ss i x)

  unfoldable pub with_capacity : LinearModel F → ℕ → Node F K V
  with_capacity model array_size = node model none true 0 0 (empties array_size)

  -- the array of children is allocated by the first child
  unfoldable pub with_capacity_leaf : LinearModel F → ℕ → Node F K V
  with_capacity_leaf model array_size = node model none false 0 0 (empties array_size)

  unfoldable pub capacity : Node F K V → ℕ
  capacity (node m sk hc nk nt ss) = size ss

  -- `none` where the index is out of bounds and the source panics
  unfoldable pub slot_state : Node F K V → ℕ → Option (Slot F K V)
  slot_state (node m sk hc nk nt ss) i = nth ss i

  unfoldable pub put_slot : Node F K V → ℕ → Slot F K V → Node F K V
  put_slot (node m sk hc nk nt ss) i s = node m sk hc nk nt (set_nth ss i s)

  unfoldable pub ensure_children : Node F K V → Node F K V
  ensure_children (node m sk hc nk nt ss) = node m sk true nk nt ss

  unfoldable pub store_data : Node F K V → ℕ → K → V → Node F K V
  unfolding put_slot
  store_data n idx key value = put_slot n idx (slot_data key value)

  unfoldable pub store_child : Node F K V → ℕ → Node F K V → Node F K V
  unfolding put_slot ensure_children
  store_child n idx child = put_slot (ensure_children n) idx (slot_child child)

  -- The compare-and-swap operations, with no other thread between the claim and the release:
  -- the new node, or `none` where the slot is not in the expected state.
  abbrev empty_to_data : Option (Slot F K V) → K → V → Option (Slot F K V)
  empty_to_data (some slot_empty) key value = some (slot_data key value)
  empty_to_data _ key value = none

  abbrev tombstone_to_child_stale : Option (Slot F K V) → Node F K V → Option (Slot F K V)
  tombstone_to_child_stale (some (slot_tombstone k v)) child = some (slot_child_stale k v child)
  tombstone_to_child_stale _ child = none

  abbrev data_to_child_stale : Option (Slot F K V) → Node F K V → Option (Slot F K V)
  data_to_child_stale (some (slot_data k v)) child = some (slot_child_stale k v child)
  data_to_child_stale _ child = none

  abbrev data_to_tombstone : Option (Slot F K V) → Option (Slot F K V)
  data_to_tombstone (some (slot_data k v)) = some (slot_tombstone k v)
  data_to_tombstone _ = none

  unfoldable pub cas_empty_to_data : Node F K V → ℕ → K → V → Option (Node F K V)
  unfolding slot_state put_slot
  cas_empty_to_data n idx key value = elim (empty_to_data (slot_state n idx) key value) [
    | none ↦ none
    | some s ↦ some (put_slot n idx s)
  ]

  unfoldable pub cas_tombstone_to_child_stale : Node F K V → ℕ → Node F K V → Option (Node F K V)
  unfolding slot_state put_slot ensure_children
  cas_tombstone_to_child_stale n idx child =
      elim (tombstone_to_child_stale (slot_state n idx) child) [
        | none ↦ none
        | some s ↦ some (put_slot (ensure_children n) idx s)
      ]

  unfoldable pub cas_data_to_child_stale : Node F K V → ℕ → Node F K V → Option (Node F K V)
  unfolding slot_state put_slot ensure_children
  cas_data_to_child_stale n idx child = elim (data_to_child_stale (slot_state n idx) child) [
    | none ↦ none
    | some s ↦ some (put_slot (ensure_children n) idx s)
  ]

  unfoldable pub cas_data_to_tombstone : Node F K V → ℕ → Option (Node F K V)
  unfolding slot_state put_slot
  cas_data_to_tombstone n idx = elim (data_to_tombstone (slot_state n idx)) [
    | none ↦ none
    | some s ↦ some (put_slot n idx s)
  ]

  -- `fetch_add` and `fetch_sub` wrap
  unfoldable pub inc_keys : Node F K V → Node F K V
  inc_keys (node m sk hc nk nt ss) = node m sk hc ((nk + 1) % usize_mod) nt ss

  unfoldable pub dec_keys : Node F K V → Node F K V
  dec_keys (node m sk hc nk nt ss) = node m sk hc ((nk + usize_mod - 1) % usize_mod) nt ss

  unfoldable pub inc_tombstones : Node F K V → Node F K V
  inc_tombstones (node m sk hc nk nt ss) = node m sk hc nk ((nt + 1) % usize_mod) ss

  unfoldable pub dec_tombstones : Node F K V → Node F K V
  dec_tombstones (node m sk hc nk nt ss) = node m sk hc nk ((nt + usize_mod - 1) % usize_mod) ss

  unfoldable pub put_split_key : Node F K V → K → Node F K V
  put_split_key (node m sk hc nk nt ss) boundary = node m (some boundary) hc nk nt ss

module _ {F K V : Type 0} ⦃f : F64 F⦄ where
  unfoldable pub with_split_key : K → ℕ → Node F K V
  unfolding with_capacity put_split_key constant
  with_split_key boundary array_size = put_split_key (with_capacity constant array_size) boundary

  unfoldable pub tombstone_ratio : Node F K V → F
  tombstone_ratio (node m sk hc nk nt ss) =
      if size ss == 0 then f.zero else f.div (f.of_usize nt) (f.of_usize (size ss))

module _ {F K V : Type 0} ⦃f : F64 F⦄ ⦃k : Key F K⦄ where
  -- `key <= sk` is `not (sk < key)`
  unfoldable pub predict_slot : Node F K V → K → ℕ
  unfolding predict
  predict_slot (node m sk hc nk nt ss) key = elim sk [
    | some b ↦ if not (k.lt b key) then 0 else size ss - 1
    | none ↦ predict m key (size ss)
  ]
