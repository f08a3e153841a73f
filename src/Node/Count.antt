-- ===== src/Node/Count.antt =====
-- src/node.rs: the counts over a node and its descendants.
use scry_index.Prelude.{ℕ, ◌+◌, ◌*◌, max, if◌then◌else◌}
use scry_index.Node.{
  Node, Slots, Slot, node, nil, cons, slot_data, slot_child, slot_child_stale, size,
}

module _ {F K V : Type 0} where
  unfoldable mutual
    pub total_keys : Node F K V → ℕ
    total_keys (node m sk hc nk nt ss) = total_keys_from ss

    pub total_keys_from : Slots F K V → ℕ
    total_keys_from nil = 0
    total_keys_from (cons s ss) = total_keys_at s + total_keys_from ss

    pub total_keys_at : Slot F K V → ℕ
    total_keys_at (slot_data k v) = 1
    total_keys_at (slot_child c) = total_keys c
    total_keys_at (slot_child_stale k v c) = total_keys c
    total_keys_at _ = 0

  unfoldable mutual
    pub max_depth : Node F K V → ℕ
    max_depth (node m sk hc nk nt ss) = 1 + max_depth_from ss

    pub max_depth_from : Slots F K V → ℕ
    max_depth_from nil = 0
    max_depth_from (cons s ss) = max (max_depth_at s) (max_depth_from ss)

    pub max_depth_at : Slot F K V → ℕ
    max_depth_at (slot_child c) = max_depth c
    max_depth_at (slot_child_stale k v c) = max_depth c
    max_depth_at _ = 0

-- The sizes of the types of a node's parts, which the compiler fixes.
pub record Layout : Type 0 where
  pub node_size : ℕ
  pub state_size : ℕ
  pub key_size : ℕ
  pub value_size : ℕ
  pub pointer_size : ℕ

module _ {F K V : Type 0} (l : Layout) where
  unfoldable mutual
    pub allocated_bytes : Node F K V → ℕ
    allocated_bytes (node m sk hc nk nt ss) =
        l.node_size
        + (size ss * (l.state_size + l.key_size + l.value_size)
            + (if hc then size ss else 0) * l.pointer_size)
        + (if hc then allocated_bytes_from ss else 0)

    pub allocated_bytes_from : Slots F K V → ℕ
    allocated_bytes_from nil = 0
    allocated_bytes_from (cons s ss) = allocated_bytes_at s + allocated_bytes_from ss

    pub allocated_bytes_at : Slot F K V → ℕ
    allocated_bytes_at (slot_child c) = allocated_bytes c
    allocated_bytes_at (slot_child_stale k v c) = allocated_bytes c
    allocated_bytes_at _ = 0
