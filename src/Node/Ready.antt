-- ===== src/Node/Ready.antt =====
-- A tree between two calls: every node has a slot, and no slot is being written.
use mathlib.Core.Option.{some-injective}
use mathlib.Core.Path.{subst}
use scry_index.Prelude.{ℕ, zero, suc, ◌<◌, some, ◌≡◌, arith}
use scry_index.Node.{
  Node, Slots, Slot, node, nil, cons, slot_writing, slot_child, slot_child_stale, size, empties,
  nth, set_nth, capacity, slot_state, put_slot,
}
use scry_index.Node.Laws.{size-set_nth}
use scry_index.Node.Count.{max_depth, max_depth_from, max_depth_at}

module _ {F K V : Type 0} where
  abbrev mutual
    pub IsReady : Node F K V → Type 0
    IsReady (node m sk hc nk nt ss) = (0 < size ss) × AllReady ss

    pub AllReady : Slots F K V → Type 0
    AllReady nil = Unit {0}
    AllReady (cons s ss) = IsReadySlot s × AllReady ss

    pub IsReadySlot : Slot F K V → Type 0
    IsReadySlot slot_writing = ⊥
    IsReadySlot (slot_child c) = IsReady c
    IsReadySlot (slot_child_stale k v c) = IsReady c
    IsReadySlot _ = Unit {0}

  nth-IsReady :
      (ss : Slots F K V) (i : ℕ) (s : Slot F K V) → AllReady ss → nth ss i ≡ some s → IsReadySlot s
  nth-IsReady nil i s h e = cc
  nth-IsReady (cons x ss) zero s h e = subst IsReadySlot (some-injective x s e) h.0
  nth-IsReady (cons x ss) (suc i) s h e = nth-IsReady ss i s h.1 e

  set_nth-IsReady :
      (ss : Slots F K V) (i : ℕ) (s : Slot F K V)
      → AllReady ss
      → IsReadySlot s
      → AllReady (set_nth ss i s)
  set_nth-IsReady nil i s h r = tt
  set_nth-IsReady (cons x ss) zero s h r = (r, h.1)
  set_nth-IsReady (cons x ss) (suc i) s h r = (h.0, set_nth-IsReady ss i s h.1 r)

  pub slot_state-IsReady :
      (n : Node F K V) (i : ℕ) (s : Slot F K V)
      → IsReady n
      → slot_state n i ≡ some s
      → IsReadySlot s
  unfolding slot_state
  slot_state-IsReady (node m sk hc nk nt ss) i s h e = nth-IsReady ss i s h.1 e

  pub put_slot-IsReady :
      (n : Node F K V) (i : ℕ) (s : Slot F K V)
      → IsReady n
      → IsReadySlot s
      → IsReady (put_slot n i s)
  unfolding put_slot
  put_slot-IsReady (node m sk hc nk nt ss) i s h r =
      (rw size-set_nth h.0, set_nth-IsReady ss i s h.1 r)

  pub capacity_pos : (n : Node F K V) → IsReady n → 0 < capacity n
  unfolding capacity
  capacity_pos (node m sk hc nk nt ss) h = h.0

  depth-nth :
      (ss : Slots F K V) (i : ℕ) (s : Slot F K V)
      → nth ss i ≡ some s
      → max_depth_at s < suc (max_depth_from ss)
  unfolding max_depth
  depth-nth nil i s e = cc
  depth-nth (cons x ss) zero s e = ground arith
  depth-nth (cons x ss) (suc i) s e = omega (arith, depth-nth ss i s e)

  pub depth-slot_state :
      (n : Node F K V) (i : ℕ) (s : Slot F K V)
      → slot_state n i ≡ some s
      → max_depth_at s < max_depth n
  unfolding slot_state max_depth
  depth-slot_state (node m sk hc nk nt ss) i s e = omega (arith, depth-nth ss i s e)

module _ {F K V : Type 0} where
  pub depth_pos : (n : Node F K V) → 0 < max_depth n
  unfolding max_depth
  depth_pos (node m sk hc nk nt ss) = omega arith

  -- A child is shallower than its parent.
  pub child_room :
      {d : ℕ} (n : Node F K V) (i : ℕ) (c : Node F K V)
      → max_depth n < suc d
      → slot_state n i ≡ some (slot_child c)
      → max_depth c < d
  unfolding max_depth
  child_room n i c h e = omega (arith, depth-slot_state n i (slot_child c) e)

  pub stale_room :
      {d : ℕ} (n : Node F K V) (i : ℕ) (k : K) (v : V) (c : Node F K V)
      → max_depth n < suc d
      → slot_state n i ≡ some (slot_child_stale k v c)
      → max_depth c < d
  unfolding max_depth
  stale_room n i k v c h e = omega (arith, depth-slot_state n i (slot_child_stale k v c) e)

pub empties-AllReady : (F K V : Type 0) (n : ℕ) → AllReady (empties {F = F} {K = K} {V = V} n)
empties-AllReady F K V zero = tt
empties-AllReady F K V (suc n) = (tt, empties-AllReady F K V n)
