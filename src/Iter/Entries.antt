-- ===== src/Iter/Entries.antt =====
-- The entries of a tree by a recursive walk, and what a stack of the iterator has left of them.
use scry_index.Prelude.{
  ℕ, zero, suc, ◌+◌, ◌≤◌, some, List, [], ◌∷◌, ◌++◌, ◌≡◌, refl, arith, length, length-append,
}
use scry_index.Node.{
  Node, Slots, Slot, node, nil, cons, slot_empty, slot_writing, slot_data, slot_child,
  slot_child_stale, slot_tombstone, size, nth, capacity, slot_state,
}
use native.Mathlib.Numerals.{add-one}
use scry_index.Node.Count.{total_keys, total_keys_from, total_keys_at}
use scry_index.Node.Ready.{IsReady}
use scry_index.Iter.{Stack}

module _ {F K V : Type 0} where
  -- the recursive walk
  unfoldable mutual
    pub entries : Node F K V → List (K × V)
    entries (node m sk hc nk nt ss) = entries_from ss

    pub entries_from : Slots F K V → List (K × V)
    entries_from nil = []
    entries_from (cons s ss) = entries_at s ++ entries_from ss

    pub entries_at : Slot F K V → List (K × V)
    entries_at (slot_data k v) = (k, v) ∷ []
    entries_at (slot_child c) = entries c
    entries_at (slot_child_stale k v c) = entries c
    entries_at _ = []

  -- the rounds that the walk of a node takes
  unfoldable mutual
    pub rounds : Node F K V → ℕ
    rounds (node m sk hc nk nt ss) = 1 + rounds_from ss

    pub rounds_from : Slots F K V → ℕ
    rounds_from nil = 0
    rounds_from (cons s ss) = rounds_at s + rounds_from ss

    pub rounds_at : Slot F K V → ℕ
    rounds_at (slot_child c) = 1 + rounds c
    rounds_at (slot_child_stale k v c) = 1 + rounds c
    rounds_at _ = 1

  pub drop_slots : ℕ → Slots F K V → Slots F K V
  drop_slots zero ss = ss
  drop_slots (suc i) nil = nil
  drop_slots (suc i) (cons s ss) = drop_slots i ss

  pub entries_after : Node F K V → ℕ → List (K × V)
  entries_after (node m sk hc nk nt ss) i = entries_from (drop_slots i ss)

  pub rounds_after : Node F K V → ℕ → ℕ
  rounds_after (node m sk hc nk nt ss) i = rounds_from (drop_slots i ss)

  drop_slots_end : (ss : Slots F K V) (i : ℕ) → size ss ≤ i → drop_slots i ss ≡ nil
  unfolding drop_slots
  drop_slots_end nil zero h = refl
  drop_slots_end nil (suc i) h = refl
  drop_slots_end (cons s ss) zero h = absurd (omega arith)
  drop_slots_end (cons s ss) (suc i) h = drop_slots_end ss i (omega arith)

  drop_slots-nth :
      (ss : Slots F K V) (i : ℕ) (s : Slot F K V)
      → nth ss i ≡ some s
      → drop_slots i ss ≡ cons s (drop_slots (suc i) ss)
  unfolding drop_slots
  drop_slots-nth nil i s e = cc
  drop_slots-nth (cons x ss) zero s e = cc
  drop_slots-nth (cons x ss) (suc i) s e = drop_slots-nth ss i s e

  pub entries_after_end : (n : Node F K V) (i : ℕ) → capacity n ≤ i → entries_after n i ≡ []
  unfolding entries_after entries capacity
  entries_after_end (node m sk hc nk nt ss) i h = rw (drop_slots_end ss i h)

  pub entries_after_lem :
      (n : Node F K V) (i : ℕ) (s : Slot F K V)
      → slot_state n i ≡ some s
      → entries_after n i ≡ entries_at s ++ entries_after n (i + 1)
  unfolding entries_after entries slot_state
  entries_after_lem (node m sk hc nk nt ss) i s e = rw (drop_slots-nth ss i s e) (rw add-one)

  pub rounds_after_lem :
      (n : Node F K V) (i : ℕ) (s : Slot F K V)
      → slot_state n i ≡ some s
      → rounds_after n i ≡ rounds_at s + rounds_after n (i + 1)
  unfolding rounds_after rounds slot_state
  rounds_after_lem (node m sk hc nk nt ss) i s e = rw (drop_slots-nth ss i s e) (rw add-one)

  pub entries_start : (n : Node F K V) → entries_after n 0 ≡ entries n
  unfolding entries_after entries drop_slots
  entries_start (node m sk hc nk nt ss) = refl

  pub rounds_start : (n : Node F K V) → 1 + rounds_after n 0 ≡ rounds n
  unfolding rounds_after rounds drop_slots
  rounds_start (node m sk hc nk nt ss) = refl

  -- what a stack still has to yield, and the rounds for it
  abbrev pub pending : Stack F K V → List (K × V)
  pending [] = []
  pending ((n, i) ∷ rest) = entries_after n i ++ pending rest

  abbrev pub work : Stack F K V → ℕ
  work [] = 0
  work ((n, i) ∷ rest) = 1 + rounds_after n i + work rest

  abbrev pub StackReady : Stack F K V → Type 0
  StackReady [] = Unit {0}
  StackReady ((n, i) ∷ rest) = IsReady n × StackReady rest

  -- `total_keys` counts the entries.
  mutual
    unfolding entries total_keys

    pub length-entries : (n : Node F K V) → length (entries n) ≡ total_keys n
    length-entries (node m sk hc nk nt ss) = length-entries_from ss

    length-entries_from : (ss : Slots F K V) → length (entries_from ss) ≡ total_keys_from ss
    length-entries_from nil = refl
    length-entries_from (cons s ss) =
        rw (length-append, length-entries_at s, length-entries_from ss)

    length-entries_at : (s : Slot F K V) → length (entries_at s) ≡ total_keys_at s
    length-entries_at (slot_data k v) = refl
    length-entries_at (slot_child c) = length-entries c
    length-entries_at (slot_child_stale k v c) = length-entries c
    length-entries_at slot_empty = refl
    length-entries_at slot_writing = refl
    length-entries_at (slot_tombstone k v) = refl
