-- ===== src/Iter.antt =====
-- src/iter.rs: the iterator, a depth-first walk with an explicit stack.
pub mod Entries
pub mod Walk
use scry_index.Prelude.{
  ℕ, zero, suc, ◌+◌, ◌-◌, Bool, true, false, Option, none, some, List, [], ◌∷◌, leb, ◌==◌,
  if◌then◌else◌,
}
use scry_index.Node.{
  Node, Slot, slot_empty, slot_writing, slot_data, slot_child, slot_child_stale, slot_tombstone,
  capacity, slot_state,
}

-- (node, next slot index), the innermost node first.
abbrev pub Stack : Type 0 → Type 0 → Type 0 → Type 0
Stack F K V = List (Node F K V × ℕ)

pub record Iter (F K V : Type 0) : Type 0 where
  pub stack : Stack F K V
  pub remaining : Option ℕ

-- What a call of `next` gives: the end, or an entry and the iterator after it.
pub data Next (F K V : Type 0) : Type 0 where
  end : Next F K V
  item : K → V → Iter F K V → Next F K V

-- `saturating_sub` on the hint
abbrev pub counted : Option ℕ → Option ℕ
counted none = none
counted (some r) = some (r - 1)

module _ {F K V : Type 0} where
  unfoldable pub new : Node F K V → Iter F K V
  new root = record { stack = (root, 0) ∷ []; remaining = none }

  unfoldable pub with_hint : Node F K V → ℕ → Iter F K V
  with_hint root count = record { stack = (root, 0) ∷ []; remaining = some count }

  -- The loop of `next`, with fuel: a slot in the state `WRITING` makes it spin. The index is tested
  -- against the capacity first, so that a read out of bounds, `none` inside, does not happen.
  unfoldable pub next : ℕ → Iter F K V → Option (Next F K V)
  next zero it = none
  next (suc fuel) it = elim it.stack [
    | [] ↦ some end
    | (n, i) ∷ rest ↦ elim (leb (capacity n) i) [
      | true ↦ next fuel (record it { stack = rest })
      | false ↦ elim (slot_state n i) [
        | none ↦ none
        | some (slot_data k v) ↦
            some (item k v (record { stack = (n, i + 1) ∷ rest; remaining = counted it.remaining }))
        | some (slot_child c) ↦ next fuel (record it { stack = (c, 0) ∷ (n, i + 1) ∷ rest })
        | some (slot_child_stale k v c) ↦
            next fuel (record it { stack = (c, 0) ∷ (n, i + 1) ∷ rest })
        | some slot_writing ↦ next fuel it
        | some slot_empty ↦ next fuel (record it { stack = (n, i + 1) ∷ rest })
        | some (slot_tombstone k v) ↦ next fuel (record it { stack = (n, i + 1) ∷ rest })
      ]
    ]
  ]

  unfoldable pub size_hint : Iter F K V → ℕ × Option ℕ
  size_hint it = elim it.remaining [ none ↦ (0, none) | some r ↦ (r, some r) ]

  -- `collect`: calls of `next` until the end
  unfoldable pub collect : ℕ → Iter F K V → Option (List (K × V))
  collect zero it = none
  collect (suc fuel) it = elim (next (suc fuel) it) [
    | none ↦ none
    | some end ↦ some []
    | some (item k v it') ↦ elim (collect fuel it') [
      | none ↦ none
      | some rest ↦ some ((k, v) ∷ rest)
    ]
  ]

  unfoldable pub sorted_pairs : ℕ → Node F K V → Option (List (K × V))
  unfolding new collect
  sorted_pairs fuel root = collect fuel (new root)

  unfoldable pub first_entry : ℕ → Node F K V → Option (Option (K × V))
  unfolding new next
  first_entry fuel root = elim (next fuel (new root)) [
    | none ↦ none
    | some end ↦ some none
    | some (item k v it) ↦ some (some (k, v))
  ]

  -- The loop of `last_entry`: the index counts down from the capacity.
  unfoldable pub last_entry_loop : ℕ → Stack F K V → Option (Option (K × V))
  last_entry_loop zero stack = none
  last_entry_loop (suc fuel) [] = some none
  last_entry_loop (suc fuel) ((n, zero) ∷ rest) = last_entry_loop fuel rest
  last_entry_loop (suc fuel) ((n, suc i) ∷ rest) = elim (slot_state n i) [
    | none ↦ none
    | some (slot_data k v) ↦ some (some (k, v))
    | some (slot_child c) ↦ last_entry_loop fuel ((c, capacity c) ∷ (n, i) ∷ rest)
    | some (slot_child_stale k v c) ↦ last_entry_loop fuel ((c, capacity c) ∷ (n, i) ∷ rest)
    | some slot_writing ↦ last_entry_loop fuel ((n, suc i) ∷ rest)
    | some slot_empty ↦ last_entry_loop fuel ((n, i) ∷ rest)
    | some (slot_tombstone k v) ↦ last_entry_loop fuel ((n, i) ∷ rest)
  ]

  unfoldable pub last_entry : ℕ → Node F K V → Option (Option (K × V))
  unfolding last_entry_loop capacity
  last_entry fuel root = last_entry_loop fuel ((root, capacity root) ∷ [])
