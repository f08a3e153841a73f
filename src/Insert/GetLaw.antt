-- ===== src/Insert/GetLaw.antt =====
-- `get_or_insert` against the lookup and `insert`.
use scry_index.Prelude.{
  ℕ, zero, suc, true, false, Option, none, some, ◌≡◌, refl, ap, ◌∙◌, ◌<◌, arith,
}
use scry_index.Key.{F64, Key, ne_of_eqb}
use scry_index.Node.{
  Node, Slot, slot_empty, slot_writing, slot_data, slot_child, slot_child_stale, slot_tombstone,
  slot_state, cas_empty_to_data, cas_tombstone_to_child_stale, cas_data_to_child_stale,
  predict_slot,
}
use scry_index.Lookup.{get, get_lem}
use scry_index.Insert.{Insertion, inserted, updated, build_conflict_node, insert_loop}
use scry_index.Insert.Store.{get-build_single_entry_child}
use scry_index.Insert.Law.{build_conflict_node-Holds}
use scry_index.Node.Laws.{put_slot-same}
use scry_index.Node.Count.{max_depth}
use scry_index.Node.Ready.{IsReady, slot_state-IsReady, child_room, stale_room}
use scry_index.Insert.Total.{Separates, insert_loop_total}
use scry_index.Insert.Get.{Obtained, obtained_below, get_or_insert_loop}

module _ {F K V : Type 0} ⦃f : F64 F⦄ ⦃k : Key F K⦄ where
  -- what `insert` gives, with the value that was stored
  abbrev stored_by : V → Option (Insertion F K V) → Option (Obtained F K V)
  stored_by value none = none
  stored_by value (some i) =
      some (record { tree = i.tree; value = value; result = inserted; depth = i.depth })

  absent_conflict :
      (fuel : ℕ) (n : Node F K V) (key : K) (value : V) (old : K) (v : V)
      → slot_state n (predict_slot n key) ≡ some (slot_data old v)
      → k.eqb old key ≡ false
      → (o : Option (Node F K V)) → build_conflict_node fuel old v key value ≡ o
      → get_or_insert_loop (suc fuel) n key value
        ≡ stored_by value (insert_loop (suc fuel) n key value)
  unfolding get_or_insert_loop insert_loop cas_data_to_child_stale
  absent_conflict fuel n key value old v st differ none b = ground arith
  absent_conflict fuel n key value old v st differ (some c) b =
      let holds =
        build_conflict_node-Holds fuel old v key value c b (ne_of_eqb k old key differ) key in
      let same : k.eqb key key ≡ true = ground (arith, k.eqb_iff key key) in
      ground (arith, holds, same)

  absent_child :
      (fuel : ℕ) (n : Node F K V) (key : K) (value : V) (c : Node F K V)
      → slot_state n (predict_slot n key) ≡ some (slot_child c)
      → get_or_insert_loop fuel c key value ≡ stored_by value (insert_loop fuel c key value)
      → (o : Option (Insertion F K V)) → insert_loop fuel c key value ≡ o
      → get_or_insert_loop (suc fuel) n key value
        ≡ stored_by value (insert_loop (suc fuel) n key value)
  unfolding get_or_insert_loop insert_loop
  absent_child fuel n key value c st ih none b = ground arith
  absent_child fuel n key value c st ih (some i) b = ground arith

  absent_stale :
      (fuel : ℕ) (n : Node F K V) (key : K) (value : V) (old : K) (v : V) (c : Node F K V)
      → slot_state n (predict_slot n key) ≡ some (slot_child_stale old v c)
      → get_or_insert_loop fuel c key value ≡ stored_by value (insert_loop fuel c key value)
      → (o : Option (Insertion F K V)) → insert_loop fuel c key value ≡ o
      → get_or_insert_loop (suc fuel) n key value
        ≡ stored_by value (insert_loop (suc fuel) n key value)
  unfolding get_or_insert_loop insert_loop
  absent_stale fuel n key value old v c st ih none b = ground arith
  absent_stale fuel n key value old v c st ih (some i) b = ground arith

  absent_round :
      (fuel : ℕ) (n : Node F K V) (key : K) (value : V)
      → ((c : Node F K V)
          → get c key ≡ none
          → get_or_insert_loop fuel c key value ≡ stored_by value (insert_loop fuel c key value))
      → get n key ≡ none
      → (s : Option (Slot F K V)) → slot_state n (predict_slot n key) ≡ s
      → get_or_insert_loop (suc fuel) n key value
        ≡ stored_by value (insert_loop (suc fuel) n key value)
  unfolding get_or_insert_loop insert_loop cas_empty_to_data cas_tombstone_to_child_stale get
  absent_round fuel n key value ih h none st = ground arith
  absent_round fuel n key value ih h (some slot_empty) st = ground arith
  absent_round fuel n key value ih h (some slot_writing) st = ground (arith, ih n h)
  absent_round fuel n key value ih h (some (slot_data old v)) st =
      absent_conflict fuel n key value old v st (ground (arith, get_lem n key))
        (build_conflict_node fuel old v key value) refl
  absent_round fuel n key value ih h (some (slot_child c)) st =
      absent_child fuel n key value c st (ih c (ground (arith, get_lem n key)))
        (insert_loop fuel c key value) refl
  absent_round fuel n key value ih h (some (slot_child_stale old v c)) st =
      absent_stale fuel n key value old v c st (ih c (ground (arith, get_lem n key)))
        (insert_loop fuel c key value) refl
  absent_round fuel n key value ih h (some (slot_tombstone old v)) st =
      let same : k.eqb key key ≡ true = ground (arith, k.eqb_iff key key) in
      ground (arith, get-build_single_entry_child F V key value key, same)

  -- Where the key is not found, the call is `insert`, and returns the value that was stored.
  get_or_insert_loop-absent :
      (fuel : ℕ) (n : Node F K V) (key : K) (value : V)
      → get n key ≡ none
      → get_or_insert_loop fuel n key value ≡ stored_by value (insert_loop fuel n key value)
  unfolding get_or_insert_loop insert_loop
  get_or_insert_loop-absent zero n key value h = refl
  get_or_insert_loop-absent (suc fuel) n key value h =
      absent_round fuel n key value (λ c h'. get_or_insert_loop-absent fuel c key value h') h
        (slot_state n (predict_slot n key)) refl

  abbrev Found : ℕ → Node F K V → K → V → V → Type 0
  Found fuel n key value v =
      (o : Obtained F K V) × (get_or_insert_loop fuel n key value ≡ some o)
      × (o.tree ≡ n)
      × (o.value ≡ v)
      × (o.result ≡ updated)

  Found-data :
      (fuel : ℕ) (n : Node F K V) (key : K) (value v w : V) (old : K)
      → slot_state n (predict_slot n key) ≡ some (slot_data old w)
      → get n key ≡ some v
      → Found (suc fuel) n key value v
  unfolding get_or_insert_loop get
  Found-data fuel n key value v w old st h = (
    record { tree = n; value = v; result = updated; depth = 0 },
    ground (arith, get_lem n key),
    refl,
    refl,
    refl,
  )

  Found-child :
      (fuel : ℕ) (n : Node F K V) (key : K) (value v : V) (c : Node F K V)
      → slot_state n (predict_slot n key) ≡ some (slot_child c)
      → Found fuel c key value v
      → Found (suc fuel) n key value v
  unfolding get_or_insert_loop
  Found-child fuel n key value v c st (o, went, tree, val, res) = (
    obtained_below slot_child n (predict_slot n key) o,
    ground arith,
    rw tree (put_slot-same n (predict_slot n key) (slot_child c) st),
    val,
    res,
  )

  Found-stale :
      (fuel : ℕ) (n : Node F K V) (key : K) (value v : V) (old : K) (w : V) (c : Node F K V)
      → slot_state n (predict_slot n key) ≡ some (slot_child_stale old w c)
      → Found fuel c key value v
      → Found (suc fuel) n key value v
  unfolding get_or_insert_loop
  Found-stale fuel n key value v old w c st (o, went, tree, val, res) = (
    obtained_below (slot_child_stale old w) n (predict_slot n key) o,
    ground arith,
    rw tree (put_slot-same n (predict_slot n key) (slot_child_stale old w c) st),
    val,
    res,
  )

  Found-round :
      (fuel : ℕ) (n : Node F K V) (key : K) (value v : V)
      → IsReady n
      → max_depth n < suc fuel
      → ((c : Node F K V)
          → IsReady c
          → max_depth c < fuel
          → get c key ≡ some v
          → Found fuel c key value v)
      → get n key ≡ some v
      → (s : Option (Slot F K V)) → slot_state n (predict_slot n key) ≡ s
      → Found (suc fuel) n key value v
  unfolding get
  Found-round fuel n key value v ready d ih h none st = absurd (ground (arith, get_lem n key))
  Found-round fuel n key value v ready d ih h (some slot_empty) st =
      absurd (ground (arith, get_lem n key))
  Found-round fuel n key value v ready d ih h (some slot_writing) st =
      absurd (ground (arith, get_lem n key))
  Found-round fuel n key value v ready d ih h (some (slot_tombstone old w)) st =
      absurd (ground (arith, get_lem n key))
  Found-round fuel n key value v ready d ih h (some (slot_data old w)) st =
      Found-data fuel n key value v w old st h
  Found-round fuel n key value v ready d ih h (some (slot_child c)) st =
      Found-child fuel n key value v c st (
        ih c (slot_state-IsReady n _ _ ready st) (child_room n _ c d st)
          (ground (arith, get_lem n key)))
  Found-round fuel n key value v ready d ih h (some (slot_child_stale old w c)) st =
      Found-stale fuel n key value v old w c st (
        ih c (slot_state-IsReady n _ _ ready st) (stale_room n _ old w c d st)
          (ground (arith, get_lem n key)))

  get_or_insert_loop-Found :
      (fuel : ℕ) (n : Node F K V) (key : K) (value v : V)
      → IsReady n
      → max_depth n < fuel
      → get n key ≡ some v
      → Found fuel n key value v
  get_or_insert_loop-Found zero n key value v ready d h = absurd (omega arith)
  get_or_insert_loop-Found (suc fuel) n key value v ready d h =
      Found-round fuel n key value v ready d
        (λ c r room h'. get_or_insert_loop-Found fuel c key value v r room h') h
        (slot_state n (predict_slot n key)) refl

  -- What `get_or_insert` is to do: where the key is found it returns that value, leaves the tree
  -- and says `updated`; where not, it does what `insert` does, and returns the new value as
  -- `inserted`.
  abbrev pub GetsOrInserts : ℕ → Node F K V → K → V → Option V → Type 0
  GetsOrInserts fuel n key value (some v) = Found fuel n key value v
  GetsOrInserts fuel n key value none =
      (i : Insertion F K V) × (insert_loop fuel n key value ≡ some i)
      × (get_or_insert_loop fuel n key value
          ≡ some (record { tree = i.tree; value = value; result = inserted; depth = i.depth }))

  cases :
      (fuel : ℕ) (n : Node F K V) (key : K) (value : V)
      → Separates f k
      → IsReady n
      → max_depth n < fuel
      → (o : Option V) → get n key ≡ o
      → GetsOrInserts fuel n key value o
  cases fuel n key value s ready d (some v) h =
      get_or_insert_loop-Found fuel n key value v ready d h
  cases fuel n key value s ready d none h =
      let (i, went) = insert_loop_total s fuel n key value ready d in
      (i, went, get_or_insert_loop-absent fuel n key value h ∙ ap (stored_by value) went)

  -- On a tree with no slot being written, with fuel above its depth, and with the machine's
  -- numbers separating keys as `Separates` says, which for keys of negligibly different inputs
  -- includes that the difference of their ordinals does not overflow an i128, `get_or_insert`
  -- returns: where the key is found, with that value, the tree as it was and `updated`; where it
  -- is not, with the tree of `insert`, the new value and `inserted`.
  pub get_or_insert_loop_lem :
      (fuel : ℕ) (n : Node F K V) (key : K) (value : V)
      → Separates f k
      → IsReady n
      → max_depth n < fuel
      → GetsOrInserts fuel n key value (get n key)
  get_or_insert_loop_lem fuel n key value s ready d =
      cases fuel n key value s ready d (get n key) refl
