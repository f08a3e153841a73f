-- ===== src/Insert/Get.antt =====
-- src/insert.rs: `get_or_insert`.
use scry_index.Prelude.{ℕ, zero, suc, ◌+◌, true, false, Option, none, some}
use scry_index.Key.{F64, Key}
use scry_index.Node.{
  Node, Slot, slot_empty, slot_writing, slot_data, slot_child, slot_child_stale, slot_tombstone,
  slot_state, put_slot, cas_empty_to_data, cas_tombstone_to_child_stale, cas_data_to_child_stale,
  inc_keys, dec_keys, dec_tombstones, predict_slot,
}
use scry_index.Lookup
use scry_index.Insert.{
  InsertResult, inserted, updated, build_single_entry_child, build_conflict_node,
}

-- The tree after a call, the value that it returns, its result, and the number of child nodes that
-- the descent went through.
pub record Obtained (F K V : Type 0) : Type 0 where
  pub tree : Node F K V
  pub value : V
  pub result : InsertResult
  pub depth : ℕ

module _ {F K V : Type 0} where
  abbrev pub obtained : InsertResult → V → Node F K V → Option (Obtained F K V)
  obtained result value n = some (record { tree = n; value = value; result = result; depth = 0 })

  abbrev pub obtained_below :
      (Node F K V → Slot F K V) → Node F K V → ℕ → Obtained F K V → Obtained F K V
  obtained_below slot n idx o = record o {
    tree = put_slot n idx (slot o.tree);
    depth = o.depth + 1;
  }

module _ {F K V : Type 0} ⦃f : F64 F⦄ ⦃k : Key F K⦄ where
  -- What is returned after a child was attached: the value that a lookup finds in it.
  abbrev pub looked_up :
      Node F K V → K → Node F K V → Option (Obtained F K V) → Option (Obtained F K V)
  looked_up child key n retry = elim (Lookup.get child key) [
    | none ↦ retry
    | some val ↦ obtained inserted val n
  ]

  -- The loop, with fuel as in `insert_loop`.
  unfoldable pub get_or_insert_loop : ℕ → Node F K V → K → V → Option (Obtained F K V)
  unfolding Lookup.get
  get_or_insert_loop zero n key value = none
  get_or_insert_loop (suc fuel) n key value =
      let idx = predict_slot n key in
      let retry = get_or_insert_loop fuel n key value in
      elim (slot_state n idx) [
        | none ↦ none
        | some slot_writing ↦ retry
        | some slot_empty ↦ elim (cas_empty_to_data n idx key value) [
          | none ↦ retry
          | some n' ↦ obtained inserted value (inc_keys n')
        ]
        | some (slot_tombstone old v) ↦
            let child = build_single_entry_child key value in
            elim (cas_tombstone_to_child_stale n idx child) [
              | none ↦ retry
              | some n' ↦
                  looked_up child key (dec_tombstones n')
                    (get_or_insert_loop fuel (dec_tombstones n') key value)
            ]
        | some (slot_data old v) ↦ elim (k.eqb old key) [
          | true ↦ obtained updated v n
          | false ↦ elim (build_conflict_node fuel old v key value) [
            | none ↦ none
            | some child ↦ elim (cas_data_to_child_stale n idx child) [
              | none ↦ retry
              | some n' ↦
                  looked_up child key (dec_keys n')
                    (get_or_insert_loop fuel (dec_keys n') key value)
            ]
          ]
        ]
        | some (slot_child c) ↦ elim (get_or_insert_loop fuel c key value) [
          | none ↦ none
          | some o ↦ some (obtained_below slot_child n idx o)
        ]
        | some (slot_child_stale old v c) ↦ elim (get_or_insert_loop fuel c key value) [
          | none ↦ none
          | some o ↦ some (obtained_below (slot_child_stale old v) n idx o)
        ]
      ]
