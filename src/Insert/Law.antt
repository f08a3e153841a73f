-- ===== src/Insert/Law.antt =====
-- What a lookup sees after `insert_loop`, on every path through it.
use scry_index.Prelude.{
  ℕ, zero, suc, true, false, Option, none, some, ◌≡◌, ◌≢◌, refl, arith, Bool-cases, inl, inr,
  Option-cases, if◌then◌else◌,
}
use scry_index.Key.{F64, Key, ne_of_eqb}
use scry_index.Node.{
  Node, Slot, slot_empty, slot_data, slot_child, slot_child_stale, slot_tombstone, slot_state,
  put_slot, ensure_children, slot_writing, cas_empty_to_data, cas_tombstone_to_child_stale,
  cas_data_to_child_stale, predict_slot,
}
use scry_index.Node.Laws.{slot_state-lt}
use scry_index.Lookup.{get, get_lem}
use scry_index.Insert.{Insertion, build_single_entry_child, build_conflict_node, insert_loop}
use scry_index.Insert.Store.{
  get-inc_keys, get-dec_keys, get-dec_tombstones, get-put_slot_ensure, get-build_single_entry_child,
}
use scry_index.Insert.Conflict.{Stores, Holds, get-attach, get-build_conflict_node}

module _ {F K V : Type 0} ⦃f : F64 F⦄ ⦃k : Key F K⦄ where
  -- one round, by the state of the slot
  module _ (fuel : ℕ) (n : Node F K V) (key : K) (value : V) (i : Insertion F K V)
      (e : insert_loop (suc fuel) n key value ≡ some i) where
    round_empty : slot_state n (predict_slot n key) ≡ some slot_empty → Stores key value n i.tree
    unfolding insert_loop cas_empty_to_data get
    round_empty st j = ground (
      arith,
      get_lem n j,
      get-inc_keys (put_slot n (predict_slot n key) (slot_data key value)) j,
      get-attach n key value (slot_data key value) j,
      slot_state-lt n (predict_slot n key) st,
    )

    round_tombstone :
        {old : K} {v : V}
        → slot_state n (predict_slot n key) ≡ some (slot_tombstone old v)
        → Stores key value n i.tree
    unfolding insert_loop cas_tombstone_to_child_stale get
    round_tombstone {old} {v} st j =
        let child : Node F K V = build_single_entry_child key value in
        let s : Slot F K V = slot_child_stale old v child in
        ground (
          arith,
          get_lem n j,
          get-dec_tombstones (put_slot (ensure_children n) (predict_slot n key) s) j,
          get-put_slot_ensure n (predict_slot n key) s j,
          get-attach n key value s j,
          get-build_single_entry_child F V key value j,
          slot_state-lt n (predict_slot n key) st,
        )

    round_same :
        {old : K} {v : V}
        → slot_state n (predict_slot n key) ≡ some (slot_data old v)
        → k.eqb old key ≡ true
        → Stores key value n i.tree
    unfolding insert_loop cas_data_to_child_stale get
    round_same {old} {v} st same j =
        let child : Node F K V = build_single_entry_child key value in
        let s : Slot F K V = slot_child_stale old v child in
        ground (
          arith,
          get_lem n j,
          k.eqb_iff old key,
          k.eqb_iff old j,
          k.eqb_iff key j,
          get-put_slot_ensure n (predict_slot n key) s j,
          get-attach n key value s j,
          get-build_single_entry_child F V key value j,
          slot_state-lt n (predict_slot n key) st,
        )

    round_conflict :
        {old : K} {v : V}
        → slot_state n (predict_slot n key) ≡ some (slot_data old v)
        → k.eqb old key ≡ false
        → ((c : Node F K V)
            → build_conflict_node fuel old v key value ≡ some c
            → Holds old v key value c)
        → Stores key value n i.tree
    unfolding insert_loop cas_data_to_child_stale get
    round_conflict {old} {v} st differ built j = go (build_conflict_node fuel old v key value) refl
      where
        go :
            (o : Option (Node F K V))
            → build_conflict_node fuel old v key value ≡ o
            → get i.tree j ≡ (if k.eqb key j then some value else get n j)
        go none stuck = ground arith
        go (some child) got =
            let s : Slot F K V = slot_child_stale old v child in
            ground (
              arith,
              get_lem n j,
              built child got j,
              get-dec_keys (put_slot (ensure_children n) (predict_slot n key) s) j,
              get-put_slot_ensure n (predict_slot n key) s j,
              get-attach n key value s j,
              slot_state-lt n (predict_slot n key) st,
            )

    round_child :
        (c : Node F K V)
        → slot_state n (predict_slot n key) ≡ some (slot_child c)
        → ((i' : Insertion F K V)
            → insert_loop fuel c key value ≡ some i'
            → Stores key value c i'.tree)
        → Stores key value n i.tree
    unfolding insert_loop get
    round_child c st deeper j = elim (Option-cases (insert_loop fuel c key value)) [
      | inl stuck ↦ ground arith
      | inr (i', went) ↦
          let s : Slot F K V = slot_child i'.tree in
          ground (
            arith,
            get_lem n j,
            deeper i' went j,
            get-attach n key value s j,
            slot_state-lt n (predict_slot n key) st,
          )
    ]

    round_child_stale :
        (old : K) (v : V) (c : Node F K V)
        → slot_state n (predict_slot n key) ≡ some (slot_child_stale old v c)
        → ((i' : Insertion F K V)
            → insert_loop fuel c key value ≡ some i'
            → Stores key value c i'.tree)
        → Stores key value n i.tree
    unfolding insert_loop get
    round_child_stale old v c st deeper j = elim (Option-cases (insert_loop fuel c key value)) [
      | inl stuck ↦ ground arith
      | inr (i', went) ↦
          let s : Slot F K V = slot_child_stale old v i'.tree in
          ground (
            arith,
            get_lem n j,
            deeper i' went j,
            get-attach n key value s j,
            slot_state-lt n (predict_slot n key) st,
          )
    ]

    round_writing :
        slot_state n (predict_slot n key) ≡ some slot_writing
        → insert_loop fuel n key value ≡ some i
    unfolding insert_loop
    round_writing st = ground arith

    round_out : slot_state n (predict_slot n key) ≡ none → ⊥
    unfolding insert_loop
    round_out st = ground arith

  round :
      (fuel : ℕ)
      → ((m : Node F K V) (key : K) (value : V) (i : Insertion F K V)
          → insert_loop fuel m key value ≡ some i
          → Stores key value m i.tree)
      → ((k1 : K) (v1 : V) (k2 : K) (v2 : V) (c : Node F K V)
          → build_conflict_node fuel k1 v1 k2 v2 ≡ some c
          → k1 ≢ k2
          → Holds k1 v1 k2 v2 c)
      → (n : Node F K V) (key : K) (value : V) (i : Insertion F K V)
      → insert_loop (suc fuel) n key value ≡ some i
      → (s : Option (Slot F K V)) → slot_state n (predict_slot n key) ≡ s
      → Stores key value n i.tree
  round fuel ih built n key value i e none st = absurd (round_out fuel n key value i e st)
  round fuel ih built n key value i e (some slot_empty) st = round_empty fuel n key value i e st
  round fuel ih built n key value i e (some slot_writing) st =
      ih n key value i (round_writing fuel n key value i e st)
  round fuel ih built n key value i e (some (slot_data old v)) st =
      elim (Bool-cases (k.eqb old key)) [
        | inl same ↦ round_same fuel n key value i e st same
        | inr differ ↦
            round_conflict fuel n key value i e st differ
              (λ c got. built old v key value c got (ne_of_eqb k old key differ))
      ]
  round fuel ih built n key value i e (some (slot_child c)) st =
      round_child fuel n key value i e c st (λ i' went. ih c key value i' went)
  round fuel ih built n key value i e (some (slot_child_stale old v c)) st =
      round_child_stale fuel n key value i e old v c st (λ i' went. ih c key value i' went)
  round fuel ih built n key value i e (some (slot_tombstone old v)) st =
      round_tombstone fuel n key value i e st

  mutual
    unfolding insert_loop

    insert_loop-Stores :
        (fuel : ℕ) (n : Node F K V) (key : K) (value : V) (i : Insertion F K V)
        → insert_loop fuel n key value ≡ some i
        → Stores key value n i.tree
    insert_loop-Stores zero n key value i e = cc
    insert_loop-Stores (suc fuel) n key value i e =
        round fuel (insert_loop-Stores fuel) (build_conflict_node-Holds fuel) n key value i e
          (slot_state n (predict_slot n key)) refl

    pub build_conflict_node-Holds :
        (fuel : ℕ) (k1 : K) (v1 : V) (k2 : K) (v2 : V) (c : Node F K V)
        → build_conflict_node fuel k1 v1 k2 v2 ≡ some c
        → k1 ≢ k2
        → Holds k1 v1 k2 v2 c
    build_conflict_node-Holds zero k1 v1 k2 v2 c e ne = cc
    build_conflict_node-Holds (suc fuel) k1 v1 k2 v2 c e ne =
        get-build_conflict_node fuel (insert_loop-Stores fuel) k1 v1 k2 v2 c e ne

  -- After an insertion that returns, the key reads the new value and every other key reads as
  -- before, whatever the shape of the tree and the predictions of the models.
  pub get-insert_loop :
      (fuel : ℕ) (n : Node F K V) (key : K) (value : V) (i : Insertion F K V)
      → insert_loop fuel n key value ≡ some i
      → Stores key value n i.tree
  get-insert_loop fuel n key value i e = insert_loop-Stores fuel n key value i e
