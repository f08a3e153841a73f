-- ===== src/Insert/Count.antt =====
-- How many keys `insert_loop` adds to the tree.
use mathlib.Core.Path.{subst}
use scry_index.Prelude.{
  ℕ, zero, suc, true, false, Option, none, some, ◌≡◌, ◌≢◌, refl, arith, Bool-cases, inl, inr,
}
use scry_index.Key.{F64, Key, ne_of_eqb}
use scry_index.Node.{
  Node, Slot, slot_empty, slot_writing, slot_data, slot_child, slot_child_stale, slot_tombstone,
  slot_state, put_slot, ensure_children, cas_empty_to_data, cas_tombstone_to_child_stale,
  cas_data_to_child_stale, predict_slot,
}
use scry_index.Node.Count.{total_keys, total_keys_at}
use scry_index.Node.Totals.{
  total_keys-put_slot, total_keys-inc_keys, total_keys-dec_keys, total_keys-dec_tombstones,
  total_keys-put_slot_ensure,
}
use scry_index.Lookup.{get, get_lem}
use scry_index.Insert.{Insertion, build_single_entry_child, build_conflict_node, insert_loop}
use scry_index.Insert.Pair.{
  Counts, total_keys-build_single_entry_child, total_keys-build_conflict_node,
}

module _ {F K V : Type 0} ⦃f : F64 F⦄ ⦃k : Key F K⦄ where
  -- A descent adds to the node what it adds to the child.
  count_below :
      (n c c' : Node F K V) (key : K) (old s : Slot F K V)
      → slot_state n (predict_slot n key) ≡ some old
      → total_keys_at old ≡ total_keys c
      → total_keys_at s ≡ total_keys c'
      → get n key ≡ get c key
      → Counts key c c'
      → Counts key n (put_slot n (predict_slot n key) s)
  count_below n c c' key old s st was now reads h =
      ground (arith, total_keys-put_slot n (predict_slot n key) old s st)

  module _ (fuel : ℕ) (n : Node F K V) (key : K) (value : V) (i : Insertion F K V)
      (e : insert_loop (suc fuel) n key value ≡ some i) where
    count_empty : slot_state n (predict_slot n key) ≡ some slot_empty → Counts key n i.tree
    unfolding insert_loop cas_empty_to_data get total_keys
    count_empty st =
        let s : Slot F K V = slot_data key value in
        ground (
          arith,
          get_lem n key,
          total_keys-inc_keys (put_slot n (predict_slot n key) s),
          total_keys-put_slot n (predict_slot n key) slot_empty s st,
        )

    count_tombstone :
        (old : K) (v : V)
        → slot_state n (predict_slot n key) ≡ some (slot_tombstone old v)
        → Counts key n i.tree
    unfolding insert_loop cas_tombstone_to_child_stale get total_keys
    count_tombstone old v st =
        let s : Slot F K V = slot_child_stale old v (build_single_entry_child key value) in
        ground (
          arith,
          get_lem n key,
          total_keys-dec_tombstones (put_slot (ensure_children n) (predict_slot n key) s),
          total_keys-put_slot_ensure n (predict_slot n key) s,
          total_keys-put_slot n (predict_slot n key) (slot_tombstone old v) s st,
          total_keys-build_single_entry_child F V key value,
        )

    count_same :
        (old : K) (v : V)
        → slot_state n (predict_slot n key) ≡ some (slot_data old v)
        → k.eqb old key ≡ true
        → Counts key n i.tree
    unfolding insert_loop cas_data_to_child_stale get total_keys
    count_same old v st same =
        let s : Slot F K V = slot_child_stale old v (build_single_entry_child key value) in
        ground (
          arith,
          get_lem n key,
          total_keys-put_slot_ensure n (predict_slot n key) s,
          total_keys-put_slot n (predict_slot n key) (slot_data old v) s st,
          total_keys-build_single_entry_child F V key value,
        )

    count_conflict :
        (old : K) (v : V)
        → slot_state n (predict_slot n key) ≡ some (slot_data old v)
        → k.eqb old key ≡ false
        → ((c : Node F K V) → build_conflict_node fuel old v key value ≡ some c → total_keys c ≡ 2)
        → (o : Option (Node F K V)) → build_conflict_node fuel old v key value ≡ o
        → Counts key n i.tree
    unfolding insert_loop cas_data_to_child_stale get total_keys
    count_conflict old v st differ built none b = absurd (ground arith)
    count_conflict old v st differ built (some c) b =
        let s : Slot F K V = slot_child_stale old v c in
        ground (
          arith,
          get_lem n key,
          total_keys-dec_keys (put_slot (ensure_children n) (predict_slot n key) s),
          total_keys-put_slot_ensure n (predict_slot n key) s,
          total_keys-put_slot n (predict_slot n key) (slot_data old v) s st,
          built c b,
        )

    count_child :
        (c : Node F K V)
        → slot_state n (predict_slot n key) ≡ some (slot_child c)
        → (o : Option (Insertion F K V)) → insert_loop fuel c key value ≡ o
        → ((i' : Insertion F K V) → insert_loop fuel c key value ≡ some i' → Counts key c i'.tree)
        → Counts key n i.tree
    unfolding insert_loop get total_keys
    count_child c st none b ih = absurd (ground arith)
    count_child c st (some i') b ih =
        let s : Slot F K V = slot_child i'.tree in
        let found : put_slot n (predict_slot n key) s ≡ i.tree = ground arith in
        let reads : get n key ≡ get c key = ground (arith, get_lem n key) in
        subst (Counts key n) found
          (count_below n c i'.tree key (slot_child c) s st refl refl reads (ih i' b))

    count_stale :
        (old : K) (v : V) (c : Node F K V)
        → slot_state n (predict_slot n key) ≡ some (slot_child_stale old v c)
        → (o : Option (Insertion F K V)) → insert_loop fuel c key value ≡ o
        → ((i' : Insertion F K V) → insert_loop fuel c key value ≡ some i' → Counts key c i'.tree)
        → Counts key n i.tree
    unfolding insert_loop get total_keys
    count_stale old v c st none b ih = absurd (ground arith)
    count_stale old v c st (some i') b ih =
        let s : Slot F K V = slot_child_stale old v i'.tree in
        let found : put_slot n (predict_slot n key) s ≡ i.tree = ground arith in
        let reads : get n key ≡ get c key = ground (arith, get_lem n key) in
        subst (Counts key n) found
          (count_below n c i'.tree key (slot_child_stale old v c) s st refl refl reads (ih i' b))

    count_writing :
        slot_state n (predict_slot n key) ≡ some slot_writing
        → insert_loop fuel n key value ≡ some i
    unfolding insert_loop
    count_writing st = ground arith

    count_out : slot_state n (predict_slot n key) ≡ none → ⊥
    unfolding insert_loop
    count_out st = ground arith

  count_round :
      (fuel : ℕ)
      → ((m : Node F K V) (key : K) (value : V) (i : Insertion F K V)
          → insert_loop fuel m key value ≡ some i
          → Counts key m i.tree)
      → ((k1 : K) (v1 : V) (k2 : K) (v2 : V) (c : Node F K V)
          → build_conflict_node fuel k1 v1 k2 v2 ≡ some c
          → k1 ≢ k2
          → total_keys c ≡ 2)
      → (n : Node F K V) (key : K) (value : V) (i : Insertion F K V)
      → insert_loop (suc fuel) n key value ≡ some i
      → (s : Option (Slot F K V)) → slot_state n (predict_slot n key) ≡ s
      → Counts key n i.tree
  count_round fuel ih built n key value i e none st = absurd (count_out fuel n key value i e st)
  count_round fuel ih built n key value i e (some slot_empty) st =
      count_empty fuel n key value i e st
  count_round fuel ih built n key value i e (some slot_writing) st =
      ih n key value i (count_writing fuel n key value i e st)
  count_round fuel ih built n key value i e (some (slot_data old v)) st =
      elim (Bool-cases (k.eqb old key)) [
        | inl same ↦ count_same fuel n key value i e old v st same
        | inr differ ↦
            count_conflict fuel n key value i e old v st differ
              (λ c b. built old v key value c b (ne_of_eqb k old key differ))
              (build_conflict_node fuel old v key value) refl
      ]
  count_round fuel ih built n key value i e (some (slot_child c)) st =
      count_child fuel n key value i e c st (insert_loop fuel c key value) refl
        (λ i' b. ih c key value i' b)
  count_round fuel ih built n key value i e (some (slot_child_stale old v c)) st =
      count_stale fuel n key value i e old v c st (insert_loop fuel c key value) refl
        (λ i' b. ih c key value i' b)
  count_round fuel ih built n key value i e (some (slot_tombstone old v)) st =
      count_tombstone fuel n key value i e old v st

  mutual
    unfolding insert_loop

    insert_loop-Counts :
        (fuel : ℕ) (n : Node F K V) (key : K) (value : V) (i : Insertion F K V)
        → insert_loop fuel n key value ≡ some i
        → Counts key n i.tree
    insert_loop-Counts zero n key value i e = cc
    insert_loop-Counts (suc fuel) n key value i e =
        count_round fuel (insert_loop-Counts fuel) (conflict_total fuel) n key value i e
          (slot_state n (predict_slot n key)) refl

    conflict_total :
        (fuel : ℕ) (k1 : K) (v1 : V) (k2 : K) (v2 : V) (c : Node F K V)
        → build_conflict_node fuel k1 v1 k2 v2 ≡ some c
        → k1 ≢ k2
        → total_keys c ≡ 2
    conflict_total zero k1 v1 k2 v2 c e ne = cc
    conflict_total (suc fuel) k1 v1 k2 v2 c e ne =
        total_keys-build_conflict_node fuel (insert_loop-Counts fuel) k1 v1 k2 v2 c e ne

  -- An insertion that returns makes the tree hold one key more where the key was not found before,
  -- and as many keys as before where it was.
  pub total_keys-insert_loop :
      (fuel : ℕ) (n : Node F K V) (key : K) (value : V) (i : Insertion F K V)
      → insert_loop fuel n key value ≡ some i
      → Counts key n i.tree
  total_keys-insert_loop fuel n key value i e = insert_loop-Counts fuel n key value i e
