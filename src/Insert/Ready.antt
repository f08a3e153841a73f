-- ===== src/Insert/Ready.antt =====
-- The shape of the tree after `insert_loop` of src/insert.rs.
use scry_index.Prelude.{
  ℕ, zero, suc, true, false, Option, none, some, ◌≡◌, refl, arith, ◌==◌, Bool-cases, inl, inr,
  Option-cases,
}
use scry_index.Key.{F64, Key}
use scry_index.Node.{
  Node, Slot, node, slot_empty, slot_writing, slot_data, slot_child, slot_child_stale,
  slot_tombstone, slot_state, put_slot, store_data, ensure_children, inc_keys, dec_keys,
  dec_tombstones, cas_empty_to_data, cas_tombstone_to_child_stale, cas_data_to_child_stale,
  predict_slot,
}
use scry_index.Node.Ready.{IsReady, IsReadySlot, slot_state-IsReady, put_slot-IsReady}
use scry_index.Insert.{
  Insertion, conflict_shell, build_single_entry_child, build_conflict_node, insert_loop,
}
use scry_index.Node.{with_capacity}
use scry_index.Model.{new}
use mathlib.Core.Path.{subst}

module _ {F K V : Type 0} where
  inc_keys-IsReady : (n : Node F K V) → IsReady n → IsReady (inc_keys n)
  unfolding inc_keys
  inc_keys-IsReady (node m sk hc nk nt ss) h = h

  dec_keys-IsReady : (n : Node F K V) → IsReady n → IsReady (dec_keys n)
  unfolding dec_keys
  dec_keys-IsReady (node m sk hc nk nt ss) h = h

  dec_tombstones-IsReady : (n : Node F K V) → IsReady n → IsReady (dec_tombstones n)
  unfolding dec_tombstones
  dec_tombstones-IsReady (node m sk hc nk nt ss) h = h

  ensure_children-IsReady : (n : Node F K V) → IsReady n → IsReady (ensure_children n)
  unfolding ensure_children
  ensure_children-IsReady (node m sk hc nk nt ss) h = h

  pub store_data-IsReady :
      (n : Node F K V) (i : ℕ) (key : K) (v : V) → IsReady n → IsReady (store_data n i key v)
  unfolding store_data
  store_data-IsReady n i key v h = put_slot-IsReady n i (slot_data key v) h tt

module _ (F V : Type 0) {K : Type 0} ⦃f : F64 F⦄ ⦃k : Key F K⦄ where
  conflict_shell-IsReady : (lo hi : K) → IsReady (conflict_shell {F = F} {V = V} lo hi)
  unfolding conflict_shell
  conflict_shell-IsReady lo hi = ground arith

  build_single_entry_child-IsReady :
      (key : K) (v : V) → IsReady (build_single_entry_child {F = F} key v)
  unfolding build_single_entry_child
  build_single_entry_child-IsReady key v =
      let shell : Node F K V = with_capacity (new f.one (f.neg (k.to_model_input key))) 2 in
      let ready : IsReady shell = unfold with_capacity in (omega arith, (tt, (tt, tt))) in
      let slot = predict_slot shell key in
      inc_keys-IsReady (store_data shell slot key v) (store_data-IsReady shell slot key v ready)

module _ {F K V : Type 0} ⦃f : F64 F⦄ ⦃k : Key F K⦄ where
  -- the states that a round ends at with no further call, for the key
  abbrev IsFlat : K → Slot F K V → Type 0
  IsFlat key slot_empty = Unit {0}
  IsFlat key (slot_tombstone old v) = Unit {0}
  IsFlat key (slot_data old v) = k.eqb old key ≡ true
  IsFlat key _ = ⊥

  module _ (fuel : ℕ)
      (ih : (n : Node F K V) (key : K) (value : V) (i : Insertion F K V)
        → IsReady n
        → insert_loop fuel n key value ≡ some i
        → IsReady i.tree) where
    placed-IsReady :
        (lo : K) (lo_v : V) (hi : K) (hi_v : V) (c : Node F K V)
        → (let shell = conflict_shell lo hi in
            let one = inc_keys (store_data shell (predict_slot shell lo) lo lo_v) in
            elim (predict_slot shell lo == predict_slot shell hi) [
              | true ↦ elim (insert_loop fuel one hi hi_v) [ none ↦ none | some i ↦ some i.tree ]
              | false ↦ some (inc_keys (store_data one (predict_slot shell hi) hi hi_v))
            ])
          ≡ some c
        → IsReady c
    placed-IsReady lo lo_v hi hi_v c e =
        let shell : Node F K V = conflict_shell lo hi in
        let stored : Node F K V = store_data shell (predict_slot shell lo) lo lo_v in
        let one : Node F K V = inc_keys stored in
        let ready : IsReady one =
          inc_keys-IsReady stored
            (store_data-IsReady shell _ lo lo_v (conflict_shell-IsReady F V lo hi)) in
        let two : Node F K V = store_data one (predict_slot shell hi) hi hi_v in
        elim (Bool-cases (predict_slot shell lo == predict_slot shell hi)) [
          | inl same ↦ elim (Option-cases (insert_loop fuel one hi hi_v)) [
            | inl stuck ↦ absurd (ground arith)
            | inr (i, went) ↦
                let found : i.tree ≡ c = ground arith in
                subst IsReady found (ih one hi hi_v i ready went)
          ]
          | inr apart ↦
              let found : inc_keys two ≡ c = ground arith in
              subst IsReady found (inc_keys-IsReady two (store_data-IsReady one _ hi hi_v ready))
        ]

    build_conflict_node-IsReady :
        (k1 : K) (v1 : V) (k2 : K) (v2 : V) (c : Node F K V)
        → build_conflict_node (suc fuel) k1 v1 k2 v2 ≡ some c
        → IsReady c
    unfolding build_conflict_node
    build_conflict_node-IsReady k1 v1 k2 v2 c e = elim (Bool-cases (k.lt k1 k2)) [
      | inl t ↦ placed-IsReady k1 v1 k2 v2 c (ground arith)
      | inr t ↦ placed-IsReady k2 v2 k1 v1 c (ground arith)
    ]

  module _ (fuel : ℕ) (n : Node F K V) (key : K) (value : V) (i : Insertion F K V)
      (ready : IsReady n) (e : insert_loop (suc fuel) n key value ≡ some i) where
    attached :
        (s : Slot F K V)
        → IsReadySlot s
        → IsReady (put_slot (ensure_children n) (predict_slot n key) s)
    attached s h =
        put_slot-IsReady (ensure_children n) (predict_slot n key) s
          (ensure_children-IsReady n ready) h

    round_conflict-IsReady :
        (old : K) (v : V)
        → slot_state n (predict_slot n key) ≡ some (slot_data old v)
        → k.eqb old key ≡ false
        → ((c : Node F K V) → build_conflict_node fuel old v key value ≡ some c → IsReady c)
        → (o : Option (Node F K V)) → build_conflict_node fuel old v key value ≡ o
        → IsReady i.tree
    unfolding insert_loop cas_data_to_child_stale
    round_conflict-IsReady old v st differ built none b = absurd (ground arith)
    round_conflict-IsReady old v st differ built (some c) b =
        let s : Slot F K V = slot_child_stale old v c in
        let n' : Node F K V = put_slot (ensure_children n) (predict_slot n key) s in
        let found : dec_keys n' ≡ i.tree = ground arith in
        subst IsReady found (dec_keys-IsReady n' (attached s (built c b)))

    round_child-IsReady :
        (c : Node F K V)
        → slot_state n (predict_slot n key) ≡ some (slot_child c)
        → (o : Option (Insertion F K V)) → insert_loop fuel c key value ≡ o
        → ((i : Insertion F K V) → insert_loop fuel c key value ≡ some i → IsReady i.tree)
        → IsReady i.tree
    unfolding insert_loop
    round_child-IsReady c st none b ih = absurd (ground arith)
    round_child-IsReady c st (some i') b ih =
        let s : Slot F K V = slot_child i'.tree in
        let found : put_slot n (predict_slot n key) s ≡ i.tree = ground arith in
        subst IsReady found (put_slot-IsReady n _ s ready (ih i' b))

    round_stale-IsReady :
        (old : K) (v : V) (c : Node F K V)
        → slot_state n (predict_slot n key) ≡ some (slot_child_stale old v c)
        → (o : Option (Insertion F K V)) → insert_loop fuel c key value ≡ o
        → ((i : Insertion F K V) → insert_loop fuel c key value ≡ some i → IsReady i.tree)
        → IsReady i.tree
    unfolding insert_loop
    round_stale-IsReady old v c st none b ih = absurd (ground arith)
    round_stale-IsReady old v c st (some i') b ih =
        let s : Slot F K V = slot_child_stale old v i'.tree in
        let found : put_slot n (predict_slot n key) s ≡ i.tree = ground arith in
        subst IsReady found (put_slot-IsReady n _ s ready (ih i' b))

    round_flat-IsReady :
        (s : Slot F K V)
        → slot_state n (predict_slot n key) ≡ some s
        → IsFlat key s
        → IsReady i.tree
    unfolding insert_loop cas_empty_to_data cas_tombstone_to_child_stale cas_data_to_child_stale
    round_flat-IsReady slot_empty st flat =
        let s : Slot F K V = slot_data key value in
        let n' : Node F K V = put_slot n (predict_slot n key) s in
        let found : inc_keys n' ≡ i.tree = ground arith in
        subst IsReady found (inc_keys-IsReady n' (put_slot-IsReady n _ s ready tt))
    round_flat-IsReady (slot_tombstone old v) st flat =
        let s : Slot F K V = slot_child_stale old v (build_single_entry_child key value) in
        let n' : Node F K V = put_slot (ensure_children n) (predict_slot n key) s in
        let found : dec_tombstones n' ≡ i.tree = ground arith in
        subst IsReady found
          (dec_tombstones-IsReady n' (attached s (build_single_entry_child-IsReady F V key value)))
    round_flat-IsReady (slot_data old v) st flat =
        let s : Slot F K V = slot_child_stale old v (build_single_entry_child key value) in
        let found : put_slot (ensure_children n) (predict_slot n key) s ≡ i.tree = ground arith in
        subst IsReady found (attached s (build_single_entry_child-IsReady F V key value))
    round_flat-IsReady slot_writing st flat = elim flat [ ]
    round_flat-IsReady (slot_child c) st flat = elim flat [ ]
    round_flat-IsReady (slot_child_stale old v c) st flat = elim flat [ ]

  round-IsReady :
      (fuel : ℕ)
      → ((m : Node F K V) (key : K) (value : V) (i : Insertion F K V)
          → IsReady m
          → insert_loop fuel m key value ≡ some i
          → IsReady i.tree)
      → ((k1 : K) (v1 : V) (k2 : K) (v2 : V) (c : Node F K V)
          → build_conflict_node fuel k1 v1 k2 v2 ≡ some c
          → IsReady c)
      → (n : Node F K V) (key : K) (value : V) (i : Insertion F K V) → IsReady n
      → insert_loop (suc fuel) n key value ≡ some i
      → (s : Option (Slot F K V)) → slot_state n (predict_slot n key) ≡ s
      → IsReady i.tree
  unfolding insert_loop
  round-IsReady fuel ih built n key value i ready e none st = absurd (ground arith)
  round-IsReady fuel ih built n key value i ready e (some slot_empty) st =
      round_flat-IsReady fuel n key value i ready e slot_empty st tt
  round-IsReady fuel ih built n key value i ready e (some slot_writing) st =
      absurd (slot_state-IsReady n _ slot_writing ready st)
  round-IsReady fuel ih built n key value i ready e (some (slot_data old v)) st =
      elim (Bool-cases (k.eqb old key)) [
        | inl same ↦ round_flat-IsReady fuel n key value i ready e (slot_data old v) st same
        | inr differ ↦
            round_conflict-IsReady fuel n key value i ready e old v st differ
              (built old v key value) (build_conflict_node fuel old v key value) refl
      ]
  round-IsReady fuel ih built n key value i ready e (some (slot_child c)) st =
      round_child-IsReady fuel n key value i ready e c st (insert_loop fuel c key value) refl
        (λ i' b. ih c key value i' (slot_state-IsReady n _ _ ready st) b)
  round-IsReady fuel ih built n key value i ready e (some (slot_child_stale old v c)) st =
      round_stale-IsReady fuel n key value i ready e old v c st (insert_loop fuel c key value) refl
        (λ i' b. ih c key value i' (slot_state-IsReady n _ _ ready st) b)
  round-IsReady fuel ih built n key value i ready e (some (slot_tombstone old v)) st =
      round_flat-IsReady fuel n key value i ready e (slot_tombstone old v) st tt

  mutual
    unfolding insert_loop

    insert_loop-IsReady' :
        (fuel : ℕ) (n : Node F K V) (key : K) (value : V) (i : Insertion F K V)
        → IsReady n
        → insert_loop fuel n key value ≡ some i
        → IsReady i.tree
    insert_loop-IsReady' zero n key value i ready e = cc
    insert_loop-IsReady' (suc fuel) n key value i ready e =
        round-IsReady fuel (insert_loop-IsReady' fuel) (conflict-IsReady fuel) n key value i ready e
          (slot_state n (predict_slot n key)) refl

    conflict-IsReady :
        (fuel : ℕ) (k1 : K) (v1 : V) (k2 : K) (v2 : V) (c : Node F K V)
        → build_conflict_node fuel k1 v1 k2 v2 ≡ some c
        → IsReady c
    conflict-IsReady zero k1 v1 k2 v2 c e = cc
    conflict-IsReady (suc fuel) k1 v1 k2 v2 c e =
        build_conflict_node-IsReady fuel (insert_loop-IsReady' fuel) k1 v1 k2 v2 c e

  -- An insertion into a tree where every node has a slot and no slot is in the state `WRITING`, where it
  -- returns, gives such a tree.
  pub insert_loop-IsReady :
      (fuel : ℕ) (n : Node F K V) (key : K) (value : V) (i : Insertion F K V)
      → IsReady n
      → insert_loop fuel n key value ≡ some i
      → IsReady i.tree
  insert_loop-IsReady fuel n key value i ready e = insert_loop-IsReady' fuel n key value i ready e
