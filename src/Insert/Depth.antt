-- ===== src/Insert/Depth.antt =====
-- How deep `insert_loop` makes the tree.
use mathlib.Core.Path.{subst}
use scry_index.Prelude.{
  ℕ, zero, suc, ◌+◌, ◌≤◌, max, ◌==◌, true, false, Option, none, some, ◌≡◌, ◌≢◌, refl, sym, ◌∙◌,
  arith, Bool-cases, inl, inr,
}
use scry_index.Key.{F64, Key, ne_of_eqb, lt_of_ne}
use scry_index.Model.{new}
use scry_index.Node.{
  Node, Slots, Slot, node, nil, cons, slot_empty, slot_writing, slot_data, slot_child,
  slot_child_stale, slot_tombstone, set_nth, slot_state, put_slot, ensure_children, with_capacity,
  store_data, inc_keys, dec_keys, dec_tombstones, cas_empty_to_data, cas_tombstone_to_child_stale,
  cas_data_to_child_stale, predict_slot,
}
use scry_index.Node.Count.{max_depth, max_depth_at, max_depth_from}
use scry_index.Node.Ready.{depth-slot_state, depth_pos}
use scry_index.Insert.{
  Insertion, conflict_shell, build_single_entry_child, build_conflict_node, insert_loop,
}
use scry_index.Insert.Apart.{build_conflict_node-apart, build_conflict_node-swap}

module _ {F K V : Type 0} where
  depth-set_nth :
      (ss : Slots F K V) (i : ℕ) (s : Slot F K V)
      → max_depth_from (set_nth ss i s) ≤ max (max_depth_from ss) (max_depth_at s)
  unfolding max_depth
  depth-set_nth nil i s = omega arith
  depth-set_nth (cons x ss) zero s = omega arith
  depth-set_nth (cons x ss) (suc i) s = omega (arith, depth-set_nth ss i s)

  depth-put_slot :
      (n : Node F K V) (i : ℕ) (s : Slot F K V)
      → max_depth (put_slot n i s) ≤ max (max_depth n) (1 + max_depth_at s)
  unfolding max_depth put_slot
  depth-put_slot (node m sk hc nk nt ss) i s = omega (arith, depth-set_nth ss i s)

  -- the counters and the allocation of the children do not show
  depth-inc_keys : (n : Node F K V) → max_depth (inc_keys n) ≡ max_depth n
  unfolding max_depth inc_keys
  depth-inc_keys (node m sk hc nk nt ss) = refl

  depth-dec_keys : (n : Node F K V) → max_depth (dec_keys n) ≡ max_depth n
  unfolding max_depth dec_keys
  depth-dec_keys (node m sk hc nk nt ss) = refl

  depth-dec_tombstones : (n : Node F K V) → max_depth (dec_tombstones n) ≡ max_depth n
  unfolding max_depth dec_tombstones
  depth-dec_tombstones (node m sk hc nk nt ss) = refl

  depth-ensure_children : (n : Node F K V) → max_depth (ensure_children n) ≡ max_depth n
  unfolding max_depth ensure_children
  depth-ensure_children (node m sk hc nk nt ss) = refl

  depth-store_data :
      (n : Node F K V) (i : ℕ) (key : K) (v : V)
      → max_depth (inc_keys (store_data n i key v)) ≤ max_depth n
  unfolding store_data max_depth
  depth-store_data n i key v = omega (
    arith,
    depth-inc_keys (put_slot n i (slot_data key v)),
    depth-put_slot n i (slot_data key v),
    depth_pos n,
  )

module _ (F V : Type 0) {K : Type 0} ⦃f : F64 F⦄ ⦃k : Key F K⦄ where
  depth-conflict_shell : (lo hi : K) → max_depth (conflict_shell {F = F} {V = V} lo hi) ≡ 1
  unfolding conflict_shell max_depth
  depth-conflict_shell lo hi = ground arith

  depth-build_single_entry_child :
      (key : K) (v : V) → max_depth (build_single_entry_child {F = F} key v) ≤ 1
  unfolding build_single_entry_child max_depth with_capacity
  depth-build_single_entry_child key v =
      depth-store_data (with_capacity (new f.one (f.neg (k.to_model_input key))) 2) _ key v

module _ {F K V : Type 0} ⦃f : F64 F⦄ ⦃k : Key F K⦄ where
  depth-placed :
      (fuel : ℕ) (lo : K) (lo_v : V) (hi : K) (hi_v : V) (c : Node F K V)
      → (let shell = conflict_shell lo hi in
          let one = inc_keys (store_data shell (predict_slot shell lo) lo lo_v) in
          elim (predict_slot shell lo == predict_slot shell hi) [
            | true ↦ elim (insert_loop fuel one hi hi_v) [ none ↦ none | some i ↦ some i.tree ]
            | false ↦ some (inc_keys (store_data one (predict_slot shell hi) hi hi_v))
          ])
        ≡ some c
      → predict_slot (conflict_shell {F = F} {V = V} lo hi) lo
        ≢ predict_slot (conflict_shell {F = F} {V = V} lo hi) hi
      → max_depth c ≤ 1
  depth-placed fuel lo lo_v hi hi_v c e apart =
      let shell : Node F K V = conflict_shell lo hi in
      let one : Node F K V = inc_keys (store_data shell (predict_slot shell lo) lo lo_v) in
      let two : Node F K V = inc_keys (store_data one (predict_slot shell hi) hi hi_v) in
      let found : two ≡ c = ground arith in
      let small : max_depth two ≤ 1 = omega (
        arith,
        depth-store_data one (predict_slot shell hi) hi hi_v,
        depth-store_data shell (predict_slot shell lo) lo lo_v,
        depth-conflict_shell F V lo hi,
      ) in
      subst (λ (t : Node F K V). max_depth t ≤ 1) found small

module _ {F K V : Type 0} ⦃f : F64 F⦄ ⦃k : Key F K⦄ where
  depth-build_conflict_node :
      (fuel : ℕ) (k1 : K) (v1 : V) (k2 : K) (v2 : V) (c : Node F K V)
      → build_conflict_node fuel k1 v1 k2 v2 ≡ some c
      → k1 ≢ k2
      → max_depth c ≤ 1
  unfolding build_conflict_node
  depth-build_conflict_node zero k1 v1 k2 v2 c e ne = cc
  depth-build_conflict_node (suc fuel) k1 v1 k2 v2 c e ne = elim (Bool-cases (k.lt k1 k2)) [
    | inl t ↦
        depth-placed fuel k1 v1 k2 v2 c (ground arith)
          (build_conflict_node-apart (suc fuel) k1 k2 v1 v2 c t e)
    | inr t ↦
        let l = lt_of_ne k k1 k2 ne t in
        depth-placed fuel k2 v2 k1 v1 c (ground arith) (
          build_conflict_node-apart (suc fuel) k2 k1 v2 v1 c l
            (sym (build_conflict_node-swap (suc fuel) k1 k2 v1 v2 l) ∙ e))
  ]

  module _ (fuel : ℕ) (n : Node F K V) (key : K) (value : V) (i : Insertion F K V)
      (e : insert_loop (suc fuel) n key value ≡ some i) where
    abbrev Grown : Type 0
    Grown = max_depth i.tree ≤ max_depth n + 1

    -- A slot with little below it.
    depth-attached :
        (n' : Node F K V) (s : Slot F K V)
        → max_depth n' ≡ max_depth n
        → max_depth_at s ≤ max_depth n
        → max_depth (put_slot n' (predict_slot n key) s) ≤ max_depth n + 1
    depth-attached n' s same small = omega (arith, depth-put_slot n' (predict_slot n key) s)

    grown : (n' : Node F K V) → n' ≡ i.tree → max_depth n' ≤ max_depth n + 1 → Grown
    grown n' found small = subst (λ (t : Node F K V). max_depth t ≤ max_depth n + 1) found small

    single :
        (old : K) (v : V)
        → max_depth_at {F = F} (slot_child_stale old v (build_single_entry_child key value))
          ≤ max_depth n
    unfolding max_depth
    single old v = omega (arith, depth-build_single_entry_child F V key value, depth_pos n)

    depth-conflict :
        (old : K) (v : V)
        → slot_state n (predict_slot n key) ≡ some (slot_data old v)
        → k.eqb old key ≡ false
        → (o : Option (Node F K V)) → build_conflict_node fuel old v key value ≡ o
        → Grown
    unfolding insert_loop cas_data_to_child_stale
    depth-conflict old v st differ none b = absurd (ground arith)
    depth-conflict old v st differ (some c) b =
        let s : Slot F K V = slot_child_stale old v c in
        let n' : Node F K V = put_slot (ensure_children n) (predict_slot n key) s in
        let small : max_depth c ≤ 1 =
          depth-build_conflict_node fuel old v key value c b (ne_of_eqb k old key differ) in
        let room : max_depth_at s ≤ max_depth n =
          unfold max_depth in omega (arith, small, depth_pos n) in
        grown (dec_keys n') (ground arith)
          (rw depth-dec_keys (depth-attached (ensure_children n) s (depth-ensure_children n) room))

    depth-below :
        (c : Node F K V) (slot : Node F K V → Slot F K V)
        → slot_state n (predict_slot n key) ≡ some (slot c)
        → ((m : Node F K V) → max_depth_at (slot m) ≡ max_depth m)
        → (i' : Insertion F K V) → put_slot n (predict_slot n key) (slot i'.tree) ≡ i.tree
        → max_depth i'.tree ≤ max_depth c + 1
        → Grown
    depth-below c slot st at i' found small =
        grown (put_slot n (predict_slot n key) (slot i'.tree)) found (
          depth-attached n (slot i'.tree) refl (
            omega (
              arith,
              small,
              at c,
              at i'.tree,
              depth-slot_state n (predict_slot n key) (slot c) st,
            )))

    depth-child :
        (c : Node F K V)
        → slot_state n (predict_slot n key) ≡ some (slot_child c)
        → ((i' : Insertion F K V)
            → insert_loop fuel c key value ≡ some i'
            → max_depth i'.tree ≤ max_depth c + 1)
        → (o : Option (Insertion F K V)) → insert_loop fuel c key value ≡ o
        → Grown
    unfolding insert_loop max_depth
    depth-child c st ih none b = absurd (ground arith)
    depth-child c st ih (some i') b =
        depth-below c slot_child st (λ m. refl) i' (ground arith) (ih i' b)

    depth-stale :
        (old : K) (v : V) (c : Node F K V)
        → slot_state n (predict_slot n key) ≡ some (slot_child_stale old v c)
        → ((i' : Insertion F K V)
            → insert_loop fuel c key value ≡ some i'
            → max_depth i'.tree ≤ max_depth c + 1)
        → (o : Option (Insertion F K V)) → insert_loop fuel c key value ≡ o
        → Grown
    unfolding insert_loop max_depth
    depth-stale old v c st ih none b = absurd (ground arith)
    depth-stale old v c st ih (some i') b =
        depth-below c (slot_child_stale old v) st (λ m. refl) i' (ground arith) (ih i' b)

    depth-round :
        ((c : Node F K V) (i' : Insertion F K V)
          → insert_loop fuel c key value ≡ some i'
          → max_depth i'.tree ≤ max_depth c + 1)
        → (o : Option (Slot F K V)) → slot_state n (predict_slot n key) ≡ o
        → Grown
    unfolding insert_loop cas_empty_to_data cas_tombstone_to_child_stale cas_data_to_child_stale
    depth-round ih none st = absurd (ground arith)
    depth-round ih (some slot_writing) st = ih n i (ground arith)
    depth-round ih (some slot_empty) st =
        let s : Slot F K V = slot_data key value in
        let n' : Node F K V = put_slot n (predict_slot n key) s in
        let room : max_depth_at s ≤ max_depth n = unfold max_depth in omega arith in
        grown (inc_keys n') (ground arith) (rw depth-inc_keys (depth-attached n s refl room))
    depth-round ih (some (slot_tombstone old v)) st =
        let s : Slot F K V = slot_child_stale old v (build_single_entry_child key value) in
        let n' : Node F K V = put_slot (ensure_children n) (predict_slot n key) s in
        grown (dec_tombstones n') (ground arith) (
          rw depth-dec_tombstones
            (depth-attached (ensure_children n) s (depth-ensure_children n) (single old v)))
    depth-round ih (some (slot_data old v)) st =
        let s : Slot F K V = slot_child_stale old v (build_single_entry_child key value) in
        let n' : Node F K V = put_slot (ensure_children n) (predict_slot n key) s in
        elim (Bool-cases (k.eqb old key)) [
          | inl same ↦
              grown n' (ground arith)
                (depth-attached (ensure_children n) s (depth-ensure_children n) (single old v))
          | inr differ ↦
              depth-conflict old v st differ (build_conflict_node fuel old v key value) refl
        ]
    depth-round ih (some (slot_child c)) st =
        depth-child c st (ih c) (insert_loop fuel c key value) refl
    depth-round ih (some (slot_child_stale old v c)) st =
        depth-stale old v c st (ih c) (insert_loop fuel c key value) refl

  -- An insertion that returns makes the tree deeper by one level at most.
  pub depth-insert_loop :
      (fuel : ℕ) (n : Node F K V) (key : K) (value : V) (i : Insertion F K V)
      → insert_loop fuel n key value ≡ some i
      → max_depth i.tree ≤ max_depth n + 1
  unfolding insert_loop
  depth-insert_loop zero n key value i e = cc
  depth-insert_loop (suc fuel) n key value i e =
      depth-round fuel n key value i e (λ c i' b. depth-insert_loop fuel c key value i' b)
        (slot_state n (predict_slot n key)) refl
