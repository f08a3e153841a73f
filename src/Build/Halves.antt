-- ===== src/Build/Halves.antt =====
-- The two halves of `build_degenerate` at their slots.
use scry_index.Prelude.{
  ℕ, suc, ◌<◌, true, false, ◌==◌, Option, none, some, List, [], ◌∷◌, ◌≡◌, refl, arith, get_elem?,
  take, drop, if◌then◌else◌, Option-cases, inl, inr,
}
use scry_index.Prelude.Int.{◌-ℤ◌, IsI128, midpoint_i128, midpoint_i128_lem}
use scry_index.Key.{F64, Key}
use scry_index.Model.{predict, binary_split, constant}
use scry_index.Node.{
  Node, node, slot_data, slot_child, put_slot, ensure_children, store_data, store_child, inc_keys,
  capacity, predict_slot,
}
use scry_index.Node.Laws.{predict_slot-put_slot, capacity-put_slot, predict_slot-lt}
use scry_index.Lookup.{get, get-put_slot}
use scry_index.Insert.Store.{
  get-inc_keys, get-put_slot_ensure, predict_slot-inc_keys, capacity-inc_keys, get-empties,
}
use scry_index.Build.{is_sorted, degenerate_split, place_half}
use scry_index.Build.Sorted.{
  GapsFit, find_first_split, is_sorted-drop, first_of_upper, last_of_lower, neighbours, drop_at,
}
use scry_index.Map.Dedup.{find_first}

module _ {F K V : Type 0} ⦃f : F64 F⦄ ⦃k : Key F K⦄ where
  -- A node that keeps its predictions and shows `half` at one slot.
  abbrev pub Places : ℕ → List (K × V) → Node F K V → Node F K V → Type 0
  Places idx half n n' =
      ((j : K) → get n' j ≡ (if idx == predict_slot n j then find_first k half j else get n j))
      × ((j : K) → predict_slot n' j ≡ predict_slot n j)
      × (capacity n' ≡ capacity n)

  predict_slot-ensure_children :
      (n : Node F K V) (j : K) → predict_slot (ensure_children n) j ≡ predict_slot n j
  unfolding predict_slot ensure_children
  predict_slot-ensure_children (node m sk hc nk nt ss) j = refl

  capacity-ensure_children : (n : Node F K V) → capacity (ensure_children n) ≡ capacity n
  unfolding capacity ensure_children
  capacity-ensure_children (node m sk hc nk nt ss) = refl

  pub store_data-Places :
      (idx : ℕ) (key : K) (v : V) (n : Node F K V)
      → idx < capacity n
      → Places idx ((key, v) ∷ []) n (inc_keys (store_data n idx key v))
  unfolding store_data get
  store_data-Places idx key v n h = (
    λ j. ground (
      arith,
      get-inc_keys (put_slot n idx (slot_data key v)) j,
      get-put_slot n idx (slot_data key v) j h,
    ),
    λ j. rw predict_slot-inc_keys (predict_slot-put_slot n idx (slot_data key v) j),
    rw capacity-inc_keys (capacity-put_slot n idx (slot_data key v)),
  )

  store_child-Places :
      (idx : ℕ) (half : List (K × V)) (n c : Node F K V)
      → idx < capacity n
      → ((j : K) → get c j ≡ find_first k half j)
      → Places idx half n (store_child n idx c)
  unfolding store_child get
  store_child-Places idx half n c h built = (
    λ j. ground (
      arith,
      get-put_slot_ensure n idx (slot_child c) j,
      get-put_slot n idx (slot_child c) j h,
      built j,
    ),
    λ j. rw predict_slot-put_slot (predict_slot-ensure_children n j),
    rw capacity-put_slot (capacity-ensure_children n),
  )

  abbrev pub Shows : List (K × V) → Option (Node F K V) → Type 0
  Shows half o = (n : Node F K V) × (o ≡ some n) × ((j : K) → get n j ≡ find_first k half j)

  pub place_half_lem :
      (build : List (K × V) → Option (Node F K V)) (idx : ℕ) (half : List (K × V)) (n : Node F K V)
      → idx < capacity n
      → Shows half (build half)
      → (n' : Node F K V) × (place_half build idx half n ≡ some n') × Places idx half n n'
  unfolding place_half
  place_half_lem build idx [] n h (c, e, built) =
      (store_child n idx c, ground arith, store_child-Places idx [] n c h built)
  place_half_lem build idx ((key, v) ∷ []) n h s =
      (inc_keys (store_data n idx key v), refl, store_data-Places idx key v n h)
  place_half_lem build idx (p ∷ q ∷ half) n h (c, e, built) =
      (store_child n idx c, ground arith, store_child-Places idx (p ∷ q ∷ half) n c h built)

module _ (F V : Type 0) {K : Type 0} ⦃f : F64 F⦄ ⦃k : Key F K⦄ where
  -- The split sends the keys up to `lo` to slot 0 and the keys from `hi` on to slot 1.
  split_low :
      (lo hi j : K)
      → IsI128 (k.to_exact_ordinal hi -ℤ k.to_exact_ordinal lo)
      → k.lt lo hi ≡ true
      → k.lt lo j ≡ false
      → predict_slot (degenerate_split {F = F} {V = V} lo hi) j ≡ 0
  unfolding predict_slot predict degenerate_split
  split_low lo hi j fit l h = ground (
    arith,
    midpoint_i128_lem (k.to_exact_ordinal lo) (k.to_exact_ordinal hi) (k.ordinal_bounded lo)
        (k.ordinal_bounded hi) fit (k.ordinal_mono lo hi l),
    k.ordinal_mono j lo,
    k.lt_total j lo,
  )

  split_high :
      (lo hi j : K)
      → IsI128 (k.to_exact_ordinal hi -ℤ k.to_exact_ordinal lo)
      → k.lt lo hi ≡ true
      → k.lt j hi ≡ false
      → predict_slot (degenerate_split {F = F} {V = V} lo hi) j ≡ 1
  unfolding predict_slot predict degenerate_split
  split_high lo hi j fit l h = ground (
    arith,
    midpoint_i128_lem (k.to_exact_ordinal lo) (k.to_exact_ordinal hi) (k.ordinal_bounded lo)
        (k.ordinal_bounded hi) fit (k.ordinal_mono lo hi l),
    k.ordinal_mono hi j,
    k.lt_total hi j,
    k.lt_trans lo hi j,
  )

  get-degenerate_split : (lo hi j : K) → get (degenerate_split {F = F} {V = V} lo hi) j ≡ none
  unfolding degenerate_split
  get-degenerate_split lo hi j = ground (
    arith,
    get-empties F V (binary_split (midpoint_i128 (k.to_exact_ordinal lo) (k.to_exact_ordinal hi)))
        none true 2 j,
    get-empties F V constant (some lo) true 2 j,
  )

  pub capacity-degenerate_split :
      (lo hi : K) → capacity (degenerate_split {F = F} {V = V} lo hi) ≡ 2
  unfolding degenerate_split capacity
  capacity-degenerate_split lo hi = ground arith

module _ {F K V : Type 0} ⦃f : F64 F⦄ ⦃k : Key F K⦄ where
  -- The two halves at their slots show all the pairs.
  pub get-halves :
      (ps : List (K × V)) (m : ℕ) (lo hi : K) (x y : V) (n' n'' : Node F K V)
      → is_sorted f k ps ≡ true
      → GapsFit k ps
      → get_elem? ps m ≡ some (lo, x)
      → get_elem? ps (suc m) ≡ some (hi, y)
      → Places 0 (take (suc m) ps) (degenerate_split lo hi) n'
      → Places 1 (drop (suc m) ps) n' n''
      → (j : K) → get n'' j ≡ find_first k ps j
  get-halves ps m lo hi x y n' n'' s fit e e' low high j =
      let gap = fit m (lo, x) (hi, y) e e' in
      let l : k.lt lo hi ≡ true = neighbours f k m ps lo hi x y s e e' in
      let split : Node F K V = degenerate_split lo hi in
      let upper = is_sorted-drop f k (suc m) ps s in
      let cut = drop_at f k (suc m) ps hi y e' in
      let whole = find_first_split f k (suc m) ps j in
      let two = capacity-degenerate_split F V lo hi in
      let inside : predict_slot split j < 2 =
        omega (arith, two, predict_slot-lt split j (omega (arith, two))) in
      let blank = get-degenerate_split F V lo hi j in
      elim (Option-cases (find_first k (take (suc m) ps) j)) [
        | inr (v, at) ↦
            let p = split_low F V lo hi j gap l (last_of_lower f k m ps lo x j s e at) in
            ground (arith, low.0 j, low.1 j, high.0 j, p, whole, at)
        | inl nothing ↦ elim (Option-cases (find_first k (drop (suc m) ps) j)) [
          | inr (v, at) ↦
              let above =
                first_of_upper f k hi y (drop (suc (suc m)) ps) j (rw cut at upper)
                  (rw cut at at) in
              let p = split_high F V lo hi j gap l above in
              ground (arith, low.0 j, low.1 j, high.0 j, p, whole, at)
          | inl nothing' ↦ ground (arith, low.0 j, low.1 j, high.0 j, inside, whole, blank)
        ]
      ]
