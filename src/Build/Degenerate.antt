-- ===== src/Build/Degenerate.antt =====
-- `build_degenerate`: the tree for keys that their model inputs do not tell apart.
use scry_index.Prelude.{
  ℕ, zero, suc, ◌-◌, ◌/◌, ◌<◌, ◌≤◌, true, Option, none, some, List, [], ◌∷◌, ◌≡◌, refl, ap, ◌∙◌,
  arith, length, get_elem?, take, drop,
}
use scry_index.Key.{F64, Key}
use scry_index.Model.{constant}
use scry_index.Node.{Node, store_data, inc_keys, capacity, with_capacity}
use scry_index.Node.Laws.{predict_slot-lt}
use scry_index.Lookup.{get}
use scry_index.Insert.Store.{get-empties}
use scry_index.Build.{is_sorted, degenerate_split, place_half, build_degenerate}
use scry_index.Build.Sorted.{
  GapsFit, take-GapsFit, drop-GapsFit, is_sorted-drop, is_sorted-take, get_elem?-lt, length-take-le,
  length-drop, take_pos,
}
use scry_index.Map.Dedup.{find_first}
use scry_index.Build.Halves.{
  Shows, store_data-Places, place_half_lem, capacity-degenerate_split, get-halves,
}

module _ {F K V : Type 0} ⦃f : F64 F⦄ ⦃k : Key F K⦄ where
  -- One level: both halves are built and placed.
  halves_built :
      (build : List (K × V) → Option (Node F K V)) (ps : List (K × V)) (m : ℕ)
      → is_sorted f k ps ≡ true
      → GapsFit k ps
      → suc m < length ps
      → Shows (take (suc m) ps) (build (take (suc m) ps))
      → Shows (drop (suc m) ps) (build (drop (suc m) ps))
      → (n : Node F K V) × (n' : Node F K V) × (n'' : Node F K V) × (place_half build 0
            (take (suc m) ps)
            n
          ≡ some n')
        × (place_half build 1 (drop (suc m) ps) n' ≡ some n'')
        × ((j : K) → get n'' j ≡ find_first k ps j)
        × (lo : K × V) × (hi : K × V) × (get_elem? ps m ≡ some lo)
        × (get_elem? ps (suc m) ≡ some hi)
        × (n ≡ degenerate_split lo.0 hi.0)
  halves_built build ps m s fit h lower upper =
      let ((lo, x), e) = get_elem?-lt ps m (omega arith) in
      let ((hi, y), e') = get_elem?-lt ps (suc m) h in
      let n : Node F K V = degenerate_split lo hi in
      let two = capacity-degenerate_split F V lo hi in
      let (n', went, low) = place_half_lem build 0 (take (suc m) ps) n (omega (arith, two)) lower in
      let (n'', went', high) =
        place_half_lem build 1 (drop (suc m) ps) n' (omega (arith, two, low.2)) upper in
      (
        n,
        n',
        n'',
        went,
        went',
        get-halves ps m lo hi x y n' n'' s fit e e' low high,
        (lo, x),
        (hi, y),
        e,
        e',
        refl,
      )

  -- the body of `build_degenerate` at a middle index
  abbrev assembled : (List (K × V) → Option (Node F K V)) → List (K × V) → ℕ → Option (Node F K V)
  assembled build ps mid =
      let split : Option (Node F K V) = elim (get_elem? ps (mid - 1)) [
        | none ↦ none
        | some (lo, _) ↦ elim (get_elem? ps mid) [
          | none ↦ none
          | some (hi, _) ↦ some (degenerate_split lo hi)
        ]
      ] in
      elim split [
        | none ↦ none
        | some n ↦ elim (place_half build 0 (take mid ps) n) [
          | none ↦ none
          | some n' ↦ place_half build 1 (drop mid ps) n'
        ]
      ]

  assembled_at :
      (build : List (K × V) → Option (Node F K V)) (ps : List (K × V)) (m : ℕ) (lo hi : K) (x y : V)
      (n' n'' : Node F K V)
      → get_elem? ps m ≡ some (lo, x)
      → get_elem? ps (suc m) ≡ some (hi, y)
      → place_half build 0 (take (suc m) ps) (degenerate_split lo hi) ≡ some n'
      → place_half build 1 (drop (suc m) ps) n' ≡ some n''
      → assembled build ps (suc m) ≡ some n''
  assembled_at build ps m lo hi x y n' n'' e e' went went' = ground arith

  build_step :
      (fuel : ℕ) (p q : K × V) (rest : List (K × V)) (m : ℕ) (lo hi : K) (x y : V)
      (n' n'' : Node F K V)
      → length (p ∷ q ∷ rest) / 2 ≡ suc m
      → get_elem? (p ∷ q ∷ rest) m ≡ some (lo, x)
      → get_elem? (p ∷ q ∷ rest) (suc m) ≡ some (hi, y)
      → place_half (build_degenerate fuel) 0 (take (suc m) (p ∷ q ∷ rest)) (degenerate_split lo hi)
        ≡ some n'
      → place_half (build_degenerate fuel) 1 (drop (suc m) (p ∷ q ∷ rest)) n' ≡ some n''
      → build_degenerate (suc fuel) (p ∷ q ∷ rest) ≡ some n''
  unfolding build_degenerate
  build_step fuel p q rest m lo hi x y n' n'' mid e e' went went' =
      ap (assembled (build_degenerate fuel) (p ∷ q ∷ rest)) mid
      ∙ assembled_at (build_degenerate fuel) (p ∷ q ∷ rest) m lo hi x y n' n'' e e' went went'

  level :
      (fuel : ℕ) (p q : K × V) (rest : List (K × V)) (m : ℕ)
      → length (p ∷ q ∷ rest) / 2 ≡ suc m
      → is_sorted f k (p ∷ q ∷ rest) ≡ true
      → GapsFit k (p ∷ q ∷ rest)
      → ((half : List (K × V))
          → is_sorted f k half ≡ true
          → GapsFit k half
          → 0 < length half
          → length half ≤ fuel
          → Shows {F = F} half (build_degenerate fuel half))
      → length (p ∷ q ∷ rest) ≤ suc fuel
      → Shows {F = F} (p ∷ q ∷ rest) (build_degenerate (suc fuel) (p ∷ q ∷ rest))
  level fuel p q rest m mid s fit ih room =
      let ps : List (K × V) = p ∷ q ∷ rest in
      let lower = take (suc m) ps in
      let upper = drop (suc m) ps in
      let down =
        ih lower (is_sorted-take f k (suc m) ps s) (take-GapsFit k (suc m) ps fit)
          (take_pos m ps (omega arith)) (omega (arith, mid, length-take-le (suc m) ps)) in
      let up =
        ih upper (is_sorted-drop f k (suc m) ps s) (drop-GapsFit k (suc m) ps fit)
          (omega (arith, mid, length-drop (suc m) ps))
          (omega (arith, mid, length-drop (suc m) ps)) in
      let (n, n', n'', went, went', shows, lo, hi, e, e', split) =
        halves_built (build_degenerate fuel) ps m s fit (omega (arith, mid)) down up in
      (
        n'',
        build_step fuel p q rest m lo.0 hi.0 lo.1 hi.1 n' n'' mid e e' (rw split at went) went',
        shows,
      )

  from_middle :
      (fuel : ℕ) (p q : K × V) (rest : List (K × V)) (mid : ℕ)
      → length (p ∷ q ∷ rest) / 2 ≡ mid
      → is_sorted f k (p ∷ q ∷ rest) ≡ true
      → GapsFit k (p ∷ q ∷ rest)
      → ((half : List (K × V))
          → is_sorted f k half ≡ true
          → GapsFit k half
          → 0 < length half
          → length half ≤ fuel
          → Shows {F = F} half (build_degenerate fuel half))
      → length (p ∷ q ∷ rest) ≤ suc fuel
      → Shows {F = F} (p ∷ q ∷ rest) (build_degenerate (suc fuel) (p ∷ q ∷ rest))
  from_middle fuel p q rest zero mid s fit ih room = absurd (omega (arith, mid))
  from_middle fuel p q rest (suc m) mid s fit ih room = level fuel p q rest m mid s fit ih room

  single :
      (fuel : ℕ) (key : K) (v : V)
      → Shows {F = F} ((key, v) ∷ []) (build_degenerate (suc fuel) ((key, v) ∷ []))
  unfolding build_degenerate with_capacity capacity
  single fuel key v =
      let blank : Node F K V = with_capacity constant 1 in
      let stored = store_data-Places 0 key v blank (omega arith) in
      let inside = predict_slot-lt blank in
      (
        inc_keys (store_data blank 0 key v),
        refl,
        λ j. ground (
          arith,
          stored.0 j,
          predict_slot-lt blank j (omega arith),
          get-empties F V constant none true 1 j,
        ),
      )

  -- From one pair or more in strictly ascending order, where the difference of the ordinals of
  -- neighbouring keys does not overflow an i128, with fuel for the number of the pairs,
  -- `build_degenerate` returns a tree that shows exactly the pairs, whatever the model inputs.
  pub build_degenerate_lem :
      (fuel : ℕ) (pairs : List (K × V))
      → is_sorted f k pairs ≡ true
      → GapsFit k pairs
      → 0 < length pairs
      → length pairs ≤ fuel
      → (n : Node F K V) × (build_degenerate fuel pairs ≡ some n)
        × ((j : K) → get n j ≡ find_first k pairs j)
  build_degenerate_lem zero pairs s fit h room = absurd (omega arith)
  build_degenerate_lem (suc fuel) [] s fit h room = elim h [ ]
  build_degenerate_lem (suc fuel) ((key, v) ∷ []) s fit h room = single fuel key v
  build_degenerate_lem (suc fuel) (p ∷ q ∷ rest) s fit h room =
      from_middle fuel p q rest (length (p ∷ q ∷ rest) / 2) refl s fit
        (λ half s' fit' h' room'. build_degenerate_lem fuel half s' fit' h' room') room
