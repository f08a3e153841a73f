-- ===== src/Build/Sorted.antt =====
-- Sorted pairs, cut at an index.
use scry_index.Prelude.{
  ℕ, zero, suc, ◌+◌, ◌-◌, ◌<◌, ◌≤◌, true, false, none, some, List, [], ◌∷◌, ◌≡◌, refl, sym, ap, ◌∙◌,
  arith, length, get_elem?, take, drop, Option-cases, inl, inr,
}
use scry_index.Prelude.Int.{IsI128, ◌-ℤ◌}
use scry_index.Key.{F64, Key}
use scry_index.Build.{is_sorted}
use scry_index.Map.Dedup.{find_first}

module _ {F K V : Type 0} (f : F64 F) (k : Key F K) where
  -- A key that is found in the rest is above the head.
  pub find_first_above :
      (a : K) (v : V) (ps : List (K × V)) (j : K) {w : V}
      → is_sorted f k ((a, v) ∷ ps) ≡ true
      → find_first k ps j ≡ some w
      → k.lt a j ≡ true
  unfolding is_sorted
  find_first_above a v [] j h e = cc
  find_first_above a v ((b, x) ∷ ps) j {w} h e = ground (
    arith,
    λ (t : find_first k ps j ≡ some w) (s : is_sorted f k ((b, x) ∷ ps) ≡ true).
        find_first_above b x ps j s t,
    k.eqb_iff b j,
    k.lt_trans a b j,
  )

  pub find_first_split :
      (m : ℕ) (ps : List (K × V)) (j : K)
      → find_first k ps j
        ≡ elim (find_first k (take m ps) j) [ none ↦ find_first k (drop m ps) j | some v ↦ some v ]
  find_first_split zero ps j = refl
  find_first_split (suc m) [] j = refl
  find_first_split (suc m) ((a, v) ∷ ps) j = ground (arith, find_first_split m ps j)

  pub is_sorted-drop :
      (m : ℕ) (ps : List (K × V)) → is_sorted f k ps ≡ true → is_sorted f k (drop m ps) ≡ true
  unfolding is_sorted
  is_sorted-drop zero ps h = h
  is_sorted-drop (suc m) [] h = refl
  is_sorted-drop (suc m) (p ∷ []) h = ground (arith, is_sorted-drop m [])
  is_sorted-drop (suc m) ((a, v) ∷ (b, w) ∷ ps) h = is_sorted-drop m ((b, w) ∷ ps) (ground arith)

  pub is_sorted-take :
      (m : ℕ) (ps : List (K × V)) → is_sorted f k ps ≡ true → is_sorted f k (take m ps) ≡ true
  unfolding is_sorted
  is_sorted-take zero ps h = refl
  is_sorted-take (suc m) [] h = refl
  is_sorted-take (suc zero) (p ∷ []) h = refl
  is_sorted-take (suc (suc m)) (p ∷ []) h = refl
  is_sorted-take (suc zero) ((a, v) ∷ (b, w) ∷ ps) h = refl
  is_sorted-take (suc (suc m)) ((a, v) ∷ (b, w) ∷ ps) h =
      ground (arith, is_sorted-take (suc m) ((b, w) ∷ ps))

  -- The first key of the upper part is at most each key found there.
  pub first_of_upper :
      (h : K) (w : V) (ps : List (K × V)) (j : K) {x : V}
      → is_sorted f k ((h, w) ∷ ps) ≡ true
      → find_first k ((h, w) ∷ ps) j ≡ some x
      → k.lt j h ≡ false
  first_of_upper h w ps j {x} s e = ground (
    arith,
    k.eqb_iff h j,
    k.lt_irrefl j,
    λ (t : find_first k ps j ≡ some x). find_first_above h w ps j s t,
    k.lt_trans h j h,
    k.lt_irrefl h,
  )

  -- An entry further on is found, and is above the head.
  above_at :
      (a : K) (v : V) (ps : List (K × V)) (m : ℕ) (l : K) (x : V)
      → is_sorted f k ((a, v) ∷ ps) ≡ true
      → get_elem? ps m ≡ some (l, x)
      → k.lt a l ≡ true
  unfolding is_sorted
  above_at a v [] m l x h e = cc
  above_at a v ((b, y) ∷ ps) zero l x h e = ground arith
  above_at a v ((b, y) ∷ ps) (suc m) l x h e =
      let s : is_sorted f k ((b, y) ∷ ps) ≡ true = ground arith in
      ground (arith, above_at b y ps m l x s e, k.lt_trans a b l)

  -- The entry at an index is at least each key found up to it.
  pub last_of_lower :
      (m : ℕ) (ps : List (K × V)) (l : K) (x : V) (j : K) {y : V}
      → is_sorted f k ps ≡ true
      → get_elem? ps m ≡ some (l, x)
      → find_first k (take (suc m) ps) j ≡ some y
      → k.lt l j ≡ false
  last_of_lower m [] l x j h e t = cc
  last_of_lower zero ((a, v) ∷ ps) l x j h e t = ground (arith, k.eqb_iff a j, k.lt_irrefl a)
  last_of_lower (suc m) ((a, v) ∷ ps) l x j {y} h e t =
      let s : is_sorted f k ps ≡ true = is_sorted-drop 1 ((a, v) ∷ ps) h in
      ground (
        arith,
        λ (r : find_first k (take (suc m) ps) j ≡ some y). last_of_lower m ps l x j s e r,
        above_at a v ps m l x h e,
        k.eqb_iff a j,
        k.lt_trans l a l,
        k.lt_irrefl l,
      )

  pub neighbours :
      (m : ℕ) (ps : List (K × V)) (l h : K) (x y : V)
      → is_sorted f k ps ≡ true
      → get_elem? ps m ≡ some (l, x)
      → get_elem? ps (suc m) ≡ some (h, y)
      → k.lt l h ≡ true
  neighbours m [] l h x y s e e' = cc
  neighbours zero ((a, v) ∷ ps) l h x y s e e' = ground (arith, above_at a v ps 0 h y s e')
  neighbours (suc m) ((a, v) ∷ ps) l h x y s e e' =
      neighbours m ps l h x y (is_sorted-drop 1 ((a, v) ∷ ps) s) e e'

  pub drop_at :
      (m : ℕ) (ps : List (K × V)) (h : K) (y : V)
      → get_elem? ps m ≡ some (h, y)
      → drop m ps ≡ (h, y) ∷ drop (suc m) ps
  drop_at m [] h y e = cc
  drop_at zero (p ∷ ps) h y e = ground arith
  drop_at (suc m) (p ∷ ps) h y e = drop_at m ps h y e

-- Lengths and indices of the parts.
module _ {ℓ} {A : Type ℓ} where
  get_elem?-none : (ps : List A) (i : ℕ) → get_elem? ps i ≡ none → length ps ≤ i
  get_elem?-none [] i e = omega arith
  get_elem?-none (p ∷ ps) zero e = cc
  get_elem?-none (p ∷ ps) (suc i) e = omega (arith, get_elem?-none ps i e)

  pub get_elem?-lt : (ps : List A) (i : ℕ) → i < length ps → (p : A) × (get_elem? ps i ≡ some p)
  get_elem?-lt ps i h = elim (Option-cases (get_elem? ps i)) [
    | inl out ↦ absurd (omega (arith, get_elem?-none ps i out))
    | inr (p, at) ↦ (p, at)
  ]

  pub length-take-le : (m : ℕ) (ps : List A) → length (take m ps) ≤ m
  length-take-le zero ps = omega arith
  length-take-le (suc m) [] = omega arith
  length-take-le (suc m) (p ∷ ps) = omega (arith, length-take-le m ps)

  pub length-drop : (m : ℕ) (ps : List A) → length (drop m ps) ≡ length ps - m
  length-drop zero ps = omega arith
  length-drop (suc m) [] = omega arith
  length-drop (suc m) (p ∷ ps) = omega (arith, length-drop m ps)

  pub take_pos : (m : ℕ) (ps : List A) → 0 < length ps → 0 < length (take (suc m) ps)
  take_pos m [] h = h
  take_pos m (p ∷ ps) h = omega arith

  get_elem?-take :
      (n m : ℕ) (ps : List A) (p : A) → get_elem? (take n ps) m ≡ some p → get_elem? ps m ≡ some p
  get_elem?-take zero m ps p e = cc
  get_elem?-take (suc n) m [] p e = e
  get_elem?-take (suc n) zero (q ∷ ps) p e = e
  get_elem?-take (suc n) (suc m) (q ∷ ps) p e = get_elem?-take n m ps p e

  get_elem?-drop : (n m : ℕ) (ps : List A) → get_elem? (drop n ps) m ≡ get_elem? ps (n + m)
  get_elem?-drop zero m ps = ap (get_elem? ps) (omega arith)
  get_elem?-drop (suc n) m [] = refl
  get_elem?-drop (suc n) m (p ∷ ps) =
      let index : suc (n + m) ≡ suc n + m = omega arith in
      get_elem?-drop n m ps ∙ ap (get_elem? (p ∷ ps)) index

-- The difference of the ordinals of neighbours does not overflow an i128.
abbrev pub GapsFit : {F K V : Type 0} → Key F K → List (K × V) → Type 0
GapsFit k ps =
    (m : ℕ) (lo hi : _)
    → get_elem? ps m ≡ some lo
    → get_elem? ps (suc m) ≡ some hi
    → IsI128 (k.to_exact_ordinal hi.0 -ℤ k.to_exact_ordinal lo.0)

module _ {F K V : Type 0} (k : Key F K) where
  pub take-GapsFit : (n : ℕ) (ps : List (K × V)) → GapsFit k ps → GapsFit k (take n ps)
  take-GapsFit n ps fit m lo hi e e' =
      fit m lo hi (get_elem?-take n m ps lo e) (get_elem?-take n (suc m) ps hi e')

  pub drop-GapsFit : (n : ℕ) (ps : List (K × V)) → GapsFit k ps → GapsFit k (drop n ps)
  drop-GapsFit n ps fit m lo hi e e' =
      fit (n + m) lo hi (sym (get_elem?-drop n m ps) ∙ e)
        (ap (get_elem? ps) (omega arith) ∙ sym (get_elem?-drop n (suc m) ps) ∙ e')
