-- ===== src/Map/Dedup.antt =====
-- The check and the filter of `bulk_load_dedup_with_config` in src/map.rs.
use scry_index.Prelude.{true, Option, none, some, List, [], ◌∷◌, ◌≡◌, refl, arith, if◌then◌else◌}
use scry_index.Key.{F64, Key}
use scry_index.Build.{is_sorted}
use scry_index.Map.{is_weakly_sorted, dedup}

module _ {F K V : Type 0} (k : Key F K) where
  -- the value of the first pair with a key
  abbrev pub find_first : List (K × V) → K → Option V
  find_first [] j = none
  find_first ((a, v) ∷ pairs) j = if k.eqb a j then some v else find_first pairs j

  -- the value of the last pair with a key
  abbrev pub find_last : List (K × V) → K → Option V
  find_last [] j = none
  find_last ((a, v) ∷ pairs) j = elim (find_last pairs j) [
    | some w ↦ some w
    | none ↦ if k.eqb a j then some v else none
  ]

  abbrev StartsAt : K → List (K × V) → Type 0
  StartsAt a [] = ⊥
  StartsAt a ((b, v) ∷ pairs) = b ≡ a

  dedup-StartsAt : (a : K) (v : V) (pairs : List (K × V)) → StartsAt a (dedup k ((a, v) ∷ pairs))
  unfolding dedup
  dedup-StartsAt a v [] = refl
  dedup-StartsAt a v ((b, w) ∷ pairs) = ground (arith, dedup-StartsAt b w pairs, k.eqb_iff a b)

  sorted_cons :
      (f : F64 F) (a : K) (v : V) (b : K) (pairs : List (K × V))
      → StartsAt b pairs
      → k.lt a b ≡ true
      → is_sorted f k pairs ≡ true
      → is_sorted f k ((a, v) ∷ pairs) ≡ true
  unfolding is_sorted
  sorted_cons f a v b [] s l h = elim s [ ]
  sorted_cons f a v b ((c, w) ∷ pairs) s l h = ground arith

  -- What passes the check of `bulk_load_dedup` is, after the filter, in strictly ascending order, so
  -- the check of `bulk_load` does not refuse it.
  pub dedup-is_sorted :
      (f : F64 F) (pairs : List (K × V))
      → is_weakly_sorted k pairs ≡ true
      → is_sorted f k (dedup k pairs) ≡ true
  unfolding is_weakly_sorted dedup is_sorted
  dedup-is_sorted f [] h = refl
  dedup-is_sorted f ((a, v) ∷ []) h = refl
  dedup-is_sorted f ((a, v) ∷ (b, w) ∷ pairs) h = ground (
    arith,
    dedup-is_sorted f ((b, w) ∷ pairs),
    sorted_cons f a v b (dedup k ((b, w) ∷ pairs)) (dedup-StartsAt b w pairs),
    k.eqb_iff a b,
    k.lt_total a b,
  )

  find_last_above :
      (j b : K) (w : V) (pairs : List (K × V))
      → is_weakly_sorted k ((b, w) ∷ pairs) ≡ true
      → k.lt j b ≡ true
      → find_last ((b, w) ∷ pairs) j ≡ none
  unfolding is_weakly_sorted
  find_last_above j b w [] h l = ground (arith, k.eqb_iff b j, k.lt_irrefl j)
  find_last_above j b w ((c, x) ∷ pairs) h l = ground (
    arith,
    find_last_above j c x pairs,
    k.eqb_iff b j,
    k.lt_irrefl j,
    k.lt_total b c,
    k.lt_trans j b c,
  )

  find_last_head : (b : K) (w : V) (pairs : List (K × V)) → find_last ((b, w) ∷ pairs) b ≡ none → ⊥
  find_last_head b w pairs h = ground (arith, k.eqb_iff b b)

  -- On pairs in weakly ascending order, the filter keeps the last value of each key.
  pub find_first-dedup :
      (pairs : List (K × V)) (j : K)
      → is_weakly_sorted k pairs ≡ true
      → find_first (dedup k pairs) j ≡ find_last pairs j
  unfolding is_weakly_sorted dedup
  find_first-dedup [] j h = refl
  find_first-dedup ((a, v) ∷ []) j h = refl
  find_first-dedup ((a, v) ∷ (b, w) ∷ pairs) j h = ground (
    arith,
    find_first-dedup ((b, w) ∷ pairs) j,
    find_last_above j b w pairs,
    find_last_head b w pairs,
    k.eqb_iff a b,
    k.eqb_iff a j,
    k.lt_total a b,
  )
