-- ===== src/Map/Extend.antt =====
-- `extend` and `from_iter`: a sequence of insertions.
use scry_index.Prelude.{
  ℕ, ◌+◌, ◌<◌, ◌≤◌, Bool, false, none, some, List, [], ◌∷◌, ◌≡◌, refl, ◌∙◌, ap, arith, length,
  Option-cases, inl, inr, if◌then◌else◌,
}
use scry_index.Key.{F64, Key}
use scry_index.Config.{Config}
use scry_index.Node.Ready.{IsReady}
use scry_index.Node.Count.{max_depth}
use scry_index.Insert.{insert_loop}
use scry_index.Insert.Total.{Separates}
use scry_index.Insert.Depth.{depth-insert_loop}
use scry_index.Map.{LearnedMap, get, insert, extend}
use scry_index.Map.Laws.{insert_lem}
use scry_index.Map.Dedup.{find_last}

module _ {F K V : Type 0} ⦃f : F64 F⦄ ⦃k : Key F K⦄ (sort : List (ℕ × ℕ) → List (ℕ × ℕ))
    (fuel : ℕ) where
  depth-insert :
      (m m' : LearnedMap F K V) (key : K) (value : V) (is_new : Bool)
      → m.config.auto_rebuild ≡ false
      → insert sort fuel m key value ≡ some (m', is_new)
      → max_depth m'.root ≤ max_depth m.root + 1
  unfolding insert
  depth-insert m m' key value is_new off e =
      elim (Option-cases (insert_loop fuel m.root key value)) [
        | inl stuck ↦ absurd (ground arith)
        | inr (i, went) ↦ ground (arith, depth-insert_loop fuel m.root key value i went)
      ]

  -- The contract of `extend`: it returns; a key reads its last value in the pairs, or as before
  -- where no pair has it; the tree is ready for the next call.
  abbrev pub Extends : LearnedMap F K V → List (K × V) → Type 0
  Extends m pairs =
      (m' : LearnedMap F K V) × (extend sort fuel m pairs ≡ some m')
      × ((j : K) → get m' j ≡ elim (find_last k pairs j) [ none ↦ get m j | some v ↦ some v ])
      × IsReady m'.root

  after_one :
      (m m1 : LearnedMap F K V) (key : K) (value : V) (is_new : Bool) (pairs : List (K × V))
      → insert sort fuel m key value ≡ some (m1, is_new)
      → ((j : K) → get m1 j ≡ (if k.eqb key j then some value else get m j))
      → Extends m1 pairs
      → Extends m ((key, value) ∷ pairs)
  unfolding extend
  after_one m m1 key value is_new pairs e reads (m', e', reads', ready) =
      (m', ground arith, λ j. ground (arith, reads j, reads' j), ready)

  -- With automatic rebuilds off, on a tree with no slot being written, with fuel above its depth
  -- and the number of pairs together, and with the machine's numbers separating keys as
  -- `Separates` says, which for keys of negligibly different inputs includes that the difference
  -- of their ordinals does not overflow an i128, `extend` returns; a key then reads its last value
  -- in the pairs, or as before where no pair has it, and the tree is ready for the next call.
  pub extend_lem :
      (m : LearnedMap F K V) (pairs : List (K × V))
      → Separates f k
      → IsReady m.root
      → max_depth m.root + length pairs < fuel
      → m.config.auto_rebuild ≡ false
      → Extends m pairs
  unfolding extend
  extend_lem m [] s ready room off = (m, refl, λ j. refl, ready)
  extend_lem m ((key, value) ∷ pairs) s ready room off =
      let (m1, e, reads, len, config, ready1) =
        insert_lem sort fuel m key value s ready (omega (arith, room)) off in
      let deep = depth-insert m m1 key value _ off e in
      let off1 : m1.config.auto_rebuild ≡ false =
        ap (λ (c : Config F). c.auto_rebuild) config ∙ off in
      after_one m m1 key value _ pairs e reads
        (extend_lem m1 pairs s ready1 (omega (arith, deep, room)) off1)
