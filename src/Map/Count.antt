-- ===== src/Map/Count.antt =====
-- The length that src/map.rs keeps, against the entries of the tree.
use scry_index.Prelude.{ℕ, ◌+◌, ◌<◌, Bool, false, some, List, ◌≡◌, arith, Option-cases, inl, inr}
use scry_index.Key.{F64, Key}
use scry_index.Node.{usize_mod}
use scry_index.Node.Count.{total_keys}
use scry_index.Insert.{insert_loop}
use scry_index.Insert.Result.{insert_loop-result}
use scry_index.Insert.Count.{total_keys-insert_loop}
use scry_index.Remove.{remove_loop}
use scry_index.Remove.Law.{get-remove_loop}
use scry_index.Remove.Count.{total_keys-remove_loop}
use scry_index.Map.{LearnedMap, insert, remove}

module _ {F K V : Type 0} where
  abbrev pub IsCounted : LearnedMap F K V → Type 0
  IsCounted m = m.len ≡ total_keys m.root

module _ {F K V : Type 0} ⦃f : F64 F⦄ ⦃k : Key F K⦄ (sort : List (ℕ × ℕ) → List (ℕ × ℕ))
    (fuel : ℕ) where
  -- With automatic rebuilds off, an `insert` that returns keeps the length equal to the number of
  -- entries in the tree, as long as that number and one more is a `usize`.
  pub insert-IsCounted :
      (m m' : LearnedMap F K V) (key : K) (value : V) (is_new : Bool)
      → m.config.auto_rebuild ≡ false
      → total_keys m.root + 1 < usize_mod
      → IsCounted m
      → insert sort fuel m key value ≡ some (m', is_new)
      → IsCounted m'
  unfolding insert
  insert-IsCounted m m' key value is_new off room counted e =
      elim (Option-cases (insert_loop fuel m.root key value)) [
        | inl stuck ↦ absurd (ground arith)
        | inr (i, went) ↦ ground (
          arith,
          insert_loop-result fuel m.root key value i went,
          total_keys-insert_loop fuel m.root key value i went,
        )
      ]

  -- With automatic rebuilds off, a `remove` that returns keeps the length equal to the number of
  -- entries in the tree, as long as that number is a `usize`.
  pub remove-IsCounted :
      (m m' : LearnedMap F K V) (key : K) (was : Bool)
      → m.config.auto_rebuild ≡ false
      → total_keys m.root < usize_mod
      → IsCounted m
      → remove sort fuel m key ≡ some (m', was)
      → IsCounted m'
  unfolding remove
  remove-IsCounted m m' key was off room counted e =
      elim (Option-cases (remove_loop m.config fuel m.root key)) [
        | inl stuck ↦ absurd (ground arith)
        | inr (r, went) ↦ ground (
          arith,
          (get-remove_loop m.config fuel m.root key r went).1,
          total_keys-remove_loop m.config fuel m.root key r went,
        )
      ]
