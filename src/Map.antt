-- ===== src/Map.antt =====
-- src/map.rs: the map over a root node. A call runs alone: the root is never frozen when it starts,
-- and the root that it loaded is the root that it validates against.
pub mod Dedup
pub mod Laws
pub mod Extend
pub mod GetOrInsert
pub mod Count
use scry_index.Prelude.{
  ℕ, zero, suc, ◌+◌, ◌-◌, ◌*◌, ◌%◌, min, Bool, true, false, not, ◌||◌, Option, none, some, List, [],
  ◌∷◌, length, ltb, if◌then◌else◌, ◌==◌,
}
use scry_index.Key.{F64, Key}
use scry_index.Config.{Config}
use scry_index.Model
use scry_index.Node.{Node, with_capacity, usize_mod}
use scry_index.Lookup
use scry_index.Iter.{sorted_pairs}
use scry_index.Build.{Error, empty_data, not_sorted, Outcome, ok, err, diverges}
use scry_index.Build
use scry_index.Rebuild
use scry_index.Rebuild.{is_inserted}

abbrev pub initial_root_rebuild_threshold : ℕ
initial_root_rebuild_threshold = 64

abbrev pub root_rebuild_growth_factor : ℕ
root_rebuild_growth_factor = 2

-- `saturating_mul` on `usize`
abbrev pub saturating_mul : ℕ → ℕ → ℕ
saturating_mul a b = min (a * b) (usize_mod - 1)

pub record LearnedMap (F K V : Type 0) : Type 0 where
  pub root : Node F K V
  pub len : ℕ
  pub config : Config F
  pub next_root_rebuild : ℕ

module _ {F K V : Type 0} ⦃f : F64 F⦄ where
  unfoldable pub empty_root : Node F K V
  unfolding with_capacity Model.new
  empty_root = with_capacity (Model.new f.one f.zero) 64

  unfoldable pub with_config : Config F → LearnedMap F K V
  unfolding empty_root
  with_config config = record {
    root = empty_root;
    len = 0;
    config = config;
    next_root_rebuild = initial_root_rebuild_threshold;
  }

-- The check and the filter of `bulk_load_dedup_with_config` over `windows(2)`.
module _ {F K V : Type 0} (k : Key F K) where
  unfoldable pub is_weakly_sorted : List (K × V) → Bool
  is_weakly_sorted [] = true
  is_weakly_sorted (p ∷ []) = true
  is_weakly_sorted ((a, v) ∷ (b, w) ∷ pairs) =
      if k.lt b a then false else is_weakly_sorted ((b, w) ∷ pairs)

  unfoldable pub dedup : List (K × V) → List (K × V)
  dedup [] = []
  dedup (p ∷ []) = p ∷ []
  dedup ((a, v) ∷ (b, w) ∷ pairs) =
      let rest = dedup ((b, w) ∷ pairs) in if k.eqb a b then rest else (a, v) ∷ rest

module _ {F K V : Type 0} ⦃f : F64 F⦄ ⦃k : Key F K⦄ where
  unfoldable pub get : LearnedMap F K V → K → Option V
  unfolding Lookup.get
  get m key = Lookup.get m.root key

  unfoldable pub contains_key : LearnedMap F K V → K → Bool
  unfolding get
  contains_key m key = elim (get m key) [ none ↦ false | some v ↦ true ]

-- A tree or map operation runs with `fuel`, and builds with the standard library's sort.
module _ {F K V : Type 0} ⦃f : F64 F⦄ ⦃k : Key F K⦄ (sort : List (ℕ × ℕ) → List (ℕ × ℕ))
    (fuel : ℕ) where
  unfoldable pub bulk_load_with_config : List (K × V) → Config F → Outcome (LearnedMap F K V)
  unfolding Build.bulk_load
  bulk_load_with_config pairs config =
      let build_config = record config { range_headroom = f.max config.range_headroom f.one } in
      elim (Build.bulk_load sort build_config fuel pairs) [
        | diverges ↦ diverges
        | err e ↦ err e
        | ok root ↦ ok (record {
          root = root;
          len = length pairs;
          config = config;
          next_root_rebuild = saturating_mul (length pairs) root_rebuild_growth_factor;
        })
      ]

  unfoldable pub bulk_load_dedup_with_config : List (K × V) → Config F → Outcome (LearnedMap F K V)
  unfolding is_weakly_sorted dedup bulk_load_with_config
  bulk_load_dedup_with_config [] config = err empty_data
  bulk_load_dedup_with_config (p ∷ pairs) config =
      if is_weakly_sorted k (p ∷ pairs)
      then bulk_load_with_config (dedup k (p ∷ pairs)) config
      else err not_sorted

  abbrev swap_root : LearnedMap F K V → ℕ → Outcome (Node F K V) → Option (LearnedMap F K V)
  swap_root m count diverges = none
  swap_root m count (err e) = some m
  swap_root m count (ok root) = some (record m {
    root = root;
    next_root_rebuild = saturating_mul count root_rebuild_growth_factor;
  })

  unfoldable pub rebuild : LearnedMap F K V → Option (LearnedMap F K V)
  unfolding sorted_pairs Build.bulk_load
  rebuild m = elim (sorted_pairs fuel m.root) [
    | none ↦ none
    | some [] ↦ some m
    | some (p ∷ pairs) ↦
        swap_root m (length (p ∷ pairs))
          (Build.bulk_load sort (record m.config { range_headroom = f.one }) fuel (p ∷ pairs))
  ]

  unfoldable pub maybe_rebuild_root : LearnedMap F K V → ℕ → Option (LearnedMap F K V)
  unfolding rebuild
  maybe_rebuild_root m current_len =
      let threshold = m.next_root_rebuild in
      if not m.config.auto_rebuild || ltb current_len threshold
      then some m
      else rebuild
          (record m { next_root_rebuild = saturating_mul threshold root_rebuild_growth_factor })

  -- the length wraps in `fetch_add` and `wrapping_add`
  abbrev count_new : Bool → LearnedMap F K V → Option (LearnedMap F K V × Bool)
  count_new false m = some (m, false)
  count_new true m =
      let new_len = (m.len + 1) % usize_mod in
      elim (maybe_rebuild_root (record m { len = new_len }) new_len) [
        | none ↦ none
        | some m' ↦ some (m', true)
      ]

  unfoldable pub insert : LearnedMap F K V → K → V → Option (LearnedMap F K V × Bool)
  unfolding Rebuild.insert maybe_rebuild_root
  insert m key value = elim (Rebuild.insert sort m.config fuel m.root key value) [
    | none ↦ none
    | some (root, result) ↦ count_new (is_inserted result) (record m { root = root })
  ]

  unfoldable pub remove : LearnedMap F K V → K → Option (LearnedMap F K V × Bool)
  unfolding Rebuild.remove
  remove m key = elim (Rebuild.remove sort m.config fuel m.root key) [
    | none ↦ none
    | some (root, false) ↦ some (record m { root = root }, false)
    | some (root, true) ↦
        some (record m { root = root; len = (m.len + usize_mod - 1) % usize_mod }, true)
  ]

  unfoldable pub get_or_insert : LearnedMap F K V → K → V → Option (LearnedMap F K V × V)
  unfolding Rebuild.get_or_insert maybe_rebuild_root
  get_or_insert m key value = elim (Rebuild.get_or_insert sort m.config fuel m.root key value) [
    | none ↦ none
    | some (root, val, result) ↦ elim (count_new (is_inserted result) (record m { root = root })) [
      | none ↦ none
      | some (m', is_new) ↦ some (m', val)
    ]
  ]

  -- the value is computed by a closure, a constant here
  unfoldable pub get_or_insert_with : LearnedMap F K V → K → V → Option (LearnedMap F K V × V)
  unfolding get get_or_insert
  get_or_insert_with m key value = elim (get m key) [
    | some val ↦ some (m, val)
    | none ↦ get_or_insert m key value
  ]

  -- `extend` and `from_iter`
  unfoldable pub extend : LearnedMap F K V → List (K × V) → Option (LearnedMap F K V)
  unfolding insert
  extend m [] = some m
  extend m ((key, value) ∷ pairs) = elim (insert m key value) [
    | none ↦ none
    | some (m', is_new) ↦ extend m' pairs
  ]

  unfoldable pub drain : LearnedMap F K V → Option (LearnedMap F K V × List (K × V))
  unfolding sorted_pairs empty_root
  drain m = elim (sorted_pairs fuel m.root) [
    | none ↦ none
    | some pairs ↦ some (
      record m {
        root = empty_root;
        len = (m.len + usize_mod - length pairs % usize_mod) % usize_mod;
        next_root_rebuild = initial_root_rebuild_threshold;
      },
      pairs,
    )
  ]

  unfoldable pub clear : LearnedMap F K V → Option (LearnedMap F K V)
  unfolding drain
  clear m = elim (drain m) [ none ↦ none | some (m', pairs) ↦ some m' ]
