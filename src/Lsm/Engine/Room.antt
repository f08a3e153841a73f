-- ===== src/Lsm/Engine/Room.antt =====
-- The levels of a manifest of which none is full: nothing is compacted.
use scry_index.Prelude.{
  ℕ, zero, suc, ◌<◌, Bool, true, false, ◌&&◌, ◌⊎◌, inl, inr, Bool-cases, List, [], ◌∷◌, ◌++◌,
  length, leb, ltb, ◌≡◌, refl, arith,
}
use scry_index.Lsm.Error.{Result, ok}
use scry_index.Lsm.Sstable.{Table}
use scry_index.Lsm.Sstable.Reader
use scry_index.Lsm.Manifest
use scry_index.Lsm.Manifest.{Manifest, SsTableMeta, SstPath}
use scry_index.Lsm.Files.{Files}
use scry_index.Lsm.Compaction.{maybe_compact, compact_from, max_tables_per_level}
use scry_index.Lsm.Engine.{LsmEngine, compact, meta_of}

-- No level has the number of tables that a compaction waits for.
abbrev pub all_small : List (List SsTableMeta) → Bool
all_small [] = true
all_small (tables ∷ levels) = ltb (length tables) max_tables_per_level && all_small levels

level_count-small :
    (levels : List (List SsTableMeta)) (next_id l : ℕ)
    → all_small levels ≡ true
    → Manifest.level_count (record { levels = levels; next_id = next_id }) l < max_tables_per_level
unfolding Manifest.level_count Manifest.level
level_count-small [] next_id l h = omega arith
level_count-small (tables ∷ levels) next_id zero h = ground arith
level_count-small (tables ∷ levels) next_id (suc l) h =
    unfold Manifest.level_count Manifest.level in level_count-small levels next_id l (ground arith)

compact_from-small :
    (n level : ℕ) (files : Files) (m : Manifest)
    → ((l : ℕ) → Manifest.level_count m l < max_tables_per_level)
    → compact_from n level files m ≡ Reader.ok (files, m)
unfolding compact_from
compact_from-small zero level files m h = refl
compact_from-small (suc n) level files m h =
    let small : leb max_tables_per_level (Manifest.level_count m level) ≡ false =
      (let l = h level in ground arith) in
    rw small (compact_from-small n (suc level) files m h)

-- A table at the end of the first level.
pub add-first :
    (first : List SsTableMeta) (others : List (List SsTableMeta)) (next_id id : ℕ) (path : SstPath)
    (t : Table)
    → Manifest.add (record { levels = first ∷ others; next_id = next_id }) (meta_of id path t)
      ≡ record { levels = (first ++ meta_of id path t ∷ []) ∷ others; next_id = next_id }
unfolding Manifest.add
add-first first others next_id id path t =
    let test : leb (suc (length others)) 0 ≡ false = ground arith in rw test refl

maybe_compact-small :
    (files : Files) (m : Manifest)
    → ((l : ℕ) → Manifest.level_count m l < max_tables_per_level)
    → maybe_compact files m ≡ Reader.ok (files, m)
unfolding maybe_compact
maybe_compact-small files m h = compact_from-small (Manifest.num_levels m) 0 files m h

compact-small :
    {M : Type 0} (e : LsmEngine M) → all_small e.manifest.levels ≡ true → compact e ≡ ok e
compact-small e h =
    let small = λ (l : ℕ). level_count-small e.manifest.levels e.manifest.next_id l h in
    rw (maybe_compact-small e.files e.manifest small) refl

-- A call that ends in the engine `e`, or, only where a level of `e` is full, in what compaction
-- makes of it.
abbrev pub EndsIn : {M : Type 0} → Result (LsmEngine M) → LsmEngine M → Type 0
EndsIn run e = (run ≡ ok e) ⊎ ((all_small e.manifest.levels ≡ false) × (run ≡ compact e))

pub compact-EndsIn : {M : Type 0} (e : LsmEngine M) → EndsIn (compact e) e
compact-EndsIn e = elim (Bool-cases (all_small e.manifest.levels)) [
  | inl h ↦ inl (compact-small e h)
  | inr h ↦ inr (h, refl)
]
