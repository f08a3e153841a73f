-- ===== src/Lsm/Manifest.antt =====
-- scry-lsm/src/manifest.rs: the tables of each level.
use scry_index.Prelude.{
  ℕ, zero, suc, ◌+◌, Bool, false, ◌||◌, Option, none, some, List, [], ◌∷◌, ◌++◌, length, get_elem?,
  set, replicate, leb, ltb, ◌==◌, if◌then◌else◌, ◌-◌,
}
use scry_index.Lsm.Bytes.{Bytes}

-- The name of a file, `L{level}_{id}.sst` in the directory of the engine.
pub record SstPath : Type 0 where
  pub path_level : ℕ
  pub path_id : ℕ

pub record SsTableMeta : Type 0 where
  pub id : ℕ
  pub level : ℕ
  pub path : SstPath
  pub entry_count : ℕ
  pub min_key : Bytes
  pub max_key : Bytes

-- Ids are unbounded: the counter has 64 bits.
pub record Manifest : Type 0 where
  pub levels : List (List SsTableMeta)
  pub next_id : ℕ

unfoldable pub new : ℕ → Manifest
new num_levels = record { levels = replicate num_levels []; next_id = 0 }

unfoldable pub next_sstable_path : Manifest → ℕ → ℕ × SstPath × Manifest
next_sstable_path m level = (
  m.next_id,
  record { path_level = level; path_id = m.next_id },
  record m { next_id = m.next_id + 1 },
)

-- `resize_with`, which here never shortens
abbrev pub resize : ℕ → List (List SsTableMeta) → List (List SsTableMeta)
resize n levels = levels ++ replicate (n - length levels) []

-- `levels[level].push(meta)`, out of bounds a panic that `resize` rules out
abbrev pub push_at : List (List SsTableMeta) → ℕ → SsTableMeta → List (List SsTableMeta)
push_at [] n t = []
push_at (tables ∷ levels) zero t = (tables ++ t ∷ []) ∷ levels
push_at (tables ∷ levels) (suc n) t = tables ∷ push_at levels n t

unfoldable pub add : Manifest → SsTableMeta → Manifest
add m t = record m {
  levels =
      push_at (if leb (length m.levels) t.level then resize (t.level + 1) m.levels else m.levels)
        t.level t;
}

abbrev pub contains : List ℕ → ℕ → Bool
contains [] id = false
contains (x ∷ ids) id = x == id || contains ids id

-- `retain` of the tables that are not listed
unfoldable pub retain : List ℕ → List SsTableMeta → List SsTableMeta
retain ids [] = []
retain ids (t ∷ tables) =
    let rest = retain ids tables in if contains ids t.id then rest else t ∷ rest

abbrev pub or_nil : Option (List SsTableMeta) → List SsTableMeta
or_nil none = []
or_nil (some tables) = tables

unfoldable pub level : Manifest → ℕ → List SsTableMeta
level m l = or_nil (get_elem? m.levels l)

unfoldable pub level_count : Manifest → ℕ → ℕ
unfolding level
level_count m l = length (level m l)

unfoldable pub num_levels : Manifest → ℕ
num_levels m = length m.levels

unfoldable pub remove : Manifest → ℕ → List ℕ → Manifest
unfolding level retain
remove m l ids =
    if ltb l (length m.levels)
    then record m { levels = set m.levels l (retain ids (level m l)) }
    else m
