-- ===== src/Lsm/Compaction.antt =====
-- scry-lsm/src/compaction.rs: the merge of the tables of a level.
pub mod Pick
pub mod Rows
pub mod Rounds
pub mod Oldest
pub mod Level
use scry_index.Prelude.{
  ℕ, zero, suc, ◌+◌, ◌-◌, Bool, true, false, ◌&&◌, ◌||◌, Option, none, some, List, [], ◌∷◌, ◌++◌,
  length, get_elem?, set, leb, ltb, ◌==◌, if◌then◌else◌,
}
use scry_index.Key.Ordinal.{ltb_bytes}
use scry_index.Key.Lexicographic.{eq_bytes}
use scry_index.Lsm.Bytes.{Bytes}
use scry_index.Lsm.Sstable.{Entry, SsTableWriter, Table, add, finish}
use scry_index.Lsm.Sstable
use scry_index.Lsm.Manifest
use scry_index.Lsm.Manifest.{Manifest, SsTableMeta, SstPath}
use scry_index.Lsm.Files.{Files, open_path, write_file, remove_file}
use scry_index.Lsm.Sstable.Reader.{
  IoResult, ok, err, ◌>>=◌, underflow, out_of_fuel, SsTableScan, scan, next_entry,
}

pub record MergeEntry : Type 0 where
  pub key : Bytes
  pub value : Bytes
  pub source : ℕ

-- `self.cmp(other)` is `Greater`: the keys compared the other way round, then the sources
unfoldable pub is_greater : MergeEntry → MergeEntry → Bool
unfolding ltb_bytes eq_bytes
is_greater self other =
    ltb_bytes self.key other.key || eq_bytes self.key other.key && ltb self.source other.source

-- The binary heap holds at most one entry of each source: here the list of them by source.
abbrev pub Heap : Type 0
Heap = List (Option MergeEntry)

unfoldable pub push : Heap → MergeEntry → Heap
push heap e = set heap e.source (some e)

abbrev pub greater_of : Option MergeEntry → Option MergeEntry → Option MergeEntry
greater_of none b = b
greater_of (some a) none = some a
greater_of (some a) (some b) = if is_greater b a then some b else some a

unfoldable pub greatest : Heap → Option MergeEntry
unfolding is_greater
greatest [] = none
greatest (a ∷ heap) = greater_of a (greatest heap)

unfoldable pub pop : Heap → Option (MergeEntry × Heap)
unfolding greatest
pop heap = elim (greatest heap) [ none ↦ none | some e ↦ some (e, set heap e.source none) ]

-- the first entry of a scan, as the heap holds it
abbrev pub merge_entry : ℕ → Option Entry → Option MergeEntry
merge_entry source none = none
merge_entry source (some (key, value)) = some (record { key = key; value = value; source = source })

-- The heap with the first entry of each scan, from a source on, and the scans behind them.
unfoldable pub seed : ℕ → List SsTableScan → IoResult (Heap × List SsTableScan)
unfolding next_entry
seed source [] = ok ([], [])
seed source (s ∷ scans) = next_entry s >>= λ n.
    seed (suc source) scans >>= λ r. ok (merge_entry source n.0 ∷ r.0, n.1 ∷ r.1)

pub record Merge : Type 0 where
  pub writer : SsTableWriter
  pub last_key : Option Bytes
  pub wrote_any : Bool

abbrev pub is_last : Option Bytes → Bytes → Bool
is_last none key = false
is_last (some last) key = eq_bytes last key

abbrev pub is_empty : Bytes → Bool
is_empty [] = true
is_empty (b ∷ bs) = false

-- The rest of a round, with the entry that was popped.
unfoldable pub emit : Bool → Merge → MergeEntry → Merge
unfolding eq_bytes add
emit is_highest m e =
    if is_last m.last_key e.key
    then m
    else if is_highest && is_empty e.value
    then record m { last_key = some e.key }
    else record { writer = add m.writer e.key e.value; last_key = some e.key; wrote_any = true }

abbrev pub push_next : Heap → ℕ → Option Entry → Heap
push_next heap source none = heap
push_next heap source (some (key, value)) =
    push heap (record { key = key; value = value; source = source })

-- The loop, with fuel for the entries of all scans.
unfoldable pub merge_loop : ℕ → Bool → Heap → List SsTableScan → Merge → IoResult Merge
unfolding pop push emit next_entry
merge_loop zero is_highest heap scans m = err out_of_fuel
merge_loop (suc fuel) is_highest heap scans m = elim (pop heap) [
  | none ↦ ok m
  | some (e, heap') ↦ elim (get_elem? scans e.source) [
    | none ↦ err underflow
    | some s ↦ next_entry s >>= λ n.
        merge_loop fuel is_highest (push_next heap' e.source n.0) (set scans e.source n.1)
          (emit is_highest m e)
  ]
]

-- `SsTableReader::open` of each table, and a scan of each
unfoldable pub open_scans : Files → List SsTableMeta → IoResult (List SsTableScan)
unfolding open_path scan
open_scans files [] = ok []
open_scans files (t ∷ tables) = open_path files t.path >>= λ reader.
    open_scans files tables >>= λ scans. ok (scan reader ∷ scans)

-- as many rounds as the files have bytes, which is more than they have entries
unfoldable pub rounds : List SsTableScan → ℕ
rounds [] = 1
rounds (s ∷ scans) = length s.file + rounds scans

unfoldable pub remove_files : Files → List SsTableMeta → Files
unfolding remove_file
remove_files files [] = files
remove_files files (t ∷ tables) = remove_files (remove_file files t.path) tables

abbrev pub ids_of : List SsTableMeta → List ℕ
ids_of [] = []
ids_of (t ∷ tables) = t.id ∷ ids_of tables

-- The end of `compact_level`. A writer that is not finished leaves a file that is not complete: here
-- an empty one.
unfoldable pub install : Files → Manifest → ℕ → ℕ → SstPath → Bool → Table → Files × Manifest
unfolding Manifest.add write_file
install files manifest target id path true t = (
  write_file files path t.file,
  Manifest.add manifest (record {
    id = id;
    level = target;
    path = path;
    entry_count = t.entry_count;
    min_key = t.min_key;
    max_key = t.max_key;
  }),
)
install files manifest target id path false t = (write_file files path [], manifest)

unfoldable pub compact_level : Files → Manifest → ℕ → IoResult (Files × Manifest)
unfolding open_scans rounds seed merge_loop remove_files install Manifest.level
    Manifest.next_sstable_path Manifest.remove finish Manifest.num_levels Sstable.new
compact_level files manifest level =
    let tables = Manifest.level manifest level in
    let is_highest = leb (Manifest.num_levels manifest - 1) (level + 1) in
    let (id, path, manifest') = Manifest.next_sstable_path manifest (level + 1) in
    if length tables == 0
    then ok (files, manifest)
    else (open_scans files tables >>= λ scans. seed 0 scans >>= λ r.
        merge_loop (rounds scans) is_highest r.0 r.1
          (record { writer = Sstable.new; last_key = none; wrote_any = false })
        >>= λ m. ok (
            install (remove_files files tables) (Manifest.remove manifest' level (ids_of tables))
              (level + 1) id path m.wrote_any (finish m.writer)))

abbrev pub max_tables_per_level : ℕ
max_tables_per_level = 4

-- The levels from one on, `n` of them.
unfoldable pub compact_from : ℕ → ℕ → Files → Manifest → IoResult (Files × Manifest)
unfolding compact_level Manifest.level_count
compact_from zero level files manifest = ok (files, manifest)
compact_from (suc n) level files manifest =
    (if leb max_tables_per_level (Manifest.level_count manifest level)
      then compact_level files manifest level
      else ok (files, manifest))
    >>= λ r. compact_from n (suc level) r.0 r.1

unfoldable pub maybe_compact : Files → Manifest → IoResult (Files × Manifest)
unfolding compact_from Manifest.num_levels
maybe_compact files manifest = compact_from (Manifest.num_levels manifest) 0 files manifest
