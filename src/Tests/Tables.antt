-- ===== src/Tests/Tables.antt =====
-- One table of two blocks, and the merge of two tables.
use scry_index.Prelude.{ℕ, ◌≡◌, refl, List, [], ◌∷◌, length, arith, ◌<◌, some, none, ◌-◌, ◌+◌, leb}
use scry_index.Key.Ordinal.{ltb_bytes}
use scry_index.Key.Lexicographic.{eq_bytes}
use scry_index.Lsm.Bytes.{Bytes, length_prefixed, le32, le_bytes}
use scry_index.Lsm.Sstable
use scry_index.Lsm.Sstable.{
  Entry, Table, with_block_size, add, add_all, finish, flush_block, encode_entry, encode_index,
  footer, magic,
}
use scry_index.Lsm.Sstable.Reader
use scry_index.Lsm.Sstable.Reader.{SsTableReader, open_table, read_all}
use scry_index.Lsm.Sstable.Parse.{AllFit}
use scry_index.Lsm.Sstable.RoundTrip.{read_all-finish, add_all-Finished}
use scry_index.Lsm.Sstable.Sorted.{lookup, IsAscending}
use scry_index.Lsm.Sstable.Lookup.{get-finish}
use scry_index.Lsm.Manifest
use scry_index.Lsm.Manifest.{Manifest, SsTableMeta, SstPath}
use scry_index.Lsm.Files.{Files, write_file}
use scry_index.Lsm.Compaction.{install, remove_files, ids_of, compact_level}
use scry_index.Lsm.Compaction.Pick.{first_value}
use scry_index.Lsm.Compaction.Rounds.{kept, not_empty}
use scry_index.Lsm.Compaction.Level.{IsStored, AllStored, compact_level-oldest}

-- "a" and "b"
abbrev entries : List Entry
entries = (97 ∷ [], 49 ∷ []) ∷ ((98 ∷ [], 50 ∷ []) ∷ [])

entries-AllFit : AllFit entries
entries-AllFit = (omega arith, omega arith, (omega arith, omega arith, tt))

entries-IsAscending : IsAscending entries
unfolding ltb_bytes
entries-IsAscending = ((refl, tt), (tt, tt))

file_length : length (finish (add_all (with_block_size 10) entries)).file ≡ 82
unfolding with_block_size add add_all finish flush_block encode_entry encode_index footer
    length_prefixed le32 le_bytes
file_length = refl

read_all-finish_example :
    (reader : SsTableReader) × (open_table (finish (add_all (with_block_size 10) entries)).file
      ≡ Reader.ok reader)
    × (read_all reader ≡ Reader.ok entries)
    × (reader.entry_count ≡ 2)
read_all-finish_example = read_all-finish 10 entries entries-AllFit (omega (arith, file_length))

get-finish_example :
    (reader : SsTableReader) × (open_table (finish (add_all (with_block_size 10) entries)).file
      ≡ Reader.ok reader)
    × (Reader.get reader (98 ∷ []) ≡ Reader.ok (lookup (98 ∷ []) entries))
get-finish_example =
    get-finish 10 entries (98 ∷ []) entries-AllFit entries-IsAscending (omega (arith, file_length))

-- The key "a" with the value "9" in a newer table.
abbrev newer : List Entry
newer = (97 ∷ [], 57 ∷ []) ∷ []

abbrev old_path : SstPath
old_path = record { path_level = 0; path_id = 0 }

abbrev new_path : SstPath
new_path = record { path_level = 0; path_id = 1 }

abbrev table_of : List Entry → Table
table_of es = finish (add_all (with_block_size 10) es)

unfoldable files : Files
files =
    write_file (write_file (λ p. none) old_path (table_of entries).file) new_path
      (table_of newer).file

abbrev meta : ℕ → SstPath → List Entry → SsTableMeta
meta id path es = record {
  id = id;
  level = 0;
  path = path;
  entry_count = (table_of es).entry_count;
  min_key = (table_of es).min_key;
  max_key = (table_of es).max_key;
}

abbrev manifest : Manifest
manifest = record {
  levels = (meta 0 old_path entries ∷ (meta 1 new_path newer ∷ [])) ∷ ([] ∷ ([] ∷ ([] ∷ [])));
  next_id = 2;
}

newer_bytes : length (table_of newer).file ≡ 51
unfolding with_block_size add add_all finish flush_block encode_entry encode_index footer
    length_prefixed le32 le_bytes
newer_bytes = refl

old_IsStored : IsStored files old_path entries
unfolding files write_file
old_IsStored = record {
  table = table_of entries;
  finished = add_all-Finished 10 entries;
  present = refl;
  fits = entries-AllFit;
  ascending = entries-IsAscending;
  small = omega (arith, file_length);
}

new_IsStored : IsStored files new_path newer
unfolding files write_file
new_IsStored = record {
  table = table_of newer;
  finished = add_all-Finished 10 newer;
  present = refl;
  fits = (omega arith, omega arith, tt);
  ascending = (tt, tt);
  small = omega (arith, newer_bytes);
}

stored : AllStored files (Manifest.level manifest 0) (entries ∷ (newer ∷ []))
unfolding Manifest.level
stored = (old_IsStored, (new_IsStored, tt))

has_tables : 0 < length (Manifest.level manifest 0)
unfolding Manifest.level
has_tables = omega arith

compact_level-oldest_example :
    (out : List Entry) × (compact_level files manifest 0
      ≡ Reader.ok (
          install
            (remove_files files (Manifest.level manifest 0))
            (Manifest.remove
              (Manifest.next_sstable_path manifest (0 + 1)).2
              0
              (ids_of (Manifest.level manifest 0)))
            (0 + 1)
            (Manifest.next_sstable_path manifest (0 + 1)).0
            (Manifest.next_sstable_path manifest (0 + 1)).1
            (not_empty out)
            (finish (add_all Sstable.new out))))
    × IsAscending out
    × ((key : Bytes)
        → lookup key out
          ≡ kept
              (leb (Manifest.num_levels manifest - 1) (0 + 1))
              (first_value key (entries ∷ (newer ∷ []))))
compact_level-oldest_example =
    compact_level-oldest files manifest 0 (entries ∷ (newer ∷ [])) has_tables stored

-- The oldest value of "a" is the one that stays.
oldest_stays : first_value (97 ∷ []) (entries ∷ (newer ∷ [])) ≡ some (49 ∷ [])
unfolding first_value lookup eq_bytes
oldest_stays = refl
