-- ===== src/Tests/Engines.antt =====
-- An engine over the B-tree memtable.
use scry_index.Prelude.{
  ◌≡◌, refl, List, [], ◌∷◌, length, arith, ◌<◌, some, none, false, if◌then◌else◌,
}
use scry_index.Key.Ordinal.{ltb_bytes}
use scry_index.Key.Lexicographic.{eq_bytes}
use scry_index.Lsm.Bytes.{Bytes, length_prefixed, le32, le_bytes, le_limit}
use scry_index.Lsm.Error.{ok, err, corruption}
use scry_index.Lsm.Wal
use scry_index.Lsm.Wal.{WalRecord}
use scry_index.Lsm.Wal.Recovery.{write_all}
use scry_index.Lsm.Sstable
use scry_index.Lsm.Sstable.{
  Entry, with_block_size, add, add_all, finish, flush_block, encode_entry, encode_index, footer,
}
use scry_index.Lsm.Manifest
use scry_index.Lsm.Manifest.{Manifest}
use scry_index.Lsm.Memtable.Btree.{
  BTreeMemtable, memtable, IsSorted, memtable-IsMemtable, insert_sorted,
}
use scry_index.Lsm.Memtable.Btree
use scry_index.Lsm.Engine.{
  LsmEngine, write_table, visible, flush_memtable, open_engine, get, put, delete, ingest_sorted,
  num_levels,
}
use scry_index.Lsm.Engine.Room.{EndsIn}
use scry_index.Lsm.Engine.Flush.{CanFlush, get-flush_memtable}
use scry_index.Lsm.Engine.Writes.{written, get-put, get-delete}
use scry_index.Lsm.Engine.Reopen.{latest, get-open_engine}
use scry_index.Lsm.Engine.Ingest.{ingest_sorted-unsorted}

-- "a" in the memtable, "b" deleted
abbrev buffer : BTreeMemtable
buffer = record { map = (97 ∷ [], 49 ∷ []) ∷ ((98 ∷ [], []) ∷ []); byte_count = 3 }

abbrev engine_with : BTreeMemtable → Bytes → LsmEngine BTreeMemtable
engine_with m wal = record {
  memtable = m;
  wal = wal;
  manifest = Manifest.new num_levels;
  files = λ p. none;
  flush_threshold = 4;
}

buffer-IsSorted : IsSorted buffer
unfolding ltb_bytes
buffer-IsSorted = ((refl, tt), (tt, tt))

small : length (write_table buffer.map).file < le_limit 8
unfolding write_table with_block_size add add_all finish flush_block encode_entry encode_index
    footer length_prefixed le32 le_bytes Sstable.new
small = omega (arith, bytes)
  where
    bytes : length (write_table buffer.map).file ≡ 60
    bytes = refl

buffer-CanFlush : CanFlush memtable IsSorted (engine_with buffer [])
unfolding Manifest.new Btree.drain_sorted
buffer-CanFlush = record {
  valid = buffer-IsSorted;
  first_level = [];
  other_levels = [] ∷ ([] ∷ ([] ∷ []));
  levels_eq = refl;
  older = (tt, (tt, (tt, (tt, tt))));
  fits = (omega arith, omega arith, (omega arith, omega arith, tt));
  small = small;
}

get-flush_memtable_example :
    (e' : LsmEngine BTreeMemtable) × EndsIn (flush_memtable memtable (engine_with buffer [])) e'
    × ((key : Bytes) → Btree.get e'.memtable key ≡ none)
    × ((key : Bytes) → get memtable e' key ≡ get memtable (engine_with buffer []) key)
get-flush_memtable_example =
    get-flush_memtable memtable IsSorted memtable-IsMemtable (engine_with buffer []) buffer-CanFlush

-- The value of "b" put into an engine with "a".
abbrev first_buffer : BTreeMemtable
first_buffer = record { map = (97 ∷ [], 49 ∷ []) ∷ []; byte_count = 2 }

abbrev both : List Entry
both = (97 ∷ [], 49 ∷ []) ∷ ((98 ∷ [], 50 ∷ []) ∷ [])

small_both : length (write_table both).file < le_limit 8
unfolding write_table with_block_size add add_all finish flush_block encode_entry encode_index
    footer length_prefixed le32 le_bytes Sstable.new
small_both = omega (arith, bytes)
  where
    bytes : length (write_table both).file ≡ 61
    bytes = refl

written-CanFlush : CanFlush memtable IsSorted (
    written memtable IsSorted memtable-IsMemtable (engine_with first_buffer []) (98 ∷ []) (50 ∷ []))
unfolding Manifest.new Btree.drain_sorted Btree.insert insert_sorted ltb_bytes
written-CanFlush = record {
  valid = ((refl, tt), (tt, tt));
  first_level = [];
  other_levels = [] ∷ ([] ∷ ([] ∷ []));
  levels_eq = refl;
  older = (tt, (tt, (tt, (tt, tt))));
  fits = (omega arith, omega arith, (omega arith, omega arith, tt));
  small = small_both;
}

get-put_example :
    (e' : LsmEngine BTreeMemtable) × EndsIn
      (put memtable (engine_with first_buffer []) (98 ∷ []) (50 ∷ []))
      e'
    × ((j : Bytes)
        → get memtable e' j ≡ (
            if eq_bytes (98 ∷ []) j
            then ok (visible (some (50 ∷ [])))
            else get memtable (engine_with first_buffer []) j))
get-put_example =
    get-put memtable IsSorted memtable-IsMemtable (engine_with first_buffer []) (98 ∷ []) (50 ∷ [])
      (tt, tt) written-CanFlush

get-delete_example :
    get memtable (delete memtable (engine_with first_buffer []) (97 ∷ [])) (97 ∷ []) ≡ (
      if eq_bytes (97 ∷ []) (97 ∷ [])
      then ok none
      else get memtable (engine_with first_buffer []) (97 ∷ []))
get-delete_example =
    get-delete memtable IsSorted memtable-IsMemtable (engine_with first_buffer []) (97 ∷ [])
      (97 ∷ []) (tt, tt)

abbrev log : List WalRecord
log = Wal.put (97 ∷ []) (49 ∷ []) ∷ (Wal.delete (97 ∷ []) ∷ [])

new-IsSorted : IsSorted Btree.new
unfolding Btree.new
new-IsSorted = tt

same_keys : ltb_bytes (98 ∷ []) (98 ∷ []) ≡ false
unfolding ltb_bytes
same_keys = refl

get-open_engine_example :
    (e : LsmEngine BTreeMemtable) × (open_engine memtable Btree.new (write_all [] log) (λ p. none) 4
      ≡ ok e)
    × (e.wal ≡ write_all [] log)
    × (e.manifest ≡ Manifest.new num_levels)
    × ((key : Bytes) → Btree.get e.memtable key ≡ latest key log (Btree.get Btree.new key))
get-open_engine_example =
    get-open_engine memtable IsSorted memtable-IsMemtable log Btree.new (λ p. none) 4
      ((omega arith, omega arith), (omega arith, tt)) new-IsSorted

ingest_sorted-unsorted_example :
    ingest_sorted memtable
      (engine_with buffer [])
      ((97 ∷ [], []) ∷ ((98 ∷ [], []) ∷ ((98 ∷ [], 49 ∷ []) ∷ [])))
    ≡ err corruption
ingest_sorted-unsorted_example =
    ingest_sorted-unsorted memtable (engine_with buffer []) ((97 ∷ [], []) ∷ []) [] (98 ∷ [], [])
      (98 ∷ [], 49 ∷ []) same_keys
