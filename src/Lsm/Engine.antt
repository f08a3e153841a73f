-- ===== src/Lsm/Engine.antt =====
-- scry-lsm/src/engine.rs: the engine, with one thread. After an error its state is not followed.
pub mod Search
pub mod Room
pub mod Flush
pub mod Writes
pub mod Reopen
pub mod Ingest
use scry_index.Prelude.{
  ℕ, zero, suc, ◌+◌, ◌*◌, Bool, true, false, ◌||◌, Option, none, some, List, [], ◌∷◌, ◌++◌, length,
  if◌then◌else◌, leb, ◌==◌,
}
use scry_index.Key.Ordinal.{ltb_bytes}
use scry_index.Lsm.Bytes.{Bytes}
use scry_index.Lsm.Error.{Error, corruption, io, Result, ok, err, ◌>>=◌, from_io}
use scry_index.Lsm.Wal.{WalRecord, Recovered, recover_loop, append_put, append_delete, truncate}
use scry_index.Lsm.Wal
use scry_index.Lsm.Sstable
use scry_index.Lsm.Sstable.{Entry, SsTableWriter, Table, add_all, finish}
use scry_index.Lsm.Sstable.Reader
use scry_index.Lsm.Manifest
use scry_index.Lsm.Manifest.{Manifest, SsTableMeta, SstPath}
use scry_index.Lsm.Files.{Files, open_path, write_file, remove_file}
use scry_index.Lsm.Compaction.{maybe_compact, is_empty}
use scry_index.Lsm.Memtable.{Memtable}

abbrev pub default_flush_threshold : ℕ
default_flush_threshold = 4 * 1024 * 1024

abbrev pub num_levels : ℕ
num_levels = 4

-- `wal` is the file of the log; `files` are those of the tables.
pub record LsmEngine (M : Type 0) : Type 0 where
  pub memtable : M
  pub wal : Bytes
  pub manifest : Manifest
  pub files : Files
  pub flush_threshold : ℕ

-- a value that is empty is a tombstone
abbrev pub visible : Option Bytes → Option Bytes
visible none = none
visible (some value) = if is_empty value then none else some value

abbrev pub reverse : List SsTableMeta → List SsTableMeta
reverse [] = []
reverse (t ∷ tables) = reverse tables ++ t ∷ []

abbrev pub or_else : Result (Option Bytes) → Option Bytes → Result (Option Bytes)
or_else later none = later
or_else later (some value) = ok (some value)

-- The tables of a level, the last one first; the value of the first one that has the key.
unfoldable pub search_tables : Files → Bytes → List SsTableMeta → Result (Option Bytes)
search_tables files key [] = ok none
search_tables files key (t ∷ tables) =
    let rest = search_tables files key tables in
    if ltb_bytes key t.min_key || ltb_bytes t.max_key key
    then rest
    else (from_io (open_path files t.path) >>= λ reader.
        from_io (Reader.get reader key) >>= or_else rest)

unfoldable pub search_levels : Files → Bytes → List (List SsTableMeta) → Result (Option Bytes)
search_levels files key [] = ok none
search_levels files key (tables ∷ levels) =
    search_tables files key (reverse tables) >>= or_else (search_levels files key levels)

abbrev pub meta_of : ℕ → SstPath → Table → SsTableMeta
meta_of id path t = record {
  id = id;
  level = 0;
  path = path;
  entry_count = t.entry_count;
  min_key = t.min_key;
  max_key = t.max_key;
}

-- `SsTableWriter::new`, an `add` for each entry, and `finish`
unfoldable pub write_table : List Entry → Table
write_table entries = finish (add_all Sstable.new entries)

-- the loop of `ingest_sorted`: a writer, or the error at the first key that is not above the one
-- before
unfoldable pub add_sorted : SsTableWriter → Option Bytes → List Entry → Result SsTableWriter
add_sorted w prev_key [] = ok w
add_sorted w none ((key, value) ∷ es) = add_sorted (Sstable.add w key value) (some key) es
add_sorted w (some prev) ((key, value) ∷ es) =
    let rest = add_sorted (Sstable.add w key value) (some key) es in
    if ltb_bytes prev key then rest else err corruption

module _ {M : Type 0} where
  -- what `maybe_compact` changes
  abbrev pub compact : LsmEngine M → Result (LsmEngine M)
  compact e = from_io (maybe_compact e.files e.manifest) >>= λ r.
      ok (record e { files = r.0; manifest = r.1 })

  -- the table of the entries that were drained
  abbrev pub flush_entries :
      LsmEngine M → M → List Entry → ℕ → SstPath → Manifest → Table → Result (LsmEngine M)
  flush_entries e memtable entries id path manifest t =
      if length entries == 0
      then ok (record e { memtable = memtable })
      else compact (record e {
        memtable = memtable;
        wal = truncate e.wal;
        manifest = Manifest.add manifest (meta_of id path t);
        files = write_file e.files path t.file;
      })

  abbrev pub install_sorted : LsmEngine M → ℕ → SstPath → Table → Result (LsmEngine M)
  install_sorted e id path t =
      if t.entry_count == 0
      then ok (record e { files = remove_file e.files path })
      else compact (record e {
        manifest = Manifest.add e.manifest (meta_of id path t);
        files = write_file e.files path t.file;
      })

module _ {M : Type 0} (ops : Memtable M) where
  unfoldable pub replay : M → List WalRecord → M
  replay m [] = m
  replay m (Wal.put key value ∷ records) = replay (ops.insert m key value) records
  replay m (Wal.delete key ∷ records) = replay (ops.delete m key) records

  -- `open`, with the file of the log and the memtable that it is given
  unfoldable pub open_engine : M → Bytes → Files → ℕ → Result (LsmEngine M)
  open_engine m wal files flush_threshold = elim (recover_loop (suc (length wal)) wal) [
    | Wal.ok records ↦ ok (record {
      memtable = replay m records;
      wal = wal;
      manifest = Manifest.new num_levels;
      files = files;
      flush_threshold = flush_threshold;
    })
    | Wal.corruption unknown ↦ err corruption
    | Wal.unfinished ↦ err (io Reader.out_of_fuel)
  ]

  unfoldable pub get : LsmEngine M → Bytes → Result (Option Bytes)
  get e key = elim (ops.get e.memtable key) [
    | some value ↦ ok (visible (some value))
    | none ↦ search_levels e.files key e.manifest.levels >>= λ found. ok (visible found)
  ]

  unfoldable pub flush_memtable : LsmEngine M → Result (LsmEngine M)
  flush_memtable e =
      let (entries, memtable) = ops.drain_sorted e.memtable in
      let (id, path, manifest) = Manifest.next_sstable_path e.manifest 0 in
      flush_entries e memtable entries id path manifest (write_table entries)

  unfoldable pub maybe_flush : LsmEngine M → Result (LsmEngine M)
  maybe_flush e =
      if leb e.flush_threshold (ops.approximate_bytes e.memtable) then flush_memtable e else ok e

  unfoldable pub put : LsmEngine M → Bytes → Bytes → Result (LsmEngine M)
  put e key value =
      maybe_flush
        (record e { wal = append_put e.wal key value; memtable = ops.insert e.memtable key value })

  unfoldable pub delete : LsmEngine M → Bytes → LsmEngine M
  delete e key = record e { wal = append_delete e.wal key; memtable = ops.delete e.memtable key }

  -- with the number of the entries
  unfoldable pub ingest_iter : LsmEngine M → ℕ → List Entry → Result (LsmEngine M × ℕ)
  ingest_iter e count [] = ok (e, count)
  ingest_iter e count ((key, value) ∷ es) = put e key value >>= λ e'. ingest_iter e' (count + 1) es

  unfoldable pub ingest_sorted : LsmEngine M → List Entry → Result (LsmEngine M × ℕ)
  ingest_sorted e es =
      let (id, path, manifest) = Manifest.next_sstable_path e.manifest 0 in
      add_sorted Sstable.new none es >>= λ w.
      install_sorted (record e { manifest = manifest }) id path (finish w) >>= λ e'.
      ok (e', (finish w).entry_count)
