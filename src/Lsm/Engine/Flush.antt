-- ===== src/Lsm/Engine/Flush.antt =====
-- A flush moves the entries of the memtable to a table; what compaction does then is apart.
use scry_index.Prelude.{
  ◌+◌, ◌<◌, true, false, ◌==◌, none, some, List, [], ◌∷◌, ◌++◌, length, ◌≡◌, refl, sym, ap, ◌∙◌,
  arith, Option-cases, inl, inr,
}
use mathlib.Core.Path.{subst}
use scry_index.Lsm.Bytes.{Bytes, le_limit}
use scry_index.Lsm.Error.{ok, ◌>>=◌}
use scry_index.Lsm.Wal.{truncate}
use scry_index.Lsm.Sstable
use scry_index.Lsm.Sstable.{Entry, add_all, finish, Table}
use scry_index.Lsm.Sstable.Parse.{AllFit}
use scry_index.Lsm.Sstable.RoundTrip.{add_all-Finished}
use scry_index.Lsm.Sstable.KeyRange.{finish-KeyRange}
use scry_index.Lsm.Sstable.Sorted.{lookup, IsAscending, last_key}
use scry_index.Lsm.Manifest
use scry_index.Lsm.Manifest.{Manifest, SsTableMeta, SstPath}
use scry_index.Lsm.Files.{Files, write_file, same_path}
use scry_index.Lsm.Compaction.Level.{IsStored}
use scry_index.Lsm.Memtable.{Memtable, IsMemtable}
use scry_index.Lsm.Engine.{
  LsmEngine, write_table, flush_entries, visible, meta_of, search_levels, get, flush_memtable,
  compact,
}
use scry_index.Lsm.Engine.Search.{LevelsOlder, search_levels-add}
use scry_index.Lsm.Engine.Room.{EndsIn, compact-EndsIn, add-first}

-- What `flush_memtable` needs: a memtable in order, a first level, older ids in the files, and
-- entries and a table that are not too large.
pub record CanFlush {M : Type 0} (ops : Memtable M) (Valid : M → Type 0) (e : LsmEngine M)
    : Type 0 where
  pub valid : Valid e.memtable
  pub first_level : List SsTableMeta
  pub other_levels : List (List SsTableMeta)
  pub levels_eq : e.manifest.levels ≡ first_level ∷ other_levels
  pub older : LevelsOlder e.manifest.next_id e.manifest.levels
  pub fits : AllFit (ops.drain_sorted e.memtable).0
  pub small : length (write_table (ops.drain_sorted e.memtable).0).file < le_limit 8

abbrev path_of : {M : Type 0} → LsmEngine M → SstPath
path_of e = record { path_level = 0; path_id = e.manifest.next_id }

-- the engine with one more table
abbrev flushed :
    {M : Type 0}
    → LsmEngine M
    → M
    → Table
    → List SsTableMeta
    → List (List SsTableMeta)
    → LsmEngine M
flushed e memtable t first others = record e {
  memtable = memtable;
  wal = [];
  manifest = record {
    levels = (first ++ meta_of e.manifest.next_id (path_of e) t ∷ []) ∷ others;
    next_id = e.manifest.next_id + 1;
  };
  files = write_file e.files (path_of e) t.file;
}

flush_entries-some :
    {M : Type 0} (e : LsmEngine M) (memtable : M) (entries : List Entry) (t : Table)
    (first : List SsTableMeta) (others : List (List SsTableMeta))
    → e.manifest.levels ≡ first ∷ others
    → (length entries == 0) ≡ false
    → flush_entries e memtable entries e.manifest.next_id
        (path_of e)
        (record e.manifest { next_id = e.manifest.next_id + 1 })
        t
      ≡ compact (flushed e memtable t first others)
unfolding truncate
flush_entries-some e memtable entries t first others levels n =
    let added = add-first first others (e.manifest.next_id + 1) e.manifest.next_id (path_of e) t in
    rw (n, levels, added) refl

write_file-same :
    (files : Files) (path : SstPath) (bytes : Bytes) → write_file files path bytes path ≡ some bytes
unfolding write_file
write_file-same files path bytes =
    let same : same_path path path ≡ true = ground arith in rw same refl

pub write_table-IsStored :
    (files : Files) (path : SstPath) (es : List Entry)
    → AllFit es
    → IsAscending es
    → length (write_table es).file < le_limit 8
    → IsStored (write_file files path (write_table es).file) path es
write_table-IsStored files path es fits asc small = record {
  table = write_table es;
  finished = unfold write_table Sstable.new in add_all-Finished Sstable.default_block_size es;
  present = write_file-same files path (write_table es).file;
  fits = fits;
  ascending = asc;
  small = small;
}

write_table-KeyRange :
    (k v : Bytes) (es : List Entry)
    → ((write_table ((k, v) ∷ es)).min_key ≡ k)
      × ((write_table ((k, v) ∷ es)).max_key ≡ last_key k es)
unfolding write_table
write_table-KeyRange k v es = finish-KeyRange k v es

module _ {M : Type 0} (ops : Memtable M) where
  pub get-found :
      (e : LsmEngine M) (key value : Bytes)
      → ops.get e.memtable key ≡ some value
      → get ops e key ≡ ok (visible (some value))
  unfolding get
  get-found e key value h = rw (get, h) refl

  pub get-absent :
      (e : LsmEngine M) (key : Bytes)
      → ops.get e.memtable key ≡ none
      → get ops e key
        ≡ (search_levels e.files key e.manifest.levels >>= λ found. ok (visible found))
  unfolding get
  get-absent e key h = rw (get, h) refl

  -- a lookup once the entries of the memtable are in a table
  get-flushed :
      (e : LsmEngine M) (memtable : M) (k v key : Bytes) (es : List Entry)
      (first : List SsTableMeta) (others : List (List SsTableMeta))
      → e.manifest.levels ≡ first ∷ others
      → LevelsOlder e.manifest.next_id e.manifest.levels
      → IsStored
          (write_file e.files (path_of e) (write_table ((k, v) ∷ es)).file)
          (path_of e)
          ((k, v) ∷ es)
      → lookup key ((k, v) ∷ es) ≡ ops.get e.memtable key
      → ops.get memtable key ≡ none
      → get ops (flushed e memtable (write_table ((k, v) ∷ es)) first others) key ≡ get ops e key
  get-flushed e memtable k v key es first others levels older stored found empty =
      let t = write_table ((k, v) ∷ es) in
      let bounds = write_table-KeyRange k v es in
      let older' = subst (LevelsOlder e.manifest.next_id) levels older in
      get-absent (flushed e memtable t first others) key empty
      ∙ ap (λ x. x >>= λ found. ok (visible found))
          (search_levels-add e.files t.file key k v es (meta_of e.manifest.next_id (path_of e) t)
            first others stored bounds.0 bounds.1 older')
      ∙ elim (Option-cases (ops.get e.memtable key)) [
        | inl n ↦
            rw (found, n, sym (ap (search_levels e.files key) levels)) (sym (get-absent e key n))
        | inr (value, n) ↦ rw (found, n) (sym (get-found e key value n))
      ]

  get-drained :
      (e : LsmEngine M) (memtable : M) (key : Bytes)
      → ops.get memtable key ≡ none
      → ops.get e.memtable key ≡ none
      → get ops (record e { memtable = memtable }) key ≡ get ops e key
  get-drained e memtable key h g =
      get-absent (record e { memtable = memtable }) key h ∙ sym (get-absent e key g)

  -- Both cases, for the entries that were drained.
  flush_entries-get :
      (e : LsmEngine M) (memtable : M) (entries : List Entry) (first : List SsTableMeta)
      (others : List (List SsTableMeta))
      → e.manifest.levels ≡ first ∷ others
      → LevelsOlder e.manifest.next_id e.manifest.levels
      → AllFit entries
      → IsAscending entries
      → length (write_table entries).file < le_limit 8
      → ((j : Bytes) → lookup j entries ≡ ops.get e.memtable j)
      → ((j : Bytes) → ops.get memtable j ≡ none)
      → (e' : LsmEngine M) × EndsIn
          (flush_entries e memtable entries e.manifest.next_id
            (path_of e)
            (record e.manifest { next_id = e.manifest.next_id + 1 })
            (write_table entries))
          e'
        × (e'.memtable ≡ memtable)
        × ((key : Bytes) → get ops e' key ≡ get ops e key)
  flush_entries-get e memtable [] first others levels older fits asc small found empty = (
    record e { memtable = memtable },
    inl refl,
    refl,
    λ key. get-drained e memtable key (empty key) (sym (found key) ∙ unfold lookup in refl),
  )
  flush_entries-get e memtable ((k, v) ∷ es) first others levels older fits asc small found empty =
      (
        flushed e memtable (write_table ((k, v) ∷ es)) first others,
        subst (λ r. EndsIn r (flushed e memtable (write_table ((k, v) ∷ es)) first others))
            (sym (
              flush_entries-some e memtable ((k, v) ∷ es) (write_table ((k, v) ∷ es)) first others
                levels (ground arith)))
            (compact-EndsIn (flushed e memtable (write_table ((k, v) ∷ es)) first others)),
        refl,
        λ key.
            get-flushed e memtable k v key es first others levels older
              (write_table-IsStored e.files (path_of e) ((k, v) ∷ es) fits asc small) (found key)
              (empty key),
      )

  -- Where the memtable is in order, the manifest has a level and only ids below the next one, and
  -- the entries and the table are not too large for the lengths in the file, a flush leads to an
  -- engine whose memtable holds no key and in which every lookup gives what it gave before. The
  -- flush ends in that engine, or, only where one of its levels is full, in what compaction makes
  -- of it; the lookups after that compaction are not part of the statement.
  pub get-flush_memtable :
      (Valid : M → Type 0)
      → IsMemtable M ops Valid
      → (e : LsmEngine M) → CanFlush ops Valid e
      → (e' : LsmEngine M) × EndsIn (flush_memtable ops e) e'
        × ((key : Bytes) → ops.get e'.memtable key ≡ none)
        × ((key : Bytes) → get ops e' key ≡ get ops e key)
  unfolding flush_memtable Manifest.next_sstable_path
  get-flush_memtable Valid laws e c =
      let entries = (ops.drain_sorted e.memtable).0 in
      let empty = λ (j : Bytes). laws.get-drain_sorted e.memtable j c.valid in
      let (e', run, memtable, gets) =
        flush_entries-get e (ops.drain_sorted e.memtable).1 entries c.first_level c.other_levels
          c.levels_eq c.older c.fits (laws.drain_sorted-IsAscending e.memtable c.valid) c.small
          (λ j. laws.lookup-drain_sorted e.memtable j c.valid) empty in
      (e', run, λ key. ap (λ m. ops.get m key) memtable ∙ empty key, gets)
