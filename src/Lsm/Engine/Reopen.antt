-- ===== src/Lsm/Engine/Reopen.antt =====
-- The memtable of an engine that is opened on a log.
use scry_index.Prelude.{
  ℕ, suc, Option, some, List, [], ◌∷◌, if◌then◌else◌, length, ◌≡◌, refl, ap, ◌∙◌, arith,
}
use scry_index.Key.Lexicographic.{eq_bytes}
use scry_index.Lsm.Bytes.{Bytes}
use scry_index.Lsm.Error.{ok}
use scry_index.Lsm.Wal
use scry_index.Lsm.Wal.{WalRecord, recover_loop}
use scry_index.Lsm.Wal.Recovery.{write_all, AllWritable, recover_loop-write_all}
use scry_index.Lsm.Files.{Files}
use scry_index.Lsm.Memtable.{Memtable, IsMemtable}
use scry_index.Lsm.Engine.{LsmEngine, replay, open_engine, num_levels}
use scry_index.Lsm.Manifest

-- what the last record of a key says, over what was there before
unfoldable pub latest : Bytes → List WalRecord → Option Bytes → Option Bytes
latest key [] found = found
latest key (Wal.put k v ∷ records) found =
    latest key records (if eq_bytes k key then some v else found)
latest key (Wal.delete k ∷ records) found =
    latest key records (if eq_bytes k key then some [] else found)

module _ {M : Type 0} (ops : Memtable M) (Valid : M → Type 0) (laws : IsMemtable M ops Valid) where
  get-replay :
      (records : List WalRecord) (m : M) (key : Bytes)
      → Valid m
      → ops.get (replay ops m records) key ≡ latest key records (ops.get m key)
  unfolding replay latest
  get-replay [] m key h = refl
  get-replay (Wal.put k v ∷ records) m key h =
      get-replay records (ops.insert m k v) key (laws.insert-Valid m k v h)
      ∙ ap (latest key records) (laws.get-insert m k v key h)
  get-replay (Wal.delete k ∷ records) m key h =
      get-replay records (ops.delete m k) key (laws.delete-Valid m k h)
      ∙ ap (latest key records) (laws.get-delete m k key h)

  -- Opened on the log of any list of puts and deletions, with lengths below 2 ^ 32, the engine has
  -- the log as it was, no table, and a memtable in which each key has the value of its last record,
  -- the empty one after a deletion, or what the given memtable has.
  pub get-open_engine :
      (records : List WalRecord) (m : M) (files : Files) (flush_threshold : ℕ)
      → AllWritable records
      → Valid m
      → (e : LsmEngine M) × (open_engine ops m (write_all [] records) files flush_threshold ≡ ok e)
        × (e.wal ≡ write_all [] records)
        × (e.manifest ≡ Manifest.new num_levels)
        × ((key : Bytes) → ops.get e.memtable key ≡ latest key records (ops.get m key))
  unfolding open_engine
  get-open_engine records m files flush_threshold w h = (
    record {
      memtable = replay ops m records;
      wal = write_all [] records;
      manifest = Manifest.new num_levels;
      files = files;
      flush_threshold = flush_threshold;
    },
    rw
        (
          open_engine,
          recover_loop-write_all records (suc (length (write_all [] records))) w (omega arith),
        )
        refl,
    refl,
    refl,
    λ key. get-replay records m key h,
  )
