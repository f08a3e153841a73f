-- ===== src/Lib.antt =====
-- scry-index: a sorted map over a tree of linear models, and the storage engine scry-lsm.
--
-- A map (src/map.rs) holds a root node and a length. A node (src/node.rs) has a linear model that
-- predicts the slot of a key, and an array of slots: empty, being written, an inline entry, a child
-- node, a child node over an entry that it replaced, or a tombstone. A lookup follows the predicted
-- slots down the tree; an insertion fills an empty slot or hangs a child under an occupied one; a
-- removal leaves a tombstone. Bulk loading fits a model to sorted keys, and rebuilds flatten subtrees
-- that grew too deep. The storage engine (scry-lsm) writes each change to a log, applies it to a
-- memtable, and flushes a full memtable to a sorted table on disk. The manifest knows the tables of
-- each level; compaction merges the tables of a level into one of the next level.
--
-- Which file models which part:
--   Key      src/key.rs: the trait; `f64` is a parameter with the operations that the code uses;
--            `Ordinal` has the ordinals of byte keys, `Lexicographic` their order
--   Model    src/model.rs: LinearModel and its prediction
--   Fmcd     src/model.rs: fit_fmcd; `Bounds` on the conflicts that it reports
--   Node     src/node.rs; `Count` has total_keys, max_depth and allocated_bytes, `Laws` the slots after
--            a write, `Ready` the invariant between two calls, `Totals` the keys; `Protocol` the atomic
--            steps of threads on one slot, with `Invariant` and `Interleave` on every interleaving
--   Lookup   src/lookup.rs
--   Config   src/config.rs
--   Insert   src/insert.rs: the loop of insert and the conflict nodes; `Store`, `Conflict` and `Law` on
--            lookups afterwards, `Result` on the answer, `Total` and `Ready` on termination and shape,
--            `Pair` and `Count` on the number of keys, `Apart` and `Depth` on the depth; `Get` has
--            get_or_insert, and `GetLaw` is on it
--   Remove   src/remove.rs: the loop of remove; `Law`, `Total` and `Count` as above
--   Iter     src/iter.rs: Iter, first_entry and last_entry; `Entries` the recursive walk, `Walk` that the
--            iterator follows it
--   Build    src/build.rs and src/error.rs; `Sorted` on sorted pairs, `Halves` and
--            `Degenerate` on build_degenerate
--   Rebuild  src/rebuild.rs, and insert and remove with the rebuild at their end
--   Map      src/map.rs; `Dedup` on the filter of bulk_load_dedup, `Laws`, `Count`, `GetOrInsert` and
--            `Extend` on the operations
--   Lsm.Wal  scry-lsm/src/wal.rs over the bytes of `Lsm.Bytes`; `Recovery` on a log cut at any byte
--   Lsm.Sstable     scry-lsm/src/sstable: the format and the writer; `Reader` the reader; `Blocks`,
--                   `Parse` and `RoundTrip` on the blocks, the index and the whole file; `Sorted`,
--                   `FindBlock` and `Lookup` on point lookups, `Streams` on scans, `KeyRange` on the
--                   bounds of the keys
--   Lsm.Manifest    scry-lsm/src/manifest.rs; `Lsm.Files` the files of the tables by their names
--   Lsm.Compaction  scry-lsm/src/compaction.rs; `Pick` on the heap, `Rows` and `Rounds` on one round of
--                   the merge, `Oldest` on the loop, `Level` on compact_level
--   Lsm.Memtable    scry-lsm/src/memtable/mod.rs, the trait with its laws; `Btree` btree.rs
--   Lsm.Engine      scry-lsm/src/engine.rs and error.rs; `Search`, `Room`, `Flush`, `Writes`,
--                   `Reopen` and `Ingest` on its operations
--   Tests    a small instance of the parameters, and runs at concrete inputs
--
-- How state and operations correspond: outside `Protocol`, a node is a value, and an operation that
-- writes through a shared pointer returns the new node. A call runs alone, so a compare-and-swap
-- fails only on the state of the slot, a frozen pointer is never seen, and the checks against a
-- snapshot succeed. The arithmetic of `f64` has no laws here; a theorem that needs some has them as
-- a hypothesis. In `Separates` of Insert/Total.antt rounding respects the positions halfway between
-- four slots, the line between two inputs that differ crosses one of them, and the ordinals of two
-- keys with negligibly different inputs have a difference that an i128 holds. It fails for inputs
-- whose difference overflows, as between -1e308 and 1e308, and for key types whose inputs lie
-- within EPSILON where their ordinals lie 2 ^ 127 or more apart; the midpoint of two such ordinals
-- overflows in the source as well. A key has the laws of `Ord` and `Eq`, and a weakly monotonic
-- ordinal within an i128. The midpoint of two ordinals (`midpoint_i128`) wraps as in a release
-- build; a debug build panics there instead.
-- `sort_unstable_by_key` is a parameter.
--
-- Fuel: the loops of insert and remove take one unit for each node on the path, and one for a slot
-- that is being written; the depth of the tree and one more is enough. The iterator takes one unit for
-- each slot and each node (`rounds`). Recovery takes one for each record, at most the length of the
-- log. Counters of type `usize` wrap at 2 ^ 64.
--
-- The storage engine: a file is the list of its bytes, a writer's buffer is part of it, and writes
-- succeed. The binary heap of a merge is the list of its entries by source. The ordered map of the
-- standard library is the list of its entries in key order. Locks succeed, since there is one thread,
-- and after an error the state is not followed. The loops over bytes take one unit of fuel for each
-- byte, and a merge one for each byte of its files; ids and offsets are without bounds.
--
-- Not modelled: Range, the handles MapRef and LearnedSet, serde, Drop and the epochs of the memory
-- reclamation; the interleavings of threads beyond the steps on one slot; the casts of integer keys;
-- of scry-lsm the memtables over the learned map and over the third-party skip list, and
-- ingest_reader, which splits text. Tests, benches, fuzz targets and examples only call the library.
pub mod Prelude
pub mod Key
pub mod Model
pub mod Fmcd
pub mod Node
pub mod Lookup
pub mod Config
pub mod Insert
pub mod Remove
pub mod Iter
pub mod Build
pub mod Rebuild
pub mod Map
pub mod Lsm
mod Tests
