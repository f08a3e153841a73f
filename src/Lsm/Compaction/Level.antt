-- ===== src/Lsm/Compaction/Level.antt =====
-- The compaction of a level, from the files of its tables.
use scry_index.Prelude.{
  ℕ, ◌+◌, ◌-◌, ◌<◌, false, none, some, List, [], ◌∷◌, length, leb, ◌==◌, ◌≡◌, refl, ◌∙◌, arith,
}
use scry_index.Lsm.Bytes.{Bytes, le_limit}
use scry_index.Lsm.Sstable
use scry_index.Lsm.Sstable.{Entry, Table, finish, add_all}
use scry_index.Lsm.Sstable.Reader.{IoResult, ok, err, ◌>>=◌, SsTableScan, SsTableReader, scan}
use scry_index.Lsm.Sstable.Blocks.{index_of}
use scry_index.Lsm.Sstable.Parse.{AllFit}
use scry_index.Lsm.Sstable.RoundTrip.{Finished, Finished-length, open_table-Finished}
use scry_index.Lsm.Sstable.Streams.{scan-Streams}
use scry_index.Lsm.Sstable.Sorted.{lookup, IsAscending}
use scry_index.Lsm.Manifest
use scry_index.Lsm.Manifest.{Manifest, SsTableMeta, SstPath}
use scry_index.Lsm.Files.{Files, open_path}
use scry_index.Lsm.Compaction.{
  seed, merge_loop, open_scans, rounds, remove_files, ids_of, install, compact_level,
}
use scry_index.Lsm.Compaction.Pick.{Rows, first_value, AllAscending}
use scry_index.Lsm.Compaction.Rows.{total}
use scry_index.Lsm.Compaction.Rounds.{kept, not_empty}
use scry_index.Lsm.Compaction.Oldest.{AllStream, merge_loop-seed}

-- A file holds a table that was written whole, from these entries in the order of their keys.
pub record IsStored (files : Files) (path : SstPath) (es : List Entry) : Type 0 where
  pub table : Table
  pub finished : Finished table es
  pub present : files path ≡ some table.file
  pub fits : AllFit es
  pub ascending : IsAscending es
  pub small : length table.file < le_limit 8

abbrev pub AllStored : Files → List SsTableMeta → Rows → Type 0
AllStored files [] [] = Unit {0}
AllStored files [] (es ∷ rows) = ⊥
AllStored files (t ∷ tables) [] = ⊥
AllStored files (t ∷ tables) (es ∷ rows) = IsStored files t.path es × AllStored files tables rows

abbrev pub reader_of :
    {files : Files} {path : SstPath} {es : List Entry} → IsStored files path es → SsTableReader
reader_of {es = es} s = record {
  file = s.table.file;
  index = index_of 0 s.finished.blocks;
  entry_count = length es;
}

pub open_path-IsStored :
    (files : Files) (path : SstPath) (es : List Entry) (s : IsStored files path es)
    → open_path files path ≡ ok (reader_of s)
unfolding open_path
open_path-IsStored files path es s =
    rw (open_path, s.present) (open_table-Finished s.table es s.finished s.fits s.small)

AllStored-AllAscending :
    (files : Files) (tables : List SsTableMeta) (rows : Rows)
    → AllStored files tables rows
    → AllAscending rows
AllStored-AllAscending files [] [] h = tt
AllStored-AllAscending files [] (es ∷ rows) h = absurd h
AllStored-AllAscending files (t ∷ tables) [] h = absurd h
AllStored-AllAscending files (t ∷ tables) (es ∷ rows) h =
    (h.0.ascending, AllStored-AllAscending files tables rows h.1)

open_scans_lem :
    (files : Files) (tables : List SsTableMeta) (rows : Rows)
    → AllStored files tables rows
    → (scans : List SsTableScan) × (open_scans files tables ≡ ok scans)
      × AllStream scans rows
      × (total rows < rounds scans)
unfolding open_scans rounds
open_scans_lem files [] [] h = ([], refl, tt, omega arith)
open_scans_lem files [] (es ∷ rows) h = absurd h
open_scans_lem files (t ∷ tables) [] h = absurd h
open_scans_lem files (t ∷ tables) (es ∷ rows) h =
    let (scans, opened, streams, enough) = open_scans_lem files tables rows h.1 in
    (
      scan (reader_of h.0) ∷ scans,
      rw (open_path-IsStored files t.path es h.0, opened) refl,
      (scan-Streams h.0.table es h.0.finished h.0.fits, streams),
      unfold scan in omega (arith, enough, Finished-length h.0.table es h.0.finished),
    )

bind-ok :
    {A B C : Type 0} (x : IoResult A) (f : A → IoResult B) (g : B → IoResult C) (b : B)
    → (x >>= f) ≡ ok b
    → (x >>= λ a. f a >>= g) ≡ g b
bind-ok (ok a) f g b h = rw h refl
bind-ok (err e) f g b h = absurd (cc)

-- Where the tables of a level that has some were written whole, each from entries in the order of
-- their keys, compaction succeeds and installs one table in place of them, whose entries are in the
-- order of their keys. For each key it has the value of the first table of the level that has the
-- key, which is the oldest, less the empty values where the next level is the last one. Where
-- nothing is left, no table is registered.
pub compact_level-oldest :
    (files : Files) (manifest : Manifest) (level : ℕ) (rows : Rows)
    → 0 < length (Manifest.level manifest level)
    → AllStored files (Manifest.level manifest level) rows
    → (out : List Entry) × (compact_level files manifest level
        ≡ ok (
            install
              (remove_files files (Manifest.level manifest level))
              (Manifest.remove
                (Manifest.next_sstable_path manifest (level + 1)).2
                level
                (ids_of (Manifest.level manifest level)))
              (level + 1)
              (Manifest.next_sstable_path manifest (level + 1)).0
              (Manifest.next_sstable_path manifest (level + 1)).1
              (not_empty out)
              (finish (add_all Sstable.new out))))
      × IsAscending out
      × ((key : Bytes)
          → lookup key out
            ≡ kept (leb (Manifest.num_levels manifest - 1) (level + 1)) (first_value key rows))
unfolding compact_level
compact_level-oldest files manifest level rows nonempty stored =
    let tables = Manifest.level manifest level in
    let is_highest = leb (Manifest.num_levels manifest - 1) (level + 1) in
    let test : (length tables == 0) ≡ false = ground arith in
    let (scans, opened, streams, enough) = open_scans_lem files tables rows stored in
    let (m', out, run, writer, wrote, asc, values) =
      merge_loop-seed (rounds scans) is_highest rows scans Sstable.new enough
        (AllStored-AllAscending files tables rows stored) streams in
    (
      out,
      rw (compact_level, test, opened)
          (bind-ok (seed 0 scans)
              (λ r.
                merge_loop (rounds scans) is_highest r.0 r.1
                  (record { writer = Sstable.new; last_key = none; wrote_any = false }))
              (λ m. ok (
                install (remove_files files tables)
                  (Manifest.remove (Manifest.next_sstable_path manifest (level + 1)).2 level
                    (ids_of tables))
                  (level + 1) (Manifest.next_sstable_path manifest (level + 1)).0
                  (Manifest.next_sstable_path manifest (level + 1)).1 m.wrote_any
                  (finish m.writer)))
              m' run
            ∙ rw (writer, wrote) refl),
      asc,
      values,
    )
