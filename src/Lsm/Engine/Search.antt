-- ===== src/Lsm/Engine/Search.antt =====
-- The search of the tables of the levels, and what it finds in a table that was just added.
use scry_index.Prelude.{
  ℕ, ◌<◌, false, ◌||◌, Option, none, some, List, [], ◌∷◌, ◌++◌, if◌then◌else◌, ◌≡◌, refl, sym, ◌∙◌,
  arith, Bool-cases, inl, inr,
}
use mathlib.Core.Path.{subst}
use scry_index.Key.Ordinal.{ltb_bytes}
use scry_index.Key.Lexicographic.{IsBelow}
use scry_index.Lsm.Bytes.{Bytes}
use scry_index.Lsm.Error.{Result, ◌>>=◌, from_io}
use scry_index.Lsm.Sstable.{Entry}
use scry_index.Lsm.Sstable.Reader
use scry_index.Lsm.Sstable.Lookup.{get-Finished}
use scry_index.Lsm.Sstable.Sorted.{lookup, lookup-below, last_key, lookup-after}
use scry_index.Lsm.Manifest.{SsTableMeta, SstPath}
use scry_index.Lsm.Files.{Files, open_path, write_file, same_path}
use scry_index.Lsm.Compaction.Level.{IsStored, open_path-IsStored}
use scry_index.Lsm.Engine.{reverse, or_else, search_tables, search_levels}

-- the reading of one table
abbrev read_table : Files → Bytes → SsTableMeta → Result (Option Bytes) → Result (Option Bytes)
read_table files key t rest =
    if ltb_bytes key t.min_key || ltb_bytes t.max_key key
    then rest
    else (from_io (open_path files t.path) >>= λ reader.
        from_io (Reader.get reader key) >>= or_else rest)

search_tables_step :
    (files : Files) (key : Bytes) (t : SsTableMeta) (tables : List SsTableMeta)
    → search_tables files key (t ∷ tables) ≡ read_table files key t (search_tables files key tables)
unfolding search_tables
search_tables_step files key t tables = refl

-- What is found in a table that holds given entries, between its two bounds.
pub search_tables-IsStored :
    (files : Files) (key k v : Bytes) (es : List Entry) (t : SsTableMeta)
    (tables : List SsTableMeta)
    → IsStored files t.path ((k, v) ∷ es)
    → t.min_key ≡ k
    → t.max_key ≡ last_key k es
    → search_tables files key (t ∷ tables)
      ≡ or_else (search_tables files key tables) (lookup key ((k, v) ∷ es))
search_tables-IsStored files key k v es t tables s low high =
    let rest = search_tables files key tables in
    search_tables_step files key t tables ∙ elim (Bool-cases (ltb_bytes key t.min_key)) [
      | inl l ↦ rw (l, lookup-below k v key es s.ascending (subst (IsBelow key) low l)) refl
      | inr n ↦ elim (Bool-cases (ltb_bytes t.max_key key)) [
        | inl l ↦
            rw (n, l, (lookup-after k v key es s.ascending (subst (λ x. IsBelow x key) high l)).0)
              refl
        | inr m ↦
            rw
              (
                n,
                m,
                open_path-IsStored files t.path ((k, v) ∷ es) s,
                get-Finished s.table ((k, v) ∷ es) s.finished key s.fits s.ascending,
              )
              refl
      ]
    ]

-- Every table of a list has a file with an id below a bound.
abbrev pub AllOlder : ℕ → List SsTableMeta → Type 0
AllOlder id [] = Unit {0}
AllOlder id (t ∷ tables) = (t.path.path_id < id) × AllOlder id tables

abbrev pub LevelsOlder : ℕ → List (List SsTableMeta) → Type 0
LevelsOlder id [] = Unit {0}
LevelsOlder id (tables ∷ levels) = AllOlder id tables × LevelsOlder id levels

open_path-write_file :
    (files : Files) (path q : SstPath) (bytes : Bytes)
    → q.path_id < path.path_id
    → open_path (write_file files path bytes) q ≡ open_path files q
unfolding open_path write_file
open_path-write_file files path q bytes h =
    let other : same_path path q ≡ false = ground arith in rw (open_path, other) refl

search_tables-write_file :
    (files : Files) (path : SstPath) (bytes key : Bytes) (tables : List SsTableMeta)
    → AllOlder path.path_id tables
    → search_tables (write_file files path bytes) key tables ≡ search_tables files key tables
search_tables-write_file files path bytes key [] h = unfold search_tables in refl
search_tables-write_file files path bytes key (t ∷ tables) h =
    search_tables_step (write_file files path bytes) key t tables
    ∙ rw
        (
          search_tables-write_file files path bytes key tables h.1,
          open_path-write_file files path t.path bytes h.0,
        )
        refl
    ∙ sym (search_tables_step files key t tables)

AllOlder-append :
    (xs ys : List SsTableMeta) (id : ℕ) → AllOlder id xs → AllOlder id ys → AllOlder id (xs ++ ys)
AllOlder-append [] ys id h g = g
AllOlder-append (t ∷ xs) ys id h g = (h.0, AllOlder-append xs ys id h.1 g)

reverse-AllOlder :
    (tables : List SsTableMeta) (id : ℕ) → AllOlder id tables → AllOlder id (reverse tables)
reverse-AllOlder [] id h = tt
reverse-AllOlder (t ∷ tables) id h =
    AllOlder-append (reverse tables) (t ∷ []) id (reverse-AllOlder tables id h.1) (h.0, tt)

pub reverse-snoc :
    (tables : List SsTableMeta) (t : SsTableMeta) → reverse (tables ++ t ∷ []) ≡ t ∷ reverse tables
reverse-snoc [] t = refl
reverse-snoc (x ∷ tables) t = rw (reverse-snoc tables t) refl

-- A new file changes no search of older tables.
pub search_levels-write_file :
    (files : Files) (path : SstPath) (bytes key : Bytes) (levels : List (List SsTableMeta))
    → LevelsOlder path.path_id levels
    → search_levels (write_file files path bytes) key levels ≡ search_levels files key levels
unfolding search_levels
search_levels-write_file files path bytes key [] h = refl
search_levels-write_file files path bytes key (tables ∷ levels) h =
    rw
      (
        search_levels-write_file files path bytes key levels h.1,
        search_tables-write_file files path bytes key (reverse tables)
            (reverse-AllOlder tables path.path_id h.0),
      )
      refl

or_else-bind :
    (later rest : Result (Option Bytes)) (found : Option Bytes)
    → (or_else later found >>= or_else rest) ≡ or_else (later >>= or_else rest) found
or_else-bind later rest none = refl
or_else-bind later rest (some v) = refl

-- The search after a table was added to the first level, in a file with a new id.
pub search_levels-add :
    (files : Files) (bytes key k v : Bytes) (es : List Entry) (t : SsTableMeta)
    (tables : List SsTableMeta) (levels : List (List SsTableMeta))
    → IsStored (write_file files t.path bytes) t.path ((k, v) ∷ es)
    → t.min_key ≡ k
    → t.max_key ≡ last_key k es
    → LevelsOlder t.path.path_id (tables ∷ levels)
    → search_levels (write_file files t.path bytes) key ((tables ++ t ∷ []) ∷ levels)
      ≡ or_else (search_levels files key (tables ∷ levels)) (lookup key ((k, v) ∷ es))
unfolding search_levels
search_levels-add files bytes key k v es t tables levels s low high older =
    rw
      (
        reverse-snoc tables t,
        search_tables-IsStored (write_file files t.path bytes) key k v es t (reverse tables) s low
            high,
        search_levels-write_file files t.path bytes key levels older.1,
        search_tables-write_file files t.path bytes key (reverse tables)
            (reverse-AllOlder tables t.path.path_id older.0),
      )
      (or_else-bind (search_tables files key (reverse tables)) (search_levels files key levels)
        (lookup key ((k, v) ∷ es)))
