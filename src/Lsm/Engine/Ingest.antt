-- ===== src/Lsm/Engine/Ingest.antt =====
-- The order that `ingest_sorted` asks for.
use scry_index.Prelude.{
  false, Option, none, some, List, [], ◌∷◌, ◌++◌, ◌≡◌, refl, Bool-cases, inl, inr,
}
use scry_index.Key.Ordinal.{ltb_bytes}
use scry_index.Lsm.Bytes.{Bytes}
use scry_index.Lsm.Error.{err, corruption}
use scry_index.Lsm.Sstable
use scry_index.Lsm.Sstable.{Entry, SsTableWriter}
use scry_index.Lsm.Memtable.{Memtable}
use scry_index.Lsm.Engine.{LsmEngine, add_sorted, ingest_sorted}

-- two entries in a row that are not in ascending order, behind any others
add_sorted-unsorted :
    (xs ys : List Entry) (a b : Entry) (w : SsTableWriter) (prev : Option Bytes)
    → ltb_bytes a.0 b.0 ≡ false
    → add_sorted w prev (xs ++ a ∷ (b ∷ ys)) ≡ err corruption
unfolding add_sorted
add_sorted-unsorted [] ys (k, v) (k', v') w none h = rw h refl
add_sorted-unsorted [] ys (k, v) (k', v') w (some prev) h = elim (Bool-cases (ltb_bytes prev k)) [
  | inl e ↦ rw (e, h) refl
  | inr e ↦ rw e refl
]
add_sorted-unsorted ((k, v) ∷ xs) ys a b w none h =
    add_sorted-unsorted xs ys a b (Sstable.add w k v) (some k) h
add_sorted-unsorted ((k, v) ∷ xs) ys a b w (some prev) h = elim (Bool-cases (ltb_bytes prev k)) [
  | inl e ↦ rw e (add_sorted-unsorted xs ys a b (Sstable.add w k v) (some k) h)
  | inr e ↦ rw e refl
]

-- Where the key of an entry is not below that of the next one, anywhere in the input,
-- `ingest_sorted` gives the corruption error.
pub ingest_sorted-unsorted :
    {M : Type 0} (ops : Memtable M) (e : LsmEngine M) (xs ys : List Entry) (a b : Entry)
    → ltb_bytes a.0 b.0 ≡ false
    → ingest_sorted ops e (xs ++ a ∷ (b ∷ ys)) ≡ err corruption
unfolding ingest_sorted
ingest_sorted-unsorted ops e xs ys a b h =
    rw (ingest_sorted, add_sorted-unsorted xs ys a b Sstable.new none h) refl
