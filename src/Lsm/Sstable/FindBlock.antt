-- ===== src/Lsm/Sstable/FindBlock.antt =====
-- The block that a point lookup reads.
use scry_index.Prelude.{
  ℕ, zero, suc, ◌-◌, Bool, false, Option, none, some, List, [], ◌∷◌, ◌≡◌, refl, arith,
  if◌then◌else◌, ◌==◌, length, get_elem?, Bool-cases, inl, inr,
}
use scry_index.Key.Ordinal.{ltb_bytes}
use scry_index.Lsm.Bytes.{Bytes}
use scry_index.Lsm.Sstable.{IndexEntry}
use scry_index.Lsm.Sstable.Reader.{
  IoResult, ok, err, ◌>>=◌, underflow, read_block, search_block, find_block, partition_point,
  leb_bytes, get,
}

-- The last entry of the index that is not above the key, before the first one that is.
unfoldable pub last_le : List IndexEntry → Bytes → Option IndexEntry
last_le [] key = none
last_le (ie ∷ index) key =
    if leb_bytes ie.first_key key
    then (elim (last_le index key) [ none ↦ some ie | some x ↦ some x ])
    else none

partition_point-get_elem? :
    (p : IndexEntry → Bool) (index : List IndexEntry) (n : ℕ)
    → partition_point p index ≡ suc n
    → (ie : IndexEntry) × (get_elem? index n ≡ some ie)
unfolding partition_point
partition_point-get_elem? p [] n h = absurd (omega arith)
partition_point-get_elem? p (ie ∷ index) zero h = (ie, refl)
partition_point-get_elem? p (ie ∷ index) (suc n) h =
    partition_point-get_elem? p index n (ground arith)

-- the entry before an index
abbrev entry_before : List IndexEntry → ℕ → Option IndexEntry
entry_before index zero = none
entry_before index (suc n) = get_elem? index n

or_before :
    (ie : IndexEntry) (index : List IndexEntry) (n : ℕ)
    → ((m : ℕ) → n ≡ suc m → (x : IndexEntry) × (get_elem? index m ≡ some x))
    → (elim (entry_before index n) [ none ↦ some ie | some x ↦ some x ]) ≡ get_elem? (ie ∷ index) n
or_before ie index zero h = refl
or_before ie index (suc m) h = rw ((h m refl).1) refl

last_le-partition_point :
    (index : List IndexEntry) (key : Bytes)
    → last_le index key
      ≡ entry_before index (partition_point (λ e. leb_bytes e.first_key key) index)
unfolding last_le partition_point
last_le-partition_point [] key = refl
last_le-partition_point (ie ∷ index) key = elim (Bool-cases (ltb_bytes key ie.first_key)) [
  | inl l ↦ rw l refl
  | inr e ↦
      rw (e, last_le-partition_point index key)
        (or_before ie index (partition_point (λ e. leb_bytes e.first_key key) index)
          (λ m h. partition_point-get_elem? (λ e. leb_bytes e.first_key key) index m h))
]

-- `get` reads the block of that entry.
unfoldable pub search_at : Bytes → Bytes → Option IndexEntry → IoResult (Option Bytes)
search_at file key none = ok none
search_at file key (some ie) =
    read_block file ie.offset ie.block_len >>= λ block. search_block (suc (length block)) block key

predecessor : ℕ → Option ℕ
predecessor zero = none
predecessor (suc n) = some n

predecessor_lem :
    (b : Bool) (n : ℕ)
    → (if suc n == 0 then (if b then none else some 0) else some (suc n - 1)) ≡ some n
predecessor_lem b n = ground arith

find_block_lem :
    (index : List IndexEntry) (key : Bytes)
    → find_block index key ≡ predecessor (partition_point (λ e. leb_bytes e.first_key key) index)
unfolding find_block partition_point predecessor
find_block_lem [] key = refl
find_block_lem (ie ∷ index) key = elim (Bool-cases (ltb_bytes key ie.first_key)) [
  | inl l ↦ rw (l) refl
  | inr e ↦ rw (e) (predecessor_lem false (partition_point (λ e. leb_bytes e.first_key key) index))
]

-- No entry of the index is behind its end.
get_at :
    (file key : Bytes) (index : List IndexEntry) (n : ℕ)
    → ((m : ℕ) → n ≡ suc m → (x : IndexEntry) × (get_elem? index m ≡ some x))
    → (elim (predecessor n) [
      | none ↦ ok none
      | some i ↦ elim (get_elem? index i) [
        | none ↦ err underflow
        | some ie ↦ search_at file key (some ie)
      ]
    ])
      ≡ search_at file key (entry_before index n)
unfolding predecessor
get_at file key index zero h = unfold search_at in refl
get_at file key index (suc m) h = rw ((h m refl).1) refl

pub get-last_le :
    (file : Bytes) (index : List IndexEntry) (entry_count : ℕ) (key : Bytes)
    → get (record { file = file; index = index; entry_count = entry_count }) key
      ≡ search_at file key (last_le index key)
unfolding get search_at
get-last_le file index entry_count key =
    rw (get, find_block_lem index key, last_le-partition_point index key)
      (get_at file key index (partition_point (λ e. leb_bytes e.first_key key) index)
        (λ m h. partition_point-get_elem? (λ e. leb_bytes e.first_key key) index m h))
