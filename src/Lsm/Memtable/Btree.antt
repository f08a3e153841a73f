-- ===== src/Lsm/Memtable/Btree.antt =====
-- scry-lsm/src/memtable/btree.rs. The `BTreeMap` is the list of its entries in the order of the keys.
use scry_index.Prelude.{
  ℕ, ◌+◌, false, Option, some, List, [], ◌∷◌, length, if◌then◌else◌, ◌≡◌, refl, arith, Bool-cases,
  inl, inr,
}
use mathlib.Core.Path.{subst}
use scry_index.Key.Ordinal.{ltb_bytes}
use scry_index.Key.Lexicographic.{IsBelow, eq_bytes, eq_bytes-above, eq_bytes-neither, eq_bytes→≡}
use scry_index.Lsm.Bytes.{Bytes}
use scry_index.Lsm.Sstable.{Entry}
use scry_index.Lsm.Sstable.Sorted.{lookup, AllAbove, AllAbove-trans, IsAscending}
use scry_index.Lsm.Memtable.{Memtable, IsMemtable}

-- `BTreeMap::insert`
unfoldable pub insert_sorted : Bytes → Bytes → List Entry → List Entry
unfolding ltb_bytes
insert_sorted key value [] = (key, value) ∷ []
insert_sorted key value ((k, v) ∷ es) =
    let rest = insert_sorted key value es in
    if ltb_bytes k key
    then (k, v) ∷ rest
    else if ltb_bytes key k
    then (key, value) ∷ ((k, v) ∷ es)
    else (k, value) ∷ es

pub record BTreeMemtable : Type 0 where
  pub map : List Entry
  pub byte_count : ℕ

unfoldable pub new : BTreeMemtable
new = record { map = []; byte_count = 0 }

unfoldable pub insert : BTreeMemtable → Bytes → Bytes → BTreeMemtable
unfolding insert_sorted
insert m key value = record {
  map = insert_sorted key value m.map;
  byte_count = m.byte_count + (length key + length value);
}

unfoldable pub get : BTreeMemtable → Bytes → Option Bytes
unfolding lookup
get m key = lookup key m.map

unfoldable pub delete : BTreeMemtable → Bytes → BTreeMemtable
unfolding insert
delete m key = insert m key []

unfoldable pub len : BTreeMemtable → ℕ
len m = length m.map

unfoldable pub approximate_bytes : BTreeMemtable → ℕ
approximate_bytes m = m.byte_count

unfoldable pub drain_sorted : BTreeMemtable → List Entry × BTreeMemtable
drain_sorted m = (m.map, record { map = []; byte_count = 0 })

abbrev pub memtable : Memtable BTreeMemtable
memtable = record {
  insert = insert;
  get = get;
  delete = delete;
  len = len;
  approximate_bytes = approximate_bytes;
  drain_sorted = drain_sorted;
}

abbrev pub IsSorted : BTreeMemtable → Type 0
IsSorted m = IsAscending m.map

-- The three branches.
insert_sorted-below :
    (key value k v : Bytes) (es : List Entry)
    → IsBelow k key
    → insert_sorted key value ((k, v) ∷ es) ≡ (k, v) ∷ insert_sorted key value es
unfolding insert_sorted
insert_sorted-below key value k v es h = rw (insert_sorted, h) refl

insert_sorted-above :
    (key value k v : Bytes) (es : List Entry)
    → ltb_bytes k key ≡ false
    → IsBelow key k
    → insert_sorted key value ((k, v) ∷ es) ≡ (key, value) ∷ ((k, v) ∷ es)
unfolding insert_sorted
insert_sorted-above key value k v es h g = rw (insert_sorted, h, g) refl

insert_sorted-same :
    (key value k v : Bytes) (es : List Entry)
    → ltb_bytes k key ≡ false
    → ltb_bytes key k ≡ false
    → insert_sorted key value ((k, v) ∷ es) ≡ (k, value) ∷ es
unfolding insert_sorted
insert_sorted-same key value k v es h g = rw (insert_sorted, h, g) refl

lookup-insert_sorted :
    (key value j : Bytes) (es : List Entry)
    → lookup j (insert_sorted key value es) ≡ (if eq_bytes key j then some value else lookup j es)
unfolding lookup
lookup-insert_sorted key value j [] = unfold insert_sorted in refl
lookup-insert_sorted key value j ((k, v) ∷ es) = elim (Bool-cases (ltb_bytes k key)) [
  | inl l ↦ rw (insert_sorted-below key value k v es l) (elim (Bool-cases (eq_bytes k j)) [
    | inl s ↦
        let n = subst (λ t. eq_bytes key t ≡ false) (eq_bytes→≡ k j s) (eq_bytes-above key k l) in
        ground (arith, lookup-insert_sorted key value j es)
    | inr n ↦ ground (arith, lookup-insert_sorted key value j es)
  ])
  | inr e ↦ elim (Bool-cases (ltb_bytes key k)) [
    | inl l ↦ rw (insert_sorted-above key value k v es e l) refl
    | inr d ↦
        let same = eq_bytes→≡ k key (eq_bytes-neither k key e d) in
        rw (insert_sorted-same key value k v es e d) (
          subst
            (λ t. (if eq_bytes k j then some value else lookup j es) ≡ (
              if eq_bytes t j then some value else (if eq_bytes k j then some v else lookup j es)))
            same (ground arith))
  ]
]

insert_sorted-AllAbove :
    (bound key value : Bytes) (es : List Entry)
    → IsBelow bound key
    → AllAbove bound es
    → AllAbove bound (insert_sorted key value es)
insert_sorted-AllAbove bound key value [] h g = unfold insert_sorted in (h, tt)
insert_sorted-AllAbove bound key value ((k, v) ∷ es) h g = elim (Bool-cases (ltb_bytes k key)) [
  | inl l ↦
      rw (insert_sorted-below key value k v es l)
        (g.0, insert_sorted-AllAbove bound key value es h g.1)
  | inr e ↦ elim (Bool-cases (ltb_bytes key k)) [
    | inl l ↦ rw (insert_sorted-above key value k v es e l) (h, g)
    | inr d ↦ rw (insert_sorted-same key value k v es e d) g
  ]
]

insert_sorted-IsAscending :
    (key value : Bytes) (es : List Entry)
    → IsAscending es
    → IsAscending (insert_sorted key value es)
insert_sorted-IsAscending key value [] h = unfold insert_sorted in (tt, tt)
insert_sorted-IsAscending key value ((k, v) ∷ es) h = elim (Bool-cases (ltb_bytes k key)) [
  | inl l ↦
      rw (insert_sorted-below key value k v es l)
        (insert_sorted-AllAbove k key value es l h.0, insert_sorted-IsAscending key value es h.1)
  | inr e ↦ elim (Bool-cases (ltb_bytes key k)) [
    | inl l ↦ rw (insert_sorted-above key value k v es e l) ((l, AllAbove-trans key k es l h.0), h)
    | inr d ↦ rw (insert_sorted-same key value k v es e d) h
  ]
]

-- Where the entries of the map are in the order of their keys, they stay so, and the memtable does
-- what its interface asks for: an inserted value is found under its key and the other keys keep
-- theirs, a deletion puts the empty value, and draining gives what lookups found and leaves nothing.
pub memtable-IsMemtable : IsMemtable BTreeMemtable memtable IsSorted
unfolding insert delete get drain_sorted
memtable-IsMemtable = record {
  insert-Valid = λ m key value h. insert_sorted-IsAscending key value m.map h;
  delete-Valid = λ m key h. insert_sorted-IsAscending key [] m.map h;
  drain_sorted-Valid = λ m h. tt;
  get-insert = λ m key value j h. lookup-insert_sorted key value j m.map;
  get-delete = λ m key j h. lookup-insert_sorted key [] j m.map;
  drain_sorted-IsAscending = λ m h. h;
  lookup-drain_sorted = λ m j h. refl;
  get-drain_sorted = λ m j h. unfold lookup in refl;
}
