-- ===== src/Lsm/Memtable.antt =====
-- scry-lsm/src/memtable: the write buffer, as an interface, and the one over the ordered map of the
-- standard library.
pub mod Btree
use scry_index.Prelude.{ℕ, Bool, Option, none, List, [], if◌then◌else◌, some, ◌≡◌, ◌==◌}
use scry_index.Key.Lexicographic.{eq_bytes}
use scry_index.Lsm.Bytes.{Bytes}
use scry_index.Lsm.Sstable.{Entry}
use scry_index.Lsm.Sstable.Sorted.{lookup, IsAscending}

-- The trait `Memtable`.
pub record Memtable (M : Type 0) : Type 0 where
  pub insert : M → Bytes → Bytes → M
  pub get : M → Bytes → Option Bytes
  pub delete : M → Bytes → M
  pub len : M → ℕ
  pub approximate_bytes : M → ℕ
  pub drain_sorted : M → List Entry × M

-- What its documentation asks for, of the states that its operations reach.
pub record IsMemtable (M : Type 0) (ops : Memtable M) (Valid : M → Type 0) : Type 0 where
  pub insert-Valid : (m : M) (key value : Bytes) → Valid m → Valid (ops.insert m key value)
  pub delete-Valid : (m : M) (key : Bytes) → Valid m → Valid (ops.delete m key)
  pub drain_sorted-Valid : (m : M) → Valid m → Valid (ops.drain_sorted m).1
  pub get-insert :
      (m : M) (key value j : Bytes)
      → Valid m
      → ops.get (ops.insert m key value) j ≡ (if eq_bytes key j then some value else ops.get m j)
  pub get-delete :
      (m : M) (key j : Bytes)
      → Valid m
      → ops.get (ops.delete m key) j ≡ (if eq_bytes key j then some [] else ops.get m j)
  pub drain_sorted-IsAscending : (m : M) → Valid m → IsAscending (ops.drain_sorted m).0
  pub lookup-drain_sorted :
      (m : M) (j : Bytes) → Valid m → lookup j (ops.drain_sorted m).0 ≡ ops.get m j
  pub get-drain_sorted : (m : M) (j : Bytes) → Valid m → ops.get (ops.drain_sorted m).1 j ≡ none
