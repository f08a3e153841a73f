-- ===== src/Lsm/Sstable/KeyRange.antt =====
-- The two bounds of the keys that the writer of a table gives.
use scry_index.Prelude.{
  some, List, [], ◌∷◌, ◌++◌, ◌≡◌, refl, ◌∙◌, length, leb, ◌==◌, Bool-cases, inl, inr, ap,
}
use scry_index.Lsm.Bytes.{Bytes}
use scry_index.Lsm.Sstable.{
  Entry, SsTableWriter, new, with_block_size, add, add_all, flush_block, finish, or_first, or_empty,
  encode_entry,
}
use scry_index.Lsm.Sstable.Sorted.{last_key}

add-keys :
    (w : SsTableWriter) (key value : Bytes)
    → ((add w key value).min_key ≡ or_first w.min_key key) × ((add w key value).max_key ≡ some key)
unfolding add flush_block
add-keys w key value =
    elim (Bool-cases (leb w.block_size (length (w.block_buf ++ encode_entry key value)))) [
      | inl e ↦ (rw (add, e) refl, rw (add, e) refl)
      | inr e ↦ (rw (add, e) refl, rw (add, e) refl)
    ]

finish-keys :
    (w : SsTableWriter)
    → ((finish w).min_key ≡ or_empty w.min_key) × ((finish w).max_key ≡ or_empty w.max_key)
unfolding finish flush_block
finish-keys w = elim (Bool-cases (length w.block_buf == 0)) [
  | inl e ↦ (rw (finish, e) refl, rw (finish, e) refl)
  | inr e ↦ (rw (finish, e) refl, rw (finish, e) refl)
]

-- with keys before
add_all-keys :
    (es : List Entry) (w : SsTableWriter) (first last : Bytes)
    → w.min_key ≡ some first
    → w.max_key ≡ some last
    → ((add_all w es).min_key ≡ some first) × ((add_all w es).max_key ≡ some (last_key last es))
unfolding add_all
add_all-keys [] w first last h g = (h, g)
add_all-keys ((k, v) ∷ es) w first last h g =
    let (low, high) = add-keys w k v in
    add_all-keys es (add w k v) first k (low ∙ ap (λ t. or_first t k) h) high

-- The first and the last key of the entries of a table that has some.
pub finish-KeyRange :
    (k v : Bytes) (es : List Entry)
    → ((finish (add_all new ((k, v) ∷ es))).min_key ≡ k)
      × ((finish (add_all new ((k, v) ∷ es))).max_key ≡ last_key k es)
unfolding add_all new with_block_size
finish-KeyRange k v es =
    let (low, high) = add-keys new k v in
    let (low', high') = add_all-keys es (add new k v) k k low high in
    let (a, b) = finish-keys (add_all (add new k v) es) in
    (a ∙ ap or_empty low', b ∙ ap or_empty high')
