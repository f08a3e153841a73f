-- ===== src/Lsm/Sstable/Lookup.antt =====
-- A point lookup in a table finds what a search of its entries finds.
use scry_index.Prelude.{
  ℕ, zero, suc, ◌+◌, ◌<◌, false, not, Option, none, some, List, [], ◌∷◌, ◌++◌, ◌≡◌, refl, ap, sym,
  ◌∙◌, arith, if◌then◌else◌, length, length-append, Bool-cases, inl, inr,
}
use mathlib.Core.Path.{subst}
use mathlib.Core.List.{append_assoc}
use scry_index.Key.Ordinal.{ltb_bytes}
use scry_index.Key.Lexicographic.{eq_bytes-below, eq_bytes-above, eq_bytes-neither}
use scry_index.Lsm.Bytes.{Bytes, le_limit}
use scry_index.Lsm.Sstable.{
  Entry, IndexEntry, encode_entry, finish, add_all, with_block_size, Table, encode_index, footer,
}
use scry_index.Lsm.Sstable.FindBlock.{last_le, search_at, get-last_le}
use scry_index.Lsm.Sstable.RoundTrip.{Finished, open_table-Finished, add_all-Finished}
use scry_index.Lsm.Sstable.Reader.{
  ok, ◌>>=◌, SsTableReader, decode_entry, search_block, get, open_table,
}
use scry_index.Lsm.Sstable.Blocks.{encode_entries, encode_blocks, index_of, entry_of, concat}
use scry_index.Lsm.Sstable.Parse.{
  AllFit, BlocksFit, concat-BlocksFit, decode_entry-encode_entry, length-encode_entry,
  read_block-append,
}
use scry_index.Lsm.Sstable.Sorted.{
  lookup, IsAscending, lookup-AllAbove, lookup-append, lookup-below, lookup-before,
  IsAscending-append_left, IsAscending-append_right,
}

-- The search of one block.
search_block_step :
    (fuel : ℕ) (block key : Bytes)
    → 0 < length block
    → search_block (suc fuel) block key ≡ (
        decode_entry block >>= λ e.
        let rest = search_block fuel e.2 key in
        if ltb_bytes e.0 key then rest else if ltb_bytes key e.0 then ok none else ok (some e.1))
unfolding search_block
search_block_step fuel [] key h = absurd (omega arith)
search_block_step fuel (b ∷ block) key h = refl

-- The branch at one entry.
lookup_step :
    (k v key : Bytes) (es : List Entry)
    → IsAscending ((k, v) ∷ es)
    → (if ltb_bytes k key
        then ok (lookup key es)
        else if ltb_bytes key k
        then ok none
        else ok (some v))
      ≡ ok (lookup key ((k, v) ∷ es))
unfolding lookup
lookup_step k v key es h = elim (Bool-cases (ltb_bytes k key)) [
  | inl l ↦ rw (l, eq_bytes-below k key l) refl
  | inr e ↦ elim (Bool-cases (ltb_bytes key k)) [
    | inl l ↦ rw (e, l, eq_bytes-above k key l, lookup-AllAbove es k key h.0 e) refl
    | inr d ↦ rw (e, d, eq_bytes-neither k key e d) refl
  ]
]

search_block-encode_entries :
    (es : List Entry) (fuel : ℕ) (key : Bytes)
    → AllFit es
    → IsAscending es
    → length (encode_entries es) < fuel
    → search_block fuel (encode_entries es) key ≡ ok (lookup key es)
unfolding encode_entries
search_block-encode_entries es zero key h s f = absurd (omega arith)
search_block-encode_entries [] (suc fuel) key h s f = unfold search_block lookup in refl
search_block-encode_entries ((k, v) ∷ es) (suc fuel) key h s f =
    let len = length-append (encode_entry k v) (encode_entries es) in
    let size = length-encode_entry k v in
    search_block_step fuel (encode_entry k v ++ encode_entries es) key (omega (arith, len, size))
    ∙ rw
        (
          decode_entry-encode_entry k v (encode_entries es) h.0 h.1,
          search_block-encode_entries es fuel key h.2 s.1 (omega (arith, len, size)),
        )
        (lookup_step k v key es s)

-- Where the index has an entry for the key, the first key of the blocks is not above it.
last_le-first :
    (bs : List (List Entry)) (o : ℕ) (key : Bytes) (x : IndexEntry)
    → last_le (index_of o bs) key ≡ some x
    → (k : Bytes) × (v : Bytes) × (ys : List Entry) × (concat bs ≡ (k, v) ∷ ys)
      × (ltb_bytes key k ≡ false)
unfolding last_le index_of
last_le-first [] o key x h = absurd (ground arith)
last_le-first ([] ∷ bs) o key x h = last_le-first bs (o + length (encode_entries [])) key x h
last_le-first (((k, v) ∷ b) ∷ bs) o key x h = elim (Bool-cases (ltb_bytes key k)) [
  | inl l ↦ absurd (
      let no : none ≡ some x =
        subst
          (λ t.
            (if not t
              then (elim (last_le (index_of (o + length (encode_entries ((k, v) ∷ b))) bs) key) [
                | none ↦ some (record {
                  first_key = k;
                  offset = o;
                  block_len = length (encode_entries ((k, v) ∷ b));
                })
                | some y ↦ some y
              ])
              else none)
            ≡ some x)
          l h in
      cc)
  | inr e ↦ (k, v, b ++ concat bs, refl, e)
]

search_at-block :
    (before b rest key : Bytes) (es : List Entry) (k : Bytes)
    → b ≡ encode_entries es
    → AllFit es
    → IsAscending es
    → search_at
        (before ++ (b ++ rest))
        key
        (some (record { first_key = k; offset = length before; block_len = length b }))
      ≡ ok (lookup key es)
unfolding search_at
search_at-block before b rest key es k e h s =
    rw (read_block-append before b rest, e)
      (search_block-encode_entries es (suc (length (encode_entries es))) key h s (omega arith))

or_none : (o p : Option Bytes) → p ≡ none → (elim o [ none ↦ p | some v ↦ some v ]) ≡ o
or_none none p h = h
or_none (some v) p h = refl

-- the result in a table of two parts
lookup-left :
    (xs ys : List Entry) (key : Bytes)
    → lookup key ys ≡ none
    → lookup key (xs ++ ys) ≡ lookup key xs
lookup-left xs ys key h = lookup-append xs ys key ∙ or_none (lookup key xs) (lookup key ys) h

lookup-right :
    (xs ys : List Entry) (key : Bytes)
    → lookup key xs ≡ none
    → lookup key (xs ++ ys) ≡ lookup key ys
lookup-right xs ys key h = rw (lookup-append xs ys key, h) refl

-- The first block is read where no later block is.
search_first :
    (k v : Bytes) (b es : List Entry) (before rest key : Bytes) (later : Option IndexEntry)
    → search_at (before ++ (encode_entries ((k, v) ∷ b) ++ rest)) key later ≡ ok (lookup key es)
    → ((x : IndexEntry)
        → later ≡ some x
        → (k' : Bytes) × (v' : Bytes) × (ys : List Entry) × (es ≡ (k', v') ∷ ys)
          × (ltb_bytes key k' ≡ false))
    → AllFit ((k, v) ∷ b)
    → IsAscending ((k, v) ∷ b ++ es)
    → search_at (before ++ (encode_entries ((k, v) ∷ b) ++ rest)) key (elim later [
      | none ↦ some (record {
        first_key = k;
        offset = length before;
        block_len = length (encode_entries ((k, v) ∷ b));
      })
      | some x ↦ some x
    ])
      ≡ ok (lookup key ((k, v) ∷ b ++ es))
search_first k v b es before rest key none ih above h s =
    let left : lookup key es ≡ none = unfold search_at in (let e = ih in cc) in
    search_at-block before (encode_entries ((k, v) ∷ b)) rest key ((k, v) ∷ b) k refl h
      (IsAscending-append_left ((k, v) ∷ b) es s)
    ∙ ap ok (sym (lookup-left ((k, v) ∷ b) es key left))
search_first k v b es before rest key (some x) ih above h s =
    let (k', v', ys, e, l) = above x refl in
    ih
    ∙ ap ok (
        sym (
          lookup-right ((k, v) ∷ b) es key (
            lookup-before ((k, v) ∷ b) ys key k' v' (subst (λ t. IsAscending ((k, v) ∷ b ++ t)) e s)
              l)))

search_next :
    (b es : List Entry) (index : List IndexEntry) (before rest key : Bytes)
    → search_at (before ++ (encode_entries b ++ rest)) key (last_le index key) ≡ ok (lookup key es)
    → ((x : IndexEntry)
        → last_le index key ≡ some x
        → (k' : Bytes) × (v' : Bytes) × (ys : List Entry) × (es ≡ (k', v') ∷ ys)
          × (ltb_bytes key k' ≡ false))
    → AllFit b
    → IsAscending (b ++ es)
    → search_at
        (before ++ (encode_entries b ++ rest))
        key
        (last_le (entry_of (length before) b ++ index) key)
      ≡ ok (lookup key (b ++ es))
unfolding last_le
search_next [] es index before rest key ih above h s = ih
search_next ((k, v) ∷ b) es index before rest key ih above h s =
    elim (Bool-cases (ltb_bytes key k)) [
      | inl l ↦ rw l (unfold search_at in ap ok (sym (lookup-below k v key (b ++ es) s l)))
      | inr e ↦ rw e (search_first k v b es before rest key (last_le index key) ih above h s)
    ]

search_at-index_of :
    (bs : List (List Entry)) (before rest key : Bytes)
    → BlocksFit bs
    → IsAscending (concat bs)
    → search_at
        (before ++ (encode_blocks bs ++ rest))
        key
        (last_le (index_of (length before) bs) key)
      ≡ ok (lookup key (concat bs))
unfolding encode_blocks index_of
search_at-index_of [] before rest key h s = unfold search_at last_le lookup in refl
search_at-index_of (b ∷ bs) before rest key h s =
    let ih =
      search_at-index_of bs (before ++ encode_entries b) rest key h.1
        (IsAscending-append_right b (concat bs) s) in
    let e = append_assoc before (encode_entries b) (encode_blocks bs ++ rest) in
    let f = append_assoc (encode_entries b) (encode_blocks bs) rest in
    let l = length-append before (encode_entries b) in
    let later = last_le (index_of (length before + length (encode_entries b)) bs) key in
    let there : search_at (before ++ (encode_entries b ++ (encode_blocks bs ++ rest))) key later
        ≡ ok (lookup key (concat bs)) =
      rw (sym e, sym l) ih in
    rw f (
      search_next b (concat bs) (index_of (length before + length (encode_entries b)) bs) before
        (encode_blocks bs ++ rest) key there
        (λ x. last_le-first bs (length before + length (encode_entries b)) key x) h.0 s)

pub get-Finished :
    (t : Table) (es : List Entry) (f : Finished t es) (key : Bytes)
    → AllFit es
    → IsAscending es
    → get (record { file = t.file; index = index_of 0 f.blocks; entry_count = length es }) key
      ≡ ok (lookup key es)
get-Finished t es f key h s =
    get-last_le t.file (index_of 0 f.blocks) (length es) key
    ∙ ap (λ x. search_at x key (last_le (index_of 0 f.blocks) key)) f.file_eq
    ∙ search_at-index_of f.blocks []
        (encode_index (index_of 0 f.blocks) ++ footer (length (encode_blocks f.blocks)) (length es))
        key (concat-BlocksFit f.blocks (subst AllFit (sym f.contents) h))
        (subst IsAscending (sym f.contents) s)
    ∙ ap (λ x. ok (lookup key x)) f.contents

-- After a table was written from entries in ascending order of their keys, a lookup in the reader of
-- its file gives the value that goes with the key, or nothing where no entry has the key, where each
-- key and each value is shorter than 2 ^ 32 bytes and the file shorter than 2 ^ 64.
pub get-finish :
    (block_size : ℕ) (es : List Entry) (key : Bytes)
    → AllFit es
    → IsAscending es
    → length (finish (add_all (with_block_size block_size) es)).file < le_limit 8
    → (reader : SsTableReader) × (open_table (finish (add_all (with_block_size block_size) es)).file
        ≡ ok reader)
      × (get reader key ≡ ok (lookup key es))
get-finish block_size es key h s lim =
    let t = finish (add_all (with_block_size block_size) es) in
    let f = add_all-Finished block_size es in
    (
      record { file = t.file; index = index_of 0 f.blocks; entry_count = length es },
      open_table-Finished t es f h lim,
      get-Finished t es f key h s,
    )
