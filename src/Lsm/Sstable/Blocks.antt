-- ===== src/Lsm/Sstable/Blocks.antt =====
-- What the writer of a table keeps: the file is a list of blocks, and its index describes them.
use scry_index.Prelude.{
  ℕ, ◌+◌, true, false, Option, none, some, List, [], ◌∷◌, ◌++◌, ◌≡◌, refl, sym, ap, ◌∙◌, arith,
  length, length-append, leb, if◌then◌else◌,
}
use mathlib.Core.List.{append_assoc, append-nil}
use scry_index.Lsm.Bytes.{Bytes}
use scry_index.Lsm.Sstable.{
  Entry, IndexEntry, SsTableWriter, with_block_size, push_index, or_first, encode_entry,
  flush_block, add, add_all,
}

unfoldable pub encode_entries : List Entry → Bytes
encode_entries [] = []
encode_entries ((key, value) ∷ entries) = encode_entry key value ++ encode_entries entries

unfoldable pub encode_blocks : List (List Entry) → Bytes
encode_blocks [] = []
encode_blocks (b ∷ bs) = encode_entries b ++ encode_blocks bs

abbrev pub first_key_of : List Entry → Option Bytes
first_key_of [] = none
first_key_of ((key, value) ∷ entries) = some key

abbrev pub entry_of : ℕ → List Entry → List IndexEntry
entry_of o [] = []
entry_of o ((key, value) ∷ es) =
    record { first_key = key; offset = o; block_len = length (encode_entries ((key, value) ∷ es)) }
    ∷ []

-- the index of blocks that stand from an offset on
unfoldable pub index_of : ℕ → List (List Entry) → List IndexEntry
index_of o [] = []
index_of o (b ∷ bs) = entry_of o b ++ index_of (o + length (encode_entries b)) bs

abbrev pub concat : List (List Entry) → List Entry
concat [] = []
concat (b ∷ bs) = b ++ concat bs

encode_entries-append :
    (xs ys : List Entry) → encode_entries (xs ++ ys) ≡ encode_entries xs ++ encode_entries ys
unfolding encode_entries
encode_entries-append [] ys = refl
encode_entries-append ((k, v) ∷ xs) ys = simp (encode_entries-append xs ys, append_assoc)

encode_blocks-append :
    (xs ys : List (List Entry)) → encode_blocks (xs ++ ys) ≡ encode_blocks xs ++ encode_blocks ys
unfolding encode_blocks
encode_blocks-append [] ys = refl
encode_blocks-append (x ∷ xs) ys = simp (encode_blocks-append xs ys, append_assoc)

concat-append : (xs ys : List (List Entry)) → concat (xs ++ ys) ≡ concat xs ++ concat ys
concat-append [] ys = refl
concat-append (x ∷ xs) ys = simp (concat-append xs ys, append_assoc)

index_of-snoc :
    (o : ℕ) (bs : List (List Entry)) (b : List Entry)
    → index_of o (bs ++ b ∷ []) ≡ index_of o bs ++ entry_of (o + length (encode_blocks bs)) b
unfolding index_of encode_blocks
index_of-snoc o [] b = append-nil (entry_of o b) ∙ ap (λ t. entry_of t b) (omega arith)
index_of-snoc o (x ∷ bs) b =
    let e : o + length (encode_entries x) + length (encode_blocks bs)
        ≡ o + length (encode_entries x ++ encode_blocks bs) =
      omega (arith, length-append (encode_entries x) (encode_blocks bs)) in
    let h = index_of-snoc (o + length (encode_entries x)) bs b in rw (h, e, append_assoc) refl

-- The state of the writer, seen as the blocks that are written and the entries of the current one.
pub record Written (w : SsTableWriter) (bs : List (List Entry)) (cur : List Entry) : Type 0 where
  pub file_eq : w.file ≡ encode_blocks bs
  pub buf_eq : w.block_buf ≡ encode_entries cur
  pub first_eq : w.block_first_key ≡ first_key_of cur
  pub offset_eq : w.block_offset ≡ length (encode_blocks bs)
  pub index_eq : w.index ≡ index_of 0 bs
  pub count_eq : w.entry_count ≡ length (concat bs) + length cur

push_index-entry_of :
    (cur : List Entry) (o : ℕ) (index : List IndexEntry)
    → push_index (first_key_of cur) o (length (encode_entries cur)) index ≡ index ++ entry_of o cur
push_index-entry_of [] o index = sym (append-nil index)
push_index-entry_of ((k, v) ∷ cur) o index = refl

first_key_of-append :
    (cur : List Entry) (key value : Bytes)
    → or_first (first_key_of cur) key ≡ first_key_of (cur ++ (key, value) ∷ [])
first_key_of-append [] key value = refl
first_key_of-append ((k, v) ∷ cur) key value = refl

pub concat-snoc :
    (bs : List (List Entry)) (cur : List Entry) → concat (bs ++ cur ∷ []) ≡ concat bs ++ cur
concat-snoc bs cur = rw (concat-append bs (cur ∷ []), append-nil) refl

encode_blocks-snoc :
    (bs : List (List Entry)) (cur : List Entry)
    → encode_blocks (bs ++ cur ∷ []) ≡ encode_blocks bs ++ encode_entries cur
unfolding encode_blocks
encode_blocks-snoc bs cur = rw (encode_blocks-append bs (cur ∷ []), append-nil) refl

pub flush_block-Written :
    (w : SsTableWriter) (bs : List (List Entry)) (cur : List Entry)
    → Written w bs cur
    → Written (flush_block w) (bs ++ cur ∷ []) []
unfolding flush_block encode_entries
flush_block-Written w bs cur h = record {
  file_eq = rw (encode_blocks-snoc bs cur, h.file_eq, h.buf_eq) refl;
  buf_eq = refl;
  first_eq = refl;
  offset_eq =
      rw
        (
          encode_blocks-snoc bs cur,
          h.offset_eq,
          h.buf_eq,
          length-append (encode_blocks bs) (encode_entries cur),
        )
        refl;
  index_eq =
      rw (index_of-snoc 0 bs cur, h.first_eq, h.offset_eq, h.buf_eq, h.index_eq)
        (push_index-entry_of cur (length (encode_blocks bs)) (index_of 0 bs)
          ∙ ap (λ t. index_of 0 bs ++ entry_of t cur) (omega arith));
  count_eq = rw (concat-snoc bs cur, length-append (concat bs) cur) (omega (arith, h.count_eq));
}

-- the writer with one more entry, before the test of the block's size
abbrev buffered : SsTableWriter → Bytes → Bytes → SsTableWriter
buffered w key value = record w {
  min_key = or_first w.min_key key;
  max_key = some key;
  block_first_key = or_first w.block_first_key key;
  block_buf = w.block_buf ++ encode_entry key value;
  entry_count = w.entry_count + 1;
}

buffered-Written :
    (w : SsTableWriter) (bs : List (List Entry)) (cur : List Entry) (key value : Bytes)
    → Written w bs cur
    → Written (buffered w key value) bs (cur ++ (key, value) ∷ [])
unfolding encode_entries
buffered-Written w bs cur key value h = record {
  file_eq = h.file_eq;
  buf_eq =
      rw
        (
          encode_entries-append cur ((key, value) ∷ []),
          h.buf_eq,
          append-nil (encode_entry key value),
        )
        refl;
  first_eq = rw (h.first_eq) (first_key_of-append cur key value);
  offset_eq = h.offset_eq;
  index_eq = h.index_eq;
  count_eq = omega (arith, h.count_eq, length-append cur ((key, value) ∷ []));
}

-- Some blocks and a current one are what the writer holds, and their entries in order are given.
pub record Holds (w : SsTableWriter) (entries : List Entry) : Type 0 where
  pub blocks : List (List Entry)
  pub current : List Entry
  pub written : Written w blocks current
  pub contents : concat blocks ++ current ≡ entries

-- A full block is written and the next one is empty.
flush_block-Holds :
    (w : SsTableWriter) (entries : List Entry) → Holds w entries → Holds (flush_block w) entries
flush_block-Holds w entries h = record {
  blocks = h.blocks ++ h.current ∷ [];
  current = [];
  written = flush_block-Written w h.blocks h.current h.written;
  contents = rw (append-nil, concat-snoc h.blocks h.current) h.contents;
}

buffered-Holds :
    (w : SsTableWriter) (entries : List Entry) (key value : Bytes)
    → Holds w entries
    → Holds (buffered w key value) (entries ++ (key, value) ∷ [])
buffered-Holds w entries key value h = record {
  blocks = h.blocks;
  current = h.current ++ (key, value) ∷ [];
  written = buffered-Written w h.blocks h.current key value h.written;
  contents =
      rw (sym (append_assoc (concat h.blocks) h.current ((key, value) ∷ [])), h.contents) refl;
}

pub add-Holds :
    (w : SsTableWriter) (entries : List Entry) (key value : Bytes)
    → Holds w entries
    → Holds (add w key value) (entries ++ (key, value) ∷ [])
unfolding add
add-Holds w entries key value h =
    let more = buffered-Holds w entries key value h in
    elim (leb w.block_size (length (w.block_buf ++ encode_entry key value)))
      as (λ b.
        Holds (if b then flush_block (buffered w key value) else buffered w key value)
          (entries ++ (key, value) ∷ [])) [
            | true ↦ flush_block-Holds (buffered w key value) (entries ++ (key, value) ∷ []) more
            | false ↦ more
          ]

add_all-Holds :
    (es : List Entry) (w : SsTableWriter) (entries : List Entry)
    → Holds w entries
    → Holds (add_all w es) (entries ++ es)
unfolding add_all
add_all-Holds [] w entries h = rw (append-nil) h
add_all-Holds ((k, v) ∷ es) w entries h =
    rw (sym (append_assoc entries ((k, v) ∷ []) es))
      (add_all-Holds es (add w k v) (entries ++ (k, v) ∷ []) (add-Holds w entries k v h))

-- After the entries were added to a new writer, it holds them in order.
pub with_block_size-Holds :
    (block_size : ℕ) (es : List Entry) → Holds (add_all (with_block_size block_size) es) es
unfolding with_block_size encode_blocks encode_entries index_of
with_block_size-Holds block_size es = add_all-Holds es (with_block_size block_size) [] (record {
  blocks = [];
  current = [];
  written = record {
    file_eq = refl;
    buf_eq = refl;
    first_eq = refl;
    offset_eq = refl;
    index_eq = refl;
    count_eq = omega arith;
  };
  contents = refl;
})
