-- ===== src/Lsm/Sstable/RoundTrip.antt =====
-- The file of a table is read back whole.
use scry_index.Prelude.{
  ℕ, suc, ◌+◌, ◌-◌, ◌<◌, ◌≤◌, Bool, true, false, List, [], ◌∷◌, ◌++◌, ◌≡◌, refl, sym, ap, ◌∙◌,
  arith, length, length-append, take, drop, ◌==◌, ==_iff, ltb_of_le, if◌then◌else◌,
}
use mathlib.Core.Path.{subst}
use mathlib.Core.List.{append_assoc, append-nil}
use scry_index.Lsm.Bytes.{Bytes, le_bytes, le_limit, from_le, from_le-le_bytes}
use scry_index.Lsm.Sstable.{
  Entry, SsTableWriter, Table, with_block_size, encode_entry, encode_index, footer, footer_size,
  magic, finish, flush_block, add_all, write_index,
}
use scry_index.Lsm.Sstable.Reader.{
  ok, read_block, parse_index, open_table, read_blocks, read_all, SsTableReader, open_index,
}
use scry_index.Lsm.Sstable.Blocks.{
  encode_entries, encode_blocks, index_of, concat, Written, Holds, with_block_size-Holds,
  flush_block-Written, concat-snoc,
}
use scry_index.Lsm.Sstable.Parse.{
  AllFit, BlocksFit, concat-BlocksFit, read_block-append, length-encode_entry, read_blocks-index_of,
  IndexFits, parse_index-encode_index,
}

-- A table that is written whole.
pub record Finished (t : Table) (es : List Entry) : Type 0 where
  pub blocks : List (List Entry)
  pub file_eq :
      t.file
      ≡ encode_blocks blocks
        ++ (encode_index (index_of 0 blocks) ++ footer (length (encode_blocks blocks)) (length es))
  pub contents : concat blocks ≡ es
  pub count_eq : t.entry_count ≡ length es

entries-empty : (cur : List Entry) → length (encode_entries cur) ≡ 0 → cur ≡ []
unfolding encode_entries
entries-empty [] h = refl
entries-empty ((k, v) ∷ cur) h =
    absurd (
      omega (arith, length-append (encode_entry k v) (encode_entries cur), length-encode_entry k v))

write_index-Finished :
    (w : SsTableWriter) (es : List Entry) (bs : List (List Entry))
    → Written w bs []
    → concat bs ≡ es
    → Finished (write_index w) es
write_index-Finished w es bs h c =
    let n : w.entry_count ≡ length es = omega (arith, h.count_eq, ap length c) in
    record {
      blocks = bs;
      file_eq = rw (h.file_eq, h.index_eq, h.offset_eq, n) refl;
      contents = c;
      count_eq = n;
    }

-- with the last block still to be written, or with none
last_block-Finished :
    (w : SsTableWriter) (es : List Entry) (bs : List (List Entry)) (cur : List Entry) (b : Bool)
    → Written w bs cur
    → concat bs ++ cur ≡ es
    → (b ≡ true → cur ≡ [])
    → Finished (write_index (if b then w else flush_block w)) es
last_block-Finished w es bs cur true h c e =
    write_index-Finished w es bs (subst (Written w bs) (e refl) h)
      (sym (append-nil (concat bs)) ∙ ap (λ t. concat bs ++ t) (sym (e refl)) ∙ c)
last_block-Finished w es bs cur false h c e =
    write_index-Finished (flush_block w) es (bs ++ cur ∷ []) (flush_block-Written w bs cur h)
      (concat-snoc bs cur ∙ c)

finish-Finished : (w : SsTableWriter) (es : List Entry) → Holds w es → Finished (finish w) es
unfolding finish
finish-Finished w es h =
    last_block-Finished w es h.blocks h.current (length w.block_buf == 0) h.written h.contents (λ e.
      entries-empty h.current
        (omega (arith, ap length h.written.buf_eq, (==_iff (length w.block_buf) 0).0 e)))

pub add_all-Finished :
    (block_size : ℕ) (es : List Entry)
    → Finished (finish (add_all (with_block_size block_size) es)) es
add_all-Finished block_size es =
    finish-Finished (add_all (with_block_size block_size) es) es
      (with_block_size-Holds block_size es)

-- The offsets of the blocks are below the length of the file.
index_of-IndexFits :
    (bs : List (List Entry)) (o : ℕ)
    → BlocksFit bs
    → o + length (encode_blocks bs) < le_limit 8
    → IndexFits (index_of o bs)
unfolding index_of encode_blocks
index_of-IndexFits [] o h f = tt
index_of-IndexFits ([] ∷ bs) o h f =
    index_of-IndexFits bs (o + length (encode_entries [])) h.1
      (unfold encode_entries in omega arith)
index_of-IndexFits (((k, v) ∷ b) ∷ bs) o h f =
    let size = length-append (encode_entries ((k, v) ∷ b)) (encode_blocks bs) in
    (
      h.0.0,
      omega arith,
      omega (arith, size),
      index_of-IndexFits bs (o + length (encode_entries ((k, v) ∷ b))) h.1 (omega (arith, size)),
    )

length-encode_entries : (es : List Entry) → length es ≤ length (encode_entries es)
unfolding encode_entries
length-encode_entries [] = omega arith
length-encode_entries ((k, v) ∷ es) = omega (
  arith,
  length-append (encode_entry k v) (encode_entries es),
  length-encode_entry k v,
  length-encode_entries es,
)

length-concat : (bs : List (List Entry)) → length (concat bs) ≤ length (encode_blocks bs)
unfolding encode_blocks
length-concat [] = omega arith
length-concat (b ∷ bs) = omega (
  arith,
  length-append b (concat bs),
  length-append (encode_entries b) (encode_blocks bs),
  length-encode_entries b,
  length-concat bs,
)

-- A file has at least a byte for each entry.
pub Finished-length : (t : Table) (es : List Entry) → Finished t es → length es ≤ length t.file
Finished-length t es f = omega (
  arith,
  ap length f.file_eq,
  ap length f.contents,
  length-concat f.blocks,
  length-append (encode_blocks f.blocks)
      (encode_index (index_of 0 f.blocks) ++ footer (length (encode_blocks f.blocks)) (length es)),
)

read_block_at :
    (file before buf rest : Bytes) (o n : ℕ)
    → file ≡ before ++ (buf ++ rest)
    → o ≡ length before
    → n ≡ length buf
    → read_block file o n ≡ ok buf
read_block_at file before buf rest o n e f g = rw (e, f, g) (read_block-append before buf rest)

length-footer : (o n : ℕ) → length (footer o n) ≡ 20
unfolding footer le_bytes
length-footer o n = refl

open_table_step :
    (file buf : Bytes)
    → footer_size ≤ length file
    → read_block file (length file - footer_size) footer_size ≡ ok buf
    → open_table file
      ≡ open_index file
          (from_le (take 8 buf))
          (from_le (take 8 (drop 8 buf)))
          (from_le (drop 16 buf))
unfolding open_table from_le
open_table_step file buf h r = rw (open_table, ltb_of_le (length file) footer_size h, r) refl

-- what the footer holds
index_offset-footer : (o n : ℕ) → o < le_limit 8 → from_le (take 8 (footer o n)) ≡ o
unfolding footer le_bytes
index_offset-footer o n h = from_le-le_bytes 8 o h

entry_count-footer : (o n : ℕ) → n < le_limit 8 → from_le (take 8 (drop 8 (footer o n))) ≡ n
unfolding footer le_bytes
entry_count-footer o n h = from_le-le_bytes 8 n h

magic-footer : (o n : ℕ) → from_le (drop 16 (footer o n)) ≡ magic
unfolding footer le_bytes
magic-footer o n = from_le-le_bytes 4 magic (omega arith)

open_index_step :
    (file buf : Bytes) (o n : ℕ)
    → o ≤ length file - footer_size
    → read_block file o (length file - footer_size - o) ≡ ok buf
    → open_index file o n magic
      ≡ ok (record { file = file; index = parse_index (suc (length buf)) buf; entry_count = n })
open_index_step file buf o n h r = rw (ltb_of_le (length file - footer_size) o h, r) refl

pub open_table-Finished :
    (t : Table) (es : List Entry) (f : Finished t es)
    → AllFit es
    → length t.file < le_limit 8
    → open_table t.file
      ≡ ok (record { file = t.file; index = index_of 0 f.blocks; entry_count = length es })
open_table-Finished t es f h lim =
    let a = encode_blocks f.blocks in
    let i = encode_index (index_of 0 f.blocks) in
    let z = footer (length a) (length es) in
    let size : length t.file ≡ length a + length i + 20 = omega (
      arith,
      ap length f.file_eq,
      length-append a (i ++ z),
      length-append i z,
      length-footer (length a) (length es),
    ) in
    let fits = concat-BlocksFit f.blocks (subst AllFit (sym f.contents) h) in
    let count : length es ≤ length a =
      omega (arith, length-concat f.blocks, ap length f.contents) in
    open_table_step t.file z (omega (arith, size)) (
      read_block_at t.file (a ++ i) z [] (length t.file - footer_size) footer_size
        (f.file_eq ∙ rw (append_assoc a i (z ++ []), append-nil z) refl)
        (omega (arith, size, length-append a i)) (sym (length-footer (length a) (length es))))
    ∙ rw
        (
          index_offset-footer (length a) (length es) (omega (arith, size)),
          entry_count-footer (length a) (length es) (omega (arith, size, count)),
          magic-footer (length a) (length es),
        )
        refl
    ∙ open_index_step t.file i (length a) (length es) (omega (arith, size)) (
        read_block_at t.file a i z (length a) (length t.file - footer_size - length a) f.file_eq
          refl (omega (arith, size)))
    ∙ ap (λ x. ok (record { file = t.file; index = x; entry_count = length es }))
        (parse_index-encode_index (index_of 0 f.blocks) (suc (length i))
          (index_of-IndexFits f.blocks 0 fits (omega (arith, size))) (omega arith))

read_all-Finished :
    (t : Table) (es : List Entry) (f : Finished t es)
    → AllFit es
    → read_all (record { file = t.file; index = index_of 0 f.blocks; entry_count = length es })
      ≡ ok es
unfolding read_all
read_all-Finished t es f h =
    ap (λ x. read_blocks x (index_of 0 f.blocks)) f.file_eq
    ∙ read_blocks-index_of f.blocks []
        (encode_index (index_of 0 f.blocks) ++ footer (length (encode_blocks f.blocks)) (length es))
        (concat-BlocksFit f.blocks (subst AllFit (sym f.contents) h))
    ∙ ap ok f.contents

-- What `add` is given and `finish` writes, in blocks of any size, `open` and `read_all` give back in
-- order, with the number of the entries, where each key and each value is shorter than 2 ^ 32 bytes
-- and the file shorter than 2 ^ 64.
pub read_all-finish :
    (block_size : ℕ) (es : List Entry)
    → AllFit es
    → length (finish (add_all (with_block_size block_size) es)).file < le_limit 8
    → (reader : SsTableReader) × (open_table (finish (add_all (with_block_size block_size) es)).file
        ≡ ok reader)
      × (read_all reader ≡ ok es)
      × (reader.entry_count ≡ length es)
read_all-finish block_size es h lim =
    let t = finish (add_all (with_block_size block_size) es) in
    let f = add_all-Finished block_size es in
    (
      record { file = t.file; index = index_of 0 f.blocks; entry_count = length es },
      open_table-Finished t es f h lim,
      read_all-Finished t es f h,
      refl,
    )
