-- ===== src/Lsm/Sstable/Reader.antt =====
-- scry-lsm/src/sstable/reader.rs: the reader of a table.
use scry_index.Prelude.{
  ℕ, zero, suc, ◌-◌, Bool, not, Option, none, some, List, [], ◌∷◌, ◌++◌, length, take, drop, ltb,
  ◌==◌, if◌then◌else◌, get_elem?,
}
use scry_index.Key.Ordinal.{ltb_bytes}
use scry_index.Lsm.Bytes.{Bytes, from_le, read_exact, read_length_prefixed}
use scry_index.Lsm.Sstable.{Entry, IndexEntry, magic, footer_size}

-- The errors of the reader. `underflow` stands for the panic on an index behind the end of the file.
pub data IoError : Type 0 where
  too_small : IoError
  bad_magic : (found : ℕ) → IoError
  unexpected_eof : IoError
  truncated_entry : IoError
  underflow : IoError
  not_found : IoError
  out_of_fuel : IoError

pub data IoResult (A : Type 0) : Type 0 where
  ok : A → IoResult A
  err : IoError → IoResult A

infixl 5 ◌>>=◌
abbrev pub ◌>>=◌ : {A B : Type 0} → IoResult A → (A → IoResult B) → IoResult B
ok a >>= f = f a
err e >>= f = err e

pub record SsTableReader : Type 0 where
  pub file : Bytes
  pub index : List IndexEntry
  pub entry_count : ℕ

-- `seek` and `read_exact`: past the end the read fails
unfoldable pub read_block : Bytes → ℕ → ℕ → IoResult Bytes
unfolding read_exact
read_block file offset len = elim (read_exact len (drop offset file)) [
  | none ↦ err unexpected_eof
  | some (buf, rest) ↦ ok buf
]

-- With fuel for the bytes. A part that is too short ends the loop; the three reads fail together
-- where the test of the source does.
unfoldable pub parse_index : ℕ → Bytes → List IndexEntry
unfolding read_length_prefixed read_exact from_le
parse_index zero buf = []
parse_index (suc fuel) [] = []
parse_index (suc fuel) buf = elim (read_length_prefixed buf) [
  | none ↦ []
  | some (first_key, buf') ↦ elim (read_exact 8 buf') [
    | none ↦ []
    | some (offset, buf'') ↦ elim (read_exact 8 buf'') [
      | none ↦ []
      | some (block_len, rest) ↦
          record { first_key = first_key; offset = from_le offset; block_len = from_le block_len }
          ∷ parse_index fuel rest
    ]
  ]
]

-- The rest of `open`, from the footer on.
abbrev pub open_index : Bytes → ℕ → ℕ → ℕ → IoResult SsTableReader
open_index file index_offset entry_count found =
    if found == magic
    then if ltb (length file - footer_size) index_offset
      then err underflow
      else (read_block file index_offset (length file - footer_size - index_offset) >>= λ buf.
          ok (record {
            file = file;
            index = parse_index (suc (length buf)) buf;
            entry_count = entry_count;
          }))
    else err (bad_magic found)

unfoldable pub open_table : Bytes → IoResult SsTableReader
unfolding read_block parse_index from_le
open_table file =
    if ltb (length file) footer_size
    then err too_small
    else (read_block file (length file - footer_size) footer_size >>= λ buf.
        open_index file (from_le (take 8 buf)) (from_le (take 8 (drop 8 buf)))
          (from_le (drop 16 buf)))

-- The entry at a cursor, seen as the bytes from there on, and the bytes after it.
unfoldable pub decode_entry : Bytes → IoResult (Bytes × Bytes × Bytes)
unfolding read_length_prefixed
decode_entry block = elim (read_length_prefixed block) [
  | none ↦ err truncated_entry
  | some (key, block') ↦ elim (read_length_prefixed block') [
    | none ↦ err truncated_entry
    | some (value, next) ↦ ok (key, value, next)
  ]
]

-- The inner loop of `read_all`, with fuel for the bytes.
unfoldable pub decode_all : ℕ → Bytes → IoResult (List Entry)
unfolding decode_entry
decode_all zero block = err out_of_fuel
decode_all (suc fuel) [] = ok []
decode_all (suc fuel) block =
    decode_entry block >>= λ e. decode_all fuel e.2 >>= λ entries. ok ((e.0, e.1) ∷ entries)

unfoldable pub read_blocks : Bytes → List IndexEntry → IoResult (List Entry)
unfolding read_block decode_all
read_blocks file [] = ok []
read_blocks file (ie ∷ index) = read_block file ie.offset ie.block_len >>= λ block.
    decode_all (suc (length block)) block >>= λ entries.
    read_blocks file index >>= λ rest. ok (entries ++ rest)

unfoldable pub read_all : SsTableReader → IoResult (List Entry)
unfolding read_blocks
read_all reader = read_blocks reader.file reader.index

-- `partition_point` of the standard library, on a slice where the test holds up to some index.
unfoldable pub partition_point : (IndexEntry → Bool) → List IndexEntry → ℕ
partition_point p [] = 0
partition_point p (ie ∷ index) = if p ie then suc (partition_point p index) else 0

abbrev pub leb_bytes : Bytes → Bytes → Bool
leb_bytes xs ys = not (ltb_bytes ys xs)

-- The index of the block that may hold the key.
unfoldable pub find_block : List IndexEntry → Bytes → Option ℕ
unfolding partition_point ltb_bytes
find_block [] key = none
find_block (ie ∷ index) key =
    let pos = partition_point (λ e. leb_bytes e.first_key key) (ie ∷ index) in
    if pos == 0 then if ltb_bytes key ie.first_key then none else some 0 else some (pos - 1)

-- The loop of `get` over a block, with fuel for the bytes.
unfoldable pub search_block : ℕ → Bytes → Bytes → IoResult (Option Bytes)
unfolding decode_entry ltb_bytes
search_block zero block key = err out_of_fuel
search_block (suc fuel) [] key = ok none
search_block (suc fuel) block key = decode_entry block >>= λ e.
    let rest = search_block fuel e.2 key in
    if ltb_bytes e.0 key then rest else if ltb_bytes key e.0 then ok none else ok (some e.1)

unfoldable pub get : SsTableReader → Bytes → IoResult (Option Bytes)
unfolding find_block search_block read_block
get reader key = elim (find_block reader.index key) [
  | none ↦ ok none
  | some block_idx ↦ elim (get_elem? reader.index block_idx) [
    | none ↦ err underflow
    | some ie ↦ read_block reader.file ie.offset ie.block_len >>= λ block.
        search_block (suc (length block)) block key
  ]
]

-- A scan: the bytes of the block that are left, and the blocks behind it.
pub record SsTableScan : Type 0 where
  pub file : Bytes
  pub block_buf : Bytes
  pub blocks : List IndexEntry

unfoldable pub scan : SsTableReader → SsTableScan
scan reader = record { file = reader.file; block_buf = []; blocks = reader.index }

-- the loads of `next_entry`: the first block that has bytes
unfoldable pub load : Bytes → Bytes → List IndexEntry → IoResult (Bytes × List IndexEntry)
unfolding read_block
load file (b ∷ buf) blocks = ok (b ∷ buf, blocks)
load file [] [] = ok ([], [])
load file [] (ie ∷ blocks) = read_block file ie.offset ie.block_len >>= λ buf. load file buf blocks

-- the decoding of an entry from the block that is loaded
unfoldable pub next_in : Bytes → Bytes → List IndexEntry → IoResult (Option Entry × SsTableScan)
unfolding decode_entry
next_in file [] blocks = ok (none, record { file = file; block_buf = []; blocks = blocks })
next_in file buf blocks = decode_entry buf >>= λ e.
    ok (some (e.0, e.1), record { file = file; block_buf = e.2; blocks = blocks })

unfoldable pub next_entry : SsTableScan → IoResult (Option Entry × SsTableScan)
unfolding load next_in
next_entry s = load s.file s.block_buf s.blocks >>= λ l. next_in s.file l.0 l.1
