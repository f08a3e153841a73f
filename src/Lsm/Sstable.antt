-- ===== src/Lsm/Sstable.antt =====
-- scry-lsm/src/sstable: the format of the tables and their writer. A file is the list of its bytes,
-- and the writer's buffer is part of it.
pub mod Reader
pub mod Blocks
pub mod Parse
pub mod RoundTrip
pub mod Sorted
pub mod FindBlock
pub mod Lookup
pub mod KeyRange
pub mod Streams
use scry_index.Prelude.{
  ℕ, zero, suc, ◌+◌, ◌-◌, Bool, true, false, Option, none, some, List, [], ◌∷◌, ◌++◌, length, take,
  drop, leb, ltb, ◌==◌, if◌then◌else◌,
}
use scry_index.Key.Ordinal.{ltb_bytes}
use scry_index.Lsm.Bytes.{
  Bytes, length_prefixed, le_bytes, from_le, le32, from_le32, read_exact, read_length_prefixed,
}

abbrev pub magic : ℕ
magic = 0x5353544C

abbrev pub default_block_size : ℕ
default_block_size = 4096

abbrev pub footer_size : ℕ
footer_size = 20

abbrev pub Entry : Type 0
Entry = Bytes × Bytes

-- the first key, the offset and the length of a block
pub record IndexEntry : Type 0 where
  pub first_key : Bytes
  pub offset : ℕ
  pub block_len : ℕ

-- `file` holds what was written. Offsets are unbounded: a file is shorter than 2 ^ 64 bytes.
pub record SsTableWriter : Type 0 where
  pub file : Bytes
  pub block_size : ℕ
  pub block_buf : Bytes
  pub block_first_key : Option Bytes
  pub block_offset : ℕ
  pub index : List IndexEntry
  pub entry_count : ℕ
  pub min_key : Option Bytes
  pub max_key : Option Bytes

unfoldable pub with_block_size : ℕ → SsTableWriter
with_block_size block_size = record {
  file = [];
  block_size = block_size;
  block_buf = [];
  block_first_key = none;
  block_offset = 0;
  index = [];
  entry_count = 0;
  min_key = none;
  max_key = none;
}

unfoldable pub new : SsTableWriter
unfolding with_block_size
new = with_block_size default_block_size

abbrev pub push_index : Option Bytes → ℕ → ℕ → List IndexEntry → List IndexEntry
push_index none offset block_len index = index
push_index (some first_key) offset block_len index =
    index ++ record { first_key = first_key; offset = offset; block_len = block_len } ∷ []

unfoldable pub flush_block : SsTableWriter → SsTableWriter
flush_block w = record w {
  file = w.file ++ w.block_buf;
  index = push_index w.block_first_key w.block_offset (length w.block_buf) w.index;
  block_first_key = none;
  block_offset = w.block_offset + length w.block_buf;
  block_buf = [];
}

abbrev pub or_first : Option Bytes → Bytes → Option Bytes
or_first none key = some key
or_first (some first) key = some first

unfoldable pub encode_entry : Bytes → Bytes → Bytes
unfolding length_prefixed
encode_entry key value = length_prefixed key ++ length_prefixed value

unfoldable pub add : SsTableWriter → Bytes → Bytes → SsTableWriter
unfolding encode_entry flush_block
add w key value =
    let w' = record w {
      min_key = or_first w.min_key key;
      max_key = some key;
      block_first_key = or_first w.block_first_key key;
      block_buf = w.block_buf ++ encode_entry key value;
      entry_count = w.entry_count + 1;
    } in
    if leb w.block_size (length (w.block_buf ++ encode_entry key value)) then flush_block w' else w'

unfoldable pub encode_index : List IndexEntry → Bytes
unfolding length_prefixed le_bytes
encode_index [] = []
encode_index (ie ∷ index) =
    length_prefixed ie.first_key
    ++ (le_bytes 8 ie.offset ++ (le_bytes 8 ie.block_len ++ encode_index index))

unfoldable pub footer : ℕ → ℕ → Bytes
unfolding le_bytes
footer index_offset entry_count =
    le_bytes 8 index_offset ++ (le_bytes 8 entry_count ++ le_bytes 4 magic)

abbrev pub or_empty : Option Bytes → Bytes
or_empty none = []
or_empty (some key) = key

-- What `finish` gives: the file, the number of entries and the two bounds of the keys.
pub record Table : Type 0 where
  pub file : Bytes
  pub entry_count : ℕ
  pub min_key : Bytes
  pub max_key : Bytes

-- the rest of `finish`, once the last block is written
abbrev pub write_index : SsTableWriter → Table
write_index w = record {
  file = w.file ++ (encode_index w.index ++ footer w.block_offset w.entry_count);
  entry_count = w.entry_count;
  min_key = or_empty w.min_key;
  max_key = or_empty w.max_key;
}

unfoldable pub finish : SsTableWriter → Table
unfolding flush_block encode_index footer
finish w = write_index (if length w.block_buf == 0 then w else flush_block w)

-- the loop of the callers: one `add` for each entry
unfoldable pub add_all : SsTableWriter → List Entry → SsTableWriter
unfolding add
add_all w [] = w
add_all w ((key, value) ∷ entries) = add_all (add w key value) entries
