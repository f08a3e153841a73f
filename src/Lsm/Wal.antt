-- ===== src/Lsm/Wal.antt =====
-- scry-lsm/src/wal.rs: the write-ahead log. The file is the list of its bytes.
pub mod Recovery
use scry_index.Prelude.{ℕ, zero, suc, Option, none, some, List, [], ◌∷◌, ◌++◌, ◌==◌, if◌then◌else◌}
use scry_index.Lsm.Bytes.{Bytes, le32, length_prefixed, read_exact, read_length_prefixed}

abbrev pub record_put : ℕ
record_put = 0x01

abbrev pub record_delete : ℕ
record_delete = 0x02

pub data WalRecord : Type 0 where
  put : (key : Bytes) → (value : Bytes) → WalRecord
  delete : (key : Bytes) → WalRecord

-- What `recover` returns: the records, or the corruption error for an unknown type. `unfinished`
-- stands for a run out of fuel.
pub data Recovered : Type 0 where
  ok : List WalRecord → Recovered
  corruption : (unknown : ℕ) → Recovered
  unfinished : Recovered

-- The bytes that a call appends.
unfoldable pub append_put : Bytes → Bytes → Bytes → Bytes
unfolding length_prefixed
append_put file key value = file ++ record_put ∷ (length_prefixed key ++ length_prefixed value)

unfoldable pub append_delete : Bytes → Bytes → Bytes
unfolding length_prefixed
append_delete file key = file ++ record_delete ∷ (length_prefixed key ++ le32 0)

unfoldable pub append : Bytes → WalRecord → Bytes
unfolding append_put append_delete
append file (put key value) = append_put file key value
append file (delete key) = append_delete file key

unfoldable pub truncate : Bytes → Bytes
truncate file = []

abbrev pub push_front : WalRecord → Recovered → Recovered
push_front r (ok records) = ok (r ∷ records)
push_front r (corruption unknown) = corruption unknown
push_front r unfinished = unfinished

-- the `match` on the type of a record that was read whole
abbrev pub push_record : ℕ → Bytes → Bytes → Recovered → Recovered
push_record type key value rest =
    if type == record_put
    then push_front (put key value) rest
    else if type == record_delete
    then push_front (delete key) rest
    else corruption type

-- The loop of `recover`, with fuel. The records come in the order of the file.
unfoldable pub recover_loop : ℕ → Bytes → Recovered
unfolding read_length_prefixed
recover_loop zero reader = unfinished
recover_loop (suc fuel) [] = ok []
recover_loop (suc fuel) (type ∷ reader) = elim (read_length_prefixed reader) [
  | none ↦ ok []
  | some (key, reader') ↦ elim (read_length_prefixed reader') [
    | none ↦ ok []
    | some (value, reader'') ↦ push_record type key value (recover_loop fuel reader'')
  ]
]
