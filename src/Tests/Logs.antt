-- ===== src/Tests/Logs.antt =====
-- Recovery of one log, and the ordinals of two byte keys.
use scry_index.Prelude.Int.{◌≤ℤ◌}
use scry_index.Key.Ordinal.{
  ltb_bytes, bytes_to_exact_ordinal, bytes_to_exact_ordinal-mono, bytes_to_exact_ordinal-injective,
}
use scry_index.Prelude.{ℕ, ◌≡◌, refl, List, [], ◌∷◌, take, length, arith}
use scry_index.Lsm.Wal.{WalRecord, put, delete, ok, recover_loop, append, append_put, append_delete}
use scry_index.Lsm.Bytes.{length_prefixed, le32}
use scry_index.Lsm.Wal.Recovery.{write_all, whole, AllWritable, recover_loop_lem}

abbrev two_records : List WalRecord
two_records = put (97 ∷ []) (49 ∷ 50 ∷ []) ∷ delete (98 ∷ []) ∷ []

writable : AllWritable two_records
writable = ((omega arith, omega arith), (omega arith, tt))

-- cut in the second record
recover_loop_lem_example :
    recover_loop 16 (take 15 (write_all [] two_records)) ≡ ok (whole 15 two_records)
recover_loop_lem_example = recover_loop_lem two_records 16 15 writable (omega arith)

bytes : length (write_all [] two_records) ≡ 22
unfolding write_all append append_put append_delete length_prefixed le32
bytes = refl

-- "ab" and "b"
abbrev low_key : List ℕ
low_key = 97 ∷ 98 ∷ []

abbrev high_key : List ℕ
high_key = 98 ∷ []

bytes_to_exact_ordinal-mono_example :
    bytes_to_exact_ordinal low_key ≤ℤ bytes_to_exact_ordinal high_key
unfolding ltb_bytes
bytes_to_exact_ordinal-mono_example =
    bytes_to_exact_ordinal-mono low_key high_key (omega arith, (omega arith, tt)) refl

bytes_to_exact_ordinal-injective_example : low_key ≡ low_key
bytes_to_exact_ordinal-injective_example =
    bytes_to_exact_ordinal-injective low_key low_key (omega arith, (omega arith, tt))
      (omega arith, (omega arith, tt)) refl (omega arith) refl
