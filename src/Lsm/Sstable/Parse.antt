-- ===== src/Lsm/Sstable/Parse.antt =====
-- The blocks and the index of a table are read back.
use scry_index.Prelude.{
  ℕ, zero, suc, ◌+◌, ◌^◌, ◌<◌, some, List, [], ◌∷◌, ◌++◌, ◌≡◌, refl, sym, ap, ◌∙◌, arith, length,
  length-append, take, drop,
}
use mathlib.Core.List.{append_assoc}
use scry_index.Lsm.Bytes.{
  Bytes, length_prefixed, length-length_prefixed, le_bytes, le_limit, from_le, from_le-le_bytes,
  length-le_bytes, read_exact, read_exact-append, read_length_prefixed, read_length_prefixed-append,
}
use scry_index.Lsm.Sstable.{Entry, IndexEntry, encode_entry, encode_index}
use scry_index.Lsm.Sstable.Reader.{
  ok, ◌>>=◌, read_block, parse_index, decode_entry, decode_all, read_blocks,
}
use scry_index.Lsm.Sstable.Blocks.{encode_entries, encode_blocks, entry_of, index_of, concat}

-- lengths that a `u32` holds
abbrev pub AllFit : List Entry → Type 0
AllFit [] = Unit {0}
AllFit ((key, value) ∷ es) = (length key < 2 ^ 32) × (length value < 2 ^ 32) × AllFit es

abbrev pub BlocksFit : List (List Entry) → Type 0
BlocksFit [] = Unit {0}
BlocksFit (b ∷ bs) = AllFit b × BlocksFit bs

pub AllFit-append_left : (xs ys : List Entry) → AllFit (xs ++ ys) → AllFit xs
AllFit-append_left [] ys h = tt
AllFit-append_left ((k, v) ∷ xs) ys h = (h.0, h.1, AllFit-append_left xs ys h.2)

AllFit-append_right : (xs ys : List Entry) → AllFit (xs ++ ys) → AllFit ys
AllFit-append_right [] ys h = h
AllFit-append_right ((k, v) ∷ xs) ys h = AllFit-append_right xs ys h.2

pub concat-BlocksFit : (bs : List (List Entry)) → AllFit (concat bs) → BlocksFit bs
concat-BlocksFit [] h = tt
concat-BlocksFit (b ∷ bs) h =
    (AllFit-append_left b (concat bs) h, concat-BlocksFit bs (AllFit-append_right b (concat bs) h))

-- Reads of a part of the file.
drop-append : (xs ys : Bytes) → drop (length xs) (xs ++ ys) ≡ ys
drop-append [] ys = refl
drop-append (x ∷ xs) ys = drop-append xs ys

take-append : (xs ys : Bytes) → take (length xs) (xs ++ ys) ≡ xs
take-append [] ys = refl
take-append (x ∷ xs) ys = ap (λ t. x ∷ t) (take-append xs ys)

pub read_block-append :
    (before buf rest : Bytes)
    → read_block (before ++ (buf ++ rest)) (length before) (length buf) ≡ ok buf
unfolding read_block
read_block-append before buf rest =
    rw (read_block, drop-append before (buf ++ rest), read_exact-append buf rest) refl

-- The decoding of what was encoded.
decode_entry_step :
    (block key mid value next : Bytes)
    → read_length_prefixed block ≡ some (key, mid)
    → read_length_prefixed mid ≡ some (value, next)
    → decode_entry block ≡ ok (key, value, next)
unfolding decode_entry
decode_entry_step block key mid value next p q = rw (decode_entry, p, q) refl

pub decode_entry-encode_entry :
    (key value rest : Bytes)
    → length key < 2 ^ 32
    → length value < 2 ^ 32
    → decode_entry (encode_entry key value ++ rest) ≡ ok (key, value, rest)
unfolding encode_entry
decode_entry-encode_entry key value rest h g =
    let e = append_assoc (length_prefixed key) (length_prefixed value) rest in
    decode_entry_step (encode_entry key value ++ rest) key (length_prefixed value ++ rest) value
      rest
      (ap read_length_prefixed e
        ∙ read_length_prefixed-append key (length_prefixed value ++ rest) h)
      (read_length_prefixed-append value rest g)

pub length-encode_entry :
    (key value : Bytes) → length (encode_entry key value) ≡ 8 + length key + length value
unfolding encode_entry
length-encode_entry key value = omega (
  arith,
  length-append (length_prefixed key) (length_prefixed value),
  length-length_prefixed key,
  length-length_prefixed value,
)

decode_all_step :
    (fuel : ℕ) (block : Bytes)
    → 0 < length block
    → decode_all (suc fuel) block
      ≡ (decode_entry block >>= λ e. decode_all fuel e.2 >>= λ entries. ok ((e.0, e.1) ∷ entries))
unfolding decode_all
decode_all_step fuel [] h = absurd (omega arith)
decode_all_step fuel (b ∷ block) h = refl

pub decode_all-encode_entries :
    (es : List Entry) (fuel : ℕ)
    → AllFit es
    → length (encode_entries es) < fuel
    → decode_all fuel (encode_entries es) ≡ ok es
unfolding encode_entries
decode_all-encode_entries es zero h f = absurd (omega arith)
decode_all-encode_entries [] (suc fuel) h f = unfold decode_all in refl
decode_all-encode_entries ((k, v) ∷ es) (suc fuel) h f =
    let len = length-append (encode_entry k v) (encode_entries es) in
    let size = length-encode_entry k v in
    rw
      (
        decode_all_step fuel (encode_entry k v ++ encode_entries es) (omega (arith, len, size)),
        decode_entry-encode_entry k v (encode_entries es) h.0 h.1,
        decode_all-encode_entries es fuel h.2 (omega (arith, len, size)),
      )
      refl

read_blocks_step :
    (file key : Bytes) (o : ℕ) (b es : List Entry) (index : List IndexEntry)
    → AllFit b
    → read_block file o (length (encode_entries b)) ≡ ok (encode_entries b)
    → read_blocks file index ≡ ok es
    → read_blocks file
        (record { first_key = key; offset = o; block_len = length (encode_entries b) } ∷ index)
      ≡ ok (b ++ es)
unfolding read_blocks
read_blocks_step file key o b es index h r t =
    rw
      (
        read_blocks,
        r,
        decode_all-encode_entries b (suc (length (encode_entries b))) h (omega arith),
        t,
      )
      refl

-- An empty block has no entry in the index.
read_first :
    (b : List Entry) (before rest : Bytes) (es : List Entry) (index : List IndexEntry)
    → AllFit b
    → read_blocks (before ++ (encode_entries b ++ rest)) index ≡ ok es
    → read_blocks (before ++ (encode_entries b ++ rest)) (entry_of (length before) b ++ index)
      ≡ ok (b ++ es)
read_first [] before rest es index h t = t
read_first ((k, v) ∷ b) before rest es index h t =
    read_blocks_step (before ++ (encode_entries ((k, v) ∷ b) ++ rest)) k (length before)
      ((k, v) ∷ b) es index h (read_block-append before (encode_entries ((k, v) ∷ b)) rest) t

pub read_blocks-index_of :
    (bs : List (List Entry)) (before rest : Bytes)
    → BlocksFit bs
    → read_blocks (before ++ (encode_blocks bs ++ rest)) (index_of (length before) bs)
      ≡ ok (concat bs)
unfolding index_of encode_blocks
read_blocks-index_of [] before rest h = unfold read_blocks in refl
read_blocks-index_of (b ∷ bs) before rest h =
    let ih = read_blocks-index_of bs (before ++ encode_entries b) rest h.1 in
    let e = append_assoc before (encode_entries b) (encode_blocks bs ++ rest) in
    let f = append_assoc (encode_entries b) (encode_blocks bs) rest in
    let l = length-append before (encode_entries b) in
    let there : read_blocks (before ++ (encode_entries b ++ (encode_blocks bs ++ rest)))
          (index_of (length before + length (encode_entries b)) bs)
        ≡ ok (concat bs) =
      rw (sym e, sym l) ih in
    rw f (
      read_first b before (encode_blocks bs ++ rest) (concat bs)
        (index_of (length before + length (encode_entries b)) bs) h.0 there)

-- The index is parsed back where its numbers are below 2 ^ 64.
abbrev pub IndexFits : List IndexEntry → Type 0
IndexFits [] = Unit {0}
IndexFits (ie ∷ index) =
    (length ie.first_key < 2 ^ 32)
    × (ie.offset < le_limit 8)
    × (ie.block_len < le_limit 8)
    × IndexFits index

read_exact-le_bytes :
    (n : ℕ) (rest : Bytes) → read_exact 8 (le_bytes 8 n ++ rest) ≡ some (le_bytes 8 n, rest)
read_exact-le_bytes n rest =
    rw (sym (ap (λ t. read_exact t (le_bytes 8 n ++ rest)) (length-le_bytes 8 n)))
      (read_exact-append (le_bytes 8 n) rest)

parse_index_step :
    (fuel : ℕ) (buf key mid mid' rest o len : Bytes)
    → 0 < length buf
    → read_length_prefixed buf ≡ some (key, mid)
    → read_exact 8 mid ≡ some (o, mid')
    → read_exact 8 mid' ≡ some (len, rest)
    → parse_index (suc fuel) buf
      ≡ record { first_key = key; offset = from_le o; block_len = from_le len }
        ∷ parse_index fuel rest
unfolding parse_index
parse_index_step fuel [] key mid mid' rest o len z p q r = absurd (omega arith)
parse_index_step fuel (b ∷ buf) key mid mid' rest o len z p q r = rw (parse_index, p, q, r) refl

length-encode_index :
    (ie : IndexEntry) (index : List IndexEntry)
    → length (encode_index (ie ∷ index)) ≡ 20 + length ie.first_key + length (encode_index index)
unfolding encode_index
length-encode_index ie index =
    let tail = encode_index index in
    omega (
      arith,
      length-length_prefixed ie.first_key,
      length-append (length_prefixed ie.first_key)
          (le_bytes 8 ie.offset ++ (le_bytes 8 ie.block_len ++ tail)),
      length-append (le_bytes 8 ie.offset) (le_bytes 8 ie.block_len ++ tail),
      length-append (le_bytes 8 ie.block_len) tail,
      length-le_bytes 8 ie.offset,
      length-le_bytes 8 ie.block_len,
    )

pub parse_index-encode_index :
    (index : List IndexEntry) (fuel : ℕ)
    → IndexFits index
    → length (encode_index index) < fuel
    → parse_index fuel (encode_index index) ≡ index
parse_index-encode_index index zero h f = absurd (omega arith)
parse_index-encode_index [] (suc fuel) h f = unfold parse_index encode_index in refl
parse_index-encode_index (ie ∷ index) (suc fuel) h f =
    let tail = encode_index index in
    let size = length-encode_index ie index in
    parse_index_step fuel (encode_index (ie ∷ index)) ie.first_key
      (le_bytes 8 ie.offset ++ (le_bytes 8 ie.block_len ++ tail)) (le_bytes 8 ie.block_len ++ tail)
      tail (le_bytes 8 ie.offset) (le_bytes 8 ie.block_len) (omega (arith, size))
      (unfold encode_index in
        read_length_prefixed-append ie.first_key
          (le_bytes 8 ie.offset ++ (le_bytes 8 ie.block_len ++ tail)) h.0)
      (read_exact-le_bytes ie.offset (le_bytes 8 ie.block_len ++ tail))
      (read_exact-le_bytes ie.block_len tail)
    ∙ rw
        (
          from_le-le_bytes 8 ie.offset h.1,
          from_le-le_bytes 8 ie.block_len h.2,
          parse_index-encode_index index fuel h.3 (omega (arith, size)),
        )
        refl
