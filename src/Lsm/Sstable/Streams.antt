-- ===== src/Lsm/Sstable/Streams.antt =====
-- A scan of a table gives its entries one after the other.
use scry_index.Prelude.{
  ◌+◌, ◌<◌, none, some, List, [], ◌∷◌, ◌++◌, ◌≡◌, refl, sym, ◌∙◌, arith, length, length-append,
}
use mathlib.Core.Path.{subst}
use mathlib.Core.List.{append_assoc}
use scry_index.Lsm.Bytes.{Bytes}
use scry_index.Lsm.Sstable.{Entry, IndexEntry, Table, encode_entry, encode_index, footer}
use scry_index.Lsm.Sstable.Reader.{
  ok, SsTableScan, scan, next_entry, next_in, load, read_block, decode_entry,
}
use scry_index.Lsm.Sstable.Blocks.{encode_entries, encode_blocks, index_of, entry_of, concat}
use scry_index.Lsm.Sstable.Parse.{
  AllFit, BlocksFit, concat-BlocksFit, decode_entry-encode_entry, length-encode_entry,
  read_block-append,
}
use scry_index.Lsm.Sstable.RoundTrip.{Finished}

-- what the calls of `next_entry` return
abbrev pub Streams : SsTableScan → List Entry → Type 0
Streams s [] = (s' : SsTableScan) × (next_entry s ≡ ok (none, s'))
Streams s (e ∷ es) = (s' : SsTableScan) × (next_entry s ≡ ok (some e, s')) × Streams s' es

Streams-cong :
    (es : List Entry) (s t : SsTableScan)
    → next_entry s ≡ next_entry t
    → Streams t es
    → Streams s es
Streams-cong [] s t e h = (h.0, e ∙ h.1)
Streams-cong (x ∷ es) s t e h = (h.0, e ∙ h.1, h.2)

abbrev at : Bytes → Bytes → List IndexEntry → SsTableScan
at file buf blocks = record { file = file; block_buf = buf; blocks = blocks }

next_entry_block :
    (file buf : Bytes) (blocks : List IndexEntry) (key value next : Bytes)
    → 0 < length buf
    → decode_entry buf ≡ ok (key, value, next)
    → next_entry (at file buf blocks) ≡ ok (some (key, value), at file next blocks)
unfolding next_entry load next_in
next_entry_block file [] blocks key value next h d = absurd (omega arith)
next_entry_block file (b ∷ buf) blocks key value next h d = rw (d) refl

next_entry_load :
    (file buf : Bytes) (ie : IndexEntry) (blocks : List IndexEntry)
    → read_block file ie.offset ie.block_len ≡ ok buf
    → next_entry (at file [] (ie ∷ blocks)) ≡ next_entry (at file buf blocks)
unfolding next_entry load
next_entry_load file buf ie blocks h = rw (h) refl

Streams-entries :
    (es : List Entry) (file : Bytes) (blocks : List IndexEntry) (later : List Entry)
    → AllFit es
    → Streams (at file [] blocks) later
    → Streams (at file (encode_entries es) blocks) (es ++ later)
unfolding encode_entries
Streams-entries [] file blocks later h s = s
Streams-entries ((k, v) ∷ es) file blocks later h s = (
  at file (encode_entries es) blocks,
  next_entry_block file (encode_entry k v ++ encode_entries es) blocks k v (encode_entries es)
      (omega (arith, length-append (encode_entry k v) (encode_entries es), length-encode_entry k v))
      (decode_entry-encode_entry k v (encode_entries es) h.0 h.1),
  Streams-entries es file blocks later h.2 s,
)

-- the step to a block, if it has entries
Streams-block :
    (b : List Entry) (front rest : Bytes) (blocks : List IndexEntry) (later : List Entry)
    → AllFit b
    → Streams (at (front ++ (encode_entries b ++ rest)) [] blocks) later
    → Streams
        (at (front ++ (encode_entries b ++ rest)) [] (entry_of (length front) b ++ blocks))
        (b ++ later)
Streams-block [] front rest blocks later h s = s
Streams-block ((k, v) ∷ b) front rest blocks later h s =
    let file = front ++ (encode_entries ((k, v) ∷ b) ++ rest) in
    let ie : IndexEntry = record {
      first_key = k;
      offset = length front;
      block_len = length (encode_entries ((k, v) ∷ b));
    } in
    Streams-cong ((k, v) ∷ b ++ later) (at file [] (ie ∷ blocks))
      (at file (encode_entries ((k, v) ∷ b)) blocks)
      (next_entry_load file (encode_entries ((k, v) ∷ b)) ie blocks
        (read_block-append front (encode_entries ((k, v) ∷ b)) rest))
      (Streams-entries ((k, v) ∷ b) file blocks later h s)

Streams-blocks :
    (bs : List (List Entry)) (front rest : Bytes)
    → BlocksFit bs
    → Streams (at (front ++ (encode_blocks bs ++ rest)) [] (index_of (length front) bs)) (concat bs)
unfolding encode_blocks index_of
Streams-blocks [] front rest h = (at (front ++ rest) [] [], unfold next_entry load next_in in refl)
Streams-blocks (b ∷ bs) front rest h =
    let ih = Streams-blocks bs (front ++ encode_entries b) rest h.1 in
    let e = append_assoc front (encode_entries b) (encode_blocks bs ++ rest) in
    let f = append_assoc (encode_entries b) (encode_blocks bs) rest in
    let l = length-append front (encode_entries b) in
    let there : Streams
        (at (front ++ (encode_entries b ++ (encode_blocks bs ++ rest))) []
          (index_of (length front + length (encode_entries b)) bs))
        (concat bs) =
      rw (sym e, sym l) ih in
    rw f (
      Streams-block b front (encode_blocks bs ++ rest)
        (index_of (length front + length (encode_entries b)) bs) (concat bs) h.0 there)

-- The scan of a table that was written whole.
pub scan-Streams :
    (t : Table) (es : List Entry) (f : Finished t es)
    → AllFit es
    → Streams
        (scan (record { file = t.file; index = index_of 0 f.blocks; entry_count = length es }))
        es
unfolding scan
scan-Streams t es f h = subst (Streams (at t.file [] (index_of 0 f.blocks))) f.contents (
    subst (λ x. Streams (at x [] (index_of 0 f.blocks)) (concat f.blocks)) (sym f.file_eq)
      (Streams-blocks f.blocks []
        (encode_index (index_of 0 f.blocks) ++ footer (length (encode_blocks f.blocks)) (length es))
        (concat-BlocksFit f.blocks (subst AllFit (sym f.contents) h))))
