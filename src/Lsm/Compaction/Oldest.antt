-- ===== src/Lsm/Compaction/Oldest.antt =====
-- What the merge of the tables of a level writes: the oldest value of each key.
use scry_index.Prelude.{
  ℕ, zero, suc, ◌<◌, Bool, true, false, ◌&&◌, Option, none, some, List, [], ◌∷◌, get_elem?, set,
  ◌≡◌, refl, sym, ap, ◌∙◌, arith, Bool-cases, Option-cases, inl, inr,
}
use mathlib.Core.Path.{subst}
use scry_index.Key.Lexicographic.{eq_bytes→≡}
use scry_index.Lsm.Bytes.{Bytes}
use scry_index.Lsm.Sstable.{Entry, SsTableWriter, add, add_all}
use scry_index.Lsm.Sstable.Reader.{ok, SsTableScan, next_entry, ◌>>=◌}
use scry_index.Lsm.Sstable.Streams.{Streams}
use scry_index.Lsm.Sstable.Sorted.{lookup, IsAscending}
use scry_index.Lsm.Compaction.{
  MergeEntry, Heap, seed, merge_entry, Merge, emit, is_last, is_empty, greatest, pop, push_next,
  merge_loop,
}
use scry_index.Lsm.Compaction.Pick.{
  Rows, head_of, heap_of, first_value, AllAtLeast, AllAscending, Picked, greatest-Picked,
  greatest-none, AllEmpty-first_value,
}
use scry_index.Lsm.Compaction.Rows.{
  AllBehind, AllBehind-get_elem?, AllBehind-set, Streams-next, total, total-set, push_next-heap_of,
  AllAscending-set, AllAtLeast-set, first_of,
}
use scry_index.Lsm.Compaction.Rounds.{
  kept, AboveLast-empty, FromLast, not_empty, Merged, skip_Merged, drop_Merged, write_Merged,
}

emit-skip :
    (is_highest : Bool) (m : Merge) (e : MergeEntry)
    → is_last m.last_key e.key ≡ true
    → emit is_highest m e ≡ m
unfolding emit
emit-skip is_highest m e h = rw (emit, h) refl

emit-drop :
    (is_highest : Bool) (m : Merge) (e : MergeEntry)
    → is_last m.last_key e.key ≡ false
    → (is_highest && is_empty e.value) ≡ true
    → emit is_highest m e ≡ record m { last_key = some e.key }
unfolding emit
emit-drop is_highest m e h g = rw (emit, h, g) refl

emit-write :
    (is_highest : Bool) (m : Merge) (e : MergeEntry)
    → is_last m.last_key e.key ≡ false
    → (is_highest && is_empty e.value) ≡ false
    → emit is_highest m e
      ≡ record { writer = add m.writer e.key e.value; last_key = some e.key; wrote_any = true }
unfolding emit
emit-write is_highest m e h g = rw (emit, h, g) refl

is_last-FromLast :
    (last : Option Bytes) (key : Bytes) (rows : Rows)
    → is_last last key ≡ true
    → AllAtLeast key rows
    → FromLast last rows
is_last-FromLast none key rows h g = tt
is_last-FromLast (some last) key rows h g =
    subst (λ t. AllAtLeast t rows) (sym (eq_bytes→≡ last key h)) g

-- The last key after a round, whatever the round does.
emit-FromLast :
    (is_highest : Bool) (m : Merge) (e : MergeEntry) (rows : Rows)
    → AllAtLeast e.key rows
    → FromLast (emit is_highest m e).last_key rows
emit-FromLast is_highest m e rows h = elim (Bool-cases (is_last m.last_key e.key)) [
  | inl l ↦
      subst (λ (t : Merge). FromLast t.last_key rows) (sym (emit-skip is_highest m e l))
        (is_last-FromLast m.last_key e.key rows l h)
  | inr n ↦ elim (Bool-cases (is_highest && is_empty e.value)) [
    | inl d ↦ subst (λ (t : Merge). FromLast t.last_key rows) (sym (emit-drop is_highest m e n d)) h
    | inr d ↦
        subst (λ (t : Merge). FromLast t.last_key rows) (sym (emit-write is_highest m e n d)) h
  ]
]

-- One round and the rest of the merge.
emit-Merged :
    (is_highest : Bool) (rows : Rows) (m m' : Merge) (e : MergeEntry) (p : Picked 0 rows e)
    → AllAscending rows
    → FromLast m.last_key rows
    → (out : List Entry) → Merged is_highest (set rows p.index p.tail) (emit is_highest m e) m' out
    → (out' : List Entry) × Merged is_highest rows m m' out'
emit-Merged is_highest rows m m' e p asc from out r =
    let left = λ (t : Merge). Merged is_highest (set rows p.index p.tail) t m' out in
    elim (Bool-cases (is_last m.last_key e.key)) [
      | inl l ↦ (
        out,
        skip_Merged is_highest rows m e p asc from m' out l
            (subst left (emit-skip is_highest m e l) r),
      )
      | inr n ↦ elim (Bool-cases (is_highest && is_empty e.value)) [
        | inl d ↦ (
          out,
          drop_Merged is_highest rows m e p asc from m' out d
              (subst left (emit-drop is_highest m e n d) r),
        )
        | inr d ↦ (
          (e.key, e.value) ∷ out,
          write_Merged is_highest rows m e p asc from m' out n d
              (subst left (emit-write is_highest m e n d) r),
        )
      ]
    ]

merge_loop_end :
    (fuel : ℕ) (is_highest : Bool) (rows : Rows) (scans : List SsTableScan) (m : Merge)
    → greatest (heap_of 0 rows) ≡ none
    → (merge_loop (suc fuel) is_highest (heap_of 0 rows) scans m ≡ ok m)
      × Merged is_highest rows m m []
unfolding merge_loop pop lookup add_all
merge_loop_end fuel is_highest rows scans m h = (
  rw (merge_loop, h) refl,
  record {
    writer_eq = refl;
    wrote_eq = ground arith;
    lookup_eq = λ key n.
        sym (ap (kept is_highest) (AllEmpty-first_value rows key (greatest-none 0 rows h)));
    ascending = tt;
    above = AboveLast-empty m.last_key;
  },
)

merge_loop_step :
    (fuel : ℕ) (is_highest : Bool) (heap : Heap) (scans : List SsTableScan) (m : Merge)
    (e : MergeEntry) (s s' : SsTableScan) (n : Option Entry)
    → greatest heap ≡ some e
    → get_elem? scans e.source ≡ some s
    → next_entry s ≡ ok (n, s')
    → merge_loop (suc fuel) is_highest heap scans m
      ≡ merge_loop fuel is_highest
          (push_next (set heap e.source none) e.source n)
          (set scans e.source s')
          (emit is_highest m e)
unfolding merge_loop pop
merge_loop_step fuel is_highest heap scans m e s s' n h g f = rw (merge_loop, h, g, f) refl

-- With fuel for the entries.
merge_loop-Merged :
    (fuel : ℕ) (is_highest : Bool) (rows : Rows) (scans : List SsTableScan) (m : Merge)
    → total rows < fuel
    → AllAscending rows
    → AllBehind scans rows
    → FromLast m.last_key rows
    → (m' : Merge) × (out : List Entry) × (merge_loop fuel is_highest (heap_of 0 rows) scans m
        ≡ ok m')
      × Merged is_highest rows m m' out
merge_loop-Merged zero is_highest rows scans m f asc behind from = absurd (omega arith)
merge_loop-Merged (suc fuel) is_highest rows scans m f asc behind from =
    elim (Option-cases (greatest (heap_of 0 rows))) [
      | inl n ↦ let (a, b) = merge_loop_end fuel is_highest rows scans m n in (m, [], a, b)
      | inr (e, g) ↦
          let p = greatest-Picked 0 rows e asc g in
          let (s, at, streams) =
            AllBehind-get_elem? scans rows p.index (e.key, e.value) p.tail behind p.row_eq in
          let (s', next, behind') = Streams-next s p.tail streams in
          let (asc', above) = AllAscending-set rows p.index e.key e.value p.tail asc p.row_eq in
          let rows' = set rows p.index p.tail in
          let source : e.source ≡ p.index = omega (arith, p.source_eq) in
          let (m', out, run, merged) =
            merge_loop-Merged fuel is_highest rows' (set scans p.index s') (emit is_highest m e)
              (omega (arith, total-set rows p.index (e.key, e.value) p.tail p.row_eq)) asc'
              (AllBehind-set scans rows p.index s' p.tail behind behind')
              (emit-FromLast is_highest m e rows'
                (AllAtLeast-set rows p.index e.key p.tail p.least above)) in
          let (out', merged') = emit-Merged is_highest rows m m' e p asc from out merged in
          (
            m',
            out',
            merge_loop_step fuel is_highest (heap_of 0 rows) scans m e s s' (first_of p.tail) g
                  (ap (get_elem? scans) source ∙ at) next
                ∙ ap
                    (λ t.
                      merge_loop fuel is_highest
                        (push_next (set (heap_of 0 rows) t none) t (first_of p.tail))
                        (set scans t s') (emit is_highest m e))
                    source
                ∙ ap
                    (λ t. merge_loop fuel is_highest t (set scans p.index s') (emit is_highest m e))
                    (push_next-heap_of rows p.index p.tail)
                ∙ run,
            merged',
          )
    ]

-- Every table of the level is a list in the order of its keys, and its scan gives it.
abbrev pub AllStream : List SsTableScan → Rows → Type 0
AllStream [] [] = Unit {0}
AllStream [] (es ∷ rows) = ⊥
AllStream (s ∷ scans) [] = ⊥
AllStream (s ∷ scans) (es ∷ rows) = Streams s es × AllStream scans rows

merge_entry-first_of :
    (source : ℕ) (es : List Entry) → merge_entry source (first_of es) ≡ head_of source es
merge_entry-first_of source [] = refl
merge_entry-first_of source (e ∷ es) = refl

-- The heap and the scans after the first entry of each was read.
seed_lem :
    (source : ℕ) (scans : List SsTableScan) (rows : Rows)
    → AllStream scans rows
    → (scans' : List SsTableScan) × (seed source scans ≡ ok (heap_of source rows, scans'))
      × AllBehind scans' rows
unfolding seed heap_of
seed_lem source [] [] h = ([], refl, tt)
seed_lem source [] (es ∷ rows) h = absurd h
seed_lem source (s ∷ scans) [] h = absurd h
seed_lem source (s ∷ scans) (es ∷ rows) h =
    let (s', next, behind) = Streams-next s es h.0 in
    let (scans', rest, behinds) = seed_lem (suc source) scans rows h.1 in
    (
      s' ∷ scans',
      rw (next, rest)
          (ap (λ t. ok (t ∷ heap_of (suc source) rows, s' ∷ scans'))
            (merge_entry-first_of source es)),
      (behind, behinds),
    )

-- The seeds and the loop together, from the state of a merge that has written nothing.
pub merge_loop-seed :
    (fuel : ℕ) (is_highest : Bool) (rows : Rows) (scans : List SsTableScan) (writer : SsTableWriter)
    → total rows < fuel
    → AllAscending rows
    → AllStream scans rows
    → (m' : Merge) × (out : List Entry) × ((seed 0 scans >>= λ r.
          merge_loop fuel is_highest r.0 r.1
            (record { writer = writer; last_key = none; wrote_any = false }))
        ≡ ok m')
      × (m'.writer ≡ add_all writer out)
      × (m'.wrote_any ≡ not_empty out)
      × IsAscending out
      × ((key : Bytes) → lookup key out ≡ kept is_highest (first_value key rows))
merge_loop-seed fuel is_highest rows scans writer f asc streams =
    let (scans', seeded, behind) = seed_lem 0 scans rows streams in
    let (m', out, run, merged) =
      merge_loop-Merged fuel is_highest rows scans'
        (record { writer = writer; last_key = none; wrote_any = false }) f asc behind tt in
    (
      m',
      out,
      rw seeded run,
      merged.writer_eq,
      merged.wrote_eq,
      merged.ascending,
      λ key. merged.lookup_eq key refl,
    )
