-- ===== src/Lsm/Compaction/Rounds.antt =====
-- What one round of a merge adds to what it writes.
use scry_index.Prelude.{
  ℕ, Bool, true, false, ◌&&◌, ◌||◌, Option, none, some, List, [], ◌∷◌, get_elem?, set,
  if◌then◌else◌, ◌≡◌, refl, sym, ap, ◌∙◌, arith, Bool-cases, inl, inr,
}
use mathlib.Core.Path.{subst}
use scry_index.Key.Ordinal.{ltb_bytes}
use scry_index.Key.Lexicographic.{
  eq_bytes, eq_bytes-neither, eq_bytes→≡, ltb_bytes_irrefl, ltb_bytes-le_lt,
}
use scry_index.Lsm.Bytes.{Bytes}
use scry_index.Lsm.Sstable.{Entry, add, add_all}
use scry_index.Lsm.Sstable.Sorted.{lookup, lookup-AllAbove, IsAscending, AllAbove, AllAbove-trans}
use scry_index.Lsm.Compaction.{MergeEntry, Merge, is_last, is_empty}
use scry_index.Lsm.Compaction.Pick.{
  Rows, first_value, AllAtLeast, AllAscending, Picked, lookup-head,
}
use scry_index.Lsm.Compaction.Rows.{first_value-set, AllAtLeast-get_elem?, lookup-tail}

-- at the highest level, a value that is empty is left out
abbrev pub kept : Bool → Option Bytes → Option Bytes
kept is_highest none = none
kept is_highest (some v) = if is_highest && is_empty v then none else some v

abbrev pub AboveLast : Option Bytes → List Entry → Type 0
AboveLast none es = Unit {0}
AboveLast (some last) es = AllAbove last es

pub AboveLast-empty : (last : Option Bytes) → AboveLast last []
AboveLast-empty none = tt
AboveLast-empty (some last) = tt

abbrev pub FromLast : Option Bytes → Rows → Type 0
FromLast none rows = Unit {0}
FromLast (some last) rows = AllAtLeast last rows

abbrev pub not_empty : List Entry → Bool
not_empty [] = false
not_empty (e ∷ es) = true

-- From the state `m` the merge of the rows writes `out`.
pub record Merged (is_highest : Bool) (rows : Rows) (m m' : Merge) (out : List Entry) : Type 0 where
  pub writer_eq : m'.writer ≡ add_all m.writer out
  pub wrote_eq : m'.wrote_any ≡ (m.wrote_any || not_empty out)
  pub lookup_eq :
      (key : Bytes)
      → is_last m.last_key key ≡ false
      → lookup key out ≡ kept is_highest (first_value key rows)
  pub ascending : IsAscending out
  pub above : AboveLast m.last_key out

AllAbove-le_trans :
    (a b : Bytes) (es : List Entry) → ltb_bytes b a ≡ false → AllAbove b es → AllAbove a es
AllAbove-le_trans a b [] h g = tt
AllAbove-le_trans a b ((k, v) ∷ es) h g =
    (ltb_bytes-le_lt a b k h g.0, AllAbove-le_trans a b es h g.1)

-- The rest of the merge, once the entry that was popped is the last key.
AboveLast-rest :
    (last : Option Bytes) (rows : Rows) (i : ℕ) (k v : Bytes) (tail out : List Entry)
    → FromLast last rows
    → get_elem? rows i ≡ some ((k, v) ∷ tail)
    → AllAbove k out
    → AboveLast last out
AboveLast-rest none rows i k v tail out h g a = tt
AboveLast-rest (some last) rows i k v tail out h g a =
    AllAbove-le_trans last k out (AllAtLeast-get_elem? rows i last k v tail h g) a

AboveLast-cons :
    (last : Option Bytes) (rows : Rows) (i : ℕ) (k v : Bytes) (tail out : List Entry)
    → FromLast last rows
    → get_elem? rows i ≡ some ((k, v) ∷ tail)
    → is_last last k ≡ false
    → AllAbove k out
    → AboveLast last ((k, v) ∷ out)
AboveLast-cons none rows i k v tail out h g n a = tt
AboveLast-cons (some last) rows i k v tail out h g n a =
    let le = AllAtLeast-get_elem? rows i last k v tail h g in
    elim (Bool-cases (ltb_bytes last k)) [
      | inl l ↦ (l, AllAbove-trans last k out l a)
      | inr e ↦ (let c = eq_bytes-neither last k e le in absurd cc)
    ]

is_last-other :
    (last : Option Bytes) (k key : Bytes)
    → is_last last k ≡ true
    → is_last last key ≡ false
    → eq_bytes k key ≡ false
is_last-other none k key h g = absurd (ground arith)
is_last-other (some last) k key h g = subst (λ t. eq_bytes t key ≡ false) (eq_bytes→≡ last k h) g

-- The three branches of a round, for the entry that was popped and the merge of what is left.
module _ (is_highest : Bool) (rows : Rows) (m : Merge) (e : MergeEntry) (p : Picked 0 rows e)
    (asc : AllAscending rows) (from : FromLast m.last_key rows) where
  rest_lookup :
      (m1 m' : Merge) (out : List Entry) (key : Bytes)
      → Merged is_highest (set rows p.index p.tail) m1 m' out
      → is_last m1.last_key key ≡ false
      → eq_bytes e.key key ≡ false
      → lookup key out ≡ kept is_highest (first_value key rows)
  rest_lookup m1 m' out key r n d =
      r.lookup_eq key n
      ∙ ap (kept is_highest) (first_value-set rows p.index key e.key e.value p.tail p.row_eq d)

  -- a key that was written before
  pub skip_Merged :
      (m' : Merge) (out : List Entry)
      → is_last m.last_key e.key ≡ true
      → Merged is_highest (set rows p.index p.tail) m m' out
      → Merged is_highest rows m m' out
  skip_Merged m' out d r = record {
    writer_eq = r.writer_eq;
    wrote_eq = r.wrote_eq;
    lookup_eq = λ key n. rest_lookup m m' out key r n (is_last-other m.last_key e.key key d n);
    ascending = r.ascending;
    above = r.above;
  }

  -- a tombstone at the highest level
  pub drop_Merged :
      (m' : Merge) (out : List Entry)
      → (is_highest && is_empty e.value) ≡ true
      → Merged is_highest (set rows p.index p.tail) (record m { last_key = some e.key }) m' out
      → Merged is_highest rows m m' out
  drop_Merged m' out d r = record {
    writer_eq = r.writer_eq;
    wrote_eq = r.wrote_eq;
    lookup_eq = λ key n. elim (Bool-cases (eq_bytes e.key key)) [
      | inl s ↦
          subst (λ t. lookup t out ≡ kept is_highest (first_value t rows)) (eq_bytes→≡ e.key key s)
            (lookup-AllAbove out e.key e.key r.above (ltb_bytes_irrefl e.key)
              ∙ sym (rw (p.value_eq, d) refl))
      | inr f ↦ rest_lookup (record m { last_key = some e.key }) m' out key r f f
    ];
    ascending = r.ascending;
    above = AboveLast-rest m.last_key rows p.index e.key e.value p.tail out from p.row_eq r.above;
  }

  pub write_Merged :
      (m' : Merge) (out : List Entry)
      → is_last m.last_key e.key ≡ false
      → (is_highest && is_empty e.value) ≡ false
      → Merged is_highest
          (set rows p.index p.tail)
          (record { writer = add m.writer e.key e.value; last_key = some e.key; wrote_any = true })
          m'
          out
      → Merged is_highest rows m m' ((e.key, e.value) ∷ out)
  write_Merged m' out n d r = record {
    writer_eq = unfold add_all in r.writer_eq;
    wrote_eq = r.wrote_eq ∙ ground arith;
    lookup_eq = λ key l. elim (Bool-cases (eq_bytes e.key key)) [
      | inl s ↦
          subst (λ t. lookup t ((e.key, e.value) ∷ out) ≡ kept is_highest (first_value t rows))
            (eq_bytes→≡ e.key key s) (lookup-head e.key e.value out ∙ sym (rw (p.value_eq, d) refl))
      | inr f ↦
          lookup-tail key e.key e.value out f
          ∙ rest_lookup
              (record {
                writer = add m.writer e.key e.value;
                last_key = some e.key;
                wrote_any = true;
              })
              m' out key r f f
    ];
    ascending = (r.above, r.ascending);
    above = AboveLast-cons m.last_key rows p.index e.key e.value p.tail out from p.row_eq n r.above;
  }
