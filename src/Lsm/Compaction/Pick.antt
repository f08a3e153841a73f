-- ===== src/Lsm/Compaction/Pick.antt =====
-- What the heap of a merge gives: the least key, and of its entries the one of the lowest source.
use scry_index.Prelude.{
  ℕ, suc, ◌+◌, ◌<◌, true, false, Option, none, some, List, [], ◌∷◌, get_elem?, ltb_of_le,
  if◌then◌else◌, ◌≡◌, refl, sym, ◌∙◌, arith, Bool-cases, Option-cases, inl, inr,
}
use mathlib.Core.Path.{subst}
use scry_index.Key.Ordinal.{ltb_bytes}
use scry_index.Key.Lexicographic.{
  eq_bytes, eq_bytes-above, eq_bytes_lem, ltb_bytes_irrefl, ltb_bytes-asym, ltb_bytes-lt_le,
}
use scry_index.Lsm.Bytes.{Bytes}
use scry_index.Lsm.Sstable.{Entry}
use scry_index.Lsm.Sstable.Sorted.{lookup, IsAscending, lookup-AllAbove}
use scry_index.Lsm.Compaction.{MergeEntry, is_greater, Heap, greater_of, greatest}

-- The rest of each table, the entry that the heap holds first.
abbrev pub Rows : Type 0
Rows = List (List Entry)

abbrev pub head_of : ℕ → List Entry → Option MergeEntry
head_of source [] = none
head_of source ((key, value) ∷ es) = some (record { key = key; value = value; source = source })

unfoldable pub heap_of : ℕ → Rows → Heap
heap_of source [] = []
heap_of source (es ∷ rows) = head_of source es ∷ heap_of (suc source) rows

-- the value of a key in the first table that has the key: the oldest one
unfoldable pub first_value : Bytes → Rows → Option Bytes
unfolding lookup
first_value key [] = none
first_value key (es ∷ rows) = elim (lookup key es) [ none ↦ first_value key rows | some v ↦ some v ]

abbrev pub AtLeast : Bytes → List Entry → Type 0
AtLeast bound [] = Unit {0}
AtLeast bound ((k, v) ∷ es) = ltb_bytes k bound ≡ false

-- no row starts with a key below the bound
abbrev pub AllAtLeast : Bytes → Rows → Type 0
AllAtLeast bound [] = Unit {0}
AllAtLeast bound (es ∷ rows) = AtLeast bound es × AllAtLeast bound rows

abbrev pub AllAscending : Rows → Type 0
AllAscending [] = Unit {0}
AllAscending (es ∷ rows) = IsAscending es × AllAscending rows

-- What holds of the entry that is popped.
pub record Picked (source : ℕ) (rows : Rows) (e : MergeEntry) : Type 0 where
  pub index : ℕ
  pub tail : List Entry
  pub source_eq : e.source ≡ source + index
  pub row_eq : get_elem? rows index ≡ some ((e.key, e.value) ∷ tail)
  pub least : AllAtLeast e.key rows
  pub value_eq : first_value e.key rows ≡ some e.value

ltb_bytes-le_trans :
    (xs ys zs : Bytes) → ltb_bytes ys xs ≡ false → ltb_bytes zs ys ≡ false → ltb_bytes zs xs ≡ false
ltb_bytes-le_trans xs ys zs h g = elim (Bool-cases (ltb_bytes zs xs)) [
  | inl l ↦ let c = ltb_bytes-lt_le zs xs ys l h in cc
  | inr e ↦ e
]

AtLeast-trans :
    (es : List Entry) (a b : Bytes) → ltb_bytes b a ≡ false → AtLeast b es → AtLeast a es
AtLeast-trans [] a b h g = tt
AtLeast-trans ((k, v) ∷ es) a b h g = ltb_bytes-le_trans a b k h g

AllAtLeast-trans :
    (rows : Rows) (a b : Bytes) → ltb_bytes b a ≡ false → AllAtLeast b rows → AllAtLeast a rows
AllAtLeast-trans [] a b h g = tt
AllAtLeast-trans (es ∷ rows) a b h g = (AtLeast-trans es a b h g.0, AllAtLeast-trans rows a b h g.1)

-- Where the heap is empty, every row is.
abbrev pub AllEmpty : Rows → Type 0
AllEmpty [] = Unit {0}
AllEmpty (es ∷ rows) = (es ≡ []) × AllEmpty rows

greater_of-none : (a b : Option MergeEntry) → greater_of a b ≡ none → (a ≡ none) × (b ≡ none)
greater_of-none none b h = (refl, h)
greater_of-none (some a) none h = absurd (ground arith)
greater_of-none (some a) (some b) h = absurd (elim (Bool-cases (is_greater b a)) [
  | inl e ↦ (let c : some b ≡ none = subst (λ t. (if t then some b else some a) ≡ none) e h in cc)
  | inr e ↦ (let c : some a ≡ none = subst (λ t. (if t then some b else some a) ≡ none) e h in cc)
])

pub greatest-none :
    (source : ℕ) (rows : Rows) → greatest (heap_of source rows) ≡ none → AllEmpty rows
unfolding greatest heap_of
greatest-none source [] h = tt
greatest-none source ([] ∷ rows) h = (refl, greatest-none (suc source) rows h)
greatest-none source (((k, v) ∷ es) ∷ rows) h = absurd (
    let c =
      (greater_of-none (head_of source ((k, v) ∷ es)) (greatest (heap_of (suc source) rows)) h).0 in
    cc)

pub AllEmpty-first_value : (rows : Rows) (key : Bytes) → AllEmpty rows → first_value key rows ≡ none
unfolding first_value lookup
AllEmpty-first_value [] key h = refl
AllEmpty-first_value (es ∷ rows) key h = rw (h.0, AllEmpty-first_value rows key h.1) refl

AllEmpty-AllAtLeast : (rows : Rows) (key : Bytes) → AllEmpty rows → AllAtLeast key rows
AllEmpty-AllAtLeast [] key h = tt
AllEmpty-AllAtLeast (es ∷ rows) key h =
    (subst (AtLeast key) (sym h.0) tt, AllEmpty-AllAtLeast rows key h.1)

eq_bytes_refl : (xs : Bytes) → eq_bytes xs xs ≡ true
eq_bytes_refl xs = rw (eq_bytes_lem xs xs, ltb_bytes_irrefl xs) refl

pub lookup-head : (k v : Bytes) (es : List Entry) → lookup k ((k, v) ∷ es) ≡ some v
unfolding lookup
lookup-head k v es = rw (lookup, eq_bytes_refl k) refl

pub first_value-found :
    (key v : Bytes) (es : List Entry) (rows : Rows)
    → lookup key es ≡ some v
    → first_value key (es ∷ rows) ≡ some v
unfolding first_value
first_value-found key v es rows h = rw (first_value, h) refl

pub first_value-later :
    (key : Bytes) (es : List Entry) (rows : Rows)
    → lookup key es ≡ none
    → first_value key (es ∷ rows) ≡ first_value key rows
unfolding first_value
first_value-later key es rows h = rw (first_value, h) refl

Picked-here :
    (source : ℕ) (k v : Bytes) (es : List Entry) (rows : Rows)
    → AllAtLeast k rows
    → Picked source (((k, v) ∷ es) ∷ rows) (record { key = k; value = v; source = source })
Picked-here source k v es rows h = record {
  index = 0;
  tail = es;
  source_eq = omega arith;
  row_eq = refl;
  least = (ltb_bytes_irrefl k, h);
  value_eq = first_value-found k v ((k, v) ∷ es) rows (lookup-head k v es);
}

Picked-later :
    (source : ℕ) (es : List Entry) (rows : Rows) (e : MergeEntry)
    → Picked (suc source) rows e
    → lookup e.key es ≡ none
    → AtLeast e.key es
    → Picked source (es ∷ rows) e
Picked-later source es rows e p h g = record {
  index = suc p.index;
  tail = p.tail;
  source_eq = omega (arith, p.source_eq);
  row_eq = p.row_eq;
  least = (g, p.least);
  value_eq = first_value-later e.key es rows h ∙ p.value_eq;
}

-- Where the key of one entry is at most another's, and the other's source is later.
is_greater-later : (e a : MergeEntry) → a.source < e.source → is_greater e a ≡ ltb_bytes e.key a.key
unfolding is_greater
is_greater-later e a h = rw (ltb_of_le e.source a.source (omega arith)) (ground arith)

-- The branch of two candidates.
Picked-first :
    (source : ℕ) (k v : Bytes) (es : List Entry) (rows : Rows) (b : MergeEntry)
    → IsAscending ((k, v) ∷ es)
    → Picked (suc source) rows b
    → (e : MergeEntry)
    → (if is_greater b (record { key = k; value = v; source = source })
        then some b
        else some (record { key = k; value = v; source = source }))
      ≡ some e
    → Picked source (((k, v) ∷ es) ∷ rows) e
Picked-first source k v es rows b s p e h =
    let a : MergeEntry = record { key = k; value = v; source = source } in
    let same = is_greater-later b a (omega (arith, p.source_eq)) in
    elim (Bool-cases (ltb_bytes b.key k)) [
      | inl l ↦
          let eq : some b ≡ some e =
            subst (λ t. (if t then some b else some a) ≡ some e) (same ∙ l) h in
          let eq' : b ≡ e = cc in
          subst (Picked source (((k, v) ∷ es) ∷ rows)) eq' (
            Picked-later source ((k, v) ∷ es) rows b p
              (unfold lookup in
                rw (eq_bytes-above k b.key l)
                  (lookup-AllAbove es k b.key s.0 (ltb_bytes-asym b.key k l)))
              (ltb_bytes-asym b.key k l))
      | inr l ↦
          let eq : some a ≡ some e =
            subst (λ t. (if t then some b else some a) ≡ some e) (same ∙ l) h in
          let eq' : a ≡ e = cc in
          subst (Picked source (((k, v) ∷ es) ∷ rows)) eq'
            (Picked-here source k v es rows (AllAtLeast-trans rows k b.key l p.least))
    ]

pub greatest-Picked :
    (source : ℕ) (rows : Rows) (e : MergeEntry)
    → AllAscending rows
    → greatest (heap_of source rows) ≡ some e
    → Picked source rows e
unfolding greatest heap_of
greatest-Picked source [] e s h = absurd (ground arith)
greatest-Picked source ([] ∷ rows) e s h =
    Picked-later source [] rows e (greatest-Picked (suc source) rows e s.1 h)
      (unfold lookup in refl) tt
greatest-Picked source (((k, v) ∷ es) ∷ rows) e s h =
    let a : MergeEntry = record { key = k; value = v; source = source } in
    elim (Option-cases (greatest (heap_of (suc source) rows))) [
      | inl n ↦
          let eq : some a ≡ some e = subst (λ t. greater_of (some a) t ≡ some e) n h in
          let eq' : a ≡ e = cc in
          subst (Picked source (((k, v) ∷ es) ∷ rows)) eq' (
            Picked-here source k v es rows
              (AllEmpty-AllAtLeast rows k (greatest-none (suc source) rows n)))
      | inr (b, n) ↦
          Picked-first source k v es rows b s.0 (greatest-Picked (suc source) rows b s.1 n) e
            (subst (λ t. greater_of (some a) t ≡ some e) n h)
    ]
