-- ===== src/Lsm/Compaction/Rows.antt =====
-- The rows of a merge once one of them has lost its first entry.
use scry_index.Prelude.{
  ℕ, zero, suc, ◌+◌, false, Option, none, some, List, [], ◌∷◌, length, get_elem?, set, ◌≡◌, refl,
  sym, ap, ◌∙◌, arith, Option-cases, inl, inr,
}
use mathlib.Core.Path.{subst}
use scry_index.Key.Ordinal.{ltb_bytes}
use scry_index.Key.Lexicographic.{eq_bytes, ltb_bytes-asym}
use scry_index.Lsm.Bytes.{Bytes}
use scry_index.Lsm.Sstable.{Entry}
use scry_index.Lsm.Sstable.Reader.{ok, SsTableScan, next_entry}
use scry_index.Lsm.Sstable.Streams.{Streams}
use scry_index.Lsm.Sstable.Sorted.{lookup, IsAscending, AllAbove}
use scry_index.Lsm.Compaction.{push, push_next}
use scry_index.Lsm.Compaction.Pick.{
  Rows, head_of, heap_of, first_value, first_value-later, first_value-found, AtLeast, AllAtLeast,
  AllAscending,
}

-- The first entry of the row is in the heap, and the scan gives the others.
abbrev pub IsBehind : SsTableScan → List Entry → Type 0
IsBehind s [] = Unit {0}
IsBehind s (e ∷ es) = Streams s es

abbrev pub AllBehind : List SsTableScan → Rows → Type 0
AllBehind scans [] = Unit {0}
AllBehind [] (es ∷ rows) = ⊥
AllBehind (s ∷ scans) (es ∷ rows) = IsBehind s es × AllBehind scans rows

abbrev pub first_of : List Entry → Option Entry
first_of [] = none
first_of (e ∷ es) = some e

abbrev pub total : Rows → ℕ
total [] = 0
total (es ∷ rows) = length es + total rows

-- The call that follows a pop.
pub Streams-next :
    (s : SsTableScan) (es : List Entry)
    → Streams s es
    → (s' : SsTableScan) × (next_entry s ≡ ok (first_of es, s')) × IsBehind s' es
Streams-next s [] h = (h.0, h.1, tt)
Streams-next s (e ∷ es) h = h

pub AllBehind-get_elem? :
    (scans : List SsTableScan) (rows : Rows) (i : ℕ) (e : Entry) (es : List Entry)
    → AllBehind scans rows
    → get_elem? rows i ≡ some (e ∷ es)
    → (s : SsTableScan) × (get_elem? scans i ≡ some s) × Streams s es
AllBehind-get_elem? scans [] i e es h g = absurd (ground arith)
AllBehind-get_elem? [] (r ∷ rows) i e es h g = absurd h
AllBehind-get_elem? (s ∷ scans) (r ∷ rows) zero e es h g =
    let same : r ≡ e ∷ es = cc in (s, refl, subst (IsBehind s) same h.0)
AllBehind-get_elem? (s ∷ scans) (r ∷ rows) (suc i) e es h g =
    AllBehind-get_elem? scans rows i e es h.1 g

pub AllBehind-set :
    (scans : List SsTableScan) (rows : Rows) (i : ℕ) (s : SsTableScan) (es : List Entry)
    → AllBehind scans rows
    → IsBehind s es
    → AllBehind (set scans i s) (set rows i es)
AllBehind-set scans [] i s es h g = tt
AllBehind-set [] (r ∷ rows) i s es h g = absurd h
AllBehind-set (s' ∷ scans) (r ∷ rows) zero s es h g = (g, h.1)
AllBehind-set (s' ∷ scans) (r ∷ rows) (suc i) s es h g =
    (h.0, AllBehind-set scans rows i s es h.1 g)

set-set {ℓ} : {A : Type ℓ} (xs : List A) (i : ℕ) (a b : A) → set (set xs i a) i b ≡ set xs i b
set-set [] i a b = refl
set-set (x ∷ xs) zero a b = refl
set-set (x ∷ xs) (suc i) a b = ap (λ t. x ∷ t) (set-set xs i a b)

heap_of-set :
    (source : ℕ) (rows : Rows) (i : ℕ) (es : List Entry)
    → set (heap_of source rows) i (head_of (source + i) es) ≡ heap_of source (set rows i es)
unfolding heap_of
heap_of-set source [] i es = refl
heap_of-set source (r ∷ rows) zero es =
    ap (λ t. head_of t es ∷ heap_of (suc source) rows) (omega arith)
heap_of-set source (r ∷ rows) (suc i) es =
    ap (λ t. head_of source r ∷ set (heap_of (suc source) rows) i (head_of t es)) (omega arith)
    ∙ ap (λ t. head_of source r ∷ t) (heap_of-set (suc source) rows i es)

-- The heap after the pop and the push.
pub push_next-heap_of :
    (rows : Rows) (i : ℕ) (es : List Entry)
    → push_next (set (heap_of 0 rows) i none) i (first_of es) ≡ heap_of 0 (set rows i es)
unfolding push
push_next-heap_of rows i [] = heap_of-set 0 rows i []
push_next-heap_of rows i ((k, v) ∷ es) =
    set-set (heap_of 0 rows) i none (head_of i ((k, v) ∷ es))
    ∙ ap (λ t. set (heap_of 0 rows) i (head_of t ((k, v) ∷ es))) (omega arith)
    ∙ heap_of-set 0 rows i ((k, v) ∷ es)

pub lookup-tail :
    (key k v : Bytes) (es : List Entry)
    → eq_bytes k key ≡ false
    → lookup key ((k, v) ∷ es) ≡ lookup key es
unfolding lookup
lookup-tail key k v es h = rw (lookup, h) refl

first_value-cong :
    (key : Bytes) (xs ys : List Entry) (rows : Rows)
    → lookup key xs ≡ lookup key ys
    → first_value key (xs ∷ rows) ≡ first_value key (ys ∷ rows)
unfolding first_value
first_value-cong key xs ys rows h = rw (first_value, h) refl

first_value-cong_rest :
    (key : Bytes) (r : List Entry) (rows rows' : Rows)
    → first_value key rows ≡ first_value key rows'
    → first_value key (r ∷ rows) ≡ first_value key (r ∷ rows')
first_value-cong_rest key r rows rows' h = elim (Option-cases (lookup key r)) [
  | inl n ↦ first_value-later key r rows n ∙ h ∙ sym (first_value-later key r rows' n)
  | inr (v, f) ↦ first_value-found key v r rows f ∙ sym (first_value-found key v r rows' f)
]

-- What a row keeps when it loses its first entry.
pub first_value-set :
    (rows : Rows) (i : ℕ) (key k v : Bytes) (es : List Entry)
    → get_elem? rows i ≡ some ((k, v) ∷ es)
    → eq_bytes k key ≡ false
    → first_value key (set rows i es) ≡ first_value key rows
unfolding first_value
first_value-set [] i key k v es h g = refl
first_value-set (r ∷ rows) zero key k v es h g =
    let same : r ≡ (k, v) ∷ es = cc in
    first_value-cong key es r rows (sym (ap (lookup key) same ∙ lookup-tail key k v es g))
first_value-set (r ∷ rows) (suc i) key k v es h g =
    first_value-cong_rest key r (set rows i es) rows (first_value-set rows i key k v es h g)

pub total-set :
    (rows : Rows) (i : ℕ) (e : Entry) (es : List Entry)
    → get_elem? rows i ≡ some (e ∷ es)
    → total rows ≡ suc (total (set rows i es))
total-set [] i e es h = absurd (ground arith)
total-set (r ∷ rows) zero e es h = let same : r ≡ e ∷ es = cc in omega (arith, ap length same)
total-set (r ∷ rows) (suc i) e es h = omega (arith, total-set rows i e es h)

pub AllAscending-set :
    (rows : Rows) (i : ℕ) (k v : Bytes) (es : List Entry)
    → AllAscending rows
    → get_elem? rows i ≡ some ((k, v) ∷ es)
    → AllAscending (set rows i es) × AllAbove k es
AllAscending-set [] i k v es s h = absurd (ground arith)
AllAscending-set (r ∷ rows) zero k v es s h =
    let same : r ≡ (k, v) ∷ es = cc in let asc = subst IsAscending same s.0 in ((asc.1, s.1), asc.0)
AllAscending-set (r ∷ rows) (suc i) k v es s h =
    let (a, b) = AllAscending-set rows i k v es s.1 h in ((s.0, a), b)

AllAbove-AtLeast : (k : Bytes) (es : List Entry) → AllAbove k es → AtLeast k es
AllAbove-AtLeast k [] h = tt
AllAbove-AtLeast k ((k', v') ∷ es) h = ltb_bytes-asym k k' h.0

pub AllAtLeast-set :
    (rows : Rows) (i : ℕ) (k : Bytes) (es : List Entry)
    → AllAtLeast k rows
    → AllAbove k es
    → AllAtLeast k (set rows i es)
AllAtLeast-set [] i k es h g = tt
AllAtLeast-set (r ∷ rows) zero k es h g = (AllAbove-AtLeast k es g, h.1)
AllAtLeast-set (r ∷ rows) (suc i) k es h g = (h.0, AllAtLeast-set rows i k es h.1 g)

pub AllAtLeast-get_elem? :
    (rows : Rows) (i : ℕ) (bound k v : Bytes) (es : List Entry)
    → AllAtLeast bound rows
    → get_elem? rows i ≡ some ((k, v) ∷ es)
    → ltb_bytes k bound ≡ false
AllAtLeast-get_elem? [] i bound k v es h g = absurd (ground arith)
AllAtLeast-get_elem? (r ∷ rows) zero bound k v es h g =
    let same : r ≡ (k, v) ∷ es = cc in subst (AtLeast bound) same h.0
AllAtLeast-get_elem? (r ∷ rows) (suc i) bound k v es h g =
    AllAtLeast-get_elem? rows i bound k v es h.1 g
