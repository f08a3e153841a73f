-- ===== src/Lsm/Sstable/Sorted.antt =====
-- Entries in the order of their keys, and the lookup that a table stands for.
use scry_index.Prelude.{
  false, Option, none, some, List, [], ◌∷◌, ◌++◌, ◌≡◌, refl, arith, if◌then◌else◌,
}
use scry_index.Key.Ordinal.{ltb_bytes}
use scry_index.Key.Lexicographic.{
  IsBelow, eq_bytes, eq_bytes-below, eq_bytes-above, ltb_bytes-asym, ltb_bytes_trans,
  ltb_bytes-le_lt, ltb_bytes-lt_le,
}
use scry_index.Lsm.Bytes.{Bytes}
use scry_index.Lsm.Sstable.{Entry}

-- the value of the first entry with the key
unfoldable pub lookup : Bytes → List Entry → Option Bytes
lookup key [] = none
lookup key ((k, v) ∷ es) = if eq_bytes k key then some v else lookup key es

-- every key of the list is above a bound
abbrev pub AllAbove : Bytes → List Entry → Type 0
AllAbove bound [] = Unit {0}
AllAbove bound ((k, v) ∷ es) = IsBelow bound k × AllAbove bound es

-- strictly ascending keys
abbrev pub IsAscending : List Entry → Type 0
IsAscending [] = Unit {0}
IsAscending ((k, v) ∷ es) = AllAbove k es × IsAscending es

pub AllAbove-trans : (a b : Bytes) (es : List Entry) → IsBelow a b → AllAbove b es → AllAbove a es
AllAbove-trans a b [] h g = tt
AllAbove-trans a b ((k, v) ∷ es) h g = (ltb_bytes_trans a b k h g.0, AllAbove-trans a b es h g.1)

-- A key at or below a bound is not found among those above it.
pub lookup-AllAbove :
    (es : List Entry) (bound key : Bytes)
    → AllAbove bound es
    → ltb_bytes bound key ≡ false
    → lookup key es ≡ none
unfolding lookup
lookup-AllAbove [] bound key h l = refl
lookup-AllAbove ((k, v) ∷ es) bound key h l =
    rw (eq_bytes-above k key (ltb_bytes-le_lt key bound k l h.0))
      (lookup-AllAbove es bound key h.1 l)

pub lookup-below :
    (k v key : Bytes) (es : List Entry)
    → IsAscending ((k, v) ∷ es)
    → IsBelow key k
    → lookup key ((k, v) ∷ es) ≡ none
unfolding lookup
lookup-below k v key es h l =
    rw (eq_bytes-above k key l) (lookup-AllAbove es k key h.0 (ltb_bytes-asym key k l))

-- the last key of a list that is not empty
abbrev pub last_key : Bytes → List Entry → Bytes
last_key k [] = k
last_key k ((k', v') ∷ es) = last_key k' es

pub lookup-after :
    (k v key : Bytes) (es : List Entry)
    → IsAscending ((k, v) ∷ es)
    → IsBelow (last_key k es) key
    → (lookup key ((k, v) ∷ es) ≡ none) × IsBelow k key
unfolding lookup
lookup-after k v key [] h l = (rw (eq_bytes-below k key l) refl, l)
lookup-after k v key ((k', v') ∷ es) h l =
    let (none_later, below) = lookup-after k' v' key es h.1 l in
    let first = ltb_bytes_trans k k' key h.0.0 below in
    (rw (eq_bytes-below k key first) none_later, first)

pub AllAbove-append_left :
    (xs ys : List Entry) (bound : Bytes) → AllAbove bound (xs ++ ys) → AllAbove bound xs
AllAbove-append_left [] ys bound h = tt
AllAbove-append_left ((k, v) ∷ xs) ys bound h = (h.0, AllAbove-append_left xs ys bound h.1)

pub AllAbove-append_right :
    (xs ys : List Entry) (bound : Bytes) → AllAbove bound (xs ++ ys) → AllAbove bound ys
AllAbove-append_right [] ys bound h = h
AllAbove-append_right ((k, v) ∷ xs) ys bound h = AllAbove-append_right xs ys bound h.1

pub IsAscending-append_left : (xs ys : List Entry) → IsAscending (xs ++ ys) → IsAscending xs
IsAscending-append_left [] ys h = tt
IsAscending-append_left ((k, v) ∷ xs) ys h =
    (AllAbove-append_left xs ys k h.0, IsAscending-append_left xs ys h.1)

pub IsAscending-append_right : (xs ys : List Entry) → IsAscending (xs ++ ys) → IsAscending ys
IsAscending-append_right [] ys h = h
IsAscending-append_right ((k, v) ∷ xs) ys h = IsAscending-append_right xs ys h.1

pub lookup-append :
    (xs ys : List Entry) (key : Bytes)
    → lookup key (xs ++ ys) ≡ (elim (lookup key xs) [ none ↦ lookup key ys | some v ↦ some v ])
unfolding lookup
lookup-append [] ys key = refl
lookup-append ((k, v) ∷ xs) ys key = ground (arith, lookup-append xs ys key)

-- A key that is not below the bound of the entries behind a run is above the run.
pub lookup-before :
    (xs ys : List Entry) (key : Bytes) (k : Bytes) (v : Bytes)
    → IsAscending (xs ++ (k, v) ∷ ys)
    → ltb_bytes key k ≡ false
    → lookup key xs ≡ none
unfolding lookup
lookup-before [] ys key k v h l = refl
lookup-before ((k', v') ∷ xs) ys key k v h l =
    let below = (AllAbove-append_right xs ((k, v) ∷ ys) k' h.0).0 in
    rw (eq_bytes-below k' key (ltb_bytes-lt_le k' k key below l))
      (lookup-before xs ys key k v h.1 l)
