-- ===== src/Node/Laws.antt =====
-- How the operations on one slot show in `slot_state`, `predict_slot` and `capacity`.
use mathlib.Core.Option.{some-injective}
use scry_index.Prelude.{
  ℕ, zero, suc, ◌≤◌, ◌<◌, none, some, ◌≡◌, refl, sym, ap, arith, ◌==◌, if◌then◌else◌,
}
use scry_index.Key.{F64, Key}
use scry_index.Model.{predict-lt}
use scry_index.Node.{
  Node, Slots, Slot, node, nil, cons, slot_empty, size, empties, nth, set_nth, capacity, slot_state,
  put_slot, predict_slot,
}

module _ {F K V : Type 0} where
  nth-set_nth :
      (ss : Slots F K V) (i j : ℕ) (x : Slot F K V)
      → i < size ss
      → nth (set_nth ss i x) j ≡ (if i == j then some x else nth ss j)
  nth-set_nth nil i j x h = elim h [ ]
  nth-set_nth (cons s ss) zero zero x h = ground arith
  nth-set_nth (cons s ss) zero (suc j) x h = ground arith
  nth-set_nth (cons s ss) (suc i) zero x h = ground arith
  nth-set_nth (cons s ss) (suc i) (suc j) x h = ground (arith, nth-set_nth ss i j x)

  pub size-set_nth : (ss : Slots F K V) (i : ℕ) (x : Slot F K V) → size (set_nth ss i x) ≡ size ss
  size-set_nth nil i x = refl
  size-set_nth (cons s ss) zero x = refl
  size-set_nth (cons s ss) (suc i) x = ground (arith, size-set_nth ss i x)

  pub nth-empties : (n i : ℕ) → i < n → nth (empties {F = F} {K = K} {V = V} n) i ≡ some slot_empty
  nth-empties zero i h = elim h [ ]
  nth-empties (suc n) zero h = refl
  nth-empties (suc n) (suc i) h = nth-empties n i (ground arith)

  pub slot_state-put_slot :
      (n : Node F K V) (i j : ℕ) (x : Slot F K V)
      → i < capacity n
      → slot_state (put_slot n i x) j ≡ (if i == j then some x else slot_state n j)
  unfolding slot_state put_slot capacity
  slot_state-put_slot (node m sk hc nk nt ss) i j x h = nth-set_nth ss i j x h

  pub capacity-put_slot :
      (n : Node F K V) (i : ℕ) (x : Slot F K V) → capacity (put_slot n i x) ≡ capacity n
  unfolding put_slot capacity
  capacity-put_slot (node m sk hc nk nt ss) i x = size-set_nth ss i x

  set_nth-same :
      (ss : Slots F K V) (i : ℕ) (s : Slot F K V) → nth ss i ≡ some s → set_nth ss i s ≡ ss
  set_nth-same nil i s e = refl
  set_nth-same (cons x ss) zero s e =
      ap (λ (y : Slot F K V). cons y ss) (some-injective s x (sym e))
  set_nth-same (cons x ss) (suc i) s e = ap (cons x) (set_nth-same ss i s e)

  -- A slot written with what it holds.
  pub put_slot-same :
      (n : Node F K V) (i : ℕ) (s : Slot F K V) → slot_state n i ≡ some s → put_slot n i s ≡ n
  unfolding slot_state put_slot
  put_slot-same (node m sk hc nk nt ss) i s e = ap (node m sk hc nk nt) (set_nth-same ss i s e)

  nth-lt : (ss : Slots F K V) (i : ℕ) {s : Slot F K V} → nth ss i ≡ some s → i < size ss
  nth-lt nil i h = cc
  nth-lt (cons x ss) zero h = omega arith
  nth-lt (cons x ss) (suc i) h = omega (arith, nth-lt ss i h)

  -- A slot that was read is in bounds.
  pub slot_state-lt :
      (n : Node F K V) (i : ℕ) {s : Slot F K V} → slot_state n i ≡ some s → i < capacity n
  unfolding slot_state capacity
  slot_state-lt (node m sk hc nk nt ss) i h = nth-lt ss i h

  nth-none : (ss : Slots F K V) (i : ℕ) → nth ss i ≡ none → size ss ≤ i
  nth-none nil i h = omega arith
  nth-none (cons x ss) zero h = cc
  nth-none (cons x ss) (suc i) h = omega (arith, nth-none ss i h)

  pub slot_state-none : (n : Node F K V) (i : ℕ) → slot_state n i ≡ none → capacity n ≤ i
  unfolding slot_state capacity
  slot_state-none (node m sk hc nk nt ss) i h = nth-none ss i h

module _ (F K V : Type 0) where
  pub size-empties : (n : ℕ) → size (empties {F = F} {K = K} {V = V} n) ≡ n
  size-empties zero = refl
  size-empties (suc n) = ground (arith, size-empties n)

module _ {F K V : Type 0} ⦃f : F64 F⦄ ⦃k : Key F K⦄ where
  pub predict_slot-put_slot :
      (n : Node F K V) (i : ℕ) (x : Slot F K V) (key : K)
      → predict_slot (put_slot n i x) key ≡ predict_slot n key
  unfolding predict_slot put_slot
  predict_slot-put_slot (node m sk hc nk nt ss) i x key = ground (arith, size-set_nth ss i x)

  -- The predicted slot of a key is a slot of the node, where it has one.
  pub predict_slot-lt :
      (n : Node F K V) (key : K) → 0 < capacity n → predict_slot n key < capacity n
  unfolding predict_slot capacity
  predict_slot-lt (node m sk hc nk nt ss) key h = ground (arith, predict-lt m key (size ss))
