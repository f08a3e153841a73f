-- ===== src/Node/Totals.antt =====
-- How the operations on one slot show in `total_keys`.
use scry_index.Prelude.{ℕ, zero, suc, ◌+◌, some, ◌≡◌, refl, arith}
use scry_index.Node.{
  Node, Slots, Slot, node, nil, cons, slot_data, slot_empty, empties, nth, set_nth, slot_state,
  put_slot, inc_keys, dec_keys, inc_tombstones, dec_tombstones, ensure_children, store_data,
}
use scry_index.Node.Count.{total_keys, total_keys_from, total_keys_at}

module _ {F K V : Type 0} where
  total_keys-set_nth :
      (ss : Slots F K V) (i : ℕ) (old s : Slot F K V)
      → nth ss i ≡ some old
      → total_keys_from (set_nth ss i s) + total_keys_at old ≡ total_keys_from ss + total_keys_at s
  unfolding total_keys
  total_keys-set_nth nil i old s e = cc
  total_keys-set_nth (cons x ss) zero old s e = ground arith
  total_keys-set_nth (cons x ss) (suc i) old s e = omega (arith, total_keys-set_nth ss i old s e)

  -- An overwritten slot takes its keys away and brings its own.
  pub total_keys-put_slot :
      (n : Node F K V) (i : ℕ) (old s : Slot F K V)
      → slot_state n i ≡ some old
      → total_keys (put_slot n i s) + total_keys_at old ≡ total_keys n + total_keys_at s
  unfolding total_keys slot_state put_slot
  total_keys-put_slot (node m sk hc nk nt ss) i old s e = total_keys-set_nth ss i old s e

  pub total_keys-inc_keys : (n : Node F K V) → total_keys (inc_keys n) ≡ total_keys n
  unfolding total_keys inc_keys
  total_keys-inc_keys (node m sk hc nk nt ss) = refl

  pub total_keys-dec_keys : (n : Node F K V) → total_keys (dec_keys n) ≡ total_keys n
  unfolding total_keys dec_keys
  total_keys-dec_keys (node m sk hc nk nt ss) = refl

  pub total_keys-inc_tombstones : (n : Node F K V) → total_keys (inc_tombstones n) ≡ total_keys n
  unfolding total_keys inc_tombstones
  total_keys-inc_tombstones (node m sk hc nk nt ss) = refl

  pub total_keys-dec_tombstones : (n : Node F K V) → total_keys (dec_tombstones n) ≡ total_keys n
  unfolding total_keys dec_tombstones
  total_keys-dec_tombstones (node m sk hc nk nt ss) = refl

  pub total_keys-put_slot_ensure :
      (n : Node F K V) (i : ℕ) (s : Slot F K V)
      → total_keys (put_slot (ensure_children n) i s) ≡ total_keys (put_slot n i s)
  unfolding total_keys put_slot ensure_children
  total_keys-put_slot_ensure (node m sk hc nk nt ss) i s = refl

  pub total_keys-store_data :
      (n : Node F K V) (i : ℕ) (key : K) (v : V)
      → slot_state n i ≡ some slot_empty
      → total_keys (store_data n i key v) ≡ total_keys n + 1
  unfolding store_data total_keys
  total_keys-store_data n i key v e =
      omega (arith, total_keys-put_slot n i slot_empty (slot_data key v) e)

pub total_keys-empties :
    (F K V : Type 0) (n : ℕ) → total_keys_from (empties {F = F} {K = K} {V = V} n) ≡ 0
unfolding total_keys
total_keys-empties F K V zero = refl
total_keys-empties F K V (suc n) = omega (arith, total_keys-empties F K V n)
