-- ===== src/Remove/Count.antt =====
-- How many keys `remove_loop` takes from the tree.
use mathlib.Core.Path.{subst}
use scry_index.Prelude.{
  ℕ, zero, suc, ◌+◌, Option, none, some, ◌≡◌, refl, arith, Bool-cases, inl, inr, if◌then◌else◌,
}
use scry_index.Key.{F64, Key}
use scry_index.Config.{Config}
use scry_index.Node.{
  Node, Slot, slot_empty, slot_writing, slot_data, slot_child, slot_child_stale, slot_tombstone,
  slot_state, put_slot, dec_keys, inc_tombstones, cas_data_to_tombstone, predict_slot,
}
use scry_index.Node.Count.{total_keys, total_keys_at}
use scry_index.Node.Totals.{total_keys-put_slot, total_keys-dec_keys, total_keys-inc_tombstones}
use scry_index.Lookup.{get, get_lem}
use scry_index.Remove.{Removal, remove_loop}
use scry_index.Remove.Law.{is_some}

module _ {F K V : Type 0} ⦃f : F64 F⦄ ⦃k : Key F K⦄ where
  -- one key fewer where the key was found before
  abbrev pub Uncounts : K → Node F K V → Node F K V → Type 0
  Uncounts key n n' =
      total_keys n ≡ (if is_some (get n key) then total_keys n' + 1 else total_keys n')

  count_below :
      (n c c' : Node F K V) (key : K) (old s : Slot F K V)
      → slot_state n (predict_slot n key) ≡ some old
      → total_keys_at old ≡ total_keys c
      → total_keys_at s ≡ total_keys c'
      → get n key ≡ get c key
      → Uncounts key c c'
      → Uncounts key n (put_slot n (predict_slot n key) s)
  count_below n c c' key old s st was now reads h =
      ground (arith, total_keys-put_slot n (predict_slot n key) old s st)

  count_same : (n n' : Node F K V) (key : K) → get n key ≡ none → n ≡ n' → Uncounts key n n'
  count_same n n' key absent same = ground arith

  count_found :
      (n n' : Node F K V) (key old : K) (v : V)
      → slot_state n (predict_slot n key) ≡ some (slot_data old v)
      → get n key ≡ some v
      → n' ≡ put_slot n (predict_slot n key) (slot_tombstone old v)
      → Uncounts key n (inc_tombstones (dec_keys n'))
  unfolding total_keys
  count_found n n' key old v st reads e =
      let s : Slot F K V = slot_tombstone old v in
      let kept : total_keys (inc_tombstones (dec_keys n')) ≡ total_keys n' =
        rw (total_keys-inc_tombstones, total_keys-dec_keys) refl in
      let taken = total_keys-put_slot n (predict_slot n key) (slot_data old v) s st in
      rw (reads, kept, e) (omega (arith, taken))

  module _ (config : Config F) (fuel : ℕ) (n : Node F K V) (key : K) (r : Removal F K V)
      (e : remove_loop config (suc fuel) n key ≡ some r)
      (ih : (c : Node F K V) (r' : Removal F K V)
        → remove_loop config fuel c key ≡ some r'
        → Uncounts key c r'.tree) where
    count_data :
        (old : K) (v : V)
        → slot_state n (predict_slot n key) ≡ some (slot_data old v)
        → Uncounts key n r.tree
    unfolding remove_loop cas_data_to_tombstone get
    count_data old v st = elim (Bool-cases (k.eqb old key)) [
      | inl same ↦
          let s : Slot F K V = slot_tombstone old v in
          let n' : Node F K V = put_slot n (predict_slot n key) s in
          let found : inc_tombstones (dec_keys n') ≡ r.tree = ground arith in
          let reads : get n key ≡ some v = ground (arith, get_lem n key) in
          subst (Uncounts key n) found (count_found n n' key old v st reads refl)
      | inr differ ↦ count_same n r.tree key (ground (arith, get_lem n key)) (ground arith)
    ]

    count_child :
        (c : Node F K V)
        → slot_state n (predict_slot n key) ≡ some (slot_child c)
        → (o : Option (Removal F K V)) → remove_loop config fuel c key ≡ o
        → Uncounts key n r.tree
    unfolding remove_loop get total_keys
    count_child c st none b = absurd (ground arith)
    count_child c st (some r') b =
        let s : Slot F K V = slot_child r'.tree in
        let found : put_slot n (predict_slot n key) s ≡ r.tree = ground arith in
        let reads : get n key ≡ get c key = ground (arith, get_lem n key) in
        subst (Uncounts key n) found
          (count_below n c r'.tree key (slot_child c) s st refl refl reads (ih c r' b))

    count_stale :
        (old : K) (v : V) (c : Node F K V)
        → slot_state n (predict_slot n key) ≡ some (slot_child_stale old v c)
        → (o : Option (Removal F K V)) → remove_loop config fuel c key ≡ o
        → Uncounts key n r.tree
    unfolding remove_loop get total_keys
    count_stale old v c st none b = absurd (ground arith)
    count_stale old v c st (some r') b =
        let s : Slot F K V = slot_child_stale old v r'.tree in
        let found : put_slot n (predict_slot n key) s ≡ r.tree = ground arith in
        let reads : get n key ≡ get c key = ground (arith, get_lem n key) in
        subst (Uncounts key n) found
          (count_below n c r'.tree key (slot_child_stale old v c) s st refl refl reads (ih c r' b))

    count_round :
        (o : Option (Slot F K V)) → slot_state n (predict_slot n key) ≡ o → Uncounts key n r.tree
    unfolding remove_loop get
    count_round none st = absurd (ground arith)
    count_round (some slot_empty) st =
        count_same n r.tree key (ground (arith, get_lem n key)) (ground arith)
    count_round (some slot_writing) st = ih n r (ground arith)
    count_round (some (slot_data old v)) st = count_data old v st
    count_round (some (slot_child c)) st = count_child c st (remove_loop config fuel c key) refl
    count_round (some (slot_child_stale old v c)) st =
        count_stale old v c st (remove_loop config fuel c key) refl
    count_round (some (slot_tombstone old v)) st =
        count_same n r.tree key (ground (arith, get_lem n key)) (ground arith)

  -- A removal that returns makes the tree hold one key fewer where the key was found before, and as
  -- many keys as before where it was not.
  pub total_keys-remove_loop :
      (config : Config F) (fuel : ℕ) (n : Node F K V) (key : K) (r : Removal F K V)
      → remove_loop config fuel n key ≡ some r
      → Uncounts key n r.tree
  unfolding remove_loop
  total_keys-remove_loop config zero n key r e = cc
  total_keys-remove_loop config (suc fuel) n key r e =
      count_round config fuel n key r e (λ c r' b. total_keys-remove_loop config fuel c key r' b)
        (slot_state n (predict_slot n key)) refl
