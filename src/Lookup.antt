-- ===== src/Lookup.antt =====
-- src/lookup.rs: the search down the tree. The loop of `get` is a recursion on the node.
use scry_index.Prelude.{
  ℕ, zero, suc, ◌<◌, Option, none, some, ◌≡◌, refl, arith, ◌==◌, if◌then◌else◌,
}
use scry_index.Key.{F64, Key}
use scry_index.Node.{
  Node, Slots, Slot, node, nil, cons, slot_data, slot_child, slot_child_stale, nth, capacity,
  slot_state, put_slot, predict_slot,
}
use scry_index.Node.Laws.{slot_state-put_slot, predict_slot-put_slot}

module _ {F K V : Type 0} ⦃f : F64 F⦄ ⦃k : Key F K⦄ where
  -- `get_at` goes to the slot at an index, and `get_slot` is the `match` on its state.
  unfoldable mutual
    pub get : Node F K V → K → Option V
    get (node m sk hc nk nt ss) key = get_at ss (predict_slot (node m sk hc nk nt ss) key) key

    pub get_at : Slots F K V → ℕ → K → Option V
    get_at nil i key = none
    get_at (cons s ss) zero key = get_slot s key
    get_at (cons s ss) (suc i) key = get_at ss i key

    pub get_slot : Slot F K V → K → Option V
    get_slot (slot_data key' v) key = if k.eqb key' key then some v else none
    get_slot (slot_child c) key = get c key
    get_slot (slot_child_stale key' v c) key = get c key
    get_slot _ key = none

  abbrev pub read : Option (Slot F K V) → K → Option V
  read none key = none
  read (some s) key = get_slot s key

  get_at_lem : (ss : Slots F K V) (i : ℕ) (key : K) → get_at ss i key ≡ read (nth ss i) key
  unfolding get
  get_at_lem nil i key = refl
  get_at_lem (cons s ss) zero key = refl
  get_at_lem (cons s ss) (suc i) key = get_at_lem ss i key

  -- One round of the loop: the predicted slot decides.
  pub get_lem :
      (n : Node F K V) (key : K) → get n key ≡ read (slot_state n (predict_slot n key)) key
  unfolding get slot_state
  get_lem (node m sk hc nk nt ss) key = get_at_lem ss _ key

  -- A lookup after a slot is overwritten.
  pub get-put_slot :
      (n : Node F K V) (i : ℕ) (s : Slot F K V) (key : K)
      → i < capacity n
      → get (put_slot n i s) key ≡ (if i == predict_slot n key then get_slot s key else get n key)
  get-put_slot n i s key h = ground (
    arith,
    get_lem (put_slot n i s) key,
    get_lem n key,
    predict_slot-put_slot n i s key,
    slot_state-put_slot n i (predict_slot n key) s h,
  )
