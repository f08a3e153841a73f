-- ===== src/Insert/Store.antt =====
-- What a lookup sees of a node after a key is stored in a slot that holds no other key.
use scry_index.Prelude.{ℕ, ◌<◌, Bool, true, Option, none, some, ◌≡◌, refl, arith, if◌then◌else◌}
use scry_index.Key.{F64, Key}
use scry_index.Model.{LinearModel, new, constant}
use scry_index.Node.{
  Node, Slot, node, empties, slot_data, with_capacity, capacity, slot_state, put_slot, store_data,
  ensure_children, inc_keys, dec_keys, dec_tombstones, predict_slot,
}
use scry_index.Node.Laws.{nth-empties, size-empties, predict_slot-lt}
use scry_index.Lookup.{get, get_lem, get-put_slot}
use scry_index.Insert.{conflict_shell, conflict_model, build_single_entry_child}

module _ {F K V : Type 0} ⦃f : F64 F⦄ ⦃k : Key F K⦄ where
  -- the counters and the allocation of the children do not show
  pub get-inc_keys : (n : Node F K V) (key : K) → get (inc_keys n) key ≡ get n key
  unfolding get inc_keys predict_slot
  get-inc_keys (node m sk hc nk nt ss) key = refl

  pub get-dec_keys : (n : Node F K V) (key : K) → get (dec_keys n) key ≡ get n key
  unfolding get dec_keys predict_slot
  get-dec_keys (node m sk hc nk nt ss) key = refl

  pub get-dec_tombstones : (n : Node F K V) (key : K) → get (dec_tombstones n) key ≡ get n key
  unfolding get dec_tombstones predict_slot
  get-dec_tombstones (node m sk hc nk nt ss) key = refl

  pub get-put_slot_ensure :
      (n : Node F K V) (i : ℕ) (s : Slot F K V) (key : K)
      → get (put_slot (ensure_children n) i s) key ≡ get (put_slot n i s) key
  unfolding get put_slot ensure_children predict_slot
  get-put_slot_ensure (node m sk hc nk nt ss) i s key = refl

  pub predict_slot-inc_keys :
      (n : Node F K V) (key : K) → predict_slot (inc_keys n) key ≡ predict_slot n key
  unfolding inc_keys predict_slot
  predict_slot-inc_keys (node m sk hc nk nt ss) key = refl

  pub capacity-inc_keys : (n : Node F K V) → capacity (inc_keys n) ≡ capacity n
  unfolding inc_keys capacity
  capacity-inc_keys (node m sk hc nk nt ss) = refl

  -- A key stored in its slot, where no key of that slot was found before.
  pub get-store_data :
      (n : Node F K V) (key : K) (v : V) (j : K)
      → predict_slot n key < capacity n
      → (predict_slot n j ≡ predict_slot n key → get n j ≡ none)
      → get (store_data n (predict_slot n key) key v) j ≡ (if k.eqb key j then some v else get n j)
  unfolding store_data get
  get-store_data n key v j h fresh =
      ground (arith, get-put_slot n (predict_slot n key) (slot_data key v) j h, k.eqb_iff key j)

-- The fresh nodes hold nothing.
module _ (F V : Type 0) {K : Type 0} ⦃f : F64 F⦄ ⦃k : Key F K⦄ where
  pub get-empties :
      (m : LinearModel F) (sk : Option K) (hc : Bool) (c : ℕ) (j : K)
      → 0 < c
      → get (node m sk hc 0 0 (empties {F = F} {K = K} {V = V} c)) j ≡ none
  unfolding slot_state capacity get
  get-empties m sk hc c j h =
      let n : Node F K V = node m sk hc 0 0 (empties c) in
      ground (
        arith,
        get_lem n j,
        predict_slot-lt n j,
        size-empties F K V c,
        nth-empties {F = F} {K = K} {V = V} c (predict_slot n j),
      )

  pub get-with_capacity :
      (m : LinearModel F) (c : ℕ) (j : K) → 0 < c → get (with_capacity {V = V} m c) j ≡ none
  unfolding with_capacity
  get-with_capacity m c j h = get-empties m none true c j h

  pub get-conflict_shell : (lo hi j : K) → get (conflict_shell {F = F} {V = V} lo hi) j ≡ none
  unfolding conflict_shell
  get-conflict_shell lo hi j = ground (
    arith,
    get-empties (conflict_model lo hi) none true 4 j,
    get-empties constant (some lo) true 4 j,
  )

  pub capacity-conflict_shell : (lo hi : K) → capacity (conflict_shell {F = F} {V = V} lo hi) ≡ 4
  unfolding conflict_shell capacity
  capacity-conflict_shell lo hi = ground arith

  pub get-build_single_entry_child :
      (key : K) (v : V) (j : K)
      → get (build_single_entry_child {F = F} key v) j ≡ (if k.eqb key j then some v else none)
  unfolding build_single_entry_child with_capacity capacity
  get-build_single_entry_child key v j =
      let shell : Node F K V = with_capacity (new f.one (f.neg (k.to_model_input key))) 2 in
      let p = predict_slot shell key in
      ground (
        arith,
        get-inc_keys (store_data shell p key v) j,
        get-empties (new f.one (f.neg (k.to_model_input key))) none true 2 j,
        predict_slot-lt shell key,
        get-store_data shell key v j,
      )
