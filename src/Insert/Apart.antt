-- ===== src/Insert/Apart.antt =====
-- src/insert.rs: `build_conflict_node` returns only where its model tells the two keys apart.
use scry_index.Prelude.{ℕ, zero, suc, ◌<◌, true, false, none, some, ◌≡◌, ◌≢◌, refl, arith}
use scry_index.Key.{F64, Key}
use scry_index.Node.{
  Node, slot_data, slot_state, put_slot, store_data, inc_keys, capacity, predict_slot,
  cas_data_to_child_stale,
}
use scry_index.Node.Laws.{predict_slot-lt, predict_slot-put_slot, slot_state-put_slot}
use scry_index.Insert.{conflict_shell, build_conflict_node, insert_loop}
use scry_index.Insert.Store.{predict_slot-inc_keys, capacity-conflict_shell}
use scry_index.Insert.Pair.{slot_state-inc_keys}

module _ {F K V : Type 0} ⦃f : F64 F⦄ ⦃k : Key F K⦄ where
  -- A key that is predicted to the slot of the first one finds it there.
  slot_state-first :
      (n : Node F K V) (lo hi : K) (v : V)
      → 0 < capacity n
      → predict_slot n lo ≡ predict_slot n hi
      → let one = inc_keys (store_data n (predict_slot n lo) lo v) in
        slot_state one (predict_slot one hi) ≡ some (slot_data lo v)
  unfolding store_data
  slot_state-first n lo hi v h same = ground (
    arith,
    predict_slot-inc_keys (put_slot n (predict_slot n lo) (slot_data lo v)) hi,
    predict_slot-put_slot n (predict_slot n lo) (slot_data lo v) hi,
    slot_state-inc_keys (put_slot n (predict_slot n lo) (slot_data lo v)) (predict_slot n hi),
    slot_state-put_slot n (predict_slot n lo) (predict_slot n hi) (slot_data lo v)
        (predict_slot-lt n lo h),
  )

  -- Two keys in one slot: each round builds the same node again, until the fuel ends.
  build_conflict_node-stuck :
      (fuel : ℕ) (lo hi : K) (lo_v hi_v : V)
      → k.lt lo hi ≡ true
      → predict_slot (conflict_shell {F = F} {V = V} lo hi) lo
        ≡ predict_slot (conflict_shell {F = F} {V = V} lo hi) hi
      → build_conflict_node {F = F} fuel lo lo_v hi hi_v ≡ none
  unfolding build_conflict_node insert_loop cas_data_to_child_stale
  build_conflict_node-stuck zero lo hi lo_v hi_v l same = refl
  build_conflict_node-stuck (suc zero) lo hi lo_v hi_v l same = ground arith
  build_conflict_node-stuck (suc (suc fuel)) lo hi lo_v hi_v l same =
      let shell : Node F K V = conflict_shell lo hi in
      let some_slot : 0 < capacity shell = omega (arith, capacity-conflict_shell F V lo hi) in
      ground (
        arith,
        slot_state-first shell lo hi lo_v some_slot same,
        build_conflict_node-stuck fuel lo hi lo_v hi_v l same,
        k.eqb_iff lo hi,
        k.lt_irrefl lo,
      )

  -- So a node for the conflict of `lo` and `hi` tells them apart.
  pub build_conflict_node-apart :
      (fuel : ℕ) (lo hi : K) (lo_v hi_v : V) (c : Node F K V)
      → k.lt lo hi ≡ true
      → build_conflict_node fuel lo lo_v hi hi_v ≡ some c
      → predict_slot (conflict_shell {F = F} {V = V} lo hi) lo
        ≢ predict_slot (conflict_shell {F = F} {V = V} lo hi) hi
  build_conflict_node-apart fuel lo hi lo_v hi_v c l e same =
      ground (arith, build_conflict_node-stuck fuel lo hi lo_v hi_v l same)

  -- The order in which the two keys are given makes no difference.
  pub build_conflict_node-swap :
      (fuel : ℕ) (k1 k2 : K) (v1 v2 : V)
      → k.lt k2 k1 ≡ true
      → build_conflict_node {F = F} fuel k1 v1 k2 v2 ≡ build_conflict_node fuel k2 v2 k1 v1
  unfolding build_conflict_node
  build_conflict_node-swap zero k1 k2 v1 v2 l = refl
  build_conflict_node-swap (suc fuel) k1 k2 v1 v2 l =
      let back : k.lt k1 k2 ≡ false = ground (arith, k.lt_trans k1 k2 k1, k.lt_irrefl k1) in
      ground arith
