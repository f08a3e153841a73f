-- ===== src/Remove/Total.antt =====
-- Termination of `remove_loop` in src/remove.rs, and the shape of the tree after it.
use mathlib.Core.Path.{subst}
use scry_index.Prelude.{
  ℕ, zero, suc, ◌<◌, Option, none, some, ◌≡◌, ◌≢◌, refl, sym, arith, Bool-cases, inl, inr,
  Option-cases, some_of_ne_none, Returns,
}
use scry_index.Key.{F64, Key}
use scry_index.Config.{Config}
use scry_index.Node.{
  Node, Slot, node, slot_empty, slot_writing, slot_data, slot_child, slot_child_stale,
  slot_tombstone, slot_state, put_slot, dec_keys, inc_tombstones, cas_data_to_tombstone,
  predict_slot,
}
use scry_index.Node.Laws.{slot_state-none, predict_slot-lt}
use scry_index.Node.Count.{max_depth}
use scry_index.Node.Ready.{
  IsReady, slot_state-IsReady, put_slot-IsReady, child_room, stale_room, capacity_pos,
}
use scry_index.Remove.{Removal, remove_loop}

module _ {F K V : Type 0} ⦃f : F64 F⦄ ⦃k : Key F K⦄ (config : Config F) where
  round-ne-none :
      (fuel : ℕ) (n : Node F K V) (key : K) (s : Option (Slot F K V))
      → slot_state n (predict_slot n key) ≡ s
      → IsReady n
      → max_depth n < suc fuel
      → ((c : Node F K V) → IsReady c → max_depth c < fuel → remove_loop config fuel c key ≢ none)
      → remove_loop config (suc fuel) n key ≢ none
  unfolding remove_loop cas_data_to_tombstone
  round-ne-none fuel n key none st ready d ih = absurd (
      omega (
        arith,
        predict_slot-lt n key (capacity_pos n ready),
        slot_state-none n (predict_slot n key) st,
      ))
  round-ne-none fuel n key (some slot_empty) st ready d ih = ground arith
  round-ne-none fuel n key (some slot_writing) st ready d ih =
      absurd (slot_state-IsReady n _ slot_writing ready st)
  round-ne-none fuel n key (some (slot_data old v)) st ready d ih = ground arith
  round-ne-none fuel n key (some (slot_child c)) st ready d ih =
      let room : max_depth c < fuel = child_room n _ c d st in
      ground (arith, ih c (slot_state-IsReady n _ _ ready st) room)
  round-ne-none fuel n key (some (slot_child_stale old v c)) st ready d ih =
      let room : max_depth c < fuel = stale_room n _ old v c d st in
      ground (arith, ih c (slot_state-IsReady n _ _ ready st) room)
  round-ne-none fuel n key (some (slot_tombstone old v)) st ready d ih = ground arith

  remove_loop-ne-none :
      (fuel : ℕ) (n : Node F K V) (key : K)
      → IsReady n
      → max_depth n < fuel
      → remove_loop config fuel n key ≢ none
  remove_loop-ne-none zero n key ready d = absurd (omega arith)
  remove_loop-ne-none (suc fuel) n key ready d =
      round-ne-none fuel n key (slot_state n (predict_slot n key)) refl ready d
        (λ c r h. remove_loop-ne-none fuel c key r h)

  -- Where no slot is being written, `remove_loop` returns with fuel above the depth of the tree.
  pub remove_loop_total :
      (fuel : ℕ) (n : Node F K V) (key : K)
      → IsReady n
      → max_depth n < fuel
      → Returns (remove_loop config fuel n key)
  remove_loop_total fuel n key ready d = some_of_ne_none _ (remove_loop-ne-none fuel n key ready d)

  counted-IsReady : (n : Node F K V) → IsReady n → IsReady (inc_tombstones (dec_keys n))
  unfolding inc_tombstones dec_keys
  counted-IsReady (node m sk hc nk nt ss) h = h

  module _ (fuel : ℕ) (n : Node F K V) (key : K) (r : Removal F K V) (ready : IsReady n)
      (e : remove_loop config (suc fuel) n key ≡ some r)
      (ih : (c : Node F K V) (r' : Removal F K V)
        → IsReady c
        → remove_loop config fuel c key ≡ some r'
        → IsReady r'.tree) where
    same-IsReady : r.tree ≡ n → IsReady r.tree
    same-IsReady same = subst IsReady (sym same) ready

    round-IsReady :
        (s : Option (Slot F K V)) → slot_state n (predict_slot n key) ≡ s → IsReady r.tree
    unfolding remove_loop cas_data_to_tombstone
    round-IsReady none st = absurd (ground arith)
    round-IsReady (some slot_empty) st = same-IsReady (ground arith)
    round-IsReady (some slot_writing) st = ih n r ready (ground arith)
    round-IsReady (some (slot_data old v)) st =
        let n' : Node F K V = put_slot n (predict_slot n key) (slot_tombstone old v) in
        let ready' : IsReady (inc_tombstones (dec_keys n')) =
          counted-IsReady n' (put_slot-IsReady n _ (slot_tombstone old v) ready tt) in
        elim (Bool-cases (k.eqb old key)) [
          | inl same ↦
              let found : inc_tombstones (dec_keys n') ≡ r.tree = ground arith in
              subst IsReady found ready'
          | inr differ ↦ same-IsReady (ground arith)
        ]
    round-IsReady (some (slot_child c)) st = elim (Option-cases (remove_loop config fuel c key)) [
      | inl stuck ↦ absurd (ground arith)
      | inr (r', b) ↦
          let s : Slot F K V = slot_child r'.tree in
          let found : put_slot n (predict_slot n key) s ≡ r.tree = ground arith in
          subst IsReady found
            (put_slot-IsReady n _ s ready (ih c r' (slot_state-IsReady n _ _ ready st) b))
    ]
    round-IsReady (some (slot_child_stale old v c)) st =
        elim (Option-cases (remove_loop config fuel c key)) [
          | inl stuck ↦ absurd (ground arith)
          | inr (r', b) ↦
              let s : Slot F K V = slot_child_stale old v r'.tree in
              let found : put_slot n (predict_slot n key) s ≡ r.tree = ground arith in
              subst IsReady found
                (put_slot-IsReady n _ s ready (ih c r' (slot_state-IsReady n _ _ ready st) b))
        ]
    round-IsReady (some (slot_tombstone old v)) st = same-IsReady (ground arith)

  -- A removal from a tree where every node has a slot and no slot is in the state `WRITING`, where
  -- it returns, gives such a tree.
  pub remove_loop-IsReady :
      (fuel : ℕ) (n : Node F K V) (key : K) (r : Removal F K V)
      → IsReady n
      → remove_loop config fuel n key ≡ some r
      → IsReady r.tree
  unfolding remove_loop
  remove_loop-IsReady zero n key r ready e = cc
  remove_loop-IsReady (suc fuel) n key r ready e =
      round-IsReady fuel n key r ready e (λ c r' h b. remove_loop-IsReady fuel c key r' h b)
        (slot_state n (predict_slot n key)) refl
