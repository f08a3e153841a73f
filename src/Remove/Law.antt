-- ===== src/Remove/Law.antt =====
-- Lookups after `remove_loop` of src/remove.rs, and its answer.
use scry_index.Prelude.{
  ℕ, zero, suc, ◌<◌, Bool, true, false, Option, none, some, ◌≡◌, refl, arith, if◌then◌else◌,
}
use scry_index.Key.{F64, Key}
use scry_index.Config.{Config}
use scry_index.Node.{
  Node, Slot, node, slot_empty, slot_writing, slot_data, slot_child, slot_child_stale,
  slot_tombstone, capacity, slot_state, put_slot, dec_keys, inc_tombstones, cas_data_to_tombstone,
  predict_slot,
}
use scry_index.Node.Laws.{slot_state-lt}
use scry_index.Lookup.{get, get_slot, get_lem, get-put_slot}
use scry_index.Remove.{Removal, remove_loop}

abbrev pub is_some : {V : Type 0} → Option V → Bool
is_some none = false
is_some (some v) = true

module _ {F K V : Type 0} ⦃f : F64 F⦄ ⦃k : Key F K⦄ where
  abbrev pub Removes : K → Node F K V → Node F K V → Type 0
  Removes key n n' = (j : K) → get n' j ≡ (if k.eqb key j then none else get n j)

  get_counted : (n : Node F K V) (j : K) → get (inc_tombstones (dec_keys n)) j ≡ get n j
  unfolding get inc_tombstones dec_keys predict_slot
  get_counted (node m sk hc nk nt ss) j = refl

  get-attach :
      (n : Node F K V) (key : K) (s : Slot F K V) (j : K)
      → predict_slot n key < capacity n
      → (predict_slot n j ≡ predict_slot n key
          → get_slot s j ≡ (if k.eqb key j then none else get n j))
      → get (put_slot n (predict_slot n key) s) j ≡ (if k.eqb key j then none else get n j)
  get-attach n key s j h inside =
      ground (arith, get-put_slot n (predict_slot n key) s j h, k.eqb_iff key j)

  module _ (config : Config F) (fuel : ℕ) (n : Node F K V) (key : K) (r : Removal F K V)
      (e : remove_loop config (suc fuel) n key ≡ some r) where
    round_data :
        (old : K) (v : V)
        → slot_state n (predict_slot n key) ≡ some (slot_data old v)
        → Removes key n r.tree × (r.was_removed ≡ is_some (get n key))
    unfolding remove_loop cas_data_to_tombstone get
    round_data old v st = (
      λ j. ground (
        arith,
        get_lem n j,
        k.eqb_iff old key,
        k.eqb_iff old j,
        k.eqb_iff key j,
        get_counted (put_slot n (predict_slot n key) (slot_tombstone old v)) j,
        get-attach n key (slot_tombstone old v) j,
        slot_state-lt n (predict_slot n key) st,
      ),
      ground (arith, get_lem n key),
    )

    round_empty :
        slot_state n (predict_slot n key) ≡ some slot_empty
        → Removes key n r.tree × (r.was_removed ≡ is_some (get n key))
    unfolding remove_loop get
    round_empty st =
        (λ j. ground (arith, get_lem n j, k.eqb_iff key j), ground (arith, get_lem n key))

    round_tombstone :
        (old : K) (v : V)
        → slot_state n (predict_slot n key) ≡ some (slot_tombstone old v)
        → Removes key n r.tree × (r.was_removed ≡ is_some (get n key))
    unfolding remove_loop get
    round_tombstone old v st =
        (λ j. ground (arith, get_lem n j, k.eqb_iff key j), ground (arith, get_lem n key))

    round_child :
        (c : Node F K V)
        → slot_state n (predict_slot n key) ≡ some (slot_child c)
        → (o : Option (Removal F K V)) → remove_loop config fuel c key ≡ o
        → ((r' : Removal F K V)
            → remove_loop config fuel c key ≡ some r'
            → Removes key c r'.tree × (r'.was_removed ≡ is_some (get c key)))
        → Removes key n r.tree × (r.was_removed ≡ is_some (get n key))
    unfolding remove_loop get
    round_child c st none b ih = absurd (ground arith)
    round_child c st (some r') b ih = (
      λ j. ground (
        arith,
        get_lem n j,
        (ih r' b).0 j,
        get-attach n key (slot_child r'.tree) j,
        slot_state-lt n (predict_slot n key) st,
      ),
      ground (arith, get_lem n key, (ih r' b).1),
    )

    round_stale :
        (old : K) (v : V) (c : Node F K V)
        → slot_state n (predict_slot n key) ≡ some (slot_child_stale old v c)
        → (o : Option (Removal F K V)) → remove_loop config fuel c key ≡ o
        → ((r' : Removal F K V)
            → remove_loop config fuel c key ≡ some r'
            → Removes key c r'.tree × (r'.was_removed ≡ is_some (get c key)))
        → Removes key n r.tree × (r.was_removed ≡ is_some (get n key))
    unfolding remove_loop get
    round_stale old v c st none b ih = absurd (ground arith)
    round_stale old v c st (some r') b ih = (
      λ j. ground (
        arith,
        get_lem n j,
        (ih r' b).0 j,
        get-attach n key (slot_child_stale old v r'.tree) j,
        slot_state-lt n (predict_slot n key) st,
      ),
      ground (arith, get_lem n key, (ih r' b).1),
    )

    round_writing :
        slot_state n (predict_slot n key) ≡ some slot_writing
        → remove_loop config fuel n key ≡ some r
    unfolding remove_loop
    round_writing st = ground arith

    round_out : slot_state n (predict_slot n key) ≡ none → ⊥
    unfolding remove_loop
    round_out st = ground arith

  round :
      (config : Config F) (fuel : ℕ) (n : Node F K V) (key : K) (r : Removal F K V)
      → remove_loop config (suc fuel) n key ≡ some r
      → ((c : Node F K V) (r' : Removal F K V)
          → remove_loop config fuel c key ≡ some r'
          → Removes key c r'.tree × (r'.was_removed ≡ is_some (get c key)))
      → (s : Option (Slot F K V)) → slot_state n (predict_slot n key) ≡ s
      → Removes key n r.tree × (r.was_removed ≡ is_some (get n key))
  round config fuel n key r e ih none st = absurd (round_out config fuel n key r e st)
  round config fuel n key r e ih (some slot_empty) st = round_empty config fuel n key r e st
  round config fuel n key r e ih (some slot_writing) st =
      ih n r (round_writing config fuel n key r e st)
  round config fuel n key r e ih (some (slot_data old v)) st =
      round_data config fuel n key r e old v st
  round config fuel n key r e ih (some (slot_child c)) st =
      round_child config fuel n key r e c st (remove_loop config fuel c key) refl
        (λ r' b. ih c r' b)
  round config fuel n key r e ih (some (slot_child_stale old v c)) st =
      round_stale config fuel n key r e old v c st (remove_loop config fuel c key) refl
        (λ r' b. ih c r' b)
  round config fuel n key r e ih (some (slot_tombstone old v)) st =
      round_tombstone config fuel n key r e old v st

  -- After a removal that returns, the key is gone and every other key reads as before; the result
  -- is `true` exactly where the key was found before.
  pub get-remove_loop :
      (config : Config F) (fuel : ℕ) (n : Node F K V) (key : K) (r : Removal F K V)
      → remove_loop config fuel n key ≡ some r
      → Removes key n r.tree × (r.was_removed ≡ is_some (get n key))
  unfolding remove_loop
  get-remove_loop config zero n key r e = cc
  get-remove_loop config (suc fuel) n key r e =
      round config fuel n key r e (λ c r' b. get-remove_loop config fuel c key r' b)
        (slot_state n (predict_slot n key)) refl
