-- ===== src/Insert/Pair.antt =====
-- How many keys the nodes hold that `insert` hangs under a slot.
use scry_index.Prelude.{
  ℕ, suc, ◌+◌, ◌<◌, ◌==◌, true, false, none, some, ◌≡◌, ◌≢◌, refl, sym, arith, Bool-cases, inl, inr,
  Option-cases, if◌then◌else◌,
}
use scry_index.Key.{F64, Key}
use scry_index.Model.{new}
use scry_index.Node.{
  Node, node, slot_empty, slot_data, slot_state, put_slot, with_capacity, store_data, inc_keys,
  capacity, predict_slot,
}
use scry_index.Node.Laws.{predict_slot-lt, nth-empties, slot_state-put_slot}
use scry_index.Node.Count.{total_keys}
use scry_index.Node.Totals.{total_keys-inc_keys, total_keys-store_data}
use scry_index.Lookup.{get}
use scry_index.Remove.Law.{is_some}
use scry_index.Insert.{
  Insertion, conflict_shell, build_single_entry_child, build_conflict_node, insert_loop,
}
use scry_index.Insert.Store.{get-conflict_shell, capacity-conflict_shell}
use scry_index.Insert.Conflict.{one_key, get-one_key, IsBlank}

module _ (F V : Type 0) {K : Type 0} ⦃f : F64 F⦄ ⦃k : Key F K⦄ where
  total_keys-conflict_shell : (lo hi : K) → total_keys (conflict_shell {F = F} {V = V} lo hi) ≡ 0
  unfolding conflict_shell total_keys
  total_keys-conflict_shell lo hi = ground arith

  slot_state-conflict_shell :
      (lo hi : K) (i : ℕ)
      → i < 4
      → slot_state (conflict_shell {F = F} {V = V} lo hi) i ≡ some slot_empty
  unfolding conflict_shell slot_state
  slot_state-conflict_shell lo hi i h = ground (arith, nth-empties {F = F} {K = K} {V = V} 4 i h)

  -- A key that is stored in an empty slot is one more.
  total_keys-one_key :
      (n : Node F K V) (key : K) (v : V)
      → slot_state n (predict_slot n key) ≡ some slot_empty
      → total_keys (one_key n key v) ≡ total_keys n + 1
  total_keys-one_key n key v e = omega (
    arith,
    total_keys-inc_keys (store_data n (predict_slot n key) key v),
    total_keys-store_data n (predict_slot n key) key v e,
  )

  blank_slot :
      (key : K) (i : ℕ)
      → i < 2
      → slot_state
          (with_capacity {F = F} {K = K} {V = V} (new f.one (f.neg (k.to_model_input key))) 2)
          i
        ≡ some slot_empty
  unfolding with_capacity slot_state
  blank_slot key i h = nth-empties {F = F} {K = K} {V = V} 2 i h

  blank_total :
      (key : K)
      → total_keys
          (with_capacity {F = F} {K = K} {V = V} (new f.one (f.neg (k.to_model_input key))) 2)
        ≡ 0
  unfolding with_capacity total_keys
  blank_total key = refl

  blank_capacity :
      (key : K)
      → capacity
          (with_capacity {F = F} {K = K} {V = V} (new f.one (f.neg (k.to_model_input key))) 2)
        ≡ 2
  unfolding with_capacity capacity
  blank_capacity key = refl

  pub total_keys-build_single_entry_child :
      (key : K) (v : V) → total_keys (build_single_entry_child {F = F} key v) ≡ 1
  unfolding build_single_entry_child
  total_keys-build_single_entry_child key v =
      let shell : Node F K V = with_capacity (new f.one (f.neg (k.to_model_input key))) 2 in
      let size = blank_capacity key in
      let inside : predict_slot shell key < 2 =
        omega (arith, size, predict_slot-lt shell key (omega (arith, size))) in
      omega (
        arith,
        blank_total key,
        total_keys-one_key shell key v (blank_slot key (predict_slot shell key) inside),
      )

module _ {F K V : Type 0} ⦃f : F64 F⦄ ⦃k : Key F K⦄ where
  -- one more key where the key was not found before
  abbrev pub Counts : K → Node F K V → Node F K V → Type 0
  Counts key n n' = total_keys n' ≡ (if is_some (get n key) then total_keys n else total_keys n + 1)

  pub slot_state-inc_keys : (n : Node F K V) (i : ℕ) → slot_state (inc_keys n) i ≡ slot_state n i
  unfolding slot_state inc_keys
  slot_state-inc_keys (node m sk hc nk nt ss) i = refl

  -- The other slots stay as they were.
  slot_state-one_key :
      (n : Node F K V) (key : K) (v : V) (i : ℕ)
      → 0 < capacity n
      → (predict_slot n key == i) ≡ false
      → slot_state (one_key n key v) i ≡ slot_state n i
  unfolding store_data
  slot_state-one_key n key v i h apart = ground (
    arith,
    slot_state-inc_keys (put_slot n (predict_slot n key) (slot_data key v)) i,
    slot_state-put_slot n (predict_slot n key) i (slot_data key v) (predict_slot-lt n key h),
  )

module _ (F : Type 0) {K : Type 0} (V : Type 0) ⦃f : F64 F⦄ ⦃k : Key F K⦄ where
  shell_slot :
      (lo hi key : K)
      → slot_state
          (conflict_shell {F = F} {V = V} lo hi)
          (predict_slot (conflict_shell {F = F} {V = V} lo hi) key)
        ≡ some slot_empty
  shell_slot lo hi key =
      let shell : Node F K V = conflict_shell lo hi in
      let size = capacity-conflict_shell F V lo hi in
      slot_state-conflict_shell F V lo hi (predict_slot shell key)
        (omega (arith, size, predict_slot-lt shell key (omega (arith, size))))

  -- The first key of a conflict in its node, and then the second in a slot of its own.
  total_keys-first :
      (lo hi : K) (v : V) → total_keys (one_key (conflict_shell {F = F} lo hi) lo v) ≡ 1
  total_keys-first lo hi v = omega (
    arith,
    total_keys-conflict_shell F V lo hi,
    total_keys-one_key F V (conflict_shell lo hi) lo v (shell_slot lo hi lo),
  )

  total_keys-second :
      (lo hi : K) (lo_v hi_v : V)
      → let shell = conflict_shell {F = F} lo hi in
        (predict_slot shell lo == predict_slot shell hi) ≡ false
        → total_keys (inc_keys (store_data (one_key shell lo lo_v) (predict_slot shell hi) hi hi_v))
          ≡ 2
  total_keys-second lo hi lo_v hi_v apart =
      let shell : Node F K V = conflict_shell lo hi in
      let one : Node F K V = one_key shell lo lo_v in
      let room : 0 < capacity shell = omega (arith, capacity-conflict_shell F V lo hi) in
      let free : slot_state one (predict_slot shell hi) ≡ some slot_empty =
        rw (slot_state-one_key shell lo lo_v (predict_slot shell hi) room apart)
          (shell_slot lo hi hi) in
      omega (
        arith,
        total_keys-inc_keys (store_data one (predict_slot shell hi) hi hi_v),
        total_keys-store_data one (predict_slot shell hi) hi hi_v free,
        total_keys-first lo hi lo_v,
      )

module _ {F K V : Type 0} ⦃f : F64 F⦄ ⦃k : Key F K⦄ where
  module _ (fuel : ℕ)
      (ih : (n : Node F K V) (key : K) (value : V) (i : Insertion F K V)
        → insert_loop fuel n key value ≡ some i
        → Counts key n i.tree) where
    total_keys-placed :
        (lo : K) (lo_v : V) (hi : K) (hi_v : V) (c : Node F K V)
        → (let shell = conflict_shell lo hi in
            let one = one_key shell lo lo_v in
            elim (predict_slot shell lo == predict_slot shell hi) [
              | true ↦ elim (insert_loop fuel one hi hi_v) [ none ↦ none | some i ↦ some i.tree ]
              | false ↦ some (inc_keys (store_data one (predict_slot shell hi) hi hi_v))
            ])
          ≡ some c
        → lo ≢ hi
        → total_keys c ≡ 2
    total_keys-placed lo lo_v hi hi_v c e ne =
        let shell : Node F K V = conflict_shell lo hi in
        let one : Node F K V = one_key shell lo lo_v in
        let blank : IsBlank shell =
          (get-conflict_shell F V lo hi, omega (arith, capacity-conflict_shell F V lo hi)) in
        elim (Bool-cases (predict_slot shell lo == predict_slot shell hi)) [
          | inl same ↦ elim (Option-cases (insert_loop fuel one hi hi_v)) [
            | inl stuck ↦ ground arith
            | inr (i, went) ↦ ground (
              arith,
              ih one hi hi_v i went,
              get-one_key shell lo lo_v hi blank,
              total_keys-first F V lo hi lo_v,
              k.eqb_iff lo hi,
            )
          ]
          | inr apart ↦ ground (arith, total_keys-second F V lo hi lo_v hi_v apart)
        ]

    pub total_keys-build_conflict_node :
        (k1 : K) (v1 : V) (k2 : K) (v2 : V) (c : Node F K V)
        → build_conflict_node (suc fuel) k1 v1 k2 v2 ≡ some c
        → k1 ≢ k2
        → total_keys c ≡ 2
    unfolding build_conflict_node
    total_keys-build_conflict_node k1 v1 k2 v2 c e ne = elim (Bool-cases (k.lt k1 k2)) [
      | inl t ↦ total_keys-placed k1 v1 k2 v2 c (ground arith) ne
      | inr t ↦ total_keys-placed k2 v2 k1 v1 c (ground arith) (λ q. ne (sym q))
    ]
