-- ===== src/Insert/Conflict.antt =====
-- What a lookup sees of the node that `build_conflict_node` makes for two keys.
use scry_index.Prelude.{
  ℕ, suc, ◌<◌, true, false, none, some, ◌≡◌, ◌≢◌, arith, ◌==◌, Bool-cases, inl, inr, Option-cases,
  if◌then◌else◌,
}
use scry_index.Key.{F64, Key}
use scry_index.Node.{Node, Slot, capacity, put_slot, store_data, inc_keys, predict_slot}
use scry_index.Node.Laws.{capacity-put_slot, predict_slot-put_slot, predict_slot-lt}
use scry_index.Lookup.{get, get_slot, get-put_slot}
use scry_index.Insert.{Insertion, conflict_shell, build_conflict_node, insert_loop}
use scry_index.Insert.Store.{
  get-inc_keys, get-store_data, get-conflict_shell, capacity-conflict_shell, predict_slot-inc_keys,
  capacity-inc_keys,
}

module _ {F K V : Type 0} ⦃f : F64 F⦄ ⦃k : Key F K⦄ where
  abbrev pub Stores : K → V → Node F K V → Node F K V → Type 0
  Stores key value n n' = (j : K) → get n' j ≡ (if k.eqb key j then some value else get n j)

  abbrev pub Holds : K → V → K → V → Node F K V → Type 0
  Holds k1 v1 k2 v2 c =
      (j : K) → get c j ≡ (if k.eqb k2 j then some v2 else if k.eqb k1 j then some v1 else none)

  -- A slot overwritten at the place of a key, with what it shows for the keys of that place.
  pub get-attach :
      (n : Node F K V) (key : K) (value : V) (s : Slot F K V) (j : K)
      → predict_slot n key < capacity n
      → (predict_slot n j ≡ predict_slot n key
          → get_slot s j ≡ (if k.eqb key j then some value else get n j))
      → get (put_slot n (predict_slot n key) s) j ≡ (if k.eqb key j then some value else get n j)
  get-attach n key value s j h inside =
      ground (arith, get-put_slot n (predict_slot n key) s j h, k.eqb_iff key j)

  -- A node that holds nothing, and then one key, and then two keys with slots of their own.
  abbrev pub one_key : Node F K V → K → V → Node F K V
  one_key n key value = inc_keys (store_data n (predict_slot n key) key value)

  abbrev pub IsBlank : Node F K V → Type 0
  IsBlank n = ((j : K) → get n j ≡ none) × (0 < capacity n)

  pub get-one_key :
      (n : Node F K V) (key : K) (value : V) (j : K)
      → IsBlank n
      → get (one_key n key value) j ≡ (if k.eqb key j then some value else none)
  get-one_key n key value j h = ground (
    arith,
    get-inc_keys (store_data n (predict_slot n key) key value) j,
    h.0 j,
    predict_slot-lt n key h.1,
    get-store_data n key value j,
  )

  predict_slot-one_key :
      (n : Node F K V) (key : K) (value : V) (j : K)
      → predict_slot (one_key n key value) j ≡ predict_slot n j
  unfolding store_data
  predict_slot-one_key n key value j =
      rw predict_slot-inc_keys (predict_slot-put_slot n (predict_slot n key) _ j)

  capacity-one_key :
      (n : Node F K V) (key : K) (value : V) → capacity (one_key n key value) ≡ capacity n
  unfolding store_data
  capacity-one_key n key value = rw capacity-inc_keys (capacity-put_slot n (predict_slot n key) _)

  apart_fresh :
      (n : Node F K V) (k1 : K) (v1 : V) (k2 j : K)
      → IsBlank n
      → (predict_slot n k1 == predict_slot n k2) ≡ false
      → predict_slot (one_key n k1 v1) j ≡ predict_slot (one_key n k1 v1) k2
      → get (one_key n k1 v1) j ≡ none
  apart_fresh n k1 v1 k2 j h apart e = ground (
    arith,
    get-one_key n k1 v1 j h,
    k.eqb_iff k1 j,
    predict_slot-one_key n k1 v1 j,
    predict_slot-one_key n k1 v1 k2,
  )

  get-two_keys :
      (n : Node F K V) (k1 : K) (v1 : V) (k2 : K) (v2 : V)
      → IsBlank n
      → (predict_slot n k1 == predict_slot n k2) ≡ false
      → let one = one_key n k1 v1 in
        Holds k1 v1 k2 v2 (inc_keys (store_data one (predict_slot n k2) k2 v2))
  get-two_keys n k1 v1 k2 v2 h apart j =
      let one = one_key n k1 v1 in
      let stored : get (store_data one (predict_slot n k2) k2 v2) j
          ≡ (if k.eqb k2 j then some v2 else get one j) =
        rw (← predict_slot-one_key n k1 v1 k2) (
          get-store_data one k2 v2 j
            (rw (predict_slot-one_key, capacity-one_key) (predict_slot-lt n k2 h.1))
            (λ e. apart_fresh n k1 v1 k2 j h apart e)) in
      ground (
        arith,
        get-inc_keys (store_data one (predict_slot n k2) k2 v2) j,
        stored,
        get-one_key n k1 v1 j h,
      )

  -- The node for a conflict, from what the calls with less fuel do.
  module _ (fuel : ℕ)
      (ih : (n : Node F K V) (key : K) (value : V) (i : Insertion F K V)
        → insert_loop fuel n key value ≡ some i
        → Stores key value n i.tree) where
    placed :
        (lo : K) (lo_v : V) (hi : K) (hi_v : V) (c : Node F K V)
        → (let shell = conflict_shell lo hi in
            let one = one_key shell lo lo_v in
            elim (predict_slot shell lo == predict_slot shell hi) [
              | true ↦ elim (insert_loop fuel one hi hi_v) [ none ↦ none | some i ↦ some i.tree ]
              | false ↦ some (inc_keys (store_data one (predict_slot shell hi) hi hi_v))
            ])
          ≡ some c
        → Holds lo lo_v hi hi_v c
    placed lo lo_v hi hi_v c e j =
        let shell : Node F K V = conflict_shell lo hi in
        let one : Node F K V = one_key shell lo lo_v in
        let blank : IsBlank shell =
          (get-conflict_shell F V lo hi, omega (arith, capacity-conflict_shell F V lo hi)) in
        elim (Bool-cases (predict_slot shell lo == predict_slot shell hi)) [
          | inl same ↦ elim (Option-cases (insert_loop fuel one hi hi_v)) [
            | inl stuck ↦ ground arith
            | inr (i, went) ↦
                ground (arith, ih one hi hi_v i went j, get-one_key shell lo lo_v j blank)
          ]
          | inr apart ↦ ground (arith, get-two_keys shell lo lo_v hi hi_v blank apart j)
        ]

    pub get-build_conflict_node :
        (k1 : K) (v1 : V) (k2 : K) (v2 : V) (c : Node F K V)
        → build_conflict_node (suc fuel) k1 v1 k2 v2 ≡ some c
        → k1 ≢ k2
        → Holds k1 v1 k2 v2 c
    unfolding build_conflict_node
    get-build_conflict_node k1 v1 k2 v2 c e ne j = elim (Bool-cases (k.lt k1 k2)) [
      | inl t ↦ placed k1 v1 k2 v2 c (ground arith) j
      | inr t ↦
          ground (arith, placed k2 v2 k1 v1 c (ground arith) j, k.eqb_iff k1 j, k.eqb_iff k2 j)
    ]
