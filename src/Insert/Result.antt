-- ===== src/Insert/Result.antt =====
-- What `insert_loop` reports.
use scry_index.Prelude.{
  ℕ, zero, suc, false, Option, none, some, ◌≡◌, refl, arith, Bool-cases, inl, inr,
}
use scry_index.Key.{F64, Key}
use scry_index.Node.{
  Node, Slot, slot_empty, slot_writing, slot_data, slot_child, slot_child_stale, slot_tombstone,
  slot_state, cas_empty_to_data, cas_tombstone_to_child_stale, cas_data_to_child_stale,
  predict_slot,
}
use scry_index.Lookup.{get, get_lem}
use scry_index.Insert.{Insertion, InsertResult, inserted, updated, build_conflict_node, insert_loop}

abbrev pub result_of : {V : Type 0} → Option V → InsertResult
result_of none = inserted
result_of (some v) = updated

module _ {F K V : Type 0} ⦃f : F64 F⦄ ⦃k : Key F K⦄ where
  round-result :
      (fuel : ℕ) (n : Node F K V) (key : K) (value : V) (i : Insertion F K V)
      → ((c : Node F K V) (i : Insertion F K V)
          → insert_loop fuel c key value ≡ some i
          → i.result ≡ result_of (get c key))
      → insert_loop (suc fuel) n key value ≡ some i
      → (s : Option (Slot F K V)) → slot_state n (predict_slot n key) ≡ s
      → i.result ≡ result_of (get n key)
  unfolding insert_loop cas_empty_to_data cas_tombstone_to_child_stale cas_data_to_child_stale get
  round-result fuel n key value i ih e none st = ground arith
  round-result fuel n key value i ih e (some slot_empty) st = ground (arith, get_lem n key)
  round-result fuel n key value i ih e (some slot_writing) st = ih n i (ground arith)
  round-result fuel n key value i ih e (some (slot_data old v)) st =
      elim (Bool-cases (k.eqb old key)) [
        | inl same ↦ ground (arith, get_lem n key)
        | inr differ ↦ go (build_conflict_node fuel old v key value) refl differ
      ]
    where
      go :
          (o : Option (Node F K V))
          → build_conflict_node fuel old v key value ≡ o
          → k.eqb old key ≡ false
          → i.result ≡ result_of (get n key)
      go none b differ = ground arith
      go (some c) b differ = ground (arith, get_lem n key)
  round-result fuel n key value i ih e (some (slot_child c)) st =
      go (insert_loop fuel c key value) refl
    where
      go :
          (o : Option (Insertion F K V))
          → insert_loop fuel c key value ≡ o
          → i.result ≡ result_of (get n key)
      go none b = ground arith
      go (some i') b = ground (arith, ih c i' b, get_lem n key)
  round-result fuel n key value i ih e (some (slot_child_stale old v c)) st =
      go (insert_loop fuel c key value) refl
    where
      go :
          (o : Option (Insertion F K V))
          → insert_loop fuel c key value ≡ o
          → i.result ≡ result_of (get n key)
      go none b = ground arith
      go (some i') b = ground (arith, ih c i' b, get_lem n key)
  round-result fuel n key value i ih e (some (slot_tombstone old v)) st =
      ground (arith, get_lem n key)

  -- An insertion that returns says `updated` exactly where the key was found before.
  pub insert_loop-result :
      (fuel : ℕ) (n : Node F K V) (key : K) (value : V) (i : Insertion F K V)
      → insert_loop fuel n key value ≡ some i
      → i.result ≡ result_of (get n key)
  unfolding insert_loop
  insert_loop-result zero n key value i e = cc
  insert_loop-result (suc fuel) n key value i e =
      round-result fuel n key value i (λ c i' e'. insert_loop-result fuel c key value i' e') e
        (slot_state n (predict_slot n key)) refl
