-- ===== src/Iter/Walk.antt =====
-- The iterator of src/iter.rs against a recursive walk of the tree.
use scry_index.Prelude.{
  ℕ, zero, suc, ◌+◌, ◌≤◌, ◌<◌, false, Option, none, some, List, [], ◌∷◌, ◌≡◌, refl, ap, ◌∙◌, arith,
  leb, length, Bool-cases, inl, inr,
}
use mathlib.Core.List.{append_assoc, append-nil}
use scry_index.Node.{
  Node, Slot, slot_empty, slot_writing, slot_data, slot_child, slot_child_stale, slot_tombstone,
  capacity, slot_state,
}
use scry_index.Node.Laws.{slot_state-none}
use scry_index.Node.Count.{total_keys}
use scry_index.Node.Ready.{IsReady, slot_state-IsReady}
use scry_index.Iter.{
  Stack, Iter, Next, end, item, counted, next, collect, sorted_pairs, first_entry, new,
}
use scry_index.Iter.Entries.{
  entries, entries_at, rounds, rounds_at, entries_after_end, entries_after_lem, rounds_after_lem,
  entries_start, rounds_start, pending, work, StackReady, length-entries,
}

abbrev pub head? : {A : Type 0} → List A → Option A
head? [] = none
head? (x ∷ xs) = some x

module _ {F K V : Type 0} where
  abbrev Fits : Stack F K V → Next F K V → Type 0
  Fits stack end = pending stack ≡ []
  Fits stack (item k v it) =
      (pending stack ≡ (k, v) ∷ pending it.stack)
      × (work it.stack < work stack)
      × StackReady it.stack

  Fits-step :
      (stack stack' : Stack F K V) (o : Next F K V)
      → pending stack ≡ pending stack'
      → work stack' < work stack
      → Fits stack' o
      → Fits stack o
  Fits-step stack stack' end p w h = p ∙ h
  Fits-step stack stack' (item k v it) p w h = (p ∙ h.0, omega (arith, h.1), h.2)

  abbrev Answers : ℕ → Stack F K V → Option ℕ → Type 0
  Answers fuel stack hint =
      (o : Next F K V) × (next fuel (record { stack = stack; remaining = hint }) ≡ some o)
      × Fits stack o

  step :
      (fuel : ℕ) (n : Node F K V) (i : ℕ) (rest stack' : Stack F K V) (hint : Option ℕ)
      → next (suc fuel) (record { stack = (n, i) ∷ rest; remaining = hint })
        ≡ next fuel (record { stack = stack'; remaining = hint })
      → pending ((n, i) ∷ rest) ≡ pending stack'
      → work stack' < work ((n, i) ∷ rest)
      → Answers fuel stack' hint
      → Answers (suc fuel) ((n, i) ∷ rest) hint
  step fuel n i rest stack' hint e p w (o, went, fits) =
      (o, e ∙ went, Fits-step ((n, i) ∷ rest) stack' o p w fits)

  module _ (fuel : ℕ)
      (ih : (stack : Stack F K V) (hint : Option ℕ)
        → StackReady stack
        → work stack < fuel
        → Answers fuel stack hint)
      (n : Node F K V) (i : ℕ) (rest : Stack F K V) (hint : Option ℕ)
      (ready : StackReady ((n, i) ∷ rest)) (room : work ((n, i) ∷ rest) < suc fuel) where
    past_end : capacity n ≤ i → Answers (suc fuel) ((n, i) ∷ rest) hint
    unfolding next
    past_end h =
        step fuel n i rest rest hint (ground arith) (rw (entries_after_end n i h)) (omega arith)
          (ih rest hint ready.1 (omega arith))

    at_nothing :
        (s : Slot F K V)
        → slot_state n i ≡ some s
        → entries_at s ≡ []
        → rounds_at s ≡ 1
        → next (suc fuel) (record { stack = (n, i) ∷ rest; remaining = hint })
          ≡ next fuel (record { stack = (n, i + 1) ∷ rest; remaining = hint })
        → Answers (suc fuel) ((n, i) ∷ rest) hint
    at_nothing s st none_here one e =
        step fuel n i rest ((n, i + 1) ∷ rest) hint e (rw (entries_after_lem n i s st, none_here))
          (omega (arith, rounds_after_lem n i s st))
          (ih ((n, i + 1) ∷ rest) hint ready (omega (arith, rounds_after_lem n i s st)))

    at_child :
        (s : Slot F K V) (c : Node F K V)
        → slot_state n i ≡ some s
        → entries_at s ≡ entries c
        → rounds_at s ≡ 1 + rounds c
        → IsReady c
        → next (suc fuel) (record { stack = (n, i) ∷ rest; remaining = hint })
          ≡ next fuel (record { stack = (c, 0) ∷ (n, i + 1) ∷ rest; remaining = hint })
        → Answers (suc fuel) ((n, i) ∷ rest) hint
    at_child s c st es rs cr e =
        step fuel n i rest ((c, 0) ∷ (n, i + 1) ∷ rest) hint e
          (rw (entries_after_lem n i s st, es, entries_start c, append_assoc))
          (omega (arith, rounds_after_lem n i s st, rounds_start c))
          (ih ((c, 0) ∷ (n, i + 1) ∷ rest) hint (cr, ready)
            (omega (arith, rounds_after_lem n i s st, rounds_start c)))

    at_slot :
        (s : Slot F K V)
        → slot_state n i ≡ some s
        → leb (capacity n) i ≡ false
        → Answers (suc fuel) ((n, i) ∷ rest) hint
    unfolding next entries rounds
    at_slot (slot_data k v) st inside =
        let it : Iter F K V = record { stack = (n, i + 1) ∷ rest; remaining = counted hint } in
        (
          item k v it,
          ground arith,
          (
            rw (entries_after_lem n i (slot_data k v) st),
            omega (arith, rounds_after_lem n i (slot_data k v) st),
            ready,
          ),
        )
    at_slot slot_empty st inside = at_nothing slot_empty st refl refl (ground arith)
    at_slot (slot_tombstone k v) st inside =
        at_nothing (slot_tombstone k v) st refl refl (ground arith)
    at_slot slot_writing st inside = absurd (slot_state-IsReady n i slot_writing ready.0 st)
    at_slot (slot_child c) st inside =
        at_child (slot_child c) c st refl refl (slot_state-IsReady n i _ ready.0 st) (ground arith)
    at_slot (slot_child_stale k v c) st inside =
        at_child (slot_child_stale k v c) c st refl refl (slot_state-IsReady n i _ ready.0 st)
          (ground arith)

    at_frame :
        (o : Option (Slot F K V)) → slot_state n i ≡ o → Answers (suc fuel) ((n, i) ∷ rest) hint
    at_frame o st = elim (Bool-cases (leb (capacity n) i)) [
      | inl past ↦ past_end (ground arith)
      | inr inside ↦ within o st inside
    ]
      where
        within :
            (o : Option (Slot F K V))
            → slot_state n i ≡ o
            → leb (capacity n) i ≡ false
            → Answers (suc fuel) ((n, i) ∷ rest) hint
        within none st inside = absurd (ground (arith, slot_state-none n i st))
        within (some s) st inside = at_slot s st inside

  next_lem :
      (fuel : ℕ) (stack : Stack F K V) (hint : Option ℕ)
      → StackReady stack
      → work stack < fuel
      → Answers fuel stack hint
  unfolding next
  next_lem zero stack hint ready room = absurd (omega arith)
  next_lem (suc fuel) [] hint ready room = (end, refl, refl)
  next_lem (suc fuel) ((n, i) ∷ rest) hint ready room =
      at_frame fuel (λ stack hint r w. next_lem fuel stack hint r w) n i rest hint ready room
        (slot_state n i) refl

  collected_end :
      (fuel : ℕ) (stack : Stack F K V) (hint : Option ℕ)
      → next (suc fuel) (record { stack = stack; remaining = hint }) ≡ some end
      → pending stack ≡ []
      → collect (suc fuel) (record { stack = stack; remaining = hint }) ≡ some (pending stack)
  unfolding collect
  collected_end fuel stack hint went p = ground arith

  collected_item :
      (fuel : ℕ) (stack : Stack F K V) (hint : Option ℕ) (k : K) (v : V) (it : Iter F K V)
      → next (suc fuel) (record { stack = stack; remaining = hint }) ≡ some (item k v it)
      → pending stack ≡ (k, v) ∷ pending it.stack
      → collect fuel it ≡ some (pending it.stack)
      → collect (suc fuel) (record { stack = stack; remaining = hint }) ≡ some (pending stack)
  unfolding collect
  collected_item fuel stack hint k v it went p rest = ground arith

  collected :
      (fuel : ℕ) (stack : Stack F K V) (hint : Option ℕ) (o : Next F K V)
      → next (suc fuel) (record { stack = stack; remaining = hint }) ≡ some o
      → Fits stack o
      → work stack < suc fuel
      → ((stack : Stack F K V) (hint : Option ℕ)
          → StackReady stack
          → work stack < fuel
          → collect fuel (record { stack = stack; remaining = hint }) ≡ some (pending stack))
      → collect (suc fuel) (record { stack = stack; remaining = hint }) ≡ some (pending stack)
  collected fuel stack hint end went fits room ih = collected_end fuel stack hint went fits
  collected fuel stack hint (item k v it) went fits room ih =
      collected_item fuel stack hint k v it went fits.0
        (ih it.stack it.remaining fits.2 (omega (arith, fits.1)))

  collect_lem :
      (fuel : ℕ) (stack : Stack F K V) (hint : Option ℕ)
      → StackReady stack
      → work stack < fuel
      → collect fuel (record { stack = stack; remaining = hint }) ≡ some (pending stack)
  collect_lem zero stack hint ready room = absurd (omega arith)
  collect_lem (suc fuel) stack hint ready room =
      let (o, went, fits) = next_lem (suc fuel) stack hint ready room in
      collected fuel stack hint o went fits room (collect_lem fuel)

  -- On a tree where no slot is being written, with fuel above the rounds of its walk, the iterator
  -- ends, and yields what the recursive walk yields, in its order.
  pub sorted_pairs_lem :
      (fuel : ℕ) (root : Node F K V)
      → IsReady root
      → rounds root < fuel
      → sorted_pairs fuel root ≡ some (entries root)
  unfolding sorted_pairs
  sorted_pairs_lem fuel root ready room =
      rw (collect_lem fuel ((root, 0) ∷ []) none (ready, tt) (omega (arith, rounds_start root)))
        (ap some (append-nil _ ∙ entries_start root))

  -- On a tree where no slot is being written, with fuel above the rounds of its walk, a full
  -- iteration yields as many entries as `total_keys` counts.
  pub total_keys-sorted_pairs :
      (fuel : ℕ) (root : Node F K V) (pairs : List (K × V))
      → IsReady root
      → rounds root < fuel
      → sorted_pairs fuel root ≡ some pairs
      → length pairs ≡ total_keys root
  total_keys-sorted_pairs fuel root pairs ready room e =
      ground (arith, sorted_pairs_lem fuel root ready room, length-entries root)

  first_of :
      (fuel : ℕ) (root : Node F K V) (o : Next F K V)
      → next fuel (record { stack = (root, 0) ∷ []; remaining = none }) ≡ some o
      → Fits ((root, 0) ∷ []) o
      → first_entry fuel root ≡ some (head? (pending ((root, 0) ∷ [])))
  unfolding first_entry new
  first_of fuel root end went fits = ground arith
  first_of fuel root (item k v it) went fits = ground arith

  -- On a tree where no slot is being written, with fuel above the rounds of its walk, `first_entry`
  -- returns the first entry of the recursive walk, or none where the tree holds none.
  pub first_entry_lem :
      (fuel : ℕ) (root : Node F K V)
      → IsReady root
      → rounds root < fuel
      → first_entry fuel root ≡ some (head? (entries root))
  first_entry_lem fuel root ready room =
      let (o, went, fits) =
        next_lem fuel ((root, 0) ∷ []) none (ready, tt) (omega (arith, rounds_start root)) in
      first_of fuel root o went fits
      ∙ ap (λ (es : List (K × V)). some (head? es)) (append-nil _ ∙ entries_start root)
