-- ===== src/Node/Protocol/Invariant.antt =====
-- The invariant of the protocol of a slot: one writer, and no read of memory that was not written.
use scry_index.Prelude.{
  ℕ, Bool, true, false, Option, none, some, ◌≡◌, ◌⊎◌, inl, inr, refl, sym, ap, ◌∙◌,
}
use mathlib.Core.Path.{subst}
use scry_index.Node.Protocol.{
  SlotState, is_empty, is_writing, is_data, is_child_stale, is_tombstone, Cell, Local, idle,
  write_key, write_value, publish_data, store_child, publish_child, reading, Move, claim_empty,
  set_key, set_value, release_data, claim_tombstone, claim_data, set_child, release_child,
  remove_data, observe_data, observe_tombstone, observe_child_stale, finish_read, System, initial,
}

abbrev pub is_some {ℓ} : {A : Type ℓ} → Option A → Bool
is_some none = false
is_some (some a) = true

abbrev pub in_writing : SlotState → Bool
in_writing is_writing = true
in_writing is_empty = false
in_writing is_data = false
in_writing is_child_stale = false
in_writing is_tombstone = false

module _ (K V C : Type 0) where
  -- a thread that has claimed the slot
  abbrev pub owns : Local K V C → Bool
  owns idle = false
  owns (write_key k v) = true
  owns (write_value v) = true
  owns publish_data = true
  owns (store_child c) = true
  owns publish_child = true
  owns reading = false

  abbrev pub HasEntry : Cell K V C → Type 0
  HasEntry c = (is_some c.key ≡ true) × (is_some c.value ≡ true)

  abbrev pub CellOk : SlotState → Cell K V C → Type 0
  CellOk is_empty c = (c.key ≡ none) × (c.value ≡ none)
  CellOk is_writing c = Unit {0}
  CellOk is_data c = HasEntry c
  CellOk is_child_stale c = HasEntry c × (is_some c.child ≡ true)
  CellOk is_tombstone c = HasEntry c

  abbrev pub LocalOk : Cell K V C → Local K V C → Type 0
  LocalOk c idle = Unit {0}
  LocalOk c (write_key k v) = (c.state ≡ is_writing) × (c.key ≡ none) × (c.value ≡ none)
  LocalOk c (write_value v) = (c.state ≡ is_writing) × (is_some c.key ≡ true) × (c.value ≡ none)
  LocalOk c publish_data = (c.state ≡ is_writing) × HasEntry c
  LocalOk c (store_child child) = (c.state ≡ is_writing) × HasEntry c
  LocalOk c publish_child = (c.state ≡ is_writing) × HasEntry c × (is_some c.child ≡ true)
  LocalOk c reading = HasEntry c

  -- what a move of one thread establishes
  pub Move-Ok :
      (c c' : Cell K V C) (l l' : Local K V C)
      → Move K V C c l c' l'
      → CellOk c.state c
      → LocalOk c l
      → CellOk c'.state c' × LocalOk c' l'
  Move-Ok c c' l l' (claim_empty k v e) h g =
      let x = subst (λ s. CellOk s c) e h in (tt, (refl, x.0, x.1))
  Move-Ok c c' l l' (set_key k v) h g =
      (subst (λ s. CellOk s (record c { key = some k })) (sym g.0) tt, (g.0, refl, g.2))
  Move-Ok c c' l l' (set_value v) h g =
      (subst (λ s. CellOk s (record c { value = some v })) (sym g.0) tt, (g.0, (g.1, refl)))
  Move-Ok c c' l l' (release_data) h g = (g.1, tt)
  Move-Ok c c' l l' (claim_tombstone child e) h g = (tt, (refl, subst (λ s. CellOk s c) e h))
  Move-Ok c c' l l' (claim_data child e) h g = (tt, (refl, subst (λ s. CellOk s c) e h))
  Move-Ok c c' l l' (set_child child) h g =
      (subst (λ s. CellOk s (record c { child = some child })) (sym g.0) tt, (g.0, g.1, refl))
  Move-Ok c c' l l' release_child h g = ((g.1, g.2), tt)
  Move-Ok c c' l l' (remove_data e) h g = (subst (λ s. CellOk s c) e h, tt)
  Move-Ok c c' l l' (observe_data e) h g = (h, subst (λ s. CellOk s c) e h)
  Move-Ok c c' l l' (observe_tombstone e) h g = (h, subst (λ s. CellOk s c) e h)
  Move-Ok c c' l l' (observe_child_stale e) h g = (let x = subst (λ s. CellOk s c) e h in (h, x.0))
  Move-Ok c c' l l' finish_read h g = (h, tt)

  -- Memory that was written once is not written again.
  abbrev pub Keeps : Cell K V C → Cell K V C → Type 0
  Keeps c c' =
      ((k : K) → c.key ≡ some k → c'.key ≡ some k)
      × ((v : V) → c.value ≡ some v → c'.value ≡ some v)

  abbrev kept : (c : Cell K V C) → Keeps c c
  kept c = ((λ k e. e), (λ v e. e))

  pub Move-Keeps :
      (c c' : Cell K V C) (l l' : Local K V C) → Move K V C c l c' l' → LocalOk c l → Keeps c c'
  Move-Keeps c c' l l' (claim_empty k v e) g = kept c
  Move-Keeps c c' l l' (set_key k v) g =
      ((λ k' e. (let n : none ≡ some k' = sym g.1 ∙ e in absurd (cc))), (λ v e. e))
  Move-Keeps c c' l l' (set_value v) g =
      ((λ k e. e), (λ v' e. (let n : none ≡ some v' = sym g.2 ∙ e in absurd (cc))))
  Move-Keeps c c' l l' release_data g = kept c
  Move-Keeps c c' l l' (claim_tombstone child e) g = kept c
  Move-Keeps c c' l l' (claim_data child e) g = kept c
  Move-Keeps c c' l l' (set_child child) g = kept c
  Move-Keeps c c' l l' release_child g = kept c
  Move-Keeps c c' l l' (remove_data e) g = kept c
  Move-Keeps c c' l l' (observe_data e) g = kept c
  Move-Keeps c c' l l' (observe_tombstone e) g = kept c
  Move-Keeps c c' l l' (observe_child_stale e) g = kept c
  Move-Keeps c c' l l' finish_read g = kept c

  -- The owner moves, or the slot has no owner, or nothing changes but a reader.
  abbrev pub Turn : Cell K V C → Local K V C → Cell K V C → Local K V C → Type 0
  Turn c l c' l' =
      (((owns l ≡ true) ⊎ (in_writing c.state ≡ false)) × (in_writing c'.state ≡ owns l'))
      ⊎ ((c' ≡ c) × (owns l ≡ false) × (owns l' ≡ false))

  pub Move-Turn :
      (c c' : Cell K V C) (l l' : Local K V C) → Move K V C c l c' l' → LocalOk c l → Turn c l c' l'
  Move-Turn c c' l l' (claim_empty k v e) g = inl (inr (ap in_writing e), refl)
  Move-Turn c c' l l' (set_key k v) g = inl (inl refl, ap in_writing g.0)
  Move-Turn c c' l l' (set_value v) g = inl (inl refl, ap in_writing g.0)
  Move-Turn c c' l l' release_data g = inl (inl refl, refl)
  Move-Turn c c' l l' (claim_tombstone child e) g = inl (inr (ap in_writing e), refl)
  Move-Turn c c' l l' (claim_data child e) g = inl (inr (ap in_writing e), refl)
  Move-Turn c c' l l' (set_child child) g = inl (inl refl, ap in_writing g.0)
  Move-Turn c c' l l' release_child g = inl (inl refl, refl)
  Move-Turn c c' l l' (remove_data e) g = inl (inr (ap in_writing e), refl)
  Move-Turn c c' l l' (observe_data e) g = inr (refl, refl, refl)
  Move-Turn c c' l l' (observe_tombstone e) g = inr (refl, refl, refl)
  Move-Turn c c' l l' (observe_child_stale e) g = inr (refl, refl, refl)
  Move-Turn c c' l l' finish_read g = inr (refl, refl, refl)

  -- A thread that owns a slot finds it in the state WRITING.
  pub LocalOk-in_writing :
      (c : Cell K V C) (l : Local K V C) → LocalOk c l → owns l ≡ true → in_writing c.state ≡ true
  LocalOk-in_writing c idle h e = absurd (cc)
  LocalOk-in_writing c (write_key k v) h e = ap in_writing h.0
  LocalOk-in_writing c (write_value v) h e = ap in_writing h.0
  LocalOk-in_writing c publish_data h e = ap in_writing h.0
  LocalOk-in_writing c (store_child child) h e = ap in_writing h.0
  LocalOk-in_writing c publish_child h e = ap in_writing h.0
  LocalOk-in_writing c reading h e = absurd (cc)

  is_some-keeps {ℓ} :
      {A : Type ℓ} (o o' : Option A)
      → ((a : A) → o ≡ some a → o' ≡ some a)
      → is_some o ≡ true
      → is_some o' ≡ true
  is_some-keeps none o' h e = absurd (cc)
  is_some-keeps (some a) o' h e = ap is_some (h a refl)

  -- A thread that does not own the slot is not disturbed.
  pub LocalOk-Keeps :
      (c c' : Cell K V C) (l : Local K V C)
      → Keeps c c'
      → owns l ≡ false
      → LocalOk c l
      → LocalOk c' l
  LocalOk-Keeps c c' idle h e g = tt
  LocalOk-Keeps c c' (write_key k v) h e g = absurd (cc)
  LocalOk-Keeps c c' (write_value v) h e g = absurd (cc)
  LocalOk-Keeps c c' publish_data h e g = absurd (cc)
  LocalOk-Keeps c c' (store_child child) h e g = absurd (cc)
  LocalOk-Keeps c c' publish_child h e g = absurd (cc)
  LocalOk-Keeps c c' reading h e g =
      (is_some-keeps c.key c'.key h.0 g.0, is_some-keeps c.value c'.value h.1 g.1)

  pub record Invariant (s : System K V C) : Type 0 where
    pub cell_ok : CellOk s.cell.state s.cell
    pub locals_ok : (t : ℕ) → LocalOk s.cell (s.locals t)
    pub exclusive : (t u : ℕ) → owns (s.locals t) ≡ true → owns (s.locals u) ≡ true → t ≡ u
    pub owner : in_writing s.cell.state ≡ true → (t : ℕ) × (owns (s.locals t) ≡ true)

  pub initial-Invariant : Invariant (initial K V C)
  initial-Invariant = record {
    cell_ok = (refl, refl);
    locals_ok = λ t. tt;
    exclusive = λ t u h g. absurd (cc);
    owner = λ h. absurd (cc);
  }
