-- ===== src/Node/Protocol/Interleave.antt =====
-- Every interleaving of the moves keeps the invariant, and the writer of a slot can always finish.
use scry_index.Prelude.{
  ℕ, true, false, some, ◌==◌, ==_iff, ◌≡◌, ◌≢◌, ◌⊎◌, inl, inr, refl, sym, ap, ◌∙◌, arith,
  Bool-cases,
}
use mathlib.Core.Path.{subst}
use scry_index.Node.Protocol.{
  is_data, is_child_stale, Cell, Local, idle, write_key, write_value, publish_data, store_child,
  publish_child, reading, Move, set_key, set_value, release_data, set_child, release_child, System,
  update, Step, step, initial, Steps, done, more,
}
use scry_index.Node.Protocol.Invariant.{
  in_writing, owns, LocalOk, Keeps, Move-Ok, Move-Keeps, Move-Turn, LocalOk-in_writing,
  LocalOk-Keeps, Invariant, initial-Invariant,
}

module _ (K V C : Type 0) where
  update-same : (locals : ℕ → Local K V C) (t : ℕ) (l : Local K V C) → update K V C locals t l t ≡ l
  update-same locals t l = let same : (t == t) ≡ true = ground arith in rw same refl

  -- the thread of an index after a step: the one that moved, or another one
  update-cases :
      (locals : ℕ → Local K V C) (t u : ℕ) (l : Local K V C)
      → ((t ≡ u) × (update K V C locals t l u ≡ l))
        ⊎ ((t ≢ u) × (update K V C locals t l u ≡ locals u))
  update-cases locals t u l = elim (Bool-cases (t == u)) [
    | inl e ↦ inl ((==_iff t u).0 e, rw e refl)
    | inr e ↦ inr ((λ q. (let x = (==_iff t u).1 q in cc)), rw e refl)
  ]

  -- No other thread owns the slot where a thread takes a turn that changes it.
  other-owns :
      (s : System K V C) (t u : ℕ)
      → Invariant K V C s
      → (owns K V C (s.locals t) ≡ true) ⊎ (in_writing s.cell.state ≡ false)
      → t ≢ u
      → owns K V C (s.locals u) ≡ false
  other-owns s t u inv turn n = elim (Bool-cases (owns K V C (s.locals u))) [
    | inr e ↦ e
    | inl e ↦ elim turn [
      | inl o ↦ absurd (n (inv.exclusive t u o e))
      | inr w ↦
          (let x = LocalOk-in_writing K V C s.cell (s.locals u) (inv.locals_ok u) e in absurd (cc))
    ]
  ]

  -- the parts of the invariant after a step
  module _ (s : System K V C) (inv : Invariant K V C s) (t : ℕ) (c' : Cell K V C) (l' : Local K V C)
      (mv : Move K V C s.cell (s.locals t) c' l') where
    locals-after : (u : ℕ) → LocalOk K V C c' (update K V C s.locals t l' u)
    locals-after u = elim (update-cases s.locals t u l') [
      | inl (q, e) ↦
          subst (LocalOk K V C c') (sym e)
            (Move-Ok K V C s.cell c' (s.locals t) l' mv inv.cell_ok (inv.locals_ok t)).1
      | inr (n, e) ↦
          subst (LocalOk K V C c') (sym e)
            (elim (Move-Turn K V C s.cell c' (s.locals t) l' mv (inv.locals_ok t)) [
              | inl (turn, w) ↦
                  LocalOk-Keeps K V C s.cell c' (s.locals u)
                    (Move-Keeps K V C s.cell c' (s.locals t) l' mv (inv.locals_ok t))
                    (other-owns s t u inv turn n) (inv.locals_ok u)
              | inr (same, o, o') ↦
                  subst (λ c. LocalOk K V C c (s.locals u)) (sym same) (inv.locals_ok u)
            ])
    ]

    owns-after :
        (u : ℕ)
        → owns K V C (update K V C s.locals t l' u) ≡ true
        → ((t ≡ u) × (owns K V C l' ≡ true)) ⊎ ((t ≢ u) × (owns K V C (s.locals u) ≡ true))
    owns-after u o = elim (update-cases s.locals t u l') [
      | inl (q, e) ↦ inl (q, sym (ap (owns K V C) e) ∙ o)
      | inr (n, e) ↦ inr (n, sym (ap (owns K V C) e) ∙ o)
    ]

    -- The thread that moved and another one do not both own the slot.
    not-both : (u : ℕ) → owns K V C l' ≡ true → t ≢ u → owns K V C (s.locals u) ≡ true → ⊥
    not-both u o n ou = elim (Move-Turn K V C s.cell c' (s.locals t) l' mv (inv.locals_ok t)) [
      | inl (turn, w) ↦ (let x = other-owns s t u inv turn n in cc)
      | inr (same, f, f') ↦ cc
    ]

    exclusive-after :
        (u w : ℕ)
        → owns K V C (update K V C s.locals t l' u) ≡ true
        → owns K V C (update K V C s.locals t l' w) ≡ true
        → u ≡ w
    exclusive-after u w o p = elim (owns-after u o) [
      | inl (q, ou) ↦ elim (owns-after w p) [
        | inl (r, ow) ↦ sym q ∙ r
        | inr (n, ow) ↦ absurd (not-both w ou n ow)
      ]
      | inr (m, ou) ↦ elim (owns-after w p) [
        | inl (r, ow) ↦ absurd (not-both u ow m ou)
        | inr (n, ow) ↦ inv.exclusive u w ou ow
      ]
    ]

    owner-after :
        in_writing c'.state ≡ true → (u : ℕ) × (owns K V C (update K V C s.locals t l' u) ≡ true)
    owner-after h = elim (Move-Turn K V C s.cell c' (s.locals t) l' mv (inv.locals_ok t)) [
      | inl (turn, w) ↦ (t, ap (owns K V C) (update-same s.locals t l') ∙ sym w ∙ h)
      | inr (same, f, f') ↦
          let (u, ou) = inv.owner (sym (ap (λ (c : Cell K V C). in_writing c.state) same) ∙ h) in
          elim (update-cases s.locals t u l') [
            | inl (q, e) ↦ absurd (
                let x : owns K V C (s.locals u) ≡ false =
                  subst (λ x. owns K V C (s.locals x) ≡ false) q f in
                cc)
            | inr (n, e) ↦ (u, ap (owns K V C) e ∙ ou)
          ]
    ]

  step-Invariant : (s s' : System K V C) → Step K V C s s' → Invariant K V C s → Invariant K V C s'
  step-Invariant s s' (step t c l mv) inv = record {
    cell_ok = (Move-Ok K V C s.cell c (s.locals t) l mv inv.cell_ok (inv.locals_ok t)).0;
    locals_ok = locals-after s inv t c l mv;
    exclusive = exclusive-after s inv t c l mv;
    owner = owner-after s inv t c l mv;
  }

  -- In every state that the threads reach from an empty slot, in any interleaving: at most one
  -- thread has claimed the slot, and one has where its state is WRITING; a key and a value were
  -- written where the state is DATA, CHILD_STALE or TOMBSTONE, and a child where it is CHILD_STALE;
  -- and a thread that reads finds a key and a value that were written.
  pub Steps-Invariant : (s : System K V C) → Steps K V C (initial K V C) s → Invariant K V C s
  Steps-Invariant s done = initial-Invariant K V C
  Steps-Invariant s (more s' s'' run st) = step-Invariant s' s'' st (Steps-Invariant s' run)

  -- Whatever thread moves next, in a state that was reached from an empty slot, a key or a value
  -- that was written stays what it is.
  pub Steps-Keeps :
      (s s' : System K V C)
      → Steps K V C (initial K V C) s
      → Step K V C s s'
      → Keeps K V C s.cell s'.cell
  Steps-Keeps s s' run (step t c l mv) =
      Move-Keeps K V C s.cell c (s.locals t) l mv ((Steps-Invariant s run).locals_ok t)

  Steps-cons : (s s' s'' : System K V C) → Step K V C s s' → Steps K V C s' s'' → Steps K V C s s''
  Steps-cons s s' s'' st done = more s s' done st
  Steps-cons s s' s'' st (more a b run next) = more a b (Steps-cons s s' a st run) next

  -- There are steps to a state in which the slot is not WRITING.
  abbrev pub CanPublish : System K V C → Type 0
  CanPublish s = (s' : System K V C) × Steps K V C s s' × (in_writing s'.cell.state ≡ false)

  CanPublish-step :
      (s : System K V C) (t : ℕ) (l l' : Local K V C) (c : Cell K V C)
      → s.locals t ≡ l
      → Move K V C s.cell l c l'
      → ((s' : System K V C) → s'.cell ≡ c → s'.locals t ≡ l' → CanPublish s')
      → CanPublish s
  CanPublish-step s t l l' c e mv rest =
      let s1 : System K V C = record { cell = c; locals = update K V C s.locals t l' } in
      let (s', run, free) = rest s1 refl (update-same s.locals t l') in
      (
        s',
        Steps-cons s s1 s' (step t c l' (subst (λ x. Move K V C s.cell x c l') (sym e) mv)) run,
        free,
      )

  publish_data-CanPublish : (s : System K V C) (t : ℕ) → s.locals t ≡ publish_data → CanPublish s
  publish_data-CanPublish s t e =
      CanPublish-step s t publish_data idle (record s.cell { state = is_data }) e release_data
        (λ s' c l. (s', done, ap (λ (x : Cell K V C). in_writing x.state) c))

  write_value-CanPublish :
      (s : System K V C) (t : ℕ) (v : V) → s.locals t ≡ write_value v → CanPublish s
  write_value-CanPublish s t v e =
      CanPublish-step s t (write_value v) publish_data (record s.cell { value = some v }) e
        (set_value v) (λ s' c l. publish_data-CanPublish s' t l)

  publish_child-CanPublish : (s : System K V C) (t : ℕ) → s.locals t ≡ publish_child → CanPublish s
  publish_child-CanPublish s t e =
      CanPublish-step s t publish_child idle (record s.cell { state = is_child_stale }) e
        release_child (λ s' c l. (s', done, ap (λ (x : Cell K V C). in_writing x.state) c))

  -- the steps that are left to the writer
  owner-CanPublish :
      (s : System K V C) (t : ℕ) (l : Local K V C)
      → s.locals t ≡ l
      → owns K V C l ≡ true
      → CanPublish s
  owner-CanPublish s t idle e o = absurd (cc)
  owner-CanPublish s t reading e o = absurd (cc)
  owner-CanPublish s t publish_data e o = publish_data-CanPublish s t e
  owner-CanPublish s t (write_value v) e o = write_value-CanPublish s t v e
  owner-CanPublish s t (write_key k v) e o =
      CanPublish-step s t (write_key k v) (write_value v) (record s.cell { key = some k }) e
        (set_key k v) (λ s' c l. write_value-CanPublish s' t v l)
  owner-CanPublish s t publish_child e o = publish_child-CanPublish s t e
  owner-CanPublish s t (store_child child) e o =
      CanPublish-step s t (store_child child) publish_child (record s.cell { child = some child }) e
        (set_child child) (λ s' c l. publish_child-CanPublish s' t l)

  -- From every state that is reached from an empty slot and in which the slot is WRITING, there are
  -- steps to a state in which it is not.
  pub Steps-CanPublish :
      (s : System K V C)
      → Steps K V C (initial K V C) s
      → in_writing s.cell.state ≡ true
      → CanPublish s
  Steps-CanPublish s run h =
      let (t, o) = (Steps-Invariant s run).owner h in owner-CanPublish s t (s.locals t) refl o
