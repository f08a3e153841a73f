-- ===== src/Node/Protocol.antt =====
-- src/node.rs: the protocol of one slot under threads. Each atomic step of the compare-and-swap
-- functions is a move of a thread, and the moves of the threads interleave in any order. The memory
-- orders are acquire and release, so each thread sees the writes before a store that it reads.
pub mod Invariant
pub mod Interleave
use scry_index.Prelude.{ℕ, Bool, true, false, Option, none, some, ◌==◌, if◌then◌else◌, ◌≡◌}

-- The constants `SLOT_EMPTY`, `SLOT_WRITING`, `SLOT_DATA`, `SLOT_CHILD_STALE` and `SLOT_TOMBSTONE`.
-- `SLOT_CHILD` is stored only while a node is built, before threads share it.
pub data SlotState : Type 0 where
  is_empty : SlotState
  is_writing : SlotState
  is_data : SlotState
  is_child_stale : SlotState
  is_tombstone : SlotState

module _ (K V C : Type 0) where
  -- The memory of a slot; `none` is memory that nothing was written to.
  pub record Cell : Type 0 where
    pub state : SlotState
    pub key : Option K
    pub value : Option V
    pub child : Option C

  -- What a thread does next: nothing, one of the writes of `cas_empty_to_data`, the write and the
  -- store of a child, or the reads of `read_key` and `read_value`.
  pub data Local : Type 0 where
    idle : Local
    write_key : K → V → Local
    write_value : V → Local
    publish_data : Local
    store_child : C → Local
    publish_child : Local
    reading : Local

  -- One atomic step of a thread: the slot and the thread before and after. A compare-and-swap that
  -- fails changes nothing.
  pub data Move (c : Cell) : Local → Cell → Local → Type 0 where
    claim_empty :
        (k : K) (v : V)
        → c.state ≡ is_empty
        → Move c idle (record c { state = is_writing }) (write_key k v)
    set_key : (k : K) (v : V) → Move c (write_key k v) (record c { key = some k }) (write_value v)
    set_value : (v : V) → Move c (write_value v) (record c { value = some v }) publish_data
    release_data : Move c publish_data (record c { state = is_data }) idle
    claim_tombstone :
        (child : C)
        → c.state ≡ is_tombstone
        → Move c idle (record c { state = is_writing }) (store_child child)
    claim_data :
        (child : C)
        → c.state ≡ is_data
        → Move c idle (record c { state = is_writing }) (store_child child)
    set_child :
        (child : C) → Move c (store_child child) (record c { child = some child }) publish_child
    release_child : Move c publish_child (record c { state = is_child_stale }) idle
    remove_data : c.state ≡ is_data → Move c idle (record c { state = is_tombstone }) idle
    observe_data : c.state ≡ is_data → Move c idle c reading
    observe_tombstone : c.state ≡ is_tombstone → Move c idle c reading
    observe_child_stale : c.state ≡ is_child_stale → Move c idle c reading
    finish_read : Move c reading c idle

  pub record System : Type 0 where
    pub cell : Cell
    pub locals : ℕ → Local

  abbrev pub update : (ℕ → Local) → ℕ → Local → ℕ → Local
  update locals t l = λ u. if t == u then l else locals u

  pub data Step (s : System) : System → Type 0 where
    step :
        (t : ℕ) (cell : Cell) (l : Local)
        → Move s.cell (s.locals t) cell l
        → Step s (record { cell = cell; locals = update s.locals t l })

  -- A new slot, with every thread idle.
  abbrev pub initial : System
  initial = record {
    cell = record { state = is_empty; key = none; value = none; child = none };
    locals = λ t. idle;
  }

  pub data Steps (s : System) : System → Type 0 where
    done : Steps s s
    more : (s' s'' : System) → Steps s s' → Step s' s'' → Steps s s''
