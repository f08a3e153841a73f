-- ===== src/Tests/Slots.antt =====
-- A slot that thread 0 has claimed and written a key to, over numbers.
use scry_index.Prelude.{ℕ, some, refl}
use scry_index.Node.Protocol.{
  Cell, Local, System, Step, step, Steps, done, more, initial, update, claim_empty, set_key,
  write_key, write_value, is_writing, set_value, publish_data,
}
use scry_index.Node.Protocol.Invariant.{Invariant, Keeps}
use scry_index.Node.Protocol.Interleave.{Steps-Invariant, Steps-Keeps, Steps-CanPublish, CanPublish}

abbrev state_of : Cell ℕ ℕ ℕ → Local ℕ ℕ ℕ → System ℕ ℕ ℕ → System ℕ ℕ ℕ
state_of c l s = record { cell = c; locals = update ℕ ℕ ℕ s.locals 0 l }

abbrev empty_slot : System ℕ ℕ ℕ
empty_slot = initial ℕ ℕ ℕ

abbrev claimed : System ℕ ℕ ℕ
claimed = state_of (record empty_slot.cell { state = is_writing }) (write_key 7 8) empty_slot

abbrev with_key : System ℕ ℕ ℕ
with_key = state_of (record claimed.cell { key = some 7 }) (write_value 8) claimed

abbrev with_value : System ℕ ℕ ℕ
with_value = state_of (record with_key.cell { value = some 8 }) publish_data with_key

run : Steps ℕ ℕ ℕ (initial ℕ ℕ ℕ) with_key
run =
    more claimed with_key
      (more empty_slot claimed done (
        step 0 (record empty_slot.cell { state = is_writing }) (write_key 7 8)
          (claim_empty 7 8 refl)))
      (step 0 (record claimed.cell { key = some 7 }) (write_value 8) (set_key 7 8))

next : Step ℕ ℕ ℕ with_key with_value
next = step 0 (record with_key.cell { value = some 8 }) publish_data (set_value 8)

Steps-Invariant_example : Invariant ℕ ℕ ℕ with_key
Steps-Invariant_example = Steps-Invariant ℕ ℕ ℕ with_key run

Steps-Keeps_example : Keeps ℕ ℕ ℕ with_key.cell with_value.cell
Steps-Keeps_example = Steps-Keeps ℕ ℕ ℕ with_key with_value run next

Steps-CanPublish_example : CanPublish ℕ ℕ ℕ with_key
Steps-CanPublish_example = Steps-CanPublish ℕ ℕ ℕ with_key run refl
