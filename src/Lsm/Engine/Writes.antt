-- ===== src/Lsm/Engine/Writes.antt =====
-- What a put and a deletion change for the lookups of the engine.
use scry_index.Prelude.{
  none, some, [], leb, if◌then◌else◌, ◌≡◌, refl, sym, ap, ◌∙◌, Bool-cases, Option-cases, inl, inr,
}
use scry_index.Key.Lexicographic.{eq_bytes}
use scry_index.Lsm.Bytes.{Bytes}
use scry_index.Lsm.Error.{ok, ◌>>=◌}
use scry_index.Lsm.Wal.{append_put}
use scry_index.Lsm.Memtable.{Memtable, IsMemtable}
use scry_index.Lsm.Engine.{LsmEngine, visible, search_levels, get, put, delete, maybe_flush}
use scry_index.Lsm.Engine.Room.{EndsIn}
use scry_index.Lsm.Engine.Flush.{CanFlush, get-flush_memtable, get-found, get-absent}
use scry_index.Lsm.Manifest.{Manifest}

module _ {M : Type 0} (ops : Memtable M) (Valid : M → Type 0) (laws : IsMemtable M ops Valid) where
  -- the engine before the test of `maybe_flush`
  abbrev pub written : LsmEngine M → Bytes → Bytes → LsmEngine M
  written e key value = record e {
    wal = append_put e.wal key value;
    memtable = ops.insert e.memtable key value;
  }

  maybe_flush-get :
      (e : LsmEngine M)
      → CanFlush ops Valid e
      → (e' : LsmEngine M) × EndsIn (maybe_flush ops e) e'
        × ((key : Bytes) → get ops e' key ≡ get ops e key)
  unfolding maybe_flush
  maybe_flush-get e c =
      elim (Bool-cases (leb e.flush_threshold (ops.approximate_bytes e.memtable))) [
        | inl h ↦
            let (e', run, empty, gets) = get-flush_memtable ops Valid laws e c in
            (e', rw (maybe_flush, h) run, gets)
        | inr h ↦ (e, inl (rw (maybe_flush, h) refl), λ key. refl)
      ]

  -- Two engines that differ in the log and in one key of the memtable.
  get-other :
      (e e' : LsmEngine M) (key j value : Bytes)
      → e'.files ≡ e.files
      → e'.manifest ≡ e.manifest
      → ops.get e'.memtable j ≡ (if eq_bytes key j then some value else ops.get e.memtable j)
      → get ops e' j ≡ (if eq_bytes key j then ok (visible (some value)) else get ops e j)
  get-other e e' key j value f m h = elim (Bool-cases (eq_bytes key j)) [
    | inl s ↦ rw s (get-found ops e' j value (h ∙ rw s refl))
    | inr n ↦ rw n (
        let same : ops.get e'.memtable j ≡ ops.get e.memtable j = h ∙ rw n refl in
        elim (Option-cases (ops.get e.memtable j)) [
          | inl a ↦
              get-absent ops e' j (same ∙ a)
              ∙ ap (λ x. search_levels x j e'.manifest.levels >>= λ found. ok (visible found)) f
              ∙ ap
                  (λ (x : Manifest).
                    search_levels e.files j x.levels >>= λ found. ok (visible found))
                  m
              ∙ sym (get-absent ops e j a)
          | inr (v, a) ↦ get-found ops e' j v (same ∙ a) ∙ sym (get-found ops e j v a)
        ])
  ]

  -- Where the memtable is in order and the state with the entry is one that `CanFlush` admits, a
  -- put, flushing or not, leads to an engine in which the key has the value, none if the value is
  -- empty, and every other key has what it had. The put ends in that engine, or, only where one of
  -- its levels is full, in what compaction makes of it; the lookups after that compaction are not
  -- part of the statement.
  pub get-put :
      (e : LsmEngine M) (key value : Bytes)
      → Valid e.memtable
      → CanFlush ops Valid (written e key value)
      → (e' : LsmEngine M) × EndsIn (put ops e key value) e'
        × ((j : Bytes)
            → get ops e' j ≡ (if eq_bytes key j then ok (visible (some value)) else get ops e j))
  unfolding put
  get-put e key value valid c =
      let (e', run, gets) = maybe_flush-get (written e key value) c in
      (
        e',
        run,
        λ j.
            gets j
            ∙ get-other e (written e key value) key j value refl refl
                (laws.get-insert e.memtable key value j valid),
      )

  -- After a deletion the key is not found, and every other key has what it had.
  pub get-delete :
      (e : LsmEngine M) (key j : Bytes)
      → Valid e.memtable
      → get ops (delete ops e key) j ≡ (if eq_bytes key j then ok none else get ops e j)
  unfolding delete
  get-delete e key j valid =
      get-other e (delete ops e key) key j [] refl refl (laws.get-delete e.memtable key j valid)
