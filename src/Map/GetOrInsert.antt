-- ===== src/Map/GetOrInsert.antt =====
-- `get_or_insert` of the map against the function from keys to values that it shows.
use scry_index.Prelude.{
  ℕ, ◌+◌, ◌%◌, ◌<◌, false, Option, none, some, List, ◌≡◌, refl, arith, if◌then◌else◌,
}
use scry_index.Key.{F64, Key}
use scry_index.Node.{usize_mod}
use scry_index.Node.Ready.{IsReady}
use scry_index.Node.Count.{max_depth}
use scry_index.Lookup
use scry_index.Insert.Law.{get-insert_loop}
use scry_index.Insert.Total.{Separates}
use scry_index.Insert.GetLaw.{GetsOrInserts, get_or_insert_loop_lem}
use scry_index.Remove.Law.{is_some}
use scry_index.Map.{LearnedMap, get, get_or_insert}

-- the value that was there, or the new one
abbrev pub value_or : {V : Type 0} → Option V → V → V
value_or none value = value
value_or (some v) value = v

module _ {F K V : Type 0} ⦃f : F64 F⦄ ⦃k : Key F K⦄ (sort : List (ℕ × ℕ) → List (ℕ × ℕ))
    (fuel : ℕ) where
  -- The contract of `get_or_insert`: it returns the value that was there, or the new one; the key
  -- then reads what was returned and the others read as before; the length grows by one exactly
  -- where the key was absent; the configuration stays.
  abbrev pub Obtains : LearnedMap F K V → K → V → Type 0
  Obtains m key value =
      (m' : LearnedMap F K V) × (get_or_insert sort fuel m key value
        ≡ some (m', value_or (get m key) value))
      × ((j : K) → get m' j ≡ (if k.eqb key j then some (value_or (get m key) value) else get m j))
      × (m'.len ≡ (if is_some (get m key) then m.len else (m.len + 1) % usize_mod))
      × (m'.config ≡ m.config)

  cases :
      (m : LearnedMap F K V) (key : K) (value : V)
      → m.config.auto_rebuild ≡ false
      → (r : Option V) → Lookup.get m.root key ≡ r
      → GetsOrInserts fuel m.root key value r
      → Obtains m key value
  unfolding get_or_insert get
  cases m key value off (some v) h (o, went, tree, val, res) =
      let m' : LearnedMap F K V = record m { root = o.tree } in
      (m', ground arith, λ j. ground (arith, k.eqb_iff key j), ground arith, refl)
  cases m key value off none h (i, went, went') =
      let m' : LearnedMap F K V = record m { root = i.tree; len = (m.len + 1) % usize_mod } in
      (
        m',
        ground arith,
        λ j. ground (arith, get-insert_loop fuel m.root key value i went j),
        ground arith,
        refl,
      )

  -- With automatic rebuilds off, on a tree with no slot being written, with fuel above its depth,
  -- and with the machine's numbers separating keys as `Separates` says, which for keys of
  -- negligibly different inputs includes that the difference of their ordinals does not overflow
  -- an i128, `get_or_insert` returns the value that was there, or the new one; the key then reads
  -- what was returned and the others read as before; the length grows by one, wrapping, exactly
  -- where the key was absent, and the configuration stays.
  pub get_or_insert_lem :
      (m : LearnedMap F K V) (key : K) (value : V)
      → Separates f k
      → IsReady m.root
      → max_depth m.root < fuel
      → m.config.auto_rebuild ≡ false
      → Obtains m key value
  get_or_insert_lem m key value s ready d off =
      cases m key value off (Lookup.get m.root key) refl
        (get_or_insert_loop_lem fuel m.root key value s ready d)
