-- ===== src/Map/Laws.antt =====
-- The operations of the map against the function from keys to values that it shows.
use scry_index.Prelude.{
  ℕ, ◌+◌, ◌-◌, ◌%◌, ◌<◌, ◌≤◌, true, false, none, some, List, length, ◌≡◌, refl, arith,
  if◌then◌else◌,
}
use scry_index.Key.{F64, Key}
use scry_index.Node.{usize_mod}
use scry_index.Node.Ready.{IsReady}
use scry_index.Node.Count.{max_depth}
use scry_index.Lookup
use scry_index.Iter.Entries.{entries, rounds}
use scry_index.Iter.Walk.{sorted_pairs_lem}
use scry_index.Insert.Law.{get-insert_loop}
use scry_index.Insert.Result.{insert_loop-result, result_of}
use scry_index.Insert.Ready.{insert_loop-IsReady}
use scry_index.Insert.Store.{get-with_capacity}
use scry_index.Model.{new}
use scry_index.Insert.Total.{Separates, insert_loop_total}
use scry_index.Remove.Law.{get-remove_loop, is_some}
use scry_index.Remove.Total.{remove_loop_total, remove_loop-IsReady}
use scry_index.Map.{
  LearnedMap, get, insert, remove, drain, empty_root, initial_root_rebuild_threshold,
}

module _ {F K V : Type 0} ⦃f : F64 F⦄ ⦃k : Key F K⦄ (sort : List (ℕ × ℕ) → List (ℕ × ℕ))
    (fuel : ℕ) where
  -- The contract of `insert`: it returns; the key then reads the value and the others read as
  -- before; the result says whether the key was absent, and the length grows by one exactly then;
  -- the configuration stays, and the tree is ready for the next call.
  abbrev pub Inserts : LearnedMap F K V → K → V → Type 0
  Inserts m key value =
      (m' : LearnedMap F K V) × (insert sort fuel m key value
        ≡ some (m', if is_some (get m key) then false else true))
      × ((j : K) → get m' j ≡ (if k.eqb key j then some value else get m j))
      × (m'.len ≡ (if is_some (get m key) then m.len else (m.len + 1) % usize_mod))
      × (m'.config ≡ m.config)
      × IsReady m'.root

  -- The contract of `remove`: it returns; the key is then gone and the others read as before; the
  -- result says whether it was there, and the length falls by one, in the wrapping arithmetic of
  -- `usize`, exactly then; the configuration stays, and the tree is ready for the next call.
  abbrev pub RemovesFrom : LearnedMap F K V → K → Type 0
  RemovesFrom m key =
      (m' : LearnedMap F K V) × (remove sort fuel m key ≡ some (m', is_some (get m key)))
      × ((j : K) → get m' j ≡ (if k.eqb key j then none else get m j))
      × (m'.len ≡ (if is_some (get m key) then (m.len + usize_mod - 1) % usize_mod else m.len))
      × (m'.config ≡ m.config)
      × IsReady m'.root

  -- The contract of `drain`: it returns the entries of the tree in the order of the iterator, and
  -- leaves a map in which no key is found, with the initial threshold, and with its length lowered
  -- by their number.
  abbrev pub Drains : LearnedMap F K V → Type 0
  Drains m =
      (m' : LearnedMap F K V) × (drain sort fuel m ≡ some (m', entries m.root))
      × ((j : K) → get m' j ≡ none)
      × (m'.len ≡ m.len - length (entries m.root))
      × (m'.next_root_rebuild ≡ initial_root_rebuild_threshold)

  -- With automatic rebuilds off, on a tree with no slot being written, with fuel above its depth,
  -- and with the machine's numbers separating keys as `Separates` says, which for keys of
  -- negligibly different inputs includes that the difference of their ordinals does not overflow
  -- an i128, `insert` returns; the key then reads the value and the others read as before; the
  -- result says whether the key was absent, the length grows by one, wrapping, exactly then, and
  -- the configuration and the shape of the tree are kept.
  pub insert_lem :
      (m : LearnedMap F K V) (key : K) (value : V)
      → Separates f k
      → IsReady m.root
      → max_depth m.root < fuel
      → m.config.auto_rebuild ≡ false
      → Inserts m key value
  unfolding insert get
  insert_lem m key value s ready d off =
      let (i, e) = insert_loop_total s fuel m.root key value ready d in
      let said : i.result ≡ result_of (Lookup.get m.root key) =
        insert_loop-result fuel m.root key value i e in
      let m' : LearnedMap F K V = record m {
        root = i.tree;
        len = if is_some (Lookup.get m.root key) then m.len else (m.len + 1) % usize_mod;
      } in
      (
        m',
        ground arith,
        λ j. get-insert_loop fuel m.root key value i e j,
        refl,
        refl,
        insert_loop-IsReady fuel m.root key value i ready e,
      )

  -- With automatic rebuilds off, on a tree with no slot being written and with fuel above its
  -- depth, `remove` returns; the key is then gone and the others read as before; the result says
  -- whether it was there, the length falls by one, wrapping, exactly then, and the configuration
  -- and the shape of the tree are kept.
  pub remove_lem :
      (m : LearnedMap F K V) (key : K)
      → IsReady m.root
      → max_depth m.root < fuel
      → m.config.auto_rebuild ≡ false
      → RemovesFrom m key
  unfolding remove get
  remove_lem m key ready d off =
      let (r, e) = remove_loop_total m.config fuel m.root key ready d in
      let law = get-remove_loop m.config fuel m.root key r e in
      let m' : LearnedMap F K V = record m {
        root = r.tree;
        len =
            if is_some (Lookup.get m.root key) then (m.len + usize_mod - 1) % usize_mod else m.len;
      } in
      (
        m',
        ground (arith, law.1),
        law.0,
        refl,
        refl,
        remove_loop-IsReady m.config fuel m.root key r ready e,
      )

  -- On a tree with no slot being written, with fuel above the rounds of its walk, and with a
  -- length that is in range and counts at least the entries of the tree, `drain` returns the
  -- entries in the order of the walk, and leaves a map in which no key is found, with the initial
  -- threshold and a length lowered by their number.
  pub drain_lem :
      (m : LearnedMap F K V)
      → IsReady m.root
      → rounds m.root < fuel
      → length (entries m.root) ≤ m.len
      → m.len < usize_mod
      → Drains m
  unfolding drain get empty_root
  drain_lem m ready room fits bound =
      let m' : LearnedMap F K V = record m {
        root = empty_root;
        len = (m.len + usize_mod - length (entries m.root) % usize_mod) % usize_mod;
        next_root_rebuild = initial_root_rebuild_threshold;
      } in
      (
        m',
        ground (arith, sorted_pairs_lem fuel m.root ready room),
        λ j. get-with_capacity F V (new f.one f.zero) 64 j (omega arith),
        omega arith,
        refl,
      )
