-- ===== src/Tests/Maps.antt =====
-- The operations of the map on one map.
use scry_index.Prelude.Int.{ℤ}
use scry_index.Prelude.{ℕ, ◌<◌, ◌≤◌, ◌≡◌, refl, true, List, [], ◌∷◌, length, some, arith}
use scry_index.Node.Count.{max_depth, total_keys}
use scry_index.Iter.Entries.{entries, rounds}
use scry_index.Build.{is_sorted, build_degenerate}
use scry_index.Build.Degenerate.{build_degenerate_lem}
use scry_index.Node.{Node}
use scry_index.Lookup.{get}
use scry_index.Map.GetOrInsert.{Obtains, get_or_insert_lem}
use scry_index.Map.Extend.{Extends, extend_lem}
use scry_index.Map.Count.{IsCounted, insert-IsCounted, remove-IsCounted}
use scry_index.Map.{is_weakly_sorted, dedup}
use scry_index.Map.Dedup.{dedup-is_sorted, find_first-dedup, find_first, find_last}
use scry_index.Map.Laws.{insert_lem, remove_lem, drain_lem, Inserts, RemovesFrom, Drains}
use scry_index.Tests.Sample.{
  integers, coarse, coarse-Separates, ordinals_near, tree, tree-IsReady, tree_depth, filled,
}

abbrev keep : List (ℕ × ℕ) → List (ℕ × ℕ)
keep xs = xs

shallow : max_depth tree < 4
shallow = omega (arith, tree_depth)

insert_lem_example : Inserts keep 4 filled 6 60
insert_lem_example = insert_lem keep 4 filled 6 60 coarse-Separates tree-IsReady shallow refl

remove_lem_example : RemovesFrom keep 4 filled 7
remove_lem_example = remove_lem keep 4 filled 7 tree-IsReady shallow refl

few_rounds : rounds tree < 20
unfolding rounds
few_rounds = omega arith

three_entries : length (entries tree) ≤ 3
unfolding entries
three_entries = omega arith

drain_lem_example : Drains keep 20 filled
drain_lem_example = drain_lem keep 20 filled tree-IsReady few_rounds three_entries (omega arith)

abbrev twice : List (ℕ × ℕ)
twice = (1, 10) ∷ (3, 30) ∷ (3, 31) ∷ (8, 80) ∷ []

dedup-is_sorted_example : is_sorted integers coarse (dedup coarse twice) ≡ true
unfolding is_weakly_sorted
dedup-is_sorted_example = dedup-is_sorted coarse integers twice refl

find_first-dedup_example : find_first coarse (dedup coarse twice) 3 ≡ find_last coarse twice 3
unfolding is_weakly_sorted
find_first-dedup_example = find_first-dedup coarse twice 3 refl

-- the maps after the two calls above
abbrev with_six : Inserts keep 4 filled 6 60
with_six = insert_lem keep 4 filled 6 60 coarse-Separates tree-IsReady shallow refl

abbrev without_seven : RemovesFrom keep 4 filled 7
without_seven = remove_lem keep 4 filled 7 tree-IsReady shallow refl

counted : IsCounted filled
unfolding total_keys
counted = refl

insert-IsCounted_example : IsCounted with_six.0
insert-IsCounted_example =
    insert-IsCounted keep 4 filled with_six.0 6 60 _ refl (omega (arith, counted)) counted
      with_six.1

remove-IsCounted_example : IsCounted without_seven.0
remove-IsCounted_example =
    remove-IsCounted keep 4 filled without_seven.0 7 _ refl (omega (arith, counted)) counted
      without_seven.1

abbrev three_pairs : List (ℕ × ℕ)
three_pairs = (1, 10) ∷ (3, 30) ∷ (8, 80) ∷ []

three_sorted : is_sorted integers coarse three_pairs ≡ true
unfolding is_sorted
three_sorted = refl

build_degenerate_lem_example :
    (n : Node ℤ ℕ ℕ) × (build_degenerate 3 three_pairs ≡ some n)
    × ((j : ℕ) → get n j ≡ find_first coarse three_pairs j)
build_degenerate_lem_example =
    build_degenerate_lem 3 three_pairs three_sorted (λ m lo hi e e'. ordinals_near lo.0 hi.0)
      (omega arith) (omega arith)

get_or_insert_lem_example : Obtains keep 4 filled 7 1
get_or_insert_lem_example =
    get_or_insert_lem keep 4 filled 7 1 coarse-Separates tree-IsReady shallow refl

extend_lem_example : Extends keep 8 filled three_pairs
extend_lem_example =
    extend_lem keep 8 filled three_pairs coarse-Separates tree-IsReady (omega (arith, tree_depth))
      refl
