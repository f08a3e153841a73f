-- ===== src/Tests/Trees.antt =====
-- The loops on one tree.
use scry_index.Prelude.{ℕ, ◌*◌, ◌<◌, ◌≤◌, ◌+◌, ◌-◌, ◌^◌, ◌≡◌, refl, some, arith, Returns}
use scry_index.Prelude.Int.{ℤ, pos, negsuc, midpoint_i128}
use scry_index.Lookup.{get}
use scry_index.Node.{predict_slot}
use scry_index.Node.Ready.{IsReady}
use scry_index.Node.Count.{max_depth}
use scry_index.Insert.{insert_loop, conflict_shell}
use scry_index.Insert.Pair.{Counts}
use scry_index.Insert.Count.{total_keys-insert_loop}
use scry_index.Remove.Count.{Uncounts, total_keys-remove_loop}
use scry_index.Insert.GetLaw.{GetsOrInserts, get_or_insert_loop_lem}
use scry_index.Insert.Depth.{depth-insert_loop}
use scry_index.Insert.Law.{get-insert_loop}
use scry_index.Insert.Conflict.{Stores}
use scry_index.Insert.Result.{insert_loop-result, result_of}
use scry_index.Insert.Ready.{insert_loop-IsReady}
use scry_index.Insert.Total.{conflict_shell-Separates, insert_loop_total}
use scry_index.Remove.{remove_loop}
use scry_index.Remove.Law.{get-remove_loop, is_some, Removes}
use scry_index.Remove.Total.{remove_loop_total, remove_loop-IsReady}
use scry_index.Iter.{first_entry, sorted_pairs}
use scry_index.Iter.Entries.{entries, rounds}
use scry_index.Iter.Walk.{head?, first_entry_lem, sorted_pairs_lem}
use scry_index.Fmcd.{fit_range, count_conflicts_fast}
use scry_index.Fmcd.Bounds.{fit_range_lem}
use scry_index.Tests.Sample.{
  integers, coarse, coarse-Separates, tree, tree-IsReady, tree_depth, config,
}

shallow : max_depth tree < 4
shallow = omega (arith, tree_depth)

-- A new key meets an old one in the child.
abbrev inserted_six : Returns (insert_loop 4 tree 6 60)
inserted_six = insert_loop_total coarse-Separates 4 tree 6 60 tree-IsReady shallow

insert_loop_total_example : Returns (insert_loop 4 tree 6 60)
insert_loop_total_example = insert_loop_total coarse-Separates 4 tree 6 60 tree-IsReady shallow

get-insert_loop_example : Stores 6 60 tree inserted_six.0.tree
get-insert_loop_example = get-insert_loop 4 tree 6 60 inserted_six.0 inserted_six.1

insert_loop-result_example : inserted_six.0.result ≡ result_of (get tree 6)
insert_loop-result_example = insert_loop-result 4 tree 6 60 inserted_six.0 inserted_six.1

insert_loop-IsReady_example : IsReady inserted_six.0.tree
insert_loop-IsReady_example =
    insert_loop-IsReady 4 tree 6 60 inserted_six.0 tree-IsReady inserted_six.1

conflict_shell-Separates_example :
    predict_slot (conflict_shell {F = ℤ} {K = ℕ} {V = ℕ} 4 6) 4
      ≡ predict_slot (conflict_shell {F = ℤ} {K = ℕ} {V = ℕ} 4 6) 6
    → ⊥
conflict_shell-Separates_example = conflict_shell-Separates ℤ ℕ 4 6 coarse-Separates refl

abbrev removed_seven : Returns (remove_loop config 4 tree 7)
removed_seven = remove_loop_total config 4 tree 7 tree-IsReady shallow

remove_loop_total_example : Returns (remove_loop config 4 tree 7)
remove_loop_total_example = remove_loop_total config 4 tree 7 tree-IsReady shallow

get-remove_loop_example :
    Removes 7 tree removed_seven.0.tree × (removed_seven.0.was_removed ≡ is_some (get tree 7))
get-remove_loop_example = get-remove_loop config 4 tree 7 removed_seven.0 removed_seven.1

remove_loop-IsReady_example : IsReady removed_seven.0.tree
remove_loop-IsReady_example =
    remove_loop-IsReady config 4 tree 7 removed_seven.0 tree-IsReady removed_seven.1

few_rounds : rounds tree < 20
unfolding rounds
few_rounds = omega arith

sorted_pairs_lem_example : sorted_pairs 20 tree ≡ some (entries tree)
sorted_pairs_lem_example = sorted_pairs_lem 20 tree tree-IsReady few_rounds

-- three keys in six slots
abbrev positions : ℕ → ℤ
positions i = pos (i * 10)

fit_range_lem_example :
    let r = fit_range positions 3 (pos 1) 6 in
    (r.array_size ≡ 6)
    × (count_conflicts_fast positions 3 r.model 6 ≡ r.conflicts)
    × (r.conflicts < 3)
fit_range_lem_example = fit_range_lem positions 3 (pos 1) 6 (omega arith)

total_keys-insert_loop_example : Counts 6 tree inserted_six.0.tree
total_keys-insert_loop_example = total_keys-insert_loop 4 tree 6 60 inserted_six.0 inserted_six.1

total_keys-remove_loop_example : Uncounts 7 tree removed_seven.0.tree
total_keys-remove_loop_example =
    total_keys-remove_loop config 4 tree 7 removed_seven.0 removed_seven.1

get_or_insert_loop_lem_example : GetsOrInserts 4 tree 7 1 (get tree 7)
get_or_insert_loop_lem_example =
    get_or_insert_loop_lem 4 tree 7 1 coarse-Separates tree-IsReady shallow

depth-insert_loop_example : max_depth inserted_six.0.tree ≤ max_depth tree + 1
depth-insert_loop_example = depth-insert_loop 4 tree 6 60 inserted_six.0 inserted_six.1

first_entry_lem_example : first_entry 20 tree ≡ some (head? (entries tree))
first_entry_lem_example = first_entry_lem 20 tree tree-IsReady few_rounds

-- The difference of the least i128 and the greatest but one overflows, and the midpoint wraps.
overflowed : midpoint_i128 (negsuc (2 ^ 127 - 1)) (pos (2 ^ 127 - 2)) ≡ pos (2 ^ 127 - 1)
unfolding midpoint_i128
overflowed = refl
