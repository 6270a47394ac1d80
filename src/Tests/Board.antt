-- ===== src/Tests/Board.antt =====
-- The board's services and theorems on the sample world.
use cloglog.Base.{
  String, strip, lstrip, rstrip, push_stripped, is_space, drop_prefix, drop_suffix, ℕ, ◌≡◌, ◌≢◌,
  refl, ◌⊎◌, true, false, ◌&&◌, none, some, List, [], ◌∷◌, ◌++◌, arith, all, map, find,
  update_where,
}
use mathlib.Core.List.Memᴰ
use cloglog.Models.{World}
use cloglog.Action.{Result, ok, err, value_error, cycle, ids_not_found}
use cloglog.Graph.{dependencies, has_cycle}
use cloglog.Graph.Walks.{Walk, Acyclic}
use cloglog.Graph.Correct.{has_cycle_correct}
use cloglog.Graph.Acyclic.{Acyclic-append}
use cloglog.Board.Repository.{
  get_feature, get_epic, get_task, get_dependency_exists, get_feature_dependencies,
  get_task_dependencies, has_row, reorder_features, place_features,
}
use cloglog.Board.Service.{
  add_dependency, recompute_rollup, get_unresolved_blockers, task_resolved, rows_of,
}
use cloglog.Board.Acyclic.{add_dependency-Acyclic, add_dependency_decides}
use cloglog.Board.RepoUrl.{
  has_suffix, normalize_repo_url, IsCanonical, normalize_repo_url_lem, normalize_repo_url_canonical,
  to_https,
}
use cloglog.Board.Rollup.{IsRollupOfTasks, IsRollupOfFeatures, recompute_rollup_lem}
use cloglog.Board.Blockers.{get_unresolved_blockers-nil, is_nil, feature_resolved}
use cloglog.Tests.Sample.{sample, feature, epic, task}

no_rows-Acyclic : Acyclic []
unfolding Acyclic dependencies
no_rows-Acyclic u v m p = Memᴰ.not-nil m

-- The row (22, 21) of features, and the row (34, 33) of tasks.
abbrev linked : World
linked = record sample { feature_dependencies = (22, 21) ∷ []; task_dependencies = (34, 33) ∷ [] }

not_linked : (u v : ℕ) → u ≢ v → ¬ Walk [] u v
unfolding dependencies
not_linked u v ne Walk.here = ne refl
not_linked u v ne (Walk.next p m) = Memᴰ.not-nil m

has_cycle_correct_example :
    ((has_cycle ((1, 2) ∷ (2, 1) ∷ []) 1 2 ≡ some true) × Walk ((1, 2) ∷ (2, 1) ∷ []) 2 1)
    ⊎ ((has_cycle ((1, 2) ∷ (2, 1) ∷ []) 1 2 ≡ some false) × ¬ Walk ((1, 2) ∷ (2, 1) ∷ []) 2 1)
has_cycle_correct_example = has_cycle_correct ((1, 2) ∷ (2, 1) ∷ []) 1 2

linked_features : Acyclic ((22, 21) ∷ [])
linked_features = Acyclic-append 22 21 [] no_rows-Acyclic (not_linked 21 22 (λ e. ground arith))

linked_tasks : Acyclic ((34, 33) ∷ [])
linked_tasks = Acyclic-append 34 33 [] no_rows-Acyclic (not_linked 33 34 (λ e. ground arith))

add_dependency-Acyclic_example : Acyclic (add_dependency 21 22 linked).1.feature_dependencies
add_dependency-Acyclic_example = add_dependency-Acyclic 21 22 linked linked_features

feature_21 : get_feature linked 21 ≡ some (feature 21)
unfolding get_feature find
feature_21 = refl

feature_22 : get_feature linked 22 ≡ some (feature 22)
unfolding get_feature find
feature_22 = refl

epic_10 : get_epic linked 10 ≡ some (epic 10 1)
unfolding get_epic find
epic_10 = refl

task_34 : get_task linked 34 ≡ some (task 34 22 "backlog" "plan" none none)
unfolding get_task find
task_34 = refl

no_row_yet : get_dependency_exists linked 21 22 ≡ false
unfolding get_dependency_exists has_row
no_row_yet = refl

add_dependency_decides_example :
    ((add_dependency 21 22 linked ≡ (
      ok tt,
      record linked { feature_dependencies = linked.feature_dependencies ++ (21, 22) ∷ [] },
    ))
      × ¬ Walk linked.feature_dependencies 22 21)
    ⊎ ((add_dependency 21 22 linked ≡ (err (value_error cycle), linked))
        × Walk linked.feature_dependencies 22 21)
add_dependency_decides_example =
    add_dependency_decides 21 22 linked (λ e. ground arith) feature_21 feature_22 epic_10 epic_10
      refl no_row_yet

recompute_rollup_lem_example :
    let w' = (recompute_rollup 21 linked).1 in
    (s : String) × (get_feature w' 21 ≡ some (record (feature 21) { status = s }))
    × IsRollupOfTasks 21 w' s
    × (z : String) × (get_epic w' 10 ≡ some (record (epic 10 1) { status = z }))
    × IsRollupOfFeatures 10 w' z
recompute_rollup_lem_example = recompute_rollup_lem 21 linked feature_21 epic_10

get_unresolved_blockers-nil_example : is_nil (get_unresolved_blockers linked 34) ≡ (
    all
      (feature_resolved linked)
      (rows_of (get_feature linked) (get_feature_dependencies linked 22))
    && all task_resolved (rows_of (get_task linked) (get_task_dependencies linked 34)))
get_unresolved_blockers-nil_example = get_unresolved_blockers-nil linked 34 task_34 feature_22

normalize_repo_url_lem_example : has_suffix (normalize_repo_url "git@github.com:o/r.git/") ≡ false
normalize_repo_url_lem_example = normalize_repo_url_lem "git@github.com:o/r.git/"

canonical : IsCanonical "https://github.com/o/r"
unfolding strip lstrip rstrip push_stripped is_space to_https drop_prefix has_suffix drop_suffix
canonical = (refl, refl, refl)

stored : normalize_repo_url "https://github.com/o/r" ≡ "https://github.com/o/r"
stored = normalize_repo_url_canonical "https://github.com/o/r" canonical

-- The positions of the sample's features after a reordering, and whether it went through.
abbrev places : List (ℕ × ℕ) → Result (Unit {0}) × List ℕ
places positions =
    let r = reorder_features 10 positions sample in (r.0, map (λ f. f.position) r.1.features)

swapped : places ((21, 22) ∷ (22, 21) ∷ []) ≡ (ok tt, 22 ∷ 21 ∷ [])
unfolding reorder_features place_features update_where
swapped = refl

-- An id that is listed twice is refused as one that is missing.
listed_twice : places ((21, 5) ∷ (21, 6) ∷ []) ≡ (err (value_error ids_not_found), 21 ∷ 22 ∷ [])
unfolding reorder_features place_features update_where
listed_twice = refl
