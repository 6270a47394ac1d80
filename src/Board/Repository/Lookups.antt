-- ===== src/Board/Repository/Lookups.antt =====
-- The lookups by close-off worktree, by pull request and by repository, and the dependency rows.
use cloglog.Base.{
  ℕ, String, Bool, not, ◌&&◌, ◌||◌, Option, none, some, List, [], ◌∷◌, ◌++◌, ◌==◌, ltb, is_id,
  is_text, str_eq, select, count, any, find, sql_endswith, if◌then◌else◌,
}
use cloglog.Models.{World, Task, Project}
use cloglog.Action.{Action, pure, modify, gets, scalar_one_or_none, ◌>>=◌, ◌>>◌}
use cloglog.Board.Repository.Tasks.{feature_in_project}
use cloglog.Graph.{dependencies}

unfoldable pub find_close_off_task : ℕ → Action (Option Task)
find_close_off_task k w =
    scalar_one_or_none (select (λ t. is_id t.close_off_worktree_id k) w.tasks) w

-- `ORDER BY updated_at DESC LIMIT 1`
unfoldable pub latest_task : List Task → Option Task
latest_task [] = none
latest_task (t ∷ ts) = elim (latest_task ts) [
  | none ↦ some t
  | some u ↦ if ltb t.updated_at u.updated_at then some u else some t
]

abbrev pub is_live : Task → Bool
is_live t = str_eq t.status "in_progress" || str_eq t.status "review"

unfoldable pub find_task_by_pr_url : World → String → Option Task
find_task_by_pr_url w url = latest_task (select (λ t. is_text t.pr_url url && is_live t) w.tasks)

unfoldable pub find_task_by_pr_url_for_project : World → String → ℕ → Option Task
find_task_by_pr_url_for_project w url k =
    latest_task (
      select (λ t. is_text t.pr_url url && is_live t && feature_in_project w k t.feature_id)
        w.tasks)

-- The urls of the list that stand on more than one task of the project.
unfoldable pub shared_pr_urls_in_project : World → ℕ → List String → List String
shared_pr_urls_in_project w k = select (λ url.
    ltb 1 (count (λ t. feature_in_project w k t.feature_id && is_text t.pr_url url) w.tasks))

unfoldable pub has_row : ℕ → ℕ → List (ℕ × ℕ) → Bool
has_row a b = any (λ d. d.0 == a && d.1 == b)

-- The four methods of a dependency table, for `feature_dependencies` and `task_dependencies`.
unfoldable pub add_dependency_row : ℕ → ℕ → Action (Unit {0})
add_dependency_row a b =
    modify (λ w. record w { feature_dependencies = w.feature_dependencies ++ (a, b) ∷ [] })

unfoldable pub remove_dependency : ℕ → ℕ → Action Bool
remove_dependency a b = do
  rows ← gets (λ w. w.feature_dependencies)
  modify (λ w. record w {
    feature_dependencies = select (λ d. not (d.0 == a && d.1 == b)) w.feature_dependencies;
  })
  pure (has_row a b rows)

unfoldable pub get_dependency_exists : World → ℕ → ℕ → Bool
get_dependency_exists w a b = has_row a b w.feature_dependencies

unfoldable pub get_feature_dependencies : World → ℕ → List ℕ
get_feature_dependencies w k = dependencies w.feature_dependencies k

unfoldable pub add_task_dependency_row : ℕ → ℕ → Action (Unit {0})
add_task_dependency_row a b =
    modify (λ w. record w { task_dependencies = w.task_dependencies ++ (a, b) ∷ [] })

unfoldable pub remove_task_dependency : ℕ → ℕ → Action Bool
remove_task_dependency a b = do
  rows ← gets (λ w. w.task_dependencies)
  modify (λ w. record w {
    task_dependencies = select (λ d. not (d.0 == a && d.1 == b)) w.task_dependencies;
  })
  pure (has_row a b rows)

unfoldable pub get_task_dependency_exists : World → ℕ → ℕ → Bool
get_task_dependency_exists w a b = has_row a b w.task_dependencies

unfoldable pub get_task_dependencies : World → ℕ → List ℕ
get_task_dependencies w k = dependencies w.task_dependencies k

-- The row that LIMIT 1 takes is any of them; here, the one that was inserted first.
unfoldable pub find_project_by_repo : World → String → Option Project
find_project_by_repo w repo_full_name =
    find (λ p. sql_endswith p.repo_url repo_full_name) w.projects

unfoldable pub find_projects_by_repo : World → String → List Project
find_projects_by_repo w repo_full_name =
    select (λ p. sql_endswith p.repo_url repo_full_name) w.projects
