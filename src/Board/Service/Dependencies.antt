-- ===== src/Board/Service/Dependencies.antt =====
-- The dependencies of features and of tasks.
use cloglog.Base.{ℕ, Bool, true, not, Option, none, some, ◌==◌}
use cloglog.Models.{World}
use cloglog.Action.{
  Action, value_error, self_dependency, feature_not_found, task_not_found, other_project, duplicate,
  cycle, assertion_error, raise, raise_if, gets, ◌>>=◌, ◌>>◌, unless_none,
}
use cloglog.Board.Repository.{
  get_feature, get_epic, get_task, get_dependency_exists, add_dependency_row,
  get_task_dependency_exists, add_task_dependency_row,
}
use cloglog.Graph

-- The answer of a search, whose fuel is enough (`Graph.Ends.has_cycle_ends`).
abbrev pub answer : Option Bool → Bool
answer none = true
answer (some b) = b

unfoldable pub has_cycle : World → ℕ → ℕ → Bool
has_cycle w feature_id depends_on_id =
    answer (Graph.has_cycle w.feature_dependencies feature_id depends_on_id)

unfoldable pub add_dependency : ℕ → ℕ → Action (Unit {0})
add_dependency feature_id depends_on_id = do
  raise_if (feature_id == depends_on_id) (value_error self_dependency)
  feature ← gets (λ w. get_feature w feature_id)
  depends_on ← gets (λ w. get_feature w depends_on_id)
  unless_none feature (raise (value_error feature_not_found)) λ f.
      unless_none depends_on (raise (value_error feature_not_found)) λ d. do
        epic_a ← gets (λ w. get_epic w f.epic_id)
        epic_b ← gets (λ w. get_epic w d.epic_id)
        unless_none epic_a (raise assertion_error) λ a.
            unless_none epic_b (raise assertion_error) λ b. do
              raise_if (not (a.project_id == b.project_id)) (value_error other_project)
              exists ← gets (λ w. get_dependency_exists w feature_id depends_on_id)
              raise_if exists (value_error duplicate)
              closes ← gets (λ w. has_cycle w feature_id depends_on_id)
              raise_if closes (value_error cycle)
              add_dependency_row feature_id depends_on_id

unfoldable pub has_task_cycle : World → ℕ → ℕ → Bool
has_task_cycle w task_id depends_on_task_id =
    answer (Graph.has_cycle w.task_dependencies task_id depends_on_task_id)

-- `_task_project_id`
unfoldable pub task_project_id : World → ℕ → Option ℕ
task_project_id w task_id = elim (get_task w task_id) [
  | none ↦ none
  | some t ↦ elim (get_feature w t.feature_id) [
    | none ↦ none
    | some f ↦ elim (get_epic w f.epic_id) [ none ↦ none | some e ↦ some e.project_id ]
  ]
]

unfoldable pub add_task_dependency : ℕ → ℕ → Action (Unit {0})
add_task_dependency task_id depends_on_task_id = do
  raise_if (task_id == depends_on_task_id) (value_error self_dependency)
  pid_a ← gets (λ w. task_project_id w task_id)
  pid_b ← gets (λ w. task_project_id w depends_on_task_id)
  unless_none pid_a (raise (value_error task_not_found)) λ a.
      unless_none pid_b (raise (value_error task_not_found)) λ b. do
        raise_if (not (a == b)) (value_error other_project)
        exists ← gets (λ w. get_task_dependency_exists w task_id depends_on_task_id)
        raise_if exists (value_error duplicate)
        closes ← gets (λ w. has_task_cycle w task_id depends_on_task_id)
        raise_if closes (value_error cycle)
        add_task_dependency_row task_id depends_on_task_id
