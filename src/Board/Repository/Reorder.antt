-- ===== src/Board/Repository/Reorder.antt =====
-- The statements that reorder the rows of one parent, the largest position of a column of the board,
-- and the dependencies of a whole project.
use cloglog.Base.{
  ℕ, String, Bool, false, not, ◌&&◌, none, some, List, [], ◌∷◌, ◌==◌, ltb, str_eq, map,
  update_where, select, count, contains, length, if◌then◌else◌,
}
use cloglog.Models.{World, Epic, Feature, Task}
use cloglog.Action.{Action, modify, gets, raise_if, value_error, ids_not_found, ◌>>=◌, ◌>>◌}
use cloglog.Board.Repository.Entities.{is_epic, is_feature}
use cloglog.Board.Repository.Tasks.{is_task, get_task, feature_in_project}

-- `ids = [pid for pid, _ in positions]`
abbrev pub ids_of : List (ℕ × ℕ) → List ℕ
ids_of positions = map (λ p. p.0) positions

-- Each loop sets the positions one after the other.
unfoldable pub place_epics : List (ℕ × ℕ) → List Epic → List Epic
place_epics [] rows = rows
place_epics ((k, pos) ∷ positions) rows =
    place_epics positions (update_where (is_epic k) (λ e. record e { position = pos }) rows)

unfoldable pub reorder_epics : ℕ → List (ℕ × ℕ) → Action (Unit {0})
reorder_epics project_id positions = do
  found ←
      gets
        (λ w. count (λ e. e.project_id == project_id && contains (ids_of positions) e.id) w.epics)
  raise_if (not (found == length positions)) (value_error ids_not_found)
  modify (λ w. record w { epics = place_epics positions w.epics })

unfoldable pub place_features : List (ℕ × ℕ) → List Feature → List Feature
place_features [] rows = rows
place_features ((k, pos) ∷ positions) rows =
    place_features positions (update_where (is_feature k) (λ f. record f { position = pos }) rows)

unfoldable pub reorder_features : ℕ → List (ℕ × ℕ) → Action (Unit {0})
reorder_features epic_id positions = do
  found ←
      gets (λ w. count (λ f. f.epic_id == epic_id && contains (ids_of positions) f.id) w.features)
  raise_if (not (found == length positions)) (value_error ids_not_found)
  modify (λ w. record w { features = place_features positions w.features })

-- A position that a task has already is no change of the row, so that `updated_at` stays.
unfoldable pub place_task : ℕ → ℕ → Task → Task
place_task now pos t =
    if t.position == pos then t else record t { position = pos; updated_at = now }

unfoldable pub place_tasks : ℕ → List (ℕ × ℕ) → List Task → List Task
place_tasks now [] rows = rows
place_tasks now ((k, pos) ∷ positions) rows =
    place_tasks now positions (update_where (is_task k) (place_task now pos) rows)

unfoldable pub reorder_tasks : ℕ → List (ℕ × ℕ) → Action (Unit {0})
reorder_tasks feature_id positions = do
  found ←
      gets
        (λ w. count (λ t. t.feature_id == feature_id && contains (ids_of positions) t.id) w.tasks)
  raise_if (not (found == length positions)) (value_error ids_not_found)
  modify (λ w. record w { tasks = place_tasks w.now positions w.tasks })

-- `func.max(Task.position)`, and 0 where there is no row.
unfoldable pub max_position : List Task → ℕ
max_position [] = 0
max_position (t ∷ ts) = let m = max_position ts in if ltb m t.position then t.position else m

unfoldable pub get_max_task_position : World → ℕ → String → ℕ
get_max_task_position w feature_id status =
    max_position (select (λ t. t.feature_id == feature_id && str_eq t.status status) w.tasks)

unfoldable pub get_all_dependencies : World → ℕ → List (ℕ × ℕ)
get_all_dependencies w project_id =
    select (λ d. feature_in_project w project_id d.0) w.feature_dependencies

-- The join on the dependent task, its feature and its epic.
abbrev task_in_project : World → ℕ → ℕ → Bool
task_in_project w project_id k = elim (get_task w k) [
  | none ↦ false
  | some t ↦ feature_in_project w project_id t.feature_id
]

unfoldable pub get_all_task_dependencies : World → ℕ → List (ℕ × ℕ)
get_all_task_dependencies w project_id =
    select (λ d. task_in_project w project_id d.0) w.task_dependencies
