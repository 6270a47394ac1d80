-- ===== src/Board/Service/Rollup.antt =====
-- The status roll-up, and the creation of a task, which recomputes it.
use cloglog.Base.{
  ℕ, String, not, ◌||◌, Option, List, [], ◌∷◌, str_eq, all, any, map, update_where, if◌then◌else◌,
}
use cloglog.Models.{World, Feature, Task, EventType, uuid, str}
use cloglog.Action.{
  Action, value_error, feature_not_found, pure, raise, modify, gets, publish, when, ◌>>=◌, ◌>>◌,
  unless_none,
}
use cloglog.Board.Repository.{
  is_epic, is_feature, get_epic, get_feature, get_tasks_for_feature, list_features, create_task_row,
}

-- The status of a feature from those of its tasks.
unfoldable pub feature_status : List String → String
feature_status statuses =
    if all (λ s. str_eq s "done") statuses
    then "done"
    else if any (λ s. str_eq s "review") statuses
    then "review"
    else if any (λ s. str_eq s "in_progress" || str_eq s "prioritized") statuses
    then "in_progress"
    else "planned"

-- The status of an epic from those of its features.
unfoldable pub epic_status : List String → String
epic_status statuses =
    if all (λ s. str_eq s "done") statuses
    then "done"
    else if any (λ s. str_eq s "in_progress" || str_eq s "review") statuses
    then "in_progress"
    else "planned"

abbrev pub set_feature_status : ℕ → String → World → World
set_feature_status k s w = record w {
  features = update_where (is_feature k) (λ f. record f { status = s }) w.features;
}

abbrev pub set_epic_status : ℕ → String → World → World
set_epic_status k s w = record w {
  epics = update_where (is_epic k) (λ e. record e { status = s }) w.epics;
}

unfoldable pub recompute_rollup : ℕ → Action (Unit {0})
recompute_rollup feature_id = do
  tasks ← gets (λ w. get_tasks_for_feature w feature_id)
  feature ← gets (λ w. get_feature w feature_id)
  unless_none feature (pure tt) λ f. do
    modify (set_feature_status f.id (feature_status (map (λ t. t.status) tasks)))
    epic ← gets (λ w. get_epic w f.epic_id)
    unless_none epic (pure tt) λ e. do
      features ← gets (λ w. list_features w e.id)
      modify (set_epic_status e.id (epic_status (map (λ g. g.status) features)))

-- The last part of `create_task`: an event if the status of the feature is not what it was.
unfoldable pub announce_rollup : ℕ → Feature → Task → Action (Unit {0})
announce_rollup feature_id old task = do
  updated ← gets (λ w. get_feature w feature_id)
  unless_none updated (pure tt) λ new. do
    epic ← gets (λ w. get_epic w new.epic_id)
    when (not (str_eq new.status old.status)) (
        unless_none epic (pure tt) λ e. publish (record {
          type = EventType.task_status_changed;
          project_id = e.project_id;
          payload =
              ("task_id", uuid task.id)
              ∷ ("old_status", str old.status)
              ∷ ("new_status", str new.status)
              ∷ [];
        }))

-- `create_task`: every insertion of a task goes through here.
unfoldable pub create_task :
    ℕ → String → String → String → ℕ → ℕ → String → Option String → Action Task
create_task feature_id title description priority position number task_type model = do
  feature ← gets (λ w. get_feature w feature_id)
  unless_none feature (raise (value_error feature_not_found)) λ old. do
    task ← create_task_row feature_id title description priority position number task_type model
    recompute_rollup feature_id
    announce_rollup feature_id old task
    pure task
