-- ===== src/Board/Repository/Tasks.antt =====
-- Tasks, notes, notifications, documents and the dependency rows.
use cloglog.Base.{
  ℕ, String, Bool, true, false, not, ◌&&◌, ◌||◌, Option, none, some, List, [], ◌∷◌, ◌++◌, ◌==◌,
  is_id, str_eq, find, update_where, delete_where, select, count, sort_by,
}
use cloglog.Models.{World, Task, TaskNote, Notification}
use cloglog.Action.{Action, pure, modify, gets, uuid4, ◌>>=◌, ◌>>◌, unless_none}
use cloglog.Board.Repository.Entities.{get_epic, get_feature}

abbrev pub is_task : ℕ → Task → Bool
is_task k t = t.id == k

unfoldable pub get_task : World → ℕ → Option Task
get_task w k = find (is_task k) w.tasks

-- The row that the model's defaults give a new task.
abbrev pub new_task : ℕ → ℕ → ℕ → String → String → String → ℕ → ℕ → String → Option String → Task
new_task id now feature_id title description priority position number task_type model = record {
  id = id;
  feature_id = feature_id;
  title = title;
  description = description;
  status = "backlog";
  priority = priority;
  task_type = task_type;
  model = model;
  pr_url = none;
  pr_head_sha = none;
  pr_merged = false;
  artifact_path = none;
  worktree_id = none;
  close_off_worktree_id = none;
  position = position;
  number = number;
  archived = false;
  retired = false;
  created_at = now;
  updated_at = now;
}

unfoldable pub create_task_row :
    ℕ → String → String → String → ℕ → ℕ → String → Option String → Action Task
create_task_row feature_id title description priority position number task_type model = do
  id ← uuid4
  now ← gets (λ w. w.now)
  let task = new_task id now feature_id title description priority position number task_type model
  modify (λ w. record w { tasks = w.tasks ++ task ∷ [] })
  pure task

-- The keyword arguments are the function that sets the columns they name; `onupdate` stamps the row.
unfoldable pub update_task : ℕ → (Task → Task) → Action (Option Task)
update_task k fields = do
  task ← gets (λ w. get_task w k)
  unless_none task (pure none) λ t. do
    now ← gets (λ w. w.now)
    modify (λ w. record w {
      tasks = update_where (is_task k) (λ r. record (fields r) { updated_at = now }) w.tasks;
    })
    pure (some (record (fields t) { updated_at = now }))

-- With a task go its notes, its notifications and its dependency rows (`ON DELETE CASCADE`).
unfoldable pub delete_task : ℕ → Action Bool
delete_task k = do
  task ← gets (λ w. get_task w k)
  unless_none task (pure false) λ _. do
    modify (λ w. record w {
      tasks = delete_where (is_task k) w.tasks;
      task_notes = delete_where (λ n. n.task_id == k) w.task_notes;
      notifications = delete_where (λ n. n.task_id == k) w.notifications;
      task_dependencies = delete_where (λ d. d.0 == k || d.1 == k) w.task_dependencies;
    })
    pure true

-- The join of a task, or a feature, with the epic above it, and the test on the epic's project.
unfoldable pub feature_in_project : World → ℕ → ℕ → Bool
feature_in_project w k feature_id = elim (get_feature w feature_id) [
  | none ↦ false
  | some f ↦ elim (get_epic w f.epic_id) [ none ↦ false | some e ↦ e.project_id == k ]
]

unfoldable pub get_tasks_for_feature : World → ℕ → List Task
get_tasks_for_feature w k = sort_by (λ t. t.position) (select (λ t. t.feature_id == k) w.tasks)

unfoldable pub get_tasks_for_worktree : World → ℕ → List Task
get_tasks_for_worktree w k = sort_by (λ t. t.position) (select (λ t. is_id t.worktree_id k) w.tasks)

unfoldable pub get_active_tasks : World → ℕ → List Task
get_active_tasks w k =
    sort_by (λ t. t.position)
      (select
        (λ t.
          feature_in_project w k t.feature_id
          && not (str_eq t.status "done")
          && not t.archived
          && not t.retired)
        w.tasks)

-- The tasks that `retire_done_tasks` selects.
abbrev pub is_retirable : World → ℕ → Task → Bool
is_retirable w k t =
    feature_in_project w k t.feature_id && str_eq t.status "done" && t.archived && not t.retired

unfoldable pub retire_done_tasks : ℕ → Action ℕ
retire_done_tasks k = do
  w ← gets (λ w. w)
  modify (λ v. record v {
    tasks =
        update_where (is_retirable w k) (λ t. record t { retired = true; updated_at = w.now })
          v.tasks;
  })
  pure (count (is_retirable w k) w.tasks)

unfoldable pub add_task_note : ℕ → String → Action TaskNote
add_task_note k note = do
  id ← uuid4
  now ← gets (λ w. w.now)
  let row : TaskNote = record { id = id; task_id = k; note = note; created_at = now }
  modify (λ w. record w { task_notes = w.task_notes ++ row ∷ [] })
  pure row

unfoldable pub get_task_notes : World → ℕ → List TaskNote
get_task_notes w k = sort_by (λ n. n.created_at) (select (λ n. n.task_id == k) w.task_notes)

unfoldable pub create_notification : ℕ → ℕ → String → ℕ → Action Notification
create_notification project_id task_id task_title task_number = do
  id ← uuid4
  now ← gets (λ w. w.now)
  let row : Notification = record {
    id = id;
    project_id = project_id;
    task_id = task_id;
    task_title = task_title;
    task_number = task_number;
    read = false;
    created_at = now;
  }
  modify (λ w. record w { notifications = w.notifications ++ row ∷ [] })
  pure row

abbrev pub is_unread : ℕ → Notification → Bool
is_unread k n = n.project_id == k && not n.read

unfoldable pub mark_notification_read : ℕ → Action (Option Notification)
mark_notification_read k = do
  found ← gets (λ w. find (λ n. n.id == k) w.notifications)
  unless_none found (pure none) λ n. do
    modify (λ w. record w {
      notifications = update_where (λ m. m.id == k) (λ m. record m { read = true }) w.notifications;
    })
    pure (some (record n { read = true }))

unfoldable pub mark_all_notifications_read : ℕ → Action ℕ
mark_all_notifications_read k = do
  rows ← gets (λ w. w.notifications)
  modify (λ w. record w {
    notifications = update_where (is_unread k) (λ m. record m { read = true }) w.notifications;
  })
  pure (count (is_unread k) rows)

unfoldable pub get_unread_notification_for_task : World → ℕ → ℕ → Option Notification
get_unread_notification_for_task w k task_id =
    find (λ n. n.project_id == k && n.task_id == task_id && not n.read) w.notifications
