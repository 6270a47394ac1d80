-- ===== src/Agent/Service/TaskLife.antt =====
-- Assigning, starting and moving tasks.
use Prim.Native.String.{◌++◌ as text_append}
use text.Mathlib.Text.{starts_with}
use cloglog.Base.{
  ℕ, String, Bool, true, false, not, ◌&&◌, ◌||◌, Option, none, some, List, [], ◌∷◌, ◌==◌, str_eq,
  is_id, is_text, is_some, truthy?, any,
}
use cloglog.Models.{World, Worktree, Task, Event, EventType, Value, uuid, str}
use cloglog.Action.{
  Action, Blocker, value_error, task_blocked, worktree_not_found, task_not_found, feature_not_found,
  already_active, agents_cannot_finish, not_close_off_owner, review_needs_pr, pr_already_used,
  must_be_reviewed, foreign_task, not_an_artifact_task, not_in_review, pure, raise, raise_if, gets,
  publish, when, ◌>>=◌, ◌>>◌, unless_none,
}
use cloglog.Board.Templates.{close_off_epic_title, close_off_feature_title}
use cloglog.Board.Repository.{
  get_task, get_feature, get_epic, update_task, get_tasks_for_worktree, get_tasks_for_feature,
}
use cloglog.Board.Service.{recompute_rollup, create_document}
use cloglog.Agent.Repository.{get_worktree, set_worktree_current_task}
use cloglog.Agent.Service.Pipeline.{collect_all_blockers}

-- The event that the methods below publish about a task.
abbrev pub task_event : Worktree → ℕ → ℕ → List (String × Value) → Event
task_event v worktree_id task_id rest = record {
  type = EventType.task_status_changed;
  project_id = v.project_id;
  payload = ("task_id", uuid task_id) ∷ ("worktree_id", uuid worktree_id) ∷ rest;
}

-- `get_worktree` and `get_task`, with the ValueError of each.
abbrev pub known_worktree : {A : Type 0} → ℕ → (Worktree → Action A) → Action A
known_worktree worktree_id rest = do
  worktree ← gets (λ w. get_worktree w worktree_id)
  unless_none worktree (raise (value_error worktree_not_found)) rest

abbrev pub known_task : {A : Type 0} → ℕ → (Task → Action A) → Action A
known_task task_id rest = do
  task ← gets (λ w. get_task w task_id)
  unless_none task (raise (value_error task_not_found)) rest

unfoldable pub assign_task : ℕ → ℕ → Action (Unit {0})
assign_task worktree_id task_id = known_worktree worktree_id λ v. known_task task_id λ t. do
  update_task task_id (λ r. record r { worktree_id = some worktree_id })
  publish (task_event v worktree_id task_id (("action", str "assigned") ∷ []))

-- A task that keeps its agent busy.
unfoldable pub is_busy : Task → Bool
is_busy t = (str_eq t.status "in_progress" || str_eq t.status "review") && not t.pr_merged

-- The guard "one active task per agent".
unfoldable pub has_other_active : World → ℕ → ℕ → Bool
has_other_active w worktree_id task_id =
    any (λ t. not (t.id == task_id) && is_busy t) (get_tasks_for_worktree w worktree_id)

abbrev pub is_empty : List Blocker → Bool
is_empty [] = true
is_empty (b ∷ bs) = false

-- `blockers = collect_all_blockers(task); if blockers: raise TaskBlockedError`
unfoldable pub check_blockers : Task → Action (Unit {0})
check_blockers t = do
  blockers ← gets (λ w. collect_all_blockers w t)
  raise_if (not (is_empty blockers)) (task_blocked blockers)

-- Returns the model of the task.
unfoldable pub start_task : ℕ → ℕ → Action (Option String)
start_task worktree_id task_id = known_worktree worktree_id λ v. known_task task_id λ t. do
  busy ← gets (λ w. has_other_active w worktree_id task_id)
  raise_if busy (value_error already_active)
  check_blockers t
  update_task task_id (λ r. record r { worktree_id = some worktree_id; status = "in_progress" })
  set_worktree_current_task worktree_id (some task_id)
  publish (task_event v worktree_id task_id (("status", str "in_progress") ∷ []))
  pure t.model

-- Agents may not mark tasks done: the method raises before anything else.
unfoldable pub complete_task : ℕ → ℕ → Option String → Action (Unit {0})
complete_task worktree_id task_id pr_url = raise (value_error agents_cannot_finish)

-- A close-off task: by its column, or, where that was cleared, by its title and its place.
unfoldable pub is_close_off_task : World → Task → Bool
is_close_off_task w t =
    is_some t.close_off_worktree_id
    || starts_with t.title "Close worktree " && elim (get_feature w t.feature_id) [
      | none ↦ false
      | some f ↦ str_eq f.title close_off_feature_title && elim (get_epic w f.epic_id) [
        | none ↦ false
        | some e ↦ str_eq e.title close_off_epic_title
      ]
    ]

-- Another task of the feature is done with this pull request.
unfoldable pub pr_used_by_done : World → Task → String → Bool
pr_used_by_done w t url =
    any (λ ft. not (ft.id == t.id) && is_text ft.pr_url url && str_eq ft.status "done")
      (get_tasks_for_feature w t.feature_id)

abbrev pub is_reused : World → Task → Option String → Bool
is_reused w t none = false
is_reused w t (some url) = truthy? (some url) && pr_used_by_done w t url

-- The four groups of guards of `update_task_status`: who may finish a task, what may start, which
-- pull request a review takes, and what goes through a review before it is done.
unfoldable pub check_owner : ℕ → Worktree → Task → String → Action (Unit {0})
check_owner worktree_id v t status = do
  close_off ← gets (λ w. is_close_off_task w t)
  raise_if (str_eq status "done" && not close_off) (value_error agents_cannot_finish)
  raise_if
      (str_eq status "done"
        && close_off
        && (not (is_id t.worktree_id worktree_id) || not (str_eq v.role "main")))
      (value_error not_close_off_owner)

unfoldable pub check_ready : Task → String → Action (Unit {0})
check_ready t status = when (str_eq status "in_progress") (check_blockers t)

unfoldable pub check_pr : Task → String → Option String → Bool → Action (Unit {0})
check_pr t status pr_url skip_pr = do
  raise_if (str_eq status "review" && not (truthy? pr_url) && not (truthy? t.pr_url) && not skip_pr)
      (value_error review_needs_pr)
  reused ← gets (λ w. is_reused w t pr_url)
  raise_if (str_eq status "review" && reused) (value_error pr_already_used)

unfoldable pub check_reviewed : Task → String → Action (Unit {0})
check_reviewed t status =
    raise_if
      (str_eq status "done"
        && (str_eq t.task_type "spec" || str_eq t.task_type "impl")
        && not (str_eq t.status "review"))
      (value_error must_be_reviewed)

-- The guards of `update_task_status`, in their order.
unfoldable pub check_status :
    ℕ → Worktree → Task → String → Option String → Bool → Action (Unit {0})
check_status worktree_id v t status pr_url skip_pr = do
  check_owner worktree_id v t status
  check_ready t status
  check_pr t status pr_url skip_pr
  check_reviewed t status

-- `update_fields`: the status, and the pull request if one was given.
abbrev pub move_to : String → Option String → Task → Task
move_to status none r = record r { status = status }
move_to status (some url) r = record r { status = status; pr_url = some url }

-- What `update_task_status` writes once its guards have passed.
unfoldable pub move_task : ℕ → ℕ → Worktree → Task → String → Option String → Action (Unit {0})
move_task worktree_id task_id v t status pr_url = do
  update_task task_id (move_to status pr_url)
  when (str_eq status "done") (do
    recompute_rollup t.feature_id
    when (is_id v.current_task_id task_id) (set_worktree_current_task worktree_id none))
  publish (task_event v worktree_id task_id (("new_status", str status) ∷ []))

unfoldable pub update_task_status : ℕ → ℕ → String → Option String → Bool → Action (Unit {0})
update_task_status worktree_id task_id status pr_url skip_pr = known_worktree worktree_id λ v.
    known_task task_id λ t. do
      check_status worktree_id v t status pr_url skip_pr
      move_task worktree_id task_id v t status pr_url

unfoldable pub mark_pr_merged : ℕ → ℕ → Action (Unit {0})
mark_pr_merged worktree_id task_id = known_worktree worktree_id λ v. known_task task_id λ t. do
  feature ← gets (λ w. get_feature w t.feature_id)
  unless_none feature (raise (value_error feature_not_found)) λ f. do
    epic ← gets (λ w. get_epic w f.epic_id)
    unless_none epic (raise (value_error foreign_task)) λ e. do
      raise_if (not (e.project_id == v.project_id)) (value_error foreign_task)
      update_task task_id (λ r. record r { pr_merged = true })
      pure tt

-- Returns the feature that the document was attached to.
unfoldable pub report_artifact : ℕ → ℕ → String → Action ℕ
report_artifact worktree_id task_id path = known_worktree worktree_id λ v. known_task task_id λ t.
    do
      raise_if (not (str_eq t.task_type "spec" || str_eq t.task_type "plan"))
          (value_error not_an_artifact_task)
      raise_if (not (str_eq t.status "review")) (value_error not_in_review)
      update_task task_id (λ r. record r { artifact_path = some path })
      create_document (text_append t.task_type (text_append " — " t.title)) "" t.task_type path
          "feature" (some t.feature_id)
      publish (
          task_event v worktree_id task_id
            (("action", str "artifact_attached") ∷ ("artifact_path", str path) ∷ []))
      pure t.feature_id
