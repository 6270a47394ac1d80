-- ===== src/Board/Service/CloseOff.antt =====
-- The close-off task of a worktree, the document of a review, and the import of a plan.
use Prim.Native.String.{◌++◌ as text_append}
use cloglog.Base.{ℕ, String, Bool, true, false, Option, none, some, List, [], ◌∷◌}
use cloglog.Models.{Epic, Feature, Task}
use cloglog.Action.{Action, assertion_error, pure, raise, gets, ◌>>=◌, unless_none}
use cloglog.Board.Repository.{
  count_epics, next_epic_number, next_feature_number, next_task_number, create_epic, create_feature,
  find_epic_by_title, find_feature_by_title, find_close_off_task, update_task, color_at,
}
use cloglog.Board.Templates.{
  close_off_epic_title, close_off_feature_title, close_worktree_title, close_worktree_description,
}
use cloglog.Board.Service.Rollup.{create_task}

unfoldable pub epic_color_palette : List String
epic_color_palette =
    "#7c3aed" ∷ "#0ea5e9" ∷ "#f59e0b" ∷ "#10b981" ∷ "#ef4444" ∷ "#ec4899" ∷ "#6366f1" ∷ "#14b8a6"
    ∷ "#f97316" ∷ "#8b5cf6" ∷ []

close_off_epic_description : String
close_off_epic_description =
    text_append "Cross-cutting operational work — worktree teardown, "
      "wave close-off, and other supervisor-owned chores."

close_off_feature_description : String
close_off_feature_description =
    text_append "Each worktree gets a paired close-off task filed here " (
      text_append "at creation time (T-246). The task tracks archiving " (
        text_append "shutdown-artifacts, filing learnings, tearing down the "
          "worktree, and committing the wave-fold directly to main."))

-- The Operations epic of the project, made on first use.
unfoldable pub close_off_epic : ℕ → Action Epic
unfolding close_off_epic_description
close_off_epic project_id = do
  found ← gets (λ w. find_epic_by_title w project_id close_off_epic_title)
  existing_count ← gets (λ w. count_epics w project_id)
  unless_none found
      (do
        number ← next_epic_number project_id
        create_epic project_id close_off_epic_title close_off_epic_description "" "" existing_count
            (color_at epic_color_palette existing_count) number)
      pure

-- The feature below it, made on first use.
unfoldable pub close_off_feature : ℕ → Epic → Action Feature
unfolding close_off_feature_description
close_off_feature project_id epic = do
  found ← gets (λ w. find_feature_by_title w epic.id close_off_feature_title)
  unless_none found
      (do
        number ← next_feature_number project_id
        create_feature epic.id close_off_feature_title close_off_feature_description 0 number)
      pure

unfoldable pub create_close_off_task : ℕ → ℕ → String → Option ℕ → Action (Task × Bool)
create_close_off_task project_id close_off_worktree_id worktree_name main_agent_worktree_id = do
  existing ← find_close_off_task close_off_worktree_id
  unless_none existing
      (do
        epic ← close_off_epic project_id
        feature ← close_off_feature project_id epic
        number ← next_task_number project_id
        task ←
            create_task feature.id (close_worktree_title worktree_name)
              (close_worktree_description worktree_name) "normal" 0 number "task" none
        updated ← update_task task.id (λ t. record t {
          close_off_worktree_id = some close_off_worktree_id;
          worktree_id = elim main_agent_worktree_id [ none ↦ t.worktree_id | some m ↦ some m ];
        })
        unless_none updated (raise assertion_error) λ t. pure (t, true))
      (λ t. pure (t, false))
