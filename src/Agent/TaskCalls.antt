-- ===== src/Agent/TaskCalls.antt =====
-- The calls of the agents' service that move tasks leave the sessions alone (src/agent/services.py).
use cloglog.Base.{ℕ, String, ◌≡◌, Option, Bool, arith}
use cloglog.Models.{World, Task, Worktree}
use cloglog.Action.{Action, raise, value_error, worktree_not_found, task_not_found}
use cloglog.Board.Repository.{update_task, get_task}
use cloglog.Board.Service.{recompute_rollup, create_document}
use cloglog.Agent.Repository.{get_worktree, set_worktree_current_task, flag_shutdown}
use cloglog.Agent.Service.{
  assign_task, start_task, complete_task, update_task_status, mark_pr_merged, report_artifact,
  request_shutdown, append_to_inbox, check_status, check_owner, check_ready, check_pr,
  check_reviewed, check_blockers, move_task,
}
use cloglog.Agent.Sessions.{Shrinking, Shrinks-self, then-Shrinking, unless_none-Shrinking}

-- An action that leaves the sessions as they are, whether it returns or raises.
abbrev Keeps : {A : Type 0} → Action A → Type 0
Keeps m = (w : World) → (m w).1.sessions ≡ w.sessions

assign_task-Keeps : (k t : ℕ) → Keeps (assign_task k t)
unfolding assign_task update_task
assign_task-Keeps k t w = ground arith

start_task-Keeps : (k t : ℕ) → Keeps (start_task k t)
unfolding start_task check_blockers update_task set_worktree_current_task
start_task-Keeps k t w = ground arith

check_status-Keeps :
    (k : ℕ) (v : Worktree) (t : Task) (s : String) (url : Option String) (skip : Bool)
    → Keeps (check_status k v t s url skip)
unfolding check_status check_owner check_ready check_pr check_reviewed check_blockers
check_status-Keeps k v t s url skip w = ground arith

mark_pr_merged-Keeps : (k t : ℕ) → Keeps (mark_pr_merged k t)
unfolding mark_pr_merged update_task
mark_pr_merged-Keeps k t w = ground arith

report_artifact-Keeps : (k t : ℕ) (path : String) → Keeps (report_artifact k t path)
unfolding report_artifact update_task create_document
report_artifact-Keeps k t path w = ground arith

request_shutdown-Keeps : (k : ℕ) → Keeps (request_shutdown k)
unfolding request_shutdown append_to_inbox flag_shutdown
request_shutdown-Keeps k w = ground arith

move_task-Keeps :
    (k t : ℕ) (v : Worktree) (row : Task) (s : String) (url : Option String)
    → Keeps (move_task k t v row s url)
unfolding move_task update_task recompute_rollup set_worktree_current_task
move_task-Keeps k t v row s url w = ground arith

Keeps-Shrinking : {A : Type 0} (m : Action A) → Keeps m → Shrinking m
Keeps-Shrinking m keeps w k = rw (keeps w) (Shrinks-self w k)

pub assign_task-Shrinking : (k t : ℕ) → Shrinking (assign_task k t)
assign_task-Shrinking k t = Keeps-Shrinking (assign_task k t) (assign_task-Keeps k t)

pub start_task-Shrinking : (k t : ℕ) → Shrinking (start_task k t)
start_task-Shrinking k t = Keeps-Shrinking (start_task k t) (start_task-Keeps k t)

pub complete_task-Shrinking : (k t : ℕ) (url : Option String) → Shrinking (complete_task k t url)
unfolding complete_task
complete_task-Shrinking k t url = Shrinks-self

pub update_task_status-Shrinking :
    (k t : ℕ) (s : String) (url : Option String) (skip : Bool)
    → Shrinking (update_task_status k t s url skip)
unfolding update_task_status
update_task_status-Shrinking k t s url skip w =
    unless_none-Shrinking (get_worktree w k) (raise (value_error worktree_not_found)) _ Shrinks-self
      (λ v u.
        unless_none-Shrinking (get_task u t) (raise (value_error task_not_found)) _ Shrinks-self
          (λ row.
            then-Shrinking (check_status k v row s url skip) _
              (Keeps-Shrinking (check_status k v row s url skip)
                (check_status-Keeps k v row s url skip))
              (λ _. Keeps-Shrinking (move_task k t v row s url) (move_task-Keeps k t v row s url)))
          u)
      w

pub mark_pr_merged-Shrinking : (k t : ℕ) → Shrinking (mark_pr_merged k t)
mark_pr_merged-Shrinking k t = Keeps-Shrinking (mark_pr_merged k t) (mark_pr_merged-Keeps k t)

pub report_artifact-Shrinking : (k t : ℕ) (path : String) → Shrinking (report_artifact k t path)
report_artifact-Shrinking k t path =
    Keeps-Shrinking (report_artifact k t path) (report_artifact-Keeps k t path)

pub request_shutdown-Shrinking : (k : ℕ) → Shrinking (request_shutdown k)
request_shutdown-Shrinking k = Keeps-Shrinking (request_shutdown k) (request_shutdown-Keeps k)
