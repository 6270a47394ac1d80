-- ===== src/Agent/History.antt =====
-- The calls of the agents' service that write (src/agent/services.py), in any order.
use cloglog.Base.{ℕ, String, Bool, Option, List}
use cloglog.Models.{World}
use cloglog.Agent.Service.{
  register, heartbeat, unregister, force_unregister, unregister_by_path, remove_offline_agents,
  check_heartbeat_timeouts, request_shutdown, assign_task, start_task, complete_task,
  update_task_status, mark_pr_merged, report_artifact,
}
use cloglog.Agent.Sessions.{HasOneActive, Shrinks-HasOneActive, unregister-Shrinking}
use cloglog.Agent.Calls.{
  force_unregister-Shrinking, unregister_by_path-Shrinking, remove_offline_agents-Shrinking,
  check_heartbeat_timeouts-Shrinking, heartbeat-Shrinking,
}
use cloglog.Agent.TaskCalls.{
  assign_task-Shrinking, start_task-Shrinking, complete_task-Shrinking,
  update_task_status-Shrinking, mark_pr_merged-Shrinking, report_artifact-Shrinking,
  request_shutdown-Shrinking,
}
use cloglog.Agent.Register.{register-HasOneActive}

-- A call, whether it returns or raises.
pub data Call (w : World) : World → Type 0 where
  registers :
      (token_hash : ℕ → String) (project_id : ℕ) (path branch_name : String)
      → Call w (register token_hash project_id path branch_name w).1
  beats : (worktree_id : ℕ) → Call w (heartbeat worktree_id w).1
  unregisters :
      (worktree_id : ℕ) (artifacts : Option (List (String × Option String)))
      → Call w (unregister worktree_id artifacts w).1
  forces : (worktree_id : ℕ) (caller : Option ℕ) → Call w (force_unregister worktree_id caller w).1
  leaves :
      (project_id : ℕ) (path : String) (artifacts : Option (List (String × Option String)))
      → Call w (unregister_by_path project_id path artifacts w).1
  sweeps : (project_id : ℕ) → Call w (remove_offline_agents project_id w).1
  times_out : (timeout : ℕ) → Call w (check_heartbeat_timeouts timeout w).1
  shuts_down : (worktree_id : ℕ) → Call w (request_shutdown worktree_id w).1
  assigns : (worktree_id task_id : ℕ) → Call w (assign_task worktree_id task_id w).1
  starts : (worktree_id task_id : ℕ) → Call w (start_task worktree_id task_id w).1
  finishes :
      (worktree_id task_id : ℕ) (pr_url : Option String)
      → Call w (complete_task worktree_id task_id pr_url w).1
  moves :
      (worktree_id task_id : ℕ) (status : String) (pr_url : Option String) (skip_pr : Bool)
      → Call w (update_task_status worktree_id task_id status pr_url skip_pr w).1
  merges : (worktree_id task_id : ℕ) → Call w (mark_pr_merged worktree_id task_id w).1
  reports :
      (worktree_id task_id : ℕ) (path : String)
      → Call w (report_artifact worktree_id task_id path w).1

pub data Calls (w : World) : World → Type 0 where
  idle : Calls w w
  call : {u v : World} → Calls w u → Call u v → Calls w v

Call-HasOneActive : (w u : World) → Call w u → HasOneActive w → HasOneActive u
Call-HasOneActive w u (registers token_hash p path b) h =
    register-HasOneActive token_hash p path b w h
Call-HasOneActive w u (beats k) h = Shrinks-HasOneActive w u (heartbeat-Shrinking k w) h
Call-HasOneActive w u (unregisters k a) h = Shrinks-HasOneActive w u (unregister-Shrinking k a w) h
Call-HasOneActive w u (forces k caller) h =
    Shrinks-HasOneActive w u (force_unregister-Shrinking k caller w) h
Call-HasOneActive w u (leaves p path a) h =
    Shrinks-HasOneActive w u (unregister_by_path-Shrinking p path a w) h
Call-HasOneActive w u (sweeps p) h =
    Shrinks-HasOneActive w u (remove_offline_agents-Shrinking p w) h
Call-HasOneActive w u (times_out t) h =
    Shrinks-HasOneActive w u (check_heartbeat_timeouts-Shrinking t w) h
Call-HasOneActive w u (shuts_down k) h = Shrinks-HasOneActive w u (request_shutdown-Shrinking k w) h
Call-HasOneActive w u (assigns k t) h = Shrinks-HasOneActive w u (assign_task-Shrinking k t w) h
Call-HasOneActive w u (starts k t) h = Shrinks-HasOneActive w u (start_task-Shrinking k t w) h
Call-HasOneActive w u (finishes k t url) h =
    Shrinks-HasOneActive w u (complete_task-Shrinking k t url w) h
Call-HasOneActive w u (moves k t s url skip) h =
    Shrinks-HasOneActive w u (update_task_status-Shrinking k t s url skip w) h
Call-HasOneActive w u (merges k t) h = Shrinks-HasOneActive w u (mark_pr_merged-Shrinking k t w) h
Call-HasOneActive w u (reports k t path) h =
    Shrinks-HasOneActive w u (report_artifact-Shrinking k t path w) h

-- Whatever calls of the methods that write are made, in whatever order, and whether they return or
-- raise: no worktree has more than one active session afterwards if none had before.
pub Calls-HasOneActive : (w u : World) → Calls w u → HasOneActive w → HasOneActive u
Calls-HasOneActive w u idle h = h
Calls-HasOneActive w u (call {u = v} run c) h =
    Call-HasOneActive v u c (Calls-HasOneActive w v run h)
