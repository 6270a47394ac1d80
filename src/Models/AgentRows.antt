-- ===== src/Models/AgentRows.antt =====
-- The tables of the agents (src/agent/models.py).
use cloglog.Base.{ℕ, String, Bool, Option}

pub record Worktree : Type 0 where
  pub id : ℕ
  pub project_id : ℕ
  pub worktree_path : String
  pub branch_name : String
  pub status : String
  pub role : String
  pub shutdown_requested : Bool
  pub current_task_id : Option ℕ
  pub agent_token_hash : String
  pub created_at : ℕ

pub record Session : Type 0 where
  pub id : ℕ
  pub worktree_id : ℕ
  pub started_at : ℕ
  pub ended_at : Option ℕ
  pub last_heartbeat : ℕ
  pub status : String
