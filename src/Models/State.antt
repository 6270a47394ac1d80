-- ===== src/Models/State.antt =====
-- What a service call acts on: the tables, the events published so far, the inbox files, and what
-- the environment supplies (the coming UUIDs, the time of the request, which files can be written).
use cloglog.Base.{ℕ, String, Bool, Option, List}
use cloglog.Models.BoardRows.{Project, Epic, Feature, Task, TaskNote, Notification, Document}
use cloglog.Models.AgentRows.{Worktree, Session}

-- The types of src/shared/events.py.
pub data EventType : Type 0 where
  task_status_changed worktree_online worktree_offline document_attached : EventType
  epic_created epic_deleted feature_created feature_deleted task_created task_deleted : EventType
  task_note_added bulk_import notification_created dependency_added dependency_removed : EventType
  epic_reordered feature_reordered task_reordered task_retired bulk_retired : EventType
  bulk_agents_removed review_codex_turn_started agent_unregistered : EventType

-- A value in the dictionary `Event.data`.
pub data Value : Type 0 where
  uuid num : ℕ → Value
  str : String → Value
  strs : List (String × Option String) → Value

pub record Event : Type 0 where
  pub type : EventType
  pub project_id : ℕ
  pub payload : List (String × Value)

pub record World : Type 0 where
  pub projects : List Project
  pub epics : List Epic
  pub features : List Feature
  pub tasks : List Task
  pub feature_dependencies : List (ℕ × ℕ)
  pub task_dependencies : List (ℕ × ℕ)
  pub task_notes : List TaskNote
  pub notifications : List Notification
  pub documents : List Document
  pub worktrees : List Worktree
  pub sessions : List Session
  pub events : List Event
  pub inboxes : List (String × String)
  pub uuids : ℕ → ℕ
  pub now : ℕ
  pub writable : String → Bool
