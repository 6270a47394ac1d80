-- ===== src/Models/BoardRows.antt =====
-- The tables of the board (src/board/models.py) and of the documents (src/document/models.py).
-- A UUID is only compared, so it is a number; a nullable column is an `Option`; times are numbers.
use cloglog.Base.{ℕ, String, Bool, Option}

pub record Project : Type 0 where
  pub id : ℕ
  pub name : String
  pub description : String
  pub repo_url : String
  pub api_key_hash : String
  pub status : String
  pub next_epic_num : ℕ
  pub next_feature_num : ℕ
  pub next_task_num : ℕ
  pub created_at : ℕ

pub record Epic : Type 0 where
  pub id : ℕ
  pub project_id : ℕ
  pub title : String
  pub description : String
  pub bounded_context : String
  pub context_description : String
  pub status : String
  pub position : ℕ
  pub color : String
  pub number : ℕ
  pub created_at : ℕ

pub record Feature : Type 0 where
  pub id : ℕ
  pub epic_id : ℕ
  pub title : String
  pub description : String
  pub status : String
  pub position : ℕ
  pub number : ℕ
  pub created_at : ℕ

pub record Task : Type 0 where
  pub id : ℕ
  pub feature_id : ℕ
  pub title : String
  pub description : String
  pub status : String
  pub priority : String
  pub task_type : String
  pub model : Option String
  pub pr_url : Option String
  pub pr_head_sha : Option String
  pub pr_merged : Bool
  pub artifact_path : Option String
  pub worktree_id : Option ℕ
  pub close_off_worktree_id : Option ℕ
  pub position : ℕ
  pub number : ℕ
  pub archived : Bool
  pub retired : Bool
  pub created_at : ℕ
  pub updated_at : ℕ

pub record TaskNote : Type 0 where
  pub id : ℕ
  pub task_id : ℕ
  pub note : String
  pub created_at : ℕ

pub record Notification : Type 0 where
  pub id : ℕ
  pub project_id : ℕ
  pub task_id : ℕ
  pub task_title : String
  pub task_number : ℕ
  pub read : Bool
  pub created_at : ℕ

pub record Document : Type 0 where
  pub id : ℕ
  pub title : String
  pub content : String
  pub doc_type : String
  pub source_path : String
  pub attached_to_type : String
  pub attached_to_id : Option ℕ
  pub created_at : ℕ
