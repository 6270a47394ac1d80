-- ===== src/Models/ReviewRows.antt =====
-- The review turns (src/review/models.py) and their snapshots (src/review/interfaces.py). A
-- duration in seconds is only stored: it is a number of milliseconds (the column is
-- `Numeric(10, 3)`).
use cloglog.Base.{ℕ, String, Bool, Option, List}
use cloglog.Models.JsonValues.{Json}

pub record PrReviewTurn : Type 0 where
  pub id : ℕ
  pub project_id : ℕ
  pub pr_url : String
  pub pr_number : ℕ
  pub head_sha : String
  pub stage : String
  pub turn_number : ℕ
  pub status : String
  pub finding_count : Option ℕ
  pub consensus_reached : Bool
  pub elapsed_seconds : Option ℕ
  pub findings_json : Option (List Json)
  pub learnings_json : Option (List Json)
  pub session_index : Option ℕ
  pub posted_at : Option ℕ
  pub outcome : Option String
  pub created_at : ℕ
  pub completed_at : Option ℕ
