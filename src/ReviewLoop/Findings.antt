-- ===== src/ReviewLoop/Findings.antt =====
-- The result of one review, and when it ends a stage: ReviewFinding and ReviewResult
-- (src/gateway/review_engine.py), `_finding_key` and `_reached_consensus`
-- (src/gateway/review_loop.py). How Python lowers the case of a text is a parameter.
use cloglog.Base.{
  ℕ, String, Bool, not, ◌&&◌, ◌||◌, Option, List, ◌==◌, str_eq, is_text, any, all, map, strip,
}
use cloglog.Models.{Json}

pub record ReviewFinding : Type 0 where
  pub file : String
  pub line : ℕ
  pub severity : String
  pub body : String
  pub title : String

pub record ReviewResult : Type 0 where
  pub verdict : String
  pub summary : String
  pub findings : List ReviewFinding
  pub status : Option String
  pub learnings : List Json

pub record FindingKey : Type 0 where
  pub file : String
  pub line : ℕ
  pub title : String

abbrev pub same_key : FindingKey → FindingKey → Bool
same_key a b = str_eq a.file b.file && (a.line == b.line && str_eq a.title b.title)

-- `key in keys`
unfoldable pub has_finding : List FindingKey → FindingKey → Bool
has_finding keys k = any (same_key k) keys

unfoldable pub is_severe : ReviewFinding → Bool
is_severe f = str_eq f.severity "critical" || str_eq f.severity "high"

module _ (lower : String → String) where
  unfoldable pub finding_key : ReviewFinding → FindingKey
  finding_key f = record { file = f.file; line = f.line; title = lower (strip f.title) }

  unfoldable pub reached_consensus : ReviewResult → List FindingKey → Bool
  reached_consensus r prior =
      is_text r.status "no_further_concerns"
      || (str_eq r.verdict "approve" && not (any is_severe r.findings))
      || all (has_finding prior) (map finding_key r.findings)
