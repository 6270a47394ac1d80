-- ===== src/ReviewLoop/Setting.antt =====
-- The data of `ReviewLoop.run` (src/gateway/review_loop.py). What the run takes from outside is in `Outside`:
-- whether the reviewer raises in a turn and what else it answers, whether GitHub takes the review, the statements that other
-- handlers make on the table while the reviewer runs, ids and times. Durations are milliseconds.
use Prim.Native.String.{◌++◌ as cat}
use cloglog.Base.{
  ℕ, ◌+◌, String, Bool, Option, List, [], ◌∷◌, ltb, str_eq, select, map, join_by, decimal,
  if◌then◌else◌,
}
use cloglog.Models.{PrReviewTurn, Json, Event, review_codex_turn_started, num, str}
use cloglog.Review.Repository.{Key}
use cloglog.ReviewLoop.Findings.{ReviewFinding, ReviewResult, FindingKey}

pub record ReviewLoop : Type 0 where
  pub max_turns : ℕ
  pub project_id : ℕ
  pub pr_url : String
  pub pr_number : ℕ
  pub head_sha : String
  pub stage : String
  pub session_index : ℕ
  pub max_sessions : ℕ
  pub display_label : String
  pub has_ci_dispatcher : Bool

-- The reason of a failed turn; the text of the error is `turn {turn}: {reason}`.
pub record TurnError : Type 0 where
  pub turn : ℕ
  pub reason : String

pub record LoopOutcome : Type 0 where
  pub turns_used : ℕ
  pub consensus_reached : Bool
  pub reviewer_unavailable : Bool
  pub errors : List TurnError
  pub last_timed_out : Bool
  pub last_timeout_diff_lines : ℕ
  pub last_timeout_seconds : ℕ
  pub last_timeout_stderr_excerpt : String
  pub last_timeout_elapsed_seconds : ℕ

-- What `Reviewer.run` returns, with the diagnostics that it leaves on the reviewer.
pub record Answer : Type 0 where
  pub result : Option ReviewResult
  pub elapsed : ℕ
  pub timed_out : Bool
  pub diff_lines : ℕ
  pub budget : ℕ
  pub stderr_excerpt : String

pub record Outside : Type 0 where
  pub crashes : ℕ → Bool
  pub answer : ℕ → Answer
  pub posts : ℕ → ReviewResult → Bool
  pub meanwhile : ℕ → List PrReviewTurn → List PrReviewTurn
  pub accepts : ℕ → Bool
  pub new_id : ℕ → ℕ
  pub now : ℕ → ℕ
  pub lower : String → String
  pub model_dump : ReviewFinding → Json

-- The table of turns, and what the run did so far: the turns in which the reviewer ran, the reviews
-- that GitHub took, the events, the keys of the findings, and the outcome.
pub record Progress : Type 0 where
  pub turns : List PrReviewTurn
  pub ran : List ℕ
  pub posted : List (ℕ × ReviewResult)
  pub events : List Event
  pub prior_keys : List FindingKey
  pub outcome : LoopOutcome

-- How a turn ends: the loop goes on, it breaks, or an exception leaves it.
pub data Ending : Type 0 where
  continues breaks raises : Ending

unfoldable pub lowest : ℕ → List ℕ → ℕ
lowest n [] = n
lowest n (m ∷ ms) = if ltb m n then lowest m ms else lowest n ms

unfoldable pub highest : ℕ → List ℕ → ℕ
highest n [] = n
highest n (m ∷ ms) = if ltb n m then highest m ms else highest n ms

abbrev pub turn_numbers : List PrReviewTurn → List ℕ
turn_numbers turns = map (λ t. t.turn_number) turns

abbrev pub failed_numbers : List PrReviewTurn → List ℕ
failed_numbers turns = turn_numbers (select (λ t. str_eq t.status "failed") turns)

abbrev pub lowest_or : ℕ → List ℕ → ℕ
lowest_or next [] = next
lowest_or next (n ∷ ns) = lowest n ns

unfoldable pub compute_next_turn : List PrReviewTurn → ℕ
compute_next_turn [] = 1
compute_next_turn (t ∷ ts) =
    lowest_or (highest t.turn_number (turn_numbers ts) + 1) (failed_numbers (t ∷ ts))

unfoldable pub build_body_header : ReviewLoop → String
build_body_header c = join_by "" (
    "**"
    ∷ c.display_label
    ∷ " — session "
    ∷ decimal c.session_index
    ∷ "/"
    ∷ decimal c.max_sessions
    ∷ "**"
    ∷ [])

unfoldable pub annotate : ReviewLoop → ReviewResult → ReviewResult
annotate c r = record {
  verdict = r.verdict;
  summary = cat (build_body_header c) (cat "\n\n" r.summary);
  findings = r.findings;
  status = r.status;
  learnings = [];
}

abbrev pub key : ReviewLoop → ℕ → Key
key c n = record { pr_url = c.pr_url; head_sha = c.head_sha; stage = c.stage; turn_number = n }

abbrev pub is_codex : ReviewLoop → Bool
is_codex c = str_eq c.stage "codex"

unfoldable pub turn_started : ReviewLoop → ℕ → Event
turn_started c n = record {
  type = review_codex_turn_started;
  project_id = c.project_id;
  payload =
      ("pr_url", str c.pr_url)
      ∷ ("pr_number", num c.pr_number)
      ∷ ("head_sha", str c.head_sha)
      ∷ ("turn_number", num n)
      ∷ [];
}
