-- ===== src/Tests/ReviewLoop.antt =====
-- The review loop at a table with one failed turn, with a reviewer that finds something at first.
use cloglog.Base.{
  not, any, ◌==◌, String, count, decimal, decimal_digits, digit, ℕ, ◌+◌, ◌-◌, ◌≡◌, ◌≢◌,
  update_where, refl, true, false, none, some, List, [], ◌∷◌, arith, leb, decimal,
}
use cloglog.Models.{PrReviewTurn, Json, object, field, text, number, empty}
use cloglog.Review.Repository.{
  PriorTurnSummary, new_turn, is_stage, turns_for_stage, claim_turn, reset_to_running,
  complete_turn, is_status,
}
use cloglog.Review.History.{stay}
use cloglog.Review.Claims.{HasUniqueKeys}
use cloglog.ReviewLoop.Findings.{ReviewFinding, ReviewResult}
use cloglog.ReviewLoop.Setting.{ReviewLoop, Outside, compute_next_turn, key, lowest}
use cloglog.ReviewLoop.Run.{
  run, is_over, existing, at_once, outcome_at_once, session_has_posted, loop_turns, one_turn, own,
  owned_turn, with_answer, after_post, not_posted,
}
use cloglog.ReviewLoop.Statements.{OthersMakeSteps}
use cloglog.ReviewLoop.Bounds.{numbers_from, run-consecutive}
use cloglog.ReviewLoop.Returns.{run-returns}
use cloglog.ReviewLoop.Resume.{run-starts}
use cloglog.ReviewLoop.Sessions.{InSession}
use cloglog.ReviewLoop.Prompt.{learnings_of, dedupe_learnings}
use cloglog.ReviewLoop.Learnings.{note_of, last_note, has_topic, dedupe_learnings_latest}
use cloglog.ReviewLoop.Reposts.{OthersInSession, run-posts_once}

abbrev stage_b : ReviewLoop
stage_b = record {
  max_turns = 2;
  project_id = 1;
  pr_url = "https://github.com/o/r/pull/7";
  pr_number = 7;
  head_sha = "abc";
  stage = "codex";
  session_index = 1;
  max_sessions = 5;
  display_label = "codex";
  has_ci_dispatcher = true;
}

abbrev finding : ReviewFinding
finding = record {
  file = "src/a.py";
  line = 3;
  severity = "high";
  body = "It does not return.";
  title = "Loop";
}

abbrev pub result : ReviewResult
result = record {
  verdict = "request_changes";
  summary = "One problem.";
  findings = finding ∷ [];
  status = none;
  learnings = [];
}

abbrev pub outside : Outside
outside = record {
  crashes = λ n. n == 9;
  answer = λ n. record {
    result = some result;
    elapsed = 1500;
    timed_out = false;
    diff_lines = 10;
    budget = 300;
    stderr_excerpt = "";
  };
  posts = λ n r. true;
  meanwhile = λ n turns. turns;
  accepts = λ n. false;
  new_id = λ n. 100 + n;
  now = λ n. 10 + n;
  lower = λ s. s;
  model_dump = λ f. object (field "file" (text f.file) (field "line" (number f.line) empty));
}

-- A turn whose review GitHub did not take.
abbrev failed_turns : List PrReviewTurn
failed_turns = record (new_turn 60 5 1 7 (key stage_b 1) (some 1)) { status = "failed" } ∷ []

others : OthersMakeSteps outside
others n turns = stay

others_inside : OthersInSession stage_b outside
others_inside n turns within = within

of_codex : is_stage "codex" ≡ true
unfolding is_stage
of_codex = refl

unique : HasUniqueKeys failed_turns
unique k = ground arith

within : InSession stage_b failed_turns
within = refl

run-consecutive_example :
    let start = compute_next_turn (existing stage_b failed_turns) in
    (k : ℕ) × (leb k (3 - start) ≡ true)
    × ((run stage_b outside failed_turns).progress.ran ≡ numbers_from start k)
run-consecutive_example = run-consecutive stage_b outside failed_turns

run-returns_example :
    (run stage_b outside failed_turns).returned
    ≡ not (any outside.crashes (run stage_b outside failed_turns).progress.ran)
run-returns_example = run-returns stage_b outside others of_codex failed_turns unique

-- A reviewer that raises ends the run, and its turn stays as it is.
crashes_out : (run stage_b (record outside { crashes = λ n. true }) failed_turns).returned ≡ false
unfolding run is_over turns_for_stage compute_next_turn lowest session_has_posted loop_turns
    one_turn own claim_turn is_stage reset_to_running owned_turn update_where
crashes_out = ground arith

open_stage : is_over stage_b (existing stage_b failed_turns) ≡ false
unfolding is_over turns_for_stage compute_next_turn lowest session_has_posted
open_stage = refl

run-starts_example :
    (rest : List ℕ) × ((run stage_b outside failed_turns).progress.ran
      ≡ compute_next_turn (existing stage_b failed_turns) ∷ rest)
run-starts_example = run-starts stage_b outside failed_turns of_codex open_stage

posts_one : (run stage_b outside failed_turns).progress.posted ≢ []
unfolding run is_over turns_for_stage compute_next_turn lowest session_has_posted loop_turns
    one_turn own claim_turn is_stage reset_to_running owned_turn with_answer after_post not_posted
    complete_turn is_status update_where
posts_one e = ground arith

run-posts_once_example :
    let later = (run stage_b outside failed_turns).progress.turns in
    run stage_b outside later ≡ at_once later (outcome_at_once stage_b (existing stage_b later))
run-posts_once_example =
    run-posts_once stage_b outside outside failed_turns others others_inside of_codex unique within
      posts_one stay

abbrev learning : String → String → Json
learning topic note = object (field "topic" (text topic) (field "note" (text note) empty))

abbrev earlier : List PriorTurnSummary
earlier =
    record {
      head_sha = "abc";
      turn_number = 1;
      findings = [];
      learnings = learning "db" "old" ∷ learning " db " "new" ∷ learning "ui" " " ∷ [];
      author_responses = [];
    }
    ∷ []

-- What Python writes for a value that is no text, which does not come here.
abbrev no_str : Json → String
no_str j = ""

dedupe_learnings_latest_example :
    let ls = learnings_of no_str earlier in
    (note_of "db" (dedupe_learnings no_str earlier) ≡ last_note "db" none ls)
    × (leb (count (has_topic "db") (dedupe_learnings no_str earlier)) 1 ≡ true)
dedupe_learnings_latest_example = dedupe_learnings_latest no_str earlier "db"

decimal_2026 : decimal 2026 ≡ "2026"
unfolding decimal decimal_digits digit
decimal_2026 = refl
