-- ===== src/ReviewLoop/Run/Stage.antt =====
-- The run of a stage: what it returns at once, the loop, and the dispatch of CI
-- (src/gateway/review_loop.py).
use cloglog.Base.{
  suc, ◌-◌, Bool, true, false, not, ◌&&◌, ◌||◌, List, [], ◌==◌, ltb, str_eq, is_some, is_id, any,
  select, if◌then◌else◌,
}
use cloglog.Models.{PrReviewTurn}
use cloglog.Review.Repository.{turns_for_stage}
use cloglog.ReviewLoop.Setting.{
  ReviewLoop, TurnError, LoopOutcome, Outside, Progress, highest, turn_numbers, compute_next_turn,
  is_codex,
}
use cloglog.ReviewLoop.Run.Turn.{loop_turns}

abbrev pub fresh_outcome : LoopOutcome
fresh_outcome = record {
  turns_used = 0;
  consensus_reached = false;
  reviewer_unavailable = false;
  errors = [];
  last_timed_out = false;
  last_timeout_diff_lines = 0;
  last_timeout_seconds = 0;
  last_timeout_stderr_excerpt = "";
  last_timeout_elapsed_seconds = 0;
}

abbrev pub starting : List PrReviewTurn → Progress
starting turns = record {
  turns = turns;
  ran = [];
  posted = [];
  events = [];
  prior_keys = [];
  outcome = fresh_outcome;
}

-- A run that ends: whether it returned, how far it came, and whether it sent for CI.
pub record Ended : Type 0 where
  pub returned : Bool
  pub progress : Progress
  pub dispatched : Bool

-- A run that returns at once.
abbrev pub at_once : List PrReviewTurn → LoopOutcome → Ended
at_once turns out = record {
  returned = true;
  progress = record (starting turns) { outcome = out };
  dispatched = false;
}

-- `err.endswith(": failed") or "post_failed" in err`
unfoldable pub is_retryable : TurnError → Bool
is_retryable e = str_eq e.reason "failed" || str_eq e.reason "post_failed"

unfoldable pub sends_ci : ReviewLoop → LoopOutcome → Bool
sends_ci c out =
    is_codex c
    && c.has_ci_dispatcher
    && (out.consensus_reached
        || (out.turns_used == c.max_turns && not (any is_retryable out.errors)))

unfoldable pub session_has_posted : ReviewLoop → PrReviewTurn → Bool
session_has_posted c t =
    (is_some t.posted_at && is_id t.session_index c.session_index)
    || (not (is_some t.session_index) && str_eq t.status "completed" && is_some t.finding_count)

abbrev pub posted_or_completed : PrReviewTurn → Bool
posted_or_completed t = is_some t.posted_at || str_eq t.status "completed"

abbrev pub existing : ReviewLoop → List PrReviewTurn → List PrReviewTurn
existing c turns = turns_for_stage c.pr_url c.head_sha c.stage turns

-- Whether the run returns before its first turn.
unfoldable pub is_over : ReviewLoop → List PrReviewTurn → Bool
is_over c rows =
    any (λ t. t.consensus_reached) rows
    || (ltb c.max_turns (compute_next_turn rows) || any (session_has_posted c) rows)

unfoldable pub outcome_at_once : ReviewLoop → List PrReviewTurn → LoopOutcome
outcome_at_once c rows =
    if any (λ t. t.consensus_reached) rows
    then record fresh_outcome {
      turns_used = highest 0 (turn_numbers (select (λ t. t.consensus_reached) rows));
      consensus_reached = true;
    }
    else if ltb c.max_turns (compute_next_turn rows)
    then fresh_outcome
    else record fresh_outcome {
      turns_used = highest 0 (turn_numbers (select posted_or_completed rows));
    }

-- A loop that an exception left sends for nothing.
abbrev pub finish : ReviewLoop → Bool × Progress → Ended
finish c (returned, s) = record {
  returned = returned;
  progress = s;
  dispatched = returned && sends_ci c s.outcome;
}

unfoldable pub run : ReviewLoop → Outside → List PrReviewTurn → Ended
run c o turns =
    let rows = existing c turns in
    let start = compute_next_turn rows in
    if is_over c rows
    then at_once turns (outcome_at_once c rows)
    else finish c (loop_turns c o (suc c.max_turns - start) start (starting turns))
