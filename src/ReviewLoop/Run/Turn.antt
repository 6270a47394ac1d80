-- ===== src/ReviewLoop/Run/Turn.antt =====
-- One turn of the loop of `ReviewLoop.run`, and the loop (src/gateway/review_loop.py).
use cloglog.Base.{
  ℕ, zero, suc, Bool, true, false, ◌&&◌, ◌||◌, Option, none, some, List, [], ◌∷◌, ◌++◌, map, length,
  if◌then◌else◌, String,
}
use cloglog.Models.{PrReviewTurn, strip_nul}
use cloglog.Review.Repository.{
  claim_turn, Completion, complete_turn, mark_posted, reset_to_running,
  record_findings_and_learnings, set_outcome,
}
use cloglog.ReviewLoop.Findings.{ReviewResult, finding_key, reached_consensus}
use cloglog.ReviewLoop.Setting.{
  ReviewLoop, LoopOutcome, Answer, Outside, Progress, Ending, continues, breaks, raises, annotate,
  key, is_codex, turn_started,
}

-- An exception of a statement leaves the loop.
abbrev pub or_raise :
    {A : Type 0} → Progress → (A → Ending × Progress) → Option A → Ending × Progress
or_raise s k none = (raises, s)
or_raise s k (some a) = k a

abbrev pub go_on : Bool × Progress → Ending × Progress → Bool × Progress
go_on rest (continues, s) = rest
go_on rest (breaks, s) = (true, s)
go_on rest (raises, s) = (false, s)

module _ (c : ReviewLoop) (o : Outside) where
  abbrev pub or_reset : ℕ → Option (Bool × List PrReviewTurn) → Option (Bool × List PrReviewTurn)
  or_reset n none = none
  or_reset n (some (true, turns)) = some (true, turns)
  or_reset n (some (false, turns)) = some (reset_to_running (key c n) turns)

  -- Whether this run owns the turn: it claims the turn, or restarts it if it failed.
  unfoldable pub own : ℕ → List PrReviewTurn → Option (Bool × List PrReviewTurn)
  own n turns = or_reset n (
      claim_turn (o.new_id n) (o.now n) c.project_id c.pr_number (key c n) (some c.session_index)
        turns)

  -- The reviewer runs: until it answers or raises, other handlers make their statements.
  abbrev pub reviewer_runs : ℕ → Progress → Progress
  reviewer_runs n s = record s {
    turns = o.meanwhile n s.turns;
    ran = s.ran ++ n ∷ [];
    events = if is_codex c then s.events ++ turn_started c n ∷ [] else s.events;
  }

  -- The reviewer has answered.
  abbrev pub reviewing : ℕ → Progress → Progress
  reviewing n s = record (reviewer_runs n s) {
    outcome = record s.outcome {
      last_timed_out = false;
      last_timeout_diff_lines = 0;
      last_timeout_seconds = 0;
      last_timeout_stderr_excerpt = "";
      last_timeout_elapsed_seconds = 0;
    };
  }

  abbrev pub erred : ℕ → String → LoopOutcome → LoopOutcome
  erred n reason out = record out {
    turns_used = n;
    errors = out.errors ++ record { turn = n; reason = reason } ∷ [];
  }

  abbrev pub timed_out_by : Answer → LoopOutcome → LoopOutcome
  timed_out_by a out =
      if a.timed_out && is_codex c
      then record out {
        last_timed_out = true;
        last_timeout_diff_lines = a.diff_lines;
        last_timeout_seconds = a.budget;
        last_timeout_stderr_excerpt = a.stderr_excerpt;
        last_timeout_elapsed_seconds = a.elapsed;
      }
      else out

  abbrev pub failure_status : Answer → String
  failure_status a = if a.timed_out then "timed_out" else "failed"

  abbrev pub done_without_result : Answer → Completion
  done_without_result a = record {
    status = failure_status a;
    finding_count = none;
    consensus_reached = false;
    elapsed_seconds = a.elapsed;
  }

  abbrev pub noted : ℕ → Answer → Progress → List PrReviewTurn → Progress
  noted n a s turns = record s {
    turns = turns;
    outcome = erred n (failure_status a) (timed_out_by a s.outcome);
  }

  unfoldable pub without_result : ℕ → Answer → Progress → Ending × Progress
  without_result n a s =
      or_raise s (λ turns. (continues, noted n a s turns))
        (complete_turn (o.now n) (key c n) (done_without_result a) s.turns)

  abbrev pub done_not_posted : Answer → ReviewResult → Completion
  done_not_posted a r = record {
    status = "failed";
    finding_count = some (length r.findings);
    consensus_reached = false;
    elapsed_seconds = a.elapsed;
  }

  abbrev pub failed_post : ℕ → Progress → List PrReviewTurn → Progress
  failed_post n s turns = record s { turns = turns; outcome = erred n "post_failed" s.outcome }

  unfoldable pub not_posted : ℕ → Answer → ReviewResult → Progress → Ending × Progress
  not_posted n a r s =
      or_raise s (λ turns. (breaks, failed_post n s turns))
        (complete_turn (o.now n) (key c n) (done_not_posted a r) s.turns)

  abbrev pub or_db_error : ℕ → List PrReviewTurn → Option (List PrReviewTurn) → List PrReviewTurn
  or_db_error n turns none = set_outcome (key c n) "db_error" turns
  or_db_error n turns (some after) = after

  -- What is stored of a result; if the database refuses it, the turn is marked instead.
  unfoldable pub store_findings : ℕ → ReviewResult → List PrReviewTurn → List PrReviewTurn
  store_findings n r turns = or_db_error n turns (
      record_findings_and_learnings (o.accepts n) (key c n)
        (map (λ f. strip_nul (o.model_dump f)) r.findings) (map strip_nul r.learnings) turns)

  abbrev pub agreed : ReviewResult → Progress → Bool
  agreed r s = reached_consensus o.lower r s.prior_keys

  abbrev pub done_posted : Answer → ReviewResult → Progress → Completion
  done_posted a r s = record {
    status = "completed";
    finding_count = some (length r.findings);
    consensus_reached = agreed r s;
    elapsed_seconds = a.elapsed;
  }

  abbrev pub moved_on : ℕ → ReviewResult → Progress → List PrReviewTurn → Progress
  moved_on n r s turns = record s {
    turns = store_findings n r (mark_posted (o.now n) (key c n) turns).1;
    prior_keys = s.prior_keys ++ map (finding_key o.lower) r.findings;
    outcome = record s.outcome {
      turns_used = n;
      consensus_reached = agreed r s || s.outcome.consensus_reached;
    };
  }

  unfoldable pub after_post : ℕ → Answer → ReviewResult → Progress → Ending × Progress
  after_post n a r s =
      or_raise s (λ turns. (if agreed r s then breaks else continues, moved_on n r s turns))
        (complete_turn (o.now n) (key c n) (done_posted a r s) s.turns)

  abbrev pub with_post : ℕ → ReviewResult → Progress → Progress
  with_post n r s = record s { posted = s.posted ++ (n, annotate c r) ∷ [] }

  unfoldable pub with_answer : ℕ → Option ReviewResult → Progress → Ending × Progress
  with_answer n none s = without_result n (o.answer n) s
  with_answer n (some r) s =
      if o.posts n (annotate c r)
      then after_post n (o.answer n) r (with_post n r s)
      else not_posted n (o.answer n) r s

  -- One turn that this run owns. An exception of the reviewer is not caught, and leaves the turn running.
  unfoldable pub owned_turn : ℕ → Progress → Ending × Progress
  owned_turn n s =
      if o.crashes n
      then (raises, reviewer_runs n s)
      else with_answer n (o.answer n).result (reviewing n s)

  unfoldable pub one_turn : ℕ → Progress → Ending × Progress
  one_turn n s =
      or_raise s
        (λ answer.
          if answer.0
          then owned_turn n (record s { turns = answer.1 })
          else (breaks, record s { turns = answer.1 }))
        (own n s.turns)

  -- The turns from `n` on, as many as are left: whether no exception left the loop, and the progress.
  unfoldable pub loop_turns : ℕ → ℕ → Progress → Bool × Progress
  loop_turns zero n s = (true, s)
  loop_turns (suc left) n s = let turn = one_turn n s in go_on (loop_turns left (suc n) turn.1) turn
