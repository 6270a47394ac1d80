-- ===== src/ReviewEngine/ReviewPr.antt =====
-- The review of a pull request: `_review_pr` and `_run_review_agent` of ReviewEngineConsumer
-- (src/gateway/review_engine.py). What GitHub, git, the reviewers and other handlers do is in `Elsewhere`;
-- the tokens can be had, but for that of opencode, whose key may be missing. The texts of comments are
-- left out, and what is only logged.
use cloglog.Base.{
  ℕ, suc, ◌+◌, String, Bool, true, false, not, ◌&&◌, ◌||◌, Option, none, some, List, [], ◌∷◌, ◌++◌,
  ◌==◌, ltb, length, truthy, strip, select, text_length, if◌then◌else◌,
}
use cloglog.Models.{World, PrReviewTurn, Project}
use cloglog.Board.Repository.{find_project_by_repo}
use cloglog.Review.Repository.{count_posted_codex_sessions, distinct_texts}
use cloglog.ReviewLoop.Findings.{ReviewResult}
use cloglog.ReviewLoop.Setting.{ReviewLoop, LoopOutcome, Outside}
use cloglog.ReviewLoop.Run.{Ended, run}
use cloglog.ReviewEngine.Filter.{filter_diff}
use cloglog.ReviewEngine.Comments.{
  Review, is_codex_review, latest_codex_review_is_approval, should_skip_for_cap, max_reviews_per_pr,
}
use cloglog.ReviewEngine.SkipComments.{
  SkipReason, max_reviews, no_reviewable_files, diff_too_large, agent_unparseable, agent_timeout,
  opencode_failed, unconfigured_repo,
}
use cloglog.ReviewEngine.SourceRoot.{
  Host, SourceSetting, PrReviewRoot, Resolved, registry_path, resolve_pr_review_root,
}
use cloglog.Webhook.Consumers.{head_sha_of}
use cloglog.Webhook.Dispatcher.{WebhookEvent}

-- _AgentAttemptOutcome, as far as it decides.
pub record AgentAttempt : Type 0 where
  pub result : Option ReviewResult
  pub timed_out : Bool

pub record EngineSetting : Type 0 where
  pub codex_available : Bool
  pub opencode_available : Bool
  pub opencode_enabled : Bool
  pub has_session_factory : Bool
  pub has_ci_dispatcher : Bool
  pub opencode_max_turns : ℕ
  pub codex_max_turns : ℕ
  pub opencode_label : String
  pub host : Host
  pub source : SourceSetting

pub record Elsewhere : Type 0 where
  pub reviews : List Review
  pub diff : String
  pub has_opencode_token : Bool
  pub attempt : ℕ → AgentAttempt
  pub takes_review : Bool
  pub opencode : Outside
  pub codex : Outside

-- What a reviewer is started with: the diff, and the path whose files it reads.
pub record Sent : Type 0 where
  pub diff : String
  pub root : String

-- The table of turns, and what was done so far: comments, what went to reviewers, the reviews posted
-- by the single turn, the checkouts that were made, and those whose removal was asked for (with their main clones), the timeouts
-- that the supervisor was told of, and whether an exception left the handler.
pub record Handling : Type 0 where
  pub turns : List PrReviewTurn
  pub comments : List SkipReason
  pub sent : List Sent
  pub posted : List ReviewResult
  pub made : List (String × String)
  pub removals : List (String × String)
  pub timeouts : ℕ
  pub raised : Bool

abbrev pub untouched : List PrReviewTurn → Handling
untouched turns = record {
  turns = turns;
  comments = [];
  sent = [];
  posted = [];
  made = [];
  removals = [];
  timeouts = 0;
  raised = false;
}

-- `_notify_skip` and `_post_agent_skip`
abbrev pub skip : SkipReason → Handling → Handling
skip reason h = record h { comments = h.comments ++ reason ∷ [] }

-- The commits of the bot's reviews, where they have one.
unfoldable pub commit_ids : List Review → List String
commit_ids [] = []
commit_ids (v ∷ vs) = elim v.commit_id [
  | none ↦ commit_ids vs
  | some sha ↦ if truthy sha then sha ∷ commit_ids vs else commit_ids vs
]

unfoldable pub count_bot_reviews : List Review → ℕ
count_bot_reviews reviews =
    let rows = select is_codex_review reviews in
    let ids = distinct_texts (commit_ids rows) in
    if length ids == 0 then length rows else length ids

abbrev pub max_diff_chars : ℕ
max_diff_chars = 200000

module _ (s : EngineSetting) (o : Elsewhere) (e : WebhookEvent) where
  -- The sessions that count for the cap.
  unfoldable pub prior_sessions : List PrReviewTurn → ℕ
  prior_sessions turns =
      if not s.codex_available
      then 0
      else if s.has_session_factory
      then count_posted_codex_sessions e.pr_url turns
      else count_bot_reviews o.reviews

  unfoldable pub latest_is_approval : ℕ → Bool
  latest_is_approval prior =
      ltb 0 prior && latest_codex_review_is_approval (head_sha_of e) o.reviews

  abbrev pub is_too_large : String → Bool
  is_too_large filtered = ltb max_diff_chars (text_length filtered)

  abbrev pub has_registry : List (String × String) → Bool
  has_registry [] = false
  has_registry (r ∷ roots) = true

  -- The source of the single turn; `none` where the registry is set and has none for the repository.
  unfoldable pub single_turn_root : Option String
  single_turn_root =
      if has_registry s.source.review_repo_roots
      then registry_path s.host s.source e.repo_full_name
      else some s.source.review_source_root

  abbrev pub sends : String → String → Handling → Handling
  sends filtered root h = record h { sent = h.sent ++ record { diff = filtered; root = root } ∷ [] }

  -- An attempt that did not time out without a result is unparseable.
  abbrev pub end_attempt : AgentAttempt → Handling → Handling
  end_attempt a h =
      if a.timed_out
      then skip agent_timeout (record h { timeouts = h.timeouts + 1 })
      else skip agent_unparseable h

  abbrev pub with_result : Option ReviewResult → Handling → (Handling → Handling) → Handling
  with_result none h other = other h
  with_result (some r) h other =
      if o.takes_review then record h { posted = h.posted ++ r ∷ [] } else h

  -- The two attempts: the second one only after a timeout.
  unfoldable pub attempts : String → String → Handling → Handling
  attempts filtered root h = with_result (o.attempt 1).result (sends filtered root h) λ h1.
      if (o.attempt 1).timed_out
      then with_result (o.attempt 2).result (sends filtered root h1) (end_attempt (o.attempt 2))
      else end_attempt (o.attempt 1) h1

  unfoldable pub run_review_agent : String → Handling → Handling
  run_review_agent filtered h = elim single_turn_root [
    | none ↦ skip unconfigured_repo h
    | some root ↦ attempts filtered root h
  ]

  unfoldable pub loop_of : String → ℕ → String → Bool → ℕ → ℕ → ReviewLoop
  loop_of stage max_turns label has_ci project_id session_index = record {
    max_turns = max_turns;
    project_id = project_id;
    pr_url = e.pr_url;
    pr_number = e.pr_number;
    head_sha = head_sha_of e;
    stage = stage;
    session_index = session_index;
    max_sessions = max_reviews_per_pr;
    display_label = label;
    has_ci_dispatcher = has_ci;
  }

  -- The table as a loop leaves it, and whether an exception left the loop.
  abbrev pub after_run : Ended → Handling → Handling
  after_run ended h = record h { turns = ended.progress.turns; raised = not ended.returned }

  abbrev pub is_failure : LoopOutcome → Bool
  is_failure out = (out.turns_used == 0) && not (length out.errors == 0)

  abbrev pub after_opencode : Ended → Handling → Handling
  after_opencode ended h =
      if ended.returned && is_failure ended.progress.outcome then skip opencode_failed h else h

  abbrev pub opencode_loop : ℕ → ℕ → Handling → Ended
  opencode_loop project_id session_index h =
      run (loop_of "opencode" s.opencode_max_turns s.opencode_label false project_id session_index)
        o.opencode h.turns

  abbrev pub runs_opencode : Bool
  runs_opencode = s.opencode_available && s.opencode_enabled && o.has_opencode_token

  -- Stage A
  unfoldable pub opencode_stage : String → String → ℕ → ℕ → Handling → Handling
  opencode_stage filtered root project_id session_index h =
      let ended = opencode_loop project_id session_index h in
      if runs_opencode then after_opencode ended (after_run ended (sends filtered root h)) else h

  abbrev pub after_codex : Ended → Handling → Handling
  after_codex ended h =
      if ended.returned && ended.progress.outcome.last_timed_out
      then record (skip agent_timeout h) { timeouts = h.timeouts + 1 }
      else h

  abbrev pub codex_loop : ℕ → ℕ → Handling → Ended
  codex_loop project_id session_index h =
      run (loop_of "codex" s.codex_max_turns "codex" s.has_ci_dispatcher project_id session_index)
        o.codex h.turns

  -- Stage B, unless an exception has left stage A.
  unfoldable pub codex_stage : String → String → ℕ → ℕ → Handling → Handling
  codex_stage filtered root project_id session_index h =
      let ended = codex_loop project_id session_index h in
      if not h.raised && s.codex_available
      then after_codex ended (after_run ended (sends filtered root h))
      else h

  -- The checkout whose removal the `finally` block asks for, with the clone that it is of.
  abbrev pub checkout_of : PrReviewRoot → List (String × String)
  checkout_of root = elim root.main_clone [
    | none ↦ []
    | some clone ↦ if root.is_temp then (clone, root.path) ∷ [] else []
  ]

  abbrev pub makes : List (String × String) → Handling → Handling
  makes made h = record h { made = h.made ++ made }

  -- The `finally` block.
  abbrev pub cleans : PrReviewRoot → Handling → Handling
  cleans root h = record h { removals = h.removals ++ checkout_of root }

  abbrev pub stages : String → ℕ → ℕ → Resolved → Handling → Handling
  stages filtered project_id session_index (root, made) h = cleans root (
      codex_stage filtered root.path project_id session_index
        (opencode_stage filtered root.path project_id session_index (makes made h)))

  abbrev pub in_root : String → ℕ → ℕ → Option Resolved → Handling → Handling
  in_root filtered project_id session_index none h = skip unconfigured_repo h
  in_root filtered project_id session_index (some root) h =
      stages filtered project_id session_index root h

  abbrev pub root_of : World → ℕ → Option Resolved
  root_of w project_id =
      resolve_pr_review_root s.host s.source w project_id e.pr_url e.pr_number (head_sha_of e)
        e.head_branch e.repo_full_name

  abbrev pub in_project : World → String → ℕ → Option Project → Handling → Handling
  in_project w filtered prior none h = h
  in_project w filtered prior (some p) h = in_root filtered p.id (suc prior) (root_of w p.id) h

  -- The review of a filtered diff: by a single turn where there is no table or no commit.
  unfoldable pub review_filtered : World → String → ℕ → Handling → Handling
  review_filtered w filtered prior h =
      if not s.has_session_factory || not (truthy (head_sha_of e))
      then (if s.codex_available then run_review_agent filtered h else h)
      else in_project w filtered prior (find_project_by_repo w e.repo_full_name) h

  unfoldable pub review_diff : World → ℕ → Handling → Handling
  review_diff w prior h =
      let filtered = filter_diff o.diff in
      if not (truthy (strip filtered))
      then skip no_reviewable_files h
      else if is_too_large filtered
      then skip diff_too_large h
      else review_filtered w filtered prior h

  unfoldable pub review_pr : World → List PrReviewTurn → Handling
  review_pr w turns =
      let prior = prior_sessions turns in
      let (skips, is_backstop) = should_skip_for_cap prior (latest_is_approval prior) in
      if s.codex_available && skips
      then (if is_backstop then skip max_reviews (untouched turns) else untouched turns)
      else review_diff w prior (untouched turns)
