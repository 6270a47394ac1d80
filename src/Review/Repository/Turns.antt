-- ===== src/Review/Repository/Turns.antt =====
-- The statements on the table of turns. A statement that the database or the ORM refuses has no
-- result (`none`): it raises, and the table stays as it was. The project of a turn is one that the
-- caller has looked up, so its foreign key is not checked again here.
use cloglog.Base.{
  ℕ, String, Bool, true, false, not, ◌&&◌, ◌||◌, Option, none, some, List, [], ◌∷◌, ◌++◌, ◌==◌,
  str_eq, is_some, any, select, sort_by, update_where, if◌then◌else◌,
}
use cloglog.Models.{PrReviewTurn, Json}

-- The columns of the unique constraint `uq_pr_review_turns_key`.
pub record Key : Type 0 where
  pub pr_url : String
  pub head_sha : String
  pub stage : String
  pub turn_number : ℕ

abbrev pub has_key : Key → PrReviewTurn → Bool
has_key k t =
    str_eq t.pr_url k.pr_url
    && (str_eq t.head_sha k.head_sha && (str_eq t.stage k.stage && t.turn_number == k.turn_number))

-- The check constraints on `stage` and `status`.
unfoldable pub is_stage : String → Bool
is_stage s = str_eq s "opencode" || str_eq s "codex"

unfoldable pub is_status : String → Bool
is_status s =
    str_eq s "running" || str_eq s "completed" || str_eq s "timed_out" || str_eq s "failed"

-- The row that `claim_turn` inserts; `id` and `created_at` come from the column defaults.
abbrev pub new_turn : ℕ → ℕ → ℕ → ℕ → Key → Option ℕ → PrReviewTurn
new_turn id now project_id pr_number k session_index = record {
  id = id;
  project_id = project_id;
  pr_url = k.pr_url;
  pr_number = pr_number;
  head_sha = k.head_sha;
  stage = k.stage;
  turn_number = k.turn_number;
  status = "running";
  finding_count = none;
  consensus_reached = false;
  elapsed_seconds = none;
  findings_json = none;
  learnings_json = none;
  session_index = session_index;
  posted_at = none;
  outcome = none;
  created_at = now;
  completed_at = none;
}

-- `on_conflict_do_nothing`: whether a row was inserted, and the table.
unfoldable pub claim_turn :
    ℕ → ℕ → ℕ → ℕ → Key → Option ℕ → List PrReviewTurn → Option (Bool × List PrReviewTurn)
claim_turn id now project_id pr_number k session_index turns =
    if is_stage k.stage
    then some (
        if any (has_key k) turns
        then (false, turns)
        else (true, turns ++ new_turn id now project_id pr_number k session_index ∷ []))
    else none

-- The outcome that `complete_turn` writes.
pub record Completion : Type 0 where
  pub status : String
  pub finding_count : Option ℕ
  pub consensus_reached : Bool
  pub elapsed_seconds : ℕ

abbrev pub completed_by : Completion → ℕ → PrReviewTurn → PrReviewTurn
completed_by c now t = record t {
  status = c.status;
  finding_count = c.finding_count;
  consensus_reached = c.consensus_reached;
  elapsed_seconds = some c.elapsed_seconds;
  completed_at = some now;
}

-- `scalar_one_or_none` raises on two rows; one row is written back by its primary key.
unfoldable pub complete_turn : ℕ → Key → Completion → List PrReviewTurn → Option (List PrReviewTurn)
complete_turn now k c turns = elim (select (has_key k) turns) [
  | [] ↦ some turns
  | t ∷ rest ↦ elim rest [
    | [] ↦
        if is_status c.status
        then some (update_where (λ r. r.id == t.id) (completed_by c now) turns)
        else none
    | u ∷ us ↦ none
  ]
]

-- The last row of the list.
unfoldable pub last : List PrReviewTurn → Option PrReviewTurn
last [] = none
last (t ∷ ts) = elim (last ts) [ none ↦ some t | some u ↦ some u ]

-- Of rows that were made at the same moment the database may return any; here, the one that was
-- inserted last.
unfoldable pub latest_for : String → String → List PrReviewTurn → Option PrReviewTurn
latest_for pr_url head_sha turns = last (
    sort_by (λ t. t.created_at)
      (select (λ t. str_eq t.pr_url pr_url && str_eq t.head_sha head_sha) turns))

unfoldable pub turns_for_stage : String → String → String → List PrReviewTurn → List PrReviewTurn
turns_for_stage pr_url head_sha stage turns =
    sort_by (λ t. t.created_at)
      (select (λ t. str_eq t.pr_url pr_url && str_eq t.head_sha head_sha && str_eq t.stage stage)
        turns)

-- `rowcount > 0`, and the table, of an `update(...).where(p).values(...)`.
abbrev pub update_rows :
    (PrReviewTurn → Bool)
    → (PrReviewTurn → PrReviewTurn)
    → List PrReviewTurn
    → Bool × List PrReviewTurn
update_rows p f turns = (any p turns, update_where p f turns)

abbrev pub is_unposted : Key → PrReviewTurn → Bool
is_unposted k t = has_key k t && not (is_some t.posted_at)

unfoldable pub mark_posted : ℕ → Key → List PrReviewTurn → Bool × List PrReviewTurn
mark_posted now k = update_rows (is_unposted k) (λ t. record t { posted_at = some now })

abbrev pub is_failed : Key → PrReviewTurn → Bool
is_failed k t = has_key k t && str_eq t.status "failed"

abbrev pub restarted : PrReviewTurn → PrReviewTurn
restarted t = record t {
  status = "running";
  finding_count = none;
  consensus_reached = false;
  elapsed_seconds = none;
  completed_at = none;
}

unfoldable pub reset_to_running : Key → List PrReviewTurn → Bool × List PrReviewTurn
reset_to_running k = update_rows (is_failed k) restarted

-- `accepted`: whether the database takes the JSON. If not, DBAPIError is raised after a rollback.
unfoldable pub record_findings_and_learnings :
    Bool → Key → List Json → List Json → List PrReviewTurn → Option (List PrReviewTurn)
record_findings_and_learnings accepted k findings learnings turns =
    if accepted
    then some (
        update_where (has_key k)
          (λ t. record t { findings_json = some findings; learnings_json = some learnings }) turns)
    else none

unfoldable pub set_outcome : Key → String → List PrReviewTurn → List PrReviewTurn
set_outcome k outcome = update_where (has_key k) (λ t. record t { outcome = some outcome })

-- PriorTurnSummary (src/review/interfaces.py); `author_responses`, by the index of a finding, is
-- filled by the gateway.
pub record PriorTurnSummary : Type 0 where
  pub head_sha : String
  pub turn_number : ℕ
  pub findings : List Json
  pub learnings : List Json
  pub author_responses : List (String × String)

abbrev pub or_empty : Option (List Json) → List Json
or_empty none = []
or_empty (some xs) = xs

unfoldable pub summaries : List PrReviewTurn → List PriorTurnSummary
summaries [] = []
summaries (t ∷ ts) =
    record {
      head_sha = t.head_sha;
      turn_number = t.turn_number;
      findings = or_empty t.findings_json;
      learnings = or_empty t.learnings_json;
      author_responses = [];
    }
    ∷ summaries ts

unfoldable pub prior_findings_and_learnings :
    String → String → List PrReviewTurn → List PriorTurnSummary
prior_findings_and_learnings pr_url stage turns = summaries (
    sort_by (λ t. t.created_at)
      (select
        (λ t.
          str_eq t.pr_url pr_url
          && str_eq t.stage stage
          && str_eq t.status "completed"
          && is_some t.findings_json)
        turns))
